-- ===== src/Server/Related.antt =====
-- Code that gives the same on related states and keeps them related, one rule for each way to build
-- it.
use fap2_srv.Prelude.{Text, Bool, true, false, if◌then◌else◌, ◌≡◌, refl, subst}
use fap2_srv.Fap.{Outcome, ok, threw}
use fap2_srv.Server.{Server, Exec, pure, throw, ◌>>=◌, after}

module _ {W : Type 0} (R : Server W → Server W → Type 0) where
  -- The same outcome in related states.
  pub record Agree {A : Type 0} (x y : Outcome A × Server W) : Type 0 where
    pub outcome : x.0 ≡ y.0
    pub states : R x.1 y.1

  pub record Respects {A : Type 0} (m : Exec W A) : Type 0 where
    pub at : {s t : Server W} → R s t → Agree (m s) (m t)

module _ {W : Type 0} {R : Server W → Server W → Type 0} where
  pub Respects-pure : {A : Type 0} (a : A) → Respects R (pure a)
  Respects-pure a = record { at = λ r. record { outcome = refl; states = r } }

  pub Respects-throw : {A : Type 0} (e : Text) → Respects R (throw {A = A} e)
  Respects-throw e = record { at = λ r. record { outcome = refl; states = r } }

  same_outcome :
      {A B : Type 0} (o : Outcome A) (f : A → Exec W B) {s t : Server W}
      → ((a : A) → Respects R (f a))
      → R s t
      → Agree R (after (o, s) f) (after (o, t) f)
  same_outcome (ok a) f kf r = (kf a).at r
  same_outcome (threw e) f kf r = record { outcome = refl; states = r }

  pub Agree-after :
      {A B : Type 0} (x y : Outcome A × Server W) (f : A → Exec W B)
      → Agree R x y
      → ((a : A) → Respects R (f a))
      → Agree R (after x f) (after y f)
  Agree-after (o, s) (o', t) f h kf =
      subst (λ q. Agree R (after (o, s) f) (after (q, t) f)) h.outcome
        (same_outcome o f kf h.states)

  pub Respects-bind :
      {A B : Type 0} (m : Exec W A) (f : A → Exec W B)
      → Respects R m
      → ((a : A) → Respects R (f a))
      → Respects R (m >>= f)
  Respects-bind m f km kf = record { at = λ r. Agree-after _ _ f (km.at r) kf }

  -- Code that looks at the state and goes on with what it saw.
  pub Respects-read :
      {A B : Type 0} (look : Server W → B) (k : B → Exec W A)
      → ((s t : Server W) → R s t → look s ≡ look t)
      → ((x : B) → Respects R (k x))
      → Respects R (λ s. k (look s) s)
  Respects-read look k same kk = record {
    at = λ {s} {t} r. subst (λ x. Agree R (k (look s) s) (k x t)) (same s t r) ((kk (look s)).at r);
  }

  pub Respects-if :
      {A : Type 0} (b : Bool) (m n : Exec W A)
      → Respects R m
      → Respects R n
      → Respects R (if b then m else n)
  Respects-if true m n km kn = km
  Respects-if false m n km kn = kn
