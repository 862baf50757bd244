-- ===== src/Server/Keeps.antt =====
-- Relations between the states before and after a piece of code, one rule for each way to build it.
use mathlib.Core.Path.{subst}
use fap2_srv.Prelude.{Text, Bool, true, false, if◌then◌else◌, ◌≡◌, refl}
use fap2_srv.Fap.{Outcome, ok, threw}
use fap2_srv.Server.{Server, Exec, pure, throw, lift, ◌>>=◌, after}

-- A relation that an idle step keeps and that two steps compose.
pub record IsPreorder {W : Type 0} (R : Server W → Server W → Type 0) : Type 0 where
  pub idle : (s : Server W) → R s s
  pub join : {s t u : Server W} → R s t → R t u → R s u

-- `m` relates every state to the one that it ends in, whether it returns or throws.
pub record Keeps {W A : Type 0} (R : Server W → Server W → Type 0) (m : Exec W A) : Type 0 where
  pub at : (s : Server W) → R s (m s).1

module _ {W : Type 0} {R : Server W → Server W → Type 0} (pre : IsPreorder R) where
  pub Keeps-pure : {A : Type 0} (a : A) → Keeps R (pure a)
  Keeps-pure a = record { at = pre.idle }

  pub Keeps-throw : {A : Type 0} (e : Text) → Keeps R (throw {A = A} e)
  Keeps-throw e = record { at = pre.idle }

  Keeps-after :
      {A B : Type 0} (r : Outcome A × Server W) (s : Server W) (f : A → Exec W B)
      → R s r.1
      → ((a : A) → Keeps R (f a))
      → R s (after r f).1
  Keeps-after (ok a, t) s f h kf = pre.join h ((kf a).at t)
  Keeps-after (threw e, t) s f h kf = h

  pub Keeps-bind :
      {A B : Type 0} (m : Exec W A) (f : A → Exec W B)
      → Keeps R m
      → ((a : A) → Keeps R (f a))
      → Keeps R (m >>= f)
  Keeps-bind m f km kf = record { at = λ s. Keeps-after (m s) s f (km.at s) kf }

  pub Keeps-if :
      {A : Type 0} (b : Bool) (m n : Exec W A)
      → Keeps R m
      → Keeps R n
      → Keeps R (if b then m else n)
  Keeps-if true m n km kn = km
  Keeps-if false m n km kn = kn

pub if_at :
    {W A : Type 0} (P : Outcome A × Server W → Type 0) (b : Bool) (x y : Outcome A × Server W)
    → P x
    → P y
    → P (if b then x else y)
if_at P true x y px py = px
if_at P false x y px py = py

-- What `m` returns, if it returns, meets `P`.
pub record Yields {W A : Type 0} (P : A → Type 0) (m : Exec W A) : Type 0 where
  pub at : (s : Server W) (a : A) → (m s).0 ≡ ok a → P a

module _ {W : Type 0} where
  pub Yields-pure : {A : Type 0} (P : A → Type 0) (a : A) → P a → Yields {W = W} P (pure a)
  Yields-pure P a h = record { at = λ s b e. subst P (cc) h }

  pub Yields-throw : {A : Type 0} (P : A → Type 0) (e : Text) → Yields {W = W} P (throw e)
  Yields-throw P e = record { at = λ s b h. cc }

  Yields-after :
      {A B : Type 0} (P : B → Type 0) (r : Outcome A × Server W) (f : A → Exec W B) (b : B)
      → ((a : A) → Yields P (f a))
      → (after r f).0 ≡ ok b
      → P b
  Yields-after P (ok a, t) f b kf e = (kf a).at t b e
  Yields-after P (threw w, t) f b kf e = cc

  pub Yields-bind :
      {A B : Type 0} (P : B → Type 0) (m : Exec W A) (f : A → Exec W B)
      → ((a : A) → Yields P (f a))
      → Yields P (m >>= f)
  Yields-bind P m f kf = record { at = λ s b e. Yields-after P (m s) f b kf e }

  pub Yields-if :
      {A : Type 0} (P : A → Type 0) (b : Bool) (m n : Exec W A)
      → Yields P m
      → Yields P n
      → Yields P (if b then m else n)
  Yields-if P true m n km kn = km
  Yields-if P false m n km kn = kn

  -- A call into the library, by its two ways to end.
  pub lift_cases :
      {A B : Type 0} (P : Outcome B × Server W → Type 0) (m : W → Outcome A × W) (f : A → Exec W B)
      (s : Server W)
      → ((what : Text) (w : W) → P (threw what, record s { world = w }))
      → ((a : A) (w : W) → P (f a (record s { world = w })))
      → P ((lift m >>= f) s)
  unfolding lift
  lift_cases P m f s failed done = go (m s.world)
    where
      go : (r : Outcome _ × W) → P (after (r.0, record s { world = r.1 }) f)
      go (ok a, w) = done a w
      go (threw what, w) = failed what w

  -- The same with what the call gave.
  pub lift_ends :
      {A B : Type 0} (P : Outcome B × Server W → Type 0) (m : W → Outcome A × W) (f : A → Exec W B)
      (s : Server W)
      → ((what : Text) (w : W)
          → m s.world ≡ (threw what, w)
          → P (threw what, record s { world = w }))
      → ((a : A) (w : W) → m s.world ≡ (ok a, w) → P (f a (record s { world = w })))
      → P ((lift m >>= f) s)
  unfolding lift
  lift_ends P m f s failed done = go (m s.world) refl
    where
      go : (r : Outcome _ × W) → m s.world ≡ r → P (after (r.0, record s { world = r.1 }) f)
      go (ok a, w) e = done a w e
      go (threw what, w) e = failed what w e
