-- ===== src/Locks/Steps.antt =====
-- The steps of the threads of a process as runs of their statements.
use fap2_srv.Prelude.{
  ℕ, Option, none, some, Option-cases, inl, inr, ◌≡◌, refl, sym, ap, ◌∙◌, subst, fun_ext, arith,
}
use fap2_srv.Fap.{Fap}
use fap2_srv.Server.{Server, update}
use fap2_srv.Session.Owned.{Owned}
use fap2_srv.Registry.{find_index, unregister}
use fap2_srv.Threads.{System, Step, accepts, built, starts, goes_on, ends}
use fap2_srv.Locks.{
  Section, entering, leaving, sending, Point, begins, in_loop, gone, waits, at_set_id, at_set_name,
  at_push_back, at_find_index, at_erase, at_send, at_unlock, Machine, behind, first_point, before,
  found_at, statement, calls, locks, runs, unlocks, Runs, then,
}
use fap2_srv.Locks.Overlay.{section}
use fap2_srv.Locks.Atomic.{rest, update_self, rest-first, statement-rest}

update_again :
    (points : ℕ → Point) (a : ℕ) (p q : Point) → update (update points a p) a q ≡ update points a q
update_again points a p q = fun_ext λ b. ground arith

module _ {W : Type 0} where
  -- Nobody holds the mutex.
  abbrev pub at_rest : Server W → (ℕ → Point) → Machine W
  at_rest s points = record { server = s; owner = none; point = points }

  -- The thread holds it and stands at a point.
  abbrev holding : Server W → ℕ → Point → (ℕ → Point) → Machine W
  holding s a p points = record { server = s; owner = some a; point = update points a p }

  -- The thread stands in a section, of which the rest leads to a state.
  abbrev Going : Machine W → ℕ → (ℕ → Point) → Server W → Point → Server W → Type 0
  Going m a points t p s = Runs m (holding s a p points) × (rest a p s ≡ some t)

  enters :
      (m : Machine W) (a : ℕ) (points : ℕ → Point) (w : Section) (s t : Server W)
      → points a ≡ before w
      → section a w s ≡ some t
      → Runs m (at_rest s points)
      → Going m a points t (first_point w) s
  enters m a points w s t e f r = (
    subst (λ (ps : ℕ → Point). Runs m (record { server = s; owner = some a; point = ps }))
        (update_again points a (waits w) (first_point w))
        (then (then r (calls a w e)) (locks a w (update_self points a (waits w)) refl)),
    rest-first a w s ∙ f,
  )

  goes :
      (m : Machine W) (a : ℕ) (points : ℕ → Point) (t s s' : Server W) (p q : Point)
      → statement a p s ≡ some (q, s')
      → Going m a points t p s
      → Going m a points t q s'
  goes m a points t s s' p q e (r, f) = (
    subst (λ (ps : ℕ → Point). Runs m (record { server = s'; owner = some a; point = ps }))
        (update_again points a p q)
        (then r (runs a q s' (ap (λ x. statement a x s) (update_self points a p) ∙ e))),
    sym (statement-rest a p q s s' e) ∙ f,
  )

  leaves :
      (m : Machine W) (a : ℕ) (points : ℕ → Point) (w : Section) (t s : Server W)
      → Going m a points t (at_unlock w) s
      → Runs m (at_rest t (update points a (behind w)))
  unfolding rest
  leaves m a points w t s (r, f) =
      subst (λ (u : Server W). Runs m (at_rest u (update points a (behind w)))) (cc)
        (subst (λ (ps : ℕ → Point). Runs m (at_rest s ps))
          (update_again points a (at_unlock w) (behind w))
          (then r (unlocks a w (update_self points a (at_unlock w)))))

  inside_of :
      (m : Machine W) (a : ℕ) (points : ℕ → Point) (w : Section) (s t : Server W)
      → Going m a points t (first_point w) s
      → Runs m (at_rest t (update points a (behind w)))
  unfolding statement rest unregister
  inside_of m a points entering s t r = leaves m a points entering t _ (
      goes m a points t _ _ at_push_back (at_unlock entering) refl (
        goes m a points t _ _ at_set_name at_push_back refl
          (goes m a points t s _ at_set_id at_set_name refl r)))
  inside_of m a points leaving s t r =
      elim (Option-cases (find_index s.sessions (s.sessions a).id s.clients)) [
        | inl miss ↦ absurd (cc (rw miss at r.1))
        | inr (i, hit) ↦ leaves m a points leaving t _ (
            goes m a points t s _ (at_erase i) (at_unlock leaving) refl
              (goes m a points t s s at_find_index (at_erase i) (ap (found_at s) hit) r))
      ]
  inside_of m a points (sending text) s t r =
      leaves m a points (sending text) t _
        (goes m a points t s _ (at_send text) (at_unlock (sending text)) refl r)

  -- A whole section is a run of its statements under the mutex.
  pub section-Runs :
      (m : Machine W) (a : ℕ) (points : ℕ → Point) (w : Section) (s t : Server W)
      → points a ≡ before w
      → section a w s ≡ some t
      → Runs m (at_rest s points)
      → Runs m (at_rest t (update points a (behind w)))
  section-Runs m a points w s t e f r = inside_of m a points w s t (enters m a points w s t e f r)

module _ {W : Type 0} (fap : Fap W) where
  -- The thread of a session that makes a step, and where it stands before and behind it; `none` for
  -- the main thread.
  abbrev pub mover : {y z : System W} → Step fap y z → Option (ℕ × Point × Point)
  mover (accepts sock main) = none
  mover (built a t main e) = none
  mover (starts a new) = some (a, begins, in_loop)
  mover (goes_on a i event t run e) = some (a, in_loop, in_loop)
  mover (ends a i event t run e) = some (a, in_loop, gone)

  abbrev Moves : System W → System W → (ℕ → Point) → ℕ × Point × Point → Type 0
  Moves y z points x =
      points x.0 ≡ x.1 → Runs (at_rest y.server points) (at_rest z.server (update points x.0 x.2))
