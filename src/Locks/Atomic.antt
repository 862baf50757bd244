-- ===== src/Locks/Atomic.antt =====
-- The critical sections of server/sclient.cpp, run statement by statement under the mutex, do what
-- whole sections one after the other do.
use fap2_srv.Prelude.{
  ℕ, ◌==◌, false, Option, none, some, [], ◌∷◌, ◌++◌, ◌≡◌, refl, sym, ap, ◌∙◌, subst, fun_ext, arith,
  length, erase_at, inl, inr, Option-cases, codes, print_int,
}
use mathlib.Core.Option
use fap2_srv.Server.{Session, Server, update}
use fap2_srv.Registry.{find_index, numbered, register, unregister, set_name}
use fap2_srv.Handler.{send}
use fap2_srv.Locks.{
  Section, entering, leaving, sending, Point, begins, in_loop, gone, waits, at_set_id, at_set_name,
  at_push_back, at_find_index, at_erase, at_send, at_unlock, Machine, behind, first_point, found_at,
  statement, moved, Micro, calls, locks, runs, unlocks, changes, Runs, idle, then, opened, Unlocked,
  change,
}
use fap2_srv.Locks.Exclusion.{inside, before-inside, statement-inside, Runs-Exclusive, Exclusive}
use fap2_srv.Locks.Overlay.{section, section-change}

-- What the rest of a section does, up to UnlockMutex.
unfoldable pub rest : {W : Type 0} → ℕ → Point → Server W → Option (Server W)
unfolding set_name send find_index unregister
rest a begins s = none
rest a in_loop s = none
rest a gone s = none
rest a (waits w) s = none
rest a at_set_id s =
    let id = length s.clients in
    some (record s {
      sessions = update s.sessions a (numbered id (s.sessions a));
      clients = s.clients ++ a ∷ [];
    })
rest a at_set_name s = some (record s {
  sessions =
      update s.sessions a
        (set_name (codes "SessionClient n." ++ print_int (s.sessions a).id) (s.sessions a));
  clients = s.clients ++ a ∷ [];
})
rest a at_push_back s = some (record s { clients = s.clients ++ a ∷ [] })
rest a at_find_index s = unregister a s
rest a (at_erase i) s = some (record s { clients = erase_at i s.clients })
rest a (at_send text) s = some (send a text s).1
rest a (at_unlock w) s = some s

-- Whole sections, and what runs outside of them, one after the other.
pub data Atomic {W : Type 0} (s : Server W) : Server W → Type 0 where
  untouched : Atomic s s
  does : {t u : Server W} (a : ℕ) (w : Section) → Atomic s t → section a w t ≡ some u → Atomic s u
  changed : {t : Server W} (u : Unlocked W) → Atomic s t → Atomic s (change u t)

-- How the state of the threads stands to a state between whole sections: it is that state, or the
-- thread that holds the mutex leads where its whole section would lead from there.
pub data Pending {W : Type 0} (m : Machine W) (t : Server W) : Type 0 where
  free : m.owner ≡ none → m.server ≡ t → Pending m t
  held :
      (a : ℕ) (w : Section)
      → m.owner ≡ some a
      → rest a (m.point a) m.server ≡ section a w t
      → Pending m t

pub update_self : (f : ℕ → Point) (a : ℕ) (p : Point) → update f a p a ≡ p
update_self f a p = ground arith

module _ {W : Type 0} where
  pub rest-first : (a : ℕ) (w : Section) (s : Server W) → rest a (first_point w) s ≡ section a w s
  unfolding rest section register
  rest-first a entering s = refl
  rest-first a leaving s = refl
  rest-first a (sending text) s = refl

  rest-found :
      (a : ℕ) (s t : Server W) (q : Point)
      → found_at s (find_index s.sessions (s.sessions a).id s.clients) ≡ some (q, t)
      → unregister a s ≡ rest a q t
  unfolding unregister rest
  rest-found a s t q e = elim (Option-cases (find_index s.sessions (s.sessions a).id s.clients)) [
    | inl miss ↦ absurd (cc (rw miss at e))
    | inr (i, hit) ↦ rw hit (ground (arith, rw hit at e))
  ]

  named :
      (a : ℕ) (s : Server W)
      → rest a at_set_id s
        ≡ rest a at_set_name (record s {
          sessions = update s.sessions a (record (s.sessions a) { id = length s.clients });
        })
  unfolding rest numbered
  named a s =
      ap (λ (f : ℕ → Session). some (record s { sessions = f; clients = s.clients ++ a ∷ [] }))
        (fun_ext λ b. ground arith)

  rest-same : (a : ℕ) (x y : Point × Server W) → some x ≡ some y → rest a x.0 x.1 ≡ rest a y.0 y.1
  rest-same a x y e = let same : x ≡ y = cc in ap (λ (r : Point × Server W). rest a r.0 r.1) same

  pub statement-rest :
      (a : ℕ) (p q : Point) (s t : Server W)
      → statement a p s ≡ some (q, t)
      → rest a p s ≡ rest a q t
  unfolding statement rest
  statement-rest a begins q s t e = absurd (cc)
  statement-rest a in_loop q s t e = absurd (cc)
  statement-rest a gone q s t e = absurd (cc)
  statement-rest a (waits w) q s t e = absurd (cc)
  statement-rest a (at_unlock w) q s t e = absurd (cc)
  statement-rest a at_set_id q s t e = named a s ∙ rest-same a _ (q, t) e
  statement-rest a at_set_name q s t e = ground arith
  statement-rest a at_push_back q s t e = ground arith
  statement-rest a at_find_index q s t e = rest-found a s t q e
  statement-rest a (at_erase i) q s t e = ground arith
  statement-rest a (at_send text) q s t e = ground arith

  rest-change :
      (u : Unlocked W) (a : ℕ) (p : Point) (s : Server W)
      → rest a p (change u s) ≡ Option.map (change u) (rest a p s)
  unfolding rest section set_name numbered register unregister send
  rest-change u a begins s = refl
  rest-change u a in_loop s = refl
  rest-change u a gone s = refl
  rest-change u a (waits w) s = refl
  rest-change u a (at_unlock w) s = refl
  rest-change u a at_set_id s = section-change u a entering s
  rest-change u a at_set_name s =
      ap
        (λ (f : ℕ → Session).
          some (record (change u s) { sessions = f; clients = s.clients ++ a ∷ [] }))
        (fun_ext λ b. ground arith)
  rest-change u a at_push_back s = refl
  rest-change u a at_find_index s = section-change u a leaving s
  rest-change u a (at_erase i) s = refl
  rest-change u a (at_send text) s = refl

  -- The state of a thread that does not hold the mutex plays no role.
  Pending-other :
      (m : Machine W) (t : Server W) (a : ℕ) (p : Point)
      → Exclusive m
      → inside (m.point a) ≡ false
      → Pending m t
      → Pending (moved m a p) t
  Pending-other m t a p v out (free none_holds same) = free none_holds same
  Pending-other m t a p v out (held b w owns same) =
      let apart : (a == b) ≡ false = ground (arith, v b) in held b w owns (rw apart same)

  abbrev pub Refines : Server W → Machine W → Type 0
  Refines s m = (t : Server W) × Atomic s t × Pending m t

  changes-Pending :
      (u : Unlocked W) (m : Machine W) (t : Server W)
      → Pending m t
      → Pending (record m { server = change u m.server }) (change u t)
  changes-Pending u m t (free none_holds same) = free none_holds (ap (change u) same)
  changes-Pending u m t (held b w owns same) = held b w owns (
      rest-change u b (m.point b) m.server
      ∙ ap (Option.map (change u)) same
      ∙ sym (section-change u b w t))

  locks-Pending :
      (m : Machine W) (t : Server W) (a : ℕ) (w : Section)
      → m.owner ≡ none
      → Pending m t
      → Pending (record (moved m a (first_point w)) { owner = some a }) t
  locks-Pending m t a w is_free (free none_holds same) = held a w refl (
      ap (λ (p : Point). rest a p m.server) (update_self m.point a (first_point w))
      ∙ rest-first a w m.server
      ∙ ap (section a w) same)
  locks-Pending m t a w is_free (held b x owns same) = absurd (cc)

  runs-Pending :
      (m : Machine W) (t u : Server W) (a : ℕ) (p : Point)
      → Exclusive m
      → statement a (m.point a) m.server ≡ some (p, u)
      → Pending m t
      → Pending (record (moved m a p) { server = u }) t
  runs-Pending m t u a p v e (free none_holds same) =
      let mine = (v a).0 (statement-inside a (m.point a) p m.server u e).0 in absurd (cc)
  runs-Pending m t u a p v e (held b w owns same) =
      let mine = (v a).0 (statement-inside a (m.point a) p m.server u e).0 in
      let me : b ≡ a = cc in
      held a w mine (
        ap (λ (q : Point). rest a q u) (update_self m.point a p)
        ∙ sym (statement-rest a (m.point a) p m.server u e)
        ∙ subst (λ (c : ℕ). rest c (m.point c) m.server ≡ section c w t) me same)

  unlocks-Pending :
      (s : Server W) (m : Machine W) (t : Server W) (a : ℕ) (w : Section)
      → Exclusive m
      → m.point a ≡ at_unlock w
      → Atomic s t
      → Pending m t
      → Refines s (record (moved m a (behind w)) { owner = none })
  unfolding rest
  unlocks-Pending s m t a w v at r (free none_holds same) =
      let mine = (v a).0 (ap inside at) in absurd (cc)
  unlocks-Pending s m t a w v at r (held b x owns same) =
      let mine = (v a).0 (ap inside at) in
      let me : b ≡ a = cc in
      let mine_same = subst (λ (c : ℕ). rest c (m.point c) m.server ≡ section c x t) me same in
      (m.server, does a x r (sym (rw at at mine_same)), free refl refl)

  Micro-Refines :
      (s : Server W) {m n : Machine W} → Micro m n → Exclusive m → Refines s m → Refines s n
  Micro-Refines s {m} (calls a w at) v (t, r, h) =
      (t, r, Pending-other m t a (waits w) v (ap inside at ∙ before-inside w) h)
  Micro-Refines s {m} (locks a w at is_free) v (t, r, h) = (t, r, locks-Pending m t a w is_free h)
  Micro-Refines s {m} (runs a p u e) v (t, r, h) = (t, r, runs-Pending m t u a p v e h)
  Micro-Refines s {m} (unlocks a w at) v (t, r, h) = unlocks-Pending s m t a w v at r h
  Micro-Refines s {m} (changes u) v (t, r, h) = (change u t, changed u r, changes-Pending u m t h)

  -- However the threads run their statements between LockMutex and UnlockMutex, and whatever code
  -- outside of the sections changes meanwhile, the state is one that whole sections, one after the
  -- other, and that code lead to, or the thread that holds the mutex is on the way to where its
  -- whole section leads from such a state.
  pub Runs-Refines :
      {s : Server W} {m : Machine W} → Runs (opened s) m → (t : Server W) × Atomic s t × Pending m t
  Runs-Refines {s} idle = (s, untouched, free refl refl)
  Runs-Refines {s} (then r st) = Micro-Refines s st (Runs-Exclusive r) (Runs-Refines r)
