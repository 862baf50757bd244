-- ===== src/Locks/Progress.antt =====
-- A thread that waits for the mutex of server/sthread.cpp gets through its critical section.
use fap2_srv.Prelude.{
  ℕ, true, none, some, ◌≡◌, ◌≢◌, refl, ap, ◌∙◌, subst, arith, inl, inr, Option-cases,
}
use fap2_srv.Server.{Server}
use fap2_srv.Registry.{find_index}
use fap2_srv.Locks.{
  Section, entering, leaving, sending, Point, begins, in_loop, gone, waits, at_set_id, at_set_name,
  at_push_back, at_find_index, at_erase, at_send, at_unlock, Machine, behind, first_point, found_at,
  statement, moved, Micro, locks, runs, unlocks, Runs, idle, then, opened,
}
use fap2_srv.Locks.Exclusion.{inside, first_point-inside, Runs-Exclusive}

-- The section whose statement it is.
abbrev section_of : Point → Section
section_of begins = entering
section_of in_loop = entering
section_of gone = leaving
section_of (waits w) = w
section_of at_set_id = entering
section_of at_set_name = entering
section_of at_push_back = entering
section_of at_find_index = leaving
section_of (at_erase i) = leaving
section_of (at_send text) = sending text
section_of (at_unlock w) = w

-- The entry at index -1 is read.
abbrev pub Astray : {W : Type 0} → Machine W → ℕ → Type 0
Astray m a =
    (m.point a ≡ at_find_index)
    × (find_index m.server.sessions (m.server.sessions a).id m.server.clients ≡ none)

-- A thread left its section and gave the mutex back; no other thread moved.
pub record Released {W : Type 0} (m : Machine W) (a : ℕ) (w : Section) : Type 0 where
  pub state : Machine W
  pub reached : Runs m state
  pub free : state.owner ≡ none
  pub out : state.point a ≡ behind w
  pub others : (b : ℕ) → b ≢ a → state.point b ≡ m.point b

-- A thread in a section leaves it, or comes to the entry at index -1.
pub data Leads {W : Type 0} (m : Machine W) (a : ℕ) (w : Section) : Type 0 where
  leaves : Released m a w → Leads m a w
  strays : (n : Machine W) (b : ℕ) → Runs m n → Astray n b → Leads m a w

section_of-first : (w : Section) → section_of (first_point w) ≡ w
section_of-first entering = refl
section_of-first leaving = refl
section_of-first (sending text) = refl

-- A thread got through its section, or some thread came to the entry at index -1.
pub data Passes {W : Type 0} (m : Machine W) (a : ℕ) (w : Section) : Type 0 where
  passes : (n : Machine W) → Runs m n → n.owner ≡ none → n.point a ≡ behind w → Passes m a w
  astray : (n : Machine W) (b : ℕ) → Runs m n → Astray n b → Passes m a w

module _ {W : Type 0} where
  pub chain : {m n o : Machine W} → Runs m n → Runs n o → Runs m o
  chain r idle = r
  chain r (then q st) = then (chain r q) st

  move_self : (m : Machine W) (a : ℕ) (p : Point) → (moved m a p).point a ≡ p
  move_self m a p = ground arith

  -- A thread at UnlockMutex.
  unlocking : (m : Machine W) (a : ℕ) (w : Section) → m.point a ≡ at_unlock w → Released m a w
  unlocking m a w at = record {
    state = record (moved m a (behind w)) { owner = none };
    reached = then idle (unlocks a w at);
    free = refl;
    out = move_self m a (behind w);
    others = λ b h. ground arith;
  }

  -- What a step of the thread leads to.
  earlier :
      (m n : Machine W) (a : ℕ) (w : Section)
      → Micro m n
      → ((b : ℕ) → b ≢ a → n.point b ≡ m.point b)
      → Leads n a w
      → Leads m a w
  earlier m n a w st same (leaves h) = leaves (record {
    state = h.state;
    reached = chain (then idle st) h.reached;
    free = h.free;
    out = h.out;
    others = λ b k. h.others b k ∙ same b k;
  })
  earlier m n a w st same (strays o b r h) = strays o b (chain (then idle st) r) h

  -- A statement of the section, and what the thread does from there.
  stepping :
      (m : Machine W) (a : ℕ) (w : Section) (p q : Point) (t : Server W)
      → m.point a ≡ p
      → statement a p m.server ≡ some (q, t)
      → ((n : Machine W) → n.point a ≡ q → Leads n a w)
      → Leads m a w
  stepping m a w p q t at e go =
      let e' : statement a (m.point a) m.server ≡ some (q, t) =
        ap (λ (x : Point). statement a x m.server) at ∙ e in
      earlier m (record (moved m a q) { server = t }) a w (runs a q t e') (λ b h. ground arith)
        (go _ (move_self m a q))

  inside-Leads :
      (m : Machine W) (a : ℕ) (p : Point)
      → m.point a ≡ p
      → inside p ≡ true
      → Leads m a (section_of p)
  unfolding statement
  inside-Leads m a begins at e = absurd (cc)
  inside-Leads m a in_loop at e = absurd (cc)
  inside-Leads m a gone at e = absurd (cc)
  inside-Leads m a (waits w) at e = absurd (cc)
  inside-Leads m a (at_unlock w) at e = leaves (unlocking m a w at)
  inside-Leads m a at_push_back at e =
      stepping m a _ _ _ _ at refl λ n h. leaves (unlocking n a entering h)
  inside-Leads m a at_set_name at e =
      stepping m a _ _ _ _ at refl
        λ n h. stepping n a _ _ _ _ h refl λ o k. leaves (unlocking o a entering k)
  inside-Leads m a at_set_id at e = stepping m a _ _ _ _ at refl λ n h.
      stepping n a _ _ _ _ h refl
        λ o k. stepping o a _ _ _ _ k refl λ q l. leaves (unlocking q a entering l)
  inside-Leads m a (at_erase i) at e =
      stepping m a _ _ _ _ at refl λ n h. leaves (unlocking n a leaving h)
  inside-Leads m a (at_send text) at e =
      stepping m a _ _ _ _ at refl λ n h. leaves (unlocking n a (sending text) h)
  inside-Leads m a at_find_index at e =
      elim (Option-cases (find_index m.server.sessions (m.server.sessions a).id m.server.clients)) [
        | inl miss ↦ strays m a idle (at, miss)
        | inr (i, hit) ↦
            stepping m a _ _ _ _ at (ap (found_at m.server) hit)
              λ n h. stepping n a _ _ _ _ h refl λ o k. leaves (unlocking o a leaving k)
      ]

  -- A thread that finds the mutex free.
  entering-Leads :
      (m : Machine W) (a : ℕ) (w : Section) → m.point a ≡ waits w → m.owner ≡ none → Leads m a w
  entering-Leads m a w at is_free =
      let n = record (moved m a (first_point w)) { owner = some a } in
      earlier m n a w (locks a w at is_free) (λ b h. ground arith)
        (subst (Leads n a) (section_of-first w)
          (inside-Leads n a (first_point w) (move_self m a (first_point w)) (first_point-inside w)))

  -- The thread goes on from where a run has led.
  later : (m n : Machine W) (a : ℕ) (w : Section) → Runs m n → Leads n a w → Passes m a w
  later m n a w r (leaves h) = passes h.state (chain r h.reached) h.free h.out
  later m n a w r (strays o b q h) = astray o b (chain r q) h

  after_other :
      (m : Machine W) (a b : ℕ) (w x : Section)
      → m.point a ≡ waits w
      → a ≢ b
      → Leads m b x
      → Passes m a w
  after_other m a b w x at apart (strays n c r h) = astray n c r h
  after_other m a b w x at apart (leaves h) =
      later m h.state a w h.reached (entering-Leads h.state a w (h.others a apart ∙ at) h.free)

  -- A thread that waits for the mutex, in any state that the threads can reach, can get it and
  -- leave its section, unless a thread comes to read the entry at index -1 on the way.
  pub waiting-Passes :
      {s : Server W} {m : Machine W} (a : ℕ) (w : Section)
      → Runs (opened s) m
      → m.point a ≡ waits w
      → Passes m a w
  waiting-Passes {m = m} a w r at = elim (Option-cases m.owner) [
    | inl is_free ↦ later m m a w idle (entering-Leads m a w at is_free)
    | inr (b, owns) ↦
        let within = (Runs-Exclusive r b).1 owns in
        after_other m a b w _ at (λ same. absurd (cc)) (inside-Leads m b (m.point b) refl within)
  ]
