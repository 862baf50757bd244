-- ===== src/Locks/Exclusion.antt =====
-- The mutex of server/sthread.cpp admits one thread at a time.
use fap2_srv.Prelude.{ℕ, Bool, true, false, Option, none, some, ◌≡◌, ◌↔◌, refl, arith}
use fap2_srv.Server.{Server}
use fap2_srv.Locks.{
  Section, entering, leaving, sending, Point, begins, in_loop, gone, waits, at_set_id, at_set_name,
  at_push_back, at_find_index, at_erase, at_send, at_unlock, Machine, behind, first_point, before,
  found_at, statement, Micro, calls, locks, runs, unlocks, changes, Runs, idle, then, opened,
}

-- Between LockMutex and UnlockMutex.
abbrev pub inside : Point → Bool
inside begins = false
inside in_loop = false
inside gone = false
inside (waits w) = false
inside at_set_id = true
inside at_set_name = true
inside at_push_back = true
inside at_find_index = true
inside (at_erase i) = true
inside (at_send text) = true
inside (at_unlock w) = true

pub before-inside : (w : Section) → inside (before w) ≡ false
before-inside entering = refl
before-inside leaving = refl
before-inside (sending text) = refl

behind-inside : (w : Section) → inside (behind w) ≡ false
behind-inside entering = refl
behind-inside leaving = refl
behind-inside (sending text) = refl

pub first_point-inside : (w : Section) → inside (first_point w) ≡ true
first_point-inside entering = refl
first_point-inside leaving = refl
first_point-inside (sending text) = refl

module _ {W : Type 0} where
  found_at-inside :
      (s : Server W) (q : Point) (t : Server W) (found : Option ℕ)
      → found_at s found ≡ some (q, t)
      → inside q ≡ true
  found_at-inside s q t none e = absurd (cc)
  found_at-inside s q t (some i) e = ground arith

  -- A statement of a section is run inside of it and stays inside.
  pub statement-inside :
      (a : ℕ) (p q : Point) (s t : Server W)
      → statement a p s ≡ some (q, t)
      → (inside p ≡ true) × (inside q ≡ true)
  unfolding statement
  statement-inside a begins q s t e = absurd (cc)
  statement-inside a in_loop q s t e = absurd (cc)
  statement-inside a gone q s t e = absurd (cc)
  statement-inside a (waits w) q s t e = absurd (cc)
  statement-inside a (at_unlock w) q s t e = absurd (cc)
  statement-inside a at_set_id q s t e = (refl, ground arith)
  statement-inside a at_set_name q s t e = (refl, ground arith)
  statement-inside a at_push_back q s t e = (refl, ground arith)
  statement-inside a at_find_index q s t e = (refl, found_at-inside s q t _ e)
  statement-inside a (at_erase i) q s t e = (refl, ground arith)
  statement-inside a (at_send text) q s t e = (refl, ground arith)

  -- A thread is inside of a section exactly if it holds the mutex.
  abbrev pub Exclusive : Machine W → Type 0
  Exclusive m = (a : ℕ) → (inside (m.point a) ≡ true) ↔ (m.owner ≡ some a)

  pub Micro-Exclusive : {m n : Machine W} → Micro m n → Exclusive m → Exclusive n
  Micro-Exclusive {m} (calls a w at) v = λ b. ground (arith, v b, before-inside w)
  Micro-Exclusive {m} (locks a w at free) v = λ b. ground (arith, v b, v a, first_point-inside w)
  Micro-Exclusive {m} (runs a p t e) v =
      λ b. ground (arith, v b, v a, statement-inside a (m.point a) p m.server t e)
  Micro-Exclusive {m} (unlocks a w at) v = λ b. ground (arith, v b, v a, behind-inside w)
  Micro-Exclusive {m} (changes u) v = v

  pub Runs-Exclusive : {s : Server W} {m : Machine W} → Runs (opened s) m → Exclusive m
  Runs-Exclusive idle = λ a. (λ h. absurd (cc), λ h. absurd (cc))
  Runs-Exclusive (then r st) = Micro-Exclusive st (Runs-Exclusive r)

  -- In every state that the threads can reach, a thread that is between LockMutex and UnlockMutex
  -- holds the mutex, and no two threads are there at once.
  pub inside-one :
      {s : Server W} {m : Machine W} (a b : ℕ)
      → Runs (opened s) m
      → inside (m.point a) ≡ true
      → inside (m.point b) ≡ true
      → (m.owner ≡ some a) × (a ≡ b)
  inside-one a b r ha hb =
      let ea = (Runs-Exclusive r a).0 ha in
      let eb = (Runs-Exclusive r b).0 hb in let e : a ≡ b = cc in (ea, e)
