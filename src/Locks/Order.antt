-- ===== src/Locks/Order.antt =====
-- How often a thread stands in the lists of sessions, at each point of its way through the critical
-- sections of server/sclient.cpp.
use fap2_srv.Prelude.{
  ℕ, zero, suc, ◌+◌, ◌<◌, ◌≤◌, ◌==◌, if◌then◌else◌, Bool, true, false, some, List, [], ◌∷◌, ◌++◌,
  ◌≡◌, refl, sym, subst, arith, erase_at, get_elem?, Bool-cases, inl, inr,
}
use fap2_srv.Server.{Session, update}
use fap2_srv.Registry.Counts.{count_id}
use fap2_srv.Locks.{
  Section, entering, leaving, sending, Point, begins, in_loop, gone, waits, at_set_id, at_set_name,
  at_push_back, at_find_index, at_erase, at_send, at_unlock, behind, first_point, before,
}

-- How often an address stands in a list.
abbrev pub tally : ℕ → List ℕ → ℕ
tally b [] = 0
tally b (x ∷ xs) = (if x == b then 1 else 0) + tally b xs

pub tally-append : (b : ℕ) (xs ys : List ℕ) → tally b (xs ++ ys) ≡ tally b xs + tally b ys
tally-append b [] ys = omega arith
tally-append b (x ∷ xs) ys = omega (arith, tally-append b xs ys)

pub tally-erase_at-le : (b i : ℕ) (xs : List ℕ) → tally b (erase_at i xs) ≤ tally b xs
tally-erase_at-le b i [] = omega arith
tally-erase_at-le b zero (x ∷ xs) = omega arith
tally-erase_at-le b (suc i) (x ∷ xs) = omega (arith, tally-erase_at-le b i xs)

pub tally-erase_at :
    (a b i : ℕ) (xs : List ℕ)
    → get_elem? xs i ≡ some a
    → (if a == b then 1 else 0) + tally b (erase_at i xs) ≡ tally b xs
tally-erase_at a b i [] h = cc
tally-erase_at a b zero (x ∷ xs) h = ground arith
tally-erase_at a b (suc i) (x ∷ xs) h = ground (arith, tally-erase_at a b i xs)

pub tally-get_elem? : (a : ℕ) (xs : List ℕ) → 0 < tally a xs → (i : ℕ) × (get_elem? xs i ≡ some a)
tally-get_elem? a [] h = absurd (omega arith)
tally-get_elem? a (x ∷ xs) h = elim (Bool-cases (x == a)) [
  | inl e ↦ (0, ground arith)
  | inr e ↦ let (i, there) = tally-get_elem? a xs (ground arith) in (suc i, there)
]

-- A session that stands in no entry does not matter to the counts of ids.
pub count_id-absent :
    (heap : ℕ → Session) (a k : ℕ) (c : Session) (xs : List ℕ)
    → tally a xs ≡ 0
    → count_id (update heap a c) k xs ≡ count_id heap k xs
count_id-absent heap a k c [] h = refl
count_id-absent heap a k c (x ∷ xs) h = ground (arith, count_id-absent heap a k c xs)

-- How often a thread at the point stands in the list of those that have registered and not left.
abbrev pub weight : Point → ℕ
weight begins = 0
weight in_loop = 1
weight gone = 0
weight (waits entering) = 0
weight (waits leaving) = 1
weight (waits (sending text)) = 1
weight at_set_id = 0
weight at_set_name = 0
weight at_push_back = 0
weight at_find_index = 1
weight (at_erase i) = 1
weight (at_send text) = 1
weight (at_unlock entering) = 1
weight (at_unlock leaving) = 0
weight (at_unlock (sending text)) = 1

-- The thread has not registered yet.
abbrev pub unregistered : Point → Bool
unregistered begins = true
unregistered in_loop = false
unregistered gone = false
unregistered (waits entering) = true
unregistered (waits leaving) = false
unregistered (waits (sending text)) = false
unregistered at_set_id = true
unregistered at_set_name = true
unregistered at_push_back = true
unregistered at_find_index = false
unregistered (at_erase i) = false
unregistered (at_send text) = false
unregistered (at_unlock w) = false

-- Both points stand alike to the lists, and the second is not in front of an erase.
pub record Alike (p q : Point) : Type 0 where
  pub weight : weight q ≡ weight p
  pub unregistered : unregistered q ≡ unregistered p
  pub no_erase : (i : ℕ) → q ≡ at_erase i → ⊥

pub at_point : {x p q : Point} → x ≡ p → Alike p q → Alike x q
at_point {q = q} e h = subst (λ (y : Point). Alike y q) (sym e) h

pub calls-Alike : (w : Section) → Alike (before w) (waits w)
calls-Alike entering = record { weight = refl; unregistered = refl; no_erase = λ i e. cc }
calls-Alike leaving = record { weight = refl; unregistered = refl; no_erase = λ i e. cc }
calls-Alike (sending text) = record { weight = refl; unregistered = refl; no_erase = λ i e. cc }

pub locks-Alike : (w : Section) → Alike (waits w) (first_point w)
locks-Alike entering = record { weight = refl; unregistered = refl; no_erase = λ i e. cc }
locks-Alike leaving = record { weight = refl; unregistered = refl; no_erase = λ i e. cc }
locks-Alike (sending text) = record { weight = refl; unregistered = refl; no_erase = λ i e. cc }

pub unlocks-Alike : (w : Section) → Alike (at_unlock w) (behind w)
unlocks-Alike entering = record { weight = refl; unregistered = refl; no_erase = λ i e. cc }
unlocks-Alike leaving = record { weight = refl; unregistered = refl; no_erase = λ i e. cc }
unlocks-Alike (sending text) = record { weight = refl; unregistered = refl; no_erase = λ i e. cc }
