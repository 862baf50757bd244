-- ===== src/Registry/Counts.antt =====
-- How often an id stands in a list of sessions, and what the critical sections do to that.
use fap2_srv.Prelude.{
  ℕ, zero, suc, ◌+◌, ◌<◌, ◌==◌, if◌then◌else◌, some, List, [], ◌∷◌, ◌++◌, length, erase_at, ◌≡◌,
  inl, inr, Bool-cases, refl, arith, ap, All, get_elem?, false,
}
use fap2_srv.Server.{Session, Server, update}
use fap2_srv.Registry.{find_index, unregister}

-- The entries with the id.
abbrev pub count_id : (ℕ → Session) → ℕ → List ℕ → ℕ
count_id heap k [] = 0
count_id heap k (b ∷ rest) = (if (heap b).id == k then 1 else 0) + count_id heap k rest

pub count_id-append :
    (heap : ℕ → Session) (k : ℕ) (xs ys : List ℕ)
    → count_id heap k (xs ++ ys) ≡ count_id heap k xs + count_id heap k ys
count_id-append heap k [] ys = omega arith
count_id-append heap k (x ∷ xs) ys = omega (arith, count_id-append heap k xs ys)

pub count_id-same :
    (heap heap' : ℕ → Session) (k : ℕ) (xs : List ℕ)
    → ((b : ℕ) → (heap' b).id ≡ (heap b).id)
    → count_id heap' k xs ≡ count_id heap k xs
count_id-same heap heap' k [] same = refl
count_id-same heap heap' k (x ∷ xs) same =
    ground (arith, same x, count_id-same heap heap' k xs same)

count_rest :
    (heap : ℕ → Session) (k x : ℕ) (xs : List ℕ)
    → ((heap x).id == k) ≡ false
    → 0 < count_id heap k (x ∷ xs)
    → 0 < count_id heap k xs
count_rest heap k x xs e h = ground arith

-- An id that stands in the list is found.
pub find_index-some :
    (heap : ℕ → Session) (k : ℕ) (xs : List ℕ)
    → 0 < count_id heap k xs
    → (i : ℕ) × (find_index heap k xs ≡ some i)
unfolding find_index
find_index-some heap k [] h = absurd (omega arith)
find_index-some heap k (x ∷ xs) h = elim (Bool-cases ((heap x).id == k)) [
  | inl e ↦ (0, rw e)
  | inr e ↦
      let (i, found) = find_index-some heap k xs (count_rest heap k x xs e h) in
      (suc i, rw (e, found))
]

-- The entry that is found and erased is one with the id.
pub count_id-erase_at :
    (heap : ℕ → Session) (k j i : ℕ) (xs : List ℕ)
    → find_index heap k xs ≡ some i
    → (if k == j then 1 else 0) + count_id heap j (erase_at i xs) ≡ count_id heap j xs
unfolding find_index
count_id-erase_at heap k j i [] h = cc
count_id-erase_at heap k j zero (x ∷ xs) h = ground arith
count_id-erase_at heap k j (suc i) (x ∷ xs) h = ground (arith, count_id-erase_at heap k j i xs)

-- A session of the list counts.
pub count_id-get_elem? :
    (heap : ℕ → Session) (a i : ℕ) (xs : List ℕ)
    → get_elem? xs i ≡ some a
    → 0 < count_id heap (heap a).id xs
count_id-get_elem? heap a i [] h = cc
count_id-get_elem? heap a zero (x ∷ xs) h = ground arith
count_id-get_elem? heap a (suc i) (x ∷ xs) h = ground (arith, count_id-get_elem? heap a i xs)

pub count_id-remove :
    (heap : ℕ → Session) (a j i : ℕ) (xs : List ℕ)
    → get_elem? xs i ≡ some a
    → (if (heap a).id == j then 1 else 0) + count_id heap j (erase_at i xs) ≡ count_id heap j xs
count_id-remove heap a j i [] h = cc
count_id-remove heap a j zero (x ∷ xs) h = ground arith
count_id-remove heap a j (suc i) (x ∷ xs) h = ground (arith, count_id-remove heap a j i xs)

pub length-erase_found :
    (heap : ℕ → Session) (k i : ℕ) (xs : List ℕ)
    → find_index heap k xs ≡ some i
    → length (erase_at i xs) + 1 ≡ length xs
unfolding find_index
length-erase_found heap k i [] h = absurd (cc)
length-erase_found heap k zero (x ∷ xs) h = omega arith
length-erase_found heap k (suc i) (x ∷ xs) h = ground (arith, length-erase_found heap k i xs)

-- The first entry with the id is the one that is found.
pub find_index-append :
    (heap : ℕ → Session) (k b : ℕ) (xs ys : List ℕ)
    → count_id heap k xs ≡ 0
    → (heap b).id ≡ k
    → find_index heap k (xs ++ b ∷ ys) ≡ some (length xs)
unfolding find_index
find_index-append heap k b [] ys h e = ground arith
find_index-append heap k b (x ∷ xs) ys h e = ground (arith, find_index-append heap k b xs ys)

erase_at-append : (b : ℕ) (xs ys : List ℕ) → erase_at (length xs) (xs ++ b ∷ ys) ≡ xs ++ ys
erase_at-append b [] ys = refl
erase_at-append b (x ∷ xs) ys = ap (λ (t : List ℕ). x ∷ t) (erase_at-append b xs ys)

-- A disconnect takes the first entry with the id of the session out of the list, whichever session
-- that is, and leaves the others in their order.
pub unregister_first :
    {W : Type 0} (a b : ℕ) (s : Server W) (xs ys : List ℕ)
    → s.clients ≡ xs ++ b ∷ ys
    → (s.sessions b).id ≡ (s.sessions a).id
    → count_id s.sessions (s.sessions a).id xs ≡ 0
    → unregister a s ≡ some (record s { clients = xs ++ ys })
unfolding unregister
unregister_first a b s xs ys e same none_before =
    rw (e, find_index-append s.sessions (s.sessions a).id b xs ys none_before same)
      (rw (erase_at-append b xs ys))

-- A session that is not in the list does not matter to its counts.
pub count_id-update :
    (P : ℕ → Type 0) (heap : ℕ → Session) (a k : ℕ) (c : Session) (xs : List ℕ)
    → All P xs
    → ((b : ℕ) → P b → (a == b) ≡ false)
    → count_id (update heap a c) k xs ≡ count_id heap k xs
count_id-update P heap a k c [] h ne = refl
count_id-update P heap a k c (x ∷ xs) h ne =
    ground (arith, ne x h.0, count_id-update P heap a k c xs h.1 ne)
