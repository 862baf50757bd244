-- ===== src/Prelude/Maps.antt =====
-- `std::map` as an association list; the program never depends on the order of the keys.
use mathlib.Core.Path.{◌≡◌, refl}
use mathlib.Core.Bool.{Bool, true, false, ◌||◌}
use mathlib.Core.List.{List, [], ◌∷◌}
use mathlib.Core.Option.{Option, none, some}
use native.Mathlib.Omega.{arith}
use fap2_srv.Prelude.Tests.{if◌then◌else◌}

-- The test of two keys, and that it decides their equality.
pub record Eq (K : Type 0) : Type 0 where
  pub beq : K → K → Bool
  pub beq_eq : (a b : K) → beq a b ≡ true → a ≡ b
  pub beq_refl : (a : K) → beq a a ≡ true

pub beq_sym : {K : Type 0} ⦃e : Eq K⦄ (a b : K) → e.beq a b ≡ e.beq b a
beq_sym ⦃e⦄ a b = ground (arith, e.beq_eq a b, e.beq_eq b a, e.beq_refl a, e.beq_refl b)

abbrev pub Map : Type 0 → Type 0 → Type 0
Map K V = List (K × V)

module _ {K V : Type 0} ⦃e : Eq K⦄ where
  -- count(k) > 0
  unfoldable pub has : K → Map K V → Bool
  has k [] = false
  has k ((j, v) ∷ m) = e.beq j k || has k m

  -- at(k), where `none` stands for its `out_of_range`.
  unfoldable pub at : K → Map K V → Option V
  at k [] = none
  at k ((j, v) ∷ m) = if e.beq j k then some v else at k m

  -- insert(pair(k, v)): a key that is there keeps its value.
  unfoldable pub insert : K → V → Map K V → Map K V
  insert k v [] = (k, v) ∷ []
  insert k v ((j, w) ∷ m) = if e.beq j k then (j, w) ∷ m else (j, w) ∷ insert k v m

  -- m[k] = v
  unfoldable pub assign : K → V → Map K V → Map K V
  assign k v [] = (k, v) ∷ []
  assign k v ((j, w) ∷ m) = if e.beq j k then (j, v) ∷ m else (j, w) ∷ assign k v m

  pub has-at : (k : K) (m : Map K V) → has k m ≡ elim (at k m) [ none ↦ false | some v ↦ true ]
  unfolding has at
  has-at k [] = refl
  has-at k ((j, v) ∷ m) = ground (arith, has-at k m)

  pub at-insert :
      (k j : K) (v : V) (m : Map K V)
      → has k m ≡ false
      → at j (insert k v m) ≡ (if e.beq k j then some v else at j m)
  unfolding at insert has
  at-insert k j v [] h = refl
  at-insert k j v ((i, w) ∷ m) h =
      ground (arith, at-insert k j v m, e.beq_eq i j, e.beq_eq k j, e.beq_eq i k, e.beq_refl j)

  pub insert-keeps :
      (k j : K) (v w : V) (m : Map K V)
      → has k m ≡ false
      → at j m ≡ some w
      → at j (insert k v m) ≡ some w
  insert-keeps k j v w m new old =
      ground (arith, at-insert k j v m new, e.beq_eq k j, has-at k m, new, old)

  pub at-assign :
      (k j : K) (v : V) (m : Map K V) → at j (assign k v m) ≡ (if e.beq k j then some v else at j m)
  unfolding at assign
  at-assign k j v [] = refl
  at-assign k j v ((i, w) ∷ m) = ground (
    arith,
    at-assign k j v m,
    e.beq_eq i j,
    e.beq_eq k j,
    e.beq_eq i k,
    e.beq_refl j,
    beq_sym k j,
  )
