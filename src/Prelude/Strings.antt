-- ===== src/Prelude/Strings.antt =====
-- `std::string` and C strings as lists of bytes, with the searches that the program uses.
use Prim.Native.Char.{code}
use Prim.Native.String.{String}
use Prim.Native.Nat.{ℕ, suc, ◌+◌, ◌≤◌}
use mathlib.Core.Path.{◌≡◌, refl}
use mathlib.Core.Logic.{◌↔◌}
use mathlib.Core.Bool.{Bool, true, false, not, ◌&&◌, ◌||◌}
use mathlib.Core.List.{List, [], ◌∷◌, ◌++◌}
use mathlib.Core.Option
use mathlib.Core.Option.{Option, none, some}
use native.Mathlib.Omega.{arith}
use fap2_srv.Prelude.Tests.{◌==◌, if◌then◌else◌}
use fap2_srv.Prelude.Lists.{length, drop}

abbrev pub Text : Type 0
Text = List ℕ

-- The bytes of a literal.
abbrev pub codes : String → Text
codes String.[] = []
codes (String.◌∷◌ c s) = code c ∷ codes s

-- operator== of `std::string`.
abbrev pub text_eq : Text → Text → Bool
text_eq [] [] = true
text_eq [] (b ∷ t) = false
text_eq (a ∷ s) [] = false
text_eq (a ∷ s) (b ∷ t) = (a == b) && text_eq s t

pub text_eq_self : (s : Text) → text_eq s s ≡ true
text_eq_self [] = refl
text_eq_self (a ∷ s) = ground (arith, text_eq_self s)

pub text_eq-eq : (s t : Text) → text_eq s t ≡ true → s ≡ t
text_eq-eq [] [] h = refl
text_eq-eq [] (b ∷ t) h = cc
text_eq-eq (a ∷ s) [] h = cc
text_eq-eq (a ∷ s) (b ∷ t) h = ground (arith, text_eq-eq s t)

pub text_eq_iff : (s t : Text) → (text_eq s t ≡ true) ↔ (s ≡ t)
text_eq_iff s t = (text_eq-eq s t, λ h. cc (text_eq_self s))

-- Is the byte one of the set?
abbrev pub one_of : Text → ℕ → Bool
one_of [] c = false
one_of (d ∷ set) c = (d == c) || one_of set c

-- find_first_of(set, 0); `none` is `npos`.
unfoldable pub find_first : Text → Text → Option ℕ
find_first set [] = none
find_first set (c ∷ s) = if one_of set c then some 0 else Option.map suc (find_first set s)

-- find_first_of(set, pos).
unfoldable pub find_first_of : Text → Text → ℕ → Option ℕ
unfolding find_first
find_first_of set s pos = Option.map (λ i. pos + i) (find_first set (drop pos s))

-- find_last_of(set).
unfoldable pub find_last_of : Text → Text → Option ℕ
find_last_of set [] = none
find_last_of set (c ∷ s) = elim (find_last_of set s) [
  | some i ↦ some (suc i)
  | none ↦ if one_of set c then some 0 else none
]

-- The bytes that a C string stands for: those in front of the first NUL.
unfoldable pub c_str : Text → Text
c_str [] = []
c_str (c ∷ s) = let rest = c_str s in if c == 0 then [] else c ∷ rest

-- No byte is among the set.
abbrev pub Avoids : Text → Text → Type 0
Avoids set [] = Unit {0}
Avoids set (c ∷ s) = (one_of set c ≡ false) × Avoids set s

-- The test of `Avoids`.
abbrev pub avoids : Text → Text → Bool
avoids set [] = true
avoids set (c ∷ s) = not (one_of set c) && avoids set s

pub avoids-Avoids : (set s : Text) → avoids set s ≡ true → Avoids set s
avoids-Avoids set [] h = tt
avoids-Avoids set (c ∷ s) h = (ground arith, avoids-Avoids set s (ground arith))

pub find_first-Avoids : (set s : Text) → Avoids set s → find_first set s ≡ none
unfolding find_first
find_first-Avoids set [] h = refl
find_first-Avoids set (c ∷ s) h = ground (arith, find_first-Avoids set s h.1)

-- The first separator after a text that holds none stands where the text ends.
pub find_first-append :
    (set s t : Text) (c : ℕ)
    → Avoids set s
    → one_of set c ≡ true
    → find_first set (s ++ c ∷ t) ≡ some (length s)
unfolding find_first
find_first-append set [] t c h e = ground arith
find_first-append set (d ∷ s) t c h e = ground (arith, find_first-append set s t c h.1 e)

pub c_str_lem : (s : Text) → Avoids (0 ∷ []) s → c_str s ≡ s
unfolding c_str
c_str_lem [] h = refl
c_str_lem (c ∷ s) h = ground (arith, c_str_lem s h.1)

pub c_str-append : (s t : Text) → Avoids (0 ∷ []) s → c_str (s ++ t) ≡ s ++ c_str t
unfolding c_str
c_str-append [] t h = refl
c_str-append (c ∷ s) t h = ground (arith, c_str-append s t h.1)

pub length-c_str-le : (s : Text) → length (c_str s) ≤ length s
unfolding c_str
length-c_str-le [] = omega arith
length-c_str-le (c ∷ s) = ground (arith, length-c_str-le s)

-- The C string that begins a block of memory; `none` if the block holds no NUL.
unfoldable pub c_string : Text → Option Text
c_string [] = none
c_string (c ∷ s) =
    let rest = Option.map (λ (t : Text). c ∷ t) (c_string s) in if c == 0 then some [] else rest

pub c_string-append : (s t : Text) → c_string (s ++ 0 ∷ t) ≡ some (c_str s)
unfolding c_string c_str
c_string-append [] t = refl
c_string-append (c ∷ s) t = ground (arith, c_string-append s t)

pub c_string_lem : (s : Text) → c_string s ≡ (if one_of s 0 then some (c_str s) else none)
unfolding c_string c_str
c_string_lem [] = refl
c_string_lem (c ∷ s) = ground (arith, c_string_lem s)
