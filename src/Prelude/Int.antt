-- ===== src/Prelude/Int.antt =====
-- `int`, and its text as a `stringstream` writes and reads it.
use fap2_srv.Prelude.Tests.{leb, ◌==◌, if◌then◌else◌}
use fap2_srv.Prelude.Strings.{Text}
use mathlib.Core.Path.{◌≡◌}
use mathlib.Core.Bool.{Bool, true, false, ◌&&◌, ◌||◌}
use mathlib.Core.List.{[], ◌∷◌}
use mathlib.Core.Option.{Option, none, some}
use Prim.Native.Nat.{ℕ, zero, suc, ◌+◌, ◌-◌, ◌*◌, ◌/◌, ◌%◌, ◌^◌, ◌≤◌, ◌<◌}
use native.Mathlib.Omega.{arith}

-- `negsuc n` is -(n + 1).
pub data ℤ : Type 0 where
  pos : ℕ → ℤ
  negsuc : ℕ → ℤ

-- Is the `int` this number?
abbrev pub is_nat : ℤ → ℕ → Bool
is_nat (pos m) n = m == n
is_nat (negsuc m) n = false

abbrev pub int_max : ℕ
int_max = 2 ^ 31 - 1

-- The digits of `n` in front of `acc`; one round for each digit.
unfoldable pub digits : ℕ → ℕ → Text → Text
digits zero n acc = acc
digits (suc fuel) n acc =
    let acc' = (48 + n % 10) ∷ acc in
    let rest = digits fuel (n / 10) acc' in if n / 10 == 0 then acc' else rest

-- `ss << n` for a number that is not negative.
unfoldable pub print_int : ℕ → Text
unfolding digits
print_int n = digits (suc n) n []

-- `ss << n` for any `int`.
unfoldable pub print_signed : ℤ → Text
unfolding print_int
print_signed (pos n) = print_int n
print_signed (negsuc n) = b'-' ∷ print_int (suc n)

abbrev pub is_space : ℕ → Bool
is_space c = c == 32 || leb 9 c && leb c 13

abbrev pub is_digit : ℕ → Bool
is_digit c = leb 48 c && leb c 57

unfoldable pub skip_space : Text → Text
skip_space [] = []
skip_space (c ∷ s) = if is_space c then skip_space s else c ∷ s

-- The value of the leading digits.
unfoldable pub scan : ℕ → Text → ℕ
scan acc [] = acc
scan acc (c ∷ s) = if is_digit c then scan (acc * 10 + (c - 48)) s else acc

-- A value out of range is stored as the nearest `int`.
unfoldable pub clamp_pos : ℕ → ℤ
clamp_pos n = if leb n int_max then pos n else pos int_max

unfoldable pub clamp_neg : ℕ → ℤ
clamp_neg zero = pos 0
clamp_neg (suc n) = if leb n int_max then negsuc n else negsuc int_max

unfoldable pub signed : Text → ℤ
unfolding scan clamp_pos clamp_neg
signed [] = pos 0
signed (c ∷ s) =
    if c == b'-'
    then clamp_neg (scan 0 s)
    else if c == b'+'
    then clamp_pos (scan 0 s)
    else clamp_pos (scan 0 (c ∷ s))

-- What a text that holds more than blanks is read as; `none` if the variable is left as it was.
unfoldable pub read_signed : Text → Option ℤ
unfolding signed
read_signed [] = none
read_signed (c ∷ s) = some (signed (c ∷ s))

-- `ss >> id`: text that is no number is read as 0, blank text leaves `id` as it was.
unfoldable pub extract_int : Text → Option ℤ
unfolding read_signed skip_space
extract_int s = read_signed (skip_space s)

scan-digits : (fuel n : ℕ) (t : Text) → n < fuel → scan 0 (digits fuel n t) ≡ scan n t
unfolding digits scan
scan-digits zero n t h = absurd (omega arith)
scan-digits (suc fuel) n t h = ground (arith, scan-digits fuel (n / 10) ((48 + n % 10) ∷ t))

abbrev StartsDigit : Text → Type 0
StartsDigit [] = ⊥
StartsDigit (c ∷ s) = is_digit c ≡ true

digits-StartsDigit : (fuel n : ℕ) (t : Text) → StartsDigit t → StartsDigit (digits fuel n t)
unfolding digits
digits-StartsDigit zero n t h = h
digits-StartsDigit (suc fuel) n t h =
    ground (arith, digits-StartsDigit fuel (n / 10) ((48 + n % 10) ∷ t))

print_int-StartsDigit : (n : ℕ) → StartsDigit (print_int n)
unfolding print_int
print_int-StartsDigit n = ground (arith, digits-StartsDigit n (n / 10) ((48 + n % 10) ∷ []))

extract_digits : (s : Text) → StartsDigit s → extract_int s ≡ some (clamp_pos (scan 0 s))
unfolding extract_int
extract_digits [] h = absurd h
extract_digits (c ∷ s) h = ground arith

-- Every `int` that is not negative is read back from its text.
pub extract_int-print_int : (n : ℕ) → n ≤ int_max → extract_int (print_int n) ≡ some (pos n)
unfolding print_int clamp_pos scan
extract_int-print_int n h =
    ground (arith, extract_digits (print_int n) (print_int-StartsDigit n), scan-digits (suc n) n [])
