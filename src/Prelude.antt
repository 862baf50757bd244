-- ===== src/Prelude.antt =====
-- The names that the other modules share.
pub mod Tests
pub mod Lists
pub mod Strings
pub mod Maps
pub mod Int
pub use Tests.*
pub use Lists.*
pub use Strings.{
  Text, codes, text_eq, text_eq_self, text_eq-eq, text_eq_iff, one_of, Avoids, avoids-Avoids,
  find_first-Avoids, find_first-append, c_str_lem, c_str-append, length-c_str-le, c_string-append,
  c_string_lem,
}
unfoldable pub use Strings.{find_first, find_first_of, find_last_of, c_str, c_string}
pub use Prim.Native.Nat.{ℕ, zero, suc, ◌+◌, ◌-◌, ◌*◌, ◌/◌, ◌%◌, ◌^◌, ◌≤◌, ◌<◌}
pub use Prim.Native.String.{String}
pub use mathlib.Core.Path.{◌≡◌, refl, sym, ap, ◌∙◌, subst, fun_ext}
pub use mathlib.Core.Logic.{◌≢◌, ◌↔◌, ◌⊎◌, inl, inr}
pub use mathlib.Core.Bool.{Bool, true, false, not, ◌&&◌, ◌||◌}
pub use mathlib.Core.Option.{Option, none, some}
pub use mathlib.Core.List.{List, [], ◌∷◌, ◌++◌, map, append-nil, append_assoc}
pub use native.Mathlib.Omega.{arith}
pub use Maps.{Eq, Map, beq_sym, has-at, at-insert, insert-keeps, at-assign}
unfoldable pub use Maps.{has, at, insert, assign}
pub use Int.{ℤ, pos, negsuc, is_nat, int_max, extract_int-print_int}
unfoldable pub use Int.{print_int, print_signed, extract_int}

instance abbrev pub text_key : Eq Text
text_key = record { beq = text_eq; beq_eq = text_eq-eq; beq_refl = text_eq_self }

pub nat_eq-eq : (a b : ℕ) → (a == b) ≡ true → a ≡ b
nat_eq-eq a b h = ground arith

instance abbrev pub nat_key : Eq ℕ
nat_key = record { beq = λ a b. a == b; beq_eq = nat_eq-eq; beq_refl = ==_self }
