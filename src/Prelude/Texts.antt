-- ===== src/Prelude/Texts.antt =====
-- Texts of the source, as lists of code points: equality, and the regular expressions and
-- conversions that the modelled code applies to them.
use Prim.Native.Nat.{ℕ, ◌+◌, ◌-◌, ◌*◌}
use Prim.Native.Char.{code}
use Prim.Native.String.{String}
use mathlib.Core.Path.{◌≡◌, refl}
use mathlib.Core.Bool.{Bool, true, false, ◌&&◌, ◌||◌}
use mathlib.Core.Option.{Option, none, some}
use mathlib.Core.List.{List, [], ◌∷◌, map, foldl}
use native.Mathlib.Omega.{arith}
use zeus_insurance_bot.Prelude.Tests.{leb, ◌==◌, if◌then◌else◌}
use zeus_insurance_bot.Prelude.Lists.{length, every}

abbrev pub Text : Type 0
Text = List ℕ

-- A literal.
abbrev pub codes : String → Text
codes String.[] = []
codes (String.◌∷◌ c s) = code c ∷ codes s

-- `a === b`.
unfoldable pub text_eq : Text → Text → Bool
text_eq [] [] = true
text_eq [] (d ∷ b) = false
text_eq (c ∷ a) [] = false
text_eq (c ∷ a) (d ∷ b) = c == d && text_eq a b

pub text_eq_refl : (a : Text) → text_eq a a ≡ true
unfolding text_eq
text_eq_refl [] = refl
text_eq_refl (c ∷ a) = ground (arith, text_eq_refl a)

pub eq_of_text_eq : (a b : Text) → text_eq a b ≡ true → a ≡ b
unfolding text_eq
eq_of_text_eq [] [] h = refl
eq_of_text_eq [] (d ∷ b) h = cc
eq_of_text_eq (c ∷ a) [] h = cc
eq_of_text_eq (c ∷ a) (d ∷ b) h = ground (arith, eq_of_text_eq a b)

-- `a === ""`.
abbrev pub is_empty : Text → Bool
is_empty [] = true
is_empty (c ∷ a) = false

abbrev pub is_digit : ℕ → Bool
is_digit c = leb 48 c && leb c 57

abbrev pub is_hex : ℕ → Bool
is_hex c = is_digit c || leb 65 c && leb c 70 || leb 97 c && leb c 102

-- `/^\d+$/`.
unfoldable pub is_digits : Text → Bool
is_digits [] = false
is_digits (c ∷ a) = every is_digit (c ∷ a)

-- `BigInt(a)` for decimal digits.
unfoldable pub decimal : Text → ℕ
decimal = foldl (λ n c. n * 10 + (c - 48)) 0

-- `/^0x[0-9a-fA-F]{count}$/`.
unfoldable pub is_hex_of : ℕ → Text → Bool
is_hex_of count [] = false
is_hex_of count (c ∷ []) = false
is_hex_of count (c ∷ d ∷ a) = c == 48 && d == 120 && length a == count && every is_hex a

-- `toLowerCase` on ASCII letters. No other letter has the small form of a hexadecimal digit.
abbrev pub to_lower : ℕ → ℕ
to_lower c = if leb 65 c && leb c 90 then c + 32 else c

unfoldable pub lower : Text → Text
lower = map to_lower

-- What follows `prefix` in a text that starts with it is tested.
abbrev pub after : Text → (Text → Bool) → Text → Bool
after [] rest a = rest a
after (p ∷ prefix) rest [] = false
after (p ∷ prefix) rest (c ∷ a) = p == c && after prefix rest a

-- White space, as `trim` removes it.
abbrev pub is_space : ℕ → Bool
is_space c = leb 9 c && leb c 13 || c == 32 || c == 160 || c == 65279

abbrev pub trim_start : Text → Text
trim_start [] = []
trim_start (c ∷ a) = if is_space c then trim_start a else c ∷ a

-- The end of a text is trimmed from the back.
abbrev pub trim_end : Text → Text
trim_end [] = []
trim_end (c ∷ a) = let rest = trim_end a in if is_space c && is_empty rest then [] else c ∷ rest

unfoldable pub trim : Text → Text
trim a = trim_end (trim_start a)

-- `a.slice(prefix.length)`, if the text starts with the prefix.
unfoldable pub rest_after : Text → Text → Option Text
rest_after [] a = some a
rest_after (p ∷ prefix) [] = none
rest_after (p ∷ prefix) (c ∷ a) = let rest = rest_after prefix a in if p == c then rest else none
