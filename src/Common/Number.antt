-- ===== src/Common/Number.antt =====
-- The numbers of JavaScript, as far as the code looks at them: not a number, the infinities, and a
-- finite number by its floor and its distance from it, counted in the smallest positive number.
pub mod Decimal
use vcknots.Common.{
  Bool, Char, String, [], code, false, if◌then◌else◌, leb, ltb, suc, true, zero, ℕ, ◌%◌, ◌&&◌, ◌/◌,
  ◌==◌, ◌∷◌,
}
use vcknots.Common.Int.{ℤ, pos, negsuc, ◌≤ℤ◌}

pub data Number : Type 0 where
  nan infinity minus_infinity : Number
  finite : ℤ → ℕ → Number

-- `Math.floor`, of a finite number
abbrev pub floor : ℤ → ℕ → ℤ
floor n _ = n

-- `Number.MAX_SAFE_INTEGER`
abbrev pub max_safe_integer : ℕ
max_safe_integer = 9007199254740991

-- `===`
abbrev pub equal_ℤ : ℤ → ℤ → Bool
equal_ℤ (pos a) (pos b) = a == b
equal_ℤ (negsuc a) (negsuc b) = a == b
equal_ℤ _ _ = false

abbrev pub equal_numbers : Number → Number → Bool
equal_numbers infinity infinity = true
equal_numbers minus_infinity minus_infinity = true
equal_numbers (finite a f) (finite b g) = equal_ℤ a b && f == g
equal_numbers _ _ = false

digit : ℕ → Char
digit zero = "0"
digit (suc zero) = "1"
digit (suc (suc zero)) = "2"
digit (suc (suc (suc zero))) = "3"
digit (suc (suc (suc (suc zero)))) = "4"
digit (suc (suc (suc (suc (suc zero))))) = "5"
digit (suc (suc (suc (suc (suc (suc zero)))))) = "6"
digit (suc (suc (suc (suc (suc (suc (suc zero))))))) = "7"
digit (suc (suc (suc (suc (suc (suc (suc (suc zero)))))))) = "8"
digit _ = "9"

-- The digits of `n` before `rest`; a number below 10 ^ fuel needs no more fuel.
decimal_before : ℕ → ℕ → String → String
decimal_before zero n rest = rest
decimal_before (suc fuel) n rest =
    let shorter = decimal_before fuel (n / 10) (String.◌∷◌ (digit (n % 10)) rest) in
    if ltb n 10 then String.◌∷◌ (digit n) rest else shorter

-- `toString` of a safe integer that is not negative: it has at most 16 digits.
unfoldable pub to_decimal : ℕ → String
unfolding decimal_before digit
to_decimal n = decimal_before 16 n ""

abbrev pub is_digit : ℕ → Bool
is_digit c = leb b'0' c && leb c b'9'

unfoldable pub all_digits : String → Bool
all_digits String.[] = true
all_digits (String.◌∷◌ c s) = is_digit (code c) && all_digits s

-- `/^\d+$/.test(s)`
unfoldable pub is_digits : String → Bool
unfolding all_digits
is_digits String.[] = false
is_digits (String.◌∷◌ c s) = all_digits (String.◌∷◌ c s)
