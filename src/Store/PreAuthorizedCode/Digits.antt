-- ===== src/Store/PreAuthorizedCode/Digits.antt =====
-- Transaction codes by their digits, and lifetimes in whole seconds.
use vcknots.Common.{Option, String, arith, none, some, suc, true, zero, ◌<◌, ◌≡◌}
use vcknots.Common.Int.{pos, negsuc}
use vcknots.Common.Number.{nan, infinity, minus_infinity, Number, finite, is_digits}
use vcknots.Common.Number.Decimal.{to_decimal-is_digits}
use vcknots.Store.PreAuthorizedCode.{TxCode, text, number, to_digit_string, positive_seconds}

-- What `toDigitString` gives is a text of digits, which it leaves as it is: leading zeros stay.
pub to_digit_string_stable :
    (v : TxCode) {s : String}
    → to_digit_string v ≡ some s
    → (is_digits s ≡ true) × (to_digit_string (text s) ≡ some s)
unfolding to_digit_string
to_digit_string_stable (text t) h = ground arith
to_digit_string_stable (number nan) h = cc
to_digit_string_stable (number infinity) h = cc
to_digit_string_stable (number minus_infinity) h = cc
to_digit_string_stable (number (finite (negsuc n) f)) h = cc
to_digit_string_stable (number (finite (pos n) (suc f))) h = cc
to_digit_string_stable (number (finite (pos n) zero)) h = ground (arith, to_decimal-is_digits n)

-- A lifetime is at least one second.
pub positive_seconds_pos : (ttl : Option Number) → 0 < positive_seconds ttl
unfolding positive_seconds
positive_seconds_pos none = omega arith
positive_seconds_pos (some nan) = omega arith
positive_seconds_pos (some infinity) = omega arith
positive_seconds_pos (some minus_infinity) = omega arith
positive_seconds_pos (some (finite (pos zero) f)) = omega arith
positive_seconds_pos (some (finite (pos (suc n)) f)) = omega arith
positive_seconds_pos (some (finite (negsuc n) f)) = omega arith
