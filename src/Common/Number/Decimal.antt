-- ===== src/Common/Number/Decimal.antt =====
-- Printing a safe integer and reading it back.
use vcknots.Common.{
  Bool-cases, String, ap, arith, code, inl, inr, ltb, ltb→lt, refl, suc, true, zero, ℕ, ◌%◌, ◌*◌,
  ◌+◌, ◌-◌, ◌/◌, ◌<◌, ◌^◌, ◌∙◌, ◌≡◌, ◌≤◌,
}
use native.Mathlib.Nat.{pow-suc}
use vcknots.Common.Number.{
  digit, decimal_before, to_decimal, is_digit, all_digits, is_digits, max_safe_integer,
}

digit-code : (d : ℕ) → d < 10 → code (digit d) ≡ b'0' + d
unfolding digit
digit-code zero h = refl
digit-code (suc zero) h = refl
digit-code (suc (suc zero)) h = refl
digit-code (suc (suc (suc zero))) h = refl
digit-code (suc (suc (suc (suc zero)))) h = refl
digit-code (suc (suc (suc (suc (suc zero))))) h = refl
digit-code (suc (suc (suc (suc (suc (suc zero)))))) h = refl
digit-code (suc (suc (suc (suc (suc (suc (suc zero))))))) h = refl
digit-code (suc (suc (suc (suc (suc (suc (suc (suc zero)))))))) h = refl
digit-code (suc (suc (suc (suc (suc (suc (suc (suc (suc zero))))))))) h = refl
digit-code (suc (suc (suc (suc (suc (suc (suc (suc (suc (suc d)))))))))) h = absurd (omega arith)

digit-is_digit : (d : ℕ) → is_digit (code (digit d)) ≡ true
unfolding digit
digit-is_digit zero = refl
digit-is_digit (suc zero) = refl
digit-is_digit (suc (suc zero)) = refl
digit-is_digit (suc (suc (suc zero))) = refl
digit-is_digit (suc (suc (suc (suc zero)))) = refl
digit-is_digit (suc (suc (suc (suc (suc zero))))) = refl
digit-is_digit (suc (suc (suc (suc (suc (suc zero)))))) = refl
digit-is_digit (suc (suc (suc (suc (suc (suc (suc zero))))))) = refl
digit-is_digit (suc (suc (suc (suc (suc (suc (suc (suc zero)))))))) = refl
digit-is_digit _ = refl

-- The number that a text of digits stands for, read from the left.
pub read_from : ℕ → String → ℕ
read_from acc String.[] = acc
read_from acc (String.◌∷◌ c s) = read_from (acc * 10 + (code c - b'0')) s

all_digits-cons :
    (d : ℕ) (rest : String) → all_digits rest ≡ true → all_digits (String.◌∷◌ (digit d) rest) ≡ true
unfolding all_digits
all_digits-cons d rest h = rw (digit-is_digit d) h

is_digits-cons :
    (d : ℕ) (rest : String) → all_digits rest ≡ true → is_digits (String.◌∷◌ (digit d) rest) ≡ true
unfolding is_digits
is_digits-cons d rest h = all_digits-cons d rest h

all_digits_of_is_digits : (s : String) → is_digits s ≡ true → all_digits s ≡ true
unfolding is_digits
all_digits_of_is_digits String.[] h = cc
all_digits_of_is_digits (String.◌∷◌ c s) h = h

decimal_before-is_digits :
    (fuel n : ℕ) (rest : String)
    → is_digits rest ≡ true
    → is_digits (decimal_before fuel n rest) ≡ true
unfolding decimal_before
decimal_before-is_digits zero n rest h = h
decimal_before-is_digits (suc fuel) n rest h =
    let rest-all = all_digits_of_is_digits rest h in
    elim (Bool-cases (ltb n 10)) [
      | inl small ↦ rw small (is_digits-cons n rest rest-all)
      | inr large ↦
          rw large
            (decimal_before-is_digits fuel (n / 10) _ (is_digits-cons (n % 10) rest rest-all))
    ]

-- A safe integer is printed as a text of digits.
pub to_decimal-is_digits : (n : ℕ) → is_digits (to_decimal n) ≡ true
unfolding to_decimal is_digits
to_decimal-is_digits n = elim (Bool-cases (ltb n 10)) [
  | inl small ↦ rw small (is_digits-cons n "" refl)
  | inr large ↦ rw large (decimal_before-is_digits 15 (n / 10) _ (is_digits-cons (n % 10) "" refl))
]

shorter_bound : (fuel n : ℕ) → n < 10 ^ suc fuel → n / 10 < 10 ^ fuel
shorter_bound fuel n h = omega (arith, pow-suc 10 fuel)

read-decimal_before :
    (fuel n : ℕ) (rest : String)
    → n < 10 ^ fuel
    → read_from 0 (decimal_before fuel n rest) ≡ read_from n rest
unfolding decimal_before read_from
read-decimal_before zero n rest h = ap (λ k. read_from k rest) (omega arith)
read-decimal_before (suc fuel) n rest h = elim (Bool-cases (ltb n 10)) [
  | inl small ↦
      rw small (ap (λ k. read_from k rest) (omega (arith, digit-code n (ltb→lt n 10 small))))
  | inr large ↦ rw large (
      read-decimal_before fuel (n / 10) _ (shorter_bound fuel n h)
      ∙ ap (λ k. read_from k rest) (omega (arith, digit-code (n % 10) (omega arith))))
]

-- Reading what `to_decimal` prints gives the number back, for every safe integer.
pub read-to_decimal : (n : ℕ) → n ≤ max_safe_integer → read_from 0 (to_decimal n) ≡ n
unfolding to_decimal read_from
read-to_decimal n h = read-decimal_before 16 n "" (omega arith)
