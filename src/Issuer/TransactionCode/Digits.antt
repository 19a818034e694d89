-- ===== src/Issuer/TransactionCode/Digits.antt =====
-- The range of a generated transaction code.
use vcknots.Common.{
  arith, ltb, not, or_else, subst, suc, zero, ℕ, ◌+◌, ◌-◌, ◌<◌, ◌^◌, ◌||◌, ◌≡◌, ◌≤◌,
}
use vcknots.Errors.{ok}
use vcknots.Errors.Chain.{guard}
use vcknots.Errors.Chain.{and_then-ok, guard-ok}
use vcknots.Common.Int.{pos}
use vcknots.Common.Number.{Number, finite}
use vcknots.Store.PreAuthorizedCode.{number}
use vcknots.Issuer.TransactionCode.{
  TxCodeOptions, min_tx_code_length, max_tx_code_length, too_long, random_number, generate,
}

-- The bounds of the draws, for the lengths that are allowed.
powers_from : (k : ℕ) → k ≤ 5 → (10 ^ (k + 3) < 10 ^ (k + 4)) × (10 ^ (k + 4) < 2 ^ 53)
powers_from zero h = (omega arith, omega arith)
powers_from (suc zero) h = (omega arith, omega arith)
powers_from (suc (suc zero)) h = (omega arith, omega arith)
powers_from (suc (suc (suc zero))) h = (omega arith, omega arith)
powers_from (suc (suc (suc (suc zero)))) h = (omega arith, omega arith)
powers_from (suc (suc (suc (suc (suc zero))))) h = (omega arith, omega arith)
powers_from (suc (suc (suc (suc (suc (suc k)))))) h = absurd (omega arith)

powers : (len : ℕ) → 4 ≤ len → len ≤ 9 → (10 ^ (len - 1) < 10 ^ len) × (10 ^ len < 2 ^ 53)
powers len low high =
    let k = len - 4 in
    let here : k + 4 ≡ len = omega arith in
    let below : k + 3 ≡ len - 1 = omega arith in
    let (wider, safe) = powers_from k (omega arith) in
    (
      subst (λ a. 10 ^ a < 10 ^ len) below (subst (λ b. 10 ^ (k + 3) < 10 ^ b) here wider),
      subst (λ b. 10 ^ b < 2 ^ 53) here safe,
    )

module _ (draws : ℕ → ℕ → ℕ → ℕ) where
  pub record IsCodeOfLength (len : ℕ) (v : Number) : Type 0 where
    pub allowed : (min_tx_code_length ≤ len) × (len ≤ max_tx_code_length)
    pub value : ℕ
    pub whole : v ≡ finite (pos value) 0
    pub lower : 10 ^ (len - 1) ≤ value
    pub upper : value < 10 ^ len
    pub safe : value < 2 ^ 53

  -- A numeric transaction code has exactly the digits that were asked for: given that each draw lies
  -- within its bounds, a generated number is whole, has the requested length, or else 6, as its number
  -- of decimal digits, with no leading zero, and is a safe integer; that length is 4 to 9.
  pub generate-IsCodeOfLength :
      (o : TxCodeOptions) (v : Number)
      → ((i low high : ℕ) → low < high → (low ≤ draws i low high) × (draws i low high < high))
      → generate draws o ≡ ok (number v)
      → IsCodeOfLength (or_else o.length 6) v
  unfolding generate random_number
  generate-IsCodeOfLength o v in_range h =
      let len = or_else o.length 6 in
      let (_, e1, h1) =
        and_then-ok (guard (not (ltb len min_tx_code_length || ltb max_tx_code_length len)) _ _) _
          h in
      let (_, e2, h2) = and_then-ok (guard (not (too_long o.description)) _ _) _ h1 in
      let range =
        guard-ok (not (ltb len min_tx_code_length || ltb max_tx_code_length len)) _ _ e1 in
      let low : 4 ≤ len = ground arith in
      let high : len ≤ 9 = ground arith in
      let (wider, safe) = powers len low high in
      let (at_least, below) = in_range 0 (10 ^ (len - 1)) (10 ^ len) wider in
      record {
        allowed = (low, high);
        value = draws 0 (10 ^ (len - 1)) (10 ^ len);
        whole = ground arith;
        lower = at_least;
        upper = below;
        safe = omega arith;
      }
