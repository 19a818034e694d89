-- ===== src/Store/PreAuthorizedCode.antt =====
-- pre-authorized-code.types.ts and in-memory-pre-authorized-code-store.provider.ts. `now` is what
-- the clock shows in the call. Moments are natural numbers of milliseconds.
pub mod Digits
pub mod Redeem
pub mod Lockout
pub mod Trace
use vcknots.Common.{
  Bool, List, Option, String, false, if◌then◌else◌, leb, ltb, none, not, or_else, some, suc, true,
  zero, ℕ, ◌&&◌, ◌*◌, ◌+◌, ◌==◌, ◌=ˢ◌,
}
use vcknots.Errors.{Result, ok, err, ErrorCodes, invalid_grant, invalid_request, invalid_tx_code}
use vcknots.Errors.{vcknots_error, raise}
use vcknots.Common.Int.{ℤ, pos, negsuc}
use vcknots.Common.Map
use vcknots.Common.Map.{Map}
use vcknots.Common.Number.{Number, nan, infinity, minus_infinity, finite, max_safe_integer}
use vcknots.Common.Number.{equal_numbers, to_decimal, is_digits}

-- `string | number`
pub data TxCode : Type 0 where
  text : String → TxCode
  number : Number → TxCode

pub data TxCodeInputMode : Type 0 where
  numeric_mode text_mode : TxCodeInputMode

pub record PreAuthorizedCodeEntry : Type 0 where
  pub code : String
  pub credential_configuration_ids : List String
  pub tx_code : Option TxCode
  pub tx_code_input_mode : Option TxCodeInputMode
  pub expires_at : Option ℕ
  pub attempts : Option ℕ

abbrev pub Codes : Type 0
Codes = Map PreAuthorizedCodeEntry

abbrev pub default_max_tx_code_attempts : ℕ
default_max_tx_code_attempts = 5

abbrev pub locked_message : String
locked_message = "Pre-authorized code is invalid, consumed, or locked"

-- `Number.isFinite(raw) ? Math.max(1, Math.floor(raw)) : DEFAULT_MAX_TX_CODE_ATTEMPTS`
unfoldable pub max_tx_code_attempts : Option Number → ℕ
max_tx_code_attempts (some (finite (pos (suc n)) _)) = suc n
max_tx_code_attempts (some (finite _ _)) = 1
max_tx_code_attempts _ = default_max_tx_code_attempts

unfoldable pub to_digit_string : TxCode → Option String
to_digit_string (number (finite (pos n) zero)) =
    if leb n max_safe_integer then some (to_decimal n) else none
to_digit_string (number _) = none
to_digit_string (text value) = if is_digits value then some value else none

pub record SaveOptions : Type 0 where
  pub ttl_sec : Option Number
  pub tx_code_input_mode : Option TxCodeInputMode

-- The lifetime in seconds: the floor of a finite number, if that is positive, and else 300.
unfoldable pub positive_seconds : Option Number → ℕ
positive_seconds (some (finite (pos (suc n)) _)) = suc n
positive_seconds _ = 300

abbrev pub is_text : TxCodeInputMode → Bool
is_text text_mode = true
is_text numeric_mode = false

-- The `tx_code` that is stored: its digits, unless the mode is text.
unfoldable pub stored_tx_code : TxCodeInputMode → Option TxCode → Result (Option TxCode)
stored_tx_code mode none = ok none
stored_tx_code mode (some tx_code) =
    if is_text mode then ok (some tx_code) else elim (to_digit_string tx_code) [
      | none ↦ raise invalid_tx_code "tx_code must be a non-negative integer for numeric input mode"
      | some canonical ↦ ok (some (text canonical))
    ]

abbrev pub ttl_option : Option SaveOptions → Option Number
ttl_option none = none
ttl_option (some o) = o.ttl_sec

abbrev pub mode_option : Option SaveOptions → Option TxCodeInputMode
mode_option none = none
mode_option (some o) = o.tx_code_input_mode

unfoldable pub save :
    String
    → List String
    → Option TxCode
    → Option SaveOptions
    → ℕ
    → Codes
    → Result (Unit {0}) × Codes
unfolding stored_tx_code
save code ids tx_code options now store =
    let mode = or_else (mode_option options) numeric_mode in
    elim (stored_tx_code mode tx_code) [
      | err e ↦ (err e, store)
      | ok stored ↦ (
        ok tt,
        Map.set code
            (record {
              code = code;
              credential_configuration_ids = ids;
              tx_code = stored;
              tx_code_input_mode = some mode;
              expires_at = some (now + positive_seconds (ttl_option options) * 1000);
              attempts = none;
            })
            store,
      )
    ]

-- `item.expires_at && item.expires_at < now`
abbrev pub has_expired : Option ℕ → ℕ → Bool
has_expired none now = false
has_expired (some t) now = not (t == 0) && ltb t now

-- `===` of two values of `string | number`
abbrev pub equal_tx_codes : TxCode → TxCode → Bool
equal_tx_codes (text a) (text b) = a =ˢ b
equal_tx_codes (number a) (number b) = equal_numbers a b
equal_tx_codes _ _ = false

-- Both are digits, and the same.
unfoldable pub equal_digits : Option String → Option String → Bool
equal_digits (some expected) (some actual) = expected =ˢ actual
equal_digits _ _ = false

-- The comparison of the stored `tx_code` with the one that is presented.
unfoldable pub tx_code_matches : Option TxCodeInputMode → TxCode → TxCode → Bool
unfolding equal_digits
tx_code_matches (some text_mode) expected actual = equal_tx_codes expected actual
tx_code_matches _ expected actual = equal_digits (to_digit_string expected) (to_digit_string actual)

-- `lockoutIfExhausted()` and the `raise` after it.
unfoldable pub reject :
    ℕ → String → PreAuthorizedCodeEntry → ErrorCodes → String → Codes → Result (List String) × Codes
reject max code item error message store =
    if leb max (or_else item.attempts 0)
    then (raise invalid_grant locked_message, Map.delete code store)
    else (raise error message, store)

-- From the comparison of the `tx_code` on; `codes` already holds `item`.
unfoldable pub compare_tx_code :
    ℕ → String → Option TxCode → PreAuthorizedCodeEntry → Codes → Result (List String) × Codes
unfolding tx_code_matches reject
compare_tx_code max code tx_code item store = elim item.tx_code [
  | none ↦ elim tx_code [
    | none ↦ (ok item.credential_configuration_ids, Map.delete code store)
    | some _ ↦
        reject max code item invalid_request
          "tx_code should not be provided for this pre-authorized code" store
  ]
  | some expected ↦ elim tx_code [
    | none ↦
        reject max code item invalid_request "tx_code is required for this pre-authorized code"
          store
    | some actual ↦
        if tx_code_matches item.tx_code_input_mode expected actual
        then (ok item.credential_configuration_ids, Map.delete code store)
        else reject max code item invalid_grant "Invalid tx_code provided" store
  ]
]

-- After the admission gate: `item` is stored, with the attempt counted.
unfoldable pub admit :
    ℕ → String → Option TxCode → ℕ → PreAuthorizedCodeEntry → Codes → Result (List String) × Codes
unfolding compare_tx_code
admit max code tx_code now item store =
    if has_expired item.expires_at now
    then (raise invalid_grant "Pre-authorized code has expired", Map.delete code store)
    else compare_tx_code max code tx_code item store

unfoldable pub consume : ℕ → String → Option TxCode → ℕ → Codes → Result (List String) × Codes
unfolding admit
consume max code tx_code now store = elim (Map.get code store) [
  | none ↦ (raise invalid_grant locked_message, store)
  | some entry ↦
      if leb max (or_else entry.attempts 0)
      then (raise invalid_grant locked_message, store)
      else let item = record entry { attempts = some (or_else entry.attempts 0 + 1) } in
        admit max code tx_code now item (Map.set code item store)
]
