-- ===== src/Tests/CodeStore.antt =====
-- The theorems on the stores of codes, of allowed configurations and of transactions.
use vcknots.Common.{
  List, Option, String, [], arith, eq_iff, none, refl, some, ℕ, ◌*◌, ◌+◌, ◌↔◌, ◌∷◌, ◌≡◌, ◌≤◌,
}
use vcknots.Errors.{ok, raise, invalid_grant}
use vcknots.Common.Map
use vcknots.Common.Number.{finite, is_digits, to_decimal}
use vcknots.Common.Int.{pos}
use vcknots.Store.PreAuthorizedCode
use vcknots.Store.PreAuthorizedCode.{
  TxCode, text, number, numeric_mode, PreAuthorizedCodeEntry, Codes, locked_message,
  positive_seconds,
}
use vcknots.Store.PreAuthorizedCode.Redeem
use vcknots.Store.PreAuthorizedCode.Lockout
use vcknots.Store.PreAuthorizedCode.Trace
use vcknots.Store.Transactions

abbrev offer : PreAuthorizedCodeEntry
offer = record {
  code = "k";
  credential_configuration_ids = "c" ∷ [];
  tx_code = some (text "0042");
  tx_code_input_mode = some numeric_mode;
  expires_at = some 10000;
  attempts = none;
}

abbrev offers : Codes
offers = ("k", offer) ∷ []

abbrev right : Option TxCode
right = some (text "0042")

abbrev wrong : Option TxCode
wrong = some (text "42")

right_redeems : (PreAuthorizedCode.consume 5 "k" right 9000 offers).0 ≡ ok ("c" ∷ [])
unfolding PreAuthorizedCode.consume Map.get PreAuthorizedCode.to_digit_string is_digits
right_redeems = refl

consume-ok_iff_example : ((PreAuthorizedCode.consume 5 "k" right 9000 offers).0 ≡ ok ("c" ∷ [])) ↔ (
    (e : PreAuthorizedCodeEntry) × (Map.get "k" offers ≡ some e)
    × Redeem.IsRedeemable 5 right 9000 e
    × (e.credential_configuration_ids ≡ "c" ∷ []))
consume-ok_iff_example = PreAuthorizedCode.Redeem.consume-ok_iff 5 "k" right 9000 offers ("c" ∷ [])

empty-IsAdmitting : PreAuthorizedCode.Lockout.IsAdmitting 5 []
unfolding Map.get
empty-IsAdmitting = record { at_code = λ j. tt }

offers-IsAdmitting : PreAuthorizedCode.Lockout.IsAdmitting 5 offers
unfolding Map.get
offers-IsAdmitting = record { at_code = λ j. grind arith }

consume-IsAdmitting_example :
    PreAuthorizedCode.Lockout.IsAdmitting 5 (PreAuthorizedCode.consume 5 "k" wrong 9000 offers).1
consume-IsAdmitting_example =
    PreAuthorizedCode.Lockout.consume-IsAdmitting 5 "k" wrong 9000 offers offers-IsAdmitting

abbrev guesses : List (Option TxCode × ℕ)
guesses = (wrong, 1) ∷ (none, 2) ∷ (wrong, 3) ∷ []

found_offer : Map.get "k" offers ≡ some offer
unfolding Map.get
found_offer = refl

lockout_example :
    PreAuthorizedCode.consume 3 "k" right 4 (PreAuthorizedCode.Lockout.attempt 3 "k" guesses offers)
    ≡ (raise invalid_grant locked_message, PreAuthorizedCode.Lockout.attempt 3 "k" guesses offers)
lockout_example =
    PreAuthorizedCode.Lockout.lockout 3 "k" guesses offers offer right 4 found_offer (omega arith)
      (omega arith)

abbrev other_calls : List PreAuthorizedCode.Trace.CodeCall
other_calls =
    PreAuthorizedCode.Trace.saving "j" ("c" ∷ []) none none 9100
    ∷ PreAuthorizedCode.Trace.consuming "k" wrong 9200
    ∷ []

k-NotSaved : PreAuthorizedCode.Trace.NotSaved "k" other_calls
k-NotSaved = ((λ e. ground (arith, eq_iff "j" "k")), tt)

digits_of_text : PreAuthorizedCode.to_digit_string (text "42") ≡ some "42"
unfolding PreAuthorizedCode.to_digit_string is_digits to_decimal
digits_of_text = refl

digits_of_number : PreAuthorizedCode.to_digit_string (number (finite (pos 42) 0)) ≡ some "42"
unfolding PreAuthorizedCode.to_digit_string is_digits to_decimal
digits_of_number = refl

redeem-save_iff_example :
    ((PreAuthorizedCode.consume 5 "j"
        (some (number (finite (pos 42) 0)))
        300000
        (PreAuthorizedCode.save "j" ("c" ∷ []) (some (text "42")) none 5 offers).1).0
      ≡ ok ("c" ∷ []))
    ↔ ((300000 ≤ 5 + positive_seconds none * 1000) × (◌≡◌ {A = String} "42" "42"))
redeem-save_iff_example =
    PreAuthorizedCode.Trace.redeem-save_iff "j" ("c" ∷ []) none 5 5 (text "42")
      (number (finite (pos 42) 0)) "42" "42" 300000 offers (omega arith) refl digits_of_text
      digits_of_number

abbrev transaction : Transactions.TransactionRecord String
transaction = record {
  dcql_query = "q";
  client_id = "v";
  verifier_id = "https://v.example";
  state = none;
  nonce = "n";
}
