-- ===== src/Store/PreAuthorizedCode/Trace.antt =====
-- Runs of the store: a code is redeemed at most once, and what was saved is what is redeemed.
pub mod Kept
use vcknots.Common.{
  List, Option, String, [], arith, eq_iff, eq_refl, false, none, or_else, some, sym, ℕ, ◌*◌, ◌+◌,
  ◌<◌, ◌=ˢ◌, ◌↔◌, ◌∙◌, ◌∷◌, ◌≡◌, ◌≢◌, ◌≤◌,
}
use vcknots.Errors.{ok, err, vcknots_error, invalid_tx_code}
use vcknots.Common.Map
use vcknots.Store.PreAuthorizedCode.{
  TxCode, text, numeric_mode, SaveOptions, PreAuthorizedCodeEntry, Codes, has_expired,
  positive_seconds, ttl_option, mode_option, tx_code_matches, to_digit_string, save, consume,
}
use vcknots.Store.PreAuthorizedCode.Digits.{to_digit_string_stable, positive_seconds_pos}
use vcknots.Store.PreAuthorizedCode.Redeem.{
  fits, redeem, redeemable, consume-ok_iff, consume-ok_absent, consume-absent,
}

-- One call of the store, by any client, with the clock's value in it.
pub data CodeCall : Type 0 where
  saving : String → List String → Option TxCode → Option SaveOptions → ℕ → CodeCall
  consuming : String → Option TxCode → ℕ → CodeCall

pub step : ℕ → CodeCall → Codes → Codes
step max (saving key ids tx_code options now) m = (save key ids tx_code options now m).1
step max (consuming key tx_code now) m = (consume max key tx_code now m).1

unfoldable pub run : ℕ → List CodeCall → Codes → Codes
run max [] m = m
run max (c ∷ calls) m = run max calls (step max c m)

-- No call saves the code again.
abbrev pub NotSaved : String → List CodeCall → Type 0
NotSaved k [] = Unit {0}
NotSaved k (saving key _ _ _ _ ∷ calls) = (key ≢ k) × NotSaved k calls
NotSaved k (consuming _ _ _ ∷ calls) = NotSaved k calls

save-absent :
    (key k : String) (ids : List String) (tx_code : Option TxCode) (options : Option SaveOptions)
    (now : ℕ) (m : Codes)
    → key ≢ k
    → Map.get k m ≡ none
    → Map.get k (save key ids tx_code options now m).1 ≡ none
unfolding save
save-absent key k ids tx_code options now m ne absent = grind (arith, eq_iff key k, Map.get-set)

pub run-absent :
    (max : ℕ) (k : String) (calls : List CodeCall) (m : Codes)
    → NotSaved k calls
    → Map.get k m ≡ none
    → Map.get k (run max calls m) ≡ none
unfolding run step
run-absent max k [] m unsaved absent = absent
run-absent max k (saving key ids tx_code options now ∷ calls) m unsaved absent =
    run-absent max k calls _ unsaved.1
      (save-absent key k ids tx_code options now m unsaved.0 absent)
run-absent max k (consuming key tx_code now ∷ calls) m unsaved absent =
    run-absent max k calls _ unsaved (consume-absent max key k tx_code now m absent)

-- A code that has been redeemed is not redeemed again: not at any later moment, with any `tx_code`,
-- after any calls in between, unless one of them saves that code anew.
pub redeemed_once :
    (max : ℕ) (key : String) (tx_code : Option TxCode) (now : ℕ) (m : Codes) (ids : List String)
    (calls : List CodeCall) (tx_code' : Option TxCode) (now' : ℕ) (ids' : List String)
    → (consume max key tx_code now m).0 ≡ ok ids
    → NotSaved key calls
    → (consume max key tx_code' now' (run max calls (consume max key tx_code now m).1)).0 ≢ ok ids'
redeemed_once max key tx_code now m ids calls tx_code' now' ids' redeemed unsaved again =
    let absent =
      run-absent max key calls (consume max key tx_code now m).1 unsaved
        (consume-ok_absent max key tx_code now m redeemed) in
    let (e, found, _, _) = (consume-ok_iff max key tx_code' now' _ ids').0 again in cc

-- In numeric mode `save` refuses exactly the codes that are no digits, and then changes nothing.
pub save_numeric_iff :
    (key : String) (ids : List String) (tx_code : TxCode) (options : Option SaveOptions) (now : ℕ)
    (m : Codes)
    → or_else (mode_option options) numeric_mode ≡ numeric_mode
    → (to_digit_string tx_code ≡ none) ↔ (
        save key ids (some tx_code) options now m ≡ (
          err (
              vcknots_error invalid_tx_code
                "tx_code must be a non-negative integer for numeric input mode"),
          m,
        ))
unfolding save
save_numeric_iff key ids tx_code options now m mode = ground arith

module _ (key : String) (ids : List String) (options : Option SaveOptions) (now : ℕ) where
  abbrev deadline : ℕ
  deadline = now + positive_seconds (ttl_option options) * 1000

  abbrev numeric_entry : String → PreAuthorizedCodeEntry
  numeric_entry digits = record {
    code = key;
    credential_configuration_ids = ids;
    tx_code = some (text digits);
    tx_code_input_mode = some numeric_mode;
    expires_at = some deadline;
    attempts = none;
  }

  get-save_numeric :
      (tx_code : TxCode) (m : Codes) {digits : String}
      → or_else (mode_option options) numeric_mode ≡ numeric_mode
      → to_digit_string tx_code ≡ some digits
      → Map.get key (save key ids (some tx_code) options now m).1 ≡ some (numeric_entry digits)
  unfolding save
  get-save_numeric tx_code m mode e = grind (arith, eq_refl, Map.get-set)

  fits_numeric :
      (digits : String) (tx_code : TxCode) {presented : String}
      → to_digit_string (text digits) ≡ some digits
      → to_digit_string tx_code ≡ some presented
      → fits (numeric_entry digits) (some (text digits)) (some tx_code) ≡ (digits =ˢ presented)
  unfolding tx_code_matches
  fits_numeric digits tx_code e f = rw (e, f)

  unexpired : (now' : ℕ) → (has_expired (some deadline) now' ≡ false) ↔ (now' ≤ deadline)
  unexpired now' = ground (arith, positive_seconds_pos (ttl_option options))

  -- Where at least one attempt is allowed, a code saved in numeric mode gives its credential
  -- configurations back exactly if it is presented by its deadline, with a `tx_code` of the same
  -- digits: a number or a text, leading zeros included.
  pub redeem-save_iff :
      (max : ℕ) (tx_code tx_code' : TxCode) (digits digits' : String) (now' : ℕ) (m : Codes)
      → 0 < max
      → or_else (mode_option options) numeric_mode ≡ numeric_mode
      → to_digit_string tx_code ≡ some digits
      → to_digit_string tx_code' ≡ some digits'
      → ((consume max key (some tx_code') now' (save key ids (some tx_code) options now m).1).0
          ≡ ok ids)
        ↔ ((now' ≤ deadline) × (digits ≡ digits'))
  redeem-save_iff max tx_code tx_code' digits digits' now' m p mode e e' =
      let found = get-save_numeric tx_code m mode e in
      let fit = fits_numeric digits tx_code' (to_digit_string_stable tx_code e).1 e' in
      (
        (λ h.
            let (r, _) = redeemable max key (some tx_code') now' _ (numeric_entry digits) found h in
            ((unexpired now').0 r.unexpired, (eq_iff _ _).0 (sym fit ∙ r.fitting))),
        (λ h. redeem max key (some tx_code') now' _ (numeric_entry digits) found (record {
          open_to_attempts = p;
          unexpired = (unexpired now').1 h.0;
          fitting = fit ∙ (eq_iff _ _).1 h.1;
        })),
      )
