-- ===== src/Store/PreAuthorizedCode/Redeem.antt =====
-- When a pre-authorized code is redeemed, and what `consume` leaves behind.
use vcknots.Common.{
  Bool, Bool-cases, List, Option, Option-cases, String, ap, arith, eq_iff, eq_refl, false, inl, inr,
  none, or_else, some, true, ℕ, ◌<◌, ◌=ˢ◌, ◌↔◌, ◌∙◌, ◌≡◌, ◌≢◌,
}
use vcknots.Errors.{ok}
use vcknots.Common.Map
use vcknots.Store.PreAuthorizedCode.{
  TxCode, PreAuthorizedCodeEntry, Codes, has_expired, tx_code_matches, consume,
}

-- The presented `tx_code` is the one that was stored, or there is none of either.
abbrev pub fits : PreAuthorizedCodeEntry → Option TxCode → Option TxCode → Bool
fits e none none = true
fits e none (some _) = false
fits e (some _) none = false
fits e (some expected) (some actual) = tx_code_matches e.tx_code_input_mode expected actual

abbrev pub attempts_of : PreAuthorizedCodeEntry → ℕ
attempts_of e = or_else e.attempts 0

pub record IsRedeemable (max : ℕ) (tx_code : Option TxCode) (now : ℕ) (e : PreAuthorizedCodeEntry)
    : Type 0 where
  pub open_to_attempts : attempts_of e < max
  pub unexpired : has_expired e.expires_at now ≡ false
  pub fitting : fits e e.tx_code tx_code ≡ true

consume-unknown :
    (max : ℕ) (code : String) (tx_code : Option TxCode) (now : ℕ) (m : Codes) {ids : List String}
    → Map.get code m ≡ none
    → (consume max code tx_code now m).0 ≢ ok ids
unfolding consume
consume-unknown max code tx_code now m e = ground arith

pub redeem :
    (max : ℕ) (code : String) (tx_code : Option TxCode) (now : ℕ) (m : Codes)
    (e : PreAuthorizedCodeEntry)
    → Map.get code m ≡ some e
    → IsRedeemable max tx_code now e
    → (consume max code tx_code now m).0 ≡ ok e.credential_configuration_ids
unfolding consume
redeem max code tx_code now m e found r = ground arith

pub redeemable :
    (max : ℕ) (code : String) (tx_code : Option TxCode) (now : ℕ) (m : Codes)
    (e : PreAuthorizedCodeEntry) {ids : List String}
    → Map.get code m ≡ some e
    → (consume max code tx_code now m).0 ≡ ok ids
    → IsRedeemable max tx_code now e × (e.credential_configuration_ids ≡ ids)
unfolding consume
redeemable max code tx_code now m e found h = ground arith

-- `consume` gives credential configurations exactly when the code is stored, has attempts left, has
-- not expired, and the `tx_code` that is presented fits; it gives those that were stored.
pub consume-ok_iff :
    (max : ℕ) (code : String) (tx_code : Option TxCode) (now : ℕ) (m : Codes) (ids : List String)
    → ((consume max code tx_code now m).0 ≡ ok ids) ↔ (
        (e : PreAuthorizedCodeEntry) × (Map.get code m ≡ some e)
        × IsRedeemable max tx_code now e
        × (e.credential_configuration_ids ≡ ids))
consume-ok_iff max code tx_code now m ids = (
  λ h. elim (Option-cases (Map.get code m)) [
    | inl missing ↦ absurd (consume-unknown max code tx_code now m missing h)
    | inr (e, found) ↦
        let (r, same) = redeemable max code tx_code now m e found h in (e, found, r, same)
  ],
  λ r. redeem max code tx_code now m r.0 r.1 r.2 ∙ ap ok r.3,
)

-- A redeemed code is gone.
pub consume-ok_absent :
    (max : ℕ) (code : String) (tx_code : Option TxCode) (now : ℕ) (m : Codes) {ids : List String}
    → (consume max code tx_code now m).0 ≡ ok ids
    → Map.get code (consume max code tx_code now m).1 ≡ none
unfolding consume
consume-ok_absent max code tx_code now m h = grind (arith, eq_refl, Map.get-delete)

-- `consume` touches no other code.
pub get-consume_ne :
    (max : ℕ) (code j : String) (tx_code : Option TxCode) (now : ℕ) (m : Codes)
    → j ≢ code
    → Map.get j (consume max code tx_code now m).1 ≡ Map.get j m
unfolding consume
get-consume_ne max code j tx_code now m ne =
    grind (arith, eq_iff code j, Map.get-delete, Map.get-set)

-- A code that is not stored does not become stored.
pub consume-absent :
    (max : ℕ) (code j : String) (tx_code : Option TxCode) (now : ℕ) (m : Codes)
    → Map.get j m ≡ none
    → Map.get j (consume max code tx_code now m).1 ≡ none
unfolding consume
consume-absent max code j tx_code now m absent = elim (Bool-cases (code =ˢ j)) [
  | inl same ↦
      let e : Map.get code m ≡ none = ground (arith, eq_iff code j) in rw (e, consume) absent
  | inr other ↦
      get-consume_ne max code j tx_code now m (λ e. ground (arith, eq_iff code j)) ∙ absent
]
