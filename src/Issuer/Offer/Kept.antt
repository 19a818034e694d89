-- ===== src/Issuer/Offer/Kept.antt =====
-- What the store of codes keeps of an offer.
use vcknots.Common.{
  Bool, List, Option, Option-cases, String, ap, arith, eq_refl, false, inl, inr, none, or_else,
  refl, some, sym, true, ℕ, ◌*◌, ◌+◌, ◌∙◌, ◌≡◌,
}
use vcknots.Errors.{ok, Result-cases}
use vcknots.Common.Map
use vcknots.Store.PreAuthorizedCode
use vcknots.Store.PreAuthorizedCode.{
  TxCode, text, number, TxCodeInputMode, text_mode, numeric_mode, PreAuthorizedCodeEntry,
  SaveOptions, Codes, has_expired, positive_seconds, ttl_option, mode_option, to_digit_string,
  stored_tx_code, tx_code_matches,
}
use vcknots.Store.PreAuthorizedCode.Redeem
use vcknots.Store.PreAuthorizedCode.Digits.{to_digit_string_stable}
use vcknots.Authz.State.{Server, save_code}

-- What a stored entry has of an offer.
pub record IsOffered (configurations : List String) (tx_code : Option TxCode)
    (e : PreAuthorizedCodeEntry) : Type 0 where
  pub configurations_kept : e.credential_configuration_ids ≡ configurations
  pub untried : e.attempts ≡ none
  pub fitting : Redeem.fits e e.tx_code tx_code ≡ true

-- A number is no `tx_code` of text mode.
abbrev pub suits_mode : TxCodeInputMode → Option TxCode → Bool
suits_mode text_mode (some (number _)) = false
suits_mode _ _ = true

abbrev pub SuitsMode : TxCodeInputMode → Option TxCode → Type 0
SuitsMode mode tx_code = suits_mode mode tx_code ≡ true

digits-fits :
    (c : TxCode) (d : String) (e : PreAuthorizedCodeEntry)
    → to_digit_string c ≡ some d
    → e.tx_code_input_mode ≡ some numeric_mode
    → tx_code_matches e.tx_code_input_mode (text d) c ≡ true
unfolding tx_code_matches
digits-fits c d e h m = rw (m, (to_digit_string_stable c h).1, h) (eq_refl d)

stored-fits :
    (mode : TxCodeInputMode) (tx_code : Option TxCode) (stored : Option TxCode)
    (e : PreAuthorizedCodeEntry)
    → SuitsMode mode tx_code
    → stored_tx_code mode tx_code ≡ ok stored
    → e.tx_code_input_mode ≡ some mode
    → Redeem.fits e stored tx_code ≡ true
unfolding stored_tx_code
stored-fits text_mode none stored e suits h m = ground arith
stored-fits numeric_mode none stored e suits h m = ground arith
stored-fits text_mode (some (text t)) stored e suits h m =
    unfold tx_code_matches in ground (arith, eq_refl t)
stored-fits text_mode (some (number n)) stored e suits h m = cc
stored-fits numeric_mode (some c) stored e suits h m = elim (Option-cases (to_digit_string c)) [
  | inl missing ↦ absurd (ground arith)
  | inr (d, found) ↦ ground (arith, digits-fits c d e found m)
]

get-save_ok :
    (code : String) (ids : List String) (tx_code : Option TxCode) (o : SaveOptions) (now : ℕ)
    (m : Codes) (stored : Option TxCode)
    → stored_tx_code (or_else o.tx_code_input_mode numeric_mode) tx_code ≡ ok stored
    → Map.get code (PreAuthorizedCode.save code ids tx_code (some o) now m).1
      ≡ some (record {
        code = code;
        credential_configuration_ids = ids;
        tx_code = stored;
        tx_code_input_mode = some (or_else o.tx_code_input_mode numeric_mode);
        expires_at = some (now + positive_seconds o.ttl_sec * 1000);
        attempts = none;
      })
unfolding PreAuthorizedCode.save
get-save_ok code ids tx_code o now m stored kept = grind (arith, eq_refl, Map.get-set)

save-ok_stored :
    (code : String) (ids : List String) (tx_code : Option TxCode) (o : SaveOptions) (now : ℕ)
    (m : Codes) {u : Unit {0}}
    → (PreAuthorizedCode.save code ids tx_code (some o) now m).0 ≡ ok u
    → (stored : Option TxCode) × (stored_tx_code (or_else o.tx_code_input_mode numeric_mode) tx_code
        ≡ ok stored)
unfolding PreAuthorizedCode.save
save-ok_stored code ids tx_code o now m h =
    elim (Result-cases (stored_tx_code (or_else o.tx_code_input_mode numeric_mode) tx_code)) [
      | inl (e, refused) ↦ absurd (ground arith)
      | inr (stored, kept) ↦ (stored, kept)
    ]

module _ {M : Type 0} where
  -- What `save` leaves under the code, if it does not refuse.
  pub save_code-IsOffered :
      (code : String) (configurations : List String) (tx_code : Option TxCode) (o : SaveOptions)
      (s : Server M) {u : Unit {0}} {t : Server M}
      → SuitsMode (or_else o.tx_code_input_mode numeric_mode) tx_code
      → save_code code configurations tx_code (some o) s ≡ (ok u, t)
      → (e : PreAuthorizedCodeEntry) × (Map.get code t.codes ≡ some e)
        × IsOffered configurations tx_code e
        × (e.expires_at ≡ some (s.clock s.readings + positive_seconds o.ttl_sec * 1000))
        × (t.max_attempts ≡ s.max_attempts)
  unfolding save_code
  save_code-IsOffered code configurations tx_code o s suits h =
      let (stored, kept) =
        save-ok_stored code configurations tx_code o (s.clock s.readings) s.codes
          (ap (λ r. r.0) h) in
      let e : PreAuthorizedCodeEntry = record {
        code = code;
        credential_configuration_ids = configurations;
        tx_code = stored;
        tx_code_input_mode = some (or_else o.tx_code_input_mode numeric_mode);
        expires_at = some (s.clock s.readings + positive_seconds o.ttl_sec * 1000);
        attempts = none;
      } in
      (
        e,
        ap (λ r. Map.get code r.1.codes) (sym h)
            ∙ get-save_ok code configurations tx_code o (s.clock s.readings) s.codes stored kept,
        record {
          configurations_kept = refl;
          untried = refl;
          fitting = stored-fits _ tx_code stored e suits kept refl;
        },
        refl,
        ap (λ r. r.1.max_attempts) (sym h),
      )
