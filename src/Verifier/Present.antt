-- ===== src/Verifier/Present.antt =====
-- verifier.flows.ts, `verifyPresentations`, `getTransaction` and `deleteTransaction`. The providers of
-- presentations are parameters; `P` is the type of their payloads. `stringify` is `JSON.stringify`.
pub mod Verified
pub mod Entries
pub mod Accepted
use vcknots.Common.{
  Bool, List, Option, String, [], false, if◌then◌else◌, map, none, not, some, true, ℕ, ◌+ˢ◌, ◌=ˢ◌,
  ◌∷◌,
}
use vcknots.Errors.{
  Result, illegal_argument, transaction_id_not_found, verifier_not_found, invalid_request,
  invalid_vp_token, unsupported_vp_token, invalid_nonce,
}
use vcknots.Providers.{find_provider, select_provider}
use vcknots.Flow.{pure, throw, guard, or_throw, ◌>>=◌, ◌>>◌}
use vcknots.Common.Map
use vcknots.Common.Map.{Map}
use vcknots.Store.Nonce.{Nonce}
use vcknots.Store.Transactions.{Transaction}
use vcknots.Authz.AccessToken.{truthy}
use vcknots.Verifier.Types.{
  CredentialQuery, DcqlQuery, VpFormat, VerifiablePresentation, compact, json_object,
  AuthorizationResponse, VpVerifyOptions, jwt_vp_json, dc_sd_jwt,
}
use vcknots.Verifier.State.{
  Verifier, Action, fetch_transaction, remove_transaction, fetch_metadata, validate_nonce,
  revoke_nonce,
}
use vcknots.Verifier.Query.{format_of, specified_disclosures, check_presented}

pub record VpProvider (M P : Type 0) : Type 0 where
  pub can_handle : String → Bool
  pub verify : String → VpVerifyOptions → Verifier M → Result P

pub record VerifyPresentationOptions : Type 0 where
  pub is_kb_jwt : Bool
  pub expected_transaction_data_hashes : Option (List String)

pub record TransactionView : Type 0 where
  pub client_id : String
  pub state : Option String
  pub dcql_query : DcqlQuery
  pub expires_at : ℕ

-- `transaction.state !== undefined && response.state !== transaction.state`, negated.
abbrev pub state_matches : Option String → Option String → Bool
state_matches none actual = true
state_matches (some expected) none = false
state_matches (some expected) (some actual) = actual =ˢ expected

abbrev pub provider_key : String → String
provider_key format = if format =ˢ "jwt_vc_json" then "jwt_vp_json" else format

abbrev algs : (VpFormat → Option (List String)) → Option VpFormat → Option (List String)
algs f none = none
algs f (some format) = f format

-- `Nonce({ nonce })`
abbrev pub lookup_nonce : String → Nonce
lookup_nonce nonce = record { nonce = nonce; nonce_expires_in = none }

unfoldable pub verify_options :
    String
    → String
    → Map VpFormat
    → Transaction DcqlQuery
    → VerifyPresentationOptions
    → VpVerifyOptions
unfolding specified_disclosures
verify_options id format formats t options =
    if format =ˢ "dc+sd-jwt"
    then dc_sd_jwt (specified_disclosures id t.dcql_query.credentials) options.is_kb_jwt t.client_id
        t.nonce options.expected_transaction_data_hashes
        (algs (λ f. f.sd_jwt_alg_values) (Map.get "dc+sd-jwt" formats))
        (algs (λ f. f.kb_jwt_alg_values) (Map.get "dc+sd-jwt" formats))
    else jwt_vp_json t.client_id t.nonce (algs (λ f. f.alg_values) (Map.get "jwt_vc_json" formats))

abbrev pub not_empty : List VerifiablePresentation → Bool
not_empty [] = false
not_empty (_ ∷ _) = true

abbrev pub ids_of : {P : Type 0} → Map (List P) → List String
ids_of results = map (λ r. r.0) results

module _ {M : Type 0} where
  -- The transaction, and the formats of its verifier, for a response with its state.
  unfoldable pub open_transaction :
      AuthorizationResponse → String → Action M (Transaction DcqlQuery × Map VpFormat)
  unfolding fetch_transaction fetch_metadata
  open_transaction response transaction_id = do
    guard (not (transaction_id =ˢ "")) illegal_argument "transaction_id is required."
    found ← fetch_transaction transaction_id
    transaction ← or_throw found transaction_id_not_found "Transaction is not found."
    known ← fetch_metadata transaction.verifier_id
    metadata ← or_throw known verifier_not_found "verifier is not found."
    guard (state_matches transaction.state response.state) invalid_request
        "unknown or expired state."
    pure (transaction, metadata.vp_formats_supported)

  -- The end: the nonce is valid and then revoked, and the transaction is deleted.
  unfoldable pub close_transaction : String → String → Action M (Unit {0})
  unfolding validate_nonce revoke_nonce remove_transaction
  close_transaction nonce transaction_id = do
    valid ← validate_nonce (lookup_nonce nonce)
    guard valid invalid_nonce "nonce is not valid."
    _ ← revoke_nonce (lookup_nonce nonce)
    remove_transaction transaction_id

module _ {M P : Type 0} where
  -- The presentations for one credential query.
  unfoldable pub verify_all :
      VpProvider M P → VpVerifyOptions → List VerifiablePresentation → Action M (List P)
  verify_all provider options [] = pure []
  verify_all provider options (json_object _ ∷ vps) =
      throw unsupported_vp_token "Non-string VP format is not supported."
  verify_all provider options (compact vp ∷ vps) = do
    payload ← λ s. (provider.verify vp options s, s)
    payloads ← verify_all provider options vps
    pure (payload ∷ payloads)

  -- One member of `vp_token`.
  unfoldable pub verify_entry :
      List (VpProvider M P)
      → Map VpFormat
      → Transaction DcqlQuery
      → VerifyPresentationOptions
      → String
      → List VerifiablePresentation
      → Action M (List P)
  unfolding format_of find_provider verify_all verify_options
  verify_entry providers formats t options id vps = do
    format ←
        or_throw (truthy (format_of id t.dcql_query.credentials)) illegal_argument
          ("Unknown credential query id: " +ˢ id)
    guard (not_empty vps) invalid_vp_token
        ("Credential query '" +ˢ id +ˢ "' must have at least one presentation.")
    provider ←
        select_provider (λ p. p.can_handle (provider_key format)) providers (provider_key format)
    verify_all provider (verify_options id format formats t options) vps

  unfoldable pub verify_entries :
      List (VpProvider M P)
      → Map VpFormat
      → Transaction DcqlQuery
      → VerifyPresentationOptions
      → Map (List VerifiablePresentation)
      → Action M (Map (List P))
  unfolding verify_entry
  verify_entries providers formats t options [] = pure []
  verify_entries providers formats t options ((id, vps) ∷ entries) = do
    payloads ← verify_entry providers formats t options id vps
    results ← verify_entries providers formats t options entries
    pure ((id, payloads) ∷ results)

  unfoldable pub verify_presentations :
      (List (List String) → String)
      → List (VpProvider M P)
      → AuthorizationResponse
      → String
      → VerifyPresentationOptions
      → Action M (Map (List P))
  unfolding open_transaction verify_entries check_presented close_transaction
  verify_presentations stringify providers response transaction_id options = do
    (transaction, formats) ← open_transaction response transaction_id
    results ← verify_entries providers formats transaction options response.vp_token
    check_presented stringify (ids_of results) transaction.dcql_query.credentials
        transaction.dcql_query.credential_sets
    close_transaction transaction.nonce transaction_id
    pure results

module _ {M : Type 0} where
  unfoldable pub get_transaction : String → Action M TransactionView
  unfolding fetch_transaction
  get_transaction transaction_id = do
    found ← fetch_transaction transaction_id
    t ← or_throw found transaction_id_not_found "transaction_id is unknown or already removed"
    pure (record {
      client_id = t.client_id;
      state = t.state;
      dcql_query = t.dcql_query;
      expires_at = t.transaction_data_expires_at;
    })

  unfoldable pub delete_transaction : String → Action M (Unit {0})
  unfolding remove_transaction
  delete_transaction transaction_id = remove_transaction transaction_id
