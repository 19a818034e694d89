-- ===== src/Issuer/Issue.antt =====
-- issuer.flows.ts, `issueCredential`, and the nonces of the credential endpoint. The providers of
-- credentials are parameters.
pub mod Allowed
pub mod Offered
use vcknots.Common.{
  Bool, List, Option, String, [], includes, is_some, none, not, some, ◌&&◌, ◌+ˢ◌, ◌=ˢ◌, ◌∷◌,
}
use vcknots.Errors.{
  Result, invalid_credential_request, unknown_credential_identifier,
  unknown_credential_configuration, invalid_proof, invalid_nonce,
}
use vcknots.Providers.{find_provider, select_provider}
use vcknots.Flow.{pure, guard, or_throw, lift, ◌>>=◌, ◌>>◌}
use Prim.Native.Char.{Char, code}
use vcknots.Common.Json.{Json, Fields}
use vcknots.Common.Map
use vcknots.Store.Nonce.{Nonce}
use vcknots.Issuer.Types.{
  CredentialFormat, one, many, CredentialConfiguration, CredentialIssuerMetadata, Proofs, jwt,
  di_vp, attestation, ProofValue, compact, presentation, CredentialRequest,
}
use vcknots.Issuer.Metadata.{require_issuer_metadata}
use vcknots.Issuer.Uri.{is_uri, is_valid_subject}
use vcknots.Issuer.Proof.{
  IssueOptions, ProofJwt, CredentialProofProvider, lookup_nonce, verify_request_proofs,
}
use vcknots.Authz.Jose.{Jose}
use vcknots.Authz.AccessToken.{truthy}
use vcknots.Authz.Endpoint.{CredentialEndpointAuthorizationContext}
use vcknots.Authz.State.{
  Action, Server, date_now, fetch_allowed, save_nonce, validate_nonce, revoke_nonce,
}

pub record CreateCredentialOptions : Type 0 where
  pub subject : Option String
  pub claims : Option Fields
  pub key_alg : String
  pub proof_header : Fields

pub record IssueCredentialProvider (M : Type 0) : Type 0 where
  pub can_handle : CredentialFormat → Bool
  pub create_credential :
      String → CredentialConfiguration → CreateCredentialOptions → Server M → Result String

-- The text of a format.
abbrev join_with : String → List String → String
join_with separator [] = ""
join_with separator (x ∷ xs) = elim xs [
  | [] ↦ x
  | y ∷ ys ↦ x +ˢ separator +ˢ join_with separator xs
]

abbrev pub shown_format : CredentialFormat → String
shown_format (one format) = format
shown_format (many formats) = join_with "," formats

-- `a ?? b`
abbrev pub or_some : Option String → Option String → Option String
or_some none other = other
or_some (some a) other = some a

-- The configuration that a request names, against the metadata.
unfoldable pub requested_configuration :
    {M : Type 0}
    → CredentialIssuerMetadata
    → CredentialRequest
    → Action M (String × CredentialConfiguration)
requested_configuration metadata request = do
  guard (not (is_some request.credential_identifier && is_some request.credential_configuration_id))
      invalid_credential_request
      "credential_identifier and credential_configuration_id must not be used together."
  guard (not (is_some request.credential_identifier)) unknown_credential_identifier
      "Credential identifier is unknown."
  id ←
      or_throw request.credential_configuration_id invalid_credential_request
        "Credential configuration id is not specified."
  configuration ←
      or_throw (Map.get id metadata.credential_configurations_supported)
        unknown_credential_configuration "Credential configuration is not supported by issuer."
  pure (id, configuration)

-- The configuration against the ones that the access token allows.
unfoldable pub check_allowed : {M : Type 0} → String → String → Action M (Unit {0})
unfolding fetch_allowed
check_allowed key id = do
  guard (not (key =ˢ "")) invalid_credential_request
      "allowed credential configuration key is missing."
  found ← fetch_allowed key
  ids ←
      or_throw found invalid_credential_request
        "Allowed credential configurations for this access token were not found"
  guard (includes ids id) invalid_credential_request
      "Requested credential_configuration_id is not allowed for this access token."

module _ {Key Material : Type 0} (jose : Jose Key Material) (debug : Bool) where
  -- The checks before a provider is chosen: what is asked for is known and allowed.
  unfoldable pub admitted_configuration :
      String
      → CredentialRequest
      → IssueOptions
      → Action Material (CredentialIssuerMetadata × CredentialConfiguration)
  unfolding require_issuer_metadata requested_configuration check_allowed is_uri
  admitted_configuration issuer request options = do
    guard (is_valid_subject (truthy options.subject)) invalid_credential_request
        "Invalid options: subject must be a URI."
    metadata ← require_issuer_metadata jose debug issuer
    (id, configuration) ← requested_configuration metadata request
    check_allowed options.authorization_context.allowed_credential_configuration_key id
    pure (metadata, configuration)

  module _ (proof_providers : List CredentialProofProvider)
      (issue_providers : List (IssueCredentialProvider Material)) where
    unfoldable pub issue_credential :
        String → CredentialRequest → IssueOptions → Action Material String
    unfolding admitted_configuration find_provider verify_request_proofs
    issue_credential issuer request options = do
      (metadata, configuration) ← admitted_configuration issuer request options
      provider ←
          select_provider (λ p. p.can_handle configuration.format) issue_providers
            (shown_format configuration.format)
      last ← verify_request_proofs proof_providers options metadata configuration request.proofs
      proof ← or_throw last invalid_proof "Proof is required to issue credential."
      λ s. (
        provider.create_credential issuer configuration
            (record {
              subject = or_some options.subject proof.kid;
              claims = options.claims;
              key_alg = options.alg;
              proof_header = proof.header;
            })
            s,
        s,
      )

-- `createNonce`, `validateNonce` and `revokeNonce`; the nonce is generated.
unfoldable pub create_nonce : {M : Type 0} → Nonce → Action M String
unfolding save_nonce
create_nonce nonce = do save_nonce nonce; pure nonce.nonce

unfoldable pub validate_issued_nonce : {M : Type 0} → String → Action M Bool
unfolding validate_nonce
validate_issued_nonce nonce = validate_nonce (lookup_nonce nonce)

unfoldable pub revoke_issued_nonce : {M : Type 0} → String → Action M Bool
unfolding revoke_nonce
revoke_issued_nonce nonce = revoke_nonce (lookup_nonce nonce)
