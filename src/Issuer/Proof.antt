-- ===== src/Issuer/Proof.antt =====
-- issuer.flows.ts: the proofs of a credential request, in `issueCredential`. The providers of proofs are
-- parameters.
pub mod Spent
use vcknots.Common.{
  Bool, List, Option, String, [], if◌then◌else◌, includes, map, none, or_else, some, true, ℕ, ◌∷◌,
}
use vcknots.Errors.{
  Result, invalid_credential_request, unknown_credential_identifier,
  unknown_credential_configuration, invalid_proof, invalid_nonce,
}
use vcknots.Providers.{find_provider, select_provider}
use vcknots.Flow.{pure, guard, or_throw, lift, ◌>>=◌, ◌>>◌}
use Prim.Native.Char.{Char, code}
use vcknots.Common.Json.{Json, Fields}
use vcknots.Common.Map
use vcknots.Store.Nonce.{Nonce}
use vcknots.Issuer.Types.{
  CredentialFormat, one, many, CredentialConfiguration, CredentialIssuerMetadata, Proofs, jwt,
  di_vp, attestation, ProofValue, compact, presentation, CredentialRequest,
}
use vcknots.Issuer.Metadata.{require_issuer_metadata}
use vcknots.Authz.Jose.{Jose}
use vcknots.Authz.AccessToken.{truthy}
use vcknots.Authz.Endpoint.{CredentialEndpointAuthorizationContext}
use vcknots.Authz.State.{
  Action, Server, date_now, fetch_allowed, save_nonce, validate_nonce, revoke_nonce,
}

pub record IssueOptions : Type 0 where
  pub authorization_context : CredentialEndpointAuthorizationContext
  pub alg : String
  pub cnonce : Bool
  pub claims : Option Fields
  pub subject : Option String
  pub use_pre_auth : Bool

-- `CredentialProofJwtVerifyContext`
pub record ProofContext : Type 0 where
  pub use_pre_auth : Bool
  pub credential_issuer : String
  pub client_id : Option String

-- The members of a verified proof that are read; the header goes to the credential as it is.
pub record ProofJwt : Type 0 where
  pub kid : Option String
  pub header : Fields
  pub nonce : Option String

pub record CredentialProofProvider : Type 0 where
  pub can_handle : String → Bool
  pub verify_proof : ProofValue → Option ProofContext → ℕ → Result (Option ProofJwt)

abbrev pub proof_type : Proofs → String
proof_type (jwt _) = "jwt"
proof_type (di_vp _) = "di_vp"
proof_type (attestation _) = "attestation"

abbrev pub proof_values : Proofs → List ProofValue
proof_values (jwt ps) = map compact ps
proof_values (di_vp ps) = map presentation ps
proof_values (attestation ps) = map compact ps

-- `Nonce({ nonce })`
abbrev pub lookup_nonce : String → Nonce
lookup_nonce nonce = record { nonce = nonce; nonce_expires_in = none }

abbrev pub proof_context : IssueOptions → CredentialIssuerMetadata → Proofs → Option ProofContext
proof_context options metadata (jwt _) = some (record {
  use_pre_auth = options.use_pre_auth;
  credential_issuer = metadata.credential_issuer;
  client_id =
      if options.use_pre_auth
      then truthy options.authorization_context.client_id
      else options.authorization_context.client_id;
})
proof_context options metadata _ = none

-- The nonce of a proof, if there is one and nonces are in use: it is valid, and then revoked.
unfoldable pub use_cnonce : {M : Type 0} → Bool → Option String → Action M (Unit {0})
unfolding validate_nonce revoke_nonce
use_cnonce true (some nonce) = do
  valid ← validate_nonce (lookup_nonce nonce)
  guard valid invalid_nonce "Nonce not found."
  _ ← revoke_nonce (lookup_nonce nonce)
  pure tt
use_cnonce _ _ = pure tt

-- The loop over the proofs, with the last one that was verified.
unfoldable pub verify_proofs :
    {M : Type 0}
    → CredentialProofProvider
    → Option ProofContext
    → Bool
    → List ProofValue
    → Option ProofJwt
    → Action M (Option ProofJwt)
unfolding use_cnonce
verify_proofs provider context cnonce [] last = pure last
verify_proofs provider context cnonce (value ∷ values) last = do
  now ← date_now
  found ← lift (provider.verify_proof value context now)
  proof ← or_throw found invalid_proof "Failed to verify Proof."
  use_cnonce cnonce proof.nonce
  verify_proofs provider context cnonce values (some proof)

-- `getProofType`, the check of it and the choice of a provider, and the loop.
unfoldable pub verify_request_proofs :
    {M : Type 0}
    → List CredentialProofProvider
    → IssueOptions
    → CredentialIssuerMetadata
    → CredentialConfiguration
    → Option Proofs
    → Action M (Option ProofJwt)
unfolding verify_proofs find_provider
verify_request_proofs providers options metadata configuration none = pure none
verify_request_proofs providers options metadata configuration (some proofs) = do
  guard (includes (or_else configuration.proof_types_supported []) (proof_type proofs))
      invalid_credential_request "Request contain no proofs supported by credential configuration."
  provider ← select_provider (λ p. p.can_handle (proof_type proofs)) providers (proof_type proofs)
  verify_proofs provider (proof_context options metadata proofs) options.cnonce
      (proof_values proofs) none
