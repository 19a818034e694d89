-- ===== src/Issuer/Types.antt =====
-- credential-issuer.types.ts, credential-offer.types.ts, proofs.types.ts and credential-request.types.ts:
-- the members that the issuer's flows read. A member that is missing is `none`. Configurations are
-- looked up among an object's own members.
use vcknots.Common.{List, Option, String}
use vcknots.Common.Json.{Json}
use vcknots.Common.Map.{Map}

-- `string | string[]`
pub data CredentialFormat : Type 0 where
  one : String → CredentialFormat
  many : List String → CredentialFormat

pub record CredentialConfiguration : Type 0 where
  pub format : CredentialFormat
  pub proof_types_supported : Option (List String)
  pub credential_signing_alg_values_supported : Option (List String)

pub record CredentialIssuerMetadata : Type 0 where
  pub credential_issuer : String
  pub authorization_servers : Option (List String)
  pub credential_endpoint : String
  pub deferred_credential_endpoint : Option String
  pub credential_configurations_supported : Map CredentialConfiguration

-- One of the three members that `proofs` has.
pub data Proofs : Type 0 where
  jwt : List String → Proofs
  di_vp : List Json → Proofs
  attestation : List String → Proofs

pub data ProofValue : Type 0 where
  compact : String → ProofValue
  presentation : Json → ProofValue

pub record CredentialRequest : Type 0 where
  pub credential_identifier : Option String
  pub credential_configuration_id : Option String
  pub proofs : Option Proofs
