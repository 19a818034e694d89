-- ===== src/Verifier/Types.antt =====
-- What the verifier's flows read of dcql.type.ts, verifier-metadata.types.ts,
-- request-object.types.ts, authorization-request.types.ts, authorization-response.types.ts and
-- provider.types.ts.
use vcknots.Common.{Bool, List, Option, String, ℕ}
use vcknots.Common.Json.{Fields}
use vcknots.Common.Map.{Map}

-- One step of a path into a credential: a member, an index or `null`.
pub data PathElement : Type 0 where
  member_name : String → PathElement
  array_index : ℕ → PathElement
  every_element : PathElement

-- A credential query of DCQL, with the paths of its claims.
pub record CredentialQuery : Type 0 where
  pub id : String
  pub format : String
  pub claims : Option (List (List PathElement))

pub record CredentialSet : Type 0 where
  pub options : List (List String)
  pub required : Option Bool

pub record DcqlQuery : Type 0 where
  pub credentials : List CredentialQuery
  pub credential_sets : Option (List CredentialSet)

-- What the metadata say of one format.
pub record VpFormat : Type 0 where
  pub alg_values : Option (List String)
  pub sd_jwt_alg_values : Option (List String)
  pub kb_jwt_alg_values : Option (List String)

pub record VerifierMetadata : Type 0 where
  pub client_name : Option String
  pub jwks : Option (List Fields)
  pub vp_formats_supported : Map VpFormat
  pub encrypted_response_enc_values_supported : Option (List String)

pub data ResponseMode : Type 0 where
  direct_post : ResponseMode
  query : ResponseMode
  fragment : ResponseMode
  dc_api_jwt : ResponseMode
  dc_api : ResponseMode

-- A request object; `iss` and `aud` are absent from an inline request.
pub record RequestObject : Type 0 where
  pub response_type : String
  pub client_id : String
  pub scope : Option String
  pub state : Option String
  pub response_uri : String
  pub iss : Option String
  pub aud : Option String
  pub client_metadata : VerifierMetadata
  pub response_mode : ResponseMode
  pub nonce : String
  pub dcql_query : DcqlQuery
  pub transaction_data : Option (List String)

pub data AuthorizationRequest : Type 0 where
  by_reference : String → String → AuthorizationRequest
  inline : RequestObject → AuthorizationRequest

-- A presentation: a text, or a JSON object.
pub data VerifiablePresentation : Type 0 where
  compact : String → VerifiablePresentation
  json_object : Fields → VerifiablePresentation

pub record AuthorizationResponse : Type 0 where
  pub vp_token : Map (List VerifiablePresentation)
  pub state : Option String

-- `VerifyVerifiablePresentationVerifyOptions`
pub data VpVerifyOptions : Type 0 where
  jwt_vp_json :
      (expected_aud : String) (expected_nonce : String) (allowed_algs : Option (List String))
      → VpVerifyOptions
  dc_sd_jwt :
      (specified_disclosures : List String) (is_kb_jwt : Bool) (expected_aud : String)
      (expected_nonce : String) (expected_transaction_data_hashes : Option (List String))
      (allowed_sd_jwt_algs allowed_kb_jwt_algs : Option (List String))
      → VpVerifyOptions
