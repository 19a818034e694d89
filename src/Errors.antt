-- ===== src/Errors.antt =====
-- errors/error.codes.ts and errors/vcknots.error.ts: what an operation throws, as a value.
pub mod Chain
use vcknots.Common.{String, inl, inr, refl, ◌≡◌, ◌⊎◌}

pub data ErrorCodes : Type 0 where
  invalid_request : ErrorCodes
  invalid_client : ErrorCodes
  invalid_grant : ErrorCodes
  unauthorized_client : ErrorCodes
  unsupported_grant_type : ErrorCodes
  invalid_scope : ErrorCodes
  invalid_dpop_proof : ErrorCodes
  use_dpop_nonce : ErrorCodes
  invalid_token : ErrorCodes
  insufficient_scope : ErrorCodes
  invalid_credential_request : ErrorCodes
  invalid_proof : ErrorCodes
  invalid_nonce : ErrorCodes
  invalid_encryption_parameters : ErrorCodes
  credential_request_denied : ErrorCodes
  unsupported_credential_type : ErrorCodes
  unknown_credential_configuration : ErrorCodes
  unknown_credential_identifier : ErrorCodes
  access_denied : ErrorCodes
  vp_formats_not_supported : ErrorCodes
  invalid_presentation_definition_uri : ErrorCodes
  invalid_presentation_definition_reference : ErrorCodes
  invalid_request_uri_method : ErrorCodes
  wallet_unavailable : ErrorCodes
  issuer_not_found : ErrorCodes
  verifier_not_found : ErrorCodes
  credential_configuration_not_found : ErrorCodes
  authorization_metadata_not_found : ErrorCodes
  offer_not_found : ErrorCodes
  duplicate_credential_configuration_name : ErrorCodes
  unauthorized : ErrorCodes
  forbidden : ErrorCodes
  user_not_found : ErrorCodes
  issuer_user_already_exists : ErrorCodes
  verifier_user_already_exists : ErrorCodes
  jwks_not_found : ErrorCodes
  invalid_presentation_submission : ErrorCodes
  invalid_options : ErrorCodes
  invalid_sd_jwt : ErrorCodes
  invalid_configuration : ErrorCodes
  invalid_tx_code_options : ErrorCodes
  internal_server_error : ErrorCodes
  illegal_argument : ErrorCodes
  illegal_state : ErrorCodes
  feature_not_implemented_yet : ErrorCodes
  provider_not_found : ErrorCodes
  issuer_public_key_corrupted : ErrorCodes
  issuer_asymmetric_sign_failed : ErrorCodes
  unsupported_issuer_key_alg : ErrorCodes
  invalid_access_token : ErrorCodes
  invalid_issuer_key : ErrorCodes
  authz_issuer_key_not_found : ErrorCodes
  authz_verifier_key_not_found : ErrorCodes
  invalid_credential : ErrorCodes
  unsupported_vp_token : ErrorCodes
  invalid_vp_token : ErrorCodes
  invalid_jwt : ErrorCodes
  invalid_claims : ErrorCodes
  invalid_tx_code : ErrorCodes
  holder_binding_failed : ErrorCodes
  unsupported_client_id_prefix : ErrorCodes
  unsupported_proofs_type : ErrorCodes
  invalid_certificate : ErrorCodes
  duplicate_verifier : ErrorCodes
  duplicate_issuer : ErrorCodes
  duplicate_authz_server : ErrorCodes
  certificate_not_found : ErrorCodes
  request_object_not_found : ErrorCodes
  verifier_vp_formats_not_supported : ErrorCodes
  unsupported_cryptographic_binding_method : ErrorCodes
  insecure_http_not_allowed : ErrorCodes
  transaction_id_not_found : ErrorCodes

-- `VcknotsError`: its name is the code. `failure` is any other `Error`, by its message.
pub data Thrown : Type 0 where
  vcknots_error : ErrorCodes → String → Thrown
  failure : String → Thrown

pub data Result {ℓ} (A : Type ℓ) : Type ℓ where
  ok : A → Result A
  err : Thrown → Result A

abbrev pub raise {ℓ} : {A : Type ℓ} → ErrorCodes → String → Result A
raise code message = err (vcknots_error code message)

-- To split on a result and keep the equation.
pub Result-cases {ℓ} :
    {A : Type ℓ} (r : Result A) → ((e : Thrown) × (r ≡ err e)) ⊎ ((a : A) × (r ≡ ok a))
Result-cases (ok a) = inr (a, refl)
Result-cases (err e) = inl (e, refl)
