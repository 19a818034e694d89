-- ===== src/Server/ErrorHandler.antt =====
-- utils/error-handler.ts of the example server: the answer to an error, with the status that the routes
-- give it. The name of a `VcknotsError` is its code.
use vcknots.Common.{Bool, String, false, if◌then◌else◌, ℕ, ◌=ˢ◌}
use vcknots.Errors.{
  Thrown, vcknots_error, failure, ErrorCodes, invalid_request, invalid_client, invalid_grant,
  unauthorized_client, unsupported_grant_type, invalid_scope, invalid_dpop_proof, use_dpop_nonce,
  invalid_token, insufficient_scope, invalid_credential_request, invalid_proof, invalid_nonce,
  invalid_encryption_parameters, credential_request_denied, unsupported_credential_type,
  unknown_credential_configuration, unknown_credential_identifier, access_denied,
  vp_formats_not_supported, invalid_presentation_definition_uri,
  invalid_presentation_definition_reference, invalid_request_uri_method, wallet_unavailable,
  issuer_not_found, verifier_not_found, credential_configuration_not_found,
  authorization_metadata_not_found, offer_not_found, duplicate_credential_configuration_name,
  unauthorized, forbidden, user_not_found, issuer_user_already_exists, verifier_user_already_exists,
  jwks_not_found, invalid_presentation_submission, invalid_options, invalid_sd_jwt,
  invalid_configuration, invalid_tx_code_options, internal_server_error, illegal_argument,
  illegal_state, feature_not_implemented_yet, provider_not_found, issuer_public_key_corrupted,
  issuer_asymmetric_sign_failed, unsupported_issuer_key_alg, invalid_access_token,
  invalid_issuer_key, authz_issuer_key_not_found, authz_verifier_key_not_found, invalid_credential,
  unsupported_vp_token, invalid_vp_token, invalid_jwt, invalid_claims, invalid_tx_code,
  holder_binding_failed, unsupported_client_id_prefix, unsupported_proofs_type, invalid_certificate,
  duplicate_verifier, duplicate_issuer, duplicate_authz_server, certificate_not_found,
  request_object_not_found, verifier_vp_formats_not_supported,
  unsupported_cryptographic_binding_method, insecure_http_not_allowed, transaction_id_not_found,
}
use vcknots.Server.Types.{ErrorBody}

-- `err.name`
unfoldable pub code_name : ErrorCodes → String
code_name invalid_request = "invalid_request"
code_name invalid_client = "invalid_client"
code_name invalid_grant = "invalid_grant"
code_name unauthorized_client = "unauthorized_client"
code_name unsupported_grant_type = "unsupported_grant_type"
code_name invalid_scope = "invalid_scope"
code_name invalid_dpop_proof = "invalid_dpop_proof"
code_name use_dpop_nonce = "use_dpop_nonce"
code_name invalid_token = "invalid_token"
code_name insufficient_scope = "insufficient_scope"
code_name invalid_credential_request = "invalid_credential_request"
code_name invalid_proof = "invalid_proof"
code_name invalid_nonce = "invalid_nonce"
code_name invalid_encryption_parameters = "invalid_encryption_parameters"
code_name credential_request_denied = "credential_request_denied"
code_name unsupported_credential_type = "unsupported_credential_type"
code_name unknown_credential_configuration = "unknown_credential_configuration"
code_name unknown_credential_identifier = "unknown_credential_identifier"
code_name access_denied = "access_denied"
code_name vp_formats_not_supported = "vp_formats_not_supported"
code_name invalid_presentation_definition_uri = "invalid_presentation_definition_uri"
code_name invalid_presentation_definition_reference = "invalid_presentation_definition_reference"
code_name invalid_request_uri_method = "invalid_request_uri_method"
code_name wallet_unavailable = "wallet_unavailable"
code_name issuer_not_found = "issuer_not_found"
code_name verifier_not_found = "verifier_not_found"
code_name credential_configuration_not_found = "credential_configuration_not_found"
code_name authorization_metadata_not_found = "authorization_metadata_not_found"
code_name offer_not_found = "offer_not_found"
code_name duplicate_credential_configuration_name = "duplicate_credential_configuration_name"
code_name unauthorized = "unauthorized"
code_name forbidden = "forbidden"
code_name user_not_found = "user_not_found"
code_name issuer_user_already_exists = "issuer_user_already_exists"
code_name verifier_user_already_exists = "verifier_user_already_exists"
code_name jwks_not_found = "jwks_not_found"
code_name invalid_presentation_submission = "invalid_presentation_submission"
code_name invalid_options = "invalid_options"
code_name invalid_sd_jwt = "invalid_sd_jwt"
code_name invalid_configuration = "invalid_configuration"
code_name invalid_tx_code_options = "invalid_tx_code_options"
code_name internal_server_error = "internal_server_error"
code_name illegal_argument = "illegal_argument"
code_name illegal_state = "illegal_state"
code_name feature_not_implemented_yet = "feature_not_implemented_yet"
code_name provider_not_found = "provider_not_found"
code_name issuer_public_key_corrupted = "issuer_public_key_corrupted"
code_name issuer_asymmetric_sign_failed = "issuer_asymmetric_sign_failed"
code_name unsupported_issuer_key_alg = "unsupported_issuer_key_alg"
code_name invalid_access_token = "invalid_access_token"
code_name invalid_issuer_key = "invalid_issuer_key"
code_name authz_issuer_key_not_found = "authz_issuer_key_not_found"
code_name authz_verifier_key_not_found = "authz_verifier_key_not_found"
code_name invalid_credential = "invalid_credential"
code_name unsupported_vp_token = "unsupported_vp_token"
code_name invalid_vp_token = "invalid_vp_token"
code_name invalid_jwt = "invalid_jwt"
code_name invalid_claims = "invalid_claims"
code_name invalid_tx_code = "invalid_tx_code"
code_name holder_binding_failed = "holder_binding_failed"
code_name unsupported_client_id_prefix = "unsupported_client_id_prefix"
code_name unsupported_proofs_type = "unsupported_proofs_type"
code_name invalid_certificate = "invalid_certificate"
code_name duplicate_verifier = "duplicate_verifier"
code_name duplicate_issuer = "duplicate_issuer"
code_name duplicate_authz_server = "duplicate_authz_server"
code_name certificate_not_found = "certificate_not_found"
code_name request_object_not_found = "request_object_not_found"
code_name verifier_vp_formats_not_supported = "verifier_vp_formats_not_supported"
code_name unsupported_cryptographic_binding_method = "unsupported_cryptographic_binding_method"
code_name insecure_http_not_allowed = "insecure_http_not_allowed"
code_name transaction_id_not_found = "transaction_id_not_found"

unfoldable pub handle_error : Thrown → ErrorBody
unfolding code_name
handle_error (vcknots_error code message) = record {
  error = code_name code;
  error_description = message;
}
handle_error (failure message) = record {
  error = "internal_server_error";
  error_description = message;
}

-- `errorResponse.error === 'internal_server_error' ? 500 : 400`
abbrev pub error_status : ErrorBody → ℕ
error_status body = if body.error =ˢ "internal_server_error" then 500 else 400

-- `err instanceof VcknotsError && err.name === name`
abbrev pub has_name : String → Thrown → Bool
has_name name (vcknots_error code message) = code_name code =ˢ name
has_name name (failure message) = false
