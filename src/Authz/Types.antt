-- ===== src/Authz/Types.antt =====
-- authz-oauth-policy.types.ts, authz-oauth-client.types.ts and authorization-server.types.ts: the
-- records that the stores of the authorization server hold. A key set is a list of JSON objects.
use vcknots.Common.{Bool, List, Option, String}
use vcknots.Common.Json.{Fields}

pub data DpopMode : Type 0 where
  off optional required : DpopMode

pub data SenderConstraintMethod : Type 0 where
  no_constraint dpop_method mtls : SenderConstraintMethod

pub record DpopOptions : Type 0 where
  pub mode : Option DpopMode

pub record SenderConstrainedAccessTokenOptions : Type 0 where
  pub method : Option SenderConstraintMethod
  pub dpop : Option DpopOptions

pub record AuthzClientPolicy : Type 0 where
  pub sender_constrained_access_token : Option SenderConstrainedAccessTokenOptions

pub record AuthzOAuthPolicy : Type 0 where
  pub default_client : Option AuthzClientPolicy
  pub anonymous_client : Option AuthzClientPolicy

pub record AuthzOAuthClient : Type 0 where
  pub client_id : String
  pub client_name : Option String
  pub token_endpoint_auth_method : Option String
  pub token_endpoint_auth_signing_alg : Option String
  pub client_assertion_audience : Option String
  pub jwks : Option (List Fields)
  pub jwks_uri : Option String
  pub allowed_grant_types : Option (List String)
  pub sender_constrained_access_token : Option SenderConstrainedAccessTokenOptions
  pub enabled : Option Bool
  pub comment : Option String

-- The members that the flows read; the store returns the others as they were saved.
pub record AuthorizationServerMetadata : Type 0 where
  pub pre_authorized_grant_anonymous_access_supported : Option Bool
  pub issuer : String
  pub token_endpoint : String
  pub token_endpoint_auth_methods_supported : Option (List String)
  pub token_endpoint_auth_signing_alg_values_supported : Option (List String)
