-- ===== src/Authz/Policy.antt =====
-- authz.flows.ts: the client of a token request against its registration, and the DPoP mode.
use vcknots.Common.{Option, String, if◌then◌else◌, none, or_else, some, ◌+ˢ◌, ◌=ˢ◌, ◌||◌}
use vcknots.Common.Json.{Json}
use vcknots.Common.Map
use vcknots.Authz.Types.{
  DpopMode, off, no_constraint, mtls, SenderConstrainedAccessTokenOptions, AuthzClientPolicy,
  AuthzOAuthPolicy, AuthzOAuthClient,
}
use vcknots.Authz.Request.{
  RequestData, has_value, get_token_request_client_id, has_private_key_jwt_assertion,
  missing_private_key_jwt_assertion_description, get_token_endpoint_auth_method,
}

pub data AuthzOAuthPolicyClientKind : Type 0 where
  anonymous_client default_client : AuthzOAuthPolicyClientKind

-- The members of an accepted resolution; logs are left out.
pub record ClientContext : Type 0 where
  pub client_kind : AuthzOAuthPolicyClientKind
  pub client_id : Option String
  pub client_policy : Option AuthzClientPolicy

-- `invalid_client` carries the description and the client id.
pub data ContextResolution : Type 0 where
  resolved : ClientContext → ContextResolution
  invalid_client : String → Option String → ContextResolution

-- `resolveTokenRequestPolicyClient`
unfoldable pub resolve_token_request_policy_client : RequestData → AuthzOAuthPolicyClientKind
unfolding has_value
resolve_token_request_policy_client request_data =
    if has_value (Map.get "client_id" request_data)
      || has_value (Map.get "client_assertion" request_data)
    then default_client
    else anonymous_client

-- `x ? { senderConstrainedAccessToken: x } : undefined`
abbrev pub policy_of : AuthzOAuthClient → Option AuthzClientPolicy
policy_of client = elim client.sender_constrained_access_token [
  | none ↦ none
  | some options ↦ some (record { sender_constrained_access_token = some options })
]

-- The registered client against the request: the last part of the resolution.
unfoldable pub check_registered_client : RequestData → String → AuthzOAuthClient → ContextResolution
unfolding has_private_key_jwt_assertion
check_registered_client request_data client_id client =
    let accepted = resolved (record {
      client_kind = default_client;
      client_id = some client_id;
      client_policy = policy_of client;
    }) in
    let method = get_token_endpoint_auth_method client in
    if method =ˢ "private_key_jwt"
    then (if has_private_key_jwt_assertion request_data
        then accepted
        else invalid_client (missing_private_key_jwt_assertion_description request_data)
            (some client_id))
    else if method =ˢ "none"
    then accepted
    else invalid_client (method +ˢ " client authentication is not implemented yet.")
        (some client_id)

unfoldable pub resolve_token_request_policy_client_context :
    (String → Option Json) → RequestData → Option AuthzOAuthClient → ContextResolution
unfolding check_registered_client has_value
resolve_token_request_policy_client_context decode request_data client =
    elim (get_token_request_client_id decode request_data) [
      | none ↦
          if has_value (Map.get "client_assertion" request_data)
          then invalid_client "client_assertion must contain iss or sub client identifier." none
          else resolved
              (record { client_kind = anonymous_client; client_id = none; client_policy = none })
      | some client_id ↦ elim client [
        | none ↦ invalid_client "Registered OAuth client was not found." (some client_id)
        | some registered ↦ check_registered_client request_data client_id registered
      ]
    ]

abbrev pub constraint_of : Option AuthzClientPolicy → Option SenderConstrainedAccessTokenOptions
constraint_of none = none
constraint_of (some policy) = policy.sender_constrained_access_token

-- `policy?.[clientKind]`
abbrev pub policy_for :
    AuthzOAuthPolicyClientKind → Option AuthzOAuthPolicy → Option AuthzClientPolicy
policy_for _ none = none
policy_for default_client (some policy) = policy.default_client
policy_for anonymous_client (some policy) = policy.anonymous_client

-- `DEFAULT_DPOP_MODE`
abbrev pub default_dpop_mode : DpopMode
default_dpop_mode = off

-- The DPoP mode of a sender constraint, if there is one.
unfoldable pub mode_of_constraint : Option SenderConstrainedAccessTokenOptions → DpopMode
mode_of_constraint none = default_dpop_mode
mode_of_constraint (some c) = elim c.method [
  | some no_constraint ↦ default_dpop_mode
  | some mtls ↦ default_dpop_mode
  | _ ↦ elim c.dpop [
    | none ↦ default_dpop_mode
    | some options ↦ or_else options.mode default_dpop_mode
  ]
]

-- `resolveAuthzPolicyDpopMode`, over the policy that is stored for the issuer.
unfoldable pub resolve_authz_policy_dpop_mode :
    Option AuthzOAuthPolicy → AuthzOAuthPolicyClientKind → Option AuthzClientPolicy → DpopMode
unfolding mode_of_constraint
resolve_authz_policy_dpop_mode policy client_kind client_policy =
    mode_of_constraint (elim (constraint_of client_policy) [
      | some own ↦ some own
      | none ↦ constraint_of (policy_for client_kind policy)
    ])
