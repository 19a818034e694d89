-- ===== src/Authz/TokenPolicy.antt =====
-- authz.flows.ts, `resolveTokenRequestClientPolicy`: who sends a token request, and which DPoP mode
-- applies. Logs are left out of the resolutions.
pub mod Replay
use vcknots.Common.{
  Bool, Option, String, false, if◌then◌else◌, ltb, none, not, or_else, some, true, ℕ, ◌&&◌, ◌*◌,
  ◌-◌, ◌=ˢ◌, ◌||◌,
}
use vcknots.Common.Int.{ℤ, pos, negsuc}
use vcknots.Common.Json.{Json}
use vcknots.Authz.Types.{DpopMode, AuthzOAuthClient, AuthzOAuthPolicy, AuthorizationServerMetadata}
use vcknots.Authz.Jose.{Jose}
use vcknots.Authz.Request.{
  RequestData, get_token_request_client_id, is_pre_authorized_code_token_request,
  get_token_endpoint_auth_method,
}
use vcknots.Authz.Policy.{
  AuthzOAuthPolicyClientKind, anonymous_client, default_client, ClientContext, ContextResolution,
  resolved, invalid_client, resolve_token_request_policy_client_context,
  resolve_authz_policy_dpop_mode,
}
use vcknots.Authz.Assertion.{Check, pass, fail, verify_private_key_jwt_client_authentication}
use vcknots.Authz.State.{
  Action, Server, date_now, fetch_metadata, fetch_policy, fetch_client, save_assertion_jti,
}
use vcknots.Flow.{pure, ◌>>=◌}

pub data TokenRequestPolicyClientResolution : Type 0 where
  accepted : ClientContext → DpopMode → TokenRequestPolicyClientResolution
  rejected : String → Option String → TokenRequestPolicyClientResolution

abbrev pub is_anonymous : AuthzOAuthPolicyClientKind → Bool
is_anonymous anonymous_client = true
is_anonymous default_client = false

abbrev pub uses_private_key_jwt : AuthzOAuthClient → Bool
uses_private_key_jwt client = get_token_endpoint_auth_method client =ˢ "private_key_jwt"

abbrev pub is_private_key_jwt_client : Option AuthzOAuthClient → Bool
is_private_key_jwt_client none = false
is_private_key_jwt_client (some client) = uses_private_key_jwt client

-- `metadata?.['pre-authorized_grant_anonymous_access_supported'] === true`
abbrev pub allows_anonymous : Option AuthorizationServerMetadata → Bool
allows_anonymous none = false
allows_anonymous (some m) = or_else m.pre_authorized_grant_anonymous_access_supported false

-- `exp * 1000 - now`, with 0 for what is less than 1.
abbrev pub remaining_ms : ℤ → ℕ → ℕ
remaining_ms (pos n) now = n * 1000 - now
remaining_ms (negsuc _) now = 0

module _ {Key Material : Type 0} (jose : Jose Key Material) (authz : String) where
  -- The DPoP mode, once the client is accepted.
  unfoldable pub finish : ClientContext → Action Material TokenRequestPolicyClientResolution
  unfolding fetch_policy
  finish context = do
    policy ← fetch_policy authz
    pure (
        accepted context
          (resolve_authz_policy_dpop_mode policy context.client_kind context.client_policy))

  -- Replay protection of a verified assertion.
  unfoldable pub store_assertion_jti :
      AuthzOAuthClient
      → ClientContext
      → String
      → ℤ
      → Action Material TokenRequestPolicyClientResolution
  unfolding save_assertion_jti finish
  store_assertion_jti client context jti exp = do
    now ← date_now
    let ttl_ms = remaining_ms exp now
    if ltb ttl_ms 1
        then pure (rejected "client_assertion has expired." (some client.client_id))
        else (do
          is_new_jti ← save_assertion_jti client.client_id jti (some ttl_ms)
          if is_new_jti
              then finish context
              else pure
                  (rejected "client_assertion jti has already been used." (some client.client_id)))

  unfoldable pub authenticate :
      Option AuthorizationServerMetadata
      → RequestData
      → AuthzOAuthClient
      → ClientContext
      → Action Material TokenRequestPolicyClientResolution
  unfolding store_assertion_jti verify_private_key_jwt_client_authentication
  authenticate metadata request_data client context = do
    now ← date_now
    now' ← date_now
    elim (verify_private_key_jwt_client_authentication jose authz metadata request_data client now
        now') [
          | fail description ↦ pure (rejected description (some client.client_id))
          | pass (jti, exp) ↦ store_assertion_jti client context jti exp
        ]

  -- From an accepted client context on.
  unfoldable pub resolve_context :
      RequestData
      → Option AuthzOAuthClient
      → ClientContext
      → Action Material TokenRequestPolicyClientResolution
  unfolding authenticate finish fetch_metadata is_pre_authorized_code_token_request
  resolve_context request_data client context = do
    let is_gated =
        is_anonymous context.client_kind && is_pre_authorized_code_token_request request_data
    metadata ←
        if is_gated || is_private_key_jwt_client client then fetch_metadata authz else pure none
    if is_gated && not (allows_anonymous metadata)
        then pure (
            rejected
              "anonymous pre-authorized code token requests are not supported by this authorization server."
              none)
        else elim client [
          | none ↦ finish context
          | some c ↦
              if uses_private_key_jwt c
              then authenticate metadata request_data c context
              else finish context
        ]

  -- The registered client of an id, if there is an id.
  unfoldable pub fetch_client_of : Option String → Action Material (Option AuthzOAuthClient)
  unfolding fetch_client
  fetch_client_of none = pure none
  fetch_client_of (some client_id) = fetch_client authz client_id

  unfoldable pub resolve_token_request_client_policy :
      RequestData → Action Material TokenRequestPolicyClientResolution
  unfolding resolve_context fetch_client_of resolve_token_request_policy_client_context
  resolve_token_request_client_policy request_data = do
    client ← fetch_client_of (get_token_request_client_id jose.decode request_data)
    elim (resolve_token_request_policy_client_context jose.decode request_data client) [
      | invalid_client description client_id ↦ pure (rejected description client_id)
      | resolved context ↦ resolve_context request_data client context
    ]
