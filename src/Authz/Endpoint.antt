-- ===== src/Authz/Endpoint.antt =====
-- authz.flows.ts: the access tokens that the credential endpoint accepts
-- (`verifyAccessTokenPayload`, `verifyDpopBoundAccessToken`, `authorizeCredentialEndpointAccess`).
pub mod Verified
pub mod Modes
use vcknots.Common.{
  Bool, Option, String, [], false, if◌then◌else◌, is_some, none, not, or_else, some, trim, true,
  ◌&&◌, ◌=ˢ◌, ◌||◌, ◌∷◌,
}
use vcknots.Errors.{
  Result, ok, err, failure, invalid_access_token, authz_issuer_key_not_found, invalid_dpop_proof,
}
use vcknots.Common.Json.{Json, null, str, obj, Fields, end, member, as_object}
use vcknots.Headers.{
  AuthorizationScheme, bearer, dpop, ParsedAuthorizationHeader, AuthorizationHeaderParseResult,
  parsed, unsupported_scheme, parse_authorization_header, ParsedDpopHeader, proof_jwt, duplicate,
  parse_dpop_header,
}
use vcknots.Authz.Types.{DpopMode, off, optional, required, AuthzOAuthClient, AuthzClientPolicy}
use vcknots.Authz.Jose.{Jose, Attempt, got, threw}
use vcknots.Authz.DpopProof.{DpopProofOptions, proof_jti_ttl_ms, verify_proof, VerifiedDpopProof}
use vcknots.Authz.Request.{split_dot, get_string_value}
use vcknots.Authz.Policy.{
  AuthzOAuthPolicyClientKind, anonymous_client, default_client, policy_of,
  resolve_authz_policy_dpop_mode,
}
use vcknots.Authz.State.{Action, Server, date_now, fetch_policy, fetch_client}
use vcknots.Flow.{pure, throw, guard, or_throw, lift, ◌>>=◌, ◌>>◌}
use vcknots.Authz.AccessToken.{
  DpopProofContext, find_pair, consume_dpop_nonce, consume_dpop_jti, truthy,
}

-- A text claim that is not blank, as it stands.
unfoldable pub text_claim : Option Json → Option String
text_claim (some (str s)) = if trim s =ˢ "" then none else some s
text_claim _ = none

-- `cnf.jkt`
unfoldable pub get_cnf_jkt : Fields → Option String
unfolding text_claim
get_cnf_jkt payload = elim (as_object (member "cnf" payload)) [
  | none ↦ none
  | some cnf ↦ text_claim (member "jkt" cnf)
]

unfoldable pub get_access_token_client_id : Fields → Option String
unfolding get_string_value
get_access_token_client_id payload = get_string_value (member "client_id" payload)

-- A claim that is a text.
abbrev pub string_claim : Option Json → Option String
string_claim (some (str s)) = some s
string_claim _ = none

-- The first three parts of a token, if none of them is empty.
unfoldable pub token_parts : String → Option (String × String)
unfolding split_dot
token_parts access_token = elim (split_dot access_token) [
  | header ∷ payload ∷ signature ∷ rest ↦
      if header =ˢ "" || payload =ˢ "" || signature =ˢ "" then none else some (header, payload)
  | _ ↦ none
]

pub data TokenType : Type 0 where
  bearer_token dpop_token : TokenType

pub record CredentialEndpointAuthorizationContext : Type 0 where
  pub allowed_credential_configuration_key : String
  pub client_id : Option String
  pub token_type : TokenType

pub record CredentialEndpointAuthorizationOptions : Type 0 where
  pub alg : Option String
  pub authorization_header : Option String
  pub dpop_header : Option String
  pub htm : String
  pub htu : String
  pub nonce_required : Bool

abbrev pub is_dpop : AuthorizationScheme → Bool
is_dpop dpop = true
is_dpop bearer = false

abbrev pub is_off : DpopMode → Bool
is_off off = true
is_off _ = false

abbrev pub is_required : DpopMode → Bool
is_required required = true
is_required _ = false

abbrev pub client_policy_of : Option AuthzOAuthClient → Option AuthzClientPolicy
client_policy_of none = none
client_policy_of (some client) = policy_of client

abbrev pub kind_of : Option String → AuthzOAuthPolicyClientKind
kind_of none = anonymous_client
kind_of (some _) = default_client

module _ {Key Material : Type 0} (jose : Jose Key Material) (proofs : DpopProofOptions)
    (authz : String) where
  -- `authzKey$.fetch`
  unfoldable pub fetch_public_key : String → Action Material (Option Key)
  unfolding find_pair
  fetch_public_key alg = do
    pair ← find_pair authz alg
    elim pair [ none ↦ pure none | some value ↦ lift (jose.import_public value.public_key alg) ]

  -- The header and the payload, by `JSON.parse`, which may give any value.
  unfoldable pub decode_token : String → Action Material (Json × Json)
  unfolding token_parts
  decode_token access_token = do
    (header_part, payload_part) ←
        or_throw (token_parts access_token) invalid_access_token "Access token is not a valid JWT."
    header ←
        or_throw (jose.decode header_part) invalid_access_token "Access token is not a valid JWT."
    payload ←
        or_throw (jose.decode payload_part) invalid_access_token "Access token is not a valid JWT."
    pure (header, payload)

  -- To read a member of `null` throws; other values that are no objects have none.
  abbrev pub members_of : Json → Action Material Fields
  members_of null s = (err (failure "TypeError"), s)
  members_of (obj fs) s = (ok fs, s)
  members_of _ s = (ok end, s)

  -- `AuthorizationServerIssuer(decodedPayload.iss)`, a check that throws, and the comparison.
  unfoldable pub check_issuer : Fields → Action Material (Unit {0})
  check_issuer payload s = elim (string_claim (member "iss" payload)) [
    | none ↦ (err (failure "iss"), s)
    | some iss ↦
        if not (jose.is_url iss)
        then (err (failure "iss"), s)
        else guard (iss =ˢ authz) invalid_access_token
            "Access token issuer does not match the expected issuer." s
  ]

  -- `authzKey$.fetch(authz, decodedHeader.alg ?? options?.alg ?? 'ES256')`; there is no key for an
  -- `alg` that is no text.
  unfoldable pub fetch_token_key : Option Json → Option String → Action Material (Option Key)
  unfolding fetch_public_key
  fetch_token_key (some (str header_alg)) alg = fetch_public_key header_alg
  fetch_token_key none alg = fetch_public_key (or_else alg "ES256")
  fetch_token_key (some null) alg = fetch_public_key (or_else alg "ES256")
  fetch_token_key (some _) alg = pure none

  -- The signature of the token.
  unfoldable pub check_token_signature : String → Key → Action Material (Unit {0})
  check_token_signature access_token key = do
    now ← date_now
    elim (jose.jwt_verify access_token key
        (record { issuer = some authz; subject = none; audience = []; clock_tolerance = 0 }) now) [
          | threw _ ↦ throw invalid_access_token "Access token verification failed."
          | got _ ↦ pure tt
        ]

  unfoldable pub verify_access_token_payload : String → Option String → Action Material Fields
  unfolding decode_token check_issuer fetch_token_key check_token_signature
  verify_access_token_payload access_token alg = do
    (header_value, payload_value) ← decode_token access_token
    payload ← members_of payload_value
    check_issuer payload
    header ← members_of header_value
    found ← fetch_token_key (member "alg" header) alg
    key ← or_throw found authz_issuer_key_not_found "Authorization server key not found."
    check_token_signature access_token key
    pure payload

  -- The proof, the nonce, the binding by `cnf.jkt` and the `jti`, in this order.
  unfoldable pub verify_binding : String → DpopProofContext → String → Action Material (Unit {0})
  unfolding consume_dpop_nonce consume_dpop_jti
  verify_binding access_token context access_token_jkt = do
    now ← date_now
    proof ← lift (
        verify_proof jose proofs context.proof_jwt
          (record {
            htm = context.htm;
            htu = context.htu;
            nonce = none;
            access_token = some access_token;
          })
          now)
    consume_dpop_nonce "Credential issuer requires nonce in DPoP proof." context.nonce_required
        proof
    guard (proof.jwk_thumbprint =ˢ access_token_jkt) invalid_dpop_proof
        "DPoP proof public key does not match access token cnf.jkt."
    consume_dpop_jti (proof_jti_ttl_ms proofs) proof

  unfoldable pub verify_dpop_bound_access_token :
      String → DpopProofContext → Option String → Action Material Fields
  unfolding verify_access_token_payload verify_binding get_cnf_jkt
  verify_dpop_bound_access_token access_token context alg = do
    payload ← verify_access_token_payload access_token alg
    access_token_jkt ←
        or_throw (get_cnf_jkt payload) invalid_access_token
          "DPoP-bound access token must contain cnf.jkt."
    verify_binding access_token context access_token_jkt
    pure payload

  -- `parseAuthorizationHeader`, with its refusals thrown.
  unfoldable pub authorization_of : Option String → Action Material ParsedAuthorizationHeader
  unfolding parse_authorization_header
  authorization_of header = elim (parse_authorization_header header) [
    | parsed value ↦ pure value
    | AuthorizationHeaderParseResult.missing ↦
        throw invalid_access_token "Access token is required."
    | _ ↦ throw invalid_access_token "Authorization header must use Bearer or DPoP scheme."
  ]

  -- `parseDpopHeader`, with its refusals thrown.
  unfoldable pub dpop_proof_of : Option String → Action Material String
  unfolding parse_dpop_header
  dpop_proof_of header = elim (parse_dpop_header header) [
    | proof_jwt proof ↦ pure proof
    | ParsedDpopHeader.missing ↦ throw invalid_dpop_proof "DPoP proof JWT is required."
    | duplicate ↦ throw invalid_dpop_proof "DPoP header must appear exactly once."
    | ParsedDpopHeader.malformed ↦
        throw invalid_dpop_proof "DPoP header must contain a compact JWT."
  ]

  -- The registered client that a token names.
  unfoldable pub client_of_token : Option String → Action Material (Option AuthzOAuthClient)
  unfolding fetch_client
  client_of_token none = pure none
  client_of_token (some client_id) = do
    client ← fetch_client authz client_id
    guard (is_some client) invalid_access_token "Access token client_id is not registered."
    pure client

  -- From the DPoP mode on: the scheme against the mode, and the binding of the token.
  unfoldable pub admit_token :
      CredentialEndpointAuthorizationOptions
      → ParsedAuthorizationHeader
      → Fields
      → DpopMode
      → Action Material TokenType
  unfolding dpop_proof_of verify_dpop_bound_access_token get_cnf_jkt
  admit_token options authorization payload mode =
      if is_off mode && (is_dpop authorization.scheme || is_some (truthy options.dpop_header))
      then throw invalid_access_token
          "DPoP access tokens are not supported by this credential endpoint."
      else if is_dpop authorization.scheme
      then (do
        proof ← dpop_proof_of options.dpop_header
        bound ←
            verify_dpop_bound_access_token authorization.token
              (record {
                proof_jwt = proof;
                htm = options.htm;
                htu = options.htu;
                nonce_required = options.nonce_required;
              })
              options.alg
        pure dpop_token)
      else (do
        guard (not (is_required mode)) invalid_access_token "DPoP access token is required."
        guard (not (is_some (get_cnf_jkt payload))) invalid_access_token
            "DPoP-bound access token must be presented with DPoP scheme."
        pure bearer_token)

  unfoldable pub authorize_credential_endpoint_access :
      CredentialEndpointAuthorizationOptions
      → Action Material CredentialEndpointAuthorizationContext
  unfolding authorization_of verify_access_token_payload client_of_token admit_token fetch_policy
      get_access_token_client_id
  authorize_credential_endpoint_access options = do
    authorization ← authorization_of options.authorization_header
    payload ← verify_access_token_payload authorization.token options.alg
    let client_id = get_access_token_client_id payload
    client ← client_of_token client_id
    policy ← fetch_policy authz
    let mode = resolve_authz_policy_dpop_mode policy (kind_of client_id) (client_policy_of client)
    token_type ← admit_token options authorization payload mode
    pure (record {
      allowed_credential_configuration_key = jose.token_hash authorization.token;
      client_id = client_id;
      token_type = token_type;
    })
