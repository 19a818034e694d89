-- ===== src/Tests/Flows.antt =====
-- The theorems on the flows, at concrete inputs: one server, one token, and parameters that decode
-- `h` and `p` and verify everything.
use vcknots.Common.{
  List, Option, String, [], arith, false, if◌then◌else◌, includes, none, or_else, refl, some, trim,
  true, ℕ, ◌=ˢ◌, ◌∷◌, ◌≡◌, ◌≢◌, ◌+◌,
}
use vcknots.Errors.{ok}
use vcknots.Common.Map
use vcknots.Common.Number.{finite}
use vcknots.Common.Int.{pos}
use vcknots.Common.Json.{Json, str, num, obj, Fields, end, field, member}
use vcknots.Store.Allowed
use vcknots.Store.Jti
use vcknots.Store.PreAuthorizedCode
use vcknots.Store.PreAuthorizedCode.Trace
use vcknots.Authz.Types.{AuthzOAuthClient, AuthorizationServerMetadata, off}
use vcknots.Authz.Jose.{Jose, got, threw}
use vcknots.Authz.DpopProof.{DpopProofOptions}
use vcknots.Authz.Request.{
  RequestData, CompactJwt, split_dot, get_string_value, parse_compact_jwt,
  is_pre_authorized_code_token_request,
}
use vcknots.Authz.Policy.{
  mode_of_constraint, resolve_authz_policy_dpop_mode, ClientContext, default_client,
  anonymous_client,
}
use vcknots.Authz.State.{Server}
use vcknots.Authz.AccessToken.{
  pre_authorized_code, TokenRequestOptions, TokenResponse, create_access_token,
}
use vcknots.Authz.AccessToken.Redemption
use vcknots.Authz.Endpoint.{
  CredentialEndpointAuthorizationOptions, CredentialEndpointAuthorizationContext, bearer_token,
  verify_access_token_payload, authorize_credential_endpoint_access,
}
use vcknots.Authz.Endpoint.Verified
use vcknots.Authz.Endpoint.Modes
use vcknots.Authz.Assertion.{pass, verify_private_key_jwt_client_authentication}
use vcknots.Authz.Assertion.Sound
use vcknots.Authz.TokenPolicy
use vcknots.Authz.TokenPolicy.{
  accepted, allows_anonymous, remaining_ms, store_assertion_jti, resolve_context,
}

abbrev pub claims : Fields
claims = field "iss" (str "as") (
    field "sub" (str "as")
      (field "exp" (num (pos 9000)) (field "iat" (num (pos 0)) (field "jti" (str "j") end))))

abbrev pub decoded : String → Option Json
decoded s =
    if s =ˢ "h"
    then some (obj (field "alg" (str "ES256") end))
    else if s =ˢ "p"
    then some (obj claims)
    else none

abbrev pub jose : Jose String String
jose = record {
  decode = decoded;
  encode = λ fs. "e";
  token_hash = λ s. s;
  is_url = λ s. true;
  import_jwk = λ jwk alg. got "key";
  jwt_verify = λ token key options now. got tt;
  import_public = λ material alg. ok (some material);
  sign_with = λ material alg payload header. ok (some "s");
  protected_header = λ jwt. none;
  verify_proof_jwt = λ jwt key options now. threw "no";
  parse_url = λ value. none;
  href = λ url. "";
  jwk_thumbprint = λ jwk. none;
}

abbrev pub proofs : DpopProofOptions
proofs = record { max_token_age = 300; clock_tolerance = 60 }

abbrev client : AuthzOAuthClient
client = record {
  client_id = "as";
  client_name = none;
  token_endpoint_auth_method = some "private_key_jwt";
  token_endpoint_auth_signing_alg = none;
  client_assertion_audience = none;
  jwks = some (end ∷ []);
  jwks_uri = none;
  allowed_grant_types = none;
  sender_constrained_access_token = none;
  enabled = none;
  comment = none;
}

abbrev pub metadata : AuthorizationServerMetadata
metadata = record {
  pre_authorized_grant_anonymous_access_supported = some true;
  issuer = "as";
  token_endpoint = "as/token";
  token_endpoint_auth_methods_supported = some ("private_key_jwt" ∷ []);
  token_endpoint_auth_signing_alg_values_supported = some ("ES256" ∷ []);
}

abbrev pub offers : PreAuthorizedCode.Codes
offers =
    (
      "k",
      record {
        code = "k";
        credential_configuration_ids = "c" ∷ [];
        tx_code = none;
        tx_code_input_mode = none;
        expires_at = none;
        attempts = none;
      },
    )
    ∷ []

abbrev pub server : Server String
server = record {
  clock = λ n. n;
  readings = 7;
  max_attempts = 5;
  servers = ("as", metadata) ∷ [];
  policies = [];
  clients = [];
  keys =
      ("as", record { declared_alg = "ES256"; public_key = "pub"; private_key = "priv" } ∷ []) ∷ [];
  issuers = [];
  issuer_keys = [];
  codes = offers;
  dpop_jtis = [];
  assertion_jtis = [];
  nonces = [];
  allowed = [];
}

abbrev options : TokenRequestOptions
options = record { ttl_sec = none; alg = none; client_id = none; dpop_proof = none }

abbrev pub response : TokenResponse
response = record { access_token = "e.e.s"; token_type = "bearer"; expires_in = 86400 }

abbrev pub after_token : Server String
after_token = (create_access_token jose proofs "as" (pre_authorized_code "k" none) options server).1

token_given :
    create_access_token jose proofs "as" (pre_authorized_code "k" none) options server
    ≡ (ok response, after_token)
unfolding create_access_token PreAuthorizedCode.consume Map.get
token_given = refl

abbrev endpoint_options : CredentialEndpointAuthorizationOptions
endpoint_options = record {
  alg = none;
  authorization_header = some "Bearer h.p.s";
  dpop_header = none;
  htm = "POST";
  htu = "https://i.example/credential";
  nonce_required = false;
}

payload_given :
    verify_access_token_payload jose proofs "as" "h.p.s" none server
    ≡ (ok claims, (verify_access_token_payload jose proofs "as" "h.p.s" none server).1)
unfolding verify_access_token_payload member Map.get
payload_given = refl

abbrev pub context : CredentialEndpointAuthorizationContext
context = record {
  allowed_credential_configuration_key = "h.p.s";
  client_id = none;
  token_type = bearer_token;
}

access_given : authorize_credential_endpoint_access jose proofs "as" endpoint_options server ≡ (
  ok context,
  (authorize_credential_endpoint_access jose proofs "as" endpoint_options server).1,
)
unfolding authorize_credential_endpoint_access member Map.get mode_of_constraint
    resolve_authz_policy_dpop_mode
access_given = refl

abbrev form : RequestData
form =
    ("client_assertion_type", str "urn:ietf:params:oauth:client-assertion-type:jwt-bearer")
    ∷ ("client_assertion", str "h.p.s")
    ∷ ("grant_type", str "urn:ietf:params:oauth:grant-type:pre-authorized_code")
    ∷ []

assertion_verified :
    verify_private_key_jwt_client_authentication jose "as" (some metadata) form client 7 8
    ≡ pass ("j", pos 9000)
unfolding verify_private_key_jwt_client_authentication member Map.get trim split_dot includes
assertion_verified = refl

abbrev registered : ClientContext
registered = record { client_kind = default_client; client_id = some "as"; client_policy = none }

abbrev anonymous : ClientContext
anonymous = record { client_kind = anonymous_client; client_id = none; client_policy = none }

jti_stored :
    (store_assertion_jti jose "as" client registered "j" (pos 9000) server).0
    ≡ ok (accepted registered off)
unfolding store_assertion_jti Map.get resolve_authz_policy_dpop_mode Jti.cleanup_expired
    Jti.save_key_if_absent Jti.save_assertion_jti_if_absent Map.delete_if
jti_stored = refl

anonymous_accepted :
    (resolve_context jose "as" form none anonymous server).0 ≡ ok (accepted anonymous off)
unfolding resolve_context Map.get resolve_authz_policy_dpop_mode trim
anonymous_accepted = refl

form_has_code : is_pre_authorized_code_token_request form ≡ true
unfolding is_pre_authorized_code_token_request Map.get trim
form_has_code = refl

create_access_token-ok_example :
    (Map.get "k" after_token.codes ≡ none)
    × ((e : PreAuthorizedCode.PreAuthorizedCodeEntry) × (reading : ℕ) × (Map.get "k" offers
          ≡ some e)
        × (after_token.readings ≡ reading + 1)
        × (after_token.allowed
            ≡ Allowed.save "e.e.s" e.credential_configuration_ids
                (some (finite (pos (or_else options.ttl_sec 86400)) 0))
                (server.clock reading)
                []))
create_access_token-ok_example =
    Redemption.create_access_token-ok jose proofs "as" "k" none options server after_token response
      token_given

abbrev later_calls : List PreAuthorizedCode.Trace.CodeCall
later_calls = PreAuthorizedCode.Trace.consuming "k" none 20 ∷ []

abbrev later_server : Server String
later_server = record after_token {
  codes = PreAuthorizedCode.Trace.run 5 later_calls after_token.codes;
}

code_gives_one_token_example :
    create_access_token jose proofs "as" (pre_authorized_code "k" none) options later_server
    ≢ (ok response, server)
code_gives_one_token_example =
    Redemption.code_gives_one_token jose proofs "as" "k" none none options options server
      after_token later_server server response response later_calls token_given tt refl

verify-IsVerified_example :
    Verified.IsVerified jose proofs "as" "h.p.s" none server claims
      (verify_access_token_payload jose proofs "as" "h.p.s" none server).1
verify-IsVerified_example =
    Verified.verify-IsVerified jose proofs "as" "h.p.s" none server payload_given

authorize-IsAuthorized_example : Modes.IsAuthorized jose proofs "as" endpoint_options server context
authorize-IsAuthorized_example =
    Modes.authorize-IsAuthorized jose proofs "as" endpoint_options server access_given

verify_private_key_jwt_client_authentication_lem_example :
    (a : String) × (jwt : CompactJwt) × (get_string_value (Map.get "client_assertion" form)
      ≡ some a)
    × (parse_compact_jwt decoded a ≡ some jwt)
    × Sound.HasClaims client 7 jwt.payload "j" (pos 9000)
    × Sound.IsSigned jose "as" (some metadata) client a jwt.header 8
verify_private_key_jwt_client_authentication_lem_example =
    Sound.verify_private_key_jwt_client_authentication_lem jose "as" (some metadata) form client 7 8
      "j" (pos 9000) assertion_verified

abbrev busy_server : Server String
busy_server = record server {
  assertion_jtis =
      Jti.Replay.run (record { key = "x"; ttl_ms = 3; now = 9 } ∷ [])
        (store_assertion_jti jose "as" client registered "j" (pos 9000) server).1.assertion_jtis;
}

assertion_used_once_example :
    (store_assertion_jti jose "as" client registered "j" (pos 9000) busy_server).0
    ≢ ok (accepted registered off)
assertion_used_once_example =
    TokenPolicy.Replay.assertion_used_once jose "as" client registered registered "j" (pos 9000) off
      server (record { key = "x"; ttl_ms = 3; now = 9 } ∷ []) busy_server registered registered
      (pos 9000) off tt jti_stored refl (omega arith, tt) (omega arith)

abbrev empty_server : Server String
empty_server = record server { servers = []; keys = [] }
