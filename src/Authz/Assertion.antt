-- ===== src/Authz/Assertion.antt =====
-- authz.flows.ts, `verifyPrivateKeyJwtClientAuthentication`: a client that authenticates by a signed
-- assertion. `now` is the clock's value when the claims are checked, `now'` when `jwtVerify` runs.
pub mod Sound
use vcknots.Common.{
  Bool, List, Option, String, [], codes, equal_codes, false, if◌then◌else◌, includes,
  includes_codes, join, none, not, some, starts_with_codes, to_lower_case, true, ℕ, ◌&&◌, ◌+ˢ◌, ◌+◌,
  ◌/◌, ◌=ˢ◌, ◌||◌, ◌∷◌,
}
use vcknots.Common.Int.{ℤ, pos, ltb_ℤ}
use vcknots.Common.Json.{Json, num, Fields, member}
use vcknots.Common.Map
use vcknots.Authz.Types.{AuthzOAuthClient, AuthorizationServerMetadata}
use vcknots.Authz.Jose.{Jose, JwtVerifyOptions, Attempt, got, threw}
use vcknots.Authz.Request.{
  RequestData, CompactJwt, non_blank, get_string_value, parse_compact_jwt, is_text,
  has_private_key_jwt_assertion, missing_private_key_jwt_assertion_description,
}

-- A step of the verification: a value, or the `error_description` of the refusal.
pub data Check (A : Type 0) : Type 0 where
  pass : A → Check A
  fail : String → Check A

infixl 5 ◌>>=◌ ◌>>◌
abbrev pub and_then : {A B : Type 0} → Check A → (A → Check B) → Check B
and_then (pass a) f = f a
and_then (fail e) f = fail e

abbrev pub ◌>>=◌ : {A B : Type 0} → Check A → (A → Check B) → Check B
m >>= f = and_then m f

abbrev pub ◌>>◌ : {B : Type 0} → Check (Unit {0}) → Check B → Check B
m >> k = m >>= λ _. k

abbrev pub guard : Bool → String → Check (Unit {0})
guard true e = pass tt
guard false e = fail e

abbrev pub require : {A : Type 0} → Option A → String → Check A
require (some a) e = pass a
require none e = fail e

-- `typeof value === 'number'`
abbrev pub number_value : Option Json → Option ℤ
number_value (some (num n)) = some n
number_value _ = none

abbrev pub clock_tolerance_seconds : ℕ
clock_tolerance_seconds = 10

-- A moment in seconds is not more than the tolerance in the future.
abbrev pub is_timely : ℕ → Option ℤ → Bool
is_timely now none = true
is_timely now (some t) = not (ltb_ℤ (pos (now / 1000 + clock_tolerance_seconds)) t)

-- The claims `iss`, `sub`, `exp`, `iat`, `nbf` and `jti`; gives `jti` and `exp`.
unfoldable pub check_claims : AuthzOAuthClient → ℕ → Fields → Check (String × ℤ)
unfolding is_text get_string_value
check_claims client now payload = do
  guard
      (is_text client.client_id (get_string_value (member "iss" payload))
        && is_text client.client_id (get_string_value (member "sub" payload)))
      "client_assertion iss and sub must match the registered client_id."
  exp ← require (number_value (member "exp" payload)) "client_assertion exp claim is required."
  iat ← require (number_value (member "iat" payload)) "client_assertion iat claim is required."
  guard (is_timely now (some iat)) "client_assertion iat claim is too far in the future."
  guard (is_timely now (number_value (member "nbf" payload)))
      "client_assertion nbf claim is too far in the future."
  jti ← require (get_string_value (member "jti" payload)) "client_assertion jti claim is required."
  pass (jti, exp)

-- Neither `none` nor a symmetric algorithm.
unfoldable pub is_asymmetric : String → Bool
is_asymmetric alg =
    not (equal_codes (to_lower_case alg) (codes "none"))
    && not (starts_with_codes (to_lower_case alg) (codes "hs"))

abbrev pub member_of : Option (List String) → String → Bool
member_of none s = false
member_of (some xs) s = includes xs s

abbrev pub is_listed : Option (List String) → Bool
is_listed (some (_ ∷ _)) = true
is_listed _ = false

abbrev pub auth_methods : Option AuthorizationServerMetadata → Option (List String)
auth_methods none = none
auth_methods (some m) = m.token_endpoint_auth_methods_supported

abbrev pub signing_algs : Option AuthorizationServerMetadata → Option (List String)
signing_algs none = none
signing_algs (some m) = m.token_endpoint_auth_signing_alg_values_supported

-- `!expected || expected === s`
abbrev pub is_expected : Option String → String → Bool
is_expected none s = true
is_expected (some expected) s = expected =ˢ s

abbrev pub text_option : Option String → Option String
text_option none = none
text_option (some s) = non_blank s

-- The algorithm of the header against the metadata and the registration.
unfoldable pub check_alg :
    Option AuthorizationServerMetadata → AuthzOAuthClient → Fields → Check String
unfolding get_string_value is_asymmetric
check_alg metadata client header = do
  alg ←
      require (get_string_value (member "alg" header))
        "client_assertion alg must be an asymmetric signing algorithm."
  guard (is_asymmetric alg) "client_assertion alg must be an asymmetric signing algorithm."
  guard (member_of (auth_methods metadata) "private_key_jwt")
      "authorization server metadata must include private_key_jwt in token_endpoint_auth_methods_supported for private_key_jwt client authentication."
  guard (is_listed (signing_algs metadata))
      "authorization server metadata must include token_endpoint_auth_signing_alg_values_supported for private_key_jwt client authentication."
  guard (member_of (signing_algs metadata) alg)
      "client_assertion alg is not supported by the authorization server metadata."
  guard (is_expected (text_option client.token_endpoint_auth_signing_alg) alg)
      "client_assertion alg does not match the registered client algorithm."
  pass alg

-- `keys.find((key) => getStringValue(key.kid) === kid)`
unfoldable pub find_kid : String → List Fields → Option Fields
unfolding is_text get_string_value
find_kid kid [] = none
find_kid kid (key ∷ keys) =
    if is_text kid (get_string_value (member "kid" key)) then some key else find_kid kid keys

-- The only key of a set.
abbrev pub only : List Fields → Option Fields
only (key ∷ []) = some key
only _ = none

unfoldable pub select_client_assertion_jwk : AuthzOAuthClient → Fields → Option Fields
unfolding find_kid get_string_value
select_client_assertion_jwk client protected_header = elim client.jwks [
  | none ↦ none
  | some keys ↦ elim (get_string_value (member "kid" protected_header)) [
    | some kid ↦ find_kid kid keys
    | none ↦ only keys
  ]
]

unfoldable pub check_key : AuthzOAuthClient → Fields → String → Check Fields
unfolding select_client_assertion_jwk get_string_value
check_key client header alg = do
  jwk ←
      require (select_client_assertion_jwk client header)
        "Registered OAuth client public key was not found."
  guard (is_expected (get_string_value (member "alg" jwk)) alg)
      "Registered client public key alg does not match client_assertion header alg."
  pass jwk

unfoldable pub get_expected_client_assertion_audiences :
    AuthzOAuthClient → Option AuthorizationServerMetadata → String → List String
get_expected_client_assertion_audiences client metadata authz =
    elim (text_option client.client_assertion_audience) [
      | some configured ↦ configured ∷ []
      | none ↦ elim metadata [
        | none ↦ authz ∷ []
        | some m ↦ if m.token_endpoint =ˢ "" then authz ∷ [] else m.token_endpoint ∷ authz ∷ []
      ]
    ]

unfoldable pub client_assertion_verification_description :
    AuthzOAuthClient → List String → String → String
unfolding includes_codes join
client_assertion_verification_description client expected_audiences cause =
    if includes_codes (codes cause) (codes "\"aud\"")
      || includes_codes (to_lower_case cause) (codes "audience")
    then elim (text_option client.client_assertion_audience) [
      | some configured ↦
          "client_assertion aud claim does not match registered client_assertion_audience setting ("
          +ˢ configured +ˢ ")."
      | none ↦
          "client_assertion aud claim does not match expected audience ("
          +ˢ join expected_audiences
          +ˢ ")."
    ]
    else "client_assertion verification failed."

module _ {Key Material : Type 0} (jose : Jose Key Material) (authz : String) where
  -- The options of `jwtVerify`.
  abbrev pub verify_options :
      Option AuthorizationServerMetadata → AuthzOAuthClient → JwtVerifyOptions
  verify_options metadata client = record {
    issuer = some client.client_id;
    subject = some client.client_id;
    audience = get_expected_client_assertion_audiences client metadata authz;
    clock_tolerance = clock_tolerance_seconds;
  }

  -- The signature and the registered claims, by `importJWK` and `jwtVerify`.
  unfoldable pub check_signature :
      Option AuthorizationServerMetadata
      → AuthzOAuthClient
      → String
      → Fields
      → String
      → ℕ
      → Check (Unit {0})
  unfolding get_expected_client_assertion_audiences client_assertion_verification_description
  check_signature metadata client assertion jwk alg now' =
      let describe =
        client_assertion_verification_description client
          (get_expected_client_assertion_audiences client metadata authz) in
      elim (jose.import_jwk jwk alg) [
        | threw cause ↦ fail (describe cause)
        | got key ↦ elim (jose.jwt_verify assertion key (verify_options metadata client) now') [
          | threw cause ↦ fail (describe cause)
          | got _ ↦ pass tt
        ]
      ]

  unfoldable pub verify_private_key_jwt_client_authentication :
      Option AuthorizationServerMetadata
      → RequestData
      → AuthzOAuthClient
      → ℕ
      → ℕ
      → Check (String × ℤ)
  unfolding has_private_key_jwt_assertion parse_compact_jwt check_claims check_alg check_key
      check_signature
  verify_private_key_jwt_client_authentication metadata request_data client now now' = do
    guard (has_private_key_jwt_assertion request_data)
        (missing_private_key_jwt_assertion_description request_data)
    client_assertion ←
        require (get_string_value (Map.get "client_assertion" request_data))
          "client_assertion is required for private_key_jwt client authentication."
    assertion ←
        require (parse_compact_jwt jose.decode client_assertion)
          "client_assertion must be a compact JWT."
    (jti, exp) ← check_claims client now assertion.payload
    alg ← check_alg metadata client assertion.header
    jwk ← check_key client assertion.header alg
    check_signature metadata client client_assertion jwk alg now'
    pass (jti, exp)
