-- ===== src/Issuer/ProofJwt.antt =====
-- credential-proof-jwt.provider.ts: the provider that verifies the JWT proofs of a credential request.
-- `jose` is a parameter; messages with an inner message are shortened.
pub mod Verified
use vcknots.Common.{
  Bool, List, Option, String, [], codes, equal_codes, false, if◌then◌else◌, is_some, none, not,
  or_else, some, starts_with_codes, to_lower_case, trim, true, ℕ, ◌&&◌, ◌+ˢ◌, ◌=ˢ◌, ◌||◌, ◌∷◌,
}
use vcknots.Errors.{Result, ok, err, failure, raise, invalid_proof}
use vcknots.Errors.Chain.{◌>>=◌, ◌>>◌, guard, require}
use vcknots.Common.Int.{ℤ}
use vcknots.Common.Json.{Json, str, num, Fields, member}
use vcknots.Providers.Imports.{KeyImports, uncaught}
use vcknots.Authz.AccessToken.{truthy}
use vcknots.Authz.Jose.{Attempt}
use vcknots.Issuer.Types.{ProofValue, compact, presentation}
use vcknots.Issuer.Proof.{ProofContext, ProofJwt, CredentialProofProvider}
use vcknots.Issuer.ProofKey.{DidProvider, caught, resolve_header_public_key}

-- `jwtVerify`: the payload, or the code and the message of the error.
pub data Verification : Type 0 where
  verified : Fields → Verification
  rejected : Option String → String → Verification

pub record VerifyOptions : Type 0 where
  pub algorithms : List String
  pub max_token_age : ℕ
  pub clock_tolerance : ℕ

pub record ProofJose (Key X509Key : Type 0) : Type 0 where
  -- `decodeJwt`
  pub decode_jwt : String → Attempt Fields
  -- `decodeProtectedHeader`; an exception is not caught
  pub decode_protected_header : String → Attempt Fields
  -- `jwtVerify` at a moment
  pub jwt_verify : String → Key → VerifyOptions → ℕ → Verification
  pub imports : KeyImports Key X509Key

-- `CredentialProofJwtFactoryOptions`, in seconds, with the defaults put in.
pub record ProofJwtOptions : Type 0 where
  pub max_token_age : ℕ
  pub clock_tolerance : ℕ

abbrev pub default_proof_jwt_max_token_age_seconds : ℕ
default_proof_jwt_max_token_age_seconds = 300

abbrev pub default_proof_jwt_clock_tolerance_seconds : ℕ
default_proof_jwt_clock_tolerance_seconds = 60

unfoldable pub proof_jwt_options : Option ℕ → Option ℕ → ProofJwtOptions
proof_jwt_options max_token_age_seconds clock_tolerance_seconds = record {
  max_token_age = or_else max_token_age_seconds default_proof_jwt_max_token_age_seconds;
  clock_tolerance = or_else clock_tolerance_seconds default_proof_jwt_clock_tolerance_seconds;
}

abbrev pub oid4vci_jwt_proof_typ : String
oid4vci_jwt_proof_typ = "openid4vci-proof+jwt"

-- Blank, `none`, or of the HMAC family.
unfoldable pub is_prohibited_proof_jwt_alg : String → Bool
unfolding trim
is_prohibited_proof_jwt_alg alg =
    let trimmed = trim alg in
    trimmed =ˢ ""
    || equal_codes (to_lower_case trimmed) (codes "none")
    || starts_with_codes (to_lower_case trimmed) (codes "hs")

-- A member that is a text.
abbrev pub text_member : Option Json → Option String
text_member (some (str s)) = some s
text_member _ = none

abbrev pub is_text : Option Json → Bool
is_text value = is_some (text_member value)

abbrev pub is_number : Option Json → Bool
is_number (some (num n)) = true
is_number _ = false

abbrev pub is_equal_text : Option Json → String → Bool
is_equal_text (some (str s)) t = s =ˢ t
is_equal_text _ t = false

-- The header: its algorithm and its type.
unfoldable pub check_header : Fields → Result String
unfolding is_prohibited_proof_jwt_alg
check_header header = do
  alg ←
      require (text_member (member "alg" header)) invalid_proof
        "Unsupported Proof Header alg value."
  guard (not (is_prohibited_proof_jwt_alg alg)) invalid_proof
      "Proof JWT alg must not be \"none\" or a symmetric (MAC) algorithm."
  guard (is_equal_text (member "typ" header) oid4vci_jwt_proof_typ) invalid_proof
      "Proof JWT header typ must be \"openid4vci-proof+jwt\"."
  ok alg

-- The two codes of `jose` that are about the age.
abbrev pub verification_message : Option String → String → String
verification_message none message = "Proof JWT verification failed: " +ˢ message
verification_message (some code) message =
    if code =ˢ "ERR_JWT_EXPIRED" || code =ˢ "ERR_JWT_CLAIM_VALIDATION_FAILED"
    then "Proof JWT is outside the allowed issuance time window."
    else "Proof JWT verification failed: " +ˢ message

abbrev pub of_verification : Verification → Result Fields
of_verification (verified claims) = ok claims
of_verification (rejected code message) = raise invalid_proof (verification_message code message)

abbrev pub anonymous_iss : String
anonymous_iss =
    "iss claim must be omitted when using an access token obtained through anonymous access."

abbrev pub client_iss : String
client_iss = "iss claim must match the client_id of the Client making the Credential request."

abbrev pub client_or_issuer_iss : String
client_or_issuer_iss =
    "iss claim must be the client_id of the Client making the Credential request or the Credential Issuer Identifier."

abbrev pub is_client : Option String → String → Bool
is_client none iss = false
is_client (some client_id) iss = iss =ˢ client_id

-- The `iss` claim of a request with a pre-authorized code, and of one without.
abbrev pub check_pre_auth_iss : Option String → Json → Result (Unit {0})
check_pre_auth_iss none iss = raise invalid_proof anonymous_iss
check_pre_auth_iss (some client_id) iss =
    guard (is_equal_text (some iss) client_id) invalid_proof client_iss

abbrev pub check_code_iss : ProofContext → Json → Result (Unit {0})
check_code_iss context iss = do
  text ← require (text_member (some iss)) invalid_proof client_or_issuer_iss
  guard (is_client context.client_id text || text =ˢ context.credential_issuer) invalid_proof
      client_or_issuer_iss

unfoldable pub check_iss : ProofContext → Option Json → Result (Unit {0})
check_iss context none = ok tt
check_iss context (some iss) =
    if context.use_pre_auth
    then check_pre_auth_iss (truthy context.client_id) iss
    else check_code_iss context iss

-- The claims against the request.
unfoldable pub check_claims : Fields → Option ProofContext → Result (Unit {0})
unfolding check_iss
check_claims claims verification_context = do
  guard (is_text (member "aud" claims) && is_number (member "iat" claims)) invalid_proof
      "Unsupported Proof Payload."
  context ←
      require verification_context invalid_proof
        "Credential proof verification requires credentialIssuer and usePreAuth (OID4VCI)."
  check_iss context (member "iss" claims)
  guard (is_equal_text (member "aud" claims) context.credential_issuer) invalid_proof
      "aud claim must be the Credential Issuer Identifier."

module _ {Key X509Key : Type 0} (jose : ProofJose Key X509Key) (did_providers : List DidProvider)
    (options : ProofJwtOptions) where
  abbrev pub verify_options : String → VerifyOptions
  verify_options alg = record {
    algorithms = alg ∷ [];
    max_token_age = options.max_token_age;
    clock_tolerance = options.clock_tolerance;
  }

  -- The proof decoded: the header, where the payload has no text under the name `payload`.
  unfoldable pub decode_header : String → Result Fields
  decode_header proof = do
    decoded ← caught (jose.decode_jwt proof) "Failed to decode proof JWT."
    guard (not (is_text (member "payload" decoded))) invalid_proof "Unsupported jwt payload type."
    uncaught (jose.decode_protected_header proof)

  unfoldable pub verify_jwt : String → Option ProofContext → ℕ → Result ProofJwt
  unfolding decode_header check_header resolve_header_public_key check_claims
  verify_jwt proof context now = do
    header ← decode_header proof
    alg ← check_header header
    key ← resolve_header_public_key jose.imports did_providers header alg now
    claims ← of_verification (jose.jwt_verify proof key (verify_options alg) now)
    check_claims claims context
    ok (record {
      kid = text_member (member "kid" header);
      header = header;
      nonce = text_member (member "nonce" claims);
    })

  unfoldable pub verify_proof : ProofValue → Option ProofContext → ℕ → Result (Option ProofJwt)
  unfolding verify_jwt
  verify_proof (presentation _) context now = raise invalid_proof "Unsupported proof type."
  verify_proof (compact proof) context now = verify_jwt proof context now >>= λ p. ok (some p)

  -- The provider.
  unfoldable pub credential_proof_jwt : CredentialProofProvider
  unfolding verify_proof
  credential_proof_jwt = record {
    can_handle = λ proof_type. proof_type =ˢ "jwt";
    verify_proof = verify_proof;
  }
