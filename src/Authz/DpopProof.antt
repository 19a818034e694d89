-- ===== src/Authz/DpopProof.antt =====
-- providers/dpop-proof.provider.ts and dpop-proof.types.ts: the verification of a DPoP proof at a
-- moment. Messages with an inner message are shortened.
pub mod Bound
pub mod Window
use vcknots.Common.{
  Bool, Option, String, [], codes, equal_codes, false, if◌then◌else◌, is_some, none, not, or_else,
  some, starts_with_codes, to_lower_case, to_upper_case, trim, ℕ, ◌&&◌, ◌*◌, ◌+◌, ◌=ˢ◌, ◌||◌, ◌∷◌,
}
use vcknots.Errors.{Result, ok, err, failure, invalid_dpop_proof}
use vcknots.Errors.Chain.{◌>>=◌, ◌>>◌, guard, require}
use vcknots.Common.Int.{ℤ}
use vcknots.Common.Json.{Json, num, str, Fields, member, as_object}
use vcknots.Authz.Jose.{Jose, ProofJwtVerifyOptions, Url, Attempt, got, threw}

pub record DpopProofVerifyContext : Type 0 where
  pub htm : String
  pub htu : String
  pub nonce : Option String
  pub access_token : Option String

pub record DpopProofPayload : Type 0 where
  pub jti : String
  pub iat : ℤ
  pub htm : String
  pub htu : String
  pub nonce : Option String
  pub ath : Option String

pub record VerifiedDpopProof : Type 0 where
  pub jwk_thumbprint : String
  pub jti : String
  pub iat : ℤ
  pub nonce : Option String

-- `DPoPProofFactoryOptions`, in seconds, with the defaults put in.
pub record DpopProofOptions : Type 0 where
  pub max_token_age : ℕ
  pub clock_tolerance : ℕ

abbrev pub dpop_proof_typ : String
dpop_proof_typ = "dpop+jwt"

abbrev pub default_dpop_proof_max_token_age_seconds : ℕ
default_dpop_proof_max_token_age_seconds = 300

abbrev pub default_dpop_proof_clock_tolerance_seconds : ℕ
default_dpop_proof_clock_tolerance_seconds = 60

unfoldable pub dpop_proof_options : Option ℕ → Option ℕ → DpopProofOptions
dpop_proof_options max_token_age_seconds clock_tolerance_seconds = record {
  max_token_age = or_else max_token_age_seconds default_dpop_proof_max_token_age_seconds;
  clock_tolerance = or_else clock_tolerance_seconds default_dpop_proof_clock_tolerance_seconds;
}

abbrev pub proof_jti_ttl_ms : DpopProofOptions → ℕ
proof_jti_ttl_ms o = (o.max_token_age + o.clock_tolerance) * 1000

-- Blank, `none`, or of the HMAC family.
unfoldable pub is_prohibited_dpop_proof_alg : String → Bool
is_prohibited_dpop_proof_alg alg =
    let trimmed = trim alg in
    trimmed =ˢ ""
    || equal_codes (to_lower_case trimmed) (codes "none")
    || starts_with_codes (to_lower_case trimmed) (codes "hs")

-- A member that is a text.
abbrev pub text_of : Option Json → Option String
text_of (some (str s)) = some s
text_of _ = none

-- `alg`, if it is a text that is not prohibited.
unfoldable pub permitted_alg : Option Json → Option String
unfolding is_prohibited_dpop_proof_alg
permitted_alg (some (str alg)) = if is_prohibited_dpop_proof_alg alg then none else some alg
permitted_alg _ = none

abbrev pub is_value : String → Option String → Bool
is_value s none = false
is_value s (some t) = t =ˢ s

-- `z.string().min(1)`
abbrev pub nonempty : Option Json → Option String
nonempty (some (str s)) = if s =ˢ "" then none else some s
nonempty _ = none

abbrev pub number_of : Option Json → Option ℤ
number_of (some (num n)) = some n
number_of _ = none

-- An optional member: not there, or of the right kind.
abbrev pub optional_by : (Option Json → Option String) → Option Json → Option (Option String)
optional_by parse none = some none
optional_by parse (some v) = elim (parse (some v)) [ none ↦ none | some s ↦ some (some s) ]

-- `dpopProofPayloadSchema`
unfoldable pub parse_dpop_proof_payload : Fields → Result DpopProofPayload
parse_dpop_proof_payload claims = do
  jti ←
      require (nonempty (member "jti" claims)) invalid_dpop_proof
        "DPoP proof JWT payload claims are invalid."
  iat ←
      require (number_of (member "iat" claims)) invalid_dpop_proof
        "DPoP proof JWT payload claims are invalid."
  htm ←
      require (nonempty (member "htm" claims)) invalid_dpop_proof
        "DPoP proof JWT payload claims are invalid."
  htu ←
      require (nonempty (member "htu" claims)) invalid_dpop_proof
        "DPoP proof JWT payload claims are invalid."
  nonce ←
      require (optional_by text_of (member "nonce" claims)) invalid_dpop_proof
        "DPoP proof JWT payload claims are invalid."
  ath ←
      require (optional_by nonempty (member "ath" claims)) invalid_dpop_proof
        "DPoP proof JWT payload claims are invalid."
  ok (record { jti = jti; iat = iat; htm = htm; htu = htu; nonce = nonce; ath = ath })

-- The port that a protocol has without saying so.
abbrev pub is_default_port : Url → Bool
is_default_port url =
    (url.protocol =ˢ "https:" && url.port =ˢ "443") || (url.protocol =ˢ "http:" && url.port =ˢ "80")

-- The binding to an access token: `ath` is the hash of the token, if there is one.
abbrev pub check_ath : (String → String) → Option String → Option String → Result (Unit {0})
check_ath token_hash none ath = ok tt
check_ath token_hash (some access_token) ath = do
  value ←
      require (elim ath [ none ↦ none | some s ↦ if s =ˢ "" then none else some s ])
        invalid_dpop_proof "DPoP proof JWT ath claim is required."
  guard (value =ˢ token_hash access_token) invalid_dpop_proof
      "DPoP proof JWT ath claim does not match the access token."

abbrev pub check_nonce : Option String → Option String → Result (Unit {0})
check_nonce none actual = ok tt
check_nonce (some expected) actual =
    guard (is_value expected actual) invalid_dpop_proof
      "DPoP proof JWT nonce claim does not match the expected nonce."

abbrev pub of_attempt : {A : Type 0} → Attempt A → String → Result A
of_attempt (got a) message = ok a
of_attempt (threw cause) message = require none invalid_dpop_proof message

module _ {Key Material : Type 0} (jose : Jose Key Material) where
  unfoldable pub normalize_htu : String → Result String
  normalize_htu value = do
    url ←
        require (jose.parse_url value) invalid_dpop_proof
          "DPoP proof JWT htu claim must be a valid absolute URI."
    let bare = record url { search = ""; hash = "" }
    ok (jose.href (if is_default_port bare then record bare { port = "" } else bare))

  -- The header of the proof: its algorithm and its public key.
  unfoldable pub check_proof_header : Fields → Result (String × Fields)
  unfolding permitted_alg
  check_proof_header header = do
    alg ←
        require (permitted_alg (member "alg" header)) invalid_dpop_proof
          "DPoP proof JWT alg must be an asymmetric signature algorithm."
    guard (is_value dpop_proof_typ (text_of (member "typ" header))) invalid_dpop_proof
        "DPoP proof JWT typ must be \"dpop+jwt\"."
    jwk ←
        require (as_object (member "jwk" header)) invalid_dpop_proof
          "DPoP proof JWT header must contain a public JWK."
    guard (not (is_some (member "d" jwk))) invalid_dpop_proof
        "DPoP proof JWT header jwk must not contain a private key."
    ok (alg, jwk)

  -- The claims against the request.
  unfoldable pub check_binding : DpopProofPayload → DpopProofVerifyContext → Result (Unit {0})
  unfolding normalize_htu
  check_binding payload context = do
    guard (equal_codes (codes payload.htm) (to_upper_case context.htm)) invalid_dpop_proof
        "DPoP proof JWT htm claim does not match the HTTP method."
    htu ← normalize_htu payload.htu
    target ← normalize_htu context.htu
    guard (htu =ˢ target) invalid_dpop_proof
        "DPoP proof JWT htu claim does not match the target URI."
    check_ath jose.token_hash context.access_token payload.ath
    check_nonce context.nonce payload.nonce

  module _ (options : DpopProofOptions) where
    abbrev pub proof_jwt_options : String → ProofJwtVerifyOptions
    proof_jwt_options alg = record {
      algorithms = alg ∷ [];
      typ = dpop_proof_typ;
      max_token_age = options.max_token_age;
      clock_tolerance = options.clock_tolerance;
    }

    -- The signature and the age of the proof, and its claims.
    unfoldable pub verified_payload : String → String → Fields → ℕ → Result DpopProofPayload
    unfolding parse_dpop_proof_payload
    verified_payload proof_jwt alg jwk now = do
      key ← of_attempt (jose.import_jwk jwk alg) "Failed to import DPoP proof JWK."
      claims ←
          of_attempt (jose.verify_proof_jwt proof_jwt key (proof_jwt_options alg) now)
            "DPoP proof JWT verification failed."
      parse_dpop_proof_payload claims

    unfoldable pub verify_proof : String → DpopProofVerifyContext → ℕ → Result VerifiedDpopProof
    unfolding check_proof_header verified_payload check_binding
    verify_proof proof_jwt context now = do
      header ← elim (jose.protected_header proof_jwt) [
        | none ↦ err (failure "TypeError")
        | some h ↦ ok h
      ]
      (alg, jwk) ← check_proof_header header
      payload ← verified_payload proof_jwt alg jwk now
      check_binding payload context
      jwk_thumbprint ← elim (jose.jwk_thumbprint jwk) [
        | none ↦ err (failure "TypeError")
        | some t ↦ ok t
      ]
      ok (record {
        jwk_thumbprint = jwk_thumbprint;
        jti = payload.jti;
        iat = payload.iat;
        nonce = payload.nonce;
      })
