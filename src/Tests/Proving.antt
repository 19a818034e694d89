-- ===== src/Tests/Proving.antt =====
-- The theorems on proofs, certificates, challenges and verifiers, at concrete inputs, with parameters
-- that read one proof and one chain of two certificates.
use vcknots.Common.{
  Option, String, [], false, if◌then◌else◌, none, refl, some, true, ◌+ˢ◌, ◌=ˢ◌, ◌↔◌, ◌∷◌, ◌≡◌,
}
use vcknots.Errors.{ok}
use vcknots.Common.Int.{pos}
use vcknots.Common.Json.{str, num, obj, Fields, end, field, member}
use vcknots.Authz.Jose.{got}
use vcknots.Providers.Certificate.{X509, validate}
use vcknots.Providers.Certificate.Chain
use vcknots.Issuer.Proof.{ProofContext, ProofJwt}
use vcknots.Issuer.ProofJwt.{verified, ProofJose, ProofJwtOptions, verify_jwt}
use vcknots.Issuer.ProofJwt.Verified
use vcknots.Server.Challenge.{escape_quoted}
use vcknots.Server.Challenge.Quoted.{read_quoted, unbroken, escape_quoted-read_quoted}

abbrev leaf : X509 String
leaf = record {
  subject = "leaf";
  issuer = "root";
  valid_from = 10;
  valid_to = 90;
  public_key = "leaf key";
  verify = λ key. some (key =ˢ "root key");
  spki = some "spki";
}

abbrev root : X509 String
root = record {
  subject = "root";
  issuer = "root";
  valid_from = 5;
  valid_to = 100;
  public_key = "root key";
  verify = λ key. some (key =ˢ "root key");
  spki = some "spki";
}

abbrev parse_certificate : String → Option (X509 String)
parse_certificate pem =
    if pem =ˢ "leaf" then some leaf else if pem =ˢ "root" then some root else none

chain_valid : validate parse_certificate 50 ("leaf" ∷ "root" ∷ []) ≡ true
unfolding validate
chain_valid = refl

validate_iff_example :
    (validate parse_certificate 50 ("leaf" ∷ "root" ∷ []) ≡ true)
    ↔ ((c : X509 String) × Chain.IsChain parse_certificate 50 ("leaf" ∷ "root" ∷ []) c)
validate_iff_example = Chain.validate_iff parse_certificate 50 ("leaf" ∷ "root" ∷ [])

abbrev header : Fields
header =
    field "typ" (str "openid4vci-proof+jwt")
      (field "alg" (str "ES256") (field "jwk" (obj (field "kty" (str "EC") end)) end))

abbrev claims : Fields
claims = field "aud" (str "issuer") (field "iat" (num (pos 100)) (field "nonce" (str "n") end))

abbrev jose : ProofJose String String
jose = record {
  decode_jwt = λ jwt. got claims;
  decode_protected_header = λ jwt. got header;
  jwt_verify = λ jwt key options now. verified claims;
  imports = record {
    import_jwk = λ jwk alg. got "key";
    import_spki = λ pem alg. got "key";
    parse_certificate = parse_certificate;
  };
}

abbrev options : ProofJwtOptions
options = record { max_token_age = 300; clock_tolerance = 60 }

abbrev context : ProofContext
context = record { use_pre_auth = true; credential_issuer = "issuer"; client_id = none }

abbrev proof : ProofJwt
proof = record { kid = none; header = header; nonce = some "n" }

proof_verified : verify_jwt jose [] options "proof" (some context) 100000 ≡ ok proof
unfolding verify_jwt member
proof_verified = refl

verify_jwt-IsVerifiedProof_example :
    (c : ProofContext) × (some context ≡ some c)
    × Verified.IsVerifiedProof jose [] options "proof" c 100000 proof
verify_jwt-IsVerifiedProof_example =
    Verified.verify_jwt-IsVerifiedProof jose [] options "proof" (some context) 100000 proof
      proof_verified

escape_quoted-read_quoted_example :
    read_quoted false (escape_quoted false "a\"b\\" +ˢ String.◌∷◌ "\"" ", c")
    ≡ some (unbroken false "a\"b\\", ", c")
escape_quoted-read_quoted_example = escape_quoted-read_quoted false "a\"b\\" ", c"
