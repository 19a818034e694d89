-- ===== src/Authz/Jose.antt =====
-- What the authorization server takes from the packages `jose` and `base64url`, from the hash of the
-- runtime, and from its URLs: parameters, over a type of keys and one of stored key
-- material. `none` is an exception, where nothing else is said.
use vcknots.Common.{Bool, List, Option, String, ℕ}
use vcknots.Errors.{Result}
use vcknots.Common.Json.{Json, Fields}

pub record JwtVerifyOptions : Type 0 where
  pub issuer : Option String
  pub subject : Option String
  pub audience : List String
  pub clock_tolerance : ℕ

pub record ProofJwtVerifyOptions : Type 0 where
  pub algorithms : List String
  pub typ : String
  pub max_token_age : ℕ
  pub clock_tolerance : ℕ

-- A URL: the parts that the code reads or sets, and the rest as one text.
pub record Url : Type 0 where
  pub protocol : String
  pub port : String
  pub search : String
  pub hash : String
  pub location : String

-- The value of a call, or the message of the error that it throws.
pub data Attempt (A : Type 0) : Type 0 where
  got : A → Attempt A
  threw : String → Attempt A

pub record Jose (Key Material : Type 0) : Type 0 where
  -- `JSON.parse(base64url.decode(part))`
  pub decode : String → Option Json
  -- `base64url.encode(JSON.stringify(value))`
  pub encode : Fields → String
  -- `calculateAccessTokenHash`
  pub token_hash : String → String
  -- the check of `z.string().url()`
  pub is_url : String → Bool
  pub import_jwk : Fields → String → Attempt Key
  -- `jwtVerify` at a moment
  pub jwt_verify : String → Key → JwtVerifyOptions → ℕ → Attempt (Unit {0})
  -- the public key of stored material, by `importJWK` or `importSPKI`; `null` is `none`
  pub import_public : Material → String → Result (Option Key)
  -- the signature over a header and a payload, by stored material
  pub sign_with : Material → String → Fields → Fields → Result (Option String)
  -- `decodeProtectedHeader`
  pub protected_header : String → Option Fields
  -- `jwtVerify` of a DPoP proof at a moment, with the payload
  pub verify_proof_jwt : String → Key → ProofJwtVerifyOptions → ℕ → Attempt Fields
  -- `new URL(value)`
  pub parse_url : String → Option Url
  -- `toString` of a URL
  pub href : Url → String
  -- `calculateJwkThumbprint`
  pub jwk_thumbprint : Fields → Option String
