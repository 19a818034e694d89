-- ===== src/Providers/Imports.antt =====
-- What the providers and flows take from `jose` and the runtime to read keys and certificates.
use vcknots.Common.{Option, String, ◌≡◌}
use vcknots.Errors.{Result, ok, err, failure}
use vcknots.Common.Json.{Fields}
use vcknots.Providers.Certificate.{X509}
use vcknots.Authz.Jose.{Attempt, got, threw}

pub record KeyImports (Key X509Key : Type 0) : Type 0 where
  -- `importJWK`
  pub import_jwk : Fields → String → Attempt Key
  -- `importSPKI`
  pub import_spki : String → String → Attempt Key
  -- `new X509Certificate(pem)`
  pub parse_certificate : String → Option (X509 X509Key)

-- An exception that is not caught.
abbrev pub uncaught : {A : Type 0} → Attempt A → Result A
uncaught (got a) = ok a
uncaught (threw cause) = err (failure cause)

pub uncaught-ok : {A : Type 0} (t : Attempt A) {a : A} → uncaught t ≡ ok a → t ≡ got a
uncaught-ok (got a) h = cc
uncaught-ok (threw e) h = cc
