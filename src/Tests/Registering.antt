-- ===== src/Tests/Registering.antt =====
-- The theorems on the registration of a verifier, at concrete inputs: a key pair of its own in the PEM
-- format, and an encryption key that is generated.
use vcknots.Common.{List, String, [], if◌then◌else◌, none, or_else, refl, some, ◌=ˢ◌, ◌∷◌, ◌≡◌, ◌≢◌}
use vcknots.Errors.{Result, ok, err, Thrown, failure}
use vcknots.Common.Map
use vcknots.Common.Json.{str, Fields, end, field, member}
use vcknots.Authz.Jose.{got, threw}
use vcknots.Providers.Imports.{KeyImports}
use vcknots.Verifier.Types.{VerifierMetadata}
use vcknots.Verifier.State.{Verifier}
use vcknots.Verifier.Keys.{
  KeyFormat, KeyInput, KeyProvider, pem_format, pem_text, verifier_encryption_key,
  find_encryption_alg, public_key_of,
}
use vcknots.Verifier.Register.{
  CreateVerifierMetadataOptions, create_verifier_metadata, encryption_key_alg, with_alg,
  with_encryption_key,
}
use vcknots.Verifier.Register.Registered
use vcknots.Tests.Verifying.{metadata, verifier}

abbrev empty : Verifier String
empty = record verifier { metadata = []; keys = [] }

abbrev imports : KeyImports String String
imports = record {
  import_jwk = λ jwk alg. got "key";
  import_spki = λ pem alg. if pem =ˢ "public" then got "key" else threw "no key";
  parse_certificate = λ pem. none;
}

abbrev kept : KeyFormat → KeyInput → String
kept format input = "kept"

abbrev parse_input : Fields → Result VerifierMetadata
parse_input fields = ok metadata

abbrev key_pair : String → Result (Fields × String)
key_pair alg = ok (field "kty" (str "RSA") end, "kid")

abbrev encryption : List (KeyProvider Fields)
encryption = verifier_encryption_key none key_pair ∷ []

abbrev jwk : Fields
jwk =
    field "kty" (str "RSA")
      (field "alg" (str "RSA-OAEP-256") (field "kid" (str "kid") (field "use" (str "enc") end)))

abbrev with_key : String → CreateVerifierMetadataOptions
with_key public_key = record {
  format = pem_format;
  alg = "ES256";
  encryption_key_alg = none;
  private_key = pem_text "private";
  public_key = some (pem_text public_key);
  certificate = none;
}

abbrev registered : Verifier String
registered =
    (create_verifier_metadata imports kept 5 parse_input [] encryption "w" end
      (some (with_key "public")) empty).1

registration_done :
    create_verifier_metadata imports kept 5 parse_input [] encryption "w" end
      (some (with_key "public"))
      empty
    ≡ (ok tt, registered)
unfolding create_verifier_metadata member Map.get verifier_encryption_key Map.set
registration_done = refl

successful_registration_example :
    (member "jwks" end ≡ none)
    × (Map.get "w" empty.metadata ≡ none)
    × ((input : VerifierMetadata) × (key : Fields) × (parse_input end ≡ ok input)
        × (public_key_of (
              find_encryption_alg
                (encryption_key_alg (some (with_key "public")))
                (or_else (Map.get "w" registered.encryption_keys) []))
            ≡ some key)
        × (Map.get "w" registered.metadata ≡ some (with_encryption_key input key)))
    × (◌≢◌ {A = String} "v" "w" → Map.get "v" registered.metadata ≡ Map.get "v" empty.metadata)
successful_registration_example =
    Registered.successful_registration imports kept 5 parse_input [] encryption "w" "v" end
      (some (with_key "public")) empty registered registration_done

abbrev unregistered : Verifier String
unregistered =
    (create_verifier_metadata imports kept 5 parse_input [] encryption "w" end
      (some (with_key "secret")) empty).1

abbrev cause : Thrown
cause = failure "no key"

registration_refused :
    create_verifier_metadata imports kept 5 parse_input [] encryption "w" end
      (some (with_key "secret"))
      empty
    ≡ (err cause, unregistered)
unfolding create_verifier_metadata member Map.get
registration_refused = refl

failed_registration_example :
    (unregistered.metadata ≡ empty.metadata)
    × (unregistered.certificates ≡ empty.certificates)
    × (with_alg (some (with_key "secret")) ≢ none → unregistered.keys ≡ empty.keys)
failed_registration_example =
    Registered.failed_registration imports kept 5 parse_input [] encryption "w" end
      (some (with_key "secret")) empty unregistered cause registration_refused
