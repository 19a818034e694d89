-- ===== src/Verifier/Register.antt =====
-- verifier.flows.ts, `createVerifierMetadata`. `parse_input` is the schema of the metadata; `kept` is
-- how the key store keeps a key with its format.
pub mod Prepared
pub mod Registered
use vcknots.Common.{
  Bool, List, Option, String, [], if◌then◌else◌, is_some, none, not, or_else, some, true, ℕ, ◌&&◌,
  ◌+ˢ◌, ◌=ˢ◌, ◌∷◌,
}
use vcknots.Errors.{
  Result, ok, err, raise, invalid_options, duplicate_verifier, invalid_certificate,
  internal_server_error, failure, provider_not_found, illegal_argument,
}
use vcknots.Errors.Chain.{
  require as require_value, guard as guard_value, ◌>>=◌ as bind_value, ◌>>◌ as seq_value,
}
use vcknots.Flow.{Flow, pure, guard, lift, or_throw, ◌>>=◌, ◌>>◌}
use vcknots.Common.Json.{Json, str, Fields, end, field, member}
use vcknots.Common.Map
use vcknots.Providers.{find_provider, select_provider}
use vcknots.Providers.Certificate
use vcknots.Providers.Imports.{KeyImports, uncaught}
use vcknots.Providers.Pem.{is_pem}
use vcknots.Authz.AccessToken.{truthy}
use vcknots.Authz.State.{SignatureKeyEntry}
use vcknots.Authz.Registration.{replace_alg, pairs_of, new_pair}
use vcknots.Verifier.Types.{VerifierMetadata}
use vcknots.Verifier.State.{
  Verifier, Action, EncryptionKeyEntry, fetch_metadata, save_metadata, save_certificates,
}
use vcknots.Verifier.Keys.{
  KeyFormat, KeyInput, KeyProvider, append_fields, encryption_public_jwk, verifier_encryption_key,
  private_members, has_any, is_kty, assert_asymmetric_public_jwk, replace_encryption_alg,
  find_encryption_alg, public_key_of, save_encryption_key, fetch_encryption_key, write_key,
  generate_key, save_key, when_some, pem_format, jwk_format, pem_text, jwk_object,
}

pub record CreateVerifierMetadataOptions : Type 0 where
  pub format : KeyFormat
  pub alg : String
  pub encryption_key_alg : Option String
  pub private_key : KeyInput
  pub public_key : Option KeyInput
  pub certificate : Option (List String)

-- The values for the encryption of responses, left out where they are the default one alone.
abbrev pub without_default : Option (List String) → Option (List String)
without_default (some (enc ∷ [])) = if enc =ˢ "A128GCM" then none else some (enc ∷ [])
without_default other = other

-- The metadata that are stored, with the verifier's encryption key.
abbrev pub with_encryption_key : VerifierMetadata → Fields → VerifierMetadata
with_encryption_key input jwk = record input {
  jwks = some (jwk ∷ []);
  encrypted_response_enc_values_supported =
      without_default input.encrypted_response_enc_values_supported;
}

abbrev pub all_pem : List String → Bool
all_pem [] = true
all_pem (pem ∷ pems) = is_pem pem && all_pem pems

abbrev pub first_of : List String → String
first_of [] = ""
first_of (pem ∷ pems) = pem

-- What is saved at the end of a registration.
pub record ToSave (M : Type 0) : Type 0 where
  pub pair : Option (SignatureKeyEntry M)
  pub certificates : Option (List String)

abbrev pub nothing_to_save : {M : Type 0} → ToSave M
nothing_to_save = record { pair = none; certificates = none }

-- `!options || !keyAlg`, negated.
abbrev pub with_alg : Option CreateVerifierMetadataOptions → Option CreateVerifierMetadataOptions
with_alg none = none
with_alg (some options) = if options.alg =ˢ "" then none else some options

abbrev pub encryption_key_alg : Option CreateVerifierMetadataOptions → String
encryption_key_alg none = "RSA-OAEP-256"
encryption_key_alg (some options) = or_else options.encryption_key_alg "RSA-OAEP-256"

abbrev pub key_alg_of : Option CreateVerifierMetadataOptions → String
key_alg_of none = "ES256"
key_alg_of (some options) = options.alg

module _ {M Key X509Key : Type 0} (imports : KeyImports Key X509Key)
    (kept : KeyFormat → KeyInput → M) (now : ℕ) where
  -- A public key is imported in its format, as a check.
  unfoldable pub check_public_key : KeyFormat → KeyInput → String → Result (Unit {0})
  unfolding assert_asymmetric_public_jwk
  check_public_key jwk_format (jwk_object jwk) alg =
      seq_value (assert_asymmetric_public_jwk jwk)
        (bind_value (uncaught (imports.import_jwk jwk alg)) (λ _. ok tt))
  check_public_key jwk_format (pem_text _) alg =
      raise invalid_options "publicKey must be a JWK when format is jwk."
  check_public_key pem_format (pem_text pem) alg =
      bind_value (uncaught (imports.import_spki pem alg)) (λ _. ok tt)
  check_public_key pem_format (jwk_object _) alg =
      raise invalid_options "publicKey must be a PEM string when format is pem."

  abbrev pub given_pair : CreateVerifierMetadataOptions → KeyInput → SignatureKeyEntry M
  given_pair options public_key = record {
    declared_alg = options.alg;
    public_key = kept options.format public_key;
    private_key = kept options.format options.private_key;
  }

  -- The public key of a chain of certificates, which is checked.
  unfoldable pub certified_key : List String → String → Result String
  unfolding is_pem Certificate.validate Certificate.get_public_key
  certified_key certificates alg =
      seq_value (if all_pem certificates then ok tt else err (failure "ZodError")) (
        seq_value
          (guard_value (Certificate.validate imports.parse_certificate now certificates)
            invalid_certificate "The provided certificate is not valid.")
          (let pem = Certificate.get_public_key imports.parse_certificate (first_of certificates) in
            bind_value (uncaught (imports.import_spki pem alg)) (λ _. ok pem)))

  -- The signing key of the options, a public key or a chain of certificates, checked;
  -- `createVerifierMetadata` makes no change for it yet.
  unfoldable pub given_key :
      CreateVerifierMetadataOptions → Option KeyInput → Option (List String) → Result (ToSave M)
  unfolding check_public_key certified_key
  given_key options (some public_key) certificate =
      seq_value (check_public_key options.format public_key options.alg)
        (ok (record { pair = some (given_pair options public_key); certificates = none }))
  given_key options none (some certificates) =
      bind_value (certified_key certificates options.alg) (λ pem. ok (record {
        pair = some (given_pair options (pem_text pem));
        certificates = some certificates;
      }))
  given_key options none none = ok nothing_to_save

  -- The signing key: a new one, which is stored, or that of the options.
  unfoldable pub prepare_key :
      List (KeyProvider (M × M))
      → String
      → Option CreateVerifierMetadataOptions
      → Action M (ToSave M)
  unfolding generate_key given_key
  prepare_key key_providers verifier none = do
    generate_key key_providers verifier "ES256"
    pure nothing_to_save
  prepare_key key_providers verifier (some options) =
      lift (given_key options options.public_key options.certificate)

  -- The metadata, checked, for a verifier that is not registered.
  unfoldable pub check_input :
      (Fields → Result VerifierMetadata) → String → Fields → Action M VerifierMetadata
  unfolding fetch_metadata
  check_input parse_input verifier metadata = do
    guard (not (is_some (member "jwks" metadata))) invalid_options
        "jwks cannot be specified directly. It is generated from the verifier encryption key."
    input ← lift (parse_input metadata)
    current ← fetch_metadata verifier
    guard (not (is_some current)) duplicate_verifier
        ("verifier " +ˢ verifier +ˢ " is already registered.")
    pure input

  unfoldable pub new_encryption_key : List (KeyProvider Fields) → String → String → Action M Fields
  unfolding save_encryption_key fetch_encryption_key
  new_encryption_key providers verifier key_alg = do
    save_encryption_key providers verifier key_alg
    found ← fetch_encryption_key verifier key_alg
    or_throw found internal_server_error "Failed to generate encryption key pair."

  -- Up to the writes at the end: what is to be saved, and the metadata with the encryption key.
  unfoldable pub prepare_registration :
      (Fields → Result VerifierMetadata)
      → List (KeyProvider (M × M))
      → List (KeyProvider Fields)
      → String
      → Fields
      → Option CreateVerifierMetadataOptions
      → Action M (ToSave M × VerifierMetadata)
  unfolding check_input prepare_key new_encryption_key
  prepare_registration parse_input key_providers encryption_providers verifier metadata options = do
    input ← check_input parse_input verifier metadata
    to_save ← prepare_key key_providers verifier (with_alg options)
    jwk ← new_encryption_key encryption_providers verifier (encryption_key_alg options)
    pure (to_save, with_encryption_key input jwk)

  -- The writes at the end.
  unfoldable pub commit_registration :
      String → String → ToSave M → VerifierMetadata → Action M (Unit {0})
  unfolding save_certificates save_key save_metadata
  commit_registration verifier key_alg to_save metadata = do
    when_some to_save.certificates (save_certificates verifier)
    when_some to_save.pair (save_key verifier key_alg)
    save_metadata verifier metadata

  unfoldable pub create_verifier_metadata :
      (Fields → Result VerifierMetadata)
      → List (KeyProvider (M × M))
      → List (KeyProvider Fields)
      → String
      → Fields
      → Option CreateVerifierMetadataOptions
      → Action M (Unit {0})
  unfolding prepare_registration commit_registration
  create_verifier_metadata parse_input key_providers encryption_providers verifier metadata
        options =
      do
        (to_save, registered) ←
            prepare_registration parse_input key_providers encryption_providers verifier metadata
              options
        commit_registration verifier (key_alg_of (with_alg options)) to_save registered
