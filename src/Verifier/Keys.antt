-- ===== src/Verifier/Keys.antt =====
-- The keys of a verifier: in-memory-verifier-signature-key-store.provider.ts,
-- in-memory-verifier-encryption-key-store.providers.ts, verifier-encryption-key.provider.ts, and the
-- check of a public key in verifier.flows.ts. Keys that are generated are what the providers give.
use vcknots.Common.{
  Bool, List, Option, String, [], false, if◌then◌else◌, is_some, none, not, or_else, some, ◌+ˢ◌,
  ◌=ˢ◌, ◌||◌, ◌∷◌,
}
use vcknots.Errors.{Result, ok, invalid_options, illegal_argument}
use vcknots.Errors.Chain.{guard as guard_value, ◌>>=◌ as bind_value, ◌>>◌ as seq_value}
use vcknots.Flow.{pure, guard, lift, ◌>>=◌, ◌>>◌}
use vcknots.Common.Json.{Json, str, Fields, end, field, member}
use vcknots.Common.Map
use vcknots.Providers.{find_provider, select_provider}
use vcknots.Authz.State.{SignatureKeyEntry}
use vcknots.Authz.Registration.{replace_alg, pairs_of, new_pair}
use vcknots.Verifier.State.{Action, EncryptionKeyEntry}

pub data KeyFormat : Type 0 where
  pem_format : KeyFormat
  jwk_format : KeyFormat

-- `string | Jwk`
pub data KeyInput : Type 0 where
  pem_text : String → KeyInput
  jwk_object : Fields → KeyInput

-- A key provider, with what it generates.
pub record KeyProvider (A : Type 0) : Type 0 where
  pub can_handle : String → Bool
  pub generate : Result A

-- `{ ...publicJwk, alg, kid, use: 'enc' }`
unfoldable pub append_fields : Fields → Fields → Fields
append_fields end gs = gs
append_fields (field k v fs) gs = field k v (append_fields fs gs)

unfoldable pub encryption_public_jwk : String → String → Fields → Fields
unfolding append_fields
encryption_public_jwk alg kid jwk =
    append_fields jwk (field "alg" (str alg) (field "kid" (str kid) (field "use" (str "enc") end)))

-- verifier-encryption-key.provider.ts, with the key and the thumbprint that `jose` gives.
unfoldable pub verifier_encryption_key :
    Option String → (String → Result (Fields × String)) → KeyProvider Fields
unfolding encryption_public_jwk
verifier_encryption_key alg generate_key_pair = record {
  can_handle = λ key_alg. key_alg =ˢ or_else alg "RSA-OAEP-256";
  generate =
      bind_value (generate_key_pair (or_else alg "RSA-OAEP-256"))
        (λ (jwk, kid). ok (encryption_public_jwk (or_else alg "RSA-OAEP-256") kid jwk));
}

abbrev pub private_members : List String
private_members = "d" ∷ "k" ∷ "p" ∷ "q" ∷ "dp" ∷ "dq" ∷ "qi" ∷ "oth" ∷ "priv" ∷ []

unfoldable pub has_any : List String → Fields → Bool
has_any [] jwk = false
has_any (k ∷ ks) jwk = is_some (member k jwk) || has_any ks jwk

abbrev pub is_kty : String → Option Json → Bool
is_kty kty (some (str s)) = s =ˢ kty
is_kty kty _ = false

unfoldable pub assert_asymmetric_public_jwk : Fields → Result (Unit {0})
unfolding has_any
assert_asymmetric_public_jwk jwk =
    seq_value
      (guard_value (not (is_kty "oct" (member "kty" jwk))) invalid_options
        "publicKey must be an asymmetric public JWK.")
      (guard_value (not (has_any private_members jwk)) invalid_options
        "publicKey must not contain private or symmetric key material.")

unfoldable pub replace_encryption_alg :
    EncryptionKeyEntry → List EncryptionKeyEntry → List EncryptionKeyEntry
replace_encryption_alg new [] = new ∷ []
replace_encryption_alg new (c ∷ pairs) =
    let rest = replace_encryption_alg new pairs in
    if c.declared_alg =ˢ new.declared_alg then rest else c ∷ rest

unfoldable pub find_encryption_alg : String → List EncryptionKeyEntry → Option EncryptionKeyEntry
find_encryption_alg alg [] = none
find_encryption_alg alg (c ∷ pairs) =
    if c.declared_alg =ˢ alg then some c else find_encryption_alg alg pairs

abbrev pub public_key_of : Option EncryptionKeyEntry → Option Fields
public_key_of none = none
public_key_of (some pair) = some pair.public_key

module _ {M : Type 0} where
  -- verifier-encryption-key-store: `save` and `fetch`
  unfoldable pub save_encryption_key :
      List (KeyProvider Fields) → String → String → Action M (Unit {0})
  unfolding find_provider replace_encryption_alg
  save_encryption_key providers verifier key_alg = do
    provider ← select_provider (λ p. p.can_handle key_alg) providers key_alg
    key ← lift provider.generate
    λ s. (
      ok tt,
      record s {
        encryption_keys =
            Map.set verifier
              (replace_encryption_alg (record { declared_alg = key_alg; public_key = key })
                (or_else (Map.get verifier s.encryption_keys) []))
              s.encryption_keys;
      },
    )

  unfoldable pub fetch_encryption_key : String → String → Action M (Option Fields)
  unfolding find_encryption_alg
  fetch_encryption_key verifier key_alg s = (
    ok (
        public_key_of
          (find_encryption_alg key_alg (or_else (Map.get verifier s.encryption_keys) []))),
    s,
  )

  -- verifier-signature-key-store: the end of `save`
  unfoldable pub write_key : String → SignatureKeyEntry M → Action M (Unit {0})
  unfolding replace_alg
  write_key verifier pair s = (
    ok tt,
    record s {
      keys =
          Map.set verifier (replace_alg pair.declared_alg pair (pairs_of (Map.get verifier s.keys)))
            s.keys;
    },
  )

  -- `save` without a pair, and with one.
  unfoldable pub generate_key : List (KeyProvider (M × M)) → String → String → Action M (Unit {0})
  unfolding find_provider write_key
  generate_key providers verifier key_alg = do
    provider ← select_provider (λ p. p.can_handle key_alg) providers key_alg
    generated ← lift provider.generate
    write_key verifier (new_pair key_alg generated)

  unfoldable pub save_key : String → String → SignatureKeyEntry M → Action M (Unit {0})
  unfolding write_key
  save_key verifier key_alg pair = do
    guard (pair.declared_alg =ˢ key_alg) illegal_argument (
        "The provided key pair algorithm " +ˢ pair.declared_alg
        +ˢ " does not match the requested key algorithm " +ˢ key_alg +ˢ ".")
    write_key verifier pair

  -- `if (x) { await save(x) }`
  abbrev pub when_some : {A : Type 0} → Option A → (A → Action M (Unit {0})) → Action M (Unit {0})
  when_some none f = pure tt
  when_some (some a) f = f a
