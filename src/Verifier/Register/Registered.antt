-- ===== src/Verifier/Register/Registered.antt =====
-- What a registration of a verifier leaves, and what a failed one does not touch.
use vcknots.Common.{
  List, Option, String, [], ap, arith, eq_iff, eq_refl, inl, inr, none, or_else, refl, some, sym, ℕ,
  ◌∙◌, ◌≡◌, ◌≢◌,
}
use vcknots.Errors.{Result, ok, err, Thrown}
use vcknots.Common.Json.{Fields, member}
use vcknots.Common.Map
use vcknots.Common.Map.{Map}
use vcknots.Flow.Laws.{and_then-ok, and_then-step, and_then-err}
use vcknots.Providers.Imports.{KeyImports}
use vcknots.Authz.State.{SignatureKeyEntry}
use vcknots.Verifier.Types.{VerifierMetadata}
use vcknots.Verifier.State.{Verifier, save_metadata, save_certificates}
use vcknots.Verifier.Register.Prepared.{
  HasAlg, key_writes, given_writes, prepare_registration-keeps, prepare_registration-HasAlg,
}
use vcknots.Verifier.Keys.{
  KeyFormat, KeyInput, KeyProvider, write_key, save_key, when_some, find_encryption_alg,
  public_key_of,
}
use vcknots.Verifier.Register.{
  CreateVerifierMetadataOptions, ToSave, with_alg, encryption_key_alg, key_alg_of,
  with_encryption_key, prepare_registration, commit_registration, create_verifier_metadata,
}

get-set_same : {V : Type 0} (k : String) (v : V) (m : Map V) → Map.get k (Map.set k v m) ≡ some v
get-set_same k v m = ground (arith, Map.get-set k k v m, eq_refl k)

get-set_other :
    {V : Type 0} (k j : String) (v : V) (m : Map V)
    → j ≢ k
    → Map.get j (Map.set k v m) ≡ Map.get j m
get-set_other k j v m ne = ground (arith, Map.get-set k j v m, eq_iff k j)

module _ {M Key X509Key : Type 0} (imports : KeyImports Key X509Key)
    (kept : KeyFormat → KeyInput → M) (now : ℕ) where
  save_key-ok :
      (verifier alg : String) (pair : SignatureKeyEntry M) (s : Verifier M)
      → pair.declared_alg ≡ alg
      → save_key verifier alg pair s ≡ write_key verifier pair s
  unfolding save_key
  save_key-ok verifier alg pair s same = ground (arith, eq_iff pair.declared_alg alg)

  -- What the writes at the end make of a state.
  abbrev pub keys_with : String → Option (SignatureKeyEntry M) → Verifier M → Verifier M
  keys_with verifier none s = s
  keys_with verifier (some pair) s = (write_key verifier pair s).1

  abbrev pub certificates_with : String → Option (List String) → Verifier M → Verifier M
  certificates_with verifier none s = s
  certificates_with verifier (some chain) s = (save_certificates verifier chain s).1

  abbrev pub committed : String → ToSave M → VerifierMetadata → Verifier M → Verifier M
  committed verifier to_save m s =
      (save_metadata verifier m
        (keys_with verifier to_save.pair (certificates_with verifier to_save.certificates s))).1

  when_pair-ok :
      (verifier alg : String) (pair : Option (SignatureKeyEntry M)) (s : Verifier M)
      → HasAlg pair alg
      → when_some pair (save_key verifier alg) s ≡ (ok tt, keys_with verifier pair s)
  unfolding write_key
  when_pair-ok verifier alg none s same = refl
  when_pair-ok verifier alg (some pair) s same = save_key-ok verifier alg pair s same

  when_certificates-ok :
      (verifier : String) (certificates : Option (List String)) (s : Verifier M)
      → when_some certificates (save_certificates verifier) s
        ≡ (ok tt, certificates_with verifier certificates s)
  unfolding save_certificates
  when_certificates-ok verifier none s = refl
  when_certificates-ok verifier (some chain) s = refl

  commit_registration-committed :
      (verifier alg : String) (to_save : ToSave M) (m : VerifierMetadata) (s : Verifier M)
      → HasAlg to_save.pair alg
      → commit_registration imports kept now verifier alg to_save m s
        ≡ (ok tt, committed verifier to_save m s)
  unfolding commit_registration save_metadata
  commit_registration-committed verifier alg to_save m s same =
      and_then-step (when_some to_save.certificates (save_certificates verifier) s) _
        (when_certificates-ok verifier to_save.certificates s)
      ∙ and_then-step
          (when_some to_save.pair (save_key verifier alg)
            (certificates_with verifier to_save.certificates s))
          _ (when_pair-ok verifier alg to_save.pair _ same)

  keys_with-metadata :
      (verifier : String) (pair : Option (SignatureKeyEntry M)) (s : Verifier M)
      → (keys_with verifier pair s).metadata ≡ s.metadata
  unfolding write_key
  keys_with-metadata verifier none s = refl
  keys_with-metadata verifier (some pair) s = refl

  certificates_with-metadata :
      (verifier : String) (certificates : Option (List String)) (s : Verifier M)
      → (certificates_with verifier certificates s).metadata ≡ s.metadata
  unfolding save_certificates
  certificates_with-metadata verifier none s = refl
  certificates_with-metadata verifier (some chain) s = refl

  committed-metadata :
      (verifier : String) (to_save : ToSave M) (m : VerifierMetadata) (s : Verifier M)
      → (committed verifier to_save m s).metadata ≡ Map.set verifier m s.metadata
  unfolding save_metadata
  committed-metadata verifier to_save m s = ap (Map.set verifier m) (
      keys_with-metadata verifier to_save.pair _
      ∙ certificates_with-metadata verifier to_save.certificates s)

  keys_with-encryption :
      (verifier : String) (pair : Option (SignatureKeyEntry M)) (s : Verifier M)
      → (keys_with verifier pair s).encryption_keys ≡ s.encryption_keys
  unfolding write_key
  keys_with-encryption verifier none s = refl
  keys_with-encryption verifier (some pair) s = refl

  certificates_with-encryption :
      (verifier : String) (certificates : Option (List String)) (s : Verifier M)
      → (certificates_with verifier certificates s).encryption_keys ≡ s.encryption_keys
  unfolding save_certificates
  certificates_with-encryption verifier none s = refl
  certificates_with-encryption verifier (some chain) s = refl

  committed-encryption :
      (verifier : String) (to_save : ToSave M) (m : VerifierMetadata) (s : Verifier M)
      → (committed verifier to_save m s).encryption_keys ≡ s.encryption_keys
  unfolding save_metadata
  committed-encryption verifier to_save m s =
      keys_with-encryption verifier to_save.pair _
      ∙ certificates_with-encryption verifier to_save.certificates s

  -- A registration that fails leaves the metadata and the certificates of all verifiers as they were, and
  -- their signing keys too, if the options have an algorithm.
  pub failed_registration :
      (parse_input : Fields → Result VerifierMetadata) (key_providers : List (KeyProvider (M × M)))
      (encryption_providers : List (KeyProvider Fields)) (verifier : String) (metadata : Fields)
      (options : Option CreateVerifierMetadataOptions) (s t : Verifier M) (e : Thrown)
      → create_verifier_metadata imports kept now parse_input key_providers encryption_providers
          verifier metadata options s
        ≡ (err e, t)
      → (t.metadata ≡ s.metadata)
        × (t.certificates ≡ s.certificates)
        × (with_alg options ≢ none → t.keys ≡ s.keys)
  unfolding create_verifier_metadata
  failed_registration parse_input keys encryption verifier metadata options s t e h =
      let prepared =
        prepare_registration imports kept now parse_input keys encryption verifier metadata options
          s in
      elim (and_then-err prepared _ h) [
        | inl failed ↦
            let kept_part = λ (X : Type 0) (part : Verifier M → X).
              prepare_registration-keeps imports kept now part parse_input keys encryption verifier
                metadata options s in
            (
              ap (λ r. r.1.metadata) (sym failed)
                  ∙ kept_part _ (λ u. u.metadata) (λ keys u. refl)
                      (key_writes imports kept now (λ u. u.metadata) (with_alg options)
                        (λ keys u. refl)),
              ap (λ r. r.1.certificates) (sym failed)
                  ∙ kept_part _ (λ u. u.certificates) (λ keys u. refl)
                      (key_writes imports kept now (λ u. u.certificates) (with_alg options)
                        (λ keys u. refl)),
              λ given.
                  ap (λ r. r.1.keys) (sym failed)
                  ∙ kept_part _ (λ u. u.keys) (λ keys u. refl)
                      (given_writes imports kept now (λ u. u.keys) (with_alg options) given),
            )
        | inr ((to_save, m), s1, made, rest) ↦ absurd (
            cc (
              sym rest
              ∙ commit_registration-committed verifier (key_alg_of (with_alg options)) to_save m s1
                  (prepare_registration-HasAlg imports kept now parse_input keys encryption verifier
                    metadata options s made).0))
      ]

  -- A registration that succeeds is of a verifier that was not registered, with metadata that give no
  -- keys of their own; it stores the parsed metadata with the verifier's encryption key, which the key
  -- store has for the algorithm, and leaves the metadata of every other verifier as they were.
  pub successful_registration :
      (parse_input : Fields → Result VerifierMetadata) (key_providers : List (KeyProvider (M × M)))
      (encryption_providers : List (KeyProvider Fields)) (verifier other : String)
      (metadata : Fields) (options : Option CreateVerifierMetadataOptions) (s t : Verifier M)
      → create_verifier_metadata imports kept now parse_input key_providers encryption_providers
          verifier metadata options s
        ≡ (ok tt, t)
      → (member "jwks" metadata ≡ none)
        × (Map.get verifier s.metadata ≡ none)
        × ((input : VerifierMetadata) × (jwk : Fields) × (parse_input metadata ≡ ok input)
            × (public_key_of (
                  find_encryption_alg
                    (encryption_key_alg options)
                    (or_else (Map.get verifier t.encryption_keys) []))
                ≡ some jwk)
            × (Map.get verifier t.metadata ≡ some (with_encryption_key input jwk)))
        × (other ≢ verifier → Map.get other t.metadata ≡ Map.get other s.metadata)
  unfolding create_verifier_metadata
  successful_registration parse_input keys encryption verifier other metadata options s t h =
      let ((to_save, m), s1, made, rest) =
        and_then-ok
          (prepare_registration imports kept now parse_input keys encryption verifier metadata
            options s)
          _ h in
      let (has_alg, no_jwks, absent, (input, jwk, parsed, shape, found)) =
        prepare_registration-HasAlg imports kept now parse_input keys encryption verifier metadata
          options s made in
      let done =
        ap (λ r. r.1)
          (sym rest
            ∙ commit_registration-committed verifier (key_alg_of (with_alg options)) to_save m s1
                has_alg) in
      let stored : t.metadata ≡ Map.set verifier m s1.metadata =
        ap (λ (u : Verifier M). u.metadata) done ∙ committed-metadata verifier to_save m s1 in
      let before : s1.metadata ≡ s.metadata =
        ap (λ r. r.1.metadata) (sym made)
        ∙ prepare_registration-keeps imports kept now (λ u. u.metadata) parse_input keys encryption
            verifier metadata options s (λ keys u. refl)
            (key_writes imports kept now (λ u. u.metadata) (with_alg options) (λ keys u. refl)) in
      let alg = encryption_key_alg options in
      (
        no_jwks,
        absent,
        (
          input,
          jwk,
          parsed,
          ap (λ keys. public_key_of (find_encryption_alg alg (or_else (Map.get verifier keys) [])))
                (ap (λ (u : Verifier M). u.encryption_keys) done
                  ∙ committed-encryption verifier to_save m s1)
              ∙ found,
          ap (Map.get verifier) stored ∙ get-set_same verifier m s1.metadata ∙ ap some shape,
        ),
        λ ne.
            ap (Map.get other) (stored ∙ ap (Map.set verifier m) before)
            ∙ get-set_other verifier other m s.metadata ne,
      )
