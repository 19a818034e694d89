-- ===== src/Verifier/Register/Prepared.antt =====
-- The part of a registration before its writes at the end: what it keeps, and what it yields.
use vcknots.Common.{
  List, Option, String, [], ap, arith, none, or_else, refl, some, subst, sym, ℕ, ◌∙◌, ◌≡◌, ◌≢◌,
}
use vcknots.Errors.{Result, ok}
use vcknots.Errors.Chain.{and_then-ok as value-ok}
use vcknots.Common.Json.{Fields, member}
use vcknots.Common.Map
use vcknots.Common.Map.{Map}
use vcknots.Flow.{lift}
use vcknots.Flow.Laws.{and_then-ok, or_throw-ok, pure-ok, lift-ok, and_then-keeps, or_throw-keeps}
use vcknots.Providers.{find_provider, select_provider}
use vcknots.Providers.Imports.{KeyImports}
use vcknots.Authz.State.{SignatureKeyEntry}
use vcknots.Verifier.Types.{VerifierMetadata}
use vcknots.Verifier.State.{Verifier, EncryptionKeyEntry}
use vcknots.Verifier.Keys.{
  KeyFormat, KeyInput, KeyProvider, save_encryption_key, fetch_encryption_key, write_key,
  generate_key, find_encryption_alg, public_key_of,
}
use vcknots.Verifier.Register.{
  CreateVerifierMetadataOptions, ToSave, nothing_to_save, check_input, new_encryption_key,
  given_key, check_public_key, certified_key, with_alg, prepare_key, encryption_key_alg, key_alg_of,
  with_encryption_key, prepare_registration,
}

-- Writes of encryption keys do not reach a part of the state.
abbrev pub EncryptionWrites : {M X : Type 0} → (Verifier M → X) → Type 0
EncryptionWrites {M} part =
    (keys : Map (List EncryptionKeyEntry)) (t : Verifier M)
    → part (record t { encryption_keys = keys }) ≡ part t

module _ {M X : Type 0} (part : Verifier M → X) where
  save_encryption_key-keeps :
      (providers : List (KeyProvider Fields)) (verifier alg : String) (s : Verifier M)
      → EncryptionWrites part
      → part (save_encryption_key providers verifier alg s).1 ≡ part s
  unfolding save_encryption_key
  save_encryption_key-keeps providers verifier alg s writes =
      and_then-keeps part (select_provider (λ p. p.can_handle alg) providers alg s) _ s
        (or_throw-keeps part (find_provider (λ p. p.can_handle alg) providers) _ _ s)
        (λ provider t.
          and_then-keeps part (lift provider.generate t) _ t refl (λ key u. writes _ u))

  generate_key-keeps :
      (providers : List (KeyProvider (M × M))) (verifier alg : String) (s : Verifier M)
      → ((keys : Map (List (SignatureKeyEntry M))) (t : Verifier M)
          → part (record t { keys = keys }) ≡ part t)
      → part (generate_key providers verifier alg s).1 ≡ part s
  unfolding generate_key write_key
  generate_key-keeps providers verifier alg s writes =
      and_then-keeps part (select_provider (λ p. p.can_handle alg) providers alg s) _ s
        (or_throw-keeps part (find_provider (λ p. p.can_handle alg) providers) _ _ s)
        (λ provider t.
          and_then-keeps part (lift provider.generate t) _ t refl (λ key u. writes _ u))

-- A pair to save is one for the algorithm.
abbrev pub HasAlg : {M : Type 0} → Option (SignatureKeyEntry M) → String → Type 0
HasAlg none alg = Unit {0}
HasAlg (some pair) alg = pair.declared_alg ≡ alg

pub ok-HasAlg :
    {M : Type 0} (alg : String) (made : ToSave M) {to_save : ToSave M}
    → ok made ≡ ok to_save
    → HasAlg made.pair alg
    → HasAlg to_save.pair alg
ok-HasAlg {M} alg made {to_save} e h =
    let same : made ≡ to_save = cc e in subst (λ (x : ToSave M). HasAlg x.pair alg) same h

module _ {M Key X509Key : Type 0} (imports : KeyImports Key X509Key)
    (kept : KeyFormat → KeyInput → M) (now : ℕ) where
  given_key-HasAlg :
      (options : CreateVerifierMetadataOptions) (public_key : Option KeyInput)
      (certificate : Option (List String)) {to_save : ToSave M}
      → given_key imports kept now options public_key certificate ≡ ok to_save
      → HasAlg to_save.pair options.alg
  unfolding given_key
  given_key-HasAlg options (some k) certificate h =
      let (_, _, h1) =
        value-ok (check_public_key imports kept now options.format k options.alg) _ h in
      ok-HasAlg options.alg _ h1 refl
  given_key-HasAlg options none (some certificates) h =
      let (pem, _, h1) = value-ok (certified_key imports kept now certificates options.alg) _ h in
      ok-HasAlg options.alg _ h1 refl
  given_key-HasAlg options none none h = ok-HasAlg options.alg nothing_to_save h tt

  prepare_key-HasAlg :
      (providers : List (KeyProvider (M × M))) (verifier : String)
      (options : Option CreateVerifierMetadataOptions) (s : Verifier M) {to_save : ToSave M}
      {t : Verifier M}
      → prepare_key imports kept now providers verifier options s ≡ (ok to_save, t)
      → HasAlg to_save.pair (key_alg_of options)
  unfolding prepare_key
  prepare_key-HasAlg providers verifier none s h =
      let (_, s1, e1, h1) = and_then-ok (generate_key providers verifier "ES256" s) _ h in
      ok-HasAlg "ES256" nothing_to_save (ap ok (pure-ok _ _ h1).0) tt
  prepare_key-HasAlg providers verifier (some options) s h =
      given_key-HasAlg options options.public_key options.certificate (lift-ok _ s h).0

  -- Writes of signing keys, where a registration makes one before its end.
  abbrev pub KeyWrites :
      {X : Type 0} → (Verifier M → X) → Option CreateVerifierMetadataOptions → Type 0
  KeyWrites part none =
      (keys : Map (List (SignatureKeyEntry M))) (t : Verifier M)
      → part (record t { keys = keys }) ≡ part t
  KeyWrites part (some options) = Unit {0}

  pub key_writes :
      {X : Type 0} (part : Verifier M → X) (options : Option CreateVerifierMetadataOptions)
      → KeyWrites part none
      → KeyWrites part options
  key_writes part none writes = writes
  key_writes part (some options) writes = tt

  pub given_writes :
      {X : Type 0} (part : Verifier M → X) (options : Option CreateVerifierMetadataOptions)
      → options ≢ none
      → KeyWrites part options
  given_writes part none given = elim (given refl) [ ]
  given_writes part (some options) given = tt

  prepare_key-keeps :
      {X : Type 0} (part : Verifier M → X) (providers : List (KeyProvider (M × M)))
      (verifier : String) (options : Option CreateVerifierMetadataOptions) (s : Verifier M)
      → KeyWrites part options
      → part (prepare_key imports kept now providers verifier options s).1 ≡ part s
  unfolding prepare_key
  prepare_key-keeps part providers verifier none s writes =
      and_then-keeps part (generate_key providers verifier "ES256" s) _ s
        (generate_key-keeps part providers verifier "ES256" s writes) (λ _ t. refl)
  prepare_key-keeps part providers verifier (some options) s writes = refl

  check_input-keeps :
      {X : Type 0} (part : Verifier M → X) (parse_input : Fields → Result VerifierMetadata)
      (verifier : String) (metadata : Fields) (s : Verifier M)
      → part (check_input imports kept now parse_input verifier metadata s).1 ≡ part s
  unfolding check_input
  check_input-keeps part parse_input verifier metadata s = ground arith

  new_encryption_key-keeps :
      {X : Type 0} (part : Verifier M → X) (providers : List (KeyProvider Fields))
      (verifier alg : String) (s : Verifier M)
      → EncryptionWrites part
      → part (new_encryption_key imports kept now providers verifier alg s).1 ≡ part s
  unfolding new_encryption_key fetch_encryption_key
  new_encryption_key-keeps part providers verifier alg s writes =
      and_then-keeps part (save_encryption_key providers verifier alg s) _ s
        (save_encryption_key-keeps part providers verifier alg s writes)
        (λ _ t.
          or_throw-keeps part
            (public_key_of
              (find_encryption_alg alg (or_else (Map.get verifier t.encryption_keys) [])))
            _ _ t)

  pub prepare_registration-keeps :
      {X : Type 0} (part : Verifier M → X) (parse_input : Fields → Result VerifierMetadata)
      (key_providers : List (KeyProvider (M × M)))
      (encryption_providers : List (KeyProvider Fields)) (verifier : String) (metadata : Fields)
      (options : Option CreateVerifierMetadataOptions) (s : Verifier M)
      → EncryptionWrites part
      → KeyWrites part (with_alg options)
      → part
          (prepare_registration imports kept now parse_input key_providers encryption_providers
            verifier metadata options s).1
        ≡ part s
  unfolding prepare_registration
  prepare_registration-keeps part parse_input keys encryption verifier metadata options s writes
        key_writes =
      and_then-keeps part (check_input imports kept now parse_input verifier metadata s) _ s
        (check_input-keeps part parse_input verifier metadata s)
        (λ input s1.
          and_then-keeps part (prepare_key imports kept now keys verifier (with_alg options) s1) _
            s1 (prepare_key-keeps part keys verifier (with_alg options) s1 key_writes)
            (λ to_save s2.
              and_then-keeps part
                (new_encryption_key imports kept now encryption verifier
                  (encryption_key_alg options) s2)
                _ s2 (new_encryption_key-keeps part encryption verifier _ s2 writes)
                (λ jwk s3. refl)))

  check_input-ok :
      (parse_input : Fields → Result VerifierMetadata) (verifier : String) (metadata : Fields)
      (s : Verifier M) {input : VerifierMetadata} {t : Verifier M}
      → check_input imports kept now parse_input verifier metadata s ≡ (ok input, t)
      → (member "jwks" metadata ≡ none)
        × (parse_input metadata ≡ ok input)
        × (Map.get verifier s.metadata ≡ none)
  unfolding check_input
  check_input-ok parse_input verifier metadata s h = (ground arith, ground arith, ground arith)

  new_encryption_key-ok :
      (providers : List (KeyProvider Fields)) (verifier alg : String) (s : Verifier M)
      {jwk : Fields} {t : Verifier M}
      → new_encryption_key imports kept now providers verifier alg s ≡ (ok jwk, t)
      → public_key_of (find_encryption_alg alg (or_else (Map.get verifier t.encryption_keys) []))
        ≡ some jwk
  unfolding new_encryption_key fetch_encryption_key
  new_encryption_key-ok providers verifier alg s h =
      let (_, s1, e1, h1) = and_then-ok (save_encryption_key providers verifier alg s) _ h in
      let (found, same) =
        or_throw-ok
          (public_key_of
            (find_encryption_alg alg (or_else (Map.get verifier s1.encryption_keys) [])))
          _ _ s1 h1 in
      ap
        (λ (u : Verifier M).
          public_key_of (find_encryption_alg alg (or_else (Map.get verifier u.encryption_keys) [])))
        (sym same)
      ∙ found

  pub prepare_registration-HasAlg :
      (parse_input : Fields → Result VerifierMetadata) (key_providers : List (KeyProvider (M × M)))
      (encryption_providers : List (KeyProvider Fields)) (verifier : String) (metadata : Fields)
      (options : Option CreateVerifierMetadataOptions) (s : Verifier M) {to_save : ToSave M}
      {m : VerifierMetadata} {t : Verifier M}
      → prepare_registration imports kept now parse_input key_providers encryption_providers
          verifier metadata options s
        ≡ (ok (to_save, m), t)
      → HasAlg to_save.pair (key_alg_of (with_alg options))
        × (member "jwks" metadata ≡ none)
        × (Map.get verifier s.metadata ≡ none)
        × ((input : VerifierMetadata) × (jwk : Fields) × (parse_input metadata ≡ ok input)
            × (m ≡ with_encryption_key input jwk)
            × (public_key_of (
                  find_encryption_alg
                    (encryption_key_alg options)
                    (or_else (Map.get verifier t.encryption_keys) []))
                ≡ some jwk))
  unfolding prepare_registration
  prepare_registration-HasAlg parse_input keys encryption verifier metadata options s {to_save} {m}
        {t} h =
      let (input, s1, e1, h1) =
        and_then-ok (check_input imports kept now parse_input verifier metadata s) _ h in
      let (made, s2, e2, h2) =
        and_then-ok (prepare_key imports kept now keys verifier (with_alg options) s1) _ h1 in
      let (jwk, s3, e3, h3) =
        and_then-ok
          (new_encryption_key imports kept now encryption verifier (encryption_key_alg options) s2)
          _ h2 in
      let (no_jwks, parsed, absent) = check_input-ok parse_input verifier metadata s e1 in
      let (results, same) = pure-ok (made, with_encryption_key input jwk) s3 h3 in
      (
        ok-HasAlg (key_alg_of (with_alg options)) made (ap (λ r. ok r.0) results)
            (prepare_key-HasAlg keys verifier (with_alg options) s1 e2),
        no_jwks,
        absent,
        (
          input,
          jwk,
          parsed,
          sym (ap (λ r. r.1) results),
          ap
                (λ (u : Verifier M). public_key_of (
                  find_encryption_alg (encryption_key_alg options)
                    (or_else (Map.get verifier u.encryption_keys) [])))
                (sym same)
              ∙ new_encryption_key-ok encryption verifier (encryption_key_alg options) s2 e3,
        ),
      )
