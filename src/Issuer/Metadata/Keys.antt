-- ===== src/Issuer/Metadata/Keys.antt =====
-- Which keys a new issuer has, when several algorithms are saved at once.
use vcknots.Common.{
  Bool, List, String, [], ap, arith, eq_iff, eq_refl, not, refl, some, sym, ◌++◌, ◌∙◌, ◌∷◌, ◌≡◌,
  ◌≢◌,
}
use vcknots.Errors.{ok}
use vcknots.Common.Map
use vcknots.Flow.{guard, lift}
use vcknots.Flow.Laws.{and_then-ok, guard-ok, lift-ok}
use vcknots.Issuer.Types.{CredentialIssuerMetadata}
use vcknots.Issuer.Metadata.{
  signing_algs, write_pair, write_pairs, save_keys, create_issuer_metadata,
  reject_insecure_issuer_metadata,
}
use vcknots.Authz.Jose.{Jose}
use vcknots.Authz.State.{Server, SignatureKeyEntry, save_issuer}
use vcknots.Authz.AccessToken.{find_alg}
use vcknots.Authz.Registration.{new_pair, replace_alg, pairs_of}

module _ {M : Type 0} where
  -- The last one to write decides.
  write_pairs-last :
      (issuer : String) (current : List (SignatureKeyEntry M)) (pairs : List (String × (M × M)))
      (alg : String) (generated : M × M) (s : Server M)
      → ((write_pairs issuer current (pairs ++ (alg, generated) ∷ []) s).0 ≡ ok tt)
        × (Map.get issuer
              (write_pairs issuer current (pairs ++ (alg, generated) ∷ []) s).1.issuer_keys
            ≡ some (replace_alg alg (new_pair alg generated) current))
  unfolding write_pairs write_pair
  write_pairs-last issuer current [] alg generated s = (
    refl,
    ground (
      arith,
      eq_refl issuer,
      Map.get-set issuer issuer (replace_alg alg (new_pair alg generated) current) s.issuer_keys,
    ),
  )
  write_pairs-last issuer current (p ∷ pairs) alg generated s =
      write_pairs-last issuer current pairs alg generated (write_pair issuer current p s).1

  find_alg-replace_alg_ne :
      (alg other : String) (new : SignatureKeyEntry M) (pairs : List (SignatureKeyEntry M))
      → new.declared_alg ≡ alg
      → other ≢ alg
      → find_alg other (replace_alg alg new pairs) ≡ find_alg other pairs
  unfolding find_alg replace_alg
  find_alg-replace_alg_ne alg other new [] named ne = ground (arith, eq_iff new.declared_alg other)
  find_alg-replace_alg_ne alg other new (c ∷ pairs) named ne = ground (
    arith,
    find_alg-replace_alg_ne alg other new pairs named ne,
    eq_iff c.declared_alg alg,
    eq_iff c.declared_alg other,
  )

module _ {Key Material : Type 0} (jose : Jose Key Material) (debug : Bool) where
  -- The saves of a registration overwrite each other: after a registration in which the keys of
  -- `pairs` are ready first and that of `alg` last, the issuer has for every other algorithm the key,
  -- or the lack of one, that it had before, whatever keys of `pairs` were generated for it.
  pub last_key_wins :
      (finish : List String → List (String × (Material × Material)))
      (metadata : CredentialIssuerMetadata) (pairs : List (String × (Material × Material)))
      (alg other : String) (generated : Material × Material) (s t : Server Material)
      → create_issuer_metadata jose debug finish metadata s ≡ (ok tt, t)
      → finish (signing_algs metadata) ≡ pairs ++ (alg, generated) ∷ []
      → other ≢ alg
      → find_alg other (pairs_of (Map.get metadata.credential_issuer t.issuer_keys))
        ≡ find_alg other (pairs_of (Map.get metadata.credential_issuer s.issuer_keys))
  unfolding create_issuer_metadata save_keys save_issuer
  last_key_wins finish m pairs alg other generated s t h ready ne =
      let issuer = m.credential_issuer in
      let (_, s1, e1, h1) =
        and_then-ok (lift (reject_insecure_issuer_metadata jose.parse_url debug m) s) _ h in
      let (_, s2, e2, h2) = and_then-ok (guard (not (Map.has issuer s1.issuers)) _ _ s1) _ h1 in
      let (_, s3, e3, h3) = and_then-ok (save_keys issuer (finish (signing_algs m)) s2) _ h2 in
      let here : s ≡ s2 = (lift-ok _ s e1).1 ∙ (guard-ok _ _ _ s1 e2).1 in
      let current = pairs_of (Map.get issuer s2.issuer_keys) in
      let (_, last) = write_pairs-last issuer current pairs alg generated s2 in
      let written : Map.get issuer t.issuer_keys
          ≡ some (replace_alg alg (new_pair alg generated) current) =
        ap (λ r. Map.get issuer r.1.issuer_keys) (sym h3)
        ∙ ap (λ r. Map.get issuer r.1.issuer_keys) (sym e3)
        ∙ ap (λ ps. Map.get issuer (write_pairs issuer current ps s2).1.issuer_keys) ready
        ∙ last in
      ap (λ o. find_alg other (pairs_of o)) written
      ∙ find_alg-replace_alg_ne alg other (new_pair alg generated) current refl ne
      ∙ ap (λ u. find_alg other (pairs_of (Map.get issuer u.issuer_keys))) (sym here)
