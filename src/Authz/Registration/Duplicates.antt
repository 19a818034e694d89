-- ===== src/Authz/Registration/Duplicates.antt =====
-- An authorization server is registered once, with a key to sign by.
use vcknots.Common.{List, Option, String, [], arith, eq_refl, none, or_else, some, ◌∷◌, ◌≡◌}
use vcknots.Errors.{ok, raise, duplicate_authz_server}
use vcknots.Common.Map
use vcknots.Authz.Types.{AuthorizationServerMetadata}
use vcknots.Authz.State.{Server, SignatureKeyEntry}
use vcknots.Authz.AccessToken.{find_alg, find_pair}
use vcknots.Authz.Registration.{new_pair, replace_alg, create_authz_server_metadata}

module _ {M : Type 0} where
  find_alg-replace_alg :
      (new : SignatureKeyEntry M) (pairs : List (SignatureKeyEntry M))
      → find_alg new.declared_alg (replace_alg new.declared_alg new pairs) ≡ some new
  unfolding find_alg replace_alg
  find_alg-replace_alg new [] = ground (arith, eq_refl new.declared_alg)
  find_alg-replace_alg new (c ∷ pairs) = ground (arith, find_alg-replace_alg new pairs)

  -- The registration of an issuer that is not registered succeeds: its metadata is stored, the
  -- generated pair is found for the algorithm, ES256 if none is given, and a second registration of
  -- the issuer, with any metadata, is refused and changes nothing.
  pub create_authz_server_metadata_lem :
      (m m2 : AuthorizationServerMetadata) (alg alg2 : Option String) (generated generated2 : M × M)
      (s : Server M)
      → Map.get m.issuer s.servers ≡ none
      → m2.issuer ≡ m.issuer
      → let t = (create_authz_server_metadata m alg generated s).1 in
        ((create_authz_server_metadata m alg generated s).0 ≡ ok tt)
        × (Map.get m.issuer t.servers ≡ some m)
        × ((find_pair m.issuer (or_else alg "ES256") t).0
            ≡ ok (some (new_pair (or_else alg "ES256") generated)))
        × (create_authz_server_metadata m2 alg2 generated2 t
            ≡ (raise duplicate_authz_server "issuer is already registered.", t))
  unfolding create_authz_server_metadata find_pair
  create_authz_server_metadata_lem m m2 alg alg2 generated generated2 s absent same = (
    grind arith,
    grind (arith, eq_refl, Map.get-set),
    grind (arith, eq_refl, Map.get-set, find_alg-replace_alg),
    grind (arith, eq_refl, Map.get-set),
  )
