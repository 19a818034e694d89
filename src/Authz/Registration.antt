-- ===== src/Authz/Registration.antt =====
-- authz.flows.ts: the registration of an authorization server with its signing key, and nonce
-- challenges. A generated key pair and a generated nonce are arguments.
pub mod Duplicates
use vcknots.Common.{
  List, Option, String, [], if◌then◌else◌, is_some, none, not, or_else, some, ◌=ˢ◌, ◌∷◌,
}
use vcknots.Errors.{ok, duplicate_authz_server}
use vcknots.Common.Map
use vcknots.Store.Nonce.{Nonce}
use vcknots.Authz.Types.{AuthorizationServerMetadata}
use vcknots.Authz.State.{
  Action, Server, SignatureKeyEntry, fetch_metadata, save_metadata, save_nonce,
}
use vcknots.Flow.{pure, guard, ◌>>=◌, ◌>>◌}

module _ {M : Type 0} where
  -- `current.filter((c) => c.declaredAlg !== keyAlg)`, with the new pair at the end.
  unfoldable pub replace_alg :
      String → SignatureKeyEntry M → List (SignatureKeyEntry M) → List (SignatureKeyEntry M)
  replace_alg alg new [] = new ∷ []
  replace_alg alg new (c ∷ pairs) =
      let rest = replace_alg alg new pairs in if c.declared_alg =ˢ alg then rest else c ∷ rest

  abbrev pub pairs_of : Option (List (SignatureKeyEntry M)) → List (SignatureKeyEntry M)
  pairs_of none = []
  pairs_of (some pairs) = pairs

  abbrev pub new_pair : String → M × M → SignatureKeyEntry M
  new_pair key_alg generated = record {
    declared_alg = key_alg;
    public_key = generated.0;
    private_key = generated.1;
  }

  -- `save` of the key store, without a pair: the one that is generated is stored.
  unfoldable pub save_key : String → String → M × M → Action M (Unit {0})
  unfolding replace_alg
  save_key authz key_alg generated s = (
    ok tt,
    record s {
      keys =
          Map.set authz
            (replace_alg key_alg (new_pair key_alg generated) (pairs_of (Map.get authz s.keys)))
            s.keys;
    },
  )

  unfoldable pub create_authz_server_metadata :
      AuthorizationServerMetadata → Option String → M × M → Action M (Unit {0})
  unfolding fetch_metadata save_key save_metadata
  create_authz_server_metadata metadata alg generated = do
    current ← fetch_metadata metadata.issuer
    guard (not (is_some current)) duplicate_authz_server "issuer is already registered."
    save_key metadata.issuer (or_else alg "ES256") generated
    save_metadata metadata

  unfoldable pub create_dpop_nonce_challenge : Nonce → Action M String
  unfolding save_nonce
  create_dpop_nonce_challenge dpop_nonce = do save_nonce dpop_nonce; pure dpop_nonce.nonce
