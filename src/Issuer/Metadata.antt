-- ===== src/Issuer/Metadata.antt =====
-- issuer.flows.ts: `findIssuerMetadata`, `findJwtVcIssuerMetadata` and `createIssuerMetadata`, with
-- in-memory-issuer-signature-key-store.provider.ts and in-memory-issuer-metadata-store.provider.ts.
-- `debug` is `context.options?.debug`.
pub mod Keys
pub mod Found
use vcknots.Common.{
  Bool, List, Option, String, [], false, if◌then◌else◌, includes, is_some, none, not, or_else, some,
  true, ◌++◌, ◌=ˢ◌, ◌∷◌,
}
use vcknots.Errors.{
  Result, ok, err, failure, insecure_http_not_allowed, vcknots_error, duplicate_issuer,
  invalid_issuer_key, issuer_not_found,
}
use vcknots.Errors.Chain.{guard as require_that, ◌>>◌ as and_also}
use vcknots.Flow.{pure, guard, lift, or_throw, ◌>>=◌, ◌>>◌}
use vcknots.Common.Json.{Json, str, Fields, field, member}
use vcknots.Common.Map
use vcknots.Issuer.Types.{CredentialConfiguration, CredentialIssuerMetadata}
use vcknots.Authz.Jose.{Jose, Url}
use vcknots.Authz.State.{Action, Server, SignatureKeyEntry, fetch_issuer, save_issuer}
use vcknots.Authz.Registration.{new_pair, replace_alg, pairs_of}
use vcknots.Authz.AccessToken.{find_alg}

-- `credential_signing_alg_values_supported` of every configuration, in a `Set`.
unfoldable pub add_algs : List String → List String → List String
add_algs acc [] = acc
add_algs acc (alg ∷ algs) = add_algs (if includes acc alg then acc else acc ++ alg ∷ []) algs

unfoldable pub algs_from : List String → Map.Map CredentialConfiguration → List String
unfolding add_algs
algs_from acc [] = acc
algs_from acc ((_, c) ∷ configurations) =
    algs_from (add_algs acc (or_else c.credential_signing_alg_values_supported [])) configurations

abbrev pub signing_algs : CredentialIssuerMetadata → List String
signing_algs metadata = algs_from [] metadata.credential_configurations_supported

module _ (parse_url : String → Option Url) where
  -- One endpoint: missing, blank, or not `http:`.
  unfoldable pub check_endpoint : Option String → Result (Unit {0})
  check_endpoint none = ok tt
  check_endpoint (some url) = if url =ˢ "" then ok tt else elim (parse_url url) [
    | none ↦ err (failure "TypeError")
    | some parsed ↦
        require_that (not (parsed.protocol =ˢ "http:")) insecure_http_not_allowed
          "CredentialIssuerMetadata contains insecure http url"
  ]

  unfoldable pub reject_insecure_issuer_metadata :
      Bool → CredentialIssuerMetadata → Result (Unit {0})
  unfolding check_endpoint
  reject_insecure_issuer_metadata debug metadata =
      if debug
      then ok tt
      else and_also (check_endpoint (some metadata.credential_endpoint))
          (check_endpoint metadata.deferred_credential_endpoint)

-- `{ ...jwk, kid }`
abbrev pub with_kid : Fields → String → Fields
with_kid jwk kid = field "kid" (str kid) jwk

-- `!jwk.kid`
abbrev pub lacks_kid : Option Json → Bool
lacks_kid (some (str kid)) = kid =ˢ ""
lacks_kid (some _) = false
lacks_kid none = true

pub record JwtVcIssuerResponse : Type 0 where
  pub issuer : String
  pub keys : Option (List Fields)

module _ {M : Type 0} where
  -- The end of `save`: the pairs that were read before the key was generated, with the new pair.
  unfoldable pub write_pair :
      String → List (SignatureKeyEntry M) → String × (M × M) → Action M (Unit {0})
  unfolding replace_alg
  write_pair issuer current (alg, generated) s = (
    ok tt,
    record s {
      issuer_keys = Map.set issuer (replace_alg alg (new_pair alg generated) current) s.issuer_keys;
    },
  )

  unfoldable pub write_pairs :
      String → List (SignatureKeyEntry M) → List (String × (M × M)) → Action M (Unit {0})
  unfolding write_pair
  write_pairs issuer current [] = pure tt
  write_pairs issuer current (pair ∷ pairs) = do
    write_pair issuer current pair
    write_pairs issuer current pairs

  -- `Promise.all` of the saves: each reads the pairs and then waits for its key, so all read before
  -- the first writes. `finished` are the generated keys, in the order in which they are ready.
  unfoldable pub save_keys : String → List (String × (M × M)) → Action M (Unit {0})
  unfolding write_pairs
  save_keys issuer finished s =
      write_pairs issuer (pairs_of (Map.get issuer s.issuer_keys)) finished s

module _ {Key Material : Type 0} (jose : Jose Key Material) (debug : Bool) where
  unfoldable pub find_issuer_metadata : String → Action Material (Option CredentialIssuerMetadata)
  unfolding fetch_issuer reject_insecure_issuer_metadata
  find_issuer_metadata id = do
    metadata ← fetch_issuer id
    elim metadata [
      | none ↦ pure tt
      | some m ↦ lift (reject_insecure_issuer_metadata jose.parse_url debug m)
    ]
    pure metadata

  -- The metadata of an issuer, which an offer and the issuing of a credential start from.
  unfoldable pub require_issuer_metadata : String → Action Material CredentialIssuerMetadata
  unfolding fetch_issuer reject_insecure_issuer_metadata
  require_issuer_metadata issuer = do
    found ← fetch_issuer issuer
    metadata ← or_throw found issuer_not_found "Issuer metadata not found."
    lift (reject_insecure_issuer_metadata jose.parse_url debug metadata)
    pure metadata

  -- `finish` gives the keys that are generated for the algorithms, in the order of being ready.
  unfoldable pub create_issuer_metadata :
      (List String → List (String × (Material × Material)))
      → CredentialIssuerMetadata
      → Action Material (Unit {0})
  unfolding reject_insecure_issuer_metadata fetch_issuer save_keys save_issuer
  create_issuer_metadata finish metadata = do
    lift (reject_insecure_issuer_metadata jose.parse_url debug metadata)
    current ← fetch_issuer metadata.credential_issuer
    guard (not (is_some current)) duplicate_issuer "issuer is already registered."
    save_keys metadata.credential_issuer (finish (signing_algs metadata))
    save_issuer metadata

  -- The public key of the issuer for an algorithm, as a JWK with a `kid`.
  unfoldable pub public_jwk : (Key → Fields) → String → String → Action Material (Option Fields)
  unfolding find_alg
  public_jwk export_jwk id alg s = elim (find_alg alg (pairs_of (Map.get id s.issuer_keys))) [
    | none ↦ (ok none, s)
    | some pair ↦ elim (jose.import_public pair.public_key alg) [
      | err e ↦ (err e, s)
      | ok none ↦ (ok none, s)
      | ok (some key) ↦
          if lacks_kid (member "kid" (export_jwk key))
          then elim (jose.jwk_thumbprint (export_jwk key)) [
            | none ↦ (
              err (vcknots_error invalid_issuer_key "Failed to calculate kid for issuer key."),
              s,
            )
            | some kid ↦ (ok (some (with_kid (export_jwk key) kid)), s)
          ]
          else (ok (some (export_jwk key)), s)
    ]
  ]

  -- The keys of a list of algorithms, without those that are missing.
  unfoldable pub public_jwks : (Key → Fields) → String → List String → Action Material (List Fields)
  unfolding public_jwk
  public_jwks export_jwk id [] = pure []
  public_jwks export_jwk id (alg ∷ algs) = do
    found ← public_jwk export_jwk id alg
    keys ← public_jwks export_jwk id algs
    pure (elim found [ none ↦ keys | some key ↦ key ∷ keys ])

  abbrev pub or_es256 : List String → List String
  or_es256 [] = "ES256" ∷ []
  or_es256 (alg ∷ algs) = alg ∷ algs

  abbrev pub if_any : List Fields → Option (List Fields)
  if_any [] = none
  if_any (key ∷ keys) = some (key ∷ keys)

  unfoldable pub find_jwt_vc_issuer_metadata :
      (Key → Fields) → String → Action Material (Option JwtVcIssuerResponse)
  unfolding fetch_issuer reject_insecure_issuer_metadata public_jwks
  find_jwt_vc_issuer_metadata export_jwk id = do
    found ← fetch_issuer id
    elim found [
      | none ↦ pure none
      | some metadata ↦ do
        lift (reject_insecure_issuer_metadata jose.parse_url debug metadata)
        keys ← public_jwks export_jwk id (or_es256 (signing_algs metadata))
        pure (some (record { issuer = metadata.credential_issuer; keys = if_any keys }))
    ]
