-- ===== src/Issuer/Metadata/Found.antt =====
-- What is required of an issuer before its offers and its credentials.
use vcknots.Common.{Bool, String, ap, some, sym, ◌∙◌, ◌≡◌}
use vcknots.Flow.{lift, or_throw}
use vcknots.Flow.Laws.{and_then-ok, or_throw-ok, lift-ok, pure-ok}
use vcknots.Common.Map
use vcknots.Issuer.Types.{CredentialIssuerMetadata}
use vcknots.Issuer.Metadata.{require_issuer_metadata, reject_insecure_issuer_metadata}
use vcknots.Authz.Jose.{Jose}
use vcknots.Authz.State.{Server}
use vcknots.Errors.{ok}

module _ {Key Material : Type 0} (jose : Jose Key Material) (debug : Bool) where
  pub require_issuer_metadata-ok :
      (issuer : String) (s : Server Material) {m : CredentialIssuerMetadata} {t : Server Material}
      → require_issuer_metadata jose debug issuer s ≡ (ok m, t)
      → (Map.get issuer s.issuers ≡ some m)
        × (reject_insecure_issuer_metadata jose.parse_url debug m ≡ ok tt)
        × (s ≡ t)
  unfolding require_issuer_metadata
  require_issuer_metadata-ok issuer s h =
      let (metadata, s1, e1, h1) = and_then-ok (or_throw (Map.get issuer s.issuers) _ _ s) _ h in
      let (_, s2, e2, h2) =
        and_then-ok (lift (reject_insecure_issuer_metadata jose.parse_url debug metadata) s1) _
          h1 in
      let (found, here) = or_throw-ok (Map.get issuer s.issuers) _ _ s e1 in
      let (secure, there) = lift-ok _ s1 e2 in
      let (same, end) = pure-ok metadata s2 h2 in
      (
        found ∙ ap some same,
        ap (reject_insecure_issuer_metadata jose.parse_url debug) (sym same) ∙ secure,
        here ∙ there ∙ end,
      )

  pub require_issuer_metadata-same :
      (issuer : String) (s : Server Material) {m : CredentialIssuerMetadata} {t : Server Material}
      → require_issuer_metadata jose debug issuer s ≡ (ok m, t)
      → s ≡ t
  require_issuer_metadata-same issuer s h =
      let (_, _, same) = require_issuer_metadata-ok issuer s h in same
