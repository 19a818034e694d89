-- ===== src/Authz/AccessToken/Kind.antt =====
-- What kind of token a token request is answered with, and how long it lasts.
use vcknots.Common.{
  List, Option, String, ap, arith, if◌then◌else◌, is_some, none, or_else, some, sym, ◌∙◌, ◌≡◌,
}
use vcknots.Errors.{ok}
use vcknots.Flow.Laws.{and_then-ok, pure-ok}
use vcknots.Authz.Jose.{Jose}
use vcknots.Authz.DpopProof.{DpopProofOptions, VerifiedDpopProof}
use vcknots.Authz.State.{Server, consume_code}
use vcknots.Authz.AccessToken.{
  TokenRequest, pre_authorized_code, authorization_code, other_grant, TokenRequestOptions,
  TokenResponse, DpopProofContext, verify_token_dpop, issue_token, create_access_token,
}

module _ {Key Material : Type 0} (jose : Jose Key Material) (proofs : DpopProofOptions)
    (authz : String) where
  verify_token_dpop-some :
      (context : Option DpopProofContext) (s : Server Material) {proof : Option VerifiedDpopProof}
      {t : Server Material}
      → verify_token_dpop jose proofs authz context s ≡ (ok proof, t)
      → is_some proof ≡ is_some context
  unfolding verify_token_dpop
  verify_token_dpop-some none s h = ap is_some (sym (pure-ok _ s h).0)
  verify_token_dpop-some (some context) s h = ground arith

  issue_token-type :
      (code : String) (o : TokenRequestOptions) (proof : Option VerifiedDpopProof)
      (ids : List String) (s : Server Material) {r : TokenResponse} {t : Server Material}
      → issue_token jose proofs authz code o proof ids s ≡ (ok r, t)
      → (r.token_type ≡ (if is_some proof then "DPoP" else "bearer"))
        × (r.expires_in ≡ or_else o.ttl_sec 86400)
  unfolding issue_token
  issue_token-type code o proof ids s h = (ground arith, ground arith)

  -- The type and the lifetime in a token response.
  pub create_access_token-type :
      (request : TokenRequest) (o : TokenRequestOptions) (s : Server Material) {r : TokenResponse}
      {t : Server Material}
      → create_access_token jose proofs authz request o s ≡ (ok r, t)
      → (r.token_type ≡ (if is_some o.dpop_proof then "DPoP" else "bearer"))
        × (r.expires_in ≡ or_else o.ttl_sec 86400)
  unfolding create_access_token
  create_access_token-type (pre_authorized_code code tx_code) o s h =
      let (proof, s1, e1, h1) =
        and_then-ok (verify_token_dpop jose proofs authz o.dpop_proof s) _ h in
      let (ids, s2, e2, h2) = and_then-ok (consume_code code tx_code s1) _ h1 in
      let (kind, lifetime) = issue_token-type code o proof ids s2 h2 in
      (
        kind ∙ ap (λ b. if b then "DPoP" else "bearer") (verify_token_dpop-some o.dpop_proof s e1),
        lifetime,
      )
  create_access_token-type authorization_code o s h = absurd (cc h)
  create_access_token-type other_grant o s h = absurd (cc h)
