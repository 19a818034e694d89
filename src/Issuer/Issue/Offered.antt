-- ===== src/Issuer/Issue/Offered.antt =====
-- From the offer to the credential: what is issued was offered.
use vcknots.Common.{
  Bool, List, Option, String, ap, arith, eq_refl, includes, or_else, some, sym, true, ℕ, ◌∙◌, ◌≡◌,
}
use vcknots.Errors.{ok}
use vcknots.Common.Map
use vcknots.Common.Number.{Number}
use vcknots.Store.Allowed
use vcknots.Store.Allowed.Expiry.{granted, fetch-granted, get-save}
use vcknots.Store.PreAuthorizedCode.{TxCode}
use vcknots.Store.PreAuthorizedCode.Trace.{CodeCall, NotSaved, run}
use vcknots.Store.PreAuthorizedCode.Trace.Kept.{run-Kept}
use vcknots.Issuer.Types.{CredentialRequest}
use vcknots.Issuer.Offer.{OfferOptions, CredentialOfferResponse, offer_credential}
use vcknots.Issuer.Offer.Redeemable.{offer_credential-IsStored}
use vcknots.Issuer.Proof.{IssueOptions, CredentialProofProvider}
use vcknots.Issuer.Issue.{IssueCredentialProvider, issue_credential}
use vcknots.Issuer.Issue.Allowed.{issue_credential-IsAdmitted}
use vcknots.Authz.Jose.{Jose}
use vcknots.Authz.DpopProof.{DpopProofOptions}
use vcknots.Authz.AccessToken.{
  pre_authorized_code, TokenRequestOptions, TokenResponse, create_access_token,
}
use vcknots.Authz.AccessToken.Redemption.{create_access_token-ok}
use vcknots.Authz.State.{Server}

-- What is granted under the key was saved under it.
granted-save :
    (key : String) (ids given : List String) (ttl : Option Number) (now now2 : ℕ)
    (m : Allowed.AllowedCredentialConfigurations)
    → granted now2 (Map.get key (Allowed.save key ids ttl now m)) ≡ some given
    → given ≡ ids
granted-save key ids given ttl now now2 m h =
    ground (arith, get-save key key ids ttl now m, eq_refl key)

module _ {Key Material : Type 0} (jose : Jose Key Material) (proofs : DpopProofOptions)
    (debug : Bool) (draws : ℕ → ℕ → ℕ → ℕ) (authz : String)
    (proof_providers : List CredentialProofProvider)
    (issue_providers : List (IssueCredentialProvider Material)) where
  -- Only what was offered is issued. Given a credential offer with a code, a token response for that
  -- code after any calls of the code store of which none saves the code again, and an authorization
  -- context with the hash of that token as its key, at a time when the store of allowed configurations
  -- still has under the key what the token response left there: then a credential is issued, by any
  -- issuer and for any request, only if the request names one of the configurations of the offer.
  pub issues_only_offered :
      (code issuer : String) (configurations : List String) (options : Option OfferOptions)
      (r : CredentialOfferResponse) (s0 s1 : Server Material) (calls : List CodeCall)
      (tx_code : Option TxCode) (o : TokenRequestOptions) (token : TokenResponse)
      (s2 s3 : Server Material) (issuer2 : String) (request : CredentialRequest)
      (issue_options : IssueOptions) (credential : String) (s4 s5 : Server Material)
      → offer_credential jose debug draws code issuer configurations options s0 ≡ (ok r, s1)
      → NotSaved code calls
      → s2.codes ≡ run s1.max_attempts calls s1.codes
      → create_access_token jose proofs authz (pre_authorized_code code tx_code) o s2
        ≡ (ok token, s3)
      → issue_options.authorization_context.allowed_credential_configuration_key
        ≡ jose.token_hash token.access_token
      → Map.get (jose.token_hash token.access_token) s4.allowed
        ≡ Map.get (jose.token_hash token.access_token) s3.allowed
      → issue_credential jose debug proof_providers issue_providers issuer2 request issue_options s4
        ≡ (ok credential, s5)
      → (id : String) × (request.credential_configuration_id ≡ some id)
        × (includes configurations id ≡ true)
  issues_only_offered code issuer configurations options r s0 s1 calls tx_code o token s2 s3 issuer2
        request issue_options credential s4 s5 offered unsaved later redeemed keyed left issued =
      let stored =
        offer_credential-IsStored jose debug draws code issuer configurations options s0 offered in
      let (_, (e, reading, found, _, saved)) =
        create_access_token-ok jose proofs authz code tx_code o s2 s3 token redeemed in
      let (e0, found0, same) =
        run-Kept s1.max_attempts code calls s1.codes e unsaved
          (ap (Map.get code) (sym later) ∙ found) in
      let (_, _, admitted, _) =
        issue_credential-IsAdmitted jose debug proof_providers issue_providers issuer2 request
          issue_options s4 s5 credential issued in
      let key = jose.token_hash token.access_token in
      let first : e0.credential_configuration_ids ≡ configurations =
        ap (λ x. (or_else x e0).credential_configuration_ids) (sym found0 ∙ stored.found)
        ∙ stored.offered.configurations_kept in
      let given : admitted.ids ≡ configurations =
        granted-save key e.credential_configuration_ids admitted.ids _ (s2.clock reading)
          (s4.clock s4.readings) s2.allowed
          (ap (λ m. granted (s4.clock s4.readings) (Map.get key m)) (sym saved)
            ∙ ap (granted (s4.clock s4.readings)) (sym left)
            ∙ sym (fetch-granted key (s4.clock s4.readings) s4.allowed)
            ∙ ap (λ k. (Allowed.fetch k (s4.clock s4.readings) s4.allowed).0) (sym keyed)
            ∙ admitted.live)
        ∙ same
        ∙ first in
      (
        admitted.id,
        admitted.requested,
        ap (λ ids. includes ids admitted.id) (sym given) ∙ admitted.allowed,
      )
