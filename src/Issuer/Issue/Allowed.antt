-- ===== src/Issuer/Issue/Allowed.antt =====
-- What is known of a request for which a credential is issued.
use vcknots.Common.{
  Bool, List, String, ap, includes, is_some, not, some, sym, true, ◌&&◌, ◌=ˢ◌, ◌∙◌, ◌≡◌,
}
use vcknots.Errors.{ok}
use vcknots.Common.Map
use vcknots.Providers.{select_provider}
use vcknots.Flow.{guard, or_throw}
use vcknots.Flow.Laws.{and_then-ok, or_throw-ok, guard-ok, pure-ok}
use vcknots.Store.Allowed
use vcknots.Issuer.Types.{CredentialConfiguration, CredentialIssuerMetadata, CredentialRequest}
use vcknots.Issuer.Metadata.{require_issuer_metadata}
use vcknots.Issuer.Metadata.Found.{require_issuer_metadata-ok}
use vcknots.Issuer.Uri.{is_valid_subject}
use vcknots.Issuer.Proof.{IssueOptions, CredentialProofProvider, ProofJwt, verify_request_proofs}
use vcknots.Issuer.Issue.{
  IssueCredentialProvider, requested_configuration, check_allowed, admitted_configuration,
  issue_credential,
}
use vcknots.Authz.Jose.{Jose}
use vcknots.Authz.AccessToken.{truthy}
use vcknots.Authz.State.{Server}

module _ {M : Type 0} where
  -- The configuration that is named is known to the metadata.
  requested_configuration-ok :
      (m : CredentialIssuerMetadata) (r : CredentialRequest) (s : Server M) {id : String}
      {c : CredentialConfiguration} {t : Server M}
      → requested_configuration m r s ≡ (ok (id, c), t)
      → (r.credential_configuration_id ≡ some id)
        × (Map.get id m.credential_configurations_supported ≡ some c)
        × (s ≡ t)
  unfolding requested_configuration
  requested_configuration-ok m r s h =
      let (_, s1, e1, h1) =
        and_then-ok
          (guard (not (is_some r.credential_identifier && is_some r.credential_configuration_id)) _
            _ s)
          _ h in
      let (_, s2, e2, h2) =
        and_then-ok (guard (not (is_some r.credential_identifier)) _ _ s1) _ h1 in
      let (id, s3, e3, h3) = and_then-ok (or_throw r.credential_configuration_id _ _ s2) _ h2 in
      let (c, s4, e4, h4) =
        and_then-ok (or_throw (Map.get id m.credential_configurations_supported) _ _ s3) _ h3 in
      let (same, end) = pure-ok (id, c) s4 h4 in
      let (named, a3) = or_throw-ok r.credential_configuration_id _ _ s2 e3 in
      let (known, a4) = or_throw-ok (Map.get id m.credential_configurations_supported) _ _ s3 e4 in
      (
        named ∙ ap (λ p. some p.0) same,
        ap (λ p. Map.get p.0 m.credential_configurations_supported) (sym same)
            ∙ known
            ∙ ap (λ p. some p.1) same,
        (guard-ok _ _ _ s e1).1 ∙ (guard-ok _ _ _ s1 e2).1 ∙ a3 ∙ a4 ∙ end,
      )

  -- The configuration is among those that the store gives for the key.
  check_allowed-ok :
      (key id : String) (s : Server M) {u : Unit {0}} {t : Server M}
      → check_allowed key id s ≡ (ok u, t)
      → (ids : List String) × ((Allowed.fetch key (s.clock s.readings) s.allowed).0 ≡ some ids)
        × (includes ids id ≡ true)
  unfolding check_allowed
  check_allowed-ok key id s h =
      let (_, s1, e1, h1) = and_then-ok (guard (not (key =ˢ "")) _ _ s) _ h in
      let (ids, s2, e2, h2) =
        and_then-ok (or_throw (Allowed.fetch key (s1.clock s1.readings) s1.allowed).0 _ _ _) _ h1 in
      let here = (guard-ok _ _ _ s e1).1 in
      (
        ids,
        ap (λ u. (Allowed.fetch key (u.clock u.readings) u.allowed).0) here
            ∙ (or_throw-ok _ _ _ _ e2).0,
        (guard-ok (includes ids id) _ _ s2 h2).0,
      )

module _ {Key Material : Type 0} (jose : Jose Key Material) (debug : Bool) where
  pub record IsAdmitted (issuer : String) (request : CredentialRequest) (options : IssueOptions)
      (s : Server Material) (metadata : CredentialIssuerMetadata)
      (configuration : CredentialConfiguration) : Type 0 where
    pub valid_subject : is_valid_subject (truthy options.subject) ≡ true
    pub known : Map.get issuer s.issuers ≡ some metadata
    pub id : String
    pub requested : request.credential_configuration_id ≡ some id
    pub supported : Map.get id metadata.credential_configurations_supported ≡ some configuration
    pub ids : List String
    pub live :
        (Allowed.fetch options.authorization_context.allowed_credential_configuration_key
          (s.clock s.readings)
          s.allowed).0
        ≡ some ids
    pub allowed : includes ids id ≡ true

  admitted_configuration-IsAdmitted :
      (issuer : String) (request : CredentialRequest) (options : IssueOptions) (s : Server Material)
      {m : CredentialIssuerMetadata} {c : CredentialConfiguration} {t : Server Material}
      → admitted_configuration jose debug issuer request options s ≡ (ok (m, c), t)
      → IsAdmitted issuer request options s m c
  unfolding admitted_configuration
  admitted_configuration-IsAdmitted issuer request options s h =
      let (_, s1, e1, h1) =
        and_then-ok (guard (is_valid_subject (truthy options.subject)) _ _ s) _ h in
      let (metadata, s2, e2, h2) =
        and_then-ok (require_issuer_metadata jose debug issuer s1) _ h1 in
      let ((id, configuration), s3, e3, h3) =
        and_then-ok (requested_configuration metadata request s2) _ h2 in
      let (_, s4, e4, h4) =
        and_then-ok
          (check_allowed options.authorization_context.allowed_credential_configuration_key id s3) _
          h3 in
      let (valid, a1) = guard-ok (is_valid_subject (truthy options.subject)) _ _ s e1 in
      let (known, _, a2) = require_issuer_metadata-ok jose debug issuer s1 e2 in
      let (named, supported, a3) = requested_configuration-ok metadata request s2 e3 in
      let (ids, live, allowed) =
        check_allowed-ok options.authorization_context.allowed_credential_configuration_key id s3
          e4 in
      let (same, _) = pure-ok (metadata, configuration) s4 h4 in
      record {
        valid_subject = valid;
        known = ap (λ u. Map.get issuer u.issuers) a1 ∙ known ∙ ap (λ p. some p.0) same;
        id = id;
        requested = named;
        supported =
            ap (λ p. Map.get id p.0.credential_configurations_supported) (sym same)
            ∙ supported
            ∙ ap (λ p. some p.1) same;
        ids = ids;
        live =
            ap
              (λ u.
                (Allowed.fetch options.authorization_context.allowed_credential_configuration_key
                  (u.clock u.readings) u.allowed).0)
              (a1 ∙ a2 ∙ a3)
            ∙ live;
        allowed = allowed;
      }

  module _ (proof_providers : List CredentialProofProvider)
      (issue_providers : List (IssueCredentialProvider Material)) where
    -- The last proof of the request was verified.
    pub record IsProved (request : CredentialRequest) (options : IssueOptions)
        (metadata : CredentialIssuerMetadata) (configuration : CredentialConfiguration)
        : Type 0 where
      pub before : Server Material
      pub after : Server Material
      pub proof : ProofJwt
      pub verified :
          verify_request_proofs proof_providers options metadata configuration request.proofs before
          ≡ (ok (some proof), after)

    -- A credential is issued only where the options name no subject or a URI as the subject, the issuer
    -- is registered, the request names a configuration of the issuer's metadata that the store of allowed
    -- configurations gives for the key of the authorization context, and the proofs of the request
    -- were verified, at least one of them.
    pub issue_credential-IsAdmitted :
        (issuer : String) (request : CredentialRequest) (options : IssueOptions)
        (s t : Server Material) (credential : String)
        → issue_credential jose debug proof_providers issue_providers issuer request options s
          ≡ (ok credential, t)
        → (metadata : CredentialIssuerMetadata) × (configuration : CredentialConfiguration)
          × IsAdmitted issuer request options s metadata configuration
          × IsProved request options metadata configuration
    unfolding issue_credential
    issue_credential-IsAdmitted issuer request options s t credential h =
        let ((m, c), s1, e1, h1) =
          and_then-ok (admitted_configuration jose debug issuer request options s) _ h in
        let (provider, s2, e2, h2) =
          and_then-ok (select_provider (λ p. p.can_handle c.format) issue_providers _ s1) _ h1 in
        let (last, s3, e3, h3) =
          and_then-ok (verify_request_proofs proof_providers options m c request.proofs s2) _ h2 in
        let (proof, s4, e4, h4) = and_then-ok (or_throw last _ _ s3) _ h3 in
        (
          m,
          c,
          admitted_configuration-IsAdmitted issuer request options s e1,
          record {
            before = s2;
            after = s3;
            proof = proof;
            verified = e3 ∙ ap (λ l. (ok l, s3)) (or_throw-ok last _ _ s3 e4).0;
          },
        )
