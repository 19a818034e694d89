-- ===== src/Server/Credentials/Issued.antt =====
-- What stands behind a credential that the route /credentials gives.
use vcknots.Common.{
  Bool, Bool-cases, List, Option, String, ap, arith, inl, inr, none, refl, some, sym, true, ℕ, ◌+ˢ◌,
  ◌∙◌, ◌≡◌, ◌≢◌, ◌⊎◌,
}
use vcknots.Errors.{Result, ok, err, Thrown}
use vcknots.Flow.{pure}
use vcknots.Flow.Laws.{and_then-ok, pure-ok}
use vcknots.Authz.Registration.{create_dpop_nonce_challenge}
use vcknots.Verifier.Request.{generated_nonce}
use vcknots.Common.Json.{Json}
use vcknots.Issuer.Types.{CredentialRequest, CredentialIssuerMetadata, CredentialConfiguration}
use vcknots.Issuer.Proof.{CredentialProofProvider}
use vcknots.Issuer.Issue.{IssueCredentialProvider, issue_credential}
use vcknots.Issuer.Issue.Allowed as IssueAllowed
use vcknots.Authz.Jose.{Jose}
use vcknots.Authz.DpopProof.{DpopProofOptions}
use vcknots.Authz.State.{Server}
use vcknots.Authz.Endpoint.{
  CredentialEndpointAuthorizationOptions, CredentialEndpointAuthorizationContext,
  authorize_credential_endpoint_access,
}
use vcknots.Authz.Endpoint.Modes.{IsAuthorized, authorize-IsAuthorized}
use vcknots.Server.Types.{reply}
use vcknots.Server.ErrorHandler.{handle_error, has_name}
use vcknots.Server.Callback.Replayed.{error_status-ne}
use vcknots.Server.Challenge.{Challenged, without_headers, dpop_nonce_response, dpop_nonce_ttl_ms}
use vcknots.Server.Credentials.{
  issue_options, read_request, answer_thrown, answer_unauthorized, answer_result, issue_read,
  issue_authorized, after_authorization, credentials, unauthorized, invalid_proof_response,
  nonce_demand, message_of,
}

pure-status :
    {M A : Type 0} (given : Challenged A) (s : Server M) {answer : Challenged A} {t : Server M}
    → pure given s ≡ (ok answer, t)
    → given.response.status ≢ 200
    → answer.response.status ≢ 200
pure-status {A = A} given s h ne h200 =
    ne (ap (λ (x : Challenged A). x.response.status) (pure-ok given s h).0 ∙ h200)

not_401 : ◌≢◌ {A = ℕ} 401 200
not_401 e = absurd (omega (arith, e))

demanded-ne :
    {M A : Type 0} (uuid : String) (header : Option String) (s : Server M) {answer : Challenged A}
    {t : Server M}
    → dpop_nonce_response uuid 401 nonce_demand header s ≡ (ok answer, t)
    → answer.response.status ≢ 200
unfolding dpop_nonce_response
demanded-ne uuid header s h h200 =
    let (n, s1, e, h1) =
      and_then-ok (create_dpop_nonce_challenge (generated_nonce uuid (some dpop_nonce_ttl_ms)) s) _
        h in
    pure-status _ s1 h1 not_401 h200

read_request-refused :
    (parse : Json → Option CredentialRequest) (body : Option Json) {answer : Challenged String}
    → read_request parse body ≡ inr answer
    → answer.response.status ≡ 400
unfolding read_request
read_request-refused parse body h = ground (arith, h)

answer_unauthorized-ne :
    {M : Type 0} (realm uuid : String) (e : Thrown) (s : Server M) {answer : Challenged String}
    {t : Server M}
    → answer_unauthorized realm uuid e s ≡ (ok answer, t)
    → answer.response.status ≢ 200
unfolding answer_unauthorized dpop_nonce_response answer_thrown unauthorized invalid_proof_response
answer_unauthorized-ne realm uuid e s h h200 =
    elim (Bool-cases (has_name "invalid_access_token" e)) [
      | inl a ↦
          pure-status (unauthorized realm (message_of e)) s (rw (a, answer_unauthorized) at h)
            not_401 h200
      | inr a ↦ elim (Bool-cases (has_name "invalid_dpop_proof" e)) [
        | inl b ↦
            pure-status (invalid_proof_response realm (message_of e)) s
              (rw (a, b, answer_unauthorized) at h) not_401 h200
        | inr b ↦ elim (Bool-cases (has_name "use_dpop_nonce" e)) [
          | inl c ↦ demanded-ne uuid _ s (rw (a, b, c, answer_unauthorized) at h) h200
          | inr c ↦
              pure-status (answer_thrown e) s (rw (a, b, c, answer_unauthorized) at h)
                (error_status-ne (handle_error e)) h200
        ]
      ]
    ]

ok_inj : {A : Type 0} {a b : A} → ◌≡◌ {A = Result A} (ok a) (ok b) → a ≡ b
ok_inj e = cc e

answer_result-ok :
    {M : Type 0} (result : Result String × Server M) {answer : Challenged String} {t : Server M}
    → answer_result result ≡ (ok answer, t)
    → answer.response.status ≡ 200
    → (credential : String) × (result ≡ (ok credential, t))
      × (answer ≡ without_headers (reply credential))
unfolding answer_result answer_thrown
answer_result-ok (ok a, s) h h200 = (a, λ i. (ok a, (h i).1), cc h)
answer_result-ok (err e, s) h h200 =
    elim (error_status-ne (handle_error e)
      (ap (λ (x : Challenged String). x.response.status) (ok_inj (ap (λ r. r.0) h)) ∙ h200)) [ ]

module _ {Key Material : Type 0} (jose : Jose Key Material) (debug : Bool)
    (proof_providers : List CredentialProofProvider)
    (issue_providers : List (IssueCredentialProvider Material)) (base_url : String)
    (parse : Json → Option CredentialRequest) where
  issue_read-ok :
      (context : CredentialEndpointAuthorizationContext) (body : Option Json)
      (read : CredentialRequest ⊎ Challenged String) (s t : Server Material)
      {answer : Challenged String}
      → read_request parse body ≡ read
      → issue_read jose debug proof_providers issue_providers base_url parse context read s
        ≡ (ok answer, t)
      → answer.response.status ≡ 200
      → (request : CredentialRequest) × (credential : String) × (read_request parse body
          ≡ inl request)
        × (issue_credential jose debug proof_providers issue_providers base_url request
              (issue_options context)
              s
            ≡ (ok credential, t))
        × (answer ≡ without_headers (reply credential))
  unfolding issue_read
  issue_read-ok context body (inr refusal) s t e h h200 =
      let same = ok_inj (ap (λ r. r.0) h) in
      let wrong =
        sym (read_request-refused parse body e)
        ∙ ap (λ (x : Challenged String). x.response.status) same
        ∙ h200 in
      absurd (omega (arith, wrong))
  issue_read-ok context body (inl request) s t e h h200 =
      let (credential, issued, shape) =
        answer_result-ok
          (issue_credential jose debug proof_providers issue_providers base_url request
            (issue_options context) s)
          h h200 in
      (request, credential, e, issued, shape)

  module _ (proofs : DpopProofOptions) (authz : String) where
    -- What the authorization is asked, for /credentials.
    abbrev pub endpoint_options :
        String → Option String → Option String → CredentialEndpointAuthorizationOptions
    endpoint_options method authorization_header dpop_header = record {
      alg = none;
      authorization_header = authorization_header;
      dpop_header = dpop_header;
      htm = method;
      htu = base_url +ˢ "/credentials";
      nonce_required = true;
    }

    pub record IsIssued (method : String) (authorization_header dpop_header : Option String)
        (body : Option Json) (s t : Server Material) (answer : Challenged String) : Type 0 where
      pub context : CredentialEndpointAuthorizationContext
      pub authorized :
          IsAuthorized jose proofs authz
            (endpoint_options method authorization_header dpop_header)
            s
            context
      pub request : CredentialRequest
      pub read : read_request parse body ≡ inl request
      pub credential : String
      pub given : answer ≡ without_headers (reply credential)
      pub after : Server Material
      pub reached :
          authorize_credential_endpoint_access jose proofs authz
            (endpoint_options method authorization_header dpop_header)
            s
          ≡ (ok context, after)
      pub issued :
          issue_credential jose debug proof_providers issue_providers base_url request
            (issue_options context)
            after
          ≡ (ok credential, t)
      pub metadata : CredentialIssuerMetadata
      pub configuration : CredentialConfiguration
      pub admitted :
          IssueAllowed.IsAdmitted jose debug base_url request
            (issue_options context)
            after
            metadata
            configuration

    after_authorization-IsIssued :
        (uuid method : String) (authorization_header dpop_header : Option String)
        (body : Option Json)
        (result : Result CredentialEndpointAuthorizationContext × Server Material)
        (s t : Server Material) (answer : Challenged String)
        → authorize_credential_endpoint_access jose proofs authz
            (endpoint_options method authorization_header dpop_header)
            s
          ≡ result
        → after_authorization jose debug proof_providers issue_providers base_url parse uuid body
            result
          ≡ (ok answer, t)
        → answer.response.status ≡ 200
        → IsIssued method authorization_header dpop_header body s t answer
    unfolding after_authorization issue_authorized
    after_authorization-IsIssued uuid method authorization_header dpop_header body (err e, s1) s t
          answer authorized h h200 =
        elim (answer_unauthorized-ne base_url uuid e s1 h h200) [ ]
    after_authorization-IsIssued uuid method authorization_header dpop_header body (ok context, s1)
          s t answer authorized h h200 =
        let (request, credential, read, issued, shape) =
          issue_read-ok context body (read_request parse body) s1 t refl h h200 in
        let (metadata, configuration, admitted, _) =
          IssueAllowed.issue_credential-IsAdmitted jose debug proof_providers issue_providers
            base_url request (issue_options context) s1 t credential issued in
        record {
          context = context;
          authorized =
              authorize-IsAuthorized jose proofs authz
                (endpoint_options method authorization_header dpop_header) s authorized;
          request = request;
          read = read;
          credential = credential;
          given = shape;
          after = s1;
          reached = authorized;
          issued = issued;
          metadata = metadata;
          configuration = configuration;
          admitted = admitted;
        }

    -- The route /credentials answers with status 200 only for an access token that the credential
    -- endpoint authorizes, presented as the DPoP mode of its client demands, and a body that parses to a
    -- request for a configuration that the issuer has and that the token allows at the time; the answer
    -- is the credential.
    pub credentials-IsIssued :
        (uuid method : String) (authorization_header dpop_header : Option String)
        (body : Option Json) (s t : Server Material) (answer : Challenged String)
        → credentials jose debug proof_providers issue_providers base_url parse proofs authz uuid
            method authorization_header dpop_header body s
          ≡ (ok answer, t)
        → answer.response.status ≡ 200
        → IsIssued method authorization_header dpop_header body s t answer
    unfolding credentials
    credentials-IsIssued uuid method authorization_header dpop_header body s t answer h h200 =
        after_authorization-IsIssued uuid method authorization_header dpop_header body
          (authorize_credential_endpoint_access jose proofs authz
            (endpoint_options method authorization_header dpop_header) s)
          s t answer refl h h200
