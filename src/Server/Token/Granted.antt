-- ===== src/Server/Token/Granted.antt =====
-- What stands behind a token that the route /token gives, and behind a challenge.
use vcknots.Common.{
  Bool-cases, Option, String, ap, arith, false, if◌then◌else◌, inl, inr, is_some, none, or_else,
  refl, some, sym, true, ◌+ˢ◌, ◌∙◌, ◌≡◌, ◌≢◌,
}
use vcknots.Errors.{Result, ok, err}
use vcknots.Flow.{lift, pure}
use vcknots.Flow.Laws.{and_then-ok, pure-ok, lift-ok}
use vcknots.Headers.{ParsedDpopHeader, parse_dpop_header, proof_jwt}
use vcknots.Authz.Types.{DpopMode, off, optional, required}
use vcknots.Authz.Jose.{Jose}
use vcknots.Authz.DpopProof.{DpopProofOptions}
use vcknots.Authz.State.{Server}
use vcknots.Authz.Request.{RequestData}
use vcknots.Authz.Policy.{ClientContext}
use vcknots.Authz.TokenPolicy.{
  TokenRequestPolicyClientResolution, accepted, rejected, resolve_token_request_client_policy,
}
use vcknots.Authz.AccessToken.{
  TokenRequest, TokenRequestOptions, TokenResponse, create_access_token,
}
use vcknots.Authz.AccessToken.Kind.{create_access_token-type}
use vcknots.Server.Types.{refuse, reply}
use vcknots.Server.ErrorHandler.{handle_error, has_name}
use vcknots.Authz.Registration.{create_dpop_nonce_challenge}
use vcknots.Verifier.Request.{generated_nonce}
use vcknots.Server.Callback.Replayed.{error_status-ne}
use vcknots.Server.Challenge.{Challenged, without_headers, dpop_nonce_response, dpop_nonce_ttl_ms}
use vcknots.Server.Token.{
  header_refused, header_error, token_options, catch_token, grant_parsed, grant_token, token_steps,
  token,
}

ok_inj : {A : Type 0} {a b : A} → ◌≡◌ {A = Result A} (ok a) (ok b) → a ≡ b
ok_inj e = cc e

abbrev resolved_as :
    {M : Type 0}
    → TokenRequestPolicyClientResolution
    → Server M
    → Result TokenRequestPolicyClientResolution × Server M
resolved_as x s = (ok x, s)

module _ {Key Material : Type 0} (jose : Jose Key Material) (proofs : DpopProofOptions)
    (base_url : String) (parse_request : RequestData → Option TokenRequest) where
  -- What a token is made with, its type and its lifetime, by the mode of the client and the header.
  pub data IsToken (method : String) (options : TokenRequestOptions) (r : TokenResponse)
      : DpopMode → ParsedDpopHeader → Type 0 where
    bound :
        {mode : DpopMode} {proof : String}
        → mode ≢ off
        → options.dpop_proof
          ≡ some (record {
            proof_jwt = proof;
            htm = method;
            htu = base_url +ˢ "/token";
            nonce_required = true;
          })
        → r.token_type ≡ "DPoP"
        → r.expires_in ≡ 86400
        → IsToken method options r mode (proof_jwt proof)
    unproved :
        options.dpop_proof ≡ none
        → r.token_type ≡ "bearer"
        → r.expires_in ≡ 1800
        → IsToken method options r optional ParsedDpopHeader.missing
    unprotected :
        {header : ParsedDpopHeader}
        → options.dpop_proof ≡ none
        → r.token_type ≡ "bearer"
        → r.expires_in ≡ 1800
        → IsToken method options r off header

  -- What stands behind a token.
  pub record IsGranted (method : String) (dpop_header : Option String) (data_of : RequestData)
      (s t : Server Material) (r : TokenResponse) : Type 0 where
    pub context : ClientContext
    pub mode : DpopMode
    pub after : Server Material
    pub admitted :
        resolve_token_request_client_policy jose base_url data_of s
        ≡ (ok (accepted context mode), after)
    pub request : TokenRequest
    pub parsed : parse_request data_of ≡ some request
    pub options : TokenRequestOptions
    pub client : options.client_id ≡ context.client_id
    pub granted : create_access_token jose proofs base_url request options after ≡ (ok r, t)
    pub kind : IsToken method options r mode (parse_dpop_header dpop_header)

  options_client :
      (method : String) (client_id : Option String) (mode : DpopMode) (header : ParsedDpopHeader)
      → (token_options base_url method client_id mode header).client_id ≡ client_id
  options_client method client_id off header = refl
  options_client method client_id optional (proof_jwt p) = refl
  options_client method client_id optional ParsedDpopHeader.missing = refl
  options_client method client_id optional ParsedDpopHeader.duplicate = refl
  options_client method client_id optional ParsedDpopHeader.malformed = refl
  options_client method client_id required (proof_jwt p) = refl
  options_client method client_id required ParsedDpopHeader.missing = refl
  options_client method client_id required ParsedDpopHeader.duplicate = refl
  options_client method client_id required ParsedDpopHeader.malformed = refl

  options-IsToken :
      (method : String) (client_id : Option String) (mode : DpopMode) (header : ParsedDpopHeader)
      (r : TokenResponse)
      → header_refused mode header ≡ false
      → (r.token_type ≡ (
          if is_some (token_options base_url method client_id mode header).dpop_proof
          then "DPoP"
          else "bearer"))
      → (r.expires_in ≡ or_else (token_options base_url method client_id mode header).ttl_sec 86400)
      → IsToken method (token_options base_url method client_id mode header) r mode header
  unfolding header_refused
  options-IsToken method client_id off header r fits kind lasts = unprotected refl kind lasts
  options-IsToken method client_id optional (proof_jwt p) r fits kind lasts =
      bound (λ e. cc e) refl kind lasts
  options-IsToken method client_id optional ParsedDpopHeader.missing r fits kind lasts =
      unproved refl kind lasts
  options-IsToken method client_id optional ParsedDpopHeader.duplicate r fits kind lasts =
      absurd (cc fits)
  options-IsToken method client_id optional ParsedDpopHeader.malformed r fits kind lasts =
      absurd (cc fits)
  options-IsToken method client_id required (proof_jwt p) r fits kind lasts =
      bound (λ e. cc e) refl kind lasts
  options-IsToken method client_id required ParsedDpopHeader.missing r fits kind lasts =
      absurd (cc fits)
  options-IsToken method client_id required ParsedDpopHeader.duplicate r fits kind lasts =
      absurd (cc fits)
  options-IsToken method client_id required ParsedDpopHeader.malformed r fits kind lasts =
      absurd (cc fits)

  refused-ne :
      {A : Type 0} {M : Type 0} (answer : Challenged A) (s : Server M) {a : Challenged A}
      {t : Server M}
      → pure answer s ≡ (ok a, t)
      → answer.response.status ≡ 400
      → a.response.status ≢ 200
  refused-ne {A = A} answer s h status h200 =
      let same = ap (λ (x : Challenged A). x.response.status) (pure-ok answer s h).0 in
      let wrong = sym status ∙ same ∙ h200 in absurd (omega (arith, wrong))

  grant_parsed-ok :
      (options : TokenRequestOptions) (parsed : Option TokenRequest) (s t : Server Material)
      {answer : Challenged TokenResponse}
      → grant_parsed jose proofs base_url parse_request options parsed s ≡ (ok answer, t)
      → answer.response.status ≡ 200
      → (request : TokenRequest) × (r : TokenResponse) × (parsed ≡ some request)
        × (create_access_token jose proofs base_url request options s ≡ (ok r, t))
        × (answer ≡ without_headers (reply r))
  unfolding grant_parsed
  grant_parsed-ok options none s t h h200 = elim (refused-ne _ s h refl h200) [ ]
  grant_parsed-ok options (some request) s t h h200 =
      let (r, s1, e, h1) =
        and_then-ok (create_access_token jose proofs base_url request options s) _ h in
      let (same, end) = pure-ok (without_headers (reply r)) s1 h1 in
      (request, r, refl, e ∙ ap (λ (u : Server Material). made r u) end, sym same)
    where
      made : TokenResponse → Server Material → Result TokenResponse × Server Material
      made r u = (ok r, u)

  grant_token-ok :
      (method : String) (request_data : RequestData) (header : ParsedDpopHeader)
      (resolution : TokenRequestPolicyClientResolution) (s t : Server Material)
      {answer : Challenged TokenResponse}
      → grant_token jose proofs base_url parse_request method request_data header resolution s
        ≡ (ok answer, t)
      → answer.response.status ≡ 200
      → (context : ClientContext) × (mode : DpopMode) × (request : TokenRequest)
        × (r : TokenResponse) × (resolution ≡ accepted context mode)
        × (parse_request request_data ≡ some request)
        × (create_access_token jose proofs base_url request
              (token_options base_url method context.client_id mode header)
              s
            ≡ (ok r, t))
        × IsToken method (token_options base_url method context.client_id mode header) r mode header
        × (answer ≡ without_headers (reply r))
  unfolding grant_token
  grant_token-ok method request_data header (rejected description id) s t h h200 =
      elim (refused-ne _ s h refl h200) [ ]
  grant_token-ok method request_data header (accepted context mode) s t h h200 =
      elim (Bool-cases (header_refused mode header)) [
        | inl e ↦
            elim (refused-ne (without_headers (refuse 400 (header_error header))) s
              (rw (e, grant_token) at h) refl h200) [ ]
        | inr e ↦
            let options = token_options base_url method context.client_id mode header in
            let (request, r, parsed, granted, same) =
              grant_parsed-ok options (parse_request request_data) s t (rw (e, grant_token) at h)
                h200 in
            let (kind, lasts) =
              create_access_token-type jose proofs base_url request options s granted in
            (
              context,
              mode,
              request,
              r,
              refl,
              parsed,
              granted,
              options-IsToken method context.client_id mode header r e kind lasts,
              same,
            )
      ]

  -- A challenge is no token.
  challenged-ne :
      (uuid : String) (s : Server Material) {answer : Challenged TokenResponse}
      {t : Server Material}
      → dpop_nonce_response uuid 400 "Authorization server requires nonce in DPoP proof." none s
        ≡ (ok answer, t)
      → answer.response.status ≢ 200
  unfolding dpop_nonce_response
  challenged-ne uuid s h h200 =
      let (n, s1, e, h1) =
        and_then-ok (create_dpop_nonce_challenge (generated_nonce uuid (some dpop_nonce_ttl_ms)) s)
          _ h in
      refused-ne _ s1 h1 refl h200

  catch_token-ok :
      (uuid : String) (result : Result (Challenged TokenResponse) × Server Material)
      (t : Server Material) {answer : Challenged TokenResponse}
      → catch_token uuid result ≡ (ok answer, t)
      → answer.response.status ≡ 200
      → result ≡ (ok answer, t)
  unfolding catch_token
  catch_token-ok uuid (ok a, s) t h h200 = h
  catch_token-ok uuid (err e, s) t h h200 = elim (Bool-cases (has_name "use_dpop_nonce" e)) [
    | inl demanded ↦ elim (challenged-ne uuid s (rw (demanded, catch_token) at h) h200) [ ]
    | inr other ↦
        let plain = rw (other, catch_token) at h in
        elim (error_status-ne (handle_error e) (
          ap (λ (x : Challenged TokenResponse). x.response.status) (ok_inj (ap (λ r. r.0) plain))
          ∙ h200)) [ ]
  ]

  -- A token is given only to a client that the policy admits, for a request that parses, and it is the
  -- one that `createAccessToken` makes for this client, with or without a proof. If the mode is not
  -- `off` and the request has a DPoP proof, it is made with this proof, for the method of the request
  -- and the token endpoint and with a nonce required, has the type DPoP and lasts a day. If the mode is
  -- `off`, or is `optional` and the request has no DPoP header, it is made without a proof, is a bearer
  -- token and lasts half an hour. In every other case no token is given.
  pub token-IsGranted :
      (uuid method : String) (dpop_header : Option String) (form : Result RequestData)
      (s t : Server Material) (answer : Challenged TokenResponse)
      → token jose proofs base_url parse_request uuid method dpop_header form s ≡ (ok answer, t)
      → answer.response.status ≡ 200
      → (request_data : RequestData) × (r : TokenResponse) × (form ≡ ok request_data)
        × (answer ≡ without_headers (reply r))
        × IsGranted method dpop_header request_data s t r
  unfolding token token_steps
  token-IsGranted uuid method dpop_header form s t answer h h200 =
      let steps = catch_token-ok uuid _ t h h200 in
      let (request_data, s1, e1, h1) = and_then-ok (lift form s) _ steps in
      let (read, same) = lift-ok form s e1 in
      let (resolution, s2, e2, h2) =
        and_then-ok (resolve_token_request_client_policy jose base_url request_data s1) _ h1 in
      let (context, mode, request, r, resolved, parsed, granted, kind, shape) =
        grant_token-ok method request_data (parse_dpop_header dpop_header) resolution s2 t h2
          h200 in
      (
        request_data,
        r,
        read,
        shape,
        record {
          context = context;
          mode = mode;
          after = s2;
          admitted =
              ap (resolve_token_request_client_policy jose base_url request_data) same
              ∙ e2
              ∙ ap (λ x. resolved_as x s2) resolved;
          request = request;
          parsed = parsed;
          options =
              token_options base_url method context.client_id mode (parse_dpop_header dpop_header);
          client = options_client method context.client_id mode (parse_dpop_header dpop_header);
          granted = granted;
          kind = kind;
        },
      )
