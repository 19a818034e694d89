-- ===== src/Server/Credentials.antt =====
-- server/core/src/routes/issue.ts: the routes /credentials, /nonce and /nonce/:nonce. The schema of the
-- request is a parameter; nonces are generated.
pub mod Issued
use vcknots.Common.{
  Bool, List, Option, String, false, if◌then◌else◌, inl, inr, none, some, true, zero, ℕ, ◌*◌, ◌+ˢ◌,
  ◌=ˢ◌, ◌⊎◌,
}
use vcknots.Errors.{Result, ok, err, Thrown}
use vcknots.Flow.{Flow, pure, lift, ◌>>=◌, ◌>>◌}
use vcknots.Common.Int.{ℤ, pos}
use vcknots.Common.Json.{Json, null, bool, num, str, obj, Fields, end, field}
use vcknots.Issuer.Types.{CredentialRequest}
use vcknots.Issuer.Proof.{IssueOptions, CredentialProofProvider}
use vcknots.Issuer.Issue.{
  IssueCredentialProvider, issue_credential, create_nonce, validate_issued_nonce,
  revoke_issued_nonce,
}
use vcknots.Authz.Types.{DpopMode, off}
use vcknots.Authz.Policy.{default_client, resolve_authz_policy_dpop_mode}
use vcknots.Authz.Jose.{Jose}
use vcknots.Authz.DpopProof.{DpopProofOptions}
use vcknots.Authz.State.{Action, Server, fetch_policy}
use vcknots.Authz.Endpoint.{
  CredentialEndpointAuthorizationOptions, CredentialEndpointAuthorizationContext,
  authorize_credential_endpoint_access,
}
use vcknots.Verifier.Request.{generated_nonce}
use vcknots.Server.Types.{ErrorBody, Response, refuse, reply}
use vcknots.Server.ErrorHandler.{handle_error, error_status, has_name, code_name}
use vcknots.Server.Challenge.{
  ChallengeOptions, Challenged, without_headers, build_bearer_authenticate_header,
  build_dpop_authenticate_header, dpop_nonce_response, dpop_nonce_ttl_ms,
}

-- `issueClaimsSample`
abbrev pub issue_claims_sample : Fields
issue_claims_sample = field "given_name" (str "test") (
    field "family_name" (str "taro") (
      field "degree" (str "5") (
        field "gpa" (str "test") (
          field "address" (obj (field "country" (str "fuga") (field "region" (str "xyz") end)))
            end))))

abbrev pub c_nonce_ttl_ms : ℕ
c_nonce_ttl_ms = 2 * 60 * 1000

-- The challenge with an error and its description.
abbrev pub challenge : String → String → String → ChallengeOptions
challenge realm error description = record {
  realm = realm;
  error = some error;
  error_description = some description;
  error_uri = none;
  scope = none;
}

-- `unauthorized`, with the challenge `invalid_token`, and `invalidDpopProof`.
unfoldable pub unauthorized : {A : Type 0} → String → String → Challenged A
unfolding build_bearer_authenticate_header
unauthorized realm description = record {
  response = refuse 401 (record { error = "invalid_token"; error_description = description });
  dpop_nonce = none;
  www_authenticate =
      some (build_bearer_authenticate_header (challenge realm "invalid_token" description));
}

unfoldable pub invalid_proof_response : {A : Type 0} → String → String → Challenged A
unfolding build_dpop_authenticate_header
invalid_proof_response realm description = record {
  response = refuse 401 (record { error = "invalid_dpop_proof"; error_description = description });
  dpop_nonce = none;
  www_authenticate =
      some (build_dpop_authenticate_header (challenge realm "invalid_dpop_proof" description));
}

abbrev pub nonce_demand : String
nonce_demand = "Credential issuer requires nonce in DPoP proof."

-- `err.message`
abbrev pub message_of : Thrown → String
message_of e = (handle_error e).error_description

-- An error that no `catch` of a route but its last one looks at.
unfoldable pub answer_thrown : {A : Type 0} → Thrown → Challenged A
unfolding handle_error
answer_thrown e = let body = handle_error e in without_headers (refuse (error_status body) body)

-- The inner `catch`, for the errors of the authorization.
unfoldable pub answer_unauthorized :
    {M A : Type 0} → String → String → Thrown → Action M (Challenged A)
unfolding unauthorized invalid_proof_response dpop_nonce_response build_dpop_authenticate_header
    answer_thrown handle_error code_name
answer_unauthorized realm uuid e =
    if has_name "invalid_access_token" e
    then pure (unauthorized realm (message_of e))
    else if has_name "invalid_dpop_proof" e
    then pure (invalid_proof_response realm (message_of e))
    else if has_name "use_dpop_nonce" e
    then dpop_nonce_response uuid 401 nonce_demand
        (some (build_dpop_authenticate_header (challenge realm "use_dpop_nonce" nonce_demand)))
    else pure (answer_thrown e)

-- `!request`: no JSON, or a value that counts as false.
abbrev pub given_body : Option Json → Option Json
given_body none = none
given_body (some null) = none
given_body (some (bool false)) = none
given_body (some (num (pos zero))) = none
given_body (some (str s)) = if s =ˢ "" then none else some (str s)
given_body (some value) = some value

abbrev pub bad_credential_request : {A : Type 0} → String → Challenged A
bad_credential_request description =
    without_headers (
      refuse 400 (record { error = "invalid_credential_request"; error_description = description }))

-- The request, parsed, or the answer to one that does not parse.
unfoldable pub read_request :
    (Json → Option CredentialRequest) → Option Json → CredentialRequest ⊎ Challenged String
read_request parse body = elim (given_body body) [
  | none ↦ inr (bad_credential_request "Request body must be a valid JSON.")
  | some value ↦ elim (parse value) [
    | none ↦
        inr (bad_credential_request "Request body does not conform to CredentialRequest schema.")
    | some request ↦ inl request
  ]
]

abbrev pub issue_options : CredentialEndpointAuthorizationContext → IssueOptions
issue_options context = record {
  authorization_context = context;
  alg = "ES256";
  cnonce = true;
  claims = some issue_claims_sample;
  subject = none;
  use_pre_auth = true;
}

-- What the flow gives or throws, as an answer.
unfoldable pub answer_result :
    {M A : Type 0} → Result A × Server M → Result (Challenged A) × Server M
unfolding answer_thrown
answer_result (ok a, s) = (ok (without_headers (reply a)), s)
answer_result (err e, s) = (ok (answer_thrown e), s)

module _ {Key Material : Type 0} (jose : Jose Key Material) (debug : Bool)
    (proof_providers : List CredentialProofProvider)
    (issue_providers : List (IssueCredentialProvider Material)) (base_url : String)
    (parse : Json → Option CredentialRequest) where
  -- From the parsed request on.
  unfoldable pub issue_read :
      CredentialEndpointAuthorizationContext
      → CredentialRequest ⊎ Challenged String
      → Action Material (Challenged String)
  unfolding issue_credential answer_result
  issue_read context (inr answer) s = (ok answer, s)
  issue_read context (inl request) s = answer_result (
      issue_credential jose debug proof_providers issue_providers base_url request
        (issue_options context) s)

  -- From the authorization on.
  unfoldable pub issue_authorized :
      Option Json → CredentialEndpointAuthorizationContext → Action Material (Challenged String)
  unfolding read_request issue_read
  issue_authorized body context s = issue_read context (read_request parse body) s

  unfoldable pub after_authorization :
      String
      → Option Json
      → Result CredentialEndpointAuthorizationContext × Server Material
      → Result (Challenged String) × Server Material
  unfolding issue_authorized answer_unauthorized
  after_authorization uuid body (ok context, s) = issue_authorized body context s
  after_authorization uuid body (err e, s) = answer_unauthorized base_url uuid e s

  -- /credentials, with the methods and headers of its request.
  unfoldable pub credentials :
      DpopProofOptions
      → String
      → String
      → String
      → Option String
      → Option String
      → Option Json
      → Action Material (Challenged String)
  unfolding authorize_credential_endpoint_access after_authorization
  credentials proofs authz uuid method authorization_header dpop_header body s =
      after_authorization uuid body (
        authorize_credential_endpoint_access jose proofs authz
          (record {
            alg = none;
            authorization_header = authorization_header;
            dpop_header = dpop_header;
            htm = method;
            htu = base_url +ˢ "/credentials";
            nonce_required = true;
          })
          s)

abbrev pub is_off : DpopMode → Bool
is_off off = true
is_off _ = false

module _ {M : Type 0} where
  -- /nonce: a nonce for a proof and, unless the mode of the registered clients is `off`, one for a DPoP
  -- proof.
  unfoldable pub nonce_steps : String → String → String → Action M (String × Option String)
  unfolding create_nonce fetch_policy resolve_authz_policy_dpop_mode
  nonce_steps authz uuid dpop_uuid = do
    cnonce ← create_nonce (generated_nonce uuid (some c_nonce_ttl_ms))
    policy ← fetch_policy authz
    if is_off (resolve_authz_policy_dpop_mode policy default_client none)
        then pure (cnonce, none)
        else (create_nonce (generated_nonce dpop_uuid (some dpop_nonce_ttl_ms)) >>= λ dpop_nonce.
            pure (cnonce, some dpop_nonce))

  -- DELETE /nonce/:nonce
  unfoldable pub delete_nonce : String → Action M (Response Bool)
  unfolding revoke_issued_nonce
  delete_nonce nonce = do
    deleted ← revoke_issued_nonce nonce
    pure (
        if deleted
        then reply true
        else refuse 404 (record { error = "not_found"; error_description = "Nonce not found." }))

  -- GET /nonce/:nonce
  unfoldable pub check_nonce : String → Action M (Response Bool)
  unfolding validate_issued_nonce
  check_nonce nonce = do valid ← validate_issued_nonce nonce; pure (reply valid)
