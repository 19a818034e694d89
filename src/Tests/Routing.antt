-- ===== src/Tests/Routing.antt =====
-- The theorems on the routes for tokens and credentials, at concrete inputs: a token without a proof,
-- and a credential for it.
use vcknots.Common.{Option, String, [], includes, none, refl, some, true, ◌∷◌, ◌≡◌}
use vcknots.Errors.{ok}
use vcknots.Common.Map
use vcknots.Common.Json.{Json, str, obj, end, member}
use vcknots.Store.PreAuthorizedCode
use vcknots.Store.Nonce
use vcknots.Authz.State.{Server}
use vcknots.Authz.Request.{RequestData, get_token_request_client_id}
use vcknots.Authz.Policy.{mode_of_constraint, resolve_authz_policy_dpop_mode}
use vcknots.Authz.AccessToken.{TokenRequest, pre_authorized_code, TokenResponse}
use vcknots.Server.Types.{reply}
use vcknots.Server.Challenge.{without_headers}
use vcknots.Server.Token.{token}
use vcknots.Server.Token.Granted
use vcknots.Store.Allowed
use vcknots.Issuer.Types.{CredentialRequest}
use vcknots.Server.Credentials.{read_request, credentials}
use vcknots.Server.Credentials.Issued
use vcknots.Tests.Flows.{jose, proofs, server}
use vcknots.Tests.Issuing.{metadata, proof_provider, issue_provider, request}

abbrev form : RequestData
form =
    ("grant_type", str "urn:ietf:params:oauth:grant-type:pre-authorized_code")
    ∷ ("pre-authorized_code", str "k")
    ∷ []

abbrev parse_request : RequestData → Option TokenRequest
parse_request _ = some (pre_authorized_code "k" none)

abbrev answer : TokenResponse
answer = record { access_token = "e.e.s"; token_type = "bearer"; expires_in = 1800 }

abbrev after_token : Server String
after_token = (token jose proofs "as" parse_request "uuid" "POST" none (ok form) server).1

token_answered :
    token jose proofs "as" parse_request "uuid" "POST" none (ok form) server
    ≡ (ok (without_headers (reply answer)), after_token)
unfolding token get_token_request_client_id Map.get resolve_authz_policy_dpop_mode
    PreAuthorizedCode.consume
token_answered = refl

token-IsGranted_example :
    (request_data : RequestData) × (r : TokenResponse) × (ok form ≡ ok request_data)
    × (without_headers (reply answer) ≡ without_headers (reply r))
    × Granted.IsGranted jose proofs "as" parse_request "POST" none request_data server after_token r
token-IsGranted_example =
    Granted.token-IsGranted jose proofs "as" parse_request "uuid" "POST" none (ok form) server
      after_token (without_headers (reply answer)) token_answered refl

abbrev issuing : Server String
issuing = record server {
  issuers = ("i", metadata) ∷ [];
  nonces =
      ("n", record { nonce = record { nonce = "n"; nonce_expires_in = none }; expires_at = 500 })
      ∷ [];
  allowed = Allowed.save "h.p.s" ("c" ∷ []) none 0 [];
}

abbrev parse : Json → Option CredentialRequest
parse body = some request

abbrev after_issue : Server String
after_issue =
    (credentials jose true (proof_provider ∷ []) (issue_provider ∷ []) "i" parse proofs "as" "uuid"
      "POST" (some "Bearer h.p.s") none (some (obj end)) issuing).1

credential_answered :
    credentials jose true
      (proof_provider ∷ [])
      (issue_provider ∷ [])
      "i"
      parse
      proofs
      "as"
      "uuid"
      "POST"
      (some "Bearer h.p.s")
      none
      (some (obj end))
      issuing
    ≡ (ok (without_headers (reply "credential")), after_issue)
unfolding credentials member Map.get resolve_authz_policy_dpop_mode mode_of_constraint includes
    Allowed.fetch Allowed.save Nonce.validate read_request Map.set
    PreAuthorizedCode.positive_seconds
credential_answered = refl

credentials-IsIssued_example :
    Issued.IsIssued jose true
      (proof_provider ∷ [])
      (issue_provider ∷ [])
      "i"
      parse
      proofs
      "as"
      "POST"
      (some "Bearer h.p.s")
      none
      (some (obj end))
      issuing
      after_issue
      (without_headers (reply "credential"))
credentials-IsIssued_example =
    Issued.credentials-IsIssued jose true (proof_provider ∷ []) (issue_provider ∷ []) "i" parse
      proofs "as" "uuid" "POST" (some "Bearer h.p.s") none (some (obj end)) issuing after_issue
      (without_headers (reply "credential")) credential_answered refl
