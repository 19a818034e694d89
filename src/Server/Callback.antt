-- ===== src/Server/Callback.antt =====
-- server/core/src/routes/verify.ts: the routes /callback and /callback-kbjwt, to which a wallet posts its
-- response. The parsing of JSON and of the response are parameters; entries of the form that are files
-- are none. The payloads of an accepted response are only logged.
pub mod Replayed
use vcknots.Common.{
  Bool, List, Option, String, [], codes, equal_codes, if◌then◌else◌, none, or_else, some, split,
  to_lower_case, trim, ◌+ˢ◌, ◌+◌, ◌=ˢ◌, ◌∷◌,
}
use vcknots.Errors.{Result, ok, err, Thrown}
use vcknots.Common.Json.{Json, Fields, as_object}
use vcknots.Common.Map.{Map}
use vcknots.Verifier.Types.{AuthorizationResponse}
use vcknots.Verifier.State.{Verifier}
use vcknots.Verifier.Present.{VpProvider, VerifyPresentationOptions, verify_presentations}
use vcknots.Server.Types.{ErrorBody, Response, refuse, reply, invalid_request_body}
use vcknots.Server.ErrorHandler.{handle_error, error_status}
use vcknots.Server.DirectPost.{States, Outcome, accepted, refused, resolve, consume}

-- What the verifier's routes work on: the flow's stores and the states.
pub record VerifierServer (M : Type 0) : Type 0 where
  pub flow : Verifier M
  pub states : States

-- The entries of the form that are read.
pub record Form : Type 0 where
  pub vp_token : Option String
  pub state : Option String

-- `Partial<VerifierAuthorizationResponse>`
pub record Payload : Type 0 where
  pub vp_token : Option Fields
  pub state : Option String

abbrev pub first_part : List String → String
first_part [] = ""
first_part (s ∷ _) = s

-- `normalizeContentType(value) === 'application/x-www-form-urlencoded'`
unfoldable pub is_form_content_type : Option String → Bool
unfolding split trim
is_form_content_type header =
    equal_codes (to_lower_case (trim (first_part (split b';' (or_else header "")))))
      (codes "application/x-www-form-urlencoded")

-- `typeof vpTokenRaw === 'string' && vpTokenRaw.trim()`
unfoldable pub given_vp_token : Option String → Option String
unfolding trim
given_vp_token none = none
given_vp_token (some s) = if trim s =ˢ "" then none else some s

abbrev pub not_an_object : ErrorBody
not_an_object = invalid_request_body "vp_token must be a JSON object"

-- `parseFormPayload`; `parse_json` is `JSON.parse`.
unfoldable pub parse_form_payload : (String → Option Json) → Form → Outcome Payload
unfolding given_vp_token
parse_form_payload parse_json form = elim (given_vp_token form.vp_token) [
  | none ↦ accepted (record { vp_token = none; state = form.state })
  | some raw ↦ elim (as_object (parse_json raw)) [
    | none ↦ refused not_an_object
    | some fields ↦ accepted (record { vp_token = some fields; state = form.state })
  ]
]

-- What is refused before the response is looked at, and the response.
unfoldable pub receive :
    (String → Option Json)
    → (Payload → Result AuthorizationResponse)
    → Option String
    → Option Form
    → Outcome (Result AuthorizationResponse)
unfolding is_form_content_type parse_form_payload
receive parse_json parse_response content_type form =
    if is_form_content_type content_type
    then elim form [
      | none ↦ refused (invalid_request_body "Request body must be a valid form data.")
      | some f ↦ elim (parse_form_payload parse_json f) [
        | refused body ↦ refused body
        | accepted payload ↦ accepted (parse_response payload)
      ]
    ]
    else refused (invalid_request_body "content-type must be application/x-www-form-urlencoded")

module _ {M : Type 0} where
  -- An error of a flow, as an answer.
  abbrev pub answer_error : {A : Type 0} → Thrown → VerifierServer M → Response A × VerifierServer M
  answer_error e s = let body = handle_error e in (refuse (error_status body) body, s)

module _ {M P : Type 0} (stringify : List (List String) → String)
    (providers : List (VpProvider M P)) (base_url : String) where
  -- After the presentations were verified or not: a response that is accepted uses its state up.
  unfoldable pub conclude :
      AuthorizationResponse
      → States
      → Result (Map (List P)) × Verifier M
      → Response String × VerifierServer M
  unfolding consume handle_error
  conclude response states (err e, flow) = answer_error e (record { flow = flow; states = states })
  conclude response states (ok _, flow) = (
    reply (base_url +ˢ "/verified"),
    record { flow = flow; states = consume (or_else response.state "") states },
  )

  -- After the state was looked up.
  unfoldable pub verify_resolved :
      Bool
      → AuthorizationResponse
      → Verifier M
      → Outcome String × States
      → Response String × VerifierServer M
  unfolding verify_presentations conclude
  verify_resolved is_kb_jwt response flow (refused body, states) =
      (refuse 400 body, record { flow = flow; states = states })
  verify_resolved is_kb_jwt response flow (accepted id, states) = conclude response states (
      verify_presentations stringify providers response id
        (record { is_kb_jwt = is_kb_jwt; expected_transaction_data_hashes = none }) flow)

  -- The response against the transaction of its state.
  unfoldable pub accept_response :
      Bool → AuthorizationResponse → VerifierServer M → Response String × VerifierServer M
  unfolding resolve verify_resolved
  accept_response is_kb_jwt response s =
      verify_resolved is_kb_jwt response (record s.flow { readings = s.flow.readings + 1 })
        (resolve response.state (s.flow.clock s.flow.readings) s.states)

  -- After the form was received.
  unfoldable pub answer_received :
      Bool
      → Outcome (Result AuthorizationResponse)
      → VerifierServer M
      → Response String × VerifierServer M
  unfolding accept_response handle_error
  answer_received is_kb_jwt (refused body) s = (refuse 400 body, s)
  answer_received is_kb_jwt (accepted (err e)) s = answer_error e s
  answer_received is_kb_jwt (accepted (ok response)) s = accept_response is_kb_jwt response s

  -- /callback, and /callback-kbjwt with the option for it.
  unfoldable pub callback :
      (String → Option Json)
      → (Payload → Result AuthorizationResponse)
      → Bool
      → Option String
      → Option Form
      → VerifierServer M
      → Response String × VerifierServer M
  unfolding receive answer_received
  callback parse_json parse_response is_kb_jwt content_type form s =
      answer_received is_kb_jwt (receive parse_json parse_response content_type form) s
