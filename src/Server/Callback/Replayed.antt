-- ===== src/Server/Callback/Replayed.antt =====
-- What an accepted response was checked against, and that it is accepted once.
use vcknots.Common.{
  Bool, Bool-cases, List, Option, String, ap, arith, inl, inr, none, or_else, refl, some, subst,
  sym, ℕ, ◌+◌, ◌=ˢ◌, ◌∙◌, ◌≡◌, ◌≢◌, ◌⊎◌,
}
use vcknots.Errors.{Result, ok, err}
use vcknots.Common.Json.{Json}
use vcknots.Common.Map
use vcknots.Common.Map.{Map}
use vcknots.Verifier.Types.{AuthorizationResponse}
use vcknots.Verifier.State.{Verifier}
use vcknots.Verifier.Present.{VpProvider, verify_presentations}
use vcknots.Server.Types.{ErrorBody, Response, refuse}
use vcknots.Server.ErrorHandler.{handle_error, error_status}
use vcknots.Server.DirectPost.{
  States, Outcome, accepted, refused, unknown_state, given_state, resolve, consume,
}
use vcknots.Server.DirectPost.Calls.{StateCall, NotOpened, run, run-absent}
use vcknots.Server.DirectPost.Answers.{resolve-accepted, resolve-absent}
use vcknots.Server.Callback.{
  VerifierServer, Form, Payload, receive, answer_received, conclude, verify_resolved,
  accept_response, callback,
}

error_status-cases : (body : ErrorBody) → (error_status body ≡ 500) ⊎ (error_status body ≡ 400)
error_status-cases body = elim (Bool-cases (body.error =ˢ "internal_server_error")) [
  | inl e ↦ inl (rw e refl)
  | inr e ↦ inr (rw e refl)
]

pub error_status-ne : (body : ErrorBody) → error_status body ≢ 200
error_status-ne body e = elim (error_status-cases body) [
  | inl h ↦ absurd (omega (arith, e, h))
  | inr h ↦ absurd (omega (arith, e, h))
]

pub consume-absent : (k : String) (m : States) → Map.get k (consume k m) ≡ none
unfolding consume
consume-absent k m = Map.get-delete_same k m

-- The state of the flow in which the presentations are verified: the clock has been read once.
abbrev pub read_clock : {M : Type 0} → Verifier M → Verifier M
read_clock v = record v { readings = v.readings + 1 }

module _ {M P : Type 0} (stringify : List (List String) → String)
    (providers : List (VpProvider M P)) (base_url : String) where
  -- What stands behind an accepted response.
  pub record IsAnswered (is_kb_jwt : Bool) (response : AuthorizationResponse)
      (s t : VerifierServer M) : Type 0 where
    pub state : String
    pub stated : response.state ≡ some state
    pub given : given_state (some state) ≡ some state
    pub transaction_id : String
    pub resolved :
        (resolve (some state) (s.flow.clock s.flow.readings) s.states).0 ≡ accepted transaction_id
    pub results : Map (List P)
    pub verified :
        verify_presentations stringify providers response transaction_id
          (record { is_kb_jwt = is_kb_jwt; expected_transaction_data_hashes = none })
          (read_clock s.flow)
        ≡ (ok results, t.flow)
    pub consumed : t.states ≡ consume state s.states

  conclude-ok :
      (response : AuthorizationResponse) (states : States)
      (result : Result (Map (List P)) × Verifier M) {r : Response String} {t : VerifierServer M}
      → conclude stringify providers base_url response states result ≡ (r, t)
      → r.status ≡ 200
      → (results : Map (List P)) × (result ≡ (ok results, t.flow))
        × (t.states ≡ consume (or_else response.state "") states)
  unfolding conclude
  conclude-ok response states (err e, flow) h h200 =
      elim (error_status-ne (handle_error e) (ap (λ x. x.0.status) h ∙ h200)) [ ]
  conclude-ok response states (ok results, flow) {r} {t} h h200 =
      (results, λ i. (ok results, (h i).1.flow), ap (λ x. x.1.states) (sym h))

  verify_resolved-ok :
      (is_kb_jwt : Bool) (response : AuthorizationResponse) (flow : Verifier M)
      (found : Outcome String × States) {r : Response String} {t : VerifierServer M}
      → verify_resolved stringify providers base_url is_kb_jwt response flow found ≡ (r, t)
      → r.status ≡ 200
      → (id : String) × (found.0 ≡ accepted id)
        × ((results : Map (List P)) × (verify_presentations stringify providers response id
                (record { is_kb_jwt = is_kb_jwt; expected_transaction_data_hashes = none })
                flow
              ≡ (ok results, t.flow))
            × (t.states ≡ consume (or_else response.state "") found.1))
  unfolding verify_resolved
  verify_resolved-ok is_kb_jwt response flow (refused body, states) h h200 =
      absurd (let wrong = ap (λ x. x.0.status) h ∙ h200 in omega (arith, wrong))
  verify_resolved-ok is_kb_jwt response flow (accepted id, states) h h200 =
      (id, refl, conclude-ok response states _ h h200)

  accept_response-IsAnswered :
      (is_kb_jwt : Bool) (response : AuthorizationResponse) (s t : VerifierServer M)
      {r : Response String}
      → accept_response stringify providers base_url is_kb_jwt response s ≡ (r, t)
      → r.status ≡ 200
      → IsAnswered is_kb_jwt response s t
  unfolding accept_response
  accept_response-IsAnswered is_kb_jwt response s t h h200 =
      let now = s.flow.clock s.flow.readings in
      let (id, found, (results, verified, used)) =
        verify_resolved-ok is_kb_jwt response (read_clock s.flow)
          (resolve response.state now s.states) h h200 in
      let (k, stated, given, same) =
        resolve-accepted response.state now s.states
          (λ i. (found i, (resolve response.state now s.states).1)) in
      record {
        state = k;
        stated = stated;
        given = given;
        transaction_id = id;
        resolved = ap (λ o. (resolve o now s.states).0) (sym stated) ∙ found;
        results = results;
        verified = verified;
        consumed =
            used
            ∙ ap (λ o. consume (or_else o "") (resolve response.state now s.states).1) stated
            ∙ ap (consume k) same;
      }

  answer_received-IsAnswered :
      (is_kb_jwt : Bool) (received : Outcome (Result AuthorizationResponse))
      (s t : VerifierServer M) {r : Response String}
      → answer_received stringify providers base_url is_kb_jwt received s ≡ (r, t)
      → r.status ≡ 200
      → (response : AuthorizationResponse) × (received ≡ accepted (ok response))
        × IsAnswered is_kb_jwt response s t
  unfolding answer_received
  answer_received-IsAnswered is_kb_jwt (refused body) s t h h200 =
      absurd (let wrong = ap (λ x. x.0.status) h ∙ h200 in omega (arith, wrong))
  answer_received-IsAnswered is_kb_jwt (accepted (err e)) s t h h200 =
      elim (error_status-ne (handle_error e) (ap (λ x. x.0.status) h ∙ h200)) [ ]
  answer_received-IsAnswered is_kb_jwt (accepted (ok response)) s t h h200 =
      (response, refl, accept_response-IsAnswered is_kb_jwt response s t h h200)

  -- A response is answered with status 200 only if it was posted as a form, its state is not blank and
  -- stands for a transaction at the time, and its presentations were verified for this transaction;
  -- then the state is taken out of the store.
  pub callback-IsAnswered :
      (parse_json : String → Option Json) (parse_response : Payload → Result AuthorizationResponse)
      (is_kb_jwt : Bool) (content_type : Option String) (form : Option Form)
      (s t : VerifierServer M) (r : Response String)
      → callback stringify providers base_url parse_json parse_response is_kb_jwt content_type form
          s
        ≡ (r, t)
      → r.status ≡ 200
      → (response : AuthorizationResponse) × (receive parse_json parse_response content_type form
          ≡ accepted (ok response))
        × IsAnswered is_kb_jwt response s t
  unfolding callback
  callback-IsAnswered parse_json parse_response is_kb_jwt content_type form s t r h h200 =
      answer_received-IsAnswered is_kb_jwt (receive parse_json parse_response content_type form) s t
        h h200

  -- A state that stands for nothing is refused, whatever the presentations are.
  accept_response-unknown :
      (is_kb_jwt : Bool) (response : AuthorizationResponse) (k : String) (s : VerifierServer M)
      → response.state ≡ some k
      → given_state (some k) ≡ some k
      → Map.get k s.states ≡ none
      → accept_response stringify providers base_url is_kb_jwt response s
        ≡ (refuse 400 unknown_state, record { flow = read_clock s.flow; states = s.states })
  unfolding accept_response verify_resolved
  accept_response-unknown is_kb_jwt response k s stated given absent =
      let now = s.flow.clock s.flow.readings in
      ap (verify_resolved stringify providers base_url is_kb_jwt response (read_clock s.flow))
        (ap (λ o. resolve o now s.states) stated ∙ resolve-absent k now s.states given absent)

  -- Once a response was answered with status 200 and left a store with one entry for each state, every
  -- response with the same state is answered with status 400, and only the clock is read for it: at any
  -- time, after any calls of the store of states that neither reserve nor register this state, and
  -- whatever presentations it brings.
  pub answered_once :
      (parse_json : String → Option Json) (parse_response : Payload → Result AuthorizationResponse)
      (is_kb_jwt is_kb_jwt2 : Bool) (content_type content_type2 : Option String)
      (form form2 : Option Form) (s t s2 : VerifierServer M) (r : Response String)
      (response response2 : AuthorizationResponse) (k : String) (ttl : ℕ) (calls : List StateCall)
      → callback stringify providers base_url parse_json parse_response is_kb_jwt content_type form
          s
        ≡ (r, t)
      → r.status ≡ 200
      → receive parse_json parse_response content_type form ≡ accepted (ok response)
      → response.state ≡ some k
      → Map.IsMap t.states
      → NotOpened k calls
      → s2.states ≡ run ttl calls t.states
      → receive parse_json parse_response content_type2 form2 ≡ accepted (ok response2)
      → response2.state ≡ some k
      → callback stringify providers base_url parse_json parse_response is_kb_jwt2 content_type2
          form2 s2
        ≡ (refuse 400 unknown_state, record { flow = read_clock s2.flow; states = s2.states })
  unfolding callback
  answered_once parse_json parse_response is_kb_jwt is_kb_jwt2 content_type content_type2 form form2
        s t s2 r response response2 k ttl calls h h200 here stated map closed later again stated2 =
      let (response1, here1, answered) =
        callback-IsAnswered parse_json parse_response is_kb_jwt content_type form s t r h h200 in
      let same : answered.state ≡ k =
        let one : response1 ≡ response = cc (sym here1 ∙ here) in
        cc (sym answered.stated ∙ ap (λ (x : AuthorizationResponse). x.state) one ∙ stated) in
      let gone : Map.get k t.states ≡ none =
        subst (λ x. Map.get x t.states ≡ none) same
          (ap (Map.get answered.state) answered.consumed
            ∙ consume-absent answered.state s.states) in
      let absent : Map.get k s2.states ≡ none =
        ap (Map.get k) later ∙ run-absent ttl k calls t.states closed map gone in
      ap (λ o. answer_received stringify providers base_url is_kb_jwt2 o s2) again
      ∙ accept_response-unknown is_kb_jwt2 response2 k s2 stated2
          (subst (λ x. given_state (some x) ≡ some x) same answered.given) absent
