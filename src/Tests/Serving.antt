-- ===== src/Tests/Serving.antt =====
-- The theorems on the verifier's routes, at concrete inputs: a transaction that is started, answered
-- and deleted, with the parameters of the flows' tests.
use vcknots.Common.{
  List, Option, String, [], arith, false, if◌then◌else◌, includes, inr, leb, none, refl, some, trim,
  true, ◌+◌, ◌∷◌, ◌≡◌, ◌≢◌, ◌≤◌,
}
use vcknots.Errors.{Result, ok, raise, invalid_options}
use vcknots.Common.Map
use vcknots.Common.Map.{Map}
use vcknots.Common.Json.{Json, obj, end}
use vcknots.Store.Nonce
use vcknots.Store.Transactions
use vcknots.Store.Transactions.Lifetime
use vcknots.Verifier.Types.{DcqlQuery, AuthorizationRequest, AuthorizationResponse}
use vcknots.Verifier.State.{Verifier}
use vcknots.Verifier.Present.{TransactionView, get_transaction}
use vcknots.Authz.AccessToken.{truthy}
use vcknots.Server.Types.{Response, refuse, reply}
use vcknots.Server.DirectPost.{
  States, accepted, refused, already_in_use, unknown_state, given_state, is_active, register,
  reserve, resolve, sweep_expired,
}
use vcknots.Server.DirectPost.Bound.{registered_state_bound}
use vcknots.Server.DirectPost.Calls.{StateCall, reserving, registering, resolving, run, IsWithin}
use vcknots.Server.Callback.{VerifierServer, Form, Payload, receive, callback}
use vcknots.Server.Callback.Replayed.{read_clock}
use vcknots.Server.Callback.Replayed
use vcknots.Server.Request.{start_request}
use vcknots.Server.Request.Started
use vcknots.Server.Presentations.{drop_transaction}
use vcknots.Server.Presentations.Deleted
use vcknots.Tests.Verifying.{query, verifier, jars, nonce, options, vp_provider, response}

abbrev start : VerifierServer String
start = record { flow = verifier; states = [] }

abbrev shown : AuthorizationRequest → Option String → String
shown _ _ = "request"

abbrev started : VerifierServer String
started =
    (start_request (λ s. true) (λ s. s) jars nonce "t" "o" (λ fs. "e") "v" shown "state"
      (some "state") "redirect_uri:v" (ok query) true options start).1

start_answered :
    start_request
      (λ s. true)
      (λ s. s)
      jars
      nonce
      "t"
      "o"
      (λ fs. "e")
      "v"
      shown
      "state"
      (some "state")
      "redirect_uri:v"
      (ok query)
      true
      options
      start
    ≡ (reply "request", started)
unfolding start_request Map.get Map.delete_if Nonce.save includes
start_answered = refl

state_given : given_state (some "state") ≡ some "state"
unfolding trim
state_given = refl

named : ◌≢◌ {A = String} "t" ""
named = λ e. cc e

within_life : 1000 ≤ 1 + 300000
within_life = omega arith

within_time : 1000 ≤ 2 + 300000
within_time = omega arith

start_opens_transaction_example :
    (q : DcqlQuery) × (ok query ≡ ok q)
    × (Lifetime.records (Transactions.fetch "t" 1000 started.flow.transactions).0
        ≡ some (record {
          dcql_query = q;
          client_id = "redirect_uri:v";
          verifier_id = "v";
          state = some "state";
          nonce = "n";
        }))
    × ((flow : Verifier String) × (started.flow ≡ record flow { readings = flow.readings + 1 })
        × (1000 ≤ flow.clock flow.readings + 300000
            → (resolve (some "state") 1000 started.states).0 ≡ accepted "t"))
start_opens_transaction_example =
    Started.start_opens_transaction (λ s. true) (λ s. s) jars nonce "t" "o" (λ fs. "e") "v" shown
      "state" (some "state") "redirect_uri:v" (ok query) true options start started
      (reply "request") 300000 1000 start_answered refl state_given named refl within_life
      within_time

abbrev failing : Result DcqlQuery
failing = raise invalid_options "no query"

abbrev released : VerifierServer String
released =
    (start_request (λ s. true) (λ s. s) jars nonce "t" "o" (λ fs. "e") "v" shown "state"
      (some "state") "redirect_uri:v" failing true options start).1

abbrev failure : Response String
failure =
    (start_request (λ s. true) (λ s. s) jars nonce "t" "o" (λ fs. "e") "v" shown "state"
      (some "state") "redirect_uri:v" failing true options start).0

start_failed : failure.status ≢ 200
unfolding start_request Map.get Map.delete_if Nonce.save includes
start_failed = omega arith

no_state : Map.IsMap start.states
no_state = tt

failed_start_releases_state_example :
    (is_active 0 (Map.get "state" start.states) ≡ false → Map.get "state" released.states ≡ none)
    × (is_active 0 (Map.get "state" start.states) ≡ true
        → (failure ≡ refuse 400 already_in_use)
          × (released ≡ record {
            flow = record start.flow { readings = start.flow.readings + 1 };
            states = sweep_expired 0 start.states;
          }))
failed_start_releases_state_example =
    Started.failed_start_releases_state (λ s. true) (λ s. s) jars nonce "t" "o" (λ fs. "e") "v"
      shown "state" (some "state") "redirect_uri:v" failing true options start released failure refl
      start_failed no_state

abbrev form : Form
form = record { vp_token = some "{}"; state = some "state" }

abbrev other_form : Form
other_form = record { vp_token = none; state = some "state" }

abbrev parse_json : String → Option Json
parse_json s = some (obj end)

abbrev parse_response : Payload → Result AuthorizationResponse
parse_response payload = ok response

abbrev content_type : Option String
content_type = some "application/x-www-form-urlencoded; charset=utf-8"

abbrev answered : VerifierServer String
answered =
    (callback (λ sets. "") (vp_provider ∷ []) "v" parse_json parse_response false content_type
      (some form) started).1

callback_answered :
    callback
      (λ sets. "")
      (vp_provider ∷ [])
      "v"
      parse_json
      parse_response
      false
      content_type
      (some form)
      started
    ≡ (reply "v/verified", answered)
unfolding callback Map.get start_request Map.delete_if Nonce.save includes Map.set Map.delete
    Transactions.fetch Transactions.save Nonce.validate
callback_answered = refl

received : receive parse_json parse_response content_type (some form) ≡ accepted (ok response)
unfolding receive
received = refl

received_again :
    receive parse_json parse_response content_type (some other_form) ≡ accepted (ok response)
unfolding receive
received_again = refl

answered_states : Map.IsMap answered.states
unfolding callback Map.get start_request Map.delete_if Nonce.save includes Map.set Map.delete
    Transactions.fetch Transactions.save Nonce.validate
answered_states = tt

abbrev later : VerifierServer String
later = record { flow = verifier; states = run 300000 (registering "x" "u" 9 ∷ []) answered.states }

other_state : ◌≢◌ {A = String} "x" "state"
other_state = λ e. cc e

answered_once_example :
    callback
      (λ sets. "")
      (vp_provider ∷ [])
      "v"
      parse_json
      parse_response
      true
      content_type
      (some other_form)
      later
    ≡ (refuse 400 unknown_state, record { flow = read_clock later.flow; states = later.states })
answered_once_example =
    Replayed.answered_once (λ sets. "") (vp_provider ∷ []) "v" parse_json parse_response false true
      content_type content_type (some form) (some other_form) started answered later
      (reply "v/verified") response response "state" 300000 (registering "x" "u" 9 ∷ [])
      callback_answered refl received refl answered_states (other_state, tt) refl received_again
      refl

abbrev deleted : VerifierServer String
deleted = (drop_transaction (some " t ") started).1

deletion_answered : drop_transaction (some " t ") started ≡ (reply true, deleted)
unfolding drop_transaction Transactions.fetch Map.get start_request Map.delete_if Nonce.save
    includes Transactions.save Map.set
deletion_answered = refl

drop_transaction-Deleted_example :
    (view : TransactionView) × ((get_transaction "t" started.flow).0 ≡ ok view)
    × (Map.get "t" deleted.flow.transactions ≡ none)
    × ((k : String) → truthy view.state ≡ some k → Map.get k deleted.states ≡ none)
unfolding trim
drop_transaction-Deleted_example =
    Deleted.drop_transaction-Deleted (some " t ") started deleted (reply true) deletion_answered
      refl

state_registered : (register 300000 "state" "t" 7 []).0 ≡ accepted tt
unfolding register Map.get
state_registered = refl

abbrev calls : List StateCall
calls = reserving "other" 8 ∷ registering "state" "u" 9 ∷ resolving (some "state") 10 ∷ []

calls-IsWithin : IsWithin "state" (record { transaction_id = "t"; expires_at = 7 + 300000 }) calls
calls-IsWithin = (omega arith, (omega arith, inr named, (omega arith, tt)))

abbrev registered_states : States
registered_states = run 300000 calls (register 300000 "state" "t" 7 []).1

registered_state_bound_example :
    ((resolve (some "state") 300007 registered_states).0
      ≡ (if leb 300007 (7 + 300000) then accepted "t" else refused unknown_state))
    × (300007 ≤ 7 + 300000
        → ((reserve 300000 "state" 300007 registered_states).0 ≡ refused already_in_use)
          × (register 300000 "state" "v" 300007 registered_states
              ≡ (refused already_in_use, registered_states)))
registered_state_bound_example =
    registered_state_bound 300000 "state" "t" "v" 7 300007 [] calls tt state_given named
      state_registered calls-IsWithin
