-- ===== src/Server/Presentations.antt =====
-- server/core/src/routes/verify.ts: the routes /presentation-transaction/:transactionId and
-- /request.jwt/:request-object-Id. The check of a request object's identifier is a parameter.
pub mod Deleted
use vcknots.Common.{Bool, List, Option, String, if◌then◌else◌, none, some, trim, true, ◌=ˢ◌}
use vcknots.Errors.{Result, ok, err, Thrown}
use vcknots.Common.Json.{Fields}
use vcknots.Authz.AccessToken.{truthy}
use vcknots.Verifier.State.{Verifier}
use vcknots.Verifier.Request.{JarProvider}
use vcknots.Verifier.RequestObjects.{find_request_object}
use vcknots.Verifier.Present.{TransactionView, get_transaction, delete_transaction}
use vcknots.Server.Types.{ErrorBody, Response, refuse, reply, invalid_request_body}
use vcknots.Server.ErrorHandler.{handle_error, error_status}
use vcknots.Server.DirectPost.{States, consume}
use vcknots.Server.Callback.{VerifierServer, answer_error}

-- `c.req.param('transactionId')?.trim() ?? ''`
abbrev pub path_parameter : Option String → String
path_parameter none = ""
path_parameter (some s) = trim s

abbrev pub transaction_id_required : ErrorBody
transaction_id_required = invalid_request_body "transactionId is required"

-- `if (existing.state) { vpAudTx.consume(existing.state) }`
abbrev pub release : Option String → States → States
release none states = states
release (some state) states = consume state states

module _ {M : Type 0} where
  unfoldable pub show_result :
      States → Result TransactionView × Verifier M → Response TransactionView × VerifierServer M
  unfolding handle_error
  show_result states (err e, flow) = answer_error e (record { flow = flow; states = states })
  show_result states (ok view, flow) = (reply view, record { flow = flow; states = states })

  -- GET /presentation-transaction/:transactionId
  unfoldable pub show_transaction :
      Option String → VerifierServer M → Response TransactionView × VerifierServer M
  unfolding trim get_transaction show_result
  show_transaction parameter s =
      let id = path_parameter parameter in
      if id =ˢ ""
      then (refuse 400 transaction_id_required, s)
      else show_result s.states (get_transaction id s.flow)

  -- The state of the transaction is released, and then the transaction is deleted.
  unfoldable pub drop_result :
      String → States → Result TransactionView × Verifier M → Response Bool × VerifierServer M
  unfolding handle_error consume delete_transaction
  drop_result id states (err e, flow) = answer_error e (record { flow = flow; states = states })
  drop_result id states (ok view, flow) = (
    reply true,
    record { flow = (delete_transaction id flow).1; states = release (truthy view.state) states },
  )

  -- DELETE /presentation-transaction/:transactionId
  unfoldable pub drop_transaction :
      Option String → VerifierServer M → Response Bool × VerifierServer M
  unfolding trim get_transaction drop_result
  drop_transaction parameter s =
      let id = path_parameter parameter in
      if id =ˢ ""
      then (refuse 400 transaction_id_required, s)
      else drop_result id s.states (get_transaction id s.flow)

module _ {Material : Type 0} (encode : Fields → String)
    (sign_with : Material → String → Fields → Fields → Result (Option String))
    (shown : Thrown → String) (jars : List (JarProvider Material)) (base_url : String)
    (is_request_object_id : String → Bool) where
  unfoldable pub jar_result :
      States → Result String × Verifier Material → Response String × VerifierServer Material
  unfolding handle_error
  jar_result states (err e, flow) = answer_error e (record { flow = flow; states = states })
  jar_result states (ok jar, flow) = (reply jar, record { flow = flow; states = states })

  -- GET /request.jwt/:request-object-Id
  unfoldable pub request_jwt :
      String → VerifierServer Material → Response String × VerifierServer Material
  unfolding find_request_object jar_result
  request_jwt id s =
      if is_request_object_id id
      then jar_result s.states
          (find_request_object encode sign_with shown jars base_url id none s.flow)
      else (refuse 400 (invalid_request_body "Invalid request-object-Id parameter."), s)
