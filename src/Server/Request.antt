-- ===== src/Server/Request.antt =====
-- server/core/src/routes/verify.ts: the routes /request and /request-object, which start a presentation.
-- `body` is the parsed body, if it parses; `dcql` is what the provider of queries gives for a query, and
-- `encode` the address that a wallet is sent to. Identifiers that are generated are arguments.
pub mod Started
use vcknots.Common.{
  Bool, List, Option, String, [], false, if◌then◌else◌, includes, none, or_else, some, trim, true,
  ◌&&◌, ◌+ˢ◌, ◌+◌, ◌=ˢ◌, ◌∷◌,
}
use vcknots.Errors.{Result, ok, err, failure, Thrown}
use vcknots.Errors.Chain.{◌>>=◌, ◌>>◌, guard}
use vcknots.Common.Json.{Json, null, bool, str, Fields, end, obj, member}
use vcknots.Store.Nonce.{Nonce}
use vcknots.Verifier.Types.{DcqlQuery, AuthorizationRequest, direct_post}
use vcknots.Verifier.State.{Verifier}
use vcknots.Verifier.Request.{
  CreateAuthzRequestOptions, JarProvider, create_authz_request, prefix_of, after_colon, is_rest,
  is_client_identifier,
}
use vcknots.Server.Types.{ErrorBody, Response, refuse, reply, invalid_request_body}
use vcknots.Server.ErrorHandler.{handle_error, error_status}
use vcknots.Server.DirectPost.{
  States, Outcome, accepted, refused, reserve, register, consume, default_direct_post_state_ttl_ms,
}
use vcknots.Server.Callback.{VerifierServer, answer_error}

abbrev pub can_handle_client_id_scheme : List String
can_handle_client_id_scheme = "redirect_uri" ∷ "x509_san_dns" ∷ []

-- `validateClientIdScheme`, of a text.
unfoldable pub validate_client_id_scheme : String → Result String
unfolding prefix_of after_colon is_client_identifier
validate_client_id_scheme client_id =
    if client_id =ˢ ""
    then ok "x509_san_dns:localhost"
    else if includes can_handle_client_id_scheme (prefix_of client_id)
        && is_rest (after_colon client_id)
    then (if is_client_identifier client_id then ok client_id else err (failure "ZodError"))
    else err (failure "Invalid client_id format")

-- A member of the body that is a text and not blank.
unfoldable pub filled : Option Json → Option String
unfolding trim
filled (some (str s)) = if trim s =ˢ "" then none else some s
filled _ = none

-- `(body.client_id as string) ?? 'redirect_uri:localhost'`, which has no `match` unless it is a text.
abbrev pub client_id_of : Option Json → Result String
client_id_of none = ok "redirect_uri:localhost"
client_id_of (some null) = ok "redirect_uri:localhost"
client_id_of (some (str s)) = ok s
client_id_of (some _) = err (failure "TypeError")

abbrev pub trimmed : Option String → Option String
trimmed none = none
trimmed (some s) = some (trim s)

-- The members of the body of /request: `null` has none, and reading one is an error.
abbrev pub request_fields : Option Json → Result Fields
request_fields (some (obj fs)) = ok fs
request_fields (some null) = err (failure "TypeError")
request_fields _ = ok end

-- What /request takes from its body: the identifier of the credential and the state, or what it refuses.
unfoldable pub request_input : Fields → Outcome (String × String)
unfolding filled
request_input body = elim (filled (member "credentialId" body)) [
  | none ↦ refused (invalid_request_body "credentialId must be a non-empty string.")
  | some credential_id ↦ elim (trimmed (filled (member "state" body))) [
    | none ↦ refused (invalid_request_body "state is required.")
    | some state ↦ accepted (credential_id, state)
  ]
]

module _ {M : Type 0} (is_url : String → Bool) (encode_component : String → String)
    (jars : List (JarProvider M)) (nonce : Nonce) (transaction_id request_object_id : String)
    (encode_data : Fields → String) (base_url : String)
    (encode : AuthorizationRequest → Option String → String) where
  -- A request that is made registers its transaction; one that fails gives the state back.
  unfoldable pub conclude_request :
      String
      → Option String
      → States
      → Result (AuthorizationRequest × String) × Verifier M
      → Response String × VerifierServer M
  unfolding consume register handle_error
  conclude_request state shown states (err e, flow) =
      answer_error e (record { flow = flow; states = consume state states })
  conclude_request state shown states (ok (request, id), flow) = (
    reply (encode request shown),
    record {
      flow = record flow { readings = flow.readings + 1 };
      states =
          (register default_direct_post_state_ttl_ms state id (flow.clock flow.readings) states).1;
    },
  )

  -- After the state was reserved or not.
  unfoldable pub make_reserved :
      String
      → Option String
      → String
      → Result DcqlQuery
      → Bool
      → CreateAuthzRequestOptions
      → Verifier M
      → Outcome (Unit {0}) × States
      → Response String × VerifierServer M
  unfolding create_authz_request conclude_request
  make_reserved state shown client_id dcql is_request_uri options flow (refused body, states) =
      (refuse 400 body, record { flow = flow; states = states })
  make_reserved state shown client_id dcql is_request_uri options flow (accepted _, states) =
      conclude_request state shown states (
        create_authz_request is_url encode_component jars nonce transaction_id request_object_id
          encode_data base_url "vp_token" client_id direct_post dcql is_request_uri options flow)

  -- The state is reserved, and then the request is made.
  unfoldable pub start_request :
      String
      → Option String
      → String
      → Result DcqlQuery
      → Bool
      → CreateAuthzRequestOptions
      → VerifierServer M
      → Response String × VerifierServer M
  unfolding reserve make_reserved
  start_request state shown client_id dcql is_request_uri options s =
      make_reserved state shown client_id dcql is_request_uri options
        (record s.flow { readings = s.flow.readings + 1 })
        (reserve default_direct_post_state_ttl_ms state (s.flow.clock s.flow.readings) s.states)

  abbrev pub request_options : String → CreateAuthzRequestOptions
  request_options state = record {
    state = some state;
    scope = none;
    response_uri = some (base_url +ˢ "/callback");
    base_url = some base_url;
    request_uri = none;
    transaction_data_type = none;
  }

  -- /request; `dcql` is given the identifier of the credential.
  unfoldable pub request :
      (String → Result DcqlQuery)
      → Option Json
      → VerifierServer M
      → Response String × VerifierServer M
  unfolding request_input validate_client_id_scheme start_request handle_error
  request dcql body s = elim (request_fields body) [
    | err e ↦ answer_error e s
    | ok fields ↦ elim (request_input fields) [
      | refused b ↦ (refuse 400 b, s)
      | accepted (credential_id, state) ↦
          elim (client_id_of (member "client_id" fields) >>= validate_client_id_scheme) [
            | err e ↦ answer_error e s
            | ok client_id ↦
                start_request state (some state) client_id (dcql credential_id) false
                  (request_options state) s
          ]
    ]
  ]

-- What /request-object takes from its body, with the defaults.
pub record RequestObjectShape : Type 0 where
  pub query : Option Fields
  pub state : String
  pub is_request_uri : Bool
  pub is_transaction_data : Bool
  pub response_uri : Option String
  pub client_id : String

abbrev pub bool_or : Option Json → Bool → Bool
bool_or (some (bool b)) _ = b
bool_or _ d = d

abbrev pub object_or_none : Option Json → Option Fields
object_or_none (some (obj fs)) = some fs
object_or_none _ = none

-- `uuid` is the state that is generated. An invalid client identifier is an exception here.
unfoldable pub request_object_input : String → Fields → Result RequestObjectShape
unfolding filled validate_client_id_scheme
request_object_input uuid input = do
  client_id ← elim (filled (member "client_id" input)) [
    | none ↦ ok "x509_san_dns:localhost"
    | some client_id ↦ validate_client_id_scheme client_id
  ]
  ok (record {
    query = object_or_none (member "query" input);
    state = or_else (filled (member "state" input)) uuid;
    is_request_uri = bool_or (member "is_request_uri" input) true;
    is_transaction_data = bool_or (member "is_transaction_data" input) false;
    response_uri = filled (member "response_uri" input);
    client_id = client_id;
  })

module _ {M : Type 0} (is_url : String → Bool) (encode_component : String → String)
    (jars : List (JarProvider M)) (nonce : Nonce) (transaction_id request_object_id : String)
    (encode_data : Fields → String) (base_url : String)
    (encode : AuthorizationRequest → Option String → String) where
  abbrev pub object_options : RequestObjectShape → CreateAuthzRequestOptions
  object_options shape = record {
    state = some shape.state;
    scope = none;
    response_uri = some (or_else shape.response_uri (base_url +ˢ "/callback"));
    base_url = some base_url;
    request_uri = some (base_url +ˢ "/request.jwt");
    transaction_data_type = if shape.is_transaction_data then some "sample_type" else none;
  }

  -- The members of the body of /request-object: what is no object counts as one with no members.
  abbrev pub object_fields : Option Json → Fields
  object_fields (some (obj fs)) = fs
  object_fields _ = end

  -- /request-object: `none` is a body that is blank, `some none` one that does not parse. An exception
  -- from its input is not caught in the route.
  unfoldable pub request_object :
      (Option Fields → Result DcqlQuery)
      → String
      → Option (Option Json)
      → VerifierServer M
      → Result (Response String) × VerifierServer M
  unfolding request_object_input start_request
  request_object dcql uuid (some none) s =
      (ok (refuse 400 (invalid_request_body "Request body must be valid JSON")), s)
  request_object dcql uuid body s =
      elim (request_object_input uuid (object_fields (or_else body none))) [
        | err e ↦ (err e, s)
        | ok shape ↦
            let (response, t) =
              start_request is_url encode_component jars nonce transaction_id request_object_id
                encode_data base_url encode shape.state none shape.client_id (dcql shape.query)
                shape.is_request_uri (object_options shape) s in
            (ok response, t)
      ]
