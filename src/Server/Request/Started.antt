-- ===== src/Server/Request/Started.antt =====
-- What the start of a presentation leaves in the store of states and in the verifier's stores.
use vcknots.Common.{
  Bool, List, Option, String, ap, arith, false, none, or_else, refl, some, subst, sym, true, ℕ, ◌+◌,
  ◌∙◌, ◌≡◌, ◌≢◌, ◌≤◌,
}
use vcknots.Errors.{Result, ok, err}
use vcknots.Common.Json.{Fields}
use vcknots.Common.Map
use vcknots.Store.Nonce.{Nonce}
use vcknots.Store.Transactions
use vcknots.Store.Transactions.{TransactionRecord, default_transaction_expire_in_ms}
use vcknots.Store.Transactions.Lifetime.{records}
use vcknots.Verifier.Types.{DcqlQuery, AuthorizationRequest, direct_post}
use vcknots.Verifier.State.{Verifier}
use vcknots.Verifier.Request.{CreateAuthzRequestOptions, JarProvider, create_authz_request}
use vcknots.Verifier.Request.Opened.{create_authz_request-IsOpened, request_opens_transaction}
use vcknots.Server.Types.{Response, refuse}
use vcknots.Server.ErrorHandler.{handle_error}
use vcknots.Server.DirectPost.{
  States, Outcome, accepted, refused, already_in_use, given_state, resolve, reserve, register,
  is_active, sweep_expired, default_direct_post_state_ttl_ms,
}
use vcknots.Server.DirectPost.Answers.{reserved-get, register-resolved, reserve-free, reserve-held}
use vcknots.Server.Callback.{VerifierServer}
use vcknots.Server.Callback.Replayed.{error_status-ne, consume-absent}
use vcknots.Server.Request.{conclude_request, make_reserved, start_request}

module _ {M : Type 0} (is_url : String → Bool) (encode_component : String → String)
    (jars : List (JarProvider M)) (nonce : Nonce) (transaction_id request_object_id : String)
    (encode_data : Fields → String) (base_url : String)
    (encode : AuthorizationRequest → Option String → String) where
  abbrev ttl : ℕ
  ttl = default_direct_post_state_ttl_ms

  -- The request that a start makes, from the flow's state.
  abbrev pub made_by :
      String
      → Result DcqlQuery
      → Bool
      → CreateAuthzRequestOptions
      → Verifier M
      → Result (AuthorizationRequest × String) × Verifier M
  made_by client_id dcql is_request_uri options flow =
      create_authz_request is_url encode_component jars nonce transaction_id request_object_id
        encode_data base_url "vp_token" client_id direct_post dcql is_request_uri options flow

  conclude_request-ok :
      (k : String) (shown : Option String) (states : States)
      (result : Result (AuthorizationRequest × String) × Verifier M) {r : Response String}
      {t : VerifierServer M}
      → conclude_request is_url encode_component jars nonce transaction_id request_object_id
          encode_data base_url encode k shown states result
        ≡ (r, t)
      → r.status ≡ 200
      → (request : AuthorizationRequest) × (id : String) × (flow : Verifier M) × (result
          ≡ (ok (request, id), flow))
        × (t.flow ≡ record flow { readings = flow.readings + 1 })
        × (t.states ≡ (register ttl k id (flow.clock flow.readings) states).1)
  unfolding conclude_request
  conclude_request-ok k shown states (err e, flow) h h200 =
      elim (error_status-ne (handle_error e) (ap (λ x. x.0.status) h ∙ h200)) [ ]
  conclude_request-ok k shown states (ok (request, id), flow) h h200 =
      (request, id, flow, refl, ap (λ x. x.1.flow) (sym h), ap (λ x. x.1.states) (sym h))

  conclude_request-released :
      (k : String) (shown : Option String) (states : States)
      (result : Result (AuthorizationRequest × String) × Verifier M) {r : Response String}
      {t : VerifierServer M}
      → conclude_request is_url encode_component jars nonce transaction_id request_object_id
          encode_data base_url encode k shown states result
        ≡ (r, t)
      → r.status ≢ 200
      → Map.get k t.states ≡ none
  unfolding conclude_request
  conclude_request-released k shown states (err e, flow) h not200 =
      ap (λ x. Map.get k x.1.states) (sym h) ∙ consume-absent k states
  conclude_request-released k shown states (ok (request, id), flow) h not200 =
      elim (not200 (ap (λ x. x.0.status) (sym h))) [ ]

  make_reserved-ok :
      (k : String) (shown : Option String) (client_id : String) (dcql : Result DcqlQuery)
      (is_request_uri : Bool) (options : CreateAuthzRequestOptions) (flow : Verifier M)
      (reserved : Outcome (Unit {0}) × States) {r : Response String} {t : VerifierServer M}
      → make_reserved is_url encode_component jars nonce transaction_id request_object_id
          encode_data base_url encode k shown client_id dcql is_request_uri options flow reserved
        ≡ (r, t)
      → r.status ≡ 200
      → (reserved.0 ≡ accepted tt)
        × (conclude_request is_url encode_component jars nonce transaction_id request_object_id
              encode_data base_url encode k shown reserved.1
              (made_by client_id dcql is_request_uri options flow)
            ≡ (r, t))
  unfolding make_reserved
  make_reserved-ok k shown client_id dcql is_request_uri options flow (refused body, states) h
        h200 =
      absurd (let wrong = ap (λ x. x.0.status) h ∙ h200 in omega (arith, wrong))
  make_reserved-ok k shown client_id dcql is_request_uri options flow (accepted _, states) h h200 =
      (refl, h)

  -- Once a start with a state that is not blank, a transaction with a name and a nonce that has a
  -- lifetime was answered with status 200, the verifier's store has, to the end of the nonce's and of
  -- the transaction's time, the transaction with the query that was generated, the client identifier,
  -- the state of the options and the nonce; and the state of the route stands for this transaction for
  -- 5 minutes after it was registered.
  pub start_opens_transaction :
      (k : String) (shown : Option String) (client_id : String) (dcql : Result DcqlQuery)
      (is_request_uri : Bool) (options : CreateAuthzRequestOptions) (s t : VerifierServer M)
      (r : Response String) (lifetime now : ℕ)
      → start_request is_url encode_component jars nonce transaction_id request_object_id
          encode_data base_url encode k shown client_id dcql is_request_uri options s
        ≡ (r, t)
      → r.status ≡ 200
      → given_state (some k) ≡ some k
      → transaction_id ≢ ""
      → nonce.nonce_expires_in ≡ some lifetime
      → now ≤ s.flow.clock (s.flow.readings + 1) + lifetime
      → now
        ≤ s.flow.clock (s.flow.readings + 1 + 1)
          + or_else s.flow.transaction_expire_in default_transaction_expire_in_ms
      → (q : DcqlQuery) × (dcql ≡ ok q)
        × (records (Transactions.fetch transaction_id now t.flow.transactions).0
            ≡ some (record {
              dcql_query = q;
              client_id = client_id;
              verifier_id = base_url;
              state = options.state;
              nonce = nonce.nonce;
            }))
        × ((flow : Verifier M) × (t.flow ≡ record flow { readings = flow.readings + 1 })
            × (now ≤ flow.clock flow.readings + 300000
                → (resolve (some k) now t.states).0 ≡ accepted transaction_id))
  unfolding start_request
  start_opens_transaction k shown client_id dcql is_request_uri options s t r lifetime now h h200
        given named limited in_life in_time =
      let flow0 : Verifier M = record s.flow { readings = s.flow.readings + 1 } in
      let reserved = reserve ttl k (s.flow.clock s.flow.readings) s.states in
      let (free, rest) =
        make_reserved-ok k shown client_id dcql is_request_uri options flow0 reserved h h200 in
      let (request, id, flow, made, same_flow, states) =
        conclude_request-ok k shown reserved.1 _ rest h200 in
      let (q, parsed, kept, _, _) =
        request_opens_transaction is_url encode_component jars nonce transaction_id
          request_object_id encode_data base_url "vp_token" client_id direct_post dcql
          is_request_uri options flow0 flow request id lifetime now made limited in_life in_time in
      let (_, _, same, _, _) =
        create_authz_request-IsOpened is_url encode_component jars nonce transaction_id
          request_object_id encode_data base_url "vp_token" client_id direct_post dcql
          is_request_uri options flow0 made in
      (
        q,
        parsed,
        ap (λ (u : Verifier M). records (Transactions.fetch transaction_id now u.transactions).0)
              same_flow
            ∙ ap (λ i. records (Transactions.fetch i now flow.transactions).0) same
            ∙ kept,
        (
          flow,
          same_flow,
          λ in_state.
              ap (λ m. (resolve (some k) now m).0) states
              ∙ register-resolved ttl k id (flow.clock flow.readings) now reserved.1 _
                  (reserved-get ttl k (s.flow.clock s.flow.readings) s.states free) refl
                  (subst (λ i. i ≢ "") same named) given in_state
              ∙ ap accepted (sym same),
        ),
      )

  make_reserved-released :
      (k : String) (shown : Option String) (client_id : String) (dcql : Result DcqlQuery)
      (is_request_uri : Bool) (options : CreateAuthzRequestOptions) (flow : Verifier M)
      (reserved : Outcome (Unit {0}) × States) {r : Response String} {t : VerifierServer M}
      → make_reserved is_url encode_component jars nonce transaction_id request_object_id
          encode_data base_url encode k shown client_id dcql is_request_uri options flow reserved
        ≡ (r, t)
      → reserved.0 ≡ accepted tt
      → r.status ≢ 200
      → Map.get k t.states ≡ none
  unfolding make_reserved
  make_reserved-released k shown client_id dcql is_request_uri options flow (refused body, states) h
        free not200 =
      absurd (cc free)
  make_reserved-released k shown client_id dcql is_request_uri options flow (accepted _, states) h
        free not200 =
      conclude_request-released k shown states (made_by client_id dcql is_request_uri options flow)
        h not200

  -- In a store with one entry for each state, a start that is not answered with status 200 leaves its
  -- state without an entry, if it was free before, and is refused without a request being made
  -- otherwise: then the clock is read, and the states that have expired are removed.
  pub failed_start_releases_state :
      (k : String) (shown : Option String) (client_id : String) (dcql : Result DcqlQuery)
      (is_request_uri : Bool) (options : CreateAuthzRequestOptions) (s t : VerifierServer M)
      (r : Response String)
      → start_request is_url encode_component jars nonce transaction_id request_object_id
          encode_data base_url encode k shown client_id dcql is_request_uri options s
        ≡ (r, t)
      → r.status ≢ 200
      → Map.IsMap s.states
      → let now = s.flow.clock s.flow.readings in
        (is_active now (Map.get k s.states) ≡ false → Map.get k t.states ≡ none)
        × (is_active now (Map.get k s.states) ≡ true
            → (r ≡ refuse 400 already_in_use)
              × (t ≡ record {
                flow = record s.flow { readings = s.flow.readings + 1 };
                states = sweep_expired now s.states;
              }))
  unfolding start_request make_reserved
  failed_start_releases_state k shown client_id dcql is_request_uri options s t r h not200 map =
      let now = s.flow.clock s.flow.readings in
      (
        λ free.
            make_reserved-released k shown client_id dcql is_request_uri options _
              (reserve ttl k now s.states) h (reserve-free ttl k now s.states map free) not200,
        λ held.
            let refusal =
              sym h
              ∙ ap
                  (make_reserved is_url encode_component jars nonce transaction_id request_object_id
                    encode_data base_url encode k shown client_id dcql is_request_uri options
                    (record s.flow { readings = s.flow.readings + 1 }))
                  (reserve-held ttl k now s.states map held) in
            (ap (λ x. x.0) refusal, ap (λ x. x.1) refusal),
      )
