-- ===== src/Verifier/Request/Opened.antt =====
-- An authorization request opens a transaction that can be answered.
use vcknots.Common.{
  Bool, List, Option, String, ap, arith, eq_refl, none, or_else, refl, some, subst, sym, true, ℕ,
  ◌+ˢ◌, ◌+◌, ◌∙◌, ◌≡◌, ◌≤◌,
}
use vcknots.Errors.{Result, ok}
use vcknots.Flow.{or_throw, lift}
use vcknots.Flow.Laws.{and_then-ok, or_throw-ok, lift-ok, pure-ok}
use vcknots.Common.Json.{Fields}
use vcknots.Common.Map
use vcknots.Store.Nonce.{Nonce, NonceState}
use vcknots.Store.Nonce.Once.{is_live}
use vcknots.Store.Transactions
use vcknots.Store.Transactions.{TransactionRecord, default_transaction_expire_in_ms}
use vcknots.Store.Transactions.Lifetime.{records, fetch-save_transaction}
use vcknots.Verifier.Types.{DcqlQuery, ResponseMode, RequestObject, AuthorizationRequest}
use vcknots.Verifier.State.{Verifier}
use vcknots.Verifier.Request.{
  prefix_of, CreateAuthzRequestOptions, JarProvider, check_formats, check_x509, make_request,
  transaction_data_of, create_authz_request,
}
use vcknots.Verifier.Request.Stored.{
  IsOpened, carries, make_request-IsOpened, check_formats-ok, check_x509-same,
}

live-until :
    (n : Nonce) (o : Option NonceState) (d now : ℕ)
    → o ≡ some (record { nonce = n; expires_at = d })
    → now ≤ d
    → is_live now o ≡ true
live-until n o d now found h = ground arith

module _ {M : Type 0} (is_url : String → Bool) (encode_component : String → String)
    (jars : List (JarProvider M)) (nonce : Nonce) (transaction_id request_object_id : String)
    (encode : Fields → String) where
  pub create_authz_request-IsOpened :
      (verifier_id response_type client_id : String) (mode : ResponseMode)
      (generated : Result DcqlQuery) (is_request_uri : Bool) (options : CreateAuthzRequestOptions)
      (s : Verifier M) {request : AuthorizationRequest} {id : String} {t : Verifier M}
      → create_authz_request is_url encode_component jars nonce transaction_id request_object_id
          encode verifier_id response_type client_id mode generated is_request_uri options s
        ≡ (ok (request, id), t)
      → (q : DcqlQuery) × (generated ≡ ok q)
        × (transaction_id ≡ id)
        × IsOpened is_url nonce transaction_id q client_id verifier_id options.state s t
        × (carries request_object_id nonce.nonce request t.request_objects ≡ true)
  unfolding create_authz_request
  create_authz_request-IsOpened verifier_id response_type client_id mode generated is_request_uri
        options s {t = t} h =
      let (_, s1, e1, h1) =
        and_then-ok (check_x509 verifier_id (prefix_of client_id) is_request_uri s) _ h in
      let (metadata, s2, e2, h2) =
        and_then-ok (or_throw (Map.get verifier_id s1.metadata) _ _ s1) _ h1 in
      let (q, s3, e3, h3) = and_then-ok (lift generated s2) _ h2 in
      let (_, s4, e4, h4) =
        and_then-ok (check_formats metadata.vp_formats_supported q.credentials s3) _ h3 in
      let object : RequestObject = record {
        response_type = response_type;
        client_id = client_id;
        scope = none;
        state = options.state;
        response_uri = or_else options.response_uri (verifier_id +ˢ "/post");
        iss = none;
        aud = none;
        client_metadata = metadata;
        response_mode = mode;
        nonce = nonce.nonce;
        dcql_query = q;
        transaction_data = transaction_data_of encode q.credentials options.transaction_data_type;
      } in
      let (request, s5, e5, h5) =
        and_then-ok
          (make_request is_url encode_component jars nonce transaction_id request_object_id
            is_request_uri object verifier_id options s4)
          _ h4 in
      let (same, end) = pure-ok (request, transaction_id) s5 h5 in
      let here : s ≡ s4 =
        check_x509-same verifier_id (prefix_of client_id) is_request_uri s e1
        ∙ (or_throw-ok (Map.get verifier_id s1.metadata) _ _ s1 e2).1
        ∙ (lift-ok generated s2 e3).1
        ∙ check_formats-ok metadata.vp_formats_supported q.credentials s3 e4 in
      let (opened, carried) =
        make_request-IsOpened is_url encode_component jars nonce transaction_id request_object_id
          is_request_uri object verifier_id options s4 refl e5 in
      (
        q,
        (lift-ok generated s2 e3).0,
        ap (λ p. p.1) same,
        subst (λ u. IsOpened is_url nonce transaction_id q client_id verifier_id options.state u t)
            (sym here)
            (subst (IsOpened is_url nonce transaction_id q client_id verifier_id options.state s4)
              end opened),
        ap (λ p. carries request_object_id nonce.nonce p.0 t.request_objects) (sym same)
            ∙ ap (λ u. carries request_object_id nonce.nonce request u.request_objects) (sym end)
            ∙ carried,
      )

  -- A request opens its transaction: after a request was made, and up to the ends of the lifetimes of
  -- its nonce and its transaction, its transaction identifier finds the query that was generated, with
  -- the client identifier, the verifier, the `state` and the nonce of the request; the nonce is live; and
  -- the request, or the stored object that it refers to, carries this nonce to the wallet.
  pub request_opens_transaction :
      (verifier_id response_type client_id : String) (mode : ResponseMode)
      (generated : Result DcqlQuery) (is_request_uri : Bool) (options : CreateAuthzRequestOptions)
      (s t : Verifier M) (request : AuthorizationRequest) (id : String) (lifetime now : ℕ)
      → create_authz_request is_url encode_component jars nonce transaction_id request_object_id
          encode verifier_id response_type client_id mode generated is_request_uri options s
        ≡ (ok (request, id), t)
      → nonce.nonce_expires_in ≡ some lifetime
      → now ≤ s.clock s.readings + lifetime
      → now
        ≤ s.clock (s.readings + 1)
          + or_else s.transaction_expire_in default_transaction_expire_in_ms
      → (q : DcqlQuery) × (generated ≡ ok q)
        × (records (Transactions.fetch id now t.transactions).0
            ≡ some (record {
              dcql_query = q;
              client_id = client_id;
              verifier_id = verifier_id;
              state = options.state;
              nonce = nonce.nonce;
            }))
        × (is_live now (Map.get nonce.nonce t.nonces) ≡ true)
        × (carries request_object_id nonce.nonce request t.request_objects ≡ true)
  request_opens_transaction verifier_id response_type client_id mode generated is_request_uri
        options s t request id lifetime now made limited in_life in_time =
      let (q, parsed, same, opened, carried) =
        create_authz_request-IsOpened verifier_id response_type client_id mode generated
          is_request_uri options s made in
      let saved : TransactionRecord DcqlQuery = record {
        dcql_query = q;
        client_id = client_id;
        verifier_id = verifier_id;
        state = options.state;
        nonce = nonce.nonce;
      } in
      let (kept, _) =
        fetch-save_transaction s.transaction_expire_in transaction_id transaction_id saved
          (s.clock (s.readings + 1)) now s.transactions in
      (
        q,
        parsed,
        ap (λ i. records (Transactions.fetch i now t.transactions).0) (sym same)
            ∙ ap (λ m. records (Transactions.fetch transaction_id now m).0) opened.kept
            ∙ kept
            ∙ ground (arith, eq_refl transaction_id, in_time),
        live-until nonce _ (s.clock s.readings + lifetime) now
            (opened.nonce_kept
              ∙ ap
                  (λ o.
                    some (record { nonce = nonce; expires_at = s.clock s.readings + or_else o 0 }))
                  (sym opened.limited ∙ limited))
            in_life,
        carried,
      )
