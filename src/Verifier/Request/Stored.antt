-- ===== src/Verifier/Request/Stored.antt =====
-- What the steps of `createAuthzRequest` leave in the stores.
use vcknots.Common.{
  Bool, List, Option, Option-cases, String, [], ap, arith, eq_iff, eq_refl, false, inl, inr, none,
  not, some, subst, sym, true, ℕ, ◌&&◌, ◌+◌, ◌=ˢ◌, ◌||◌, ◌∙◌, ◌∷◌, ◌≡◌,
}
use vcknots.Errors.{ok}
use vcknots.Flow.{guard, or_throw}
use vcknots.Flow.Laws.{and_then-ok, or_throw-ok, guard-ok, pure-ok}
use vcknots.Common.Map
use vcknots.Common.Map.{Map}
use vcknots.Providers.{find_provider, select_provider}
use vcknots.Store.Nonce
use vcknots.Store.Nonce.{Nonce}
use vcknots.Store.Transactions
use vcknots.Store.Transactions.{TransactionRecord, default_transaction_expire_in_ms}
use vcknots.Authz.AccessToken.{truthy}
use vcknots.Verifier.Types.{
  CredentialQuery, DcqlQuery, VpFormat, RequestObject, AuthorizationRequest, by_reference, inline,
}
use vcknots.Verifier.State.{
  Verifier, save_nonce, save_transaction, save_request_object, has_certificate,
}
use vcknots.Verifier.Request.{
  prefix_of, is_client_identifier, CreateAuthzRequestOptions, JarProvider, parse, request_uri_of,
  check_formats, check_x509, open_request, make_request,
}

module _ {M : Type 0} where
  pub check_formats-ok :
      (formats : Map VpFormat) (cs : List CredentialQuery) (s : Verifier M) {u : Unit {0}}
      {t : Verifier M}
      → check_formats formats cs s ≡ (ok u, t)
      → s ≡ t
  unfolding check_formats
  check_formats-ok formats [] s h = ap (λ r. r.1) h
  check_formats-ok formats (c ∷ cs) s h =
      let (_, s1, e1, h1) = and_then-ok (guard (Map.has c.format formats) _ _ s) _ h in
      (guard-ok (Map.has c.format formats) _ _ s e1).1 ∙ check_formats-ok formats cs s1 h1

  pub check_x509-same :
      (verifier_id prefix : String) (is_request_uri : Bool) (s : Verifier M) {u : Unit {0}}
      {t : Verifier M}
      → check_x509 verifier_id prefix is_request_uri s ≡ (ok u, t)
      → s ≡ t
  unfolding check_x509
  check_x509-same verifier_id prefix is_request_uri s h =
      let (_, s1, e1, h1) =
        and_then-ok (guard (not (prefix =ˢ "x509_san_dns") || is_request_uri) _ _ s) _ h in
      (guard-ok (not (prefix =ˢ "x509_san_dns") || is_request_uri) _ _ s e1).1
      ∙ (guard-ok (not (prefix =ˢ "x509_san_dns") || has_certificate verifier_id s1) _ _ s1 h1).1

get-set_same : {V : Type 0} (k : String) (v : V) (m : Map V) → Map.get k (Map.set k v m) ≡ some v
get-set_same k v m = ground (arith, Map.get-set k k v m, eq_refl k)

-- A nonce that is saved has a lifetime, and is there.
save-ok :
    (n : Nonce) (now : ℕ) (m : Nonce.NonceStates) {u : Unit {0}}
    → (Nonce.save n now m).0 ≡ ok u
    → (ttl : ℕ) × (n.nonce_expires_in ≡ some ttl)
      × (Map.get n.nonce (Nonce.save n now m).1
          ≡ some (record { nonce = n; expires_at = now + ttl }))
unfolding Nonce.save
save-ok n now m h = elim (Option-cases n.nonce_expires_in) [
  | inl missing ↦ absurd (ground arith)
  | inr (ttl, found) ↦ (ttl, found, grind (arith, eq_refl, Map.get-set))
]

module _ {M : Type 0} (is_url : String → Bool) (nonce : Nonce) (transaction_id : String) where
  -- The transaction and the nonce of a request made at state `s`.
  pub record IsOpened (dcql_query : DcqlQuery) (client_id verifier_id : String)
      (state : Option String) (s t : Verifier M) : Type 0 where
    pub lifetime : ℕ
    pub limited : nonce.nonce_expires_in ≡ some lifetime
    pub nonce_kept :
        Map.get nonce.nonce t.nonces
        ≡ some (record { nonce = nonce; expires_at = s.clock s.readings + lifetime })
    pub kept :
        t.transactions
        ≡ Transactions.save s.transaction_expire_in transaction_id
            (record {
              dcql_query = dcql_query;
              client_id = client_id;
              verifier_id = verifier_id;
              state = state;
              nonce = nonce.nonce;
            })
            (s.clock (s.readings + 1))
            s.transactions

  open_request-IsOpened :
      (q : DcqlQuery) (client_id verifier_id : String) (state : Option String) (s : Verifier M)
      {u : Unit {0}} {t : Verifier M}
      → open_request is_url nonce transaction_id q client_id verifier_id state s ≡ (ok u, t)
      → IsOpened q client_id verifier_id state s t
  unfolding open_request save_nonce save_transaction
  open_request-IsOpened q client_id verifier_id state s h =
      let saved : Verifier M = (save_nonce nonce s).1 in
      let (_, s1, e1, h1) = and_then-ok (save_nonce nonce s) _ h in
      let (_, s2, e2, h2) =
        and_then-ok (parse (is_client_identifier client_id && is_url verifier_id) s1) _ h1 in
      let here : saved ≡ s2 = ap (λ r. r.1) e1 ∙ ap (λ r. r.1) e2 in
      let (ttl, limited, kept) = save-ok nonce (s.clock s.readings) s.nonces (ap (λ r. r.0) e1) in
      record {
        lifetime = ttl;
        limited = limited;
        nonce_kept =
            ap (λ r. Map.get nonce.nonce r.1.nonces) (sym h2)
            ∙ ap (λ u. Map.get nonce.nonce u.nonces) (sym here)
            ∙ kept;
        kept =
            ap (λ r. r.1.transactions) (sym h2)
            ∙ ap
                (λ u.
                  Transactions.save u.transaction_expire_in transaction_id
                    (record {
                      dcql_query = q;
                      client_id = client_id;
                      verifier_id = verifier_id;
                      state = state;
                      nonce = nonce.nonce;
                    })
                    (u.clock u.readings) u.transactions)
                (sym here);
      }

-- The nonce that a request carries to the wallet: its own, or that of the object it refers to.
abbrev pub carries : String → String → AuthorizationRequest → Map RequestObject → Bool
carries id n (inline object) objects = object.nonce =ˢ n
carries id n (by_reference client_id uri) objects = elim (Map.get id objects) [
  | none ↦ false
  | some object ↦ object.nonce =ˢ n
]

by_reference-carries :
    (id n client_id uri : String) (objects : Map RequestObject) (o : RequestObject)
    → Map.get id objects ≡ some o
    → o.nonce ≡ n
    → carries id n (by_reference client_id uri) objects ≡ true
by_reference-carries id n client_id uri objects o found named =
    ground (arith, (eq_iff o.nonce n).1 named)

module _ {M : Type 0} (is_url : String → Bool) (encode_component : String → String)
    (jars : List (JarProvider M)) (nonce : Nonce) (transaction_id request_object_id : String) where
  pub make_request-IsOpened :
      (is_request_uri : Bool) (object : RequestObject) (verifier_id : String)
      (options : CreateAuthzRequestOptions) (s : Verifier M) {r : AuthorizationRequest}
      {t : Verifier M}
      → object.nonce ≡ nonce.nonce
      → make_request is_url encode_component jars nonce transaction_id request_object_id
          is_request_uri object verifier_id options s
        ≡ (ok r, t)
      → IsOpened is_url nonce transaction_id object.dcql_query object.client_id verifier_id
          options.state s t
        × (carries request_object_id nonce.nonce r t.request_objects ≡ true)
  unfolding make_request save_request_object
  make_request-IsOpened false object verifier_id options s {t = t} named h =
      let (_, s1, e1, h1) =
        and_then-ok
          (open_request is_url nonce transaction_id object.dcql_query object.client_id verifier_id
            options.state s)
          _ h in
      let (_, s2, e2, h2) = and_then-ok (parse (is_url object.response_uri) s1) _ h1 in
      let (same, end) = pure-ok (inline object) s2 h2 in
      (
        subst
            (IsOpened is_url nonce transaction_id object.dcql_query object.client_id verifier_id
              options.state s)
            (ap (λ r. r.1) e2 ∙ end)
            (open_request-IsOpened is_url nonce transaction_id object.dcql_query object.client_id
              verifier_id options.state s e1),
        ap (λ r. carries request_object_id nonce.nonce r t.request_objects) (sym same)
            ∙ (eq_iff object.nonce nonce.nonce).1 named,
      )
  make_request-IsOpened true object verifier_id options s {t = t} named h =
      let (_, s1, e1, h1) =
        and_then-ok (select_provider (λ p. p.can_handle (prefix_of object.client_id)) jars _ s) _
          h in
      let (base_url, s2, e2, h2) = and_then-ok (or_throw (truthy options.base_url) _ _ s1) _ h1 in
      let (_, s3, e3, h3) =
        and_then-ok
          (open_request is_url nonce transaction_id object.dcql_query object.client_id verifier_id
            options.state s2)
          _ h2 in
      let (_, s4, e4, h4) = and_then-ok (parse (is_url object.response_uri) s3) _ h3 in
      let delivered : RequestObject = record object {
        scope = options.scope;
        iss = some object.client_id;
        aud = some "https://self-issued.me/v2";
      } in
      let stored : Verifier M = (save_request_object request_object_id delivered s4).1 in
      let uri = request_uri_of encode_component request_object_id options base_url in
      let (_, s5, e5, h5) = and_then-ok (parse (is_url uri) stored) _ h4 in
      let (same, end) = pure-ok (by_reference object.client_id uri) s5 h5 in
      let back : stored ≡ t = ap (λ r. r.1) e5 ∙ end in
      let here : s ≡ s2 =
        (or_throw-ok (find_provider (λ p. p.can_handle (prefix_of object.client_id)) jars) _ _ s
          e1).1
        ∙ (or_throw-ok (truthy options.base_url) _ _ s1 e2).1 in
      let opened =
        open_request-IsOpened is_url nonce transaction_id object.dcql_query object.client_id
          verifier_id options.state s2 e3 in
      let after : s3 ≡ s4 = ap (λ r. r.1) e4 in
      (
        subst
            (λ u.
              IsOpened is_url nonce transaction_id object.dcql_query object.client_id verifier_id
                options.state u t)
            (sym here)
            (record {
              lifetime = opened.lifetime;
              limited = opened.limited;
              nonce_kept =
                  ap (λ u. Map.get nonce.nonce u.nonces) (sym back)
                  ∙ ap (λ u. Map.get nonce.nonce u.nonces) (sym after)
                  ∙ opened.nonce_kept;
              kept =
                  ap (λ u. u.transactions) (sym back)
                  ∙ ap (λ u. u.transactions) (sym after)
                  ∙ opened.kept;
            }),
        ap (λ r. carries request_object_id nonce.nonce r t.request_objects) (sym same)
            ∙ by_reference-carries request_object_id nonce.nonce object.client_id uri
                t.request_objects delivered
                (ap (λ u. Map.get request_object_id u.request_objects) (sym back)
                  ∙ get-set_same request_object_id delivered s4.request_objects)
                named,
      )
