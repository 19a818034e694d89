-- ===== src/Verifier/Present/Accepted.antt =====
-- What is known of presentations that were accepted, and that they are accepted once.
use vcknots.Common.{List, String, ap, arith, none, some, subst, sym, true, ℕ, ◌+◌, ◌∙◌, ◌≡◌, ◌≢◌}
use vcknots.Errors.{ok}
use vcknots.Common.Map
use vcknots.Common.Map.{Map}
use vcknots.Flow.Laws.{and_then-ok, pure-ok}
use vcknots.Store.Nonce.Once.{is_live}
use vcknots.Store.Transactions
use vcknots.Store.Transactions.{Transaction}
use vcknots.Verifier.Types.{DcqlQuery, VerifierMetadata, AuthorizationResponse}
use vcknots.Verifier.State.{Verifier, fetch_transaction}
use vcknots.Verifier.Query.{check_presented}
use vcknots.Verifier.Present.{
  VpProvider, VerifyPresentationOptions, state_matches, verify_entries, ids_of, open_transaction,
  close_transaction, verify_presentations,
}
use vcknots.Verifier.Present.Verified.{
  answers, check_presented-ok, open_transaction-ok, close_transaction-ok,
}
use vcknots.Verifier.Present.Entries.{EntriesVerified, verify_entries-EntriesVerified}

module _ {M P : Type 0} (stringify : List (List String) → String)
    (providers : List (VpProvider M P)) where
  pub record IsAccepted (response : AuthorizationResponse) (id : String)
      (options : VerifyPresentationOptions) (s : Verifier M) (results : Map (List P))
      (t : Verifier M) : Type 0 where
    pub transaction : Transaction DcqlQuery
    pub found : (Transactions.fetch id (s.clock s.readings) s.transactions).0 ≡ some transaction
    pub metadata : VerifierMetadata
    pub known : Map.get transaction.verifier_id s.metadata ≡ some metadata
    pub same_state : state_matches transaction.state response.state ≡ true
    pub verified :
        EntriesVerified providers metadata.vp_formats_supported transaction options
          response.vp_token results
    pub answered :
        answers
          (ids_of results)
          transaction.dcql_query.credentials
          transaction.dcql_query.credential_sets
        ≡ true
    pub live : is_live (s.clock (s.readings + 1)) (Map.get transaction.nonce s.nonces) ≡ true
    pub spent : Map.get transaction.nonce t.nonces ≡ none
    pub closed : Map.get id t.transactions ≡ none

  -- Presentations are accepted only if the transaction is stored and in time and its verifier
  -- registered; the response has the state of the transaction, if that has one; every member of
  -- `vp_token` names a credential query of the transaction and has at least one presentation, all of them
  -- texts that a provider for the format of that query verified, against the client identifier and the
  -- nonce of the transaction; each credential query is presented, or one option of each credential set
  -- that is required; and the nonce of the transaction is live. Afterwards the nonce and the
  -- transaction are gone.
  pub verify_presentations-IsAccepted :
      (response : AuthorizationResponse) (id : String) (options : VerifyPresentationOptions)
      (s t : Verifier M) (results : Map (List P))
      → verify_presentations stringify providers response id options s ≡ (ok results, t)
      → IsAccepted response id options s results t
  unfolding verify_presentations fetch_transaction
  verify_presentations-IsAccepted response id options s t results h =
      let ((tr, formats), s1, e1, h1) = and_then-ok (open_transaction response id s) _ h in
      let (rs, s2, e2, h2) =
        and_then-ok (verify_entries providers formats tr options response.vp_token s1) _ h1 in
      let (_, s3, e3, h3) =
        and_then-ok
          (check_presented stringify (ids_of rs) tr.dcql_query.credentials
            tr.dcql_query.credential_sets s2)
          _ h2 in
      let (_, s4, e4, h4) = and_then-ok (close_transaction tr.nonce id s3) _ h3 in
      let (found, (m, known, formats_of), matching, a1) = open_transaction-ok response id s e1 in
      let (verified, a2) =
        verify_entries-EntriesVerified providers formats tr options response.vp_token s1 e2 in
      let (answered, a3) =
        check_presented-ok (ids_of rs) stringify tr.dcql_query.credentials
          tr.dcql_query.credential_sets s2 e3 in
      let (live, spent, closed) = close_transaction-ok tr.nonce id s3 e4 in
      let (all, end) = pure-ok rs s4 h4 in
      let here = a1 ∙ a2 ∙ a3 in
      record {
        transaction = tr;
        found = found;
        metadata = m;
        known = known;
        same_state = matching;
        verified =
            subst (λ f. EntriesVerified providers f tr options response.vp_token results)
              (sym formats_of)
              (subst (EntriesVerified providers formats tr options response.vp_token) all verified);
        answered =
            ap (λ r. answers (ids_of r) tr.dcql_query.credentials tr.dcql_query.credential_sets)
              (sym all)
            ∙ answered;
        live = ap (λ u. is_live (u.clock u.readings) (Map.get tr.nonce u.nonces)) here ∙ live;
        spent = ap (λ u. Map.get tr.nonce u.nonces) (sym end) ∙ spent;
        closed = ap (λ u. Map.get id u.transactions) (sym end) ∙ closed;
      }

  fetch-absent :
      (id : String) (now : ℕ) (m : Map (Transaction DcqlQuery)) {tr : Transaction DcqlQuery}
      → Map.get id m ≡ none
      → (Transactions.fetch id now m).0 ≢ some tr
  unfolding Transactions.fetch
  fetch-absent id now m absent found = ground arith

  -- Presentations are accepted once for a transaction: once they were, no response is accepted for the
  -- transaction again, with any options and any clock, while it has not been stored anew.
  pub accepted_once :
      (response response2 : AuthorizationResponse) (id : String)
      (options options2 : VerifyPresentationOptions) (s t s2 t2 : Verifier M)
      (results results2 : Map (List P))
      → verify_presentations stringify providers response id options s ≡ (ok results, t)
      → Map.get id s2.transactions ≡ Map.get id t.transactions
      → verify_presentations stringify providers response2 id options2 s2 ≢ (ok results2, t2)
  accepted_once response response2 id options options2 s t s2 t2 results results2 first later
        again =
      let a = verify_presentations-IsAccepted response id options s t results first in
      let b = verify_presentations-IsAccepted response2 id options2 s2 t2 results2 again in
      fetch-absent id (s2.clock s2.readings) s2.transactions (later ∙ a.closed) b.found
