-- ===== src/Verifier/Present/Verified.antt =====
-- What the steps of `verifyPresentations` show when they succeed.
use vcknots.Common.{
  Bool, List, Option, String, [], ap, arith, includes, none, not, refl, some, sym, true, ◌&&◌, ◌=ˢ◌,
  ◌∙◌, ◌∷◌, ◌≡◌,
}
use vcknots.Errors.{ok}
use vcknots.Common.Map
use vcknots.Common.Map.{Map}
use vcknots.Flow.{guard, or_throw}
use vcknots.Flow.Laws.{and_then-ok, or_throw-ok, guard-ok, pure-ok}
use vcknots.Store.Nonce
use vcknots.Store.Nonce.Once.{is_live, consume_iff_validate}
use vcknots.Store.Transactions
use vcknots.Store.Transactions.{Transaction}
use vcknots.Verifier.Types.{
  CredentialQuery, CredentialSet, DcqlQuery, VpFormat, VerifierMetadata, AuthorizationResponse,
}
use vcknots.Verifier.State.{Verifier, fetch_transaction, validate_nonce}
use vcknots.Verifier.Query.{is_satisfied, check_credentials, check_sets, check_presented}
use vcknots.Verifier.Present.{state_matches, lookup_nonce, open_transaction, close_transaction}

-- Every query is presented, or one option of each set that is required.
abbrev pub has_each : List String → List CredentialQuery → Bool
has_each presented [] = true
has_each presented (c ∷ credentials) = includes presented c.id && has_each presented credentials

abbrev pub satisfies_each : List String → List CredentialSet → Bool
satisfies_each presented [] = true
satisfies_each presented (set ∷ sets) = is_satisfied presented set && satisfies_each presented sets

abbrev pub answers : List String → List CredentialQuery → Option (List CredentialSet) → Bool
answers presented credentials none = has_each presented credentials
answers presented credentials (some sets) = satisfies_each presented sets

module _ {S : Type 0} (presented : List String) where
  check_credentials-ok :
      (cs : List CredentialQuery) (s : S) {u : Unit {0}} {t : S}
      → check_credentials presented cs s ≡ (ok u, t)
      → (has_each presented cs ≡ true) × (s ≡ t)
  unfolding check_credentials
  check_credentials-ok [] s h = (refl, ap (λ r. r.1) h)
  check_credentials-ok (c ∷ cs) s h =
      let (_, s1, e1, h1) = and_then-ok (guard (includes presented c.id) _ _ s) _ h in
      let (here, same) = guard-ok (includes presented c.id) _ _ s e1 in
      let (rest, end) = check_credentials-ok cs s1 h1 in (ground (arith, here, rest), same ∙ end)

  check_sets-ok :
      (stringify : List (List String) → String) (sets : List CredentialSet) (s : S) {u : Unit {0}}
      {t : S}
      → check_sets stringify presented sets s ≡ (ok u, t)
      → (satisfies_each presented sets ≡ true) × (s ≡ t)
  unfolding check_sets
  check_sets-ok stringify [] s h = (refl, ap (λ r. r.1) h)
  check_sets-ok stringify (set ∷ sets) s h =
      let (_, s1, e1, h1) = and_then-ok (guard (is_satisfied presented set) _ _ s) _ h in
      let (here, same) = guard-ok (is_satisfied presented set) _ _ s e1 in
      let (rest, end) = check_sets-ok stringify sets s1 h1 in
      (ap (λ b. b && satisfies_each presented sets) here ∙ rest, same ∙ end)

  pub check_presented-ok :
      (stringify : List (List String) → String) (cs : List CredentialQuery)
      (sets : Option (List CredentialSet)) (s : S) {u : Unit {0}} {t : S}
      → check_presented stringify presented cs sets s ≡ (ok u, t)
      → (answers presented cs sets ≡ true) × (s ≡ t)
  unfolding check_presented
  check_presented-ok stringify cs none s h = check_credentials-ok cs s h
  check_presented-ok stringify cs (some sets) s h = check_sets-ok stringify sets s h

module _ {M : Type 0} where
  pub open_transaction-ok :
      (response : AuthorizationResponse) (id : String) (s : Verifier M) {tr : Transaction DcqlQuery}
      {formats : Map VpFormat} {t : Verifier M}
      → open_transaction response id s ≡ (ok (tr, formats), t)
      → ((Transactions.fetch id (s.clock s.readings) s.transactions).0 ≡ some tr)
        × ((m : VerifierMetadata) × (Map.get tr.verifier_id s.metadata ≡ some m)
            × (m.vp_formats_supported ≡ formats))
        × (state_matches tr.state response.state ≡ true)
        × ((fetch_transaction id s).1 ≡ t)
  unfolding open_transaction fetch_transaction
  open_transaction-ok response id s h =
      let (_, s1, e1, h1) = and_then-ok (guard (not (id =ˢ "")) _ _ s) _ h in
      let (tr, s2, e2, h2) =
        and_then-ok
          (or_throw (Transactions.fetch id (s1.clock s1.readings) s1.transactions).0 _ _
            (fetch_transaction id s1).1)
          _ h1 in
      let (m, s3, e3, h3) =
        and_then-ok (or_throw (Map.get tr.verifier_id s2.metadata) _ _ s2) _ h2 in
      let (_, s4, e4, h4) =
        and_then-ok (guard (state_matches tr.state response.state) _ _ s3) _ h3 in
      let start = (guard-ok (not (id =ˢ "")) _ _ s e1).1 in
      let (found, a2) =
        or_throw-ok (Transactions.fetch id (s1.clock s1.readings) s1.transactions).0 _ _
          (fetch_transaction id s1).1 e2 in
      let (known, a3) = or_throw-ok (Map.get tr.verifier_id s2.metadata) _ _ s2 e3 in
      let (matching, a4) = guard-ok (state_matches tr.state response.state) _ _ s3 e4 in
      let (same, end) = pure-ok (tr, m.vp_formats_supported) s4 h4 in
      let registered : s2.metadata ≡ s.metadata =
        ap (λ u. u.metadata) (sym a2) ∙ ap (λ u. u.metadata) (sym start) in
      (
        ap (λ u. (Transactions.fetch id (u.clock u.readings) u.transactions).0) start
            ∙ found
            ∙ ap (λ p. some p.0) same,
        (
          m,
          ap (λ p. Map.get p.0.verifier_id s.metadata) (sym same)
              ∙ ap (Map.get tr.verifier_id) (sym registered)
              ∙ known,
          ap (λ p. p.1) same,
        ),
        ap (λ p. state_matches p.0.state response.state) (sym same) ∙ matching,
        ap (λ u. (fetch_transaction id u).1) start ∙ a2 ∙ a3 ∙ a4 ∙ end,
      )

  pub close_transaction-ok :
      (nonce id : String) (s : Verifier M) {u : Unit {0}} {t : Verifier M}
      → close_transaction nonce id s ≡ (ok u, t)
      → (is_live (s.clock s.readings) (Map.get nonce s.nonces) ≡ true)
        × (Map.get nonce t.nonces ≡ none)
        × (Map.get id t.transactions ≡ none)
  unfolding close_transaction Nonce.revoke Transactions.delete
  close_transaction-ok nonce id s h =
      let (_, s1, e1, h1) =
        and_then-ok
          (guard (Nonce.validate (lookup_nonce nonce) (s.clock s.readings) s.nonces).0 _ _
            (validate_nonce (lookup_nonce nonce) s).1)
          _ h in
      let (valid, same) =
        guard-ok (Nonce.validate (lookup_nonce nonce) (s.clock s.readings) s.nonces).0 _ _
          (validate_nonce (lookup_nonce nonce) s).1 e1 in
      let (_, live, _, _) =
        consume_iff_validate (lookup_nonce nonce) (s.clock s.readings) s.nonces nonce in
      (
        sym live ∙ valid,
        ap (λ r. Map.get nonce r.1.nonces) (sym h1) ∙ Map.get-delete_same nonce s1.nonces,
        ap (λ r. Map.get id r.1.transactions) (sym h1) ∙ Map.get-delete_same id s1.transactions,
      )
