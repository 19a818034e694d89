-- ===== src/Verifier/Present/Entries.antt =====
-- What the loop over the members of `vp_token` shows when it succeeds.
use vcknots.Common.{List, Option, String, [], ap, arith, refl, some, subst, true, ◌∙◌, ◌∷◌, ◌≡◌}
use vcknots.Errors.{ok}
use vcknots.Common.Map.{Map}
use vcknots.Providers.{find_provider, select_provider}
use vcknots.Flow.{guard, or_throw, lift}
use vcknots.Flow.Laws.{and_then-ok, or_throw-ok, guard-ok, lift-ok, pure-ok}
use vcknots.Store.Transactions.{Transaction}
use vcknots.Authz.AccessToken.{truthy}
use vcknots.Verifier.Types.{
  DcqlQuery, VpFormat, VerifiablePresentation, compact, json_object, VpVerifyOptions,
}
use vcknots.Verifier.State.{Verifier}
use vcknots.Verifier.Query.{format_of}
use vcknots.Verifier.Present.{
  VpProvider, VerifyPresentationOptions, provider_key, verify_options, verify_all, not_empty,
  verify_entry, verify_entries,
}

truthy-some : (o : Option String) {a : String} → truthy o ≡ some a → o ≡ some a
truthy-some o h = ground arith

module _ {M P : Type 0} where
  -- Each presentation is a text that the provider verified, with its payload.
  abbrev pub AreVerified :
      VpProvider M P → VpVerifyOptions → List VerifiablePresentation → List P → Type 0
  AreVerified provider options [] [] = Unit {0}
  AreVerified provider options (compact vp ∷ vps) (p ∷ payloads) =
      ((s : Verifier M) × (provider.verify vp options s ≡ ok p))
      × AreVerified provider options vps payloads
  AreVerified provider options _ _ = ⊥

  verify_all-AreVerified :
      (provider : VpProvider M P) (options : VpVerifyOptions) (vps : List VerifiablePresentation)
      (s : Verifier M) {payloads : List P} {t : Verifier M}
      → verify_all provider options vps s ≡ (ok payloads, t)
      → AreVerified provider options vps payloads × (s ≡ t)
  unfolding verify_all
  verify_all-AreVerified provider options [] s {payloads = []} h = (tt, ap (λ r. r.1) h)
  verify_all-AreVerified provider options [] s {payloads = p ∷ ps} h = absurd (ground arith)
  verify_all-AreVerified provider options (json_object _ ∷ vps) s h = absurd (ground arith)
  verify_all-AreVerified provider options (compact vp ∷ vps) s {payloads = payloads} h =
      let (p, s1, e1, h1) = and_then-ok (lift (provider.verify vp options s) s) _ h in
      let (ps, s2, e2, h2) = and_then-ok (verify_all provider options vps s1) _ h1 in
      let (verified, same) = lift-ok _ s e1 in
      let (rest, same2) = verify_all-AreVerified provider options vps s1 e2 in
      let (all, end) = pure-ok (p ∷ ps) s2 h2 in
      (
        subst (AreVerified provider options (compact vp ∷ vps)) all ((s, verified), rest),
        same ∙ same2 ∙ end,
      )

  -- Each member of `vp_token` names a query of the transaction and has presentations, all of them
  -- verified by a provider for the format of that query.
  abbrev pub EntriesVerified :
      List (VpProvider M P)
      → Map VpFormat
      → Transaction DcqlQuery
      → VerifyPresentationOptions
      → Map (List VerifiablePresentation)
      → Map (List P)
      → Type 0
  EntriesVerified providers formats t options [] [] = Unit {0}
  EntriesVerified providers formats t options ((id, vps) ∷ entries) ((id', payloads) ∷ results) =
      ((format : String) × (provider : VpProvider M P) × (id' ≡ id)
        × (format_of id t.dcql_query.credentials ≡ some format)
        × (find_provider (λ p. p.can_handle (provider_key format)) providers ≡ some provider)
        × (not_empty vps ≡ true)
        × AreVerified provider (verify_options id format formats t options) vps payloads)
      × EntriesVerified providers formats t options entries results
  EntriesVerified providers formats t options _ _ = ⊥

  verify_entry-ok :
      (providers : List (VpProvider M P)) (formats : Map VpFormat) (t : Transaction DcqlQuery)
      (options : VerifyPresentationOptions) (id : String) (vps : List VerifiablePresentation)
      (s : Verifier M) {payloads : List P} {t' : Verifier M}
      → verify_entry providers formats t options id vps s ≡ (ok payloads, t')
      → ((format : String) × (provider : VpProvider M P) × (format_of id t.dcql_query.credentials
            ≡ some format)
          × (find_provider (λ p. p.can_handle (provider_key format)) providers ≡ some provider)
          × (not_empty vps ≡ true)
          × AreVerified provider (verify_options id format formats t options) vps payloads)
        × (s ≡ t')
  unfolding verify_entry
  verify_entry-ok providers formats t options id vps s h =
      let (format, s1, e1, h1) =
        and_then-ok (or_throw (truthy (format_of id t.dcql_query.credentials)) _ _ s) _ h in
      let (_, s2, e2, h2) = and_then-ok (guard (not_empty vps) _ _ s1) _ h1 in
      let (provider, s3, e3, h3) =
        and_then-ok (select_provider (λ p. p.can_handle (provider_key format)) providers _ s2) _
          h2 in
      let (known, a1) = or_throw-ok (truthy (format_of id t.dcql_query.credentials)) _ _ s e1 in
      let (some_vp, a2) = guard-ok (not_empty vps) _ _ s1 e2 in
      let (found, a3) =
        or_throw-ok (find_provider (λ p. p.can_handle (provider_key format)) providers) _ _ s2 e3 in
      let (verified, a4) =
        verify_all-AreVerified provider (verify_options id format formats t options) vps s3 h3 in
      (
        (
          format,
          provider,
          truthy-some (format_of id t.dcql_query.credentials) known,
          found,
          some_vp,
          verified,
        ),
        a1 ∙ a2 ∙ a3 ∙ a4,
      )

  pub verify_entries-EntriesVerified :
      (providers : List (VpProvider M P)) (formats : Map VpFormat) (t : Transaction DcqlQuery)
      (options : VerifyPresentationOptions) (entries : Map (List VerifiablePresentation))
      (s : Verifier M) {results : Map (List P)} {t' : Verifier M}
      → verify_entries providers formats t options entries s ≡ (ok results, t')
      → EntriesVerified providers formats t options entries results × (s ≡ t')
  unfolding verify_entries
  verify_entries-EntriesVerified providers formats t options [] s {results = []} h =
      (tt, ap (λ r. r.1) h)
  verify_entries-EntriesVerified providers formats t options [] s {results = r ∷ rs} h =
      absurd (ground arith)
  verify_entries-EntriesVerified providers formats t options ((id, vps) ∷ entries) s h =
      let (payloads, s1, e1, h1) =
        and_then-ok (verify_entry providers formats t options id vps s) _ h in
      let (results, s2, e2, h2) =
        and_then-ok (verify_entries providers formats t options entries s1) _ h1 in
      let ((format, provider, known, found, some_vp, verified), a1) =
        verify_entry-ok providers formats t options id vps s e1 in
      let (rest, a2) = verify_entries-EntriesVerified providers formats t options entries s1 e2 in
      let (all, end) = pure-ok ((id, payloads) ∷ results) s2 h2 in
      (
        subst (EntriesVerified providers formats t options ((id, vps) ∷ entries)) all
            ((format, provider, refl, known, found, some_vp, verified), rest),
        a1 ∙ a2 ∙ end,
      )
