-- ===== src/Authz/AccessToken/Redemption.antt =====
-- One redemption, one access token.
use vcknots.Common.{
  List, Option, String, ap, arith, none, or_else, some, sym, ℕ, ◌+◌, ◌∙◌, ◌≡◌, ◌≢◌,
}
use vcknots.Errors.{ok}
use vcknots.Common.Map
use vcknots.Common.Number.{finite}
use vcknots.Common.Int.{pos}
use vcknots.Store.PreAuthorizedCode.{TxCode, PreAuthorizedCodeEntry}
use vcknots.Store.PreAuthorizedCode.Redeem.{consume-ok_absent, consume-ok_iff}
use vcknots.Store.PreAuthorizedCode.Trace.{CodeCall, NotSaved, run, run-absent}
use vcknots.Store.Allowed
use vcknots.Authz.Jose.{Jose}
use vcknots.Authz.DpopProof.{DpopProofOptions, VerifiedDpopProof}
use vcknots.Authz.State.{Server, consume_code}
use vcknots.Flow.Laws.{and_then-ok}
use vcknots.Authz.AccessToken.{
  pre_authorized_code, TokenRequestOptions, TokenResponse, DpopProofContext, verify_token_dpop,
  issue_token, create_access_token,
}

module _ {Key Material : Type 0} (jose : Jose Key Material) (proofs : DpopProofOptions)
    (authz : String) where
  -- What the proof and the signing leave alone.
  codes-verify_token_dpop :
      (c : Option DpopProofContext) (s : Server Material) {p : Option VerifiedDpopProof}
      {t : Server Material}
      → verify_token_dpop jose proofs authz c s ≡ (ok p, t)
      → (t.codes ≡ s.codes)
        × (t.max_attempts ≡ s.max_attempts)
        × (t.allowed ≡ s.allowed)
        × (t.clock ≡ s.clock)
  unfolding verify_token_dpop
  codes-verify_token_dpop none s h = (ground arith, ground arith, ground arith, ground arith)
  codes-verify_token_dpop (some c) s h = (ground arith, ground arith, ground arith, ground arith)

  codes-issue_token :
      (code : String) (o : TokenRequestOptions) (p : Option VerifiedDpopProof) (ids : List String)
      (s : Server Material) {r : TokenResponse} {t : Server Material}
      → issue_token jose proofs authz code o p ids s ≡ (ok r, t)
      → (t.codes ≡ s.codes)
        × (t.allowed
            ≡ Allowed.save
                (jose.token_hash r.access_token)
                ids
                (some (finite (pos (or_else o.ttl_sec 86400)) 0))
                (s.clock (s.readings + 1))
                s.allowed)
        × (t.readings ≡ s.readings + 1 + 1)
  unfolding issue_token
  codes-issue_token code o p ids s h = (ground arith, ground arith, ground arith)

  absent-consume_code :
      (code : String) (tx_code : Option TxCode) (s : Server Material) {ids : List String}
      {t : Server Material}
      → consume_code code tx_code s ≡ (ok ids, t)
      → (Map.get code t.codes ≡ none) × (t.allowed ≡ s.allowed) × (t.clock ≡ s.clock)
  unfolding consume_code
  absent-consume_code code tx_code s h =
      let gone =
        consume-ok_absent s.max_attempts code tx_code (s.clock s.readings) s.codes
          (ap (λ r. r.0) h) in
      (
        ap (λ r. Map.get code r.1.codes) (sym h) ∙ gone,
        ap (λ r. r.1.allowed) (sym h),
        ap (λ r. r.1.clock) (sym h),
      )

  -- A token response redeems the pre-authorized code: an entry was stored for the code, and the code is
  -- gone; and the store of allowed configurations is as after its `save` of the configurations of that
  -- entry under the hash of the token in the response, with `ttlSec`, or else a day, as the lifetime, at
  -- the last time that the clock was read.
  pub create_access_token-ok :
      (code : String) (tx_code : Option TxCode) (o : TokenRequestOptions) (s t : Server Material)
      (r : TokenResponse)
      → create_access_token jose proofs authz (pre_authorized_code code tx_code) o s ≡ (ok r, t)
      → (Map.get code t.codes ≡ none)
        × ((e : PreAuthorizedCodeEntry) × (reading : ℕ) × (Map.get code s.codes ≡ some e)
            × (t.readings ≡ reading + 1)
            × (t.allowed
                ≡ Allowed.save
                    (jose.token_hash r.access_token)
                    e.credential_configuration_ids
                    (some (finite (pos (or_else o.ttl_sec 86400)) 0))
                    (s.clock reading)
                    s.allowed))
  unfolding create_access_token
  create_access_token-ok code tx_code o s t r h =
      let (p, s1, e1, h1) = and_then-ok _ _ h in
      let (ids, s2, e2, h2) = and_then-ok _ _ h1 in
      let (c1, _, a1, k1) = codes-verify_token_dpop o.dpop_proof s e1 in
      let (e, found, _, same) =
        (consume-ok_iff s1.max_attempts code tx_code (s1.clock s1.readings) s1.codes ids).0
          (ap (λ r. r.0) (unfold consume_code in e2)) in
      let (gone, a2, k2) = absent-consume_code code tx_code s1 e2 in
      let (c3, a3, n3) = codes-issue_token code o p ids s2 h2 in
      let saved = λ (given : List String) (now : ℕ).
        Allowed.save (jose.token_hash r.access_token) given
          (some (finite (pos (or_else o.ttl_sec 86400)) 0)) now in
      (
        ap (Map.get code) c3 ∙ gone,
        (
          e,
          s2.readings + 1,
          ap (Map.get code) (sym c1) ∙ found,
          n3,
          a3
              ∙ ap (saved ids (s2.clock (s2.readings + 1))) (a2 ∙ a1)
              ∙ ap (λ given. saved given (s2.clock (s2.readings + 1)) s.allowed) (sym same)
              ∙ ap
                  (λ (clock : ℕ → ℕ).
                    saved e.credential_configuration_ids (clock (s2.readings + 1)) s.allowed)
                  (k2 ∙ k1),
        ),
      )

  found-consume_code :
      (code : String) (tx_code : Option TxCode) (s : Server Material) {ids : List String}
      {t : Server Material}
      → consume_code code tx_code s ≡ (ok ids, t)
      → Map.get code s.codes ≢ none
  unfolding consume_code
  found-consume_code code tx_code s h absent =
      let (e, found, _, _) =
        (consume-ok_iff s.max_attempts code tx_code (s.clock s.readings) s.codes _).0
          (ap (λ r. r.0) h) in
      cc

  -- A code gives one access token: after a token response for it, and after any calls of the code
  -- store in which no call saves that code anew, no token request with the code succeeds, with any
  -- `tx_code`, any options and any clock.
  pub code_gives_one_token :
      (code : String) (tx_code tx_code2 : Option TxCode) (o o2 : TokenRequestOptions)
      (s t s2 t2 : Server Material) (r r2 : TokenResponse) (calls : List CodeCall)
      → create_access_token jose proofs authz (pre_authorized_code code tx_code) o s ≡ (ok r, t)
      → NotSaved code calls
      → s2.codes ≡ run s.max_attempts calls t.codes
      → create_access_token jose proofs authz (pre_authorized_code code tx_code2) o2 s2
        ≢ (ok r2, t2)
  unfolding create_access_token
  code_gives_one_token code tx_code tx_code2 o o2 s t s2 t2 r r2 calls first unsaved later again =
      let (gone, _) = create_access_token-ok code tx_code o s t r first in
      let (p, s3, e, h) = and_then-ok _ _ again in
      let (ids, s4, e2, h2) = and_then-ok _ _ h in
      let (same, _, _, _) = codes-verify_token_dpop o2.dpop_proof s2 e in
      found-consume_code code tx_code2 s3 e2 (
        ap (Map.get code) (same ∙ later)
        ∙ run-absent s.max_attempts code calls t.codes unsaved gone)
