-- ===== src/Issuer/Offer/Redeemable.antt =====
-- What is offered can be redeemed, by the `tx_code` that is given back.
use vcknots.Common.{
  Bool, List, Option, String, ap, arith, false, inl, inr, none, or_else, some, sym, ℕ, ◌*◌, ◌+◌,
  ◌<◌, ◌∙◌, ◌≡◌, ◌≤◌,
}
use vcknots.Errors.{ok, Result-cases}
use vcknots.Flow.{guard}
use vcknots.Flow.Laws.{and_then-ok, guard-ok, pure-ok}
use vcknots.Common.Map
use vcknots.Common.Number.{Number}
use vcknots.Store.PreAuthorizedCode
use vcknots.Store.PreAuthorizedCode.{
  TxCode, text, number, TxCodeInputMode, text_mode, numeric_mode, PreAuthorizedCodeEntry,
  SaveOptions, Codes, has_expired, positive_seconds, ttl_option, mode_option, to_digit_string,
  stored_tx_code, tx_code_matches,
}
use vcknots.Store.PreAuthorizedCode.Redeem
use vcknots.Issuer.TransactionCode.{TxCodeOptions, generate, random_number}
use vcknots.Issuer.Types.{CredentialIssuerMetadata}
use vcknots.Issuer.Metadata.{require_issuer_metadata}
use vcknots.Issuer.Metadata.Found.{require_issuer_metadata-same}
use vcknots.Issuer.Offer.{
  OfferOptions, authorization_code_offer, pre_auth_offer, CredentialOfferResponse, input_mode_of,
  check_offer, check_server, has_multiple, all_distinct, generate_tx_code, checked_metadata,
  offer_with, offer_credential,
}
use vcknots.Authz.Jose.{Jose}
use vcknots.Authz.AccessToken.{truthy}
use vcknots.Authz.State.{Server, save_code}
use vcknots.Issuer.Offer.Kept.{IsOffered, SuitsMode, save_code-IsOffered}

module _ (draws : ℕ → ℕ → ℕ → ℕ) where
  generate-SuitsMode :
      (o : TxCodeOptions) {c : TxCode}
      → generate draws o ≡ ok c
      → SuitsMode (or_else o.input_mode numeric_mode) (some c)
  unfolding generate
  generate-SuitsMode o h = unfold random_number in ground arith

module _ {M : Type 0} (draws : ℕ → ℕ → ℕ → ℕ) where
  generate_tx_code-SuitsMode :
      (o : Option TxCodeOptions) (s : Server M) {c : Option TxCode} {t : Server M}
      → generate_tx_code draws o s ≡ (ok c, t)
      → SuitsMode (or_else (input_mode_of o) numeric_mode) c × (s ≡ t)
  unfolding generate_tx_code
  generate_tx_code-SuitsMode none s h = (ground arith, ground arith)
  generate_tx_code-SuitsMode (some o) s h = elim (Result-cases (generate draws o)) [
    | inl (e, refused) ↦ absurd (ground arith)
    | inr (c, made) ↦ (ground (arith, generate-SuitsMode draws o made), ground arith)
  ]

module _ {M : Type 0} (m : CredentialIssuerMetadata) where
  check_server-same :
      (server : Option String) (s : Server M) {u : Unit {0}} {t : Server M}
      → check_server m server s ≡ (ok u, t)
      → s ≡ t
  check_server-same none s h = ap (λ p. p.1) h
  check_server-same (some server) s h =
      let (_, s0, e0, h0) = and_then-ok (guard (has_multiple m.authorization_servers) _ _ s) _ h in
      (guard-ok _ _ _ s e0).1 ∙ (guard-ok _ _ _ s0 h0).1

  check_offer-same :
      (ids : List String) (server : Option String) (s : Server M) {u : Unit {0}} {t : Server M}
      → check_offer m ids server s ≡ (ok u, t)
      → s ≡ t
  unfolding check_offer
  check_offer-same ids server s h =
      let (_, s0, e0, h0) = and_then-ok (guard (all_distinct ids) _ _ s) _ h in
      let (_, s1, e1, h1) = and_then-ok (check_server m (truthy server) s0) _ h0 in
      (guard-ok _ _ _ s e0).1 ∙ check_server-same (truthy server) s0 e1 ∙ (guard-ok _ _ _ s1 h1).1

unexpired-until : (d now : ℕ) → now ≤ d → has_expired (some d) now ≡ false
unexpired-until d now h = ground arith

-- The lifetime that an offer asks for.
abbrev pub ttl_of : Option OfferOptions → Option Number
ttl_of (some (pre_auth_offer _ ttl_sec _)) = ttl_sec
ttl_of _ = none

module _ {Key Material : Type 0} (jose : Jose Key Material) (debug : Bool) (draws : ℕ → ℕ → ℕ → ℕ)
    (code : String) where
  -- What an offer leaves in the store of codes.
  pub record IsStored (configurations : List String) (ttl : Option Number) (s : Server Material)
      (r : CredentialOfferResponse) (t : Server Material) : Type 0 where
    pub entry : PreAuthorizedCodeEntry
    pub found : Map.get code t.codes ≡ some entry
    pub offered : IsOffered configurations r.tx_code entry
    pub deadline : entry.expires_at ≡ some (s.clock s.readings + positive_seconds ttl * 1000)
    pub named : r.offer.pre_authorized_code ≡ code

  checked_metadata-same :
      (issuer : String) (ids : List String) (server : Option String) (s : Server Material)
      {m : CredentialIssuerMetadata} {t : Server Material}
      → checked_metadata jose debug issuer ids server s ≡ (ok m, t)
      → s ≡ t
  unfolding checked_metadata
  checked_metadata-same issuer ids server s h =
      let (metadata, s1, e1, h1) = and_then-ok (require_issuer_metadata jose debug issuer s) _ h in
      let (_, s2, e2, h2) = and_then-ok (check_offer metadata ids server s1) _ h1 in
      require_issuer_metadata-same jose debug issuer s e1
      ∙ check_offer-same metadata ids server s1 e2
      ∙ (pure-ok metadata s2 h2).1

  offer_with-IsStored :
      (issuer : String) (ids : List String) (o : Option TxCodeOptions) (ttl : Option Number)
      (server : Option String) (s : Server Material) {r : CredentialOfferResponse}
      {t : Server Material}
      → offer_with jose debug draws code issuer ids o ttl server s ≡ (ok r, t)
      → IsStored ids ttl s r t
  unfolding offer_with
  offer_with-IsStored issuer ids o ttl server s h =
      let (metadata, s1, e1, h1) =
        and_then-ok (checked_metadata jose debug issuer ids server s) _ h in
      let (tx_code, s2, e2, h2) = and_then-ok (generate_tx_code draws o s1) _ h1 in
      let (_, s3, e3, h3) = and_then-ok (save_code code ids tx_code _ s2) _ h2 in
      let (suits, same) = generate_tx_code-SuitsMode draws o s1 e2 in
      let (e, stored, offered, deadline, _) = save_code-IsOffered code ids tx_code _ s2 suits e3 in
      let here : s ≡ s2 = checked_metadata-same issuer ids server s e1 ∙ same in
      let (response, after) = pure-ok _ s3 h3 in
      record {
        entry = e;
        found = ap (λ u. Map.get code u.codes) (sym after) ∙ stored;
        offered = record {
          configurations_kept = offered.configurations_kept;
          untried = offered.untried;
          fitting = ap (λ r. Redeem.fits e e.tx_code r.tx_code) (sym response) ∙ offered.fitting;
        };
        deadline =
            deadline ∙ ap (λ u. some (u.clock u.readings + positive_seconds ttl * 1000)) (sym here);
        named = ap (λ r. r.offer.pre_authorized_code) (sym response);
      }

  redeem-IsStored :
      {configurations : List String} {ttl : Option Number} {s t : Server Material}
      {r : CredentialOfferResponse} (now : ℕ)
      → IsStored configurations ttl s r t
      → 0 < t.max_attempts
      → now ≤ s.clock s.readings + positive_seconds ttl * 1000
      → (PreAuthorizedCode.consume t.max_attempts r.offer.pre_authorized_code r.tx_code now
          t.codes).0
        ≡ ok configurations
  redeem-IsStored {s = s} {t = t} {r = r} now stored open_ in_time =
      let o = stored.offered in
      ap (λ c. (PreAuthorizedCode.consume t.max_attempts c r.tx_code now t.codes).0) stored.named
      ∙ Redeem.redeem t.max_attempts code r.tx_code now t.codes stored.entry stored.found (record {
        open_to_attempts = rw o.untried open_;
        unexpired = ap (λ d. has_expired d now) stored.deadline ∙ unexpired-until _ now in_time;
        fitting = o.fitting;
      })
      ∙ ap ok o.configurations_kept

  pub offer_credential-IsStored :
      (issuer : String) (configurations : List String) (options : Option OfferOptions)
      (s : Server Material) {r : CredentialOfferResponse} {t : Server Material}
      → offer_credential jose debug draws code issuer configurations options s ≡ (ok r, t)
      → IsStored configurations (ttl_of options) s r t
  unfolding offer_credential
  offer_credential-IsStored issuer ids none s h = offer_with-IsStored issuer ids none none none s h
  offer_credential-IsStored issuer ids (some authorization_code_offer) s h = absurd (ground arith)
  offer_credential-IsStored issuer ids (some (pre_auth_offer o ttl server)) s h =
      offer_with-IsStored issuer ids o ttl server s h

  -- What is offered can be redeemed: with at least one attempt allowed, the code of a credential offer
  -- and the `tx_code` that was given back with it redeem exactly the configurations of the offer, at
  -- any time until the `ttlSec` of the offer, or its default, has passed.
  pub offer-redeemable :
      (issuer : String) (configurations : List String) (options : Option OfferOptions)
      (s t : Server Material) (r : CredentialOfferResponse) (now : ℕ)
      → offer_credential jose debug draws code issuer configurations options s ≡ (ok r, t)
      → 0 < t.max_attempts
      → now ≤ s.clock s.readings + positive_seconds (ttl_of options) * 1000
      → (PreAuthorizedCode.consume t.max_attempts r.offer.pre_authorized_code r.tx_code now
          t.codes).0
        ≡ ok configurations
  offer-redeemable issuer ids options s t r now h open_ in_time =
      redeem-IsStored now (offer_credential-IsStored issuer ids options s h) open_ in_time
