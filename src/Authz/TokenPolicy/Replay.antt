-- ===== src/Authz/TokenPolicy/Replay.antt =====
-- What an accepted token request has passed: the gate for anonymous clients and the use of a `jti`.
use vcknots.Common.{List, Option, String, ap, arith, some, sym, true, ◌+◌, ◌<◌, ◌∙◌, ◌≡◌, ◌≢◌, ◌≤◌}
use vcknots.Authz.Types.{DpopMode, AuthzOAuthClient}
use vcknots.Authz.Jose.{Jose}
use vcknots.Authz.Request.{RequestData, is_pre_authorized_code_token_request}
use vcknots.Authz.Policy.{ClientContext}
use vcknots.Errors.{ok}
use vcknots.Common.Map
use vcknots.Common.Int.{ℤ}
use vcknots.Common.Map.{IsMap}
use vcknots.Store.Jti
use vcknots.Store.Jti.Replay.{JtiCall, AllBy, run}
use vcknots.Authz.State.{Server}
use vcknots.Authz.TokenPolicy.{
  accepted, allows_anonymous, is_anonymous, remaining_ms, store_assertion_jti, resolve_context,
}

module _ {Key Material : Type 0} (jose : Jose Key Material) (authz : String) where
  -- An accepted assertion leaves the store as its `saveIfAbsent` does.
  jtis-store_assertion_jti :
      (client : AuthzOAuthClient) (c c' : ClientContext) (jti : String) (exp : ℤ) (mode : DpopMode)
      (s : Server Material)
      → (store_assertion_jti jose authz client c jti exp s).0 ≡ ok (accepted c' mode)
      → (store_assertion_jti jose authz client c jti exp s).1.assertion_jtis
        ≡ (Jti.save_assertion_jti_if_absent client.client_id jti
            (some (remaining_ms exp (s.clock s.readings)))
            (s.clock (s.readings + 1))
            s.assertion_jtis).1
  unfolding store_assertion_jti
  jtis-store_assertion_jti client c c' jti exp mode s h = ground arith

  -- A client is accepted on a verified assertion only if the assertion has not expired and the
  -- store takes its `jti` as new; what is accepted is the context that was given.
  pub store_assertion_jti-accepted :
      (client : AuthzOAuthClient) (c c' : ClientContext) (jti : String) (exp : ℤ) (mode : DpopMode)
      (s : Server Material)
      → (store_assertion_jti jose authz client c jti exp s).0 ≡ ok (accepted c' mode)
      → (c ≡ c')
        × (0 < remaining_ms exp (s.clock s.readings))
        × ((Jti.save_assertion_jti_if_absent client.client_id jti
              (some (remaining_ms exp (s.clock s.readings)))
              (s.clock (s.readings + 1))
              s.assertion_jtis).0
            ≡ true)
  unfolding store_assertion_jti
  store_assertion_jti-accepted client c c' jti exp mode s h =
      (ground arith, ground arith, ground arith)

  -- If the store has no key twice and an assertion is accepted, an assertion with its `jti` is
  -- not accepted from the client again up to the moment to which the entry is kept, with any
  -- `exp`, after any calls of the store, by any clients, up to that moment.
  pub assertion_used_once :
      (client : AuthzOAuthClient) (c c' : ClientContext) (jti : String) (exp : ℤ) (mode : DpopMode)
      (s : Server Material) (calls : List JtiCall) (s2 : Server Material) (c2 c3 : ClientContext)
      (exp2 : ℤ) (mode2 : DpopMode)
      → IsMap s.assertion_jtis
      → (store_assertion_jti jose authz client c jti exp s).0 ≡ ok (accepted c' mode)
      → s2.assertion_jtis
        ≡ run calls (store_assertion_jti jose authz client c jti exp s).1.assertion_jtis
      → AllBy (s.clock (s.readings + 1) + remaining_ms exp (s.clock s.readings)) calls
      → s2.clock (s2.readings + 1)
        ≤ s.clock (s.readings + 1) + remaining_ms exp (s.clock s.readings)
      → (store_assertion_jti jose authz client c2 jti exp2 s2).0 ≢ ok (accepted c3 mode2)
  unfolding Jti.save_assertion_jti_if_absent
  assertion_used_once client c c' jti exp mode s calls s2 c2 c3 exp2 mode2 valid once later early
        soon twice =
      let ttl = remaining_ms exp (s.clock s.readings) in
      let ttl2 = remaining_ms exp2 (s2.clock s2.readings) in
      let (_, _, fresh) = store_assertion_jti-accepted client c c' jti exp mode s once in
      let (_, _, fresh2) = store_assertion_jti-accepted client c2 c3 jti exp2 mode2 s2 twice in
      let refused =
        Jti.Replay.replay_refused (Jti.assertion_key client.client_id jti) ttl
          (s.clock (s.readings + 1)) calls ttl2 (s2.clock (s2.readings + 1)) s.assertion_jtis valid
          fresh early soon in
      let joined =
        later ∙ ap (run calls) (jtis-store_assertion_jti client c c' jti exp mode s once) in
      let contradiction =
        sym refused
        ∙ ap
            (λ m.
              (Jti.save_key_if_absent (Jti.assertion_key client.client_id jti) ttl2
                (s2.clock (s2.readings + 1)) m).0)
            (sym joined)
        ∙ fresh2 in
      cc

  -- An anonymous client is accepted for a pre-authorized code only if the metadata of the server says
  -- that it supports this.
  pub resolve_context-anonymous :
      (d : RequestData) (client : Option AuthzOAuthClient) (c c' : ClientContext) (mode : DpopMode)
      (s : Server Material)
      → is_anonymous c.client_kind ≡ true
      → is_pre_authorized_code_token_request d ≡ true
      → (resolve_context jose authz d client c s).0 ≡ ok (accepted c' mode)
      → allows_anonymous (Map.get authz s.servers) ≡ true
  unfolding resolve_context
  resolve_context-anonymous d client c c' mode s a p h = ground arith
