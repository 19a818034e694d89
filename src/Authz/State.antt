-- ===== src/Authz/State.antt =====
-- The stores that the authorization server works on, and its operations as a monad of state and
-- exceptions: what was written before an exception stays written. Each call of a store, and each
-- check by `jose`, reads the clock; `clock n` is what the reading number `n` gives.
use vcknots.Common.{
  Bool, List, Option, String, if◌then◌else◌, none, or_else, some, true, ℕ, ◌+ˢ◌, ◌+◌,
}
use vcknots.Errors.{ok}
use vcknots.Flow.{Flow}
use vcknots.Common.Map
use vcknots.Common.Map.{Map}
use vcknots.Common.Number.{Number}
use vcknots.Store.Jti
use vcknots.Store.Jti.{UsedJtis}
use vcknots.Store.Nonce
use vcknots.Store.Nonce.{Nonce, NonceStates}
use vcknots.Store.PreAuthorizedCode
use vcknots.Store.PreAuthorizedCode.{Codes, TxCode, SaveOptions}
use vcknots.Store.Allowed
use vcknots.Store.Allowed.{AllowedCredentialConfigurations}
use vcknots.Issuer.Types.{CredentialIssuerMetadata}
use vcknots.Authz.Types.{AuthzOAuthClient, AuthzOAuthPolicy, AuthorizationServerMetadata}

-- One key pair of the signature key store, over a type of key material.
pub record SignatureKeyEntry (Material : Type 0) : Type 0 where
  pub declared_alg : String
  pub public_key : Material
  pub private_key : Material

pub record Server (Material : Type 0) : Type 0 where
  pub clock : ℕ → ℕ
  pub readings : ℕ
  pub max_attempts : ℕ
  pub servers : Map AuthorizationServerMetadata
  pub policies : Map AuthzOAuthPolicy
  pub clients : Map AuthzOAuthClient
  pub keys : Map (List (SignatureKeyEntry Material))
  pub issuers : Map CredentialIssuerMetadata
  pub issuer_keys : Map (List (SignatureKeyEntry Material))
  pub codes : Codes
  pub dpop_jtis : UsedJtis
  pub assertion_jtis : UsedJtis
  pub nonces : NonceStates
  pub allowed : AllowedCredentialConfigurations

-- An operation over a type `M` of key material, with a result in `A`.
abbrev pub Action : Type 0 → Type 0 → Type 0
Action M A = Flow (Server M) A

-- `${issuer}\n${clientId}`
abbrev pub client_key : String → String → String
client_key issuer client_id = issuer +ˢ "\n" +ˢ client_id

-- A client that is switched off is not found.
abbrev pub if_enabled : Option AuthzOAuthClient → Option AuthzOAuthClient
if_enabled none = none
if_enabled (some client) = if or_else client.enabled true then some client else none

module _ {M : Type 0} where
  -- `Date.now()`
  abbrev pub date_now : Action M ℕ
  date_now s = (ok (s.clock s.readings), record s { readings = s.readings + 1 })

  -- authz-server-metadata-store: `fetch`
  unfoldable pub fetch_metadata : String → Action M (Option AuthorizationServerMetadata)
  fetch_metadata issuer s = (ok (Map.get issuer s.servers), s)

  -- `save`
  unfoldable pub save_metadata : AuthorizationServerMetadata → Action M (Unit {0})
  save_metadata m s = (ok tt, record s { servers = Map.set m.issuer m s.servers })

  -- authz-oauth-policy-store: `fetch`
  unfoldable pub fetch_policy : String → Action M (Option AuthzOAuthPolicy)
  fetch_policy issuer s = (ok (Map.get issuer s.policies), s)

  unfoldable pub save_policy : String → AuthzOAuthPolicy → Action M (Unit {0})
  save_policy issuer policy s = (ok tt, record s { policies = Map.set issuer policy s.policies })

  -- authz-oauth-client-store: `fetch`
  unfoldable pub fetch_client : String → String → Action M (Option AuthzOAuthClient)
  fetch_client issuer client_id s =
      (ok (if_enabled (Map.get (client_key issuer client_id) s.clients)), s)

  unfoldable pub save_client : String → AuthzOAuthClient → Action M (Unit {0})
  save_client issuer client s =
      (ok tt, record s { clients = Map.set (client_key issuer client.client_id) client s.clients })

  unfoldable pub consume_nonce : Nonce → Action M Bool
  consume_nonce nonce s =
      let (accepted, nonces) = Nonce.consume nonce (s.clock s.readings) s.nonces in
      (ok accepted, record s { readings = s.readings + 1; nonces = nonces })

  unfoldable pub save_nonce : Nonce → Action M (Unit {0})
  save_nonce nonce s =
      let (r, nonces) = Nonce.save nonce (s.clock s.readings) s.nonces in
      (r, record s { readings = s.readings + 1; nonces = nonces })

  unfoldable pub save_dpop_jti : String → String → Option ℕ → Action M Bool
  save_dpop_jti jwk_thumbprint jti ttl_ms s =
      let (fresh, used) =
        Jti.save_dpop_jti_if_absent jwk_thumbprint jti ttl_ms (s.clock s.readings) s.dpop_jtis in
      (ok fresh, record s { readings = s.readings + 1; dpop_jtis = used })

  unfoldable pub save_assertion_jti : String → String → Option ℕ → Action M Bool
  save_assertion_jti client_id jti ttl_ms s =
      let (fresh, used) =
        Jti.save_assertion_jti_if_absent client_id jti ttl_ms (s.clock s.readings)
          s.assertion_jtis in
      (ok fresh, record s { readings = s.readings + 1; assertion_jtis = used })

  unfoldable pub consume_code : String → Option TxCode → Action M (List String)
  consume_code code tx_code s =
      let (r, codes) =
        PreAuthorizedCode.consume s.max_attempts code tx_code (s.clock s.readings) s.codes in
      (r, record s { readings = s.readings + 1; codes = codes })

  unfoldable pub save_allowed : String → List String → Option Number → Action M (Unit {0})
  save_allowed hash ids ttl s = (
    ok tt,
    record s {
      readings = s.readings + 1;
      allowed = Allowed.save hash ids ttl (s.clock s.readings) s.allowed;
    },
  )

  unfoldable pub fetch_allowed : String → Action M (Option (List String))
  fetch_allowed hash s =
      let (ids, allowed) = Allowed.fetch hash (s.clock s.readings) s.allowed in
      (ok ids, record s { readings = s.readings + 1; allowed = allowed })

  unfoldable pub validate_nonce : Nonce → Action M Bool
  validate_nonce nonce s =
      let (valid, nonces) = Nonce.validate nonce (s.clock s.readings) s.nonces in
      (ok valid, record s { readings = s.readings + 1; nonces = nonces })

  unfoldable pub revoke_nonce : Nonce → Action M Bool
  revoke_nonce nonce s =
      let (found, nonces) = Nonce.revoke nonce s.nonces in (ok found, record s { nonces = nonces })

  unfoldable pub save_code :
      String → List String → Option TxCode → Option SaveOptions → Action M (Unit {0})
  save_code code ids tx_code options s =
      let (r, codes) =
        PreAuthorizedCode.save code ids tx_code options (s.clock s.readings) s.codes in
      (r, record s { readings = s.readings + 1; codes = codes })

  -- issuer-metadata-store: `fetch`
  unfoldable pub fetch_issuer : String → Action M (Option CredentialIssuerMetadata)
  fetch_issuer id s = (ok (Map.get id s.issuers), s)

  unfoldable pub save_issuer : CredentialIssuerMetadata → Action M (Unit {0})
  save_issuer m s = (ok tt, record s { issuers = Map.set m.credential_issuer m s.issuers })
