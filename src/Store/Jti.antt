-- ===== src/Store/Jti.antt =====
-- in-memory-dpop-proof-jti-store.provider.ts and
-- in-memory-oauth-client-assertion-jti-store.provider.ts: the identifiers that have been used, with
-- the millisecond at which each may be forgotten. `now` is what `Date.now()` returns in the call.
pub mod Replay
use vcknots.Common.{
  Bool, Option, String, false, if◌then◌else◌, ltb, or_else, stringify_pair, true, ℕ, ◌*◌, ◌+ˢ◌, ◌+◌,
}
use vcknots.Common.Map
use vcknots.Common.Map.{Map}

abbrev pub UsedJtis : Type 0
UsedJtis = Map ℕ

-- `DEFAULT_DPOP_PROOF_JTI_TTL_MS`
abbrev pub default_dpop_proof_jti_ttl_ms : ℕ
default_dpop_proof_jti_ttl_ms = 6 * 60 * 1000

-- `DEFAULT_OAUTH_CLIENT_ASSERTION_JTI_TTL_MS`
abbrev pub default_oauth_client_assertion_jti_ttl_ms : ℕ
default_oauth_client_assertion_jti_ttl_ms = 5 * 60 * 1000

unfoldable pub cleanup_expired : ℕ → UsedJtis → UsedJtis
cleanup_expired now = Map.delete_if (λ expires_at. ltb expires_at now)

-- The body that the two `saveIfAbsent` share, over the key and the lifetime.
unfoldable pub save_key_if_absent : String → ℕ → ℕ → UsedJtis → Bool × UsedJtis
save_key_if_absent key ttl_ms now used_jtis =
    let kept = cleanup_expired now used_jtis in
    if Map.has key kept then (false, kept) else (true, Map.set key (now + ttl_ms) kept)

-- `${jwkThumbprint}:${jti}`
unfoldable pub dpop_key : String → String → String
dpop_key jwk_thumbprint jti = jwk_thumbprint +ˢ ":" +ˢ jti

unfoldable pub save_dpop_jti_if_absent : String → String → Option ℕ → ℕ → UsedJtis → Bool × UsedJtis
save_dpop_jti_if_absent jwk_thumbprint jti ttl_ms now used_jtis =
    save_key_if_absent (dpop_key jwk_thumbprint jti) (or_else ttl_ms default_dpop_proof_jti_ttl_ms)
      now used_jtis

-- `JSON.stringify([clientId, jti])`
unfoldable pub assertion_key : String → String → String
unfolding stringify_pair
assertion_key client_id jti = stringify_pair client_id jti

unfoldable pub save_assertion_jti_if_absent :
    String → String → Option ℕ → ℕ → UsedJtis → Bool × UsedJtis
save_assertion_jti_if_absent client_id jti ttl_ms now used_jtis =
    save_key_if_absent (assertion_key client_id jti)
      (or_else ttl_ms default_oauth_client_assertion_jti_ttl_ms) now used_jtis
