-- ===== src/Store/Nonce.antt =====
-- nonce.types.ts and in-memory-nonce-store.provider.ts. `now` is what the clock shows in the call.
-- A lifetime is a natural number of milliseconds.
pub mod Once
pub mod Race
pub mod Refines
use vcknots.Common.{Bool, Option, String, false, if◌then◌else◌, is_some, ltb, none, some, ℕ, ◌+◌}
use vcknots.Errors.{Result, ok, err, failure}
use vcknots.Common.Map
use vcknots.Common.Map.{Map}

pub record Nonce : Type 0 where
  pub nonce : String
  pub nonce_expires_in : Option ℕ

pub record NonceState : Type 0 where
  pub nonce : Nonce
  pub expires_at : ℕ

abbrev pub NonceStates : Type 0
NonceStates = Map NonceState

-- `getValidNonceState`, which deletes what it finds expired.
unfoldable pub get_valid_nonce_state : Nonce → ℕ → NonceStates → Option NonceState × NonceStates
get_valid_nonce_state nonce now states = elim (Map.get nonce.nonce states) [
  | none ↦ (none, states)
  | some state ↦
      if ltb state.expires_at now
      then (none, Map.delete nonce.nonce states)
      else (some state, states)
]

unfoldable pub save : Nonce → ℕ → NonceStates → Result (Unit {0}) × NonceStates
save nonce now states = elim nonce.nonce_expires_in [
  | none ↦ (err (failure "nonce_expires_in is required when saving nonce"), states)
  | some ttl_ms ↦
      (ok tt, Map.set nonce.nonce (record { nonce = nonce; expires_at = now + ttl_ms }) states)
]

unfoldable pub validate : Nonce → ℕ → NonceStates → Bool × NonceStates
unfolding get_valid_nonce_state
validate nonce now states =
    let (state, states') = get_valid_nonce_state nonce now states in (is_some state, states')

unfoldable pub revoke : Nonce → NonceStates → Bool × NonceStates
revoke nonce states = (Map.has nonce.nonce states, Map.delete nonce.nonce states)

-- After the `await`-free look-up, `delete` gives whether the key was there.
unfoldable pub consume : Nonce → ℕ → NonceStates → Bool × NonceStates
unfolding get_valid_nonce_state
consume nonce now states =
    let (state, states') = get_valid_nonce_state nonce now states in
    if is_some state
    then (Map.has nonce.nonce states', Map.delete nonce.nonce states')
    else (false, states')
