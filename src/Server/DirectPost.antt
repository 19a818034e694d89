-- ===== src/Server/DirectPost.antt =====
-- server/core/src/utils/direct-post-vp-aud-transaction-store.ts: which presentation transaction a
-- `state` stands for. The readings of the clock in one call are taken as one moment.
pub mod Calls
pub mod Answers
pub mod Bound
use vcknots.Common.{
  Bool, Option, String, false, if◌then◌else◌, leb, ltb, none, not, some, trim, ℕ, ◌&&◌, ◌*◌, ◌+◌,
  ◌=ˢ◌,
}
use vcknots.Common.Map
use vcknots.Common.Map.{Map}
use vcknots.Server.Types.{ErrorBody}

pub record StateTransaction : Type 0 where
  pub transaction_id : String
  pub expires_at : ℕ

abbrev pub States : Type 0
States = Map StateTransaction

-- 5 minutes
abbrev pub default_direct_post_state_ttl_ms : ℕ
default_direct_post_state_ttl_ms = 5 * 60 * 1000

-- `{ ok: true; … } | { ok: false; error }`
pub data Outcome (A : Type 0) : Type 0 where
  accepted : A → Outcome A
  refused : ErrorBody → Outcome A

abbrev pub already_in_use : ErrorBody
already_in_use = record {
  error = "invalid_request";
  error_description = "state is already in use for an active presentation transaction";
}

abbrev pub unknown_state : ErrorBody
unknown_state = record { error = "invalid_request"; error_description = "unknown or expired state" }

abbrev pub state_required : ErrorBody
state_required = record {
  error = "invalid_request";
  error_description = "state is required for VP audience validation";
}

unfoldable pub consume : String → States → States
consume state states = Map.delete state states

-- `now > val.expiresAt`
abbrev pub is_expired : ℕ → StateTransaction → Bool
is_expired now r = ltb r.expires_at now

unfoldable pub sweep_expired : ℕ → States → States
sweep_expired now states = Map.delete_if (is_expired now) states

-- Is there an entry that `reserve` respects?
abbrev pub is_active : ℕ → Option StateTransaction → Bool
is_active now none = false
is_active now (some r) = leb now r.expires_at

-- Is there an entry, with a transaction, that `register` respects?
abbrev pub is_registered : ℕ → Option StateTransaction → Bool
is_registered now none = false
is_registered now (some r) = not (r.transaction_id =ˢ "") && leb now r.expires_at

-- A new entry in place of the one that is there, which is deleted first.
abbrev pub renew : ℕ → String → String → ℕ → States → States
renew ttl_ms state transaction_id now states =
    Map.set state (record { transaction_id = transaction_id; expires_at = now + ttl_ms })
      (if Map.has state states then Map.delete state states else states)

unfoldable pub reserve : ℕ → String → ℕ → States → Outcome (Unit {0}) × States
unfolding sweep_expired
reserve ttl_ms state now states =
    let swept = sweep_expired now states in
    if is_active now (Map.get state swept)
    then (refused already_in_use, swept)
    else (accepted tt, renew ttl_ms state "" now swept)

unfoldable pub register : ℕ → String → String → ℕ → States → Outcome (Unit {0}) × States
register ttl_ms state transaction_id now states =
    if is_registered now (Map.get state states)
    then (refused already_in_use, states)
    else (accepted tt, renew ttl_ms state transaction_id now states)

-- `state == null || state.trim() === ''`
abbrev pub given_state : Option String → Option String
given_state none = none
given_state (some state) = if trim state =ˢ "" then none else some state

-- The rest of `resolve`, for a state that is given.
unfoldable pub look_up : Option String → ℕ → States → Outcome String × States
unfolding consume
look_up none now states = (refused state_required, states)
look_up (some state) now states = elim (Map.get state states) [
  | none ↦ (refused unknown_state, states)
  | some r ↦
      if is_expired now r
      then (refused unknown_state, consume state states)
      else if r.transaction_id =ˢ ""
      then (refused unknown_state, states)
      else (accepted r.transaction_id, states)
]

unfoldable pub resolve : Option String → ℕ → States → Outcome String × States
unfolding trim look_up
resolve state now states = look_up (given_state state) now states
