-- ===== src/Server/DirectPost/Bound.antt =====
-- What a state stands for while its presentation transaction is active.
use vcknots.Common.{
  List, String, ap, arith, eq_iff, if◌then◌else◌, leb, refl, some, ℕ, ◌+◌, ◌∙◌, ◌≡◌, ◌≢◌, ◌≤◌,
}
use vcknots.Common.Map
use vcknots.Server.DirectPost.{
  States, accepted, refused, already_in_use, unknown_state, reserve, register, given_state, resolve,
}
use vcknots.Server.DirectPost.Calls.{
  StateCall, reserving, registering, step, run, IsWithin, step-IsMap, run-kept,
}
use vcknots.Server.DirectPost.Answers.{
  answer, resolve-answer, reserve-refused, register-refused, register-accepted, registered-get,
  reserved-get,
}

-- In a store with one entry for each state, a state that is not blank and is registered for a
-- transaction with a name stands for that transaction to the last millisecond of its time and for none
-- afterwards, whatever calls that do not consume it come in between, in its time; until it ends, the
-- state is neither reserved nor registered again.
pub registered_state_bound :
    (ttl : ℕ) (k id other : String) (now now' : ℕ) (m : States) (calls : List StateCall)
    → Map.IsMap m
    → given_state (some k) ≡ some k
    → id ≢ ""
    → (register ttl k id now m).0 ≡ accepted tt
    → IsWithin k (record { transaction_id = id; expires_at = now + ttl }) calls
    → let later = run ttl calls (register ttl k id now m).1 in
      ((resolve (some k) now' later).0
        ≡ (if leb now' (now + ttl) then accepted id else refused unknown_state))
      × (now' ≤ now + ttl
          → ((reserve ttl k now' later).0 ≡ refused already_in_use)
            × (register ttl k other now' later ≡ (refused already_in_use, later)))
unfolding step register
registered_state_bound ttl k id other now now' m calls map given named made within =
    let (found, map') =
      run-kept ttl k _ calls _ within (step-IsMap ttl (registering k id now) m map)
        (registered-get ttl k id now m made) in
    (
      resolve-answer k now' _ given ∙ ap (answer now') found ∙ ground (arith, eq_iff id ""),
      λ le. (
        reserve-refused ttl k now' _ _ map' found le,
        register-refused ttl k other now' _ _ found named le,
      ),
    )

-- In a store with one entry for each state, a state that is not blank and is reserved stands for no
-- transaction, and is not reserved again before its time is over, whatever calls that neither consume
-- it nor register a transaction for it come in between, in its time; and registering a transaction for
-- it is then accepted.
pub reserved_state_exclusive :
    (ttl : ℕ) (k id : String) (now now' : ℕ) (m : States) (calls : List StateCall)
    → Map.IsMap m
    → given_state (some k) ≡ some k
    → (reserve ttl k now m).0 ≡ accepted tt
    → IsWithin k (record { transaction_id = ""; expires_at = now + ttl }) calls
    → now' ≤ now + ttl
    → let later = run ttl calls (reserve ttl k now m).1 in
      ((resolve (some k) now' later).0 ≡ refused unknown_state)
      × ((reserve ttl k now' later).0 ≡ refused already_in_use)
      × ((register ttl k id now' later).0 ≡ accepted tt)
unfolding step reserve
reserved_state_exclusive ttl k id now now' m calls map given made within le =
    let (found, map') =
      run-kept ttl k _ calls _ within (step-IsMap ttl (reserving k now) m map)
        (reserved-get ttl k now m made) in
    (
      resolve-answer k now' _ given ∙ ap (answer now') found ∙ ground arith,
      reserve-refused ttl k now' _ _ map' found le,
      register-accepted ttl k id now' _ _ found refl,
    )
