-- ===== src/Server/DirectPost/Calls.antt =====
-- Calls of the store of states in a row, and what each of them leaves.
use vcknots.Common.{
  Bool-cases, List, Option, String, [], arith, eq_iff, if◌then◌else◌, inl, inr, none, not, some, ℕ,
  ◌&&◌, ◌+◌, ◌=ˢ◌, ◌∷◌, ◌≡◌, ◌≢◌, ◌≤◌, ◌⊎◌,
}
use vcknots.Common.Map
use vcknots.Server.DirectPost.{
  StateTransaction, States, consume, is_expired, sweep_expired, is_active, is_registered, renew,
  reserve, register, given_state, look_up, resolve,
}

-- One call of the store, with the clock's value in it.
pub data StateCall : Type 0 where
  reserving : String → ℕ → StateCall
  registering : String → String → ℕ → StateCall
  resolving : Option String → ℕ → StateCall
  consuming : String → StateCall

unfoldable pub step : ℕ → StateCall → States → States
step ttl (reserving state now) m = (reserve ttl state now m).1
step ttl (registering state id now) m = (register ttl state id now m).1
step ttl (resolving state now) m = (resolve state now m).1
step ttl (consuming state) m = consume state m

unfoldable pub run : ℕ → List StateCall → States → States
run ttl [] m = m
run ttl (c ∷ calls) m = run ttl calls (step ttl c m)

-- The calls are made before an entry expires, none consumes its state, and none registers a
-- transaction for the state while the entry has none.
abbrev pub IsWithin : String → StateTransaction → List StateCall → Type 0
IsWithin k r [] = Unit {0}
IsWithin k r (reserving _ now ∷ calls) = (now ≤ r.expires_at) × IsWithin k r calls
IsWithin k r (registering state _ now ∷ calls) =
    (now ≤ r.expires_at) × ((state ≢ k) ⊎ (r.transaction_id ≢ "")) × IsWithin k r calls
IsWithin k r (resolving _ now ∷ calls) = (now ≤ r.expires_at) × IsWithin k r calls
IsWithin k r (consuming state ∷ calls) = (state ≢ k) × IsWithin k r calls

-- `renew`, read back.
pub get-renew :
    (ttl : ℕ) (state id j : String) (now : ℕ) (m : States)
    → Map.get j (renew ttl state id now m) ≡ (
        if state =ˢ j
        then some (record { transaction_id = id; expires_at = now + ttl })
        else Map.get j m)
get-renew ttl state id j now m = grind (arith, Map.get-set, Map.get-delete, eq_iff state j)

renew-IsMap :
    (ttl : ℕ) (state id : String) (now : ℕ) (m : States)
    → Map.IsMap m
    → Map.IsMap (renew ttl state id now m)
renew-IsMap ttl state id now m h = elim (Bool-cases (Map.has state m)) [
  | inl e ↦ rw e (Map.set-IsMap state _ _ (Map.delete-IsMap state m h))
  | inr e ↦ rw e (Map.set-IsMap state _ m h)
]

-- The three calls, read back at any key.
reserve-get :
    (ttl : ℕ) (state j : String) (now : ℕ) (m : States)
    → Map.IsMap m
    → Map.get j (reserve ttl state now m).1 ≡ (
        if not (is_active now (Map.get state m)) && state =ˢ j
        then some (record { transaction_id = ""; expires_at = now + ttl })
        else Map.unless (is_expired now) (Map.get j m))
unfolding reserve sweep_expired
reserve-get ttl state j now m h = ground (
  arith,
  Map.get-delete_if (is_expired now) j m h,
  Map.get-delete_if (is_expired now) state m h,
  get-renew ttl state "" j now (Map.delete_if (is_expired now) m),
)

register-get :
    (ttl : ℕ) (state id j : String) (now : ℕ) (m : States)
    → Map.get j (register ttl state id now m).1 ≡ (
        if not (is_registered now (Map.get state m)) && state =ˢ j
        then some (record { transaction_id = id; expires_at = now + ttl })
        else Map.get j m)
unfolding register
register-get ttl state id j now m = ground (arith, get-renew ttl state id j now m)

look_up-get :
    (state : Option String) (k : String) (now : ℕ) (m : States) (r : StateTransaction)
    → Map.get k m ≡ some r
    → now ≤ r.expires_at
    → Map.get k (look_up state now m).1 ≡ some r
unfolding look_up consume
look_up-get none k now m r h le = h
look_up-get (some state) k now m r h le = ground (arith, Map.get-delete state k m, eq_iff state k)

look_up-IsMap :
    (state : Option String) (now : ℕ) (m : States) → Map.IsMap m → Map.IsMap (look_up state now m).1
unfolding look_up consume
look_up-IsMap none now m h = h
look_up-IsMap (some state) now m h = ground (arith, Map.delete-IsMap state m)

pub step-IsMap : (ttl : ℕ) (c : StateCall) (m : States) → Map.IsMap m → Map.IsMap (step ttl c m)
unfolding step reserve register resolve consume sweep_expired
step-IsMap ttl (reserving state now) m h =
    let swept = Map.delete_if (is_expired now) m in
    let kept : Map.IsMap swept = Map.delete_if-IsMap (is_expired now) m h in
    ground (arith, kept, renew-IsMap ttl state "" now swept)
step-IsMap ttl (registering state id now) m h = ground (arith, renew-IsMap ttl state id now m)
step-IsMap ttl (resolving state now) m h = look_up-IsMap (given_state state) now m h
step-IsMap ttl (consuming state) m h = Map.delete-IsMap state m h

-- An entry stays as it is while it lives.
pub run-kept :
    (ttl : ℕ) (k : String) (r : StateTransaction) (calls : List StateCall) (m : States)
    → IsWithin k r calls
    → Map.IsMap m
    → Map.get k m ≡ some r
    → (Map.get k (run ttl calls m) ≡ some r) × Map.IsMap (run ttl calls m)
unfolding run step consume resolve
run-kept ttl k r [] m within map found = (found, map)
run-kept ttl k r (reserving state now ∷ calls) m within map found =
    run-kept ttl k r calls _ within.1 (step-IsMap ttl (reserving state now) m map)
      (ground (arith, within, reserve-get ttl state k now m map, eq_iff state k))
run-kept ttl k r (registering state id now ∷ calls) m within map found =
    run-kept ttl k r calls _ within.2 (step-IsMap ttl (registering state id now) m map) (
      ground (
        arith,
        within,
        register-get ttl state id k now m,
        eq_iff state k,
        eq_iff r.transaction_id "",
      ))
run-kept ttl k r (resolving state now ∷ calls) m within map found =
    run-kept ttl k r calls _ within.1 (step-IsMap ttl (resolving state now) m map)
      (look_up-get (given_state state) k now m r found within.0)
run-kept ttl k r (consuming state ∷ calls) m within map found =
    run-kept ttl k r calls _ within.1 (step-IsMap ttl (consuming state) m map)
      (ground (arith, Map.get-delete state k m, eq_iff state k, within.0))

-- No call opens the state.
abbrev pub NotOpened : String → List StateCall → Type 0
NotOpened k [] = Unit {0}
NotOpened k (reserving state _ ∷ calls) = (state ≢ k) × NotOpened k calls
NotOpened k (registering state _ _ ∷ calls) = (state ≢ k) × NotOpened k calls
NotOpened k (resolving _ _ ∷ calls) = NotOpened k calls
NotOpened k (consuming _ ∷ calls) = NotOpened k calls

look_up-absent :
    (state : Option String) (k : String) (now : ℕ) (m : States)
    → Map.get k m ≡ none
    → Map.get k (look_up state now m).1 ≡ none
unfolding look_up consume
look_up-absent none k now m h = h
look_up-absent (some state) k now m h = ground (arith, Map.get-delete state k m, eq_iff state k)

-- A state that stands for nothing goes on to stand for nothing.
pub run-absent :
    (ttl : ℕ) (k : String) (calls : List StateCall) (m : States)
    → NotOpened k calls
    → Map.IsMap m
    → Map.get k m ≡ none
    → Map.get k (run ttl calls m) ≡ none
unfolding run step consume resolve
run-absent ttl k [] m closed map h = h
run-absent ttl k (reserving state now ∷ calls) m closed map h =
    run-absent ttl k calls _ closed.1 (step-IsMap ttl (reserving state now) m map)
      (ground (arith, closed, reserve-get ttl state k now m map, eq_iff state k))
run-absent ttl k (registering state id now ∷ calls) m closed map h =
    run-absent ttl k calls _ closed.1 (step-IsMap ttl (registering state id now) m map)
      (ground (arith, closed, register-get ttl state id k now m, eq_iff state k))
run-absent ttl k (resolving state now ∷ calls) m closed map h =
    run-absent ttl k calls _ closed (step-IsMap ttl (resolving state now) m map)
      (look_up-absent (given_state state) k now m h)
run-absent ttl k (consuming state ∷ calls) m closed map h =
    run-absent ttl k calls _ closed (step-IsMap ttl (consuming state) m map)
      (ground (arith, Map.get-delete state k m, eq_iff state k, h))
