-- ===== src/Server/DirectPost/Answers.antt =====
-- What the calls of the store of states answer, by the entry of the state.
use vcknots.Common.{
  Bool-cases, Option, String, ap, arith, eq_iff, eq_refl, false, if◌then◌else◌, inl, inr, leb, none,
  not, refl, some, sym, trim, true, ℕ, ◌&&◌, ◌+◌, ◌=ˢ◌, ◌∙◌, ◌≡◌, ◌≢◌, ◌≤◌, ◌⊎◌,
}
use vcknots.Common.Map
use vcknots.Server.DirectPost.{
  StateTransaction, States, Outcome, accepted, refused, already_in_use, unknown_state, is_expired,
  sweep_expired, is_active, reserve, register, given_state, look_up, resolve,
}
use vcknots.Server.DirectPost.Calls.{get-renew}

-- What `resolve` answers for a state that is not blank.
abbrev pub answer : ℕ → Option StateTransaction → Outcome String
answer now none = refused unknown_state
answer now (some r) =
    if leb now r.expires_at && not (r.transaction_id =ˢ "")
    then accepted r.transaction_id
    else refused unknown_state

look_up-answer :
    (k : String) (now : ℕ) (m : States) → (look_up (some k) now m).0 ≡ answer now (Map.get k m)
unfolding look_up
look_up-answer k now m = ground arith

pub resolve-answer :
    (k : String) (now : ℕ) (m : States)
    → given_state (some k) ≡ some k
    → (resolve (some k) now m).0 ≡ answer now (Map.get k m)
unfolding resolve
resolve-answer k now m given = ap (λ o. (look_up o now m).0) given ∙ look_up-answer k now m

-- An entry that lives is respected by `reserve`.
pub reserve-refused :
    (ttl : ℕ) (k : String) (now : ℕ) (m : States) (r : StateTransaction)
    → Map.IsMap m
    → Map.get k m ≡ some r
    → now ≤ r.expires_at
    → (reserve ttl k now m).0 ≡ refused already_in_use
unfolding reserve sweep_expired
reserve-refused ttl k now m r map found le =
    ground (arith, Map.get-delete_if (is_expired now) k m map)

pub register-refused :
    (ttl : ℕ) (k id : String) (now : ℕ) (m : States) (r : StateTransaction)
    → Map.get k m ≡ some r
    → r.transaction_id ≢ ""
    → now ≤ r.expires_at
    → register ttl k id now m ≡ (refused already_in_use, m)
unfolding register
register-refused ttl k id now m r found named le = ground (arith, eq_iff r.transaction_id "")

pub register-accepted :
    (ttl : ℕ) (k id : String) (now : ℕ) (m : States) (r : StateTransaction)
    → Map.get k m ≡ some r
    → r.transaction_id ≡ ""
    → (register ttl k id now m).0 ≡ accepted tt
unfolding register
register-accepted ttl k id now m r found reserved = ground (arith, eq_iff r.transaction_id "")

-- The entry that an accepted call leaves.
pub registered-get :
    (ttl : ℕ) (k id : String) (now : ℕ) (m : States)
    → (register ttl k id now m).0 ≡ accepted tt
    → Map.get k (register ttl k id now m).1
      ≡ some (record { transaction_id = id; expires_at = now + ttl })
unfolding register
registered-get ttl k id now m h = ground (arith, get-renew ttl k id k now m, eq_refl k)

pub reserved-get :
    (ttl : ℕ) (k : String) (now : ℕ) (m : States)
    → (reserve ttl k now m).0 ≡ accepted tt
    → Map.get k (reserve ttl k now m).1
      ≡ some (record { transaction_id = ""; expires_at = now + ttl })
unfolding reserve sweep_expired
reserved-get ttl k now m h =
    ground (arith, get-renew ttl k "" k now (Map.delete_if (is_expired now) m), eq_refl k)

given-cases : (k : String) → (given_state (some k) ≡ none) ⊎ (given_state (some k) ≡ some k)
given-cases k = elim (Bool-cases (trim k =ˢ "")) [
  | inl e ↦ inl (ap (λ b. if b then none else some k) e)
  | inr e ↦ inr (ap (λ b. if b then none else some k) e)
]

look_up-same :
    (k : String) (now : ℕ) (m : States) {id : String} {m' : States}
    → look_up (some k) now m ≡ (accepted id, m')
    → m' ≡ m
unfolding look_up
look_up-same k now m h = ground (arith, h)

-- A state that is resolved is not blank, and nothing changes.
pub resolve-accepted :
    (state : Option String) (now : ℕ) (m : States) {id : String} {m' : States}
    → resolve state now m ≡ (accepted id, m')
    → (k : String) × (state ≡ some k) × (given_state (some k) ≡ some k) × (m' ≡ m)
unfolding resolve look_up
resolve-accepted none now m h = absurd (cc h)
resolve-accepted (some k) now m {id} {m'} h = elim (given-cases k) [
  | inl e ↦ absurd (cc (sym (ap (λ o. look_up o now m) e) ∙ h))
  | inr e ↦ (k, refl, e, look_up-same k now m (sym (ap (λ o. look_up o now m) e) ∙ h))
]

look_up-none :
    (k : String) (now : ℕ) (m : States)
    → Map.get k m ≡ none
    → look_up (some k) now m ≡ (refused unknown_state, m)
unfolding look_up
look_up-none k now m h = rw (h, look_up) refl

-- A state that stands for nothing is not resolved, and nothing changes.
pub resolve-absent :
    (k : String) (now : ℕ) (m : States)
    → given_state (some k) ≡ some k
    → Map.get k m ≡ none
    → resolve (some k) now m ≡ (refused unknown_state, m)
unfolding resolve
resolve-absent k now m given h = ap (λ o. look_up o now m) given ∙ look_up-none k now m h

-- A reservation that is registered stands for its transaction, to the end of its time.
pub register-resolved :
    (ttl : ℕ) (k id : String) (now now' : ℕ) (m : States) (r : StateTransaction)
    → Map.get k m ≡ some r
    → r.transaction_id ≡ ""
    → id ≢ ""
    → given_state (some k) ≡ some k
    → now' ≤ now + ttl
    → (resolve (some k) now' (register ttl k id now m).1).0 ≡ accepted id
register-resolved ttl k id now now' m r found reserved named given le =
    resolve-answer k now' (register ttl k id now m).1 given
    ∙ ap (answer now')
        (registered-get ttl k id now m (register-accepted ttl k id now m r found reserved))
    ∙ ground (arith, eq_iff id "")

-- `reserve`, of a state that is free and of one that is not.
pub reserve-free :
    (ttl : ℕ) (k : String) (now : ℕ) (m : States)
    → Map.IsMap m
    → is_active now (Map.get k m) ≡ false
    → (reserve ttl k now m).0 ≡ accepted tt
unfolding reserve sweep_expired
reserve-free ttl k now m map free = ground (arith, Map.get-delete_if (is_expired now) k m map)

pub reserve-held :
    (ttl : ℕ) (k : String) (now : ℕ) (m : States)
    → Map.IsMap m
    → is_active now (Map.get k m) ≡ true
    → reserve ttl k now m ≡ (refused already_in_use, sweep_expired now m)
unfolding reserve sweep_expired
reserve-held ttl k now m map held = ground (arith, Map.get-delete_if (is_expired now) k m map)
