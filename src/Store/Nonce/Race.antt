-- ===== src/Store/Nonce/Race.antt =====
-- Sessions that use one nonce at the same time: issuer.flows.ts and verifier.flows.ts call `validate`
-- and then `revoke`, with other sessions in between; authz.flows.ts calls `consume`. Each call of the
-- store is one step.
use vcknots.Common.{
  Option, ap, arith, if◌then◌else◌, none, not, refl, some, true, ℕ, ◌&&◌, ◌+◌, ◌-◌, ◌<◌, ◌=ˢ◌, ◌∙◌,
  ◌≡◌, ◌≤◌,
}
use vcknots.Common.Map
use vcknots.Store.Nonce.{Nonce, NonceState, NonceStates, validate, revoke, consume}
use vcknots.Store.Nonce.Once.{is_live, consume_iff_validate, consumed-absent}

-- How many sessions wait for the first call, have validated the nonce, and have accepted it.
pub record Sessions : Type 0 where
  pub waiting : ℕ
  pub validated : ℕ
  pub accepted : ℕ
  pub states : NonceStates

abbrev pub starting : ℕ → NonceStates → Sessions
starting n m = record { waiting = n; validated = 0; accepted = 0; states = m }

-- A session that validates and revokes takes two steps.
pub data RevokeStep (n : Nonce) : Sessions → Sessions → Type 0 where
  validating :
      (t : Sessions) (now : ℕ)
      → 0 < t.waiting
      → RevokeStep n t (record t {
        waiting = t.waiting - 1;
        validated = if (validate n now t.states).0 then t.validated + 1 else t.validated;
        states = (validate n now t.states).1;
      })
  revoking :
      (t : Sessions)
      → 0 < t.validated
      → RevokeStep n t (record t {
        validated = t.validated - 1;
        accepted = t.accepted + 1;
        states = (revoke n t.states).1;
      })

-- A session that consumes takes one.
pub data ConsumeStep (n : Nonce) : Sessions → Sessions → Type 0 where
  consuming :
      (t : Sessions) (now : ℕ)
      → 0 < t.waiting
      → ConsumeStep n t (record t {
        waiting = t.waiting - 1;
        accepted = if (consume n now t.states).0 then t.accepted + 1 else t.accepted;
        states = (consume n now t.states).1;
      })

-- Any number of steps of a relation.
pub data Reach (R : Sessions → Sessions → Type 0) (s : Sessions) : Sessions → Type 0 where
  here : Reach R s s
  next : {t u : Sessions} → Reach R s t → R t u → Reach R s u

-- A live nonce is validated, and is live afterwards.
validate-live :
    (n : Nonce) (now : ℕ) (m : NonceStates)
    → is_live now (Map.get n.nonce m) ≡ true
    → ((validate n now m).0 ≡ true) × (is_live now (Map.get n.nonce (validate n now m).1) ≡ true)
validate-live n now m live =
    let (_, valid, _, kept) = consume_iff_validate n now m n.nonce in
    (
      valid ∙ live,
      ap (is_live now) (
            kept
            ∙ ap (λ b. if n.nonce =ˢ n.nonce && not b then none else Map.get n.nonce m) live
            ∙ ground arith)
          ∙ live,
    )

-- Where sessions validate and then revoke, two sessions that start together with a nonce that is live
-- at the moment of both checks can both accept it.
pub both_accept :
    (n : Nonce) (now : ℕ) (m : NonceStates)
    → is_live now (Map.get n.nonce m) ≡ true
    → (t : Sessions) × Reach (RevokeStep n) (starting 2 m) t × (t.accepted ≡ 2)
both_accept n now m live =
    let after = (validate n now m).1 in
    let first = validate-live n now m live in
    let second = validate-live n now after first.1 in
    let two : (if (validate n now after).0
          then (if (validate n now m).0 then 0 + 1 else 0) + 1
          else (if (validate n now m).0 then 0 + 1 else 0))
        ≡ 2 =
      ground (arith, first.0, second.0) in
    let checked =
      next (next here (validating (starting 2 m) now (omega arith)))
        (validating _ now (omega arith)) in
    (
      _,
      next (next checked (revoking _ (omega (arith, two)))) (revoking _ (omega (arith, two))),
      refl,
    )

abbrev is_stored : Option NonceState → ℕ
is_stored none = 0
is_stored (some _) = 1

-- The sessions that have accepted the nonce, and the nonce itself, are at most one.
abbrev IsExclusive : Nonce → Sessions → Type 0
IsExclusive n t = t.accepted + is_stored (Map.get n.nonce t.states) ≤ 1

ConsumeStep-IsExclusive :
    (n : Nonce) {t u : Sessions} → ConsumeStep n t u → IsExclusive n t → IsExclusive n u
ConsumeStep-IsExclusive n (consuming t now p) h =
    let (accepted, _, _, _) = consume_iff_validate n now t.states n.nonce in
    ground (arith, accepted, consumed-absent n now t.states)

Reach-IsExclusive :
    (n : Nonce) {s t : Sessions} → IsExclusive n s → Reach (ConsumeStep n) s t → IsExclusive n t
Reach-IsExclusive n h here = h
Reach-IsExclusive n h (next r st) = ConsumeStep-IsExclusive n st (Reach-IsExclusive n h r)

-- Where sessions consume a nonce, however many there are, at whatever times and in whatever order
-- they take their steps, at most one of them accepts it.
pub one_accepts :
    (n : Nonce) (sessions : ℕ) (m : NonceStates) (t : Sessions)
    → Reach (ConsumeStep n) (starting sessions m) t
    → t.accepted ≤ 1
one_accepts n sessions m t r =
    let start : IsExclusive n (starting sessions m) = ground arith in
    let h = Reach-IsExclusive n start r in omega arith
