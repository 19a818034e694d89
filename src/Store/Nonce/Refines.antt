-- ===== src/Store/Nonce/Refines.antt =====
-- The nonce store against its specification: a set of nonces that are accepted at a moment. When the
-- store drops what has expired cannot be told from outside.
use vcknots.Common.{
  Bool, Bool-cases, List, Option, Option-cases, String, [], ap, arith, eq_iff, false, fun_ext,
  if◌then◌else◌, inl, inr, leb, none, refl, some, sym, ℕ, ◌+◌, ◌=ˢ◌, ◌∙◌, ◌∷◌, ◌≡◌, ◌≤◌,
}
use vcknots.Common.Map
use vcknots.Store.Nonce.{Nonce, NonceState, NonceStates, save, validate, revoke}
use vcknots.Store.Nonce.Once.{
  is_live, consume_iff_validate, NonceCall, saving, validating, revoking, consuming, step, run,
}

-- Which nonces are accepted, at a moment that is fixed.
abbrev pub Live : Type 0
Live = String → Bool

abbrev pub view : ℕ → NonceStates → Live
view moment m k = is_live moment (Map.get k m)

abbrev pub live_for : ℕ → Option ℕ → ℕ → Bool → Bool
live_for now none moment before = before
live_for now (some ttl) moment before = leb moment (now + ttl)

-- What a call does to the set: validating does nothing, revoking and consuming take the nonce out.
abbrev pub specified : ℕ → NonceCall → Live → Live
specified moment (saving n now) live k =
    if n.nonce =ˢ k then live_for now n.nonce_expires_in moment (live k) else live k
specified moment (validating n now) live k = live k
specified moment (revoking n) live k = if n.nonce =ˢ k then false else live k
specified moment (consuming n now) live k = if n.nonce =ˢ k then false else live k

abbrev pub specified_run : ℕ → List NonceCall → Live → Live
specified_run moment [] live = live
specified_run moment (c ∷ calls) live = specified_run moment calls (specified moment c live)

abbrev time_of : NonceCall → ℕ
time_of (saving n now) = now
time_of (validating n now) = now
time_of (revoking n) = 0
time_of (consuming n now) = now

-- No call is later than the moment.
abbrev pub AreBefore : ℕ → List NonceCall → Type 0
AreBefore moment [] = Unit {0}
AreBefore moment (c ∷ calls) = (time_of c ≤ moment) × AreBefore moment calls

save-specified :
    (moment : ℕ) (n : Nonce) (now : ℕ) (m : NonceStates) (k : String)
    → view moment (save n now m).1 k ≡ specified moment (saving n now) (view moment m) k
unfolding save
save-specified moment n now m k = elim (Option-cases n.nonce_expires_in) [
  | inl e ↦ ground (arith, e)
  | inr (ttl, e) ↦
      ground (arith, e, Map.get-set n.nonce k (record { nonce = n; expires_at = now + ttl }) m)
]

-- What is not accepted now is not accepted later.
not_later :
    (now moment : ℕ) (o : Option NonceState)
    → now ≤ moment
    → is_live now o ≡ false
    → is_live moment o ≡ false
not_later now moment none h dead = refl
not_later now moment (some state) h dead = ground arith

validate-view :
    (moment : ℕ) (n : Nonce) (now : ℕ) (m : NonceStates) (k : String)
    → now ≤ moment
    → view moment (validate n now m).1 k ≡ view moment m k
validate-view moment n now m k before =
    let (_, _, _, kept) = consume_iff_validate n now m k in
    elim (Bool-cases (n.nonce =ˢ k)) [
      | inr other ↦ ground (arith, kept, other)
      | inl same ↦
          let e : n.nonce ≡ k = (eq_iff n.nonce k).0 same in
          elim (Bool-cases (is_live now (Map.get n.nonce m))) [
            | inl live ↦ ground (arith, kept, same, live)
            | inr dead ↦
                let later =
                  not_later now moment (Map.get k m) before
                    (ap (λ j. is_live now (Map.get j m)) (sym e) ∙ dead) in
                ground (arith, kept, same, dead, later)
          ]
    ]

step-specified :
    (moment : ℕ) (c : NonceCall) (m : NonceStates) (k : String)
    → time_of c ≤ moment
    → view moment (step c m) k ≡ specified moment c (view moment m) k
unfolding step
step-specified moment (saving n now) m k before = save-specified moment n now m k
step-specified moment (validating n now) m k before = validate-view moment n now m k before
step-specified moment (revoking n) m k before =
    unfold revoke in ground (arith, Map.get-delete n.nonce k m)
step-specified moment (consuming n now) m k before =
    let (_, _, after, _) = consume_iff_validate n now m k in ground (arith, after)

-- The store is a set of accepted nonces: after any calls, none of them later than a given moment, the
-- nonces that it accepts at that moment are those of the specification, in which validating changes
-- nothing, revoking and consuming take a nonce out, and saving accepts it to the end of its lifetime.
pub run_refines :
    (moment : ℕ) (calls : List NonceCall) (m : NonceStates) (k : String)
    → AreBefore moment calls
    → view moment (run calls m) k ≡ specified_run moment calls (view moment m) k
unfolding run
run_refines moment [] m k before = refl
run_refines moment (c ∷ calls) m k before =
    run_refines moment calls (step c m) k before.1
    ∙ ap (λ live. specified_run moment calls live k)
        (fun_ext (λ j. step-specified moment c m j before.0))
