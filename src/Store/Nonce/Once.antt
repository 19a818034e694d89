-- ===== src/Store/Nonce/Once.antt =====
-- A nonce is accepted once, and only while it lives.
use vcknots.Common.{
  Bool, List, Option, Option-cases, String, [], ap, arith, eq_iff, eq_refl, false, if◌then◌else◌,
  inl, inr, ltb, none, not, some, ℕ, ◌&&◌, ◌+◌, ◌=ˢ◌, ◌∙◌, ◌∷◌, ◌≡◌, ◌≢◌,
}
use vcknots.Errors.{ok}
use vcknots.Common.Map
use vcknots.Store.Nonce.{Nonce, NonceState, NonceStates, save, validate, revoke, consume}

-- What is stored and has not expired.
abbrev pub is_live : ℕ → Option NonceState → Bool
is_live now none = false
is_live now (some state) = not (ltb state.expires_at now)

-- `validate` and `consume` accept exactly a nonce that is stored and has not expired. `consume` leaves
-- it out afterwards, `validate` only if it has expired, and no other nonce changes.
pub consume_iff_validate :
    (n : Nonce) (now : ℕ) (m : NonceStates) (j : String)
    → ((consume n now m).0 ≡ is_live now (Map.get n.nonce m))
      × ((validate n now m).0 ≡ is_live now (Map.get n.nonce m))
      × (Map.get j (consume n now m).1 ≡ (if n.nonce =ˢ j then none else Map.get j m))
      × (Map.get j (validate n now m).1
          ≡ (if n.nonce =ˢ j && not (is_live now (Map.get n.nonce m)) then none else Map.get j m))
unfolding consume validate
consume_iff_validate n now m j = (
  ground arith,
  ground arith,
  ground (arith, Map.get-delete n.nonce j m, eq_iff n.nonce j),
  ground (arith, Map.get-delete n.nonce j m, eq_iff n.nonce j),
)

-- One call of the store, with the clock's value in it.
pub data NonceCall : Type 0 where
  saving : Nonce → ℕ → NonceCall
  validating : Nonce → ℕ → NonceCall
  revoking : Nonce → NonceCall
  consuming : Nonce → ℕ → NonceCall

unfoldable pub step : NonceCall → NonceStates → NonceStates
step (saving n now) m = (save n now m).1
step (validating n now) m = (validate n now m).1
step (revoking n) m = (revoke n m).1
step (consuming n now) m = (consume n now m).1

unfoldable pub run : List NonceCall → NonceStates → NonceStates
run [] m = m
run (c ∷ calls) m = run calls (step c m)

-- No call saves the nonce again.
abbrev pub NotSaved : String → List NonceCall → Type 0
NotSaved k [] = Unit {0}
NotSaved k (saving n now ∷ calls) = (n.nonce ≢ k) × NotSaved k calls
NotSaved k (_ ∷ calls) = NotSaved k calls

save-absent :
    (k : String) (n : Nonce) (now : ℕ) (m : NonceStates)
    → n.nonce ≢ k
    → Map.get k m ≡ none
    → Map.get k (save n now m).1 ≡ none
unfolding save
save-absent k n now m ne absent = elim (Option-cases n.nonce_expires_in) [
  | inl e ↦ rw (e, save) absent
  | inr (ttl, e) ↦ ground (
    arith,
    Map.get-set n.nonce k (record { nonce = n; expires_at = now + ttl }) m,
    eq_iff n.nonce k,
  )
]

pub delete-absent :
    (k j : String) (m : NonceStates) → Map.get k m ≡ none → Map.get k (Map.delete j m) ≡ none
delete-absent k j m absent = ground (arith, Map.get-delete j k m)

pub validate-absent :
    (k : String) (n : Nonce) (now : ℕ) (m : NonceStates)
    → Map.get k m ≡ none
    → Map.get k (validate n now m).1 ≡ none
unfolding validate
validate-absent k n now m absent = ground (arith, delete-absent k n.nonce m absent)

consume-absent :
    (k : String) (n : Nonce) (now : ℕ) (m : NonceStates)
    → Map.get k m ≡ none
    → Map.get k (consume n now m).1 ≡ none
unfolding consume
consume-absent k n now m absent = ground (arith, delete-absent k n.nonce m absent)

run-absent :
    (k : String) (calls : List NonceCall) (m : NonceStates)
    → NotSaved k calls
    → Map.get k m ≡ none
    → Map.get k (run calls m) ≡ none
unfolding run step
run-absent k [] m unsaved absent = absent
run-absent k (saving n now ∷ calls) m unsaved absent =
    run-absent k calls _ unsaved.1 (save-absent k n now m unsaved.0 absent)
run-absent k (validating n now ∷ calls) m unsaved absent =
    run-absent k calls _ unsaved (validate-absent k n now m absent)
run-absent k (revoking n ∷ calls) m unsaved absent =
    run-absent k calls _ unsaved (unfold revoke in delete-absent k n.nonce m absent)
run-absent k (consuming n now ∷ calls) m unsaved absent =
    run-absent k calls _ unsaved (consume-absent k n now m absent)

pub consumed-absent :
    (n : Nonce) (now : ℕ) (m : NonceStates) → Map.get n.nonce (consume n now m).1 ≡ none
consumed-absent n now m = ground (arith, (consume_iff_validate n now m n.nonce).2, eq_refl n.nonce)

-- After `consume`, accepted or not, the nonce is refused by `consume` and `validate` at every later
-- moment, whatever calls come between, unless one of them saves it again.
pub consumed_once :
    (n : Nonce) (now : ℕ) (calls : List NonceCall) (now' : ℕ) (m : NonceStates)
    → NotSaved n.nonce calls
    → let m' = run calls (consume n now m).1 in
      ((consume n now' m').0 ≡ false) × ((validate n now' m').0 ≡ false)
consumed_once n now calls now' m unsaved =
    let gone = consumed-absent n now m in
    let absent = run-absent n.nonce calls (consume n now m).1 unsaved gone in
    let after = consume_iff_validate n now' (run calls (consume n now m).1) n.nonce in
    (after.0 ∙ ap (is_live now') absent, after.1 ∙ ap (is_live now') absent)

get-save :
    (n : Nonce) (ttl now : ℕ) (m : NonceStates)
    → n.nonce_expires_in ≡ some ttl
    → Map.get n.nonce (save n now m).1 ≡ some (record { nonce = n; expires_at = now + ttl })
unfolding save
get-save n ttl now m e = ground (
  arith,
  Map.get-set n.nonce n.nonce (record { nonce = n; expires_at = now + ttl }) m,
  eq_refl n.nonce,
)

save-ok :
    (n : Nonce) (ttl now : ℕ) (m : NonceStates)
    → n.nonce_expires_in ≡ some ttl
    → (save n now m).0 ≡ ok tt
unfolding save
save-ok n ttl now m e = ground arith

-- A nonce with a lifetime is saved; it is then accepted by `consume` up to the last millisecond of
-- that lifetime, and refused after it.
pub lifetime_exact :
    (n : Nonce) (ttl now now' : ℕ) (m : NonceStates)
    → n.nonce_expires_in ≡ some ttl
    → ((save n now m).0 ≡ ok tt)
      × ((consume n now' (save n now m).1).0 ≡ not (ltb (now + ttl) now'))
lifetime_exact n ttl now now' m e = (
  save-ok n ttl now m e,
  (consume_iff_validate n now' (save n now m).1 n.nonce).0
      ∙ ap (is_live now') (get-save n ttl now m e),
)
