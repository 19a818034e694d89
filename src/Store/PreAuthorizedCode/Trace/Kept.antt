-- ===== src/Store/PreAuthorizedCode/Trace/Kept.antt =====
-- The credential configurations of a code stay what they were when it was saved.
use vcknots.Common.{
  Bool-cases, List, Option, Option-cases, String, [], ap, arith, eq_iff, eq_refl, inl, inr, none,
  refl, some, sym, ℕ, ◌=ˢ◌, ◌∙◌, ◌∷◌, ◌≡◌, ◌≢◌,
}
use vcknots.Common.Map
use vcknots.Store.PreAuthorizedCode.{
  TxCode, SaveOptions, PreAuthorizedCodeEntry, Codes, save, consume,
}
use vcknots.Store.PreAuthorizedCode.Redeem.{get-consume_ne, consume-absent}
use vcknots.Store.PreAuthorizedCode.Trace.{CodeCall, saving, consuming, NotSaved, step, run}

get-save_ne :
    (key k : String) (ids : List String) (tx_code : Option TxCode) (options : Option SaveOptions)
    (now : ℕ) (m : Codes)
    → key ≢ k
    → Map.get k (save key ids tx_code options now m).1 ≡ Map.get k m
unfolding save
get-save_ne key k ids tx_code options now m ne = grind (arith, eq_iff key k, Map.get-set)

-- What `consume` leaves under its code is what it found there, up to the number of attempts.
consume_entry :
    (max : ℕ) (code : String) (tx_code : Option TxCode) (now : ℕ) (m : Codes)
    (e e' : PreAuthorizedCodeEntry)
    → Map.get code m ≡ some e
    → Map.get code (consume max code tx_code now m).1 ≡ some e'
    → e'.credential_configuration_ids ≡ e.credential_configuration_ids
unfolding consume
consume_entry max code tx_code now m e e' found left =
    grind (arith, eq_refl, Map.get-delete, Map.get-set)

-- An entry stored before, with the same configurations.
abbrev Kept : String → PreAuthorizedCodeEntry → Codes → Type 0
Kept k e m =
    (e0 : PreAuthorizedCodeEntry) × (Map.get k m ≡ some e0)
    × (e.credential_configuration_ids ≡ e0.credential_configuration_ids)

consume-Kept :
    (max : ℕ) (code k : String) (tx_code : Option TxCode) (now : ℕ) (m : Codes)
    (e : PreAuthorizedCodeEntry)
    → Map.get k (consume max code tx_code now m).1 ≡ some e
    → Kept k e m
consume-Kept max code k tx_code now m e left = elim (Option-cases (Map.get k m)) [
  | inl missing ↦ absurd (cc (left, consume-absent max code k tx_code now m missing))
  | inr (e0, found) ↦ (
    e0,
    found,
    elim (Bool-cases (code =ˢ k)) [
      | inl same ↦
          let e : code ≡ k = (eq_iff code k).0 same in
          consume_entry max code tx_code now m e0 _ (ap (λ j. Map.get j m) e ∙ found)
            (ap (λ j. Map.get j (consume max code tx_code now m).1) e ∙ left)
      | inr other ↦
          let ne : k ≢ code = λ same. ground (arith, eq_iff code k) in
          ap
            (λ o. elim o [
              | none ↦ e0.credential_configuration_ids
              | some e ↦ e.credential_configuration_ids
            ])
            (sym left ∙ get-consume_ne max code k tx_code now m ne ∙ found)
    ],
  )
]

pub run-Kept :
    (max : ℕ) (k : String) (calls : List CodeCall) (m : Codes) (e : PreAuthorizedCodeEntry)
    → NotSaved k calls
    → Map.get k (run max calls m) ≡ some e
    → Kept k e m
unfolding run step
run-Kept max k [] m e unsaved left = (e, left, refl)
run-Kept max k (saving key ids tx_code options now ∷ calls) m e unsaved left =
    let (e0, found, same) = run-Kept max k calls _ e unsaved.1 left in
    (e0, sym (get-save_ne key k ids tx_code options now m unsaved.0) ∙ found, same)
run-Kept max k (consuming key tx_code now ∷ calls) m e unsaved left =
    let (e0, found, same) = run-Kept max k calls _ e unsaved left in
    let (e1, found1, same1) = consume-Kept max key k tx_code now m e0 found in
    (e1, found1, same ∙ same1)
