-- ===== src/Store/PreAuthorizedCode/Lockout.antt =====
-- The brute-force lockout: how many wrong transaction codes a pre-authorized code survives.
use vcknots.Common.{
  Bool-cases, List, Option, Option-cases, String, [], arith, eq_iff, eq_refl, inl, inr, length,
  none, some, ℕ, ◌+◌, ◌<◌, ◌=ˢ◌, ◌∷◌, ◌≡◌, ◌≤◌,
}
use vcknots.Common.Map
use vcknots.Errors.{raise, invalid_grant}
use vcknots.Store.PreAuthorizedCode.{
  TxCode, SaveOptions, PreAuthorizedCodeEntry, Codes, save, consume, locked_message,
}
use vcknots.Store.PreAuthorizedCode.Redeem.{attempts_of, get-consume_ne, consume-absent}

-- What is stored under the code has attempts left.
abbrev pub HasAttempts : ℕ → Option PreAuthorizedCodeEntry → Type 0
HasAttempts max none = Unit {0}
HasAttempts max (some e) = attempts_of e < max

-- Every stored code has attempts left, so the admission gate never refuses one that is stored.
pub record IsAdmitting (max : ℕ) (m : Codes) : Type 0 where
  pub at_code : (code : String) → HasAttempts max (Map.get code m)

-- What one `consume` can leave of an entry: nothing, or the entry with one more attempt counted.
abbrev pub Counted : ℕ → PreAuthorizedCodeEntry → Option PreAuthorizedCodeEntry → Type 0
Counted max e none = Unit {0}
Counted max e (some e') =
    (e' ≡ record e { attempts = some (attempts_of e + 1) }) × (attempts_of e + 1 < max)

consume-Counted :
    (max : ℕ) (code : String) (tx_code : Option TxCode) (now : ℕ) (m : Codes)
    (e : PreAuthorizedCodeEntry)
    → Map.get code m ≡ some e
    → attempts_of e < max
    → Counted max e (Map.get code (consume max code tx_code now m).1)
unfolding consume
consume-Counted max code tx_code now m e found h =
    grind (arith, eq_refl, Map.get-delete, Map.get-set)

Counted-HasAttempts :
    (max : ℕ) (e : PreAuthorizedCodeEntry) (o : Option PreAuthorizedCodeEntry)
    → Counted max e o
    → HasAttempts max o
Counted-HasAttempts max e none h = tt
Counted-HasAttempts max e (some e') h = ground arith

consume_at-HasAttempts :
    (max : ℕ) (key : String) (tx_code : Option TxCode) (now : ℕ) (m : Codes)
    → HasAttempts max (Map.get key m)
    → HasAttempts max (Map.get key (consume max key tx_code now m).1)
consume_at-HasAttempts max key tx_code now m h = elim (Option-cases (Map.get key m)) [
  | inl e ↦ rw (consume-absent max key key tx_code now m e) tt
  | inr (e, found) ↦
      Counted-HasAttempts max e _ (consume-Counted max key tx_code now m e found (rw found at h))
]

-- If every stored code has fewer than `max` attempts counted, this still holds after `consume`, with
-- any `tx_code` at any moment: what is stored can be tried.
pub consume-IsAdmitting :
    (max : ℕ) (key : String) (tx_code : Option TxCode) (now : ℕ) (m : Codes)
    → IsAdmitting max m
    → IsAdmitting max (consume max key tx_code now m).1
consume-IsAdmitting max key tx_code now m h = record {
  at_code = λ j. elim (Bool-cases (key =ˢ j)) [
    | inl same ↦
        rw (← (eq_iff key j).0 same) (consume_at-HasAttempts max key tx_code now m (h.at_code key))
    | inr other ↦
        rw (get-consume_ne max key j tx_code now m (λ e. ground (arith, eq_iff key j)))
          (h.at_code j)
  ];
}

-- If every stored code has fewer than `max` attempts counted and `max` is not 0, this still holds
-- after `save`, refused or not.
pub save-IsAdmitting :
    (max : ℕ) (key : String) (ids : List String) (tx_code : Option TxCode)
    (options : Option SaveOptions) (now : ℕ) (m : Codes)
    → 0 < max
    → IsAdmitting max m
    → IsAdmitting max (save key ids tx_code options now m).1
unfolding save
save-IsAdmitting max key ids tx_code options now m p h = record {
  at_code = λ j. grind (arith, eq_iff key j, Map.get-set, h.at_code j);
}

-- The attempts at a code, each with the `tx_code` that it presents and the clock's value.
pub attempt : ℕ → String → List (Option TxCode × ℕ) → Codes → Codes
attempt max key [] m = m
attempt max key ((tx_code, now) ∷ later) m = attempt max key later (consume max key tx_code now m).1

attempt-absent :
    (max : ℕ) (key : String) (gs : List (Option TxCode × ℕ)) (m : Codes)
    → Map.get key m ≡ none
    → Map.get key (attempt max key gs m) ≡ none
unfolding attempt
attempt-absent max key [] m h = h
attempt-absent max key ((tx_code, now) ∷ later) m h =
    attempt-absent max key later _ (consume-absent max key key tx_code now m h)

attempt-exhausted :
    (max : ℕ) (key : String) (gs : List (Option TxCode × ℕ)) (m : Codes)
    (e : PreAuthorizedCodeEntry)
    → Map.get key m ≡ some e
    → attempts_of e < max
    → max ≤ attempts_of e + length gs
    → Map.get key (attempt max key gs m) ≡ none
unfolding attempt
attempt-exhausted max key [] m e found h enough = absurd (omega arith)
attempt-exhausted max key ((tx_code, now) ∷ later) m e found h enough =
    let m' = (consume max key tx_code now m).1 in
    elim (Option-cases (Map.get key m')) [
      | inl gone ↦ attempt-absent max key later m' gone
      | inr (e', kept) ↦
          let (same, more) = rw kept at (consume-Counted max key tx_code now m e found h) in
          attempt-exhausted max key later m' e' kept (ground arith) (ground arith)
    ]

consume_absent_lem :
    (max : ℕ) (key : String) (tx_code : Option TxCode) (now : ℕ) (m : Codes)
    → Map.get key m ≡ none
    → consume max key tx_code now m ≡ (raise invalid_grant locked_message, m)
unfolding consume
consume_absent_lem max key tx_code now m e = rw (e, consume)

-- A code that is stored with attempts left is dead after so many attempts, right or wrong, at any
-- moments: every further attempt is refused as locked, whatever `tx_code` it presents, and
-- changes nothing.
pub lockout :
    (max : ℕ) (key : String) (gs : List (Option TxCode × ℕ)) (m : Codes)
    (e : PreAuthorizedCodeEntry) (tx_code : Option TxCode) (now : ℕ)
    → Map.get key m ≡ some e
    → attempts_of e < max
    → max ≤ attempts_of e + length gs
    → consume max key tx_code now (attempt max key gs m)
      ≡ (raise invalid_grant locked_message, attempt max key gs m)
lockout max key gs m e tx_code now found h enough =
    consume_absent_lem max key tx_code now _ (attempt-exhausted max key gs m e found h enough)
