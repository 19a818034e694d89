-- ===== src/Issuer/Proof/Spent.antt =====
-- What the loop over the proofs of a request leaves behind.
use vcknots.Common.{
  Bool, Bool-cases, List, Option, Option-cases, String, [], ap, arith, eq_iff, false, if◌then◌else◌,
  includes, inl, inr, none, refl, some, subst, sym, true, ℕ, ◌+◌, ◌∙◌, ◌∷◌, ◌≡◌,
}
use vcknots.Errors.{Result, ok}
use vcknots.Common.Map
use vcknots.Flow.{guard, or_throw, lift}
use vcknots.Flow.Laws.{and_then-ok, or_throw-ok, guard-ok, lift-ok}
use vcknots.Store.Nonce
use vcknots.Store.Nonce.{NonceState, NonceStates}
use vcknots.Store.Nonce.Once.{is_live, consume_iff_validate}
use vcknots.Issuer.Types.{ProofValue}
use vcknots.Issuer.Proof.{
  ProofContext, ProofJwt, CredentialProofProvider, lookup_nonce, use_cnonce, verify_proofs,
}
use vcknots.Authz.State.{Server, date_now, validate_nonce}

-- The nonce of a proof, where nonces are in use.
abbrev pub nonce_in_use : Bool → Option String → Option String
nonce_in_use false presented = none
nonce_in_use true presented = presented

-- The entry of a nonce after some nonces of a store have been spent.
abbrev pub unspent : List String → NonceStates → String → Option NonceState
unspent spent m k = if includes spent k then none else Map.get k m

live_unspent :
    (now : ℕ) (spent : List String) (m : NonceStates) (k : String)
    → is_live now (unspent spent m k) ≡ true
    → (is_live now (Map.get k m) ≡ true) × (includes spent k ≡ false)
live_unspent now spent m k h = elim (Bool-cases (includes spent k)) [
  | inl e ↦ absurd (cc (rw e at h))
  | inr e ↦ (rw e at h, e)
]

module _ (provider : CredentialProofProvider) (context : Option ProofContext) (cnonce : Bool)
    (clock : ℕ → ℕ) (m : NonceStates) where
  -- A run over proofs from a reading of the clock on, with the nonces that it has spent from the store
  -- `m` and the last proof, before and after it. Each value is verified at the time; the nonce of its
  -- proof is live in the store at the next reading, and no proof before it has spent it.
  pub data Spends
      : ℕ
        → List String
        → Option ProofJwt
        → List ProofValue
        → List String
        → Option ProofJwt
        → Type 0 where
    finished :
        {n : ℕ} {spent : List String} {last : Option ProofJwt} → Spends n spent last [] spent last
    without_nonce :
        {n : ℕ} {spent spent' : List String} {last last' : Option ProofJwt} {value : ProofValue}
        {values : List ProofValue} {proof : ProofJwt}
        → provider.verify_proof value context (clock n) ≡ ok (some proof)
        → nonce_in_use cnonce proof.nonce ≡ none
        → Spends (n + 1) spent (some proof) values spent' last'
        → Spends n spent last (value ∷ values) spent' last'
    with_nonce :
        {n : ℕ} {spent spent' : List String} {last last' : Option ProofJwt} {value : ProofValue}
        {values : List ProofValue} {proof : ProofJwt} {nonce : String}
        → provider.verify_proof value context (clock n) ≡ ok (some proof)
        → nonce_in_use cnonce proof.nonce ≡ some nonce
        → is_live (clock (n + 1)) (Map.get nonce m) ≡ true
        → includes spent nonce ≡ false
        → Spends (n + 1 + 1) (nonce ∷ spent) (some proof) values spent' last'
        → Spends n spent last (value ∷ values) spent' last'

module _ {M : Type 0} where
  abbrev validated : String → Server M → Bool × NonceStates
  validated nonce s = Nonce.validate (lookup_nonce nonce) (s.clock s.readings) s.nonces

  use_cnonce-ok :
      (nonce : String) (s : Server M) {u : Unit {0}} {t : Server M}
      → use_cnonce true (some nonce) s ≡ (ok u, t)
      → ((validated nonce s).0 ≡ true)
        × (t ≡ record s {
          readings = s.readings + 1;
          nonces = Map.delete nonce (validated nonce s).1;
        })
  unfolding use_cnonce Nonce.revoke
  use_cnonce-ok nonce s {t = t} h =
      let (_, s1, e1, h1) =
        and_then-ok (guard (validated nonce s).0 _ _ (validate_nonce (lookup_nonce nonce) s).1) _
          h in
      let (valid, same) = guard-ok (validated nonce s).0 _ _ _ e1 in
      (
        valid,
        ap (λ r. r.1) (sym h1)
            ∙ ap (λ (v : Server M). record v { nonces = Map.delete nonce v.nonces }) (sym same),
      )

  use_cnonce-same :
      (cnonce : Bool) (nonce : Option String) (s : Server M) {u : Unit {0}} {t : Server M}
      → nonce_in_use cnonce nonce ≡ none
      → use_cnonce cnonce nonce s ≡ (ok u, t)
      → s ≡ t
  unfolding use_cnonce
  use_cnonce-same true none s idle h = ap (λ r. r.1) h
  use_cnonce-same true (some nonce) s idle h = absurd (ground arith)
  use_cnonce-same false presented s idle h = ap (λ r. r.1) h

  -- A state in a run: what is left of the store `m`, at a reading of the clock.
  record IsAt (clock : ℕ → ℕ) (m : NonceStates) (n : ℕ) (spent : List String) (s : Server M)
      : Type 0 where
    timed : s.clock ≡ clock
    read : s.readings ≡ n
    left : (k : String) → Map.get k s.nonces ≡ unspent spent m k

  use_cnonce-IsAt :
      (clock : ℕ → ℕ) (m : NonceStates) (n : ℕ) (spent : List String) (nonce : String)
      (s : Server M) {u : Unit {0}} {t : Server M}
      → IsAt clock m n spent s
      → use_cnonce true (some nonce) s ≡ (ok u, t)
      → (is_live (clock n) (Map.get nonce m) ≡ true)
        × (includes spent nonce ≡ false)
        × IsAt clock m (n + 1) (nonce ∷ spent) t
  unfolding includes
  use_cnonce-IsAt clock m n spent nonce s {t = t} here h =
      let (valid, after) = use_cnonce-ok nonce s h in
      let live : is_live (s.clock s.readings) (Map.get nonce s.nonces) ≡ true =
        sym (consume_iff_validate (lookup_nonce nonce) (s.clock s.readings) s.nonces nonce).1
        ∙ valid in
      let (first, fresh) =
        live_unspent (clock n) spent m nonce
          (sym (cc (here.timed, here.read, here.left nonce)) ∙ live) in
      (
        first,
        fresh,
        record {
          timed = ap (λ (v : Server M). v.clock) after ∙ here.timed;
          read = ap (λ (v : Server M). v.readings) after ∙ ap (λ x. x + 1) here.read;
          left = λ k.
              ap (λ (v : Server M). Map.get k v.nonces) after
              ∙ ground (
                arith,
                live,
                Map.get-delete nonce k (validated nonce s).1,
                (consume_iff_validate (lookup_nonce nonce) (s.clock s.readings) s.nonces k).3,
                here.left k,
                eq_iff nonce k,
              );
        },
      )

  -- The same for whatever nonce is in use.
  use_cnonce-spends :
      (clock : ℕ → ℕ) (m : NonceStates) (n : ℕ) (spent : List String) (cnonce : Bool)
      (presented : Option String) (nonce : String) (s : Server M) {u : Unit {0}} {t : Server M}
      → nonce_in_use cnonce presented ≡ some nonce
      → IsAt clock m n spent s
      → use_cnonce cnonce presented s ≡ (ok u, t)
      → (is_live (clock n) (Map.get nonce m) ≡ true)
        × (includes spent nonce ≡ false)
        × IsAt clock m (n + 1) (nonce ∷ spent) t
  use_cnonce-spends clock m n spent false presented nonce s e here h = absurd (cc e)
  use_cnonce-spends clock m n spent true presented nonce s {t = t} e here h =
      use_cnonce-IsAt clock m n spent nonce s here (ap (λ o. use_cnonce true o s) (sym e) ∙ h)

  IsAt-after :
      (clock : ℕ → ℕ) (m : NonceStates) (n : ℕ) (spent : List String) (s : Server M) {t : Server M}
      → IsAt clock m n spent s
      → (date_now s).1 ≡ t
      → IsAt clock m (n + 1) spent t
  IsAt-after clock m n spent s here e =
      subst (λ u. IsAt clock m (n + 1) spent u) e
        (record { timed = here.timed; read = ap (λ x. x + 1) here.read; left = here.left })

  module _ (provider : CredentialProofProvider) (context : Option ProofContext) (cnonce : Bool)
      (clock : ℕ → ℕ) (m : NonceStates) where
    -- The nonces that a run ends with, and the store.
    abbrev Ends :
        ℕ → List String → Option ProofJwt → List ProofValue → Option ProofJwt → Server M → Type 0
    Ends n spent last values r t =
        (spent' : List String) × Spends provider context cnonce clock m n spent last values spent' r
        × ((k : String) → Map.get k t.nonces ≡ unspent spent' m k)

    verify_proofs-Ends :
        (values : List ProofValue) (n : ℕ) (spent : List String) (last : Option ProofJwt)
        (s t : Server M) (r : Option ProofJwt)
        → IsAt clock m n spent s
        → verify_proofs provider context cnonce values last s ≡ (ok r, t)
        → Ends n spent last values r t
    unfolding verify_proofs
    verify_proofs-Ends [] n spent last s t r here h = (
      spent,
      subst (λ x. Spends provider context cnonce clock m n spent last [] spent x) (last_is h)
          finished,
      λ k. ap (λ u. Map.get k u.1.nonces) (sym h) ∙ here.left k,
    )
      where
        last_is :
            {a b : Option ProofJwt} {u v : Server M}
            → ◌≡◌ {A = Result (Option ProofJwt) × Server M} (ok a, u) (ok b, v)
            → a ≡ b
        last_is e = cc e
    verify_proofs-Ends (value ∷ values) n spent last s t r here h =
        let s0 : Server M = (date_now s).1 in
        let (found, s1, e1, h1) =
          and_then-ok (lift (provider.verify_proof value context (s.clock s.readings)) s0) _ h in
        let (proof, s2, e2, h2) = and_then-ok (or_throw found _ _ s1) _ h1 in
        let (_, s3, e3, h3) = and_then-ok (use_cnonce cnonce proof.nonce s2) _ h2 in
        let (checked, a1) = lift-ok _ s0 e1 in
        let (is_some_proof, a2) = or_throw-ok found _ _ s1 e2 in
        let verified : provider.verify_proof value context (clock n) ≡ ok (some proof) =
          cc (here.timed, here.read, checked, is_some_proof) in
        let read = IsAt-after clock m n spent s here (a1 ∙ a2) in
        elim (Option-cases (nonce_in_use cnonce proof.nonce)) [
          | inl idle ↦
              let (spent', run, left) =
                verify_proofs-Ends values (n + 1) spent (some proof) s3 t r
                  (subst (λ u. IsAt clock m (n + 1) spent u)
                    (use_cnonce-same cnonce proof.nonce s2 idle e3) read)
                  h3 in
              (spent', without_nonce verified idle run, left)
          | inr (nonce, used) ↦
              let (live, fresh, next) =
                use_cnonce-spends clock m (n + 1) spent cnonce proof.nonce nonce s2 used read e3 in
              let (spent', run, left) =
                verify_proofs-Ends values (n + 1 + 1) (nonce ∷ spent) (some proof) s3 t r next h3 in
              (spent', with_nonce verified used live fresh run, left)
        ]

  -- Where the loop over the proofs of a request ends without an error, the provider verified each of
  -- them when its turn came, and gives back the last proof, or else the one before the loop; where the
  -- flow uses nonces, the nonce of each proof that has one was live in the nonce store before the loop,
  -- at the reading of the clock of its turn, and no two proofs have the same; and afterwards exactly
  -- these nonces are gone from the store.
  pub verify_proofs-AreSpent :
      (provider : CredentialProofProvider) (context : Option ProofContext) (cnonce : Bool)
      (values : List ProofValue) (last : Option ProofJwt) (s t : Server M) (r : Option ProofJwt)
      → verify_proofs provider context cnonce values last s ≡ (ok r, t)
      → (spent : List String) × Spends provider context cnonce s.clock s.nonces s.readings [] last
          values spent r
        × ((k : String) → Map.get k t.nonces ≡ unspent spent s.nonces k)
  unfolding includes
  verify_proofs-AreSpent provider context cnonce values last s t r h =
      verify_proofs-Ends provider context cnonce s.clock s.nonces values s.readings [] last s t r
        (record { timed = refl; read = refl; left = λ k. refl }) h
