-- ===== src/Providers/Certificate/Chain.antt =====
-- Which chains of certificates are accepted.
use vcknots.Common.{
  Bool-cases, List, Option, Option-cases, String, [], ap, arith, eq_iff, false, inl, inr, not,
  or_else, refl, some, true, ℕ, ◌=ˢ◌, ◌||◌, ◌↔◌, ◌∷◌, ◌≡◌, ◌≤◌,
}
use vcknots.Providers.Certificate.{X509, all_valid, is_issued_by, all_issued, check_root, validate}

module _ {Key : Type 0} where
  abbrev pub IsValidAt : ℕ → X509 Key → Type 0
  IsValidAt now c = (c.valid_from ≤ now) × (now ≤ c.valid_to)

  -- The names fit, the signature verifies by the key of the issuer, and the issuer was valid when the
  -- certificate began to be.
  abbrev pub IsIssuedBy : X509 Key → X509 Key → Type 0
  IsIssuedBy c issuer =
      (c.issuer ≡ issuer.subject)
      × (c.verify issuer.public_key ≡ some true)
      × IsValidAt c.valid_from issuer

module _ {Key : Type 0} (parse : String → Option (X509 Key)) (now : ℕ) where
  -- A chain from a certificate to the last one, which is signed by its own key if it names itself.
  pub data IsChain : List String → X509 Key → Type 0 where
    root :
        {pem : String} {c : X509 Key}
        → parse pem ≡ some c
        → IsValidAt now c
        → (c.issuer ≡ c.subject → c.verify c.public_key ≡ some true)
        → IsChain (pem ∷ []) c
    link :
        {pem next : String} {pems : List String} {c issuer : X509 Key}
        → parse pem ≡ some c
        → IsValidAt now c
        → IsIssuedBy c issuer
        → IsChain (next ∷ pems) issuer
        → IsChain (pem ∷ next ∷ pems) c

  -- What the three parts of the check say together.
  record IsChecked (pems : List String) : Type 0 where
    valid : all_valid parse now pems ≡ some true
    issued : all_issued parse pems ≡ true
    signed : check_root parse pems ≡ some true

  pub chain-parse :
      {pem : String} {pems : List String} {c : X509 Key}
      → IsChain (pem ∷ pems) c
      → parse pem ≡ some c
  chain-parse (root p _ _) = p
  chain-parse (link p _ _ _) = p

  root_signed :
      (c : X509 Key)
      → (c.issuer ≡ c.subject → c.verify c.public_key ≡ some true)
      → not (c.issuer =ˢ c.subject) || or_else (c.verify c.public_key) false ≡ true
  root_signed c s = elim (Bool-cases (c.issuer =ˢ c.subject)) [
    | inl e ↦ rw (e, s ((eq_iff _ _).0 e)) refl
    | inr e ↦ rw e refl
  ]

  issued-true :
      (pem next : String) (c d : X509 Key)
      → parse pem ≡ some c
      → parse next ≡ some d
      → IsIssuedBy c d
      → is_issued_by parse pem next ≡ true
  unfolding is_issued_by
  issued-true pem next c d p q i = ground (arith, p, q, i, eq_iff c.issuer d.subject)

  issued-IsIssuedBy :
      (pem next : String) (c d : X509 Key)
      → parse pem ≡ some c
      → parse next ≡ some d
      → is_issued_by parse pem next ≡ true
      → IsIssuedBy c d
  unfolding is_issued_by
  issued-IsIssuedBy pem next c d p q h = ground (arith, p, q, h, eq_iff c.issuer d.subject)

  chain-IsChecked : (pems : List String) {c : X509 Key} → IsChain pems c → IsChecked pems
  unfolding all_valid all_issued check_root
  chain-IsChecked _ (root {c = c} p v s) = record {
    valid = ground (arith, p, v);
    issued = refl;
    signed = rw (p, check_root) (ap some (root_signed c s));
  }
  chain-IsChecked _ (link {pem} {next} {c = c} {issuer = d} p v i rest) =
      let below = chain-IsChecked _ rest in
      record {
        valid = let tail = below.valid in ground (arith, p, v, tail);
        issued =
            let here = issued-true pem next c d p (chain-parse rest) i in
            let tail = below.issued in ground (arith, here, tail);
        signed = below.signed;
      }

  valid-cases :
      (pem : String) (pems : List String)
      → all_valid parse now (pem ∷ pems) ≡ some true
      → (c : X509 Key) × (parse pem ≡ some c)
        × IsValidAt now c
        × (all_valid parse now pems ≡ some true)
  unfolding all_valid
  valid-cases pem pems h = elim (Option-cases (parse pem)) [
    | inl e ↦ absurd (ground (arith, e, h))
    | inr (c, e) ↦ (c, e, ground (arith, e, h), ground (arith, e, h))
  ]

  checked-IsChain :
      (pem : String) (pems : List String)
      → IsChecked (pem ∷ pems)
      → (c : X509 Key) × IsChain (pem ∷ pems) c
  unfolding all_issued check_root
  checked-IsChain pem [] h =
      let (c, p, v, _) = valid-cases pem [] h.valid in
      let signed = h.signed in
      (c, root p v (λ e. ground (arith, p, e, signed, eq_iff c.issuer c.subject)))
  checked-IsChain pem (next ∷ pems) h =
      let (c, p, v, tail) = valid-cases pem (next ∷ pems) h.valid in
      let issued = h.issued in
      let (d, chain) =
        checked-IsChain next pems
          (record { valid = tail; issued = ground (arith, issued); signed = h.signed }) in
      (
        c,
        link p v (issued-IsIssuedBy pem next c d p (chain-parse chain) (ground (arith, issued)))
            chain,
      )

  -- A list of certificates is accepted exactly when it is a chain: each of them parses and is valid at
  -- the moment, each but the last is signed by the key of the next, carries its name and began to be
  -- valid in its time, and the last, if it names itself as its issuer, is signed by its own key.
  pub validate_iff :
      (pems : List String) → (validate parse now pems ≡ true) ↔ ((c : X509 Key) × IsChain pems c)
  unfolding validate
  validate_iff [] = (λ h. absurd (ground arith), λ (c, chain). elim chain [ ])
  validate_iff (pem ∷ pems) = (
    λ h. checked-IsChain pem pems (record {
      valid = ground (arith, h);
      issued = ground (arith, h);
      signed = ground (arith, h);
    }),
    λ (c, chain).
        let checked = chain-IsChecked _ chain in
        let valid = checked.valid in
        let issued = checked.issued in
        let signed = checked.signed in ground (arith, valid, issued, signed),
  )
