-- ===== src/Providers/Certificate.antt =====
-- providers/certificate.provider.ts: the check of a chain of certificates. `X509Certificate` of the
-- runtime is a parameter; a constructor or a method that throws gives `none`. The readings of the clock
-- in one call are taken as one moment.
pub mod Chain
use vcknots.Common.{
  Bool, List, Option, String, [], false, leb, none, not, or_else, some, true, ℕ, ◌&&◌, ◌=ˢ◌, ◌||◌,
  ◌∷◌,
}

-- What the code reads of an `X509Certificate`, with its dates in milliseconds.
pub record X509 (Key : Type 0) : Type 0 where
  pub subject : String
  pub issuer : String
  pub valid_from : ℕ
  pub valid_to : ℕ
  pub public_key : Key
  -- `verify`, by the key of the issuer
  pub verify : Key → Option Bool
  -- `publicKey.export({ type: 'spki', format: 'pem' })`
  pub spki : Option String

-- `from <= t && t <= to`
abbrev pub within : ℕ → ℕ → ℕ → Bool
within from to t = leb from t && leb t to

module _ {Key : Type 0} (parse : String → Option (X509 Key)) where
  -- The first loop: is every certificate valid at the moment? `none` is an exception.
  unfoldable pub all_valid : ℕ → List String → Option Bool
  all_valid now [] = some true
  all_valid now (pem ∷ pems) =
      let rest = all_valid now pems in
      elim (parse pem) [
        | none ↦ none
        | some c ↦ elim rest [
          | none ↦ none
          | some valid ↦ some (within c.valid_from c.valid_to now && valid)
        ]
      ]

  -- One turn of the second loop, inside its own `catch`.
  unfoldable pub is_issued_by : String → String → Bool
  is_issued_by subject_pem issuer_pem = elim (parse subject_pem) [
    | none ↦ false
    | some subject ↦ elim (parse issuer_pem) [
      | none ↦ false
      | some issuer ↦
          subject.issuer =ˢ issuer.subject
          && or_else (subject.verify issuer.public_key) false
          && within issuer.valid_from issuer.valid_to subject.valid_from
    ]
  ]

  unfoldable pub all_issued : List String → Bool
  unfolding is_issued_by
  all_issued [] = true
  all_issued (_ ∷ []) = true
  all_issued (pem ∷ issuer ∷ pems) = is_issued_by pem issuer && all_issued (issuer ∷ pems)

  -- The last certificate: one that names itself as its issuer is signed by its own key. `none` is an
  -- exception.
  unfoldable pub check_root : List String → Option Bool
  check_root [] = some true
  check_root (pem ∷ []) = elim (parse pem) [
    | none ↦ none
    | some root ↦
        some (not (root.issuer =ˢ root.subject) || or_else (root.verify root.public_key) false)
  ]
  check_root (_ ∷ pem ∷ pems) = check_root (pem ∷ pems)

  -- Every exception, the one on an empty chain included, is caught.
  unfoldable pub validate : ℕ → List String → Bool
  unfolding all_valid all_issued check_root
  validate now [] = false
  validate now (pem ∷ pems) = elim (all_valid now (pem ∷ pems)) [
    | none ↦ false
    | some valid ↦ elim (check_root (pem ∷ pems)) [
      | none ↦ false
      | some signed ↦ valid && all_issued (pem ∷ pems) && signed
    ]
  ]

  unfoldable pub get_public_key : String → String
  get_public_key pem = elim (parse pem) [ none ↦ "" | some c ↦ or_else c.spki "" ]
