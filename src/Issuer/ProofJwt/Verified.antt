-- ===== src/Issuer/ProofJwt/Verified.antt =====
-- What stands behind a verified JWT proof.
use vcknots.Common.{
  Bool, Bool-cases, List, Option, String, ap, arith, eq_iff, false, inl, inr, none, not, refl, some,
  subst, sym, true, ℕ, ◌&&◌, ◌=ˢ◌, ◌||◌, ◌∙◌, ◌≡◌, ◌⊎◌,
}
use vcknots.Errors.{ok}
use vcknots.Errors.Chain.{guard, require, and_then-ok, guard-ok, require-ok}
use vcknots.Common.Json.{Json, str, Fields, member}
use vcknots.Providers.Imports.{uncaught-ok}
use vcknots.Authz.AccessToken.{truthy}
use vcknots.Authz.Jose.{got}
use vcknots.Issuer.Proof.{ProofContext, ProofJwt}
use vcknots.Issuer.ProofKey.{DidProvider, BindingMethod, caught, resolve_header_public_key}
use vcknots.Issuer.ProofKey.Named.{Names, StandsFor, resolve_header_public_key-named}
use vcknots.Issuer.ProofJwt.{
  Verification, verified, rejected, ProofJose, ProofJwtOptions, is_prohibited_proof_jwt_alg,
  text_member, is_text, is_number, is_equal_text, oid4vci_jwt_proof_typ, check_header,
  of_verification, check_iss, check_claims, is_client, check_code_iss, check_pre_auth_iss,
  verify_options, decode_header, verify_jwt,
}

-- The header: an algorithm that is neither `none` nor symmetric, and the type of a proof.
pub record HasProofHeader (header : Fields) (alg : String) : Type 0 where
  pub stated : member "alg" header ≡ some (str alg)
  pub permitted : is_prohibited_proof_jwt_alg alg ≡ false
  pub typed : member "typ" header ≡ some (str oid4vci_jwt_proof_typ)

some_inj : {A : Type 0} {a b : A} → some a ≡ some b → a ≡ b
some_inj e = cc e

text_member-str : (o : Option Json) {s : String} → text_member o ≡ some s → o ≡ some (str s)
text_member-str (some (str s)) h = ap (λ o. elim o [ none ↦ none | some t ↦ some (str t) ]) h
text_member-str none h = absurd (cc h)
text_member-str (some other) h = absurd (cc h)

is_equal_text-str : (o : Option Json) (s : String) → is_equal_text o s ≡ true → o ≡ some (str s)
is_equal_text-str (some (str t)) s h = ap (λ u. some (str u)) ((eq_iff t s).0 h)
is_equal_text-str none s h = absurd (cc h)
is_equal_text-str (some other) s h = absurd (cc h)

check_header-ok :
    (header : Fields) {alg : String} → check_header header ≡ ok alg → HasProofHeader header alg
unfolding check_header
check_header-ok header {alg} h =
    let (a, e0, h0) = and_then-ok (require (text_member (member "alg" header)) _ _) _ h in
    let (_, e1, h1) = and_then-ok (guard (not (is_prohibited_proof_jwt_alg a)) _ _) _ h0 in
    let (_, e2, h2) =
      and_then-ok (guard (is_equal_text (member "typ" header) oid4vci_jwt_proof_typ) _ _) _ h1 in
    let same : a ≡ alg = cc h2 in
    let allowed = guard-ok (not (is_prohibited_proof_jwt_alg a)) _ _ e1 in
    record {
      stated = text_member-str _ (require-ok _ _ _ e0) ∙ ap (λ s. some (str s)) same;
      permitted = subst (λ s. is_prohibited_proof_jwt_alg s ≡ false) same (ground (arith, allowed));
      typed = is_equal_text-str _ _ (guard-ok _ _ _ e2);
    }

-- What the `iss` claim may be: with a pre-authorized code it is left out for an anonymous client and
-- names the client otherwise; without one it names the client or the issuer. It may always be left out.
abbrev pub IssAllowed : Bool → ProofContext → Json → Type 0
IssAllowed true context iss = (c : String) × (truthy context.client_id ≡ some c) × (iss ≡ str c)
IssAllowed false context iss =
    (iss ≡ str context.credential_issuer)
    ⊎ ((c : String) × (context.client_id ≡ some c) × (iss ≡ str c))

abbrev pub IssRule : ProofContext → Option Json → Type 0
IssRule context none = Unit {0}
IssRule context (some iss) = IssAllowed context.use_pre_auth context iss

check_pre_auth_iss-ok :
    (client_id : Option String) (iss : Json) {u : Unit {0}}
    → check_pre_auth_iss client_id iss ≡ ok u
    → (c : String) × (client_id ≡ some c) × (iss ≡ str c)
check_pre_auth_iss-ok none iss h = absurd (cc h)
check_pre_auth_iss-ok (some c) iss h =
    (c, refl, some_inj (is_equal_text-str (some iss) c (guard-ok _ _ _ h)))

client_or_issuer :
    (client_id : Option String) (issuer iss : String)
    → is_client client_id iss || iss =ˢ issuer ≡ true
    → (iss ≡ issuer) ⊎ ((c : String) × (client_id ≡ some c) × (iss ≡ c))
client_or_issuer none issuer iss h = inl ((eq_iff _ _).0 h)
client_or_issuer (some c) issuer iss h = elim (Bool-cases (iss =ˢ c)) [
  | inl e ↦ inr (c, refl, (eq_iff _ _).0 e)
  | inr e ↦ inl (ground (arith, e, h, eq_iff iss issuer))
]

check_code_iss-ok :
    (context : ProofContext) (iss : Json) {u : Unit {0}}
    → check_code_iss context iss ≡ ok u
    → (iss ≡ str context.credential_issuer)
      ⊎ ((c : String) × (context.client_id ≡ some c) × (iss ≡ str c))
check_code_iss-ok context iss h =
    let (text, e0, h0) = and_then-ok (require (text_member (some iss)) _ _) _ h in
    let stated : iss ≡ str text = some_inj (text_member-str _ (require-ok _ _ _ e0)) in
    elim (client_or_issuer context.client_id context.credential_issuer text (guard-ok _ _ _ h0)) [
      | inl e ↦ inl (stated ∙ ap str e)
      | inr (c, known, e) ↦ inr (c, known, stated ∙ ap str e)
    ]

check_iss-IssRule :
    (context : ProofContext) (iss : Option Json) {u : Unit {0}}
    → check_iss context iss ≡ ok u
    → IssRule context iss
unfolding check_iss
check_iss-IssRule context none h = tt
check_iss-IssRule context (some iss) h = elim (Bool-cases context.use_pre_auth) [
  | inl e ↦ subst (λ b. IssAllowed b context iss) (sym e) (check_pre_auth_iss-ok _ iss (rw e at h))
  | inr e ↦
      subst (λ b. IssAllowed b context iss) (sym e) (check_code_iss-ok context iss (rw e at h))
]

-- The claims: the audience is the credential issuer, the time of issue is a number, and the rule on
-- `iss` is kept.
pub record HasProofClaims (claims : Fields) (context : ProofContext) : Type 0 where
  pub audience : member "aud" claims ≡ some (str context.credential_issuer)
  pub issued_at : is_number (member "iat" claims) ≡ true
  pub iss : IssRule context (member "iss" claims)

check_claims-ok :
    (claims : Fields) (verification_context : Option ProofContext) {u : Unit {0}}
    → check_claims claims verification_context ≡ ok u
    → (context : ProofContext) × (verification_context ≡ some context)
      × HasProofClaims claims context
unfolding check_claims
check_claims-ok claims verification_context h =
    let (_, e0, h0) =
      and_then-ok (guard (is_text (member "aud" claims) && is_number (member "iat" claims)) _ _) _
        h in
    let (context, e1, h1) = and_then-ok (require verification_context _ _) _ h0 in
    let (_, e2, h2) = and_then-ok (check_iss context (member "iss" claims)) _ h1 in
    let typed =
      guard-ok (is_text (member "aud" claims) && is_number (member "iat" claims)) _ _ e0 in
    (
      context,
      require-ok _ _ _ e1,
      record {
        audience = is_equal_text-str _ _ (guard-ok _ _ _ h2);
        issued_at = ground (arith, typed);
        iss = check_iss-IssRule context _ e2;
      },
    )

module _ {Key X509Key : Type 0} (jose : ProofJose Key X509Key) (did_providers : List DidProvider)
    (options : ProofJwtOptions) where
  -- What stands behind a verified proof.
  pub record IsVerifiedProof (proof : String) (context : ProofContext) (now : ℕ) (p : ProofJwt)
      : Type 0 where
    pub decoded : jose.decode_protected_header proof ≡ got p.header
    pub alg : String
    pub header : HasProofHeader p.header alg
    pub method : BindingMethod
    pub named : Names p.header method
    pub key : Key
    pub stands_for : StandsFor jose.imports did_providers alg now key method
    pub claims : Fields
    pub signed :
        jose.jwt_verify proof key (verify_options jose did_providers options alg) now
        ≡ verified claims
    pub bound : HasProofClaims claims context
    pub kid : p.kid ≡ text_member (member "kid" p.header)
    pub nonce : p.nonce ≡ text_member (member "nonce" claims)

  of_verification-ok :
      (v : Verification) {claims : Fields} → of_verification v ≡ ok claims → v ≡ verified claims
  of_verification-ok (verified claims) h = cc h
  of_verification-ok (rejected code message) h = absurd (cc h)

  decode_header-ok :
      (proof : String) {header : Fields}
      → decode_header jose did_providers options proof ≡ ok header
      → jose.decode_protected_header proof ≡ got header
  unfolding decode_header
  decode_header-ok proof h =
      let (decoded, _, h0) = and_then-ok (caught (jose.decode_jwt proof) _) _ h in
      let (_, _, h1) = and_then-ok (guard (not (is_text (member "payload" decoded))) _ _) _ h0 in
      uncaught-ok _ h1

  -- A JWT proof is verified only if there is a context to check it against, its header has the type of a
  -- proof and an algorithm that is neither `none` nor symmetric, and names a key in exactly one way, its
  -- signature and age verify by that key, its audience is the credential issuer, and its `iss` is one
  -- that the context allows; the header, the key's identifier and the nonce that are given back are
  -- those of the proof.
  pub verify_jwt-IsVerifiedProof :
      (proof : String) (verification_context : Option ProofContext) (now : ℕ) (p : ProofJwt)
      → verify_jwt jose did_providers options proof verification_context now ≡ ok p
      → (context : ProofContext) × (verification_context ≡ some context)
        × IsVerifiedProof proof context now p
  unfolding verify_jwt
  verify_jwt-IsVerifiedProof proof verification_context now p h =
      let (header, e0, h0) = and_then-ok (decode_header jose did_providers options proof) _ h in
      let (alg, e1, h1) = and_then-ok (check_header header) _ h0 in
      let (key, e2, h2) =
        and_then-ok (resolve_header_public_key jose.imports did_providers header alg now) _ h1 in
      let (claims, e3, h3) =
        and_then-ok
          (of_verification
            (jose.jwt_verify proof key (verify_options jose did_providers options alg) now))
          _ h2 in
      let (_, e4, h4) = and_then-ok (check_claims claims verification_context) _ h3 in
      let (method, named, stands_for) =
        resolve_header_public_key-named jose.imports did_providers header alg now e2 in
      let (context, given, bound) = check_claims-ok claims verification_context e4 in
      let same : header ≡ p.header = cc h4 in
      (
        context,
        given,
        record {
          decoded = decode_header-ok proof e0 ∙ ap got same;
          alg = alg;
          header = subst (λ h. HasProofHeader h alg) same (check_header-ok header e1);
          method = method;
          named = subst (λ h. Names h method) same named;
          key = key;
          stands_for = stands_for;
          claims = claims;
          signed = of_verification-ok _ e3;
          bound = bound;
          kid = cc h4;
          nonce = cc h4;
        },
      )
