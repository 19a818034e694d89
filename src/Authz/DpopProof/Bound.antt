-- ===== src/Authz/DpopProof/Bound.antt =====
-- What a verified DPoP proof is bound to.
use vcknots.Common.{
  Bool, Option, String, ap, arith, codes, eq_iff, equal_codes, false, none, refl, some,
  to_upper_case, true, ℕ, ◌=ˢ◌, ◌∙◌, ◌≡◌,
}
use vcknots.Errors.{Result, ok, err, failure}
use vcknots.Errors.Chain.{guard, and_then-ok, guard-ok}
use vcknots.Common.Json.{Fields, member, as_object}
use vcknots.Authz.Jose.{Jose, Attempt, got, threw}
use vcknots.Authz.DpopProof.{
  DpopProofVerifyContext, DpopProofPayload, VerifiedDpopProof, DpopProofOptions, dpop_proof_typ,
  permitted_alg, is_value, text_of, nonempty, number_of, optional_by, parse_dpop_proof_payload,
  check_ath, check_nonce, of_attempt, normalize_htu, check_proof_header, check_binding,
  proof_jwt_options, verified_payload, verify_proof,
}

of_attempt-ok :
    {A : Type 0} (t : Attempt A) (message : String) {a : A}
    → of_attempt t message ≡ ok a
    → t ≡ got a
of_attempt-ok (got a) message h = cc
of_attempt-ok (threw e) message h = cc

-- The claims of a payload, as the proof has them.
pub record HasClaims (claims : Fields) (p : DpopProofPayload) : Type 0 where
  pub jti : nonempty (member "jti" claims) ≡ some p.jti
  pub iat : number_of (member "iat" claims) ≡ some p.iat
  pub htm : nonempty (member "htm" claims) ≡ some p.htm
  pub htu : nonempty (member "htu" claims) ≡ some p.htu
  pub nonce : optional_by text_of (member "nonce" claims) ≡ some p.nonce
  pub ath : optional_by nonempty (member "ath" claims) ≡ some p.ath

parse-HasClaims :
    (claims : Fields) {p : DpopProofPayload}
    → parse_dpop_proof_payload claims ≡ ok p
    → HasClaims claims p
unfolding parse_dpop_proof_payload
parse-HasClaims claims h = record {
  jti = ground arith;
  iat = ground arith;
  htm = ground arith;
  htu = ground arith;
  nonce = ground arith;
  ath = ground arith;
}

-- The header of a proof: an asymmetric algorithm, the type of a proof, and a public key.
pub record HasPublicKey (header : Fields) (alg : String) (jwk : Fields) : Type 0 where
  pub permitted : permitted_alg (member "alg" header) ≡ some alg
  pub typed : is_value dpop_proof_typ (text_of (member "typ" header)) ≡ true
  pub key : as_object (member "jwk" header) ≡ some jwk
  pub public_only : member "d" jwk ≡ none

-- `ath` is the hash of the access token, if there is a token.
abbrev pub token_bound : (String → String) → Option String → Option String → Bool
token_bound token_hash none ath = true
token_bound token_hash (some token) none = false
token_bound token_hash (some token) (some ath) = ath =ˢ token_hash token

-- The nonce is the expected one, if one is expected.
abbrev pub nonce_bound : Option String → Option String → Bool
nonce_bound none actual = true
nonce_bound (some expected) none = false
nonce_bound (some expected) (some actual) = actual =ˢ expected

check_ath-ok :
    (token_hash : String → String) (token : Option String) (ath : Option String) {u : Unit {0}}
    → check_ath token_hash token ath ≡ ok u
    → token_bound token_hash token ath ≡ true
check_ath-ok token_hash none ath h = refl
check_ath-ok token_hash (some token) none h = absurd (ground arith)
check_ath-ok token_hash (some token) (some s) h =
    ground (arith, eq_iff s (token_hash token), eq_iff s "")

check_nonce-ok :
    (expected actual : Option String) {u : Unit {0}}
    → check_nonce expected actual ≡ ok u
    → nonce_bound expected actual ≡ true
check_nonce-ok none actual h = refl
check_nonce-ok (some e) none h = absurd (ground arith)
check_nonce-ok (some e) (some a) h = ground (arith, eq_iff a e, eq_iff e a)

module _ {Key Material : Type 0} (jose : Jose Key Material) where
  check_proof_header-HasPublicKey :
      (header : Fields) {alg : String} {jwk : Fields}
      → check_proof_header jose header ≡ ok (alg, jwk)
      → HasPublicKey header alg jwk
  unfolding check_proof_header
  check_proof_header-HasPublicKey header h = record {
    permitted = ground arith;
    typed = ground arith;
    key = ground arith;
    public_only = ground arith;
  }

  -- The request that a proof was made for.
  pub record IsBoundTo (p : DpopProofPayload) (context : DpopProofVerifyContext) : Type 0 where
    pub method : equal_codes (codes p.htm) (to_upper_case context.htm) ≡ true
    pub target : String
    pub proof_target : normalize_htu jose p.htu ≡ ok target
    pub request_target : normalize_htu jose context.htu ≡ ok target
    pub token : token_bound jose.token_hash context.access_token p.ath ≡ true
    pub nonce : nonce_bound context.nonce p.nonce ≡ true

  check_binding-IsBoundTo :
      (p : DpopProofPayload) (context : DpopProofVerifyContext) {u : Unit {0}}
      → check_binding jose p context ≡ ok u
      → IsBoundTo p context
  unfolding check_binding
  check_binding-IsBoundTo p context h =
      let (_, e0, h0) =
        and_then-ok (guard (equal_codes (codes p.htm) (to_upper_case context.htm)) _ _) _ h in
      let (htu, e1, h1) = and_then-ok (normalize_htu jose p.htu) _ h0 in
      let (target, e2, h2) = and_then-ok (normalize_htu jose context.htu) _ h1 in
      let (_, e3, h3) = and_then-ok (guard (htu =ˢ target) _ _) _ h2 in
      let (_, e4, h4) = and_then-ok (check_ath jose.token_hash context.access_token p.ath) _ h3 in
      let same = (eq_iff htu target).0 (guard-ok _ _ _ e3) in
      record {
        method = guard-ok _ _ _ e0;
        target = target;
        proof_target = e1 ∙ ap ok same;
        request_target = e2;
        token = check_ath-ok jose.token_hash context.access_token p.ath e4;
        nonce = check_nonce-ok context.nonce p.nonce h4;
      }

  module _ (options : DpopProofOptions) where
    verified_payload-ok :
        (proof_jwt alg : String) (jwk : Fields) (now : ℕ) {p : DpopProofPayload}
        → verified_payload jose options proof_jwt alg jwk now ≡ ok p
        → (key : Key) × (claims : Fields) × (jose.import_jwk jwk alg ≡ got key)
          × (jose.verify_proof_jwt proof_jwt key (proof_jwt_options jose options alg) now
              ≡ got claims)
          × HasClaims claims p
    unfolding verified_payload
    verified_payload-ok proof_jwt alg jwk now h =
        let (key, e0, h0) = and_then-ok (of_attempt (jose.import_jwk jwk alg) _) _ h in
        let (claims, e1, h1) =
          and_then-ok
            (of_attempt
              (jose.verify_proof_jwt proof_jwt key (proof_jwt_options jose options alg) now) _)
            _ h0 in
        (key, claims, of_attempt-ok _ _ e0, of_attempt-ok _ _ e1, parse-HasClaims claims h1)

    -- What stands behind a verified proof.
    pub record IsVerified (proof_jwt : String) (context : DpopProofVerifyContext) (now : ℕ)
        (v : VerifiedDpopProof) : Type 0 where
      pub header : Fields
      pub decoded : jose.protected_header proof_jwt ≡ some header
      pub alg : String
      pub jwk : Fields
      pub public_key : HasPublicKey header alg jwk
      pub key : Key
      pub imported : jose.import_jwk jwk alg ≡ got key
      pub claims : Fields
      pub signed :
          jose.verify_proof_jwt proof_jwt key (proof_jwt_options jose options alg) now ≡ got claims
      pub payload : DpopProofPayload
      pub stated : HasClaims claims payload
      pub bound : IsBoundTo payload context
      pub thumbprint : jose.jwk_thumbprint jwk ≡ some v.jwk_thumbprint
      pub same_jti : payload.jti ≡ v.jti
      pub same_iat : payload.iat ≡ v.iat
      pub same_nonce : payload.nonce ≡ v.nonce

    thumbprint-ok :
        (o : Option String) {t : String}
        → ◌≡◌ {A = Result String}
            (elim o [ none ↦ err (failure "TypeError") | some t ↦ ok t ])
            (ok t)
        → o ≡ some t
    thumbprint-ok none h = cc
    thumbprint-ok (some t) h = cc

    header-ok :
        (o : Option Fields) {t : Fields}
        → ◌≡◌ {A = Result Fields}
            (elim o [ none ↦ err (failure "TypeError") | some t ↦ ok t ])
            (ok t)
        → o ≡ some t
    header-ok none h = cc
    header-ok (some t) h = cc

    -- A proof is verified only if its header has a permitted algorithm, the type of a proof and a
    -- public key, its signature and age verify by that key, the claims that are signed are well formed,
    -- and they are bound to the method and the target of the request; their `ath` is the hash of the
    -- access token and their `nonce` the expected one, if the request has these; the thumbprint that is
    -- given back is that of the key, and `jti`, `iat` and `nonce` are those of the claims.
    pub verify_proof-IsVerified :
        (proof_jwt : String) (context : DpopProofVerifyContext) (now : ℕ) (v : VerifiedDpopProof)
        → verify_proof jose options proof_jwt context now ≡ ok v
        → IsVerified proof_jwt context now v
    unfolding verify_proof
    verify_proof-IsVerified proof_jwt context now v h =
        let (header, e0, h0) =
          and_then-ok
            (elim (jose.protected_header proof_jwt) [
              | none ↦ err (failure "TypeError")
              | some h ↦ ok h
            ])
            _ h in
        let (parts, e1, h1) = and_then-ok (check_proof_header jose header) _ h0 in
        let (payload, e2, h2) =
          and_then-ok (verified_payload jose options proof_jwt parts.0 parts.1 now) _ h1 in
        let (_, e3, h3) = and_then-ok (check_binding jose payload context) _ h2 in
        let (t, e4, h4) =
          and_then-ok
            (elim (jose.jwk_thumbprint parts.1) [
              | none ↦ err (failure "TypeError")
              | some t ↦ ok t
            ])
            _ h3 in
        let (key, claims, imported, signed, stated) =
          verified_payload-ok proof_jwt parts.0 parts.1 now e2 in
        record {
          header = header;
          decoded = header-ok _ e0;
          alg = parts.0;
          jwk = parts.1;
          public_key = check_proof_header-HasPublicKey header e1;
          key = key;
          imported = imported;
          claims = claims;
          signed = signed;
          payload = payload;
          stated = stated;
          bound = check_binding-IsBoundTo payload context e3;
          thumbprint = thumbprint-ok (jose.jwk_thumbprint parts.1) e4 ∙ ap some (cc h4);
          same_jti = cc h4;
          same_iat = cc h4;
          same_nonce = cc h4;
        }
