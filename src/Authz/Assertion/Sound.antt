-- ===== src/Authz/Assertion/Sound.antt =====
-- What an assertion has, that is verified.
use vcknots.Common.{
  Bool, Option, String, arith, false, inl, inr, none, refl, some, true, ℕ, ◌∙◌, ◌≡◌, ◌⊎◌,
}
use vcknots.Common.Int.{ℤ}
use vcknots.Common.Json.{Fields, member}
use vcknots.Common.Map
use vcknots.Authz.Types.{AuthzOAuthClient, AuthorizationServerMetadata}
use vcknots.Authz.Jose.{Jose, Attempt, got, threw}
use vcknots.Authz.Request.{
  RequestData, CompactJwt, get_string_value, parse_compact_jwt, is_text,
  has_private_key_jwt_assertion,
}
use vcknots.Authz.Assertion.{
  and_then, guard, require, Check, pass, fail, is_timely, number_value, check_claims, is_asymmetric,
  member_of, signing_algs, check_alg, check_key, check_signature, select_client_assertion_jwk,
  verify_options, verify_private_key_jwt_client_authentication,
}

-- The claims of a verified assertion.
pub record HasClaims (client : AuthzOAuthClient) (now : ℕ) (payload : Fields) (jti : String)
    (exp : ℤ) : Type 0 where
  pub iss_matches : is_text client.client_id (get_string_value (member "iss" payload)) ≡ true
  pub sub_matches : is_text client.client_id (get_string_value (member "sub" payload)) ≡ true
  pub exp_present : number_value (member "exp" payload) ≡ some exp
  pub not_before : is_timely now (number_value (member "nbf" payload)) ≡ true
  pub jti_present : get_string_value (member "jti" payload) ≡ some jti

check_claims-HasClaims :
    (client : AuthzOAuthClient) (now : ℕ) (payload : Fields) {jti : String} {exp : ℤ}
    → check_claims client now payload ≡ pass (jti, exp)
    → HasClaims client now payload jti exp
unfolding check_claims
check_claims-HasClaims client now payload h = record {
  iss_matches = ground arith;
  sub_matches = ground arith;
  exp_present = ground arith;
  not_before = ground arith;
  jti_present = ground arith;
}

check_alg-pass :
    (metadata : Option AuthorizationServerMetadata) (client : AuthzOAuthClient) (header : Fields)
    {alg : String}
    → check_alg metadata client header ≡ pass alg
    → (is_asymmetric alg ≡ true) × (member_of (signing_algs metadata) alg ≡ true)
unfolding check_alg
check_alg-pass metadata client header h = (ground arith, ground arith)

check_key-pass :
    (client : AuthzOAuthClient) (header : Fields) (alg : String) {jwk : Fields}
    → check_key client header alg ≡ pass jwk
    → select_client_assertion_jwk client header ≡ some jwk
unfolding check_key
check_key-pass client header alg h = ground arith

bind-pass :
    {A B : Type 0} (m : Check A) (f : A → Check B) {b : B}
    → and_then m f ≡ pass b
    → (a : A) × (m ≡ pass a) × (f a ≡ pass b)
bind-pass (pass a) f h = (a, refl, h)
bind-pass (fail e) f h = cc

Attempt-cases :
    {A : Type 0} (a : Attempt A) → ((x : A) × (a ≡ got x)) ⊎ ((e : String) × (a ≡ threw e))
Attempt-cases (got x) = inl (x, refl)
Attempt-cases (threw e) = inr (e, refl)

guard-pass : (b : Bool) (e : String) {u : Unit {0}} → guard b e ≡ pass u → b ≡ true
guard-pass true e h = refl
guard-pass false e h = cc

require-pass : {A : Type 0} (o : Option A) (e : String) {a : A} → require o e ≡ pass a → o ≡ some a
require-pass (some a) e h = cc
require-pass none e h = cc

module _ {Key Material : Type 0} (jose : Jose Key Material) (authz : String) where
  check_signature-pass :
      (metadata : Option AuthorizationServerMetadata) (client : AuthzOAuthClient)
      (assertion : String) (jwk : Fields) (alg : String) (now : ℕ) {u : Unit {0}}
      → check_signature jose authz metadata client assertion jwk alg now ≡ pass u
      → (key : Key) × (jose.import_jwk jwk alg ≡ got key)
        × (jose.jwt_verify assertion key (verify_options jose authz metadata client) now ≡ got tt)
  unfolding check_signature
  check_signature-pass metadata client assertion jwk alg now h =
      elim (Attempt-cases (jose.import_jwk jwk alg)) [
        | inr (e, q) ↦ ground arith
        | inl (key, q) ↦
            elim (Attempt-cases
              (jose.jwt_verify assertion key (verify_options jose authz metadata client) now)) [
                | inr (e, r) ↦ ground arith
                | inl (_, r) ↦ (key, q, r)
              ]
      ]

  -- What holds of an assertion `a` with the header and the claims `jwt`, signed for `client`.
  pub record IsSigned (metadata : Option AuthorizationServerMetadata) (client : AuthzOAuthClient)
      (a : String) (header : Fields) (now : ℕ) : Type 0 where
    pub alg : String
    pub jwk : Fields
    pub key : Key
    pub asymmetric : is_asymmetric alg ≡ true
    pub supported : member_of (signing_algs metadata) alg ≡ true
    pub selected : select_client_assertion_jwk client header ≡ some jwk
    pub imported : jose.import_jwk jwk alg ≡ got key
    pub verified : jose.jwt_verify a key (verify_options jose authz metadata client) now ≡ got tt

  -- A token request is authenticated only by an assertion in it that is a compact JWT, whose
  -- `iss` and `sub` are the registered client, whose `nbf` is not beyond the tolerance, whose
  -- `exp` and `jti` are the ones given back, and whose signature verifies by the registered key
  -- that is selected and by an asymmetric algorithm that the metadata lists.
  pub verify_private_key_jwt_client_authentication_lem :
      (metadata : Option AuthorizationServerMetadata) (d : RequestData) (client : AuthzOAuthClient)
      (now now2 : ℕ) (jti : String) (exp : ℤ)
      → verify_private_key_jwt_client_authentication jose authz metadata d client now now2
        ≡ pass (jti, exp)
      → (a : String) × (jwt : CompactJwt) × (get_string_value (Map.get "client_assertion" d)
          ≡ some a)
        × (parse_compact_jwt jose.decode a ≡ some jwt)
        × HasClaims client now jwt.payload jti exp
        × IsSigned metadata client a jwt.header now2
  unfolding verify_private_key_jwt_client_authentication
  verify_private_key_jwt_client_authentication_lem metadata d client now now2 jti exp h =
      let (_, e0, h0) = bind-pass (guard (has_private_key_jwt_assertion d) _) _ h in
      let (a, e1, h1) =
        bind-pass (require (get_string_value (Map.get "client_assertion" d)) _) _ h0 in
      let (jwt, e2, h2) = bind-pass (require (parse_compact_jwt jose.decode a) _) _ h1 in
      let (claims, e3, h3) = bind-pass (check_claims client now jwt.payload) _ h2 in
      let (alg, e4, h4) = bind-pass (check_alg metadata client jwt.header) _ h3 in
      let (jwk, e5, h5) = bind-pass (check_key client jwt.header alg) _ h4 in
      let (_, e6, h6) =
        bind-pass (check_signature jose authz metadata client a jwk alg now2) _ h5 in
      let (key, imported, verified) = check_signature-pass metadata client a jwk alg now2 e6 in
      let (asymmetric, supported) = check_alg-pass metadata client jwt.header e4 in
      (
        a,
        jwt,
        require-pass _ _ e1,
        require-pass _ _ e2,
        check_claims-HasClaims client now jwt.payload (e3 ∙ h6),
        record {
          alg = alg;
          jwk = jwk;
          key = key;
          asymmetric = asymmetric;
          supported = supported;
          selected = check_key-pass client jwt.header alg e5;
          imported = imported;
          verified = verified;
        },
      )
