-- ===== src/Issuer/ProofKey/Named.antt =====
-- Which key the header of a JWT proof names.
use vcknots.Common.{
  List, Option, String, [], ap, arith, is_some, none, not, or_else, refl, some, subst, sym, ℕ, ◌∙◌,
  ◌∷◌, ◌≡◌,
}
use vcknots.Errors.{ok}
use vcknots.Errors.Chain.{guard, and_then-ok, guard-ok, require-ok}
use vcknots.Common.Json.{Json, obj, Items, Fields, member}
use vcknots.Providers.Certificate
use vcknots.Providers.Certificate.{X509}
use vcknots.Providers.Certificate.Chain.{IsChain, chain-parse, validate_iff}
use vcknots.Providers.Imports.{KeyImports, uncaught-ok}
use vcknots.Authz.AccessToken.{truthy}
use vcknots.Authz.Jose.{Attempt, got, threw}
use vcknots.Issuer.ProofKey.{
  DidProvider, BindingMethod, by_kid, by_jwk, by_x5c, header_kid, header_x5c, one_method,
  resolve_proof_binding_method, resolve_did_public_key_jwk, certificate_chain, caught,
  first_public_key, import_certified, method_public_key, resolve_header_public_key,
}

-- The one way in which a header names its key.
pub data Names (header : Fields) : BindingMethod → Type 0 where
  names_kid :
      {kid : String}
      → header_kid header ≡ some kid
      → member "jwk" header ≡ none
      → header_x5c header ≡ none
      → Names header (by_kid kid)
  names_jwk :
      {jwk : Json}
      → header_kid header ≡ none
      → member "jwk" header ≡ some jwk
      → header_x5c header ≡ none
      → Names header (by_jwk jwk)
  names_x5c :
      {x5c : Items}
      → header_kid header ≡ none
      → member "jwk" header ≡ none
      → header_x5c header ≡ some x5c
      → Names header (by_x5c x5c)

one_method-Names :
    (header : Fields) (kid : Option String) (jwk : Option Json) (x5c : Option Items)
    {method : BindingMethod}
    → header_kid header ≡ kid
    → member "jwk" header ≡ jwk
    → header_x5c header ≡ x5c
    → one_method kid jwk x5c ≡ ok method
    → Names header method
one_method-Names header (some kid) none none k j x h = subst (Names header) (cc h) (names_kid k j x)
one_method-Names header none (some jwk) none k j x h = subst (Names header) (cc h) (names_jwk k j x)
one_method-Names header none none (some x5c) k j x h = subst (Names header) (cc h) (names_x5c k j x)
one_method-Names header none none none k j x h = absurd (cc h)
one_method-Names header (some _) (some _) none k j x h = absurd (cc h)
one_method-Names header (some _) none (some _) k j x h = absurd (cc h)
one_method-Names header none (some _) (some _) k j x h = absurd (cc h)
one_method-Names header (some _) (some _) (some _) k j x h = absurd (cc h)

resolve_proof_binding_method-Names :
    (header : Fields) {method : BindingMethod}
    → resolve_proof_binding_method header ≡ ok method
    → Names header method
unfolding resolve_proof_binding_method
resolve_proof_binding_method-Names header h = one_method-Names header _ _ _ refl refl refl h

pub caught-ok :
    {A : Type 0} (t : Attempt A) (message : String) {a : A} → caught t message ≡ ok a → t ≡ got a
caught-ok (got a) message h = cc
caught-ok (threw e) message h = cc

truthy_default :
    (o : Option String) {t : String} → truthy (some (or_else o "")) ≡ some t → o ≡ some t
truthy_default none h = absurd (ground (arith, h))
truthy_default (some s) h = ground (arith, h)

module _ {Key X509Key : Type 0} (imports : KeyImports Key X509Key)
    (did_providers : List DidProvider) where
  -- The key that a way of naming it stands for: that of a DID's document, the public JWK of the header,
  -- or that of the first certificate of a chain.
  pub data StandsFor (alg : String) (now : ℕ) (key : Key) : BindingMethod → Type 0 where
    of_did :
        {kid : String} {jwk : Fields}
        → resolve_did_public_key_jwk did_providers kid ≡ ok jwk
        → imports.import_jwk jwk alg ≡ got key
        → StandsFor alg now key (by_kid kid)
    of_jwk :
        {jwk : Fields}
        → member "d" jwk ≡ none
        → imports.import_jwk jwk alg ≡ got key
        → StandsFor alg now key (by_jwk (obj jwk))
    of_certificate :
        {x5c : Items} {pems : List String} {certificate : X509 X509Key} {pem : String}
        → certificate_chain x5c ≡ ok pems
        → IsChain imports.parse_certificate now pems certificate
        → certificate.spki ≡ some pem
        → imports.import_spki pem alg ≡ got key
        → StandsFor alg now key (by_x5c x5c)

  public_key_of :
      (pem : String) (c : X509 X509Key)
      → imports.parse_certificate pem ≡ some c
      → Certificate.get_public_key imports.parse_certificate pem ≡ or_else c.spki ""
  unfolding Certificate.get_public_key
  public_key_of pem c parsed = rw (parsed, Certificate.get_public_key) refl

  first_public_key-spki :
      (now : ℕ) (pems : List String) (c : X509 X509Key) {pem : String}
      → IsChain imports.parse_certificate now pems c
      → first_public_key imports did_providers pems ≡ ok pem
      → c.spki ≡ some pem
  first_public_key-spki now [] c chain h = elim chain [ ]
  first_public_key-spki now (p ∷ pems) c chain h =
      let found =
        require-ok (truthy (some (Certificate.get_public_key imports.parse_certificate p))) _ _ h in
      truthy_default c.spki
        (sym (ap (λ s. truthy (some s)) (public_key_of p c (chain-parse _ now chain))) ∙ found)

  method_public_key-StandsFor :
      (method : BindingMethod) (alg : String) (now : ℕ) {key : Key}
      → method_public_key imports did_providers method alg now ≡ ok key
      → StandsFor alg now key method
  unfolding method_public_key import_certified
  method_public_key-StandsFor (by_kid kid) alg now h =
      let (jwk, found, h1) = and_then-ok (resolve_did_public_key_jwk did_providers kid) _ h in
      of_did found (uncaught-ok _ h1)
  method_public_key-StandsFor (by_jwk (obj jwk)) alg now h =
      let (_, e, h1) = and_then-ok (guard (not (is_some (member "d" jwk))) _ _) _ h in
      of_jwk (ground (arith, guard-ok (not (is_some (member "d" jwk))) _ _ e)) (caught-ok _ _ h1)
  method_public_key-StandsFor (by_jwk other) alg now h = absurd (cc h)
  method_public_key-StandsFor (by_x5c x5c) alg now h =
      let (pems, found, h1) = and_then-ok (certificate_chain x5c) _ h in
      let (_, e, h2) =
        and_then-ok (guard (Certificate.validate imports.parse_certificate now pems) _ _) _ h1 in
      let (pem, first, h3) = and_then-ok (first_public_key imports did_providers pems) _ h2 in
      let (c, chain) = (validate_iff imports.parse_certificate now pems).0 (guard-ok _ _ _ e) in
      of_certificate found chain (first_public_key-spki now pems c chain first) (caught-ok _ _ h3)

  -- Which key a header is resolved to: the header names it in exactly one way, and it is the key that
  -- this way stands for.
  pub resolve_header_public_key-named :
      (header : Fields) (alg : String) (now : ℕ) {key : Key}
      → resolve_header_public_key imports did_providers header alg now ≡ ok key
      → (method : BindingMethod) × Names header method × StandsFor alg now key method
  unfolding resolve_header_public_key
  resolve_header_public_key-named header alg now h =
      let (method, e, h1) = and_then-ok (resolve_proof_binding_method header) _ h in
      (
        method,
        resolve_proof_binding_method-Names header e,
        method_public_key-StandsFor method alg now h1,
      )
