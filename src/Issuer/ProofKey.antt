-- ===== src/Issuer/ProofKey.antt =====
-- credential-proof-jwt.provider.ts: the key that a proof is signed with, from its header. The resolution
-- of DIDs, the certificates of the runtime and the import of keys are parameters; messages with an inner
-- message are shortened.
pub mod Named
use vcknots.Common.{
  Bool, List, Option, String, [], if◌then◌else◌, is_some, none, not, or_else, some, split, trim, ℕ,
  ◌+ˢ◌, ◌=ˢ◌, ◌∷◌,
}
use vcknots.Errors.{Result, ok, err, failure, raise, invalid_proof, provider_not_found}
use vcknots.Errors.Chain.{◌>>=◌, ◌>>◌, guard, require}
use vcknots.Common.Json.{Json, str, arr, Items, nil, item, Fields, member, as_object}
use vcknots.Providers.{find_provider}
use vcknots.Providers.Pem.{der_base64_to_pem}
use vcknots.Providers.Certificate
use vcknots.Authz.AccessToken.{truthy}
use vcknots.Providers.Imports.{KeyImports, uncaught}
use vcknots.Authz.Jose.{Attempt, got, threw}

pub record VerificationMethod : Type 0 where
  pub id : String
  pub public_key_jwk : Option Fields

pub record DidDocument : Type 0 where
  pub verification_method : Option (List VerificationMethod)

-- `resolveDid`; an exception, which the code catches, is `none` like `null`.
pub record DidProvider : Type 0 where
  pub can_handle : String → Bool
  pub resolve_did : String → Option DidDocument

-- The one way in which a header names its key, with what it names.
pub data BindingMethod : Type 0 where
  by_kid : String → BindingMethod
  by_jwk : Json → BindingMethod
  by_x5c : Items → BindingMethod

-- `typeof header.kid === 'string' && header.kid.trim().length > 0`
unfoldable pub header_kid : Fields → Option String
unfolding trim
header_kid header = elim (member "kid" header) [
  | some (str kid) ↦ if trim kid =ˢ "" then none else some kid
  | _ ↦ none
]

-- `Array.isArray(header.x5c) && header.x5c.length > 0`
unfoldable pub header_x5c : Fields → Option Items
header_x5c header = elim (member "x5c" header) [
  | some (arr (item v vs)) ↦ some (item v vs)
  | _ ↦ none
]

abbrev pub missing_key_reference : String
missing_key_reference = "Proof JWT header must contain one of kid, jwk, or x5c (OID4VCI 1.0 §F.1)."

abbrev pub mutually_exclusive : String
mutually_exclusive =
    "Proof JWT header: kid, jwk, and x5c are mutually exclusive (OID4VCI 1.0 §F.1)."

abbrev pub one_method : Option String → Option Json → Option Items → Result BindingMethod
one_method none none none = raise invalid_proof missing_key_reference
one_method (some kid) none none = ok (by_kid kid)
one_method none (some jwk) none = ok (by_jwk jwk)
one_method none none (some x5c) = ok (by_x5c x5c)
one_method _ _ _ = raise invalid_proof mutually_exclusive

unfoldable pub resolve_proof_binding_method : Fields → Result BindingMethod
unfolding header_kid header_x5c
resolve_proof_binding_method header =
    one_method (header_kid header) (member "jwk" header) (header_x5c header)

-- `kid.split(':')`: the method, if there are three parts and the first is `did`.
abbrev pub did_method : List String → Option String
did_method (scheme ∷ method ∷ _ ∷ _) = if scheme =ˢ "did" then some method else none
did_method _ = none

abbrev pub first_part : List String → String
first_part [] = ""
first_part (s ∷ _) = s

unfoldable pub find_method : String → List VerificationMethod → Option VerificationMethod
find_method kid [] = none
find_method kid (m ∷ ms) = if m.id =ˢ kid then some m else find_method kid ms

unfoldable pub find_with_key : List VerificationMethod → Option VerificationMethod
find_with_key [] = none
find_with_key (m ∷ ms) = if is_some m.public_key_jwk then some m else find_with_key ms

-- The document of the key's identifier or, if there is none, of what stands before its `#`.
unfoldable pub did_document : DidProvider → String → Option DidDocument
unfolding split
did_document provider kid = elim (provider.resolve_did kid) [
  | some document ↦ some document
  | none ↦
      let did = first_part (split b'#' kid) in if did =ˢ kid then none else provider.resolve_did did
]

abbrev pub methods_of : Option DidDocument → List VerificationMethod
methods_of none = []
methods_of (some document) = or_else document.verification_method []

-- The key of a verification method of a document: of the one with the identifier, or else of the first
-- one that has a key.
unfoldable pub method_key : String → List VerificationMethod → Option Fields
unfolding find_method find_with_key
method_key kid methods = elim (find_method kid methods) [
  | some m ↦ m.public_key_jwk
  | none ↦ elim (find_with_key methods) [ none ↦ none | some m ↦ m.public_key_jwk ]
]

-- `selectProvider`, where the list has been checked not to be empty.
abbrev pub select_did_provider : List DidProvider → String → Result DidProvider
select_did_provider [] method = raise invalid_proof "No kid or unsupported did type detected."
select_did_provider providers method =
    require (find_provider (λ p. p.can_handle method) providers) provider_not_found
      ("No provider found which can handle: " +ˢ method)

unfoldable pub resolve_did_public_key_jwk : List DidProvider → String → Result Fields
unfolding split find_provider did_document method_key
resolve_did_public_key_jwk providers kid = do
  method ← require (did_method (split b':' kid)) invalid_proof ("Invalid DID format: " +ˢ kid)
  provider ← select_did_provider providers method
  require (method_key kid (methods_of (did_document provider kid))) invalid_proof
      "Unsupported did type detected."

-- `x5c.map(derBase64ToPem)`; what is no text has no `replace`.
unfoldable pub certificate_chain : Items → Result (List String)
unfolding der_base64_to_pem
certificate_chain nil = ok []
certificate_chain (item v vs) = elim v [
  | str der ↦ certificate_chain vs >>= λ pems. ok (der_base64_to_pem der ∷ pems)
  | _ ↦ err (failure "TypeError")
]

-- An exception that is caught.
abbrev pub caught : {A : Type 0} → Attempt A → String → Result A
caught (got a) message = ok a
caught (threw cause) message = raise invalid_proof message

module _ {Key X509Key : Type 0} (imports : KeyImports Key X509Key)
    (did_providers : List DidProvider) where
  abbrev pub import_public_jwk : Json → String → Result Key
  import_public_jwk value alg = do
    jwk ←
        require (as_object (some value)) invalid_proof "Proof JWT header jwk must be a JSON object."
    guard (not (is_some (member "d" jwk))) invalid_proof
        "Proof JWT header jwk must contain a public key only."
    caught (imports.import_jwk jwk alg) "Failed to import proof JWT jwk."

  abbrev pub first_public_key : List String → Result String
  first_public_key pems =
      require
        (truthy (some (Certificate.get_public_key imports.parse_certificate (first_part pems))))
        invalid_proof "Unable to extract public key from x5c certificate chain."

  unfoldable pub import_certified : Items → String → ℕ → Result Key
  unfolding certificate_chain Certificate.validate Certificate.get_public_key
  import_certified x5c alg now = do
    pems ← certificate_chain x5c
    guard (Certificate.validate imports.parse_certificate now pems) invalid_proof
        "x5c certificate chain is invalid."
    pem ← first_public_key pems
    caught (imports.import_spki pem alg) "Failed to import proof JWT x5c public key."

  -- The key that a method names.
  unfoldable pub method_public_key : BindingMethod → String → ℕ → Result Key
  unfolding resolve_did_public_key_jwk import_certified
  method_public_key (by_kid kid) alg now =
      resolve_did_public_key_jwk did_providers kid >>= λ jwk. uncaught (imports.import_jwk jwk alg)
  method_public_key (by_jwk jwk) alg now = import_public_jwk jwk alg
  method_public_key (by_x5c x5c) alg now = import_certified x5c alg now

  unfoldable pub resolve_header_public_key : Fields → String → ℕ → Result Key
  unfolding resolve_proof_binding_method method_public_key
  resolve_header_public_key header alg now =
      resolve_proof_binding_method header >>= λ method. method_public_key method alg now
