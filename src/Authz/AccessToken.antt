-- ===== src/Authz/AccessToken.antt =====
-- authz.flows.ts, `createAccessToken`, with access-token.provider.ts and the signing of
-- in-memory-authz-signature-key-store.provider.ts.
pub mod Redemption
pub mod Kind
use vcknots.Common.{
  Bool, List, Option, String, [], false, if◌then◌else◌, is_some, none, or_else, some, true, ℕ, ◌+ˢ◌,
  ◌+◌, ◌/◌, ◌=ˢ◌, ◌∷◌,
}
use vcknots.Errors.{
  Result, ok, err, use_dpop_nonce, invalid_dpop_proof, invalid_grant, internal_server_error,
  unsupported_grant_type, invalid_request,
}
use vcknots.Common.Int.{pos}
use vcknots.Common.Json.{Json, num, str, obj, Fields, end, field}
use vcknots.Common.Map
use vcknots.Common.Number.{Number, finite}
use vcknots.Store.Nonce.{Nonce}
use vcknots.Store.PreAuthorizedCode.{TxCode}
use vcknots.Authz.Jose.{Jose}
use vcknots.Authz.DpopProof.{
  DpopProofOptions, proof_jti_ttl_ms, verify_proof, VerifiedDpopProof, DpopProofVerifyContext,
}
use vcknots.Authz.State.{
  Action, Server, SignatureKeyEntry, date_now, consume_nonce, save_dpop_jti, consume_code,
  save_allowed,
}
use vcknots.Flow.{pure, throw, guard, or_throw, lift, ◌>>=◌, ◌>>◌}

-- `TokenRequest`; `other_grant` is a value that fits neither case.
pub data TokenRequest : Type 0 where
  pre_authorized_code : String → Option TxCode → TokenRequest
  authorization_code other_grant : TokenRequest

pub record DpopProofContext : Type 0 where
  pub proof_jwt : String
  pub htm : String
  pub htu : String
  pub nonce_required : Bool

-- `ttlSec` is a natural number of seconds.
pub record TokenRequestOptions : Type 0 where
  pub ttl_sec : Option ℕ
  pub alg : Option String
  pub client_id : Option String
  pub dpop_proof : Option DpopProofContext

pub record TokenResponse : Type 0 where
  pub access_token : String
  pub token_type : String
  pub expires_in : ℕ

-- `{ ...(x ? { k: x } : {}) }` before other members.
abbrev pub with_member : String → Option Json → Fields → Fields
with_member k none fs = fs
with_member k (some v) fs = field k v fs

-- `x ? f x : …`: a blank text counts as missing.
abbrev pub truthy : Option String → Option String
truthy none = none
truthy (some s) = if s =ˢ "" then none else some s

abbrev pub json_text : Option String → Option Json
json_text none = none
json_text (some s) = some (str s)

abbrev pub json_cnf : Option String → Option Json
json_cnf none = none
json_cnf (some jkt) = some (obj (field "jkt" (str jkt) end))

-- `createTokenPayload`
unfoldable pub create_token_payload :
    String → String → Option ℕ → Option String → Option String → ℕ → Fields
create_token_payload authz code ttl_sec client_id jkt now = field "iss" (str authz) (
    field "sub" (str code) (
      field "exp" (num (pos (now / 1000 + or_else ttl_sec 86400))) (
        field "iat" (num (pos (now / 1000))) (
          with_member "client_id" (json_text (truthy client_id))
            (with_member "cnf" (json_cnf jkt) end)))))

module _ {M : Type 0} where
  unfoldable pub find_alg : String → List (SignatureKeyEntry M) → Option (SignatureKeyEntry M)
  find_alg alg [] = none
  find_alg alg (pair ∷ pairs) = if pair.declared_alg =ˢ alg then some pair else find_alg alg pairs

  -- The key pair of an issuer for an algorithm.
  unfoldable pub find_pair : String → String → Action M (Option (SignatureKeyEntry M))
  unfolding find_alg
  find_pair authz alg s =
      (ok (elim (Map.get authz s.keys) [ none ↦ none | some pairs ↦ find_alg alg pairs ]), s)

  -- One-time use of the DPoP proof's `jti`.
  unfoldable pub consume_dpop_jti : ℕ → VerifiedDpopProof → Action M (Unit {0})
  unfolding save_dpop_jti
  consume_dpop_jti proof_jti_ttl_ms proof = do
    is_new_jti ← save_dpop_jti proof.jwk_thumbprint proof.jti (some proof_jti_ttl_ms)
    guard is_new_jti invalid_dpop_proof "DPoP proof JWT jti has already been used."

  -- The nonce of a proof, where one is required: it is there, and it is consumed.
  unfoldable pub consume_dpop_nonce : String → Bool → VerifiedDpopProof → Action M (Unit {0})
  unfolding consume_nonce
  consume_dpop_nonce message false proof = pure tt
  consume_dpop_nonce message true proof = do
    nonce ← or_throw (truthy proof.nonce) use_dpop_nonce message
    consumed ← consume_nonce (record { nonce = nonce; nonce_expires_in = none })
    guard consumed use_dpop_nonce message

module _ {Key Material : Type 0} (jose : Jose Key Material) (proofs : DpopProofOptions)
    (authz : String) where
  -- The signature, by the private key of the issuer for the algorithm.
  unfoldable pub sign : String → Fields → Fields → Action Material (Option String)
  unfolding find_pair
  sign key_alg payload header = do
    pair ← find_pair authz key_alg
    elim pair [
      | none ↦ pure none
      | some value ↦ lift (jose.sign_with value.private_key key_alg payload header)
    ]

  -- The DPoP proof of a token request, if there is one: proof, nonce, `jti`, in this order.
  unfoldable pub verify_token_dpop :
      Option DpopProofContext → Action Material (Option VerifiedDpopProof)
  unfolding consume_dpop_nonce consume_dpop_jti
  verify_token_dpop none = pure none
  verify_token_dpop (some dpop_proof) = do
    now ← date_now
    proof ← lift (
        verify_proof jose proofs dpop_proof.proof_jwt
          (record { htm = dpop_proof.htm; htu = dpop_proof.htu; nonce = none; access_token = none })
          now)
    consume_dpop_nonce "Authorization server requires nonce in DPoP proof."
        dpop_proof.nonce_required proof
    consume_dpop_jti (proof_jti_ttl_ms proofs) proof
    pure (some proof)

  abbrev pub thumbprint_of : Option VerifiedDpopProof → Option String
  thumbprint_of none = none
  thumbprint_of (some proof) = some proof.jwk_thumbprint

  abbrev pub token_header : String → Fields
  token_header key_alg = field "alg" (str key_alg) (field "typ" (str "JWT") end)

  -- The access token, signed, and its entry in the store of allowed configurations.
  unfoldable pub issue_token :
      String
      → TokenRequestOptions
      → Option VerifiedDpopProof
      → List String
      → Action Material TokenResponse
  unfolding sign create_token_payload save_allowed
  issue_token code options proof ids = do
    now ← date_now
    let ttl_sec = or_else options.ttl_sec 86400
    let key_alg = or_else options.alg "ES256"
    let payload =
        create_token_payload authz code options.ttl_sec options.client_id (thumbprint_of proof) now
    signed ← sign key_alg payload (token_header key_alg)
    signature ← or_throw (truthy signed) internal_server_error "Cannot sign access token."
    let access_token =
        jose.encode (token_header key_alg) +ˢ "." +ˢ jose.encode payload +ˢ "." +ˢ signature
    save_allowed (jose.token_hash access_token) ids (some (finite (pos ttl_sec) 0))
    pure (record {
      access_token = access_token;
      token_type = if is_some proof then "DPoP" else "bearer";
      expires_in = ttl_sec;
    })

  unfoldable pub create_access_token :
      TokenRequest → TokenRequestOptions → Action Material TokenResponse
  unfolding verify_token_dpop issue_token consume_code
  create_access_token (pre_authorized_code code tx_code) options = do
    proof ← verify_token_dpop options.dpop_proof
    ids ← consume_code code tx_code
    issue_token code options proof ids
  create_access_token authorization_code options =
      throw unsupported_grant_type "Authorization code flow is not supported."
  create_access_token other_grant options = throw invalid_request "Unsupported grant type"
