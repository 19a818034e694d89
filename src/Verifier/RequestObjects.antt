-- ===== src/Verifier/RequestObjects.antt =====
-- verifier.flows.ts, `findRequestObject`, with `sign` of
-- in-memory-verifier-signature-key-store.provider.ts.
pub mod Delivered
use vcknots.Common.{List, Option, String, none, or_else, some, ◌+ˢ◌}
use vcknots.Errors.{
  Result, ok, err, Thrown, vcknots_error, internal_server_error, verifier_not_found,
  request_object_not_found, authz_verifier_key_not_found,
}
use vcknots.Providers.{find_provider, select_provider}
use vcknots.Flow.{pure, or_throw, ◌>>=◌, ◌>>◌}
use vcknots.Common.Json.{Fields}
use vcknots.Common.Map
use vcknots.Authz.AccessToken.{truthy, find_alg}
use vcknots.Verifier.Types.{RequestObject}
use vcknots.Verifier.State.{
  Verifier, Action, fetch_metadata, fetch_request_object, delete_request_object,
}
use vcknots.Verifier.Request.{prefix_of, JarProvider}

-- `encode` is `base64url.encode(JSON.stringify(x))`; `sign_with` imports a private key and signs.
module _ {Material : Type 0} (encode : Fields → String)
    (sign_with : Material → String → Fields → Fields → Result (Option String))
    (shown : Thrown → String) where
  -- The `catch` around the signing; `shown` is the text of an error.
  abbrev pub sign_error : {A : Type 0} → Result A → Result A
  sign_error (ok a) = ok a
  sign_error (err e) = err (vcknots_error internal_server_error ("sign error: " +ˢ shown e))

  unfoldable pub sign : String → String → Fields → Fields → Action Material (Option String)
  unfolding find_alg
  sign verifier key_alg payload header s = elim (Map.get verifier s.keys) [
    | none ↦ (ok none, s)
    | some pairs ↦ elim (find_alg key_alg pairs) [
      | none ↦ (
        sign_error
            (err (vcknots_error authz_verifier_key_not_found "Verifier private key not found.")),
        s,
      )
      | some pair ↦ (sign_error (sign_with pair.private_key key_alg payload header), s)
    ]
  ]

  -- The signed request object, which is then deleted.
  unfoldable pub find_request_object :
      List (JarProvider Material) → String → String → Option String → Action Material String
  unfolding fetch_metadata fetch_request_object find_provider prefix_of sign delete_request_object
  find_request_object jars verifier_id object_id alg = do
    known ← fetch_metadata verifier_id
    _ ← or_throw known verifier_not_found ""
    found ← fetch_request_object object_id
    object ← or_throw found request_object_not_found "Request object is not found."
    jar ←
        select_provider (λ p. p.can_handle (prefix_of object.client_id)) jars
          (prefix_of object.client_id)
    (header, payload) ← λ s. (jar.generate verifier_id object (or_else alg "ES256") s, s)
    signed ← sign verifier_id (or_else alg "ES256") payload header
    signature ←
        or_throw (truthy signed) authz_verifier_key_not_found
          ("Verifier signing key for " +ˢ or_else alg "ES256" +ˢ " is not found.")
    delete_request_object object_id
    pure (encode header +ˢ "." +ˢ encode payload +ˢ "." +ˢ signature)
