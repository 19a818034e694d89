-- ===== src/Verifier/RequestObjects/Delivered.antt =====
-- A request object is delivered once.
use vcknots.Common.{List, Option, String, ap, none, or_else, some, sym, ◌∙◌, ◌≡◌, ◌≢◌}
use vcknots.Errors.{Result, ok, Thrown}
use vcknots.Flow.{or_throw, lift}
use vcknots.Flow.Laws.{and_then-ok, or_throw-ok}
use vcknots.Common.Json.{Fields}
use vcknots.Common.Map
use vcknots.Providers.{select_provider}
use vcknots.Authz.AccessToken.{truthy}
use vcknots.Verifier.Types.{RequestObject}
use vcknots.Verifier.State.{Verifier, delete_request_object}
use vcknots.Verifier.Request.{prefix_of, JarProvider}
use vcknots.Verifier.RequestObjects.{sign, find_request_object}

module _ {Material : Type 0} (encode : Fields → String)
    (sign_with : Material → String → Fields → Fields → Result (Option String))
    (shown : Thrown → String) (jars : List (JarProvider Material)) where
  find_request_object-ok :
      (verifier_id object_id : String) (alg : Option String) (s : Verifier Material) {jwt : String}
      {t : Verifier Material}
      → find_request_object encode sign_with shown jars verifier_id object_id alg s ≡ (ok jwt, t)
      → ((object : RequestObject) × (Map.get object_id s.request_objects ≡ some object))
        × (Map.get object_id t.request_objects ≡ none)
  unfolding find_request_object delete_request_object
  find_request_object-ok verifier_id object_id alg s h =
      let (_, s1, e1, h1) = and_then-ok (or_throw (Map.get verifier_id s.metadata) _ _ s) _ h in
      let (object, s2, e2, h2) =
        and_then-ok (or_throw (Map.get object_id s1.request_objects) _ _ s1) _ h1 in
      let (jar, s3, e3, h3) =
        and_then-ok (select_provider (λ p. p.can_handle (prefix_of object.client_id)) jars _ s2) _
          h2 in
      let ((header, payload), s4, e4, h4) =
        and_then-ok (lift (jar.generate verifier_id object (or_else alg "ES256") s3) s3) _ h3 in
      let (signed, s5, e5, h5) =
        and_then-ok
          (sign encode sign_with shown verifier_id (or_else alg "ES256") payload header s4) _ h4 in
      let (signature, s6, e6, h6) = and_then-ok (or_throw (truthy signed) _ _ s5) _ h5 in
      let (_, here) = or_throw-ok (Map.get verifier_id s.metadata) _ _ s e1 in
      let (found, _) = or_throw-ok (Map.get object_id s1.request_objects) _ _ s1 e2 in
      (
        (object, ap (λ u. Map.get object_id u.request_objects) here ∙ found),
        ap (λ r. Map.get object_id r.1.request_objects) (sym h6)
            ∙ Map.get-delete_same object_id s6.request_objects,
      )

  -- A request object is delivered once: once `findRequestObject` gave it out signed, no call for its
  -- identifier succeeds, for any verifier and algorithm, while no object is stored under it anew.
  pub delivered_once :
      (verifier_id verifier_id2 object_id : String) (alg alg2 : Option String)
      (s t s2 t2 : Verifier Material) (jwt jwt2 : String)
      → find_request_object encode sign_with shown jars verifier_id object_id alg s ≡ (ok jwt, t)
      → Map.get object_id s2.request_objects ≡ Map.get object_id t.request_objects
      → find_request_object encode sign_with shown jars verifier_id2 object_id alg2 s2
        ≢ (ok jwt2, t2)
  delivered_once verifier_id verifier_id2 object_id alg alg2 s t s2 t2 jwt jwt2 first later again =
      let (_, gone) = find_request_object-ok verifier_id object_id alg s first in
      let ((object, found), _) = find_request_object-ok verifier_id2 object_id alg2 s2 again in
      cc (found, later, gone)
