-- ===== src/Authz/Endpoint/Verified.antt =====
-- What a verified access token has established, and what the verification leaves alone.
use vcknots.Common.{
  List, Option, Option-cases, String, [], ap, arith, eq_iff, inl, inr, none, or_else, refl, some,
  subst, sym, ◌+◌, ◌∙◌, ◌≡◌,
}
use vcknots.Errors.{Result, ok}
use vcknots.Common.Map
use vcknots.Common.Json.{Json, Fields, member, str, num, bool, obj, arr, null, end}
use vcknots.Authz.Jose.{Jose, got}
use vcknots.Authz.DpopProof.{DpopProofOptions}
use vcknots.Authz.State.{Server, SignatureKeyEntry}
use vcknots.Flow.{or_throw}
use vcknots.Flow.Laws.{and_then-ok, or_throw-ok, pure-ok, lift-ok}
use vcknots.Authz.AccessToken.{find_alg, find_pair}
use vcknots.Authz.Endpoint.{
  token_parts, decode_token, members_of, check_issuer, fetch_public_key, fetch_token_key,
  check_token_signature, string_claim, verify_access_token_payload,
}

-- The members that are read of a parsed value: `null` has none that can be read, and other values
-- that are no objects are read as if they were empty.
abbrev pub members_seen : Json → Option Fields
members_seen null = none
members_seen (obj fs) = some fs
members_seen _ = some end

-- The algorithm of a token: the text in its header, or that of the options, or ES256.
abbrev pub named_alg : Option String → Option Json → Option String
named_alg alg (some (str named)) = some named
named_alg alg none = some (or_else alg "ES256")
named_alg alg (some null) = some (or_else alg "ES256")
named_alg alg (some _) = none

module _ {Material : Type 0} where
  -- The registrations are as they were.
  pub record SameRegistry (s t : Server Material) : Type 0 where
    pub policies : t.policies ≡ s.policies
    pub clients : t.clients ≡ s.clients
    pub keys : t.keys ≡ s.keys

module _ {Key Material : Type 0} (jose : Jose Key Material) (proofs : DpopProofOptions)
    (authz : String) where
  -- The two parts of a token, parsed.
  pub record IsDecoded (token : String) (p : Json × Json) : Type 0 where
    pub parts : String × String
    pub split : token_parts token ≡ some parts
    pub header : jose.decode parts.0 ≡ some p.0
    pub payload : jose.decode parts.1 ≡ some p.1

  decode_token-ok :
      (token : String) (s : Server Material) {p : Json × Json} {t : Server Material}
      → decode_token jose proofs authz token s ≡ (ok p, t)
      → IsDecoded token p × (s ≡ t)
  unfolding decode_token
  decode_token-ok token s h =
      let (parts, s1, e1, h1) = and_then-ok (or_throw (token_parts token) _ _ s) _ h in
      let (header, s2, e2, h2) = and_then-ok (or_throw (jose.decode parts.0) _ _ s1) _ h1 in
      let (payload, s3, e3, h3) = and_then-ok (or_throw (jose.decode parts.1) _ _ s2) _ h2 in
      let (same, last) = pure-ok (header, payload) s3 h3 in
      let (split, a1) = or_throw-ok (token_parts token) _ _ s e1 in
      let (has_header, a2) = or_throw-ok (jose.decode parts.0) _ _ s1 e2 in
      let (has_payload, a3) = or_throw-ok (jose.decode parts.1) _ _ s2 e3 in
      (
        record {
          parts = parts;
          split = split;
          header = has_header ∙ ap (λ q. some q.0) same;
          payload = has_payload ∙ ap (λ q. some q.1) same;
        },
        a1 ∙ a2 ∙ a3 ∙ last,
      )

  members_of-ok :
      (v : Json) (s : Server Material) {fs : Fields} {t : Server Material}
      → members_of jose proofs authz v s ≡ (ok fs, t)
      → (members_seen v ≡ some fs) × (s ≡ t)
  members_of-ok null s h = absurd (cc h)
  members_of-ok (obj fs) s h = (ground arith, ground arith)
  members_of-ok (str v) s h = (ground arith, ground arith)
  members_of-ok (num v) s h = (ground arith, ground arith)
  members_of-ok (bool v) s h = (ground arith, ground arith)
  members_of-ok (arr v) s h = (ground arith, ground arith)

  check_issuer-ok :
      (payload : Fields) (s : Server Material) {u : Unit {0}} {t : Server Material}
      → check_issuer jose proofs authz payload s ≡ (ok u, t)
      → (string_claim (member "iss" payload) ≡ some authz) × (s ≡ t)
  unfolding check_issuer
  check_issuer-ok payload s h = elim (Option-cases (string_claim (member "iss" payload))) [
    | inl e ↦ absurd (ground arith)
    | inr (iss, e) ↦ (ground (arith, eq_iff iss authz), ground (arith, eq_iff iss authz))
  ]

  -- The key that is stored for an algorithm.
  pub record HasKey (s : Server Material) (key_alg : String) (key : Key) : Type 0 where
    pub pairs : List (SignatureKeyEntry Material)
    pub pair : SignatureKeyEntry Material
    pub stored : Map.get authz s.keys ≡ some pairs
    pub found : find_alg key_alg pairs ≡ some pair
    pub imported : jose.import_public pair.public_key key_alg ≡ ok (some key)

  fetch_public_key-ok :
      (key_alg : String) (s : Server Material) {key : Key} {t : Server Material}
      → fetch_public_key jose proofs authz key_alg s ≡ (ok (some key), t)
      → HasKey s key_alg key × (s ≡ t)
  unfolding fetch_public_key find_pair
  fetch_public_key-ok key_alg s {key} {t} h = elim (Option-cases (Map.get authz s.keys)) [
    | inl e ↦ absurd (ground arith)
    | inr (pairs, e) ↦ elim (Option-cases (find_alg key_alg pairs)) [
      | inl e2 ↦ absurd (ground arith)
      | inr (pair, e2) ↦
          let (imported, same) =
            lift-ok (jose.import_public pair.public_key key_alg) s (rw (e, e2) at h) in
          (record { pairs = pairs; pair = pair; stored = e; found = e2; imported = imported }, same)
    ]
  ]

  -- The key of a token is the one of the algorithm that its header names.
  fetch_token_key-ok :
      (v : Option Json) (alg : Option String) (s : Server Material) {key : Key}
      {t : Server Material}
      → fetch_token_key jose proofs authz v alg s ≡ (ok (some key), t)
      → ((key_alg : String) × (named_alg alg v ≡ some key_alg) × HasKey s key_alg key) × (s ≡ t)
  unfolding fetch_token_key
  fetch_token_key-ok (some (str a)) alg s h =
      let (has, same) = fetch_public_key-ok a s h in ((a, refl, has), same)
  fetch_token_key-ok none alg s h =
      let (has, same) = fetch_public_key-ok (or_else alg "ES256") s h in ((_, refl, has), same)
  fetch_token_key-ok (some null) alg s h =
      let (has, same) = fetch_public_key-ok (or_else alg "ES256") s h in ((_, refl, has), same)
  fetch_token_key-ok (some (num n)) alg s h = absurd (cc h)
  fetch_token_key-ok (some (bool b)) alg s h = absurd (cc h)
  fetch_token_key-ok (some (obj fs)) alg s h = absurd (cc h)
  fetch_token_key-ok (some (arr xs)) alg s h = absurd (cc h)

  check_token_signature-ok :
      (token : String) (key : Key) (s : Server Material) {u : Unit {0}} {t : Server Material}
      → check_token_signature jose proofs authz token key s ≡ (ok u, t)
      → (jose.jwt_verify token key
            (record { issuer = some authz; subject = none; audience = []; clock_tolerance = 0 })
            (s.clock s.readings)
          ≡ got tt)
        × (t ≡ record s { readings = s.readings + 1 })
  unfolding check_token_signature
  check_token_signature-ok token key s h = (ground arith, ground arith)

  -- What stands behind a payload that was verified, from the state `s` on to `t`.
  pub record IsVerified (token : String) (alg : Option String) (s : Server Material)
      (payload : Fields) (t : Server Material) : Type 0 where
    pub values : Json × Json
    pub decoded : IsDecoded token values
    pub header : Fields
    pub header_seen : members_seen values.0 ≡ some header
    pub payload_seen : members_seen values.1 ≡ some payload
    pub issued : string_claim (member "iss" payload) ≡ some authz
    pub key_alg : String
    pub named : named_alg alg (member "alg" header) ≡ some key_alg
    pub key : Key
    pub has_key : HasKey s key_alg key
    pub signed :
        jose.jwt_verify token key
          (record { issuer = some authz; subject = none; audience = []; clock_tolerance = 0 })
          (s.clock s.readings)
        ≡ got tt
    pub after : t ≡ record s { readings = s.readings + 1 }

  pub IsVerified-SameRegistry :
      (token : String) (alg : Option String) (s : Server Material) {payload : Fields}
      {t : Server Material}
      → IsVerified token alg s payload t
      → SameRegistry s t
  IsVerified-SameRegistry token alg s v = record {
    policies = ap (λ (u : Server Material). u.policies) v.after;
    clients = ap (λ (u : Server Material). u.clients) v.after;
    keys = ap (λ (u : Server Material). u.keys) v.after;
  }

  -- A payload is given only if it is the object in the second part of the token, its `iss` is the
  -- authorization server, whose stored keys have one for the algorithm that the header in the first
  -- part of the token names (or else the options, or else ES256), and the signature of the token was
  -- verified with that key at the time; nothing changes but that the clock was read.
  pub verify-IsVerified :
      (token : String) (alg : Option String) (s : Server Material) {payload : Fields}
      {t : Server Material}
      → verify_access_token_payload jose proofs authz token alg s ≡ (ok payload, t)
      → IsVerified token alg s payload t
  unfolding verify_access_token_payload
  verify-IsVerified token alg s {payload} {t} h =
      let (values, s1, e1, h1) = and_then-ok (decode_token jose proofs authz token s) _ h in
      let (claims, s2, e2, h2) = and_then-ok (members_of jose proofs authz values.1 s1) _ h1 in
      let (u, s3, e3, h3) = and_then-ok (check_issuer jose proofs authz claims s2) _ h2 in
      let (header, s4, e4, h4) = and_then-ok (members_of jose proofs authz values.0 s3) _ h3 in
      let (found, s5, e5, h5) =
        and_then-ok (fetch_token_key jose proofs authz (member "alg" header) alg s4) _ h4 in
      let (key, s6, e6, h6) = and_then-ok (or_throw found _ _ s5) _ h5 in
      let (v, s7, e7, h7) =
        and_then-ok (check_token_signature jose proofs authz token key s6) _ h6 in
      let (decoded, a1) = decode_token-ok token s e1 in
      let (payload_seen, a2) = members_of-ok values.1 s1 e2 in
      let (issued, a3) = check_issuer-ok claims s2 e3 in
      let (header_seen, a4) = members_of-ok values.0 s3 e4 in
      let (some_key, a6) = or_throw-ok found _ _ s5 e6 in
      let ((key_alg, named, has_key), a5) =
        fetch_token_key-ok (member "alg" header) alg s4 (e5 ∙ ap (λ o. fetched o s5) some_key) in
      let (signed, after) = check_token_signature-ok token key s6 e7 in
      let (same, last) = pure-ok claims s7 h7 in
      let here : s ≡ s4 = a1 ∙ a2 ∙ a3 ∙ a4 in
      let there : s ≡ s6 = here ∙ a5 ∙ a6 in
      record {
        values = values;
        decoded = decoded;
        header = header;
        header_seen = header_seen;
        payload_seen = payload_seen ∙ ap some same;
        issued = ap (λ fs. string_claim (member "iss" fs)) (sym same) ∙ issued;
        key_alg = key_alg;
        named = named;
        key = key;
        has_key = subst (λ u. HasKey u key_alg key) (sym here) has_key;
        signed =
            subst
              (λ (u : Server Material).
                jose.jwt_verify token key
                  (record {
                    issuer = some authz;
                    subject = none;
                    audience = [];
                    clock_tolerance = 0;
                  })
                  (u.clock u.readings)
                ≡ got tt)
              (sym there) signed;
        after =
            sym last
            ∙ after
            ∙ ap (λ (u : Server Material). record u { readings = u.readings + 1 }) (sym there);
      }
    where
      fetched : Option Key → Server Material → Result (Option Key) × Server Material
      fetched o u = (ok o, u)
