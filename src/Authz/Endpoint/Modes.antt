-- ===== src/Authz/Endpoint/Modes.antt =====
-- Which access tokens the credential endpoint lets in.
use vcknots.Common.{
  Bool, Option, Option-cases, String, arith, false, inl, inr, is_some, none, some, ◌≡◌,
}
use vcknots.Errors.{Result, ok}
use vcknots.Headers.{AuthorizationScheme, bearer, dpop, ParsedAuthorizationHeader, parsed}
use vcknots.Headers.{parse_authorization_header}
use vcknots.Common.Map
use vcknots.Common.Json.{Fields}
use vcknots.Authz.Types.{DpopMode, off, optional, required, AuthzOAuthClient}
use vcknots.Authz.Jose.{Jose}
use vcknots.Authz.DpopProof.{DpopProofOptions}
use vcknots.Authz.Policy.{resolve_authz_policy_dpop_mode}
use vcknots.Authz.State.{Server, fetch_policy, client_key, if_enabled}
use vcknots.Flow.Laws.{and_then-ok}
use vcknots.Authz.Endpoint.Verified.{verify-IsVerified, IsVerified-SameRegistry}
use vcknots.Authz.Endpoint.{
  TokenType, bearer_token, dpop_token, CredentialEndpointAuthorizationContext,
  CredentialEndpointAuthorizationOptions, get_cnf_jkt, get_access_token_client_id, kind_of,
  client_policy_of, admit_token, authorization_of, client_of_token, verify_access_token_payload,
  authorize_credential_endpoint_access,
}

-- The type of token that a DPoP mode admits by a scheme, for a token that is bound to a key or not.
pub admitted_type : DpopMode → AuthorizationScheme → Bool → Option TokenType
admitted_type off bearer false = some bearer_token
admitted_type optional bearer false = some bearer_token
admitted_type optional dpop _ = some dpop_token
admitted_type required dpop _ = some dpop_token
admitted_type _ _ _ = none

abbrev pub IsAdmitted : DpopMode → AuthorizationScheme → Fields → TokenType → Type 0
IsAdmitted mode scheme payload t =
    admitted_type mode scheme (is_some (get_cnf_jkt payload)) ≡ some t

module _ {Key Material : Type 0} (jose : Jose Key Material) (proofs : DpopProofOptions)
    (authz : String) where
  admitted_at :
      (options : CredentialEndpointAuthorizationOptions) (scheme : AuthorizationScheme)
      (token : String) (payload : Fields) (mode : DpopMode) (s : Server Material) {t : TokenType}
      {s' : Server Material}
      → admit_token jose proofs authz options
          (record { scheme = scheme; token = token })
          payload
          mode
          s
        ≡ (ok t, s')
      → IsAdmitted mode scheme payload t
  unfolding admit_token admitted_type
  admitted_at options bearer token payload off s h = grind arith
  admitted_at options bearer token payload optional s h = grind arith
  admitted_at options bearer token payload required s h = grind arith
  admitted_at options dpop token payload off s h = grind arith
  admitted_at options dpop token payload optional s h = grind arith
  admitted_at options dpop token payload required s h = grind arith

  admit_token-IsAdmitted :
      (options : CredentialEndpointAuthorizationOptions) (a : ParsedAuthorizationHeader)
      (payload : Fields) (mode : DpopMode) (s : Server Material) {t : TokenType}
      {s' : Server Material}
      → admit_token jose proofs authz options a payload mode s ≡ (ok t, s')
      → IsAdmitted mode a.scheme payload t
  admit_token-IsAdmitted options a payload mode s h =
      admitted_at options a.scheme a.token payload mode s h

  authorization_of-ok :
      (header : Option String) (s : Server Material) {a : ParsedAuthorizationHeader}
      {t : Server Material}
      → authorization_of jose proofs authz header s ≡ (ok a, t)
      → (parse_authorization_header header ≡ parsed a) × (s ≡ t)
  unfolding authorization_of
  authorization_of-ok header s h = (ground arith, ground arith)

  -- The client that a token names, as the store has it.
  abbrev pub IsKnown : Option String → Server Material → Option AuthzOAuthClient → Type 0
  IsKnown none s client = client ≡ none
  IsKnown (some id) s client =
      (c : AuthzOAuthClient) × (client ≡ some c)
      × (if_enabled (Map.get (client_key authz id) s.clients) ≡ some c)

  IsKnown-same :
      (id : Option String) (s t : Server Material) (client : Option AuthzOAuthClient)
      → t.clients ≡ s.clients
      → IsKnown id t client
      → IsKnown id s client
  IsKnown-same none s t client e h = h
  IsKnown-same (some id) s t client e (c, same, found) = (c, same, rw (← e) found)

  client_of_token-ok :
      (id : Option String) (s : Server Material) {c : Option AuthzOAuthClient} {t : Server Material}
      → client_of_token jose proofs authz id s ≡ (ok c, t)
      → IsKnown id s c × (s ≡ t)
  unfolding client_of_token
  client_of_token-ok none s h = (ground arith, ground arith)
  client_of_token-ok (some id) s h =
      elim (Option-cases (if_enabled (Map.get (client_key authz id) s.clients))) [
        | inl e ↦ absurd (ground arith)
        | inr (c, e) ↦ ((c, ground arith, e), ground arith)
      ]

  pub record IsAuthorized (options : CredentialEndpointAuthorizationOptions) (s : Server Material)
      (c : CredentialEndpointAuthorizationContext) : Type 0 where
    pub authorization : ParsedAuthorizationHeader
    pub presented : parse_authorization_header options.authorization_header ≡ parsed authorization
    pub payload : Fields
    pub after : Server Material
    pub verified :
        verify_access_token_payload jose proofs authz authorization.token options.alg s
        ≡ (ok payload, after)
    pub named : c.client_id ≡ get_access_token_client_id payload
    pub client : Option AuthzOAuthClient
    pub known : IsKnown c.client_id s client
    pub keyed : c.allowed_credential_configuration_key ≡ jose.token_hash authorization.token
    pub admitted :
        IsAdmitted
          (resolve_authz_policy_dpop_mode
            (Map.get authz s.policies)
            (kind_of c.client_id)
            (client_policy_of client))
          authorization.scheme
          payload
          c.token_type

  checked-IsAuthorized :
      (options : CredentialEndpointAuthorizationOptions) (a : ParsedAuthorizationHeader)
      (payload : Fields) (client : Option AuthzOAuthClient) (t : TokenType)
      {s s1 s2 s3 s4 s' : Server Material} {c : CredentialEndpointAuthorizationContext}
      → parse_authorization_header options.authorization_header ≡ parsed a
      → s ≡ s1
      → verify_access_token_payload jose proofs authz a.token options.alg s1 ≡ (ok payload, s2)
      → IsKnown (get_access_token_client_id payload) s2 client
      → s2 ≡ s3
      → IsAdmitted
          (resolve_authz_policy_dpop_mode
            (Map.get authz s3.policies)
            (kind_of (get_access_token_client_id payload))
            (client_policy_of client))
          a.scheme
          payload
          t
      → ◌≡◌ {A = Result CredentialEndpointAuthorizationContext × Server Material}
          (
            ok (record {
              allowed_credential_configuration_key = jose.token_hash a.token;
              client_id = get_access_token_client_id payload;
              token_type = t;
            }),
            s4,
          )
          (ok c, s')
      → IsAuthorized options s c
  checked-IsAuthorized options a payload client t {s} {s1} {s2} {s3} {c = c} presented same1
        verified known same3 admitted e =
      let here : verify_access_token_payload jose proofs authz a.token options.alg s
          ≡ (ok payload, s2) =
        rw same1 verified in
      let kept =
        IsVerified-SameRegistry jose proofs authz a.token options.alg s
          (verify-IsVerified jose proofs authz a.token options.alg s here) in
      let named : c.client_id ≡ get_access_token_client_id payload = ground arith in
      let typed : c.token_type ≡ t = ground arith in
      let stored : Map.get authz s.policies ≡ Map.get authz s3.policies = cc kept.policies in
      record {
        authorization = a;
        presented = presented;
        payload = payload;
        after = s2;
        verified = here;
        named = named;
        client = client;
        known =
            rw named
              (IsKnown-same (get_access_token_client_id payload) s s2 client kept.clients known);
        keyed = ground arith;
        admitted = rw (named, typed, stored) admitted;
      }

  -- Access to the credential endpoint is given only to a presented token that
  -- `verifyAccessTokenPayload` accepts, whose client, if it names one, is registered and enabled,
  -- and that is presented as the DPoP mode of that client demands: by DPoP never where the mode
  -- is `off`, always where it is `required` or the token is bound to a key. The context has the
  -- hash of that token and its client.
  pub authorize-IsAuthorized :
      (options : CredentialEndpointAuthorizationOptions) (s : Server Material)
      {c : CredentialEndpointAuthorizationContext} {s' : Server Material}
      → authorize_credential_endpoint_access jose proofs authz options s ≡ (ok c, s')
      → IsAuthorized options s c
  unfolding authorize_credential_endpoint_access fetch_policy
  authorize-IsAuthorized options s h =
      let (a, s1, e1, h1) =
        and_then-ok (authorization_of jose proofs authz options.authorization_header s) _ h in
      let (payload, s2, e2, h2) =
        and_then-ok (verify_access_token_payload jose proofs authz a.token options.alg s1) _ h1 in
      let id = get_access_token_client_id payload in
      let (client, s3, e3, h3) = and_then-ok (client_of_token jose proofs authz id s2) _ h2 in
      let mode =
        resolve_authz_policy_dpop_mode (Map.get authz s3.policies) (kind_of id)
          (client_policy_of client) in
      let (t, s4, e4, h4) =
        and_then-ok (admit_token jose proofs authz options a payload mode s3) _ h3 in
      let (presented, same1) = authorization_of-ok options.authorization_header s e1 in
      let (known, same3) = client_of_token-ok id s2 e3 in
      checked-IsAuthorized options a payload client t presented same1 e2 known same3
        (admit_token-IsAdmitted options a payload mode s3 e4) h4
