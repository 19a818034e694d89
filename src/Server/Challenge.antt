-- ===== src/Server/Challenge.antt =====
-- server/core/src/utils/www-authenticate.ts: the header WWW-Authenticate; and the answer that asks for a
-- nonce in the DPoP proof, as the routes /token and /credentials give it. A generated nonce is an
-- argument.
pub mod Quoted
pub mod Live
use vcknots.Common.{
  Bool, List, Option, String, [], false, if◌then◌else◌, join, none, some, ℕ, ◌*◌, ◌+ˢ◌, ◌==◌, ◌=ˢ◌,
  ◌||◌, ◌∷◌,
}
use Prim.Native.Char.{code}
use vcknots.Flow.{pure, ◌>>=◌}
use vcknots.Authz.State.{Action}
use vcknots.Authz.Registration.{create_dpop_nonce_challenge}
use vcknots.Verifier.Request.{generated_nonce}
use vcknots.Server.Types.{Response, refuse}

-- `/[\r\n]+/g` as one space: `broken` is whether the text before ends in a line break.
unfoldable pub escape_quoted : Bool → String → String
escape_quoted broken String.[] = ""
escape_quoted broken (String.◌∷◌ c s) =
    let is_break = code c == 10 || code c == 13 in
    let rest = escape_quoted is_break s in
    if is_break
    then (if broken then rest else String.◌∷◌ " " rest)
    else if code c == b'\\' || code c == b'"'
    then String.◌∷◌ "\\" (String.◌∷◌ c rest)
    else String.◌∷◌ c rest

-- `quoteAuthParam`
unfoldable pub quote_auth_param : String → String → String
unfolding escape_quoted
quote_auth_param name value = name +ˢ "=\"" +ˢ escape_quoted false value +ˢ "\""

pub record ChallengeOptions : Type 0 where
  pub realm : String
  pub error : Option String
  pub error_description : Option String
  pub error_uri : Option String
  pub scope : Option String

-- A parameter that has a value, before others.
abbrev pub with_param : String → Option String → List String → List String
with_param name none params = params
with_param name (some value) params =
    if value =ˢ "" then params else quote_auth_param name value ∷ params

unfoldable pub build_bearer_authenticate_header : ChallengeOptions → String
unfolding quote_auth_param join
build_bearer_authenticate_header o =
    "Bearer "
    +ˢ join (
        quote_auth_param "realm" o.realm
        ∷ with_param "error" o.error (
            with_param "error_description" o.error_description
              (with_param "error_uri" o.error_uri (with_param "scope" o.scope []))))

unfoldable pub build_dpop_authenticate_header : ChallengeOptions → String
unfolding quote_auth_param join
build_dpop_authenticate_header o =
    "DPoP "
    +ˢ join (
        quote_auth_param "realm" o.realm
        ∷ with_param "error" o.error (
            with_param "error_description" o.error_description
              (with_param "error_uri" o.error_uri [])))

-- An answer with its headers DPoP-Nonce and WWW-Authenticate.
pub record Challenged (A : Type 0) : Type 0 where
  pub response : Response A
  pub dpop_nonce : Option String
  pub www_authenticate : Option String

abbrev pub without_headers : {A : Type 0} → Response A → Challenged A
without_headers response = record {
  response = response;
  dpop_nonce = none;
  www_authenticate = none;
}

abbrev pub dpop_nonce_ttl_ms : ℕ
dpop_nonce_ttl_ms = 5 * 60 * 1000

-- `dpopNonceResponse`: a new nonce, and the request to use it.
unfoldable pub dpop_nonce_response :
    {M A : Type 0} → String → ℕ → String → Option String → Action M (Challenged A)
unfolding create_dpop_nonce_challenge
dpop_nonce_response uuid status description www_authenticate = do
  dpop_nonce ← create_dpop_nonce_challenge (generated_nonce uuid (some dpop_nonce_ttl_ms))
  pure (record {
    response = refuse status (record { error = "use_dpop_nonce"; error_description = description });
    dpop_nonce = some dpop_nonce;
    www_authenticate = www_authenticate;
  })
