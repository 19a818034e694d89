-- ===== src/Headers.antt =====
-- authorization-header.ts and parseDpopHeader of dpop-proof.ts: the HTTP headers of a request, as
-- texts. A regular expression is a function on the text that accepts what it matches.
pub mod Parsed
use vcknots.Common.{
  Bool, Option, String, codes, equal_codes, false, has_char, if◌then◌else◌, is_space, leb, none,
  some, suc, to_lower_case, trim, trim_start, true, zero, ℕ, ◌&&◌, ◌==◌, ◌=ˢ◌, ◌||◌,
}
use Prim.Native.Char.{Char, code}
use Prim.Native.String.{[], ◌∷◌}

pub data AuthorizationScheme : Type 0 where
  bearer dpop : AuthorizationScheme

pub record ParsedAuthorizationHeader : Type 0 where
  pub scheme : AuthorizationScheme
  pub token : String

pub data AuthorizationHeaderParseResult : Type 0 where
  parsed : ParsedAuthorizationHeader → AuthorizationHeaderParseResult
  missing malformed : AuthorizationHeaderParseResult
  unsupported_scheme : String → AuthorizationHeaderParseResult

-- The text up to the first white space, and the rest from there on.
unfoldable pub split_space : String → String × String
unfolding is_space
split_space [] = ([], [])
split_space (c ∷ s) =
    let (word, rest) = split_space s in if is_space (code c) then ([], c ∷ s) else (c ∷ word, rest)

-- `/^(\S+)\s+(\S+)$/`: a word, white space, and a word up to the end.
unfoldable pub authorization_header_pattern : String → Option (String × String)
unfolding split_space trim_start has_char is_space
authorization_header_pattern s =
    let (scheme, rest) = split_space s in
    let token = trim_start rest in
    if scheme =ˢ "" || rest =ˢ "" || token =ˢ "" || has_char is_space token
    then none
    else some (scheme, token)

unfoldable pub authorization_scheme : String → Option AuthorizationScheme
authorization_scheme scheme =
    if equal_codes (to_lower_case scheme) (codes "bearer")
    then some bearer
    else if equal_codes (to_lower_case scheme) (codes "dpop")
    then some dpop
    else none

-- From the match on: the scheme and the token that it gives.
unfoldable pub parse_credentials : String → String → AuthorizationHeaderParseResult
unfolding trim authorization_scheme
parse_credentials scheme token =
    if trim token =ˢ "" then malformed else elim (authorization_scheme scheme) [
      | none ↦ unsupported_scheme scheme
      | some normalized_scheme ↦ parsed (record { scheme = normalized_scheme; token = trim token })
    ]

-- `null` and `undefined` are `none`.
unfoldable pub parse_authorization_header : Option String → AuthorizationHeaderParseResult
unfolding authorization_header_pattern parse_credentials trim
parse_authorization_header none = missing
parse_authorization_header (some value) =
    if trim value =ˢ "" then missing else elim (authorization_header_pattern (trim value)) [
      | none ↦ malformed
      | some (scheme, token) ↦ parse_credentials scheme token
    ]

pub data ParsedDpopHeader : Type 0 where
  proof_jwt : String → ParsedDpopHeader
  missing duplicate malformed : ParsedDpopHeader

-- `[A-Za-z0-9_-]`
abbrev pub is_base64url : ℕ → Bool
is_base64url c =
    (leb b'A' c && leb c b'Z')
    || (leb b'a' c && leb c b'z')
    || (leb b'0' c && leb c b'9')
    || c == b'_'
    || c == b'-'

-- `n` more parts of one character or more, with a dot before each; `started` is whether the part
-- that is being read has a character.
unfoldable pub parts_left : ℕ → Bool → String → Bool
parts_left n started [] = started && n == 0
parts_left zero started (c ∷ s) = is_base64url (code c) && parts_left zero true s
parts_left (suc n) started (c ∷ s) =
    let next = parts_left n false s in
    let same = parts_left (suc n) true s in
    if code c == b'.' then started && next else is_base64url (code c) && same

-- `/^[A-Za-z0-9_-]+\.[A-Za-z0-9_-]+\.[A-Za-z0-9_-]+$/`
unfoldable pub compact_jwt_pattern : String → Bool
unfolding parts_left
compact_jwt_pattern s = parts_left 2 false s

unfoldable pub parse_dpop_header : Option String → ParsedDpopHeader
unfolding trim has_char compact_jwt_pattern
parse_dpop_header none = ParsedDpopHeader.missing
parse_dpop_header (some value) =
    if trim value =ˢ ""
    then ParsedDpopHeader.missing
    else if has_char (λ c. c == b',') (trim value)
    then duplicate
    else if compact_jwt_pattern (trim value)
    then proof_jwt (trim value)
    else ParsedDpopHeader.malformed
