-- ===== src/Providers/Pem.antt =====
-- `derBase64ToPem` of credential-proof-jwt.provider.ts, and the form of a PEM text in
-- signature-key.types.ts. Lines are measured in code points, which for base64 are the units of the
-- source.
pub mod Lines
use vcknots.Common.{
  Bool, List, Option, String, [], code, false, if◌then◌else◌, leb, none, refl, some, strip_spaces,
  trim, true, ℕ, ◌&&◌, ◌+ˢ◌, ◌+◌, ◌-◌, ◌==◌, ◌=ˢ◌, ◌||◌, ◌∷◌, ◌≡◌,
}

-- `.match(/.{1,64}/g)?.join('\n')` of a text with no white space: a line end before each further line,
-- with what is left of the line.
unfoldable pub wrap : ℕ → String → String
wrap left String.[] = ""
wrap left (String.◌∷◌ c s) =
    let rest = wrap (if left == 0 then 63 else left - 1) s in
    if left == 0 then String.◌∷◌ "\n" (String.◌∷◌ c rest) else String.◌∷◌ c rest

-- What stands between the frame's lines; a text of white space only stays.
unfoldable pub pem_body : String → String
unfolding wrap strip_spaces
pem_body der_base64 =
    let body = wrap 64 (strip_spaces der_base64) in if body =ˢ "" then der_base64 else body

unfoldable pub der_base64_to_pem : String → String
unfolding pem_body
der_base64_to_pem der_base64 =
    "-----BEGIN CERTIFICATE-----\n" +ˢ pem_body der_base64 +ˢ "\n-----END CERTIFICATE-----\n"

-- `PEM_LABELS`
abbrev pub pem_labels : List String
pem_labels =
    "PUBLIC KEY" ∷ "PRIVATE KEY" ∷ "ENCRYPTED PRIVATE KEY" ∷ "EC PRIVATE KEY" ∷ "RSA PRIVATE KEY"
    ∷ "CERTIFICATE" ∷ "CERTIFICATE REQUEST" ∷ "X509 CRL" ∷ "PKCS7" ∷ "PKCS8" ∷ []

abbrev pub is_line_break : ℕ → Bool
is_line_break c = c == 10 || c == 13

abbrev pub is_base64 : ℕ → Bool
is_base64 c =
    (leb b'A' c && leb c b'Z')
    || (leb b'a' c && leb c b'z')
    || (leb b'0' c && leb c b'9')
    || c == b'+'
    || c == b'/'
    || c == b'='

-- `[A-Za-z0-9+/=\r\n]+[\r\n]+` and the last line, after `seen` characters that begin with a line
-- break, the last of which is one or not.
unfoldable pub pem_tail : String → ℕ → Bool → String → Bool
pem_tail last_line seen at_break String.[] = false
pem_tail last_line seen at_break (String.◌∷◌ c s) =
    let rest = pem_tail last_line (seen + 1) (is_line_break (code c)) s in
    (at_break && leb 3 seen && String.◌∷◌ c s =ˢ last_line)
    || ((is_base64 (code c) || is_line_break (code c))
        && (leb 1 seen || is_line_break (code c))
        && rest)

-- What follows a prefix.
unfoldable pub after_prefix : String → String → Option String
after_prefix String.[] s = some s
after_prefix (String.◌∷◌ c p) String.[] = none
after_prefix (String.◌∷◌ c p) (String.◌∷◌ d s) = if code c == code d then after_prefix p s else none

unfoldable pub has_label : String → String → Bool
unfolding after_prefix pem_tail
has_label label s = elim (after_prefix ("-----BEGIN " +ˢ label +ˢ "-----") s) [
  | none ↦ false
  | some rest ↦ pem_tail ("-----END " +ˢ label +ˢ "-----") 0 false rest
]

unfoldable pub any_label : List String → String → Bool
unfolding has_label
any_label [] s = false
any_label (label ∷ labels) s = has_label label s || any_label labels s

abbrev pub starts_with_lf : String → Bool
starts_with_lf String.[] = false
starts_with_lf (String.◌∷◌ c s) = code c == 10

-- `val.replace(/\r\n/g, '\n')`
unfoldable pub crlf_to_lf : String → String
crlf_to_lf String.[] = ""
crlf_to_lf (String.◌∷◌ c s) =
    let rest = crlf_to_lf s in if code c == 13 && starts_with_lf s then rest else String.◌∷◌ c rest

-- The test of `PemStringSchema`.
unfoldable pub is_pem : String → Bool
unfolding crlf_to_lf trim any_label
is_pem value = any_label pem_labels (trim (crlf_to_lf value))
