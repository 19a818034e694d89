-- ===== src/Issuer/Uri.antt =====
-- issuer.flows.ts, `isUri`.
use vcknots.Common.{
  Bool, Option, String, false, has_char, if◌then◌else◌, is_space, leb, none, not, some, true, ℕ,
  ◌&&◌, ◌==◌, ◌=ˢ◌, ◌||◌,
}
use Prim.Native.Char.{code}

abbrev is_letter : ℕ → Bool
is_letter c = (leb b'a' c && leb c b'z') || (leb b'A' c && leb c b'Z')

abbrev is_scheme_char : ℕ → Bool
is_scheme_char c = is_letter c || (leb b'0' c && leb c b'9') || c == b'+' || c == b'.' || c == b'-'

-- `[a-zA-Z0-9+.-]*:[^\s]+`, of a text without white space.
unfoldable pub scheme_rest : String → Bool
scheme_rest String.[] = false
scheme_rest (String.◌∷◌ c s) =
    if code c == b':' then not (s =ˢ "") else is_scheme_char (code c) && scheme_rest s

unfoldable pub uri_pattern : String → Bool
unfolding scheme_rest
uri_pattern String.[] = false
uri_pattern (String.◌∷◌ c s) = is_letter (code c) && scheme_rest s

unfoldable pub is_uri : String → Bool
unfolding uri_pattern has_char is_space
is_uri value = not (has_char is_space value) && uri_pattern value

abbrev pub is_valid_subject : Option String → Bool
is_valid_subject none = true
is_valid_subject (some s) = is_uri s
