-- ===== src/Common/Texts.antt =====
-- Texts: the built-in `JSON.stringify` on texts, blank space, `trim`, and texts with no given mark.
-- A text is a list of code points; lone surrogates have no counterpart.
use Prim.Native.Nat.{ℕ, ◌+◌, ◌-◌, ◌/◌, ◌%◌}
use Prim.Native.Char.{Char, code}
use Prim.Native.String
use Prim.Native.String.{String, [], ◌∷◌}
use mathlib.Core.Bool.{Bool, true, false, ◌&&◌, ◌||◌, not}
use mathlib.Core.List.{List}
use vcknots.Common.Tests.{leb, ltb, ◌==◌, if◌then◌else◌}

infixr 65 ◌+ˢ◌
abbrev pub ◌+ˢ◌ : String → String → String
s +ˢ t = String.◌++◌ s t

-- Does the text have a character that passes the test?
unfoldable pub has_char : (ℕ → Bool) → String → Bool
has_char p [] = false
has_char p (c ∷ s) = p (code c) || has_char p s

-- One character of a number in base 16, with small letters.
hex_digit : ℕ → Char
hex_digit d =
    if d == 0
    then "0"
    else if d == 1
    then "1"
    else if d == 2
    then "2"
    else if d == 3
    then "3"
    else if d == 4
    then "4"
    else if d == 5
    then "5"
    else if d == 6
    then "6"
    else if d == 7
    then "7"
    else if d == 8
    then "8"
    else if d == 9
    then "9"
    else if d == 10
    then "a"
    else if d == 11
    then "b"
    else if d == 12
    then "c"
    else if d == 13
    then "d"
    else if d == 14
    then "e"
    else "f"

escape : Char → String
unfolding hex_digit
escape c =
    if code c == 0x22
    then "\\\""
    else if code c == 0x5c
    then "\\\\"
    else if code c == 8
    then "\\b"
    else if code c == 9
    then "\\t"
    else if code c == 10
    then "\\n"
    else if code c == 12
    then "\\f"
    else if code c == 13
    then "\\r"
    else if ltb (code c) 0x20
    then "\\u00" +ˢ hex_digit (code c / 16) ∷ hex_digit (code c % 16) ∷ []
    else c ∷ []

escape_all : String → String
unfolding escape
escape_all [] = []
escape_all (c ∷ s) = escape c +ˢ escape_all s

-- `JSON.stringify([a, b])` for two texts.
unfoldable pub stringify_pair : String → String → String
unfolding escape_all
stringify_pair a b = "[\"" +ˢ escape_all a +ˢ "\",\"" +ˢ escape_all b +ˢ "\"]"

-- `\s`: the white space and the line terminators of the language, which `trim` removes too.
unfoldable pub is_space : ℕ → Bool
is_space c =
    (leb 9 c && leb c 13)
    || c == 0x20
    || c == 0xa0
    || c == 0x1680
    || (leb 0x2000 c && leb c 0x200a)
    || c == 0x2028
    || c == 0x2029
    || c == 0x202f
    || c == 0x205f
    || c == 0x3000
    || c == 0xfeff

unfoldable pub trim_start : String → String
trim_start [] = []
trim_start (c ∷ s) = let rest = trim_start s in if is_space (code c) then rest else c ∷ s

unfoldable pub trim_end : String → String
trim_end [] = []
trim_end (c ∷ s) =
    if is_space (code c) && not (has_char (λ d. not (is_space d)) s) then [] else c ∷ trim_end s

unfoldable pub trim : String → String
unfolding trim_start trim_end is_space has_char
trim s = trim_end (trim_start s)

abbrev pub codes : String → List ℕ
codes [] = List.[]
codes (c ∷ s) = List.◌∷◌ (code c) (codes s)

-- `toLowerCase`, on code points. Only the letters whose lower case is ASCII are mapped: A to Z and
-- the Kelvin sign. Whether the result equals a given ASCII text is not affected by the others.
abbrev pub lower : ℕ → ℕ
lower c = if leb b'A' c && leb c b'Z' then c + 32 else if c == 0x212a then b'k' else c

abbrev pub to_lower_case : String → List ℕ
to_lower_case [] = List.[]
to_lower_case (c ∷ s) = List.◌∷◌ (lower (code c)) (to_lower_case s)

-- `toUpperCase`, on code points: of the letters whose upper case is ASCII, which are a to z, the
-- dotless i and the long s.
abbrev pub upper : ℕ → ℕ
upper c =
    if leb b'a' c && leb c b'z'
    then c - 32
    else if c == 0x131
    then b'I'
    else if c == 0x17f
    then b'S'
    else c

abbrev pub to_upper_case : String → List ℕ
to_upper_case [] = List.[]
to_upper_case (c ∷ s) = List.◌∷◌ (upper (code c)) (to_upper_case s)

abbrev pub equal_codes : List ℕ → List ℕ → Bool
equal_codes List.[] List.[] = true
equal_codes (List.◌∷◌ c s) (List.◌∷◌ d t) = c == d && equal_codes s t
equal_codes _ _ = false

abbrev pub starts_with_codes : List ℕ → List ℕ → Bool
starts_with_codes s List.[] = true
starts_with_codes List.[] (List.◌∷◌ d t) = false
starts_with_codes (List.◌∷◌ c s) (List.◌∷◌ d t) = c == d && starts_with_codes s t

-- `s.includes(t)`
unfoldable pub includes_codes : List ℕ → List ℕ → Bool
includes_codes List.[] t = starts_with_codes List.[] t
includes_codes (List.◌∷◌ c s) t = starts_with_codes (List.◌∷◌ c s) t || includes_codes s t

-- `xs.join(', ')`
unfoldable pub join : List String → String
join List.[] = ""
join (List.◌∷◌ x List.[]) = x
join (List.◌∷◌ x (List.◌∷◌ y ys)) = x +ˢ ", " +ˢ join (List.◌∷◌ y ys)

-- A character before the first part.
abbrev pub prepend : Char → List String → List String
prepend c List.[] = List.◌∷◌ (c ∷ []) List.[]
prepend c (List.◌∷◌ s ss) = List.◌∷◌ (c ∷ s) ss

-- `s.split(d)`, for a text `d` of one character.
unfoldable pub split : ℕ → String → List String
split d [] = List.◌∷◌ "" List.[]
split d (c ∷ s) = let rest = split d s in if code c == d then List.◌∷◌ "" rest else prepend c rest

-- `s.replace(/\s+/g, '')`
unfoldable pub strip_spaces : String → String
unfolding is_space
strip_spaces [] = []
strip_spaces (c ∷ s) = if is_space (code c) then strip_spaces s else c ∷ strip_spaces s
