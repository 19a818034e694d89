-- ===== src/Server/Challenge/Quoted.antt =====
-- The values of a challenge's parameters, read back: none of them ends its quoted string early.
use vcknots.Common.{
  Bool, Option, String, ap, arith, false, if◌then◌else◌, none, some, true, ◌+ˢ◌, ◌==◌, ◌||◌, ◌≡◌,
}
use Prim.Native.Char.{Char, code}
use Prim.Native.String.append
use vcknots.Server.Challenge.{escape_quoted}

-- A quoted string, from behind its first quote on, and what follows it. A backslash stands before a
-- character that is taken as it is; a line break is not allowed.
abbrev pub cons_first : Char → Option (String × String) → Option (String × String)
cons_first c none = none
cons_first c (some (text, rest)) = some (String.◌∷◌ c text, rest)

unfoldable pub read_quoted : Bool → String → Option (String × String)
read_quoted escaped String.[] = none
read_quoted true (String.◌∷◌ c s) = cons_first c (read_quoted false s)
read_quoted false (String.◌∷◌ c s) =
    let plain = cons_first c (read_quoted false s) in
    let next = read_quoted true s in
    if code c == b'"'
    then some ("", s)
    else if code c == b'\\'
    then next
    else if code c == 10 || code c == 13
    then none
    else plain

-- The text with each run of line breaks as one space.
unfoldable pub unbroken : Bool → String → String
unbroken broken String.[] = ""
unbroken broken (String.◌∷◌ c s) =
    let is_break = code c == 10 || code c == 13 in
    let rest = unbroken is_break s in
    if is_break then (if broken then rest else String.◌∷◌ " " rest) else String.◌∷◌ c rest

-- The value of a parameter is read back up to its line breaks, and what follows the parameter is what
-- was written after it.
pub escape_quoted-read_quoted :
    (broken : Bool) (value rest : String)
    → read_quoted false (escape_quoted broken value +ˢ String.◌∷◌ "\"" rest)
      ≡ some (unbroken broken value, rest)
unfolding read_quoted escape_quoted unbroken
escape_quoted-read_quoted broken String.[] rest =
    ap (read_quoted false) (append.nil (String.◌∷◌ "\"" rest))
escape_quoted-read_quoted broken (String.◌∷◌ c s) rest =
    let is_break = code c == 10 || code c == 13 in
    let tail = String.◌∷◌ "\"" rest in
    let escaped = escape_quoted is_break s in
    ground (
      arith,
      escape_quoted-read_quoted is_break s rest,
      append.cons " " escaped tail,
      append.cons c escaped tail,
      append.cons "\\" (String.◌∷◌ c escaped) tail,
    )
