-- ===== src/Headers/Parsed.antt =====
-- What the parsers of the headers accept.
use vcknots.Common.{refl, some, ◌≡◌}
use vcknots.Headers.{parsed, parse_authorization_header}
use vcknots.Headers.{parse_dpop_header, proof_jwt, duplicate, ParsedDpopHeader, bearer}

header_tests :
    (parse_authorization_header (some " Bearer  a.b.c ")
      ≡ parsed (record { scheme = bearer; token = "a.b.c" }))
    × (parse_dpop_header (some "a.b.c, d.e.f") ≡ duplicate)
    × (parse_dpop_header (some " a.b-_.c") ≡ proof_jwt "a.b-_.c")
    × (parse_dpop_header (some "a.b") ≡ ParsedDpopHeader.malformed)
    × (parse_dpop_header (some "a.b.c.d") ≡ ParsedDpopHeader.malformed)
    × (parse_dpop_header (some "a..c") ≡ ParsedDpopHeader.malformed)
unfolding parse_authorization_header parse_dpop_header
header_tests = (refl, refl, refl, refl, refl, refl)
