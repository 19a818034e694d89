-- ===== src/Providers/Pem/Lines.antt =====
-- What a certificate in PEM form keeps of its text, and how long its lines are.
use vcknots.Common.{
  Bool, Bool-cases, String, ap, arith, code, eq_iff, if◌then◌else◌, inl, inr, is_space, leb, refl,
  strip_spaces, sym, true, ℕ, ◌&&◌, ◌+◌, ◌-◌, ◌==◌, ◌=ˢ◌, ◌∙◌, ◌≡◌, ◌≢◌, ◌≤◌,
}
use vcknots.Providers.Pem.{wrap, pem_body}

abbrev is_newline : ℕ → Bool
is_newline c = c == 10

-- How long the first line is that starts after `start` characters, and whether each line of a text is
-- at most `bound` long.
abbrev pub lines_fit : ℕ → ℕ → String → Bool
lines_fit bound start String.[] = leb start bound
lines_fit bound start (String.◌∷◌ c s) =
    leb start bound && lines_fit bound (if code c == 10 then 0 else start + 1) s

strip-wrap : (left : ℕ) (s : String) → strip_spaces (wrap left (strip_spaces s)) ≡ strip_spaces s
unfolding strip_spaces wrap
strip-wrap left String.[] = refl
strip-wrap left (String.◌∷◌ c s) =
    ground (arith, strip-wrap (left - 1) s, strip-wrap 63 s, strip-wrap left s)

wrap-lines :
    (left : ℕ) (s : String)
    → left ≤ 64
    → lines_fit 64 (64 - left) (wrap left (strip_spaces s)) ≡ true
unfolding strip_spaces wrap is_space
wrap-lines left String.[] le = ground (arith)
wrap-lines left (String.◌∷◌ c s) le =
    ground (arith, wrap-lines (left - 1) s, wrap-lines 63 s, wrap-lines left s)

wrap-empty : (s : String) → wrap 64 (strip_spaces s) ≡ "" → strip_spaces s ≡ ""
unfolding strip_spaces
wrap-empty s e = sym (strip-wrap 64 s) ∙ ap strip_spaces e

pem_body-wrap : (s : String) → strip_spaces s ≢ "" → pem_body s ≡ wrap 64 (strip_spaces s)
unfolding pem_body
pem_body-wrap s h = elim (Bool-cases (wrap 64 (strip_spaces s) =ˢ "")) [
  | inl e ↦ elim (h (wrap-empty s ((eq_iff _ _).0 e))) [ ]
  | inr e ↦ rw e refl
]

-- The text of a certificate with something beside white space: up to white space its PEM body is the
-- text, and no line of the body is longer than 64 characters.
pub pem_body-lines :
    (der_base64 : String)
    → strip_spaces der_base64 ≢ ""
    → (strip_spaces (pem_body der_base64) ≡ strip_spaces der_base64)
      × (lines_fit 64 0 (pem_body der_base64) ≡ true)
pem_body-lines s h = (
  ap strip_spaces (pem_body-wrap s h) ∙ strip-wrap 64 s,
  ap (lines_fit 64 0) (pem_body-wrap s h) ∙ wrap-lines 64 s (omega arith),
)
