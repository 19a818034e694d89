-- ===== src/Verifier/Query.antt =====
-- verifier.flows.ts: which presentations a DCQL query asks for.
use vcknots.Common.{
  Bool, List, Option, String, [], false, if◌then◌else◌, includes, none, or_else, some, true, ◌&&◌,
  ◌+ˢ◌, ◌=ˢ◌, ◌||◌, ◌∷◌,
}
use vcknots.Errors.{invalid_vp_token}
use vcknots.Flow.{Flow, pure, guard, ◌>>◌}
use vcknots.Verifier.Types.{PathElement, member_name, CredentialQuery, CredentialSet}

-- `credentialQueryMap.get(id)`: the last query with the identifier.
unfoldable pub format_of : String → List CredentialQuery → Option String
format_of id [] = none
format_of id (c ∷ credentials) = elim (format_of id credentials) [
  | some format ↦ some format
  | none ↦ if c.id =ˢ id then some c.format else none
]

-- `credentials.find((c) => c.id === id)`
unfoldable pub find_query : String → List CredentialQuery → Option CredentialQuery
find_query id [] = none
find_query id (c ∷ credentials) = if c.id =ˢ id then some c else find_query id credentials

-- The path as a text with dots, if it has names only.
unfoldable pub dotted : List PathElement → Option String
dotted [] = some ""
dotted (member_name k ∷ path) = elim path [
  | [] ↦ some k
  | _ ∷ _ ↦ elim (dotted path) [ none ↦ none | some rest ↦ some (k +ˢ "." +ˢ rest) ]
]
dotted (_ ∷ path) = none

unfoldable pub dotted_paths : List (List PathElement) → List String
unfolding dotted
dotted_paths [] = []
dotted_paths (path ∷ paths) = elim (dotted path) [
  | none ↦ dotted_paths paths
  | some text ↦ text ∷ dotted_paths paths
]

-- `specifiedDisclosures`
unfoldable pub specified_disclosures : String → List CredentialQuery → List String
unfolding dotted_paths find_query
specified_disclosures id credentials = elim (find_query id credentials) [
  | none ↦ []
  | some c ↦ dotted_paths (or_else c.claims [])
]

unfoldable pub has_all : List String → List String → Bool
has_all presented [] = true
has_all presented (id ∷ ids) = includes presented id && has_all presented ids

unfoldable pub has_some_option : List String → List (List String) → Bool
unfolding has_all
has_some_option presented [] = false
has_some_option presented (option ∷ options) =
    has_all presented option || has_some_option presented options

-- The check at the end of `verifyPresentations`, without `credential_sets`.
unfoldable pub check_credentials :
    {S : Type 0} → List String → List CredentialQuery → Flow S (Unit {0})
check_credentials presented [] = pure tt
check_credentials presented (c ∷ credentials) = do
  guard (includes presented c.id) invalid_vp_token
      ("Required credential query '" +ˢ c.id +ˢ "' was not included in the presentation.")
  check_credentials presented credentials

-- One of the `credential_sets`.
abbrev pub is_satisfied : List String → CredentialSet → Bool
is_satisfied presented set =
    if or_else set.required true then has_some_option presented set.options else true

module _ (stringify : List (List String) → String) where
  unfoldable pub check_sets : {S : Type 0} → List String → List CredentialSet → Flow S (Unit {0})
  unfolding has_some_option
  check_sets presented [] = pure tt
  check_sets presented (set ∷ sets) = do
    guard (is_satisfied presented set) invalid_vp_token (
        "No option of a required credential_set was fully presented. Options: "
        +ˢ stringify set.options)
    check_sets presented sets

  unfoldable pub check_presented :
      {S : Type 0}
      → List String
      → List CredentialQuery
      → Option (List CredentialSet)
      → Flow S (Unit {0})
  unfolding check_credentials check_sets
  check_presented presented credentials none = check_credentials presented credentials
  check_presented presented credentials (some sets) = check_sets presented sets
