-- ===== src/Common/Map.antt =====
-- A JavaScript `Map` with text keys, in insertion order.
use Prim.Native.String.{String}
use mathlib.Core.Path.{◌≡◌, refl}
use mathlib.Core.Logic.{◌≢◌}
use mathlib.Core.Bool.{Bool, false}
use mathlib.Core.Option.{Option, none, some}
use mathlib.Core.List.{List, [], ◌∷◌}
use native.Mathlib.Omega.{arith}
use text.Mathlib.TextEquality.{eq_iff}
use vcknots.Common.Tests.{◌=ˢ◌, if◌then◌else◌, is_some}

abbrev pub Map {ℓ} : Type ℓ → Type ℓ
Map V = List (String × V)

module _ {ℓ} {V : Type ℓ} where
  unfoldable pub get : String → Map V → Option V
  get k [] = none
  get k ((j, v) ∷ m) = if j =ˢ k then some v else get k m

  -- `has`
  abbrev pub has : String → Map V → Bool
  has k m = is_some (get k m)

  -- `set`: a key that is there keeps its place.
  unfoldable pub set : String → V → Map V → Map V
  set k v [] = (k, v) ∷ []
  set k v ((j, w) ∷ m) = if j =ˢ k then (k, v) ∷ m else (j, w) ∷ set k v m

  -- `delete`, without its result, which is `has`.
  unfoldable pub delete : String → Map V → Map V
  delete k [] = []
  delete k ((j, w) ∷ m) = let rest = delete k m in if j =ˢ k then rest else (j, w) ∷ rest

  -- The loop that deletes every entry whose value passes a test.
  unfoldable pub delete_if : (V → Bool) → Map V → Map V
  delete_if p [] = []
  delete_if p ((j, w) ∷ m) = let rest = delete_if p m in if p w then rest else (j, w) ∷ rest

  abbrev pub unless : (V → Bool) → Option V → Option V
  unless p none = none
  unless p (some v) = if p v then none else some v

  -- No key is there twice: what a `Map` is.
  abbrev pub IsMap : Map V → Type 0
  IsMap [] = Unit {0}
  IsMap ((k, v) ∷ m) = (has k m ≡ false) × IsMap m

  pub get-set :
      (k j : String) (v : V) (m : Map V) → get j (set k v m) ≡ (if k =ˢ j then some v else get j m)
  unfolding get set
  get-set k j v [] = refl
  get-set k j v ((i, w) ∷ m) = ground (arith, eq_iff k j, eq_iff i k, eq_iff i j, get-set k j v m)

  pub get-delete :
      (k j : String) (m : Map V) → get j (delete k m) ≡ (if k =ˢ j then none else get j m)
  unfolding get delete
  get-delete k j [] = ground (arith, eq_iff k j)
  get-delete k j ((i, w) ∷ m) = ground (arith, eq_iff k j, eq_iff i k, eq_iff i j, get-delete k j m)

  -- Deleting by a test keeps what fails the test, if no key is there twice.
  pub get-delete_same : (k : String) (m : Map V) → get k (delete k m) ≡ none
  get-delete_same k m = ground (arith, get-delete k k m, eq_iff k k)

  pub get-delete_if :
      (p : V → Bool) (j : String) (m : Map V) → IsMap m → get j (delete_if p m) ≡ unless p (get j m)
  unfolding get delete_if
  get-delete_if p j [] h = refl
  get-delete_if p j ((i, w) ∷ m) h = ground (arith, eq_iff i j, get-delete_if p j m h.1)

  has-set : (k j : String) (v : V) (m : Map V) → j ≢ k → has j (set k v m) ≡ has j m
  has-set k j v m ne = ground (arith, get-set k j v m, eq_iff k j)

  pub set-IsMap : (k : String) (v : V) (m : Map V) → IsMap m → IsMap (set k v m)
  unfolding set get
  set-IsMap k v [] h = (refl, tt)
  set-IsMap k v ((i, w) ∷ m) h = ground (arith, eq_iff i k, set-IsMap k v m h.1, has-set k i v m)

  pub delete-IsMap : (k : String) (m : Map V) → IsMap m → IsMap (delete k m)
  unfolding delete
  delete-IsMap k [] h = tt
  delete-IsMap k ((i, w) ∷ m) h = ground (arith, eq_iff i k, delete-IsMap k m h.1, get-delete k i m)

  pub delete_if-IsMap : (p : V → Bool) (m : Map V) → IsMap m → IsMap (delete_if p m)
  unfolding delete_if
  delete_if-IsMap p [] h = tt
  delete_if-IsMap p ((i, w) ∷ m) h =
      ground (arith, delete_if-IsMap p m h.1, get-delete_if p i m h.1)
