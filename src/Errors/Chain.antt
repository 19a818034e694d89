-- ===== src/Errors/Chain.antt =====
-- Chains of results: code that may throw and keeps no state.
use vcknots.Common.{Bool, Option, String, false, none, refl, some, true, ◌≡◌}
use vcknots.Errors.{Result, ok, err, ErrorCodes, raise}

infixl 5 ◌>>=◌ ◌>>◌
abbrev pub and_then : {A B : Type 0} → Result A → (A → Result B) → Result B
and_then (ok a) f = f a
and_then (err e) f = err e

abbrev pub ◌>>=◌ : {A B : Type 0} → Result A → (A → Result B) → Result B
m >>= f = and_then m f

abbrev pub ◌>>◌ : {B : Type 0} → Result (Unit {0}) → Result B → Result B
m >> k = m >>= λ _. k

abbrev pub guard : Bool → ErrorCodes → String → Result (Unit {0})
guard true code message = ok tt
guard false code message = raise code message

abbrev pub require : {A : Type 0} → Option A → ErrorCodes → String → Result A
require (some a) code message = ok a
require none code message = raise code message

pub and_then-ok :
    {A B : Type 0} (m : Result A) (f : A → Result B) {b : B}
    → and_then m f ≡ ok b
    → (a : A) × (m ≡ ok a) × (f a ≡ ok b)
and_then-ok (ok a) f h = (a, refl, h)
and_then-ok (err e) f h = cc

pub guard-ok :
    (b : Bool) (code : ErrorCodes) (message : String) {u : Unit {0}}
    → guard b code message ≡ ok u
    → b ≡ true
guard-ok true code message h = refl
guard-ok false code message h = cc

pub require-ok :
    {A : Type 0} (o : Option A) (code : ErrorCodes) (message : String) {a : A}
    → require o code message ≡ ok a
    → o ≡ some a
require-ok (some a) code message h = cc
require-ok none code message h = cc
