-- ===== src/Flow.antt =====
-- The flows as a monad of state and exceptions, over any state: what was written before an exception
-- stays written. Each `await` is a step of the monad.
pub mod Laws
use vcknots.Common.{Bool, Option, String, false, none, some, true}
use vcknots.Errors.{Result, ok, err, ErrorCodes, vcknots_error}

-- An operation on a state `S`, with a result in `A`.
abbrev pub Flow : Type 0 → Type 0 → Type 0
Flow S A = S → Result A × S

module _ {S : Type 0} where
  abbrev pub pure : {A : Type 0} → A → Flow S A
  pure a s = (ok a, s)

  abbrev pub throw : {A : Type 0} → ErrorCodes → String → Flow S A
  throw code message s = (err (vcknots_error code message), s)

  abbrev pub and_then : {A B : Type 0} → Result A × S → (A → Flow S B) → Result B × S
  and_then (ok a, s) f = f a s
  and_then (err e, s) f = (err e, s)

  infixl 5 ◌>>=◌ ◌>>◌
  abbrev pub ◌>>=◌ : {A B : Type 0} → Flow S A → (A → Flow S B) → Flow S B
  ◌>>=◌ m f s = and_then (m s) f

  abbrev pub ◌>>◌ : {B : Type 0} → Flow S (Unit {0}) → Flow S B → Flow S B
  m >> k = m >>= λ _. k

  abbrev pub guard : Bool → ErrorCodes → String → Flow S (Unit {0})
  guard true code message = pure tt
  guard false code message = throw code message

  abbrev pub or_throw : {A : Type 0} → Option A → ErrorCodes → String → Flow S A
  or_throw (some a) code message = pure a
  or_throw none code message = throw code message

  abbrev pub lift : {A : Type 0} → Result A → Flow S A
  lift r s = (r, s)
