-- ===== src/Flow/Laws.antt =====
-- Taking an operation apart that has succeeded.
use vcknots.Common.{
  Bool, Option, String, ap, false, inl, inr, none, refl, some, true, ◌∙◌, ◌≡◌, ◌⊎◌,
}
use vcknots.Errors.{Result, ok, err, ErrorCodes, Thrown}
use vcknots.Flow.{Flow, and_then, or_throw, guard, lift, pure}

module _ {S : Type 0} where
  pub and_then-ok :
      {A B : Type 0} (o : Result A × S) (f : A → Flow S B) {b : B} {s' : S}
      → and_then o f ≡ (ok b, s')
      → (a : A) × (t : S) × (o ≡ (ok a, t)) × (f a t ≡ (ok b, s'))
  and_then-ok (ok a, t) f h = (a, t, refl, h)
  and_then-ok (err e, t) f h = cc

  -- The first step of an operation, done.
  pub and_then-step :
      {A B : Type 0} (o : Result A × S) (f : A → Flow S B) {a : A} {t : S}
      → o ≡ (ok a, t)
      → and_then o f ≡ f a t
  and_then-step o f e = ap (λ r. and_then r f) e

  -- Where an operation has failed, its first step or what follows it has.
  pub and_then-err :
      {A B : Type 0} (o : Result A × S) (f : A → Flow S B) {e : Thrown} {s' : S}
      → and_then o f ≡ (err e, s')
      → (o ≡ (err e, s')) ⊎ ((a : A) × (t : S) × (o ≡ (ok a, t)) × (f a t ≡ (err e, s')))
  and_then-err (ok a, t) f h = inr (a, t, refl, h)
  and_then-err (err e, t) f h = inl (cc h)

  pub or_throw-ok :
      {A : Type 0} (o : Option A) (code : ErrorCodes) (message : String) (s : S) {a : A} {t : S}
      → or_throw o code message s ≡ (ok a, t)
      → (o ≡ some a) × (s ≡ t)
  or_throw-ok (some a) code message s h = (cc, cc)
  or_throw-ok none code message s h = cc

  pub guard-ok :
      (b : Bool) (code : ErrorCodes) (message : String) (s : S) {u : Unit {0}} {t : S}
      → guard b code message s ≡ (ok u, t)
      → (b ≡ true) × (s ≡ t)
  guard-ok true code message s h = (refl, cc)
  guard-ok false code message s h = cc

  pub pure-ok :
      {A : Type 0} (a : A) (s : S) {b : A} {t : S} → pure a s ≡ (ok b, t) → (a ≡ b) × (s ≡ t)
  pure-ok a s h = (cc, cc)

  pub lift-ok :
      {A : Type 0} (r : Result A) (s : S) {a : A} {t : S}
      → lift r s ≡ (ok a, t)
      → (r ≡ ok a) × (s ≡ t)
  lift-ok r s h = (cc, cc)

-- A part of the state that the steps of an operation keep, the operation keeps.
module _ {S X : Type 0} (part : S → X) where
  pub and_then-keeps :
      {A B : Type 0} (o : Result A × S) (f : A → Flow S B) (s : S)
      → part o.1 ≡ part s
      → ((a : A) (t : S) → part (f a t).1 ≡ part t)
      → part (and_then o f).1 ≡ part s
  and_then-keeps (ok a, t) f s first rest = rest a t ∙ first
  and_then-keeps (err e, t) f s first rest = first

  pub guard-keeps :
      (b : Bool) (code : ErrorCodes) (message : String) (s : S)
      → part (guard b code message s).1 ≡ part s
  guard-keeps true code message s = refl
  guard-keeps false code message s = refl

  pub or_throw-keeps :
      {A : Type 0} (o : Option A) (code : ErrorCodes) (message : String) (s : S)
      → part (or_throw o code message s).1 ≡ part s
  or_throw-keeps (some a) code message s = refl
  or_throw-keeps none code message s = refl
