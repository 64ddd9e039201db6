-- ===== src/Prelude/Results.antt =====
-- Exceptions as values: a call returns, or raises one of its module's errors.
use mathlib.Core.Path.{◌≡◌, refl}
use mathlib.Core.Logic.{◌⊎◌, inl, inr}
use mathlib.Core.Bool.{Bool, true, false}
use mathlib.Core.Option.{Option, none, some}

pub data Result {ℓ} (E : Type 0) (A : Type ℓ) : Type ℓ where
  ok : A → Result E A
  err : E → Result E A

-- `if test: raise e`
abbrev pub raise_if : {E : Type 0} → Bool → E → Result E (Unit {0})
raise_if true e = err e
raise_if false e = ok tt

-- `if o is None: raise e`
abbrev pub or_raise {ℓ} : {E : Type 0} {A : Type ℓ} → Option A → E → Result E A
or_raise none e = err e
or_raise (some a) e = ok a

-- The statement after a call: it runs when the call returned, on the value that it returned.
infixl 5 ◌>>=◌
abbrev pub ◌>>=◌ {ℓ κ} :
    {E : Type 0} {Value : Type ℓ} {Next : Type κ}
    → Result E Value
    → (Value → Result E Next)
    → Result E Next
err raised >>= next = err raised
ok value >>= next = next value

-- The same, after a call that returns None.
infixl 5 ◌>>◌
abbrev pub ◌>>◌ {ℓ} :
    {E : Type 0} {Next : Type ℓ} → Result E (Unit {0}) → Result E Next → Result E Next
err raised >> next = err raised
ok _ >> next = next

pub Result-cases {ℓ} :
    {E : Type 0} {A : Type ℓ} (r : Result E A) → ((a : A) × (r ≡ ok a)) ⊎ ((e : E) × (r ≡ err e))
Result-cases (ok a) = inl (a, refl)
Result-cases (err e) = inr (e, refl)
