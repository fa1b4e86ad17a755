-- ===== src/Common/Result.antt =====
-- Go's results: an error is its message, and `(T, error)` is a value or an error.
use Prim.Native.String.{String}
use mathlib.Core.Path.{◌≡◌, refl}
use mathlib.Core.Logic.{◌⊎◌, inl, inr}

-- The text that `err.Error()` returns.
abbrev pub Error : Type 0
Error = String

pub data Result {ℓ} (A : Type ℓ) : Type ℓ where
  ok : A → Result A
  err : Error → Result A

infixl 5 ◌>>=◌
abbrev pub ◌>>=◌ {ℓ κ} : {A : Type ℓ} {B : Type κ} → Result A → (A → Result B) → Result B
ok a >>= f = f a
err e >>= f = err e

-- `v, _ := f()`: the error is dropped, and `zero` is what `f` returns beside it.
abbrev pub value_or {ℓ} : {A : Type ℓ} → A → Result A → A
value_or zero (ok a) = a
value_or zero (err e) = zero

-- `if err != nil { return fmt.Errorf("...: %s", err) }`
abbrev pub wrap {ℓ} : {A : Type ℓ} → (Error → Error) → Result A → Result A
wrap f (ok a) = ok a
wrap f (err e) = err (f e)

pub Result-cases {ℓ} :
    {A : Type ℓ} (r : Result A) → ((a : A) × (r ≡ ok a)) ⊎ ((e : Error) × (r ≡ err e))
Result-cases (ok a) = inl (a, refl)
Result-cases (err e) = inr (e, refl)
