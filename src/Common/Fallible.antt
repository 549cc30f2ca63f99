-- ===== src/Common/Fallible.antt =====
-- What a method gives: its value, or the exception that it raises. A method runs in one database
-- transaction, so a raise leaves the stored state as it was: the new state is part of the value.
use mathlib.Core.Path.{◌≡◌, refl}
use mathlib.Core.Logic.{◌⊎◌, inl, inr}
use mathlib.Core.Bool.{Bool, true, false}
use mathlib.Core.Option.{Option, none, some}

pub data Result {ℓ} (Failure : Type 0) (Value : Type ℓ) : Type ℓ where
  err : Failure → Result Failure Value
  ok : Value → Result Failure Value

-- `if test: raise e`
abbrev pub raise_if : {F : Type 0} → Bool → F → Result F (Unit {0})
raise_if false failure = ok tt
raise_if true failure = err failure

-- `objects.get(…)`: a missing row raises.
abbrev pub or_raise {ℓ} : {F : Type 0} {V : Type ℓ} → Option V → F → Result F V
or_raise none failure = err failure
or_raise (some value) failure = ok value

-- A callee's exceptions among the caller's.
abbrev pub map_err {ℓ} : {F G : Type 0} {V : Type ℓ} → (F → G) → Result F V → Result G V
map_err wrap (err failure) = err (wrap failure)
map_err wrap (ok value) = ok value

pub Result-cases {ℓ} :
    {F : Type 0} {V : Type ℓ} (r : Result F V)
    → ((v : V) × (r ≡ ok v)) ⊎ ((failure : F) × (r ≡ err failure))
Result-cases (err failure) = inr (failure, refl)
Result-cases (ok v) = inl (v, refl)

-- The next statement of a block runs where the one before has not raised.
infixl 5 ◌>>=◌ ◌>>◌
abbrev pub ◌>>◌ {ℓ} : {F : Type 0} {V : Type ℓ} → Result F (Unit {0}) → Result F V → Result F V
err failure >> next = err failure
ok done >> next = next

abbrev pub ◌>>=◌ {ℓ κ} :
    {F : Type 0} {V : Type ℓ} {W : Type κ} → Result F V → (V → Result F W) → Result F W
err failure >>= next = err failure
ok value >>= next = next value
