-- ===== src/Base/Results.antt =====
-- Fallible code: a result with an error type of the component's own.
use mathlib.Core.Bool.{Bool, true, false}
use mathlib.Core.Path.{◌≡◌, refl}

pub data Result {κ ℓ} (Failure : Type κ) (Value : Type ℓ) : Type (κ ⊔ ℓ) where
  err : Failure → Result Failure Value
  ok : Value → Result Failure Value

infixl 5 ◌>>=◌ ◌>>◌
-- The `?` operator: an error is the result of the whole.
abbrev pub ◌>>=◌ {κ ℓ μ} :
    {Failure : Type κ} {Value : Type ℓ} {Next : Type μ}
    → Result Failure Value
    → (Value → Result Failure Next)
    → Result Failure Next
err failure >>= next = err failure
ok value >>= next = next value

abbrev pub ◌>>◌ {κ ℓ} :
    {Failure : Type κ} {Next : Type ℓ}
    → Result Failure (Unit {0})
    → Result Failure Next
    → Result Failure Next
check >> next = check >>= λ done. next

-- `if !test { return Err(failure) }`.
abbrev pub ensure {κ} : {Failure : Type κ} → Bool → Failure → Result Failure (Unit {0})
ensure false failure = err failure
ensure true failure = ok tt

pub >>=-eq-ok {κ ℓ μ} :
    {Failure : Type κ} {Value : Type ℓ} {Next : Type μ} (m : Result Failure Value)
    (next : Value → Result Failure Next) {last : Next}
    → (m >>= next) ≡ ok last
    → (value : Value) × (m ≡ ok value) × (next value ≡ ok last)
>>=-eq-ok (err failure) next e = cc
>>=-eq-ok (ok value) next e = (value, refl, e)
