-- ===== src/Base/Result.antt =====
-- The outcome of C++ code that may throw or read out of bounds.
use mathlib.Core.Path.{◌≡◌, refl}
use mathlib.Core.Logic.{◌⊎◌, inl, inr}

-- `invalid_argument` is `std::invalid_argument`; `bad_number` is what `std::stoi` throws; `fault`
-- is undefined behaviour, such as a read past the end of a vector.
pub data Error : Type 0 where
  invalid_argument runtime_error bad_number fault : Error

pub data Result {ℓ} (T : Type ℓ) : Type ℓ where
  err : Error → Result T
  ok : T → Result T

infixl 5 ◌>>=◌
abbrev pub ◌>>=◌ {ℓ κ} : {T : Type ℓ} {U : Type κ} → Result T → (T → Result U) → Result U
err problem >>= next = err problem
ok value >>= next = next value

-- To split on an outcome and keep the equation.
pub Result-cases {ℓ} :
    {T : Type ℓ} (r : Result T) → ((e : Error) × (r ≡ err e)) ⊎ ((t : T) × (r ≡ ok t))
Result-cases (err e) = inl (e, refl)
Result-cases (ok t) = inr (t, refl)
