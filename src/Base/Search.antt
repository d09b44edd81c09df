-- ===== src/Base/Search.antt =====
-- Where a search in a byte string finds its pattern.
use Prim.Native.Nat.{ℕ, ◌+◌, ◌≤◌}
use mathlib.Core.Path.{◌≡◌, refl}
use mathlib.Core.Logic.{◌≢◌, inl, inr}
use mathlib.Core.Bool.{true}
use mathlib.Core.List.{[], ◌∷◌, ◌++◌}
use mathlib.Core.Option.{some}
use native.Mathlib.Omega.{arith}
use sms_relay.Base.Lists.{length}
use sms_relay.Base.Numbers.{Bytes}
use sms_relay.Base.Tests.{Bool-cases, Option-cases}
use sms_relay.Base.Text.{starts_with, find}

pub starts_with-length : (s p : Bytes) → starts_with s p ≡ true → length p ≤ length s
unfolding starts_with
starts_with-length s [] h = omega arith
starts_with-length [] (y ∷ p) h = cc
starts_with-length (x ∷ s) (y ∷ p) h = ground (arith, starts_with-length s p)

-- A test that the string is long enough for does not see what is appended.
pub starts_with-grow :
    (s t p : Bytes) → length p ≤ length s → starts_with (s ++ t) p ≡ starts_with s p
unfolding starts_with
starts_with-grow s t [] h = refl
starts_with-grow [] t (y ∷ p) h = absurd (omega arith)
starts_with-grow (x ∷ s) t (y ∷ p) h = ground (arith, starts_with-grow s t p)

pub find-inside : (p s : Bytes) (k : ℕ) → find p s ≡ some k → k + length p ≤ length s
unfolding find
find-inside p [] k h = ground (arith, starts_with-length [] p)
find-inside p (x ∷ s) k h = elim (Bool-cases (starts_with (x ∷ s) p)) [
  | inl e ↦ ground (arith, starts_with-length (x ∷ s) p e)
  | inr e ↦ elim (Option-cases (find p s)) [
    | inl m ↦ ground (arith, e, m)
    | inr (j, m) ↦ ground (arith, e, m, find-inside p s j m)
  ]
]

-- A pattern found in `s` is found at the same place when `s` grows at the end.
pub find-grow : (p s t : Bytes) (k : ℕ) → p ≢ [] → find p s ≡ some k → find p (s ++ t) ≡ some k
unfolding find
find-grow [] s t k ne h = absurd (ne refl)
find-grow (y ∷ p) [] t k ne h = cc
find-grow (y ∷ p) (x ∷ s) t k ne h = elim (Option-cases (find (y ∷ p) s)) [
  | inl m ↦ ground (arith, m, find-inside (y ∷ p) (x ∷ s) k h, starts_with-grow (x ∷ s) t (y ∷ p))
  | inr (j, m) ↦ ground (
    arith,
    m,
    find-inside (y ∷ p) (x ∷ s) k h,
    starts_with-grow (x ∷ s) t (y ∷ p),
    find-grow (y ∷ p) s t j ne m,
  )
]
