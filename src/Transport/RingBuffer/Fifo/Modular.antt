-- ===== src/Transport/RingBuffer/Fifo/Modular.antt =====
-- Steps round a ring of `m` places.
use native.Mathlib.Nat.{mod-add-mod, mod-eq_of_lt, mod-eq-sub-mod}
use native.Mathlib.Decide.{dec_lt}
use sms_relay.Base.{ℕ, suc, ◌+◌, ◌-◌, ◌%◌, ◌≤◌, ◌<◌, ◌≡◌, ◌≢◌, ap, ◌∙◌, arith}

-- Fewer than `m` steps do not lead back.
pub ahead-ne : (m i k : ℕ) → i < m → 0 < k → k < m → (i + k) % m ≢ i
ahead-ne m i k hi hk h = elim (dec_lt (i + k) m) [
  | yes p ↦ omega (arith, mod-eq_of_lt p)
  | no p ↦ omega (
    arith,
    mod-eq-sub-mod {n = i + k} {m = m} (omega arith),
    mod-eq_of_lt {n = i + k - m} {m = m} (omega arith),
  )
]

pub ahead_step : (m i k : ℕ) → ((i + 1) % m + k) % m ≡ (i + suc k) % m
ahead_step m i k = mod-add-mod (i + 1) m k ∙ ap (λ t. t % m) (omega arith)

-- The way round from `n` steps ahead back to the start.
pub full_turn : (m i n : ℕ) → i < m → n ≤ m → ((i + n) % m + (m - n)) % m ≡ i
full_turn m i n hi hn =
    mod-add-mod (i + n) m (m - n)
    ∙ mod-eq-sub-mod {n = i + n + (m - n)} {m = m} (omega arith)
    ∙ mod-eq_of_lt {n = i + n + (m - n) - m} {m = m} (omega arith)
    ∙ omega arith
