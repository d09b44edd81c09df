-- ===== src/Pdu/Septets/Octets.antt =====
-- The arithmetic of one packed byte, at each of its seven shifts.
use sms_relay.Base.{
  ℕ, zero, suc, ◌+◌, ◌-◌, ◌*◌, ◌/◌, ◌%◌, ◌^◌, ◌<◌, bit_and, bit_or, ◌≡◌, ap, ◌∙◌, arith,
}
use sms_relay.Base.Bits.{bit_or_disjoint, bit_and_low}
use sms_relay.Pdu.Septets.{pack_octet, unpack_septet}

abbrev pub IsSeptet : ℕ → Type 0
IsSeptet s = s < 128

-- A field of `j` low bits under what a mask leaves of a shifted number.
masked :
    (w j x low high : ℕ)
    → x * 2 ^ j % 2 ^ w ≡ high * 2 ^ j
    → low < 2 ^ j
    → bit_or (bit_and (x * 2 ^ j) (2 ^ w - 1)) low ≡ high * 2 ^ j + low
masked w j x low high e h =
    ap (λ t. bit_or t low) (bit_and_low w (x * 2 ^ j) ∙ e) ∙ bit_or_disjoint j high low h

-- The byte as a sum: the low bits of the next septet above the high bits of this one.
pack_octet-sum :
    (shift x p : ℕ)
    → shift < 7
    → IsSeptet p
    → pack_octet shift x p ≡ x % 2 ^ (shift + 1) * 2 ^ (7 - shift) + p / 2 ^ shift
unfolding pack_octet
pack_octet-sum zero x p h hp = masked 8 7 x (p / 2 ^ 0) (x % 2 ^ 1) (omega arith) (omega arith)
pack_octet-sum (suc zero) x p h hp =
    masked 8 6 x (p / 2 ^ 1) (x % 2 ^ 2) (omega arith) (omega arith)
pack_octet-sum (suc (suc zero)) x p h hp =
    masked 8 5 x (p / 2 ^ 2) (x % 2 ^ 3) (omega arith) (omega arith)
pack_octet-sum (suc (suc (suc zero))) x p h hp =
    masked 8 4 x (p / 2 ^ 3) (x % 2 ^ 4) (omega arith) (omega arith)
pack_octet-sum (suc (suc (suc (suc zero)))) x p h hp =
    masked 8 3 x (p / 2 ^ 4) (x % 2 ^ 5) (omega arith) (omega arith)
pack_octet-sum (suc (suc (suc (suc (suc zero))))) x p h hp =
    masked 8 2 x (p / 2 ^ 5) (x % 2 ^ 6) (omega arith) (omega arith)
pack_octet-sum (suc (suc (suc (suc (suc (suc zero)))))) x p h hp =
    masked 8 1 x (p / 2 ^ 6) (x % 2 ^ 7) (omega arith) (omega arith)
pack_octet-sum (suc (suc (suc (suc (suc (suc (suc k))))))) x p h hp = absurd (omega arith)

-- Its low bits are the rest of this septet, and its high bits the beginning of the next.
pub pack_octet-low :
    (shift x p : ℕ)
    → shift < 7
    → IsSeptet p
    → pack_octet shift x p % 2 ^ (7 - shift) ≡ p / 2 ^ shift
pack_octet-low zero x p h hp = omega (arith, pack_octet-sum 0 x p h hp)
pack_octet-low (suc zero) x p h hp = omega (arith, pack_octet-sum 1 x p h hp)
pack_octet-low (suc (suc zero)) x p h hp = omega (arith, pack_octet-sum 2 x p h hp)
pack_octet-low (suc (suc (suc zero))) x p h hp = omega (arith, pack_octet-sum 3 x p h hp)
pack_octet-low (suc (suc (suc (suc zero)))) x p h hp = omega (arith, pack_octet-sum 4 x p h hp)
pack_octet-low (suc (suc (suc (suc (suc zero))))) x p h hp =
    omega (arith, pack_octet-sum 5 x p h hp)
pack_octet-low (suc (suc (suc (suc (suc (suc zero)))))) x p h hp =
    omega (arith, pack_octet-sum 6 x p h hp)
pack_octet-low (suc (suc (suc (suc (suc (suc (suc k))))))) x p h hp = absurd (omega arith)

pub pack_octet-carry :
    (shift x p : ℕ)
    → shift < 7
    → IsSeptet p
    → pack_octet shift x p / 2 ^ (7 - shift) ≡ x % 2 ^ (shift + 1)
pack_octet-carry zero x p h hp = omega (arith, pack_octet-sum 0 x p h hp)
pack_octet-carry (suc zero) x p h hp = omega (arith, pack_octet-sum 1 x p h hp)
pack_octet-carry (suc (suc zero)) x p h hp = omega (arith, pack_octet-sum 2 x p h hp)
pack_octet-carry (suc (suc (suc zero))) x p h hp = omega (arith, pack_octet-sum 3 x p h hp)
pack_octet-carry (suc (suc (suc (suc zero)))) x p h hp = omega (arith, pack_octet-sum 4 x p h hp)
pack_octet-carry (suc (suc (suc (suc (suc zero))))) x p h hp =
    omega (arith, pack_octet-sum 5 x p h hp)
pack_octet-carry (suc (suc (suc (suc (suc (suc zero)))))) x p h hp =
    omega (arith, pack_octet-sum 6 x p h hp)
pack_octet-carry (suc (suc (suc (suc (suc (suc (suc k))))))) x p h hp = absurd (omega arith)

-- The last byte holds the rest of the last septet alone.
pub last-low :
    (shift p : ℕ) → shift < 7 → IsSeptet p → p / 2 ^ shift % 2 ^ (7 - shift) ≡ p / 2 ^ shift
last-low zero p h hp = omega arith
last-low (suc zero) p h hp = omega arith
last-low (suc (suc zero)) p h hp = omega arith
last-low (suc (suc (suc zero))) p h hp = omega arith
last-low (suc (suc (suc (suc zero)))) p h hp = omega arith
last-low (suc (suc (suc (suc (suc zero))))) p h hp = omega arith
last-low (suc (suc (suc (suc (suc (suc zero)))))) p h hp = omega arith
last-low (suc (suc (suc (suc (suc (suc (suc k))))))) p h hp = absurd (omega arith)

-- A septet is put together again from the two bytes that share it.
pub unpack_septet-joins :
    (shift octet prev p : ℕ)
    → 0 < shift
    → shift < 7
    → IsSeptet p
    → octet % 2 ^ (7 - shift) ≡ p / 2 ^ shift
    → prev / 2 ^ (8 - shift) ≡ p % 2 ^ shift
    → unpack_septet shift octet prev ≡ p
unfolding unpack_septet
unpack_septet-joins zero octet prev p z h hp low carry = absurd (omega arith)
unpack_septet-joins (suc zero) octet prev p z h hp low carry =
    masked 7 1 octet (prev / 2 ^ 7) (p / 2 ^ 1) (omega arith) (omega arith) ∙ omega arith
unpack_septet-joins (suc (suc zero)) octet prev p z h hp low carry =
    masked 7 2 octet (prev / 2 ^ 6) (p / 2 ^ 2) (omega arith) (omega arith) ∙ omega arith
unpack_septet-joins (suc (suc (suc zero))) octet prev p z h hp low carry =
    masked 7 3 octet (prev / 2 ^ 5) (p / 2 ^ 3) (omega arith) (omega arith) ∙ omega arith
unpack_septet-joins (suc (suc (suc (suc zero)))) octet prev p z h hp low carry =
    masked 7 4 octet (prev / 2 ^ 4) (p / 2 ^ 4) (omega arith) (omega arith) ∙ omega arith
unpack_septet-joins (suc (suc (suc (suc (suc zero))))) octet prev p z h hp low carry =
    masked 7 5 octet (prev / 2 ^ 3) (p / 2 ^ 5) (omega arith) (omega arith) ∙ omega arith
unpack_septet-joins (suc (suc (suc (suc (suc (suc zero)))))) octet prev p z h hp low carry =
    masked 7 6 octet (prev / 2 ^ 2) (p / 2 ^ 6) (omega arith) (omega arith) ∙ omega arith
unpack_septet-joins (suc (suc (suc (suc (suc (suc (suc k))))))) octet prev p z h hp low carry =
    absurd (omega arith)
