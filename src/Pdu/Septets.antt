-- ===== src/Pdu/Septets.antt =====
-- Seven-bit characters packed into bytes (src/common/pdu/pdu.cpp).
pub mod Octets
pub mod Loops
pub mod RoundTrip
use sms_relay.Base.{
  ℕ, ◌+◌, ◌-◌, ◌*◌, ◌/◌, ◌^◌, bit_and, bit_or, Bool, true, false, not, ◌&&◌, [], ◌∷◌, ◌++◌, Bytes,
  length, leb, ◌==◌, if◌then◌else◌,
}

-- `((septet << (7 - shift)) & 0xFF) | (prev_septet >> shift)`
unfoldable pub pack_octet : ℕ → ℕ → ℕ → ℕ
pack_octet shift septet prev = bit_or (bit_and (septet * 2 ^ (7 - shift)) 0xFF) (prev / 2 ^ shift)

-- The loop of `septets_pack` from some septet on, and what follows the loop.
unfoldable pub pack_loop : ℕ → ℕ → Bytes → Bytes
pack_loop shift prev [] = if not (shift == 7) then (prev / 2 ^ shift) ∷ [] else []
pack_loop shift prev (s ∷ septets) = elim (shift == 7) [
  | true ↦ pack_loop 0 (bit_and s 0x7F) septets
  | false ↦ pack_octet shift (bit_and s 0x7F) prev ∷ pack_loop (shift + 1) (bit_and s 0x7F) septets
]

unfoldable pub septets_pack : Bytes → ℕ → Bytes
septets_pack [] pad_bits = []
septets_pack (s ∷ septets) pad_bits =
    if pad_bits == 0 then pack_loop 0 s septets else pack_loop pad_bits 0 (s ∷ septets)

-- `((octet << shift) & 0x7F) | (prev_octet >> (8 - shift))`
unfoldable pub unpack_septet : ℕ → ℕ → ℕ → ℕ
unpack_septet shift octet prev = bit_or (bit_and (octet * 2 ^ shift) 0x7F) (prev / 2 ^ (8 - shift))

-- What follows the loop of `septets_unpack`.
unfoldable pub unpack_end : ℕ → ℕ → Bytes
unpack_end shift prev =
    if shift == 7 && not (prev == 0)
    then (if prev / 2 ^ (8 - shift) == 0 then [] else (prev / 2 ^ (8 - shift)) ∷ [])
    else []

-- The loop of `septets_unpack`. `count` counts octets, and is compared with a number of septets.
unfoldable pub unpack_loop : ℕ → ℕ → ℕ → ℕ → Bytes → Bytes
unpack_loop num count shift prev [] = unpack_end shift prev
unpack_loop num count shift prev (octet ∷ packed) = elim (leb num count) [
  | true ↦ unpack_end shift prev
  | false ↦ elim (shift == 7) [
    | true ↦
        (if prev == 0 then [] else (prev / 2) ∷ [])
        ++ (bit_and octet 0x7F ∷ elim (count + 1 == num) [
          | true ↦ unpack_end 1 octet
          | false ↦ unpack_loop num (count + 1) 1 octet packed
        ])
    | false ↦ unpack_septet shift octet prev ∷ elim (count + 1 == num) [
      | true ↦ unpack_end (shift + 1) octet
      | false ↦ unpack_loop num (count + 1) (shift + 1) octet packed
    ]
  ]
]

-- `prev_octet` and `shift` have their defaults, as in every call.
unfoldable pub septets_unpack : Bytes → ℕ → Bytes
septets_unpack packed num_septets =
    unpack_loop (if num_septets == 0 then length packed * 8 / 7 + 1 else num_septets) 0 7 0 packed
