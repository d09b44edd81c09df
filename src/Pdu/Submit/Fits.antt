-- ===== src/Pdu/Submit/Fits.antt =====
-- The size of the user data that `encode_submit_pdu_internal` writes.
use sms_relay.Base.{
  ℕ, zero, suc, ◌+◌, ◌-◌, ◌*◌, ◌/◌, ◌≤◌, ◌≡◌, false, bit_and, List, [], ◌∷◌, Bytes, length, ◌++◌,
  ◌==◌, Bool-cases, inl, inr, arith,
}
use sms_relay.Base.Result.{ok}
use sms_relay.Pdu.Utf8.{utf8_to_codepoint, code_points_from, code_points}
use sms_relay.Pdu.Gsm7.{gsm7_encode}
use sms_relay.Pdu.Septets.{pack_loop, septets_pack}
use sms_relay.Pdu.Ucs2.{ucs2_units, ucs2_unit, ucs2_encode}
use sms_relay.Pdu.Submit.{Concat, single, part_of, header_octets, gsm7_data, ucs2_data, user_data}

length-pack_loop :
    (shift prev : ℕ) (septets : Bytes)
    → shift ≤ 7
    → length (pack_loop shift prev septets) ≡ (14 - shift + 7 * length septets) / 8
unfolding pack_loop
length-pack_loop shift prev [] h = ground arith
length-pack_loop shift prev (s ∷ septets) h = elim (Bool-cases (shift == 7)) [
  | inl e ↦ ground (arith, e, length-pack_loop 0 (bit_and s 0x7F) septets)
  | inr e ↦ ground (arith, e, length-pack_loop (shift + 1) (bit_and s 0x7F) septets)
]

length-septets_pack_whole :
    (septets : Bytes) → length (septets_pack septets 0) ≡ (7 + 7 * length septets) / 8
unfolding septets_pack
length-septets_pack_whole [] = omega arith
length-septets_pack_whole (s ∷ septets) = omega (arith, length-pack_loop 0 s septets)

length-septets_pack_padded :
    (septets : Bytes) → length (septets_pack septets 6) ≤ (8 + 7 * length septets) / 8
unfolding septets_pack
length-septets_pack_padded [] = omega arith
length-septets_pack_padded (s ∷ septets) = omega (arith, length-pack_loop 6 0 (s ∷ septets))

length-code_points_from :
    (skip : ℕ) (text : Bytes) → length (code_points_from skip text) ≤ length text
unfolding code_points_from
length-code_points_from skip [] = omega arith
length-code_points_from (suc skip) (c ∷ text) = omega (arith, length-code_points_from skip text)
length-code_points_from zero (c ∷ text) = grind (
  arith,
  length-code_points_from 0 text,
  length-code_points_from ((utf8_to_codepoint c text).1 - 1) text,
)

length-ucs2_units : (points : List ℕ) → length (ucs2_units points) ≡ 2 * length points
unfolding ucs2_units ucs2_unit
length-ucs2_units [] = omega arith
length-ucs2_units (p ∷ points) = omega (arith, length-ucs2_units points)

length-ucs2_encode : (text : Bytes) → length (ucs2_encode text) ≤ 2 * length text
unfolding ucs2_encode code_points
length-ucs2_encode text =
    omega (arith, length-ucs2_units (code_points text), length-code_points_from 0 text)

-- The room for the text: septets for GSM 7, bytes of UTF-8 otherwise.
abbrev pub room : Concat → ℕ → ℕ → ℕ
room single wide narrow = wide
room (part_of p) wide narrow = narrow

-- The user data of a message in GSM 7 of at most 160 septets, or 153 in one of several parts,
-- stays within 140 octets behind its length octet, and the length octet is the number of septets,
-- with seven more for the header of a part, without a wrap.
pub user_data-fits :
    (text : Bytes) (concat : Concat) (septets : Bytes)
    → gsm7_encode text false ≡ ok septets
    → length septets ≤ room concat 160 153
    → (content : Bytes) × (user_data text 0 concat
        ≡ ok ((length septets + room concat 0 7) ∷ content))
      × (length content ≤ 140)
unfolding user_data gsm7_data
user_data-fits text single septets e few =
    (septets_pack septets 0, ground (arith, e), omega (arith, length-septets_pack_whole septets))
user_data-fits text (part_of p) septets e few = (
  5 ∷ (header_octets p ++ septets_pack septets 6),
  ground (arith, e),
  omega (arith, length-septets_pack_padded septets),
)

-- The same in UCS-2, for a text of at most 70 bytes of UTF-8, or 67 in a part, with six octets more
-- for the header.
pub user_data-fits_wide :
    (text : Bytes) (concat : Concat)
    → length text ≤ room concat 70 67
    → (content : Bytes) × (user_data text 2 concat
        ≡ ok ((length (ucs2_encode text) + room concat 0 6) ∷ content))
      × (length content ≤ 140)
unfolding user_data ucs2_data
user_data-fits_wide text single few = (
  ucs2_encode text,
  ground (arith, length-ucs2_encode text),
  omega (arith, length-ucs2_encode text),
)
user_data-fits_wide text (part_of p) few = (
  header_octets p ++ ucs2_encode text,
  ground (arith, length-ucs2_encode text),
  omega (arith, length-ucs2_encode text),
)
