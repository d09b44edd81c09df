-- ===== src/Pdu/Ucs2.antt =====
-- UCS-2, big-endian (src/common/pdu/pdu.cpp).
pub mod RoundTrip
use sms_relay.Base.{
  ℕ, ◌+◌, ◌*◌, ◌/◌, ◌%◌, ◌^◌, bit_and, bit_or, List, [], ◌∷◌, ◌++◌, Bytes, ltb, if◌then◌else◌,
}
use sms_relay.Pdu.Utf8.{code_points}

-- One code point, cut to sixteen bits.
unfoldable pub ucs2_unit : ℕ → Bytes
ucs2_unit point = let value : ℕ = bit_and point 0xFFFF in (value / 2 ^ 8) ∷ bit_and value 0xFF ∷ []

unfoldable pub ucs2_units : List ℕ → Bytes
unfolding ucs2_unit
ucs2_units [] = []
ucs2_units (p ∷ points) = ucs2_unit p ++ ucs2_units points

unfoldable pub ucs2_encode : Bytes → Bytes
unfolding ucs2_units
ucs2_encode text = ucs2_units (code_points text)

-- One unit as UTF-8: a surrogate is written as a three-byte sequence of its own.
unfoldable pub utf8_of_unit : ℕ → Bytes
utf8_of_unit u =
    if ltb u 0x80
    then u ∷ []
    else if ltb u 0x800
    then bit_or 0xC0 (u / 2 ^ 6) ∷ bit_or 0x80 (bit_and u 0x3F) ∷ []
    else bit_or 0xE0 (u / 2 ^ 12)
      ∷ bit_or 0x80 (bit_and (u / 2 ^ 6) 0x3F)
      ∷ bit_or 0x80 (bit_and u 0x3F)
      ∷ []

-- An odd byte at the end is left out.
unfoldable pub ucs2_decode : Bytes → Bytes
unfolding utf8_of_unit
ucs2_decode [] = []
ucs2_decode (high ∷ []) = []
ucs2_decode (high ∷ low ∷ rest) = utf8_of_unit (bit_or (high * 2 ^ 8) low) ++ ucs2_decode rest
