-- ===== src/Pdu/Hex/RoundTrip.antt =====
-- `bytes_to_hex` against `hex_to_bytes`.
use sms_relay.Base.{ℕ, ◌/◌, ◌%◌, ◌<◌, ◌≡◌, refl, ap₂, ◌∙◌, [], ◌∷◌, Bytes, AreBytes, arith}
use sms_relay.Base.Bits.{bit_or_disjoint}
use sms_relay.Pdu.Hex.{nibble, join_nibbles, hex_to_bytes, hex_digit, bytes_to_hex}

nibble-hex_digit : (n : ℕ) → n < 16 → nibble (hex_digit n) ≡ n
unfolding nibble hex_digit
nibble-hex_digit n h = ground arith

-- Every list of bytes is read back from its upper case hexadecimal text.
pub hex_to_bytes-bytes_to_hex :
    (bytes : Bytes) → AreBytes bytes → hex_to_bytes (bytes_to_hex bytes) ≡ bytes
unfolding hex_to_bytes bytes_to_hex
hex_to_bytes-bytes_to_hex [] h = refl
hex_to_bytes-bytes_to_hex (b ∷ bytes) (h, hs) =
    ap₂ ◌∷◌
      (ap₂ join_nibbles (unfold nibble hex_digit in nibble-hex_digit (b / 16) (omega arith))
          (unfold nibble hex_digit in nibble-hex_digit (b % 16) (omega arith))
        ∙ bit_or_disjoint 4 (b / 16) (b % 16) (omega arith)
        ∙ omega arith)
      (hex_to_bytes-bytes_to_hex bytes hs)
