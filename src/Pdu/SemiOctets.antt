-- ===== src/Pdu/SemiOctets.antt =====
-- Telephone digits, two to a byte with the halves swapped (src/common/pdu/pdu.cpp).
pub mod RoundTrip
use sms_relay.Base.{
  ℕ, zero, suc, ◌+◌, ◌*◌, ◌/◌, ◌%◌, ◌^◌, bit_and, [], ◌∷◌, ◌++◌, Bool, true, false, Bytes, length,
  ◌==◌, if◌then◌else◌,
}
use sms_relay.Pdu.Hex.{nibble, join_nibbles}

-- The loop of `semi_octets_encode`; it runs on an even number of digits.
unfoldable pub encode_pairs : Bytes → Bytes
encode_pairs [] = []
encode_pairs (l ∷ []) = []
encode_pairs (l ∷ h ∷ rest) = join_nibbles (nibble h) (nibble l) ∷ encode_pairs rest

unfoldable pub semi_octets_encode : Bytes → Bytes
unfolding encode_pairs nibble
semi_octets_encode number =
    encode_pairs (if length number % 2 == 1 then number ++ b'F' ∷ [] else number)

-- At most `limit` bytes are read, and none behind a filler.
unfoldable pub decode_octets : ℕ → Bytes → Bytes
decode_octets zero encoded = []
decode_octets (suc limit) [] = []
decode_octets (suc limit) (octet ∷ encoded) =
    (b'0' + bit_and octet 0x0F) ∷ elim (bit_and (octet / 2 ^ 4) 0x0F == 0x0F) [
      | true ↦ []
      | false ↦ (b'0' + bit_and (octet / 2 ^ 4) 0x0F) ∷ decode_octets limit encoded
    ]

unfoldable pub semi_octets_decode : Bytes → ℕ → Bytes
unfolding decode_octets
semi_octets_decode encoded num_octets =
    decode_octets (if num_octets == 0 then length encoded else num_octets) encoded
