-- ===== src/Pdu/Hex.antt =====
-- `hex_to_bytes` and `bytes_to_hex` of src/common/pdu/pdu.cpp.
pub mod RoundTrip
use sms_relay.Base.{
  ℕ, ◌+◌, ◌-◌, ◌*◌, ◌/◌, ◌%◌, ◌^◌, bit_or, [], ◌∷◌, ◌++◌, Bytes, within, ltb, if◌then◌else◌,
}

-- The value of a hexadecimal digit; any other byte counts as 0.
unfoldable pub nibble : ℕ → ℕ
nibble c =
    if within b'0' b'9' c
    then c - b'0'
    else if within b'A' b'F' c
    then c - b'A' + 10
    else if within b'a' b'f' c
    then c - b'a' + 10
    else 0

-- `(high << 4) | low`
abbrev pub join_nibbles : ℕ → ℕ → ℕ
join_nibbles high low = bit_or (high * 2 ^ 4) low

-- An odd byte at the end is left out.
unfoldable pub hex_to_bytes : Bytes → Bytes
unfolding nibble
hex_to_bytes [] = []
hex_to_bytes (h ∷ []) = []
hex_to_bytes (h ∷ l ∷ rest) = join_nibbles (nibble h) (nibble l) ∷ hex_to_bytes rest

-- The digit that `std::hex` with `std::uppercase` prints.
unfoldable pub hex_digit : ℕ → ℕ
hex_digit n = if ltb n 10 then n + b'0' else n - 10 + b'A'

unfoldable pub bytes_to_hex : Bytes → Bytes
unfolding hex_digit
bytes_to_hex [] = []
bytes_to_hex (b ∷ bytes) = hex_digit (b / 16) ∷ hex_digit (b % 16) ∷ bytes_to_hex bytes
