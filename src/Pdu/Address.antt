-- ===== src/Pdu/Address.antt =====
-- Address fields: `build_address_field` and `parse_address_field` of src/common/pdu/pdu.cpp. An
-- iterator is the list of bytes from there on; reading past the end is a fault.
pub mod RoundTrip
use sms_relay.Base.{
  ℕ, ◌+◌, ◌-◌, ◌*◌, ◌/◌, ◌%◌, ◌^◌, Bool, true, false, ◌&&◌, bit_and, bit_or, [], ◌∷◌, ◌++◌, Bytes,
  length, take, drop, within, ltb, ◌==◌, if◌then◌else◌,
}
use sms_relay.Base.Result.{Result, ok, err, fault, ◌>>=◌}
use sms_relay.Pdu.Gsm7.{gsm7_encode, gsm7_decode}
use sms_relay.Pdu.Septets.{septets_pack, septets_unpack}
use sms_relay.Pdu.SemiOctets.{semi_octets_encode, semi_octets_decode}

pub record AddressField : Type 0 where
  pub number : Bytes
  pub length : ℕ
  pub type : ℕ
  pub encoded : Bytes

-- `find_first_not_of("0123456789") == npos`
unfoldable pub only_digits : Bytes → Bool
only_digits [] = true
only_digits (c ∷ cs) = within b'0' b'9' c && only_digits cs

-- The type of address, the value to encode, and whether it is alphanumeric.
unfoldable pub classify : Bytes → ℕ × Bytes × Bool
unfolding only_digits
classify [] = (bit_or 0x80 0x01, [], false)
classify (c ∷ cs) =
    if c == b'+' && ltb 1 (length (c ∷ cs))
    then (bit_or (bit_or 0x80 0x01) 0x10, cs, false)
    else if only_digits (c ∷ cs)
    then (bit_or (bit_or 0x80 0x01) 0x20, c ∷ cs, false)
    else (bit_or (bit_or 0x80 0x01) 0x50, c ∷ cs, true)

-- The alphanumeric branch, from the septets on.
unfoldable pub alphanumeric_field : Bytes → ℕ → Bytes → AddressField
alphanumeric_field address toa gsm7 = record {
  number = address;
  length = length (septets_pack gsm7 0) * 2 % 2 ^ 8;
  type = toa;
  encoded = septets_pack gsm7 0;
}

unfoldable pub numeric_field : Bytes → ℕ → Bytes → Bool → AddressField
numeric_field address toa value smsc_field = record {
  number = address;
  length =
      if smsc_field then (length (semi_octets_encode value) + 1) % 2 ^ 8 else length value % 2 ^ 8;
  type = toa;
  encoded = semi_octets_encode value;
}

unfoldable pub encode_address : Bytes → Bool → ℕ × Bytes × Bool → Result AddressField
unfolding alphanumeric_field numeric_field
encode_address address smsc_field (toa, value, true) = do
  gsm7 ← gsm7_encode value true
  ok (alphanumeric_field address toa gsm7)
encode_address address smsc_field (toa, value, false) =
    ok (numeric_field address toa value smsc_field)

unfoldable pub build_address_field : Bytes → Bool → Result AddressField
unfolding classify encode_address
build_address_field address smsc_field = encode_address address smsc_field (classify address)

-- `*it++`
abbrev pub next_octet : Bytes → Result (ℕ × Bytes)
next_octet [] = err fault
next_octet (octet ∷ rest) = ok (octet, rest)

-- `std::vector<uint8_t>(it, it + count); it += count;`
unfoldable pub next_octets : ℕ → Bytes → Result (Bytes × Bytes)
next_octets count bytes =
    if ltb (length bytes) count then err fault else ok (take count bytes, drop count bytes)

abbrev pub parsed : ℕ → ℕ → Bytes → AddressField
parsed len type number = record { number = number; length = len; type = type; encoded = [] }

-- What follows the type of address.
unfoldable pub parse_value : ℕ → ℕ → Bool → Bytes → Result (AddressField × Bytes)
unfolding next_octets
parse_value len type smsc_field bytes =
    if bit_and type 0x70 == 0x50
    then (do
      (encoded, rest) ← next_octets ((len + 1) / 2) bytes
      ok (parsed len type (gsm7_decode (septets_unpack encoded ((len + 1) / 2))), rest))
    else (do
      let count : ℕ = if smsc_field then len - 1 else (len + 1) / 2
      (encoded, rest) ← next_octets count bytes
      let decoded : Bytes = semi_octets_decode encoded count
      ok (parsed len type (if bit_and type 0x70 == 0x10 then b'+' ∷ decoded else decoded), rest))

unfoldable pub parse_typed : ℕ → Bool → Bytes → Result (AddressField × Bytes)
unfolding parse_value
parse_typed len smsc_field bytes = do
  (type, rest) ← next_octet bytes
  parse_value len type smsc_field rest

unfoldable pub parse_address_field : Bytes → Bool → Result (AddressField × Bytes)
unfolding parse_typed
parse_address_field bytes smsc_field = do
  (len, rest) ← next_octet bytes
  (if len == 0 then ok (parsed 0 0 [], rest) else parse_typed len smsc_field rest)
