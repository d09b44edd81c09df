-- ===== src/Pdu/Address/RoundTrip.antt =====
-- `build_address_field` against `parse_address_field`, for telephone numbers.
use sms_relay.Base.{
  ℕ, zero, suc, ◌+◌, ◌-◌, ◌/◌, ◌%◌, ◌<◌, ◌≡◌, ◌≢◌, refl, ap, ◌∙◌, Bool, true, false, bit_and, [],
  ◌∷◌, ◌++◌, Bytes, All, length, length-append, take-append_length, drop-append_length, ◌==◌,
  if◌then◌else◌, arith, inr,
}
use sms_relay.Base.Result.{ok}
use sms_relay.Pdu.SemiOctets.{encode_pairs, semi_octets_encode}
use sms_relay.Pdu.SemiOctets.RoundTrip.{IsDigit, semi_octets_decode-semi_octets_encode}
use sms_relay.Pdu.Address.{
  AddressField, only_digits, classify, numeric_field, encode_address, build_address_field,
  next_octets, parsed, parse_value, parse_typed, parse_address_field,
}

length-encode_pairs : (n : ℕ) (xs : Bytes) → length xs ≡ n + n → length (encode_pairs xs) ≡ n
unfolding encode_pairs
length-encode_pairs zero [] h = refl
length-encode_pairs zero (x ∷ xs) h = absurd (omega arith)
length-encode_pairs (suc n) [] h = absurd (omega arith)
length-encode_pairs (suc n) (x ∷ []) h = absurd (omega arith)
length-encode_pairs (suc n) (x ∷ y ∷ xs) h = ap suc (length-encode_pairs n xs (omega arith))

-- Two digits to an octet, rounded up.
pub length-semi_octets_encode :
    (number : Bytes) → length (semi_octets_encode number) ≡ (length number + 1) / 2
unfolding semi_octets_encode
length-semi_octets_encode number =
    length-encode_pairs ((length number + 1) / 2) _ (padded_length number)
  where
    padded_length :
        (xs : Bytes)
        → length (if length xs % 2 == 1 then xs ++ b'F' ∷ [] else xs)
          ≡ (length xs + 1) / 2 + (length xs + 1) / 2
    padded_length xs = ground (arith, length-append xs (b'F' ∷ []))

pub next_octets-append :
    (count : ℕ) (front rest : Bytes)
    → count ≡ length front
    → next_octets count (front ++ rest) ≡ ok (front, rest)
unfolding next_octets
next_octets-append count front rest e = ground (
  arith,
  e,
  length-append front rest,
  take-append_length front rest,
  drop-append_length front rest,
)

only_digits-IsDigit : (number : Bytes) → All IsDigit number → only_digits number ≡ true
unfolding only_digits
only_digits-IsDigit [] h = refl
only_digits-IsDigit (c ∷ cs) (hc, h) = ground (arith, only_digits-IsDigit cs h)

-- The octet count that the parser works out from the length octet.
abbrev octets : Bool → ℕ → ℕ
octets smsc_field len = if smsc_field then len - 1 else (len + 1) / 2

numeric_octets :
    (address value : Bytes) (toa : ℕ) (smsc_field : Bool)
    → length value < 255
    → octets smsc_field (numeric_field address toa value smsc_field).length
      ≡ length (semi_octets_encode value)
unfolding numeric_field
numeric_octets address value toa true h = ground (arith, length-semi_octets_encode value)
numeric_octets address value toa false h = ground (arith, length-semi_octets_encode value)

numeric_value :
    (len toa count : ℕ) (smsc_field : Bool) (value rest : Bytes)
    → octets smsc_field len ≡ count
    → count ≡ length (semi_octets_encode value)
    → (bit_and toa 0x70 == 0x50) ≡ false
    → All IsDigit value
    → parse_value len toa smsc_field (semi_octets_encode value ++ rest)
      ≡ ok (parsed len toa (if bit_and toa 0x70 == 0x10 then b'+' ∷ value else value), rest)
unfolding parse_value
numeric_value len toa count smsc_field value rest e f n h = ground (
  arith,
  n,
  next_octets-append count (semi_octets_encode value) rest f,
  semi_octets_decode-semi_octets_encode value count h (inr (omega (arith, f))),
  e,
)

-- `+` and digits, or digits alone.
abbrev pub telephone : Bool → Bytes → Bytes
telephone international digits = if international then b'+' ∷ digits else digits

abbrev toa_of : Bool → ℕ
toa_of international = if international then 0x91 else 0xA1

telephone-classify :
    (international : Bool) (digits : Bytes)
    → All IsDigit digits
    → digits ≢ []
    → classify (telephone international digits) ≡ (toa_of international, digits, false)
unfolding classify
telephone-classify i [] h ne = absurd (ne refl)
telephone-classify true (c ∷ cs) h ne = ground arith
telephone-classify false (c ∷ cs) h ne = ground (arith, h, only_digits-IsDigit (c ∷ cs) h)

parse_typed-numeric :
    (international smsc_field : Bool) (len : ℕ) (digits rest : Bytes)
    → All IsDigit digits
    → octets smsc_field len ≡ length (semi_octets_encode digits)
    → parse_typed len smsc_field (toa_of international ∷ (semi_octets_encode digits ++ rest))
      ≡ ok (parsed len (toa_of international) (telephone international digits), rest)
unfolding parse_typed
parse_typed-numeric true s len digits rest h e =
    numeric_value len 0x91 _ s digits rest e refl refl h
parse_typed-numeric false s len digits rest h e =
    numeric_value len 0xA1 _ s digits rest e refl refl h

nonzero :
    (address digits : Bytes) (toa : ℕ) (smsc_field : Bool)
    → digits ≢ []
    → length digits < 255
    → ((numeric_field address toa digits smsc_field).length == 0) ≡ false
unfolding numeric_field
nonzero address [] toa s ne h = absurd (ne refl)
nonzero address (c ∷ cs) toa true ne h = ground (arith, length-semi_octets_encode (c ∷ cs))
nonzero address (c ∷ cs) toa false ne h = ground arith

parse_field :
    (len : ℕ) (smsc_field : Bool) (bytes : Bytes)
    → (len == 0) ≡ false
    → parse_address_field (len ∷ bytes) smsc_field ≡ parse_typed len smsc_field bytes
unfolding parse_address_field
parse_field len smsc_field bytes e = ground (arith, e)

-- A number of one to 254 digits, with or without a plus sign in front, is built into an address
-- field without an error; its length octet, type and digits, before any bytes, are parsed back to
-- the same number, and the parser stops right behind them. It holds for the field of a service
-- centre too, whose length octet counts differently.
pub parse_address_field-build_address_field :
    (international smsc_field : Bool) (digits rest : Bytes)
    → All IsDigit digits
    → digits ≢ []
    → length digits < 255
    → (field : AddressField) × (build_address_field (telephone international digits) smsc_field
        ≡ ok field)
      × (parse_address_field (field.length ∷ field.type ∷ (field.encoded ++ rest)) smsc_field
          ≡ ok (parsed field.length field.type (telephone international digits), rest))
unfolding build_address_field encode_address
parse_address_field-build_address_field i s digits rest h ne small = (
  field,
  ap (encode_address (telephone i digits) s) (telephone-classify i digits h ne),
  parse_field field.length s _ (nonzero (telephone i digits) digits (toa_of i) s ne small)
      ∙ unfold numeric_field in
        parse_typed-numeric i s field.length digits rest h
          (numeric_octets (telephone i digits) digits (toa_of i) s small),
)
  where
    field : AddressField
    field = numeric_field (telephone i digits) (toa_of i) digits s
