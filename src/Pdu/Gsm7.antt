-- ===== src/Pdu/Gsm7.antt =====
-- The GSM 03.38 alphabet of src/common/pdu/pdu.cpp: UTF-8 text to septets and back.
mod Tables
pub mod RoundTrip
pub use Tables.*
use sms_relay.Base.{
  ℕ, ◌+◌, ◌-◌, ◌*◌, ◌^◌, ◌<◌, Bool, true, false, ◌&&◌, Option, none, some, List, [], ◌∷◌, ◌++◌,
  Bytes, get_elem?, within, ltb, ◌==◌, if◌then◌else◌,
}
use sms_relay.Base.Result.{Result, ok, err, Error, invalid_argument, ◌>>=◌}
use sms_relay.Pdu.Utf8.{code_points}

unfoldable pub gsm7_get_char : ℕ → Bytes
gsm7_get_char position = elim (get_elem? special_chars position) [
  | some char ↦ char
  | none ↦ if within 32 126 position then position ∷ [] else b'?' ∷ []
]

-- The position of a code point, by the first entry that has it.
unfoldable pub find_position : ℕ → List (ℕ × ℕ) → Option ℕ
find_position point [] = none
find_position point ((code, position) ∷ table) =
    if code == point then some position else find_position point table

-- The character of an escaped code, by the first entry that has it.
unfoldable pub find_char : ℕ → List (ℕ × ℕ) → Option ℕ
find_char code [] = none
find_char code ((char, value) ∷ table) = if value == code then some char else find_char code table

unfoldable pub gsm7_find_position : ℕ → Option ℕ
unfolding find_position
gsm7_find_position point = find_position point gsm7_lookup

-- The septets of one code point: a position, an escape and a code, nothing where invalid
-- characters are discarded, or the exception.
unfoldable pub encode_point : Bool → ℕ → Result Bytes
unfolding gsm7_find_position
encode_point discard_invalid point = elim (gsm7_find_position point) [
  | some position ↦ ok (position ∷ [])
  | none ↦ elim (find_position point gsm7_extended) [
    | some code ↦ ok (0x1B ∷ code ∷ [])
    | none ↦ if discard_invalid then ok [] else err invalid_argument
  ]
]

unfoldable pub encode_points : Bool → List ℕ → Result Bytes
unfolding encode_point
encode_points discard_invalid [] = ok []
encode_points discard_invalid (p ∷ points) = do
  septets ← encode_point discard_invalid p
  rest ← encode_points discard_invalid points
  ok (septets ++ rest)

unfoldable pub gsm7_encode : Bytes → Bool → Result Bytes
unfolding encode_points
gsm7_encode text discard_invalid = encode_points discard_invalid (code_points text)

-- An escape takes the next septet with it; an unknown one yields nothing. An escape at the end is
-- an ordinary septet.
unfoldable pub decode_escaped : ℕ → Bytes
unfolding find_char
decode_escaped code = elim (find_char code gsm7_extended) [ some char ↦ char ∷ [] | none ↦ [] ]

unfoldable pub decode_plain : ℕ → Bytes
unfolding gsm7_get_char
decode_plain septet = if ltb septet 128 then gsm7_get_char septet else []

-- `escaped` says that the septet before was an escape.
unfoldable pub decode_septets : Bool → Bytes → Bytes
unfolding decode_escaped decode_plain
decode_septets escaped [] = []
decode_septets true (code ∷ septets) = decode_escaped code ++ decode_septets false septets
decode_septets false (s ∷ []) = decode_plain s
decode_septets false (s ∷ t ∷ septets) = elim (s == 0x1B) [
  | true ↦ decode_septets true (t ∷ septets)
  | false ↦ decode_plain s ++ decode_septets false (t ∷ septets)
]

unfoldable pub gsm7_decode : Bytes → Bytes
unfolding decode_septets
gsm7_decode encoded = decode_septets false encoded
