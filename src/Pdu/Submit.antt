-- ===== src/Pdu/Submit.antt =====
-- `encode_submit` of src/common/pdu/pdu.cpp.
pub mod Frame
pub mod Texts
pub mod Parts
pub mod Fits
pub mod Wide
use sms_relay.Base.{
  ℕ, zero, suc, ◌+◌, ◌-◌, ◌*◌, ◌/◌, ◌%◌, ◌^◌, min, Bool, true, false, bit_or, List, [], ◌∷◌, ◌++◌,
  Bytes, length, take, drop, ltb, ◌==◌, if◌then◌else◌,
}
use sms_relay.Base.Result.{Result, ok, err, invalid_argument, ◌>>=◌}
use sms_relay.Pdu.Hex.{bytes_to_hex}
use sms_relay.Pdu.Gsm7.{gsm7_encode}
use sms_relay.Pdu.Septets.{septets_pack}
use sms_relay.Pdu.Ucs2.{ucs2_encode}
use sms_relay.Pdu.Address.{AddressField, build_address_field}
use sms_relay.Pdu.Decode.{dcs_gsm7, dcs_ucs2}

-- The arguments of `encode_submit_pdu_internal` for one of several parts; a single message has
-- none of them.
pub record Part : Type 0 where
  pub concat_ref : ℕ
  pub concat_seq : ℕ
  pub concat_total : ℕ

pub data Concat : Type 0 where
  single : Concat
  part_of : Part → Concat

-- The five octets of `udh`, which have no length octet in front.
abbrev pub header_octets : Part → Bytes
header_octets p = 0x00 ∷ 0x03 ∷ p.concat_ref % 2 ^ 8 ∷ p.concat_total ∷ p.concat_seq ∷ []

abbrev pub address_octets : AddressField → Bytes
address_octets field = field.length ∷ field.type ∷ field.encoded

unfoldable pub smsc_octets : Bytes → Result Bytes
smsc_octets [] = ok (0x00 ∷ [])
smsc_octets (c ∷ cs) = do field ← build_address_field (c ∷ cs) true; ok (address_octets field)

unfoldable pub first_octet : Concat → ℕ
first_octet single = 0x01
first_octet (part_of p) = bit_or 0x01 0x40

-- `int shift = (udh.size() + 1) * 8 % 7`
abbrev pub pad_shift : ℕ
pad_shift = (5 + 1) * 8 % 7

-- The length octet and the user data, from the septets or the octets of the text.
unfoldable pub gsm7_data : Concat → Bytes → Bytes
gsm7_data single septets = length septets % 2 ^ 8 ∷ septets_pack septets 0
gsm7_data (part_of p) septets =
    (length septets + (if ltb 0 pad_shift then 1 else 0) + (5 + 1)) % 2 ^ 8
    ∷ 5
    ∷ (header_octets p ++ septets_pack septets pad_shift)

unfoldable pub ucs2_data : Concat → Bytes → Bytes
ucs2_data single octets = length octets % 2 ^ 8 ∷ octets
ucs2_data (part_of p) octets = (length octets + 5 + 1) % 2 ^ 8 ∷ (header_octets p ++ octets)

unfoldable pub user_data : Bytes → ℕ → Concat → Result Bytes
unfolding gsm7_data ucs2_data
user_data text dcs concat =
    if dcs == dcs_gsm7
    then (do septets ← gsm7_encode text false; ok (gsm7_data concat septets))
    else ok (ucs2_data concat (ucs2_encode text))

unfoldable pub encode_submit_pdu_internal : Bytes → Bytes → ℕ → Bytes → ℕ → Concat → Result Bytes
unfolding smsc_octets user_data first_octet
encode_submit_pdu_internal number text reference smsc dcs concat = do
  center ← smsc_octets smsc
  recipient ← build_address_field number false
  content ← user_data text dcs concat
  ok (
      center
      ++ (first_octet concat ∷ reference ∷ (address_octets recipient ++ (0x00 ∷ dcs ∷ content))))

-- `text.substr(part * with_udh_max, with_udh_max)` for the `total_parts - part` parts that are
-- left.
unfoldable pub part_texts : ℕ → ℕ → ℕ → Bytes → List Bytes
part_texts zero part with_udh_max text = []
part_texts (suc left) part with_udh_max text =
    take (min with_udh_max (length text - part * with_udh_max)) (drop (part * with_udh_max) text)
    ∷ part_texts left (part + 1) with_udh_max text

unfoldable pub encode_part : Bytes → ℕ → Bytes → ℕ → ℕ → ℕ → Bytes → Result Bytes
unfolding encode_submit_pdu_internal
encode_part number reference smsc dcs total_parts part text = do
  pdu_bytes ← encode_submit_pdu_internal number text reference smsc dcs (
      part_of (record {
        concat_ref = reference;
        concat_seq = (part + 1) % 2 ^ 8;
        concat_total = total_parts % 2 ^ 8;
      }))
  ok (bytes_to_hex pdu_bytes)

unfoldable pub encode_parts : Bytes → ℕ → Bytes → ℕ → ℕ → ℕ → List Bytes → Result (List Bytes)
unfolding encode_part
encode_parts number reference smsc dcs total_parts part [] = ok []
encode_parts number reference smsc dcs total_parts part (text ∷ texts) = do
  pdu ← encode_part number reference smsc dcs total_parts part text
  pdus ← encode_parts number reference smsc dcs total_parts (part + 1) texts
  ok (pdu ∷ pdus)

-- `(text.length() + with_udh_max - 1) / with_udh_max`
abbrev pub total_parts : ℕ → Bytes → ℕ
total_parts with_udh_max text = (length text + with_udh_max - 1) / with_udh_max

-- The rest of `encode_submit` for a coding scheme and its two limits.
unfoldable pub encode_with : ℕ → ℕ → ℕ → Bytes → Bytes → ℕ → Bytes → Result (List Bytes)
unfolding part_texts encode_parts encode_submit_pdu_internal
encode_with dcs max_len with_udh_max number text reference smsc =
    if ltb max_len (length text)
    then encode_parts number reference smsc dcs (total_parts with_udh_max text) 0
        (part_texts (total_parts with_udh_max text) 0 with_udh_max text)
    else (do
      pdu_bytes ← encode_submit_pdu_internal number text reference smsc dcs single
      ok (bytes_to_hex pdu_bytes ∷ []))

abbrev is_empty : Bytes → Bool
is_empty [] = true
is_empty (c ∷ cs) = false

-- The coding scheme is GSM 7 if the text can be encoded so.
unfoldable pub encode_submit : Bytes → Bytes → ℕ → Bytes → Result (List Bytes)
unfolding encode_with
encode_submit number text reference smsc =
    if is_empty number
    then err invalid_argument
    else if is_empty text
    then err invalid_argument
    else elim (gsm7_encode text false) [
      | ok septets ↦ encode_with dcs_gsm7 160 153 number text reference smsc
      | err e ↦ encode_with dcs_ucs2 70 67 number text reference smsc
    ]
