-- ===== src/Pdu/Decode.antt =====
-- `decode` of src/common/pdu/pdu.cpp. `left_first` is the order of evaluation that `parse_udh`
-- takes.
use sms_relay.Base.{
  ℕ, ◌+◌, ◌*◌, ◌/◌, ◌^◌, Bool, true, false, not, bit_and, Option, none, some, [], ◌∷◌, Bytes,
  length, drop, ltb, ◌==◌, if◌then◌else◌,
}
use sms_relay.Base.Result.{Result, ok, err, fault, invalid_argument, ◌>>=◌}
use sms_relay.Pdu.Hex.{hex_to_bytes}
use sms_relay.Pdu.Gsm7.{gsm7_decode}
use sms_relay.Pdu.Septets.{septets_unpack}
use sms_relay.Pdu.Ucs2.{ucs2_decode}
use sms_relay.Pdu.Address.{next_octet, parse_address_field}
use sms_relay.Pdu.Timestamp.{parse_timestamp, parse_data_coding_scheme}
use sms_relay.Pdu.Udh.{UdhInfo, advance, parse_udh}

pub record PduMessage : Type 0 where
  pub smsc : Bytes
  pub number : Bytes
  pub text : Bytes
  pub reference : ℕ
  pub status : ℕ
  pub timestamp : Bytes
  pub has_udh : Bool
  pub concat_ref : ℕ
  pub concat_seq : ℕ
  pub concat_total : ℕ

abbrev pub empty_message : PduMessage
empty_message = record {
  smsc = [];
  number = [];
  text = [];
  reference = 0;
  status = 0;
  timestamp = [];
  has_udh = false;
  concat_ref = 0;
  concat_seq = 0;
  concat_total = 0;
}

abbrev pub dcs_gsm7 : ℕ
dcs_gsm7 = 0

abbrev pub dcs_ucs2 : ℕ
dcs_ucs2 = 2

-- User data with no header.
unfoldable pub plain_text : ℕ → ℕ → Bytes → Bytes
plain_text dcs user_data_len remaining =
    if dcs == dcs_gsm7
    then gsm7_decode (septets_unpack remaining user_data_len)
    else if dcs == dcs_ucs2
    then ucs2_decode remaining
    else remaining

-- The septets behind the header's.
unfoldable pub text_septets : ℕ → Bytes → Bytes
text_septets udh_len septets =
    let udh_septets : ℕ = ((udh_len + 1) * 8 + 6) / 7 in
    if ltb udh_septets (length septets) then drop udh_septets septets else []

-- User data with a header: `remaining` starts at its length octet, `rest` behind it.
unfoldable pub headed_text : ℕ → ℕ → ℕ → Bytes → Bytes → Bytes
unfolding text_septets
headed_text dcs user_data_len udh_len remaining rest =
    if dcs == dcs_gsm7
    then gsm7_decode (text_septets udh_len (septets_unpack remaining user_data_len))
    else if dcs == dcs_ucs2
    then ucs2_decode rest
    else remaining

-- The loop of `parse_udh` always ends, so that its fuel never runs out.
abbrev header_of : Option (Result (UdhInfo × Bytes)) → Result (UdhInfo × Bytes)
header_of none = err fault
header_of (some result) = result

unfoldable pub headed_message : Bool → ℕ → ℕ → PduMessage → Bytes → Result PduMessage
unfolding headed_text
headed_message left_first dcs user_data_len msg remaining = do
  (udh_len, after) ← next_octet remaining
  (info, rest) ← header_of (parse_udh left_first after udh_len)
  ok (record msg {
    has_udh = true;
    concat_ref = info.concat_ref;
    concat_seq = info.concat_seq;
    concat_total = info.concat_total;
    text = headed_text dcs user_data_len udh_len remaining rest;
  })

-- What follows the length of the user data, in both kinds of message.
unfoldable pub parse_user_data : Bool → ℕ → ℕ → ℕ → PduMessage → Bytes → Result PduMessage
unfolding headed_message plain_text
parse_user_data left_first tpdu_first dcs user_data_len msg remaining =
    if not (bit_and tpdu_first 0x40 == 0)
    then headed_message left_first dcs user_data_len msg remaining
    else ok (record msg { text = plain_text dcs user_data_len remaining })

unfoldable pub decode_deliver : Bool → ℕ → PduMessage → Bytes → Result PduMessage
unfolding parse_user_data
decode_deliver left_first tpdu_first msg bytes = do
  (sender, b₁) ← parse_address_field bytes false
  b₂ ← advance 1 b₁
  (dcs_octet, b₃) ← next_octet b₂
  (timestamp, b₄) ← parse_timestamp b₃
  (user_data_len, b₅) ← next_octet b₄
  parse_user_data left_first tpdu_first (parse_data_coding_scheme dcs_octet) user_data_len
      (record msg { number = sender.number; timestamp = timestamp }) b₅

-- The validity period is skipped.
unfoldable pub skip_validity : ℕ → Bytes → Result Bytes
skip_validity vp_format bytes =
    if vp_format == 2 then advance 1 bytes else if vp_format == 3 then advance 7 bytes else ok bytes

unfoldable pub decode_submit : Bool → ℕ → PduMessage → Bytes → Result PduMessage
unfolding parse_user_data skip_validity
decode_submit left_first tpdu_first msg bytes = do
  (reference, b₁) ← next_octet bytes
  (recipient, b₂) ← parse_address_field b₁ false
  b₃ ← advance 1 b₂
  (dcs_octet, b₄) ← next_octet b₃
  b₅ ← skip_validity (bit_and tpdu_first 0x18 / 2 ^ 3) b₄
  (user_data_len, b₆) ← next_octet b₅
  parse_user_data left_first tpdu_first (parse_data_coding_scheme dcs_octet) user_data_len
      (record msg { reference = reference; number = recipient.number }) b₆

unfoldable pub decode_status_report : PduMessage → Bytes → Result PduMessage
decode_status_report msg bytes = do
  (reference, b₁) ← next_octet bytes
  (recipient, b₂) ← parse_address_field b₁ false
  (timestamp, b₃) ← parse_timestamp b₂
  (discharge, b₄) ← parse_timestamp b₃
  (status, b₅) ← next_octet b₄
  ok (record msg {
    reference = reference;
    number = recipient.number;
    timestamp = timestamp;
    status = status;
  })

-- By the type of the message.
unfoldable pub decode_tpdu : Bool → ℕ → PduMessage → Bytes → Result PduMessage
unfolding decode_deliver decode_submit decode_status_report
decode_tpdu left_first tpdu_first msg bytes =
    let pdu_type : ℕ = bit_and tpdu_first 0x03 in
    if pdu_type == 0
    then decode_deliver left_first tpdu_first msg bytes
    else if pdu_type == 1
    then decode_submit left_first tpdu_first msg bytes
    else if pdu_type == 2
    then decode_status_report msg bytes
    else err invalid_argument

unfoldable pub decode_bytes : Bool → Bytes → Result PduMessage
unfolding decode_tpdu
decode_bytes left_first [] = err invalid_argument
decode_bytes left_first (b ∷ bytes) = do
  (smsc, b₁) ← parse_address_field (b ∷ bytes) true
  (tpdu_first, b₂) ← next_octet b₁
  decode_tpdu left_first tpdu_first (record empty_message { smsc = smsc.number }) b₂

unfoldable pub decode : Bool → Bytes → Result PduMessage
unfolding decode_bytes
decode left_first pdu_hex = decode_bytes left_first (hex_to_bytes pdu_hex)
