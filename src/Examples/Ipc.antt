-- ===== src/Examples/Ipc.antt =====
-- A message of two parts on the wire.
use sms_relay.Base.{ℕ, ◌<◌, ◌^◌, ◌≡◌, refl, true, some, [], ◌∷◌, ◌++◌, Bytes, length, drop, arith}
use sms_relay.Base.Text.{codes}
use sms_relay.Ipc.Protocol.{SmsInfo}
use sms_relay.Ipc.Wire.{serialize_str}
use sms_relay.Ipc.Payload.{
  serialize_sms_info, deserialize_sms_info, serialize_combined, serialize_parts,
}
use sms_relay.Ipc.Payload.RoundTrip.{IsSendable, deserialize-serialize_sms_info}
use sms_relay.Ipc.Wire.{serialize_u32, serialize_u8}

abbrev info : SmsInfo
info = record {
  index = 3;
  sender = codes "+1";
  text = codes "hi";
  timestamp = codes "24/01/02";
  has_udh = true;
  concat_seq = 1;
  concat_total = 2;
  status = 0;
  is_combined = true;
  parts = record { index = 3; seq = 1; total = 2 } ∷ record { index = 4; seq = 2; total = 2 } ∷ [];
}

info-IsSendable : IsSendable info
info-IsSendable = record {
  sender_length = omega arith;
  text_length = omega arith;
  timestamp_length = omega arith;
  parts_length = omega arith;
  parts_combined = λ e. absurd (cc e);
}

abbrev buffer : Bytes
buffer = 9 ∷ (serialize_sms_info info ++ 8 ∷ [])

buffer_fits : length buffer < 2 ^ 63
unfolding serialize_sms_info serialize_combined serialize_parts serialize_str serialize_u32
    serialize_u8
buffer_fits = omega arith

deserialize-serialize_sms_info_example :
    (end : ℕ) × (deserialize_sms_info buffer 1 ≡ some (info, end)) × (drop end buffer ≡ 8 ∷ [])
deserialize-serialize_sms_info_example =
    deserialize-serialize_sms_info info buffer 1 (8 ∷ []) buffer_fits info-IsSendable refl

abbrev string_buffer : Bytes
string_buffer = 1 ∷ (serialize_str (codes "ok") ++ 7 ∷ [])

string_buffer_fits : length string_buffer < 2 ^ 63
unfolding serialize_str serialize_u32
string_buffer_fits = omega arith
