-- ===== src/Ipc/Payload.antt =====
-- `PayloadSerializer` of src/common/ipc/ipc_serialization.h: the payloads of the commands, and
-- one message of an answer.
pub mod RoundTrip
use sms_relay.Base.{
  ℕ, zero, suc, ◌+◌, ◌%◌, ◌^◌, Bool, true, false, not, Option, none, some, List, [], ◌∷◌, ◌++◌,
  Bytes, length, ◌==◌, if◌then◌else◌,
}
use sms_relay.Ipc.Protocol.{
  ListSmsRequest, ReadSmsRequest, DeleteSmsRequest, SendSmsRequest, SmsPartInfo, SmsInfo,
}
use sms_relay.Ipc.Wire.{
  serialize_u8, serialize_u32, serialize_str, serialize_vec, deserialize_u8, deserialize_u32,
  deserialize_str,
}

unfoldable pub serialize_list : ListSmsRequest → Bytes
serialize_list req = serialize_str req.status

unfoldable pub serialize_read : ReadSmsRequest → Bytes
serialize_read req = serialize_vec req.indices

unfoldable pub serialize_delete : DeleteSmsRequest → Bytes
serialize_delete req = serialize_vec req.indices

unfoldable pub serialize_send : SendSmsRequest → Bytes
serialize_send req = serialize_str req.recipient ++ serialize_str req.text

-- A `bool` passed as a `uint8_t`.
abbrev pub of_bool : Bool → ℕ
of_bool true = 1
of_bool false = 0

unfoldable pub serialize_parts : List SmsPartInfo → Bytes
serialize_parts [] = []
serialize_parts (part ∷ parts) =
    serialize_u8 part.index
    ++ (serialize_u8 part.seq ++ (serialize_u8 part.total ++ serialize_parts parts))

unfoldable pub serialize_combined : Bool → List SmsPartInfo → Bytes
unfolding serialize_parts
serialize_combined true parts = serialize_u32 (parts_size parts) ++ serialize_parts parts
  where
    parts_size : List SmsPartInfo → ℕ
    parts_size ps = length ps % 2 ^ 32
serialize_combined false parts = []

unfoldable pub serialize_sms_info : SmsInfo → Bytes
unfolding serialize_combined
serialize_sms_info info =
    serialize_u8 info.index
    ++ (serialize_str info.sender
        ++ (serialize_str info.text
            ++ (serialize_str info.timestamp
                ++ (serialize_u8 (of_bool info.has_udh)
                    ++ (serialize_u8 info.concat_seq
                        ++ (serialize_u8 info.concat_total
                            ++ (serialize_u8 info.status
                                ++ (serialize_u8 (of_bool info.is_combined)
                                    ++ serialize_combined info.is_combined info.parts))))))))

-- A reader's result with the offset behind it, and the chain of readers that stops at the first
-- failure.
infixl 5 ◌>>=◌
abbrev pub ◌>>=◌ : {A B : Type 0} → Option A → (A → Option B) → Option B
none >>= f = none
some a >>= f = f a

-- The loop over the announced number of parts.
unfoldable pub deserialize_parts : ℕ → Bytes → ℕ → Option (List SmsPartInfo × ℕ)
deserialize_parts zero buffer offset = some ([], offset)
deserialize_parts (suc count) buffer offset = do
  (index, o₁) ← deserialize_u8 buffer offset
  (seq, o₂) ← deserialize_u8 buffer o₁
  (total, o₃) ← deserialize_u8 buffer o₂
  (parts, end) ← deserialize_parts count buffer o₃
  some (record { index = index; seq = seq; total = total } ∷ parts, end)

unfoldable pub deserialize_combined : Bool → Bytes → ℕ → Option (List SmsPartInfo × ℕ)
unfolding deserialize_parts
deserialize_combined true buffer offset = do
  (count, o₁) ← deserialize_u32 buffer offset
  deserialize_parts count buffer o₁
deserialize_combined false buffer offset = some ([], offset)

-- Read into an `SmsInfo` with no parts yet.
unfoldable pub deserialize_sms_info : Bytes → ℕ → Option (SmsInfo × ℕ)
unfolding deserialize_combined
deserialize_sms_info buffer offset = do
  (index, o₁) ← deserialize_u8 buffer offset
  (sender, o₂) ← deserialize_str buffer o₁
  (text, o₃) ← deserialize_str buffer o₂
  (timestamp, o₄) ← deserialize_str buffer o₃
  (has_udh, o₅) ← deserialize_u8 buffer o₄
  (concat_seq, o₆) ← deserialize_u8 buffer o₅
  (concat_total, o₇) ← deserialize_u8 buffer o₆
  (status, o₈) ← deserialize_u8 buffer o₇
  (is_combined, o₉) ← deserialize_u8 buffer o₈
  (parts, end) ← deserialize_combined (not (is_combined == 0)) buffer o₉
  some (
    record {
      index = index;
      sender = sender;
      text = text;
      timestamp = timestamp;
      has_udh = not (has_udh == 0);
      concat_seq = concat_seq;
      concat_total = concat_total;
      status = status;
      is_combined = not (is_combined == 0);
      parts = parts;
    },
    end,
  )
