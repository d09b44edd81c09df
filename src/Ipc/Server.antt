-- ===== src/Ipc/Server.antt =====
-- The commands of the `IpcServer` (src/sms_relay/ipc/ipc_server.cpp): a request in, a response out.
-- None of them can throw, since the service catches what its session throws.
pub mod Answers
pub mod Deletions
pub mod Connection
pub mod Slots
use sms_relay.Base.{
  ℕ, ◌%◌, ◌^◌, Bool, true, false, ◌&&◌, Option, none, some, List, [], ◌∷◌, ◌++◌, map, Bytes, length,
  drop, ◌==◌, if◌then◌else◌,
}
use sms_relay.Base.Result.{Error}
use sms_relay.Base.Text.{codes, to_string}
use sms_relay.Sms.Message.{IncomingSms}
use sms_relay.Sms.Inbox.{remove_from_cache}
use sms_relay.Sms.Service.{
  Modem, Service, get_cached_messages, list_and_decode_messages, delete_message,
}
use sms_relay.Ipc.Protocol.{CommandType, command_code, Status, SmsInfo}
use sms_relay.Ipc.Wire.{
  serialize_u32, serialize_str, serialize_vec, deserialize_str, deserialize_vec, serialize_response,
}
use sms_relay.Ipc.Payload.{serialize_sms_info}
use sms_relay.Ipc.Header.{Header, parse_header}

abbrev pub success : Bytes → Bytes
success payload = serialize_response Status.success 0 payload

abbrev pub invalid_args : Bytes
invalid_args = serialize_response Status.invalid_args 0 []

-- `info` of `handle_list`.
unfoldable pub listed_info : IncomingSms → SmsInfo
listed_info msg = record {
  index = msg.index;
  sender = msg.decoded.number;
  text = msg.decoded.text;
  timestamp = msg.decoded.timestamp;
  has_udh = msg.decoded.has_udh;
  concat_seq = msg.decoded.concat_seq;
  concat_total = msg.decoded.concat_total;
  status = msg.status;
  is_combined = false;
  parts = [];
}

-- `info` of `handle_read` for a message of the cache.
unfoldable pub cached_info : ℕ → IncomingSms → SmsInfo
unfolding listed_info
cached_info index cached = record (listed_info cached) {
  is_combined = true;
  parts = record { index = index; seq = 1; total = 1 } ∷ [];
}

-- `info` of `handle_read` with no message. Four fields are not initialised: `unset` has what they
-- happen to hold.
unfoldable pub missing_info : SmsInfo → ℕ → SmsInfo
missing_info unset index = record unset {
  index = index;
  sender = [];
  text = codes "<Message not found or deleted>";
  timestamp = [];
  is_combined = false;
  parts = [];
}

unfoldable pub find_cached : ℕ → List IncomingSms → Option IncomingSms
find_cached index [] = none
find_cached index (cached ∷ cached_messages) =
    if cached.index == index && cached.success
    then some cached
    else find_cached index cached_messages

unfoldable pub read_info : SmsInfo → List IncomingSms → ℕ → SmsInfo
unfolding find_cached cached_info missing_info
read_info unset cached_messages index = elim (find_cached index cached_messages) [
  | none ↦ missing_info unset index
  | some cached ↦ cached_info index cached
]

unfoldable pub serialize_infos : List SmsInfo → Bytes
serialize_infos [] = []
serialize_infos (info ∷ infos) = serialize_sms_info info ++ serialize_infos infos

abbrev pub count_u32 {ℓ} : {A : Type ℓ} → List A → ℕ
count_u32 xs = length xs % 2 ^ 32

-- The number of the messages and the messages, as `handle_list` and `handle_read` answer.
unfoldable pub infos_payload : List SmsInfo → Bytes
unfolding serialize_infos
infos_payload infos = serialize_u32 (count_u32 infos) ++ serialize_infos infos

unfoldable pub handle_send : Bytes → Bytes
handle_send payload = elim (deserialize_str payload 0) [
  | none ↦ invalid_args
  | some (recipient, offset) ↦ elim (deserialize_str payload offset) [
    | none ↦ invalid_args
    | some (text, end) ↦
        serialize_response Status.failed 0 (serialize_str (codes "Send SMS not yet implemented"))
  ]
]

unfoldable pub handle_status : ℕ → Bytes
handle_status port =
    success (1 ∷ (serialize_str (codes "[::1]:" ++ to_string port) ++ serialize_u32 0))

-- The server: its port, what `handle_read` leaves uninitialised, and the service with its modem.
module _ {M : Type 0} (port : ℕ) (unset : SmsInfo) (modem : Modem M) (left_first : Bool)
    (what : Error → Bytes) where
  unfoldable pub handle_list : ℕ → Bytes → Service → M → Bytes × Service × M
  unfolding infos_payload listed_info
  handle_list now payload s m = elim (deserialize_str payload 0) [
    | none ↦ (invalid_args, s, m)
    | some (status, offset) ↦
        let (messages, s', m') = list_and_decode_messages modem left_first what now s m in
        (success (infos_payload (map listed_info messages)), s', m')
  ]

  unfoldable pub handle_read : Bytes → Service → Bytes
  unfolding infos_payload read_info
  handle_read payload s = elim (deserialize_vec payload 0) [
    | none ↦ invalid_args
    | some ([], offset) ↦ invalid_args
    | some (index ∷ indices, offset) ↦
        success (infos_payload (map (read_info unset (get_cached_messages s)) (index ∷ indices)))
  ]

  -- The loop of `handle_delete`: the deleted and the failed indices.
  unfoldable pub delete_indices : Bytes → Service → M → (Bytes × Bytes) × Service × M
  unfolding remove_from_cache
  delete_indices [] s m = (([], []), s, m)
  delete_indices (index ∷ indices) s m =
      let (error, m') = delete_message modem left_first what index s m in
      elim error [
        | [] ↦
            let s' = record s { message_cache = remove_from_cache index s.message_cache } in
            let ((deleted, failed), s'', m'') = delete_indices indices s' m' in
            ((index ∷ deleted, failed), s'', m'')
        | _ ∷ _ ↦
            let ((deleted, failed), s'', m'') = delete_indices indices s m' in
            ((deleted, index ∷ failed), s'', m'')
      ]

  unfoldable pub handle_delete : Bytes → Service → M → Bytes × Service × M
  unfolding delete_indices
  handle_delete payload s m = elim (deserialize_vec payload 0) [
    | none ↦ (invalid_args, s, m)
    | some ([], offset) ↦ (invalid_args, s, m)
    | some (index ∷ indices, offset) ↦
        let ((deleted, failed), s', m') = delete_indices (index ∷ indices) s m in
        (success (serialize_vec deleted ++ serialize_vec failed), s', m')
  ]

  -- The `switch` of `process_command`.
  unfoldable pub dispatch_command : ℕ → Header → Bytes → Service → M → Bytes × Service × M
  unfolding handle_list handle_read handle_delete handle_send handle_status
  dispatch_command now header payload s m =
      if header.code == command_code CommandType.list_sms
      then handle_list now payload s m
      else if header.code == command_code CommandType.read_sms
      then (handle_read payload s, s, m)
      else if header.code == command_code CommandType.delete_sms
      then handle_delete payload s m
      else if header.code == command_code CommandType.send_sms
      then (handle_send payload, s, m)
      else if header.code == command_code CommandType.status
      then (handle_status port, s, m)
      else (serialize_response Status.invalid_args header.sequence_id [], s, m)

  unfoldable pub process_command : ℕ → Bytes → Service → M → Bytes × Service × M
  unfolding dispatch_command parse_header
  process_command now request s m = elim (parse_header request) [
    | none ↦ (serialize_response Status.failed 0 [], s, m)
    | some (header, offset) ↦ dispatch_command now header (drop offset request) s m
  ]
