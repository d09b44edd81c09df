-- ===== src/Examples/Server.antt =====
-- A service with one message in its cache, on a connection that delivers three bytes at a time.
use sms_relay.Base.{
  ℕ, suc, ◌*◌, ◌≤◌, ◌<◌, ◌≡◌, refl, sym, ap, true, false, none, List, [], ◌∷◌, ◌++◌, min, Bytes,
  length, length-take, take, drop, take-append-drop, if◌then◌else◌, arith,
}
use sms_relay.Base.Result.{Error, ok}
use sms_relay.Base.Text.{codes}
use sms_relay.Pdu.Decode.{empty_message}
use sms_relay.Sms.Message.{IncomingSms, blank_sms}
use sms_relay.Sms.Inbox.Table.{message_at}
use sms_relay.Sms.Service
use sms_relay.Sms.Service.{
  Modem, Service, get_cached_messages, refresh_cache, refresh_with, list_and_decode_messages,
}
use sms_relay.Ipc.Protocol.{SmsInfo, CommandType}
use sms_relay.Ipc.Wire.{serialize_request, serialize_u32, serialize_vec}
use sms_relay.Ipc.Header.RoundTrip.{header_bytes}
use sms_relay.Ipc.Socket.{Socket}
use sms_relay.Ipc.Socket.Stream.{IsStream, IsSender}
use sms_relay.Ipc.Server.{success, process_command}
use sms_relay.Ipc.Server.Deletions.{IsDeletion, contains, with_cache, process_command-deleted}
use sms_relay.Ipc.Server.Connection.{handle_client_thread}
use sms_relay.Ipc.Server.Connection.Receiving.{Request, IsBroken}
use sms_relay.Ipc.Server.Connection.Requests.{
  joined_bytes, rounds_of, answer_each, handle_client_thread-requests, handle_client_thread-broken,
}

-- What comes in and what went out.
abbrev pub Pipe : Type 0
Pipe = Bytes × Bytes

abbrev pub pipe : Socket Pipe
pipe = record {
  recv = λ n s. (take (min n 3) s.0, (drop (min n 3) s.0, s.1));
  send = λ bytes s. (length bytes, (s.0, s.1 ++ bytes));
}

abbrev pub incoming : Pipe → Bytes
incoming s = s.0

abbrev outgoing : Pipe → Bytes
outgoing s = s.1

nothing_left : (n : ℕ) (xs : Bytes) → 0 < n → take (min n 3) xs ≡ [] → xs ≡ []
nothing_left n [] h e = refl
nothing_left n (x ∷ xs) h e = absurd (omega (arith, h, ap length e, length-take (min n 3) (x ∷ xs)))

pub pipe-IsStream : IsStream pipe incoming
pipe-IsStream = record {
  in_order = λ n s. sym (take-append-drop (min n 3) s.0);
  at_most = λ n s. omega (arith, length-take (min n 3) s.0);
  at_end = λ n s h e. nothing_left n s.0 h e;
}

pipe-IsSender : IsSender pipe incoming outgoing
pipe-IsSender = record {
  sent = λ bytes s. refl;
  behind = λ bytes s. refl;
  apart = λ bytes s. refl;
  quiet = λ n s. refl;
}

-- A modem that refuses every command, counting them.
abbrev pub refusing : Modem ℕ
refusing = record {
  send_command = λ command n.
      (ok (record { success = false; status = codes "ERROR"; error_code = []; lines = [] }), suc n);
}

abbrev accepting : Modem ℕ
accepting = record {
  send_command = λ command n.
      (ok (record { success = true; status = codes "OK"; error_code = []; lines = [] }), suc n);
}

abbrev pub silent : Error → Bytes
silent e = []

abbrev pub message : IncomingSms
message = record blank_sms {
  index = 4;
  decoded = record empty_message {
    number = codes "+1";
    text = codes "hi";
    timestamp = codes "now";
  };
  success = true;
}

abbrev pub service : Service
service = record (Service.create (codes "ME")) {
  message_cache = message ∷ [];
  cache_initialized = true;
}

abbrev pub unset : SmsInfo
unset = record {
  index = 0;
  sender = [];
  text = [];
  timestamp = [];
  has_udh = true;
  concat_seq = 170;
  concat_total = 170;
  status = 170;
  is_combined = false;
  parts = [];
}

abbrev delete_request : Bytes
delete_request = serialize_request CommandType.delete_sms 3 (serialize_vec (4 ∷ 5 ∷ []))

process_command-deleted_example :
    let (response, s', m') =
      process_command 7896 unset accepting true silent 0 delete_request service 0 in
    (deleted : Bytes) × (failed : Bytes) × (response
      ≡ success (serialize_vec deleted ++ serialize_vec failed))
    × IsDeletion accepting service.message_cache 0 deleted failed (4 ∷ 5 ∷ []) m'
    × (s' ≡ with_cache s'.message_cache service)
    × (message_at s'.message_cache 4
        ≡ (if contains 4 deleted then none else message_at service.message_cache 4))
process_command-deleted_example =
    process_command-deleted 7896 unset accepting true silent 4 0 3 4 (5 ∷ []) service 0
      (omega arith) (omega arith)

-- Two requests in a row.
abbrev requests : List (ℕ × Request)
requests =
    (5, record { code = 5; seq = 1; payload = [] })
    ∷ (6, record { code = 2; seq = 2; payload = serialize_vec (4 ∷ []) })
    ∷ []

short_vec : length (serialize_vec (4 ∷ [])) ≤ 1024 * 1024
unfolding serialize_vec serialize_u32
short_vec = omega arith

abbrev two_requests : Pipe
two_requests = (joined_bytes requests ++ 9 ∷ [], [])

handle_client_thread-requests_example :
    let (responses, service', m') =
      answer_each 7896 unset accepting true silent requests service 0 in
    (s' : Pipe) × (handle_client_thread pipe 7896 unset accepting true silent
        (rounds_of requests)
        two_requests
        service
        0
      ≡ (true, s', service', m'))
    × (incoming s' ≡ 9 ∷ [])
    × (outgoing s' ≡ responses)
handle_client_thread-requests_example =
    handle_client_thread-requests pipe incoming outgoing pipe-IsStream pipe-IsSender 7896 unset
      accepting true silent requests (9 ∷ []) two_requests service 0
      (
        record { code_bound = omega arith; seq_bound = omega arith; payload_bound = omega arith },
        (
          record { code_bound = omega arith; seq_bound = omega arith; payload_bound = short_vec },
          tt,
        ),
      )
      refl

abbrev other_header : Bytes
other_header = header_bytes (record { magic = 7; length = 0; code = 1; sequence_id = 0 })

handle_client_thread-broken_example :
    (s' : Pipe) × (handle_client_thread pipe 7896 unset accepting true silent
        ((true, 0) ∷ (true, 1) ∷ [])
        (other_header ++ 1 ∷ [], [])
        service
        0
      ≡ (false, s', service, 0))
    × (outgoing s' ≡ [])
handle_client_thread-broken_example =
    handle_client_thread-broken pipe incoming outgoing pipe-IsStream pipe-IsSender 7896 unset
      accepting true silent 0 ((true, 1) ∷ []) (other_header ++ 1 ∷ [], []) service 0
      (IsBroken.bad_magic (record { magic = 7; length = 0; code = 1; sequence_id = 0 }) (1 ∷ [])
        (record {
          magic_bound = omega arith;
          length_bound = omega arith;
          code_bound = omega arith;
          sequence_id_bound = omega arith;
        })
        refl (λ e. absurd (omega (arith, e))))
