-- ===== src/Ipc/Server/Connection.antt =====
-- `handle_client_thread` of `IpcServer` (src/sms_relay/ipc/ipc_server.cpp), up to the closing of the
-- socket, on any socket.
pub mod Receiving
pub mod Requests
use sms_relay.Base.{
  ℕ, zero, suc, ◌*◌, Bool, true, false, not, ◌||◌, Option, none, some, List, [], ◌∷◌, ◌++◌, Bytes,
  ltb, ◌==◌, if◌then◌else◌,
}
use sms_relay.Base.Result.{Error}
use sms_relay.Sms.Service.{Modem, Service}
use sms_relay.Ipc.Protocol.{ipc_magic, SmsInfo}
use sms_relay.Ipc.Header.{Header, parse_header}
use sms_relay.Ipc.Socket.{Socket, recv_exactly}
use sms_relay.Ipc.Server.{process_command}

abbrev pub max_payload_size : ℕ
max_payload_size = 1024 * 1024

-- The two checks of a header.
unfoldable pub is_acceptable : Header → Bool
is_acceptable header = not (not (header.magic == ipc_magic) || ltb max_payload_size header.length)

module _ {S : Type 0} (socket : Socket S) where
  -- With no payload announced, nothing more is received.
  unfoldable pub receive_payload : Bytes → ℕ → S → Option Bytes × S
  unfolding recv_exactly
  receive_payload header_buf zero s = (some header_buf, s)
  receive_payload header_buf (suc length) s =
      let (payload, s') = recv_exactly socket (suc length) s in
      (elim payload [ none ↦ none | some bytes ↦ some (header_buf ++ bytes) ], s')

  unfoldable pub checked_payload : Bytes → Option (Header × ℕ) → S → Option Bytes × S
  unfolding is_acceptable receive_payload
  checked_payload header_buf none s = (none, s)
  checked_payload header_buf (some (header, offset)) s =
      if is_acceptable header then receive_payload header_buf header.length s else (none, s)

  -- A whole request, or `none` where the client is dropped.
  unfoldable pub receive_request : S → Option Bytes × S
  unfolding recv_exactly checked_payload parse_header
  receive_request s =
      let (header, s') = recv_exactly socket 16 s in
      elim header [
        | none ↦ (none, s')
        | some header_buf ↦ checked_payload header_buf (parse_header header_buf) s'
      ]

  -- The result of `send` is not looked at.
  unfoldable pub send_response : Bytes → S → S
  send_response [] s = s
  send_response (b ∷ bs) s = (socket.send (b ∷ bs) s).1

module _ {M S : Type 0} (socket : Socket S) (port : ℕ) (unset : SmsInfo) (modem : Modem M)
    (left_first : Bool) (what : Error → Bytes) where
  -- What is done with what was received, and whether the loop goes on.
  unfoldable pub answer : ℕ → Option Bytes → S → Service → M → Bool × S × Service × M
  unfolding send_response process_command
  answer now none s service m = (false, s, service, m)
  answer now (some request) s service m =
      let (response, service', m') =
        process_command port unset modem left_first what now request service m in
      (true, send_response socket response s, service', m')

  -- A round of the loop in `handle_client_thread`, at a time.
  unfoldable pub serve : ℕ → S → Service → M → Bool × S × Service × M
  unfolding receive_request answer
  serve now s service m =
      let (request, s') = receive_request socket s in answer now request s' service m

  -- The rounds, each with what it reads of `running_` and `client.active` and with its time. The
  -- first result tells whether the thread is still in its loop after them.
  unfoldable pub handle_client_thread : List (Bool × ℕ) → S → Service → M → Bool × S × Service × M
  unfolding serve
  handle_client_thread [] s service m = (true, s, service, m)
  handle_client_thread ((running, now) ∷ rounds) s service m = elim running [
    | false ↦ (false, s, service, m)
    | true ↦
        let (next, s', service', m') = serve now s service m in
        elim next [
          | false ↦ (false, s', service', m')
          | true ↦ handle_client_thread rounds s' service' m'
        ]
  ]
