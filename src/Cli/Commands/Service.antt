-- ===== src/Cli/Commands/Service.antt =====
-- A command of the client, the request that goes out, and what the service answers to it.
use sms_relay.Base.{
  ℕ, ◌<◌, ◌^◌, ◌≡◌, ap, ◌∙◌, Bool, true, false, some, List, [], ◌∷◌, ◌++◌, All, Bytes, length,
  length-append, map, ◌==◌, arith, if◌then◌else◌,
}
use sms_relay.Base.Result.{Error}
use sms_relay.Base.Text.{codes, to_string}
use sms_relay.Sms.Service.{Modem, Service, get_cached_messages, list_and_decode_messages}
use sms_relay.Ipc.Protocol.{SmsInfo, CommandType, Status}
use sms_relay.Ipc.Wire.{serialize_request, serialize_str, serialize_vec}
use sms_relay.Ipc.Payload.{serialize_list, serialize_read, serialize_delete}
use sms_relay.Ipc.Payload.RoundTrip.{IsSendable}
use sms_relay.Ipc.Socket.{Socket}
use sms_relay.Ipc.Socket.Stream.{IsStream}
use sms_relay.Ipc.Server.{listed_info, read_info, infos_payload, success, process_command}
use sms_relay.Ipc.Server.Answers.{length-serialize_vec, process_command-list, process_command-read}
use sms_relay.Ipc.Server.Deletions.{IsDeletion, length-IsDeletion, process_command-deleted}
use sms_relay.Ipc.Client.{IpcClient, on_socket}
use sms_relay.Ipc.Client.Exchange.{send_command-response}
use sms_relay.Cli.Arguments.{option_value, index_options}
use sms_relay.Cli.Print.{line, print_sms_table, full_infos}
use sms_relay.Cli.Responses.{
  Outcome, printed, failure, warned, index_line, list_outcome, read_outcome, delete_outcome,
}
use sms_relay.Cli.Commands.{exchange, execute_list, execute_read, execute_delete}
use sms_relay.Cli.Commands.Answers.{list_outcome-infos, read_outcome-infos, delete_outcome-indices}

-- Messages that a response can carry.
pub record AreSendable (infos : List SmsInfo) : Type 0 where
  pub each : All IsSendable infos
  pub few : length infos < 2 ^ 32
  pub short : length (infos_payload infos) < 2 ^ 32

module _ {M : Type 0} (port : ℕ) (unset : SmsInfo) (modem : Modem M) (left_first : Bool)
    (what : Error → Bytes) where
  -- What the service sends back to a request.
  abbrev pub response_to : ℕ → Bytes → Service → M → Bytes
  response_to now request service m =
      (process_command port unset modem left_first what now request service m).0

module _ {M S : Type 0} (socket : Socket S) (incoming : S → Bytes)
    (stream : IsStream socket incoming) (port : ℕ) (unset : SmsInfo) (modem : Modem M)
    (left_first : Bool) (what : Error → Bytes) where
  -- A handler's exchange that ends with a success.
  exchange-success :
      (cmd : CommandType) (request payload rest : Bytes) (outcome : Bytes → Outcome) (s : S)
      (c : IpcClient S)
      → c.connected ≡ true
      → c.sock ≡ some s
      → 0 < (socket.send (serialize_request cmd 0 request) s).0
      → length payload < 2 ^ 32
      → incoming (socket.send (serialize_request cmd 0 request) s).1 ≡ success payload ++ rest
      → (s' : S) × (exchange socket cmd request outcome c
          ≡ (outcome (success payload), on_socket socket s' c))
        × (incoming s' ≡ rest)
  unfolding exchange
  exchange-success cmd request payload rest outcome s c connected sock sent p e =
      let (s', got, left) =
        send_command-response socket incoming stream (serialize_request cmd 0 request)
          Status.success 0 payload rest s c connected sock sent (omega arith) p e in
      (s', ap (λ z. (outcome z.0, z.1)) got, left)

  -- The client's `list` against the service, for a client connected on a stream socket: what comes
  -- back to its request is what `process_command` answers to it. The client then prints the messages of the service in their
  -- order, with their number, as the service decoded them, and stays connected; what follows the
  -- answer is not touched. `send` takes the request, the option `--status` is shorter than 2 ^ 32
  -- bytes, and a response can carry the messages.
  pub execute_list-service :
      (args : List Bytes) (rest : Bytes) (now : ℕ) (service : Service) (m : M) (s : S)
      (c : IpcClient S)
      → let status : Bytes = option_value (codes "--status") (codes "ALL") args in
        let request : Bytes =
          serialize_request CommandType.list_sms 0 (serialize_list (record { status = status })) in
        let infos : List SmsInfo =
          map listed_info (list_and_decode_messages modem left_first what now service m).0 in
        c.connected ≡ true
        → c.sock ≡ some s
        → length status < 2 ^ 32
        → AreSendable infos
        → 0 < (socket.send request s).0
        → incoming (socket.send request s).1
          ≡ response_to port unset modem left_first what now request service m ++ rest
        → (s' : S) × (execute_list socket args c ≡ (
          printed (
              line (line (codes "Total messages: " ++ to_string (length infos)))
              ++ print_sms_table infos),
          on_socket socket s' c,
        ))
          × (incoming s' ≡ rest)
  unfolding execute_list serialize_list
  execute_list-service args rest now service m s c connected sock k sendable sent e =
      let status : Bytes = option_value (codes "--status") (codes "ALL") args in
      let infos : List SmsInfo =
        map listed_info (list_and_decode_messages modem left_first what now service m).0 in
      let answered =
        process_command-list port unset modem left_first what now 0 status service m (omega arith)
          k in
      let (s', got, left) =
        exchange-success CommandType.list_sms (serialize_str status) (infos_payload infos) rest
          list_outcome s c connected sock sent sendable.short
          (e ∙ ap (λ z. z.0 ++ rest) answered) in
      (
        s',
        got
            ∙ ap (λ o. (o, on_socket socket s' c))
                (list_outcome-infos infos sendable.each sendable.few sendable.short),
        left,
      )

  -- The client's `read` of at least one index against the service, for a client connected on a
  -- stream socket: what comes back to its request is what `process_command` answers to it. The
  -- client then prints the warnings of the arguments and, for each index asked for, in their order,
  -- the message that the cache of the service has for it, or the one that stands for an index it
  -- does not have, and stays connected; what follows the answer is not touched. `send` takes the
  -- request, there are fewer than 2 ^ 32 indices, and a response can carry the messages.
  pub execute_read-service :
      (args : List Bytes) (index : ℕ) (others errors rest : Bytes) (now : ℕ) (service : Service)
      (m : M) (s : S) (c : IpcClient S)
      → let request : Bytes =
          serialize_request CommandType.read_sms 0
            (serialize_read (record { indices = index ∷ others })) in
        let infos : List SmsInfo =
          map (read_info unset (get_cached_messages service)) (index ∷ others) in
        index_options args ≡ (index ∷ others, errors)
        → c.connected ≡ true
        → c.sock ≡ some s
        → length (index ∷ others) < 2 ^ 32
        → AreSendable infos
        → 0 < (socket.send request s).0
        → incoming (socket.send request s).1
          ≡ response_to port unset modem left_first what now request service m ++ rest
        → (s' : S) × (execute_read socket args c
            ≡ (warned errors (printed (full_infos infos)), on_socket socket s' c))
          × (incoming s' ≡ rest)
  unfolding execute_read serialize_read
  execute_read-service args index others errors rest now service m s c given connected sock k
        sendable sent e =
      let infos : List SmsInfo =
        map (read_info unset (get_cached_messages service)) (index ∷ others) in
      let answered =
        process_command-read port unset modem left_first what now 0 index others service m
          (omega arith) k in
      let (s', got, left) =
        exchange-success CommandType.read_sms (serialize_vec (index ∷ others)) (infos_payload infos)
          rest read_outcome s c connected sock sent sendable.short
          (e ∙ ap (λ z. z.0 ++ rest) answered) in
      let some_there : (length infos == 0) ≡ false = ground arith in
      (
        s',
        ap
              (λ found. elim found.0 as (λ _. Outcome × IpcClient S) [
                | [] ↦ (failure (found.1 ++ line (codes "Error: No indices specified")), c)
                | i ∷ is ↦
                    let (outcome, c') =
                      exchange socket CommandType.read_sms (serialize_vec (i ∷ is)) read_outcome
                        c in
                    (warned found.1 outcome, c')
              ])
              given
            ∙ ap (λ z. (warned errors z.0, z.1)) got
            ∙ ap (λ o. (warned errors o, on_socket socket s' c))
                (read_outcome-infos infos sendable.each sendable.few sendable.short
                  ∙ ap
                      (λ b.
                        printed (if b then line (codes "No messages found") else full_infos infos))
                      some_there),
        left,
      )

  -- `delete` likewise: the indices of the command, shared out into those deleted and those that
  -- failed by the answers of the modem, each in its order, are what the client prints.
  pub execute_delete-service :
      (args : List Bytes) (index : ℕ) (others errors rest : Bytes) (now : ℕ) (service : Service)
      (m : M) (s : S) (c : IpcClient S)
      → let request : Bytes =
          serialize_request CommandType.delete_sms 0
            (serialize_delete (record { indices = index ∷ others })) in
        index_options args ≡ (index ∷ others, errors)
        → c.connected ≡ true
        → c.sock ≡ some s
        → length (index ∷ others) < 2 ^ 31
        → 0 < (socket.send request s).0
        → incoming (socket.send request s).1
          ≡ response_to port unset modem left_first what now request service m ++ rest
        → (deleted : Bytes) × (failed : Bytes) × (s' : S) × (m' : M) × IsDeletion modem
            service.message_cache m deleted failed
            (index ∷ others)
            m'
          × (execute_delete socket args c ≡ (
            warned errors (
                printed (
                  line (codes "Delete operation completed:")
                  ++ (index_line (codes "  Deleted: ") deleted
                      ++ index_line (codes "  Failed: ") failed))),
            on_socket socket s' c,
          ))
          × (incoming s' ≡ rest)
  unfolding execute_delete serialize_delete
  execute_delete-service args index others errors rest now service m s c given connected sock k sent
        e =
      let (deleted, failed, answered, shared, _, _) =
        process_command-deleted port unset modem left_first what index now 0 index others service m
          (omega arith) (omega arith) in
      let total = length-IsDeletion shared in
      let (s', got, left) =
        exchange-success CommandType.delete_sms (serialize_vec (index ∷ others))
          (serialize_vec deleted ++ serialize_vec failed) rest delete_outcome s c connected sock
          sent
          (omega (
            arith,
            length-append (serialize_vec deleted) (serialize_vec failed),
            length-serialize_vec deleted,
            length-serialize_vec failed,
          ))
          (e ∙ ap (λ z. z ++ rest) answered) in
      (
        deleted,
        failed,
        s',
        _,
        shared,
        ap
              (λ found. elim found.0 as (λ _. Outcome × IpcClient S) [
                | [] ↦ (failure (found.1 ++ line (codes "Error: No indices specified")), c)
                | i ∷ is ↦
                    let (outcome, c') =
                      exchange socket CommandType.delete_sms (serialize_vec (i ∷ is)) delete_outcome
                        c in
                    (warned found.1 outcome, c')
              ])
              given
            ∙ ap (λ z. (warned errors z.0, z.1)) got
            ∙ ap (λ o. (warned errors o, on_socket socket s' c))
                (delete_outcome-indices deleted failed (omega arith)),
        left,
      )
