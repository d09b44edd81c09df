-- ===== src/Cli/Commands.antt =====
-- The command handlers and `CliApp` of src/sms_relay_cli/main.cpp.
pub mod Readers
pub mod Answers
pub mod Service
use sms_relay.Base.{
  ℕ, zero, suc, Bool, true, false, Option, none, some, List, [], ◌∷◌, ◌++◌, Bytes, ◌==◌,
  if◌then◌else◌,
}
use sms_relay.Base.Text.{codes, to_string, bytes_eq}
use sms_relay.Ipc.Protocol.{CommandType, Status, status_code, SmsInfo}
use sms_relay.Ipc.Wire.{
  deserialize_u8, deserialize_u32, deserialize_str, deserialize_vec, serialize_request,
}
use sms_relay.Ipc.Payload.{
  serialize_list, serialize_read, serialize_delete, serialize_send, deserialize_sms_info,
}
use sms_relay.Ipc.Offsets.{after_u8, after_bytes, after_sms_info}
use sms_relay.Ipc.Header.{Header, parse_header}
use sms_relay.Ipc.Socket.{Socket}
use sms_relay.Ipc.Client.{IpcClient, send_command}
use sms_relay.Cli.Arguments.{option_value, index_options, send_options}
use sms_relay.Cli.Print.{line, print_sms_table, full_infos, index_list}
use sms_relay.Cli.Responses.{
  Outcome, printed, failure, invalid_response, warned, is_success, after_header, with_payload,
  read_infos, with_count, print_list, print_read, refused_list, list_outcome, read_outcome,
  vec_or_empty, index_line, print_deleted, delete_outcome, error_line, send_outcome, number_or_zero,
  status_text, print_status, status_outcome,
}

module _ {S : Type 0} (socket : Socket S) where
  -- A request, and what a handler makes of the response.
  unfoldable pub exchange :
      CommandType → Bytes → (Bytes → Outcome) → IpcClient S → Outcome × IpcClient S
  unfolding send_command
  exchange cmd payload outcome c =
      let (response, c') = send_command socket (serialize_request cmd 0 payload) c in
      (outcome response, c')

  unfoldable pub execute_list : List Bytes → IpcClient S → Outcome × IpcClient S
  unfolding exchange option_value list_outcome
  execute_list args c =
      exchange CommandType.list_sms
        (serialize_list (record { status = option_value (codes "--status") (codes "ALL") args }))
        list_outcome c

  -- With no index nothing is sent. Complaints about single indices come first.
  unfoldable pub execute_read : List Bytes → IpcClient S → Outcome × IpcClient S
  unfolding exchange index_options read_outcome
  execute_read args c =
      let (indices, errors) = index_options args in
      elim indices [
        | [] ↦ (failure (errors ++ line (codes "Error: No indices specified")), c)
        | index ∷ others ↦
            let (outcome, c') =
              exchange CommandType.read_sms (serialize_read (record { indices = index ∷ others }))
                read_outcome c in
            (warned errors outcome, c')
      ]

  unfoldable pub execute_delete : List Bytes → IpcClient S → Outcome × IpcClient S
  unfolding exchange index_options delete_outcome
  execute_delete args c =
      let (indices, errors) = index_options args in
      elim indices [
        | [] ↦ (failure (errors ++ line (codes "Error: No indices specified")), c)
        | index ∷ others ↦
            let (outcome, c') =
              exchange CommandType.delete_sms
                (serialize_delete (record { indices = index ∷ others })) delete_outcome c in
            (warned errors outcome, c')
      ]

  unfoldable pub send_message : Bytes → Bytes → IpcClient S → Outcome × IpcClient S
  unfolding exchange send_outcome
  send_message recipient text c =
      exchange CommandType.send_sms (serialize_send (record { recipient = recipient; text = text }))
        send_outcome c

  abbrev needs_both : Outcome
  needs_both = failure (line (codes "Error: Both --to and --text must be specified"))

  unfoldable pub send_both : Bytes → Bytes → IpcClient S → Outcome × IpcClient S
  unfolding send_message
  send_both [] text c = (needs_both, c)
  send_both recipient [] c = (needs_both, c)
  send_both (r ∷ recipient) (t ∷ text) c = send_message (r ∷ recipient) (t ∷ text) c

  unfoldable pub execute_send : List Bytes → IpcClient S → Outcome × IpcClient S
  unfolding send_both send_options
  execute_send args c =
      let (recipient, text) = send_options ([], []) args in send_both recipient text c

  unfoldable pub execute_status : IpcClient S → Outcome × IpcClient S
  unfolding exchange status_outcome
  execute_status c = exchange CommandType.status [] status_outcome c

  -- `get_command_handler` and the call of the handler; `usage` is what `print_usage` writes.
  unfoldable pub execute_command : Bytes → Bytes → List Bytes → IpcClient S → Outcome × IpcClient S
  unfolding bytes_eq execute_list execute_read execute_delete execute_send execute_status
  execute_command usage command args c =
      if bytes_eq command (codes "list")
      then execute_list args c
      else if bytes_eq command (codes "read")
      then execute_read args c
      else if bytes_eq command (codes "delete")
      then execute_delete args c
      else if bytes_eq command (codes "send")
      then execute_send args c
      else if bytes_eq command (codes "status")
      then execute_status c
      else (
        record {
          exit_code = 1;
          out = usage;
          errors = line (codes "Error: Unknown command '" ++ (command ++ codes "'"));
        },
        c,
      )
