-- ===== src/Examples/Client.antt =====
-- A client connected to the service of Examples/Server.
use sms_relay.Base.{
  ◌<◌, ◌^◌, ◌≡◌, refl, sym, true, some, List, [], ◌∷◌, ◌++◌, append-nil, map, Bytes, length, arith,
}
use mathlib.Core.Path.{subst}
use sms_relay.Base.Text.{codes, to_string}
use sms_relay.Sms.Service
use sms_relay.Sms.Service.{
  Modem, Service, get_cached_messages, refresh_cache, refresh_with, list_and_decode_messages,
}
use sms_relay.Config.Types.{pos}
use sms_relay.Ipc.Protocol.{SmsInfo, CommandType}
use sms_relay.Ipc.Wire.{serialize_request, serialize_u32, serialize_str, serialize_u8}
use sms_relay.Ipc.Payload.{
  serialize_list, serialize_read, serialize_sms_info, serialize_combined, serialize_parts,
}
use sms_relay.Ipc.Server.{
  listed_info, cached_info, missing_info, find_cached, read_info, infos_payload, serialize_infos,
}
use sms_relay.Ipc.Server.Answers.{length-serialize_request}
use sms_relay.Ipc.Client.{IpcClient, on_socket}
use sms_relay.Cli.Arguments.{option_value, index_options, parse_indices, getlines, parse_tokens}
use sms_relay.Cli.Print.{line, print_sms_table, full_infos}
use sms_relay.Cli.Responses.{printed, warned}
use sms_relay.Cli.Commands.{execute_list, execute_read}
use sms_relay.Cli.Commands.Service.{
  AreSendable, response_to, execute_list-service, execute_read-service,
}
use sms_relay.Examples.Server.{
  Pipe, pipe, incoming, refusing, silent, message, service, unset, pipe-IsStream,
}

-- A connected client to which these bytes are going to come.
abbrev connected : Pipe → IpcClient Pipe
connected s = record { host = codes "::1"; port = pos 7896; sock = some s; connected = true }

abbrev listed : List SmsInfo
listed = map listed_info (message ∷ [])

plain-IsSendable : (infos : List SmsInfo) → infos ≡ listed → AreSendable infos
unfolding listed_info infos_payload serialize_infos serialize_sms_info serialize_combined
    serialize_u32 serialize_str serialize_u8
plain-IsSendable infos e = subst AreSendable (sym e) (record {
  each = (
    record {
      sender_length = omega arith;
      text_length = omega arith;
      timestamp_length = omega arith;
      parts_length = omega arith;
      parts_combined = λ _. refl;
    },
    tt,
  );
  few = omega arith;
  short = omega arith;
})

listed_messages :
    map listed_info (list_and_decode_messages refusing true silent 0 service 0).0 ≡ listed
unfolding list_and_decode_messages refresh_cache refresh_with Service.create
listed_messages = refl

abbrev list_request : Bytes
list_request =
    serialize_request CommandType.list_sms 0 (serialize_list (record { status = codes "ALL" }))

abbrev list_pipe : Pipe
list_pipe = (response_to 7896 unset refusing true silent 0 list_request service 0 ++ 9 ∷ [], [])

all_status : length (option_value (codes "--status") (codes "ALL") []) < 2 ^ 32
unfolding option_value
all_status = omega arith

execute_list-service_example :
    let infos : List SmsInfo =
      map listed_info (list_and_decode_messages refusing true silent 0 service 0).0 in
    (s' : Pipe) × (execute_list pipe [] (connected list_pipe) ≡ (
      printed (
          line (line (codes "Total messages: " ++ to_string (length infos)))
          ++ print_sms_table infos),
      on_socket pipe s' (connected list_pipe),
    ))
    × (incoming s' ≡ 9 ∷ [])
unfolding option_value
execute_list-service_example =
    execute_list-service pipe incoming pipe-IsStream 7896 unset refusing true silent [] (9 ∷ []) 0
      service 0 list_pipe (connected list_pipe) refl refl all_status
      (plain-IsSendable
        (map listed_info (list_and_decode_messages refusing true silent 0 service 0).0)
        listed_messages)
      (omega (
        arith,
        length-serialize_request CommandType.list_sms 0
            (serialize_list (record { status = codes "ALL" })),
      ))
      refl

abbrev read_request : Bytes
read_request =
    serialize_request CommandType.read_sms 0 (serialize_read (record { indices = 4 ∷ 5 ∷ [] }))

abbrev read_pipe : Pipe
read_pipe = (response_to 7896 unset refusing true silent 0 read_request service 0, [])

abbrev read_infos : List SmsInfo
read_infos = map (read_info unset (get_cached_messages service)) (4 ∷ 5 ∷ [])

read_infos-AreSendable : AreSendable read_infos
unfolding read_info find_cached cached_info missing_info infos_payload serialize_infos
    serialize_sms_info serialize_combined serialize_parts serialize_u32 serialize_str serialize_u8
    Service.create get_cached_messages
read_infos-AreSendable = record {
  each = (
    record {
      sender_length = omega arith;
      text_length = omega arith;
      timestamp_length = omega arith;
      parts_length = omega arith;
      parts_combined = λ e. absurd (cc e);
    },
    (
      record {
        sender_length = omega arith;
        text_length = omega arith;
        timestamp_length = omega arith;
        parts_length = omega arith;
        parts_combined = λ _. refl;
      },
      tt,
    ),
  );
  few = omega arith;
  short = omega arith;
}

abbrev read_args : List Bytes
read_args = codes "--index" ∷ codes "4,5" ∷ []

read_args_indices : index_options read_args ≡ (4 ∷ 5 ∷ [], [])
unfolding index_options parse_indices getlines parse_tokens
read_args_indices = refl

execute_read-service_example :
    (s' : Pipe) × (execute_read pipe read_args (connected read_pipe)
      ≡ (warned [] (printed (full_infos read_infos)), on_socket pipe s' (connected read_pipe)))
    × (incoming s' ≡ [])
execute_read-service_example =
    execute_read-service pipe incoming pipe-IsStream 7896 unset refusing true silent read_args 4
      (5 ∷ []) [] [] 0 service 0 read_pipe (connected read_pipe) read_args_indices refl refl
      (omega arith) read_infos-AreSendable
      (omega (
        arith,
        length-serialize_request CommandType.read_sms 0
            (serialize_read (record { indices = 4 ∷ 5 ∷ [] })),
      ))
      (sym (append-nil _))
