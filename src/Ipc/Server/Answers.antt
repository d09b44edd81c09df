-- ===== src/Ipc/Server/Answers.antt =====
-- What the commands of `IpcServer` answer.
use sms_relay.Base.{
  ℕ, ◌+◌, ◌<◌, ◌^◌, ◌≡◌, sym, ap, ◌∙◌, Bool, none, some, [], ◌∷◌, ◌++◌, append-nil, Bytes, length,
  length-append, drop, map, arith,
}
use sms_relay.Base.Result.{Error}
use sms_relay.Sms.Service.{Modem, Service, get_cached_messages, list_and_decode_messages}
use sms_relay.Ipc.Protocol.{CommandType, command_code, Status, SmsInfo}
use sms_relay.Ipc.Wire.{
  size_u32, serialize_u32, serialize_request, serialize_response, serialize_str, serialize_vec,
  deserialize_str, deserialize_vec,
}
use sms_relay.Ipc.Wire.RoundTrip.{Fits, deserialize-serialize_str, deserialize-serialize_vec}
use sms_relay.Ipc.Header.{parse_header}
use sms_relay.Ipc.Header.RoundTrip.{
  header_bytes, length-header_bytes, message, header_of, request-message, parse_header-message,
}
use sms_relay.Ipc.Server.{
  invalid_args, success, listed_info, read_info, infos_payload, handle_list, handle_read,
  handle_delete, delete_indices, dispatch_command, process_command,
}

command_code-small : (cmd : CommandType) → command_code cmd < 2 ^ 32
unfolding command_code
command_code-small CommandType.list_sms = omega arith
command_code-small CommandType.read_sms = omega arith
command_code-small CommandType.delete_sms = omega arith
command_code-small CommandType.send_sms = omega arith
command_code-small CommandType.status = omega arith
command_code-small CommandType.shutdown = omega arith

length-serialize_u32 : (v : ℕ) → length (serialize_u32 v) ≡ 4
unfolding serialize_u32
length-serialize_u32 v = omega arith

length-serialize_str : (text : Bytes) → length (serialize_str text) ≡ 4 + length text
unfolding serialize_str
length-serialize_str text =
    length-append (serialize_u32 (size_u32 text)) text
    ∙ ap (λ n. n + length text) (length-serialize_u32 (size_u32 text))

pub length-serialize_vec : (indices : Bytes) → length (serialize_vec indices) ≡ 4 + length indices
unfolding serialize_vec
length-serialize_vec indices =
    length-append (serialize_u32 (size_u32 indices)) indices
    ∙ ap (λ n. n + length indices) (length-serialize_u32 (size_u32 indices))

pub length-serialize_request :
    (cmd : CommandType) (seq : ℕ) (payload : Bytes)
    → length (serialize_request cmd seq payload) ≡ 16 + length payload
unfolding message
length-serialize_request cmd seq payload =
    let h = header_of (command_code cmd) seq payload in
    ap length (request-message cmd seq payload)
    ∙ length-append (header_bytes h) payload
    ∙ ap (λ n. n + length payload) (length-header_bytes h)

whole_str :
    (text : Bytes)
    → length text < 2 ^ 32
    → deserialize_str (serialize_str text) 0 ≡ some (text, 0 + 4 + length text)
whole_str text h =
    (deserialize-serialize_str (serialize_str text) 0 text []
      (omega (arith, length-serialize_str text)) h (sym (append-nil _))).0

whole_vec :
    (indices : Bytes)
    → length indices < 2 ^ 32
    → deserialize_vec (serialize_vec indices) 0 ≡ some (indices, 0 + 4 + length indices)
whole_vec indices h =
    (deserialize-serialize_vec (serialize_vec indices) 0 indices []
      (omega (arith, length-serialize_vec indices)) h (sym (append-nil _))).0

module _ {M : Type 0} (port : ℕ) (unset : SmsInfo) (modem : Modem M) (left_first : Bool)
    (what : Error → Bytes) where
  pub process_command-request :
      (now : ℕ) (cmd : CommandType) (seq : ℕ) (payload : Bytes) (s : Service) (m : M)
      → seq < 2 ^ 32
      → Fits (serialize_request cmd seq payload)
      → process_command port unset modem left_first what now (serialize_request cmd seq payload) s m
        ≡ dispatch_command port unset modem left_first what now
            (header_of (command_code cmd) seq payload)
            payload
            s
            m
  unfolding process_command
  process_command-request now cmd seq payload s m b f =
      let e : serialize_request cmd seq payload ≡ message (command_code cmd) seq payload ++ [] =
        request-message cmd seq payload ∙ sym (append-nil _) in
      let (parsed, rest) =
        parse_header-message (command_code cmd) seq payload [] (command_code-small cmd) b
          (omega (arith, ap length e)) in
      let same : parse_header (serialize_request cmd seq payload)
          ≡ some (header_of (command_code cmd) seq payload, 16) =
        ap parse_header e ∙ parsed in
      ap
        (λ p. elim p as (λ _. Bytes × Service × M) [
          | none ↦ (serialize_response Status.failed 0 [], s, m)
          | some (header, offset) ↦
              dispatch_command port unset modem left_first what now header
                (drop offset (serialize_request cmd seq payload)) s m
        ])
        same
      ∙ ap
          (λ rest.
            dispatch_command port unset modem left_first what now
              (header_of (command_code cmd) seq payload) rest s m)
          (ap (drop 16) e ∙ rest ∙ append-nil payload)

  -- A request to list, whatever the status in it says, gets all messages of the service.
  pub process_command-list :
      (now seq : ℕ) (status : Bytes) (s : Service) (m : M)
      → seq < 2 ^ 32
      → length status < 2 ^ 32
      → let (messages, s', m') = list_and_decode_messages modem left_first what now s m in
        process_command port unset modem left_first what now
          (serialize_request CommandType.list_sms seq (serialize_str status))
          s
          m
        ≡ (success (infos_payload (map listed_info messages)), s', m')
  unfolding dispatch_command handle_list command_code
  process_command-list now seq status s m b k =
      process_command-request now CommandType.list_sms seq (serialize_str status) s m b (
        omega (
          arith,
          length-serialize_request CommandType.list_sms seq (serialize_str status),
          length-serialize_str status,
        ))
      ∙ ap
          (λ p. elim p as (λ _. Bytes × Service × M) [
            | none ↦ (invalid_args, s, m)
            | some _ ↦
                let (messages, s', m') = list_and_decode_messages modem left_first what now s m in
                (success (infos_payload (map listed_info messages)), s', m')
          ])
          (whole_str status k)

  -- A request to read gets an answer for each index, and changes nothing.
  pub process_command-read :
      (now seq index : ℕ) (indices : Bytes) (s : Service) (m : M)
      → seq < 2 ^ 32
      → length (index ∷ indices) < 2 ^ 32
      → process_command port unset modem left_first what now
          (serialize_request CommandType.read_sms seq (serialize_vec (index ∷ indices)))
          s
          m
        ≡ (
          success (infos_payload (map (read_info unset (get_cached_messages s)) (index ∷ indices))),
          s,
          m,
        )
  unfolding dispatch_command handle_read command_code
  process_command-read now seq index indices s m b k =
      process_command-request now CommandType.read_sms seq (serialize_vec (index ∷ indices)) s m b (
        omega (
          arith,
          length-serialize_request CommandType.read_sms seq (serialize_vec (index ∷ indices)),
          length-serialize_vec (index ∷ indices),
        ))
      ∙ ap (λ answer. (answer, s, m))
          (ap
            (λ p. elim p as (λ _. Bytes) [
              | none ↦ invalid_args
              | some ([], _) ↦ invalid_args
              | some (i ∷ is, _) ↦
                  success (infos_payload (map (read_info unset (get_cached_messages s)) (i ∷ is)))
            ])
            (whole_vec (index ∷ indices) k))

  -- A request to delete.
  pub process_command-delete :
      (now seq index : ℕ) (indices : Bytes) (s : Service) (m : M)
      → seq < 2 ^ 32
      → length (index ∷ indices) < 2 ^ 32
      → let ((deleted, failed), s', m') =
          delete_indices port unset modem left_first what (index ∷ indices) s m in
        process_command port unset modem left_first what now
          (serialize_request CommandType.delete_sms seq (serialize_vec (index ∷ indices)))
          s
          m
        ≡ (success (serialize_vec deleted ++ serialize_vec failed), s', m')
  unfolding dispatch_command handle_delete command_code
  process_command-delete now seq index indices s m b k =
      process_command-request now CommandType.delete_sms seq (serialize_vec (index ∷ indices)) s m b
        (omega (
          arith,
          length-serialize_request CommandType.delete_sms seq (serialize_vec (index ∷ indices)),
          length-serialize_vec (index ∷ indices),
        ))
      ∙ ap
          (λ p. elim p as (λ _. Bytes × Service × M) [
            | none ↦ (invalid_args, s, m)
            | some ([], _) ↦ (invalid_args, s, m)
            | some (i ∷ is, _) ↦
                let ((deleted, failed), s', m') =
                  delete_indices port unset modem left_first what (i ∷ is) s m in
                (success (serialize_vec deleted ++ serialize_vec failed), s', m')
          ])
          (whole_vec (index ∷ indices) k)
