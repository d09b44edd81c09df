-- ===== src/Cli/Commands/Answers.antt =====
-- The commands of the client and what the service answers to them.
use sms_relay.Base.{
  ℕ, ◌+◌, ◌<◌, ◌^◌, ◌≡◌, sym, ap, ◌∙◌, false, none, some, List, [], ◌++◌, append_assoc, append-nil,
  All, Bytes, length, length-append, drop, ◌==◌, arith, if◌then◌else◌,
}
use sms_relay.Base.Text.{codes, to_string}
use sms_relay.Ipc.Protocol.{SmsInfo, Status, status_code}
use sms_relay.Ipc.Wire.{size_u32, serialize_u32, serialize_vec, serialize_response, deserialize_vec}
use sms_relay.Ipc.Wire.RoundTrip.{Fits, deserialize-serialize_u32, deserialize-serialize_vec}
use sms_relay.Ipc.Offsets.{after_bytes}
use sms_relay.Ipc.Payload.RoundTrip.{IsSendable}
use sms_relay.Ipc.Header.{parse_header}
use sms_relay.Ipc.Header.RoundTrip.{
  header_bytes, header_of, message, response-message, length-header_bytes, parse_header-message,
  status_code-small,
}
use sms_relay.Ipc.Server.{success, count_u32, serialize_infos, infos_payload}
use sms_relay.Ipc.Server.Answers.{length-serialize_vec}
use sms_relay.Cli.Print.{line, print_sms_table, full_infos}
use sms_relay.Cli.Responses.{
  Outcome, printed, invalid_response, with_payload, after_header, is_success, with_count,
  read_infos, refused_list, print_list, print_read, list_outcome, read_outcome, print_deleted,
  delete_outcome, vec_or_empty, index_line,
}
use sms_relay.Cli.Commands.Readers.{read_infos-serialize_infos}

-- The header of a response that a handler gets, and where its payload stands.
response_header :
    (status : Status) (seq : ℕ) (payload : Bytes)
    → seq < 2 ^ 32
    → length payload < 2 ^ 32
    → (parse_header (serialize_response status seq payload)
        ≡ some (header_of (status_code status) seq payload, 16))
      × (drop 16 (serialize_response status seq payload) ≡ payload)
      × Fits (serialize_response status seq payload)
unfolding message
response_header status seq payload q p =
    let same = response-message status seq payload in
    let h = header_of (status_code status) seq payload in
    let size : length (message (status_code status) seq payload) ≡ 16 + length payload =
      length-append (header_bytes h) payload
      ∙ ap (λ n. n + length payload) (length-header_bytes h) in
    let whole = append-nil (message (status_code status) seq payload) in
    let (parsed, rest) =
      parse_header-message (status_code status) seq payload [] (status_code-small status) q
        (omega (arith, size, ap length whole)) in
    (
      ap parse_header (same ∙ sym whole) ∙ parsed,
      ap (drop 16) (same ∙ sym whole) ∙ rest ∙ append-nil payload,
      omega (arith, size, ap length same),
    )

with_payload-success :
    (refused next : ℕ → Outcome) (payload : Bytes)
    → length payload < 2 ^ 32
    → with_payload refused next (success payload) ≡ next 16
unfolding with_payload is_success serialize_response serialize_u32 status_code
with_payload-success refused next payload p =
    ap (after_header refused next) (response_header Status.success 0 payload (omega arith) p).0

with_payload-refused :
    (refused next : ℕ → Outcome) (status : Status) (seq : ℕ) (payload : Bytes)
    → seq < 2 ^ 32
    → length payload < 2 ^ 32
    → is_success (status_code status) ≡ false
    → with_payload refused next (serialize_response status seq payload) ≡ refused 16
unfolding with_payload serialize_response serialize_u32
with_payload-refused refused next status seq payload q p e =
    ap (after_header refused next) (response_header status seq payload q p).0
    ∙ ap (λ b. if b then next 16 else refused 16) e

-- The number of messages in an answer, and the messages.
with_count-infos :
    (next : ℕ → ℕ → Outcome) (infos : List SmsInfo)
    → length infos < 2 ^ 32
    → length (infos_payload infos) < 2 ^ 32
    → (with_count next (success (infos_payload infos)) 16 ≡ next (length infos) 20)
      × (drop 20 (success (infos_payload infos)) ≡ serialize_infos infos)
unfolding with_count infos_payload
with_count-infos next infos k p =
    let (_, rest, fits) = response_header Status.success 0 (infos_payload infos) (omega arith) p in
    let size : count_u32 infos ≡ length infos = omega arith in
    let (a, left, _) =
      deserialize-serialize_u32 (success (infos_payload infos)) 16 (count_u32 infos)
        (serialize_infos infos) fits (omega arith) rest in
    (
      ap
            (λ z. elim z as (λ _. Outcome) [
              | none ↦ invalid_response
              | some (count, end) ↦ next count end
            ])
            a
          ∙ ap (λ n. next n 20) size,
      left,
    )

module _ (infos : List SmsInfo) (sendable : All IsSendable infos) (few : length infos < 2 ^ 32)
    (short : length (infos_payload infos) < 2 ^ 32) where
  abbrev response : Bytes
  response = success (infos_payload infos)

  infos_back : read_infos (length infos) response 20 ≡ infos
  infos_back =
      read_infos-serialize_infos infos response 20 []
        (response_header Status.success 0 (infos_payload infos) (omega arith) short).2 sendable
        ((with_count-infos (print_list response) infos few short).1 ∙ sym (append-nil _))

  -- What the client prints of a list with these messages.
  pub list_outcome-infos :
      list_outcome (success (infos_payload infos))
      ≡ printed (
          line (line (codes "Total messages: " ++ to_string (length infos)))
          ++ print_sms_table infos)
  unfolding list_outcome print_list
  list_outcome-infos =
      with_payload-success refused_list (with_count (print_list response) response)
        (infos_payload infos) short
      ∙ (with_count-infos (print_list response) infos few short).0
      ∙ ap
          (λ messages. printed (
            line (line (codes "Total messages: " ++ to_string (length infos)))
            ++ print_sms_table messages))
          infos_back

  -- What the client prints of messages that it asked for.
  pub read_outcome-infos :
      read_outcome (success (infos_payload infos))
      ≡ printed (if length infos == 0 then line (codes "No messages found") else full_infos infos)
  unfolding read_outcome print_read
  read_outcome-infos =
      with_payload-success refused_list (with_count (print_read response) response)
        (infos_payload infos) short
      ∙ (with_count-infos (print_read response) infos few short).0
      ∙ ap
          (λ messages.
            printed
              (if length infos == 0 then line (codes "No messages found") else full_infos messages))
          infos_back

vec_at :
    (buffer : Bytes) (offset : ℕ) (vec rest : Bytes)
    → Fits buffer
    → length vec < 2 ^ 32
    → drop offset buffer ≡ serialize_vec vec ++ rest
    → (deserialize_vec buffer offset ≡ some (vec, offset + 4 + length vec))
      × (after_bytes buffer offset ≡ offset + 4 + length vec)
      × (drop (offset + 4 + length vec) buffer ≡ rest)
unfolding after_bytes serialize_vec deserialize_vec
vec_at buffer offset vec rest f k e =
    let (got, left) = deserialize-serialize_vec buffer offset vec rest f k e in
    let (a, _, _) =
      deserialize-serialize_u32 buffer offset (size_u32 vec) (vec ++ rest) f (omega arith)
        (e ∙ append_assoc (serialize_u32 (size_u32 vec)) vec rest) in
    (got, ground (arith, a, got), left)

abbrev deleted_text : Bytes → Bytes → Bytes
deleted_text deleted failed =
    line (codes "Delete operation completed:")
    ++ (index_line (codes "  Deleted: ") deleted ++ index_line (codes "  Failed: ") failed)

-- What the client prints of the indices that were deleted and of those that failed.
pub delete_outcome-indices :
    (deleted failed : Bytes)
    → length deleted + length failed < 2 ^ 31
    → delete_outcome (success (serialize_vec deleted ++ serialize_vec failed))
      ≡ printed (
          line (codes "Delete operation completed:")
          ++ (index_line (codes "  Deleted: ") deleted ++ index_line (codes "  Failed: ") failed))
unfolding delete_outcome print_deleted
delete_outcome-indices deleted failed k =
    let payload = serialize_vec deleted ++ serialize_vec failed in
    let response = success payload in
    let short : length payload < 2 ^ 32 = omega (
      arith,
      length-append (serialize_vec deleted) (serialize_vec failed),
      length-serialize_vec deleted,
      length-serialize_vec failed,
    ) in
    let (_, behind, fits) = response_header Status.success 0 payload (omega arith) short in
    let (a, skip, left) =
      vec_at response 16 deleted (serialize_vec failed) fits (omega arith) behind in
    let (b, _, _) =
      vec_at response (16 + 4 + length deleted) failed [] fits (omega arith)
        (left ∙ sym (append-nil _)) in
    let second : deserialize_vec response (after_bytes response 16) ≡ some (failed, _) =
      ap (deserialize_vec response) skip ∙ b in
    with_payload-success _ (print_deleted response) payload short
    ∙ ap
        (λ z. printed (
          deleted_text (vec_or_empty z)
            (vec_or_empty (deserialize_vec response (after_bytes response 16)))))
        a
    ∙ ap (λ z. printed (deleted_text deleted (vec_or_empty z))) second
