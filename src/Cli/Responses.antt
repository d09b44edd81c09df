-- ===== src/Cli/Responses.antt =====
-- What the command handlers of src/sms_relay_cli/main.cpp make of a response.
use sms_relay.Base.{
  ℕ, zero, suc, Bool, Option, none, some, List, [], ◌∷◌, ◌++◌, Bytes, ◌==◌, if◌then◌else◌,
}
use sms_relay.Base.Text.{codes, to_string}
use sms_relay.Ipc.Protocol.{Status, status_code, SmsInfo}
use sms_relay.Ipc.Wire.{deserialize_u8, deserialize_u32, deserialize_str, deserialize_vec}
use sms_relay.Ipc.Payload.{deserialize_sms_info}
use sms_relay.Ipc.Offsets.{after_u8, after_bytes, after_sms_info}
use sms_relay.Ipc.Header.{Header, parse_header}
use sms_relay.Cli.Print.{line, print_sms_table, full_infos, index_list}

-- The exit code, and what the handler writes to the output and to the error stream; what the client
-- logs itself is left out.
pub record Outcome : Type 0 where
  pub exit_code : ℕ
  pub out : Bytes
  pub errors : Bytes

abbrev pub printed : Bytes → Outcome
printed out = record { exit_code = 0; out = out; errors = [] }

abbrev pub failure : Bytes → Outcome
failure errors = record { exit_code = 1; out = []; errors = errors }

abbrev pub invalid_response : Outcome
invalid_response = failure (line (codes "Error: Invalid response"))

abbrev pub warned : Bytes → Outcome → Outcome
warned errors outcome = record outcome { errors = errors ++ outcome.errors }

unfoldable pub is_success : ℕ → Bool
is_success code = code == status_code Status.success

-- A handler's steps from the response to its payload: what follows takes the offset, and `refused`
-- is for another status than success.
unfoldable pub after_header : (ℕ → Outcome) → (ℕ → Outcome) → Option (Header × ℕ) → Outcome
unfolding is_success
after_header refused next none = invalid_response
after_header refused next (some (header, offset)) =
    if is_success header.code then next offset else refused offset

unfoldable pub with_payload : (ℕ → Outcome) → (ℕ → Outcome) → Bytes → Outcome
unfolding after_header parse_header
with_payload refused next [] = failure (line (codes "Error: No response from server"))
with_payload refused next (b ∷ response) = after_header refused next (parse_header (b ∷ response))

-- The loop over the announced number of messages; one that cannot be read is left out.
unfoldable pub read_infos : ℕ → Bytes → ℕ → List SmsInfo
unfolding after_sms_info
read_infos zero response offset = []
read_infos (suc count) response offset = elim (deserialize_sms_info response offset) [
  | none ↦ read_infos count response (after_sms_info response offset)
  | some (sms, end) ↦ sms ∷ read_infos count response end
]

-- The number of messages, and what follows takes it and the offset.
unfoldable pub with_count : (ℕ → ℕ → Outcome) → Bytes → ℕ → Outcome
with_count next response offset = elim (deserialize_u32 response offset) [
  | none ↦ invalid_response
  | some (count, end) ↦ next count end
]

-- What `list` and `read` make of the announced number and the offset behind it.
unfoldable pub print_list : Bytes → ℕ → ℕ → Outcome
unfolding read_infos print_sms_table
print_list response count offset = printed (
    line (line (codes "Total messages: " ++ to_string count))
    ++ print_sms_table (read_infos count response offset))

unfoldable pub print_read : Bytes → ℕ → ℕ → Outcome
unfolding read_infos full_infos
print_read response count offset = printed (
    if count == 0
    then line (codes "No messages found")
    else full_infos (read_infos count response offset))

abbrev pub refused_list : ℕ → Outcome
refused_list offset = failure (line (codes "Error: Server returned error status"))

unfoldable pub list_outcome : Bytes → Outcome
unfolding with_payload with_count print_list
list_outcome response =
    with_payload refused_list (with_count (print_list response) response) response

unfoldable pub read_outcome : Bytes → Outcome
unfolding with_payload with_count print_read
read_outcome response =
    with_payload refused_list (with_count (print_read response) response) response

-- A vector that cannot be read stays empty.
abbrev pub vec_or_empty : Option (Bytes × ℕ) → Bytes
vec_or_empty none = []
vec_or_empty (some (vec, end)) = vec

unfoldable pub index_line : Bytes → Bytes → Bytes
unfolding index_list
index_line label [] = []
index_line label (idx ∷ indices) = line (label ++ index_list (idx ∷ indices))

unfoldable pub print_deleted : Bytes → ℕ → Outcome
unfolding after_bytes index_line
print_deleted response offset =
    let deleted : Bytes = vec_or_empty (deserialize_vec response offset) in
    let failed : Bytes = vec_or_empty (deserialize_vec response (after_bytes response offset)) in
    printed (
      line (codes "Delete operation completed:")
      ++ (index_line (codes "  Deleted: ") deleted ++ index_line (codes "  Failed: ") failed))

unfoldable pub delete_outcome : Bytes → Outcome
unfolding with_payload print_deleted
delete_outcome response =
    with_payload (λ offset. failure (line (codes "Error: Delete operation failed")))
      (print_deleted response) response

abbrev pub error_line : Option (Bytes × ℕ) → Bytes
error_line none = []
error_line (some (error_msg, end)) = line (codes "  " ++ error_msg)

unfoldable pub send_outcome : Bytes → Outcome
unfolding with_payload
send_outcome response =
    with_payload
      (λ offset.
        failure (
          line (codes "Error: Failed to send SMS") ++ error_line (deserialize_str response offset)))
      (λ offset. printed (line (codes "SMS sent successfully"))) response

abbrev pub number_or_zero : Option (ℕ × ℕ) → ℕ
number_or_zero none = 0
number_or_zero (some (value, end)) = value

unfoldable pub status_text : ℕ → Bytes → ℕ → Bytes
status_text connected port_str msg_count =
    line (codes "Service Status:")
    ++ (line (codes "  Connected: " ++ (if connected == 0 then codes "No" else codes "Yes"))
        ++ (line (codes "  Listening: " ++ port_str)
            ++ line (codes "  Message count: " ++ to_string msg_count)))

unfoldable pub print_status : Bytes → ℕ → Outcome
unfolding after_u8 after_bytes status_text
print_status response offset =
    let port_offset : ℕ = after_u8 response offset in
    printed (
      status_text (number_or_zero (deserialize_u8 response offset))
        (vec_or_empty (deserialize_str response port_offset))
        (number_or_zero (deserialize_u32 response (after_bytes response port_offset))))

unfoldable pub status_outcome : Bytes → Outcome
unfolding with_payload print_status
status_outcome response =
    with_payload (λ offset. failure (line (codes "Error: Failed to get status")))
      (print_status response) response
