-- ===== src/At/ResponseBuilder.antt =====
-- The response state machine of src/sms_relay/at/response_builder.cpp.
pub mod Phases
use sms_relay.Base.{
  Bool, true, false, not, ◌||◌, Option, none, some, List, [], ◌∷◌, ◌++◌, Bytes, back?, init,
  if◌then◌else◌,
}
use sms_relay.Base.Text.{codes, bytes_eq, starts_with}

pub data State : Type 0 where
  idle waiting_response waiting_prompt waiting_final complete : State

pub record ResponseBuilder : Type 0 where
  pub state : State
  pub current_command : Bytes
  pub response_lines : List Bytes

pub record AtResponse : Type 0 where
  pub success : Bool
  pub status : Bytes
  pub error_code : Bytes
  pub lines : List Bytes

abbrev pub fresh : ResponseBuilder
fresh = record { state = State.idle; current_command = []; response_lines = [] }

unfoldable pub start_command : Bytes → ResponseBuilder → ResponseBuilder
start_command cmd b = record {
  state =
      if starts_with cmd (codes "AT+CMGS") then State.waiting_prompt else State.waiting_response;
  current_command = cmd;
  response_lines = [];
}

abbrev push : ResponseBuilder → Bytes → ResponseBuilder
push b line = record b { response_lines = b.response_lines ++ line ∷ [] }

abbrev is_empty : Bytes → Bool
is_empty [] = true
is_empty (c ∷ cs) = false

-- `case WaitingPrompt`
abbrev on_prompt : ResponseBuilder → Bytes → ResponseBuilder × Bool
on_prompt b line =
    if bytes_eq line (codes ">")
    then (record b { state = State.waiting_final }, false)
    else (b, false)

-- `case WaitingResponse` and `case WaitingFinal`
abbrev on_response : ResponseBuilder → Bytes → ResponseBuilder × Bool
on_response b line =
    if bytes_eq line (codes "OK")
    then (record b { state = State.complete }, true)
    else if starts_with line (codes "ERROR")
    then (record (push b line) { state = State.complete }, true)
    else if starts_with line (codes ">")
    then (push b line, false)
    else if not (is_empty line)
    then (push b line, false)
    else (b, false)

unfoldable pub add_line_in : State → ResponseBuilder → Bytes → ResponseBuilder × Bool
add_line_in State.waiting_prompt b line = on_prompt b line
add_line_in State.waiting_response b line = on_response b line
add_line_in State.waiting_final b line = on_response b line
add_line_in State.idle b line = (b, false)
add_line_in State.complete b line = (b, false)

-- The builder after the line, and whether the response is complete.
unfoldable pub add_line : ResponseBuilder → Bytes → ResponseBuilder × Bool
unfolding add_line_in
add_line b line = add_line_in b.state b line

-- `get_response` in state `Complete`, by the last line.
unfoldable pub completed : List Bytes → AtResponse
completed lines = elim (back? lines) [
  | none ↦ record { success = true; status = codes "OK"; error_code = []; lines = [] }
  | some last ↦
      if bytes_eq last (codes "OK")
      then record { success = true; status = codes "OK"; error_code = []; lines = init lines }
      else if starts_with last (codes "ERROR")
      then record { success = false; status = codes "ERROR"; error_code = last; lines = init lines }
      else record { success = true; status = codes "OK"; error_code = []; lines = lines }
]

abbrev incomplete : AtResponse
incomplete = record { success = false; status = codes "INCOMPLETE"; error_code = []; lines = [] }

unfoldable pub response_in : State → List Bytes → AtResponse
unfolding completed
response_in State.complete lines = completed lines
response_in _ lines = incomplete

unfoldable pub get_response : ResponseBuilder → AtResponse
unfolding response_in
get_response b = response_in b.state b.response_lines

unfoldable pub reset : ResponseBuilder → ResponseBuilder
reset b = fresh

unfoldable pub is_complete_line : Bytes → Bool
is_complete_line line = bytes_eq line (codes "OK") || starts_with line (codes "ERROR")
