-- ===== src/Examples/At.antt =====
-- Responses, dispatched lines and sessions on concrete commands.
use sms_relay.Base.{ℕ, ◌≡◌, refl, true, false, none, some, List, [], ◌∷◌, ◌++◌, Bytes, All}
use sms_relay.Base.Text.{codes, bytes_eq, starts_with, mem_byte, find_byte, find, find_first_of}
use sms_relay.Transport.UrcDispatcher.{Handlers}
use sms_relay.At.CommandQueue.{empty_queue}
use sms_relay.At.ResponseBuilder.{
  State, ResponseBuilder, fresh, start_command, reset, is_complete_line,
}
use sms_relay.At.ResponseBuilder.Phases.{IsData, success_with}
use sms_relay.At.Dispatcher.{
  extract_command_prefix, could_be_response_to_current, dispatch, is_query, prefix_start, prefix_of,
}
use sms_relay.At.Dispatcher.Routes.{IsName, responses, query_final_lost}
use sms_relay.At.Session.{
  Session, create, send_command, posted, on_timeout, timeout_response, disarm,
}
use sms_relay.At.Session.Exchange.{on_lines, exchange_ok}
use sms_relay.At.Session.Failures.{on_timeout_recovers, refused_prompt_hangs}
use sms_relay.At.Session.Intake.{receive, receive-joined}
use sms_relay.Transport.LineParser.{LineParser}
use sms_relay.At.Session.Fifo.{pending, settled_ids, upto}
use sms_relay.At.Session.Fifo.Steps.{Event, send, post, timer, run, settled_in_order}

abbrev cmgl : Bytes
cmgl = codes "AT+CMGL=4"

abbrev cmgs : Bytes
cmgs = codes "AT+CMGS=20"

abbrev entry : Bytes
entry = codes "+CMGL: 1"

plain_command : starts_with cmgl (codes "AT+CMGS") ≡ false
unfolding starts_with
plain_command = refl

entry-IsData : All IsData (entry ∷ codes "0791" ∷ [])
unfolding is_complete_line bytes_eq starts_with
entry-IsData = ((cc, refl), ((cc, refl), tt))

error_line : starts_with (codes "ERROR: 3") (codes "ERROR") ≡ true
unfolding starts_with
error_line = refl

prompted_command : starts_with cmgs (codes "AT+CMGS") ≡ true
unfolding starts_with
prompted_command = refl

no_prompt : All (λ line. bytes_eq line (codes ">") ≡ false) (codes "RING" ∷ [])
unfolding bytes_eq
no_prompt = (refl, tt)

cmgl-IsName : IsName (codes "CMGL")
unfolding mem_byte
cmgl-IsName = (refl, (refl, (refl, (refl, tt))))

equals_stops : mem_byte b'=' (codes "= ?*") ≡ true
unfolding mem_byte
equals_stops = refl

abbrev handlers : Handlers ℕ
handlers = (codes "+CMTI", some 2) ∷ []

-- A builder in the state that a command leaves it in.
abbrev waiting : Bytes → ResponseBuilder
waiting cmd = record { state = State.waiting_response; current_command = cmd; response_lines = [] }

-- The notification in between is no response.
run_of_responses :
    responses (waiting cmgl) (entry ∷ codes "+CMTI: 1" ∷ codes "OK" ∷ []) ≡ entry ∷ codes "OK" ∷ []
unfolding responses could_be_response_to_current extract_command_prefix prefix_start prefix_of
    is_query find_byte find find_first_of mem_byte starts_with
run_of_responses = refl

creg-IsName : IsName (codes "CREG")
unfolding mem_byte
creg-IsName = (refl, (refl, (refl, (refl, tt))))

query_final_lost_example :
    (dispatch handlers (waiting (codes "AT+CREG?")) (codes "OK")).builder
    ≡ waiting (codes "AT+CREG?")
query_final_lost_example =
    query_final_lost handlers (waiting (codes "AT+CREG?")) (codes "CREG") [] b'O' (codes "K") refl
      refl creg-IsName cc

settled_in_order_example :
    settled_ids (run (send cmgl ∷ send cmgs ∷ post 100 ∷ timer false ∷ []) create).settled
      ++ pending (run (send cmgl ∷ send cmgs ∷ post 100 ∷ timer false ∷ []) create)
    ≡ upto (run (send cmgl ∷ send cmgs ∷ post 100 ∷ timer false ∷ []) create).queue.promises
settled_in_order_example = settled_in_order (send cmgl ∷ send cmgs ∷ post 100 ∷ timer false ∷ [])

-- A session whose command `AT+CMGS=20` waits for its prompt.
abbrev prompting : Session
prompting = record {
  builder = record { state = State.waiting_prompt; current_command = cmgs; response_lines = [] };
  handlers = [];
  queue = empty_queue;
  current = some (record { text = cmgs; promise = 0; timeout = 5000; armed = true });
  in_progress = true;
  pending_timeout = 5000;
  urc_callback = false;
  sent = [];
  settled = [];
  notified = [];
}

errors : All (λ line. bytes_eq line (codes ">") ≡ false) (codes "ERROR" ∷ codes "OK" ∷ [])
unfolding bytes_eq
errors = (refl, (refl, tt))

refused_prompt_hangs_example :
    on_lines (codes "ERROR" ∷ codes "OK" ∷ []) prompting
    ≡ record prompting { current = disarm prompting.current }
refused_prompt_hangs_example =
    refused_prompt_hangs prompting b'E' (codes "RROR") (codes "OK" ∷ []) refl refl errors

abbrev idle : Session
idle = record {
  builder = fresh;
  handlers = [];
  queue = empty_queue;
  current = none;
  in_progress = false;
  pending_timeout = 5000;
  urc_callback = false;
  sent = [];
  settled = [];
  notified = [];
}

lines_fit :
    All
      (λ line. could_be_response_to_current (start_command cmgl idle.builder) line ≡ true)
      (codes "OK" ∷ entry ∷ codes "0791" ∷ [])
unfolding could_be_response_to_current start_command extract_command_prefix prefix_start prefix_of
    is_query find_byte find find_first_of mem_byte starts_with
lines_fit = (refl, (refl, (refl, tt)))

exchange_ok_example :
    let (queued, promise) = send_command cmgl idle in
    (on_lines (entry ∷ codes "0791" ∷ codes "OK" ∷ []) (posted 5000 queued)).settled
    ≡ (promise, success_with (entry ∷ codes "0791" ∷ [])) ∷ []
exchange_ok_example =
    exchange_ok idle cmgl 5000 (entry ∷ codes "0791" ∷ []) refl refl plain_command lines_fit
      entry-IsData

-- The same command waits while another one has the modem's attention.
abbrev crowded : Session
crowded = record prompting {
  queue = record { commands = (record { text = cmgl; promise = some 1 }) ∷ []; promises = 2 };
}

lines_fit_later :
    All
      (λ line.
        could_be_response_to_current (start_command cmgl (reset crowded.builder)) line ≡ true)
      (codes "OK" ∷ entry ∷ codes "0791" ∷ [])
unfolding reset could_be_response_to_current start_command extract_command_prefix prefix_start
    prefix_of is_query find_byte find find_first_of mem_byte starts_with
lines_fit_later = (refl, (refl, (refl, tt)))

on_timeout_recovers_example :
    ((on_timeout false crowded).sent ≡ (cmgl ++ codes "\r") ∷ [])
    × ((on_lines (entry ∷ codes "0791" ∷ codes "OK" ∷ []) (on_timeout false crowded)).settled
        ≡ (0, timeout_response) ∷ (1, success_with (entry ∷ codes "0791" ∷ [])) ∷ [])
on_timeout_recovers_example =
    on_timeout_recovers crowded (record { text = cmgs; promise = 0; timeout = 5000; armed = true })
      cmgl 1 [] (entry ∷ codes "0791" ∷ []) refl refl plain_command lines_fit_later entry-IsData

abbrev parser : LineParser
parser = record { buffer = []; callback = true }

receive-joined_example :
    (events : List Event) × (p : LineParser) × (receive
        (codes "O" ∷ codes "K\r" ∷ codes "\n" ∷ [])
        parser
      ≡ some (events, p))
    × (receive (codes "OK\r\n" ∷ []) parser ≡ some (events, p))
receive-joined_example = receive-joined (codes "O") (codes "K\r" ∷ codes "\n" ∷ []) parser
