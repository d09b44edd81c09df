-- ===== src/At/Session.antt =====
-- The AT session of src/sms_relay/at/at_session.cpp: each handler is a step of the IO thread on
-- the session's state. What leaves the session is logged: `sent` is what it wrote to the
-- transport, `settled` the promises it fulfilled, `notified` the calls of its URC callback.
pub mod Exchange
pub mod Failures
pub mod Fifo
pub mod Intake
pub mod Relay
pub mod Wrappers
use sms_relay.Base.{
  ℕ, suc, ◌+◌, Bool, true, false, not, ◌&&◌, Option, none, some, List, [], ◌∷◌, ◌++◌, Bytes,
  if◌then◌else◌,
}
use sms_relay.Base.Text.{codes}
use sms_relay.Transport.UrcDispatcher
use sms_relay.Transport.UrcDispatcher.{Handlers, Call, register_handler}
use sms_relay.At.CommandQueue.{QueuedCommand, CommandQueue, empty_queue, enqueue, dequeue, is_empty}
use sms_relay.At.Dispatcher
use sms_relay.At.ResponseBuilder.{
  State, ResponseBuilder, AtResponse, fresh, start_command, get_response, reset,
}

-- The only handler that the constructor registers.
pub data Handler : Type 0 where
  on_cmti_urc : Handler

-- `CurrentCommand`; `armed` says whether its timer still runs.
pub record CurrentCommand : Type 0 where
  pub text : Bytes
  pub promise : ℕ
  pub timeout : ℕ
  pub armed : Bool

pub record Session : Type 0 where
  pub builder : ResponseBuilder
  pub handlers : Handlers Handler
  pub queue : CommandQueue
  pub current : Option CurrentCommand
  pub in_progress : Bool
  pub pending_timeout : ℕ
  pub urc_callback : Bool
  pub sent : List Bytes
  pub settled : List (ℕ × AtResponse)
  pub notified : List (Bytes × Bytes)

-- The constructor. Times are in milliseconds.
unfoldable pub create : Session
create = record {
  builder = fresh;
  handlers = register_handler (codes "+CMTI") (some on_cmti_urc) [];
  queue = empty_queue;
  current = none;
  in_progress = false;
  pending_timeout = 5000;
  urc_callback = false;
  sent = [];
  settled = [];
  notified = [];
}

-- `process_next_command` once a command with a promise has left the queue.
unfoldable pub begin_command : Bytes → ℕ → Session → Session
begin_command text promise s = record s {
  current =
      some (record { text = text; promise = promise; timeout = s.pending_timeout; armed = true });
  builder = start_command text s.builder;
  in_progress = true;
  sent = s.sent ++ (text ++ codes "\r") ∷ [];
}

abbrev begin_dequeued : Session → QueuedCommand × CommandQueue → Session
begin_dequeued s (cmd, rest) = elim cmd.promise [
  | none ↦ record s { queue = rest }
  | some promise ↦ begin_command cmd.text promise (record s { queue = rest })
]

unfoldable pub process_next_command : Session → Session
unfolding dequeue
process_next_command s =
    if s.in_progress
    then s
    else if is_empty s.queue.commands
    then s
    else begin_dequeued s (dequeue s.queue)

-- `send_command` is two steps: the caller's, which queues the command, and the one that it
-- posts to the IO thread.
unfoldable pub send_command : Bytes → Session → Session × ℕ
unfolding enqueue
send_command cmd s = let (q, promise) = enqueue cmd s.queue in (record s { queue = q }, promise)

unfoldable pub posted : ℕ → Session → Session
posted timeout s = process_next_command (record s { pending_timeout = timeout })

-- `promise->set_value(response)` if there is a command.
unfoldable pub settle : Option CurrentCommand → AtResponse → Session → Session
settle none response s = s
settle (some c) response s = record s { settled = s.settled ++ (c.promise, response) ∷ [] }

-- The reset that follows a result.
unfoldable pub release : Session → Session
release s = record s { in_progress = false; current = none; builder = reset s.builder }

-- `on_cmti_urc`: the call of a matched handler.
unfoldable pub run_handler : Option (Call Handler) → Session → Session
run_handler none s = s
run_handler (some (on_cmti_urc, urc, args)) s =
    if s.urc_callback then record s { notified = s.notified ++ (urc, args) ∷ [] } else s

-- `dispatch` of the notification table, run on the session.
abbrev run_urc : Option (Option (Call Handler)) → Session → Session
run_urc none s = s
run_urc (some c) s = run_handler c s

abbrev pub disarm : Option CurrentCommand → Option CurrentCommand
disarm none = none
disarm (some c) = some (record c { armed = false })

-- The end of `on_line_received`, by the builder's state.
unfoldable pub after_line : State → Session → Session
after_line State.complete s =
    process_next_command (release (settle s.current (get_response s.builder) s))
after_line State.waiting_prompt s = record s { current = disarm s.current }
after_line _ s = s

unfoldable pub dispatched : Dispatcher.Dispatched Handler → Session → Session
dispatched d s = run_handler d.called (record s { builder = d.builder })

unfoldable pub on_line_received : Bytes → Session → Session
on_line_received [] s = s
on_line_received (c ∷ cs) s =
    if not s.in_progress
    then run_urc (UrcDispatcher.dispatch s.handlers (c ∷ cs)) s
    else (let s' = dispatched (Dispatcher.dispatch s.handlers s.builder (c ∷ cs)) s in
        after_line s'.builder.state s')

abbrev pub timeout_response : AtResponse
timeout_response = record { success = false; status = codes "TIMEOUT"; error_code = []; lines = [] }

-- `aborted` is `ec == operation_aborted`.
unfoldable pub on_timeout : Bool → Session → Session
on_timeout aborted s =
    if aborted then s else process_next_command (release (settle s.current timeout_response s))

abbrev pub transport_error : Bytes → AtResponse
transport_error error = record {
  success = false;
  status = codes "TRANSPORT_ERROR";
  error_code = [];
  lines = error ∷ [];
}

-- The next command starts later, by a posted `process_next_command`.
unfoldable pub on_transport_error : Bytes → Session → Session
on_transport_error error s = elim s.current [
  | none ↦ s
  | some c ↦ if s.in_progress then release (settle (some c) (transport_error error) s) else s
]

unfoldable pub set_urc_callback : Bool → Session → Session
set_urc_callback given s = record s { urc_callback = given }

-- `stop` cancels the timer of the command in progress.
unfoldable pub stop : Session → Session
stop s = record s { current = disarm s.current }
