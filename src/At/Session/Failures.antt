-- ===== src/At/Session/Failures.antt =====
-- Exchanges that fail: a command that times out, and a refused AT+CMGS.
use sms_relay.Base.{
  ℕ, true, false, ◌≡◌, refl, ap, ◌∙◌, Option, none, some, List, [], ◌∷◌, ◌++◌, append_assoc, Bytes,
  All, arith,
}
use sms_relay.Base.Text.{codes, bytes_eq, starts_with}
use sms_relay.At.CommandQueue.{QueuedCommand, is_empty, dequeue_from}
use sms_relay.At.Dispatcher.{dispatch, could_be_response_to_current}
use sms_relay.At.ResponseBuilder.{State, start_command, reset, add_line}
use sms_relay.At.ResponseBuilder.Phases.{IsData, success_with}
use sms_relay.At.Session.{
  CurrentCommand, Session, begin_command, process_next_command, settle, release, run_handler,
  after_line, dispatched, on_line_received, timeout_response, on_timeout, disarm,
}
use sms_relay.At.Session.Exchange.{on_lines, answered_ok, start_command-waiting}

-- A timer that expires settles the command in progress and starts the one that waits first.
timeout-begin :
    (s : Session) (c : CurrentCommand) (cmd : Bytes) (promise : ℕ) (rest : List QueuedCommand)
    → s.current ≡ some c
    → s.queue.commands ≡ record { text = cmd; promise = some promise } ∷ rest
    → on_timeout false s
      ≡ begin_command cmd promise (record (release (settle (some c) timeout_response s)) {
        queue = record s.queue { commands = rest };
      })
unfolding on_timeout process_next_command is_empty dequeue_from release settle
timeout-begin s c cmd promise rest e q = ground (arith, e, q)

-- A timer that expires while a command is in progress and another one, not AT+CMGS, waits first in
-- the queue does not block the session: it sends the waiting command. If lines of data and then
-- `OK` follow, all of which, `OK` included, count as responses to that command, then the promises
-- settled are those of the two commands, the first with `TIMEOUT` and the second with a success
-- that holds exactly the lines of data.
pub on_timeout_recovers :
    (s : Session) (c : CurrentCommand) (cmd : Bytes) (promise : ℕ) (rest : List QueuedCommand)
    (lines : List Bytes)
    → s.current ≡ some c
    → s.queue.commands ≡ record { text = cmd; promise = some promise } ∷ rest
    → starts_with cmd (codes "AT+CMGS") ≡ false
    → All
        (λ line. could_be_response_to_current (start_command cmd (reset s.builder)) line ≡ true)
        (codes "OK" ∷ lines)
    → All IsData lines
    → ((on_timeout false s).sent ≡ s.sent ++ (cmd ++ codes "\r") ∷ [])
      × ((on_lines (lines ++ codes "OK" ∷ []) (on_timeout false s)).settled
          ≡ s.settled ++ (c.promise, timeout_response) ∷ (promise, success_with lines) ∷ [])
unfolding begin_command release settle
on_timeout_recovers s c cmd promise rest lines e q n fit d =
    let begun = timeout-begin s c cmd promise rest e q in
    let (waiting, none_yet) = start_command-waiting cmd (reset s.builder) n in
    (
      ap (λ (t : Session). t.sent) begun,
      ap (λ (t : Session). (on_lines (lines ++ codes "OK" ∷ []) t).settled) begun
          ∙ answered_ok _ _ lines refl waiting none_yet refl fit d
          ∙ append_assoc s.settled ((c.promise, timeout_response) ∷ []) _,
    )

refused_line :
    (s : Session) (c : ℕ) (cs : Bytes)
    → s.in_progress ≡ true
    → s.builder.state ≡ State.waiting_prompt
    → bytes_eq (c ∷ cs) (codes ">") ≡ false
    → on_line_received (c ∷ cs) s ≡ record s { current = disarm s.current }
unfolding on_line_received dispatched dispatch add_line after_line run_handler
refused_line s c cs b p n = ground (arith, b, p, n)

disarm-disarm : (c : Option CurrentCommand) → disarm (disarm c) ≡ disarm c
disarm-disarm none = refl
disarm-disarm (some c) = refl

empty_line : (s : Session) → on_line_received [] s ≡ s
unfolding on_line_received
empty_line s = refl

refused_lines :
    (lines : List Bytes) (s : Session)
    → s.in_progress ≡ true
    → s.builder.state ≡ State.waiting_prompt
    → disarm s.current ≡ s.current
    → All (λ line. bytes_eq line (codes ">") ≡ false) lines
    → on_lines lines s ≡ s
refused_lines [] s b p d h = refl
refused_lines ([] ∷ lines) s b p d h =
    ap (on_lines lines) (empty_line s) ∙ refused_lines lines s b p d h.1
refused_lines ((c ∷ cs) ∷ lines) s b p d h =
    ap (on_lines lines) (refused_line s c cs b p h.0 ∙ ap (λ k. record s { current = k }) d)
    ∙ refused_lines lines s b p d h.1

-- A session that waits for the prompt of AT+CMGS and reads some other line, `ERROR` for one,
-- stops the command's timer and from then on changes no more, whatever lines follow but the
-- prompt: the command stays in progress, unsettled, with no timer.
pub refused_prompt_hangs :
    (s : Session) (c : ℕ) (cs : Bytes) (lines : List Bytes)
    → s.in_progress ≡ true
    → s.builder.state ≡ State.waiting_prompt
    → All (λ line. bytes_eq line (codes ">") ≡ false) ((c ∷ cs) ∷ lines)
    → on_lines ((c ∷ cs) ∷ lines) s ≡ record s { current = disarm s.current }
refused_prompt_hangs s c cs lines b p h =
    ap (on_lines lines) (refused_line s c cs b p h.0)
    ∙ refused_lines lines (record s { current = disarm s.current }) b p (disarm-disarm s.current)
        h.1
