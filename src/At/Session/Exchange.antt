-- ===== src/At/Session/Exchange.antt =====
-- A whole exchange of a session: a command answered with data and `OK`.
use sms_relay.Base.{
  ℕ, suc, true, false, ◌≡◌, refl, ap, ◌∙◌, sym, some, inl, List, [], ◌∷◌, ◌++◌, append_assoc,
  append-nil, Bytes, All, arith,
}
use mathlib.Core.Path.{subst}
use sms_relay.Base.Text.{codes, bytes_eq, starts_with}
use sms_relay.At.CommandQueue.{is_empty, dequeue_from}
use sms_relay.At.Dispatcher.{dispatch, could_be_response_to_current}
use sms_relay.At.Dispatcher.Routes.{could_be_same}
use sms_relay.At.ResponseBuilder.{
  State, ResponseBuilder, AtResponse, start_command, add_line, get_response,
}
use sms_relay.At.ResponseBuilder.Phases.{IsData, add_line-IsData, completed-IsData, success_with}
use sms_relay.At.Session.{
  CurrentCommand, Session, begin_command, process_next_command, send_command, posted, settle,
  release, run_handler, after_line, dispatched, on_line_received,
}

-- Lines that reach the session one after another.
abbrev pub on_lines : List Bytes → Session → Session
on_lines [] s = s
on_lines (line ∷ lines) s = on_lines lines (on_line_received line s)

-- Starting the next command settles nothing.
pub settled-process : (s : Session) → (process_next_command s).settled ≡ s.settled
unfolding process_next_command begin_command
settled-process s = ground arith

-- A line of data of the response in progress is collected.
data_line :
    (s : Session) (c : ℕ) (cs : Bytes)
    → s.in_progress ≡ true
    → s.builder.state ≡ State.waiting_response
    → could_be_response_to_current s.builder (c ∷ cs) ≡ true
    → IsData (c ∷ cs)
    → on_line_received (c ∷ cs) s ≡ record s {
      builder = record s.builder { response_lines = s.builder.response_lines ++ (c ∷ cs) ∷ [] };
    }
unfolding on_line_received dispatched dispatch after_line run_handler
data_line s c cs b p r d = ground (arith, b, p, r, add_line-IsData s.builder (c ∷ cs) (inl p) d)

abbrev collect : Session → List Bytes → Session
collect s lines = record s {
  builder = record s.builder { response_lines = s.builder.response_lines ++ lines };
}

data_lines :
    (lines : List Bytes) (s : Session)
    → s.in_progress ≡ true
    → s.builder.state ≡ State.waiting_response
    → All (λ line. could_be_response_to_current s.builder line ≡ true) lines
    → All IsData lines
    → on_lines lines s ≡ collect s lines
data_lines [] s b p r d =
    ap (λ l. record s { builder = record s.builder { response_lines = l } })
      (sym (append-nil s.builder.response_lines))
data_lines ([] ∷ lines) s b p r ((ne, open_), d) = absurd (ne refl)
data_lines ((c ∷ cs) ∷ lines) s b p (r, rs) (d, ds) =
    ap (on_lines lines) (data_line s c cs b p r d)
    ∙ data_lines lines (collect s ((c ∷ cs) ∷ [])) b p (still lines rs) ds
    ∙ ap (λ l. record s { builder = record s.builder { response_lines = l } })
        (append_assoc s.builder.response_lines ((c ∷ cs) ∷ []) lines)
  where
    still :
        (ls : List Bytes)
        → All (λ line. could_be_response_to_current s.builder line ≡ true) ls
        → All
            (λ line. could_be_response_to_current (collect s ((c ∷ cs) ∷ [])).builder line ≡ true)
            ls
    still [] h = tt
    still (l ∷ ls) (h, hs) = (
      could_be_same s.builder (collect s ((c ∷ cs) ∷ [])).builder l refl p (inl p) ∙ h,
      still ls hs,
    )

on_lines-append :
    (xs ys : List Bytes) (s : Session) → on_lines (xs ++ ys) s ≡ on_lines ys (on_lines xs s)
on_lines-append [] ys s = refl
on_lines-append (x ∷ xs) ys s = on_lines-append xs ys (on_line_received x s)

ok_is_ok : bytes_eq (codes "OK") (codes "OK") ≡ true
unfolding bytes_eq
ok_is_ok = refl

abbrev finished : Session → Session
finished s = record s { builder = record s.builder { state = State.complete } }

final_line :
    (s : Session)
    → s.in_progress ≡ true
    → s.builder.state ≡ State.waiting_response
    → could_be_response_to_current s.builder (codes "OK") ≡ true
    → on_line_received (codes "OK") s
      ≡ process_next_command
          (release (settle s.current (get_response (finished s).builder) (finished s)))
unfolding on_line_received dispatched dispatch after_line run_handler add_line
final_line s b p r = ground (arith, b, p, r, ok_is_ok)

settled-release :
    (s : Session) (c : CurrentCommand) (response : AtResponse)
    → s.current ≡ some c
    → (release (settle s.current response s)).settled ≡ s.settled ++ (c.promise, response) ∷ []
unfolding release settle
settled-release s c response e = ground (arith, e)

final_ok :
    (s : Session) (c : CurrentCommand)
    → s.in_progress ≡ true
    → s.builder.state ≡ State.waiting_response
    → s.current ≡ some c
    → could_be_response_to_current s.builder (codes "OK") ≡ true
    → All IsData s.builder.response_lines
    → (on_line_received (codes "OK") s).settled
      ≡ s.settled ++ (c.promise, success_with s.builder.response_lines) ∷ []
unfolding get_response
final_ok s c b p e r d =
    ap (λ (t : Session). t.settled) (final_line s b p r)
    ∙ settled-process _
    ∙ settled-release (finished s) c _ e
    ∙ ap (λ q. s.settled ++ (c.promise, q) ∷ []) (completed-IsData s.builder.response_lines d)

-- A command in progress that reads lines of data and `OK`.
pub answered_ok :
    (s : Session) (c : CurrentCommand) (lines : List Bytes)
    → s.in_progress ≡ true
    → s.builder.state ≡ State.waiting_response
    → s.builder.response_lines ≡ []
    → s.current ≡ some c
    → All (λ line. could_be_response_to_current s.builder line ≡ true) (codes "OK" ∷ lines)
    → All IsData lines
    → (on_lines (lines ++ codes "OK" ∷ []) s).settled
      ≡ s.settled ++ (c.promise, success_with lines) ∷ []
answered_ok s c lines b p none_yet e (ok_fits, fit) d =
    ap (λ (t : Session). t.settled) (on_lines-append lines (codes "OK" ∷ []) s)
    ∙ ap (λ t. (on_line_received (codes "OK") t).settled) (data_lines lines s b p fit d)
    ∙ final_ok (collect s lines) c b p e
        (could_be_same s.builder (collect s lines).builder (codes "OK") refl p (inl p) ∙ ok_fits)
        (subst (All IsData) (sym collected) d)
    ∙ ap (λ l. s.settled ++ (c.promise, success_with l) ∷ []) collected
  where
    collected : s.builder.response_lines ++ lines ≡ lines
    collected = ap (λ l. l ++ lines) none_yet

-- The builder that a command other than AT+CMGS starts with.
pub start_command-waiting :
    (cmd : Bytes) (b : ResponseBuilder)
    → starts_with cmd (codes "AT+CMGS") ≡ false
    → ((start_command cmd b).state ≡ State.waiting_response)
      × ((start_command cmd b).response_lines ≡ [])
unfolding start_command
start_command-waiting cmd b n = (ground (arith, n), ground (arith, n))

-- An idle session with nothing queued that sends a command other than AT+CMGS, and reads lines of
-- data and then `OK`, all of which, `OK` included, count as responses to that command, settles the
-- promise of that call with a success that holds exactly the lines of data.
pub exchange_ok :
    (s : Session) (cmd : Bytes) (timeout : ℕ) (lines : List Bytes)
    → s.in_progress ≡ false
    → s.queue.commands ≡ []
    → starts_with cmd (codes "AT+CMGS") ≡ false
    → All
        (λ line. could_be_response_to_current (start_command cmd s.builder) line ≡ true)
        (codes "OK" ∷ lines)
    → All IsData lines
    → let (queued, promise) = send_command cmd s in
      (on_lines (lines ++ codes "OK" ∷ []) (posted timeout queued)).settled
      ≡ s.settled ++ (promise, success_with lines) ∷ []
unfolding send_command start_command
exchange_ok s cmd timeout lines i e n fit d =
    let (waiting, none_yet) = start_command-waiting cmd s.builder n in
    ap (λ (t : Session). (on_lines (lines ++ codes "OK" ∷ []) t).settled) begun
    ∙ answered_ok started current lines refl waiting none_yet refl fit d
  where
    current : CurrentCommand
    current = record { text = cmd; promise = s.queue.promises; timeout = timeout; armed = true }

    started : Session
    started = record s {
      queue = record { commands = []; promises = suc s.queue.promises };
      current = some current;
      builder = start_command cmd s.builder;
      in_progress = true;
      pending_timeout = timeout;
      sent = s.sent ++ (cmd ++ codes "\r") ∷ [];
    }

    begun : posted timeout (send_command cmd s).0 ≡ started
    begun =
        unfold posted send_command process_next_command begin_command is_empty dequeue_from in
        ground (arith, i, e)
