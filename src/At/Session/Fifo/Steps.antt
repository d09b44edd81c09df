-- ===== src/At/Session/Fifo/Steps.antt =====
-- The handlers of src/sms_relay/at/at_session.cpp as events, and histories of a session.
use mathlib.Core.Path.{subst}
use sms_relay.Base.{
  ℕ, Bool, true, false, not, ◌≡◌, refl, ap, ◌∙◌, sym, Option, none, some, List, [], ◌∷◌, ◌++◌,
  Bytes, if◌then◌else◌,
}
use sms_relay.Transport.UrcDispatcher
use sms_relay.Transport.UrcDispatcher.{Call}
use sms_relay.At.Dispatcher
use sms_relay.At.ResponseBuilder.{State, get_response}
use sms_relay.At.Session.{
  process_next_command, Handler, on_cmti_urc, CurrentCommand, Session, create, send_command, posted,
  settle, release, run_handler, run_urc, after_line, dispatched, on_line_received, timeout_response,
  on_timeout, transport_error, on_transport_error, set_urc_callback, stop, disarm,
}
use sms_relay.At.Session.Fifo.{
  upto, IsValid, outstanding, pending, settled_ids, queued_ids, is_given, send_command-IsValid,
  process_next_command-IsValid, release-settle-IsValid,
}

-- What happens to a session: a caller, a posted step, a line, a timer, the port, and the step that
-- `on_transport_error` posts.
pub data Event : Type 0 where
  send : Bytes → Event
  post : ℕ → Event
  resume : Event
  line : Bytes → Event
  timer : Bool → Event
  port_error : Bytes → Event
  set_callback : Bool → Event
  stopped : Event

unfoldable pub step : Event → Session → Session
step (send cmd) s = (send_command cmd s).0
step (post timeout) s = posted timeout s
step resume s = process_next_command s
step (line text) s = on_line_received text s
step (timer aborted) s = on_timeout aborted s
step (port_error error) s = on_transport_error error s
step (set_callback given) s = set_urc_callback given s
step stopped s = stop s

unfoldable pub run : List Event → Session → Session
unfolding step
run [] s = s
run (e ∷ es) s = run es (step e s)

if-IsValid : (b : Bool) {x y : Session} → IsValid x → IsValid y → IsValid (if b then x else y)
if-IsValid true vx vy = vx
if-IsValid false vx vy = vy

run_handler-IsValid :
    (c : Option (Call Handler)) {s : Session} → IsValid s → IsValid (run_handler c s)
unfolding run_handler
run_handler-IsValid none v = v
run_handler-IsValid (some (on_cmti_urc, urc, args)) {s} v =
    if-IsValid s.urc_callback
      (record { order = v.order; promised = v.promised; matched = v.matched }) v

disarm-outstanding : (c : Option CurrentCommand) → outstanding (disarm c) ≡ outstanding c
disarm-outstanding none = refl
disarm-outstanding (some c) = refl

disarm-is_given : (c : Option CurrentCommand) → is_given (disarm c) ≡ is_given c
disarm-is_given none = refl
disarm-is_given (some c) = refl

stop-IsValid : {s : Session} → IsValid s → IsValid (record s { current = disarm s.current })
stop-IsValid {s} v = record {
  order =
      ap (λ l. settled_ids s.settled ++ (l ++ queued_ids s.queue.commands))
        (disarm-outstanding s.current)
      ∙ v.order;
  promised = v.promised;
  matched = v.matched ∙ sym (disarm-is_given s.current);
}

after_line-IsValid : (t : State) {s : Session} → IsValid s → IsValid (after_line t s)
unfolding after_line
after_line-IsValid State.complete {s} v =
    process_next_command-IsValid (release-settle-IsValid (get_response s.builder) v)
after_line-IsValid State.waiting_prompt v = stop-IsValid v
after_line-IsValid State.idle v = v
after_line-IsValid State.waiting_response v = v
after_line-IsValid State.waiting_final v = v

dispatched-IsValid :
    (d : Dispatcher.Dispatched Handler) {s : Session} → IsValid s → IsValid (dispatched d s)
unfolding dispatched
dispatched-IsValid d v =
    run_handler-IsValid d.called
      (record { order = v.order; promised = v.promised; matched = v.matched })

on_line_received-IsValid :
    (text : Bytes) {s : Session} → IsValid s → IsValid (on_line_received text s)
unfolding on_line_received
on_line_received-IsValid [] v = v
on_line_received-IsValid (c ∷ cs) {s} v =
    let d = Dispatcher.dispatch s.handlers s.builder (c ∷ cs) in
    if-IsValid (not s.in_progress) (go (UrcDispatcher.dispatch s.handlers (c ∷ cs)))
      (after_line-IsValid (dispatched d s).builder.state (dispatched-IsValid d v))
  where
    go : (o : Option (Option (Call Handler))) → IsValid (run_urc o s)
    go none = v
    go (some k) = run_handler-IsValid k v

on_timeout-IsValid : (aborted : Bool) {s : Session} → IsValid s → IsValid (on_timeout aborted s)
unfolding on_timeout
on_timeout-IsValid aborted v =
    if-IsValid aborted v (process_next_command-IsValid (release-settle-IsValid timeout_response v))

on_transport_error-IsValid :
    (error : Bytes) {s : Session} → IsValid s → IsValid (on_transport_error error s)
unfolding on_transport_error
on_transport_error-IsValid error {s} v = go s.current refl
  where
    go :
        (c : Option CurrentCommand)
        → s.current ≡ c
        → IsValid (elim c [
          | none ↦ s
          | some d ↦
              if s.in_progress then release (settle (some d) (transport_error error) s) else s
        ])
    go none e = v
    go (some d) e =
        if-IsValid s.in_progress
          (subst (λ o. IsValid (release (settle o (transport_error error) s))) e
            (release-settle-IsValid (transport_error error) v))
          v

-- Every event keeps the invariant.
pub step-IsValid : (e : Event) {s : Session} → IsValid s → IsValid (step e s)
unfolding step posted set_urc_callback stop
step-IsValid (send cmd) v = send_command-IsValid cmd v
step-IsValid (post timeout) v =
    process_next_command-IsValid
      (record { order = v.order; promised = v.promised; matched = v.matched })
step-IsValid resume v = process_next_command-IsValid v
step-IsValid (line text) v = on_line_received-IsValid text v
step-IsValid (timer aborted) v = on_timeout-IsValid aborted v
step-IsValid (port_error error) v = on_transport_error-IsValid error v
step-IsValid (set_callback given) v = record {
  order = v.order;
  promised = v.promised;
  matched = v.matched;
}
step-IsValid stopped v = stop-IsValid v

-- Every history keeps the invariant.
pub run-IsValid : (es : List Event) {s : Session} → IsValid s → IsValid (run es s)
unfolding run
run-IsValid [] v = v
run-IsValid (e ∷ es) v = run-IsValid es (step-IsValid e v)

create-IsValid : IsValid create
unfolding create
create-IsValid = record { order = refl; promised = tt; matched = refl }

-- After any history of a new session, the promises settled so far, in the order in which they
-- were settled, followed by those still pending, are 0, 1, … up to the number of calls of
-- `send_command`: no promise is settled twice, skipped or overtaken.
pub settled_in_order :
    (es : List Event)
    → settled_ids (run es create).settled ++ pending (run es create)
      ≡ upto (run es create).queue.promises
settled_in_order es = (run-IsValid es create-IsValid).order
