-- ===== src/Transport/Serial/Overlap.antt =====
-- The write queue of `SerialTransport`.
use sms_relay.Base.{
  suc, ◌-◌, ◌≡◌, refl, Bool, true, false, not, Option, none, some, List, [], ◌∷◌, ◌++◌, Bytes,
  if◌then◌else◌, arith,
}
use mathlib.Core.Path.{subst}
use sms_relay.Base.Text.{codes}
use sms_relay.Transport.LineParser.{LineParser, feed}
use sms_relay.Transport.Serial.{
  SerialTransport, create, set_data_callback, set_error_callback, report, notify_connection_state,
  start_write, do_write, write, handle_write, do_read, do_open, report_if, close, ReadOutcome,
  transferred, failed, aborted, forward_lines, parsed, handle_read,
}

-- A step of the IO thread, or a call that sets a callback.
pub data Step : SerialTransport → SerialTransport → Type 0 where
  sets_data_callback : {t : SerialTransport} → (given : Bool) → Step t (set_data_callback given t)
  sets_error_callback : {t : SerialTransport} → (given : Bool) → Step t (set_error_callback given t)
  writes : {t : SerialTransport} → (bytes : Bytes) → Step t (write bytes t)
  written : {t : SerialTransport} → (outcome : Option Bytes) → Step t (handle_write outcome t)
  opens : {t : SerialTransport} → (outcome : Option Bytes) → Step t (do_open outcome t)
  closes :
      {t : SerialTransport} → (cancelled closed : Option Bytes) → Step t (close cancelled closed t)
  reads :
      {t t' : SerialTransport}
      → (outcome : ReadOutcome) → handle_read outcome t ≡ some t'
      → Step t t'

pub data Reachable (port : Bytes) : SerialTransport → Type 0 where
  start : Reachable port (create port)
  next : {t t' : SerialTransport} → Reachable port t → Step t t' → Reachable port t'

-- No write is marked as in progress.
abbrev pub IsIdle : SerialTransport → Type 0
IsIdle t = t.writing ≡ false

either-IsIdle :
    (b : Bool) (t t' : SerialTransport) → IsIdle t → IsIdle t' → IsIdle (if b then t else t')
either-IsIdle true t t' h h' = h
either-IsIdle false t t' h h' = h'

report-IsIdle : (message : Bytes) (t : SerialTransport) → IsIdle t → IsIdle (report message t)
unfolding report
report-IsIdle message t h = either-IsIdle t.error_callback _ t h h

report_if-IsIdle :
    (prefix : Bytes) (message : Option Bytes) (t : SerialTransport)
    → IsIdle t
    → IsIdle (report_if prefix message t)
unfolding report_if
report_if-IsIdle prefix none t h = h
report_if-IsIdle prefix (some message) t h = report-IsIdle (prefix ++ message) t h

start_write-IsIdle :
    (queue : List Bytes) (t : SerialTransport) → IsIdle t → IsIdle (start_write queue t)
unfolding start_write
start_write-IsIdle [] t h = refl
start_write-IsIdle (bytes ∷ rest) t h = h

do_write-IsIdle : (t : SerialTransport) → IsIdle t → IsIdle (do_write t)
unfolding do_write
do_write-IsIdle t h =
    either-IsIdle (not t.connected) _ _ refl (start_write-IsIdle t.write_queue t h)

do_read-IsIdle : (t : SerialTransport) → IsIdle t → IsIdle (do_read t)
unfolding do_read
do_read-IsIdle t h = either-IsIdle (not t.connected) t _ h h

forward_lines-IsIdle :
    (lines : List Bytes) (t : SerialTransport) → IsIdle t → IsIdle (forward_lines lines t)
unfolding forward_lines
forward_lines-IsIdle [] t h = h
forward_lines-IsIdle (line ∷ lines) t h =
    forward_lines-IsIdle lines _ (either-IsIdle t.data_callback _ t h h)

write-IsIdle : (bytes : Bytes) (t : SerialTransport) → IsIdle t → IsIdle (write bytes t)
unfolding write
write-IsIdle bytes t h =
    either-IsIdle (not t.writing) _ _
      (do_write-IsIdle (record t { write_queue = t.write_queue ++ bytes ∷ [] }) h) h

handle_write-IsIdle :
    (outcome : Option Bytes) (t : SerialTransport) → IsIdle t → IsIdle (handle_write outcome t)
unfolding handle_write
handle_write-IsIdle none t h = do_write-IsIdle (record t { in_flight = t.in_flight - 1 }) h
handle_write-IsIdle (some message) t h = refl

do_open-IsIdle :
    (outcome : Option Bytes) (t : SerialTransport) → IsIdle t → IsIdle (do_open outcome t)
unfolding do_open notify_connection_state
do_open-IsIdle none t h = do_read-IsIdle _ (report-IsIdle _ (record t { connected = true }) h)
do_open-IsIdle (some what) t h = report-IsIdle _ (record t { connected = false }) h

close-IsIdle :
    (cancelled closed : Option Bytes) (t : SerialTransport)
    → IsIdle t
    → IsIdle (close cancelled closed t)
unfolding close notify_connection_state
close-IsIdle cancelled closed t h =
    let t₁ = record t { connected = false } in
    let t₂ = report_if (codes "Cancel error: ") cancelled t₁ in
    let t₃ = report_if (codes "Error closing serial port: ") closed t₂ in
    either-IsIdle t.connected (notify_connection_state false t₃) t
      (report_if-IsIdle (codes "Error closing serial port: ") closed t₂
        (report_if-IsIdle (codes "Cancel error: ") cancelled t₁ h))
      h

some-injective : {x y : SerialTransport} → some x ≡ some y → x ≡ y
some-injective e = ground (arith, e)

parsed-IsIdle :
    (result : Option (List Bytes × LineParser)) (t t' : SerialTransport)
    → IsIdle t
    → parsed result t ≡ some t'
    → IsIdle t'
unfolding parsed
parsed-IsIdle none t t' h e = absurd (ground (arith, e))
parsed-IsIdle (some (lines, p)) t t' h e =
    subst IsIdle (some-injective e)
      (do_read-IsIdle _ (forward_lines-IsIdle lines (record t { line_parser = p }) h))

handle_read-IsIdle :
    (outcome : ReadOutcome) (t t' : SerialTransport)
    → IsIdle t
    → handle_read outcome t ≡ some t'
    → IsIdle t'
unfolding handle_read
handle_read-IsIdle aborted t t' h e = subst IsIdle (some-injective e) h
handle_read-IsIdle (failed message) t t' h e =
    subst IsIdle (some-injective e)
      (report-IsIdle _ (record t { reading = false; connected = false }) h)
handle_read-IsIdle (transferred []) t t' h e =
    subst IsIdle (some-injective e) (do_read-IsIdle (record t { reading = false }) h)
handle_read-IsIdle (transferred (c ∷ bytes)) t t' h e =
    parsed-IsIdle (feed (c ∷ bytes) t.line_parser) (record t { reading = false }) t' h e

step-IsIdle : {t t' : SerialTransport} → Step t t' → IsIdle t → IsIdle t'
step-IsIdle (sets_data_callback given) h = h
step-IsIdle (sets_error_callback given) h = h
step-IsIdle (writes {t} bytes) h = write-IsIdle bytes t h
step-IsIdle (written {t} outcome) h = handle_write-IsIdle outcome t h
step-IsIdle (opens {t} outcome) h = do_open-IsIdle outcome t h
step-IsIdle (closes {t} cancelled closed) h = close-IsIdle cancelled closed t h
step-IsIdle (reads {t} {t'} outcome e) h = handle_read-IsIdle outcome t t' h e

Reachable-IsIdle : {port : Bytes} {t : SerialTransport} → Reachable port t → IsIdle t
unfolding create
Reachable-IsIdle start = refl
Reachable-IsIdle (next r step) = step-IsIdle step (Reachable-IsIdle r)

-- In every state that the transport can reach, whatever callbacks it has been given, with the port
-- open and the queue empty, no write is
-- marked as in progress, and a write starts an asynchronous write at once, however many are in
-- flight, and puts its bytes in place of those that they send from.
pub write_overlaps :
    {port : Bytes} {t : SerialTransport} (bytes : Bytes)
    → Reachable port t
    → t.connected ≡ true
    → t.write_queue ≡ []
    → (t.writing ≡ false)
      × ((write bytes t).in_flight ≡ suc t.in_flight)
      × ((write bytes t).current_write_data ≡ bytes)
unfolding write do_write start_write
write_overlaps {port} {t} bytes r on empty = (
  Reachable-IsIdle r,
  ground (arith, Reachable-IsIdle r, on, empty),
  ground (arith, Reachable-IsIdle r, on, empty),
)
