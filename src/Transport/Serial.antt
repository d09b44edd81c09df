-- ===== src/Transport/Serial.antt =====
-- `SerialTransport` of src/sms_relay/transport/serial_transport.cpp. What the port and asio do are
-- the arguments of the handlers; each function is what runs on the IO thread, posted lambdas
-- included. `in_flight` counts the asynchronous writes that have not completed: all of them send
-- from `current_write_data`.
pub mod Overlap
use sms_relay.Base.{
  ℕ, suc, ◌-◌, Bool, true, false, not, ◌||◌, Option, none, some, List, [], ◌∷◌, ◌++◌, Bytes,
  if◌then◌else◌,
}
use sms_relay.Base.Text.{codes}
use sms_relay.Transport.LineParser.{LineParser, crlf, feed}

-- `reading` is whether an asynchronous read waits. `received`, `reported` and `posted` log the calls
-- of the data and error callbacks and the posted changes of the connection.
pub record SerialTransport : Type 0 where
  pub port : Bytes
  pub connected : Bool
  pub writing : Bool
  pub write_queue : List Bytes
  pub current_write_data : Bytes
  pub in_flight : ℕ
  pub reading : Bool
  pub line_parser : LineParser
  pub data_callback : Bool
  pub error_callback : Bool
  pub received : List Bytes
  pub reported : List Bytes
  pub posted : List Bool

unfoldable pub create : Bytes → SerialTransport
create port = record {
  port = port;
  connected = false;
  writing = false;
  write_queue = [];
  current_write_data = [];
  in_flight = 0;
  reading = false;
  line_parser = record { buffer = []; callback = true };
  data_callback = false;
  error_callback = false;
  received = [];
  reported = [];
  posted = [];
}

abbrev pub set_data_callback : Bool → SerialTransport → SerialTransport
set_data_callback given t = record t { data_callback = given }

abbrev pub set_error_callback : Bool → SerialTransport → SerialTransport
set_error_callback given t = record t { error_callback = given }

unfoldable pub report : Bytes → SerialTransport → SerialTransport
report message t =
    if t.error_callback then record t { reported = t.reported ++ message ∷ [] } else t

unfoldable pub notify_connection_state : Bool → SerialTransport → SerialTransport
notify_connection_state connected t = record t { posted = t.posted ++ connected ∷ [] }

unfoldable pub start_write : List Bytes → SerialTransport → SerialTransport
start_write [] t = record t { writing = false }
start_write (bytes ∷ rest) t = record t {
  write_queue = rest;
  current_write_data = bytes;
  in_flight = suc t.in_flight;
}

unfoldable pub do_write : SerialTransport → SerialTransport
unfolding start_write
do_write t = if not t.connected then record t { writing = false } else start_write t.write_queue t

unfoldable pub write : Bytes → SerialTransport → SerialTransport
unfolding do_write
write bytes t =
    let t' = record t { write_queue = t.write_queue ++ bytes ∷ [] } in
    if not t'.writing then do_write t' else t'

-- The completion of a write: no error, or its message.
unfoldable pub handle_write : Option Bytes → SerialTransport → SerialTransport
unfolding do_write report
handle_write none t = do_write (record t { in_flight = t.in_flight - 1 })
handle_write (some message) t =
    let t' =
      report (codes "Write error: " ++ (message ++ codes " - closing port"))
        (record t { in_flight = t.in_flight - 1 }) in
    record t' { connected = false; writing = false }

unfoldable pub do_read : SerialTransport → SerialTransport
do_read t = if not t.connected then t else record t { reading = true }

-- `do_open`: no exception, or its text.
unfoldable pub do_open : Option Bytes → SerialTransport → SerialTransport
unfolding report notify_connection_state do_read
do_open none t = do_read (
    notify_connection_state true
      (report (codes "Serial port opened: " ++ t.port) (record t { connected = true })))
do_open (some what) t = notify_connection_state false (
    report (codes "Failed to open serial port " ++ (t.port ++ (codes ": " ++ what)))
      (record t { connected = false }))

unfoldable pub report_if : Bytes → Option Bytes → SerialTransport → SerialTransport
unfolding report
report_if prefix none t = t
report_if prefix (some message) t = report (prefix ++ message) t

-- `close`: the errors of the cancellation and of the closing, but a bad descriptor.
unfoldable pub close : Option Bytes → Option Bytes → SerialTransport → SerialTransport
unfolding report_if notify_connection_state
close cancelled closed t =
    if t.connected
    then notify_connection_state false (
        report_if (codes "Error closing serial port: ") closed
          (report_if (codes "Cancel error: ") cancelled (record t { connected = false })))
    else t

pub data ReadOutcome : Type 0 where
  transferred failed : Bytes → ReadOutcome
  aborted : ReadOutcome

-- The callback of the line parser, for each line.
unfoldable pub forward_lines : List Bytes → SerialTransport → SerialTransport
forward_lines [] t = t
forward_lines (line ∷ lines) t =
    forward_lines lines
      (if t.data_callback then record t { received = t.received ++ (line ++ crlf) ∷ [] } else t)

unfoldable pub parsed : Option (List Bytes × LineParser) → SerialTransport → Option SerialTransport
unfolding forward_lines do_read
parsed none t = none
parsed (some (lines, p)) t = some (do_read (forward_lines lines (record t { line_parser = p })))

-- The completion of a read.
unfoldable pub handle_read : ReadOutcome → SerialTransport → Option SerialTransport
unfolding report do_read parsed
handle_read aborted t = some (record t { reading = false })
handle_read (failed message) t =
    some
      (report (codes "Read error: " ++ message) (record t { reading = false; connected = false }))
handle_read (transferred []) t = some (do_read (record t { reading = false }))
handle_read (transferred (c ∷ bytes)) t =
    parsed (feed (c ∷ bytes) t.line_parser) (record t { reading = false })
