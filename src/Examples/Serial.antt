-- ===== src/Examples/Serial.antt =====
-- The serial transport and the relay of its lines.
use sms_relay.Base.{suc, ◌≡◌, refl, true, false, none, some, [], ◌∷◌, arith}
use sms_relay.Base.Text.{codes}
use sms_relay.Transport.LineParser.{LineParser, strip_cr}
use sms_relay.Transport.Serial.{
  SerialTransport, create, set_data_callback, set_error_callback, do_open, do_read, report,
  notify_connection_state, write,
}
use sms_relay.Transport.Serial.Overlap.{
  sets_data_callback, sets_error_callback, opens, Reachable, start, next, write_overlaps,
}
use sms_relay.At.Session.Intake.{posted_lines, receive}
use sms_relay.At.Session.Relay.{handle_reads, relay}

-- A port opened once a session has set its callbacks.
abbrev opened : SerialTransport
opened = do_open none (set_error_callback true (set_data_callback true (create (codes "tty"))))

opened-Reachable : Reachable (codes "tty") opened
opened-Reachable =
    next (next (next start (sets_data_callback true)) (sets_error_callback true)) (opens none)

write_overlaps_example :
    (opened.writing ≡ false)
    × ((write (codes "AT") opened).in_flight ≡ suc opened.in_flight)
    × ((write (codes "AT") opened).current_write_data ≡ codes "AT")
unfolding create do_open do_read report notify_connection_state
write_overlaps_example = write_overlaps (codes "AT") opened-Reachable refl refl

-- A second command starts while the first is in flight, and replaces its bytes.
abbrev twice : SerialTransport
twice = write (codes "B") (write (codes "A") opened)

two_in_flight : (twice.in_flight ≡ 2) × (twice.current_write_data ≡ codes "B")
unfolding create do_open do_read report notify_connection_state write
two_in_flight = (refl, refl)

abbrev session_parser : LineParser
session_parser = record { buffer = []; callback = true }

-- "OK" and "RING" in three reads.
relay_example :
    (t' : SerialTransport) × (handle_reads
        (codes "O" ∷ codes "K\r" ∷ codes "\nRING\r\n" ∷ [])
        opened
      ≡ some t')
    × (receive t'.received session_parser
        ≡ some (posted_lines (codes "OK" ∷ codes "RING" ∷ []), session_parser))
unfolding create do_open do_read report notify_connection_state strip_cr
relay_example =
    relay (codes "O") (codes "K\r" ∷ codes "\nRING\r\n" ∷ []) (codes "OK" ∷ codes "RING" ∷ [])
      opened session_parser (ground arith) refl ((ground arith, refl), ((ground arith, refl), tt))
      refl refl refl refl refl refl
