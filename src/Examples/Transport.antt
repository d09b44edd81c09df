-- ===== src/Examples/Transport.antt =====
-- A ring buffer that has wrapped round, lines in two reads, and a notification table.
use sms_relay.Base.{ℕ, ◌≡◌, refl, true, false, none, some, [], ◌∷◌, All, arith}
use sms_relay.Base.Text.{codes, bytes_eq, starts_with}
use sms_relay.Transport.RingBuffer.{RingBuffer, write, read, read_all}
use sms_relay.Transport.RingBuffer.Invariant.{IsValid}
use sms_relay.Transport.RingBuffer.Fifo.{contents}
use sms_relay.Transport.RingBuffer.Fifo.Transfer.{write_fifo, read_fifo}
use sms_relay.Transport.RingBuffer.Fifo.RoundTrip.{read_all_blocks}
use sms_relay.Transport.LineParser.{LineParser, strip_cr}
use sms_relay.Transport.LineParser.Lines.{IsLine}
use sms_relay.Transport.UrcDispatcher.{Handlers, arguments, dispatch_in, dispatch}
use sms_relay.Transport.UrcDispatcher.Routing.{OnlyMatch}

-- Two bytes in a buffer of four, the second at index 0.
abbrev wrapped : RingBuffer
wrapped = record {
  buffer = 2 ∷ 9 ∷ 9 ∷ 1 ∷ [];
  capacity = 4;
  head = 3;
  tail = 1;
  size = 2;
  held = false;
}

wrapped-IsValid : IsValid wrapped
wrapped-IsValid = record {
  storage = refl;
  small = omega arith;
  head_inside = omega arith;
  tail_inside = omega arith;
  fits = omega arith;
  distance = refl;
}

write_fifo_example :
    (r : RingBuffer) × (write (5 ∷ 6 ∷ 7 ∷ []) wrapped ≡ some (2, r))
    × (contents r ≡ 1 ∷ 2 ∷ 5 ∷ 6 ∷ [])
    × IsValid r
    × (r.capacity ≡ 4)
    × (r.held ≡ false)
write_fifo_example = write_fifo (5 ∷ 6 ∷ 7 ∷ []) wrapped-IsValid refl

read_fifo_example :
    (r : RingBuffer) × (read 1 wrapped ≡ some (1 ∷ [], r))
    × (contents r ≡ 2 ∷ [])
    × IsValid r
    × (r.capacity ≡ 4)
    × (r.held ≡ false)
read_fifo_example = read_fifo 1 wrapped-IsValid refl

read_all_blocks_example : read_all wrapped ≡ none
read_all_blocks_example = read_all_blocks wrapped

abbrev parser : LineParser
parser = record { buffer = []; callback = true }

two_lines-IsLine : All IsLine (codes "AT" ∷ codes "OK" ∷ [])
unfolding strip_cr
two_lines-IsLine = ((ground arith, refl), ((ground arith, refl), tt))

abbrev table : Handlers ℕ
table = (codes "RING", some 1) ∷ (codes "+CMTI", some 2) ∷ []

only_cmti : OnlyMatch (codes "+CMTI") (codes "+CMTI: 1") table
unfolding starts_with bytes_eq
only_cmti = (λ e. refl, (λ e. absurd (cc e), tt))

cmti_first : starts_with (codes "+CMTI: 1") (codes "+CMTI") ≡ true
unfolding starts_with
cmti_first = refl

-- A handler is called with what follows the colon and the space.
run_of_dispatch : dispatch table (codes "+CMTI: 7") ≡ some (some (2, codes "+CMTI", codes "7"))
unfolding dispatch dispatch_in starts_with arguments
run_of_dispatch = refl
