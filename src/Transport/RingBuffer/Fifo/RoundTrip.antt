-- ===== src/Transport/RingBuffer/Fifo/RoundTrip.antt =====
-- `read` after `write`, and `read_all`, of src/sms_relay/transport/ring_buffer.h.
use sms_relay.Base.{
  ◌+◌, ◌≤◌, ◌≡◌, ap, sym, ◌∙◌, false, none, some, [], ◌++◌, Bytes, length, take, drop, arith,
  take-append_length, drop-append_length,
}
use sms_relay.Transport.RingBuffer.{RingBuffer, write, read, read_all}
use sms_relay.Transport.RingBuffer.Invariant.{IsValid}
use sms_relay.Transport.RingBuffer.Fifo.{contents, length-contents}
use sms_relay.Transport.RingBuffer.Fifo.Transfer.{write_fifo, read_fifo, take_all, drop_all}

-- Bytes that fit behind what a valid buffer with a free mutex holds are read back unchanged once
-- the older bytes have been read, and the buffer is then empty.
pub read-write :
    (bytes : Bytes) {r : RingBuffer}
    → IsValid r
    → r.held ≡ false
    → r.size + length bytes ≤ r.capacity
    → (r₁ r₂ r₃ : RingBuffer) × (write bytes r ≡ some (length bytes, r₁))
      × (read r.size r₁ ≡ some (contents r, r₂))
      × (read (length bytes) r₂ ≡ some (bytes, r₃))
      × (contents r₃ ≡ [])
read-write bytes {r} v free fits =
    let (r₁, w, q₁, v₁, c₁, f₁) = write_fifo bytes v free in
    let (r₂, g₂, q₂, v₂, c₂, f₂) = read_fifo r.size v₁ f₁ in
    let (r₃, g₃, q₃, v₃, c₃, f₃) = read_fifo (length bytes) v₂ f₂ in
    let all : contents r₁ ≡ contents r ++ bytes =
      q₁ ∙ ap (◌++◌ (contents r)) (take_all bytes _ (omega arith)) in
    let size : length (contents r) ≡ r.size = length-contents r in
    let first : take r.size (contents r₁) ≡ contents r =
      ap (λ n. take n (contents r₁)) (sym size)
      ∙ ap (take (length (contents r))) all
      ∙ take-append_length (contents r) bytes in
    let later : contents r₂ ≡ bytes =
      q₂
      ∙ ap (λ n. drop n (contents r₁)) (sym size)
      ∙ ap (drop (length (contents r))) all
      ∙ drop-append_length (contents r) bytes in
    (
      r₁,
      r₂,
      r₃,
      w ∙ ap (λ n. some (n, r₁)) (omega arith),
      g₂ ∙ ap (λ b. some (b, r₂)) first,
      g₃ ∙ ap (λ b. some (b, r₃)) (ap (take (length bytes)) later ∙ take_all bytes _ (omega arith)),
      q₃ ∙ ap (drop (length bytes)) later ∙ drop_all bytes _ (omega arith),
    )

-- `read_all` never returns, on any buffer: it waits for a mutex that is taken, or takes it and
-- then waits for it itself in its call of `read`.
pub read_all_blocks : (r : RingBuffer) → read_all r ≡ none
unfolding read_all read
read_all_blocks r = ground arith
