-- ===== src/Transport/RingBuffer/Invariant.antt =====
-- The well-formedness of a `RingBuffer`.
use sms_relay.Base.{ℕ, ◌+◌, ◌%◌, ◌^◌, ◌≤◌, ◌<◌, ◌≡◌, length, length-replicate, arith}
use sms_relay.Transport.RingBuffer.{RingBuffer, make, advance}

-- The vector has `capacity` bytes, the indices are inside, and the tail stands `size` bytes
-- after the head. A vector of bytes is shorter than 2 ^ 63.
pub record IsValid (r : RingBuffer) : Type 0 where
  pub storage : length r.buffer ≡ r.capacity
  pub small : r.capacity < 2 ^ 63
  pub head_inside : r.head < r.capacity
  pub tail_inside : r.tail < r.capacity
  pub fits : r.size ≤ r.capacity
  pub distance : r.tail ≡ (r.head + r.size) % r.capacity

pub make-IsValid : (capacity : ℕ) → 0 < capacity → capacity < 2 ^ 63 → IsValid (make capacity)
unfolding make
make-IsValid capacity p h = record {
  storage = length-replicate capacity 0;
  small = h;
  head_inside = p;
  tail_inside = p;
  fits = omega arith;
  distance = grind arith;
}

-- `size_t` does not wrap at an index.
pub advance_small :
    (capacity index : ℕ)
    → capacity < 2 ^ 63
    → index < capacity
    → advance capacity index ≡ (index + 1) % capacity
advance_small capacity index c h = ground (arith, modulus)
  where
    modulus : (index + 1) % 2 ^ 64 ≡ index + 1
    modulus = omega arith
