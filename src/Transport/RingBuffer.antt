-- ===== src/Transport/RingBuffer.antt =====
-- The byte buffer of src/sms_relay/transport/ring_buffer.h. A method takes the mutex, runs its
-- body and releases it; `none` is a call that never returns, because the mutex is not recursive.
pub mod Invariant
pub mod Fifo
use sms_relay.Base.{
  ℕ, zero, suc, ◌+◌, ◌-◌, ◌%◌, ◌^◌, Bool, true, false, Option, none, some, [], ◌∷◌, ◌++◌, Bytes,
  length, set, get_or, replicate, ltb, ◌==◌, if◌then◌else◌,
}

-- The fields of `RingBuffer`; `held` is the state of `mutex_`.
pub record RingBuffer : Type 0 where
  pub buffer : Bytes
  pub capacity : ℕ
  pub head : ℕ
  pub tail : ℕ
  pub size : ℕ
  pub held : Bool

abbrev pub default_capacity : ℕ
default_capacity = 4096

-- The constructor: the vector is filled with zeros.
unfoldable pub make : ℕ → RingBuffer
make capacity = record {
  buffer = replicate capacity 0;
  capacity = capacity;
  head = 0;
  tail = 0;
  size = 0;
  held = false;
}

-- `(index + 1) % capacity_` on `size_t`.
abbrev pub advance : ℕ → ℕ → ℕ
advance capacity index = (index + 1) % 2 ^ 64 % capacity

-- `std::lock_guard` round a body.
unfoldable pub with_lock :
    {A : Type 0} → (RingBuffer → Option (A × RingBuffer)) → RingBuffer → Option (A × RingBuffer)
with_lock body r = if r.held then none else elim (body (record r { held = true })) [
  | none ↦ none
  | some (a, r') ↦ some (a, record r' { held = false })
]

-- One round of the loop of `write`.
unfoldable pub put : RingBuffer → ℕ → RingBuffer
put r byte = record r {
  buffer = set r.buffer r.tail byte;
  tail = advance r.capacity r.tail;
  size = r.size + 1;
}

unfoldable pub write_loop : Bytes → ℕ → RingBuffer → ℕ × RingBuffer
write_loop [] written r = (written, r)
write_loop (byte ∷ bytes) written r =
    let rest = write_loop bytes (written + 1) (put r byte) in
    if ltb r.size r.capacity then rest else (written, r)

unfoldable pub write : Bytes → RingBuffer → Option (ℕ × RingBuffer)
unfolding with_lock
write bytes = with_lock (λ r. some (write_loop bytes 0 r))

-- One round of the loop of `read`, but for the byte that it hands over.
unfoldable pub skip : RingBuffer → RingBuffer
skip r = record r { head = advance r.capacity r.head; size = r.size - 1 }

-- `out` is what the loop has stored in the caller's array so far.
unfoldable pub read_loop : ℕ → Bytes → RingBuffer → Bytes × RingBuffer
read_loop zero out r = (out, r)
read_loop (suc rounds) out r =
    let rest = read_loop rounds (out ++ get_or r.buffer r.head 0 ∷ []) (skip r) in
    if ltb 0 r.size then rest else (out, r)

unfoldable pub read : ℕ → RingBuffer → Option (Bytes × RingBuffer)
unfolding with_lock
read count = with_lock (λ r. some (read_loop count [] r))

-- `read_all` takes the mutex and calls `read`, which takes it again.
unfoldable pub read_all : RingBuffer → Option (Bytes × RingBuffer)
unfolding with_lock
read_all r = with_lock (read r.size) r

unfoldable pub clear : RingBuffer → Option (Unit {0} × RingBuffer)
unfolding with_lock
clear = with_lock (λ r. some (tt, record r { head = 0; tail = 0; size = 0 }))

abbrev pub is_empty : RingBuffer → Bool
is_empty r = r.size == 0

abbrev pub is_full : RingBuffer → Bool
is_full r = r.size == r.capacity
