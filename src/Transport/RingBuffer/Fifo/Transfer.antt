-- ===== src/Transport/RingBuffer/Fifo/Transfer.antt =====
-- One `write` and one `read` against the queue.
use sms_relay.Base.{
  ℕ, zero, suc, ◌+◌, ◌-◌, ◌≤◌, ◌<◌, min, ◌≡◌, refl, ap, sym, ◌∙◌, true, false, some, inl, inr, [],
  ◌∷◌, ◌++◌, append-nil, append_assoc, Bytes, length, take, drop, take-cons, ltb, ltb→lt,
  Bool-cases, arith, get_or,
}
use sms_relay.Transport.RingBuffer.{RingBuffer, put, skip, write_loop, write, read_loop, read}
use sms_relay.Transport.RingBuffer.Invariant.{IsValid}
use sms_relay.Transport.RingBuffer.Fifo.{
  contents, put-IsValid, contents-put, skip-IsValid, contents-skip,
}

-- What the loop of `write` has done when it stops, from `written` bytes on.
record Wrote (r : RingBuffer) (bytes : Bytes) (written : ℕ) (out : ℕ × RingBuffer) : Type 0 where
  valid : IsValid out.1
  same_capacity : out.1.capacity ≡ r.capacity
  count : out.0 ≡ written + min (length bytes) (r.capacity - r.size)
  queue : contents out.1 ≡ contents r ++ take (r.capacity - r.size) bytes

take-zero : (n : ℕ) (bytes : Bytes) → n ≡ 0 → take n bytes ≡ []
take-zero n bytes e = rw e

take-nil : (n : ℕ) → take {A = ℕ} n [] ≡ []
take-nil zero = refl
take-nil (suc n) = refl

drop-nil : (n : ℕ) → drop {A = ℕ} n [] ≡ []
drop-nil zero = refl
drop-nil (suc n) = refl

put_fields :
    (r : RingBuffer) (x : ℕ) → ((put r x).capacity ≡ r.capacity) × ((put r x).size ≡ r.size + 1)
unfolding put
put_fields r x = (refl, refl)

write_loop-Wrote :
    (bytes : Bytes) (written : ℕ) {r : RingBuffer}
    → IsValid r
    → Wrote r bytes written (write_loop bytes written r)
unfolding write_loop
write_loop-Wrote [] written {r} v = record {
  valid = v;
  same_capacity = refl;
  count = omega arith;
  queue = rw (take-nil, append-nil);
}
write_loop-Wrote (x ∷ bytes) written {r} v = elim (Bool-cases (ltb r.size r.capacity)) [
  | inl room ↦
      let h : r.size < r.capacity = ltb→lt _ _ room in
      let w : Wrote (put r x) bytes (written + 1) (write_loop bytes (written + 1) (put r x)) =
        write_loop-Wrote bytes (written + 1) (put-IsValid x v h) in
      ground (
        arith,
        w,
        put_fields r x,
        contents-put x v h,
        take-cons (r.capacity - r.size) x bytes,
        append_assoc (contents r) (x ∷ []) (take (r.capacity - (r.size + 1)) bytes),
      )
  | inr full ↦
      ground (arith, v, take-zero (r.capacity - r.size) (x ∷ bytes), append-nil (contents r))
]

-- What the loop of `read` has done when it stops, with `out` handed over before.
record Took (r : RingBuffer) (rounds : ℕ) (out : Bytes) (got : Bytes × RingBuffer) : Type 0 where
  valid : IsValid got.1
  same_capacity : got.1.capacity ≡ r.capacity
  bytes : got.0 ≡ out ++ take rounds (contents r)
  queue : contents got.1 ≡ drop rounds (contents r)

contents-empty : (r : RingBuffer) → r.size ≡ 0 → contents r ≡ []
contents-empty r e = rw e

pub take_all : (bytes : Bytes) (n : ℕ) → length bytes ≤ n → take n bytes ≡ bytes
take_all [] n h = take-nil n
take_all (x ∷ bytes) zero h = absurd (omega arith)
take_all (x ∷ bytes) (suc n) h = ap (◌∷◌ x) (take_all bytes n (omega arith))

pub drop_all : (bytes : Bytes) (n : ℕ) → length bytes ≤ n → drop n bytes ≡ []
drop_all [] n h = drop-nil n
drop_all (x ∷ bytes) zero h = absurd (omega arith)
drop_all (x ∷ bytes) (suc n) h = drop_all bytes n (omega arith)

skip_fields : (r : RingBuffer) → (skip r).capacity ≡ r.capacity
unfolding skip
skip_fields r = refl

read_loop-Took :
    (rounds : ℕ) (out : Bytes) {r : RingBuffer}
    → IsValid r
    → Took r rounds out (read_loop rounds out r)
unfolding read_loop
read_loop-Took zero out {r} v = record {
  valid = v;
  same_capacity = refl;
  bytes = sym (append-nil out);
  queue = refl;
}
read_loop-Took (suc rounds) out {r} v = elim (Bool-cases (ltb 0 r.size)) [
  | inl more ↦
      let h : 0 < r.size = ltb→lt _ _ more in
      let b = get_or r.buffer r.head 0 in
      let t : Took (skip r) rounds (out ++ b ∷ []) (read_loop rounds (out ++ b ∷ []) (skip r)) =
        read_loop-Took rounds (out ++ b ∷ []) (skip-IsValid v h) in
      rw more (record {
        valid = t.valid;
        same_capacity = t.same_capacity ∙ skip_fields r;
        bytes =
            t.bytes
            ∙ append_assoc out (b ∷ []) (take rounds (contents (skip r)))
            ∙ ap (λ q. out ++ take (suc rounds) q) (sym (contents-skip v h));
        queue = t.queue ∙ ap (drop (suc rounds)) (sym (contents-skip v h));
      })
  | inr done ↦
      let nothing : contents r ≡ [] = contents-empty r (ground arith) in
      rw done (record {
        valid = v;
        same_capacity = refl;
        bytes = sym (append-nil out) ∙ ap (λ q. out ++ take (suc rounds) q) (sym nothing);
        queue = nothing ∙ ap (drop (suc rounds)) (sym nothing);
      })
]

abbrev locked : RingBuffer → RingBuffer
locked r = record r { held = true }

locked-IsValid : {r : RingBuffer} → IsValid r → IsValid (locked r)
locked-IsValid v = record {
  storage = v.storage;
  small = v.small;
  head_inside = v.head_inside;
  tail_inside = v.tail_inside;
  fits = v.fits;
  distance = v.distance;
}

unlocked-IsValid : {r : RingBuffer} → IsValid r → IsValid (record r { held = false })
unlocked-IsValid v = record {
  storage = v.storage;
  small = v.small;
  head_inside = v.head_inside;
  tail_inside = v.tail_inside;
  fits = v.fits;
  distance = v.distance;
}

-- On a valid buffer whose mutex is free, `write` returns how many bytes fitted, appends exactly
-- those bytes to the queue in order, keeps the invariant and releases the mutex.
pub write_fifo :
    (bytes : Bytes) {r : RingBuffer}
    → IsValid r
    → r.held ≡ false
    → (r' : RingBuffer) × (write bytes r ≡ some (min (length bytes) (r.capacity - r.size), r'))
      × (contents r' ≡ contents r ++ take (r.capacity - r.size) bytes)
      × IsValid r'
      × (r'.capacity ≡ r.capacity)
      × (r'.held ≡ false)
unfolding write
write_fifo bytes {r} v free =
    let w : Wrote (locked r) bytes 0 (write_loop bytes 0 (locked r)) =
      write_loop-Wrote bytes 0 (locked-IsValid v) in
    (
      record (write_loop bytes 0 (locked r)).1 { held = false },
      rw free (
          ap (λ n. some (n, record (write_loop bytes 0 (locked r)).1 { held = false }))
            (w.count ∙ omega arith)),
      w.queue,
      unlocked-IsValid w.valid,
      w.same_capacity,
      refl,
    )

-- On a valid buffer whose mutex is free, `read` hands over the oldest `count` bytes, or all of
-- them if there are fewer, takes exactly those off the queue, keeps the invariant and releases
-- the mutex.
pub read_fifo :
    (count : ℕ) {r : RingBuffer}
    → IsValid r
    → r.held ≡ false
    → (r' : RingBuffer) × (read count r ≡ some (take count (contents r), r'))
      × (contents r' ≡ drop count (contents r))
      × IsValid r'
      × (r'.capacity ≡ r.capacity)
      × (r'.held ≡ false)
unfolding read
read_fifo count {r} v free =
    let t : Took (locked r) count [] (read_loop count [] (locked r)) =
      read_loop-Took count [] (locked-IsValid v) in
    (
      record (read_loop count [] (locked r)).1 { held = false },
      rw free
          (ap (λ b. some (b, record (read_loop count [] (locked r)).1 { held = false })) t.bytes),
      t.queue,
      unlocked-IsValid t.valid,
      t.same_capacity,
      refl,
    )
