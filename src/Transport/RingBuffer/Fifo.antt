-- ===== src/Transport/RingBuffer/Fifo.antt =====
-- The queue of bytes that a `RingBuffer` stands for, and one round of each loop.
mod Modular
pub mod Transfer
pub mod RoundTrip
use native.Mathlib.Nat.{mod-add-mod, mod-eq_of_lt, mod-lt, add-zero}
use native.Mathlib.Numerals.{add-one}
use mathlib.Core.Path.{subst}
use sms_relay.Base.{
  ℕ, zero, suc, ◌+◌, ◌-◌, ◌%◌, ◌^◌, ◌≤◌, ◌<◌, ◌≡◌, refl, ap, ap₂, ◌∙◌, sym, Option, none, some,
  List, [], ◌∷◌, ◌++◌, Bytes, length, set, get_or, get_or-set_self, get_or-set_ne, length-set,
  arith,
}
use sms_relay.Transport.RingBuffer.{RingBuffer, advance, put, skip}
use sms_relay.Transport.RingBuffer.Invariant.{IsValid, advance_small}
use Modular.{ahead-ne, ahead_step, full_turn}

module _ (buffer : Bytes) (capacity : ℕ) where
  -- `count` bytes from index `from` on.
  abbrev pub segment : ℕ → ℕ → Bytes
  segment from zero = []
  segment from (suc count) = get_or buffer from 0 ∷ segment ((from + 1) % capacity) count

  length-segment : (from count : ℕ) → length (segment from count) ≡ count
  length-segment from zero = refl
  length-segment from (suc count) = ap suc (length-segment ((from + 1) % capacity) count)

  -- The last byte split off instead of the first.
  segment-suc :
      (from count : ℕ)
      → from < capacity
      → segment from (suc count)
        ≡ segment from count ++ get_or buffer ((from + count) % capacity) 0 ∷ []
  segment-suc from zero h =
      let e : (from + 0) % capacity ≡ from = rw add-zero (mod-eq_of_lt h) in rw e
  segment-suc from (suc count) h = ap (◌∷◌ (get_or buffer from 0)) (
      segment-suc ((from + 1) % capacity) count (omega arith)
      ∙ ap (λ i. segment ((from + 1) % capacity) count ++ get_or buffer i 0 ∷ [])
          (ahead_step capacity from count))

-- The queue that a ring buffer holds.
abbrev pub contents : RingBuffer → Bytes
contents r = segment r.buffer r.capacity r.head r.size

pub length-contents : (r : RingBuffer) → length (contents r) ≡ r.size
length-contents r = length-segment r.buffer r.capacity r.head r.size

-- A write at `i` is not seen by a segment that starts `k` later and ends before `i` comes round.
segment-set :
    (buffer : Bytes) (capacity i x k count : ℕ)
    → i < capacity
    → 0 < k
    → k + count ≤ capacity
    → segment (set buffer i x) capacity ((i + k) % capacity) count
      ≡ segment buffer capacity ((i + k) % capacity) count
segment-set buffer capacity i x k zero hi hk h = refl
segment-set buffer capacity i x k (suc count) hi hk h =
    ap₂ ◌∷◌ (get_or-set_ne buffer x 0 (λ e. ahead-ne capacity i k hi hk (omega arith) (sym e)))
      (rw round (segment-set buffer capacity i x (k + 1) count hi (omega arith) (omega arith)))
  where
    round : ((i + k) % capacity + 1) % capacity ≡ (i + (k + 1)) % capacity
    round = mod-add-mod (i + k) capacity 1 ∙ ap (λ t. t % capacity) (omega arith)

-- A write just behind a segment makes it longer by that byte.
segment-set_end :
    (buffer : Bytes) (capacity from count i x : ℕ)
    → length buffer ≡ capacity
    → from < capacity
    → count < capacity
    → i ≡ (from + count) % capacity
    → segment (set buffer i x) capacity from (suc count)
      ≡ segment buffer capacity from count ++ x ∷ []
segment-set_end buffer capacity from count i x hl hf hc e =
    segment-suc (set buffer i x) capacity from count hf
    ∙ ap₂ (λ s b. s ++ b ∷ []) unseen (rw (← e) (get_or-set_self buffer i x 0 inside))
  where
    inside : i < length buffer
    inside = rw (hl, e) (mod-lt _ (omega arith))

    back : (i + (capacity - count)) % capacity ≡ from
    back = rw e (full_turn capacity from count hf (omega arith))

    unseen : segment (set buffer i x) capacity from count ≡ segment buffer capacity from count
    unseen =
        subst (λ f. segment (set buffer i x) capacity f count ≡ segment buffer capacity f count)
          back
          (segment-set buffer capacity i x (capacity - count) count (rw hl at inside) (omega arith)
            (omega arith))

-- `put` keeps the invariant, and appends its byte to the queue.
pub put-IsValid : {r : RingBuffer} (x : ℕ) → IsValid r → r.size < r.capacity → IsValid (put r x)
unfolding put
put-IsValid {r} x v h = record {
  storage = length-set r.buffer r.tail x ∙ v.storage;
  small = v.small;
  head_inside = v.head_inside;
  tail_inside = mod-lt _ (omega arith);
  fits = omega arith;
  distance =
      advance_small r.capacity r.tail v.small v.tail_inside
      ∙ ap (λ t. (t + 1) % r.capacity) v.distance
      ∙ mod-add-mod (r.head + r.size) r.capacity 1
      ∙ ap (λ t. t % r.capacity) (omega arith);
}

pub contents-put :
    {r : RingBuffer} (x : ℕ)
    → IsValid r
    → r.size < r.capacity
    → contents (put r x) ≡ contents r ++ x ∷ []
unfolding put
contents-put {r} x v h = rw add-one (
    segment-set_end r.buffer r.capacity r.head r.size r.tail x v.storage v.head_inside h v.distance)

-- `skip` keeps the invariant, and takes the oldest byte off the queue.
pub skip-IsValid : {r : RingBuffer} → IsValid r → 0 < r.size → IsValid (skip r)
unfolding skip
skip-IsValid {r} v h = record {
  storage = v.storage;
  small = v.small;
  head_inside = mod-lt _ (omega arith);
  tail_inside = v.tail_inside;
  fits = omega arith;
  distance =
      v.distance
      ∙ ap (λ t. t % r.capacity) (omega arith)
      ∙ sym (mod-add-mod (r.head + 1) r.capacity (r.size - 1))
      ∙ ap (λ t. (t + (r.size - 1)) % r.capacity)
          (sym (advance_small r.capacity r.head v.small v.head_inside));
}

pub contents-skip :
    {r : RingBuffer}
    → IsValid r
    → 0 < r.size
    → contents r ≡ get_or r.buffer r.head 0 ∷ contents (skip r)
unfolding skip
contents-skip {r} v h =
    let e : r.size ≡ suc (r.size - 1) = omega arith in
    ap (segment r.buffer r.capacity r.head) e
    ∙ ap (λ f. get_or r.buffer r.head 0 ∷ segment r.buffer r.capacity f (r.size - 1))
        (sym (advance_small r.capacity r.head v.small v.head_inside))
