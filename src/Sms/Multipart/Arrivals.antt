-- ===== src/Sms/Multipart/Arrivals.antt =====
-- Parts of messages that reach the multipart cache at their times.
use sms_relay.Base.{
  ℕ, ◌+◌, ◌≤◌, ◌≡◌, ◌≢◌, ◌*◌, ◌^◌, refl, sym, ap, ◌∙◌, ◌⊎◌, inl, inr, false, none, some, List, [],
  ◌∷◌, Bytes, if◌then◌else◌, leb, arith,
}
use Prim.Native.Nat.{compare}
use sms_relay.Base.OrderedMap.{compare_bytes, assign, lookup-assign, assign_not_empty}
use sms_relay.Sms.Message.{IncomingSms, MultipartCacheEntry, is_timed_out}
use sms_relay.Sms.Multipart.{
  MultipartCache, entry_of, started, with_part, handle_multipart, cleanup_cache,
}
use sms_relay.Sms.Multipart.Placing.{compare_bytes_self}

-- A part: when its task begins, when it is at hand, and the message.
abbrev pub Arrival : Type 0
Arrival = ℕ × ℕ × IncomingSms

-- The multipart side of the tasks that `handle_cmti` posts: `cleanup_cache`, then
-- `handle_multipart` with the message, and what the callback gets.
abbrev pub deliver : List Arrival → MultipartCache → MultipartCache × List IncomingSms
deliver [] cache = (cache, [])
deliver ((now, later, sms) ∷ arrivals) cache =
    let (cache', notified) = handle_multipart later sms (cleanup_cache now cache) in
    let (cache'', others) = deliver arrivals cache' in
    (cache'', elim notified [ none ↦ others | some combined ↦ combined ∷ others ])

-- The cleanups alone.
abbrev pub cleaned : List Arrival → MultipartCache → MultipartCache
cleaned [] cache = cache
cleaned ((now, later, sms) ∷ arrivals) cache = cleaned arrivals (cleanup_cache now cache)

-- Two minutes in nanoseconds.
abbrev pub two_minutes : ℕ
two_minutes = 120 * 10 ^ 9

-- The entries received first at most two minutes ago.
abbrev pub recent : ℕ → MultipartCache → MultipartCache
recent now [] = []
recent now ((key, entry) ∷ cache) =
    let others = recent now cache in
    if leb now (entry.first_received + two_minutes) then (key, entry) ∷ others else others

-- The entries that are recent whenever a part arrives.
abbrev pub recent_at_each : List Arrival → MultipartCache → MultipartCache
recent_at_each [] cache = cache
recent_at_each ((now, later, sms) ∷ arrivals) cache = recent_at_each arrivals (recent now cache)

pub cleanup_cache-recent :
    (now : ℕ) (cache : MultipartCache) → cleanup_cache now cache ≡ recent now cache
unfolding cleanup_cache is_timed_out
cleanup_cache-recent now [] = refl
cleanup_cache-recent now ((key, entry) ∷ cache) = ground (arith, cleanup_cache-recent now cache)

pub cleaned-recent :
    (arrivals : List Arrival) (cache : MultipartCache)
    → cleaned arrivals cache ≡ recent_at_each arrivals cache
cleaned-recent [] cache = refl
cleaned-recent ((now, later, sms) ∷ arrivals) cache =
    cleaned-recent arrivals (cleanup_cache now cache)
    ∙ ap (recent_at_each arrivals) (cleanup_cache-recent now cache)

-- What makes a message a part of a certain multipart message.
abbrev pub IsPartOf : Bytes → ℕ → ℕ → IncomingSms → Type 0
IsPartOf number concat_ref total sms =
    (sms.decoded.number ≡ number)
    × (sms.decoded.concat_ref ≡ concat_ref)
    × (sms.decoded.concat_total ≡ total)

abbrev pub numbered_text : Arrival → ℕ × Bytes
numbered_text (now, later, sms) = (sms.decoded.concat_seq, sms.decoded.text)

pub entry_of-assign :
    (key : Bytes) (entry : MultipartCacheEntry) (cache : MultipartCache)
    → entry_of key (assign compare_bytes key entry cache) ≡ entry
unfolding entry_of
entry_of-assign key entry cache =
    rw (lookup-assign compare_bytes key entry cache (compare_bytes_self key), entry_of) refl

-- An entry that a message has begun: its parts are not empty, it waits for so many, and it was
-- received first at this time.
pub record IsOpen (total first : ℕ) (entry : MultipartCacheEntry) : Type 0 where
  pub some_parts : entry.parts ≢ []
  pub waits : entry.total_parts ≡ total
  pub received : entry.first_received ≡ first

-- An entry that the part at `later` begins or goes on with.
abbrev pub IsReady : ℕ → ℕ → ℕ → MultipartCacheEntry → Type 0
IsReady total first later entry = ((entry.parts ≡ []) × (later ≡ first)) ⊎ IsOpen total first entry

pub with_part-parts :
    (later : ℕ) (sms : IncomingSms) (entry : MultipartCacheEntry)
    → (with_part later sms entry).parts
      ≡ assign compare sms.decoded.concat_seq sms.decoded.text entry.parts
unfolding with_part started
with_part-parts later sms entry = ground arith

pub with_part-IsOpen :
    (later : ℕ) (sms : IncomingSms) (entry : MultipartCacheEntry) (total first : ℕ)
    → IsReady total first later entry
    → sms.decoded.concat_total ≡ total
    → IsOpen total first (with_part later sms entry)
unfolding with_part started
with_part-IsOpen later sms entry total first ready e = record {
  some_parts = λ none_there.
      assign_not_empty compare sms.decoded.concat_seq sms.decoded.text entry.parts
        (sym (with_part-parts later sms entry) ∙ none_there);
  waits = elim ready [
    | inl (empty, now) ↦ ground (arith, empty, e)
    | inr begun ↦ ground (arith, begun.some_parts, begun.waits)
  ];
  received = elim ready [
    | inl (empty, now) ↦ ground (arith, empty, now)
    | inr begun ↦ ground (arith, begun.some_parts, begun.received)
  ];
}

pub not_timed_out :
    (now total first : ℕ) (entry : MultipartCacheEntry)
    → IsOpen total first entry
    → now ≤ first + two_minutes
    → is_timed_out now entry ≡ false
unfolding is_timed_out
not_timed_out now total first entry begun soon = ground (arith, begun.received, soon)
