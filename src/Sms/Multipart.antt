-- ===== src/Sms/Multipart.antt =====
-- The multipart cache of `SmsService` (src/sms_relay/sms/sms_service.cpp): what `handle_multipart`
-- and `cleanup_cache` do to it.
pub mod Numbers
pub mod Placing
pub mod Arrivals
pub mod AnyOrder
use sms_relay.Base.{
  ℕ, Bool, true, false, Option, none, some, List, [], ◌∷◌, ◌++◌, Bytes, if◌then◌else◌,
}
use Prim.Native.Nat.{compare}
use sms_relay.Base.OrderedMap.{compare_bytes, assign, lookup, erase}
use sms_relay.Sms.Message.{
  IncomingSms, blank_sms, MultipartCacheEntry, blank_entry, is_complete, is_timed_out, combine,
  get_cache_key,
}

abbrev pub MultipartCache : Type 0
MultipartCache = List (Bytes × MultipartCacheEntry)

-- `multipart_cache_[cache_key]`
unfoldable pub entry_of : Bytes → MultipartCache → MultipartCacheEntry
unfolding lookup compare_bytes
entry_of cache_key cache = elim (lookup compare_bytes cache_key cache) [
  | none ↦ blank_entry
  | some entry ↦ entry
]

-- An entry with no parts takes its data from the message.
unfoldable pub started : ℕ → IncomingSms → MultipartCacheEntry → MultipartCacheEntry
started now sms entry = elim entry.parts [
  | [] ↦ record entry {
    sender = sms.decoded.number;
    total_parts = sms.decoded.concat_total;
    first_received = now;
    timestamp = sms.decoded.timestamp;
  }
  | part ∷ parts ↦ entry
]

unfoldable pub with_part : ℕ → IncomingSms → MultipartCacheEntry → MultipartCacheEntry
unfolding started assign
with_part now sms entry =
    let entry' = started now sms entry in
    record entry' { parts = assign compare sms.decoded.concat_seq sms.decoded.text entry'.parts }

unfoldable pub combined_sms : IncomingSms → MultipartCacheEntry → IncomingSms
unfolding combine
combined_sms sms entry = record blank_sms {
  index = sms.index;
  storage = sms.storage;
  decoded = record sms.decoded { text = combine entry };
  success = true;
  is_complete = true;
}

-- The cache, and the message for the callback if this part completes it.
unfoldable pub handle_multipart :
    ℕ → IncomingSms → MultipartCache → MultipartCache × Option IncomingSms
unfolding entry_of with_part is_complete combined_sms erase assign compare_bytes get_cache_key
handle_multipart now sms cache =
    let cache_key : Bytes = get_cache_key sms.decoded.number sms.decoded.concat_ref in
    let entry = with_part now sms (entry_of cache_key cache) in
    let cache' : MultipartCache = assign compare_bytes cache_key entry cache in
    if is_complete entry
    then (erase compare_bytes cache_key cache', some (combined_sms sms entry))
    else (cache', none)

unfoldable pub cleanup_cache : ℕ → MultipartCache → MultipartCache
unfolding is_timed_out
cleanup_cache now [] = []
cleanup_cache now ((key, entry) ∷ cache) =
    if is_timed_out now entry
    then cleanup_cache now cache
    else (key, entry) ∷ cleanup_cache now cache
