-- ===== src/Sms/Inbox.antt =====
-- The message cache of `SmsService`, and how a listing becomes its messages
-- (src/sms_relay/sms/sms_service.cpp).
pub mod Table
pub mod Gather
use sms_relay.Base.{
  ℕ, Bool, true, false, not, Option, none, some, List, [], ◌∷◌, ◌++◌, Bytes, ◌==◌, if◌then◌else◌,
}
use Prim.Native.Nat.{compare}
use sms_relay.Base.Text.{codes, bytes_eq}
use sms_relay.Base.OrderedMap.{compare_bytes, assign}
use sms_relay.Pdu.Decode.{PduMessage, empty_message}
use sms_relay.Sms.Message.{
  IncomingSms, blank_sms, MultipartCacheEntry, is_complete, combine, get_all_indices, get_cache_key,
  is_multipart,
}
use sms_relay.Sms.Multipart.{MultipartCache, entry_of}

-- `add_to_cache`: the first message with this index is replaced.
unfoldable pub add_to_cache : IncomingSms → List IncomingSms → List IncomingSms
add_to_cache sms [] = sms ∷ []
add_to_cache sms (cached ∷ cache) =
    if cached.index == sms.index then sms ∷ cache else cached ∷ add_to_cache sms cache

unfoldable pub remove_from_cache : ℕ → List IncomingSms → List IncomingSms
remove_from_cache index [] = []
remove_from_cache index (sms ∷ cache) =
    if sms.index == index
    then remove_from_cache index cache
    else sms ∷ remove_from_cache index cache

-- An entry of `multipart_map` with no parts takes its data from the message.
unfoldable pub opened : ℕ → IncomingSms → MultipartCacheEntry → MultipartCacheEntry
opened now sms entry = elim entry.parts [
  | [] ↦ record entry {
    sender = sms.decoded.number;
    total_parts = sms.decoded.concat_total;
    timestamp = sms.decoded.timestamp;
    first_index = sms.index;
    first_received = now;
  }
  | part ∷ parts ↦ entry
]

unfoldable pub collected : ℕ → IncomingSms → MultipartCacheEntry → MultipartCacheEntry
unfolding opened assign
collected now sms entry =
    let entry' = opened now sms entry in
    record entry' {
      parts = assign compare sms.decoded.concat_seq sms.decoded.text entry'.parts;
      part_indices = assign compare sms.decoded.concat_seq sms.index entry'.part_indices;
    }

-- A multipart message enters `multipart_map`.
unfoldable pub gathered : ℕ → IncomingSms → MultipartCache → MultipartCache
unfolding get_cache_key entry_of collected assign compare_bytes
gathered now sms multipart_map =
    let cache_key : Bytes = get_cache_key sms.decoded.number sms.decoded.concat_ref in
    assign compare_bytes cache_key (collected now sms (entry_of cache_key multipart_map))
      multipart_map

-- The first loop: `multipart_map` and the single messages.
unfoldable pub separate : ℕ → List IncomingSms → MultipartCache → MultipartCache × List IncomingSms
unfolding is_multipart gathered
separate now [] multipart_map = (multipart_map, [])
separate now (sms ∷ raw) multipart_map = elim (is_multipart sms) [
  | true ↦ separate now raw (gathered now sms multipart_map)
  | false ↦
      let (multipart_map', singles) = separate now raw multipart_map in
      (multipart_map', sms ∷ singles)
]

-- The status of the first message with an index.
unfoldable pub status_at : ℕ → List IncomingSms → ℕ
status_at index [] = 1
status_at index (sms ∷ raw) = if sms.index == index then sms.status else status_at index raw

unfoldable pub combined_of : List IncomingSms → MultipartCacheEntry → IncomingSms
unfolding combine get_all_indices status_at
combined_of raw entry = record blank_sms {
  index = entry.first_index;
  storage = codes "ME";
  decoded = record empty_message {
    number = entry.sender;
    text = combine entry;
    timestamp = entry.timestamp;
    has_udh = false;
    concat_total = 1;
  };
  success = true;
  is_complete = true;
  original_indices = get_all_indices entry;
  status = status_at entry.first_index raw;
}

-- The messages of a key, single ones with the same sender and reference included.
unfoldable pub with_key : Bytes → List IncomingSms → List IncomingSms
unfolding get_cache_key bytes_eq
with_key key [] = []
with_key key (sms ∷ raw) =
    if bytes_eq (get_cache_key sms.decoded.number sms.decoded.concat_ref) key
    then sms ∷ with_key key raw
    else with_key key raw

-- The second loop, over `multipart_map` in the order of its keys.
unfoldable pub finish : List IncomingSms → MultipartCache → List IncomingSms
unfolding is_complete combined_of with_key
finish raw [] = []
finish raw ((key, entry) ∷ multipart_map) =
    if is_complete entry
    then combined_of raw entry ∷ finish raw multipart_map
    else with_key key raw ++ finish raw multipart_map

unfoldable pub combine_multipart_messages : ℕ → List IncomingSms → List IncomingSms
unfolding separate finish
combine_multipart_messages now raw =
    let (multipart_map, singles) = separate now raw [] in singles ++ finish raw multipart_map
