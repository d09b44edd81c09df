-- ===== src/Sms/Message.antt =====
-- Messages and the cache entry of a multipart message (src/sms_relay/sms/sms_service.h). Times are
-- in nanoseconds of the steady clock, which never goes back.
pub mod Keys
use sms_relay.Base.{
  ℕ, zero, suc, ◌-◌, ◌*◌, ◌^◌, Bool, true, false, ◌&&◌, List, [], ◌∷◌, ◌++◌, Bytes, length, ltb,
  leb, ◌==◌, if◌then◌else◌,
}
use sms_relay.Base.Text.{codes, to_string}
use sms_relay.Pdu.Decode.{PduMessage, empty_message}

pub record IncomingSms : Type 0 where
  pub index : ℕ
  pub storage : Bytes
  pub decoded : PduMessage
  pub pdu_hex : Bytes
  pub success : Bool
  pub is_complete : Bool
  pub status : ℕ
  pub original_indices : List ℕ

-- `IncomingSms sms;`, before `index` and `storage` are set.
abbrev pub blank_sms : IncomingSms
blank_sms = record {
  index = 0;
  storage = [];
  decoded = empty_message;
  pdu_hex = [];
  success = false;
  is_complete = true;
  status = 1;
  original_indices = [];
}

pub record MultipartCacheEntry : Type 0 where
  pub sender : Bytes
  pub parts : List (ℕ × Bytes)
  pub part_indices : List (ℕ × ℕ)
  pub total_parts : ℕ
  pub first_received : ℕ
  pub timestamp : Bytes
  pub first_index : ℕ

-- What `operator[]` makes of a key that is not there.
abbrev pub blank_entry : MultipartCacheEntry
blank_entry = record {
  sender = [];
  parts = [];
  part_indices = [];
  total_parts = 0;
  first_received = 0;
  timestamp = [];
  first_index = 0;
}

unfoldable pub is_complete : MultipartCacheEntry → Bool
is_complete entry = length entry.parts == entry.total_parts && ltb 0 entry.total_parts

-- More than two minutes.
unfoldable pub is_timed_out : ℕ → MultipartCacheEntry → Bool
is_timed_out now entry = ltb (120 * 10 ^ 9) (now - entry.first_received)

unfoldable pub combine_parts : List (ℕ × Bytes) → Bytes
combine_parts [] = []
combine_parts ((seq, text) ∷ parts) = text ++ combine_parts parts

unfoldable pub combine : MultipartCacheEntry → Bytes
unfolding combine_parts
combine entry = combine_parts entry.parts

-- `std::sort`
unfoldable pub insert_sorted : ℕ → List ℕ → List ℕ
insert_sorted n [] = n ∷ []
insert_sorted n (m ∷ ms) = if leb n m then n ∷ m ∷ ms else m ∷ insert_sorted n ms

unfoldable pub sorted_indices : List (ℕ × ℕ) → List ℕ
unfolding insert_sorted
sorted_indices [] = []
sorted_indices ((seq, idx) ∷ indices) = insert_sorted idx (sorted_indices indices)

unfoldable pub get_all_indices : MultipartCacheEntry → List ℕ
unfolding sorted_indices
get_all_indices entry = sorted_indices entry.part_indices

-- "sender_ref"
unfoldable pub get_cache_key : Bytes → ℕ → Bytes
get_cache_key sender concat_ref = sender ++ (codes "_" ++ to_string concat_ref)

-- `sms.decoded.has_udh && sms.decoded.concat_total > 1`
unfoldable pub is_multipart : IncomingSms → Bool
is_multipart sms = sms.decoded.has_udh && ltb 1 sms.decoded.concat_total
