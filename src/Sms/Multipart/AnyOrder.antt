-- ===== src/Sms/Multipart/AnyOrder.antt =====
-- The parts of one message through `handle_multipart`, in any order of arrival.
use sms_relay.Base.{
  ℕ, suc, ◌+◌, ◌≤◌, ◌<◌, ◌≡◌, refl, sym, ap, ◌∙◌, inl, inr, true, false, none, some, List, [], ◌∷◌,
  map, Bytes, All, length, if◌then◌else◌, arith,
}
use Prim.Native.Nat.{compare}
use mathlib.Core.List.{Permᴰ}
use mathlib.Core.List.Permᴰ.{symm}
use sms_relay.Base.Text.{joined}
use sms_relay.Base.OrderedMap.{compare_bytes, assign, assign_all, lookup, erase, length-assign}
use sms_relay.Base.OrderedMap.Numbered.{numbered, perm-length, assign_all-perm, assign_all-numbered}
use sms_relay.Sms.Message.{
  IncomingSms, MultipartCacheEntry, blank_entry, is_complete, combine_parts, combine, get_cache_key,
}
use sms_relay.Sms.Multipart.{
  MultipartCache, entry_of, with_part, combined_sms, handle_multipart, cleanup_cache,
}
use sms_relay.Sms.Multipart.Placing.{
  IsPlaced, assign-IsPlaced, again-IsPlaced, entry_of-IsPlaced, erase-IsPlaced,
  cleanup_cache-IsPlaced,
}
use sms_relay.Sms.Multipart.Numbers.{
  combine_parts-numbered, length-map, length-numbered, text_at, numbered-AreOf,
}
use sms_relay.Sms.Multipart.Arrivals.{
  Arrival, deliver, cleaned, two_minutes, recent, recent_at_each, cleanup_cache-recent,
  cleaned-recent, IsPartOf, numbered_text, IsReady, with_part-parts, with_part-IsOpen,
  not_timed_out,
}

-- A cache in which an assignment under the key puts an entry at its place among these others.
abbrev IsAbove : Bytes → MultipartCache → MultipartCache → Type 0
IsAbove key others cache =
    (entry : MultipartCacheEntry) → IsPlaced key entry others (assign compare_bytes key entry cache)

module _ (number : Bytes) (concat_ref : ℕ) where
  abbrev key : Bytes
  key = get_cache_key number concat_ref

  handle_multipart-part :
      (later : ℕ) (sms : IncomingSms) (cache : MultipartCache) (total : ℕ)
      → IsPartOf number concat_ref total sms
      → (let entry = with_part later sms (entry_of key cache) in
          handle_multipart later sms cache ≡ (
            if is_complete entry
            then (
              erase compare_bytes key (assign compare_bytes key entry cache),
              some (combined_sms sms entry),
            )
            else (assign compare_bytes key entry cache, none)))
  unfolding handle_multipart
  handle_multipart-part later sms cache total (e, e', e'') = rw (e, e', handle_multipart) refl

  pub complete_now :
      (total : ℕ) (entry : MultipartCacheEntry)
      → 1 ≤ total
      → entry.total_parts ≡ total
      → length entry.parts ≡ total
      → is_complete entry ≡ true
  unfolding is_complete
  complete_now total entry h e e' = ground (arith, h, e, e')

  not_yet :
      (total : ℕ) (entry : MultipartCacheEntry)
      → entry.total_parts ≡ total
      → length entry.parts < total
      → is_complete entry ≡ false
  unfolding is_complete
  not_yet total entry e h = ground (arith, h, e)

  handled_last :
      (now later : ℕ) (sms : IncomingSms) (others cache : MultipartCache)
      (entry : MultipartCacheEntry) (total : ℕ)
      → entry_of key (cleanup_cache now cache) ≡ entry
      → IsAbove key others (cleanup_cache now cache)
      → IsPartOf number concat_ref total sms
      → is_complete (with_part later sms entry) ≡ true
      → deliver ((now, later, sms) ∷ []) cache
        ≡ (others, combined_sms sms (with_part later sms entry) ∷ [])
  handled_last now later sms others cache entry total at above p full =
      let whole : handle_multipart later sms (cleanup_cache now cache)
          ≡ (others, some (combined_sms sms (with_part later sms entry))) =
        handle_multipart-part later sms (cleanup_cache now cache) total p
        ∙ rw (at, full)
            (ap (λ c. (c, some (combined_sms sms (with_part later sms entry))))
              (erase-IsPlaced (above (with_part later sms entry)))) in
      ap (λ r. (r.0, elim r.1 [ none ↦ [] | some combined ↦ combined ∷ [] ])) whole

  handled_early :
      (now later : ℕ) (sms : IncomingSms) (rest : List Arrival) (cache : MultipartCache)
      (entry : MultipartCacheEntry) (total : ℕ)
      → entry_of key (cleanup_cache now cache) ≡ entry
      → IsPartOf number concat_ref total sms
      → is_complete (with_part later sms entry) ≡ false
      → deliver ((now, later, sms) ∷ rest) cache
        ≡ deliver rest
            (assign compare_bytes key (with_part later sms entry) (cleanup_cache now cache))
  handled_early now later sms rest cache entry total at p early =
      let kept : handle_multipart later sms (cleanup_cache now cache)
          ≡ (assign compare_bytes key (with_part later sms entry) (cleanup_cache now cache), none) =
        handle_multipart-part later sms (cleanup_cache now cache) total p ∙ rw (at, early) refl in
      ap
        (λ r. (
          (deliver rest r.0).0,
          elim r.1 [
            | none ↦ (deliver rest r.0).1
            | some combined ↦ combined ∷ (deliver rest r.0).1
          ],
        ))
        kept

  abbrev Collected : MultipartCache → MultipartCache → List Arrival → List (ℕ × Bytes) → Type 0
  Collected final cache arrivals parts =
      (sms : IncomingSms) × (deliver arrivals cache ≡ (final, sms ∷ []))
      × (sms.decoded.text ≡ combine_parts (assign_all compare (map numbered_text arrivals) parts))
      × (sms.decoded.number ≡ number)

  collect :
      (total first now later : ℕ) (sms : IncomingSms) (rest : List Arrival)
      (others cache : MultipartCache) (entry : MultipartCacheEntry)
      → entry_of key (cleanup_cache now cache) ≡ entry
      → IsAbove key others (cleanup_cache now cache)
      → IsReady total first later entry
      → IsPartOf number concat_ref total sms
      → All (λ a. IsPartOf number concat_ref total a.2) rest
      → All (λ a. a.0 ≤ first + two_minutes) rest
      → length entry.parts + suc (length rest) ≤ total
      → length (assign_all compare (map numbered_text ((now, later, sms) ∷ rest)) entry.parts)
        ≡ total
      → Collected (cleaned rest others) cache ((now, later, sms) ∷ rest) entry.parts
  unfolding assign_all combined_sms combine
  collect total first now later sms [] others cache entry at above ready p ps soon few all =
      let entry' = with_part later sms entry in
      let parts = with_part-parts later sms entry in
      let begun = with_part-IsOpen later sms entry total first ready p.2 in
      let full = complete_now total entry' (omega arith) begun.waits (ap length parts ∙ all) in
      (
        combined_sms sms entry',
        handled_last now later sms others cache entry total at above p full,
        ap combine_parts parts,
        p.0,
      )
  collect total first now later sms ((now', later', sms') ∷ rest) others cache entry at above ready
        p (p', ps) (soon, others_soon) few all =
      let entry' = with_part later sms entry in
      let parts = with_part-parts later sms entry in
      let begun = with_part-IsOpen later sms entry total first ready p.2 in
      let grown = length-assign compare sms.decoded.concat_seq sms.decoded.text entry.parts in
      let size : length entry'.parts ≤ suc (length entry.parts) =
        omega (arith, ap length parts, grown) in
      let early = not_yet total entry' begun.waits (omega (arith, size)) in
      let cache' = assign compare_bytes key entry' (cleanup_cache now cache) in
      let placed : IsPlaced key entry' (cleanup_cache now' others) (cleanup_cache now' cache') =
        cleanup_cache-IsPlaced now' (not_timed_out now' total first entry' begun soon)
          (above entry') in
      let (out, delivered, text, same) =
        collect total first now' later' sms' rest (cleanup_cache now' others) cache' entry'
          (entry_of-IsPlaced placed) (λ e. again-IsPlaced e placed) (inr begun) p' ps others_soon
          (omega (arith, size))
          (ap
              (λ ps.
                length (assign_all compare (map numbered_text ((now', later', sms') ∷ rest)) ps))
              parts
            ∙ all) in
      (
        out,
        handled_early now later sms ((now', later', sms') ∷ rest) cache entry total at p early
            ∙ delivered,
        text
            ∙ ap
                (λ ps.
                  combine_parts
                    (assign_all compare (map numbered_text ((now', later', sms') ∷ rest)) ps))
                parts,
        same,
      )

-- If the parts of a message of at least two parts, numbered from 1 to their total, arrive once each
-- and in any order, with no other message between them, each within two minutes of the first (from
-- when the first is at hand to when the task of the other begins), while the cache has no entry
-- under their key that is at most two minutes old when the first arrives, then the callback gets
-- exactly one message: it has the sender's number and the texts of the parts in the order of their
-- numbers. The cache is afterwards the one before without the entries that were more than two
-- minutes old when a part arrived.
pub deliver-any_order :
    (number : Bytes) (concat_ref : ℕ) (texts : List Bytes) (now later : ℕ) (first : IncomingSms)
    (rest : List Arrival) (cache : MultipartCache)
    → 2 ≤ length texts
    → All (λ a. IsPartOf number concat_ref (length texts) a.2) ((now, later, first) ∷ rest)
    → Permᴰ (map numbered_text ((now, later, first) ∷ rest)) (numbered 1 texts)
    → All (λ a. a.0 ≤ later + two_minutes) rest
    → lookup compare_bytes (get_cache_key number concat_ref) (recent now cache) ≡ none
    → (sms : IncomingSms) × (deliver ((now, later, first) ∷ rest) cache
        ≡ (recent_at_each ((now, later, first) ∷ rest) cache, sms ∷ []))
      × (sms.decoded.text ≡ joined texts)
      × (sms.decoded.number ≡ number)
unfolding entry_of
deliver-any_order number concat_ref texts now later first rest cache two (p, ps) perm soon
      none_yet =
    let key' = get_cache_key number concat_ref in
    let absent : lookup compare_bytes key' (cleanup_cache now cache) ≡ none =
      ap (lookup compare_bytes key') (cleanup_cache-recent now cache) ∙ none_yet in
    let final : assign_all compare (map numbered_text ((now, later, first) ∷ rest)) []
        ≡ numbered 1 texts =
      sym (assign_all-perm (text_at texts) [] (symm perm) (numbered-AreOf 1 texts))
      ∙ assign_all-numbered 1 texts in
    let (out, delivered, text, same) =
      collect number concat_ref (length texts) later now later first rest (cleanup_cache now cache)
        cache blank_entry (rw (absent, entry_of) refl)
        (λ entry. assign-IsPlaced key' entry (cleanup_cache now cache) absent) (inl (refl, refl)) p
        ps soon
        (omega (arith, perm-length perm, length-numbered 1 texts, length-map numbered_text rest))
        (ap length final ∙ length-numbered 1 texts) in
    (
      out,
      delivered ∙ ap (λ c. (c, out ∷ [])) (cleaned-recent ((now, later, first) ∷ rest) cache),
      text ∙ ap combine_parts final ∙ combine_parts-numbered 1 texts,
      same,
    )
