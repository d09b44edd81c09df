-- ===== src/Sms/Inbox/Gather.antt =====
-- `combine_multipart_messages` on a listing with the parts of one message and single messages.
use sms_relay.Base.{
  ℕ, ◌≤◌, ◌≡◌, refl, sym, ap, ap₂, ◌∙◌, ◌⊎◌, inl, inr, true, false, List, [], ◌∷◌, ◌++◌, map, Bytes,
  All, length, if◌then◌else◌, arith, Bool-cases,
}
use Prim.Native.Nat.{compare}
use mathlib.Core.List.{Permᴰ}
use mathlib.Core.List.Permᴰ.{symm}
use sms_relay.Base.Text.{joined}
use sms_relay.Base.OrderedMap.{compare_bytes, assign, assign_all, assign-assign, lookup}
use sms_relay.Base.OrderedMap.Numbered.{numbered, perm-length, assign_all-perm, assign_all-numbered}
use sms_relay.Sms.Message.{
  IncomingSms, MultipartCacheEntry, blank_entry, combine, combine_parts, get_cache_key,
  is_multipart,
}
use sms_relay.Sms.Multipart.{MultipartCache, entry_of}
use sms_relay.Sms.Multipart.Numbers.{
  text_at, numbered-AreOf, combine_parts-numbered, length-numbered,
}
use sms_relay.Sms.Multipart.Placing.{compare_bytes_self}
use sms_relay.Sms.Multipart.Arrivals.{IsPartOf, entry_of-assign}
use sms_relay.Sms.Multipart.AnyOrder.{complete_now}
use sms_relay.Sms.Inbox.{
  opened, collected, gathered, separate, combined_of, finish, combine_multipart_messages,
}

abbrev pub singles : List IncomingSms → List IncomingSms
singles [] = []
singles (sms ∷ raw) = if is_multipart sms then singles raw else sms ∷ singles raw

abbrev pub multiparts : List IncomingSms → List IncomingSms
multiparts [] = []
multiparts (sms ∷ raw) = if is_multipart sms then sms ∷ multiparts raw else multiparts raw

abbrev pub seq_text : IncomingSms → ℕ × Bytes
seq_text sms = (sms.decoded.concat_seq, sms.decoded.text)

separate-multipart :
    (now : ℕ) (sms : IncomingSms) (raw : List IncomingSms) (m : MultipartCache)
    → is_multipart sms ≡ true
    → separate now (sms ∷ raw) m ≡ separate now raw (gathered now sms m)
unfolding separate
separate-multipart now sms raw m e = rw (e, separate) refl

separate-single :
    (now : ℕ) (sms : IncomingSms) (raw : List IncomingSms) (m : MultipartCache)
    → is_multipart sms ≡ false
    → separate now (sms ∷ raw) m ≡ ((separate now raw m).0, sms ∷ (separate now raw m).1)
unfolding separate
separate-single now sms raw m e = rw (e, separate) refl

separate-filtered :
    (now : ℕ) (raw : List IncomingSms) (m : MultipartCache)
    → separate now raw m ≡ ((separate now (multiparts raw) m).0, singles raw)
separate-filtered now [] m = unfold separate in refl
separate-filtered now (sms ∷ raw) m = elim (Bool-cases (is_multipart sms)) [
  | inl e ↦ rw (e) (
      separate-multipart now sms raw m e
      ∙ separate-filtered now raw (gathered now sms m)
      ∙ ap (λ r. (r.0, singles raw)) (sym (separate-multipart now sms (multiparts raw) m e)))
  | inr e ↦
      rw (e)
        (separate-single now sms raw m e ∙ ap (λ r. (r.0, sms ∷ r.1)) (separate-filtered now raw m))
]

collect_all : ℕ → List IncomingSms → MultipartCacheEntry → MultipartCacheEntry
collect_all now [] entry = entry
collect_all now (sms ∷ parts) entry = collect_all now parts (collected now sms entry)

-- An entry that is blank, or that belongs to the message.
abbrev Fits : Bytes → ℕ → MultipartCacheEntry → Type 0
Fits number total entry =
    (entry.parts ≡ []) ⊎ ((entry.total_parts ≡ total) × (entry.sender ≡ number))

collected-entry :
    (now : ℕ) (sms : IncomingSms) (entry : MultipartCacheEntry) (number : Bytes)
    (concat_ref total : ℕ)
    → Fits number total entry
    → IsPartOf number concat_ref total sms
    → ((collected now sms entry).parts
        ≡ assign compare sms.decoded.concat_seq sms.decoded.text entry.parts)
      × ((collected now sms entry).total_parts ≡ total)
      × ((collected now sms entry).sender ≡ number)
unfolding collected opened
collected-entry now sms entry number concat_ref total h (e, e', e'') = ground (arith, h, e, e', e'')

collect_all-entry :
    (now : ℕ) (parts : List IncomingSms) (entry : MultipartCacheEntry) (number : Bytes)
    (concat_ref total : ℕ)
    → entry.total_parts ≡ total
    → entry.sender ≡ number
    → All (IsPartOf number concat_ref total) parts
    → ((collect_all now parts entry).parts ≡ assign_all compare (map seq_text parts) entry.parts)
      × ((collect_all now parts entry).total_parts ≡ total)
      × ((collect_all now parts entry).sender ≡ number)
unfolding collect_all assign_all
collect_all-entry now [] entry number concat_ref total e e' h = (refl, e, e')
collect_all-entry now (sms ∷ parts) entry number concat_ref total e e' (h, hs) =
    let (same, waits, from) =
      collected-entry now sms entry number concat_ref total (inr (e, e')) h in
    let (all, waits', from') =
      collect_all-entry now parts (collected now sms entry) number concat_ref total waits from hs in
    (all ∙ ap (assign_all compare (map seq_text parts)) same, waits', from')

module _ (number : Bytes) (concat_ref : ℕ) where
  abbrev key : Bytes
  key = get_cache_key number concat_ref

  assign-own :
      (entry entry' : MultipartCacheEntry)
      → assign compare_bytes key entry' ((key, entry) ∷ []) ≡ (key, entry') ∷ []
  unfolding assign
  assign-own entry entry' = assign-assign compare_bytes key entry entry' [] (compare_bytes_self key)

  own_entry : (entry : MultipartCacheEntry) → entry_of key ((key, entry) ∷ []) ≡ entry
  unfolding assign
  own_entry entry = entry_of-assign key entry []

  gathered-own :
      (now : ℕ) (sms : IncomingSms) (m : MultipartCache) (entry : MultipartCacheEntry) (total : ℕ)
      → IsPartOf number concat_ref total sms
      → entry_of key m ≡ entry
      → ((entry' : MultipartCacheEntry) → assign compare_bytes key entry' m ≡ (key, entry') ∷ [])
      → gathered now sms m ≡ (key, collected now sms entry) ∷ []
  unfolding gathered
  gathered-own now sms m entry total (e, e', e'') at alone =
      ap (λ k. assign compare_bytes k (collected now sms (entry_of k m)) m) (ap₂ get_cache_key e e')
      ∙ ap (λ entry'. assign compare_bytes key (collected now sms entry') m) at
      ∙ alone (collected now sms entry)

  separate-parts :
      (now total : ℕ) (parts : List IncomingSms) (entry : MultipartCacheEntry)
      → All (IsPartOf number concat_ref total) parts
      → All (λ sms. is_multipart sms ≡ true) parts
      → separate now parts ((key, entry) ∷ []) ≡ ((key, collect_all now parts entry) ∷ [], [])
  unfolding collect_all
  separate-parts now total [] entry h m = unfold separate in refl
  separate-parts now total (sms ∷ parts) entry (h, hs) (m, ms) =
      separate-multipart now sms parts ((key, entry) ∷ []) m
      ∙ ap (separate now parts) (
          gathered-own now sms ((key, entry) ∷ []) entry total h (own_entry entry)
            (assign-own entry))
      ∙ separate-parts now total parts (collected now sms entry) hs ms

  -- The whole `multipart_map`.
  separate_whole :
      (now total : ℕ) (sms : IncomingSms) (parts : List IncomingSms)
      → All (IsPartOf number concat_ref total) (sms ∷ parts)
      → All (λ sms. is_multipart sms ≡ true) (sms ∷ parts)
      → separate now (sms ∷ parts) []
        ≡ ((key, collect_all now parts (collected now sms blank_entry)) ∷ [], [])
  separate_whole now total sms parts (h, hs) (m, ms) =
      separate-multipart now sms parts [] m
      ∙ ap (separate now parts) (
          gathered-own now sms [] blank_entry total h (unfold entry_of lookup in refl)
            (λ entry'. unfold assign in refl))
      ∙ separate-parts now total parts (collected now sms blank_entry) hs ms

multiparts-is_multipart :
    (raw : List IncomingSms) → All (λ sms. is_multipart sms ≡ true) (multiparts raw)
multiparts-is_multipart [] = tt
multiparts-is_multipart (sms ∷ raw) = elim (Bool-cases (is_multipart sms)) [
  | inl e ↦ rw (e) (e, multiparts-is_multipart raw)
  | inr e ↦ rw (e) (multiparts-is_multipart raw)
]

-- If all multipart messages of a listing are the parts of one message of at least two parts,
-- numbered from 1 to their total, each of them once, in any order and with any single messages
-- between them, then the listing becomes its single messages, in their order, and behind them one
-- message with the sender's number, and with the texts of the parts in the order of their numbers.
pub combine_multipart_messages-any_order :
    (number : Bytes) (concat_ref now : ℕ) (texts : List Bytes) (raw : List IncomingSms)
    → 2 ≤ length texts
    → All (IsPartOf number concat_ref (length texts)) (multiparts raw)
    → Permᴰ (map seq_text (multiparts raw)) (numbered 1 texts)
    → (sms : IncomingSms) × (combine_multipart_messages now raw ≡ singles raw ++ sms ∷ [])
      × (sms.decoded.text ≡ joined texts)
      × (sms.decoded.number ≡ number)
unfolding combine_multipart_messages combined_of combine assign_all
combine_multipart_messages-any_order number concat_ref now texts raw two all perm =
    let (entry, separated, parts, waits, from) =
      gather (multiparts raw) all (multiparts-is_multipart raw) perm in
    (
      combined_of raw entry,
      ap (λ r. r.1 ++ finish raw r.0) (separate-filtered now raw [])
          ∙ ap (λ r. singles raw ++ finish raw r.0) separated
          ∙ ap (◌++◌ (singles raw)) (finished entry parts waits),
      ap combine_parts parts ∙ combine_parts-numbered 1 texts,
      from,
    )
  where
    gather :
        (ps : List IncomingSms)
        → All (IsPartOf number concat_ref (length texts)) ps
        → All (λ sms. is_multipart sms ≡ true) ps
        → Permᴰ (map seq_text ps) (numbered 1 texts)
        → (entry : MultipartCacheEntry) × (separate now ps []
            ≡ ((get_cache_key number concat_ref, entry) ∷ [], []))
          × (entry.parts ≡ numbered 1 texts)
          × (entry.total_parts ≡ length texts)
          × (entry.sender ≡ number)
    gather [] h m perm' = absurd (omega (arith, perm-length perm', length-numbered 1 texts))
    gather (sms ∷ ps) (h, hs) m perm' =
        let (same, waits, from) =
          collected-entry now sms blank_entry number concat_ref (length texts) (inl refl) h in
        let (all', waits', from') =
          collect_all-entry now ps (collected now sms blank_entry) number concat_ref (length texts)
            waits from hs in
        (
          collect_all now ps (collected now sms blank_entry),
          separate_whole number concat_ref now (length texts) sms ps (h, hs) m,
          all'
              ∙ ap (assign_all compare (map seq_text ps)) same
              ∙ sym (assign_all-perm (text_at texts) [] (symm perm') (numbered-AreOf 1 texts))
              ∙ assign_all-numbered 1 texts,
          waits',
          from',
        )

    finished :
        (entry : MultipartCacheEntry)
        → entry.parts ≡ numbered 1 texts
        → entry.total_parts ≡ length texts
        → finish raw ((get_cache_key number concat_ref, entry) ∷ []) ≡ combined_of raw entry ∷ []
    finished entry parts waits =
        unfold finish in
        rw
          (complete_now number concat_ref (length texts) entry (omega (arith, two)) waits
            (ap length parts ∙ length-numbered 1 texts))
          refl
