-- ===== src/Sms/Multipart/Placing.antt =====
-- An entry of the multipart cache among the others, and what `handle_multipart` and `cleanup_cache`
-- do around it.
use sms_relay.Base.{
  ℕ, ◌≡◌, refl, ap, false, none, some, [], ◌∷◌, Bytes, arith, Bool-cases, inl, inr,
}
use Prim.Native.Nat.{Ordering}
use sms_relay.Base.OrderedMap.{compare_bytes, assign, lookup, erase}
use sms_relay.Sms.Message.{MultipartCacheEntry, is_timed_out}
use sms_relay.Sms.Multipart.{MultipartCache, entry_of, cleanup_cache}

pub compare_bytes_self : (a : Bytes) → compare_bytes a a ≡ Ordering.eq
unfolding compare_bytes
compare_bytes_self [] = refl
compare_bytes_self (x ∷ a) = ground (arith, compare_bytes_self a)

-- A cache that has one entry more than another, under a key and at its place.
pub data IsPlaced (key : Bytes) (entry : MultipartCacheEntry)
    : MultipartCache → MultipartCache → Type 0 where
  here : {others : MultipartCache} → IsPlaced key entry others ((key, entry) ∷ others)
  later :
      {key' : Bytes} {entry' : MultipartCacheEntry} {others cache : MultipartCache}
      → compare_bytes key key' ≡ Ordering.gt
      → IsPlaced key entry others cache
      → IsPlaced key entry ((key', entry') ∷ others) ((key', entry') ∷ cache)

pub assign-IsPlaced :
    (key : Bytes) (entry : MultipartCacheEntry) (cache : MultipartCache)
    → lookup compare_bytes key cache ≡ none
    → IsPlaced key entry cache (assign compare_bytes key entry cache)
unfolding assign lookup
assign-IsPlaced key entry [] h = here
assign-IsPlaced key entry ((key', entry') ∷ cache) h =
    go (compare_bytes key key') refl (assign-IsPlaced key entry cache)
  where
    go :
        (o : Ordering)
        → compare_bytes key key' ≡ o
        → (lookup compare_bytes key cache ≡ none
            → IsPlaced key entry cache (assign compare_bytes key entry cache))
        → IsPlaced key entry
            ((key', entry') ∷ cache)
            (assign compare_bytes key entry ((key', entry') ∷ cache))
    go Ordering.lt e placed = rw (e, assign) here
    go Ordering.eq e placed = absurd (ground (arith, h, e))
    go Ordering.gt e placed = rw (e, assign) (later e (placed (ground (arith, h, e))))

lookup-IsPlaced :
    {key : Bytes} {entry : MultipartCacheEntry} {others cache : MultipartCache}
    → IsPlaced key entry others cache
    → lookup compare_bytes key cache ≡ some entry
unfolding lookup
lookup-IsPlaced {key} here = rw (compare_bytes_self key, lookup) refl
lookup-IsPlaced (later e p) = rw (e, lookup) (lookup-IsPlaced p)

pub entry_of-IsPlaced :
    {key : Bytes} {entry : MultipartCacheEntry} {others cache : MultipartCache}
    → IsPlaced key entry others cache
    → entry_of key cache ≡ entry
unfolding entry_of
entry_of-IsPlaced p = rw (lookup-IsPlaced p, entry_of) refl

-- An assignment puts another entry at the place.
pub again-IsPlaced :
    {key : Bytes} {entry : MultipartCacheEntry} {others cache : MultipartCache}
    (entry' : MultipartCacheEntry)
    → IsPlaced key entry others cache
    → IsPlaced key entry' others (assign compare_bytes key entry' cache)
unfolding assign
again-IsPlaced {key} entry' here = rw (compare_bytes_self key, assign) here
again-IsPlaced entry' (later e p) = rw (e, assign) (later e (again-IsPlaced entry' p))

pub erase-IsPlaced :
    {key : Bytes} {entry : MultipartCacheEntry} {others cache : MultipartCache}
    → IsPlaced key entry others cache
    → erase compare_bytes key cache ≡ others
unfolding erase
erase-IsPlaced {key} here = rw (compare_bytes_self key, erase) refl
erase-IsPlaced (later {key'} {entry'} e p) =
    rw (e, erase) (ap (◌∷◌ (key', entry')) (erase-IsPlaced p))

-- A cleanup leaves an entry that has not timed out at its place among those that it leaves.
pub cleanup_cache-IsPlaced :
    {key : Bytes} {entry : MultipartCacheEntry} {others cache : MultipartCache} (now : ℕ)
    → is_timed_out now entry ≡ false
    → IsPlaced key entry others cache
    → IsPlaced key entry (cleanup_cache now others) (cleanup_cache now cache)
unfolding cleanup_cache
cleanup_cache-IsPlaced now fresh here = rw (fresh, cleanup_cache) here
cleanup_cache-IsPlaced now fresh (later {key'} {entry'} e p) =
    elim (Bool-cases (is_timed_out now entry')) [
      | inl old ↦ rw (old, cleanup_cache) (cleanup_cache-IsPlaced now fresh p)
      | inr young ↦ rw (young, cleanup_cache) (later e (cleanup_cache-IsPlaced now fresh p))
    ]
