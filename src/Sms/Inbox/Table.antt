-- ===== src/Sms/Inbox/Table.antt =====
-- The message cache as a table from indices to messages.
use sms_relay.Base.{
  ℕ, ◌≡◌, ◌≢◌, refl, ap, ◌∙◌, Option, none, some, List, [], ◌∷◌, All, ◌==◌, if◌then◌else◌, arith,
  Bool-cases, inl, inr,
}
use mathlib.Core.Path.{subst}
use sms_relay.Sms.Message.{IncomingSms}
use sms_relay.Sms.Inbox.{add_to_cache, remove_from_cache}

-- The first message with an index.
abbrev pub message_at : List IncomingSms → ℕ → Option IncomingSms
message_at [] index = none
message_at (sms ∷ cache) index = if sms.index == index then some sms else message_at cache index

pub data Change : Type 0 where
  add : IncomingSms → Change
  remove : ℕ → Change

-- What the service does with the cache, and what it means for the table.
abbrev pub run : List Change → List IncomingSms → List IncomingSms
run [] cache = cache
run (add sms ∷ changes) cache = run changes (add_to_cache sms cache)
run (remove index ∷ changes) cache = run changes (remove_from_cache index cache)

abbrev pub written : Change → (ℕ → Option IncomingSms) → ℕ → Option IncomingSms
written (add sms) table index = if sms.index == index then some sms else table index
written (remove gone) table index = if gone == index then none else table index

abbrev pub write_all : List Change → (ℕ → Option IncomingSms) → ℕ → Option IncomingSms
write_all [] table index = table index
write_all (change ∷ changes) table index = write_all changes (written change table) index

message_at-add :
    (sms : IncomingSms) (cache : List IncomingSms) (index : ℕ)
    → message_at (add_to_cache sms cache) index ≡ written (add sms) (message_at cache) index
unfolding add_to_cache
message_at-add sms [] index = refl
message_at-add sms (cached ∷ cache) index = ground (arith, message_at-add sms cache index)

pub message_at-remove :
    (gone : ℕ) (cache : List IncomingSms) (index : ℕ)
    → message_at (remove_from_cache gone cache) index
      ≡ written (remove gone) (message_at cache) index
unfolding remove_from_cache
message_at-remove gone [] index = ground arith
message_at-remove gone (sms ∷ cache) index = ground (arith, message_at-remove gone cache index)

same_writes :
    (changes : List Change) (table table' : ℕ → Option IncomingSms) (index : ℕ)
    → ((i : ℕ) → table i ≡ table' i)
    → write_all changes table index ≡ write_all changes table' index
same_writes [] table table' index h = h index
same_writes (add sms ∷ changes) table table' index h =
    same_writes changes _ _ index (λ i. ap (λ o. if sms.index == i then some sms else o) (h i))
same_writes (remove gone ∷ changes) table table' index h =
    same_writes changes _ _ index (λ i. ap (λ o. if gone == i then none else o) (h i))

-- After any sequence of additions and removals, and whatever was in the cache before, the message
-- that the cache holds for an index is the one of a table in which an addition writes the message at
-- its index and a removal clears the index.
pub message_at-run :
    (changes : List Change) (cache : List IncomingSms) (index : ℕ)
    → message_at (run changes cache) index ≡ write_all changes (message_at cache) index
message_at-run [] cache index = refl
message_at-run (add sms ∷ changes) cache index =
    message_at-run changes (add_to_cache sms cache) index
    ∙ same_writes changes _ _ index (message_at-add sms cache)
message_at-run (remove gone ∷ changes) cache index =
    message_at-run changes (remove_from_cache gone cache) index
    ∙ same_writes changes _ _ index (message_at-remove gone cache)

-- No two messages of the cache have the same index.
abbrev pub IsUnique : List IncomingSms → Type 0
IsUnique [] = Unit
IsUnique (sms ∷ cache) = All (λ other. other.index ≢ sms.index) cache × IsUnique cache

add-All :
    (index : ℕ) (sms : IncomingSms) (cache : List IncomingSms)
    → sms.index ≢ index
    → All (λ other. other.index ≢ index) cache
    → All (λ other. other.index ≢ index) (add_to_cache sms cache)
unfolding add_to_cache
add-All index sms [] ne h = (ne, tt)
add-All index sms (cached ∷ cache) ne (h, hs) = elim (Bool-cases (cached.index == sms.index)) [
  | inl e ↦ rw (e) (ne, hs)
  | inr e ↦ rw (e) (h, add-All index sms cache ne hs)
]

add-IsUnique :
    (sms : IncomingSms) (cache : List IncomingSms)
    → IsUnique cache
    → IsUnique (add_to_cache sms cache)
unfolding add_to_cache
add-IsUnique sms [] h = (tt, tt)
add-IsUnique sms (cached ∷ cache) (h, hs) = elim (Bool-cases (cached.index == sms.index)) [
  | inl e ↦ rw (e) (subst (λ i. All (λ other. other.index ≢ i) cache) (ground (arith, e)) h, hs)
  | inr e ↦ rw (e) (add-All cached.index sms cache (ground (arith, e)) h, add-IsUnique sms cache hs)
]

remove-All :
    (index gone : ℕ) (cache : List IncomingSms)
    → All (λ other. other.index ≢ index) cache
    → All (λ other. other.index ≢ index) (remove_from_cache gone cache)
unfolding remove_from_cache
remove-All index gone [] h = tt
remove-All index gone (sms ∷ cache) (h, hs) = elim (Bool-cases (sms.index == gone)) [
  | inl e ↦ rw (e) (remove-All index gone cache hs)
  | inr e ↦ rw (e) (h, remove-All index gone cache hs)
]

remove-IsUnique :
    (gone : ℕ) (cache : List IncomingSms) → IsUnique cache → IsUnique (remove_from_cache gone cache)
unfolding remove_from_cache
remove-IsUnique gone [] h = tt
remove-IsUnique gone (sms ∷ cache) (h, hs) = elim (Bool-cases (sms.index == gone)) [
  | inl e ↦ rw (e) (remove-IsUnique gone cache hs)
  | inr e ↦ rw (e) (remove-All sms.index gone cache h, remove-IsUnique gone cache hs)
]

-- A cache in which no two messages have the same index keeps this property under any sequence of
-- additions and removals.
pub run-IsUnique :
    (changes : List Change) (cache : List IncomingSms)
    → IsUnique cache
    → IsUnique (run changes cache)
run-IsUnique [] cache h = h
run-IsUnique (add sms ∷ changes) cache h =
    run-IsUnique changes (add_to_cache sms cache) (add-IsUnique sms cache h)
run-IsUnique (remove gone ∷ changes) cache h =
    run-IsUnique changes (remove_from_cache gone cache) (remove-IsUnique gone cache h)
