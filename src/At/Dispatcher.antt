-- ===== src/At/Dispatcher.antt =====
-- Response or notification: src/sms_relay/at/dispatcher.cpp.
pub mod Routes
use sms_relay.Base.{
  ℕ, ◌+◌, Bool, true, false, not, ◌||◌, Option, none, some, List, [], ◌∷◌, Bytes, take, drop, ◌==◌,
  if◌then◌else◌,
}
use sms_relay.Base.Text.{codes, starts_with, find_byte, find, find_first_of}
use sms_relay.Transport.UrcDispatcher
use sms_relay.Transport.UrcDispatcher.{Handlers, Call}
use sms_relay.At.ResponseBuilder.{State, ResponseBuilder, add_line}

abbrev is_some : Option ℕ → Bool
is_some none = false
is_some (some k) = true

-- Where the prefix starts: at the plus sign, or behind the first `AT`.
unfoldable pub prefix_start : Bytes → Option ℕ
prefix_start cmd = elim (find_byte b'+' cmd) [
  | some plus ↦ some plus
  | none ↦ elim (find (codes "AT") cmd) [ some at ↦ some (at + 2) | none ↦ none ]
]

-- The prefix from its start up to the first of the bytes `= ?*`.
unfoldable pub prefix_of : Bytes → Bytes
prefix_of tail = elim (find_first_of (codes "= ?*") tail) [ none ↦ tail | some end ↦ take end tail ]

unfoldable pub extract_command_prefix : Bytes → Bytes
unfolding prefix_start prefix_of
extract_command_prefix cmd = elim (prefix_start cmd) [
  | none ↦ []
  | some start ↦ prefix_of (drop start cmd)
]

-- `find('?') != npos || find("=?") != npos`
unfoldable pub is_query : Bytes → Bool
is_query cmd = is_some (find_byte b'?' cmd) || is_some (find (codes "=?") cmd)

abbrev is_idle : State → Bool
is_idle State.idle = true
is_idle _ = false

unfoldable pub could_be_response_to_current : ResponseBuilder → Bytes → Bool
could_be_response_to_current b [] = false
could_be_response_to_current b (c ∷ cs) =
    if is_idle b.state
    then false
    else if is_query b.current_command
    then starts_with (c ∷ cs) (extract_command_prefix b.current_command)
    else if c == b'+'
    then starts_with (c ∷ cs) (extract_command_prefix b.current_command)
    else true

abbrev pub takes_all : State → Bool
takes_all State.waiting_prompt = true
takes_all State.waiting_final = true
takes_all _ = false

-- What a line does: the builder, the notification handler called if any, and the result.
pub record Dispatched (H : Type 0) : Type 0 where
  pub builder : ResponseBuilder
  pub called : Option (Call H)
  pub result : Bool

abbrev pub notified : {H : Type 0} → ResponseBuilder → Option (Option (Call H)) → Dispatched H
notified b none = record { builder = b; called = none; result = false }
notified b (some c) = record { builder = b; called = c; result = true }

unfoldable pub dispatch : {H : Type 0} → Handlers H → ResponseBuilder → Bytes → Dispatched H
dispatch handlers b [] = record { builder = b; called = none; result = false }
dispatch handlers b (c ∷ cs) =
    if takes_all b.state || could_be_response_to_current b (c ∷ cs)
    then record { builder = (add_line b (c ∷ cs)).0; called = none; result = true }
    else notified b (UrcDispatcher.dispatch handlers (c ∷ cs))

unfoldable pub looks_like_urc : {H : Type 0} → Handlers H → ResponseBuilder → Bytes → Bool
looks_like_urc handlers b [] = false
looks_like_urc handlers b (c ∷ cs) =
    if not (c == b'+')
    then false
    else if UrcDispatcher.is_urc handlers (c ∷ cs)
    then true
    else not (could_be_response_to_current b (c ∷ cs))
