-- ===== src/Transport/UrcDispatcher.antt =====
-- The table of notification handlers of src/sms_relay/transport/urc_dispatcher.h. `H` is what a
-- handler is to the caller; `none` in the table is an empty `std::function`. The list is the
-- `unordered_map` in the order in which it is walked.
pub mod Routing
use sms_relay.Base.{
  ℕ, ◌+◌, Bool, true, false, Option, none, some, List, [], ◌∷◌, Bytes, length, drop, ltb,
  if◌then◌else◌,
}
use sms_relay.Base.Text.{bytes_eq, starts_with, find_byte}

module _ (H : Type 0) where
  abbrev pub Handlers : Type 0
  Handlers = List (Bytes × Option H)

  -- A handler called with a prefix and the arguments.
  abbrev pub Call : Type 0
  Call = H × Bytes × Bytes

module _ {H : Type 0} where
  unfoldable pub register_handler : Bytes → Option H → Handlers H → Handlers H
  unfolding bytes_eq
  register_handler prefix handler [] = (prefix, handler) ∷ []
  register_handler prefix handler ((p, h) ∷ rest) =
      if bytes_eq p prefix
      then (prefix, handler) ∷ rest
      else (p, h) ∷ register_handler prefix handler rest

  unfoldable pub unregister_handler : Bytes → Handlers H → Handlers H
  unfolding bytes_eq
  unregister_handler prefix [] = []
  unregister_handler prefix ((p, h) ∷ rest) =
      if bytes_eq p prefix then rest else (p, h) ∷ unregister_handler prefix rest

-- What follows the first colon and one more byte, or nothing if no byte follows those.
unfoldable pub arguments : Bytes → Bytes
unfolding find_byte
arguments line = elim (find_byte b':' line) [
  | none ↦ []
  | some colon ↦ if ltb (colon + 2) (length line) then drop (colon + 2) line else []
]

module _ {H : Type 0} where
  -- The call that a matched handler gets, if there is one to call.
  abbrev pub call : Bytes → Option H → Bytes → Option (Call H)
  call prefix none line = none
  call prefix (some h) line = some (h, prefix, arguments line)

  unfoldable pub dispatch_in : Handlers H → Bytes → Option (Option (Call H))
  unfolding starts_with arguments
  dispatch_in [] line = none
  dispatch_in ((prefix, handler) ∷ rest) line =
      if starts_with line prefix then some (call prefix handler line) else dispatch_in rest line

  -- `none` is the result `false`; `some c` is `true` with the call `c` made on the way.
  unfoldable pub dispatch : Handlers H → Bytes → Option (Option (Call H))
  unfolding dispatch_in
  dispatch handlers [] = none
  dispatch handlers (c ∷ cs) = dispatch_in handlers (c ∷ cs)

  unfoldable pub matches : Handlers H → Bytes → Bool
  unfolding starts_with
  matches [] line = false
  matches ((prefix, handler) ∷ rest) line =
      if starts_with line prefix then true else matches rest line

  unfoldable pub is_urc : Handlers H → Bytes → Bool
  unfolding matches
  is_urc handlers [] = false
  is_urc handlers (c ∷ cs) = matches handlers (c ∷ cs)

  unfoldable pub registered_urcs : Handlers H → List Bytes
  registered_urcs [] = []
  registered_urcs ((prefix, handler) ∷ rest) = prefix ∷ registered_urcs rest
