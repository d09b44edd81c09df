-- ===== src/At/Dispatcher/Routes.antt =====
-- How the dispatcher tells a response from a notification.
use sms_relay.Base.{
  ℕ, Bool, true, false, ◌≡◌, ◌≢◌, ◌⊎◌, refl, ap, ◌∙◌, none, some, List, [], ◌∷◌, ◌++◌, Bytes, All,
  length, take-append_length, if◌then◌else◌, arith,
}
use sms_relay.Base.Text.{codes, starts_with, find_byte, mem_byte, find_first_of}
use sms_relay.Transport.UrcDispatcher
use sms_relay.Transport.UrcDispatcher.{Handlers, Call}
use sms_relay.At.ResponseBuilder.{State, ResponseBuilder, add_line}
use sms_relay.At.Dispatcher.{
  prefix_of, extract_command_prefix, is_query, could_be_response_to_current, dispatch, takes_all,
  notified, is_some,
}

-- The name of an extended command: no byte that ends a prefix.
abbrev pub IsName : Bytes → Type 0
IsName = All (λ c. mem_byte c (codes "= ?*") ≡ false)

find_first_of-name :
    (stops name : Bytes) (sep : ℕ) (rest : Bytes)
    → All (λ c. mem_byte c stops ≡ false) name
    → mem_byte sep stops ≡ true
    → find_first_of stops (name ++ sep ∷ rest) ≡ some (length name)
unfolding find_first_of
find_first_of-name stops [] sep rest h s = rw s
find_first_of-name stops (x ∷ name) sep rest h s =
    ground (arith, h.0, find_first_of-name stops name sep rest h.1 s)

-- The command `AT+name`, a separator, and whatever follows: its prefix is `+name`.
pub extract_command_prefix-extended :
    (name : Bytes) (sep : ℕ) (rest : Bytes)
    → IsName name
    → mem_byte sep (codes "= ?*") ≡ true
    → extract_command_prefix (codes "AT+" ++ (name ++ sep ∷ rest)) ≡ b'+' ∷ name
unfolding extract_command_prefix find_byte
extract_command_prefix-extended name sep rest h s = prefix_of_name (b'+' ∷ name) (plus_is_name, h)
  where
    plus_is_name : mem_byte b'+' (codes "= ?*") ≡ false
    plus_is_name = unfold mem_byte in refl

    prefix_of_name : (n : Bytes) → IsName n → prefix_of (n ++ sep ∷ rest) ≡ n
    prefix_of_name n hn = ground (
      arith,
      find_first_of-name (codes "= ?*") n sep rest hn s,
      take-append_length n (sep ∷ rest),
    )

-- The state and the command decide what counts as a response; collected lines do not.
pub could_be_same :
    (b b' : ResponseBuilder) (line : Bytes)
    → b'.current_command ≡ b.current_command
    → b.state ≡ State.waiting_response
    → (b'.state ≡ State.waiting_response) ⊎ (b'.state ≡ State.complete)
    → could_be_response_to_current b' line ≡ could_be_response_to_current b line
unfolding could_be_response_to_current
could_be_same b b' [] c s t = refl
could_be_same b b' (x ∷ line) c s t = ground (arith, c, s, t)

-- What a line can make of a builder that waits for a response or has one.
abbrev pub Settles : ResponseBuilder → ResponseBuilder → Type 0
Settles b b' =
    (b'.current_command ≡ b.current_command)
    × ((b'.state ≡ State.waiting_response) ⊎ (b'.state ≡ State.complete))

unfoldable pub responses : ResponseBuilder → List Bytes → List Bytes
responses b [] = []
responses b (line ∷ lines) =
    if could_be_response_to_current b line then line ∷ responses b lines else responses b lines

module _ {H : Type 0} (handlers : Handlers H) where
  -- Lines dispatched one after another.
  abbrev pub dispatch_lines : ResponseBuilder → List Bytes → ResponseBuilder
  dispatch_lines b [] = b
  dispatch_lines b (line ∷ lines) = dispatch_lines (dispatch handlers b line).builder lines

  -- In a response that has begun, a line goes to the builder exactly when it counts as a response.
  dispatch-builder :
      (b : ResponseBuilder) (line : Bytes)
      → takes_all b.state ≡ false
      → (dispatch handlers b line).builder
        ≡ (if could_be_response_to_current b line then (add_line b line).0 else b)
  unfolding dispatch could_be_response_to_current
  dispatch-builder b [] t = refl
  dispatch-builder b (c ∷ cs) t = ground (arith, t)

-- `AT+name` with a separator and anything behind it.
abbrev pub extended : Bytes → ℕ → Bytes → Bytes
extended name sep rest = codes "AT+" ++ (name ++ sep ∷ rest)

find_byte-some : (c : ℕ) (s rest : Bytes) → is_some (find_byte c (s ++ c ∷ rest)) ≡ true
unfolding find_byte
find_byte-some c [] rest = ground arith
find_byte-some c (x ∷ s) rest = ground (arith, find_byte-some c s rest)

question_stops : mem_byte b'?' (codes "= ?*") ≡ true
unfolding mem_byte
question_stops = refl

query_is_query : (name rest : Bytes) → is_query (extended name b'?' rest) ≡ true
unfolding is_query
query_is_query name rest = ground (arith, find_byte-some b'?' (codes "AT+" ++ name) rest)

module _ {H : Type 0} (handlers : Handlers H) where
  -- While the response to `AT+name`, a separator and more is awaited, a line that begins with a
  -- plus sign is taken as a response exactly when it begins with `+name`, and is handed to the
  -- notification table otherwise, with the builder unchanged.
  pub dispatch_plus :
      (b : ResponseBuilder) (name : Bytes) (sep : ℕ) (rest cs : Bytes)
      → b.state ≡ State.waiting_response
      → b.current_command ≡ extended name sep rest
      → IsName name
      → mem_byte sep (codes "= ?*") ≡ true
      → dispatch handlers b (b'+' ∷ cs) ≡ (
          if starts_with (b'+' ∷ cs) (b'+' ∷ name)
          then record { builder = (add_line b (b'+' ∷ cs)).0; called = none; result = true }
          else notified b (UrcDispatcher.dispatch handlers (b'+' ∷ cs)))
  unfolding dispatch could_be_response_to_current
  dispatch_plus b name sep rest cs s c n m =
      ground (arith, s, c, extract_command_prefix-extended name sep rest n m)

  not_a_response :
      (b : ResponseBuilder) (name rest : Bytes) (c : ℕ) (cs : Bytes)
      → b.state ≡ State.waiting_response
      → b.current_command ≡ extended name b'?' rest
      → IsName name
      → c ≢ b'+'
      → could_be_response_to_current b (c ∷ cs) ≡ false
  unfolding could_be_response_to_current starts_with
  not_a_response b name rest c cs s e n ne = ground (
    arith,
    s,
    e,
    ne,
    extract_command_prefix-extended name b'?' rest n question_stops,
    query_is_query name rest,
  )

  -- A query `AT+name?` never sees its final result: while it is in progress, no line that does
  -- not begin with a plus sign, `OK` and `ERROR` included, changes the builder.
  pub query_final_lost :
      (b : ResponseBuilder) (name rest : Bytes) (c : ℕ) (cs : Bytes)
      → b.state ≡ State.waiting_response
      → b.current_command ≡ extended name b'?' rest
      → IsName name
      → c ≢ b'+'
      → (dispatch handlers b (c ∷ cs)).builder ≡ b
  query_final_lost b name rest c cs s e n ne =
      dispatch-builder handlers b (c ∷ cs) (rw s)
      ∙ ap (λ (r : Bool). if r then (add_line b (c ∷ cs)).0 else b)
          (not_a_response b name rest c cs s e n ne)
