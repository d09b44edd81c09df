-- ===== src/At/ResponseBuilder/Phases.antt =====
-- What a response builder reports after the lines of a whole exchange.
use sms_relay.Base.{
  Bool, true, false, ◌||◌, ◌≡◌, ◌≢◌, ◌⊎◌, refl, ap, ◌∙◌, sym, none, some, inl, inr, List, [], ◌∷◌,
  ◌++◌, append_assoc, append-nil, Bytes, All, back?, back?-concat, init-concat, Option-cases, arith,
}
use sms_relay.Base.Text.{codes, bytes_eq, starts_with}
use sms_relay.At.ResponseBuilder.{
  State, ResponseBuilder, AtResponse, start_command, add_line, completed, get_response,
  is_complete_line,
}

-- The lines of a response added one after another.
abbrev pub add_lines : ResponseBuilder → List Bytes → ResponseBuilder
add_lines b [] = b
add_lines b (line ∷ lines) = add_lines (add_line b line).0 lines

-- A line of data: not empty, and no marker of the end.
abbrev pub IsData : Bytes → Type 0
IsData line = (line ≢ []) × (is_complete_line line ≡ false)

-- A state in which lines of a response are collected.
abbrev pub Collects : State → Type 0
Collects s = (s ≡ State.waiting_response) ⊎ (s ≡ State.waiting_final)

or_false : (a b : Bool) → (a || b) ≡ false → (a ≡ false) × (b ≡ false)
or_false a b h = ground arith

pub no_marker :
    (line : Bytes)
    → is_complete_line line ≡ false
    → (bytes_eq line (codes "OK") ≡ false) × (starts_with line (codes "ERROR") ≡ false)
unfolding is_complete_line
no_marker line h = or_false _ _ h

pub add_line-IsData :
    (b : ResponseBuilder) (line : Bytes)
    → Collects b.state
    → IsData line
    → (add_line b line).0 ≡ record b { response_lines = b.response_lines ++ line ∷ [] }
unfolding add_line
add_line-IsData b [] c (ne, unfinished) = absurd (ne refl)
add_line-IsData b (x ∷ xs) c (ne, unfinished) = ground (arith, no_marker (x ∷ xs) unfinished)

add_lines-IsData :
    (b : ResponseBuilder) (lines : List Bytes)
    → Collects b.state
    → All IsData lines
    → add_lines b lines ≡ record b { response_lines = b.response_lines ++ lines }
add_lines-IsData b [] c h =
    ap (λ l. record b { response_lines = l }) (sym (append-nil b.response_lines))
add_lines-IsData b (line ∷ lines) c (d, h) =
    ap (λ q. add_lines q lines) (add_line-IsData b line c d)
    ∙ add_lines-IsData (record b { response_lines = b.response_lines ++ line ∷ [] }) lines c h
    ∙ ap (λ l. record b { response_lines = l }) (append_assoc b.response_lines (line ∷ []) lines)

abbrev pub success_with : List Bytes → AtResponse
success_with lines = record { success = true; status = codes "OK"; error_code = []; lines = lines }

abbrev pub failure_with : Bytes → List Bytes → AtResponse
failure_with line lines = record {
  success = false;
  status = codes "ERROR";
  error_code = line;
  lines = lines;
}

last-IsData :
    (lines : List Bytes) (last : Bytes)
    → back? lines ≡ some last
    → All IsData lines
    → is_complete_line last ≡ false
last-IsData [] last e h = absurd (cc e)
last-IsData (l ∷ []) last e h = let same : l ≡ last = cc e in rw same at (h.0.1)
last-IsData (l ∷ m ∷ lines) last e h = last-IsData (m ∷ lines) last e h.1

pub completed-IsData :
    (lines : List Bytes) → All IsData lines → completed lines ≡ success_with lines
unfolding completed
completed-IsData [] h = refl
completed-IsData (l ∷ lines) h = elim (Option-cases (back? (l ∷ lines))) [
  | inl e ↦ absurd (back?-ne-none l lines e)
  | inr (last, e) ↦ ground (arith, e, no_marker last (last-IsData (l ∷ lines) last e h))
]
  where
    back?-ne-none : (x : Bytes) (xs : List Bytes) → back? (x ∷ xs) ≢ none
    back?-ne-none x [] = cc
    back?-ne-none x (y ∷ ys) = back?-ne-none y ys

add_lines-append :
    (b : ResponseBuilder) (xs ys : List Bytes)
    → add_lines b (xs ++ ys) ≡ add_lines (add_lines b xs) ys
add_lines-append b [] ys = refl
add_lines-append b (x ∷ xs) ys = add_lines-append (add_line b x).0 xs ys

-- A builder that has collected lines of data and then reads `OK`.
finish_ok :
    (b : ResponseBuilder) (lines : List Bytes)
    → Collects b.state
    → b.response_lines ≡ []
    → All IsData lines
    → get_response (add_lines b (lines ++ codes "OK" ∷ [])) ≡ success_with lines
unfolding get_response add_line bytes_eq
finish_ok b lines c e h =
    rw (add_lines-append b lines (codes "OK" ∷ []), add_lines-IsData b lines c h, e)
      (ground (arith, completed-IsData lines h))

-- A command other than AT+CMGS, answered by lines of data and `OK`: the response is a success
-- with exactly those lines.
pub get_response-ok :
    (b : ResponseBuilder) (cmd : Bytes) (lines : List Bytes)
    → starts_with cmd (codes "AT+CMGS") ≡ false
    → All IsData lines
    → get_response (add_lines (start_command cmd b) (lines ++ codes "OK" ∷ [])) ≡ success_with lines
unfolding start_command
get_response-ok b cmd lines n h = finish_ok (start_command cmd b) lines (ground (arith, n)) refl h

error_not_ok :
    (line : Bytes) → starts_with line (codes "ERROR") ≡ true → bytes_eq line (codes "OK") ≡ false
unfolding starts_with bytes_eq
error_not_ok [] h = refl
error_not_ok (x ∷ xs) h = ground arith

finish_error :
    (b : ResponseBuilder) (line : Bytes)
    → Collects b.state
    → starts_with line (codes "ERROR") ≡ true
    → get_response (add_line b line).0 ≡ failure_with line b.response_lines
unfolding get_response add_line completed
finish_error b line c e = ground (
  arith,
  error_not_ok line e,
  back?-concat b.response_lines line,
  init-concat b.response_lines line,
)

-- The same command answered by lines of data and a line that starts with `ERROR`: the response
-- is a failure with that line as its error code, and the data before it.
pub get_response-error :
    (b : ResponseBuilder) (cmd : Bytes) (lines : List Bytes) (line : Bytes)
    → starts_with cmd (codes "AT+CMGS") ≡ false
    → All IsData lines
    → starts_with line (codes "ERROR") ≡ true
    → get_response (add_lines (start_command cmd b) (lines ++ line ∷ [])) ≡ failure_with line lines
unfolding start_command
get_response-error b cmd lines line n h e =
    ap get_response (add_lines-append started lines (line ∷ []))
    ∙ ap (λ q. get_response (add_line q line).0)
        (add_lines-IsData started lines (ground (arith, n)) h)
    ∙ finish_error (record started { response_lines = lines }) line (ground (arith, n)) e
  where
    started : ResponseBuilder
    started = start_command cmd b

-- While the prompt of AT+CMGS is awaited, every other line is lost: the builder does not change,
-- even on `ERROR`.
pub add_lines_before_prompt :
    (b : ResponseBuilder) (lines : List Bytes)
    → b.state ≡ State.waiting_prompt
    → All (λ line. bytes_eq line (codes ">") ≡ false) lines
    → add_lines b lines ≡ b
unfolding add_line
add_lines_before_prompt b [] s h = refl
add_lines_before_prompt b (line ∷ lines) s h =
    ap (λ q. add_lines q lines) unchanged ∙ add_lines_before_prompt b lines s h.1
  where
    unchanged : (add_line b line).0 ≡ b
    unchanged = ground (arith, h.0, s)

-- A complete response no longer changes, whatever lines arrive.
pub add_lines_complete :
    (b : ResponseBuilder) (lines : List Bytes) → b.state ≡ State.complete → add_lines b lines ≡ b
unfolding add_line
add_lines_complete b [] s = refl
add_lines_complete b (line ∷ lines) s =
    ap (λ q. add_lines q lines) unchanged ∙ add_lines_complete b lines s
  where
    unchanged : (add_line b line).0 ≡ b
    unchanged = ground (arith, s)

-- AT+CMGS: lines before the prompt are lost; after it, lines of data and `OK` make a success with
-- exactly those lines.
pub get_response-cmgs :
    (b : ResponseBuilder) (cmd : Bytes) (noise lines : List Bytes)
    → starts_with cmd (codes "AT+CMGS") ≡ true
    → All (λ line. bytes_eq line (codes ">") ≡ false) noise
    → All IsData lines
    → get_response
        (add_lines (start_command cmd b) (noise ++ codes ">" ∷ (lines ++ codes "OK" ∷ [])))
      ≡ success_with lines
unfolding start_command add_line bytes_eq
get_response-cmgs b cmd noise lines c n h =
    ap get_response (add_lines-append started noise _)
    ∙ ap (λ q. get_response (add_lines q (codes ">" ∷ (lines ++ codes "OK" ∷ []))))
        (add_lines_before_prompt started noise (ground (arith, c)) n)
    ∙ ap (λ q. get_response (add_lines q (lines ++ codes "OK" ∷ []))) prompted
    ∙ finish_ok (record started { state = State.waiting_final }) lines (inr refl) refl h
  where
    started : ResponseBuilder
    started = start_command cmd b

    prompted : (add_line started (codes ">")).0 ≡ record started { state = State.waiting_final }
    prompted = ground (arith, c)
