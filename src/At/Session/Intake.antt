-- ===== src/At/Session/Intake.antt =====
-- From the bytes of the serial port to the events of the session: `on_transport_data_received`
-- and `on_line_parser_line` of src/sms_relay/at/at_session.cpp.
use sms_relay.Base.{
  ◌≡◌, refl, ap, ◌∙◌, Option, none, some, List, [], ◌∷◌, ◌++◌, append-nil, Bytes, sym, arith,
}
use sms_relay.Base.Text.{joined}
use sms_relay.Transport.LineParser.{LineParser, feed}
use sms_relay.Transport.LineParser.Lines.{feed-append}
use sms_relay.At.Session.Fifo.Steps.{Event, line}

-- `on_line_parser_line` posts one event for each line.
abbrev pub posted_lines : List Bytes → List Event
posted_lines [] = []
posted_lines (text ∷ lines) = line text ∷ posted_lines lines

-- `on_transport_data_received`: the events that a read posts.
unfoldable pub on_transport_data_received : Bytes → LineParser → Option (List Event × LineParser)
on_transport_data_received bytes p = elim (feed bytes p) [
  | none ↦ none
  | some (lines, p') ↦ some (posted_lines lines, p')
]

-- Reads one after another.
unfoldable pub receive : List Bytes → LineParser → Option (List Event × LineParser)
unfolding on_transport_data_received
receive [] p = some ([], p)
receive (bytes ∷ reads) p = elim (on_transport_data_received bytes p) [
  | none ↦ none
  | some (events, p') ↦ elim (receive reads p') [
    | none ↦ none
    | some (later, p'') ↦ some (events ++ later, p'')
  ]
]

posted_lines-append :
    (xs ys : List Bytes) → posted_lines (xs ++ ys) ≡ posted_lines xs ++ posted_lines ys
posted_lines-append [] ys = refl
posted_lines-append (x ∷ xs) ys = ap (◌∷◌ (line x)) (posted_lines-append xs ys)

read_one :
    (bytes : Bytes) (p : LineParser) {lines : List Bytes} {p' : LineParser}
    → feed bytes p ≡ some (lines, p')
    → on_transport_data_received bytes p ≡ some (posted_lines lines, p')
unfolding on_transport_data_received
read_one bytes p e = ground (arith, e)

read_more :
    (bytes : Bytes) (reads : List Bytes) (p : LineParser) {e : List Event} {p₁ : LineParser}
    {later : List Event} {p₂ : LineParser}
    → on_transport_data_received bytes p ≡ some (e, p₁)
    → receive reads p₁ ≡ some (later, p₂)
    → receive (bytes ∷ reads) p ≡ some (e ++ later, p₂)
unfolding receive
read_more bytes reads p x y = ground (arith, x, y)

pub read_none : (p : LineParser) → receive [] p ≡ some ([], p)
unfolding receive
read_none p = refl

pub receive-lines :
    (bytes : Bytes) (reads : List Bytes) (p : LineParser)
    → (lines : List Bytes) × (p' : LineParser) × (feed (joined (bytes ∷ reads)) p
        ≡ some (lines, p'))
      × (receive (bytes ∷ reads) p ≡ some (posted_lines lines, p'))
receive-lines bytes [] p =
    let (l₁, l₂, p₁, p₂, x₁, x₂, x₃) = feed-append bytes [] p in
    (
      l₁,
      p₁,
      ap (λ b. feed b p) (append-nil bytes) ∙ x₁,
      read_more bytes [] p (read_one bytes p x₁) (read_none p₁)
          ∙ ap (λ l. some (l, p₁)) (append-nil (posted_lines l₁)),
    )
receive-lines bytes (next ∷ reads) p =
    let (l₁, l₂, p₁, p₂, x₁, x₂, x₃) = feed-append bytes (joined (next ∷ reads)) p in
    let (later, p', y₁, y₂) = receive-lines next reads p₁ in
    (
      l₁ ++ later,
      p',
      x₃ ∙ cc (x₂, y₁),
      read_more bytes (next ∷ reads) p (read_one bytes p x₁) y₂
          ∙ ap (λ l. some (l, p')) (sym (posted_lines-append l₁ later)),
    )

-- Any number of reads, at least one, post the same events and leave the same parser as one read
-- of all their bytes; no read fails to return.
pub receive-joined :
    (bytes : Bytes) (reads : List Bytes) (p : LineParser)
    → (events : List Event) × (p' : LineParser) × (receive (bytes ∷ reads) p ≡ some (events, p'))
      × (receive (joined (bytes ∷ reads) ∷ []) p ≡ some (events, p'))
receive-joined bytes reads p =
    let (lines, p', x, y) = receive-lines bytes reads p in
    (
      posted_lines lines,
      p',
      y,
      read_more (joined (bytes ∷ reads)) [] p (read_one _ p x) (read_none p')
          ∙ ap (λ l. some (l, p')) (append-nil (posted_lines lines)),
    )
