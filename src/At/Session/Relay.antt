-- ===== src/At/Session/Relay.antt =====
-- From the port to the session: the reads of `SerialTransport`, whose lines travel through the data
-- callback to the line parser of `AtSession` (src/sms_relay/transport/serial_transport.cpp,
-- src/sms_relay/at/at_session.cpp).
use sms_relay.Base.{
  ◌≡◌, ◌≢◌, refl, sym, ap, ◌∙◌, true, false, Option, none, some, List, [], ◌∷◌, ◌++◌, append_assoc,
  append-nil, Bytes, All, if◌then◌else◌, arith,
}
use sms_relay.Base.Text.{joined}
use sms_relay.Transport.LineParser.{LineParser, crlf, feed}
use sms_relay.Transport.LineParser.Lines.{IsLine, wire, feed-append, feed-wire}
use sms_relay.Transport.Serial.{
  SerialTransport, do_read, forward_lines, parsed, transferred, handle_read,
}
use sms_relay.At.Session.Fifo.Steps.{Event}
use sms_relay.At.Session.Intake.{posted_lines, receive, read_none, receive-lines}

-- Reads that bring bytes, one after another.
unfoldable pub handle_reads : List Bytes → SerialTransport → Option SerialTransport
unfolding handle_read
handle_reads [] t = some t
handle_reads (bytes ∷ reads) t = elim (handle_read (transferred bytes) t) [
  | none ↦ none
  | some t' ↦ handle_reads reads t'
]

abbrev pub terminated : List Bytes → List Bytes
terminated [] = []
terminated (l ∷ lines) = (l ++ crlf) ∷ terminated lines

terminated-append : (xs ys : List Bytes) → terminated (xs ++ ys) ≡ terminated xs ++ terminated ys
terminated-append [] ys = refl
terminated-append (x ∷ xs) ys = ap (◌∷◌ (x ++ crlf)) (terminated-append xs ys)

joined-terminated : (lines : List Bytes) → joined (terminated lines) ≡ wire lines
joined-terminated [] = refl
joined-terminated (l ∷ lines) =
    append_assoc l crlf (joined (terminated lines))
    ∙ ap (λ rest. l ++ (crlf ++ rest)) (joined-terminated lines)

-- What reads leave: the lines in the log of the data callback, and the parser.
abbrev Forwarded : SerialTransport → SerialTransport → List Bytes → LineParser → Type 0
Forwarded t t' lines p =
    (t'.received ≡ t.received ++ terminated lines)
    × (t'.line_parser ≡ p)
    × (t'.data_callback ≡ true)

forward_lines-all :
    (lines : List Bytes) (t : SerialTransport)
    → t.data_callback ≡ true
    → Forwarded t (forward_lines lines t) lines t.line_parser
unfolding forward_lines
forward_lines-all [] t on = (sym (append-nil t.received), refl, on)
forward_lines-all (l ∷ lines) t on =
    let t₁ = record t { received = t.received ++ (l ++ crlf) ∷ [] } in
    let step = ap (λ b. forward_lines lines (if b then t₁ else t)) on in
    let (log, same, still) = forward_lines-all lines t₁ on in
    (
      ap (λ t'. t'.received) step
          ∙ log
          ∙ append_assoc t.received ((l ++ crlf) ∷ []) (terminated lines),
      ap (λ t'. t'.line_parser) step ∙ same,
      ap (λ t'. t'.data_callback) step ∙ still,
    )

do_read-Forwarded :
    (t t' : SerialTransport) (lines : List Bytes) (p : LineParser)
    → Forwarded t t' lines p
    → Forwarded t (do_read t') lines p
unfolding do_read
do_read-Forwarded t t' lines p (e, e', e'') = ground (arith, e, e', e'')

handle_read-lines :
    (bytes : Bytes) (t : SerialTransport) (lines : List Bytes) (p : LineParser)
    → bytes ≢ []
    → t.data_callback ≡ true
    → feed bytes t.line_parser ≡ some (lines, p)
    → (t' : SerialTransport) × (handle_read (transferred bytes) t ≡ some t')
      × Forwarded t t' lines p
unfolding handle_read parsed
handle_read-lines [] t lines p some_byte on e = absurd (some_byte refl)
handle_read-lines (c ∷ bytes) t lines p some_byte on e = (
  do_read (forward_lines lines (record t { line_parser = p; reading = false })),
  ap (λ r. parsed r (record t { reading = false })) e,
  do_read-Forwarded t _ lines p
      (forward_lines-all lines (record t { line_parser = p; reading = false }) on),
)

handle_reads-more :
    (bytes : Bytes) (reads : List Bytes) (t t' : SerialTransport)
    → handle_read (transferred bytes) t ≡ some t'
    → handle_reads (bytes ∷ reads) t ≡ handle_reads reads t'
unfolding handle_reads
handle_reads-more bytes reads t t' e =
    ap (λ r. elim r [ none ↦ none | some t'' ↦ handle_reads reads t'' ]) e

-- Reads leave what one read of all their bytes leaves.
handle_reads-lines :
    (bytes : Bytes) (reads : List Bytes) (t : SerialTransport)
    → All (λ r. r ≢ []) (bytes ∷ reads)
    → t.data_callback ≡ true
    → (lines : List Bytes) × (p : LineParser) × (feed (joined (bytes ∷ reads)) t.line_parser
        ≡ some (lines, p))
      × (t' : SerialTransport) × (handle_reads (bytes ∷ reads) t ≡ some t')
      × Forwarded t t' lines p
handle_reads-lines bytes [] t (h, hs) on =
    let (l₁, l₂, p₁, p₂, x₁, x₂, x₃) = feed-append bytes [] t.line_parser in
    let (t', e, log) = handle_read-lines bytes t l₁ p₁ h on x₁ in
    (
      l₁,
      p₁,
      ap (λ b. feed b t.line_parser) (append-nil bytes) ∙ x₁,
      t',
      handle_reads-more bytes [] t t' e ∙ (unfold handle_reads in refl),
      log,
    )
handle_reads-lines bytes (next ∷ reads) t (h, hs) on =
    let (l₁, l₂, p₁, p₂, x₁, x₂, x₃) = feed-append bytes (joined (next ∷ reads)) t.line_parser in
    let (t₁, e, (log, same, still)) = handle_read-lines bytes t l₁ p₁ h on x₁ in
    let (later, p', y, t', e', (log', same', still')) = handle_reads-lines next reads t₁ hs still in
    let y' = ap (feed (joined (next ∷ reads))) (sym same) ∙ y in
    (
      l₁ ++ later,
      p',
      x₃ ∙ cc (x₂, y'),
      t',
      handle_reads-more bytes (next ∷ reads) t t₁ e ∙ e',
      (
        log'
            ∙ ap (λ r. r ++ terminated later) log
            ∙ append_assoc t.received (terminated l₁) (terminated later)
            ∙ ap (◌++◌ t.received) (sym (terminated-append l₁ later)),
        same',
        still',
      ),
    )

-- The lines of a parser's result as events.
posted : Option (List Bytes × LineParser) → Option (List Event × LineParser)
posted none = none
posted (some (lines, p)) = some (posted_lines lines, p)

parsed_lines : Option (List Bytes × LineParser) → List Bytes
parsed_lines none = []
parsed_lines (some (lines, p)) = lines

receive-terminated :
    (lines : List Bytes) (p : LineParser)
    → p.buffer ≡ []
    → p.callback ≡ true
    → All IsLine lines
    → receive (terminated lines) p ≡ some (posted_lines lines, p)
unfolding posted
receive-terminated [] p empty on h = read_none p
receive-terminated (l ∷ lines) p empty on h =
    let (lines', p', x, y) = receive-lines (l ++ crlf) (terminated lines) p in
    let whole : feed (joined (terminated (l ∷ lines))) p ≡ some (l ∷ lines, p) =
      ap (λ b. feed b p) (joined-terminated (l ∷ lines)) ∙ feed-wire (l ∷ lines) p empty on h in
    y ∙ ap posted (sym x ∙ whole)

-- The lines that a modem sends reach the session one by one, unchanged and in order, whatever reads
-- cut their bytes: the transport, with an empty line parser and its callbacks set, forwards each of
-- them with a new terminator, and the line parser of the session, empty as well, posts one event for
-- each line and keeps nothing back.
pub relay :
    (bytes : Bytes) (reads lines : List Bytes) (t : SerialTransport) (p : LineParser)
    → All (λ r. r ≢ []) (bytes ∷ reads)
    → joined (bytes ∷ reads) ≡ wire lines
    → All IsLine lines
    → t.line_parser.buffer ≡ []
    → t.line_parser.callback ≡ true
    → t.data_callback ≡ true
    → t.received ≡ []
    → p.buffer ≡ []
    → p.callback ≡ true
    → (t' : SerialTransport) × (handle_reads (bytes ∷ reads) t ≡ some t')
      × (receive t'.received p ≡ some (posted_lines lines, p))
unfolding parsed_lines
relay bytes reads lines t p some_bytes sent clean empty on forwards fresh empty' on' =
    let (lines', q, x, t', e, (log, parser, still)) =
      handle_reads-lines bytes reads t some_bytes forwards in
    let whole : feed (joined (bytes ∷ reads)) t.line_parser ≡ some (lines, t.line_parser) =
      ap (λ b. feed b t.line_parser) sent ∙ feed-wire lines t.line_parser empty on clean in
    let same : lines' ≡ lines = ap parsed_lines (sym x ∙ whole) in
    let forwarded : t'.received ≡ terminated lines =
      log ∙ ap (λ r. r ++ terminated lines') fresh ∙ ap terminated same in
    (t', e, ap (λ r. receive r p) forwarded ∙ receive-terminated lines p empty' on' clean)
