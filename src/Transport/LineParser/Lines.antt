-- ===== src/Transport/LineParser/Lines.antt =====
-- `LineParser::feed` over several reads, and over whole lines.
use mathlib.Core.Path.{subst}
use sms_relay.Base.{
  ℕ, zero, suc, ◌+◌, ◌≤◌, ◌<◌, true, ◌≡◌, ◌≢◌, refl, sym, ap, ap₂, ◌∙◌, Option, none, some, inl,
  inr, List, [], ◌∷◌, ◌++◌, append_assoc, Bytes, All, length, take, drop, length-drop,
  take-append_length, if◌then◌else◌, Option-cases, arith,
}
use sms_relay.Base.Text.{find, starts_with}
use sms_relay.Base.Search.{find-inside, find-grow}
use sms_relay.Transport.LineParser.{LineParser, crlf, strip_cr, extract, extract_lines, feed}

-- `extract` without fuel: the rounds that the loop makes from `buffer` to `rest`.
pub data Extracts : Bytes → List Bytes → Bytes → Type 0 where
  stop : {buffer : Bytes} → find crlf buffer ≡ none → Extracts buffer [] buffer
  round :
      {buffer : Bytes} {lines : List Bytes} {rest : Bytes} (pos : ℕ)
      → find crlf buffer ≡ some pos
      → Extracts (drop (pos + 2) buffer) lines rest
      → Extracts buffer (strip_cr (take pos buffer) ∷ lines) rest

-- Fuel above the length of the buffer is enough, and the result is that of the rounds.
extract_total :
    (fuel : ℕ) (buffer : Bytes)
    → length buffer < fuel
    → (lines : List Bytes) × (rest : Bytes) × (extract fuel buffer ≡ some (lines, rest))
      × Extracts buffer lines rest
unfolding extract
extract_total zero buffer h = absurd (omega arith)
extract_total (suc fuel) buffer h = elim (Option-cases (find crlf buffer)) [
  | inl e ↦ ([], buffer, rw (e, extract), stop e)
  | inr (pos, e) ↦
      let (lines, rest, x, y) = extract_total fuel (drop (pos + 2) buffer) (shorter pos e) in
      (strip_cr (take pos buffer) ∷ lines, rest, rw (e, extract, x), round pos e y)
]
  where
    shorter : (pos : ℕ) → find crlf buffer ≡ some pos → length (drop (pos + 2) buffer) < fuel
    shorter pos e = omega (arith, length-drop (pos + 2) buffer, find-inside crlf buffer pos e)

drop-append : (n : ℕ) (a b : Bytes) → n ≤ length a → drop n (a ++ b) ≡ drop n a ++ b
drop-append zero a b h = refl
drop-append (suc n) [] b h = absurd (omega arith)
drop-append (suc n) (x ∷ a) b h = drop-append n a b (omega arith)

take-append : (n : ℕ) (a b : Bytes) → n ≤ length a → take n (a ++ b) ≡ take n a
take-append zero a b h = refl
take-append (suc n) [] b h = absurd (omega arith)
take-append (suc n) (x ∷ a) b h = ap (◌∷◌ x) (take-append n a b (omega arith))

crlf-ne-nil : crlf ≢ []
crlf-ne-nil = cc

-- The rounds on `a`, then those on its rest with `b` behind it, are the rounds on `a ++ b`.
Extracts-append :
    {a : Bytes} {lines more : List Bytes} {left rest : Bytes} (b : Bytes)
    → Extracts a lines left
    → Extracts (left ++ b) more rest
    → Extracts (a ++ b) (lines ++ more) rest
Extracts-append b (stop e) y = y
Extracts-append {more} {rest = end} b (round {buffer = a} {lines} {rest = left} pos e x) y =
    subst (λ l. Extracts (a ++ b) (strip_cr l ∷ (lines ++ more)) end)
      (take-append pos a b (omega (arith, inside)))
      (round pos (find-grow crlf a b pos crlf-ne-nil e) (
        subst (λ r. Extracts r (lines ++ more) end) (sym (drop-append (pos + 2) a b inside))
          (Extracts-append b x y)))
  where
    inside : pos + 2 ≤ length a
    inside = omega (arith, find-inside crlf a pos e)

Extracts-unique :
    {a : Bytes} {lines lines' : List Bytes} {rest rest' : Bytes}
    → Extracts a lines rest
    → Extracts a lines' rest'
    → (lines ≡ lines') × (rest ≡ rest')
Extracts-unique (stop e) (stop e') = (refl, refl)
Extracts-unique (stop e) (round pos e' y) = absurd (cc (e, e'))
Extracts-unique (round pos e x) (stop e') = absurd (cc (e, e'))
Extracts-unique {a} {rest' = end} (round pos e x) (round {lines = later} pos' e' y) =
    let same : pos ≡ pos' = cc (e, e') in
    let (l, r) =
      Extracts-unique x (subst (λ q. Extracts (drop (q + 2) a) later end) (sym same) y) in
    (ap₂ (λ q ls. strip_cr (take q a) ∷ ls) same l, r)

-- One call of `extract_lines`, through its rounds.
extract_lines_total :
    (p : LineParser)
    → (lines : List Bytes) × (rest : Bytes) × (extract_lines p
        ≡ some (if p.callback then lines else [], record p { buffer = rest }))
      × Extracts p.buffer lines rest
unfolding extract_lines
extract_lines_total p =
    let (lines, rest, x, y) = extract_total (suc (length p.buffer)) p.buffer (omega arith) in
    (lines, rest, rw (extract_lines, x), y)

-- Cutting the input in two changes nothing: both calls return, and the lines that they deliver
-- and the buffer that they leave are those of one call on all the bytes.
pub feed-append :
    (a b : Bytes) (p : LineParser)
    → (l₁ l₂ : List Bytes) × (p₁ p₂ : LineParser) × (feed a p ≡ some (l₁, p₁))
      × (feed b p₁ ≡ some (l₂, p₂))
      × (feed (a ++ b) p ≡ some (l₁ ++ l₂, p₂))
unfolding feed
feed-append a b p =
    let (l₁, r₁, x₁, y₁) = extract_lines_total (record p { buffer = p.buffer ++ a }) in
    let (l₂, r₂, x₂, y₂) = extract_lines_total (record p { buffer = r₁ ++ b }) in
    let (l₃, r₃, x₃, y₃) = extract_lines_total (record p { buffer = p.buffer ++ (a ++ b) }) in
    let (same, left) = Extracts-unique y₃ (
      subst (λ s. Extracts s (l₁ ++ l₂) r₂) (append_assoc p.buffer a b)
        (Extracts-append b y₁ y₂)) in
    (_, _, _, _, x₁, x₂, x₃ ∙ joined l₁ l₂ l₃ r₂ r₃ same left)
  where
    joined :
        (l₁ l₂ l₃ : List Bytes) (r₂ r₃ : Bytes)
        → l₃ ≡ l₁ ++ l₂
        → r₃ ≡ r₂
        → ◌≡◌ {A = Option (List Bytes × LineParser)}
            (some (if p.callback then l₃ else [], record p { buffer = r₃ }))
            (some (
              (if p.callback then l₁ else []) ++ (if p.callback then l₂ else []),
              record p { buffer = r₂ },
            ))
    joined l₁ l₂ l₃ r₂ r₃ same left = ground (arith, same, left)

-- A line that a modem can send: no line feed in it, and no carriage return at its end.
abbrev pub IsLine : Bytes → Type 0
IsLine line = All (λ c. c ≢ b'\n') line × (strip_cr line ≡ line)

-- The lines as they travel, each with its terminator.
abbrev pub wire : List Bytes → Bytes
wire [] = []
wire (line ∷ lines) = line ++ (crlf ++ wire lines)

find-IsLine :
    (line rest : Bytes)
    → All (λ c. c ≢ b'\n') line
    → find crlf (line ++ (crlf ++ rest)) ≡ some (length line)
unfolding find starts_with
find-IsLine [] rest h = refl
find-IsLine (x ∷ []) rest h = ground arith
find-IsLine (x ∷ y ∷ line) rest h = ground (arith, h, find-IsLine (y ∷ line) rest h.1)

past : (line rest : Bytes) → drop (length line + 2) (line ++ (crlf ++ rest)) ≡ rest
past [] rest = refl
past (x ∷ line) rest =
    let e : suc (length line) + 2 ≡ suc (length line + 2) = omega arith in rw e (past line rest)

wire-Extracts : (lines : List Bytes) → All IsLine lines → Extracts (wire lines) lines []
unfolding find starts_with
wire-Extracts [] h = stop refl
wire-Extracts (line ∷ lines) ((clean, kept), later) =
    subst (λ l. Extracts (wire (line ∷ lines)) (l ∷ lines) [])
      (ap strip_cr (take-append_length line _) ∙ kept)
      (round (length line) (find-IsLine line (wire lines) clean) (
        subst (λ r. Extracts r lines []) (sym (past line (wire lines)))
          (wire-Extracts lines later)))

-- A parser with an empty buffer and a callback delivers exactly the lines that were sent, in
-- order, and keeps nothing back.
pub feed-wire :
    (lines : List Bytes) (p : LineParser)
    → p.buffer ≡ []
    → p.callback ≡ true
    → All IsLine lines
    → feed (wire lines) p ≡ some (lines, p)
unfolding feed
feed-wire lines p e c h =
    let (l, r, x, y) = extract_lines_total (record p { buffer = p.buffer ++ wire lines }) in
    let sent : Extracts (p.buffer ++ wire lines) lines [] =
      subst (λ b. Extracts (b ++ wire lines) lines []) (sym e) (wire-Extracts lines h) in
    let (same, left) = Extracts-unique y sent in x ∙ ground (arith, same, left)
