-- ===== src/Transport/LineParser.antt =====
-- The splitter of src/sms_relay/transport/line_parser.h: raw bytes in, complete lines out. A call
-- returns the lines that it hands to `line_callback_`, in order. The mutex is free at each call.
pub mod Lines
use sms_relay.Base.{
  ℕ, zero, suc, ◌+◌, Bool, true, false, Option, none, some, List, [], ◌∷◌, ◌++◌, Bytes, length,
  take, drop, back?, init, ◌==◌, if◌then◌else◌,
}
use sms_relay.Base.Text.{find}

-- `callback` says whether `line_callback_` is set.
pub record LineParser : Type 0 where
  pub buffer : Bytes
  pub callback : Bool

abbrev pub crlf : Bytes
crlf = b'\r' ∷ b'\n' ∷ []

-- `if (!line.empty() && line.back() == '\r') line.pop_back();`
unfoldable pub strip_cr : Bytes → Bytes
strip_cr line = elim (back? line) [ none ↦ line | some c ↦ if c == b'\r' then init line else line ]

-- The loop of `extract_lines`: the lines and what is left of the buffer; `none` is out of fuel.
unfoldable pub extract : ℕ → Bytes → Option (List Bytes × Bytes)
extract zero buffer = none
extract (suc fuel) buffer = elim (find crlf buffer) [
  | none ↦ some ([], buffer)
  | some pos ↦ elim (extract fuel (drop (pos + 2) buffer)) [
    | none ↦ none
    | some (lines, rest) ↦ some (strip_cr (take pos buffer) ∷ lines, rest)
  ]
]

-- `extract_lines`: each round takes two bytes at least off the buffer.
unfoldable pub extract_lines : LineParser → Option (List Bytes × LineParser)
unfolding extract
extract_lines p = elim (extract (suc (length p.buffer)) p.buffer) [
  | none ↦ none
  | some (lines, rest) ↦ some (if p.callback then lines else [], record p { buffer = rest })
]

unfoldable pub feed : Bytes → LineParser → Option (List Bytes × LineParser)
unfolding extract_lines
feed bytes p = extract_lines (record p { buffer = p.buffer ++ bytes })

abbrev pub clear : LineParser → LineParser
clear p = record p { buffer = [] }

abbrev pub get_buffer : LineParser → Bytes
get_buffer p = p.buffer
