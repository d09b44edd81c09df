-- ===== src/Sms/Parse.antt =====
-- What `SmsService` reads in notifications and in the modem's answers
-- (src/sms_relay/sms/sms_service.cpp).
pub mod Answers
use sms_relay.Base.{
  ℕ, zero, suc, ◌+◌, Bool, true, false, not, ◌&&◌, ◌||◌, Option, none, some, List, [], ◌∷◌, ◌++◌,
  Bytes, length, take, drop, ltb, ◌==◌, within, if◌then◌else◌,
}
use sms_relay.Base.Result.{Result, ok, err, runtime_error, ◌>>=◌}
use sms_relay.Base.Text.{codes, find_byte, starts_with}
use sms_relay.Base.Digits.{stoi_u8, starts_digit}
use sms_relay.At.ResponseBuilder.{AtResponse}

-- `[^"]+`: the characters in front of the next quotation mark, and what is from there on.
unfoldable pub until_quote : Bytes → Bytes × Bytes
until_quote [] = ([], [])
until_quote (c ∷ s) = elim (c == b'"') [
  | true ↦ ([], c ∷ s)
  | false ↦ let (name, rest) = until_quote s in (c ∷ name, rest)
]

-- `",(\d+)` at the start of a string: the string from the digits on.
unfoldable pub quote_comma : Bytes → Option Bytes
unfolding starts_digit
quote_comma (a ∷ b ∷ s) = if (a == b'"' && b == b',') && starts_digit s then some s else none
quote_comma _ = none

-- The regular expression `"([^"]+)",(\d+)` at the start of a string: the first group, and the
-- string from the second on, which ends with the digits.
unfoldable pub match_here : Bytes → Option (Bytes × Bytes)
unfolding until_quote quote_comma
match_here [] = none
match_here (c ∷ s) = elim (c == b'"') [
  | false ↦ none
  | true ↦
      let (name, rest) = until_quote s in
      elim name [
        | [] ↦ none
        | n ∷ ns ↦ elim (quote_comma rest) [ none ↦ none | some digits ↦ some (n ∷ ns, digits) ]
      ]
]

-- `std::regex_search`: the first place that matches.
unfoldable pub parse_cmti_args : Bytes → Result (Bytes × ℕ)
unfolding match_here stoi_u8
parse_cmti_args [] = err runtime_error
parse_cmti_args (c ∷ args) = elim (match_here (c ∷ args)) [
  | none ↦ parse_cmti_args args
  | some (storage, digits) ↦ stoi_u8 digits >>= λ index. ok (storage, index)
]

-- `std::isxdigit`
abbrev pub is_xdigit : ℕ → Bool
is_xdigit c = within b'0' b'9' c || within b'A' b'F' c || within b'a' b'f' c

unfoldable pub is_hex : Bytes → Bool
is_hex [] = true
is_hex (c ∷ line) = if not (is_xdigit c) then false else is_hex line

unfoldable pub extract_pdu : List Bytes → Bytes
unfolding is_hex
extract_pdu [] = []
extract_pdu (line ∷ lines) =
    if ltb 20 (length line)
    then (if is_hex line then line else extract_pdu lines)
    else extract_pdu lines

unfoldable pub extract_pdu_from_cmgr : AtResponse → Bytes
unfolding extract_pdu
extract_pdu_from_cmgr response = extract_pdu response.lines

-- A pair that does not parse is left out.
unfoldable pub add_pair : Result ℕ → Result ℕ → List (ℕ × ℕ) → List (ℕ × ℕ)
add_pair (ok index) (ok stat) pairs = (index, stat) ∷ pairs
add_pair _ _ pairs = pairs

-- A line "+CMGL: <index>,<stat>,...", whose colon is its sixth character, in front of the pairs of
-- the lines behind it.
unfoldable pub cmgl_line : Bytes → List (ℕ × ℕ) → List (ℕ × ℕ)
unfolding find_byte add_pair stoi_u8
cmgl_line line pairs =
    let rest : Bytes = drop 6 line in
    elim (find_byte b',' rest) [
      | none ↦ pairs
      | some first ↦
          let behind : Bytes = drop (first + 1) rest in
          elim (find_byte b',' behind) [
            | none ↦ pairs
            | some second ↦
                add_pair (stoi_u8 (take first rest)) (stoi_u8 (take second behind)) pairs
          ]
    ]

unfoldable pub cmgl_lines : List Bytes → List (ℕ × ℕ)
unfolding cmgl_line starts_with
cmgl_lines [] = []
cmgl_lines (line ∷ lines) =
    if starts_with line (codes "+CMGL:")
    then cmgl_line line (cmgl_lines lines)
    else cmgl_lines lines

unfoldable pub parse_cmgl_response : AtResponse → List (ℕ × ℕ)
unfolding cmgl_lines
parse_cmgl_response response = cmgl_lines response.lines
