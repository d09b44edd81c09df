-- ===== src/Forward/Template.antt =====
-- `TemplateRenderer` of src/sms_relay/forward/template_renderer.cpp.
pub mod Replaces
pub mod Segments
use sms_relay.Base.{
  ℕ, zero, suc, ◌+◌, ◌/◌, ◌%◌, Bool, true, false, ◌||◌, Option, none, some, [], ◌∷◌, ◌++◌, Bytes,
  length, take, drop, leb, ltb, ◌==◌, within, if◌then◌else◌,
}
use sms_relay.Base.Text.{codes, find, to_string}
use sms_relay.Sms.Message.{IncomingSms}

-- The loop of `replace_all` on what is behind `start_pos`; `none` is out of fuel.
unfoldable pub replace : ℕ → Bytes → Bytes → Bytes → Option Bytes
replace zero from to str = none
replace (suc fuel) from to str = elim (find from str) [
  | none ↦ some str
  | some pos ↦ elim (replace fuel from to (drop (pos + length from) str)) [
    | none ↦ none
    | some rest ↦ some (take pos str ++ (to ++ rest))
  ]
]

-- A round takes one byte at least.
unfoldable pub replace_all : Bytes → Bytes → Bytes → Option Bytes
unfolding replace
replace_all str [] to = some str
replace_all str (c ∷ from) to = replace (suc (length str)) (c ∷ from) to str

abbrev pub then_replace : Bytes → Bytes → Option Bytes → Option Bytes
then_replace from to none = none
then_replace from to (some str) = replace_all str from to

unfoldable pub render : Bytes → IncomingSms → Option Bytes
unfolding replace_all
render tmpl sms = then_replace (codes "${index}") (to_string sms.index) (
    then_replace (codes "${timestamp}") sms.decoded.timestamp (
      then_replace (codes "${text}") sms.decoded.text
        (replace_all tmpl (codes "${sender}") sms.decoded.number)))

abbrev is_kept : ℕ → Bool
is_kept c =
    within b'0' b'9' c
    || within b'A' b'Z' c
    || within b'a' b'z' c
    || c == b'-'
    || c == b'_'
    || c == b'.'
    || c == b'~'
    || c == b' '

abbrev upper_digit : ℕ → ℕ
upper_digit d = if ltb d 10 then d + b'0' else d + 55

unfoldable pub url_encode : Bytes → Bytes
url_encode [] = []
url_encode (c ∷ str) =
    if is_kept c
    then c ∷ url_encode str
    else b'%' ∷ upper_digit (c / 16) ∷ upper_digit (c % 16) ∷ url_encode str

unfoldable pub truncate : Bytes → ℕ → Bytes
truncate str max_len = if leb (length str) max_len then str else take max_len str
