-- ===== src/Pdu/Gsm7/RoundTrip.antt =====
-- `gsm7_encode` against `gsm7_decode`, and `GSM7_LOOKUP` against `gsm7_get_char`.
use sms_relay.Base.{
  ℕ, ◌<◌, Bool, true, false, not, ◌&&◌, ◌||◌, ◌≡◌, refl, sym, ap, ◌∙◌, none, some, inl, inr, [],
  ◌∷◌, ◌++◌, Bytes, All, append-nil, within, ◌==◌, if◌then◌else◌, Option-cases, all_below,
  all_below_sound, bit_and, arith, ◌↔◌,
}
use sms_relay.Base.Result.{ok}
use sms_relay.Base.Text.{bytes_eq, bytes_eq_iff}
use sms_relay.Pdu.Utf8.{utf8_to_codepoint, code_points_from, code_points}
use sms_relay.Pdu.Ucs2.{utf8_of_unit}
use sms_relay.Pdu.Gsm7.{
  gsm7_lookup, gsm7_extended, find_position, find_char, gsm7_find_position, gsm7_get_char,
  encode_point, encode_points, gsm7_encode, decode_escaped, decode_plain, decode_septets,
  gsm7_decode,
}

has_no_high_bit : all_below 128 (λ b. bit_and b 0x80 == 0) ≡ true
unfolding all_below
has_no_high_bit = refl

one_byte : (b : ℕ) (rest : Bytes) → b < 128 → utf8_to_codepoint b rest ≡ (b, 1)
unfolding utf8_to_codepoint
one_byte b rest h = rw (all_below_sound 128 (λ x. bit_and x 0x80 == 0) b has_no_high_bit h)

-- A text of bytes below 128 is its own list of code points.
pub code_points-ascii : (text : Bytes) → All (λ c. c < 128) text → code_points text ≡ text
unfolding code_points code_points_from
code_points-ascii [] h = refl
code_points-ascii (c ∷ text) (hc, h) = ground (arith, one_byte c text hc, code_points-ascii text h)

-- Line feed, form feed, carriage return, and the visible characters but the backtick.
abbrev pub is_readable : ℕ → Bool
is_readable c = (c == 10 || c == 12 || c == 13 || within 32 126 c) && not (c == 96)

-- What one byte is encoded to is decoded to it, before any septets.
unfoldable comes_back : ℕ → Bool
unfolding decode_plain decode_escaped find_position
comes_back c = elim (find_position c gsm7_lookup) [
  | some p ↦ not (p == 0x1B) && bytes_eq (decode_plain p) (c ∷ [])
  | none ↦ elim (find_position c gsm7_extended) [
    | some code ↦ bytes_eq (decode_escaped code) (c ∷ [])
    | none ↦ false
  ]
]

table : all_below 128 (λ c. not (is_readable c) || comes_back c) ≡ true
unfolding all_below comes_back find_position decode_plain decode_escaped bytes_eq gsm7_get_char
    find_char
table = refl

readable_facts : (c : ℕ) → is_readable c ≡ true → comes_back c ≡ true
readable_facts c h = ground (
  arith,
  h,
  all_below_sound 128 (λ x. not (is_readable x) || comes_back x) c table (ground arith),
)

takes_plain :
    (s : ℕ) (rest : Bytes)
    → (s == 0x1B) ≡ false
    → decode_septets false (s ∷ rest) ≡ decode_plain s ++ decode_septets false rest
unfolding decode_septets
takes_plain s [] h = sym (append-nil _)
takes_plain s (t ∷ rest) h = ground (arith, h)

takes_escaped :
    (code : ℕ) (rest : Bytes)
    → decode_septets false (0x1B ∷ code ∷ rest) ≡ decode_escaped code ++ decode_septets false rest
unfolding decode_septets
takes_escaped code rest = refl

both : (a b : Bool) → a && b ≡ true → (a ≡ true) × (b ≡ true)
both a b h = ground (arith, h)

plain_back :
    (c p : ℕ)
    → find_position c gsm7_lookup ≡ some p
    → comes_back c ≡ true
    → ((p == 0x1B) ≡ false) × (decode_plain p ≡ c ∷ [])
unfolding comes_back
plain_back c p e h =
    let (no_escape, same) =
      both (not (p == 0x1B)) (bytes_eq (decode_plain p) (c ∷ [])) (rw (comes_back, e) at h) in
    (ground (arith, no_escape), (bytes_eq_iff (decode_plain p) (c ∷ [])).0 same)

escaped_back :
    (c code : ℕ)
    → find_position c gsm7_lookup ≡ none
    → find_position c gsm7_extended ≡ some code
    → comes_back c ≡ true
    → decode_escaped code ≡ c ∷ []
unfolding comes_back
escaped_back c code e e' h =
    (bytes_eq_iff (decode_escaped code) (c ∷ [])).0 (rw (comes_back, e, e') at h)

-- The septets of a readable byte, and how the decoder takes them.
readable_point :
    (discard_invalid : Bool) (c : ℕ)
    → is_readable c ≡ true
    → (septets : Bytes) × (encode_point discard_invalid c ≡ ok septets)
      × ((rest : Bytes) → decode_septets false (septets ++ rest) ≡ c ∷ decode_septets false rest)
unfolding encode_point gsm7_find_position
readable_point discard_invalid c h = elim (Option-cases (find_position c gsm7_lookup)) [
  | inr (p, e) ↦
      let (no_escape, same) = plain_back c p e (readable_facts c h) in
      (
        p ∷ [],
        ground (arith, e),
        λ rest. takes_plain p rest no_escape ∙ ap (λ d. d ++ decode_septets false rest) same,
      )
  | inl e ↦ elim (Option-cases (find_position c gsm7_extended)) [
    | inr (code, e') ↦ (
      0x1B ∷ code ∷ [],
      ground (arith, e, e'),
      λ rest.
          takes_escaped code rest
          ∙ ap (λ d. d ++ decode_septets false rest)
              (escaped_back c code e e' (readable_facts c h)),
    )
    | inl e' ↦ absurd (unfold comes_back in ground (arith, e, e', readable_facts c h))
  ]
]

encode-decode :
    (discard_invalid : Bool) (text : Bytes)
    → All (λ c. is_readable c ≡ true) text
    → (septets : Bytes) × (encode_points discard_invalid text ≡ ok septets)
      × (decode_septets false septets ≡ text)
unfolding encode_points
encode-decode discard_invalid [] h = ([], refl, unfold decode_septets in refl)
encode-decode discard_invalid (c ∷ text) (hc, h) =
    let (front, e, back) = readable_point discard_invalid c hc in
    let (behind, e', back') = encode-decode discard_invalid text h in
    (front ++ behind, ground (arith, e, e'), back behind ∙ ap (◌∷◌ c) back')

-- A text of readable ASCII characters (line feed, form feed, carriage return and 32 to 126, but
-- the backtick) is encoded without an error, whatever `discard_invalid`, and the septets are
-- decoded to the same text.
pub gsm7_decode-gsm7_encode :
    (text : Bytes) (discard_invalid : Bool)
    → All (λ c. is_readable c ≡ true) text
    → (septets : Bytes) × (gsm7_encode text discard_invalid ≡ ok septets)
      × (gsm7_decode septets ≡ text)
unfolding gsm7_encode gsm7_decode
gsm7_decode-gsm7_encode text discard_invalid h =
    rw (code_points-ascii text (below text h)) (encode-decode discard_invalid text h)
  where
    below : (t : Bytes) → All (λ c. is_readable c ≡ true) t → All (λ c. c < 128) t
    below [] k = tt
    below (c ∷ t) (k, ks) = (ground (arith, k), below t ks)

-- The positions whose character `gsm7_get_char` takes for another: the ligature at 29, the currency sign, the
-- inverted marks, and the national letters at 91 to 96 and 123 to 127.
abbrev pub is_misread : ℕ → Bool
is_misread p = p == 29 || p == 36 || p == 64 || within 91 96 p || within 123 127 p

has_char : ℕ → Bool
has_char p = elim (find_char p gsm7_lookup) [
  | some point ↦
      if is_misread p
      then not (bytes_eq (gsm7_get_char p) (utf8_of_unit point))
      else bytes_eq (gsm7_get_char p) (utf8_of_unit point)
  | none ↦ false
]

chars : all_below 128 has_char ≡ true
unfolding all_below has_char find_char gsm7_get_char utf8_of_unit bytes_eq
chars = refl

-- Every position below 128 has a code point in the encoder's table, and the decoder writes the
-- UTF-8 of that code point exactly where the position is not one of 29, 36, 64, 91 to 96 and 123 to
-- 127.
pub gsm7_get_char-agrees :
    (position : ℕ)
    → position < 128
    → (point : ℕ) × (find_char position gsm7_lookup ≡ some point)
      × ((gsm7_get_char position ≡ utf8_of_unit point) ↔ (is_misread position ≡ false))
gsm7_get_char-agrees position h = elim (Option-cases (find_char position gsm7_lookup)) [
  | inl e ↦ absurd (unfold has_char in ground (arith, e, facts))
  | inr (point, e) ↦ (
    point,
    e,
    unfold has_char in
        ground (arith, e, facts, bytes_eq_iff (gsm7_get_char position) (utf8_of_unit point)),
  )
]
  where
    facts : has_char position ≡ true
    facts = all_below_sound 128 has_char position chars h
