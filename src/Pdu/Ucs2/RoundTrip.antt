-- ===== src/Pdu/Ucs2/RoundTrip.antt =====
-- `ucs2_encode` against `ucs2_decode`.
use sms_relay.Base.{
  ℕ, ◌+◌, ◌*◌, ◌/◌, ◌%◌, ◌^◌, ◌<◌, ◌≡◌, refl, ap, ap₂, ◌∙◌, bit_and, bit_or, List, [], ◌∷◌, ◌++◌,
  Bool, true, not, ◌&&◌, Bytes, All, ◌==◌, ==_iff, arith, all_below, all_below_sound,
}
use sms_relay.Base.Bits.{bit_or_disjoint, bit_and_low}
use sms_relay.Pdu.Utf8.{
  low_six, two_bytes, three_bytes, utf8_to_codepoint, code_points_from, code_points,
}
use sms_relay.Pdu.Ucs2.{ucs2_unit, ucs2_units, ucs2_encode, utf8_of_unit, ucs2_decode}

-- What the decoder tests and keeps of the bytes that the encoder makes of `x`.
abbrev one_byte : ℕ → Bool
one_byte x = bit_and x 0x80 == 0

abbrev lead_of_two : ℕ → Bool
lead_of_two x =
    not (bit_and (bit_or 0xC0 x) 0x80 == 0)
    && (bit_and (bit_or 0xC0 x) 0xE0 == 0xC0 && bit_and (bit_or 0xC0 x) 0x1F == x)

abbrev lead_of_three : ℕ → Bool
lead_of_three x =
    not (bit_and (bit_or 0xE0 x) 0x80 == 0)
    && (not (bit_and (bit_or 0xE0 x) 0xE0 == 0xC0)
        && (bit_and (bit_or 0xE0 x) 0xF0 == 0xE0 && bit_and (bit_or 0xE0 x) 0x0F == x))

abbrev continuation : ℕ → Bool
continuation x = bit_and (bit_or 0x80 x) 0x3F == x

one_byte_table : all_below 128 one_byte ≡ true
unfolding all_below
one_byte_table = refl

lead_of_two_table : all_below 32 lead_of_two ≡ true
unfolding all_below
lead_of_two_table = refl

lead_of_three_table : all_below 16 lead_of_three ≡ true
unfolding all_below
lead_of_three_table = refl

continuation_table : all_below 64 continuation ≡ true
unfolding all_below
continuation_table = refl

low_six-continuation : (x : ℕ) → x < 64 → low_six (bit_or 0x80 x) ≡ x
low_six-continuation x h =
    (==_iff (low_six (bit_or 0x80 x)) x).0 (all_below_sound 64 continuation x continuation_table h)

point-one : (u : ℕ) (rest : Bytes) → u < 128 → utf8_to_codepoint u rest ≡ (u, 1)
unfolding utf8_to_codepoint
point-one u rest h = rw (all_below_sound 128 one_byte u one_byte_table h)

point-two :
    (x y : ℕ) (rest : Bytes)
    → x < 32
    → y < 64
    → utf8_to_codepoint (bit_or 0xC0 x) (bit_or 0x80 y ∷ rest) ≡ (x * 64 + y, 2)
unfolding utf8_to_codepoint two_bytes
point-two x y rest hx hy = ground (
  arith,
  all_below_sound 32 lead_of_two x lead_of_two_table hx,
  low_six-continuation y hy,
  bit_or_disjoint 6 x y hy,
)

point-three :
    (x y z : ℕ) (rest : Bytes)
    → x < 16
    → y < 64
    → z < 64
    → utf8_to_codepoint (bit_or 0xE0 x) (bit_or 0x80 y ∷ bit_or 0x80 z ∷ rest)
      ≡ ((x * 64 + y) * 64 + z, 3)
unfolding utf8_to_codepoint three_bytes
point-three x y z rest hx hy hz = ground (
  arith,
  all_below_sound 16 lead_of_three x lead_of_three_table hx,
  low_six-continuation y hy,
  low_six-continuation z hz,
  bit_or_disjoint 12 x (y * 64) (omega arith),
  bit_or_disjoint 6 (x * 64 + y) z hz,
)

-- The loop goes on behind a code point.
step-one :
    (c point : ℕ) (rest : Bytes)
    → utf8_to_codepoint c rest ≡ (point, 1)
    → code_points (c ∷ rest) ≡ point ∷ code_points rest
unfolding code_points code_points_from
step-one c point rest e = ground (arith, e)

step-two :
    (c d point : ℕ) (rest : Bytes)
    → utf8_to_codepoint c (d ∷ rest) ≡ (point, 2)
    → code_points (c ∷ d ∷ rest) ≡ point ∷ code_points rest
unfolding code_points code_points_from
step-two c d point rest e = ground (arith, e)

step-three :
    (c d f point : ℕ) (rest : Bytes)
    → utf8_to_codepoint c (d ∷ f ∷ rest) ≡ (point, 3)
    → code_points (c ∷ d ∷ f ∷ rest) ≡ point ∷ code_points rest
unfolding code_points code_points_from
step-three c d f point rest e = ground (arith, e)

-- The UTF-8 of a code point below 0x10000, before any text, is read as that code point.
pub code_points-utf8_of_unit :
    (u : ℕ) (rest : Bytes)
    → u < 0x10000
    → code_points (utf8_of_unit u ++ rest) ≡ u ∷ code_points rest
unfolding utf8_of_unit
code_points-utf8_of_unit u rest h = ground (
  arith,
  bit_and_low 6 u,
  bit_and_low 6 (u / 2 ^ 6),
  step-one u u rest,
  point-one u rest,
  step-two (bit_or 0xC0 (u / 2 ^ 6)) (bit_or 0x80 (u % 64)) u rest,
  point-two (u / 2 ^ 6) (u % 64) rest,
  step-three (bit_or 0xE0 (u / 2 ^ 12)) (bit_or 0x80 (u / 2 ^ 6 % 64)) (bit_or 0x80 (u % 64)) u
      rest,
  point-three (u / 2 ^ 12) (u / 2 ^ 6 % 64) (u % 64) rest,
)

-- The UTF-8 text of some code points below 0x10000.
abbrev pub utf8_of_units : List ℕ → Bytes
utf8_of_units [] = []
utf8_of_units (u ∷ units) = utf8_of_unit u ++ utf8_of_units units

pub code_points-utf8_of_units :
    (units : List ℕ) → All (λ u. u < 0x10000) units → code_points (utf8_of_units units) ≡ units
code_points-utf8_of_units [] h = unfold code_points code_points_from in refl
code_points-utf8_of_units (u ∷ units) (hu, h) =
    code_points-utf8_of_unit u (utf8_of_units units) hu
    ∙ ap (◌∷◌ u) (code_points-utf8_of_units units h)

ucs2_decode-units :
    (units : List ℕ)
    → All (λ u. u < 0x10000) units
    → ucs2_decode (ucs2_units units) ≡ utf8_of_units units
unfolding ucs2_decode ucs2_units ucs2_unit
ucs2_decode-units [] h = refl
ucs2_decode-units (u ∷ units) (hu, h) =
    ap₂ ◌++◌ (ap utf8_of_unit (unit_value u hu)) (ucs2_decode-units units h)
  where
    unit_value :
        (v : ℕ)
        → v < 0x10000
        → bit_or (bit_and v 0xFFFF / 2 ^ 8 * 2 ^ 8) (bit_and (bit_and v 0xFFFF) 0xFF) ≡ v
    unit_value v lt = ground (
      arith,
      bit_and_low 16 v,
      bit_and_low 8 (bit_and v 0xFFFF),
      bit_or_disjoint 8 (bit_and v 0xFFFF / 2 ^ 8) (bit_and (bit_and v 0xFFFF) 0xFF),
    )

-- A UTF-8 text whose code points are all below 0x10000 comes back from UCS-2 unchanged.
pub ucs2_decode-ucs2_encode :
    (units : List ℕ)
    → All (λ u. u < 0x10000) units
    → ucs2_decode (ucs2_encode (utf8_of_units units)) ≡ utf8_of_units units
unfolding ucs2_encode
ucs2_decode-ucs2_encode units h = rw (code_points-utf8_of_units units h) (ucs2_decode-units units h)
