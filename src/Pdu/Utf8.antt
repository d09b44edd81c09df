-- ===== src/Pdu/Utf8.antt =====
-- UTF-8 to code points. A `string_view` with a position is the list of bytes from there on.
use sms_relay.Base.{
  ℕ, zero, suc, ◌*◌, ◌^◌, bit_and, bit_or, List, [], ◌∷◌, Bytes, ◌==◌, if◌then◌else◌,
}

-- The low six bits of a byte.
abbrev pub low_six : ℕ → ℕ
low_six c = bit_and c 0x3F

-- `utf8_to_codepoint` at the byte `c` before `rest`: the code point and the bytes it takes. A lead
-- byte with too few bytes behind it, or one that is no lead byte, is code point 0 and one byte.
unfoldable pub two_bytes : ℕ → Bytes → ℕ × ℕ
two_bytes c [] = (0, 1)
two_bytes c (d ∷ rest) = (bit_or (bit_and c 0x1F * 2 ^ 6) (low_six d), 2)

unfoldable pub three_bytes : ℕ → Bytes → ℕ × ℕ
three_bytes c (d ∷ e ∷ rest) =
    (bit_or (bit_or (bit_and c 0x0F * 2 ^ 12) (low_six d * 2 ^ 6)) (low_six e), 3)
three_bytes c _ = (0, 1)

unfoldable pub four_bytes : ℕ → Bytes → ℕ × ℕ
four_bytes c (d ∷ e ∷ f ∷ rest) = (
  bit_or (bit_or (bit_or (bit_and c 0x07 * 2 ^ 18) (low_six d * 2 ^ 12)) (low_six e * 2 ^ 6))
      (low_six f),
  4,
)
four_bytes c _ = (0, 1)

unfoldable pub utf8_to_codepoint : ℕ → Bytes → ℕ × ℕ
unfolding two_bytes three_bytes four_bytes
utf8_to_codepoint c rest =
    if bit_and c 0x80 == 0
    then (c, 1)
    else if bit_and c 0xE0 == 0xC0
    then two_bytes c rest
    else if bit_and c 0xF0 == 0xE0
    then three_bytes c rest
    else if bit_and c 0xF8 == 0xF0
    then four_bytes c rest
    else (0, 1)

-- The code points that a loop `while (i < text.length()) utf8_to_codepoint(text, i)` meets;
-- `skip` bytes belong to the code point before.
unfoldable pub code_points_from : ℕ → Bytes → List ℕ
unfolding utf8_to_codepoint
code_points_from skip [] = []
code_points_from (suc skip) (c ∷ rest) = code_points_from skip rest
code_points_from zero (c ∷ rest) =
    let (point, taken) = utf8_to_codepoint c rest in
    elim taken [
      | zero ↦ point ∷ code_points_from zero rest
      | suc more ↦ point ∷ code_points_from more rest
    ]

unfoldable pub code_points : Bytes → List ℕ
unfolding code_points_from
code_points text = code_points_from 0 text
