-- ===== src/Pdu/Timestamp/Zone.antt =====
-- `parse_timestamp` on well-formed octets.
use sms_relay.Base.{
  ℕ, suc, ◌+◌, ◌*◌, ◌/◌, ◌%◌, ◌^◌, ◌<◌, ◌≡◌, refl, ap, ◌∙◌, true, bit_and, [], ◌∷◌, ◌++◌, Bytes,
  All, length, map, List, ◌==◌, arith, all_below, all_below_sound,
}
use sms_relay.Base.Bits.{bit_and_low}
use sms_relay.Base.Result.{ok}
use sms_relay.Base.Text.{codes, to_string}
use sms_relay.Pdu.Hex.{nibble}
use sms_relay.Pdu.SemiOctets.{decode_octets, semi_octets_decode}
use sms_relay.Pdu.Address.{next_octets}
use sms_relay.Pdu.Address.RoundTrip.{next_octets-append}
use sms_relay.Pdu.Timestamp.{
  hex_value, stoi_hex, date_text, zone_text, format_timestamp, parse_timestamp,
}

-- A number below 100 as a semi-octet pair, the tens in the low half.
abbrev pub semi_octet : ℕ → ℕ
semi_octet n = n % 10 * 16 + n / 10

-- Its two digits.
abbrev pub two_digits : ℕ → Bytes
two_digits n = (b'0' + n / 10) ∷ (b'0' + n % 10) ∷ []

decode_octets-semi_octet :
    (limit n : ℕ) (rest : Bytes)
    → n < 100
    → decode_octets (suc limit) (semi_octet n ∷ rest) ≡ two_digits n ++ decode_octets limit rest
unfolding decode_octets
decode_octets-semi_octet limit n rest h =
    ground (arith, bit_and_low 4 (semi_octet n), bit_and_low 4 (semi_octet n / 2 ^ 4))

stoi_hex-two_digits : (n : ℕ) → n < 100 → stoi_hex (two_digits n) ≡ ok (16 * (n / 10) + n % 10)
unfolding stoi_hex hex_value nibble
stoi_hex-two_digits n h = ground arith

no_sign : all_below 128 (λ x. bit_and x 0x80 == 0) ≡ true
unfolding all_below
no_sign = refl

zone_text-plus :
    (tz : ℕ) → tz < 128 → zone_text tz ≡ codes " +" ++ (to_string (tz * 15) ++ codes "min")
unfolding zone_text
zone_text-plus tz h = rw (all_below_sound 128 (λ x. bit_and x 0x80 == 0) tz no_sign h)

-- The text of a date, its six parts two digits each.
abbrev pub date_of : ℕ → ℕ → ℕ → ℕ → ℕ → ℕ → Bytes
date_of y mo d h mi s =
    two_digits y
    ++ (codes "/"
        ++ (two_digits mo
            ++ (codes "/"
                ++ (two_digits d
                    ++ (codes " "
                        ++ (two_digits h
                            ++ (codes ":" ++ (two_digits mi ++ (codes ":" ++ two_digits s)))))))))

format-digits :
    (y mo d h mi s n : ℕ)
    → n < 80
    → format_timestamp (
        two_digits y
        ++ (two_digits mo
            ++ (two_digits d
                ++ (two_digits h ++ (two_digits mi ++ (two_digits s ++ two_digits n))))))
      ≡ ok (
          date_of y mo d h mi s
          ++ (codes " +" ++ (to_string ((16 * (n / 10) + n % 10) * 15) ++ codes "min")))
unfolding format_timestamp date_text
format-digits y mo d h mi s n lt = ground (
  arith,
  stoi_hex-two_digits n (omega arith),
  zone_text-plus (16 * (n / 10) + n % 10) (omega arith),
)

abbrev digits_text : List ℕ → Bytes
digits_text [] = []
digits_text (n ∷ ns) = two_digits n ++ digits_text ns

decode_octets-semi_octets :
    (ns : List ℕ)
    → All (λ x. x < 100) ns
    → decode_octets (length ns) (map semi_octet ns) ≡ digits_text ns
decode_octets-semi_octets [] h = unfold decode_octets in refl
decode_octets-semi_octets (n ∷ ns) (hn, h) =
    decode_octets-semi_octet (length ns) n (map semi_octet ns) hn
    ∙ ap (λ t. two_digits n ++ t) (decode_octets-semi_octets ns h)

-- The seven octets of a timestamp.
abbrev pub timestamp : ℕ → ℕ → ℕ → ℕ → ℕ → ℕ → ℕ → Bytes
timestamp y mo d h mi s n = map semi_octet (y ∷ mo ∷ d ∷ h ∷ mi ∷ s ∷ n ∷ [])

parse_step :
    (octets rest text decoded : Bytes)
    → next_octets 7 (octets ++ rest) ≡ ok (octets, rest)
    → semi_octets_decode octets 7 ≡ decoded
    → format_timestamp decoded ≡ ok text
    → parse_timestamp (octets ++ rest) ≡ ok (text, rest)
unfolding parse_timestamp
parse_step octets rest text decoded e f g = ground (arith, e, f, g)

-- A well-formed timestamp, six numbers below 100 and a time zone of n quarter hours east, n below
-- 80, with any bytes behind it, is formatted as `YY/MM/DD HH:MM:SS +Mmin`, and the parser stops
-- right behind it. The minutes M are fifteen times the number that the two decimal digits of n
-- make when they are read as hexadecimal.
pub parse_timestamp-timestamp :
    (y mo d h mi s n : ℕ) (rest : Bytes)
    → All (λ x. x < 100) (y ∷ mo ∷ d ∷ h ∷ mi ∷ s ∷ n ∷ [])
    → n < 80
    → parse_timestamp (timestamp y mo d h mi s n ++ rest)
      ≡ ok (
        date_of y mo d h mi s
            ++ (codes " +" ++ (to_string ((16 * (n / 10) + n % 10) * 15) ++ codes "min")),
        rest,
      )
parse_timestamp-timestamp y mo d h mi s n rest all lt =
    parse_step (timestamp y mo d h mi s n) rest _ (digits_text parts)
      (next_octets-append 7 (timestamp y mo d h mi s n) rest refl)
      (unfold semi_octets_decode in decode_octets-semi_octets parts all)
      (format-digits y mo d h mi s n lt)
  where
    parts : List ℕ
    parts = y ∷ mo ∷ d ∷ h ∷ mi ∷ s ∷ n ∷ []
