-- ===== src/Pdu/Timestamp.antt =====
-- `parse_timestamp` and `parse_data_coding_scheme` of src/common/pdu/pdu.cpp.
pub mod Zone
use sms_relay.Base.{
  ℕ, ◌+◌, ◌*◌, ◌/◌, ◌%◌, ◌^◌, Bool, true, false, ◌||◌, bit_and, [], ◌∷◌, ◌++◌, Bytes, length, take,
  drop, within, ltb, leb, ◌==◌, if◌then◌else◌,
}
use sms_relay.Base.Result.{Result, ok, err, fault, bad_number, ◌>>=◌}
use sms_relay.Base.Text.{codes, to_string}
use sms_relay.Pdu.Hex.{nibble}
use sms_relay.Pdu.SemiOctets.{semi_octets_decode}
use sms_relay.Pdu.Address.{next_octets}

-- `std::stoi(text, nullptr, 16)` on a text with no space, sign or `0x` in front: the leading
-- hexadecimal digits, or an exception if there are none.
abbrev is_hex : ℕ → Bool
is_hex c = within b'0' b'9' c || within b'A' b'F' c || within b'a' b'f' c

unfoldable pub hex_value : ℕ → Bytes → ℕ
unfolding nibble
hex_value value [] = value
hex_value value (c ∷ cs) =
    let rest = hex_value (value * 16 + nibble c) cs in if is_hex c then rest else value

unfoldable pub stoi_hex : Bytes → Result ℕ
unfolding hex_value
stoi_hex [] = err bad_number
stoi_hex (c ∷ cs) = if is_hex c then ok (hex_value 0 (c ∷ cs)) else err bad_number

-- `text.substr(from, 2)`
abbrev pair_at : ℕ → Bytes → Bytes
pair_at from text = take 2 (drop from text)

unfoldable pub date_text : Bytes → Bytes
date_text ts =
    pair_at 0 ts
    ++ (codes "/"
        ++ (pair_at 2 ts
            ++ (codes "/"
                ++ (pair_at 4 ts
                    ++ (codes " "
                        ++ (pair_at 6 ts
                            ++ (codes ":" ++ (pair_at 8 ts ++ (codes ":" ++ pair_at 10 ts)))))))))

unfoldable pub zone_text : ℕ → Bytes
zone_text tz =
    if bit_and tz 0x80 == 0
    then codes " +" ++ (to_string (tz * 15) ++ codes "min")
    else codes " -" ++ (to_string (bit_and tz 0x7F * 15) ++ codes "min")

unfoldable pub format_timestamp : Bytes → Result Bytes
unfolding stoi_hex date_text zone_text
format_timestamp decoded =
    if leb 14 (length decoded)
    then (do tz ← stoi_hex (pair_at 12 decoded); ok (date_text (take 12 decoded) ++ zone_text tz))
    else ok decoded

unfoldable pub parse_timestamp : Bytes → Result (Bytes × Bytes)
unfolding format_timestamp
parse_timestamp bytes = do
  (octets, rest) ← next_octets 7 bytes
  text ← format_timestamp (semi_octets_decode octets 7)
  ok (text, rest)

-- `DCS_GSM7` is 0.
unfoldable pub parse_data_coding_scheme : ℕ → ℕ
parse_data_coding_scheme octet = if bit_and octet 0xC0 == 0 then bit_and octet 0x0C / 2 ^ 2 else 0
