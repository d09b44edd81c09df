-- ===== src/Pdu/SemiOctets/RoundTrip.antt =====
-- `semi_octets_encode` against `semi_octets_decode`.
use sms_relay.Base.{
  ℕ, zero, suc, ◌+◌, ◌-◌, ◌*◌, ◌/◌, ◌%◌, ◌^◌, ◌≤◌, ◌<◌, ◌≡◌, refl, ap, ◌∙◌, bit_and, [], ◌∷◌, ◌++◌,
  Bytes, All, length, ◌==◌, if◌then◌else◌, arith, ◌⊎◌,
}
use sms_relay.Base.Bits.{bit_or_disjoint, bit_and_low}
use sms_relay.Pdu.Hex.{nibble, join_nibbles}
use sms_relay.Pdu.SemiOctets.{encode_pairs, semi_octets_encode, decode_octets, semi_octets_decode}

-- `'0'` to `'9'`.
abbrev pub IsDigit : ℕ → Type 0
IsDigit c = (48 ≤ c) × (c ≤ 57)

nibble-digit : (c : ℕ) → IsDigit c → nibble c ≡ c - 48
unfolding nibble
nibble-digit c h = ground arith

join : (h l : ℕ) → l < 16 → join_nibbles h l ≡ h * 16 + l
join h l lt = bit_or_disjoint 4 h l lt

low : (h l : ℕ) → l < 16 → bit_and (join_nibbles h l) 0x0F ≡ l
low h l lt = rw (join h l lt) (bit_and_low 4 (h * 16 + l) ∙ omega arith)

high : (h l : ℕ) → h < 16 → l < 16 → bit_and (join_nibbles h l / 2 ^ 4) 0x0F ≡ h
high h l lt lt' = rw (join h l lt') (bit_and_low 4 ((h * 16 + l) / 2 ^ 4) ∙ omega arith)

padded : Bytes → Bytes
padded number = if length number % 2 == 1 then number ++ b'F' ∷ [] else number

padded-two : (c d : ℕ) (number : Bytes) → padded (c ∷ d ∷ number) ≡ c ∷ d ∷ padded number
unfolding padded
padded-two c d number = ground arith

two_digits :
    (limit c d : ℕ) (rest : Bytes)
    → IsDigit c
    → IsDigit d
    → decode_octets (suc limit) (join_nibbles (nibble d) (nibble c) ∷ rest)
      ≡ c ∷ d ∷ decode_octets limit rest
unfolding decode_octets
two_digits limit c d rest hc hd = ground (
  arith,
  nibble-digit c hc,
  nibble-digit d hd,
  low (nibble d) (nibble c),
  high (nibble d) (nibble c),
)

one_digit :
    (limit c : ℕ) (rest : Bytes)
    → IsDigit c
    → decode_octets (suc limit) (join_nibbles 15 (nibble c) ∷ rest) ≡ c ∷ []
unfolding decode_octets
one_digit limit c rest hc = ground (arith, nibble-digit c hc, low 15 (nibble c), high 15 (nibble c))

pairs-two :
    (c d : ℕ) (rest : Bytes)
    → encode_pairs (c ∷ d ∷ rest) ≡ join_nibbles (nibble d) (nibble c) ∷ encode_pairs rest
unfolding encode_pairs
pairs-two c d rest = refl

decode-padded :
    (number : Bytes) (limit : ℕ)
    → All IsDigit number
    → length (encode_pairs (padded number)) ≤ limit
    → decode_octets limit (encode_pairs (padded number)) ≡ number
decode-padded [] zero h le = unfold decode_octets encode_pairs padded in refl
decode-padded [] (suc limit) h le = unfold decode_octets encode_pairs padded in refl
decode-padded (c ∷ []) (suc limit) (hc, h) le =
    unfold encode_pairs padded nibble in one_digit limit c [] hc
decode-padded (c ∷ d ∷ number) (suc limit) (hc, (hd, h)) le =
    ap (λ t. decode_octets (suc limit) (encode_pairs t)) (padded-two c d number)
    ∙ ap (decode_octets (suc limit)) (pairs-two c d (padded number))
    ∙ two_digits limit c d (encode_pairs (padded number)) hc hd
    ∙ ap (λ t. c ∷ d ∷ t) (decode-padded number limit h (fits le))
  where
    fits :
        length (encode_pairs (padded (c ∷ d ∷ number))) ≤ suc limit
        → length (encode_pairs (padded number)) ≤ limit
    fits k = unfold encode_pairs in ground (arith, padded-two c d number, k)
decode-padded (c ∷ []) zero h le = absurd (unfold encode_pairs padded in ground arith)
decode-padded (c ∷ d ∷ number) zero h le =
    absurd (unfold encode_pairs in ground (arith, padded-two c d number, le))

-- A number of decimal digits is encoded to semi-octets and decoded to the same digits, with no
-- limit or with any limit that admits all its octets.
pub semi_octets_decode-semi_octets_encode :
    (number : Bytes) (num_octets : ℕ)
    → All IsDigit number
    → (num_octets ≡ 0) ⊎ (length (semi_octets_encode number) ≤ num_octets)
    → semi_octets_decode (semi_octets_encode number) num_octets ≡ number
unfolding semi_octets_decode semi_octets_encode padded
semi_octets_decode-semi_octets_encode number n h fits =
    decode-padded number _ h (enough n (length (encode_pairs (padded number))) fits)
  where
    enough : (m len : ℕ) → (m ≡ 0) ⊎ (len ≤ m) → len ≤ (if m == 0 then len else m)
    enough m len k = ground (arith, k)
