-- ===== src/Pdu/Submit/Texts.antt =====
-- The text of an encoded message, after `decode`.
use sms_relay.Base.{
  ℕ, ◌+◌, ◌<◌, ◌≤◌, ◌≡◌, ◌≢◌, refl, ap, ◌∙◌, sym, ◌⊎◌, inl, inr, Bool, true, false, not, ◌&&◌, ◌||◌,
  [], ◌∷◌, ◌++◌, Bytes, All, All-append, length, ltb, ◌==◌, if◌then◌else◌, arith, all_below,
  all_below_sound,
}
use mathlib.Core.Path.{subst}
use sms_relay.Base.Result.{Result, ok, err, Result-cases}
use sms_relay.Pdu.Gsm7.{
  find_position, gsm7_find_position, encode_point, encode_points, gsm7_encode, gsm7_decode,
}
use sms_relay.Pdu.Gsm7.RoundTrip.{is_readable, code_points-ascii, gsm7_decode-gsm7_encode}
use sms_relay.Pdu.Septets.{septets_pack, septets_unpack}
use sms_relay.Pdu.Septets.Octets.{IsSeptet}
use sms_relay.Pdu.Septets.RoundTrip.{NoEighthZero, septets_unpack-septets_pack}
use sms_relay.Pdu.Decode.{PduMessage, empty_message, plain_text, parse_user_data, decode_bytes}
use sms_relay.Pdu.Submit.{single, first_octet, gsm7_data, user_data, encode_submit_pdu_internal}
use sms_relay.Pdu.Submit.Frame.{IsTelephone, decode-encode_submit_pdu_internal}

-- Seven bits, and not 0.
abbrev IsSolid : ℕ → Type 0
IsSolid s = (s < 128) × (s ≢ 0)

abbrev solid : Bytes → Bool
solid [] = true
solid (s ∷ septets) = ltb s 128 && (not (s == 0) && solid septets)

solid_sound : (septets : Bytes) → solid septets ≡ true → All IsSolid septets
solid_sound [] h = tt
solid_sound (s ∷ septets) h = (ground arith, solid_sound septets (ground arith))

-- A text character that is readable and no at sign.
abbrev pub is_safe : ℕ → Bool
is_safe c = is_readable c && not (c == b'@')

abbrev solid_result : Result Bytes → Bool
solid_result (ok septets) = solid septets
solid_result (err e) = false

abbrev safe_point : ℕ → Bool
safe_point c = not (is_safe c) || solid_result (encode_point false c)

safe_table : all_below 128 safe_point ≡ true
unfolding all_below encode_point gsm7_find_position find_position
safe_table = refl

encode_point-IsSolid :
    (c : ℕ) {septets : Bytes}
    → is_safe c ≡ true
    → encode_point false c ≡ ok septets
    → All IsSolid septets
encode_point-IsSolid c {septets} h e =
    solid_sound septets
      (ground (arith, e, all_below_sound 128 safe_point c safe_table (ground arith)))

encode_points-IsSolid :
    (text : Bytes) {septets : Bytes}
    → All (λ c. is_safe c ≡ true) text
    → encode_points false text ≡ ok septets
    → All IsSolid septets
unfolding encode_points
encode_points-IsSolid [] {septets} h e =
    let p : [] ≡ septets = ground arith in subst (All IsSolid) p tt
encode_points-IsSolid (c ∷ text) {septets} (hc, h) e = elim (Result-cases (encode_point false c)) [
  | inl (x, f) ↦ absurd (ground (arith, f))
  | inr (front, f) ↦ elim (Result-cases (encode_points false text)) [
    | inl (x, g) ↦ absurd (ground (arith, f, g))
    | inr (rest, g) ↦
        let p : front ++ rest ≡ septets = ground (arith, f, g) in
        subst (All IsSolid) p (
          All-append IsSolid front rest (encode_point-IsSolid c hc f)
            (encode_points-IsSolid text h g))
  ]
]

solid-NoEighthZero : (k : ℕ) (septets : Bytes) → All IsSolid septets → NoEighthZero k septets
solid-NoEighthZero k [] h = tt
solid-NoEighthZero k (s ∷ septets) (hs, h) =
    ((λ e. hs.1), solid-NoEighthZero (if k == 7 then 0 else k + 1) septets h)

solid-IsSeptet : (septets : Bytes) → All IsSolid septets → All IsSeptet septets
solid-IsSeptet [] h = tt
solid-IsSeptet (s ∷ septets) (hs, h) = (hs.0, solid-IsSeptet septets h)

safe-readable :
    (text : Bytes) → All (λ c. is_safe c ≡ true) text → All (λ c. is_readable c ≡ true) text
safe-readable [] h = tt
safe-readable (c ∷ text) (hc, h) = (ground arith, safe-readable text h)

safe-ascii : (text : Bytes) → All (λ c. is_safe c ≡ true) text → All (λ c. c < 128) text
safe-ascii [] h = tt
safe-ascii (c ∷ text) (hc, h) = (ground arith, safe-ascii text h)

plain_data :
    (left_first : Bool) (len : ℕ) (msg : PduMessage) (content : Bytes)
    → parse_user_data left_first (first_octet single) 0 len msg content
      ≡ ok (record msg { text = gsm7_decode (septets_unpack content len) })
unfolding parse_user_data first_octet plain_text
plain_data l len msg content = refl

abbrev sent : Bytes → Bytes → Bytes → ℕ → PduMessage
sent smsc number text reference = record empty_message {
  smsc = smsc;
  number = number;
  text = text;
  reference = reference;
}

-- A text of at most 160 septets, of readable ASCII characters but the at sign, encoded as a single
-- message to a telephone number, by way of a given service centre or none, is decoded to exactly
-- this number, service centre, reference and text.
pub decode-submit_single :
    (number text smsc : Bytes) (reference : ℕ) (septets : Bytes)
    → IsTelephone number
    → (smsc ≡ []) ⊎ IsTelephone smsc
    → All (λ c. is_safe c ≡ true) text
    → gsm7_encode text false ≡ ok septets
    → length septets ≤ 160
    → (pdu : Bytes) × (encode_submit_pdu_internal number text reference smsc 0 single ≡ ok pdu)
      × ((left_first : Bool) → decode_bytes left_first pdu ≡ ok (sent smsc number text reference))
decode-submit_single number text smsc reference septets t s safe e few =
    let (septets', e', back) = gsm7_decode-gsm7_encode text false (safe-readable text safe) in
    let same : septets' ≡ septets = cc (e', e) in
    let solid_septets : All IsSolid septets = encode_points-IsSolid text safe (as_points safe e) in
    let (pdu, encoded, decoded) =
      decode-encode_submit_pdu_internal number text smsc reference 0 (length septets) single
        (septets_pack septets 0) t s (inl refl) (unfold user_data gsm7_data in ground (arith, e)) in
    (
      pdu,
      encoded,
      λ left_first.
          decoded left_first
          ∙ plain_data left_first (length septets) _ (septets_pack septets 0)
          ∙ ap (λ z. ok (sent smsc number z reference))
              (ap gsm7_decode (
                  septets_unpack-septets_pack septets (solid-IsSeptet septets solid_septets)
                    (solid-NoEighthZero 0 septets solid_septets))
                ∙ ap gsm7_decode (sym same)
                ∙ back),
    )
  where
    as_points :
        All (λ c. is_safe c ≡ true) text
        → gsm7_encode text false ≡ ok septets
        → encode_points false text ≡ ok septets
    as_points h f = unfold gsm7_encode in rw (code_points-ascii text (safe-ascii text h)) at f
