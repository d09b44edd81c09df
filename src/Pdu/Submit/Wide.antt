-- ===== src/Pdu/Submit/Wide.antt =====
-- Messages that `encode_submit` writes in UCS-2, after `decode`.
use sms_relay.Base.{
  ℕ, ◌+◌, ◌%◌, ◌^◌, ◌≡◌, refl, ◌∙◌, ◌⊎◌, inr, some, Bool, true, [], ◌∷◌, ◌++◌, Bytes, length, arith,
}
use sms_relay.Base.Result.{ok}
use sms_relay.Pdu.Gsm7.{gsm7_decode}
use sms_relay.Pdu.Septets.{septets_unpack}
use sms_relay.Pdu.Ucs2.{ucs2_encode}
use sms_relay.Pdu.Udh.{parse_udh}
use sms_relay.Pdu.Udh.Elements.{finished}
use sms_relay.Pdu.Decode.{
  PduMessage, empty_message, plain_text, headed_text, headed_message, parse_user_data, decode_bytes,
}
use sms_relay.Pdu.Submit.{
  Part, single, part_of, header_octets, first_octet, ucs2_data, user_data,
  encode_submit_pdu_internal,
}
use sms_relay.Pdu.Submit.Frame.{IsTelephone, decode-encode_submit_pdu_internal}

no_elements :
    (left_first : Bool) (bytes : Bytes)
    → parse_udh left_first bytes 0
      ≡ some
          (ok (record { present = true; concat_ref = 0; concat_seq = 0; concat_total = 0 }, bytes))
unfolding parse_udh
no_elements left_first bytes = finished 0 left_first 0 0 _ bytes refl

lost_header :
    (left_first : Bool) (p : Part) (len : ℕ) (msg : PduMessage) (octets : Bytes)
    → parse_user_data left_first (first_octet (part_of p)) 0 len msg (header_octets p ++ octets)
      ≡ ok (record msg {
        has_udh = true;
        concat_ref = 0;
        concat_seq = 0;
        concat_total = 0;
        text =
            headed_text 0 len 0
              (header_octets p ++ octets)
              (0x03 ∷ p.concat_ref % 2 ^ 8 ∷ p.concat_total ∷ p.concat_seq ∷ octets);
      })
unfolding parse_user_data headed_message first_octet
lost_header left_first p len msg octets = ground (
  arith,
  no_elements left_first (0x03 ∷ p.concat_ref % 2 ^ 8 ∷ p.concat_total ∷ p.concat_seq ∷ octets),
)

-- A part of a message in UCS-2 is encoded without the length octet of its header: whatever part
-- it is, `decode` finds a header in it but no reference, number or total.
pub decode-submit_ucs2_part :
    (number text smsc : Bytes) (reference : ℕ) (p : Part)
    → IsTelephone number
    → (smsc ≡ []) ⊎ IsTelephone smsc
    → (pdu : Bytes) × (encode_submit_pdu_internal number text reference smsc 2 (part_of p) ≡ ok pdu)
      × ((left_first : Bool)
          → (msg : PduMessage) × (decode_bytes left_first pdu ≡ ok msg)
            × (msg.has_udh ≡ true)
            × (msg.concat_ref ≡ 0)
            × (msg.concat_seq ≡ 0)
            × (msg.concat_total ≡ 0))
decode-submit_ucs2_part number text smsc reference p t s =
    let octets = ucs2_encode text in
    let (pdu, encoded, decoded) =
      decode-encode_submit_pdu_internal number text smsc reference 2
        ((length octets + 5 + 1) % 2 ^ 8) (part_of p) (header_octets p ++ octets) t s (inr refl)
        (unfold user_data ucs2_data in refl) in
    (
      pdu,
      encoded,
      λ left_first.
          (_, decoded left_first ∙ lost_header left_first p _ _ octets, refl, refl, refl, refl),
    )

-- A single message in UCS-2 carries the coding scheme 2, which `decode` takes for GSM 7: the text
-- that it finds is that of the UCS-2 octets read as packed septets.
pub decode-submit_ucs2 :
    (number text smsc : Bytes) (reference : ℕ)
    → IsTelephone number
    → (smsc ≡ []) ⊎ IsTelephone smsc
    → (pdu : Bytes) × (encode_submit_pdu_internal number text reference smsc 2 single ≡ ok pdu)
      × ((left_first : Bool)
          → decode_bytes left_first pdu
            ≡ ok (record empty_message {
              smsc = smsc;
              number = number;
              reference = reference;
              text =
                  gsm7_decode
                    (septets_unpack (ucs2_encode text) (length (ucs2_encode text) % 2 ^ 8));
            }))
decode-submit_ucs2 number text smsc reference t s =
    let (pdu, encoded, decoded) =
      decode-encode_submit_pdu_internal number text smsc reference 2
        (length (ucs2_encode text) % 2 ^ 8) single (ucs2_encode text) t s (inr refl)
        (unfold user_data ucs2_data in refl) in
    (
      pdu,
      encoded,
      λ left_first. decoded left_first ∙ unfold parse_user_data first_octet plain_text in refl,
    )
