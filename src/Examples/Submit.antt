-- ===== src/Examples/Submit.antt =====
-- Short messages as `encode_submit` writes them.
use sms_relay.Base.{◌≤◌, ◌≡◌, refl, Bool, true, false, inl, [], ◌∷◌, Bytes, length, arith}
use sms_relay.Base.Result.{ok}
use sms_relay.Base.Text.{codes}
use sms_relay.Pdu.Gsm7.{gsm7_encode, encode_points, encode_point, gsm7_find_position, find_position}
use sms_relay.Pdu.Utf8.{code_points, code_points_from, utf8_to_codepoint}
use sms_relay.Pdu.Decode.{PduMessage, empty_message, decode_bytes}
use sms_relay.Pdu.Submit.{Part, single, part_of, encode_submit_pdu_internal, user_data}
use sms_relay.Pdu.Submit.Frame.{IsTelephone}
use sms_relay.Pdu.Submit.Texts.{decode-submit_single}
use sms_relay.Pdu.Submit.Wide.{decode-submit_ucs2_part}
use sms_relay.Pdu.Submit.Fits.{user_data-fits}

abbrev number : Bytes
number = codes "+491"

number-IsTelephone : IsTelephone number
number-IsTelephone = record {
  international = true;
  digits = codes "491";
  shape = refl;
  all_digits = ground arith;
  some_digit = λ e. ground (arith, e);
  few = omega arith;
}

abbrev hi : Bytes
hi = codes "hi"

hi_septets : gsm7_encode hi false ≡ ok hi
unfolding gsm7_encode code_points code_points_from utf8_to_codepoint encode_points encode_point
    gsm7_find_position find_position
hi_septets = refl

decode-submit_single_example :
    (pdu : Bytes) × (encode_submit_pdu_internal number hi 7 [] 0 single ≡ ok pdu)
    × ((left_first : Bool)
        → decode_bytes left_first pdu
          ≡ ok (record empty_message { smsc = []; number = number; text = hi; reference = 7 }))
decode-submit_single_example =
    decode-submit_single number hi [] 7 hi number-IsTelephone (inl refl) (refl, (refl, tt))
      hi_septets (omega arith)

abbrev second_of_two : Part
second_of_two = record { concat_ref = 7; concat_seq = 2; concat_total = 2 }

decode-submit_ucs2_part_example :
    (pdu : Bytes) × (encode_submit_pdu_internal number hi 7 [] 2 (part_of second_of_two) ≡ ok pdu)
    × ((left_first : Bool)
        → (msg : PduMessage) × (decode_bytes left_first pdu ≡ ok msg)
          × (msg.has_udh ≡ true)
          × (msg.concat_ref ≡ 0)
          × (msg.concat_seq ≡ 0)
          × (msg.concat_total ≡ 0))
decode-submit_ucs2_part_example =
    decode-submit_ucs2_part number hi [] 7 second_of_two number-IsTelephone (inl refl)

user_data-fits_example :
    (content : Bytes) × (user_data hi 0 (part_of second_of_two) ≡ ok (9 ∷ content))
    × (length content ≤ 140)
user_data-fits_example = user_data-fits hi (part_of second_of_two) hi hi_septets (omega arith)
