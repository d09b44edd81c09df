-- ===== src/Examples/Pdu.antt =====
-- Short texts, numbers and headers in every encoding.
use sms_relay.Base.{◌≡◌, refl, true, false, some, [], ◌∷◌, ◌++◌, Bytes, arith}
use sms_relay.Base.Result.{Result, ok}
use sms_relay.Base.Text.{codes, to_string}
use sms_relay.Pdu.Address.{AddressField, build_address_field, parse_address_field, parsed}
use sms_relay.Pdu.Address.RoundTrip.{parse_address_field-build_address_field}
use sms_relay.Pdu.Timestamp.{parse_timestamp}
use sms_relay.Pdu.Timestamp.Zone.{timestamp, parse_timestamp-timestamp}
use sms_relay.Pdu.Udh.{UdhInfo, parse_udh}
use sms_relay.Pdu.Udh.Elements.{parse_udh_total}
use sms_relay.Pdu.Gsm7.{gsm7_encode, gsm7_decode}
use sms_relay.Pdu.Gsm7.RoundTrip.{gsm7_decode-gsm7_encode}
use sms_relay.Pdu.Septets.{
  septets_pack, septets_unpack, pack_loop, pack_octet, unpack_loop, unpack_end, unpack_septet,
}
use sms_relay.Pdu.Septets.RoundTrip.{septets_unpack-septets_pack}
use sms_relay.Pdu.Ucs2.{ucs2_encode, ucs2_decode}
use sms_relay.Pdu.Ucs2.RoundTrip.{utf8_of_units, ucs2_decode-ucs2_encode}

gsm7_decode-gsm7_encode_example :
    (septets : Bytes) × (gsm7_encode (codes "a[1]") false ≡ ok septets)
    × (gsm7_decode septets ≡ codes "a[1]")
gsm7_decode-gsm7_encode_example =
    gsm7_decode-gsm7_encode (codes "a[1]") false (refl, (refl, (refl, (refl, tt))))

septets_unpack-septets_pack_example :
    septets_unpack (septets_pack (codes "hellohello") 0) 10 ≡ codes "hellohello"
septets_unpack-septets_pack_example =
    septets_unpack-septets_pack (codes "hellohello") (ground arith) (ground arith)

ucs2_decode-ucs2_encode_example :
    ucs2_decode (ucs2_encode (utf8_of_units (0x41 ∷ 0x4F60 ∷ [])))
    ≡ utf8_of_units (0x41 ∷ 0x4F60 ∷ [])
ucs2_decode-ucs2_encode_example = ucs2_decode-ucs2_encode (0x41 ∷ 0x4F60 ∷ []) (ground arith)

-- Eight characters, the last of them `@`, come back as seven.
at_sign_lost : septets_unpack (septets_pack (codes "abcdefg" ++ 0 ∷ []) 0) 8 ≡ codes "abcdefg"
unfolding septets_unpack septets_pack pack_loop pack_octet unpack_loop unpack_end unpack_septet
at_sign_lost = refl

parse_address_field-build_address_field_example :
    (field : AddressField) × (build_address_field (codes "+491") false ≡ ok field)
    × (parse_address_field (field.length ∷ field.type ∷ (field.encoded ++ 7 ∷ [])) false
        ≡ ok (parsed field.length field.type (codes "+491"), 7 ∷ []))
parse_address_field-build_address_field_example =
    parse_address_field-build_address_field true false (codes "491") (7 ∷ []) (ground arith) (cc)
      (omega arith)

-- Eight hours east are 480 minutes.
parse_timestamp-timestamp_example :
    parse_timestamp (timestamp 24 1 2 3 4 5 32 ++ 9 ∷ [])
    ≡ ok (codes "24/01/02 03:04:05 +" ++ (to_string 750 ++ codes "min"), 9 ∷ [])
parse_timestamp-timestamp_example =
    parse_timestamp-timestamp 24 1 2 3 4 5 32 (9 ∷ []) (ground arith) (omega arith)

-- The header ends in the middle of an element.
parse_udh_total_example :
    (result : Result (UdhInfo × Bytes)) × (parse_udh true (0 ∷ 3 ∷ 9 ∷ []) 5 ≡ some result)
parse_udh_total_example = parse_udh_total true (0 ∷ 3 ∷ 9 ∷ []) 5
