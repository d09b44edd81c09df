-- ===== src/Pdu/Submit/Frame.antt =====
-- `encode_submit_pdu_internal` against `decode`.
use sms_relay.Base.{
  ℕ, ◌<◌, ◌≡◌, ◌≢◌, refl, ap, ◌∙◌, Bool, true, false, [], ◌∷◌, ◌++◌, Bytes, All, length, arith, sym,
  ◌⊎◌, inl, inr,
}
use mathlib.Core.Path.{subst}
use sms_relay.Base.Result.{ok}
use sms_relay.Pdu.SemiOctets.RoundTrip.{IsDigit}
use sms_relay.Pdu.Address.{AddressField, parsed, build_address_field, parse_address_field}
use sms_relay.Pdu.Address.RoundTrip.{telephone, parse_address_field-build_address_field}
use sms_relay.Pdu.Timestamp.{parse_data_coding_scheme}
use sms_relay.Pdu.Udh.{advance}
use sms_relay.Pdu.Decode.{
  PduMessage, empty_message, parse_user_data, skip_validity, decode_submit, decode_tpdu,
  decode_bytes,
}
use sms_relay.Pdu.Submit.{
  Concat, single, part_of, address_octets, smsc_octets, first_octet, user_data,
  encode_submit_pdu_internal,
}

-- A telephone number that fits into an address field.
pub record IsTelephone (number : Bytes) : Type 0 where
  pub international : Bool
  pub digits : Bytes
  pub shape : number ≡ telephone international digits
  pub all_digits : All IsDigit digits
  pub some_digit : digits ≢ []
  pub few : length digits < 255

address_back :
    (number : Bytes) (smsc_field : Bool)
    → IsTelephone number
    → (field : AddressField) × (build_address_field number smsc_field ≡ ok field)
      × ((rest : Bytes)
          → parse_address_field (address_octets field ++ rest) smsc_field
            ≡ ok (parsed field.length field.type number, rest))
address_back number s t =
    let (field, e, back) = build_back [] in
    (field, rw t.shape e, λ rest. rw t.shape (same_field field e rest))
  where
    build_back :
        (rest : Bytes)
        → (field : AddressField) × (build_address_field (telephone t.international t.digits) s
            ≡ ok field)
          × (parse_address_field (address_octets field ++ rest) s
              ≡ ok (parsed field.length field.type (telephone t.international t.digits), rest))
    build_back rest =
        parse_address_field-build_address_field t.international s t.digits rest t.all_digits
          t.some_digit t.few

    same_field :
        (field : AddressField)
        → build_address_field (telephone t.international t.digits) s ≡ ok field
        → (rest : Bytes)
        → parse_address_field (address_octets field ++ rest) s
          ≡ ok (parsed field.length field.type (telephone t.international t.digits), rest)
    same_field field e rest =
        let (field', e', back) = build_back rest in
        let p : field' ≡ field = cc (e, e') in
        subst
          (λ q.
            parse_address_field (address_octets q ++ rest) s
            ≡ ok (parsed q.length q.type (telephone t.international t.digits), rest))
          p back

advance_one : (x : ℕ) (rest : Bytes) → advance 1 (x ∷ rest) ≡ ok rest
unfolding advance
advance_one x rest = ground arith

center_step :
    (left_first : Bool) (bytes : Bytes) {center : AddressField} {first : ℕ} {rest : Bytes}
    → parse_address_field bytes true ≡ ok (center, first ∷ rest)
    → decode_bytes left_first bytes
      ≡ decode_tpdu left_first first (record empty_message { smsc = center.number }) rest
unfolding decode_bytes parse_address_field
center_step l [] e = absurd (cc e)
center_step l (b ∷ bytes) e = ground (arith, e)

-- The service centre: none, or a number.
smsc_back :
    (smsc : Bytes)
    → (smsc ≡ []) ⊎ IsTelephone smsc
    → (center : Bytes) × (smsc_octets smsc ≡ ok center)
      × ((rest : Bytes)
          → (field : AddressField) × (parse_address_field (center ++ rest) true ≡ ok (field, rest))
            × (field.number ≡ smsc))
unfolding smsc_octets
smsc_back smsc (inl e) =
    (0 ∷ [], rw e, λ rest. (parsed 0 0 [], unfold parse_address_field in refl, rw e))
smsc_back [] (inr t) = absurd (no_number t.international t.digits t.shape t.some_digit)
  where
    no_number : (i : Bool) (digits : Bytes) → [] ≡ telephone i digits → digits ≢ [] → ⊥
    no_number true digits e n = cc (e)
    no_number false digits e n = n (sym e)
smsc_back (c ∷ cs) (inr t) =
    let (field, e, back) = address_back (c ∷ cs) true t in
    (address_octets field, rw e, λ rest. (parsed field.length field.type (c ∷ cs), back rest, refl))

parse_dcs : (dcs : ℕ) → (dcs ≡ 0) ⊎ (dcs ≡ 2) → parse_data_coding_scheme dcs ≡ 0
unfolding parse_data_coding_scheme
parse_dcs dcs (inl e) = rw e
parse_dcs dcs (inr e) = rw e

-- From the first octet on, the frame is taken apart up to the user data.
submit_step :
    (left_first : Bool) (msg : PduMessage) (number : Bytes) (recipient : AddressField)
    (concat : Concat) (reference dcs len : ℕ) (content : Bytes)
    → (dcs ≡ 0) ⊎ (dcs ≡ 2)
    → ((rest : Bytes)
        → parse_address_field (address_octets recipient ++ rest) false
          ≡ ok (parsed recipient.length recipient.type number, rest))
    → decode_tpdu left_first
        (first_octet concat)
        msg
        (reference ∷ (address_octets recipient ++ 0 ∷ dcs ∷ len ∷ content))
      ≡ parse_user_data left_first
          (first_octet concat)
          0
          len
          (record msg { reference = reference; number = number })
          content
unfolding decode_tpdu decode_submit skip_validity first_octet
submit_step l msg number recipient single reference dcs len content d back =
    ground
      (arith, back (0 ∷ dcs ∷ len ∷ content), advance_one 0 (dcs ∷ len ∷ content), parse_dcs dcs d)
submit_step l msg number recipient (part_of p) reference dcs len content d back =
    ground
      (arith, back (0 ∷ dcs ∷ len ∷ content), advance_one 0 (dcs ∷ len ∷ content), parse_dcs dcs d)

-- An encoded message is decoded up to its user data: service centre, number and reference are
-- those that were given.
pub decode-encode_submit_pdu_internal :
    (number text smsc : Bytes) (reference dcs len : ℕ) (concat : Concat) (content : Bytes)
    → IsTelephone number
    → (smsc ≡ []) ⊎ IsTelephone smsc
    → (dcs ≡ 0) ⊎ (dcs ≡ 2)
    → user_data text dcs concat ≡ ok (len ∷ content)
    → (pdu : Bytes) × (encode_submit_pdu_internal number text reference smsc dcs concat ≡ ok pdu)
      × ((left_first : Bool)
          → decode_bytes left_first pdu
            ≡ parse_user_data left_first
                (first_octet concat)
                0
                len
                (record empty_message { smsc = smsc; reference = reference; number = number })
                content)
unfolding encode_submit_pdu_internal
decode-encode_submit_pdu_internal number text smsc reference dcs len concat content t s d u =
    let (recipient, e, back) = address_back number false t in
    let (center, f, center_back) = smsc_back smsc s in
    let tail : Bytes =
      first_octet concat ∷ reference ∷ (address_octets recipient ++ 0 ∷ dcs ∷ len ∷ content) in
    let (field, g, same) = center_back tail in
    (
      center ++ tail,
      ground (arith, e, f, u),
      λ left_first.
          center_step left_first (center ++ tail) g
          ∙ submit_step left_first (record empty_message { smsc = field.number }) number recipient
              concat reference dcs len content d back
          ∙ ap
              (λ z.
                parse_user_data left_first (first_octet concat) 0 len
                  (record empty_message { smsc = z; reference = reference; number = number })
                  content)
              same,
    )
