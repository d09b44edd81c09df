-- ===== src/Pdu/Udh/Elements.antt =====
-- The loop of `parse_udh` over the elements of a header.
use sms_relay.Base.{
  ℕ, zero, suc, ◌+◌, ◌-◌, ◌<◌, ◌≡◌, ◌≢◌, ap, ◌∙◌, Bool, true, false, some, inl, inr, List, [], ◌∷◌,
  ◌++◌, append_assoc, Bytes, All, length, length-append, drop-append_length, ltb, if◌then◌else◌,
  Bool-cases, arith,
}
use sms_relay.Base.Result.{Result-cases, Result, Error, ok, err, fault}
use sms_relay.Pdu.Udh.{
  UdhInfo, advance, short_reference, unknown_element, element, elements, parse_udh,
}

-- One round with two octets at hand.
round_end :
    (fuel : ℕ) (left_first : Bool) (udh_len ie_len_read : ℕ) (info : UdhInfo) (iei len : ℕ)
    (bytes : Bytes)
    → ltb ie_len_read udh_len ≡ false
    → elements (suc fuel) left_first udh_len ie_len_read info (iei ∷ len ∷ bytes)
      ≡ some (ok (info, iei ∷ len ∷ bytes))
unfolding elements
round_end fuel l udh_len read info iei len bytes e = ground (arith, e)

round_err :
    (fuel : ℕ) (left_first : Bool) (udh_len ie_len_read : ℕ) (info : UdhInfo) (iei len : ℕ)
    (bytes : Bytes) {e : Error}
    → ltb ie_len_read udh_len ≡ true
    → element left_first iei len info bytes ≡ err e
    → elements (suc fuel) left_first udh_len ie_len_read info (iei ∷ len ∷ bytes) ≡ some (err e)
unfolding elements
round_err fuel l udh_len read info iei len bytes b f = ground (arith, b, f)

round_ok :
    (fuel : ℕ) (left_first : Bool) (udh_len ie_len_read : ℕ) (info : UdhInfo) (iei len : ℕ)
    (bytes : Bytes) {info' : UdhInfo} {rest : Bytes}
    → ltb ie_len_read udh_len ≡ true
    → element left_first iei len info bytes ≡ ok (info', rest)
    → elements (suc fuel) left_first udh_len ie_len_read info (iei ∷ len ∷ bytes)
      ≡ elements fuel left_first udh_len (ie_len_read + len + 2) info' rest
unfolding elements
round_ok fuel l udh_len read info iei len bytes b f = ground (arith, b, f)

-- More fuel than octets still to count is enough: the loop ends, whatever the bytes.
elements_total :
    (fuel : ℕ) (left_first : Bool) (udh_len ie_len_read : ℕ) (info : UdhInfo) (bytes : Bytes)
    → udh_len - ie_len_read < fuel
    → (result : Result (UdhInfo × Bytes)) × (elements fuel left_first udh_len ie_len_read info bytes
        ≡ some result)
elements_total zero l udh_len read info bytes h = absurd (omega arith)
elements_total (suc fuel) l udh_len read info [] h =
    (if ltb read udh_len then err fault else ok (info, []), unfold elements in ground arith)
elements_total (suc fuel) l udh_len read info (iei ∷ []) h =
    (if ltb read udh_len then err fault else ok (info, iei ∷ []), unfold elements in ground arith)
elements_total (suc fuel) l udh_len read info (iei ∷ len ∷ bytes) h =
    elim (Bool-cases (ltb read udh_len)) [
      | inr e ↦ (_, round_end fuel l udh_len read info iei len bytes e)
      | inl b ↦ elim (Result-cases (element l iei len info bytes)) [
        | inl (e, f) ↦ (_, round_err fuel l udh_len read info iei len bytes b f)
        | inr ((info', rest), f) ↦
            let (result, g) =
              elements_total fuel l udh_len (read + len + 2) info' rest (ground (arith, b)) in
            (result, round_ok fuel l udh_len read info iei len bytes b f ∙ g)
      ]
    ]

-- Parsing a header ends on every input, in either order of evaluation.
pub parse_udh_total :
    (left_first : Bool) (bytes : Bytes) (udh_len : ℕ)
    → (result : Result (UdhInfo × Bytes)) × (parse_udh left_first bytes udh_len ≡ some result)
unfolding parse_udh
parse_udh_total left_first bytes udh_len =
    elements_total (suc udh_len) left_first udh_len 0 _ bytes (omega arith)

-- Elements that are no concatenation, as identifier and payload, and their octets.
abbrev pub Others : List (ℕ × Bytes) → Type 0
Others = All (λ o. (o.0 ≢ 0) × (o.0 ≢ 8))

abbrev pub octets_of : List (ℕ × Bytes) → Bytes
octets_of [] = []
octets_of ((iei, payload) ∷ others) = iei ∷ length payload ∷ (payload ++ octets_of others)

other_element :
    (left_first : Bool) (iei : ℕ) (info : UdhInfo) (payload rest : Bytes)
    → iei ≢ 0
    → iei ≢ 8
    → element left_first iei (length payload) info (payload ++ rest) ≡ ok (info, rest)
unfolding element unknown_element advance
other_element l iei info payload rest n m =
    ground (arith, n, m, length-append payload rest, drop-append_length payload rest)

abbrev concatenation : UdhInfo → ℕ → ℕ → ℕ → UdhInfo
concatenation info ref total seq = record info {
  concat_ref = ref;
  concat_total = total;
  concat_seq = seq;
}

short_element :
    (left_first : Bool) (info : UdhInfo) (ref total seq : ℕ) (rest : Bytes)
    → element left_first 0 3 info (ref ∷ total ∷ seq ∷ rest)
      ≡ ok (concatenation info ref total seq, rest)
unfolding element short_reference advance
short_element l info ref total seq rest = ground arith

pub finished :
    (fuel : ℕ) (left_first : Bool) (udh_len ie_len_read : ℕ) (info : UdhInfo) (bytes : Bytes)
    → ltb ie_len_read udh_len ≡ false
    → elements (suc fuel) left_first udh_len ie_len_read info bytes ≡ some (ok (info, bytes))
unfolding elements
finished fuel l udh_len read info [] e = ground (arith, e)
finished fuel l udh_len read info (x ∷ []) e = ground (arith, e)
finished fuel l udh_len read info (x ∷ y ∷ bytes) e = ground (arith, e)

find_concatenation :
    (others : List (ℕ × Bytes)) (fuel : ℕ) (left_first : Bool) (ie_len_read : ℕ) (info : UdhInfo)
    (ref total seq udh_len : ℕ) (rest : Bytes)
    → Others others
    → udh_len ≡ ie_len_read + (length (octets_of others) + 5)
    → length (octets_of others) + 1 < fuel
    → elements fuel left_first udh_len ie_len_read info
        (octets_of others ++ 0 ∷ 3 ∷ ref ∷ total ∷ seq ∷ rest)
      ≡ some (ok (concatenation info ref total seq, rest))
find_concatenation [] (suc (suc fuel)) l read info ref total seq n rest h e f =
    round_ok (suc fuel) l n read info 0 3 _ (ground arith) (short_element l info ref total seq rest)
    ∙ finished fuel l n (read + 3 + 2) _ rest (ground arith)
find_concatenation ((iei, payload) ∷ others) (suc fuel) l read info ref total seq n rest ((a, b), h)
      e f =
    ap (elements (suc fuel) l n read info)
      (ap (λ t. iei ∷ length payload ∷ t) (append_assoc payload (octets_of others) _))
    ∙ round_ok fuel l n read info iei (length payload) _ (ground (arith, split))
        (other_element l iei info payload _ a b)
    ∙ find_concatenation others fuel l (read + length payload + 2) info ref total seq n rest h
        (omega (arith, split)) (omega (arith, split))
  where
    split : length (payload ++ octets_of others) ≡ length payload + length (octets_of others)
    split = length-append payload (octets_of others)
find_concatenation others zero l read info ref total seq n rest h e f = absurd (omega arith)
find_concatenation [] (suc zero) l read info ref total seq n rest h e f = absurd (ground arith)

-- A header of any elements that are no concatenation, followed by the 8-bit concatenation element
-- with its reference, total and number, is read completely: the parser finds exactly these three
-- values and stops right behind the header, whatever bytes follow.
pub parse_udh-concatenation :
    (left_first : Bool) (others : List (ℕ × Bytes)) (ref total seq : ℕ) (rest : Bytes)
    → Others others
    → parse_udh left_first
        (octets_of others ++ 0 ∷ 3 ∷ ref ∷ total ∷ seq ∷ rest)
        (length (octets_of others) + 5)
      ≡ some (
          ok (
            record { present = true; concat_ref = ref; concat_seq = seq; concat_total = total },
            rest,
          ))
unfolding parse_udh
parse_udh-concatenation l others ref total seq rest h =
    find_concatenation others (suc (length (octets_of others) + 5)) l 0 _ ref total seq
      (length (octets_of others) + 5) rest h (omega arith) (omega arith)
