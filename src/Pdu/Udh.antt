-- ===== src/Pdu/Udh.antt =====
-- The user data header: `parse_udh` of src/common/pdu/pdu.cpp.
pub mod Elements
use sms_relay.Base.{
  ℕ, zero, suc, ◌+◌, ◌-◌, ◌*◌, ◌^◌, Bool, true, false, ◌&&◌, bit_or, Option, none, some, [], ◌∷◌,
  Bytes, length, drop, ltb, leb, ◌==◌, if◌then◌else◌,
}
use sms_relay.Base.Result.{Result, ok, err, fault, ◌>>=◌}
use sms_relay.Pdu.Address.{next_octet}

pub record UdhInfo : Type 0 where
  pub present : Bool
  pub concat_ref : ℕ
  pub concat_seq : ℕ
  pub concat_total : ℕ

-- `it += count`
unfoldable pub advance : ℕ → Bytes → Result Bytes
advance count bytes = if ltb (length bytes) count then err fault else ok (drop count bytes)

-- The 8-bit concatenation element, behind its length.
unfoldable pub short_reference : UdhInfo → ℕ → Bytes → Result (UdhInfo × Bytes)
unfolding advance
short_reference info len bytes = do
  (ref, b₁) ← next_octet bytes
  (total, b₂) ← next_octet b₁
  (seq, b₃) ← next_octet b₂
  rest ← advance (len - 3) b₃
  ok (record info { concat_ref = ref; concat_total = total; concat_seq = seq }, rest)

-- The 16-bit one. C++ does not order the two reads of `(*it++ << 8) | *it++`: `left_first` says
-- which the compiler makes first.
unfoldable pub long_reference : Bool → UdhInfo → ℕ → Bytes → Result (UdhInfo × Bytes)
unfolding advance
long_reference left_first info len bytes = do
  (x, b₁) ← next_octet bytes
  (y, b₂) ← next_octet b₁
  (total, b₃) ← next_octet b₂
  (seq, b₄) ← next_octet b₃
  rest ← advance (len - 4) b₄
  ok (
    record info {
      concat_ref = if left_first then bit_or (x * 2 ^ 8) y else bit_or (y * 2 ^ 8) x;
      concat_total = total;
      concat_seq = seq;
    },
    rest,
  )

unfoldable pub unknown_element : UdhInfo → ℕ → Bytes → Result (UdhInfo × Bytes)
unfolding advance
unknown_element info len bytes = do rest ← advance len bytes; ok (info, rest)

-- One element behind its identifier and length.
unfoldable pub element : Bool → ℕ → ℕ → UdhInfo → Bytes → Result (UdhInfo × Bytes)
unfolding short_reference long_reference unknown_element
element left_first iei len info bytes =
    if iei == 0x00 && leb 3 len
    then short_reference info len bytes
    else if iei == 0x08 && leb 4 len
    then long_reference left_first info len bytes
    else unknown_element info len bytes

-- The loop; `none` is out of fuel.
unfoldable pub elements : ℕ → Bool → ℕ → ℕ → UdhInfo → Bytes → Option (Result (UdhInfo × Bytes))
elements zero left_first udh_len ie_len_read info bytes = none
elements (suc fuel) left_first udh_len ie_len_read info [] =
    if ltb ie_len_read udh_len then some (err fault) else some (ok (info, []))
elements (suc fuel) left_first udh_len ie_len_read info (iei ∷ []) =
    if ltb ie_len_read udh_len then some (err fault) else some (ok (info, iei ∷ []))
elements (suc fuel) left_first udh_len ie_len_read info (iei ∷ len ∷ bytes) =
    if ltb ie_len_read udh_len
    then elim (element left_first iei len info bytes) [
      | err e ↦ some (err e)
      | ok (info', rest) ↦ elements fuel left_first udh_len (ie_len_read + len + 2) info' rest
    ]
    else some (ok (info, iei ∷ len ∷ bytes))

-- A round counts two octets at least, so `udh_len + 1` rounds are enough.
unfoldable pub parse_udh : Bool → Bytes → ℕ → Option (Result (UdhInfo × Bytes))
unfolding elements element
parse_udh left_first bytes udh_len =
    elements (suc udh_len) left_first udh_len 0
      (record { present = true; concat_ref = 0; concat_seq = 0; concat_total = 0 }) bytes
