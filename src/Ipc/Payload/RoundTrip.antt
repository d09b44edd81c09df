-- ===== src/Ipc/Payload/RoundTrip.antt =====
-- `serialize_sms_info` against `deserialize_sms_info` of src/common/ipc/ipc_serialization.h.
use sms_relay.Base.{
  ℕ, ◌+◌, ◌%◌, ◌^◌, ◌<◌, Bool, true, false, not, ◌≡◌, refl, ap, ◌∙◌, sym, Option, some, List, [],
  ◌∷◌, ◌++◌, append_assoc, Bytes, length, drop, ◌==◌, arith,
}
use sms_relay.Ipc.Protocol.{SmsPartInfo, SmsInfo}
use sms_relay.Ipc.Wire.{serialize_u8, serialize_u32, serialize_str}
use sms_relay.Ipc.Wire.RoundTrip.{
  Fits, deserialize-serialize_u8, deserialize-serialize_u32, deserialize-serialize_str,
}
use sms_relay.Ipc.Payload.{
  of_bool, serialize_parts, serialize_combined, serialize_sms_info, deserialize_parts,
  deserialize_combined, deserialize_sms_info,
}

-- `e` regrouped: a piece in front of all that follows it.
split :
    (buffer : Bytes) (offset : ℕ) (a b rest : Bytes)
    → drop offset buffer ≡ (a ++ b) ++ rest
    → drop offset buffer ≡ a ++ (b ++ rest)
split buffer offset a b rest e = e ∙ append_assoc a b rest

-- Where a reader of `enc` stops, and that it returns `v` there.
abbrev Reads : {A : Type 0} → (Bytes → ℕ → Option (A × ℕ)) → Bytes → ℕ → Bytes → A → Type 0
Reads reader buffer offset rest v =
    (end : ℕ) × (reader buffer offset ≡ some (v, end)) × (drop end buffer ≡ rest)

parts_back :
    (parts : List SmsPartInfo) (buffer : Bytes) (offset : ℕ) (rest : Bytes)
    → Fits buffer
    → drop offset buffer ≡ serialize_parts parts ++ rest
    → Reads (deserialize_parts (length parts)) buffer offset rest parts
unfolding serialize_parts deserialize_parts
parts_back [] buffer offset rest f e = (offset, refl, e)
parts_back (p ∷ parts) buffer offset rest f e =
    let (a₁, e₁) =
      deserialize-serialize_u8 buffer offset p.index _ f
        (split buffer offset (serialize_u8 p.index) _ rest e) in
    let (a₂, e₂) =
      deserialize-serialize_u8 buffer _ p.seq _ f (split buffer _ (serialize_u8 p.seq) _ rest e₁) in
    let (a₃, e₃) =
      deserialize-serialize_u8 buffer _ p.total _ f
        (split buffer _ (serialize_u8 p.total) _ rest e₂) in
    let (end, a₄, e₄) = parts_back parts buffer _ rest f e₃ in
    (end, ground (arith, a₁, a₂, a₃, a₄), e₄)

combined_back :
    (combined : Bool) (parts : List SmsPartInfo) (buffer : Bytes) (offset : ℕ) (rest : Bytes)
    → Fits buffer
    → length parts < 2 ^ 32
    → (combined ≡ false → parts ≡ [])
    → drop offset buffer ≡ serialize_combined combined parts ++ rest
    → Reads (deserialize_combined combined) buffer offset rest parts
unfolding serialize_combined deserialize_combined
combined_back false parts buffer offset rest f h none_there e =
    (offset, ap (λ p. some (p, offset)) (sym (none_there refl)), e)
combined_back true parts buffer offset rest f h _ e =
    let size : length parts % 2 ^ 32 ≡ length parts = omega arith in
    let (a, e₁, inside) =
      deserialize-serialize_u32 buffer offset (length parts % 2 ^ 32) _ f (omega arith)
        (split buffer offset (serialize_u32 (length parts % 2 ^ 32)) _ rest e) in
    let (end, b, e₂) = parts_back parts buffer (offset + 4) rest f e₁ in
    (end, ground (arith, a, b, size), e₂)

of_bool_back : (b : Bool) → not (of_bool b == 0) ≡ b
of_bool_back true = refl
of_bool_back false = refl

-- What the wire format can carry.
pub record IsSendable (info : SmsInfo) : Type 0 where
  pub sender_length : length info.sender < 2 ^ 32
  pub text_length : length info.text < 2 ^ 32
  pub timestamp_length : length info.timestamp < 2 ^ 32
  pub parts_length : length info.parts < 2 ^ 32
  pub parts_combined : info.is_combined ≡ false → info.parts ≡ []

-- A message that the format can carry, serialised anywhere in a buffer, is read back there field
-- by field, and the reader stops right behind it.
pub deserialize-serialize_sms_info :
    (info : SmsInfo) (buffer : Bytes) (offset : ℕ) (rest : Bytes)
    → Fits buffer
    → IsSendable info
    → drop offset buffer ≡ serialize_sms_info info ++ rest
    → (end : ℕ) × (deserialize_sms_info buffer offset ≡ some (info, end)) × (drop end buffer ≡ rest)
unfolding serialize_sms_info deserialize_sms_info
deserialize-serialize_sms_info i buffer offset rest f v e =
    let (a₁, e₁) =
      deserialize-serialize_u8 buffer offset i.index _ f
        (split buffer offset (serialize_u8 i.index) _ rest e) in
    let (a₂, e₂) =
      deserialize-serialize_str buffer _ i.sender _ f v.sender_length
        (split buffer _ (serialize_str i.sender) _ rest e₁) in
    let (a₃, e₃) =
      deserialize-serialize_str buffer _ i.text _ f v.text_length
        (split buffer _ (serialize_str i.text) _ rest e₂) in
    let (a₄, e₄) =
      deserialize-serialize_str buffer _ i.timestamp _ f v.timestamp_length
        (split buffer _ (serialize_str i.timestamp) _ rest e₃) in
    let (a₅, e₅) =
      deserialize-serialize_u8 buffer _ (of_bool i.has_udh) _ f
        (split buffer _ (serialize_u8 (of_bool i.has_udh)) _ rest e₄) in
    let (a₆, e₆) =
      deserialize-serialize_u8 buffer _ i.concat_seq _ f
        (split buffer _ (serialize_u8 i.concat_seq) _ rest e₅) in
    let (a₇, e₇) =
      deserialize-serialize_u8 buffer _ i.concat_total _ f
        (split buffer _ (serialize_u8 i.concat_total) _ rest e₆) in
    let (a₈, e₈) =
      deserialize-serialize_u8 buffer _ i.status _ f
        (split buffer _ (serialize_u8 i.status) _ rest e₇) in
    let (a₉, e₉) =
      deserialize-serialize_u8 buffer _ (of_bool i.is_combined) _ f
        (split buffer _ (serialize_u8 (of_bool i.is_combined)) _ rest e₈) in
    let (end, b, e') =
      combined_back i.is_combined i.parts buffer _ rest f v.parts_length v.parts_combined e₉ in
    (
      end,
      ground (
        arith,
        a₁,
        a₂,
        a₃,
        a₄,
        a₅,
        a₆,
        a₇,
        a₈,
        a₉,
        b,
        of_bool_back i.has_udh,
        of_bool_back i.is_combined,
      ),
      e',
    )
