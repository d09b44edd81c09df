-- ===== src/Ipc/Offsets.antt =====
-- The offset that a reader of src/common/ipc/ipc_serialization.h leaves, where it fails as well: it
-- stands behind what was read before the failure.
use sms_relay.Base.{ℕ, zero, suc, Bool, true, false, not, Option, none, some, Bytes, ◌==◌}
use sms_relay.Ipc.Wire.{deserialize_u8, deserialize_u32, deserialize_bytes}

abbrev then_read : {A : Type 0} → ℕ → Option (A × ℕ) → (A → ℕ → ℕ) → ℕ
then_read offset none next = offset
then_read offset (some (a, end)) next = next a end

-- Behind one value.
abbrev here : {A : Type 0} → A → ℕ → ℕ
here a offset = offset

unfoldable pub after_u8 : Bytes → ℕ → ℕ
after_u8 buffer offset = then_read offset (deserialize_u8 buffer offset) here

unfoldable pub after_u32 : Bytes → ℕ → ℕ
after_u32 buffer offset = then_read offset (deserialize_u32 buffer offset) here

-- A failure behind the length leaves the offset behind the length, for a string or a vector.
unfoldable pub after_bytes : Bytes → ℕ → ℕ
after_bytes buffer offset =
    then_read offset (deserialize_u32 buffer offset)
      (λ len o. then_read o (deserialize_bytes buffer (len, o)) here)

-- A string and what is read behind it.
then_str : Bytes → ℕ → (ℕ → ℕ) → ℕ
then_str buffer offset next =
    then_read offset (deserialize_u32 buffer offset)
      (λ len o. then_read o (deserialize_bytes buffer (len, o)) (λ text end. next end))

unfoldable pub after_parts : ℕ → Bytes → ℕ → ℕ
after_parts zero buffer offset = offset
after_parts (suc count) buffer offset = then_read offset (deserialize_u8 buffer offset) (λ index o₁.
    then_read o₁ (deserialize_u8 buffer o₁)
      (λ seq o₂. then_read o₂ (deserialize_u8 buffer o₂) (λ total o₃. after_parts count buffer o₃)))

unfoldable pub after_combined : Bool → Bytes → ℕ → ℕ
unfolding after_parts
after_combined true buffer offset =
    then_read offset (deserialize_u32 buffer offset) (λ count o. after_parts count buffer o)
after_combined false buffer offset = offset

unfoldable pub after_sms_info : Bytes → ℕ → ℕ
unfolding then_str after_combined
after_sms_info buffer offset =
    let byte = λ (o : ℕ). deserialize_u8 buffer o in
    then_read offset (byte offset) (λ index o₁. then_str buffer o₁ (λ o₂. then_str buffer o₂ (λ o₃.
      then_str buffer o₃ (λ o₄. then_read o₄ (byte o₄) (λ has_udh o₅.
        then_read o₅ (byte o₅) (λ concat_seq o₆. then_read o₆ (byte o₆) (λ concat_total o₇.
          then_read o₇ (byte o₇) (λ status o₈.
            then_read o₈ (byte o₈)
              (λ is_combined o₉. after_combined (not (is_combined == 0)) buffer o₉)))))))))
