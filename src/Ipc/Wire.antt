-- ===== src/Ipc/Wire.antt =====
-- `IpcSerializer` of src/common/ipc/ipc_serialization.h. A reader takes the buffer and the offset
-- and returns the value and the new offset; `none` is the result `false`.
pub mod RoundTrip
use sms_relay.Base.{
  ℕ, ◌+◌, ◌*◌, ◌/◌, ◌%◌, ◌^◌, bit_and, bit_or, Option, none, some, [], ◌∷◌, ◌++◌, Bytes, length,
  take, drop, get_or, ltb, leb, if◌then◌else◌,
}
use sms_relay.Ipc.Protocol.{ipc_magic, CommandType, command_code, Status, status_code}

unfoldable pub serialize_u32 : ℕ → Bytes
serialize_u32 value =
    bit_and (value / 2 ^ 24) 255
    ∷ bit_and (value / 2 ^ 16) 255
    ∷ bit_and (value / 2 ^ 8) 255
    ∷ bit_and value 255
    ∷ []

unfoldable pub serialize_u8 : ℕ → Bytes
serialize_u8 value = value ∷ []

-- `static_cast<uint32_t>(str.size())`
abbrev pub size_u32 : Bytes → ℕ
size_u32 bytes = length bytes % 2 ^ 32

unfoldable pub serialize_str : Bytes → Bytes
serialize_str str = serialize_u32 (size_u32 str) ++ str

unfoldable pub serialize_vec : Bytes → Bytes
serialize_vec vec = serialize_u32 (size_u32 vec) ++ vec

-- `size_t` addition.
abbrev pub add_size : ℕ → ℕ → ℕ
add_size a b = (a + b) % 2 ^ 64

-- Four bytes from an offset on, most significant first.
unfoldable pub join_u32 : ℕ → ℕ → ℕ → ℕ → ℕ
join_u32 a b c d = bit_or (bit_or (bit_or (a * 2 ^ 24) (b * 2 ^ 16)) (c * 2 ^ 8)) d

unfoldable pub deserialize_u32 : Bytes → ℕ → Option (ℕ × ℕ)
deserialize_u32 buffer offset =
    if ltb (length buffer) (add_size offset 4)
    then none
    else some (
      join_u32 (get_or buffer offset 0) (get_or buffer (add_size offset 1) 0)
          (get_or buffer (add_size offset 2) 0) (get_or buffer (add_size offset 3) 0),
      add_size offset 4,
    )

unfoldable pub deserialize_u8 : Bytes → ℕ → Option (ℕ × ℕ)
deserialize_u8 buffer offset =
    if leb (length buffer) offset then none else some (get_or buffer offset 0, add_size offset 1)

-- The bytes that a length prefix announces; `deserialize_str` and `deserialize_vec` read alike.
unfoldable pub deserialize_bytes : Bytes → ℕ × ℕ → Option (Bytes × ℕ)
deserialize_bytes buffer (len, offset) =
    if ltb (length buffer) (add_size offset len)
    then none
    else some (take len (drop offset buffer), add_size offset len)

unfoldable pub deserialize_str : Bytes → ℕ → Option (Bytes × ℕ)
deserialize_str buffer offset = elim (deserialize_u32 buffer offset) [
  | none ↦ none
  | some header ↦ deserialize_bytes buffer header
]

unfoldable pub deserialize_vec : Bytes → ℕ → Option (Bytes × ℕ)
deserialize_vec buffer offset = elim (deserialize_u32 buffer offset) [
  | none ↦ none
  | some header ↦ deserialize_bytes buffer header
]

unfoldable pub serialize_request : CommandType → ℕ → Bytes → Bytes
serialize_request cmd seq payload =
    serialize_u32 ipc_magic
    ++ (serialize_u32 (size_u32 payload)
        ++ (serialize_u32 (command_code cmd) ++ (serialize_u32 seq ++ payload)))

unfoldable pub serialize_response : Status → ℕ → Bytes → Bytes
serialize_response status seq payload =
    serialize_u32 ipc_magic
    ++ (serialize_u32 (size_u32 payload)
        ++ (serialize_u32 (status_code status) ++ (serialize_u32 seq ++ payload)))
