-- ===== src/Ipc/Header/RoundTrip.antt =====
-- A header, read back, and the messages it stands in front of.
use sms_relay.Base.{
  ℕ, ◌<◌, ◌^◌, ◌≡◌, refl, sym, ap, ◌∙◌, some, ◌++◌, append_assoc, drop-append_length, Bytes, length,
  drop, arith,
}
use sms_relay.Ipc.Protocol.{ipc_magic, CommandType, command_code, Status, status_code}
use sms_relay.Ipc.Wire.{size_u32, serialize_u32, serialize_request, serialize_response}
use sms_relay.Ipc.Wire.RoundTrip.{Fits, deserialize-serialize_u32}
use sms_relay.Ipc.Header.{Header, parse_header}

unfoldable pub header_bytes : Header → Bytes
header_bytes h =
    serialize_u32 h.magic
    ++ (serialize_u32 h.length ++ (serialize_u32 h.code ++ serialize_u32 h.sequence_id))

abbrev pub header_of : ℕ → ℕ → Bytes → Header
header_of code seq payload = record {
  magic = ipc_magic;
  length = size_u32 payload;
  code = code;
  sequence_id = seq;
}

-- Header and payload, whatever stands for the code.
unfoldable pub message : ℕ → ℕ → Bytes → Bytes
message code seq payload = header_bytes (header_of code seq payload) ++ payload

pub request-message :
    (cmd : CommandType) (seq : ℕ) (payload : Bytes)
    → serialize_request cmd seq payload ≡ message (command_code cmd) seq payload
unfolding serialize_request message header_bytes serialize_u32
request-message cmd seq payload = refl

pub response-message :
    (status : Status) (seq : ℕ) (payload : Bytes)
    → serialize_response status seq payload ≡ message (status_code status) seq payload
unfolding serialize_response message header_bytes serialize_u32
response-message status seq payload = refl

pub length-header_bytes : (h : Header) → length (header_bytes h) ≡ 16
unfolding header_bytes serialize_u32
length-header_bytes h = omega arith

-- Four numbers that 32 bits can hold.
pub record Is32Bit (h : Header) : Type 0 where
  pub magic_bound : h.magic < 2 ^ 32
  pub length_bound : h.length < 2 ^ 32
  pub code_bound : h.code < 2 ^ 32
  pub sequence_id_bound : h.sequence_id < 2 ^ 32

pub parse_header-bytes :
    (h : Header) (rest : Bytes)
    → Is32Bit h
    → Fits (header_bytes h ++ rest)
    → parse_header (header_bytes h ++ rest) ≡ some (h, 16)
unfolding parse_header header_bytes
parse_header-bytes h rest b f =
    let buffer = header_bytes h ++ rest in
    let c = serialize_u32 h.code ++ serialize_u32 h.sequence_id in
    let (a₁, e₁, _) =
      deserialize-serialize_u32 buffer 0 h.magic _ f b.magic_bound
        (append_assoc (serialize_u32 h.magic) (serialize_u32 h.length ++ c) rest) in
    let (a₂, e₂, _) =
      deserialize-serialize_u32 buffer 4 h.length _ f b.length_bound
        (e₁ ∙ append_assoc (serialize_u32 h.length) c rest) in
    let (a₃, e₃, _) =
      deserialize-serialize_u32 buffer 8 h.code _ f b.code_bound
        (e₂ ∙ append_assoc (serialize_u32 h.code) (serialize_u32 h.sequence_id) rest) in
    let (a₄, e₄, _) =
      deserialize-serialize_u32 buffer 12 h.sequence_id _ f b.sequence_id_bound e₃ in
    ground (arith, a₁, a₂, a₃, a₄)

pub header_of-Is32Bit :
    (code seq : ℕ) (payload : Bytes)
    → code < 2 ^ 32
    → seq < 2 ^ 32
    → Is32Bit (header_of code seq payload)
header_of-Is32Bit code seq payload c s = record {
  magic_bound = omega arith;
  length_bound = omega arith;
  code_bound = c;
  sequence_id_bound = s;
}

-- A message at the front of a buffer: its header, and where its payload stands.
pub parse_header-message :
    (code seq : ℕ) (payload rest : Bytes)
    → code < 2 ^ 32
    → seq < 2 ^ 32
    → Fits (message code seq payload ++ rest)
    → (parse_header (message code seq payload ++ rest) ≡ some (header_of code seq payload, 16))
      × (drop 16 (message code seq payload ++ rest) ≡ payload ++ rest)
unfolding message
parse_header-message code seq payload rest c s f =
    let h = header_of code seq payload in
    let e : message code seq payload ++ rest ≡ header_bytes h ++ (payload ++ rest) =
      append_assoc (header_bytes h) payload rest in
    (
      ap parse_header e
          ∙ parse_header-bytes h (payload ++ rest) (header_of-Is32Bit code seq payload c s)
              (omega (arith, ap length e)),
      ap (drop 16) e ∙ behind h (payload ++ rest),
    )
  where
    behind : (h : Header) (rest : Bytes) → drop 16 (header_bytes h ++ rest) ≡ rest
    behind h rest =
        ap (λ n. drop n (header_bytes h ++ rest)) (sym (length-header_bytes h))
        ∙ drop-append_length (header_bytes h) rest

pub status_code-small : (status : Status) → status_code status < 2 ^ 32
unfolding status_code
status_code-small Status.success = omega arith
status_code-small Status.failed = omega arith
status_code-small Status.timeout = omega arith
status_code-small Status.not_found = omega arith
status_code-small Status.invalid_args = omega arith
