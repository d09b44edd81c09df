-- ===== src/Ipc/Header.antt =====
-- The sixteen bytes in front of every request and every answer: `CommandHandler::parse_header` of
-- src/sms_relay_cli/main.cpp, which the server and the client repeat.
pub mod RoundTrip
use sms_relay.Base.{ℕ, Option, none, some, Bytes}
use sms_relay.Ipc.Wire.{deserialize_u32}
use sms_relay.Ipc.Payload.{◌>>=◌}

-- `code` is the command of a request and the status of an answer.
pub record Header : Type 0 where
  pub magic : ℕ
  pub length : ℕ
  pub code : ℕ
  pub sequence_id : ℕ

unfoldable pub parse_header : Bytes → Option (Header × ℕ)
parse_header response = do
  (magic, o₁) ← deserialize_u32 response 0
  (length, o₂) ← deserialize_u32 response o₁
  (code, o₃) ← deserialize_u32 response o₂
  (sequence_id, end) ← deserialize_u32 response o₃
  some (record { magic = magic; length = length; code = code; sequence_id = sequence_id }, end)
