-- ===== src/Cli/Commands/Readers.antt =====
-- The messages of an answer, read back by the client.
use sms_relay.Base.{
  ℕ, ◌≡◌, refl, ap, ◌∙◌, List, [], ◌∷◌, ◌++◌, append_assoc, All, Bytes, length, drop,
}
use sms_relay.Ipc.Protocol.{SmsInfo}
use sms_relay.Ipc.Wire.RoundTrip.{Fits}
use sms_relay.Ipc.Payload.{serialize_sms_info}
use sms_relay.Ipc.Payload.RoundTrip.{IsSendable, deserialize-serialize_sms_info}
use sms_relay.Ipc.Server.{serialize_infos}
use sms_relay.Cli.Responses.{read_infos}

-- Messages serialised one after the other anywhere in a buffer.
pub read_infos-serialize_infos :
    (infos : List SmsInfo) (buffer : Bytes) (offset : ℕ) (rest : Bytes)
    → Fits buffer
    → All IsSendable infos
    → drop offset buffer ≡ serialize_infos infos ++ rest
    → read_infos (length infos) buffer offset ≡ infos
unfolding read_infos serialize_infos
read_infos-serialize_infos [] buffer offset rest f h e = refl
read_infos-serialize_infos (info ∷ infos) buffer offset rest f (h, hs) e =
    let (end, got, left) =
      deserialize-serialize_sms_info info buffer offset (serialize_infos infos ++ rest) f h
        (e ∙ append_assoc (serialize_sms_info info) (serialize_infos infos) rest) in
    rw (got, read_infos)
      (ap (◌∷◌ info) (read_infos-serialize_infos infos buffer end rest f hs left))
