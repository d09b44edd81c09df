-- ===== src/Ipc/Protocol.antt =====
-- The types of src/common/ipc/ipc_protocol.h. A number stands for a fixed width; the laws say
-- where its range matters.
use sms_relay.Base.{ℕ, Bool, List, Bytes}

abbrev pub ipc_magic : ℕ
ipc_magic = 0x534D534D

pub data CommandType : Type 0 where
  list_sms read_sms delete_sms send_sms status shutdown : CommandType

unfoldable pub command_code : CommandType → ℕ
command_code CommandType.list_sms = 1
command_code CommandType.read_sms = 2
command_code CommandType.delete_sms = 3
command_code CommandType.send_sms = 4
command_code CommandType.status = 5
command_code CommandType.shutdown = 99

pub data Status : Type 0 where
  success failed timeout not_found invalid_args : Status

unfoldable pub status_code : Status → ℕ
status_code Status.success = 0
status_code Status.failed = 1
status_code Status.timeout = 2
status_code Status.not_found = 3
status_code Status.invalid_args = 4

pub record ListSmsRequest : Type 0 where
  pub status : Bytes

pub record ReadSmsRequest : Type 0 where
  pub indices : Bytes

pub record DeleteSmsRequest : Type 0 where
  pub indices : Bytes

pub record SendSmsRequest : Type 0 where
  pub recipient : Bytes
  pub text : Bytes

pub record SmsPartInfo : Type 0 where
  pub index : ℕ
  pub seq : ℕ
  pub total : ℕ

pub record SmsInfo : Type 0 where
  pub index : ℕ
  pub sender : Bytes
  pub text : Bytes
  pub timestamp : Bytes
  pub has_udh : Bool
  pub concat_seq : ℕ
  pub concat_total : ℕ
  pub status : ℕ
  pub is_combined : Bool
  pub parts : List SmsPartInfo
