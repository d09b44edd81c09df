-- ===== src/Config/Types.antt =====
-- The structures of src/common/app_config.h with their defaults.
use sms_relay.Base.{ℕ, Bool, true, false, List, [], Bytes}
use sms_relay.Base.Text.{codes}

-- `int`
pub data ℤ : Type 0 where
  pos negsuc : ℕ → ℤ

pub record SerialConfig : Type 0 where
  pub port : Bytes
  pub baudrate : ℕ

abbrev pub default_serial : SerialConfig
default_serial = record { port = codes "/dev/ttyUSB0"; baudrate = 115200 }

pub record SmsConfig : Type 0 where
  pub storage : Bytes
  pub auto_delete : Bool
  pub text_mode : Bool
  pub read_delay_ms : ℤ
  pub read_delay_long_ms : ℤ
  pub enable_cache : Bool

abbrev pub default_sms : SmsConfig
default_sms = record {
  storage = codes "ME";
  auto_delete = false;
  text_mode = false;
  read_delay_ms = pos 50;
  read_delay_long_ms = pos 100;
  enable_cache = true;
}

pub record BarkConfig : Type 0 where
  pub server : Bytes
  pub key : Bytes
  pub title : Bytes
  pub body : Bytes
  pub sound : Bytes
  pub icon : Bytes
  pub group : Bytes
  pub url : Bytes
  pub badge : ℤ
  pub level : Bytes
  pub timeout_ms : ℤ

abbrev pub default_bark : BarkConfig
default_bark = record {
  server = codes "https://api.day.app";
  key = [];
  title = codes "${sender}";
  body = codes "${text}";
  sound = codes "telegraphnotify";
  icon = [];
  group = codes "sms_relay";
  url = [];
  badge = pos 1;
  level = codes "active";
  timeout_ms = pos 5000;
}

pub record ForwardTargetConfig : Type 0 where
  pub type : Bytes
  pub enabled : Bool
  pub bark : BarkConfig

abbrev pub default_target : ForwardTargetConfig
default_target = record { type = []; enabled = true; bark = default_bark }

pub record ForwardConfig : Type 0 where
  pub enabled : Bool
  pub targets : List ForwardTargetConfig

abbrev pub default_forward : ForwardConfig
default_forward = record { enabled = false; targets = [] }

pub record IpcServerConfig : Type 0 where
  pub port : ℤ
  pub host : Bytes
  pub max_connections : ℤ

abbrev pub default_server : IpcServerConfig
default_server = record { port = pos 7896; host = codes "::1"; max_connections = pos 2 }

pub record AppConfig : Type 0 where
  pub serial : SerialConfig
  pub sms : SmsConfig
  pub forward : ForwardConfig
  pub ipc_server : IpcServerConfig

abbrev pub default_app : AppConfig
default_app = record {
  serial = default_serial;
  sms = default_sms;
  forward = default_forward;
  ipc_server = default_server;
}
