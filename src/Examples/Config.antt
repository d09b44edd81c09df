-- ===== src/Examples/Config.antt =====
-- A configuration file with no entries.
use sms_relay.Base.{◌≡◌, ◌↔◌, refl, false, none, [], Bytes}
use sms_relay.Base.Result.{ok, err, bad_number}
use sms_relay.Config.Types.{default_app}
use sms_relay.Config.Load.{Yaml, field, parse_app_config, load_config}
use sms_relay.Config.Valid.{IsValid}
use sms_relay.Config.Valid.Loaded.{IsParsed, load_config_iff}
use sms_relay.Config.Validate.{
  validate_app_config, validate_serial_config, validate_sms_config, validate_forward_config,
  validate_ipc_server_config,
}

-- A library for which every file is an empty map.
abbrev empty_yaml : Yaml Bytes
empty_yaml = record {
  load_file = λ path. ok path;
  get = λ node key. ok none;
  as_string = λ node. ok node;
  as_bool = λ node. ok false;
  as_int = λ node. err bad_number;
  as_uint32 = λ node. err bad_number;
  is_sequence = λ node. false;
  elements = λ node. [];
}

load_config_iff_example :
    (load_config empty_yaml [] ≡ ok default_app)
    ↔ (IsParsed empty_yaml [] default_app × IsValid default_app)
load_config_iff_example = load_config_iff empty_yaml [] default_app

-- The defaults pass.
defaults_pass : load_config empty_yaml [] ≡ ok default_app
unfolding load_config parse_app_config field validate_app_config validate_serial_config
    validate_sms_config validate_forward_config validate_ipc_server_config
defaults_pass = refl
