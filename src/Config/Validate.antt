-- ===== src/Config/Validate.antt =====
-- The validation functions of src/common/config_loader.cpp. A function that returns throws nothing;
-- warnings on the error stream and the texts of the exceptions are left out.
use sms_relay.Base.{
  ℕ, Bool, true, false, not, ◌&&◌, ◌||◌, List, [], ◌∷◌, Bytes, drop, ltb, ◌==◌, if◌then◌else◌,
}
use sms_relay.Base.Result.{Result, ok, err, runtime_error, ◌>>=◌}
use sms_relay.Base.Text.{codes, starts_with, bytes_eq}
use sms_relay.Config.Types.{
  ℤ, pos, negsuc, SerialConfig, SmsConfig, BarkConfig, ForwardTargetConfig, ForwardConfig,
  IpcServerConfig, AppConfig,
}

-- What a function without a result returns.
abbrev pub Done : Type 0
Done = Unit

abbrev pub is_empty : Bytes → Bool
is_empty [] = true
is_empty (c ∷ s) = false

-- `if (refused) throw std::runtime_error(...)`
abbrev pub refuse : Bool → Result Done
refuse true = err runtime_error
refuse false = ok tt

-- `n < low || n > high`
abbrev pub outside : ℕ → ℕ → ℤ → Bool
outside low high (pos n) = ltb n low || ltb high n
outside low high (negsuc n) = true

unfoldable pub validate_serial_config : SerialConfig → Result Done
validate_serial_config config = refuse (is_empty config.port) >>= λ done.
    refuse (ltb config.baudrate 9600 || ltb 4000000 config.baudrate)

unfoldable pub validate_sms_config : SmsConfig → Result Done
validate_sms_config config = refuse (outside 0 10000 config.read_delay_ms) >>= λ done.
    refuse (outside 0 60000 config.read_delay_long_ms)

-- `.` matches any character that does not end a line.
unfoldable pub some_character : Bytes → Bool
some_character [] = false
some_character (c ∷ s) = not (c == 10 || c == 13)

-- The regular expression `^(https?://).+`.
unfoldable pub matches_url : Bytes → Bool
unfolding some_character starts_with
matches_url url =
    (starts_with url (codes "http://") && some_character (drop 7 url))
    || (starts_with url (codes "https://") && some_character (drop 8 url))

unfoldable pub validate_url : Bytes → Result Done
unfolding matches_url
validate_url url = refuse (is_empty url) >>= λ done. refuse (not (matches_url url))

unfoldable pub validate_optional_url : Bytes → Result Done
unfolding validate_url
validate_optional_url url = if not (is_empty url) then validate_url url else ok tt

unfoldable pub validate_bark_config : BarkConfig → Result Done
unfolding validate_url validate_optional_url
validate_bark_config config = refuse (is_empty config.key) >>= λ key.
    validate_url config.server >>= λ server.
    refuse (outside 100 60000 config.timeout_ms) >>= λ timeout.
    validate_optional_url config.url >>= λ url. validate_optional_url config.icon

unfoldable pub validate_forward_target_config : ForwardTargetConfig → Result Done
unfolding validate_bark_config bytes_eq
validate_forward_target_config config = refuse (is_empty config.type) >>= λ type.
    if config.enabled
    then (if bytes_eq config.type (codes "bark") then validate_bark_config config.bark else ok tt)
    else ok tt

-- The loop over the targets: whether one of them is enabled.
unfoldable pub validate_targets : List ForwardTargetConfig → Result Bool
unfolding validate_forward_target_config
validate_targets [] = ok false
validate_targets (target ∷ targets) =
    let rest = validate_targets targets in
    if target.enabled
    then (validate_forward_target_config target >>= λ done. rest >>= λ enabled. ok true)
    else rest

abbrev pub no_targets : List ForwardTargetConfig → Bool
no_targets [] = true
no_targets (target ∷ targets) = false

unfoldable pub validate_forward_config : ForwardConfig → Result Done
unfolding validate_targets
validate_forward_config config =
    if not config.enabled
    then ok tt
    else refuse (no_targets config.targets) >>= λ done.
        validate_targets config.targets >>= λ has_enabled_target. refuse (not has_enabled_target)

unfoldable pub validate_ipc_server_config : IpcServerConfig → Result Done
validate_ipc_server_config config =
    refuse (outside 1024 65535 config.port) >>= λ done. refuse (is_empty config.host)

unfoldable pub validate_app_config : AppConfig → Result Done
unfolding validate_serial_config validate_sms_config validate_forward_config
    validate_ipc_server_config
validate_app_config config = validate_serial_config config.serial >>= λ serial.
    validate_sms_config config.sms >>= λ sms. validate_forward_config config.forward >>= λ forward.
    validate_ipc_server_config config.ipc_server
