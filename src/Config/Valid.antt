-- ===== src/Config/Valid.antt =====
-- The configurations that the loader of src/common/config_loader.cpp accepts.
pub mod Urls
pub mod Targets
pub mod Loaded
use sms_relay.Base.{
  ℕ, ◌+◌, ◌≤◌, ◌<◌, ◌≡◌, ◌≢◌, ◌↔◌, ◌⊎◌, refl, sym, ap, ◌∙◌, Bool, true, false, not, ◌&&◌, ◌||◌,
  List, [], ◌∷◌, ◌++◌, Bytes, drop, drop-append_length, length, ltb, ◌==◌, if◌then◌else◌, inl, inr,
  arith, Bool-cases,
}
use sms_relay.Base.Result.{Result, Error, ok, err, runtime_error, ◌>>=◌, Result-cases}
use sms_relay.Base.Text.{codes, starts_with, starts_with-append, bytes_eq, bytes_eq_iff}
use sms_relay.Config.Types.{
  ℤ, pos, negsuc, SerialConfig, SmsConfig, BarkConfig, ForwardTargetConfig, ForwardConfig,
  IpcServerConfig, AppConfig,
}
use sms_relay.Config.Validate.{
  Done, is_empty, no_targets, refuse, outside, validate_serial_config, validate_sms_config,
  some_character, matches_url, validate_url, validate_optional_url, validate_bark_config,
  validate_forward_target_config, validate_targets, validate_forward_config,
  validate_ipc_server_config, validate_app_config,
}
use sms_relay.Config.Load.{Yaml, parse_app_config, rethrown, load_config}

-- A number from `low` to `high`.
abbrev pub IsWithin : ℕ → ℕ → ℤ → Type 0
IsWithin low high (pos n) = (low ≤ n) × (n ≤ high)
IsWithin low high (negsuc n) = ⊥

abbrev pub IsSerial : SerialConfig → Type 0
IsSerial config = (config.port ≢ []) × ((9600 ≤ config.baudrate) × (config.baudrate ≤ 4000000))

abbrev pub IsSms : SmsConfig → Type 0
IsSms config = IsWithin 0 10000 config.read_delay_ms × IsWithin 0 60000 config.read_delay_long_ms

-- A scheme with a character behind it that does not end a line.
abbrev pub HasPrefix : Bytes → Bytes → Type 0
HasPrefix scheme url = (c : ℕ) × (rest : Bytes) × ((c ≢ 10) × (c ≢ 13)) × (url ≡ scheme ++ c ∷ rest)

abbrev pub IsUrl : Bytes → Type 0
IsUrl url = HasPrefix (codes "http://") url ⊎ HasPrefix (codes "https://") url

abbrev pub IsBark : BarkConfig → Type 0
IsBark config =
    (config.key ≢ [])
    × (IsUrl config.server
        × (IsWithin 100 60000 config.timeout_ms
            × (((config.url ≡ []) ⊎ IsUrl config.url) × ((config.icon ≡ []) ⊎ IsUrl config.icon))))

abbrev pub IsTarget : ForwardTargetConfig → Type 0
IsTarget target = (target.type ≢ []) × (target.type ≡ codes "bark" → IsBark target.bark)

-- Every enabled target is valid, and there is one.
abbrev pub AreTargets : List ForwardTargetConfig → Type 0
AreTargets [] = Unit
AreTargets (target ∷ targets) = (target.enabled ≡ true → IsTarget target) × AreTargets targets

abbrev pub SomeEnabled : List ForwardTargetConfig → Type 0
SomeEnabled [] = ⊥
SomeEnabled (target ∷ targets) = (target.enabled ≡ true) ⊎ SomeEnabled targets

abbrev pub IsForward : ForwardConfig → Type 0
IsForward config = config.enabled ≡ true → AreTargets config.targets × SomeEnabled config.targets

abbrev pub IsServer : IpcServerConfig → Type 0
IsServer config = IsWithin 1024 65535 config.port × (config.host ≢ [])

abbrev pub IsValid : AppConfig → Type 0
IsValid config =
    IsSerial config.serial
    × (IsSms config.sms × (IsForward config.forward × IsServer config.ipc_server))

pub is_empty_iff : (s : Bytes) → (is_empty s ≡ false) ↔ (s ≢ [])
is_empty_iff [] = ground arith
is_empty_iff (c ∷ s) = ground arith

pub outside_iff : (low high : ℕ) (z : ℤ) → (outside low high z ≡ false) ↔ IsWithin low high z
outside_iff low high (pos n) = ground arith
outside_iff low high (negsuc n) = ground arith

-- Code that throws or returns, as a condition.
pub refuse_iff : (b : Bool) → (refuse b ≡ ok tt) ↔ (b ≡ false)
refuse_iff true = ground arith
refuse_iff false = ground arith

pub then_iff :
    {P Q : Type 0} (first : Result Done) (second : Result Done)
    → (first ≡ ok tt) ↔ P
    → (second ≡ ok tt) ↔ Q
    → ((first >>= λ done. second) ≡ ok tt) ↔ (P × Q)
then_iff (ok tt) second h h' = ((λ e. (h.0 refl, h'.0 e)), λ p. h'.1 p.1)
then_iff (err x) second h h' = ((λ e. ground (arith, e)), λ p. ground (arith, h.1 p.0))

pub iff_trans : {P Q R : Type 0} → P ↔ Q → Q ↔ R → P ↔ R
iff_trans h h' = ((λ p. h'.0 (h.0 p)), λ r. h.1 (h'.1 r))

pub refused_iff : {P : Type 0} (b : Bool) → (b ≡ false) ↔ P → (refuse b ≡ ok tt) ↔ P
refused_iff b h = iff_trans (refuse_iff b) h

pub validate_serial_config_iff :
    (config : SerialConfig) → (validate_serial_config config ≡ ok tt) ↔ IsSerial config
unfolding validate_serial_config
validate_serial_config_iff config =
    then_iff (refuse (is_empty config.port)) _
      (refused_iff (is_empty config.port) (is_empty_iff config.port))
      (refused_iff (ltb config.baudrate 9600 || ltb 4000000 config.baudrate) (ground arith))

pub validate_sms_config_iff :
    (config : SmsConfig) → (validate_sms_config config ≡ ok tt) ↔ IsSms config
unfolding validate_sms_config
validate_sms_config_iff config =
    then_iff (refuse (outside 0 10000 config.read_delay_ms)) _
      (refused_iff _ (outside_iff 0 10000 config.read_delay_ms))
      (refused_iff _ (outside_iff 0 60000 config.read_delay_long_ms))

pub validate_ipc_server_config_iff :
    (config : IpcServerConfig) → (validate_ipc_server_config config ≡ ok tt) ↔ IsServer config
unfolding validate_ipc_server_config
validate_ipc_server_config_iff config =
    then_iff (refuse (outside 1024 65535 config.port)) _
      (refused_iff _ (outside_iff 1024 65535 config.port))
      (refused_iff _ (is_empty_iff config.host))
