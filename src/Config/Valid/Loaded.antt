-- ===== src/Config/Valid/Loaded.antt =====
-- `validate_app_config` and `load_config` of src/common/config_loader.cpp.
use sms_relay.Base.{◌≡◌, ◌↔◌, sym, ap, ◌∙◌, Bytes, inl, inr, arith}
use sms_relay.Base.Result.{Result, Error, ok, err, runtime_error, ◌>>=◌, Result-cases}
use sms_relay.Config.Types.{AppConfig}
use sms_relay.Config.Validate.{validate_app_config}
use sms_relay.Config.Load.{Yaml, parse_app_config, rethrown, load_config}
use sms_relay.Config.Valid.{
  IsValid, then_iff, validate_serial_config_iff, validate_sms_config_iff,
  validate_ipc_server_config_iff,
}
use sms_relay.Config.Valid.Targets.{validate_forward_config_iff}

-- A configuration passes the validation exactly if its values are in order: a port and a baud rate
-- from 9600 to 4000000; the two delays from 0 to 10000 and from 0 to 60000; if forwarding is on, at
-- least one enabled target, and each enabled target with a type and, if it is a Bark target, with a
-- key, a timeout from 100 to 60000 and URLs that start with http:// or https:// and go on; a server
-- port from 1024 to 65535 and a host.
pub validate_app_config_iff :
    (config : AppConfig) → (validate_app_config config ≡ ok tt) ↔ IsValid config
unfolding validate_app_config
validate_app_config_iff config = then_iff _ _ (validate_serial_config_iff config.serial) (
    then_iff _ _ (validate_sms_config_iff config.sms) (
      then_iff _ _ (validate_forward_config_iff config.forward)
        (validate_ipc_server_config_iff config.ipc_server)))

module _ {Node : Type 0} (yaml : Yaml Node) where
  -- A node that the file was read to and that the configuration was parsed from.
  abbrev pub IsParsed : Bytes → AppConfig → Type 0
  IsParsed config_path config =
      (node : Node) × (yaml.load_file config_path ≡ ok node)
      × (parse_app_config yaml node ≡ ok config)

  checked : AppConfig → Result AppConfig
  checked config = validate_app_config config >>= λ done. ok config

  checked_back :
      (parsed : Result AppConfig) (config : AppConfig)
      → rethrown yaml (parsed >>= checked) ≡ ok config
      → (parsed ≡ ok config) × (validate_app_config config ≡ ok tt)
  unfolding checked
  checked_back (err x) config e = absurd (ground (arith, e))
  checked_back (ok c) config e = elim (Result-cases (validate_app_config c)) [
    | inl (x, h) ↦ absurd (no_result x (ap (λ r. rethrown yaml (r >>= λ done. ok c)) (sym h) ∙ e))
    | inr (done, h) ↦
        let same : c ≡ config = value (ap (λ r. rethrown yaml (r >>= λ done'. ok c)) (sym h) ∙ e) in
        (ap ok same, ap validate_app_config (sym same) ∙ h)
  ]
    where
      no_result : (x : Error) → ◌≡◌ {A = Result AppConfig} (err runtime_error) (ok config) → ⊥
      no_result x e' = ground (arith, e')

      value : ◌≡◌ {A = Result AppConfig} (ok c) (ok config) → c ≡ config
      value e' = ground (arith, e')

  -- Whatever the YAML library does, `load_config` returns exactly the valid configurations that the
  -- file is read and parsed to: no other value passes, and none of these is refused.
  pub load_config_iff :
      (config_path : Bytes) (config : AppConfig)
      → (load_config yaml config_path ≡ ok config) ↔ (IsParsed config_path config × IsValid config)
  unfolding load_config checked
  load_config_iff config_path config = (
    (λ e. elim (Result-cases (yaml.load_file config_path)) [
      | inl (x, h) ↦ absurd (
          no_file (
            ap (λ r. rethrown yaml (r >>= λ node. parse_app_config yaml node >>= checked)) (sym h)
            ∙ e))
      | inr (node, h) ↦
          let (parsed, valid) = checked_back (parse_app_config yaml node) config (
            ap (λ r. rethrown yaml (r >>= λ node'. parse_app_config yaml node' >>= checked)) (sym h)
            ∙ e) in
          ((node, h, parsed), (validate_app_config_iff config).0 valid)
    ]),
    λ p.
        ap (λ r. rethrown yaml (r >>= λ node. parse_app_config yaml node >>= checked)) p.0.1
        ∙ ap (λ r. rethrown yaml (r >>= checked)) p.0.2
        ∙ ap (λ r. rethrown yaml (r >>= λ done. ok config))
            ((validate_app_config_iff config).1 p.1),
  )
    where
      no_file : ◌≡◌ {A = Result AppConfig} (err runtime_error) (ok config) → ⊥
      no_file e' = ground (arith, e')
