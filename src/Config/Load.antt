-- ===== src/Config/Load.antt =====
-- The parsing functions of src/common/config_loader.cpp. The YAML library is a parameter; an
-- exception of it becomes a `std::runtime_error`.
use sms_relay.Base.{ℕ, Bool, Option, none, some, List, [], ◌∷◌, Bytes, if◌then◌else◌}
use sms_relay.Base.Result.{Result, ok, err, runtime_error, ◌>>=◌}
use sms_relay.Base.Text.{codes, bytes_eq}
use sms_relay.Config.Types.{
  ℤ, SerialConfig, default_serial, SmsConfig, default_sms, BarkConfig, default_bark,
  ForwardTargetConfig, default_target, ForwardConfig, default_forward, IpcServerConfig,
  default_server, AppConfig, default_app,
}
use sms_relay.Config.Validate.{validate_app_config}

-- What the loader uses of yaml-cpp: `node[key]`, which throws on a node that is no map; `as`,
-- which throws on text that is not of its type; sequences; and reading a file.
pub record Yaml (Node : Type 0) : Type 0 where
  pub load_file : Bytes → Result Node
  pub get : Node → Bytes → Result (Option Node)
  pub as_string : Node → Result Bytes
  pub as_bool : Node → Result Bool
  pub as_int : Node → Result ℤ
  pub as_uint32 : Node → Result ℕ
  pub is_sequence : Node → Bool
  pub elements : Node → List Node

module _ {Node : Type 0} (yaml : Yaml Node) where
  -- `if (node[key]) { field = read(node[key]); }`
  unfoldable pub field : {A : Type 0} → Node → Bytes → (Node → Result A) → A → Result A
  field node key read old =
      yaml.get node key >>= λ found. elim found [ none ↦ ok old | some child ↦ read child ]

  unfoldable pub parse_serial_config : Node → Result SerialConfig
  unfolding field
  parse_serial_config node = do
    port ← field node (codes "port") yaml.as_string default_serial.port
    baudrate ← field node (codes "baudrate") yaml.as_uint32 default_serial.baudrate
    ok (record { port = port; baudrate = baudrate })

  unfoldable pub parse_sms_config : Node → Result SmsConfig
  unfolding field
  parse_sms_config node = do
    storage ← field node (codes "storage") yaml.as_string default_sms.storage
    auto_delete ← field node (codes "auto_delete") yaml.as_bool default_sms.auto_delete
    text_mode ← field node (codes "text_mode") yaml.as_bool default_sms.text_mode
    read_delay ← field node (codes "read_delay_ms") yaml.as_int default_sms.read_delay_ms
    read_delay_long ←
        field node (codes "read_delay_long_ms") yaml.as_int default_sms.read_delay_long_ms
    enable_cache ← field node (codes "enable_cache") yaml.as_bool default_sms.enable_cache
    ok (record {
      storage = storage;
      auto_delete = auto_delete;
      text_mode = text_mode;
      read_delay_ms = read_delay;
      read_delay_long_ms = read_delay_long;
      enable_cache = enable_cache;
    })

  unfoldable pub parse_bark_config : Node → Result BarkConfig
  unfolding field
  parse_bark_config node = do
    server ← field node (codes "server") yaml.as_string default_bark.server
    key ← field node (codes "key") yaml.as_string default_bark.key
    title ← field node (codes "title") yaml.as_string default_bark.title
    body ← field node (codes "body") yaml.as_string default_bark.body
    sound ← field node (codes "sound") yaml.as_string default_bark.sound
    icon ← field node (codes "icon") yaml.as_string default_bark.icon
    group ← field node (codes "group") yaml.as_string default_bark.group
    url ← field node (codes "url") yaml.as_string default_bark.url
    badge ← field node (codes "badge") yaml.as_int default_bark.badge
    level ← field node (codes "level") yaml.as_string default_bark.level
    timeout ← field node (codes "timeout_ms") yaml.as_int default_bark.timeout_ms
    ok (record {
      server = server;
      key = key;
      title = title;
      body = body;
      sound = sound;
      icon = icon;
      group = group;
      url = url;
      badge = badge;
      level = level;
      timeout_ms = timeout;
    })

  -- `bark` is read for the type "bark" only.
  unfoldable pub bark_of : Bytes → Node → Result BarkConfig
  unfolding field parse_bark_config bytes_eq
  bark_of type node =
      if bytes_eq type (codes "bark")
      then field node (codes "bark") parse_bark_config default_target.bark
      else ok default_target.bark

  unfoldable pub parse_forward_target_config : Node → Result ForwardTargetConfig
  unfolding field bark_of
  parse_forward_target_config node = do
    type ← field node (codes "type") yaml.as_string default_target.type
    enabled ← field node (codes "enabled") yaml.as_bool default_target.enabled
    bark ← bark_of type node
    ok (record { type = type; enabled = enabled; bark = bark })

  unfoldable pub parse_targets : List Node → Result (List ForwardTargetConfig)
  unfolding parse_forward_target_config
  parse_targets [] = ok []
  parse_targets (node ∷ nodes) = do
    target ← parse_forward_target_config node
    targets ← parse_targets nodes
    ok (target ∷ targets)

  unfoldable pub targets_of : Node → Result (List ForwardTargetConfig)
  unfolding parse_targets
  targets_of node = if yaml.is_sequence node then parse_targets (yaml.elements node) else ok []

  unfoldable pub parse_forward_config : Node → Result ForwardConfig
  unfolding field targets_of
  parse_forward_config node = do
    enabled ← field node (codes "enabled") yaml.as_bool default_forward.enabled
    targets ← field node (codes "targets") targets_of default_forward.targets
    ok (record { enabled = enabled; targets = targets })

  -- `max_connections` keeps its default.
  unfoldable pub parse_ipc_server_config : Node → Result IpcServerConfig
  unfolding field
  parse_ipc_server_config node = do
    port ← field node (codes "port") yaml.as_int default_server.port
    host ← field node (codes "host") yaml.as_string default_server.host
    ok (record default_server { port = port; host = host })

  unfoldable pub parse_app_config : Node → Result AppConfig
  unfolding field parse_serial_config parse_sms_config parse_forward_config parse_ipc_server_config
  parse_app_config config = do
    serial ← field config (codes "serial") parse_serial_config default_app.serial
    sms ← field config (codes "sms") parse_sms_config default_app.sms
    forward ← field config (codes "forward") parse_forward_config default_app.forward
    server ← field config (codes "server") parse_ipc_server_config default_app.ipc_server
    ok (record { serial = serial; sms = sms; forward = forward; ipc_server = server })

  -- Whatever is thrown leaves as a `std::runtime_error`.
  abbrev pub rethrown : {A : Type 0} → Result A → Result A
  rethrown (err e) = err runtime_error
  rethrown (ok a) = ok a

  unfoldable pub load_config : Bytes → Result AppConfig
  unfolding parse_app_config validate_app_config
  load_config config_path = rethrown (do
    config ← yaml.load_file config_path
    app_config ← parse_app_config config
    done ← validate_app_config app_config
    ok app_config)

  -- `exists` is whether the default file can be opened.
  unfoldable pub load_config_default : Bool → Result AppConfig
  unfolding load_config
  load_config_default exists =
      if exists then load_config (codes "./config/smsrelay.yaml") else err runtime_error
