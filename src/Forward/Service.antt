-- ===== src/Forward/Service.antt =====
-- `ForwardService` and `BarkTarget` (src/sms_relay/forward/forward_service.cpp,
-- src/sms_relay/forward/targets/bark_target.cpp), with the factory of
-- src/sms_relay/forward/target_factory.h, whose one registered type is "bark".
pub mod Counts
use sms_relay.Base.{
  ℕ, suc, Bool, true, false, not, Option, none, some, List, [], ◌∷◌, ◌++◌, Bytes, back?, init, ◌==◌,
  if◌then◌else◌,
}
use sms_relay.Base.Result.{Result, ok, err}
use sms_relay.Base.Text.{codes, bytes_eq}
use sms_relay.Sms.Message.{IncomingSms}
use sms_relay.Config.Types.{ℤ, BarkConfig, ForwardTargetConfig, ForwardConfig}
use sms_relay.Forward.Template.{render}

-- A value of the JSON object.
pub data Value : Type 0 where
  string : Bytes → Value
  number : ℤ → Value

-- What the targets use of the HTTP client and of the JSON library: a request, which answers with
-- success or not or throws, and the text of an object, which throws on text that is not UTF-8.
pub record Client (W : Type 0) : Type 0 where
  pub post : Bytes → Bytes → ℤ → W → Result Bool × W
  pub dump : List (Bytes × Value) → Result Bytes

-- `if (!value.empty()) j[key] = value;`
abbrev optional : Bytes → Bytes → List (Bytes × Value)
optional key [] = []
optional key (c ∷ value) = (key, string (c ∷ value)) ∷ []

unfoldable pub build_url : BarkConfig → Bytes
build_url config =
    (elim (back? config.server) [
      | none ↦ config.server
      | some c ↦ if c == b'/' then init config.server else config.server
    ])
    ++ (codes "/" ++ config.key)

-- The members in the order in which they are set; each key occurs once.
unfoldable pub members : Bytes → Bytes → BarkConfig → List (Bytes × Value)
members title body config =
    (codes "title", string title)
    ∷ (codes "body", string body)
    ∷ (optional (codes "sound") config.sound
        ++ (optional (codes "icon") config.icon
            ++ (optional (codes "group") config.group
                ++ (optional (codes "url") config.url
                    ++ ((codes "badge", number config.badge)
                        ∷ optional (codes "level") config.level)))))

-- The object, if both templates are rendered.
unfoldable pub build_body : BarkConfig → IncomingSms → Option (List (Bytes × Value))
unfolding render members
build_body config sms = elim (render config.title sms) [
  | none ↦ none
  | some title ↦ elim (render config.body sms) [
    | none ↦ none
    | some body ↦ some (members title body config)
  ]
]

-- `BarkTarget::create` by way of the factory; there are no targets of another type.
unfoldable pub create_target : ForwardTargetConfig → Option BarkConfig
create_target config = if bytes_eq config.type (codes "bark") then some config.bark else none

abbrev with_target : Option BarkConfig → List BarkConfig → List BarkConfig
with_target none targets = targets
with_target (some target) targets = target ∷ targets

unfoldable pub create_targets : List ForwardTargetConfig → List BarkConfig
unfolding create_target
create_targets [] = []
create_targets (config ∷ configs) =
    if not config.enabled
    then create_targets configs
    else with_target (create_target config) (create_targets configs)

module _ {W : Type 0} (client : Client W) where
  abbrev answered : Result Bool → Bool
  answered (err e) = false
  answered (ok success) = success

  abbrev pub post_body : BarkConfig → Result Bytes → W → Bool × W
  post_body config (err e) w = (false, w)
  post_body config (ok body) w =
      let (answer, w') = client.post (build_url config) body config.timeout_ms w in
      (answered answer, w')

  -- `none` is a loop of the renderer that does not end.
  unfoldable pub send : BarkConfig → IncomingSms → W → Option (Bool × W)
  unfolding build_url build_body
  send config sms w = elim (build_body config sms) [
    | none ↦ none
    | some object ↦ some (post_body config (client.dump object) w)
  ]

  -- The loop of `forward`: the number of successes.
  unfoldable pub send_all : List BarkConfig → IncomingSms → W → Option (ℕ × W)
  unfolding send
  send_all [] sms w = some (0, w)
  send_all (target ∷ targets) sms w = elim (send target sms w) [
    | none ↦ none
    | some (success, w') ↦ elim (send_all targets sms w') [
      | none ↦ none
      | some (count, w'') ↦ some (if success then suc count else count, w'')
    ]
  ]

  unfoldable pub forward : ForwardConfig → IncomingSms → W → Option (ℕ × W)
  unfolding send_all create_targets
  forward config sms w =
      if not config.enabled then some (0, w) else send_all (create_targets config.targets) sms w
