-- ===== src/Forward/Service/Counts.antt =====
-- That `render` and `forward` return (src/sms_relay/forward).
use sms_relay.Base.{
  ℕ, zero, suc, ◌+◌, ◌≤◌, ◌<◌, ◌≡◌, refl, ap, ◌∙◌, Bool, Option, none, some, List, [], ◌∷◌, ◌++◌,
  Bytes, length, length-drop, take, drop, if◌then◌else◌, arith, Bool-cases, Option-cases, inl, inr,
}
use sms_relay.Base.Text.{codes, find, to_string}
use sms_relay.Base.Search.{find-inside}
use sms_relay.Sms.Message.{IncomingSms}
use sms_relay.Config.Types.{BarkConfig, ForwardTargetConfig, ForwardConfig}
use sms_relay.Forward.Template.{replace, replace_all, then_replace, render}
use sms_relay.Forward.Service.{
  Client, Value, build_body, members, create_target, create_targets, post_body, send, send_all,
  forward,
}

replace_total :
    (fuel : ℕ) (from to str : Bytes)
    → 1 ≤ length from
    → length str < fuel
    → (out : Bytes) × (replace fuel from to str ≡ some out)
unfolding replace
replace_total zero from to str h l = absurd (omega arith)
replace_total (suc fuel) from to str h l = elim (Option-cases (find from str)) [
  | inl e ↦ (str, rw (e, replace) refl)
  | inr (pos, e) ↦
      let behind = drop (pos + length from) str in
      let shorter : length behind < fuel =
        omega (arith, length-drop (pos + length from) str, find-inside from str pos e, h, l) in
      let (rest, e') = replace_total fuel from to behind h shorter in
      (
        take pos str ++ (to ++ rest),
        rw (e, replace)
            (ap (λ o. elim o [ none ↦ none | some rest' ↦ some (take pos str ++ (to ++ rest')) ])
              e'),
      )
]

replace_all_total : (str from to : Bytes) → (out : Bytes) × (replace_all str from to ≡ some out)
unfolding replace_all
replace_all_total str [] to = (str, refl)
replace_all_total str (c ∷ from) to =
    replace_total (suc (length str)) (c ∷ from) to str (omega arith) (omega arith)

then_replace_total :
    (from to : Bytes) (given : Option Bytes)
    → (str : Bytes) × (given ≡ some str)
    → (out : Bytes) × (then_replace from to given ≡ some out)
then_replace_total from to given (str, e) =
    let (out, e') = replace_all_total str from to in (out, ap (then_replace from to) e ∙ e')

render_total : (tmpl : Bytes) (sms : IncomingSms) → (out : Bytes) × (render tmpl sms ≡ some out)
unfolding render
render_total tmpl sms = then_replace_total (codes "${index}") (to_string sms.index) _ (
    then_replace_total (codes "${timestamp}") sms.decoded.timestamp _ (
      then_replace_total (codes "${text}") sms.decoded.text _
        (replace_all_total tmpl (codes "${sender}") sms.decoded.number)))

build_body_total :
    (config : BarkConfig) (sms : IncomingSms)
    → (object : List (Bytes × Value)) × (build_body config sms ≡ some object)
unfolding build_body
build_body_total config sms =
    let (title, e) = render_total config.title sms in
    let (body, e') = render_total config.body sms in
    (members title body config, rw (e, e', build_body) refl)

module _ {W : Type 0} (client : Client W) where
  send_total :
      (config : BarkConfig) (sms : IncomingSms) (w : W)
      → (result : Bool × W) × (send client config sms w ≡ some result)
  unfolding send
  send_total config sms w =
      let (object, e) = build_body_total config sms in
      (post_body client config (client.dump object) w, rw (e, send) refl)

  send_all_total :
      (targets : List BarkConfig) (sms : IncomingSms) (w : W)
      → (count : ℕ) × (w' : W) × (send_all client targets sms w ≡ some (count, w'))
        × (count ≤ length targets)
  unfolding send_all
  send_all_total [] sms w = (0, w, refl, omega arith)
  send_all_total (target ∷ targets) sms w =
      let ((success, w'), e) = send_total target sms w in
      let (count, w'', e', l) = send_all_total targets sms w' in
      (
        if success then suc count else count,
        w'',
        rw (e, send_all)
            (ap
              (λ r. elim r [ none ↦ none | some c ↦ some (if success then suc c.0 else c.0, c.1) ])
              e'),
        ground (arith, l),
      )

  length-create_targets :
      (configs : List ForwardTargetConfig) → length (create_targets configs) ≤ length configs
  unfolding create_targets create_target
  length-create_targets [] = omega arith
  length-create_targets (config ∷ configs) = ground (arith, length-create_targets configs)

  -- Whatever the HTTP client and the JSON library do, and whatever the templates and the message
  -- are, `forward` returns, with at most as many successes as there are configured targets.
  pub forward_total :
      (config : ForwardConfig) (sms : IncomingSms) (w : W)
      → (count : ℕ) × (w' : W) × (forward client config sms w ≡ some (count, w'))
        × (count ≤ length config.targets)
  unfolding forward
  forward_total config sms w = elim (Bool-cases config.enabled) [
    | inl on ↦
        let (count, w', e, l) = send_all_total (create_targets config.targets) sms w in
        (count, w', rw (on) e, omega (arith, l, length-create_targets config.targets))
    | inr off ↦ (0, w, rw (off) refl, omega arith)
  ]
