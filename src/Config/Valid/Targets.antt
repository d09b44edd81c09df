-- ===== src/Config/Valid/Targets.antt =====
-- `validate_forward_config` of src/common/config_loader.cpp.
use sms_relay.Base.{
  ◌≡◌, ◌↔◌, refl, sym, ap, ◌∙◌, Bool, true, false, not, ◌||◌, List, [], ◌∷◌, Bytes, if◌then◌else◌,
  inl, inr, arith, Bool-cases,
}
use sms_relay.Base.Result.{Result, Error, ok, err, ◌>>=◌, Result-cases}
use sms_relay.Base.Text.{codes, bytes_eq, bytes_eq_iff}
use sms_relay.Config.Types.{BarkConfig, ForwardTargetConfig, ForwardConfig}
use sms_relay.Config.Validate.{
  Done, no_targets, refuse, validate_bark_config, validate_forward_target_config, validate_targets,
  validate_forward_config,
}
use sms_relay.Config.Valid.{
  IsBark, IsTarget, AreTargets, SomeEnabled, IsForward, is_empty_iff, then_iff, iff_trans,
  refused_iff,
}
use sms_relay.Config.Valid.Urls.{validate_bark_config_iff}

when_type_iff :
    (type : Bytes) (bark : BarkConfig)
    → ((if bytes_eq type (codes "bark") then validate_bark_config bark else ok tt) ≡ ok tt)
      ↔ (type ≡ codes "bark" → IsBark bark)
when_type_iff type bark = elim (Bool-cases (bytes_eq type (codes "bark"))) [
  | inl e ↦ rw (e) (
      iff_trans (validate_bark_config_iff bark)
        ((λ h same. h), λ h. h ((bytes_eq_iff type (codes "bark")).0 e)))
  | inr e ↦ rw (e) (
    (λ done same. absurd (ground (arith, (bytes_eq_iff type (codes "bark")).1 same, e))),
    λ h. refl,
  )
]

validate_forward_target_config_iff :
    (target : ForwardTargetConfig)
    → target.enabled ≡ true
    → (validate_forward_target_config target ≡ ok tt) ↔ IsTarget target
unfolding validate_forward_target_config
validate_forward_target_config_iff target on =
    then_iff _ _ (refused_iff _ (is_empty_iff target.type))
      (rw (on) (when_type_iff target.type target.bark))

abbrev some_enabled : List ForwardTargetConfig → Bool
some_enabled [] = false
some_enabled (target ∷ targets) = target.enabled || some_enabled targets

some_enabled_iff :
    (targets : List ForwardTargetConfig) → (some_enabled targets ≡ true) ↔ SomeEnabled targets
some_enabled_iff [] = ground arith
some_enabled_iff (target ∷ targets) = elim (Bool-cases target.enabled) [
  | inl e ↦ ((λ h. inl e), λ h. rw (e) refl)
  | inr e ↦ (
    (λ h. inr ((some_enabled_iff targets).0 (rw (e) at h))),
    λ h. elim h [
      | inl x ↦ absurd (ground (arith, x, e))
      | inr y ↦ rw (e) ((some_enabled_iff targets).1 y)
    ],
  )
]

enabled_step :
    (target : ForwardTargetConfig) (targets : List ForwardTargetConfig)
    → target.enabled ≡ true
    → validate_targets (target ∷ targets) ≡ (
        validate_forward_target_config target >>= λ done.
        validate_targets targets >>= λ enabled. ok true)
unfolding validate_targets
enabled_step target targets on =
    ap
      (λ b.
        if b
        then (validate_forward_target_config target >>= λ done.
            validate_targets targets >>= λ enabled. ok true)
        else validate_targets targets)
      on

disabled_step :
    (target : ForwardTargetConfig) (targets : List ForwardTargetConfig)
    → target.enabled ≡ false
    → validate_targets (target ∷ targets) ≡ validate_targets targets
unfolding validate_targets
disabled_step target targets off =
    ap
      (λ b.
        if b
        then (validate_forward_target_config target >>= λ done.
            validate_targets targets >>= λ enabled. ok true)
        else validate_targets targets)
      off

two_steps :
    (first : Result Done) (rest : Result Bool) (found : Bool)
    → (first >>= λ done. rest >>= λ enabled. ok true) ≡ ok found
    → (first ≡ ok tt) × ((b : Bool) × (rest ≡ ok b)) × (found ≡ true)
two_steps (err x) rest found e = absurd (ground (arith, e))
two_steps (ok tt) (err x) found e = absurd (ground (arith, e))
two_steps (ok tt) (ok b) found e = (refl, (b, refl), ground (arith, e))

targets_accepted :
    (targets : List ForwardTargetConfig)
    → AreTargets targets
    → validate_targets targets ≡ ok (some_enabled targets)
targets_accepted [] h = unfold validate_targets in refl
targets_accepted (target ∷ targets) (h, hs) = elim (Bool-cases target.enabled) [
  | inl on ↦
      enabled_step target targets on
      ∙ ap (λ r. r >>= λ done. validate_targets targets >>= λ enabled. ok true)
          ((validate_forward_target_config_iff target on).1 (h on))
      ∙ ap (λ r. r >>= λ enabled. ok true) (targets_accepted targets hs)
      ∙ ap (λ b. ok (b || some_enabled targets)) (sym on)
  | inr off ↦
      disabled_step target targets off
      ∙ targets_accepted targets hs
      ∙ ap (λ b. ok (b || some_enabled targets)) (sym off)
]

targets_valid :
    (targets : List ForwardTargetConfig) (found : Bool)
    → validate_targets targets ≡ ok found
    → AreTargets targets × (found ≡ some_enabled targets)
targets_valid [] found e = (tt, nothing found (unfold validate_targets in e))
  where
    nothing : (b : Bool) → ok false ≡ ok b → b ≡ false
    nothing b e' = ground (arith, e')
targets_valid (target ∷ targets) found e = elim (Bool-cases target.enabled) [
  | inl on ↦
      let (here, (b, there), is_true) =
        two_steps (validate_forward_target_config target) (validate_targets targets) found
          (sym (enabled_step target targets on) ∙ e) in
      let (all, same) = targets_valid targets b there in
      (
        ((λ on'. (validate_forward_target_config_iff target on).0 here), all),
        is_true ∙ ap (λ b'. b' || some_enabled targets) (sym on),
      )
  | inr off ↦
      let (all, same) = targets_valid targets found (sym (disabled_step target targets off) ∙ e) in
      (
        ((λ on. absurd (ground (arith, on, off))), all),
        same ∙ ap (λ b. b || some_enabled targets) (sym off),
      )
]

-- The checks of the list: not empty, all valid, one of them enabled.
accepted_iff :
    (targets : List ForwardTargetConfig)
    → ((validate_targets targets >>= λ found. refuse (not found)) ≡ ok tt)
      ↔ (AreTargets targets × SomeEnabled targets)
accepted_iff targets = (
  (λ e. elim (Result-cases (validate_targets targets)) [
    | inl (x, h) ↦ absurd (thrown x (ap (λ r. r >>= λ found. refuse (not found)) (sym h) ∙ e))
    | inr (found, h) ↦
        let (all, same) = targets_valid targets found h in
        (
          all,
          (some_enabled_iff targets).0 (
              sym same
              ∙ is_found found (ap (λ r. r >>= λ found'. refuse (not found')) (sym h) ∙ e)),
        )
  ]),
  λ h.
      ap (λ r. r >>= λ found. refuse (not found)) (targets_accepted targets h.0)
      ∙ ap (λ b. refuse (not b)) ((some_enabled_iff targets).1 h.1),
)
  where
    thrown : (x : Error) → ◌≡◌ {A = Result Done} (err x) (ok tt) → ⊥
    thrown x e = ground (arith, e)

    is_found : (b : Bool) → refuse (not b) ≡ ok tt → b ≡ true
    is_found true e = refl
    is_found false e = absurd (ground (arith, e))

forward_checks_iff :
    (targets : List ForwardTargetConfig)
    → ((refuse (no_targets targets) >>= λ done.
          validate_targets targets >>= λ found. refuse (not found))
        ≡ ok tt)
      ↔ (AreTargets targets × SomeEnabled targets)
forward_checks_iff [] = ((λ e. absurd (ground (arith, e))), λ h. absurd h.1)
forward_checks_iff (target ∷ targets) = accepted_iff (target ∷ targets)

pub validate_forward_config_iff :
    (config : ForwardConfig) → (validate_forward_config config ≡ ok tt) ↔ IsForward config
validate_forward_config_iff config = elim (Bool-cases config.enabled) [
  | inl on ↦ (
    (λ e on'. (forward_checks_iff config.targets).0 (sym (checks on) ∙ e)),
    λ h. checks on ∙ (forward_checks_iff config.targets).1 (h on),
  )
  | inr off ↦ ((λ e on. absurd (ground (arith, on, off))), λ h. skipped off)
]
  where
    checks :
        config.enabled ≡ true
        → validate_forward_config config ≡ (
            refuse (no_targets config.targets) >>= λ done.
            validate_targets config.targets >>= λ found. refuse (not found))
    checks on = unfold validate_forward_config in rw (on) refl

    skipped : config.enabled ≡ false → validate_forward_config config ≡ ok tt
    skipped off = unfold validate_forward_config in rw (off) refl
