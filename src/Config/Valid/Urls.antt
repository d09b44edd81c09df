-- ===== src/Config/Valid/Urls.antt =====
-- `validate_url` and `validate_bark_config` of src/common/config_loader.cpp.
use sms_relay.Base.{
  ℕ, ◌≡◌, ◌≢◌, ◌↔◌, ◌⊎◌, refl, sym, ap, ◌∙◌, Bool, true, false, not, ◌&&◌, ◌||◌, [], ◌∷◌, ◌++◌,
  Bytes, drop, drop-append_length, length, inl, inr, arith,
}
use sms_relay.Base.Result.{ok}
use sms_relay.Base.Text.{codes, starts_with, starts_with-append}
use sms_relay.Config.Types.{BarkConfig}
use sms_relay.Config.Validate.{
  is_empty, refuse, some_character, matches_url, validate_url, validate_optional_url,
  validate_bark_config,
}
use sms_relay.Config.Valid.{
  HasPrefix, IsUrl, IsBark, is_empty_iff, outside_iff, then_iff, iff_trans, refused_iff,
}

starts_with-split :
    (url scheme : Bytes) → starts_with url scheme ≡ true → url ≡ scheme ++ drop (length scheme) url
unfolding starts_with
starts_with-split url [] h = refl
starts_with-split [] (y ∷ scheme) h = ground (arith, h)
starts_with-split (x ∷ url) (y ∷ scheme) h = ground (arith, h, starts_with-split url scheme)

some_character_split :
    (s : Bytes)
    → some_character s ≡ true
    → (c : ℕ) × (rest : Bytes) × ((c ≢ 10) × (c ≢ 13)) × (s ≡ c ∷ rest)
unfolding some_character
some_character_split [] h = absurd (ground (arith, h))
some_character_split (c ∷ s) h = (c, s, ground (arith, h), refl)

prefixed_iff :
    (scheme url : Bytes)
    → ((starts_with url scheme && some_character (drop (length scheme) url)) ≡ true)
      ↔ HasPrefix scheme url
prefixed_iff scheme url = (
  (λ e.
      let start : starts_with url scheme ≡ true = ground (arith, e) in
      let (c, rest, fine, shape) =
        some_character_split (drop (length scheme) url) (ground (arith, e)) in
      (c, rest, fine, starts_with-split url scheme start ∙ ap (◌++◌ scheme) shape)),
  λ h. back h.0 h.1 h.2 h.3,
)
  where
    back :
        (c : ℕ) (rest : Bytes)
        → (c ≢ 10) × (c ≢ 13)
        → url ≡ scheme ++ c ∷ rest
        → (starts_with url scheme && some_character (drop (length scheme) url)) ≡ true
    back c rest fine e = rw (e) (
        rw (starts_with-append scheme (c ∷ rest), drop-append_length scheme (c ∷ rest))
          (unfold some_character in ground (arith, fine)))

or_iff :
    {P Q : Type 0} (a b : Bool) → (a ≡ true) ↔ P → (b ≡ true) ↔ Q → (not (a || b) ≡ false) ↔ (P ⊎ Q)
or_iff true b h h' = ((λ e. inl (h.0 refl)), λ p. refl)
or_iff false true h h' = ((λ e. inr (h'.0 refl)), λ p. refl)
or_iff false false h h' =
    ((λ e. ground (arith, e)), λ p. elim p [ inl x ↦ sym (h.1 x) | inr y ↦ sym (h'.1 y) ])

matches_url_iff : (url : Bytes) → (not (matches_url url) ≡ false) ↔ IsUrl url
unfolding matches_url
matches_url_iff url =
    or_iff _ _ (prefixed_iff (codes "http://") url) (prefixed_iff (codes "https://") url)

url_not_empty : (url : Bytes) → IsUrl url → url ≢ []
url_not_empty url (inl (c, rest, fine, e)) e' = ground (arith, e, e')
url_not_empty url (inr (c, rest, fine, e)) e' = ground (arith, e, e')

validate_url_iff : (url : Bytes) → (validate_url url ≡ ok tt) ↔ IsUrl url
unfolding validate_url
validate_url_iff url =
    iff_trans
      (then_iff (refuse (is_empty url)) _ (refused_iff _ (is_empty_iff url))
        (refused_iff _ (matches_url_iff url)))
      ((λ p. p.1), λ h. (url_not_empty url h, h))

validate_optional_url_iff :
    (url : Bytes) → (validate_optional_url url ≡ ok tt) ↔ ((url ≡ []) ⊎ IsUrl url)
unfolding validate_optional_url
validate_optional_url_iff [] = ((λ e. inl refl), λ h. refl)
validate_optional_url_iff (c ∷ url) =
    iff_trans (validate_url_iff (c ∷ url))
      (inr, λ h. elim h [ inl e ↦ absurd (ground (arith, e)) | inr u ↦ u ])

pub validate_bark_config_iff :
    (config : BarkConfig) → (validate_bark_config config ≡ ok tt) ↔ IsBark config
unfolding validate_bark_config
validate_bark_config_iff config = then_iff _ _ (refused_iff _ (is_empty_iff config.key)) (
    then_iff _ _ (validate_url_iff config.server) (
      then_iff _ _ (refused_iff _ (outside_iff 100 60000 config.timeout_ms)) (
        then_iff _ _ (validate_optional_url_iff config.url)
          (validate_optional_url_iff config.icon))))
