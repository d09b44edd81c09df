-- ===== src/Sms/Message/Keys.antt =====
-- The keys of the multipart cache.
use sms_relay.Base.{ℕ, ◌^◌, ◌<◌, ◌≡◌, refl, sym, ap, ap₂, ◌∙◌, [], ◌∷◌, ◌++◌, Bytes, arith}
use mathlib.Core.Path.{subst}
use sms_relay.Base.Text.{to_string}
use sms_relay.Base.Digits.{AreDigits, number_of, to_string-AreDigits, number_of-to_string}
use sms_relay.Sms.Message.{get_cache_key}

not_digits : (front back : Bytes) → AreDigits (front ++ b'_' ∷ back) → ⊥
not_digits [] back (h, hs) = ground (arith, h)
not_digits (c ∷ front) back (h, hs) = not_digits front back hs

tail_eq : {a b : ℕ} {x y : Bytes} → a ∷ x ≡ b ∷ y → (a ≡ b) × (x ≡ y)
tail_eq e = ground (arith, e)

split_last :
    (a b d d' : Bytes)
    → AreDigits d
    → AreDigits d'
    → a ++ b'_' ∷ d ≡ b ++ b'_' ∷ d'
    → (a ≡ b) × (d ≡ d')
split_last [] [] d d' h h' e = (refl, (tail_eq e).1)
split_last [] (c ∷ b) d d' h h' e = absurd (not_digits b d' (subst AreDigits ((tail_eq e).1) h))
split_last (c ∷ a) [] d d' h h' e =
    absurd (not_digits a d (subst AreDigits (sym ((tail_eq e).1)) h'))
split_last (c ∷ a) (c' ∷ b) d d' h h' e =
    let (first, others) = tail_eq e in
    let (front, back) = split_last a b d d' h h' others in (ap₂ ◌∷◌ first front, back)

-- Two messages share a key of the multipart cache only if their senders and their reference
-- numbers are the same: no sender's number, whatever characters it has, can run into the reference
-- number behind it.
pub get_cache_key-injective :
    (sender sender' : Bytes) (concat_ref concat_ref' : ℕ)
    → concat_ref < 2 ^ 16
    → concat_ref' < 2 ^ 16
    → get_cache_key sender concat_ref ≡ get_cache_key sender' concat_ref'
    → (sender ≡ sender') × (concat_ref ≡ concat_ref')
unfolding get_cache_key
get_cache_key-injective sender sender' r r' h h' e =
    let (same, digits) =
      split_last sender sender' (to_string r) (to_string r') (to_string-AreDigits r)
        (to_string-AreDigits r') e in
    (
      same,
      sym (number_of-to_string r (omega (arith, h)))
          ∙ ap (number_of 0) digits
          ∙ number_of-to_string r' (omega (arith, h')),
    )
