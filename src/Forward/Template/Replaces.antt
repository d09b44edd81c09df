-- ===== src/Forward/Template/Replaces.antt =====
-- `replace_all` as a relation between a string and its replacement.
use sms_relay.Base.{
  ℕ, zero, suc, ◌+◌, ◌≤◌, ◌<◌, ◌≡◌, refl, ap, ◌∙◌, false, none, some, ◌∷◌, ◌++◌, Bytes, length,
  length-drop, take, drop, drop-append_length, arith,
}
use sms_relay.Base.Text.{starts_with, starts_with-append, find}
use sms_relay.Base.Search.{find-inside}
use sms_relay.Forward.Template.{replace}

-- Each place where the pattern is found, from the left, is replaced.
pub data Replaces (from to : Bytes) : Bytes → Bytes → Type 0 where
  stop : {str : Bytes} → find from str ≡ none → Replaces from to str str
  round :
      {str behind rest : Bytes} {pos : ℕ}
      → find from str ≡ some pos
      → drop (pos + length from) str ≡ behind
      → Replaces from to behind rest
      → Replaces from to str (take pos str ++ (to ++ rest))

pub replace-Replaces :
    (fuel : ℕ) (from to str out : Bytes)
    → 1 ≤ length from
    → length str < fuel
    → Replaces from to str out
    → replace fuel from to str ≡ some out
unfolding replace
replace-Replaces zero from to str out h l r = absurd (omega arith)
replace-Replaces (suc fuel) from to str out h l (stop e) = rw (e, replace) refl
replace-Replaces (suc fuel) from to _ _ h l (round {str} {behind} {rest} {pos} e d r) =
    let shorter : length behind < fuel =
      omega (
        arith,
        ap length d,
        length-drop (pos + length from) str,
        find-inside from str pos e,
        h,
        l,
      ) in
    let later : replace fuel from to (drop (pos + length from) str) ≡ some rest =
      ap (replace fuel from to) d ∙ replace-Replaces fuel from to behind rest h shorter r in
    rw (e, replace)
      (ap (λ o. elim o [ none ↦ none | some rest' ↦ some (take pos str ++ (to ++ rest')) ]) later)

drop_at : {m n : ℕ} (xs : Bytes) → m ≡ n → drop m xs ≡ drop n xs
drop_at xs e = ap (λ k. drop k xs) e

-- A byte in front at which the pattern does not start.
pub Replaces-skip :
    (from to : Bytes) (c : ℕ) (str out : Bytes)
    → starts_with (c ∷ str) from ≡ false
    → Replaces from to str out
    → Replaces from to (c ∷ str) (c ∷ out)
unfolding find
Replaces-skip from to c str out h (stop e) = stop (ground (arith, h, e))
Replaces-skip from to c _ _ h (round {str} {behind} {rest} {pos} e d r) =
    round {pos = suc pos} (ground (arith, h, e))
      (drop_at {m = suc pos + length from} {n = suc (pos + length from)} (c ∷ str) (omega arith)
        ∙ d)
      r

-- The pattern itself in front.
pub Replaces-hit :
    (c : ℕ) (from to str out : Bytes)
    → Replaces (c ∷ from) to str out
    → Replaces (c ∷ from) to ((c ∷ from) ++ str) (to ++ out)
unfolding find
Replaces-hit c from to str out r =
    round {str = (c ∷ from) ++ str} {pos = 0} (rw (starts_with-append (c ∷ from) str) refl)
      (drop_at {m = 0 + length (c ∷ from)} {n = length (c ∷ from)} ((c ∷ from) ++ str) (omega arith)
        ∙ drop-append_length (c ∷ from) str)
      r
