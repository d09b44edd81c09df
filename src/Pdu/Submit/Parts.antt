-- ===== src/Pdu/Submit/Parts.antt =====
-- The texts of the parts into which `encode_submit` cuts a long message.
use sms_relay.Base.{
  ℕ, zero, suc, ◌+◌, ◌-◌, ◌*◌, ◌/◌, ◌≤◌, min, ◌≡◌, refl, sym, ap, ◌∙◌, [], ◌∷◌, ◌++◌, Bytes, All,
  length, take, drop, length-take, take-append-drop, length-drop, arith,
}
use native.Mathlib.Nat.{lt-div-mul-add}
use sms_relay.Base.Text.{joined}
use sms_relay.Pdu.Submit.{part_texts, total_parts}

take_at : {m n : ℕ} (xs : Bytes) → m ≡ n → take m xs ≡ take n xs
take_at xs e = ap (λ k. take k xs) e

drop_at : {m n : ℕ} (xs : Bytes) → m ≡ n → drop m xs ≡ drop n xs
drop_at xs e = ap (λ k. drop k xs) e

take-min : (n : ℕ) (xs : Bytes) → take (min n (length xs)) xs ≡ take n xs
take-min zero xs = take_at {n = 0} xs (omega arith)
take-min (suc n) [] = take_at {n = 0} [] (omega arith)
take-min (suc n) (x ∷ xs) =
    take_at {n = suc (min n (length xs))} (x ∷ xs) (omega arith) ∙ ap (◌∷◌ x) (take-min n xs)

drop_empty : (n : ℕ) → drop {A = ℕ} n [] ≡ []
drop_empty zero = refl
drop_empty (suc n) = refl

drop-drop : (m n : ℕ) (xs : Bytes) → drop m (drop n xs) ≡ drop (n + m) xs
drop-drop m zero xs = drop_at xs (omega arith)
drop-drop m (suc n) [] = drop_empty m ∙ sym (drop_empty (suc n + m))
drop-drop m (suc n) (x ∷ xs) = drop-drop m n xs ∙ drop_at {m = suc (n + m)} (x ∷ xs) (omega arith)

drop_all : (n : ℕ) (xs : Bytes) → length xs ≤ n → drop n xs ≡ []
drop_all zero [] h = refl
drop_all zero (x ∷ xs) h = absurd (omega arith)
drop_all (suc n) [] h = refl
drop_all (suc n) (x ∷ xs) h = drop_all n xs (omega arith)

part_texts-joined :
    (left part limit : ℕ) (text : Bytes)
    → length text ≤ (part + left) * limit
    → joined (part_texts left part limit text) ≡ drop (part * limit) text
unfolding part_texts
part_texts-joined zero part limit text h = sym (drop_all (part * limit) text (omega arith))
part_texts-joined (suc left) part limit text h =
    ap (◌++◌ (take (min limit (length text - part * limit)) (drop (part * limit) text))) (
      part_texts-joined left (part + 1) limit text (omega arith)
      ∙ drop_at {n = part * limit + limit} text (omega arith)
      ∙ sym (drop-drop limit (part * limit) text))
    ∙ ap (λ front. front ++ drop limit (drop (part * limit) text))
        (ap (λ k. take (min limit k) (drop (part * limit) text))
            (sym (length-drop (part * limit) text))
          ∙ take-min limit (drop (part * limit) text))
    ∙ take-append-drop limit (drop (part * limit) text)

part_texts-All :
    (left part limit : ℕ) (text : Bytes)
    → All (λ t. length t ≤ limit) (part_texts left part limit text)
unfolding part_texts
part_texts-All zero part limit text = tt
part_texts-All (suc left) part limit text = (
  omega (arith, length-take (min limit (length text - part * limit)) (drop (part * limit) text)),
  part_texts-All left (part + 1) limit text,
)

enough : (limit n : ℕ) → 1 ≤ limit → n ≤ (0 + (n + limit - 1) / limit) * limit
enough limit n h = omega (arith, lt-div-mul-add {a = n + limit - 1} {b = limit} (omega arith))

-- The parts of a message, for any limit but 0, are the message when they are put together in their
-- order, and each of them has at most as many bytes as the limit.
pub part_texts-partition :
    (limit : ℕ) (text : Bytes)
    → 1 ≤ limit
    → (joined (part_texts (total_parts limit text) 0 limit text) ≡ text)
      × All (λ t. length t ≤ limit) (part_texts (total_parts limit text) 0 limit text)
part_texts-partition limit text h = (
  part_texts-joined (total_parts limit text) 0 limit text (enough limit (length text) h)
      ∙ drop_at {n = 0} text (omega arith),
  part_texts-All (total_parts limit text) 0 limit text,
)
