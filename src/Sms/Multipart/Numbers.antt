-- ===== src/Sms/Multipart/Numbers.antt =====
-- Texts under the numbers of their parts, as `combine_parts` joins them.
use sms_relay.Base.{
  ℕ, suc, ◌+◌, ◌≤◌, ◌≡◌, refl, ap, ◌∙◌, List, [], ◌∷◌, ◌++◌, map, Bytes, get_or, ◌-◌, length, arith,
}
use sms_relay.Base.Text.{joined}
use sms_relay.Base.OrderedMap.Numbered.{numbered, AreOf}
use sms_relay.Sms.Message.{combine_parts}

pub combine_parts-numbered :
    (first : ℕ) (texts : List Bytes) → combine_parts (numbered first texts) ≡ joined texts
unfolding combine_parts
combine_parts-numbered first [] = refl
combine_parts-numbered first (text ∷ texts) =
    ap (◌++◌ text) (combine_parts-numbered (first + 1) texts)

pub length-map : {A B : Type 0} (f : A → B) (xs : List A) → length (map f xs) ≡ length xs
length-map f [] = refl
length-map f (x ∷ xs) = ap suc (length-map f xs)

pub length-numbered :
    {V : Type 0} (first : ℕ) (values : List V) → length (numbered first values) ≡ length values
length-numbered first [] = refl
length-numbered first (v ∷ values) = ap suc (length-numbered (first + 1) values)

-- The text of each number.
abbrev pub text_at : List Bytes → ℕ → Bytes
text_at texts seq = get_or texts (seq - 1) []

shift-AreOf :
    (f g : ℕ → Bytes) (first : ℕ) (texts : List Bytes)
    → ((n : ℕ) → first ≤ n → f n ≡ g n)
    → AreOf f (numbered first texts)
    → AreOf g (numbered first texts)
shift-AreOf f g first [] h all = tt
shift-AreOf f g first (t ∷ texts) h (e, all) = (
  e ∙ h first (omega arith),
  shift-AreOf f g (first + 1) texts (λ n l. h n (omega (arith, l))) all,
)

pub numbered-AreOf :
    (first : ℕ) (texts : List Bytes)
    → AreOf (λ n. get_or texts (n - first) []) (numbered first texts)
numbered-AreOf first [] = tt
numbered-AreOf first (t ∷ texts) = (
  ap (λ k. get_or (t ∷ texts) k []) {x = 0} (omega arith),
  shift-AreOf (λ n. get_or texts (n - (first + 1)) []) (λ n. get_or (t ∷ texts) (n - first) [])
      (first + 1) texts
      (λ n l. ap (λ k. get_or (t ∷ texts) k []) {x = suc (n - (first + 1))} (omega (arith, l)))
      (numbered-AreOf (first + 1) texts),
)
