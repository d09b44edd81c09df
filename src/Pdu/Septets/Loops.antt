-- ===== src/Pdu/Septets/Loops.antt =====
-- Single rounds of the packing and the unpacking loop, side by side.
use sms_relay.Base.{
  ℕ, ◌+◌, ◌-◌, ◌/◌, ◌%◌, ◌^◌, ◌<◌, bit_and, ◌≡◌, ◌≢◌, ap, ap₂, ◌∙◌, inl, inr, [], ◌∷◌, ◌++◌, Bytes,
  ◌==◌, if◌then◌else◌, Bool-cases, arith,
}
use sms_relay.Base.Bits.{bit_and_low}
use sms_relay.Pdu.Septets.{pack_octet, pack_loop, unpack_septet, unpack_end, unpack_loop}
use sms_relay.Pdu.Septets.Octets.{
  IsSeptet, pack_octet-low, pack_octet-carry, last-low, unpack_septet-joins,
}

seven_bits : (x : ℕ) → IsSeptet x → bit_and x 0x7F ≡ x
seven_bits x h = bit_and_low 7 x ∙ omega arith

-- The first septet of a block stands in its octet unshifted.
pub first_septet : (y x : ℕ) → IsSeptet x → bit_and (pack_octet 0 y x) 0x7F ≡ x
first_septet y x h =
    bit_and_low 7 (pack_octet 0 y x) ∙ pack_octet-low 0 y x (omega arith) h ∙ omega arith

-- One octet of the packing loop.
pub pack_step :
    (k p x : ℕ) (xs : Bytes)
    → k ≢ 7
    → IsSeptet x
    → pack_loop k p (x ∷ xs) ≡ pack_octet k x p ∷ pack_loop (k + 1) x xs
unfolding pack_loop
pack_step k p x xs n h = ground (arith, n, seven_bits x h)

pub pack_last : (k p : ℕ) → k ≢ 7 → pack_loop k p [] ≡ (p / 2 ^ k) ∷ []
unfolding pack_loop
pack_last k p n = ground (arith, n)

pack_wrap : (p x : ℕ) (xs : Bytes) → IsSeptet x → pack_loop 7 p (x ∷ xs) ≡ pack_loop 0 x xs
unfolding pack_loop
pack_wrap p x xs h = ap (λ t. pack_loop 0 t xs) (seven_bits x h)

-- One octet of the unpacking loop, with more to come, and at the end.
unpack_step :
    (num count k po o : ℕ) (os : Bytes)
    → count + 1 < num
    → k ≢ 7
    → unpack_loop num count k po (o ∷ os)
      ≡ unpack_septet k o po ∷ unpack_loop num (count + 1) (k + 1) o os
unfolding unpack_loop unpack_end
unpack_step num count k po o os h n = ground (arith, n)

unpack_last :
    (num count k po o : ℕ)
    → count < num
    → k ≢ 7
    → unpack_loop num count k po (o ∷ []) ≡ unpack_septet k o po ∷ unpack_end (k + 1) o
unfolding unpack_loop unpack_end
unpack_last num count k po o h n = ground (arith, n)

-- The same where a block begins; `held` is the septet kept in the octet before, if there is one.
abbrev pub held : ℕ → Bytes
held po = if po == 0 then [] else (po / 2) ∷ []

pub unpack_wrap :
    (num count po o : ℕ) (os : Bytes)
    → count + 1 < num
    → unpack_loop num count 7 po (o ∷ os)
      ≡ held po ++ (bit_and o 0x7F ∷ unpack_loop num (count + 1) 1 o os)
unfolding unpack_loop unpack_end
unpack_wrap num count po o os h = ground arith

pub unpack_wrap_last :
    (num count po o : ℕ)
    → count < num
    → unpack_loop num count 7 po (o ∷ []) ≡ held po ++ bit_and o 0x7F ∷ []
unfolding unpack_loop unpack_end
unpack_wrap_last num count po o h = ground arith

pub unpack_end-quiet : (k p : ℕ) → k < 7 → IsSeptet p → unpack_end (k + 1) (p / 2 ^ k) ≡ []
unfolding unpack_end
unpack_end-quiet k p h hp = elim (Bool-cases (k == 6)) [
  | inl e ↦ let six : k ≡ 6 = ground (arith, e) in rw six (ground arith)
  | inr e ↦ ground (arith, e)
]

unpack_end-held : (po : ℕ) → po / 2 ≢ 0 → unpack_end 7 po ≡ (po / 2) ∷ []
unfolding unpack_end
unpack_end-held po h = ground (arith, h)

-- The unpacking loop stands behind the octet `po`, which holds the low `k` bits of `p`, and must
-- give back `p` and the septets after it: the cases inside a block, given the rest.
pub middle :
    (k p po num count x : ℕ) (xs : Bytes)
    → 0 < k
    → k < 7
    → IsSeptet p
    → IsSeptet x
    → po / 2 ^ (8 - k) ≡ p % 2 ^ k
    → count + 1 < num
    → unpack_loop num (count + 1) (k + 1) (pack_octet k x p) (pack_loop (k + 1) x xs) ≡ x ∷ xs
    → unpack_loop num count k po (pack_loop k p (x ∷ xs)) ≡ p ∷ x ∷ xs
middle k p po num count x xs z h hp hx carry room ih =
    ap (unpack_loop num count k po) (pack_step k p x xs (omega arith) hx)
    ∙ unpack_step num count k po (pack_octet k x p) _ room (omega arith)
    ∙ ap₂ ◌∷◌
        (unpack_septet-joins k (pack_octet k x p) po p z h hp (pack_octet-low k x p h hp) carry) ih

pub middle_last :
    (k p po num count : ℕ)
    → 0 < k
    → k < 7
    → IsSeptet p
    → po / 2 ^ (8 - k) ≡ p % 2 ^ k
    → count < num
    → unpack_loop num count k po (pack_loop k p []) ≡ p ∷ []
middle_last k p po num count z h hp carry room =
    ap (unpack_loop num count k po) (pack_last k p (omega arith))
    ∙ unpack_last num count k po (p / 2 ^ k) room (omega arith)
    ∙ ap₂ ◌∷◌ (unpack_septet-joins k (p / 2 ^ k) po p z h hp (last-low k p h hp) carry)
        (unpack_end-quiet k p h hp)

-- What the next octet carries over.
pub next_carry :
    (k x p : ℕ) → k < 7 → IsSeptet p → pack_octet k x p / 2 ^ (8 - (k + 1)) ≡ x % 2 ^ (k + 1)
next_carry k x p h hp =
    let e : 8 - (k + 1) ≡ 7 - k = omega arith in rw e (pack_octet-carry k x p h hp)

-- The cases where a block ends: `p` is kept in `po` whole.
held-some : (po p : ℕ) → po / 2 ≡ p → p ≢ 0 → held po ≡ p ∷ []
held-some po p e h = ground (arith, e, h)

pub edge :
    (p po num count x y : ℕ) (ys : Bytes)
    → po / 2 ≡ p
    → p ≢ 0
    → IsSeptet x
    → IsSeptet y
    → count + 1 < num
    → unpack_loop num (count + 1) 1 (pack_octet 0 y x) (pack_loop 1 y ys) ≡ y ∷ ys
    → unpack_loop num count 7 po (pack_loop 7 p (x ∷ y ∷ ys)) ≡ p ∷ x ∷ y ∷ ys
edge p po num count x y ys e n hx hy room ih =
    ap (unpack_loop num count 7 po)
      (pack_wrap p x (y ∷ ys) hx ∙ pack_step 0 x y ys (omega arith) hy)
    ∙ unpack_wrap num count po (pack_octet 0 y x) _ room
    ∙ ap₂ ◌++◌ (held-some po p e n) (ap₂ ◌∷◌ (first_septet y x hx) ih)

pub edge_one :
    (p po num count x : ℕ)
    → po / 2 ≡ p
    → p ≢ 0
    → IsSeptet x
    → count < num
    → unpack_loop num count 7 po (pack_loop 7 p (x ∷ [])) ≡ p ∷ x ∷ []
edge_one p po num count x e n hx room =
    ap (unpack_loop num count 7 po) (pack_wrap p x [] hx ∙ pack_last 0 x (omega arith))
    ∙ unpack_wrap_last num count po (x / 2 ^ 0) room
    ∙ ap₂ ◌++◌ (held-some po p e n) (ap (λ t. t ∷ []) (bit_and_low 7 (x / 2 ^ 0) ∙ omega arith))

pub edge_last :
    (p po num count : ℕ)
    → po / 2 ≡ p
    → p ≢ 0
    → unpack_loop num count 7 po (pack_loop 7 p []) ≡ p ∷ []
unfolding pack_loop unpack_loop
edge_last p po num count e n = unpack_end-held po (omega arith) ∙ ap (λ t. t ∷ []) e
