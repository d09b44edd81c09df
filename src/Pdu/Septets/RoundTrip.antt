-- ===== src/Pdu/Septets/RoundTrip.antt =====
-- `septets_pack` against `septets_unpack`.
use sms_relay.Base.{
  ℕ, suc, ◌+◌, ◌-◌, ◌/◌, ◌%◌, ◌^◌, ◌≤◌, ◌<◌, ◌≡◌, ◌≢◌, refl, ap, ap₂, ◌∙◌, inl, inr, [], ◌∷◌, Bytes,
  All, length, ◌==◌, if◌then◌else◌, Bool-cases, ==_iff, arith,
}
use sms_relay.Base.Bits.{bit_and_low}
use sms_relay.Pdu.Septets.{
  pack_octet, pack_loop, septets_pack, unpack_end, unpack_loop, septets_unpack,
}
use sms_relay.Pdu.Septets.Octets.{IsSeptet, pack_octet-carry}
use sms_relay.Pdu.Septets.Loops.{
  first_septet, pack_step, pack_last, unpack_wrap, unpack_wrap_last, middle, middle_last,
  next_carry, edge, edge_one, edge_last,
}

-- No septet at place 7 of a block of eight is 0; `k` is the place of the first.
abbrev pub NoEighthZero : ℕ → Bytes → Type 0
NoEighthZero k [] = Unit
NoEighthZero k (x ∷ xs) = (k ≡ 7 → x ≢ 0) × NoEighthZero (if k == 7 then 0 else k + 1) xs

behind : (k p : ℕ) (xs : Bytes) → k ≢ 7 → NoEighthZero k (p ∷ xs) → NoEighthZero (k + 1) xs
behind k p xs n v = ground (arith, n, v)

edge_facts :
    (k p po : ℕ) (xs : Bytes)
    → k ≡ 7
    → IsSeptet p
    → po / 2 ^ (8 - k) ≡ p % 2 ^ k
    → NoEighthZero k (p ∷ xs)
    → (po / 2 ≡ p) × (p ≢ 0) × NoEighthZero 0 xs
edge_facts k p po xs e hp carry v =
    let c : po / 2 ≡ p % 128 = rw e at carry in (omega (arith, c), v.0 e, (rw e at v).1)

-- Behind the octet `po`, which holds the low `k` bits of `p`, the unpacking loop gives back `p`
-- and the septets after it.
unpack-pack :
    (rest : Bytes) (k p po num count : ℕ)
    → 0 < k
    → k ≤ 7
    → IsSeptet p
    → All IsSeptet rest
    → po / 2 ^ (8 - k) ≡ p % 2 ^ k
    → NoEighthZero k (p ∷ rest)
    → count + suc (length rest) ≤ num
    → unpack_loop num count k po (pack_loop k p rest) ≡ p ∷ rest
unpack-pack [] k p po num count z h hp hs carry v room = elim (Bool-cases (k == 7)) [
  | inl e ↦
      let (c, n, _) = edge_facts k p po [] ((==_iff k 7).0 e) hp carry v in
      rw ((==_iff k 7).0 e) (edge_last p po num count c n)
  | inr e ↦ middle_last k p po num count z (ground (arith, e)) hp carry (omega arith)
]
unpack-pack (x ∷ []) k p po num count z h hp (hx, hs) carry v room = elim (Bool-cases (k == 7)) [
  | inl e ↦
      let (c, n, _) = edge_facts k p po (x ∷ []) ((==_iff k 7).0 e) hp carry v in
      rw ((==_iff k 7).0 e) (edge_one p po num count x c n hx (omega arith))
  | inr e ↦
      let lt : k < 7 = ground (arith, e) in
      middle k p po num count x [] z lt hp hx carry (omega arith) (
        unpack-pack [] (k + 1) x (pack_octet k x p) num (count + 1) (omega arith) (omega arith) hx
          tt (next_carry k x p lt hp) (behind k p (x ∷ []) (omega arith) v) (omega arith))
]
unpack-pack (x ∷ y ∷ ys) k p po num count z h hp (hx, (hy, hs)) carry v room =
    elim (Bool-cases (k == 7)) [
      | inl e ↦
          let (c, n, w) = edge_facts k p po (x ∷ y ∷ ys) ((==_iff k 7).0 e) hp carry v in
          rw ((==_iff k 7).0 e) (
            edge p po num count x y ys c n hx hy (omega arith) (
              unpack-pack ys 1 y (pack_octet 0 y x) num (count + 1) (omega arith) (omega arith) hy
                hs (pack_octet-carry 0 y x (omega arith) hx) w.1 (omega arith)))
      | inr e ↦
          let lt : k < 7 = ground (arith, e) in
          middle k p po num count x (y ∷ ys) z lt hp hx carry (omega arith) (
            unpack-pack (y ∷ ys) (k + 1) x (pack_octet k x p) num (count + 1) (omega arith)
              (omega arith) hx (hy, hs) (next_carry k x p lt hp)
              (behind k p (x ∷ y ∷ ys) (omega arith) v) (omega arith))
    ]

plain_unpack :
    (packed : Bytes) (num : ℕ) → num ≢ 0 → septets_unpack packed num ≡ unpack_loop num 0 7 0 packed
unfolding septets_unpack
plain_unpack packed num h = ground (arith, h)

plain_pack : (x : ℕ) (xs : Bytes) → septets_pack (x ∷ xs) 0 ≡ pack_loop 0 x xs
unfolding septets_pack
plain_pack x xs = refl

-- Packing septets with no padding and unpacking as many gives the same septets, if they have
-- seven bits each and no eighth one is 0.
pub septets_unpack-septets_pack :
    (septets : Bytes)
    → All IsSeptet septets
    → NoEighthZero 0 septets
    → septets_unpack (septets_pack septets 0) (length septets) ≡ septets
septets_unpack-septets_pack [] h v =
    unfold septets_unpack septets_pack unpack_loop unpack_end in refl
septets_unpack-septets_pack (x ∷ []) (hx, h) v =
    plain_unpack _ 1 (omega arith)
    ∙ ap (unpack_loop 1 0 7 0) (plain_pack x [] ∙ pack_last 0 x (omega arith))
    ∙ unpack_wrap_last 1 0 0 (x / 2 ^ 0) (omega arith)
    ∙ ap (λ t. t ∷ []) (bit_and_low 7 (x / 2 ^ 0) ∙ omega arith)
septets_unpack-septets_pack (x ∷ y ∷ ys) (hx, (hy, h)) v =
    plain_unpack _ num (omega arith)
    ∙ ap (unpack_loop num 0 7 0) (plain_pack x (y ∷ ys) ∙ pack_step 0 x y ys (omega arith) hy)
    ∙ unpack_wrap num 0 0 (pack_octet 0 y x) _ (omega arith)
    ∙ ap₂ ◌∷◌ (first_septet y x hx) (
        unpack-pack ys 1 y (pack_octet 0 y x) num 1 (omega arith) (omega arith) hy h
          (pack_octet-carry 0 y x (omega arith) hx) v.1 (omega arith))
  where
    num : ℕ
    num = suc (suc (length ys))
