-- ===== src/Base/OrderedMap/Numbered.antt =====
-- Assignments to a `std::map` with numbers as keys, in any order.
use Prim.Native.Nat.{ℕ, suc, ◌+◌, ◌<◌, compare}
use mathlib.Core.Path.{◌≡◌, refl, sym, ap, ◌∙◌}
use mathlib.Core.List.{List, [], ◌∷◌, ◌++◌, Permᴰ, append_assoc, append-nil}
use native.Mathlib.Omega.{arith}
use sms_relay.Base.Lists.{All, All-append, length}
use sms_relay.Base.OrderedMap.{assign, assign_all}

module _ {V : Type 0} where
  -- Two assignments commute if equal keys come with equal values.
  pub assign_swap :
      (k k' : ℕ) (v v' : V) (m : List (ℕ × V))
      → (k ≡ k' → v ≡ v')
      → assign compare k v (assign compare k' v' m) ≡ assign compare k' v' (assign compare k v m)
  unfolding assign
  assign_swap k k' v v' [] h = ground (arith, h)
  assign_swap k k' v v' ((j, w) ∷ m) h = ground (arith, h, assign_swap k k' v v' m h)

  pub perm-length : {xs ys : List (ℕ × V)} → Permᴰ xs ys → length xs ≡ length ys
  perm-length Permᴰ.nil = refl
  perm-length (Permᴰ.cons e d) = ap suc (perm-length d)
  perm-length (Permᴰ.swap e e') = refl
  perm-length (Permᴰ.trans d d') = perm-length d ∙ perm-length d'

  -- The entries of a function.
  abbrev pub AreOf : (ℕ → V) → List (ℕ × V) → Type 0
  AreOf f entries = All (λ p. p.1 ≡ f p.0) entries

  pub perm-AreOf :
      (f : ℕ → V) {entries entries' : List (ℕ × V)}
      → Permᴰ entries entries'
      → AreOf f entries
      → AreOf f entries'
  perm-AreOf f Permᴰ.nil h = tt
  perm-AreOf f (Permᴰ.cons e d) (h, hs) = (cc, perm-AreOf f d hs)
  perm-AreOf f (Permᴰ.swap e e') (h, (h', hs)) = (cc, (cc, hs))
  perm-AreOf f (Permᴰ.trans d d') h = perm-AreOf f d' (perm-AreOf f d h)

  pub assign_all-perm :
      (f : ℕ → V) {entries entries' : List (ℕ × V)} (m : List (ℕ × V))
      → Permᴰ entries entries'
      → AreOf f entries
      → assign_all compare entries m ≡ assign_all compare entries' m
  unfolding assign_all
  assign_all-perm f m Permᴰ.nil h = refl
  assign_all-perm f m (Permᴰ.cons {l₁} {l₂} e d) (h, hs) =
      assign_all-perm f (assign compare _ _ m) d hs
      ∙ ap (λ p. assign_all compare l₂ (assign compare p.0 p.1 m)) e
  assign_all-perm f m (Permᴰ.swap {a} {b} {a'} {b'} {l} e e') (h, (h', hs)) =
      ap (assign_all compare l) (
        assign_swap b.0 a.0 b.1 a.1 m (λ q. cc)
        ∙ ap (λ p. assign compare p.0 p.1 (assign compare b.0 b.1 m)) e
        ∙ ap (λ p. assign compare b'.0 b'.1 (assign compare p.0 p.1 m)) e')
  assign_all-perm f m (Permᴰ.trans d d') h =
      assign_all-perm f m d h ∙ assign_all-perm f m d' (perm-AreOf f d h)

  -- Keys from `first` on.
  abbrev pub numbered : ℕ → List V → List (ℕ × V)
  numbered first [] = []
  numbered first (v ∷ values) = (first, v) ∷ numbered (first + 1) values

  assign_last :
      (k : ℕ) (v : V) (m : List (ℕ × V))
      → All (λ p. p.0 < k) m
      → assign compare k v m ≡ m ++ (k, v) ∷ []
  unfolding assign
  assign_last k v [] h = refl
  assign_last k v ((j, w) ∷ m) (h, hs) = ground (arith, assign_last k v m hs)

  weaken : (k : ℕ) (m : List (ℕ × V)) → All (λ p. p.0 < k) m → All (λ p. p.0 < k + 1) m
  weaken k [] h = tt
  weaken k (p ∷ m) (h, hs) = (omega arith, weaken k m hs)

  assign_all-behind :
      (first : ℕ) (values : List V) (m : List (ℕ × V))
      → All (λ p. p.0 < first) m
      → assign_all compare (numbered first values) m ≡ m ++ numbered first values
  unfolding assign_all
  assign_all-behind first [] m h = sym (append-nil m)
  assign_all-behind first (v ∷ values) m h =
      ap (assign_all compare (numbered (first + 1) values)) (assign_last first v m h)
      ∙ assign_all-behind (first + 1) values (m ++ (first, v) ∷ []) (
          All-append (λ p. p.0 < first + 1) m ((first, v) ∷ []) (weaken first m h)
            (omega arith, tt))
      ∙ append_assoc m ((first, v) ∷ []) (numbered (first + 1) values)

  pub assign_all-numbered :
      (first : ℕ) (values : List V)
      → assign_all compare (numbered first values) [] ≡ numbered first values
  assign_all-numbered first values = assign_all-behind first values [] tt
