-- ===== src/Base/OrderedMap.antt =====
-- `std::map` as the list of its entries in the order of their keys.
pub mod Numbered
use Prim.Native.Nat.{ℕ, zero, suc, ◌+◌, ◌≤◌, ◌<◌, compare, Ordering}
use mathlib.Core.Path.{◌≡◌, refl, sym, ap, ◌∙◌}
use mathlib.Core.List.{List, [], ◌∷◌, ◌++◌, append-nil, append_assoc}
use mathlib.Core.List.{Permᴰ}
use mathlib.Core.Logic.{◌≢◌}
use mathlib.Core.Option.{Option, none, some}
use native.Mathlib.Omega.{arith}
use sms_relay.Base.Lists.{All, length}
use sms_relay.Base.Numbers.{Bytes}

-- The order of `std::string`.
unfoldable pub compare_bytes : Bytes → Bytes → Ordering
compare_bytes [] [] = Ordering.eq
compare_bytes [] (y ∷ b) = Ordering.lt
compare_bytes (x ∷ a) [] = Ordering.gt
compare_bytes (x ∷ a) (y ∷ b) = elim (compare x y) [
  | Ordering.lt ↦ Ordering.lt
  | Ordering.eq ↦ compare_bytes a b
  | Ordering.gt ↦ Ordering.gt
]

module _ {ℓ κ} {K : Type ℓ} {V : Type κ} where
  -- `m[k] = v`
  unfoldable pub assign : (K → K → Ordering) → K → V → List (K × V) → List (K × V)
  assign order k v [] = (k, v) ∷ []
  assign order k v ((k', v') ∷ m) = elim (order k k') [
    | Ordering.lt ↦ (k, v) ∷ (k', v') ∷ m
    | Ordering.eq ↦ (k, v) ∷ m
    | Ordering.gt ↦ (k', v') ∷ assign order k v m
  ]

  -- The value of a key.
  unfoldable pub lookup : (K → K → Ordering) → K → List (K × V) → Option V
  lookup order k [] = none
  lookup order k ((k', v) ∷ m) = elim (order k k') [ Ordering.eq ↦ some v | _ ↦ lookup order k m ]

  unfoldable pub erase : (K → K → Ordering) → K → List (K × V) → List (K × V)
  erase order k [] = []
  erase order k ((k', v) ∷ m) = elim (order k k') [
    | Ordering.eq ↦ m
    | _ ↦ (k', v) ∷ erase order k m
  ]

  -- A loop of assignments.
  unfoldable pub assign_all : (K → K → Ordering) → List (K × V) → List (K × V) → List (K × V)
  unfolding assign
  assign_all order [] m = m
  assign_all order ((k, v) ∷ entries) m = assign_all order entries (assign order k v m)

  pub lookup-assign :
      (order : K → K → Ordering) (k : K) (v : V) (m : List (K × V))
      → order k k ≡ Ordering.eq
      → lookup order k (assign order k v m) ≡ some v
  unfolding lookup assign
  lookup-assign order k v [] h = ground (arith, h)
  lookup-assign order k v ((k', v') ∷ m) h = ground (arith, h, lookup-assign order k v m h)

  -- An assignment overwrites an earlier one.
  pub assign-assign :
      (order : K → K → Ordering) (k : K) (v w : V) (m : List (K × V))
      → order k k ≡ Ordering.eq
      → assign order k w (assign order k v m) ≡ assign order k w m
  unfolding assign
  assign-assign order k v w [] h = ground (arith, h)
  assign-assign order k v w ((k', v') ∷ m) h = ground (arith, h, assign-assign order k v w m h)

  pub erase-assign :
      (order : K → K → Ordering) (k : K) (v : V) (m : List (K × V))
      → order k k ≡ Ordering.eq
      → lookup order k m ≡ none
      → erase order k (assign order k v m) ≡ m
  unfolding erase assign lookup
  erase-assign order k v [] h e = ground (arith, h)
  erase-assign order k v ((k', v') ∷ m) h e = ground (arith, h, e, erase-assign order k v m h)

  pub length-assign :
      (order : K → K → Ordering) (k : K) (v : V) (m : List (K × V))
      → length (assign order k v m) ≤ suc (length m)
  unfolding assign
  length-assign order k v [] = omega arith
  length-assign order k v ((k', v') ∷ m) = ground (arith, length-assign order k v m)

  pub assign_not_empty :
      (order : K → K → Ordering) (k : K) (v : V) (m : List (K × V)) → assign order k v m ≢ []
  unfolding assign
  assign_not_empty order k v [] h = cc
  assign_not_empty order k v ((k', v') ∷ m) h = ground (arith, h)
