-- ===== src/Base/Entries.antt =====
-- A property of every value of a map, and how the map's operations keep it.
use Prim.Native.Nat.{ℕ, ◌+◌}
use mathlib.Core.Path.{◌≡◌, refl}
use mathlib.Core.List.{[], ◌∷◌}
use mathlib.Core.Option.{Option, none, some}
use native.Mathlib.Omega.{arith}
use my_own_mesh.Base.Order.{Ordered}
use my_own_mesh.Base.TreeMap.{
  TreeMap, lookup, insert, remove, Above, IsSorted, Above-trans, lookup-Above,
}

abbrev pub Every {ℓ κ μ} : {K : Type ℓ} {V : Type κ} → (V → Type μ) → TreeMap K V → Type μ
Every P [] = Unit
Every P ((k, v) ∷ m) = P v × Every P m

module _ {ℓ κ μ} {K : Type ℓ} {V : Type κ} (P : V → Type μ) ⦃o : Ordered K⦄ where
  pub Every-lookup : (k : K) (v : V) (m : TreeMap K V) → Every P m → lookup k m ≡ some v → P v
  unfolding lookup
  Every-lookup k v [] h e = cc
  Every-lookup k v ((j, w) ∷ m) h e = ground (arith, Every-lookup k v m h.1)

  pub Every-insert : (k : K) (v : V) (m : TreeMap K V) → P v → Every P m → Every P (insert k v m)
  unfolding insert
  Every-insert k v [] p h = (p, tt)
  Every-insert k v ((j, w) ∷ m) p h = ground (arith, Every-insert k v m p h.1)

  pub Every-remove : (k : K) (m : TreeMap K V) → Every P m → Every P (remove k m)
  unfolding remove
  Every-remove k [] h = tt
  Every-remove k ((j, w) ∷ m) h = ground (arith, Every-remove k m h.1)

-- A sum over the values of a map.
abbrev pub sum_of {ℓ κ} : {K : Type ℓ} {V : Type κ} → (V → ℕ) → TreeMap K V → ℕ
sum_of f [] = 0
sum_of f ((k, v) ∷ m) = f v + sum_of f m

abbrev pub held {κ} : {V : Type κ} → (V → ℕ) → Option V → ℕ
held f none = 0
held f (some v) = f v

module _ {ℓ κ} {K : Type ℓ} {V : Type κ} (f : V → ℕ) ⦃o : Ordered K⦄ where
  sum_of-remove-Above : (k : K) (m : TreeMap K V) → Above k m → sum_of f (remove k m) ≡ sum_of f m
  unfolding remove
  sum_of-remove-Above k [] h = refl
  sum_of-remove-Above k ((j, w) ∷ m) h = ground (arith, sum_of-remove-Above k m h.2)

  pub sum_of-insert :
      (k : K) (v : V) (m : TreeMap K V)
      → IsSorted m
      → sum_of f (insert k v m) + held f (lookup k m) ≡ f v + sum_of f m
  unfolding insert lookup
  sum_of-insert k v [] h = omega arith
  sum_of-insert k v ((j, w) ∷ m) h =
      ground (arith, sum_of-insert k v m h.1, lookup-Above k m, Above-trans k j m, o.eq_iff k j)

  pub sum_of-remove :
      (k : K) (m : TreeMap K V)
      → IsSorted m
      → sum_of f (remove k m) + held f (lookup k m) ≡ sum_of f m
  unfolding remove lookup
  sum_of-remove k [] h = omega arith
  sum_of-remove k ((j, w) ∷ m) h =
      ground (arith, sum_of-remove k m h.1, sum_of-remove-Above k m, o.eq_iff k j)
