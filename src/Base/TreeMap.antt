-- ===== src/Base/TreeMap.antt =====
-- `BTreeMap` as an association list kept in the order of its keys. The head of the list is the
-- least key, so reading the list is iterating over the map.
use mathlib.Core.Path.{◌≡◌, refl}
use mathlib.Core.Bool.{Bool, true, false}
use mathlib.Core.List.{List, [], ◌∷◌}
use mathlib.Core.Option.{Option, none, some}
use native.Mathlib.Omega.{arith}
use my_own_mesh.Base.Tests.{if◌then◌else◌, is_some, or_else}
use my_own_mesh.Base.Order.{Ordered, eq_self}

abbrev pub TreeMap {ℓ κ} : Type ℓ → Type κ → Type (ℓ ⊔ κ)
TreeMap K V = List (K × V)

module _ {ℓ κ} {K : Type ℓ} {V : Type κ} ⦃o : Ordered K⦄ where
  unfoldable pub lookup : K → TreeMap K V → Option V
  lookup k [] = none
  lookup k ((j, v) ∷ m) = let rest = lookup k m in if o.eq k j then some v else rest

  unfoldable pub contains_key : K → TreeMap K V → Bool
  unfolding lookup
  contains_key k m = is_some (lookup k m)

  unfoldable pub insert : K → V → TreeMap K V → TreeMap K V
  insert k v [] = (k, v) ∷ []
  insert k v ((j, w) ∷ m) =
      let rest = insert k v m in
      if o.eq k j then (k, v) ∷ m else if o.le k j then (k, v) ∷ (j, w) ∷ m else (j, w) ∷ rest

  unfoldable pub remove : K → TreeMap K V → TreeMap K V
  remove k [] = []
  remove k ((j, w) ∷ m) = let rest = remove k m in if o.eq k j then rest else (j, w) ∷ rest

  -- `entry(k).or_insert(v)`: an entry that is there stays.
  unfoldable pub or_insert : K → V → TreeMap K V → TreeMap K V
  unfolding lookup insert
  or_insert k v m = elim (lookup k m) [ none ↦ insert k v m | some w ↦ m ]

  pub lookup-insert :
      (q k : K) (v : V) (m : TreeMap K V)
      → lookup q (insert k v m) ≡ (if o.eq q k then some v else lookup q m)
  unfolding lookup insert
  lookup-insert q k v [] = ground arith
  lookup-insert q k v ((j, w) ∷ m) =
      ground (arith, lookup-insert q k v m, o.eq_iff q k, o.eq_iff k j, o.eq_iff q j)

  pub lookup-remove :
      (q k : K) (m : TreeMap K V) → lookup q (remove k m) ≡ (if o.eq q k then none else lookup q m)
  unfolding lookup remove
  lookup-remove q k [] = ground arith
  lookup-remove q k ((j, w) ∷ m) =
      ground (arith, lookup-remove q k m, o.eq_iff q k, o.eq_iff k j, o.eq_iff q j)

  pub lookup-or_insert :
      (q k : K) (v : V) (m : TreeMap K V)
      → lookup q (or_insert k v m) ≡ or_else (lookup q m) (if o.eq q k then some v else none)
  unfolding or_insert
  lookup-or_insert q k v m = ground (arith, lookup-insert q k v m, o.eq_iff q k)

  -- Every key of the map lies strictly above `k`.
  abbrev pub Above : K → TreeMap K V → Type ℓ
  Above k [] = Unit
  Above k ((j, w) ∷ m) = (o.le k j ≡ true) × (o.eq k j ≡ false) × Above k m

  abbrev pub IsSorted : TreeMap K V → Type ℓ
  IsSorted [] = Unit
  IsSorted ((j, w) ∷ m) = Above j m × IsSorted m

  pub lookup-Above : (k : K) (m : TreeMap K V) → Above k m → lookup k m ≡ none
  unfolding lookup
  lookup-Above k [] h = refl
  lookup-Above k ((j, w) ∷ m) h = ground (arith, lookup-Above k m h.2)

  pub Above-trans :
      (k j : K) (m : TreeMap K V) → o.le k j ≡ true → o.eq k j ≡ false → Above j m → Above k m
  Above-trans k j [] p ne h = tt
  Above-trans k j ((i, w) ∷ m) p ne h = ground (
    arith,
    Above-trans k j m p ne h.2,
    o.le_trans k j i,
    o.le_antisymm k j,
    o.eq_iff k i,
    o.eq_iff k j,
  )

  Above-insert :
      (j k : K) (v : V) (m : TreeMap K V)
      → o.le j k ≡ true
      → o.eq j k ≡ false
      → Above j m
      → Above j (insert k v m)
  unfolding insert
  Above-insert j k v [] p ne h = (p, ne, tt)
  Above-insert j k v ((i, w) ∷ m) p ne h = ground (arith, Above-insert j k v m p ne h.2)

  pub insert-IsSorted : (k : K) (v : V) (m : TreeMap K V) → IsSorted m → IsSorted (insert k v m)
  unfolding insert
  insert-IsSorted k v [] h = (tt, tt)
  insert-IsSorted k v ((j, w) ∷ m) h = ground (
    arith,
    insert-IsSorted k v m h.1,
    Above-insert j k v m,
    Above-trans k j m,
    o.le_total k j,
    o.eq_iff k j,
    o.eq_iff j k,
  )

  pub or_insert-IsSorted :
      (k : K) (v : V) (m : TreeMap K V) → IsSorted m → IsSorted (or_insert k v m)
  unfolding or_insert
  or_insert-IsSorted k v m h = ground (arith, insert-IsSorted k v m h)

  -- Two sorted maps with the same entries are the same list.
  pub sorted_ext :
      (m n : TreeMap K V) → IsSorted m → IsSorted n → ((q : K) → lookup q m ≡ lookup q n) → m ≡ n
  unfolding lookup
  sorted_ext [] [] h h' e = refl
  sorted_ext [] ((j, w) ∷ n) h h' e = ground (arith, e j, eq_self o j)
  sorted_ext ((j, w) ∷ m) [] h h' e = ground (arith, e j, eq_self o j)
  sorted_ext ((j, w) ∷ m) ((i, v) ∷ n) h h' e =
      ground (arith, same_head, sorted_ext m n h.1 h'.1 same_tail)
    where
      same_head : (j ≡ i) × (w ≡ v)
      same_head = ground (
        arith,
        e j,
        e i,
        o.eq_iff j i,
        o.eq_iff i j,
        eq_self o j,
        eq_self o i,
        o.le_total j i,
        lookup-Above i m,
        lookup-Above j n,
        Above-trans i j m,
        Above-trans j i n,
      )

      same_tail : (q : K) → lookup q m ≡ lookup q n
      same_tail q =
          ground
            (arith, same_head, e q, o.eq_iff q j, o.eq_iff q i, lookup-Above j m, lookup-Above i n)

  Above-remove : (j k : K) (m : TreeMap K V) → Above j m → Above j (remove k m)
  unfolding remove
  Above-remove j k [] h = tt
  Above-remove j k ((i, w) ∷ m) h = ground (arith, Above-remove j k m h.2)

  pub remove-IsSorted : (k : K) (m : TreeMap K V) → IsSorted m → IsSorted (remove k m)
  unfolding remove
  remove-IsSorted k [] h = tt
  remove-IsSorted k ((j, w) ∷ m) h = ground (arith, remove-IsSorted k m h.1, Above-remove j k m h.0)
