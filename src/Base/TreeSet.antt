-- ===== src/Base/TreeSet.antt =====
-- `BTreeSet` as the list of its elements in order, each once.
use mathlib.Core.Path.{◌≡◌, refl, ap}
use mathlib.Core.Bool.{Bool, ◌||◌}
use mathlib.Core.List.{List, [], ◌∷◌}
use native.Mathlib.Omega.{arith}
use my_own_mesh.Base.Tests.{if◌then◌else◌}
use my_own_mesh.Base.Order.{Ordered}
use my_own_mesh.Base.Lists.{any, All, length}
use mathlib.Core.Logic.{◌≢◌, ◌↔◌, ◌⊎◌}

module _ {ℓ} {K : Type ℓ} ⦃o : Ordered K⦄ where
  unfoldable pub set_insert : K → List K → List K
  set_insert k [] = k ∷ []
  set_insert k (j ∷ xs) =
      let rest = set_insert k xs in
      if o.eq k j then j ∷ xs else if o.le k j then k ∷ j ∷ xs else j ∷ rest

  -- `iter().collect::<BTreeSet<_>>()`.
  unfoldable pub set_of : List K → List K
  unfolding set_insert
  set_of [] = []
  set_of (x ∷ xs) = set_insert x (set_of xs)

  unfoldable pub contains : List K → K → Bool
  contains xs k = any (o.eq k) xs

  any-set_insert :
      (p : K → Bool) (k : K) (xs : List K) → any p (set_insert k xs) ≡ (p k || any p xs)
  unfolding set_insert
  any-set_insert p k [] = ground arith
  any-set_insert p k (j ∷ xs) = ground (arith, any-set_insert p k xs, o.eq_iff k j)

  -- A set has an element that passes a test exactly when the list it was made of has one.
  pub any-set_of : (p : K → Bool) (xs : List K) → any p (set_of xs) ≡ any p xs
  unfolding set_of
  any-set_of p [] = refl
  any-set_of p (x ∷ xs) = ground (arith, any-set_insert p x (set_of xs), any-set_of p xs)

  set_insert-ne-nil : (k : K) (xs : List K) → set_insert k xs ≢ []
  unfolding set_insert
  set_insert-ne-nil k [] e = cc
  set_insert-ne-nil k (j ∷ xs) e = ground arith

  pub set_of-eq-nil : (xs : List K) → set_of xs ≡ [] → xs ≡ []
  unfolding set_of
  set_of-eq-nil [] h = refl
  set_of-eq-nil (x ∷ xs) h = absurd (set_insert-ne-nil x (set_of xs) h)

  set_insert_single :
      (k a : K) (xs : List K) → set_insert k xs ≡ a ∷ [] → (k ≡ a) × ((xs ≡ []) ⊎ (xs ≡ a ∷ []))
  unfolding set_insert
  set_insert_single k a [] h = ground arith
  set_insert_single k a (j ∷ xs) h = ground (arith, o.eq_iff k j, set_insert-ne-nil k xs)

  set_of_single : (a : K) (xs : List K) → set_of xs ≡ a ∷ [] → All (λ x. x ≡ a) xs
  unfolding set_of
  set_of_single a [] h = tt
  set_of_single a (x ∷ xs) h =
      ground (
        arith,
        set_insert_single x a (set_of xs) h,
        set_of-eq-nil xs,
        set_of_single a xs,
        nil_all xs,
      )
    where
      nil_all : (ys : List K) → ys ≡ [] → All (λ y. y ≡ a) ys
      nil_all [] e = tt
      nil_all (y ∷ ys) e = cc

  single_set_of : (a : K) (xs : List K) → xs ≢ [] → All (λ x. x ≡ a) xs → set_of xs ≡ a ∷ []
  unfolding set_of set_insert
  single_set_of a [] ne h = absurd (ne refl)
  single_set_of a (x ∷ []) ne h = ground arith
  single_set_of a (x ∷ y ∷ xs) ne h =
      rw (single_set_of a (y ∷ xs) (λ e. cc) h.1) (ground (arith, o.eq_iff x a))

  single_of_length : (xs : List K) → length xs ≡ 1 → (a : K) × (xs ≡ a ∷ [])
  single_of_length [] h = absurd (omega arith)
  single_of_length (x ∷ []) h = (x, refl)
  single_of_length (x ∷ y ∷ xs) h = absurd (omega arith)

  -- The set of a list has one element exactly when the list repeats one.
  pub length-set_of_one :
      (xs : List K) → (length (set_of xs) ≡ 1) ↔ ((xs ≢ []) × ((a : K) × All (λ x. x ≡ a) xs))
  length-set_of_one xs = (
    λ h. let (a, e) = single_of_length (set_of xs) h in (not_nil xs h, (a, set_of_single a xs e)),
    λ h. ap length (single_set_of h.1.0 xs h.0 h.1.1),
  )
    where
      not_nil : (ys : List K) → length (set_of ys) ≡ 1 → ys ≢ []
      not_nil [] e f = absurd (unfold set_of in omega arith)
      not_nil (y ∷ ys) e f = cc
