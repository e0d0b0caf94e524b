-- ===== src/Base/Sorting.antt =====
-- Stable insertion sort by a Boolean order, which gives what Rust's stable `sort_by` gives.
use mathlib.Core.Path.{◌≡◌, refl, ap, ◌∙◌}
use mathlib.Core.Bool.{Bool, true}
use mathlib.Core.Logic.{◌⊎◌, inl, inr}
use mathlib.Core.List.{List, [], ◌∷◌, Permᴰ}
use native.Mathlib.Omega.{arith}
use my_own_mesh.Base.Tests.{if◌then◌else◌, Bool-cases}
use Prim.Native.Nat.{suc}
use my_own_mesh.Base.Lists.{length, All, All-map, Some, here, there}

module _ {ℓ} {A : Type ℓ} (le : A → A → Bool) where
  unfoldable pub place : A → List A → List A
  place a [] = a ∷ []
  place a (x ∷ xs) = let rest = place a xs in if le a x then a ∷ x ∷ xs else x ∷ rest

  unfoldable pub sort : List A → List A
  unfolding place
  sort [] = []
  sort (x ∷ xs) = place x (sort xs)

  -- A total order in which only equal entries tie.
  pub record IsLinear : Type ℓ where
    pub total : (a b : A) → (le a b ≡ true) ⊎ (le b a ≡ true)
    pub trans : (a b c : A) → le a b ≡ true → le b c ≡ true → le a c ≡ true
    pub antisymm : (a b : A) → le a b ≡ true → le b a ≡ true → a ≡ b

module _ {ℓ} {A : Type ℓ} (le : A → A → Bool) where
  -- Every entry stands before none that is strictly below it.
  abbrev pub IsAscending : List A → Type ℓ
  IsAscending [] = Unit
  IsAscending (x ∷ xs) = All (λ y. le x y ≡ true) xs × IsAscending xs

  All-place {κ} : (P : A → Type κ) (a : A) (xs : List A) → P a → All P xs → All P (place le a xs)
  unfolding place
  All-place P a [] p h = (p, tt)
  All-place P a (x ∷ xs) p h = elim (Bool-cases (le a x)) [
    | inl e ↦ rw e (p, h)
    | inr e ↦ rw e (h.0, All-place P a xs p h.1)
  ]

  pub All-sort {κ} : (P : A → Type κ) (xs : List A) → All P xs → All P (sort le xs)
  unfolding sort
  All-sort P [] h = tt
  All-sort P (x ∷ xs) h = All-place P x (sort le xs) h.0 (All-sort P xs h.1)

  swap_head {κ} :
      {P : A → Type κ} {a x : A} {xs ys : List A}
      → Some P (a ∷ x ∷ xs)
      → (Some P (a ∷ xs) → Some P ys)
      → Some P (x ∷ ys)
  swap_head (here p) f = there (f (here p))
  swap_head (there (here p)) f = here p
  swap_head (there (there q)) f = there (f (there q))

  Some-place {κ} : {P : A → Type κ} (a : A) (xs : List A) → Some P (a ∷ xs) → Some P (place le a xs)
  unfolding place
  Some-place a [] m = m
  Some-place a (x ∷ xs) m = elim (Bool-cases (le a x)) [
    | inl e ↦ rw e m
    | inr e ↦ rw e (swap_head m (Some-place a xs))
  ]

  pub Some-sort {κ} : {P : A → Type κ} {xs : List A} → Some P xs → Some P (sort le xs)
  unfolding sort
  Some-sort (here {x = x} {xs = xs} p) = Some-place x (sort le xs) (here p)
  Some-sort (there {x = x} {xs = xs} m) = Some-place x (sort le xs) (there (Some-sort m))

module _ {ℓ} {A : Type ℓ} (le : A → A → Bool) (lin : IsLinear le) where
  place_comm : (a b : A) (xs : List A) → place le a (place le b xs) ≡ place le b (place le a xs)
  unfolding place
  place_comm a b [] = ground (arith, lin.total a b, lin.antisymm a b)
  place_comm a b (x ∷ xs) = ground (
    arith,
    place_comm a b xs,
    lin.total a b,
    lin.antisymm a b,
    lin.trans a b x,
    lin.trans b a x,
    lin.total a x,
    lin.total b x,
  )

  -- The sorted list does not depend on the order of the input.
  pub sort-Permᴰ : {xs ys : List A} → Permᴰ xs ys → sort le xs ≡ sort le ys
  unfolding sort
  sort-Permᴰ Permᴰ.nil = refl
  sort-Permᴰ (Permᴰ.cons {b = b} {l₁ = xs} e p) = rw e (ap (place le b) (sort-Permᴰ p))
  sort-Permᴰ (Permᴰ.swap {a = a} {b = b} {l = xs} e f) = rw (← e, ← f) (place_comm a b (sort le xs))
  sort-Permᴰ (Permᴰ.trans p q) = sort-Permᴰ p ∙ sort-Permᴰ q

  place-IsAscending : (a : A) (xs : List A) → IsAscending le xs → IsAscending le (place le a xs)
  unfolding place
  place-IsAscending a [] h = (tt, tt)
  place-IsAscending a (x ∷ xs) h = elim (Bool-cases (le a x)) [
    | inl e ↦ rw e ((e, All-map xs (λ y p. lin.trans a x y e p) h.0), h)
    | inr e ↦ rw e (
      All-place le (λ y. le x y ≡ true) a xs (ground (arith, lin.total a x)) h.0,
      place-IsAscending a xs h.1,
    )
  ]

  pub sort-IsAscending : (xs : List A) → IsAscending le (sort le xs)
  unfolding sort
  sort-IsAscending [] = tt
  sort-IsAscending (x ∷ xs) = place-IsAscending x (sort le xs) (sort-IsAscending xs)

module _ {ℓ} {A : Type ℓ} (le : A → A → Bool) where
  length-place : (a : A) (xs : List A) → length (place le a xs) ≡ suc (length xs)
  unfolding place
  length-place a [] = refl
  length-place a (x ∷ xs) = ground (arith, length-place a xs)

  pub length-sort : (xs : List A) → length (sort le xs) ≡ length xs
  unfolding sort
  length-sort [] = refl
  length-sort (x ∷ xs) = length-place x (sort le xs) ∙ ap suc (length-sort xs)
