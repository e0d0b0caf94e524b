-- ===== src/Base/Lists.antt =====
-- Lists measured and searched by native numbers and Boolean tests, under the library's names.
use Prim.Native.Nat.{ℕ, zero, suc, ◌+◌, ◌≤◌}
use mathlib.Core.Path.{◌≡◌, refl}
use mathlib.Core.Bool.{Bool, true, false, ◌&&◌, ◌||◌}
use mathlib.Core.Logic.{inl, inr, ◌↔◌}
use mathlib.Core.List.{List, [], ◌∷◌, ◌++◌}
use mathlib.Core.Option.{Option, none, some}
use native.Mathlib.Omega.{arith}
use my_own_mesh.Base.Tests.{if◌then◌else◌, Bool-cases, or_else}

module _ {ℓ} {A : Type ℓ} where
  abbrev pub length : List A → ℕ
  length [] = 0
  length (x ∷ xs) = suc (length xs)

  abbrev pub get_elem? : List A → ℕ → Option A
  get_elem? [] i = none
  get_elem? (x ∷ xs) zero = some x
  get_elem? (x ∷ xs) (suc i) = get_elem? xs i

  abbrev pub take : ℕ → List A → List A
  take zero xs = []
  take (suc n) [] = []
  take (suc n) (x ∷ xs) = x ∷ take n xs

  abbrev pub first? : List A → Option A
  first? [] = none
  first? (x ∷ xs) = some x

  -- `iter().any`, `iter().all`, `iter().filter` and `iter().find`, over a test.
  abbrev pub any : (A → Bool) → List A → Bool
  any p [] = false
  any p (x ∷ xs) = p x || any p xs

  abbrev pub all : (A → Bool) → List A → Bool
  all p [] = true
  all p (x ∷ xs) = p x && all p xs

  abbrev pub filterb : (A → Bool) → List A → List A
  filterb p [] = []
  filterb p (x ∷ xs) = let rest = filterb p xs in if p x then x ∷ rest else rest

  abbrev pub find? : (A → Bool) → List A → Option A
  find? p [] = none
  find? p (x ∷ xs) = let rest = find? p xs in if p x then some x else rest

  -- `iter_mut().find`: the first entry that passes the test is changed.
  abbrev pub update_first : (A → Bool) → (A → A) → List A → List A
  update_first p f [] = []
  update_first p f (x ∷ xs) = let rest = update_first p f xs in if p x then f x ∷ xs else x ∷ rest

  -- What holds of every entry, and of some entry, by recursion on the list.
  abbrev pub All {κ} : (A → Type κ) → List A → Type κ
  All P [] = Unit
  All P (x ∷ xs) = P x × All P xs

  pub data Some {κ} (P : A → Type κ) : List A → Type (ℓ ⊔ κ) where
    here : {x : A} {xs : List A} → P x → Some P (x ∷ xs)
    there : {x : A} {xs : List A} → Some P xs → Some P (x ∷ xs)

  pub length-append : (xs ys : List A) → length (xs ++ ys) ≡ length xs + length ys
  length-append [] ys = omega arith
  length-append (x ∷ xs) ys = omega (arith, length-append xs ys)

  pub length-filterb-le : (p : A → Bool) (xs : List A) → length (filterb p xs) ≤ length xs
  length-filterb-le p [] = omega arith
  length-filterb-le p (x ∷ xs) = ground (arith, length-filterb-le p xs)

  any→Some : (p : A → Bool) (xs : List A) → any p xs ≡ true → Some (λ x. p x ≡ true) xs
  any→Some p [] h = cc
  any→Some p (x ∷ xs) h = elim (Bool-cases (p x)) [
    | inl e ↦ here e
    | inr e ↦ there (any→Some p xs (rw (e, ◌||◌) at h))
  ]

  Some→any : (p : A → Bool) (xs : List A) → Some (λ x. p x ≡ true) xs → any p xs ≡ true
  Some→any p _ (here {xs = xs} e) = rw (e, ◌||◌)
  Some→any p _ (there {x = x} {xs = xs} m) = ground (arith, Some→any p xs m)

  pub any-Some : (p : A → Bool) (xs : List A) → (any p xs ≡ true) ↔ Some (λ x. p x ≡ true) xs
  any-Some p xs = (any→Some p xs, Some→any p xs)

  pub Some-map {κ μ} :
      {P : A → Type κ} {Q : A → Type μ} {xs : List A}
      → ((x : A) → P x → Q x)
      → Some P xs
      → Some Q xs
  Some-map f (here {x = x} p) = here (f x p)
  Some-map f (there m) = there (Some-map f m)

  pub find?-append :
      (p : A → Bool) (xs ys : List A) → find? p (xs ++ ys) ≡ or_else (find? p xs) (find? p ys)
  find?-append p [] ys = refl
  find?-append p (x ∷ xs) ys = ground (arith, find?-append p xs ys)

  pub find?-sound : (p : A → Bool) (xs : List A) (a : A) → find? p xs ≡ some a → p a ≡ true
  find?-sound p [] a h = cc
  find?-sound p (x ∷ xs) a h = ground (arith, find?-sound p xs a)

  pub All-map {κ μ} :
      {P : A → Type κ} {Q : A → Type μ} (xs : List A) → ((x : A) → P x → Q x) → All P xs → All Q xs
  All-map [] f h = tt
  All-map (x ∷ xs) f h = (f x h.0, All-map xs f h.1)

  pub All-map₂ {κ μ ν} :
      {P : A → Type κ} {Q : A → Type μ} {R : A → Type ν} (xs : List A)
      → ((x : A) → P x → Q x → R x)
      → All P xs
      → All Q xs
      → All R xs
  All-map₂ [] f h k = tt
  All-map₂ (x ∷ xs) f h k = (f x h.0 k.0, All-map₂ xs f h.1 k.1)
