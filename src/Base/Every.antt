-- ===== src/Base/Every.antt =====
-- What holds of every entry of a list, through the operations on lists.
use mathlib.Core.Path.{◌≡◌, sym, ap, subst}
use mathlib.Core.Bool.{Bool, ◌||◌}
use mathlib.Core.Logic.{inl, inr}
use mathlib.Core.List.{List, [], ◌∷◌, ◌++◌}
use mathlib.Core.Option.{some, some-injective}
use native.Mathlib.Omega.{arith}
use my_own_mesh.Base.Tests.{Bool-cases}
use my_own_mesh.Base.Lists.{All, any, filterb, find?, update_first}

module _ {A : Type 0} (P : A → Type 0) where
  pub All-filterb : (test : A → Bool) (xs : List A) → All P xs → All P (filterb test xs)
  All-filterb test [] h = tt
  All-filterb test (x ∷ xs) h = elim (Bool-cases (test x)) [
    | inl e ↦ rw e (h.0, All-filterb test xs h.1)
    | inr e ↦ rw e (All-filterb test xs h.1)
  ]

  pub All-snoc : (xs : List A) (x : A) → All P xs → P x → All P (xs ++ x ∷ [])
  All-snoc [] x h p = (p, tt)
  All-snoc (y ∷ xs) x h p = (h.0, All-snoc xs x h.1 p)

  pub All-find? : (test : A → Bool) (xs : List A) (x : A) → All P xs → find? test xs ≡ some x → P x
  All-find? test [] x h e = cc
  All-find? test (y ∷ xs) x h e = elim (Bool-cases (test y)) [
    | inl f ↦ let k : some y ≡ some x = rw f at e in subst P (some-injective y x k) h.0
    | inr f ↦ All-find? test xs x h.1 (rw f at e)
  ]

  pub All-update_first :
      (test : A → Bool) (f : A → A) (xs : List A) (x : A)
      → All P xs
      → find? test xs ≡ some x
      → P (f x)
      → All P (update_first test f xs)
  All-update_first test f [] x h e p = cc
  All-update_first test f (y ∷ xs) x h e p = elim (Bool-cases (test y)) [
    | inl t ↦
        let k : some y ≡ some x = rw t at e in
        rw t (subst (λ z. P (f z)) (sym (some-injective y x k)) p, h.1)
    | inr t ↦ rw t (h.0, All-update_first test f xs x h.1 (rw t at e) p)
  ]

  -- A change that keeps the property wherever it is made.
  pub All-update_all :
      (test : A → Bool) (f : A → A) (xs : List A)
      → ((x : A) → P x → P (f x))
      → All P xs
      → All P (update_first test f xs)
  All-update_all test f [] keep h = tt
  All-update_all test f (y ∷ xs) keep h = elim (Bool-cases (test y)) [
    | inl t ↦ rw t (keep y h.0, h.1)
    | inr t ↦ rw t (h.0, All-update_all test f xs keep h.1)
  ]

pub any-snoc {ℓ} :
    {A : Type ℓ} (p : A → Bool) (xs : List A) (x : A) → any p (xs ++ x ∷ []) ≡ any p xs || p x
any-snoc p [] x = ground arith
any-snoc p (y ∷ xs) x = ground (arith, any-snoc p xs x)

module _ {A : Type 0} (test : A → Bool) (f : A → A) (keeps : (x : A) → test (f x) ≡ test x) where
  pub find?-update_first :
      (xs : List A) (x : A)
      → find? test xs ≡ some x
      → find? test (update_first test f xs) ≡ some (f x)
  find?-update_first [] x e = cc
  find?-update_first (y ∷ xs) x e = elim (Bool-cases (test y)) [
    | inl t ↦
        let k : some y ≡ some x = rw t at e in
        rw (t, keeps y, t) (ap (λ (z : A). some (f z)) (some-injective y x k))
    | inr t ↦ rw (t, t) (find?-update_first xs x (rw t at e))
  ]
