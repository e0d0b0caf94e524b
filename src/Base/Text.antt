-- ===== src/Base/Text.antt =====
-- Strings as lists of bytes, which is how Rust compares and orders `str`.
use mathlib.Core.Path.{◌≡◌, refl}
use mathlib.Core.Bool.{Bool, true, false, ◌&&◌}
use mathlib.Core.Logic.{◌↔◌, ◌⊎◌, inl, inr}
use mathlib.Core.List.{List, [], ◌∷◌}
use Prim.Native.Nat.{ℕ}
use Prim.Native.Char.{code}
use Prim.Native.String.{String}
use native.Mathlib.Omega.{arith}
use my_own_mesh.Base.Tests.{ltb, ◌==◌, if◌then◌else◌}
use my_own_mesh.Base.Order.{Ordered}

abbrev pub Text : Type 0
Text = List ℕ

-- The bytes of an ASCII literal.
abbrev pub bytes : String → Text
bytes String.[] = []
bytes (String.◌∷◌ c s) = code c ∷ bytes s

unfoldable pub text_eq : Text → Text → Bool
text_eq [] [] = true
text_eq (x ∷ xs) (y ∷ ys) = (x == y) && text_eq xs ys
text_eq _ _ = false

-- Lexicographic order of the bytes.
unfoldable pub text_le : Text → Text → Bool
text_le [] ys = true
text_le (x ∷ xs) [] = false
text_le (x ∷ xs) (y ∷ ys) =
    let rest = text_le xs ys in if ltb x y then true else if x == y then rest else false

pub text_eq_self : (a : Text) → text_eq a a ≡ true
unfolding text_eq
text_eq_self [] = refl
text_eq_self (x ∷ xs) = ground (arith, text_eq_self xs)

text_eq→eq : (a b : Text) → text_eq a b ≡ true → a ≡ b
unfolding text_eq
text_eq→eq [] [] h = refl
text_eq→eq [] (y ∷ ys) h = cc
text_eq→eq (x ∷ xs) [] h = cc
text_eq→eq (x ∷ xs) (y ∷ ys) h = ground (arith, text_eq→eq xs ys)

pub text_eq_iff : (a b : Text) → (text_eq a b ≡ true) ↔ (a ≡ b)
text_eq_iff a b = (text_eq→eq a b, λ e. rw e (text_eq_self b))

pub text_le_total : (a b : Text) → (text_le a b ≡ true) ⊎ (text_le b a ≡ true)
unfolding text_le
text_le_total [] b = inl refl
text_le_total (x ∷ xs) [] = inr refl
text_le_total (x ∷ xs) (y ∷ ys) = ground (arith, text_le_total xs ys)

pub text_le_trans : (a b c : Text) → text_le a b ≡ true → text_le b c ≡ true → text_le a c ≡ true
unfolding text_le
text_le_trans [] b c p q = refl
text_le_trans (x ∷ xs) [] c p q = cc
text_le_trans (x ∷ xs) (y ∷ ys) [] p q = cc
text_le_trans (x ∷ xs) (y ∷ ys) (z ∷ zs) p q = ground (arith, text_le_trans xs ys zs)

pub text_le_antisymm : (a b : Text) → text_le a b ≡ true → text_le b a ≡ true → a ≡ b
unfolding text_le
text_le_antisymm [] [] p q = refl
text_le_antisymm [] (y ∷ ys) p q = cc
text_le_antisymm (x ∷ xs) [] p q = cc
text_le_antisymm (x ∷ xs) (y ∷ ys) p q = ground (arith, text_le_antisymm xs ys)

instance abbrev pub text_ordered : Ordered Text
text_ordered = record {
  eq = text_eq;
  le = text_le;
  eq_iff = text_eq_iff;
  le_total = text_le_total;
  le_trans = text_le_trans;
  le_antisymm = text_le_antisymm;
}
