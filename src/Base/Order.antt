-- ===== src/Base/Order.antt =====
-- The interface of a key type: a Boolean equality and a Boolean total order, with their laws.
-- It stands for Rust's `Ord`, which `BTreeMap`, `BTreeSet` and `sort` take.
use mathlib.Core.Path.{◌≡◌, refl}
use mathlib.Core.Bool.{Bool, true}
use mathlib.Core.Logic.{◌↔◌, ◌⊎◌}
use Prim.Native.Nat.{ℕ}
use native.Mathlib.Omega.{arith}
use my_own_mesh.Base.Tests.{leb, ◌==◌, ==_iff}

pub record Ordered {ℓ} (K : Type ℓ) : Type ℓ where
  pub eq : K → K → Bool
  pub le : K → K → Bool
  pub eq_iff : (a b : K) → (eq a b ≡ true) ↔ (a ≡ b)
  pub le_total : (a b : K) → (le a b ≡ true) ⊎ (le b a ≡ true)
  pub le_trans : (a b c : K) → le a b ≡ true → le b c ≡ true → le a c ≡ true
  pub le_antisymm : (a b : K) → le a b ≡ true → le b a ≡ true → a ≡ b

module _ {ℓ} {K : Type ℓ} (o : Ordered K) where
  pub eq_self : (a : K) → o.eq a a ≡ true
  eq_self a = (o.eq_iff a a).1 refl

pub leb_total : (a b : ℕ) → (leb a b ≡ true) ⊎ (leb b a ≡ true)
leb_total a b = ground arith

pub leb_trans : (a b c : ℕ) → leb a b ≡ true → leb b c ≡ true → leb a c ≡ true
leb_trans a b c p q = ground arith

pub leb_antisymm : (a b : ℕ) → leb a b ≡ true → leb b a ≡ true → a ≡ b
leb_antisymm a b p q = ground arith

instance abbrev pub nat_ordered : Ordered ℕ
nat_ordered = record {
  eq = ◌==◌;
  le = leb;
  eq_iff = ==_iff;
  le_total = leb_total;
  le_trans = leb_trans;
  le_antisymm = leb_antisymm;
}
