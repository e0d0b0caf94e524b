-- ===== src/Governance/Equality.antt =====
-- The equality of topologies that the source derives decides equality.
use my_own_mesh.Base.{ℕ, ◌≡◌, refl, ◌↔◌, true, Option, List, [], ◌∷◌, arith}
use my_own_mesh.Base.Text.{Text, text_eq_iff, text_eq_self}
use my_own_mesh.Governance.{
  TopologyMode, ring, star, hubs, full_mesh, texts_eq, option_eq, topology_eq,
}

pub texts_eq→eq : (a b : List Text) → texts_eq a b ≡ true → a ≡ b
unfolding texts_eq
texts_eq→eq [] [] h = refl
texts_eq→eq [] (y ∷ ys) h = cc
texts_eq→eq (x ∷ xs) [] h = cc
texts_eq→eq (x ∷ xs) (y ∷ ys) h = ground (arith, texts_eq→eq xs ys, text_eq_iff x y)

texts_eq_self : (a : List Text) → texts_eq a a ≡ true
unfolding texts_eq
texts_eq_self [] = refl
texts_eq_self (x ∷ xs) = ground (arith, texts_eq_self xs, text_eq_self x)

option_eq→eq : (a b : Option ℕ) → option_eq a b ≡ true → a ≡ b
unfolding option_eq
option_eq→eq a b h = ground arith

option_eq_self : (a : Option ℕ) → option_eq a a ≡ true
unfolding option_eq
option_eq_self a = ground arith

pub topology_eq→eq : (t u : TopologyMode) → topology_eq t u ≡ true → t ≡ u
unfolding topology_eq
topology_eq→eq (ring n) (ring m) h = ground (arith, option_eq→eq n m)
topology_eq→eq (star a) (star b) h = ground (arith, text_eq_iff a b)
topology_eq→eq (hubs hs r) (hubs ks q) h = ground (arith, texts_eq→eq hs ks, option_eq→eq r q)
topology_eq→eq full_mesh full_mesh h = refl
topology_eq→eq _ _ h = cc

topology_eq_self : (t : TopologyMode) → topology_eq t t ≡ true
unfolding topology_eq
topology_eq_self (ring n) = option_eq_self n
topology_eq_self (star a) = text_eq_self a
topology_eq_self (hubs hs r) = ground (arith, texts_eq_self hs, option_eq_self r)
topology_eq_self full_mesh = refl

pub topology_eq_iff : (t u : TopologyMode) → (topology_eq t u ≡ true) ↔ (t ≡ u)
topology_eq_iff t u = (topology_eq→eq t u, λ e. rw e (topology_eq_self u))
