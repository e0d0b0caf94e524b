-- ===== src/Topology/Hops.antt =====
-- The ranking of hubs, and the routes through them.
use my_own_mesh.Base.{
  ap, ◌∙◌, ℕ, zero, suc, ◌≡◌, refl, List, [], ◌∷◌, max, min, map, take, length, arith,
}
use my_own_mesh.Base.Text.{Text, text_ordered, text_le_total, text_le_trans, text_le_antisymm}
use my_own_mesh.Base.Sorting.{sort, IsLinear, sort-Permᴰ, length-sort}
use my_own_mesh.Topology.{pubkey_part}
use my_own_mesh.Topology.Hubs.{ranks_before, rendezvous_score, hubs_for}
use mathlib.Core.List.{Permᴰ}

ranks_before-IsLinear : IsLinear ranks_before
unfolding ranks_before
ranks_before-IsLinear = record {
  total = λ a b. ground (arith, text_le_total a.1 b.1);
  trans = λ a b c p q. ground (arith, text_le_trans a.1 b.1 c.1);
  antisymm = λ a b p q. ground (arith, text_le_antisymm a.1 b.1);
}

map-Permᴰ {ℓ κ} :
    {A : Type ℓ} {B : Type κ} (f : A → B) {xs ys : List A}
    → Permᴰ xs ys
    → Permᴰ (map f xs) (map f ys)
map-Permᴰ f Permᴰ.nil = Permᴰ.nil
map-Permᴰ f (Permᴰ.cons e p) = Permᴰ.cons (ap f e) (map-Permᴰ f p)
map-Permᴰ f (Permᴰ.swap e g) = Permᴰ.swap (ap f e) (ap f g)
map-Permᴰ f (Permᴰ.trans p q) = Permᴰ.trans (map-Permᴰ f p) (map-Permᴰ f q)

-- Nodes that list the same hubs in different orders give every spoke the same hubs in the same
-- order, whatever the digest is.
hubs_for-Permᴰ :
    (digest8 : Text → ℕ) (hubs hubs' : List Text) (spoke_redundancy : ℕ) (spoke : Text)
    → Permᴰ hubs hubs'
    → hubs_for digest8 hubs spoke_redundancy spoke ≡ hubs_for digest8 hubs' spoke_redundancy spoke
unfolding hubs_for
hubs_for-Permᴰ digest8 hubs hubs' spoke_redundancy spoke p =
    ap (λ ranked. map (λ r. r.1) (take (max spoke_redundancy 1) ranked))
      (sort-Permᴰ ranks_before ranks_before-IsLinear (
        map-Permᴰ
          (λ h. (rendezvous_score digest8 (pubkey_part spoke) (pubkey_part h), pubkey_part h)) p))

length-map {ℓ κ} :
    {A : Type ℓ} {B : Type κ} (f : A → B) (xs : List A) → length (map f xs) ≡ length xs
length-map f [] = refl
length-map f (x ∷ xs) = ap suc (length-map f xs)

length-take {ℓ} : {A : Type ℓ} (n : ℕ) (xs : List A) → length (take n xs) ≡ min n (length xs)
length-take zero xs = omega arith
length-take (suc n) [] = omega arith
length-take (suc n) (x ∷ xs) = omega (arith, length-take n xs)

abbrev scored : (Text → ℕ) → List Text → Text → List (ℕ × Text)
scored digest8 hubs spoke =
    map (λ h. (rendezvous_score digest8 (pubkey_part spoke) (pubkey_part h), pubkey_part h)) hubs

-- A spoke is given exactly as many hubs as the redundancy asks for, at least one, and all of them
-- when there are fewer.
length-hubs_for :
    (digest8 : Text → ℕ) (hubs : List Text) (spoke_redundancy : ℕ) (spoke : Text)
    → length (hubs_for digest8 hubs spoke_redundancy spoke)
      ≡ min (max spoke_redundancy 1) (length hubs)
unfolding hubs_for
length-hubs_for digest8 hubs spoke_redundancy spoke =
    length-map (λ r. r.1)
      (take (max spoke_redundancy 1) (sort ranks_before (scored digest8 hubs spoke)))
    ∙ length-take (max spoke_redundancy 1) (sort ranks_before (scored digest8 hubs spoke))
    ∙ ap (min (max spoke_redundancy 1))
        (length-sort ranks_before (scored digest8 hubs spoke) ∙ length-map _ hubs)
