-- ===== src/Topology/Ring.antt =====
-- The ring: crates/myownmesh-core/src/topology/ring.rs. A `HashSet` of preferred peers is a list
-- without repetition, the latest first.
pub mod Neighbours
pub mod Nearest
use my_own_mesh.Base.{
  ℕ, zero, suc, ◌+◌, ◌-◌, ◌%◌, Bool, true, false, not, ◌&&◌, ◌||◌, Option, none, some, List, [],
  ◌∷◌, ◌++◌, max, min, length, get_elem?, any, filterb, leb, ltb, ◌==◌, if◌then◌else◌, is_none,
  unwrap_or,
}
use my_own_mesh.Base.Text.{Text, text_eq, text_ordered}
use my_own_mesh.Base.TreeSet.{set_insert, set_of}
use my_own_mesh.Topology.{pubkey_part, same_key}

pub has : List Text → Text → Bool
unfolding text_eq
has xs x = any (λ y. text_eq y x) xs

-- `HashSet::insert`.
pub add : Text → List Text → List Text
unfolding has
add x xs = if has xs x then xs else x ∷ xs

-- `ring.iter().position(|s| *s == id)`, and the length of the list if it is not there.
pub position : Text → List Text → ℕ
unfolding text_eq
position id [] = 0
position id (x ∷ xs) = let rest = position id xs in if text_eq x id then 0 else suc rest

-- `ring[i % ring.len()]`, where the code reads a ring that is not empty.
pub at : List Text → ℕ → Text
at ring i = unwrap_or (get_elem? ring (i % length ring)) []

pub add_unless_self : Text → Text → List Text → List Text
unfolding has text_eq
add_unless_self self_pubkey x preferred =
    if not (text_eq x self_pubkey) && not (has preferred x) then x ∷ preferred else preferred

-- The loop that walks outward. `fuel` bounds its turns; `ring.len()` is enough, for `dist` rises.
pub fill : ℕ → Text → List Text → ℕ → ℕ → ℕ → List Text → List Text
unfolding at add_unless_self
fill zero self_pubkey ring my_idx n dist preferred = preferred
fill (suc fuel) self_pubkey ring my_idx n dist preferred =
    let with_cw = add_unless_self self_pubkey (at ring (my_idx + dist)) preferred in
    let with_ccw = add_unless_self self_pubkey (at ring ((my_idx + length ring) - dist)) with_cw in
    let rest = fill fuel self_pubkey ring my_idx n (dist + 1) with_ccw in
    if ltb (length preferred) n && ltb dist (length ring)
    then if leb n (length with_cw) && ltb (length preferred) (length with_cw) then with_cw else rest
    else preferred

-- The two neighbours on the ring, then others outward up to `n`.
pub around : Text → List Text → ℕ → ℕ → List Text
unfolding at add fill
around self_pubkey ring my_idx n = fill (length ring) self_pubkey ring my_idx n 2 (
    if ltb 1 (length ring)
    then add (at ring ((my_idx + length ring) - 1)) (add (at ring (my_idx + 1)) [])
    else [])

pub select_ring_neighbors : Text → List Text → ℕ → List Text
unfolding set_insert set_of position around
select_ring_neighbors self_pubkey peer_pubkeys n =
    if leb (length peer_pubkeys) n
    then set_of peer_pubkeys
    else let ring = set_insert self_pubkey (set_of peer_pubkeys) in
      around self_pubkey ring (position self_pubkey ring) n

-- Everyone but `me`, the ends of the edge included.
unfoldable pub others : Text → Text → Text → List Text → List Text
unfolding has text_eq
others a b me everyone =
    let known = filterb (λ x. not (text_eq x me)) everyone in
    let with_a = if not (text_eq a me) && not (has known a) then known ++ a ∷ [] else known in
    if not (text_eq b me) && not (has with_a b) then with_a ++ b ∷ [] else with_a

unfoldable pub edge : ℕ → Text → Text → List Text → Bool
unfolding has others select_ring_neighbors
edge n a b everyone =
    has (select_ring_neighbors a (others a b a everyone) n) b
    || has (select_ring_neighbors b (others a b b everyone) n) a

-- How many bytes two ids share at their front.
common_prefix : Text → Text → ℕ
common_prefix [] ys = 0
common_prefix (x ∷ xs) [] = 0
common_prefix (x ∷ xs) (y ∷ ys) = let rest = common_prefix xs ys in if x == y then suc rest else 0

pub ring_distance : Text → Text → ℕ
unfolding common_prefix
ring_distance a b =
    let max_len = max (max (length a) (length b)) 1 in max_len - min (common_prefix a b) max_len

-- `best.map(|(bd, _)| d < bd).unwrap_or(true)`.
abbrev is_nearer : ℕ → Option (ℕ × Text) → Bool
is_nearer d none = true
is_nearer d (some b) = ltb d b.0

-- The loop over the connected peers, with the best one so far.
pub best_hop : Text → Text → Option (ℕ × Text) → List Text → Option (ℕ × Text)
unfolding ring_distance pubkey_part same_key
best_hop self_id dest best [] = best
best_hop self_id dest best (c ∷ connected) =
    let d = ring_distance (pubkey_part c) (pubkey_part dest) in
    best_hop self_id dest
      (if same_key c self_id then best else if is_nearer d best then some (d, c) else best)
      connected

pub next_hops : Text → Text → List Text → List Text
unfolding best_hop
next_hops self_id dest connected = elim (best_hop self_id dest none connected) [
  | none ↦ []
  | some b ↦ b.1 ∷ []
]
