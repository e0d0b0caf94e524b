-- ===== src/Topology/Ring/Neighbours.antt =====
-- What the ring's selection can be: how many peers, and which.
use my_own_mesh.Base.{
  ap, ◌∙◌, ℕ, zero, suc, ◌+◌, ◌-◌, ◌≤◌, ◌≡◌, inl, inr, List, [], ◌∷◌, max, length, leb, ltb,
  if◌then◌else◌, arith, Bool-cases,
}
use my_own_mesh.Base.Text.{Text, text_ordered}
use my_own_mesh.Base.TreeSet.{set_insert, set_of}
use my_own_mesh.Topology.Ring.{
  add, at, position, add_unless_self, fill, around, select_ring_neighbors,
}

length-add : (x : Text) (xs : List Text) → length (add x xs) ≤ suc (length xs)
unfolding add
length-add x xs = ground arith

length-add_unless_self :
    (self_pubkey x : Text) (xs : List Text)
    → (length xs ≤ length (add_unless_self self_pubkey x xs))
      × (length (add_unless_self self_pubkey x xs) ≤ suc (length xs))
unfolding add_unless_self
length-add_unless_self self_pubkey x xs = ground arith

length-fill :
    (fuel : ℕ) (self_pubkey : Text) (ring : List Text) (my_idx n dist : ℕ) (preferred : List Text)
    → length preferred ≤ max n 2
    → length (fill fuel self_pubkey ring my_idx n dist preferred) ≤ max n 2
unfolding fill
length-fill zero self_pubkey ring my_idx n dist preferred h = h
length-fill (suc fuel) self_pubkey ring my_idx n dist preferred h =
    let with_cw = add_unless_self self_pubkey (at ring (my_idx + dist)) preferred in
    let with_ccw = add_unless_self self_pubkey (at ring ((my_idx + length ring) - dist)) with_cw in
    ground (
      arith,
      length-add_unless_self self_pubkey (at ring (my_idx + dist)) preferred,
      length-add_unless_self self_pubkey (at ring ((my_idx + length ring) - dist)) with_cw,
      length-fill fuel self_pubkey ring my_idx n (dist + 1) with_ccw,
    )

-- One more turn changes nothing once `dist` would leave the ring.
fill_enough :
    (fuel : ℕ) (self_pubkey : Text) (ring : List Text) (my_idx n dist : ℕ) (preferred : List Text)
    → length ring ≤ dist + fuel
    → fill (suc fuel) self_pubkey ring my_idx n dist preferred
      ≡ fill fuel self_pubkey ring my_idx n dist preferred
unfolding fill
fill_enough zero self_pubkey ring my_idx n dist preferred h = ground arith
fill_enough (suc fuel) self_pubkey ring my_idx n dist preferred h =
    let with_cw = add_unless_self self_pubkey (at ring (my_idx + dist)) preferred in
    let with_ccw = add_unless_self self_pubkey (at ring ((my_idx + length ring) - dist)) with_cw in
    ground (arith, fill_enough fuel self_pubkey ring my_idx n (dist + 1) with_ccw)

length-set_insert : (x : Text) (xs : List Text) → length (set_insert x xs) ≤ suc (length xs)
unfolding set_insert
length-set_insert x [] = omega arith
length-set_insert x (y ∷ xs) = ground (arith, length-set_insert x xs)

length-set_of : (xs : List Text) → length (set_of xs) ≤ length xs
unfolding set_of
length-set_of [] = omega arith
length-set_of (x ∷ xs) = omega (arith, length-set_insert x (set_of xs), length-set_of xs)

length-around :
    (self_pubkey : Text) (ring : List Text) (my_idx n : ℕ)
    → length (around self_pubkey ring my_idx n) ≤ max n 2
unfolding around
length-around self_pubkey ring my_idx n =
    length-fill (length ring) self_pubkey ring my_idx n 2 _ start
  where
    cw : List Text
    cw = add (at ring (my_idx + 1)) []

    start :
        length (if ltb 1 (length ring) then add (at ring ((my_idx + length ring) - 1)) cw else [])
        ≤ max n 2
    start = ground (
      arith,
      length-add (at ring (my_idx + 1)) [],
      length-add (at ring ((my_idx + length ring) - 1)) cw,
    )

abbrev ring_of : Text → List Text → List Text
ring_of self_pubkey peer_pubkeys = set_insert self_pubkey (set_of peer_pubkeys)

-- A member of a ring prefers at most `n` peers, or two when `n` is less than that.
length-select_ring_neighbors :
    (self_pubkey : Text) (peer_pubkeys : List Text) (n : ℕ)
    → length (select_ring_neighbors self_pubkey peer_pubkeys n) ≤ max n 2
unfolding select_ring_neighbors
length-select_ring_neighbors self_pubkey peer_pubkeys n =
    elim (Bool-cases (leb (length peer_pubkeys) n)) [
      | inl e ↦ rw e (ground (arith, length-set_of peer_pubkeys))
      | inr e ↦ rw e (
          length-around self_pubkey (ring_of self_pubkey peer_pubkeys)
            (position self_pubkey (ring_of self_pubkey peer_pubkeys)) n)
    ]

-- The walk outward from a place on the ring is over within as many turns as the ring has members:
-- more turns give the same selection.
fill_terminates :
    (extra : ℕ) (self_pubkey : Text) (ring : List Text) (my_idx n : ℕ) (preferred : List Text)
    → fill (extra + length ring) self_pubkey ring my_idx n 2 preferred
      ≡ fill (length ring) self_pubkey ring my_idx n 2 preferred
fill_terminates zero self_pubkey ring my_idx n preferred =
    ap (λ fuel. fill fuel self_pubkey ring my_idx n 2 preferred) {x = 0 + length ring} (omega arith)
fill_terminates (suc extra) self_pubkey ring my_idx n preferred =
    ap (λ fuel. fill fuel self_pubkey ring my_idx n 2 preferred) {x = suc extra + length ring}
      {y = suc (extra + length ring)} (omega arith)
    ∙ fill_enough (extra + length ring) self_pubkey ring my_idx n 2 preferred (omega arith)
    ∙ fill_terminates extra self_pubkey ring my_idx n preferred
