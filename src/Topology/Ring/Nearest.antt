-- ===== src/Topology/Ring/Nearest.antt =====
-- Greedy routing on the ring: the next hop is a nearest one.
use my_own_mesh.Base.{
  ℕ, ◌≤◌, ◌≡◌, ◌⊎◌, true, false, Option, none, some, List, [], ◌∷◌, if◌then◌else◌, Some, All,
}
use my_own_mesh.Base.Text.{Text}
use my_own_mesh.Topology.{pubkey_part, same_key}
use my_own_mesh.Topology.Ring.{ring_distance, is_nearer}

distance : Text → Text → ℕ
distance c dest = ring_distance (pubkey_part c) (pubkey_part dest)

-- What the loop makes of one connected peer.
abbrev consider : Text → Text → Option (ℕ × Text) → Text → Option (ℕ × Text)
consider self_id dest best c =
    if same_key c self_id
    then best
    else if is_nearer (ring_distance (pubkey_part c) (pubkey_part dest)) best
    then some (ring_distance (pubkey_part c) (pubkey_part dest), c)
    else best

-- A best hop that is no worse than another one, and whose distance is its own.
abbrev IsNoWorse : Option (ℕ × Text) → Option (ℕ × Text) → Type 0
IsNoWorse (some b) none = Unit
IsNoWorse (some b) (some a) = b.0 ≤ a.0
IsNoWorse none none = Unit
IsNoWorse none (some a) = ⊥

-- A hop that is the router itself, or that the best one beats or equals.
abbrev IsBeaten : Text → Text → Option (ℕ × Text) → Text → Type 0
IsBeaten self_id dest r c =
    (same_key c self_id ≡ true)
    ⊎ IsNoWorse r (some (ring_distance (pubkey_part c) (pubkey_part dest), c))

-- The best hop is the one there was, or one of the list that is not the router.
abbrev IsFound : Text → Text → Option (ℕ × Text) → Text → Type 0
IsFound self_id dest r c =
    (same_key c self_id ≡ false) × (r ≡ some (ring_distance (pubkey_part c) (pubkey_part dest), c))

-- A route is one connected peer other than the router than which no other connected peer is nearer to
-- the destination, or none when the router is connected to nobody else.
abbrev pub IsRoute : Text → Text → List Text → List Text → Type 0
IsRoute self_id dest connected [] = All (λ c. same_key c self_id ≡ true) connected
IsRoute self_id dest connected (hop ∷ hops) =
    (hops ≡ [])
    × Some (λ c. (c ≡ hop) × (same_key c self_id ≡ false)) connected
    × All
        (λ c.
          (same_key c self_id ≡ true)
          ⊎ (ring_distance (pubkey_part hop) (pubkey_part dest)
              ≤ ring_distance (pubkey_part c) (pubkey_part dest)))
        connected
