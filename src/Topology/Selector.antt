-- ===== src/Topology/Selector.antt =====
-- The selector of a configured mode: crates/myownmesh-core/src/topology/mod.rs.
use my_own_mesh.Base.{ℕ, Bool, true, false, List, [], unwrap_or, max}
use my_own_mesh.Base.Text.{Text}
use my_own_mesh.Governance.{
  TopologyMode, ring, star, hubs, full_mesh, default_ring_n_preferred, default_spoke_redundancy,
}
use my_own_mesh.Topology.Star
use my_own_mesh.Topology.Hubs
use my_own_mesh.Topology.Ring
use my_own_mesh.Topology.FullMesh

pub data Selector : Type 0 where
  ring_selector : ℕ → Selector
  star_selector : Text → Selector
  hubs_selector : List Text → ℕ → Selector
  full_mesh_selector : Selector

unfoldable pub from_mode : TopologyMode → Selector
from_mode (ring n_preferred) = ring_selector (unwrap_or n_preferred default_ring_n_preferred)
from_mode (star hub) = star_selector hub
from_mode (hubs hs spoke_redundancy) =
    hubs_selector hs (max (unwrap_or spoke_redundancy default_spoke_redundancy) 1)
from_mode full_mesh = full_mesh_selector

-- Whether the mode shapes connections.
pub prunes : Selector → Bool
prunes full_mesh_selector = false
prunes _ = true

unfoldable pub flood_ttl : Selector → ℕ
flood_ttl (ring_selector n) = 32
flood_ttl (star_selector hub) = 3
flood_ttl (hubs_selector hs r) = 4
flood_ttl full_mesh_selector = 4

module _ (digest8 : Text → ℕ) where
  pub select_preferred : Selector → Text → List Text → List Text
  select_preferred (ring_selector n) self_id peer_ids =
      Ring.select_ring_neighbors self_id peer_ids n
  select_preferred (star_selector hub) self_id peer_ids = Star.select_preferred hub self_id peer_ids
  select_preferred (hubs_selector hs r) self_id peer_ids =
      Hubs.select_preferred digest8 hs r self_id peer_ids
  select_preferred full_mesh_selector self_id peer_ids = FullMesh.select_preferred self_id peer_ids

  unfoldable pub edge : Selector → Text → Text → List Text → Bool
  edge (ring_selector n) a b everyone = Ring.edge n a b everyone
  edge (star_selector hub) a b everyone = Star.edge hub a b
  edge (hubs_selector hs r) a b everyone = Hubs.edge digest8 hs r a b
  edge full_mesh_selector a b everyone = FullMesh.edge a b

  unfoldable pub next_hops : Selector → Text → Text → List Text → List Text
  next_hops (ring_selector n) self_id dest connected = Ring.next_hops self_id dest connected
  next_hops (star_selector hub) self_id dest connected = Star.next_hops hub self_id connected
  next_hops (hubs_selector hs r) self_id dest connected =
      Hubs.next_hops digest8 hs r self_id dest connected
  next_hops full_mesh_selector self_id dest connected = []

unfoldable pub forwards : Selector → Text → Bool
forwards (ring_selector n) self_id = true
forwards (star_selector hub) self_id = Star.forwards hub self_id
forwards (hubs_selector hs r) self_id = Hubs.forwards hs self_id
forwards full_mesh_selector self_id = false
