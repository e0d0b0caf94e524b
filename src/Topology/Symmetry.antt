-- ===== src/Topology/Symmetry.antt =====
-- Both ends of an edge answer alike.
use my_own_mesh.Base.{ℕ, List, ◌≡◌, refl, arith}
use my_own_mesh.Base.Text.{Text, text_eq_self}
use my_own_mesh.Topology.Star
use my_own_mesh.Topology.Hubs
use my_own_mesh.Topology.Ring
use my_own_mesh.Topology.FullMesh
use my_own_mesh.Topology.Selector.{
  Selector, ring_selector, star_selector, hubs_selector, full_mesh_selector, edge,
}

others_comm :
    (a b : Text) (everyone : List Text) → Ring.others a b a everyone ≡ Ring.others b a a everyone
unfolding Ring.others
others_comm a b everyone = ground (arith, text_eq_self a)

-- Whether there is an edge between two members does not depend on which of them asks, in any mode
-- and whatever the digest is.
edge_comm :
    (digest8 : Text → ℕ) (selector : Selector) (a b : Text) (everyone : List Text)
    → edge digest8 selector a b everyone ≡ edge digest8 selector b a everyone
unfolding edge Ring.edge Star.edge Hubs.edge FullMesh.edge
edge_comm digest8 (ring_selector n) a b everyone =
    ground (arith, others_comm a b everyone, others_comm b a everyone)
edge_comm digest8 (star_selector hub) a b everyone = ground arith
edge_comm digest8 (hubs_selector hs r) a b everyone = ground arith
edge_comm digest8 full_mesh_selector a b everyone = refl
