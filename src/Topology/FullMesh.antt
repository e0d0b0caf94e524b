-- ===== src/Topology/FullMesh.antt =====
-- Everyone connects to everyone: crates/myownmesh-core/src/topology/fullmesh.rs.
use my_own_mesh.Base.{Bool, true, List}
use my_own_mesh.Base.Text.{Text}

pub select_preferred : Text → List Text → List Text
select_preferred self_id peer_ids = peer_ids

unfoldable pub edge : Text → Text → Bool
edge a b = true
