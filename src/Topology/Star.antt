-- ===== src/Topology/Star.antt =====
-- One hub that everyone connects to: crates/myownmesh-core/src/topology/star.rs.
use my_own_mesh.Base.{Bool, ◌||◌, List, [], filterb, if◌then◌else◌}
use my_own_mesh.Base.Text.{Text}
use my_own_mesh.Topology.{same_key}

pub select_preferred : Text → Text → List Text → List Text
unfolding same_key
select_preferred hub self_id peer_ids =
    if same_key self_id hub then peer_ids else filterb (λ p. same_key p hub) peer_ids

unfoldable pub edge : Text → Text → Text → Bool
unfolding same_key
edge hub a b = same_key a hub || same_key b hub

unfoldable pub forwards : Text → Text → Bool
unfolding same_key
forwards hub self_id = same_key self_id hub

unfoldable pub next_hops : Text → Text → List Text → List Text
unfolding same_key
next_hops hub self_id connected =
    if same_key self_id hub then [] else filterb (λ c. same_key c hub) connected
