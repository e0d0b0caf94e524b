-- ===== src/Tests/TopologyRuns.antt =====
-- Topologies and shelving on small networks. The digest is the number of bytes that are digested.
use my_own_mesh.Base.{◌≡◌, refl, ℕ, Bool, true, false, List, [], ◌∷◌, length}
use my_own_mesh.Base.Text.{Text, bytes}
use my_own_mesh.Connection.{PeerState, PeerStatus, active, shelved}
use my_own_mesh.Topology.Ring
use my_own_mesh.Topology.Selector.{star_selector}
use my_own_mesh.Ladder.{Links, reevaluate_topology}
use my_own_mesh.Ladder.Shelving.{reevaluate_topology_idem}
use my_own_mesh.Ladder.Placement.{IsPlaced, reevaluate_topology-IsPlaced}

abbrev digest8 : Text → ℕ
digest8 text = length text

abbrev ann : Text
ann = bytes "ann"

abbrev ben : Text
ben = bytes "ben"

abbrev cat : Text
cat = bytes "cat"

abbrev deb : Text
deb = bytes "deb"

abbrev everyone : List Text
everyone = ann ∷ ben ∷ cat ∷ deb ∷ []

abbrev peer_in : PeerStatus → Bool → PeerState
peer_in status is_shelved = record {
  status = status;
  authenticated = true;
  features = [];
  local_shelved = is_shelved;
  remote_shelved = is_shelved;
  data_channel_open = true;
  local_gather_candidates = record {
    host = 0;
    server_reflexive = 0;
    peer_reflexive = 0;
    relay = 0;
    unknown = 0;
  };
  local_gather_in_progress = false;
  local_candidates = record {
    host = 0;
    server_reflexive = 0;
    peer_reflexive = 0;
    relay = 0;
    unknown = 0;
  };
}

-- A spoke with a link to the hub, a link to another spoke, and no session with either.
abbrev spoke : Text → Text → List Text → Links
spoke me other sessions = record {
  self_evicted = false;
  me = me;
  peers = (ben, peer_in active false) ∷ (other, peer_in shelved true) ∷ [];
  selector = star_selector ben;
  sticky = [];
  sessions = sessions;
}

abbrev pair : Text → Text → Links
pair me other = record {
  self_evicted = false;
  me = me;
  peers = (other, peer_in active false) ∷ [];
  selector = star_selector ann;
  sticky = [];
  sessions = [];
}

-- The spoke that is not the hub is pinned.
abbrev pinned : Links
pinned = record (spoke ann deb []) { sticky = deb ∷ [] }

reevaluate_topology-IsPlaced_example :
    IsPlaced digest8 pinned (reevaluate_topology digest8 pinned).0.peers
reevaluate_topology-IsPlaced_example = reevaluate_topology-IsPlaced digest8 pinned refl

reevaluate_topology_idem_example :
    reevaluate_topology digest8 (reevaluate_topology digest8 (spoke ann deb [])).0
    ≡ ((reevaluate_topology digest8 (spoke ann deb [])).0, [])
reevaluate_topology_idem_example = reevaluate_topology_idem digest8 (spoke ann deb [])
