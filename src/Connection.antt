-- ===== src/Connection.antt =====
-- Per-peer connection state: crates/myownmesh-core/src/engine/connection.rs, the candidate counts of
-- crates/myownmesh-core/src/transport/diag.rs, and the feature test of
-- crates/myownmesh-core/src/protocol/features.rs. Of `PeerStateData` the fields are kept that the
-- modelled code reads or writes.
pub mod Laws
use my_own_mesh.Base.{ℕ, ◌+◌, Bool, true, false, ◌&&◌, Option, none, some, List, any, if◌then◌else◌}
use my_own_mesh.Base.Text.{Text, text_eq, bytes}

pub data PeerStatus : Type 0 where
  sighted handshaking pending_approval active shelved reconnecting offline error : PeerStatus

pub data IceCandidateKind : Type 0 where
  host server_reflexive peer_reflexive relay unknown : IceCandidateKind

pub record IceCandidateStats : Type 0 where
  pub host : ℕ
  pub server_reflexive : ℕ
  pub peer_reflexive : ℕ
  pub relay : ℕ
  pub unknown : ℕ

abbrev no_candidates : IceCandidateStats
no_candidates = record {
  host = 0;
  server_reflexive = 0;
  peer_reflexive = 0;
  relay = 0;
  unknown = 0;
}

record_candidate : IceCandidateKind → IceCandidateStats → IceCandidateStats
record_candidate host s = record s { host = s.host + 1 }
record_candidate server_reflexive s = record s { server_reflexive = s.server_reflexive + 1 }
record_candidate peer_reflexive s = record s { peer_reflexive = s.peer_reflexive + 1 }
record_candidate relay s = record s { relay = s.relay + 1 }
record_candidate unknown s = record s { unknown = s.unknown + 1 }

pub total : IceCandidateStats → ℕ
total s = s.host + s.server_reflexive + s.peer_reflexive + s.relay + s.unknown

pub record PeerState : Type 0 where
  pub status : PeerStatus
  pub authenticated : Bool
  pub features : List Text
  pub local_shelved : Bool
  pub remote_shelved : Bool
  pub data_channel_open : Bool
  pub local_gather_candidates : IceCandidateStats
  pub local_gather_in_progress : Bool
  -- `diag.local_candidates`, which is never reset.
  pub local_candidates : IceCandidateStats

-- `matches!(status, PeerStatus::Active | PeerStatus::Shelved)`.
abbrev pub is_up : PeerStatus → Bool
is_up active = true
is_up shelved = true
is_up _ = false

is_admitted : PeerState → Bool
is_admitted p = p.authenticated && is_up p.status

pub peer_supports : List Text → Text → Bool
unfolding text_eq
peer_supports peer_features feature = any (λ f. text_eq f feature) peer_features

abbrev pub reliable_channels : Text
reliable_channels = bytes "reliable_channels_v1"

pub begin_local_gather : PeerState → PeerState
begin_local_gather p =
    if p.local_gather_in_progress
    then p
    else record p { local_gather_candidates = no_candidates; local_gather_in_progress = true }

pub record_local_candidate : IceCandidateKind → PeerState → PeerState
unfolding begin_local_gather record_candidate
record_local_candidate kind p =
    let q = if p.local_gather_in_progress then p else begin_local_gather p in
    record q {
      local_gather_candidates = record_candidate kind q.local_gather_candidates;
      local_candidates = record_candidate kind q.local_candidates;
    }

pub finish_local_gather : PeerState → PeerState × Option IceCandidateStats
finish_local_gather p =
    if p.local_gather_in_progress
    then (record p { local_gather_in_progress = false }, some p.local_gather_candidates)
    else (p, none)

unfoldable pub new_peer_state : PeerState
new_peer_state = record {
  status = sighted;
  authenticated = false;
  features = List.[];
  local_shelved = false;
  remote_shelved = false;
  data_channel_open = false;
  local_gather_candidates = no_candidates;
  local_gather_in_progress = false;
  local_candidates = no_candidates;
}
