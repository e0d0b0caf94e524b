-- ===== src/Reconcile.antt =====
-- Runtime edits of a network's configuration: crates/myownmesh-core/src/engine/reconcile.rs, with the
-- records of crates/myownmesh-core/src/config.rs, and the three other places that set the topology at
-- runtime: the start (engine/state.rs), `SetTopology` (engine/mod.rs), and the ends of `try_ratify` and
-- `adopt_transition_log` (engine/governance.rs). A path is a byte string.
pub mod Governed
pub mod Edits
use my_own_mesh.Base.{
  ℕ, Bool, true, false, not, ◌&&◌, ◌||◌, Option, none, some, List, [], ◌∷◌, is_some, unwrap_or,
  ◌==◌, if◌then◌else◌,
}
use my_own_mesh.Base.Text.{Text, text_eq}
use my_own_mesh.Governance.{
  NetworkKind, TopologyMode, TransitionVariant, topology_change, Transition, NetworkState, texts_eq,
  apply_transition,
}
use my_own_mesh.Governance.Log.{Signing}
use my_own_mesh.Governance.Adoption.{adopt_transition_log}
use my_own_mesh.Topology.Selector.{Selector, from_mode}

pub record StunServer : Type 0 where
  urls : List Text

pub record TurnServer : Type 0 where
  urls : List Text
  username : Option Text
  credential : Option Text

pub record SignalingConfig : Type 0 where
  pub strategy : Text
  pub mdns : Bool
  pub servers : List Text
  pub redundancy : ℕ
  pub denylist : List Text
  pub public_fallback : Bool
  pub listen_only : Bool

pub record NetworkConfig : Type 0 where
  pub id : Text
  pub network_id : Text
  pub label : Text
  pub kind : NetworkKind
  pub topology : TopologyMode
  pub signaling : SignalingConfig
  pub stun_servers : List StunServer
  pub turn_servers : List TurnServer
  pub roster_path : Option Text
  pub pinned_peers : List Text
  pub auto_approve : Bool

unfoldable pub bool_eq : Bool → Bool → Bool
bool_eq true b = b
bool_eq false b = not b

-- Equality of signaling configurations, derived in the source.
unfoldable pub signaling_eq : SignalingConfig → SignalingConfig → Bool
unfolding bool_eq texts_eq
signaling_eq a b =
    text_eq a.strategy b.strategy
    && bool_eq a.mdns b.mdns
    && texts_eq a.servers b.servers
    && (a.redundancy == b.redundancy)
    && texts_eq a.denylist b.denylist
    && bool_eq a.public_fallback b.public_fallback
    && bool_eq a.listen_only b.listen_only

unfoldable pub requires_restart : NetworkConfig → NetworkConfig → Bool
unfolding signaling_eq
requires_restart current next =
    not (text_eq current.network_id next.network_id)
    || not (signaling_eq current.signaling next.signaling)

-- The fields of the engine's state that decide its topology.
pub record Runtime : Type 0 where
  pub config : NetworkConfig
  pub governance_state : NetworkState
  pub topology : TopologyMode
  pub topology_impl : Selector

abbrev pub effective_topology : NetworkState → TopologyMode → TopologyMode
effective_topology gov configured = unwrap_or gov.topology configured

unfoldable pub start : NetworkConfig → NetworkState → Runtime
unfolding from_mode
start config gov = record {
  config = config;
  governance_state = gov;
  topology = effective_topology gov config.topology;
  topology_impl = from_mode (effective_topology gov config.topology);
}

set_live : TopologyMode → Runtime → Runtime
unfolding from_mode
set_live mode state = record state { topology = mode; topology_impl = from_mode mode }

unfoldable pub apply_hot : Runtime → NetworkConfig → Runtime
unfolding set_live
apply_hot state next =
    set_live (effective_topology state.governance_state next.topology) (record state {
      config = record state.config {
        label = next.label;
        topology = next.topology;
        auto_approve = next.auto_approve;
        roster_path = next.roster_path;
        stun_servers = next.stun_servers;
        turn_servers = next.turn_servers;
      };
    })

-- The command `SetTopology`.
pub set_topology : TopologyMode → Runtime → Runtime
unfolding set_live
set_topology mode state =
    if is_some state.governance_state.topology then state else set_live mode state

-- What the runtime makes of a ratified variant.
pub follow_ratified : TransitionVariant → Runtime → Runtime
unfolding set_live
follow_ratified (topology_change to) state = set_live to state
follow_ratified _ state = state

-- What the runtime makes of the topology that an adopted log brought.
pub follow_adopted : Option TopologyMode → Runtime → Runtime
unfolding set_live
follow_adopted none state = state
follow_adopted (some mode) state = set_live mode state

-- What may happen to the topology: an edit, a command, a ratified owner-tier transition, a peer's logs.
pub data Event : Type 0 where
  edited : NetworkConfig → Event
  set : TopologyMode → Event
  ratified : Transition → Event
  gossiped : List Transition → List Transition → Event

module _ (sig : Signing) (key : Transition → Text) (network_id : Text) where
  pub step : Runtime → Event → Runtime
  unfolding apply_hot set_topology apply_transition follow_ratified follow_adopted
  step state (edited next) = apply_hot state next
  step state (set mode) = set_topology mode state
  step state (ratified t) =
      follow_ratified t.variant
        (record state { governance_state = apply_transition state.governance_state t })
  step state (gossiped transitions members) =
      let adoption =
        adopt_transition_log sig key network_id transitions members state.governance_state in
      follow_adopted adoption.adopted_topology (record state { governance_state = adoption.gov })

  pub run : Runtime → List Event → Runtime
  unfolding step
  run state [] = state
  run state (e ∷ events) = run (step state e) events
