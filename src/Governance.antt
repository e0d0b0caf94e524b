-- ===== src/Governance.antt =====
-- Closed-network governance: crates/myownmesh-core/src/network_state.rs, with `TopologyMode` of
-- crates/myownmesh-core/src/config.rs. Device ids, keys and signatures are byte strings.
pub mod Equality
pub mod Quorum
pub mod Log
pub mod MemberLog
pub mod Proposals
pub mod Adoption
use my_own_mesh.Base.{
  ℕ, ◌≡◌, Bool, true, false, not, ◌&&◌, ◌||◌, Option, none, some, List, [], ◌∷◌, ◌++◌, leb, ◌==◌,
  if◌then◌else◌, first?, unwrap_or,
}
use my_own_mesh.Base.Text.{Text, text_eq, text_ordered}
use my_own_mesh.Base.TreeMap.{TreeMap, lookup, insert, remove}

pub data NetworkKind : Type 0 where
  open_kind closed silent : NetworkKind

is_open_governance : NetworkKind → Bool
is_open_governance closed = false
is_open_governance _ = true

pub data Role : Type 0 where
  member controller owner : Role

unfoldable pub rank : Role → ℕ
rank member = 1
rank controller = 2
rank owner = 3

-- Equality of roles, derived in the source.
abbrev pub role_eq : Role → Role → Bool
role_eq member member = true
role_eq controller controller = true
role_eq owner owner = true
role_eq _ _ = false

unfoldable pub can_grant : Role → Role → Bool
unfolding rank
can_grant self target = if role_eq self member then false else leb (rank target) (rank self)

pub data TopologyMode : Type 0 where
  ring : Option ℕ → TopologyMode
  star : Text → TopologyMode
  hubs : List Text → Option ℕ → TopologyMode
  full_mesh : TopologyMode

abbrev pub default_ring_n_preferred : ℕ
default_ring_n_preferred = 3

abbrev pub default_spoke_redundancy : ℕ
default_spoke_redundancy = 2

-- Equality of topologies, derived in the source.
unfoldable pub texts_eq : List Text → List Text → Bool
unfolding text_eq
texts_eq [] [] = true
texts_eq (x ∷ xs) (y ∷ ys) = text_eq x y && texts_eq xs ys
texts_eq _ _ = false

option_eq : Option ℕ → Option ℕ → Bool
option_eq none none = true
option_eq (some a) (some b) = a == b
option_eq _ _ = false

pub topology_eq : TopologyMode → TopologyMode → Bool
unfolding texts_eq option_eq
topology_eq (ring n) (ring m) = option_eq n m
topology_eq (star h) (star k) = text_eq h k
topology_eq (hubs hs r) (hubs ks q) = texts_eq hs ks && option_eq r q
topology_eq full_mesh full_mesh = true
topology_eq _ _ = false

pub data TransitionVariant : Type 0 where
  kind_change : NetworkKind → TransitionVariant
  role_grant : Text → Role → TransitionVariant
  role_revoke : Text → TransitionVariant
  evict : Text → TransitionVariant
  split : Text → List Text → TransitionVariant
  topology_change : TopologyMode → TransitionVariant
  unknown : TransitionVariant

pub record Transition : Type 0 where
  pub at : ℕ
  pub variant : TransitionVariant
  pub signers : List Text
  pub signatures : List Text

pub record Proposal : Type 0 where
  pub id : Text
  pub created_at : ℕ
  pub proposer : Text
  pub variant : TransitionVariant
  pub signers : List Text
  pub signatures : List Text
  pub deniers : List Text
  pub split_spawned : Bool

pub record SplitRecord : Type 0 where
  pub new_network_id : Text
  spawned_at : ℕ
  spawned_by : Text
  pub members : List Text

pub record NetworkState : Type 0 where
  pub version : ℕ
  pub network_id : Text
  pub kind : NetworkKind
  pub roles : TreeMap Text Role
  pub transitions : List Transition
  pub member_log : List Transition
  pub pending : List Proposal
  pub splits : List SplitRecord
  pub topology : Option TopologyMode

abbrev network_state_version : ℕ
network_state_version = 2

unfoldable pub empty_for : Text → NetworkState
empty_for network_id = record {
  version = network_state_version;
  network_id = network_id;
  kind = open_kind;
  roles = [];
  transitions = [];
  member_log = [];
  pending = [];
  splits = [];
  topology = none;
}

unfoldable pub role_of : NetworkState → Text → Role
role_of state pubkey = unwrap_or (lookup pubkey state.roles) member

-- The founder of a close is the first signer.
elect_founder : NetworkKind → List Text → TreeMap Text Role → TreeMap Text Role
elect_founder closed (founder ∷ _) roles = insert founder owner roles
elect_founder closed [] roles = roles
elect_founder _ _ roles = roles

apply_variant : TransitionVariant → ℕ → List Text → NetworkState → NetworkState
unfolding elect_founder
apply_variant (kind_change to) at signers s = record s {
  kind = to;
  roles = elect_founder to signers s.roles;
}
apply_variant (role_grant target role) at signers s = record s {
  roles = insert target role s.roles;
}
apply_variant (role_revoke target) at signers s = record s { roles = remove target s.roles }
apply_variant (evict target) at signers s = record s { roles = remove target s.roles }
apply_variant (split new_network_id members) at signers s = record s {
  splits =
      s.splits
      ++ record {
        new_network_id = new_network_id;
        spawned_at = at;
        spawned_by = unwrap_or (first? signers) [];
        members = members;
      }
        ∷ [];
}
apply_variant (topology_change to) at signers s = record s { topology = some to }
apply_variant unknown at signers s = s

unfoldable pub apply_transition : NetworkState → Transition → NetworkState
unfolding apply_variant
apply_transition state t =
    let s = apply_variant t.variant t.at t.signers state in
    record s { transitions = s.transitions ++ t ∷ [] }
