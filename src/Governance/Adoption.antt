-- ===== src/Governance/Adoption.antt =====
-- The adoption of a peer's two signed logs: `adopt_transition_log`, `verified_projection` and
-- `same_signer_set` of crates/myownmesh-core/src/engine/governance.rs, up to the end of the write lock.
-- Signatures and the text of an entry are parameters as in the signed log.
pub mod Steps
pub mod Convergence
pub mod Followed
pub mod Extension
use my_own_mesh.Base.{
  ℕ, Bool, true, false, not, ◌&&◌, ◌||◌, Option, none, some, List, [], ◌∷◌, length, ltb, is_none,
  is_some, first?, if◌then◌else◌,
}
use my_own_mesh.Base.Results.{Result, ok, err}
use my_own_mesh.Base.Text.{Text, text_eq, text_ordered}
use my_own_mesh.Base.TreeMap.{TreeMap}
use my_own_mesh.Governance.{
  NetworkKind, open_kind, closed, silent, Role, role_eq, TopologyMode, topology_eq,
  TransitionVariant, kind_change, role_grant, role_revoke, evict, split, topology_change, unknown,
  Transition, NetworkState, texts_eq,
}
use my_own_mesh.Governance.Quorum.{Error}
use my_own_mesh.Governance.Log.{Signing, verify_log}
use my_own_mesh.Governance.MemberLog.{merge_member_logs, verify_member_log, member_log_removed}
use my_own_mesh.Governance.Proposals.{add_members, same_signer_set}

-- Equality of kinds and of variants, derived in the source.
abbrev kind_eq : NetworkKind → NetworkKind → Bool
kind_eq open_kind open_kind = true
kind_eq closed closed = true
kind_eq silent silent = true
kind_eq _ _ = false

variant_eq : TransitionVariant → TransitionVariant → Bool
unfolding text_eq texts_eq topology_eq
variant_eq (kind_change a) (kind_change b) = kind_eq a b
variant_eq (role_grant a r) (role_grant b q) = text_eq a b && role_eq r q
variant_eq (role_revoke a) (role_revoke b) = text_eq a b
variant_eq (evict a) (evict b) = text_eq a b
variant_eq (split a xs) (split b ys) = text_eq a b && texts_eq xs ys
variant_eq (topology_change a) (topology_change b) = topology_eq a b
variant_eq unknown unknown = true
variant_eq _ _ = false

-- The entries agree as far as both logs go.
pub shares_prefix : List Transition → List Transition → Bool
unfolding variant_eq same_signer_set
shares_prefix (a ∷ incoming) (b ∷ local) =
    let rest = shares_prefix incoming local in
    variant_eq a.variant b.variant && same_signer_set a b && rest
shares_prefix _ _ = true

abbrev pub extends : List Transition → List Transition → Bool
extends incoming local = ltb (length local) (length incoming) && shares_prefix incoming local

abbrev pub topology_differs : Option TopologyMode → Option TopologyMode → Bool
topology_differs none none = false
topology_differs (some a) (some b) = not (topology_eq a b)
topology_differs _ _ = true

abbrev to_option : Result Error NetworkState → Option NetworkState
to_option (ok state) = some state
to_option (err e) = none

-- A step of the adoption: whether it changed the state, and the state after it.
pub record Change : Type 0 where
  pub changed : Bool
  pub adopted_topology : Option TopologyMode
  pub gov : NetworkState

abbrev pub unchanged : NetworkState → Change
unchanged gov = record { changed = false; adopted_topology = none; gov = gov }

pub adopt_rebuilt : Option NetworkState → NetworkState → Change
adopt_rebuilt none gov = unchanged gov
adopt_rebuilt (some rebuilt) gov =
    if ltb (length gov.transitions) (length rebuilt.transitions)
    then record {
      changed = true;
      adopted_topology =
          if topology_differs rebuilt.topology gov.topology then rebuilt.topology else none;
      gov = record gov {
        kind = rebuilt.kind;
        transitions = rebuilt.transitions;
        splits = rebuilt.splits;
        topology = rebuilt.topology;
      };
    }
    else unchanged gov

pub record Projection : Type 0 where
  pub roles : TreeMap Text Role
  pub removed : List Text

pub record Adoption : Type 0 where
  pub gov : NetworkState
  pub changed : Bool
  pub adopted_topology : Option TopologyMode
  -- None when the local logs are not valid.
  pub projection : Option Projection

module _ (sig : Signing) (key : Transition → Text) (network_id : Text) where
  -- The state that the incoming log verifies to, when it extends ours.
  pub rebuild : List Transition → List Transition → Option NetworkState
  unfolding shares_prefix verify_log
  rebuild incoming local =
      if extends incoming local then to_option (verify_log sig network_id incoming) else none

  pub adopt_members : List Transition → NetworkState → Change
  unfolding merge_member_logs
  adopt_members incoming gov =
      let merged = merge_member_logs key gov.member_log incoming in
      if is_none (first? incoming)
      then unchanged gov
      else if ltb (length gov.member_log) (length merged)
      then record {
        changed = true;
        adopted_topology = none;
        gov = record gov { member_log = merged };
      }
      else unchanged gov

  pub verified_projection : NetworkState → Option Projection
  unfolding verify_log verify_member_log member_log_removed add_members
  verified_projection gov = elim (verify_log sig network_id gov.transitions) [
    | err e ↦ none
    | ok verified ↦ some (record {
      roles =
          add_members (verify_member_log sig key verified gov.member_log network_id) verified.roles;
      removed = member_log_removed sig key verified gov.member_log network_id;
    })
  ]

  -- The last step: the roles that both logs give.
  pub project : Bool → Option TopologyMode → NetworkState → Adoption
  unfolding verified_projection
  project changed adopted_topology gov = elim (verified_projection gov) [
    | none ↦ record { gov = gov; changed = false; adopted_topology = none; projection = none }
    | some projection ↦ record {
      gov = record gov { roles = projection.roles };
      changed = changed;
      adopted_topology = adopted_topology;
      projection = some projection;
    }
  ]

  pub adopt_transition_log : List Transition → List Transition → NetworkState → Adoption
  unfolding rebuild adopt_rebuilt adopt_members project
  adopt_transition_log incoming_gov incoming_members gov =
      let governance = adopt_rebuilt (rebuild incoming_gov gov.transitions) gov in
      let members = adopt_members incoming_members governance.gov in
      project (governance.changed || members.changed) governance.adopted_topology members.gov
