-- ===== src/Governance/Quorum.antt =====
-- `verify_quorum` of crates/myownmesh-core/src/network_state.rs: which signer sets may make which
-- transition. One function for each kind of transition, with the arms in the order of the match.
pub mod Authority
use my_own_mesh.Base.{
  Bool, true, false, not, Option, none, some, List, map, length, any, filterb, ◌==◌, if◌then◌else◌,
}
use my_own_mesh.Base.Results.{Result, ok, err, ensure}
use my_own_mesh.Base.Text.{Text, text_ordered}
use my_own_mesh.Base.TreeSet.{set_of, contains}
use my_own_mesh.Governance.{
  NetworkKind, open_kind, closed, Role, member, controller, owner, TopologyMode, topology_eq,
  TransitionVariant, kind_change, role_grant, role_revoke, evict, split, topology_change, unknown,
  Transition, NetworkState, role_of,
}

-- `Error::Protocol` by its message, and the other errors of a log check.
pub data Error : Type 0 where
  founder_needs_signer reopen_needs_owner kind_change_no_op : Error
  grant_owner_needs_owner grant_controller_needs_authority grant_member_needs_authority : Error
  revoke_owner_needs_owner revoke_needs_authority : Error
  evict_owner_needs_owner evict_needs_authority : Error
  split_needs_one_signer topology_no_op topology_needs_owner topology_needs_closed : Error
  newer_build signers_signatures_mismatch no_signers signature_invalid signing : Error

abbrev is_owner : Role → Bool
is_owner owner = true
is_owner _ = false

abbrev is_authority : Role → Bool
is_authority member = false
is_authority _ = true

-- The keys of the roles that pass a test.
holders : (Role → Bool) → NetworkState → List Text
holders test state = map (λ e. e.0) (filterb (λ e. test e.1) state.roles)

pub owners : NetworkState → List Text
unfolding holders
owners = holders is_owner

unfoldable pub controllers_and_owners : NetworkState → List Text
unfolding holders
controllers_and_owners = holders is_authority

signed_by : List Text → List Text → Bool
signed_by tier signers = any (contains tier) signers

quorum_kind_change : NetworkState → NetworkKind → NetworkKind → List Text → Result Error (Unit {0})
unfolding signed_by
quorum_kind_change s closed open_kind signers =
    ensure (not (length signers == 0)) founder_needs_signer
quorum_kind_change s open_kind closed signers =
    ensure (signed_by (owners s) signers) reopen_needs_owner
quorum_kind_change s _ _ signers = err kind_change_no_op

quorum_role_grant : NetworkState → Role → NetworkKind → List Text → Result Error (Unit {0})
unfolding signed_by
quorum_role_grant s owner closed signers =
    ensure (signed_by (owners s) signers) grant_owner_needs_owner
quorum_role_grant s controller closed signers =
    ensure (signed_by (controllers_and_owners s) signers) grant_controller_needs_authority
quorum_role_grant s member closed signers =
    ensure (signed_by (controllers_and_owners s) signers) grant_member_needs_authority
quorum_role_grant s _ _ signers = ok tt

-- Authority over the target's current tier, with the error of the tier.
quorum_removal : NetworkState → Role → List Text → Error → Error → Result Error (Unit {0})
unfolding signed_by
quorum_removal s owner signers e f = ensure (signed_by (owners s) signers) e
quorum_removal s _ signers e f = ensure (signed_by (controllers_and_owners s) signers) f

quorum_role_revoke : NetworkState → Text → NetworkKind → List Text → Result Error (Unit {0})
unfolding quorum_removal
quorum_role_revoke s target closed signers =
    quorum_removal s (role_of s target) signers revoke_owner_needs_owner revoke_needs_authority
quorum_role_revoke s target _ signers = ok tt

quorum_evict : NetworkState → Text → NetworkKind → List Text → Result Error (Unit {0})
unfolding quorum_removal
quorum_evict s target closed signers =
    quorum_removal s (role_of s target) signers evict_owner_needs_owner evict_needs_authority
quorum_evict s target _ signers = ok tt

quorum_split : List Text → Result Error (Unit {0})
quorum_split signers = ensure (length signers == 1) split_needs_one_signer

is_current_topology : Option TopologyMode → TopologyMode → Bool
is_current_topology none to = false
is_current_topology (some t) to = topology_eq t to

quorum_topology_change :
    NetworkState → TopologyMode → NetworkKind → List Text → Result Error (Unit {0})
unfolding signed_by is_current_topology
quorum_topology_change s to closed signers =
    if is_current_topology s.topology to
    then err topology_no_op
    else ensure (signed_by (owners s) signers) topology_needs_owner
quorum_topology_change s to _ signers = err topology_needs_closed

quorum_of : NetworkState → TransitionVariant → List Text → Result Error (Unit {0})
unfolding quorum_kind_change quorum_role_grant quorum_role_revoke quorum_evict quorum_split
    quorum_topology_change
quorum_of s (kind_change to) signers = quorum_kind_change s to s.kind signers
quorum_of s (role_grant target role) signers = quorum_role_grant s role s.kind signers
quorum_of s (role_revoke target) signers = quorum_role_revoke s target s.kind signers
quorum_of s (evict target) signers = quorum_evict s target s.kind signers
quorum_of s (split new_network_id members) signers = quorum_split signers
quorum_of s (topology_change to) signers = quorum_topology_change s to s.kind signers
quorum_of s unknown signers = err newer_build

-- The signers count as a set.
unfoldable pub verify_quorum : NetworkState → Transition → Result Error (Unit {0})
unfolding quorum_of
verify_quorum state_before t = quorum_of state_before t.variant (set_of t.signers)
