-- ===== src/Tests/GovernanceRuns.antt =====
-- The owner tier on a small network: `alice` owns it, `bob` is a controller, `carol` a member.
use my_own_mesh.Base.{◌≡◌, refl, ◌↔◌, ◌≢◌, List, [], ◌∷◌, none, arith}
use my_own_mesh.Base.Results.{ok}
use my_own_mesh.Base.Text.{Text, bytes, text_eq, text_le, text_ordered}
use my_own_mesh.Base.TreeMap.{TreeMap, IsSorted, lookup, insert}
use my_own_mesh.Base.TreeSet.{set_of, contains}
use my_own_mesh.Governance.{
  closed, Role, controller, owner, rank, can_grant, role_grant, Transition, NetworkState, empty_for,
  role_of, apply_transition,
}
use my_own_mesh.Governance.Quorum.{verify_quorum, controllers_and_owners}
use my_own_mesh.Governance.Quorum.Authority.{Commands, HasQuorum, verify_quorum-HasQuorum}
use my_own_mesh.Governance.Log.{Signing, verify_from, verify_log, verify_transition_signatures}
use my_own_mesh.Governance.Log.Replay.{IsRatified, replay, verify_log-IsRatified}
use my_own_mesh.Governance.Log.Authority.{
  promotion-Commands, NoOwner, verify_from-NoOwner, grant_by, revoke_by, close_by,
  controller_demotes_owner, open_grant_survives_close,
}

abbrev alice : Text
alice = bytes "alice"

abbrev bob : Text
bob = bytes "bob"

abbrev carol : Text
carol = bytes "carol"

abbrev net_id : Text
net_id = bytes "net"

-- A signature is the signer's name.
abbrev by_name : Signing
by_name = record { verify = λ signer payload s. ok (text_eq signer s); payload = λ id v. id }

abbrev with_roles : TreeMap Text Role → NetworkState
with_roles roles = record {
  version = 2;
  network_id = net_id;
  kind = closed;
  roles = roles;
  transitions = [];
  member_log = [];
  pending = [];
  splits = [];
  topology = none;
}

abbrev owned : NetworkState
owned = with_roles ((alice, owner) ∷ (bob, controller) ∷ [])

owned-IsSorted : IsSorted owned.roles
unfolding text_le text_eq
owned-IsSorted = ((refl, refl, tt), (tt, tt))

verify_quorum-HasQuorum_example :
    (verify_quorum owned (grant_by bob carol controller) ≡ ok tt)
    ↔ HasQuorum owned (role_grant carol controller) (bob ∷ [])
verify_quorum-HasQuorum_example =
    verify_quorum-HasQuorum owned (grant_by bob carol controller) owned-IsSorted

abbrev signed_close : Transition
signed_close = record (close_by alice) { signatures = alice ∷ [] }

abbrev closing : List Transition
closing = signed_close ∷ []

verify_log-IsRatified_example :
    (verify_log by_name net_id closing ≡ ok (replay (empty_for net_id) closing)) ↔ (
      IsRatified by_name net_id (empty_for net_id) closing
      × (replay (empty_for net_id) closing ≡ replay (empty_for net_id) closing))
verify_log-IsRatified_example =
    verify_log-IsRatified by_name net_id closing (replay (empty_for net_id) closing)

promotion-Commands_example :
    Commands owned
      (role_of (apply_transition owned (grant_by bob carol controller)) carol)
      (bob ∷ [])
unfolding verify_quorum set_of contains controllers_and_owners text_eq text_le rank role_of
    apply_transition lookup insert
promotion-Commands_example =
    promotion-Commands owned (grant_by bob carol controller) carol owned-IsSorted refl refl
      (ground arith)

abbrev ownerless : NetworkState
ownerless = with_roles ((bob, controller) ∷ [])

abbrev signed_grant : Transition
signed_grant = record (grant_by bob carol controller) { signatures = bob ∷ [] }

ownerless-NoOwner : NoOwner ownerless
unfolding role_of lookup
ownerless-NoOwner p = ground arith

verify_from-NoOwner_example :
    ((replay ownerless (signed_grant ∷ [])).kind ≡ closed)
    × NoOwner (replay ownerless (signed_grant ∷ []))
unfolding verify_from verify_transition_signatures verify_quorum controllers_and_owners set_of
    contains text_eq text_le role_of lookup can_grant rank
verify_from-NoOwner_example =
    verify_from-NoOwner by_name net_id ownerless (replay ownerless (signed_grant ∷ []))
      (signed_grant ∷ []) (tt, tt) refl ownerless-NoOwner refl

controller_demotes_owner_example :
    (verify_quorum owned (revoke_by bob alice) ≢ ok tt)
    × (verify_quorum owned (grant_by bob alice controller) ≡ ok tt)
    × (role_of (apply_transition owned (grant_by bob alice controller)) alice ≡ controller)
unfolding role_of lookup text_eq
controller_demotes_owner_example =
    controller_demotes_owner owned bob alice owned-IsSorted refl refl refl

open_grant_survives_close_example :
    let granted = apply_transition (empty_for net_id) (grant_by carol carol owner) in
    let after = apply_transition granted (close_by alice) in
    (verify_quorum (empty_for net_id) (grant_by carol carol owner) ≡ ok tt)
    × (verify_quorum granted (close_by alice) ≡ ok tt)
    × (after.kind ≡ closed)
    × (role_of after carol ≡ owner)
    × (role_of after alice ≡ owner)
unfolding empty_for
open_grant_survives_close_example = open_grant_survives_close (empty_for net_id) carol alice tt refl
