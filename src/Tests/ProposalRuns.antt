-- ===== src/Tests/ProposalRuns.antt =====
-- Proposals on a network that `alice` owns and `bob` controls, and the roster of a device. A signature
-- is the signer's name, and the key of an entry its signers.
use my_own_mesh.Base.{
  here, ◌⊎◌, ◌≡◌, ◌≤◌, refl, true, false, none, some, [], ◌∷◌, All, first?, or_else, and_then, map,
  arith, not, ◌||◌, if◌then◌else◌, unwrap_or,
}
use my_own_mesh.Base.Results.{ok}
use my_own_mesh.Governance.Proposals.Effects.{IsUnratified, IsQuorate, try_ratify-IsQuorate}
use my_own_mesh.Governance.Proposals.Broadcast.{IsKeptLater, broadcast_behind}
use my_own_mesh.Base.Text.{Text, bytes, text_eq, text_le, text_ordered}
use my_own_mesh.Base.Sorting.{sort}
use my_own_mesh.Base.TreeMap.{TreeMap, IsSorted, lookup}
use my_own_mesh.Base.TreeSet.{set_of, contains}
use my_own_mesh.Governance.{
  closed, Role, member, controller, owner, role_grant, evict, Transition, Proposal, NetworkState,
}
use my_own_mesh.Governance.Quorum.{verify_quorum, controllers_and_owners}
use my_own_mesh.Governance.Log.{Signing}
use my_own_mesh.Governance.MemberLog.{is_ok}
use my_own_mesh.Governance.Proposals.{
  canonicalize_signers, candidate, try_ratify, member_tier_timestamp,
}
use my_own_mesh.Governance.Proposals.Local.{sign_message, propose_message, propose, is_reassertion}
use my_own_mesh.Governance.Proposals.Vetting.{IsVetted}
use my_own_mesh.Governance.Proposals.Runs.{proposes, receives, run, run-AreVetted}
use my_own_mesh.Governance.Proposals.Ratified.{quorum_decides}
use my_own_mesh.Governance.Proposals.Canonical.{canonicalize_signers-Permᴰ}
use my_own_mesh.Governance.Proposals.Stamps.{IsOlder, member_tier_timestamp-IsLast}
use my_own_mesh.Roster.{AuthorizedPeer, mirror_roles_to_roster}
use my_own_mesh.Roster.Mirror.{role_at, role_at-mirror_roles_to_roster}
use my_own_mesh.Topology.{pubkey_part, rsplit_dash}
use mathlib.Core.List.{Permᴰ}

abbrev alice : Text
alice = bytes "alice"

abbrev bob : Text
bob = bytes "bob"

abbrev dave : Text
dave = bytes "dave"

abbrev net_id : Text
net_id = bytes "net"

abbrev by_name : Signing
by_name = record { verify = λ signer payload s. ok (text_eq signer s); payload = λ id v. id }

abbrev by_signers : Transition → Text
by_signers t = unwrap_or (first? t.signers) []

abbrev grant : Proposal
grant = record {
  id = bytes "p";
  created_at = 7;
  proposer = bob;
  variant = role_grant dave controller;
  signers = bob ∷ [];
  signatures = bob ∷ [];
  deniers = [];
  split_spawned = false;
}

abbrev admitted : Transition
admitted = record {
  at = 3;
  variant = role_grant dave member;
  signers = bob ∷ [];
  signatures = bob ∷ [];
}

abbrev gov : NetworkState
gov = record {
  version = 2;
  network_id = net_id;
  kind = closed;
  roles = (alice, owner) ∷ (bob, controller) ∷ [];
  transitions = [];
  member_log = admitted ∷ [];
  pending = grant ∷ [];
  splits = [];
  topology = none;
}

gov-AreVetted : All (IsVetted by_name by_signers net_id) gov.pending
unfolding text_eq
gov-AreVetted = (((refl, tt), (refl, tt), refl), tt)

run-AreVetted_example :
    All
      (IsVetted by_name by_signers net_id)
      (run by_name by_signers net_id alice
        (λ payload. alice)
        (λ text. text)
        (proposes true true 9 (bytes "q") (evict bob)
          ∷ receives bob (sign_message (bytes "p") bob bob)
          ∷ [])
        gov).pending
unfolding text_eq
run-AreVetted_example =
    run-AreVetted by_name by_signers net_id alice (λ payload. alice) (λ text. text)
      (λ payload. refl)
      (proposes true true 9 (bytes "q") (evict bob)
        ∷ receives bob (sign_message (bytes "p") bob bob)
        ∷ [])
      gov gov-AreVetted

quorum_decides_example : (try_ratify by_name by_signers net_id gov (bytes "p")).1 ≡ (
    if is_ok (verify_quorum gov (candidate by_name by_signers net_id grant))
    then some (candidate by_name by_signers net_id grant)
    else none)
unfolding text_eq
quorum_decides_example =
    quorum_decides by_name by_signers net_id gov (bytes "p") grant gov-AreVetted refl refl

abbrev granted : Transition
granted = record {
  at = 7;
  variant = role_grant dave controller;
  signers = bob ∷ [];
  signatures = bob ∷ [];
}

gov-IsSorted : IsSorted gov.roles
unfolding text_le text_eq
gov-IsSorted = ((refl, refl, tt), (tt, tt))

try_ratify-IsQuorate_example :
    IsUnratified by_name by_signers net_id gov
      (try_ratify by_name by_signers net_id gov (bytes "p"))
    ⊎ IsQuorate by_name by_signers net_id gov
        (bytes "p")
        (try_ratify by_name by_signers net_id gov (bytes "p"))
try_ratify-IsQuorate_example =
    try_ratify-IsQuorate by_name by_signers net_id gov (bytes "p") gov-IsSorted

-- The grant is ratified.
grant_is_ratified : (try_ratify by_name by_signers net_id gov (bytes "p")).1 ≡ some granted
unfolding text_eq try_ratify sort set_of contains controllers_and_owners
grant_is_ratified = refl

canonicalize_signers-Permᴰ_example :
    canonicalize_signers bob (alice ∷ bob ∷ []) (map (λ s. s) (alice ∷ bob ∷ []))
    ≡ canonicalize_signers bob (bob ∷ alice ∷ []) (map (λ s. s) (bob ∷ alice ∷ []))
canonicalize_signers-Permᴰ_example =
    canonicalize_signers-Permᴰ bob (λ s. s) (alice ∷ bob ∷ []) (bob ∷ alice ∷ [])
      (Permᴰ.swap refl refl)

member_tier_timestamp-IsLast_example :
    (2 ≤ member_tier_timestamp gov 2 (evict dave))
    × All (IsOlder dave (member_tier_timestamp gov 2 (evict dave))) gov.member_log
member_tier_timestamp-IsLast_example =
    member_tier_timestamp-IsLast gov 2 (evict dave) dave refl (omega arith, tt)

broadcast_behind_example :
    ((propose by_name by_signers net_id alice
        (λ payload. alice)
        (λ text. text)
        true
        true
        2
        (bytes "q")
        (evict dave)
        gov).broadcast
      ≡ propose_message (bytes "q") (evict dave) alice 2 alice ∷ [])
    × IsKeptLater by_name by_signers net_id alice
        (λ payload. alice)
        (λ text. text)
        2
        (bytes "q")
        (evict dave)
        (propose by_name by_signers net_id alice
          (λ payload. alice)
          (λ text. text)
          true
          true
          2
          (bytes "q")
          (evict dave)
          gov).gov
unfolding is_reassertion text_eq
broadcast_behind_example =
    broadcast_behind by_name by_signers net_id alice (λ payload. alice) (λ text. text) gov 2
      (bytes "q") dave (evict dave) refl refl refl (here (refl, omega arith)) (omega arith, tt)

abbrev row : Text → Role → AuthorizedPeer
row id role = record { device_id = id; label = []; approved_at = 1; role = role }

abbrev roles : TreeMap Text Role
roles = (alice, owner) ∷ (bob, controller) ∷ []

role_at-mirror_roles_to_roster_example :
    role_at (mirror_roles_to_roster 5 roles (row dave controller ∷ []) (bob ∷ []) alice).0 dave ≡ (
      if text_eq dave (pubkey_part alice) || not (contains (bob ∷ []) dave)
      then or_else
          (lookup dave roles)
          (and_then (role_at (row dave controller ∷ []) dave) (λ r. some member))
      else none)
unfolding text_eq text_le pubkey_part rsplit_dash
role_at-mirror_roles_to_roster_example =
    role_at-mirror_roles_to_roster 5 roles (row dave controller ∷ []) (bob ∷ []) alice dave
      (refl, (refl, tt)) ((refl, refl, tt), (tt, tt))
