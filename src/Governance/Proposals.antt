-- ===== src/Governance/Proposals.antt =====
-- Ratification of pending proposals: `try_ratify` of crates/myownmesh-core/src/engine/governance.rs, up
-- to the end of its write lock, with the functions that it calls. Signatures and the text of an entry
-- are parameters as in the signed log. A failing save is reported after the state has changed and
-- leaves out what follows the lock.
pub mod Local
pub mod Inbound
pub mod Canonical
pub mod Vetting
pub mod Own
pub mod Messages
pub mod Runs
pub mod Ratified
pub mod Effects
pub mod Stamps
pub mod Broadcast
use my_own_mesh.Base.{
  ℕ, ◌+◌, ◌-◌, ◌^◌, Bool, true, false, not, ◌&&◌, ◌||◌, Option, none, some, List, [], ◌∷◌, ◌++◌,
  map, max, min, length, any, all, find?, filterb, update_first, first?, is_none, leb, ◌==◌,
  if◌then◌else◌,
}
use my_own_mesh.Base.Results.{Result, ok, err}
use my_own_mesh.Base.Text.{Text, text_eq, text_le, text_ordered}
use my_own_mesh.Base.Sorting.{sort}
use my_own_mesh.Base.TreeMap.{TreeMap, lookup, or_insert}
use my_own_mesh.Base.TreeSet.{set_of}
use my_own_mesh.Governance.{
  Role, member, role_eq, TransitionVariant, kind_change, role_grant, role_revoke, evict, split,
  topology_change, unknown, Transition, Proposal, NetworkState, empty_for, role_of,
  apply_transition, texts_eq,
}
use my_own_mesh.Governance.Quorum.{Error, verify_quorum}
use my_own_mesh.Governance.Log.{Signing, verify_transition_signatures, verify_log}
use my_own_mesh.Governance.MemberLog.{is_ok, verify_member_log}

abbrev pub is_proposal : Text → Proposal → Bool
is_proposal id p = text_eq p.id id

-- `pending.remove(position)` of the first entry with the id.
pub remove_first : Text → List Proposal → List Proposal
unfolding text_eq
remove_first id [] = []
remove_first id (p ∷ ps) =
    let rest = remove_first id ps in if is_proposal id p then ps else p ∷ rest

abbrev pub zip : List Text → List Text → List (Text × Text)
zip (x ∷ xs) (y ∷ ys) = (x, y) ∷ zip xs ys
zip _ _ = []

abbrev pub unzip : List (Text × Text) → List Text × List Text
unzip pairs = (map (λ (p : Text × Text). p.0) pairs, map (λ (p : Text × Text). p.1) pairs)

-- The proposer first, then by key.
pub signer_le : Text → Text → Text → Bool
unfolding text_eq text_le
signer_le proposer a b =
    if text_eq a proposer then true else if text_eq b proposer then false else text_le a b

pub canonicalize_signers : Text → List Text → List Text → List Text × List Text
unfolding signer_le
canonicalize_signers proposer signers signatures =
    if length signers == length signatures
    then unzip (sort (λ (a b : Text × Text). signer_le proposer a.0 b.0) (zip signers signatures))
    else (signers, signatures)

unfoldable pub member_entry_target : TransitionVariant → Option Text
member_entry_target (role_grant target role) = some target
member_entry_target (role_revoke target) = some target
member_entry_target (evict target) = some target
member_entry_target _ = none

abbrev is_target : Text → Option Text → Bool
is_target target none = false
is_target target (some t) = text_eq t target

-- The largest time of an entry about the device, 0 without one.
unfoldable pub newest_for : Text → List Transition → ℕ
unfolding text_eq member_entry_target
newest_for target [] = 0
newest_for target (t ∷ ts) =
    let rest = newest_for target ts in
    if is_target target (member_entry_target t.variant) then max t.at rest else rest

-- The device whose member-log entries a new transition must follow, if any.
unfoldable pub stamped_target : NetworkState → TransitionVariant → Option Text
unfolding role_of
stamped_target gov (role_grant target member) = some target
stamped_target gov (role_revoke target) =
    if role_eq (role_of gov target) member then some target else none
stamped_target gov (evict target) = some target
stamped_target gov _ = none

-- `now.max(newest.saturating_add(1))` on 64 bits.
pub member_tier_timestamp : NetworkState → ℕ → TransitionVariant → ℕ
unfolding stamped_target newest_for
member_tier_timestamp gov now variant = elim (stamped_target gov variant) [
  | none ↦ now
  | some target ↦ max now (min (newest_for target gov.member_log + 1) (2 ^ 64 - 1))
]

unfoldable pub same_signer_set : Transition → Transition → Bool
unfolding set_of texts_eq
same_signer_set a b =
    if length a.signers == length b.signers
    then texts_eq (set_of a.signers) (set_of b.signers)
    else false

pub rides_member_log : NetworkState → TransitionVariant → Bool
unfolding role_of
rides_member_log gov (role_grant target member) = true
rides_member_log gov (role_revoke target) = role_eq (role_of gov target) member
rides_member_log gov (evict target) = role_eq (role_of gov target) member
rides_member_log gov _ = false

abbrev pub is_evict : TransitionVariant → Bool
is_evict (evict target) = true
is_evict _ = false

unfoldable pub add_members : List Text → TreeMap Text Role → TreeMap Text Role
unfolding or_insert
add_members [] roles = roles
add_members (m ∷ ms) roles = add_members ms (or_insert m member roles)

abbrev or_empty : Text → Result Error NetworkState → NetworkState
or_empty network_id (ok state) = state
or_empty network_id (err e) = empty_for network_id

module _ (sig : Signing) (key : Transition → Text) (network_id : Text) where
  project_roles : List Transition → List Transition → TreeMap Text Role
  unfolding add_members verify_log verify_member_log empty_for
  project_roles transitions member_log =
      let gov = or_empty network_id (verify_log sig network_id transitions) in
      add_members (verify_member_log sig key gov member_log network_id) gov.roles

  -- The entry in the member log, and the roles that both logs give.
  log_member : NetworkState → Transition → NetworkState
  unfolding project_roles
  log_member gov t = record gov {
    member_log = gov.member_log ++ t ∷ [];
    roles = project_roles gov.transitions (gov.member_log ++ t ∷ []);
  }

  pub apply_ratified : NetworkState → Transition → NetworkState
  unfolding rides_member_log log_member apply_transition
  apply_ratified gov t =
      if rides_member_log gov t.variant
      then log_member gov t
      else let after = apply_transition gov t in
        if is_evict t.variant then log_member after t else after

  pub candidate : Proposal → Transition
  unfolding canonicalize_signers
  candidate p =
      let (signers, signatures) = canonicalize_signers p.proposer p.signers p.signatures in
      record { at = p.created_at; variant = p.variant; signers = signers; signatures = signatures }

  -- The state, and the transition that was ratified.
  unfoldable pub try_ratify : NetworkState → Text → NetworkState × Option Transition
  unfolding text_eq remove_first candidate verify_transition_signatures verify_quorum apply_ratified
  try_ratify gov proposal_id = elim (find? (is_proposal proposal_id) gov.pending) [
    | none ↦ (gov, none)
    | some p ↦
        if not (is_none (first? p.deniers))
        then (record gov { pending = remove_first proposal_id gov.pending }, none)
        else if is_ok (verify_transition_signatures sig network_id (candidate p))
            && is_ok (verify_quorum gov (candidate p))
        then (
          record (apply_ratified gov (candidate p)) {
            pending =
                filterb (λ (q : Proposal). not (is_proposal proposal_id q))
                  (apply_ratified gov (candidate p)).pending;
          },
          some (candidate p),
        )
        else (gov, none)
  ]
