-- ===== src/Governance/MemberLog.antt =====
-- The member tier of crates/myownmesh-core/src/network_state.rs: the multi-writer log of admits and
-- removals, its projection and its merge, and the migration of a legacy log into two tiers.
-- `serde_json::to_string`, which gives an entry its key, is a parameter.
pub mod Convergence
pub mod Join
pub mod LastWriter
pub mod LatestWord
pub mod Migration
use my_own_mesh.Base.{
  ℕ, Bool, true, false, not, ◌&&◌, ◌||◌, Option, none, some, List, [], ◌∷◌, ◌++◌, map, any, filterb,
  first?, unwrap_or, leb, ltb, ◌==◌, if◌then◌else◌,
}
use my_own_mesh.Base.Results.{Result, ok, err}
use my_own_mesh.Base.Text.{Text, text_le, text_eq, text_ordered}
use my_own_mesh.Base.Sorting.{sort}
use my_own_mesh.Base.TreeMap.{TreeMap, lookup, insert, remove, or_insert}
use my_own_mesh.Base.TreeSet.{contains}
use my_own_mesh.Governance.{
  NetworkKind, open_kind, closed, silent, Role, member, controller, owner, TransitionVariant,
  kind_change, role_grant, role_revoke, evict, split, topology_change, unknown, Transition,
  NetworkState, role_eq, elect_founder,
}
use my_own_mesh.Governance.Quorum.{Error, controllers_and_owners}
use my_own_mesh.Governance.Log.{Signing, verify_transition_signatures}

pub is_member_tier : TransitionVariant → Role → Bool
is_member_tier (role_grant target member) target_role = true
is_member_tier (role_revoke target) target_role = role_eq target_role member
is_member_tier (evict target) target_role = role_eq target_role member
is_member_tier _ target_role = false

abbrev pub is_member_grant : TransitionVariant → Bool
is_member_grant (role_grant target member) = true
is_member_grant _ = false

-- `false < true`.
abbrev bool_ltb : Bool → Bool → Bool
bool_ltb false true = true
bool_ltb _ _ = false

-- `g.cmp(&h).then(rest)`, where `rest` says whether the remaining terms are in order.
then_le : Bool → Bool → Bool → Bool
then_le g h rest = if bool_ltb g h then true else if bool_ltb h g then false else rest

module _ (key : Transition → Text) where
  -- Earlier first, then tombstones before grants, then by key.
  pub entry_le : Transition → Transition → Bool
  unfolding text_le then_le
  entry_le a b =
      if ltb a.at b.at
      then true
      else if ltb b.at a.at
      then false
      else then_le (is_member_grant a.variant) (is_member_grant b.variant) (text_le (key a) (key b))

  pub merge_into : TreeMap Text Transition → List Transition → TreeMap Text Transition
  merge_into by_key [] = by_key
  merge_into by_key (t ∷ ts) = merge_into (or_insert (key t) t by_key) ts

  unfoldable pub merge_member_logs : List Transition → List Transition → List Transition
  unfolding merge_into
  merge_member_logs local incoming = map (λ e. e.1) (merge_into [] (local ++ incoming))

-- What an entry that counts does to the verdict.
abbrev record_verdict : TransitionVariant → TreeMap Text Bool → TreeMap Text Bool
record_verdict (role_grant target member) present = insert target true present
record_verdict (role_revoke target) present = insert target false present
record_verdict (evict target) present = insert target false present
record_verdict _ present = present

abbrev pub is_ok : {A : Type 0} → Result Error A → Bool
is_ok (ok a) = true
is_ok (err e) = false

module _ (sig : Signing) where
  -- An entry counts if its signatures verify and a current owner or manager signed it.
  unfoldable pub counts : NetworkState → Text → Transition → Bool
  counts gov network_id t =
      is_ok (verify_transition_signatures sig network_id t)
      && any (contains (controllers_and_owners gov)) t.signers

  pub fold_verdict : NetworkState → Text → TreeMap Text Bool → List Transition → TreeMap Text Bool
  unfolding counts
  fold_verdict gov network_id present [] = present
  fold_verdict gov network_id present (t ∷ ts) =
      fold_verdict gov network_id
        (if counts gov network_id t then record_verdict t.variant present else present) ts

  module _ (key : Transition → Text) where
    pub member_log_verdict : NetworkState → List Transition → Text → TreeMap Text Bool
    unfolding fold_verdict
    member_log_verdict gov member_log network_id =
        fold_verdict gov network_id [] (sort (entry_le key) member_log)

    unfoldable pub verify_member_log : NetworkState → List Transition → Text → List Text
    unfolding member_log_verdict
    verify_member_log gov member_log network_id =
        map (λ e. e.0) (filterb (λ e. e.1) (member_log_verdict gov member_log network_id))

    unfoldable pub member_log_removed : NetworkState → List Transition → Text → List Text
    unfolding member_log_verdict
    member_log_removed gov member_log network_id =
        map (λ e. e.0) (filterb (λ e. not e.1) (member_log_verdict gov member_log network_id))

-- The role that a removal's target holds in the replay so far.
target_role : TransitionVariant → TreeMap Text Role → Role
target_role (role_revoke target) roles = unwrap_or (lookup target roles) member
target_role (evict target) roles = unwrap_or (lookup target roles) member
target_role _ roles = member

replay_roles : TransitionVariant → List Text → TreeMap Text Role → TreeMap Text Role
unfolding elect_founder
replay_roles (role_grant target role) signers roles = insert target role roles
replay_roles (role_revoke target) signers roles = remove target roles
replay_roles (evict target) signers roles = remove target roles
replay_roles (kind_change to) signers roles = elect_founder to signers roles
replay_roles _ signers roles = roles

-- The loop of `split_member_tier`: the governance entries and the member entries, in order.
split_from : TreeMap Text Role → List Transition → List Transition × List Transition
unfolding is_member_tier target_role replay_roles
split_from roles [] = ([], [])
split_from roles (t ∷ ts) =
    let (governance, members) = split_from (replay_roles t.variant t.signers roles) ts in
    if is_member_tier t.variant (target_role t.variant roles)
    then (governance, t ∷ members)
    else (t ∷ governance, members)

pub split_member_tier : NetworkState → NetworkState
unfolding split_from
split_member_tier state =
    let (governance, members) = split_from [] state.transitions in
    record state { transitions = governance; member_log = members ++ state.member_log }
