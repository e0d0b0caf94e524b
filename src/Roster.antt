-- ===== src/Roster.antt =====
-- The roster of approved devices: the operations in memory of crates/myownmesh-core/src/roster.rs, and
-- the mirror of the signed roles on it, `mirror_roles_to_roster` of
-- crates/myownmesh-core/src/engine/governance.rs. The wall clock and the digest are parameters; reading
-- and writing the file is not modelled.
pub mod Mirror
pub mod Ratified
use my_own_mesh.Base.{
  ℕ, Bool, true, false, not, ◌&&◌, ◌||◌, Option, none, some, List, [], ◌∷◌, ◌++◌, map, max, length,
  any, find?, filterb, update_first, is_some, if◌then◌else◌, ◌%◌, ◌^◌,
}
use my_own_mesh.Base.Text.{Text, text_eq, text_le, text_ordered}
use my_own_mesh.Base.TreeMap.{TreeMap, lookup, contains_key}
use my_own_mesh.Base.TreeSet.{contains}
use my_own_mesh.Base.Sorting.{sort}
use my_own_mesh.Governance.{Role, member, role_eq}
use my_own_mesh.Topology.{pubkey_part}

abbrev roster_version : ℕ
roster_version = 1

pub record AuthorizedPeer : Type 0 where
  pub device_id : Text
  pub label : Text
  pub approved_at : ℕ
  pub role : Role

pub record Roster : Type 0 where
  pub version : ℕ
  pub network_id : Text
  authorized_devices : List AuthorizedPeer

pub empty_for : Text → Roster
empty_for network_id = record {
  version = roster_version;
  network_id = network_id;
  authorized_devices = [];
}

-- `p.device_id == pubkey`.
abbrev pub is_row : Text → AuthorizedPeer → Bool
is_row pubkey p = text_eq p.device_id pubkey

pub is_authorized : List AuthorizedPeer → Text → Bool
unfolding text_eq
is_authorized rows device_id = any (is_row (pubkey_part device_id)) rows

pub add_peer_in : ℕ → List AuthorizedPeer → Text → Text → List AuthorizedPeer
unfolding text_eq
add_peer_in now rows device_id label =
    let pubkey = pubkey_part device_id in
    if any (is_row pubkey) rows
    then update_first (is_row pubkey) (λ (p : AuthorizedPeer). record p { label = label }) rows
    else rows ++ record { device_id = pubkey; label = label; approved_at = now; role = member } ∷ []

-- Whether the first row of the device has another role.
abbrev pub has_other_role : Role → Option AuthorizedPeer → Bool
has_other_role role none = false
has_other_role role (some p) = not (role_eq p.role role)

-- Whether a row was changed, and the rows after.
pub set_role_in : List AuthorizedPeer → Text → Role → Bool × List AuthorizedPeer
unfolding text_eq
set_role_in rows device_id role =
    let pubkey = pubkey_part device_id in
    if has_other_role role (find? (is_row pubkey) rows)
    then (
      true,
      update_first (is_row pubkey) (λ (p : AuthorizedPeer). record p { role = role }) rows,
    )
    else (false, rows)

pub remove_peer_in : List AuthorizedPeer → Text → List AuthorizedPeer
unfolding text_eq
remove_peer_in rows device_id =
    let pubkey = pubkey_part device_id in
    filterb (λ (p : AuthorizedPeer). not (is_row pubkey p)) rows

last_edit_ts : List AuthorizedPeer → ℕ
last_edit_ts [] = 0
last_edit_ts (p ∷ rows) = max p.approved_at (last_edit_ts rows)

-- The root is a digest of the ids in order, each followed by `|`.
membership_text : List Text → Text
membership_text [] = []
membership_text (id ∷ ids) = id ++ 124 ∷ membership_text ids

membership_root : (Text → Text) → Roster → Text
unfolding text_le membership_text
membership_root digest roster = digest (
    membership_text
      (sort text_le (map (λ (p : AuthorizedPeer). p.device_id) roster.authorized_devices)))

pub record RosterSummary : Type 0 where
  root : Text
  pub count : ℕ
  last_edit_ts : ℕ

-- `count` is a `u32`.
pub summary : (Text → Text) → Roster → RosterSummary
unfolding membership_root last_edit_ts
summary digest roster = record {
  root = membership_root digest roster;
  count = length roster.authorized_devices % 2 ^ 32;
  last_edit_ts = last_edit_ts roster.authorized_devices;
}

-- The loop over the signed roles: the rows, the ids that were added and those with a new role.
pub mirror_roles :
    ℕ → TreeMap Text Role → List AuthorizedPeer → List AuthorizedPeer × List Text × List Text
unfolding is_authorized add_peer_in set_role_in
mirror_roles now [] rows = (rows, [], [])
mirror_roles now ((pubkey, role) ∷ roles) rows =
    let known = is_authorized rows pubkey in
    let tagged = set_role_in (if known then rows else add_peer_in now rows pubkey []) pubkey role in
    let rest = mirror_roles now roles tagged.1 in
    (
      rest.0,
      if known then rest.1 else pubkey ∷ rest.1,
      if tagged.0 then pubkey ∷ rest.2 else rest.2,
    )

-- Our own row, or one without a tombstone.
pub is_kept : Text → List Text → AuthorizedPeer → Bool
unfolding text_eq contains
is_kept self_pk removed p = text_eq p.device_id self_pk || not (contains removed p.device_id)

pub is_stale : TreeMap Text Role → AuthorizedPeer → Bool
unfolding contains_key
is_stale roles p = not (contains_key p.device_id roles) && not (role_eq p.role member)

pub clear_stale : TreeMap Text Role → AuthorizedPeer → AuthorizedPeer
unfolding is_stale
clear_stale roles p = if is_stale roles p then record p { role = member } else p

pub record RosterProjectionRepair : Type 0 where
  pub added : List Text
  pub removed : List Text
  roles_updated : List Text

pub mirror_roles_to_roster :
    ℕ
    → TreeMap Text Role
    → List AuthorizedPeer
    → List Text
    → Text
    → List AuthorizedPeer × RosterProjectionRepair
unfolding mirror_roles is_kept is_stale clear_stale
mirror_roles_to_roster now roles rows removed self_pubkey =
    let self_pk = pubkey_part self_pubkey in
    let (mirrored, added, updated) = mirror_roles now roles rows in
    let kept = filterb (is_kept self_pk removed) mirrored in
    (
      map (clear_stale roles) kept,
      record {
        added = added;
        removed =
            map (λ (p : AuthorizedPeer). p.device_id)
              (filterb (λ (p : AuthorizedPeer). not (is_kept self_pk removed p)) mirrored);
        roles_updated =
            updated ++ map (λ (p : AuthorizedPeer). p.device_id) (filterb (is_stale roles) kept);
      },
    )
