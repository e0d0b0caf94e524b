-- ===== src/Ladder.antt =====
-- Shelving and shaping of links: `reevaluate_topology` and `shape_connections` of
-- crates/myownmesh-core/src/engine/ladder.rs. The frames that a pass sends and the links that it
-- closes or dials are its result; opening and closing a session is not modelled. The peers of a
-- `DashMap` are iterated in the order of their ids.
pub mod Shelving
pub mod Placement
pub mod Shaping
use my_own_mesh.Base.{
  ℕ, Bool, true, false, not, ◌&&◌, ◌||◌, Option, none, some, List, [], ◌∷◌, ◌++◌, any, filterb, map,
  if◌then◌else◌,
}
use my_own_mesh.Base.Text.{Text, text_eq, text_le, text_ordered}
use my_own_mesh.Base.TreeMap.{TreeMap, lookup, insert}
use my_own_mesh.Connection.{
  PeerState, PeerStatus, sighted, handshaking, pending_approval, active, shelved, reconnecting,
  offline, error, is_up,
}
use my_own_mesh.Topology.Selector.{Selector, select_preferred, edge, prunes}

pub record Links : Type 0 where
  pub self_evicted : Bool
  pub me : Text
  pub peers : TreeMap Text PeerState
  pub selector : Selector
  pub sticky : List Text
  -- The peers with a session.
  pub sessions : List Text

pub among : List Text → Text → Bool
unfolding text_eq
among xs x = any (λ y. text_eq x y) xs

-- The ids of the peers that are up.
pub active_peers : TreeMap Text PeerState → List Text
active_peers [] = []
active_peers ((id, p) ∷ peers) =
    let rest = active_peers peers in if is_up p.status then id ∷ rest else rest

-- What the pass makes of one peer's state.
pub shelve_to : Bool → PeerState → PeerState
shelve_to should p = record p {
  local_shelved = should;
  status = elim p.status [
    | active ↦ if should then shelved else active
    | shelved ↦ if should then shelved else active
    | other ↦ other
  ];
}

abbrev bool_eq : Bool → Bool → Bool
bool_eq true b = b
bool_eq false b = not b

-- The loop over the peers that are up: the new states and the frames, `(peer, shelve)`.
shelve_all : (Text → Bool) → TreeMap Text PeerState → TreeMap Text PeerState × List (Text × Bool)
unfolding shelve_to
shelve_all should [] = ([], [])
shelve_all should ((id, p) ∷ peers) =
    let rest = shelve_all should peers in
    if is_up p.status
    then (
      (id, shelve_to (should id) p) ∷ rest.0,
      if bool_eq p.local_shelved (should id) then rest.1 else (id, should id) ∷ rest.1,
    )
    else ((id, p) ∷ rest.0, rest.1)

module _ (digest8 : Text → ℕ) where
  pub should_be_shelved : Links → Text → Bool
  unfolding among active_peers
  should_be_shelved links id =
      not (among (select_preferred digest8 links.selector links.me (active_peers links.peers)) id)
      && not (among links.sticky id)

  -- With no peer up the source returns early; the loop has nothing to do then.
  pub reevaluate_topology : Links → Links × List (Text × Bool)
  unfolding should_be_shelved shelve_all
  reevaluate_topology links =
      if links.self_evicted
      then (links, [])
      else let done = shelve_all (should_be_shelved links) links.peers in
        (record links { peers = done.0 }, done.1)

  -- The ids that the engine knows, its own last.
  known : Links → List Text
  known links = map (λ entry. entry.0) links.peers ++ links.me ∷ []

  pub has_edge : Links → Text → Bool
  unfolding known
  has_edge links id = edge digest8 links.selector links.me id (known links)

  abbrev is_shelved : PeerStatus → Bool
  is_shelved shelved = true
  is_shelved _ = false

  is_pruned : Links → Text → PeerState → Bool
  unfolding among has_edge
  is_pruned links id p =
      among links.sessions id
      && not (has_edge links id)
      && (p.local_shelved && p.remote_shelved)
      && is_shelved p.status
      && not (among links.sticky id)

  -- `me < *id`.
  abbrev below : Text → Text → Bool
  below a b = not (text_le b a)

  is_dialed : Links → Text → Bool
  unfolding among has_edge text_le
  is_dialed links id =
      not (among links.sessions id)
      && (has_edge links id || among links.sticky id)
      && below links.me id

  to_prune : Links → TreeMap Text PeerState → List Text
  unfolding is_pruned
  to_prune links [] = []
  to_prune links ((id, p) ∷ peers) =
      let rest = to_prune links peers in if is_pruned links id p then id ∷ rest else rest

  to_dial : Links → TreeMap Text PeerState → List Text
  unfolding is_dialed
  to_dial links [] = []
  to_dial links ((id, p) ∷ peers) =
      let rest = to_dial links peers in if is_dialed links id then id ∷ rest else rest

  -- The links that the pass closes, and those that it dials.
  pub shape_connections : Links → List Text × List Text
  unfolding to_prune to_dial
  shape_connections links =
      if prunes links.selector
      then (to_prune links links.peers, to_dial links links.peers)
      else ([], [])
