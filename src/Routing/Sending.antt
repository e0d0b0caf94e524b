-- ===== src/Routing/Sending.antt =====
-- Frames that this engine originates: `send_routed` and `broadcast_flood` of
-- crates/myownmesh-core/src/engine/routing.rs.
use my_own_mesh.Base.{
  ℕ, Bool, false, not, ◌&&◌, Option, none, some, List, [], ◌∷◌, map, if◌then◌else◌, is_none, first?,
}
use my_own_mesh.Base.Text.{Text, text_ordered}
use my_own_mesh.Base.TreeMap.{TreeMap}
use my_own_mesh.Connection.{PeerState}
use my_own_mesh.Topology.Selector.{next_hops, flood_ttl}
use my_own_mesh.Routing.{
  Json, Router, wrap, fresh_frame_id, first_sighting, connected_ids, is_active, fan_out,
  first_accepting,
}

-- Why a frame was not sent: no next hop, or no hop that took it.
pub data SendFailure : Type 0 where
  no_route : SendFailure
  refused : SendFailure

pub record Sent (Value : Type 0) : Type 0 where
  pub failure : Option SendFailure
  pub sent : List (Text × Value)
  pub router : Router

-- Active, shelved by neither side, with an open channel.
flood_targets : TreeMap Text PeerState → List Text
flood_targets [] = []
flood_targets ((id, p) ∷ peers) =
    let rest = flood_targets peers in
    if is_active p.status && not p.local_shelved && not p.remote_shelved && p.data_channel_open
    then id ∷ rest
    else rest

-- Our own sighting, of the frame id that the random number makes.
unfoldable pub note_own : Router → ℕ → Router
unfolding first_sighting fresh_frame_id
note_own r random = record r {
  routing_seen = (first_sighting r.me (fresh_frame_id random) r.routing_seen).1;
}

module _ (json : Json) (digest8 : Text → ℕ) (accepts : Text → Bool) where
  -- The frame that we originate.
  own_frame : Router → Text → Text → json.Value → ℕ → json.Value
  unfolding wrap flood_ttl fresh_frame_id
  own_frame r dst channel payload random = json.to_value (record {
    dst = dst;
    src = r.me;
    payload = wrap json channel payload (flood_ttl r.selector) (fresh_frame_id random);
  })

  pub send_routed : Router → Text → Text → json.Value → ℕ → Sent json.Value
  unfolding next_hops connected_ids note_own own_frame first_accepting
  send_routed r dest channel payload random =
      let hops = next_hops digest8 r.selector r.me dest (connected_ids r.peers) in
      let took = first_accepting accepts (λ (hop : Text). false) hops in
      if is_none (first? hops)
      then record { failure = some no_route; sent = []; router = r }
      else record {
        failure = if is_none (first? took) then some refused else none;
        sent = map (λ (hop : Text). (hop, own_frame r dest channel payload random)) took;
        router = note_own r random;
      }

  -- The number of peers that took the frame is the length of `sent`.
  pub broadcast_flood : Router → Text → json.Value → ℕ → Sent json.Value
  unfolding flood_targets note_own own_frame fan_out
  broadcast_flood r channel payload random = record {
    failure = none;
    sent =
        map (λ (peer : Text). (peer, own_frame r [] channel payload random))
          (fan_out accepts (λ (peer : Text). false) (flood_targets r.peers));
    router = note_own r random;
  }
