-- ===== src/Routing/Frames.antt =====
-- The handler of an inbound frame: `on_relay_frame` of crates/myownmesh-core/src/engine/routing.rs.
-- What it does outwards is its result: the frame that channel subscribers get and the frames that
-- peers took.
use my_own_mesh.Base.{
  ℕ, ◌+◌, ◌-◌, Bool, true, false, not, ◌&&◌, ◌||◌, Option, none, some, List, [], ◌∷◌, map, any,
  ◌==◌, if◌then◌else◌,
}
use my_own_mesh.Base.Text.{Text, text_eq, text_ordered}
use my_own_mesh.Topology.Selector.{forwards, next_hops}
use my_own_mesh.Routing.{
  RelayEnvelope, Wrapper, Json, Router, parse_wrapper, wrap, first_sighting, connected_ids, fan_out,
  first_accepting, is_empty, origin_of,
}

pub record Handled (Value : Type 0) : Type 0 where
  -- The return value: whether the frame was a routed one.
  consumed : Bool
  -- The origin, channel and body that subscribers get.
  pub delivered : Option (Text × Text × Value)
  -- The peers that took the onward frame, and that frame.
  pub sent : List (Text × Value)
  pub router : Router

module _ (json : Json) (digest8 : Text → ℕ) (accepts : Text → Bool) where
  abbrev pub silent : Bool → Router → Handled json.Value
  silent consumed r = record { consumed = consumed; delivered = none; sent = []; router = r }

  -- The peers that are given a copy, among those connected.
  unfoldable pub next_receivers : Router → Text → Text → Text → List Text
  unfolding connected_ids fan_out first_accepting text_eq next_hops
  next_receivers r from origin dst =
      let connected = connected_ids r.peers in
      if is_empty dst
      then fan_out accepts (λ peer. text_eq peer from || text_eq peer origin) connected
      else first_accepting accepts (λ hop. text_eq hop from)
          (if any (λ c. text_eq c dst) connected
            then dst ∷ []
            else next_hops digest8 r.selector r.me dst connected)

  -- `onward_value`.
  unfoldable pub onward : Text → RelayEnvelope json.Value → Wrapper json.Value → json.Value
  unfolding wrap
  onward origin env w = json.to_value (record {
    dst = env.dst;
    src = origin;
    payload = wrap json w.channel w.body (w.ttl - 1) w.id;
  })

  -- From the first sighting on.
  unfoldable pub handle_new :
      Router → Text → Text → RelayEnvelope json.Value → Wrapper json.Value → Handled json.Value
  unfolding next_receivers onward text_eq forwards
  handle_new r from origin env w =
      let broadcast = is_empty env.dst in
      let for_me = broadcast || text_eq env.dst r.me in
      let delivered = if for_me then some (origin, w.channel, w.body) else none in
      if not broadcast && text_eq env.dst r.me || not (forwards r.selector r.me) || (w.ttl == 0)
      then record { consumed = true; delivered = delivered; sent = []; router = r }
      else record {
        consumed = true;
        delivered = delivered;
        sent =
            map (λ (peer : Text). (peer, onward origin env w))
              (next_receivers r from origin env.dst);
        router = record r { forwarded = r.forwarded + 1 };
      }

  unfoldable pub handle_wrapper :
      Router → Text → RelayEnvelope json.Value → Wrapper json.Value → Handled json.Value
  unfolding first_sighting handle_new text_eq forwards
  handle_wrapper r from env w =
      let origin = origin_of from env in
      if not (text_eq origin from) && not (forwards r.selector from)
      then silent true r
      else let sighting = first_sighting origin w.id r.routing_seen in
        let noted = record r { routing_seen = sighting.1 } in
        if sighting.0 then handle_new noted from origin env w else silent true noted

  unfoldable pub on_relay_frame : Router → Text → json.Value → Handled json.Value
  unfolding parse_wrapper handle_wrapper
  on_relay_frame r from payload = elim (json.from_value payload) [
    | none ↦ silent false r
    | some env ↦ elim (parse_wrapper json env.payload) [
      | none ↦ silent false r
      | some w ↦ handle_wrapper r from env w
    ]
  ]
