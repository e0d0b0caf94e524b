-- ===== src/Routing.antt =====
-- Routed frames: crates/myownmesh-core/src/engine/routing.rs, with `RELAY_CHANNEL` and
-- `RelayEnvelope` of crates/myownmesh-core/src/services/relay.rs. JSON values and their serialisation
-- are parameters (`Json`), and so are the random frame id and whether `send_to_peer` succeeds.
pub mod Frames
pub mod Sending
pub mod Seen
pub mod Runs
pub mod Once
pub mod Onward
pub mod Hops
pub mod Relay
pub mod Wrappers
use my_own_mesh.Base.{
  ℕ, ◌+◌, ◌-◌, ◌%◌, ◌^◌, ◌<◌, ◌≡◌, Bool, true, false, not, ◌&&◌, ◌||◌, Option, none, some, List, [],
  ◌∷◌, ◌++◌, length, map, any, leb, ◌==◌, if◌then◌else◌, is_none, unwrap_or, and_then, first?,
}
use my_own_mesh.Base.Text.{Text, text_eq, bytes, text_ordered}
use my_own_mesh.Base.TreeMap.{TreeMap, lookup, insert}
use my_own_mesh.Connection.{PeerState, PeerStatus, active, is_up}
use my_own_mesh.Topology.Selector.{Selector, forwards, next_hops, flood_ttl}

abbrev pub relay_channel : Text
relay_channel = bytes "__mesh_relay__/v1"

abbrev pub routing_seen_capacity : ℕ
routing_seen_capacity = 2048

pub record RelayEnvelope (Value : Type 0) : Type 0 where
  pub dst : Text
  pub src : Text
  pub payload : Value

pub record Wrapper (Value : Type 0) : Type 0 where
  pub channel : Text
  pub body : Value
  pub ttl : ℕ
  pub id : ℕ

-- `serde_json`: values, their accessors, and the derived (de)serialisation of an envelope.
pub record Json : Type 1 where
  pub Value : Type 0
  pub null : Value
  pub string : Text → Value
  pub number : ℕ → Value
  pub object : TreeMap Text Value → Value
  -- `as_object()?.get(key)`, `as_str` and `as_u64`.
  pub get : Text → Value → Option Value
  pub as_str : Value → Option Text
  pub as_u64 : Value → Option ℕ
  pub to_value : RelayEnvelope Value → Value
  pub from_value : Value → Option (RelayEnvelope Value)
  pub get-object : (key : Text) (m : TreeMap Text Value) → get key (object m) ≡ lookup key m
  pub as_str-string : (s : Text) → as_str (string s) ≡ some s
  pub as_u64-number : (n : ℕ) → n < 2 ^ 64 → as_u64 (number n) ≡ some n
  pub as_u64-lt : (v : Value) (n : ℕ) → as_u64 v ≡ some n → n < 2 ^ 64
  pub from_value-to_value : (env : RelayEnvelope Value) → from_value (to_value env) ≡ some env

-- The state of one engine that routing reads or writes; `forwarded` is the traffic counter.
pub record Router : Type 0 where
  pub me : Text
  pub selector : Selector
  pub peers : TreeMap Text PeerState
  pub routing_seen : List (Text × ℕ)
  pub forwarded : ℕ

unfoldable pub parse_wrapper : (json : Json) → json.Value → Option (Wrapper json.Value)
unfolding text_eq
parse_wrapper json payload = and_then (json.get (bytes "__channel") payload) λ value.
    and_then (json.as_str value) λ channel.
      if text_eq channel relay_channel
      then none
      else some (record {
        channel = channel;
        body = unwrap_or (json.get (bytes "__body") payload) json.null;
        ttl = unwrap_or (and_then (json.get (bytes "__ttl") payload) json.as_u64) 0 % 2 ^ 8;
        id = unwrap_or (and_then (json.get (bytes "__id") payload) json.as_u64) 0;
      })

unfoldable pub wrap : (json : Json) → Text → json.Value → ℕ → ℕ → json.Value
wrap json channel body ttl id = json.object (
    insert (bytes "__channel") (json.string channel) (
      insert (bytes "__body") body
        (insert (bytes "__ttl") (json.number ttl) (insert (bytes "__id") (json.number id) []))))

-- `gen::<u64>() | 1`.
pub fresh_frame_id : ℕ → ℕ
fresh_frame_id random = if random % 2 == 0 then random + 1 else random

abbrev pub pop_front : {A : Type 0} → List A → List A
pop_front [] = []
pop_front (x ∷ xs) = xs

abbrev pub is_entry : Text → ℕ → Text × ℕ → Bool
is_entry origin id entry = (entry.1 == id) && text_eq entry.0 origin

-- The second component is the ring after the call.
pub first_sighting : Text → ℕ → List (Text × ℕ) → Bool × List (Text × ℕ)
unfolding text_eq
first_sighting origin id seen =
    if id == 0
    then (true, seen)
    else if any (is_entry origin id) seen
    then (false, seen)
    else if leb routing_seen_capacity (length seen)
    then (true, pop_front seen ++ (origin, id) ∷ [])
    else (true, seen ++ (origin, id) ∷ [])

-- `matches!(status, PeerStatus::Active)`.
abbrev pub is_active : PeerStatus → Bool
is_active active = true
is_active _ = false

pub connected_ids : TreeMap Text PeerState → List Text
connected_ids [] = []
connected_ids ((id, p) ∷ peers) =
    let rest = connected_ids peers in
    if is_up p.status && p.data_channel_open then id ∷ rest else rest

-- Send to each of the peers that is not in `but`: the peers that took the frame.
pub fan_out : (Text → Bool) → (Text → Bool) → List Text → List Text
fan_out accepts but [] = []
fan_out accepts but (peer ∷ peers) =
    let rest = fan_out accepts but peers in
    if but peer then rest else if accepts peer then peer ∷ rest else rest

-- The first hop that accepts wins.
pub first_accepting : (Text → Bool) → (Text → Bool) → List Text → List Text
first_accepting accepts but [] = []
first_accepting accepts but (hop ∷ hops) =
    let rest = first_accepting accepts but hops in
    if but hop then rest else if accepts hop then hop ∷ [] else rest

abbrev pub is_empty : Text → Bool
is_empty [] = true
is_empty (c ∷ cs) = false

abbrev pub origin_of : {Value : Type 0} → Text → RelayEnvelope Value → Text
origin_of from env = if is_empty env.src then from else env.src
