-- ===== src/Tests/RoutingRuns.antt =====
-- Routing on a ring of three, with a JSON of the few shapes that routing uses.
use my_own_mesh.Base.{
  ℕ, ◌^◌, ◌<◌, ◌≤◌, ◌≡◌, refl, Bool, true, false, ◌||◌, inl, inr, Option, none, some, [], ◌∷◌,
  length, All, here, ltb, if◌then◌else◌, is_some, unwrap_or, Option-cases, arith,
}
use my_own_mesh.Base.Text.{Text, bytes, text_eq, text_le, text_ordered}
use my_own_mesh.Base.TreeMap.{TreeMap, lookup, insert}
use my_own_mesh.Connection.{PeerState, active, new_peer_state}
use my_own_mesh.Topology.Selector.{ring_selector, forwards}
use my_own_mesh.Routing.{RelayEnvelope, Wrapper, Json, Router, parse_wrapper, wrap}
use my_own_mesh.Routing.Frames.{on_relay_frame}
use my_own_mesh.Routing.Runs.{run}
use my_own_mesh.Routing.Once.{acts, acts-IsTrusted, handled_once}
use my_own_mesh.Routing.Hops.{
  IsForwarded, sent-IsForwarded, Travels, departs, hops_on, Travels-IsArrived,
}
use my_own_mesh.Routing.Onward.{read_frame, after_hops}
use my_own_mesh.Routing.Wrappers.{parse_wrapper-wrap}

data Sample : Type 0 where
  nothing : Sample
  text : Text → Sample
  natural : ℕ → Sample
  -- Whether a key has a value, and the value.
  fields : (Text → Bool) → (Text → Sample) → Sample
  envelope : Text → Text → Sample → Sample

abbrev get : Text → Sample → Option Sample
get key (fields has at) = if has key then some (at key) else none
get key _ = none

abbrev object : TreeMap Text Sample → Sample
object m = fields (λ key. is_some (lookup key m)) (λ key. unwrap_or (lookup key m) nothing)

get-object : (key : Text) (m : TreeMap Text Sample) → get key (object m) ≡ lookup key m
get-object key m = elim (Option-cases (lookup key m)) [ inl e ↦ rw e refl | inr (v, e) ↦ rw e refl ]

abbrev as_str : Sample → Option Text
as_str (text s) = some s
as_str _ = none

abbrev as_u64 : Sample → Option ℕ
as_u64 (natural n) = if ltb n (2 ^ 64) then some n else none
as_u64 _ = none

as_u64-natural : (n : ℕ) → n < 2 ^ 64 → as_u64 (natural n) ≡ some n
as_u64-natural n h = ground (arith, h)

as_u64-lt : (v : Sample) (n : ℕ) → as_u64 v ≡ some n → n < 2 ^ 64
as_u64-lt (natural k) n h = ground (arith, h)
as_u64-lt nothing n h = cc
as_u64-lt (text s) n h = cc
as_u64-lt (fields has at) n h = cc
as_u64-lt (envelope d s p) n h = cc

abbrev to_value : RelayEnvelope Sample → Sample
to_value env = envelope env.dst env.src env.payload

abbrev from_value : Sample → Option (RelayEnvelope Sample)
from_value (envelope dst src payload) = some (record { dst = dst; src = src; payload = payload })
from_value _ = none

abbrev json : Json
json = record {
  Value = Sample;
  null = nothing;
  string = text;
  number = natural;
  object = object;
  get = get;
  as_str = as_str;
  as_u64 = as_u64;
  to_value = to_value;
  from_value = from_value;
  get-object = get-object;
  as_str-string = λ s. refl;
  as_u64-number = as_u64-natural;
  as_u64-lt = as_u64-lt;
  from_value-to_value = λ env. refl;
}

abbrev digest8 : Text → ℕ
digest8 t = length t

abbrev takes_all : Text → Bool
takes_all peer = true

abbrev ann : Text
ann = bytes "ann"

abbrev ben : Text
ben = bytes "ben"

abbrev cat : Text
cat = bytes "cat"

abbrev linked : PeerState
unfolding new_peer_state
linked = record new_peer_state { status = active; authenticated = true; data_channel_open = true }

abbrev engine : Router
engine = record {
  me = ben;
  selector = ring_selector 2;
  peers = (ann, linked) ∷ (cat, linked) ∷ [];
  routing_seen = [];
  forwarded = 0;
}

abbrev chat : Text
chat = bytes "chat"

-- A broadcast of ann's.
abbrev said : ℕ → Sample
unfolding wrap
said ttl = to_value (record { dst = []; src = ann; payload = wrap json chat nothing ttl 7 })

abbrev hello : Text × Text × Wrapper Sample
hello = ([], ann, record { channel = chat; body = nothing; ttl = 3; id = 7 })

parse_wrapper-wrap_example :
    parse_wrapper json (wrap json chat nothing 3 7)
    ≡ some (record { channel = chat; body = nothing; ttl = 3; id = 7 })
unfolding text_eq
parse_wrapper-wrap_example =
    parse_wrapper-wrap json chat nothing 3 7 refl (omega arith) (omega arith)

acts-IsTrusted_example : text_eq ann cat || forwards (ring_selector 2) cat ≡ true
unfolding said parse_wrapper lookup insert text_le on_relay_frame
acts-IsTrusted_example =
    acts-IsTrusted json digest8 takes_all engine cat (said 3) (ann, 7) refl refl

handled_once_example :
    acts json digest8 takes_all (
      on_relay_frame json digest8 takes_all
        (run json digest8 takes_all
          (on_relay_frame json digest8 takes_all engine ann (said 3)).router
          ((cat, nothing) ∷ []))
        cat
        (said 2))
    ≡ false
unfolding said parse_wrapper lookup insert text_le on_relay_frame
handled_once_example =
    handled_once json digest8 takes_all engine ann (said 3) (ann, 7) ((cat, nothing) ∷ []) cat
      (said 2) refl refl refl (omega arith) refl

sent-IsForwarded_example :
    All
      (IsForwarded json digest8 engine ann hello)
      (on_relay_frame json digest8 takes_all engine ann (said 3)).sent
unfolding said parse_wrapper lookup insert text_le
sent-IsForwarded_example = sent-IsForwarded json digest8 takes_all engine ann (said 3) hello refl

one_hop : Travels json digest8 1 (said 3) (said 2)
unfolding on_relay_frame lookup insert text_le linked
one_hop = hops_on takes_all engine ann departs (here refl)

Travels-IsArrived_example :
    (1 ≤ 3) × (src : Text) × (read_frame json (said 2) ≡ some ([], src, after_hops json 1 hello.2))
unfolding said parse_wrapper lookup insert text_le
Travels-IsArrived_example = Travels-IsArrived json digest8 1 (said 3) (said 2) hello one_hop refl
