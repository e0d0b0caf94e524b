-- ===== src/Routing/Onward.antt =====
-- What a forwarded frame is, and how far it goes: crates/myownmesh-core/src/engine/routing.rs.
use my_own_mesh.Base.{and_then}
use my_own_mesh.Base.{
  ℕ, ◌-◌, ◌≡◌, refl, Bool, true, false, not, ◌&&◌, ◌||◌, inl, inr, Option, some, List, [], ◌∷◌, map,
  ◌==◌, All, Bool-cases, All-map, arith,
}
use my_own_mesh.Base.Text.{Text, text_eq}
use my_own_mesh.Topology.Selector.{forwards}
use my_own_mesh.Routing.{
  RelayEnvelope, Wrapper, Json, Router, parse_wrapper, wrap, first_sighting, connected_ids, fan_out,
  first_accepting, is_empty, origin_of,
}
use my_own_mesh.Routing.Frames.{next_receivers, onward, handle_new, handle_wrapper, on_relay_frame}
use my_own_mesh.Routing.Wrappers.{IsFit, parse_wrapper-wrap}

module _ (accepts but : Text → Bool) where
  -- A receiver of a frame is not held back and took it.
  abbrev Took : Text → Type 0
  Took to = (but to ≡ false) × (accepts to ≡ true)

  All-fan_out : (xs : List Text) → All Took (fan_out accepts but xs)
  unfolding fan_out
  All-fan_out [] = tt
  All-fan_out (x ∷ xs) = ground (arith, All-fan_out xs)

  All-first_accepting : (xs : List Text) → All Took (first_accepting accepts but xs)
  unfolding first_accepting
  All-first_accepting [] = tt
  All-first_accepting (x ∷ xs) = ground (arith, All-first_accepting xs)

All-map_pair :
    {A B : Type 0} {P : A → Type 0} (Q : A × B → Type 0) (b : B) (xs : List A)
    → ((x : A) → P x → Q (x, b))
    → All P xs
    → All Q (map (λ (x : A). (x, b)) xs)
All-map_pair Q b [] f h = tt
All-map_pair Q b (x ∷ xs) f h = (f x h.0, All-map_pair Q b xs f h.1)

module _ (json : Json) where
  -- What a peer that gets the value reads: the destination, the origin's field and the wrapper.
  abbrev pub read_frame : json.Value → Option (Text × Text × Wrapper json.Value)
  read_frame payload =
      and_then (json.from_value payload)
        λ env. and_then (parse_wrapper json env.payload) λ w. some (env.dst, env.src, w)

  -- The wrapper after `n` hops.
  abbrev pub after_hops : ℕ → Wrapper json.Value → Wrapper json.Value
  after_hops n w = record w { ttl = w.ttl - n }

  module _ (digest8 : Text → ℕ) (accepts : Text → Bool) where
    pub read_onward :
        (origin : Text) (env : RelayEnvelope json.Value) (w : Wrapper json.Value)
        → IsFit w
        → read_frame (onward json digest8 accepts origin env w)
          ≡ some (env.dst, origin, after_hops 1 w)
    unfolding onward
    read_onward origin env w fit =
        rw
          (
            json.from_value-to_value (record {
              dst = env.dst;
              src = origin;
              payload = wrap json w.channel w.body (w.ttl - 1) w.id;
            }),
            parse_wrapper-wrap json w.channel w.body (w.ttl - 1) w.id fit.0 (omega (arith, fit.1))
                fit.2,
          )
          refl

    -- The handler stops here, whatever it delivered.
    abbrev guard : Router → RelayEnvelope json.Value → Wrapper json.Value → Bool
    guard r env w =
        not (is_empty env.dst) && text_eq env.dst r.me
        || not (forwards r.selector r.me)
        || (w.ttl == 0)

    open_guard :
        (r : Router) (env : RelayEnvelope json.Value) (w : Wrapper json.Value)
        → guard r env w ≡ false
        → (forwards r.selector r.me ≡ true) × ((w.ttl == 0) ≡ false)
    open_guard r env w h = (ground (arith, h), ground (arith, h))

    -- No copy goes back to the peer that brought the frame.
    All-next_receivers :
        (r : Router) (from origin dst : Text)
        → All
            (λ to. (text_eq to from ≡ false) × (is_empty dst && text_eq to origin ≡ false))
            (next_receivers json digest8 accepts r from origin dst)
    unfolding next_receivers
    All-next_receivers r from origin dst = elim (Bool-cases (is_empty dst)) [
      | inl e ↦
          rw (next_receivers, e)
            (All-map _ (λ to h. ground (arith, h.0))
              (All-fan_out accepts (λ peer. text_eq peer from || text_eq peer origin)
                (connected_ids r.peers)))
      | inr e ↦
          rw (next_receivers, e)
            (All-map _ (λ to h. (h.0, refl))
              (All-first_accepting accepts (λ hop. text_eq hop from) _))
    ]

    -- What holds of an onward frame and of the peer that took it.
    abbrev IsOnward :
        Router → Text → RelayEnvelope json.Value → Wrapper json.Value → Text × json.Value → Type 0
    IsOnward r from env w sent =
        (text_eq sent.0 from ≡ false)
        × (is_empty env.dst && text_eq sent.0 (origin_of from env) ≡ false)
        × (forwards r.selector r.me ≡ true)
        × ((w.ttl == 0) ≡ false)
        × (sent.1 ≡ onward json digest8 accepts (origin_of from env) env w)

    handle_new_sends :
        (r : Router) (from : Text) (env : RelayEnvelope json.Value) (w : Wrapper json.Value)
        → All
            (IsOnward r from env w)
            (handle_new json digest8 accepts r from (origin_of from env) env w).sent
    unfolding handle_new
    handle_new_sends r from env w = elim (Bool-cases (guard r env w)) [
      | inl e ↦ rw e tt
      | inr e ↦ rw e (
          All-map_pair (IsOnward r from env w)
            (onward json digest8 accepts (origin_of from env) env w) _
            (λ to h. (h.0, h.1, (open_guard r env w e).0, (open_guard r env w e).1, refl))
            (All-next_receivers r from (origin_of from env) env.dst))
    ]

    handle_wrapper_sends :
        (r : Router) (from : Text) (env : RelayEnvelope json.Value) (w : Wrapper json.Value)
        → All (IsOnward r from env w) (handle_wrapper json digest8 accepts r from env w).sent
    unfolding handle_wrapper
    handle_wrapper_sends r from env w =
        let origin : Text = origin_of from env in
        let sighting : Bool × List (Text × ℕ) = first_sighting origin w.id r.routing_seen in
        elim (Bool-cases (not (text_eq origin from) && not (forwards r.selector from))) [
          | inl e ↦ rw e tt
          | inr e ↦ elim (Bool-cases sighting.0) [
            | inl f ↦
                rw (e, f) (handle_new_sends (record r { routing_seen = sighting.1 }) from env w)
            | inr f ↦ rw (e, f) tt
          ]
        ]

    pub on_relay_frame_sends :
        (r : Router) (from : Text) (payload : json.Value) (env : RelayEnvelope json.Value)
        (w : Wrapper json.Value)
        → json.from_value payload ≡ some env
        → parse_wrapper json env.payload ≡ some w
        → All (IsOnward r from env w) (on_relay_frame json digest8 accepts r from payload).sent
    unfolding on_relay_frame
    on_relay_frame_sends r from payload env w e f =
        rw (on_relay_frame, e, f) (handle_wrapper_sends r from env w)
