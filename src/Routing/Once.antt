-- ===== src/Routing/Once.antt =====
-- A routed frame is handled once: the handler of crates/myownmesh-core/src/engine/routing.rs over
-- sequences of frames.
use my_own_mesh.Base.{and_then}
use my_own_mesh.Base.{
  ℕ, ◌+◌, ◌<◌, ◌≡◌, refl, Bool, true, false, not, ◌&&◌, ◌||◌, inl, inr, Option, none, some, List,
  length, ◌==◌, is_some, first?, Bool-cases, Option-cases, arith,
}
use my_own_mesh.Base.Text.{Text, text_eq}
use my_own_mesh.Topology.Selector.{forwards}
use my_own_mesh.Routing.{
  RelayEnvelope, Wrapper, Json, Router, parse_wrapper, first_sighting, routing_seen_capacity,
  origin_of, fresh_frame_id,
}
use my_own_mesh.Routing.Seen.{IsRecent, first_sighting_new, first_sighting_again}
use my_own_mesh.Routing.Sending.{note_own}
use my_own_mesh.Routing.Runs.{handle_new_seen, note, run, run-IsRecent}
use my_own_mesh.Routing.Frames.{Handled, handle_wrapper, on_relay_frame}

module _ (json : Json) (digest8 : Text → ℕ) (accepts : Text → Bool) where
  -- The origin and id of a frame, when it is a routed one.
  abbrev frame_key : Text → json.Value → Option (Text × ℕ)
  frame_key from payload =
      and_then (json.from_value payload)
        λ env. and_then (parse_wrapper json env.payload) λ w. some (origin_of from env, w.id)

  -- Whether a handler delivers or sends anything.
  abbrev pub acts : Handled json.Value → Bool
  acts h = is_some h.delivered || is_some (first? h.sent)

  handle_wrapper-trusted :
      (r : Router) (from : Text) (env : RelayEnvelope json.Value) (w : Wrapper json.Value)
      → acts (handle_wrapper json digest8 accepts r from env w) ≡ true
      → text_eq (origin_of from env) from || forwards r.selector from ≡ true
  unfolding handle_wrapper
  handle_wrapper-trusted r from env w h =
      elim (Bool-cases
        (not (text_eq (origin_of from env) from) && not (forwards r.selector from))) [
          | inl e ↦ let k : false ≡ true = rw e at h in cc
          | inr e ↦ ground (arith, e)
        ]

  acts_noted :
      (r : Router) (from : Text) (env : RelayEnvelope json.Value) (w : Wrapper json.Value)
      → (w.id == 0) ≡ false
      → acts (handle_wrapper json digest8 accepts r from env w) ≡ true
      → IsRecent 0
          (origin_of from env, w.id)
          (handle_wrapper json digest8 accepts r from env w).router.routing_seen
  unfolding handle_wrapper
  acts_noted r from env w id h =
      let origin : Text = origin_of from env in
      elim (Bool-cases (not (text_eq origin from) && not (forwards r.selector from))) [
        | inl e ↦ let k : false ≡ true = rw e at h in cc
        | inr e ↦ elim (Bool-cases (first_sighting origin w.id r.routing_seen).0) [
          | inr f ↦ let k : false ≡ true = rw (e, f) at h in cc
          | inl f ↦
              rw
                (
                  e,
                  f,
                  handle_new_seen json digest8 accepts (note json digest8 accepts r origin w.id)
                      from origin env w,
                )
                (first_sighting_new origin w.id r.routing_seen id f)
        ]
      ]

  handle_wrapper_seen_before :
      (n : ℕ) (r : Router) (from : Text) (env : RelayEnvelope json.Value) (w : Wrapper json.Value)
      → (w.id == 0) ≡ false
      → IsRecent n (origin_of from env, w.id) r.routing_seen
      → acts (handle_wrapper json digest8 accepts r from env w) ≡ false
  unfolding handle_wrapper
  handle_wrapper_seen_before n r from env w id h =
      elim (Bool-cases
        (not (text_eq (origin_of from env) from) && not (forwards r.selector from))) [
          | inl e ↦ rw e refl
          | inr e ↦
              rw (e, first_sighting_again n (origin_of from env) w.id r.routing_seen id h) refl
        ]

  on_relay_frame-frame_key :
      (r : Router) (from : Text) (payload : json.Value) (key : Text × ℕ)
      → frame_key from payload ≡ some key
      → (env : RelayEnvelope json.Value) × (w : Wrapper json.Value) × (key
          ≡ (origin_of from env, w.id))
        × (on_relay_frame json digest8 accepts r from payload
            ≡ handle_wrapper json digest8 accepts r from env w)
  unfolding on_relay_frame
  on_relay_frame-frame_key r from payload key h = elim (Option-cases (json.from_value payload)) [
    | inl e ↦ let k : none ≡ some key = rw e at h in cc
    | inr (env, e) ↦ elim (Option-cases (parse_wrapper json env.payload)) [
      | inl f ↦ let k : none ≡ some key = rw (e, f) at h in cc
      | inr (w, f) ↦
          let k : some (origin_of from env, w.id) ≡ some key = rw (e, f) at h in
          (env, w, cc, rw (on_relay_frame, e, f) refl)
    ]
  ]

  -- A frame is delivered or sent on only when the peer that brought it is its origin, or one that the
  -- topology lets forward.
  pub acts-IsTrusted :
      (r : Router) (from : Text) (payload : json.Value) (key : Text × ℕ)
      → frame_key from payload ≡ some key
      → acts (on_relay_frame json digest8 accepts r from payload) ≡ true
      → text_eq key.0 from || forwards r.selector from ≡ true
  acts-IsTrusted r from payload key k h =
      let (env, w, e, f) = on_relay_frame-frame_key r from payload key k in
      rw e (handle_wrapper-trusted r from env w (rw f at h))

  acted_noted :
      (r : Router) (from : Text) (payload : json.Value) (key : Text × ℕ)
      → frame_key from payload ≡ some key
      → (key.1 == 0) ≡ false
      → acts (on_relay_frame json digest8 accepts r from payload) ≡ true
      → IsRecent 0 key (on_relay_frame json digest8 accepts r from payload).router.routing_seen
  acted_noted r from payload key k id h =
      let (env, w, e, f) = on_relay_frame-frame_key r from payload key k in
      rw (e, f) (acts_noted r from env w (rw e at id) (rw f at h))

  recent_silent :
      (n : ℕ) (r : Router) (from : Text) (payload : json.Value) (key : Text × ℕ)
      → frame_key from payload ≡ some key
      → (key.1 == 0) ≡ false
      → IsRecent n key r.routing_seen
      → acts (on_relay_frame json digest8 accepts r from payload) ≡ false
  recent_silent n r from payload key k id h =
      let (env, w, e, f) = on_relay_frame-frame_key r from payload key k in
      rw f (handle_wrapper_seen_before n r from env w (rw e at id) (rw e at h))

  -- A frame with an id that was delivered or sent on is not delivered or sent on again, whichever
  -- peer brings it, while fewer than 2048 other frames came in between.
  pub handled_once :
      (r : Router) (from : Text) (payload : json.Value) (key : Text × ℕ)
      (frames : List (Text × json.Value)) (from' : Text) (payload' : json.Value)
      → frame_key from payload ≡ some key
      → frame_key from' payload' ≡ some key
      → (key.1 == 0) ≡ false
      → length frames < routing_seen_capacity
      → acts (on_relay_frame json digest8 accepts r from payload) ≡ true
      → acts (
          on_relay_frame json digest8 accepts
            (run json digest8 accepts
              (on_relay_frame json digest8 accepts r from payload).router
              frames)
            from'
            payload')
        ≡ false
  handled_once r from payload key frames from' payload' k k' id few h =
      let after : Router = (on_relay_frame json digest8 accepts r from payload).router in
      recent_silent (0 + length frames) (run json digest8 accepts after frames) from' payload' key
        k' id
        (run-IsRecent json digest8 accepts 0 key after frames (omega (arith, few))
          (acted_noted r from payload key k id h))

  fresh_frame_id-ne-zero : (random : ℕ) → (fresh_frame_id random == 0) ≡ false
  unfolding fresh_frame_id
  fresh_frame_id-ne-zero random = ground arith

  -- A frame of our own, under a fresh id, that comes back to us is neither delivered nor sent on,
  -- whichever peer brings it, while fewer than 2048 other frames came in between.
  own_frame_silent :
      (r : Router) (random : ℕ) (frames : List (Text × json.Value)) (from : Text)
      (payload : json.Value)
      → frame_key from payload ≡ some (r.me, fresh_frame_id random)
      → (first_sighting r.me (fresh_frame_id random) r.routing_seen).0 ≡ true
      → length frames < routing_seen_capacity
      → acts (
          on_relay_frame json digest8 accepts
            (run json digest8 accepts (note_own r random) frames)
            from
            payload)
        ≡ false
  unfolding note_own
  own_frame_silent r random frames from payload k new few =
      let key : Text × ℕ = (r.me, fresh_frame_id random) in
      let nonzero : (fresh_frame_id random == 0) ≡ false = fresh_frame_id-ne-zero random in
      recent_silent (0 + length frames) (run json digest8 accepts (note_own r random) frames) from
        payload key k nonzero
        (run-IsRecent json digest8 accepts 0 key (note_own r random) frames (omega (arith, few))
          (first_sighting_new r.me (fresh_frame_id random) r.routing_seen nonzero new))
