-- ===== src/Routing/Runs.antt =====
-- Sequences of inbound frames and the ring of seen ids that they leave.
use my_own_mesh.Base.{
  ℕ, ◌+◌, ◌≤◌, ◌<◌, ◌≡◌, refl, subst, Bool, not, ◌&&◌, ◌||◌, inl, inr, List, [], ◌∷◌, length, ◌==◌,
  Bool-cases, Option-cases, arith,
}
use my_own_mesh.Base.Text.{Text, text_eq}
use my_own_mesh.Topology.Selector.{forwards}
use my_own_mesh.Routing.{
  RelayEnvelope, Wrapper, Json, Router, parse_wrapper, first_sighting, routing_seen_capacity,
  is_empty, origin_of,
}
use my_own_mesh.Routing.Seen.{
  Ring, length-first_sighting, IsRecent, TakesIn-IsRecent, first_sighting-TakesIn,
}
use my_own_mesh.Routing.Frames.{handle_new, handle_wrapper, on_relay_frame}

module _ (json : Json) (digest8 : Text → ℕ) (accepts : Text → Bool) where
  pub handle_new_seen :
      (r : Router) (from origin : Text) (env : RelayEnvelope json.Value) (w : Wrapper json.Value)
      → (handle_new json digest8 accepts r from origin env w).router.routing_seen ≡ r.routing_seen
  unfolding handle_new
  handle_new_seen r from origin env w =
      elim (Bool-cases (
        not (is_empty env.dst) && text_eq env.dst r.me
        || not (forwards r.selector r.me)
        || (w.ttl == 0))) [ inl e ↦ rw e refl | inr e ↦ rw e refl ]

  abbrev pub note : Router → Text → ℕ → Router
  note r origin id = record r { routing_seen = (first_sighting origin id r.routing_seen).1 }

  handle_wrapper_seen :
      (P : Ring → Type 0) (r : Router) (from : Text) (env : RelayEnvelope json.Value)
      (w : Wrapper json.Value)
      → P r.routing_seen
      → ((origin : Text) (id : ℕ) → P (first_sighting origin id r.routing_seen).1)
      → P (handle_wrapper json digest8 accepts r from env w).router.routing_seen
  unfolding handle_wrapper
  handle_wrapper_seen P r from env w same noted =
      let origin : Text = origin_of from env in
      elim (Bool-cases (not (text_eq origin from) && not (forwards r.selector from))) [
        | inl e ↦ rw e same
        | inr e ↦ elim (Bool-cases (first_sighting origin w.id r.routing_seen).0) [
          | inl f ↦
              rw (e, f, handle_new_seen (note r origin w.id) from origin env w) (noted origin w.id)
          | inr f ↦ rw (e, f) (noted origin w.id)
        ]
      ]

  -- What becomes of the ring in any handled frame.
  on_relay_frame_seen :
      (P : Ring → Type 0) (r : Router) (from : Text) (payload : json.Value)
      → P r.routing_seen
      → ((origin : Text) (id : ℕ) → P (first_sighting origin id r.routing_seen).1)
      → P (on_relay_frame json digest8 accepts r from payload).router.routing_seen
  unfolding on_relay_frame
  on_relay_frame_seen P r from payload same noted = elim (Option-cases (json.from_value payload)) [
    | inl e ↦ rw (on_relay_frame, e) same
    | inr (env, e) ↦ elim (Option-cases (parse_wrapper json env.payload)) [
      | inl f ↦ rw (on_relay_frame, e, f) same
      | inr (w, f) ↦ rw (on_relay_frame, e, f) (handle_wrapper_seen P r from env w same noted)
    ]
  ]

  -- The engine after a list of inbound frames, each with its carrier.
  unfoldable pub run : Router → List (Text × json.Value) → Router
  unfolding on_relay_frame
  run r [] = r
  run r ((from, payload) ∷ frames) =
      run (on_relay_frame json digest8 accepts r from payload).router frames

  -- The ring of seen frames never exceeds its capacity.
  length-run :
      (r : Router) (frames : List (Text × json.Value))
      → length r.routing_seen ≤ routing_seen_capacity
      → length (run r frames).routing_seen ≤ routing_seen_capacity
  unfolding run
  length-run r [] h = h
  length-run r ((from, payload) ∷ frames) h =
      length-run (on_relay_frame json digest8 accepts r from payload).router frames (
        on_relay_frame_seen (λ seen. length seen ≤ routing_seen_capacity) r from payload h
          (λ origin id. length-first_sighting origin id r.routing_seen h))

  on_relay_frame-IsRecent :
      (n : ℕ) (entry : Text × ℕ) (r : Router) (from : Text) (payload : json.Value)
      → n + 1 < routing_seen_capacity
      → IsRecent n entry r.routing_seen
      → IsRecent
          (n + 1)
          entry
          (on_relay_frame json digest8 accepts r from payload).router.routing_seen
  on_relay_frame-IsRecent n entry r from payload room h =
      on_relay_frame_seen (IsRecent (n + 1) entry) r from payload
        (TakesIn-IsRecent n entry entry r.routing_seen r.routing_seen room (inl refl) h)
        (λ origin id.
          TakesIn-IsRecent n entry (origin, id) r.routing_seen
            (first_sighting origin id r.routing_seen).1 room
            (first_sighting-TakesIn origin id r.routing_seen) h)

  pub run-IsRecent :
      (n : ℕ) (entry : Text × ℕ) (r : Router) (frames : List (Text × json.Value))
      → n + length frames < routing_seen_capacity
      → IsRecent n entry r.routing_seen
      → IsRecent (n + length frames) entry (run r frames).routing_seen
  unfolding run
  run-IsRecent n entry r [] room h = subst (λ k. IsRecent k entry r.routing_seen) (omega arith) h
  run-IsRecent n entry r ((from, payload) ∷ frames) room h =
      let after : Router = (on_relay_frame json digest8 accepts r from payload).router in
      subst (λ k. IsRecent k entry (run after frames).routing_seen) (omega arith)
        (run-IsRecent (n + 1) entry after frames (omega (arith, room))
          (on_relay_frame-IsRecent n entry r from payload (omega (arith, room)) h))
