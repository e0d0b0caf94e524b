-- ===== src/Routing/Hops.antt =====
-- What forwarding preserves and how far a frame goes: crates/myownmesh-core/src/engine/routing.rs.
use mathlib.Core.Option.{some-injective}
use my_own_mesh.Base.{
  ℕ, suc, ◌-◌, ◌≤◌, ◌≡◌, refl, sym, ap, subst, ◌∙◌, Bool, true, false, ◌&&◌, inl, inr, none, some,
  List, [], ◌∷◌, ◌==◌, if◌then◌else◌, All, All-map, Some, here, there, Option-cases, arith,
}
use my_own_mesh.Base.Text.{Text, text_eq}
use my_own_mesh.Topology.Selector.{forwards}
use my_own_mesh.Routing.{RelayEnvelope, Wrapper, Json, Router, parse_wrapper, is_empty, origin_of}
use my_own_mesh.Routing.Frames.{on_relay_frame}
use my_own_mesh.Routing.Wrappers.{parse_wrapper-IsFit}
use my_own_mesh.Routing.Onward.{read_frame, after_hops, read_onward, on_relay_frame_sends}

module _ (json : Json) (digest8 : Text → ℕ) where
  -- The parts that a value is read into.
  abbrev Reads : json.Value → Text × Text × Wrapper json.Value → Type 0
  Reads payload frame =
      (env : RelayEnvelope json.Value) × (json.from_value payload ≡ some env)
      × (parse_wrapper json env.payload ≡ some frame.2)
      × (frame ≡ (env.dst, env.src, frame.2))

  read_frame-Reads :
      (payload : json.Value) (frame : Text × Text × Wrapper json.Value)
      → read_frame json payload ≡ some frame
      → Reads payload frame
  read_frame-Reads payload frame h = elim (Option-cases (json.from_value payload)) [
    | inl e ↦ let k : none ≡ some frame = rw e at h in cc
    | inr (env, e) ↦ elim (Option-cases (parse_wrapper json env.payload)) [
      | inl f ↦ let k : none ≡ some frame = rw (e, f) at h in cc
      | inr (w, f) ↦
          let k : some (env.dst, env.src, w) ≡ some frame = rw (e, f) at h in
          let same : (env.dst, env.src, w) ≡ frame = some-injective (env.dst, env.src, w) frame k in
          subst (Reads payload) same (env, e, f, refl)
    ]
  ]

  abbrev stamped : Text → Text → Text
  stamped from src = if is_empty src then from else src

  -- What holds of a frame that a peer took when the handler was given `frame` by `from`.
  abbrev pub IsForwarded :
      Router → Text → Text × Text × Wrapper json.Value → Text × json.Value → Type 0
  IsForwarded r from frame sent =
      (text_eq sent.0 from ≡ false)
      × (is_empty frame.0 && text_eq sent.0 (stamped from frame.1) ≡ false)
      × (forwards r.selector r.me ≡ true)
      × ((frame.2.ttl == 0) ≡ false)
      × (read_frame json sent.1 ≡ some (frame.0, stamped from frame.1, after_hops json 1 frame.2))

  -- A frame is sent on by a forwarder only, while its hop budget lasts, to no peer that it came from,
  -- and a broadcast not to its origin; whoever gets it reads the same destination, channel, body and
  -- id, the origin, and a budget that is one less.
  pub sent-IsForwarded :
      (accepts : Text → Bool) (r : Router) (from : Text) (payload : json.Value)
      (frame : Text × Text × Wrapper json.Value)
      → read_frame json payload ≡ some frame
      → All (IsForwarded r from frame) (on_relay_frame json digest8 accepts r from payload).sent
  sent-IsForwarded accepts r from payload frame h =
      let (env, e, f, same) = read_frame-Reads payload frame h in
      subst
        (λ (read : Text × Text × Wrapper json.Value).
          All (IsForwarded r from read) (on_relay_frame json digest8 accepts r from payload).sent)
        (sym same)
        (All-map (on_relay_frame json digest8 accepts r from payload).sent
          (λ sent k. (
            k.0,
            k.1,
            k.2,
            k.3,
            ap (read_frame json) k.4
                ∙ read_onward json digest8 accepts (origin_of from env) env frame.2
                    (parse_wrapper-IsFit json env.payload frame.2 f),
          ))
          (on_relay_frame_sends json digest8 accepts r from payload env frame.2 e f))

  -- A frame and what became of it over `n` engines, of any state, that handled and sent it on.
  pub data Travels : ℕ → json.Value → json.Value → Type 1 where
    departs : {payload : json.Value} → Travels 0 payload payload
    hops_on :
        {n : ℕ} {payload middle last : json.Value} (accepts : Text → Bool) (r : Router)
        (from : Text)
        → Travels n payload middle
        → Some
            (λ (sent : Text × json.Value). sent.1 ≡ last)
            (on_relay_frame json digest8 accepts r from middle).sent
        → Travels (suc n) payload last

  All→Some :
      {A : Type 0} {P Q : A → Type 0} (xs : List A) → All P xs → Some Q xs → (x : A) × P x × Q x
  All→Some [] h k = elim k [ ]
  All→Some (x ∷ xs) h (here q) = (x, h.0, q)
  All→Some (x ∷ xs) h (there m) = All→Some xs h.1 m

  one_more :
      (n : ℕ) (w : Wrapper json.Value)
      → after_hops json 1 (after_hops json n w) ≡ after_hops json (suc n) w
  one_more n w =
      let e : w.ttl - n - 1 ≡ w.ttl - suc n = omega arith in
      ap (λ (ttl : ℕ). record w { ttl = ttl }) e

  none_yet : (w : Wrapper json.Value) → after_hops json 0 w ≡ w
  none_yet w = let e : w.ttl - 0 ≡ w.ttl = omega arith in ap (λ (ttl : ℕ). record w { ttl = ttl }) e

  -- A frame is sent on at most as often as its hop budget says, whatever the engines on its way hold,
  -- and arrives with the destination, channel, body and id that it departed with.
  pub Travels-IsArrived :
      (n : ℕ) (payload last : json.Value) (frame : Text × Text × Wrapper json.Value)
      → Travels n payload last
      → read_frame json payload ≡ some frame
      → (n ≤ frame.2.ttl)
        × (src : Text) × (read_frame json last ≡ some (frame.0, src, after_hops json n frame.2))
  Travels-IsArrived _ payload _ frame departs h = (
    omega arith,
    frame.1,
    h ∙ ap (λ (w : Wrapper json.Value). some (frame.0, frame.1, w)) (sym (none_yet frame.2)),
  )
  Travels-IsArrived _ payload last frame (hops_on {n = n} {middle = middle} accepts r from way sent)
        h =
      let (bound, src, read) = Travels-IsArrived n payload middle frame way h in
      let (x, forwarded, e) =
        All→Some (on_relay_frame json digest8 accepts r from middle).sent
          (sent-IsForwarded accepts r from middle (frame.0, src, after_hops json n frame.2) read)
          sent in
      (
        ground (arith, bound, forwarded.3),
        stamped from src,
        ap (read_frame json) (sym e)
            ∙ forwarded.4
            ∙ ap (λ (w : Wrapper json.Value). some (frame.0, stamped from src, w))
                (one_more n frame.2),
      )
