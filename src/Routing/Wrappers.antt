-- ===== src/Routing/Wrappers.antt =====
-- The wrapper that a routed frame carries, written and read: `wrap` and `parse_wrapper` of
-- crates/myownmesh-core/src/engine/routing.rs.
use mathlib.Core.Option.{some-injective}
use my_own_mesh.Base.{and_then}
use my_own_mesh.Base.{
  ℕ, ◌%◌, ◌^◌, ◌<◌, ◌≡◌, refl, subst, ap, false, inl, inr, Option, none, some, unwrap_or,
  Bool-cases, Option-cases, arith,
}
use my_own_mesh.Base.Text.{Text, text_eq, text_le, bytes, text_ordered}
use my_own_mesh.Base.TreeMap.{lookup, insert}
use my_own_mesh.Routing.{Wrapper, Json, relay_channel, parse_wrapper, wrap}

module _ (json : Json) (channel : Text) (body : json.Value) (ttl id : ℕ) where
  get_channel :
      json.get (bytes "__channel") (wrap json channel body ttl id) ≡ some (json.string channel)
  unfolding wrap insert lookup text_eq text_le
  get_channel = rw json.get-object refl

  get_body : json.get (bytes "__body") (wrap json channel body ttl id) ≡ some body
  unfolding wrap insert lookup text_eq text_le
  get_body = rw json.get-object refl

  get_ttl : json.get (bytes "__ttl") (wrap json channel body ttl id) ≡ some (json.number ttl)
  unfolding wrap insert lookup text_eq text_le
  get_ttl = rw json.get-object refl

  get_id : json.get (bytes "__id") (wrap json channel body ttl id) ≡ some (json.number id)
  unfolding wrap insert lookup text_eq text_le
  get_id = rw json.get-object refl

  -- A wrapper whose hop budget fits in 8 bits and whose id fits in 64 bits is read back as it was
  -- written, on any channel but the relay's own.
  pub parse_wrapper-wrap :
      text_eq channel relay_channel ≡ false
      → ttl < 2 ^ 8
      → id < 2 ^ 64
      → parse_wrapper json (wrap json channel body ttl id)
        ≡ some (record { channel = channel; body = body; ttl = ttl; id = id })
  unfolding parse_wrapper
  parse_wrapper-wrap other small wide =
      let truncated : ttl % 2 ^ 8 ≡ ttl = omega (arith, small) in
      rw
        (
          get_channel,
          get_body,
          get_ttl,
          get_id,
          json.as_str-string channel,
          json.as_u64-number ttl (omega (arith, small)),
          json.as_u64-number id wide,
          other,
        )
        (ap (λ n. some (record { channel = channel; body = body; ttl = n; id = id })) truncated)

-- The wrappers that can be written and read back.
abbrev pub IsFit : {Value : Type 0} → Wrapper Value → Type 0
IsFit w = (text_eq w.channel relay_channel ≡ false) × (w.ttl < 2 ^ 8) × (w.id < 2 ^ 64)

module _ (json : Json) where
  as_u64-default : (o : Option json.Value) → unwrap_or (and_then o json.as_u64) 0 < 2 ^ 64
  as_u64-default none = omega arith
  as_u64-default (some v) = elim (Option-cases (json.as_u64 v)) [
    | inl e ↦ rw e (omega arith)
    | inr (n, e) ↦ rw e (json.as_u64-lt v n e)
  ]

  pub parse_wrapper-IsFit :
      (payload : json.Value) (w : Wrapper json.Value)
      → parse_wrapper json payload ≡ some w
      → IsFit w
  unfolding parse_wrapper
  parse_wrapper-IsFit payload w h = elim (Option-cases (json.get (bytes "__channel") payload)) [
    | inl e ↦ let k : none ≡ some w = rw e at h in cc
    | inr (v, e) ↦ elim (Option-cases (json.as_str v)) [
      | inl f ↦ let k : none ≡ some w = rw (e, f) at h in cc
      | inr (channel, f) ↦ elim (Bool-cases (text_eq channel relay_channel)) [
        | inl g ↦ let k : none ≡ some w = rw (e, f, g) at h in cc
        | inr g ↦
            let k : some (read channel) ≡ some w = rw (e, f, g) at h in
            subst IsFit (some-injective (read channel) w k)
              (g, omega arith, as_u64-default (json.get (bytes "__id") payload))
      ]
    ]
  ]
    where
      read : Text → Wrapper json.Value
      read channel = record {
        channel = channel;
        body = unwrap_or (json.get (bytes "__body") payload) json.null;
        ttl = unwrap_or (and_then (json.get (bytes "__ttl") payload) json.as_u64) 0 % 2 ^ 8;
        id = unwrap_or (and_then (json.get (bytes "__id") payload) json.as_u64) 0;
      }
