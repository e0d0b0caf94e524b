-- ===== src/Reconcile/Edits.antt =====
-- What an edit that needs no restart leaves in the live configuration: `requires_restart` and
-- `apply_hot` of crates/myownmesh-core/src/engine/reconcile.rs.
use my_own_mesh.Base.{◌≡◌, Bool, true, false, arith}
use my_own_mesh.Base.Text.{text_eq_iff}
use my_own_mesh.Governance.Equality.{texts_eq→eq}
use my_own_mesh.Reconcile.{
  SignalingConfig, NetworkConfig, Runtime, bool_eq, signaling_eq, requires_restart, apply_hot,
}

bool_eq→eq : (a b : Bool) → bool_eq a b ≡ true → a ≡ b
unfolding bool_eq
bool_eq→eq a b e = ground arith

signaling_eq→eq : (a b : SignalingConfig) → signaling_eq a b ≡ true → a ≡ b
unfolding signaling_eq
signaling_eq→eq a b e =
    let strategy : a.strategy ≡ b.strategy = ground (arith, text_eq_iff a.strategy b.strategy) in
    let mdns : a.mdns ≡ b.mdns = ground (arith, bool_eq→eq a.mdns b.mdns) in
    let servers : a.servers ≡ b.servers = ground (arith, texts_eq→eq a.servers b.servers) in
    let redundancy : a.redundancy ≡ b.redundancy = ground arith in
    let denylist : a.denylist ≡ b.denylist = ground (arith, texts_eq→eq a.denylist b.denylist) in
    let public_fallback : a.public_fallback ≡ b.public_fallback =
      ground (arith, bool_eq→eq a.public_fallback b.public_fallback) in
    let listen_only : a.listen_only ≡ b.listen_only =
      ground (arith, bool_eq→eq a.listen_only b.listen_only) in
    λ i. record {
      strategy = strategy i;
      mdns = mdns i;
      servers = servers i;
      redundancy = redundancy i;
      denylist = denylist i;
      public_fallback = public_fallback i;
      listen_only = listen_only i;
    }

-- An edit that needs no restart is in force in full except for the local id, the kind and the pinned
-- peers, which keep their old values.
pub apply_hot-config :
    (state : Runtime) (next : NetworkConfig)
    → requires_restart state.config next ≡ false
    → (apply_hot state next).config ≡ record next {
      id = state.config.id;
      kind = state.config.kind;
      pinned_peers = state.config.pinned_peers;
    }
unfolding requires_restart apply_hot
apply_hot-config state next e =
    let network_id : state.config.network_id ≡ next.network_id =
      ground (arith, text_eq_iff state.config.network_id next.network_id) in
    let signaling : state.config.signaling ≡ next.signaling =
      ground (arith, signaling_eq→eq state.config.signaling next.signaling) in
    λ i. record next {
      id = state.config.id;
      kind = state.config.kind;
      pinned_peers = state.config.pinned_peers;
      network_id = network_id i;
      signaling = signaling i;
    }
