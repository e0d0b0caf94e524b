-- ===== src/Tests/ReconcileRuns.antt =====
-- Runtime edits of a configuration on a network whose topology the owner has set.
use my_own_mesh.Base.{◌≡◌, refl, true, false, none, [], ◌∷◌, first?, unwrap_or}
use my_own_mesh.Base.Results.{ok}
use my_own_mesh.Base.Text.{Text, bytes, text_eq, text_ordered}
use my_own_mesh.Governance.{
  open_kind, silent, ring, star, full_mesh, topology_change, texts_eq, Transition, NetworkState,
  empty_for,
}
use my_own_mesh.Governance.Log.{Signing}
use my_own_mesh.Reconcile.{
  NetworkConfig, edited, set, ratified, gossiped, start, run, apply_hot, requires_restart,
  signaling_eq, bool_eq,
}
use my_own_mesh.Reconcile.Governed.{IsGoverned, run-IsGoverned}
use my_own_mesh.Reconcile.Edits.{apply_hot-config}

abbrev alice : Text
alice = bytes "alice"

abbrev net_id : Text
net_id = bytes "net"

abbrev by_name : Signing
by_name = record { verify = λ signer payload s. ok (text_eq signer s); payload = λ id v. id }

abbrev by_signers : Transition → Text
by_signers t = unwrap_or (first? t.signers) []

abbrev config : NetworkConfig
config = record {
  id = net_id;
  network_id = net_id;
  label = [];
  kind = open_kind;
  topology = full_mesh;
  signaling = record {
    strategy = bytes "nostr";
    mdns = true;
    servers = alice ∷ [];
    redundancy = 5;
    denylist = [];
    public_fallback = true;
    listen_only = false;
  };
  stun_servers = [];
  turn_servers = [];
  roster_path = none;
  pinned_peers = [];
  auto_approve = false;
}

abbrev pinning : NetworkConfig
pinning = record config { kind = silent; topology = ring none; pinned_peers = alice ∷ [] }

abbrev to_star : Transition
to_star = record {
  at = 1;
  variant = topology_change (star alice);
  signers = alice ∷ [];
  signatures = alice ∷ [];
}

abbrev fresh : NetworkState
unfolding empty_for
fresh = empty_for net_id

run-IsGoverned_example : IsGoverned (
    run by_name by_signers net_id
      (start config fresh)
      (ratified to_star ∷ edited pinning ∷ set full_mesh ∷ gossiped (to_star ∷ []) [] ∷ []))
run-IsGoverned_example =
    run-IsGoverned by_name by_signers net_id config fresh
      (ratified to_star ∷ edited pinning ∷ set full_mesh ∷ gossiped (to_star ∷ []) [] ∷ [])

apply_hot-config_example :
    (apply_hot (start config fresh) pinning).config
    ≡ record pinning { id = net_id; kind = open_kind; pinned_peers = [] }
unfolding start requires_restart signaling_eq bool_eq texts_eq
apply_hot-config_example = apply_hot-config (start config fresh) pinning refl

-- A pin that an edit adds is not in the live configuration.
pin_is_lost : (apply_hot (start config fresh) pinning).config.pinned_peers ≡ []
unfolding start apply_hot
pin_is_lost = refl
