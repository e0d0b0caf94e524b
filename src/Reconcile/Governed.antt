-- ===== src/Reconcile/Governed.antt =====
-- The topology at runtime and the signed one: engine/reconcile.rs, engine/mod.rs, engine/state.rs and
-- engine/governance.rs of crates/myownmesh-core/src.
use my_own_mesh.Base.{
  ◌≡◌, refl, sym, inl, inr, Option, none, some, List, [], ◌∷◌, is_some, Option-cases,
}
use my_own_mesh.Base.Text.{Text}
use my_own_mesh.Governance.{
  TopologyMode, TransitionVariant, kind_change, role_grant, role_revoke, evict, split,
  topology_change, unknown, Transition, NetworkState, apply_transition,
}
use my_own_mesh.Governance.Log.{Signing}
use my_own_mesh.Governance.Adoption.{Adoption, adopt_transition_log}
use my_own_mesh.Governance.Adoption.Followed.{IsTold, adopted-IsTold}
use my_own_mesh.Topology.Selector.{from_mode}
use my_own_mesh.Reconcile.{
  NetworkConfig, Runtime, effective_topology, start, apply_hot, set_topology, follow_ratified,
  follow_adopted, Event, edited, set, ratified, gossiped, step, run,
}

-- The signed topology, if there is one, is the runtime's, and the selector is made from it.
abbrev pub IsGoverned : Runtime → Type 0
IsGoverned state =
    (state.topology ≡ effective_topology state.governance_state state.topology)
    × (state.topology_impl ≡ from_mode state.topology)

effective-effective :
    (gov : NetworkState) (mode : TopologyMode)
    → effective_topology gov mode ≡ effective_topology gov (effective_topology gov mode)
effective-effective gov mode = elim (Option-cases gov.topology) [
  | inl e ↦ rw e refl
  | inr (t, e) ↦ rw e refl
]

start-IsGoverned : (config : NetworkConfig) (gov : NetworkState) → IsGoverned (start config gov)
unfolding start
start-IsGoverned config gov = (effective-effective gov config.topology, refl)

apply_hot-IsGoverned : (state : Runtime) (next : NetworkConfig) → IsGoverned (apply_hot state next)
unfolding apply_hot
apply_hot-IsGoverned state next = (effective-effective state.governance_state next.topology, refl)

set_topology-IsGoverned :
    (mode : TopologyMode) (state : Runtime)
    → IsGoverned state
    → IsGoverned (set_topology mode state)
unfolding set_topology
set_topology-IsGoverned mode state ok = elim (Option-cases state.governance_state.topology) [
  | inl e ↦ rw (e, is_some) (refl, refl)
  | inr (t, e) ↦ rw (e, is_some) (rw e at ok.0, ok.1)
]

ratified-IsGoverned :
    (t : Transition) (state : Runtime)
    → IsGoverned state
    → IsGoverned (
        follow_ratified t.variant
          (record state { governance_state = apply_transition state.governance_state t }))
unfolding follow_ratified apply_transition
ratified-IsGoverned t state ok = by_variant t.variant refl
  where
    by_variant :
        (v : TransitionVariant)
        → t.variant ≡ v
        → IsGoverned (
            follow_ratified t.variant
              (record state { governance_state = apply_transition state.governance_state t }))
    by_variant (kind_change to) e = rw e ok
    by_variant (role_grant target role) e = rw e ok
    by_variant (role_revoke target) e = rw e ok
    by_variant (evict target) e = rw e ok
    by_variant (split id members) e = rw e ok
    by_variant (topology_change to) e = rw e (refl, refl)
    by_variant unknown e = rw e ok

follow_adopted-IsGoverned :
    (told : Option TopologyMode) (gov : NetworkState) (state : Runtime)
    → IsTold state.governance_state.topology gov.topology told
    → IsGoverned state
    → IsGoverned (follow_adopted told (record state { governance_state = gov }))
unfolding follow_adopted
follow_adopted-IsGoverned told gov state (inl (kept, silent)) ok = rw (silent, kept) ok
follow_adopted-IsGoverned none gov state (inr e) ok = rw (sym e) (refl, ok.1)
follow_adopted-IsGoverned (some mode) gov state (inr e) ok = rw (sym e) (refl, refl)

module _ (sig : Signing) (key : Transition → Text) (network_id : Text) where
  step-IsGoverned :
      (state : Runtime) (event : Event)
      → IsGoverned state
      → IsGoverned (step sig key network_id state event)
  unfolding step
  step-IsGoverned state (edited next) ok = apply_hot-IsGoverned state next
  step-IsGoverned state (set mode) ok = set_topology-IsGoverned mode state ok
  step-IsGoverned state (ratified t) ok = ratified-IsGoverned t state ok
  step-IsGoverned state (gossiped transitions members) ok =
      let adoption : Adoption =
        adopt_transition_log sig key network_id transitions members state.governance_state in
      follow_adopted-IsGoverned adoption.adopted_topology adoption.gov state
        (adopted-IsTold sig key network_id transitions members state.governance_state) ok

  steps-IsGoverned :
      (state : Runtime) (events : List Event)
      → IsGoverned state
      → IsGoverned (run sig key network_id state events)
  unfolding run
  steps-IsGoverned state [] ok = ok
  steps-IsGoverned state (e ∷ events) ok =
      steps-IsGoverned (step sig key network_id state e) events (step-IsGoverned state e ok)

  -- From the start on, whatever edits of the configuration, local topology commands, ratified
  -- transitions and adopted logs come in whatever order, the runtime's topology is the signed one if
  -- there is one, and its selector is the one of that topology.
  pub run-IsGoverned :
      (config : NetworkConfig) (gov : NetworkState) (events : List Event)
      → IsGoverned (run sig key network_id (start config gov) events)
  run-IsGoverned config gov events =
      steps-IsGoverned (start config gov) events (start-IsGoverned config gov)
