-- ===== src/Governance/Adoption/Steps.antt =====
-- The three steps of `adopt_transition_log` of crates/myownmesh-core/src/engine/governance.rs, one by one.
use my_own_mesh.Base.{
  ℕ, ◌≡◌, refl, Bool, true, false, ◌||◌, inl, inr, ◌⊎◌, Option, none, some, List, length, ltb,
  Bool-cases, arith,
}
use my_own_mesh.Base.Results.{Result, ok, err}
use my_own_mesh.Base.Text.{Text}
use my_own_mesh.Governance.{TopologyMode, Transition, NetworkState}
use my_own_mesh.Governance.Quorum.{Error}
use my_own_mesh.Governance.Log.{Signing, verify_log}
use my_own_mesh.Governance.Log.Replay.{verify_log-transitions}
use my_own_mesh.Governance.Adoption.{
  extends, Change, unchanged, adopt_rebuilt, Projection, rebuild, adopt_members,
  verified_projection, project, adopt_transition_log,
}

pub ltb_irrefl : (n : ℕ) → ltb n n ≡ false
ltb_irrefl n = ground arith

Result-cases :
    (r : Result Error NetworkState)
    → ((e : Error) × (r ≡ err e)) ⊎ ((s : NetworkState) × (r ≡ ok s))
Result-cases (err e) = inl (e, refl)
Result-cases (ok s) = inr (s, refl)

module _ (sig : Signing) (key : Transition → Text) (network_id : Text) where
  -- What the first step leaves: our log, which the incoming one does not replace, or the incoming log,
  -- which extends ours and verifies.
  pub adopt_rebuilt-cases :
      (incoming : List Transition) (gov : NetworkState)
      → ((rebuild sig key network_id incoming gov.transitions ≡ none)
          × (adopt_rebuilt (rebuild sig key network_id incoming gov.transitions) gov
              ≡ unchanged gov))
        ⊎ (((adopt_rebuilt
                (rebuild sig key network_id incoming gov.transitions)
                gov).gov.transitions
              ≡ incoming)
            × ((adopt_rebuilt
                  (rebuild sig key network_id incoming gov.transitions)
                  gov).gov.member_log
                ≡ gov.member_log)
            × (extends incoming gov.transitions ≡ true)
            × (s : NetworkState) × (verify_log sig network_id incoming ≡ ok s))
  unfolding rebuild adopt_rebuilt
  adopt_rebuilt-cases incoming gov = elim (Bool-cases (extends incoming gov.transitions)) [
    | inr e ↦ inl (rw (rebuild, e) refl, rw (rebuild, e) refl)
    | inl e ↦ elim (Result-cases (verify_log sig network_id incoming)) [
      | inl (x, f) ↦ inl (rw (rebuild, e, f) refl, rw (rebuild, e, f) refl)
      | inr (s, f) ↦
          let same : s.transitions ≡ incoming =
            (verify_log-transitions sig network_id incoming s f).0 in
          let longer : ltb (length gov.transitions) (length s.transitions) ≡ true =
            rw same (ground (arith, e)) in
          inr (
            rw (rebuild, e, f, adopt_rebuilt, longer) same,
            rw (rebuild, e, f, adopt_rebuilt, longer) refl,
            e,
            s,
            f,
          )
    ]
  ]

  pub adopt_members-transitions :
      (incoming : List Transition) (gov : NetworkState)
      → (adopt_members sig key network_id incoming gov).gov.transitions ≡ gov.transitions
  unfolding adopt_members
  adopt_members-transitions incoming gov = ground arith

  pub project-none :
      (changed : Bool) (topology : Option TopologyMode) (gov : NetworkState)
      → verified_projection sig key network_id gov ≡ none
      → project sig key network_id changed topology gov
        ≡ record { gov = gov; changed = false; adopted_topology = none; projection = none }
  unfolding project
  project-none changed topology gov e = rw (project, e) refl

  pub project-some :
      (changed : Bool) (topology : Option TopologyMode) (gov : NetworkState) (p : Projection)
      → verified_projection sig key network_id gov ≡ some p
      → project sig key network_id changed topology gov ≡ record {
        gov = record gov { roles = p.roles };
        changed = changed;
        adopted_topology = topology;
        projection = some p;
      }
  unfolding project
  project-some changed topology gov p e = rw (project, e) refl

  -- The state before the last step, and what the last step is told.
  abbrev pub adopt_governance : List Transition → NetworkState → Change
  adopt_governance incoming gov =
      adopt_rebuilt (rebuild sig key network_id incoming gov.transitions) gov

  abbrev pub adopt_both : List Transition → List Transition → NetworkState → Change
  adopt_both incoming incoming_members gov =
      adopt_members sig key network_id incoming_members (adopt_governance incoming gov).gov

  pub adopt-project :
      (incoming incoming_members : List Transition) (gov : NetworkState)
      → adopt_transition_log sig key network_id incoming incoming_members gov
        ≡ project sig key network_id
            ((adopt_governance incoming gov).changed
              || (adopt_both incoming incoming_members gov).changed)
            (adopt_governance incoming gov).adopted_topology
            (adopt_both incoming incoming_members gov).gov
  unfolding adopt_transition_log
  adopt-project incoming incoming_members gov = refl
