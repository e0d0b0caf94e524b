-- ===== src/Governance/Adoption/Followed.antt =====
-- The topology that `adopt_transition_log` of crates/myownmesh-core/src/engine/governance.rs tells the
-- runtime to follow.
use my_own_mesh.Base.{
  ◌≡◌, refl, sym, ap, ◌∙◌, Bool, true, false, ◌||◌, inl, inr, ◌⊎◌, Option, none, some, List, length,
  ltb, is_none, Bool-cases, Option-cases, arith,
}
use my_own_mesh.Base.Results.{ok}
use my_own_mesh.Base.Text.{Text}
use my_own_mesh.Governance.{TopologyMode, Transition, NetworkState}
use my_own_mesh.Governance.Equality.{topology_eq→eq}
use my_own_mesh.Governance.Log.{Signing, verify_log}
use my_own_mesh.Governance.Adoption.{
  Change, topology_differs, adopt_rebuilt, Adoption, rebuild, adopt_members, verified_projection,
  project, adopt_transition_log,
}
use my_own_mesh.Governance.Adoption.Steps.{
  adopt_rebuilt-cases, project-none, project-some, adopt_governance, adopt_both, adopt-project,
  adopt_members-transitions,
}

-- The old topology was kept, and none is told, or the new one is told.
abbrev pub IsTold : Option TopologyMode → Option TopologyMode → Option TopologyMode → Type 0
IsTold old new told = ((new ≡ old) × (told ≡ none)) ⊎ (told ≡ new)

differs→eq : (a b : Option TopologyMode) → topology_differs a b ≡ false → a ≡ b
differs→eq none none e = refl
differs→eq none (some b) e = cc
differs→eq (some a) none e = cc
differs→eq (some a) (some b) e = ground (arith, topology_eq→eq a b)

adopt_rebuilt-IsTold :
    (rebuilt : Option NetworkState) (gov : NetworkState)
    → IsTold gov.topology
        (adopt_rebuilt rebuilt gov).gov.topology
        (adopt_rebuilt rebuilt gov).adopted_topology
unfolding adopt_rebuilt
adopt_rebuilt-IsTold none gov = inl (refl, refl)
adopt_rebuilt-IsTold (some r) gov =
    elim (Bool-cases (ltb (length gov.transitions) (length r.transitions))) [
      | inr e ↦ rw e (inl (refl, refl))
      | inl e ↦ elim (Bool-cases (topology_differs r.topology gov.topology)) [
        | inl f ↦ rw (e, f) (inr refl)
        | inr f ↦ rw (e, f) (inl (differs→eq r.topology gov.topology f, refl))
      ]
    ]

module _ (sig : Signing) (key : Transition → Text) (network_id : Text) where
  adopt_members-topology :
      (incoming : List Transition) (gov : NetworkState)
      → (adopt_members sig key network_id incoming gov).gov.topology ≡ gov.topology
  unfolding adopt_members
  adopt_members-topology incoming gov = ground arith

  project-topology :
      (changed : Bool) (told : Option TopologyMode) (gov : NetworkState)
      → (project sig key network_id changed told gov).gov.topology ≡ gov.topology
  project-topology changed told gov =
      elim (Option-cases (verified_projection sig key network_id gov)) [
        | inl e ↦
            ap (λ (a : Adoption). a.gov.topology)
              (project-none sig key network_id changed told gov e)
        | inr (p, e) ↦
            ap (λ (a : Adoption). a.gov.topology)
              (project-some sig key network_id changed told gov p e)
      ]

  project-told_none :
      (changed : Bool) (gov : NetworkState)
      → (project sig key network_id changed none gov).adopted_topology ≡ none
  project-told_none changed gov = elim (Option-cases (verified_projection sig key network_id gov)) [
    | inl e ↦
        ap (λ (a : Adoption). a.adopted_topology)
          (project-none sig key network_id changed none gov e)
    | inr (p, e) ↦
        ap (λ (a : Adoption). a.adopted_topology)
          (project-some sig key network_id changed none gov p e)
  ]

  verified_projection-is_none :
      (gov s : NetworkState)
      → verify_log sig network_id gov.transitions ≡ ok s
      → is_none (verified_projection sig key network_id gov) ≡ false
  unfolding verified_projection
  verified_projection-is_none gov s v = rw (verified_projection, v) refl

  -- A log that verifies has a projection, so nothing stops the last step.
  project-told :
      (changed : Bool) (told : Option TopologyMode) (gov s : NetworkState)
      → verify_log sig network_id gov.transitions ≡ ok s
      → (project sig key network_id changed told gov).adopted_topology ≡ told
  project-told changed told gov s v =
      elim (Option-cases (verified_projection sig key network_id gov)) [
        | inl e ↦
            let k : true ≡ false = ap is_none (sym e) ∙ verified_projection-is_none gov s v in cc
        | inr (p, e) ↦
            ap (λ (a : Adoption). a.adopted_topology)
              (project-some sig key network_id changed told gov p e)
      ]

  pub adopted-IsTold :
      (incoming incoming_members : List Transition) (gov : NetworkState)
      → IsTold gov.topology
          (adopt_transition_log sig key network_id incoming incoming_members gov).gov.topology
          (adopt_transition_log sig key network_id incoming incoming_members gov).adopted_topology
  adopted-IsTold incoming incoming_members gov =
      let first : Change = adopt_governance sig key network_id incoming gov in
      let both : Change = adopt_both sig key network_id incoming incoming_members gov in
      let whole : adopt_transition_log sig key network_id incoming incoming_members gov
          ≡ project sig key network_id (first.changed || both.changed) first.adopted_topology
              both.gov =
        adopt-project sig key network_id incoming incoming_members gov in
      let kept : (adopt_transition_log sig key network_id incoming incoming_members
            gov).gov.topology
          ≡ first.gov.topology =
        ap (λ (a : Adoption). a.gov.topology) whole
        ∙ project-topology (first.changed || both.changed) first.adopted_topology both.gov
        ∙ adopt_members-topology incoming_members first.gov in
      elim (adopt_rebuilt-cases sig key network_id incoming gov) [
        | inl (e, f) ↦
            let silent : first.adopted_topology ≡ none =
              ap (λ (c : Change). c.adopted_topology) f in
            inl (
              kept ∙ ap (λ (c : Change). c.gov.topology) f,
              ap (λ (a : Adoption). a.adopted_topology) whole
                  ∙ rw silent (project-told_none (first.changed || both.changed) both.gov),
            )
        | inr (e, f, longer, s, v) ↦
            let verified : verify_log sig network_id both.gov.transitions ≡ ok s =
              ap (verify_log sig network_id)
                (adopt_members-transitions sig key network_id incoming_members first.gov ∙ e)
              ∙ v in
            let told : (adopt_transition_log sig key network_id incoming incoming_members
                  gov).adopted_topology
                ≡ first.adopted_topology =
              ap (λ (a : Adoption). a.adopted_topology) whole
              ∙ project-told (first.changed || both.changed) first.adopted_topology both.gov s
                  verified in
            elim (adopt_rebuilt-IsTold (rebuild sig key network_id incoming gov.transitions) gov) [
              | inl (a, b) ↦ inl (kept ∙ a, told ∙ b)
              | inr a ↦ inr (told ∙ a ∙ sym kept)
            ]
      ]
