-- ===== src/Governance/Adoption/Convergence.antt =====
-- What a peer's logs can do to ours, and that the same logs do it once: `adopt_transition_log` of
-- crates/myownmesh-core/src/engine/governance.rs.
use my_own_mesh.Base.{
  ◌≡◌, refl, sym, ap, ◌∙◌, Bool, true, false, ◌||◌, inl, inr, ◌⊎◌, Option, none, some, List, length,
  ltb, is_none, first?, Bool-cases, Option-cases,
}
use my_own_mesh.Base.Results.{ok}
use my_own_mesh.Base.Text.{Text}
use my_own_mesh.Governance.{Role, TopologyMode, Transition, NetworkState}
use my_own_mesh.Base.TreeMap.{TreeMap}
use my_own_mesh.Governance.Log.{Signing, verify_log}
use my_own_mesh.Governance.MemberLog.{merge_member_logs}
use my_own_mesh.Governance.MemberLog.Join.{merge_absorb}
use my_own_mesh.Governance.Adoption.{
  extends, Change, unchanged, adopt_rebuilt, Adoption, rebuild, adopt_members, verified_projection,
  project, adopt_transition_log,
}
use my_own_mesh.Governance.Adoption.Steps.{
  ltb_irrefl, adopt_rebuilt-cases, adopt_members-transitions, project-none, project-some,
  adopt_governance, adopt_both, adopt-project,
}

module _ (sig : Signing) (key : Transition → Text) (network_id : Text) where
  rebuild-settled :
      (incoming : List Transition) (gov : NetworkState)
      → rebuild sig key network_id incoming
          (adopt_rebuilt (rebuild sig key network_id incoming gov.transitions) gov).gov.transitions
        ≡ none
  unfolding rebuild
  rebuild-settled incoming gov = elim (adopt_rebuilt-cases sig key network_id incoming gov) [
    | inl (e, f) ↦ rw f e
    | inr (e, f, g, s, v) ↦ rw e (rebuild_own incoming)
  ]
    where
      rebuild_own : (ts : List Transition) → rebuild sig key network_id ts ts ≡ none
      rebuild_own ts =
          let longer : ltb (length ts) (length ts) ≡ false = ltb_irrefl (length ts) in
          rw (rebuild, longer) refl

  adopt_members-settled :
      (incoming : List Transition) (gov after : NetworkState)
      → after.member_log ≡ (adopt_members sig key network_id incoming gov).gov.member_log
      → adopt_members sig key network_id incoming after ≡ unchanged after
  unfolding adopt_members
  adopt_members-settled incoming gov after e = elim (Bool-cases (is_none (first? incoming))) [
    | inl f ↦ rw f refl
    | inr f ↦
        elim (Bool-cases
          (ltb (length gov.member_log) (length (merge_member_logs key gov.member_log incoming)))) [
            | inl g ↦
                let merged : after.member_log ≡ merge_member_logs key gov.member_log incoming =
                  rw (f, g) at e in
                rw
                  (
                    f,
                    merged,
                    merge_absorb key gov.member_log incoming,
                    ltb_irrefl (length (merge_member_logs key gov.member_log incoming)),
                  )
                  refl
            | inr g ↦
                let kept : after.member_log ≡ gov.member_log = rw (f, g) at e in
                rw (f, kept, g) refl
          ]
  ]

  projection_of_logs :
      (gov : NetworkState) (roles : TreeMap Text Role)
      → verified_projection sig key network_id (record gov { roles = roles })
        ≡ verified_projection sig key network_id gov
  unfolding verified_projection
  projection_of_logs gov roles = refl

  -- The last step leaves both logs, and a second one leaves the state and reports no change.
  project-settled :
      (changed : Bool) (topology : Option TopologyMode) (gov after : NetworkState)
      → (project sig key network_id changed topology gov).gov ≡ after
      → (after.transitions ≡ gov.transitions)
        × (after.member_log ≡ gov.member_log)
        × ((project sig key network_id false none after).gov ≡ after)
        × ((project sig key network_id false none after).changed ≡ false)
  project-settled changed topology gov after h =
      elim (Option-cases (verified_projection sig key network_id gov)) [
        | inl e ↦
            let same : gov ≡ after =
              ap (λ (a : Adoption). a.gov)
                (sym (project-none sig key network_id changed topology gov e))
              ∙ h in
            let still : verified_projection sig key network_id after ≡ none =
              ap (verified_projection sig key network_id) (sym same) ∙ e in
            (
              ap (λ (g : NetworkState). g.transitions) (sym same),
              ap (λ (g : NetworkState). g.member_log) (sym same),
              ap (λ (a : Adoption). a.gov) (project-none sig key network_id false none after still),
              ap (λ (a : Adoption). a.changed)
                  (project-none sig key network_id false none after still),
            )
        | inr (p, e) ↦
            let same : record gov { roles = p.roles } ≡ after =
              ap (λ (a : Adoption). a.gov)
                (sym (project-some sig key network_id changed topology gov p e))
              ∙ h in
            let still : verified_projection sig key network_id after ≡ some p =
              ap (verified_projection sig key network_id) (sym same)
              ∙ projection_of_logs gov p.roles
              ∙ e in
            (
              ap (λ (g : NetworkState). g.transitions) (sym same),
              ap (λ (g : NetworkState). g.member_log) (sym same),
              ap (λ (a : Adoption). a.gov)
                    (project-some sig key network_id false none after p still)
                  ∙ ap (λ (g : NetworkState). record g { roles = p.roles }) (sym same)
                  ∙ same,
              ap (λ (a : Adoption). a.changed)
                  (project-some sig key network_id false none after p still),
            )
      ]

  adopt-settled :
      (incoming incoming_members : List Transition) (gov after : NetworkState)
      → (adopt_transition_log sig key network_id incoming incoming_members gov).gov ≡ after
      → (after.transitions ≡ (adopt_governance sig key network_id incoming gov).gov.transitions)
        × (after.member_log
            ≡ (adopt_both sig key network_id incoming incoming_members gov).gov.member_log)
        × ((project sig key network_id false none after).gov ≡ after)
        × ((project sig key network_id false none after).changed ≡ false)
  adopt-settled incoming incoming_members gov after h =
      let (t, m, g, c) =
        project-settled
          ((adopt_governance sig key network_id incoming gov).changed
            || (adopt_both sig key network_id incoming incoming_members gov).changed)
          (adopt_governance sig key network_id incoming gov).adopted_topology
          (adopt_both sig key network_id incoming incoming_members gov).gov after
          (ap (λ (a : Adoption). a.gov)
              (sym (adopt-project sig key network_id incoming incoming_members gov))
            ∙ h) in
      (
        t
            ∙ adopt_members-transitions sig key network_id incoming_members
                (adopt_governance sig key network_id incoming gov).gov,
        m,
        g,
        c,
      )

  adopt-quiet :
      (incoming incoming_members : List Transition) (gov : NetworkState)
      → rebuild sig key network_id incoming gov.transitions ≡ none
      → adopt_members sig key network_id incoming_members gov ≡ unchanged gov
      → adopt_transition_log sig key network_id incoming incoming_members gov
        ≡ project sig key network_id false none gov
  unfolding adopt_rebuilt
  adopt-quiet incoming incoming_members gov e f =
      adopt-project sig key network_id incoming incoming_members gov ∙ rw (e, f) refl

  -- The tests that an adopted log has passed.
  pub adopted-extends :
      (incoming incoming_members : List Transition) (gov : NetworkState)
      → ((adopt_transition_log sig key network_id incoming incoming_members gov).gov.transitions
          ≡ gov.transitions)
        ⊎ (((adopt_transition_log sig key network_id incoming incoming_members gov).gov.transitions
              ≡ incoming)
            × (extends incoming gov.transitions ≡ true)
            × (s : NetworkState) × (verify_log sig network_id incoming ≡ ok s))
  adopted-extends incoming incoming_members gov =
      let after : NetworkState =
        (adopt_transition_log sig key network_id incoming incoming_members gov).gov in
      let (t, m, g, c) = adopt-settled incoming incoming_members gov after refl in
      elim (adopt_rebuilt-cases sig key network_id incoming gov) [
        | inl (e, f) ↦ inl (t ∙ ap (λ (x : Change). x.gov.transitions) f)
        | inr (e, f, longer, s, v) ↦ inr (t ∙ e, longer, s, v)
      ]

  -- Adopting the same logs again changes nothing and reports no change.
  pub adopt_transition_log_idem :
      (incoming incoming_members : List Transition) (gov : NetworkState)
      → ((adopt_transition_log sig key network_id incoming incoming_members
            (adopt_transition_log sig key network_id incoming incoming_members gov).gov).gov
          ≡ (adopt_transition_log sig key network_id incoming incoming_members gov).gov)
        × ((adopt_transition_log sig key network_id incoming incoming_members
              (adopt_transition_log sig key network_id incoming incoming_members gov).gov).changed
            ≡ false)
  adopt_transition_log_idem incoming incoming_members gov =
      let after : NetworkState =
        (adopt_transition_log sig key network_id incoming incoming_members gov).gov in
      let (t, m, g, c) = adopt-settled incoming incoming_members gov after refl in
      let quiet : adopt_transition_log sig key network_id incoming incoming_members after
          ≡ project sig key network_id false none after =
        adopt-quiet incoming incoming_members after
          (ap (rebuild sig key network_id incoming) t ∙ rebuild-settled incoming gov)
          (adopt_members-settled incoming_members
            (adopt_governance sig key network_id incoming gov).gov after m) in
      (ap (λ (a : Adoption). a.gov) quiet ∙ g, ap (λ (a : Adoption). a.changed) quiet ∙ c)
