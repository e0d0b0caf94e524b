-- ===== src/Governance/Proposals/Broadcast.antt =====
-- What `propose` of crates/myownmesh-core/src/engine/governance.rs keeps and what it broadcasts.
use my_own_mesh.Base.{
  ℕ, ◌-◌, ◌^◌, ◌≤◌, ◌<◌, ◌≡◌, refl, sym, subst, ◌∙◌, true, false, ◌⊎◌, inl, inr, Option, none, some,
  [], ◌∷◌, ◌++◌, find?, All, Some, find?-append, if◌then◌else◌, Bool-cases,
}
use my_own_mesh.Base.Text.{Text, text_eq_self}
use my_own_mesh.Governance.{TransitionVariant, Transition, Proposal, NetworkState}
use my_own_mesh.Governance.Log.{Signing}
use my_own_mesh.Governance.Proposals.{is_proposal, candidate, try_ratify}
use my_own_mesh.Governance.Proposals.Local.{propose_message, propose, own_proposal, is_reassertion}
use my_own_mesh.Governance.Proposals.Effects.{Some-last, logged, passes, ratify, try_ratify-judged}
use my_own_mesh.Governance.Proposals.Stamps.{Concerns, IsStamped, stamp-late}

module _ (sig : Signing) (key : Transition → Text) (network_id me : Text) (sign : Text → Text)
    (digest : Text → Text) where
  -- Among the pending proposals there is one with the id, or in one of the logs the transition, with a
  -- time after `now`.
  abbrev pub IsKeptLater : ℕ → Text → TransitionVariant → NetworkState → Type 0
  IsKeptLater now id variant gov =
      Some (λ (q : Proposal). (q.id ≡ id) × (now < q.created_at)) gov.pending
      ⊎ Some (λ (t : Transition). (t.variant ≡ variant) × (now < t.at))
          (gov.transitions ++ gov.member_log)

  ratified-IsKeptLater :
      (gov : NetworkState) (now : ℕ) (id : Text) (p : Proposal)
      → find? (is_proposal id) gov.pending ≡ none
      → p.id ≡ id
      → p.deniers ≡ []
      → now < p.created_at
      → IsKeptLater now id p.variant
          (try_ratify sig key network_id (record gov { pending = gov.pending ++ p ∷ [] }) id).0
  unfolding candidate
  ratified-IsKeptLater gov now id p fresh same undenied later =
      let added : NetworkState = record gov { pending = gov.pending ++ p ∷ [] } in
      let c : Transition = candidate sig key network_id p in
      let found : find? (is_proposal id) added.pending ≡ some p =
        find?-append (is_proposal id) gov.pending (p ∷ [])
        ∙ rw (fresh, same, text_eq_self id) refl in
      let judged : try_ratify sig key network_id added id ≡ (
          if passes sig key network_id added c
          then ratify sig key network_id added id c
          else (added, none)) =
        try_ratify-judged sig key network_id added id p found (rw undenied refl) in
      elim (Bool-cases (passes sig key network_id added c)) [
        | inl g ↦
            let done : try_ratify sig key network_id added id
                ≡ ratify sig key network_id added id c =
              judged ∙ rw g refl in
            subst (λ (r : NetworkState × Option Transition). IsKeptLater now id p.variant r.0)
              (sym done) (inr (logged sig key network_id added c (refl, later)))
        | inr g ↦
            let kept : try_ratify sig key network_id added id ≡ (added, none) =
              judged ∙ rw g refl in
            subst (λ (r : NetworkState × Option Transition). IsKeptLater now id p.variant r.0)
              (sym kept) (inl (Some-last gov.pending p (same, later)))
      ]

  -- For an admission, an eviction or the revocation of a member that is no reassertion, under a new id,
  -- with the custody lock open and the state saved: when the member log has an entry about the device
  -- that is not older than the clock, and none at the largest 64-bit time, the proposal that is
  -- broadcast carries the clock's time, and the state that `propose` leaves has it pending, or its
  -- transition in a log, with a later time.
  pub broadcast_behind :
      (gov : NetworkState) (now : ℕ) (id target : Text) (variant : TransitionVariant)
      → find? (is_proposal id) gov.pending ≡ none
      → is_reassertion gov variant ≡ false
      → IsStamped gov variant target
      → Some (λ (t : Transition). Concerns target t.variant × (now ≤ t.at)) gov.member_log
      → All (λ (t : Transition). t.at < 2 ^ 64 - 1) gov.member_log
      → ((propose sig key network_id me sign digest true true now id variant gov).broadcast
          ≡ propose_message id variant me now (sign (sig.payload network_id variant)) ∷ [])
        × IsKeptLater now id variant
            (propose sig key network_id me sign digest true true now id variant gov).gov
  unfolding propose
  broadcast_behind gov now id target variant new fresh stamped late bounded = (
    rw (propose, fresh) refl,
    rw (propose, fresh)
        (ratified-IsKeptLater gov now id
          (own_proposal sig key network_id me sign digest gov now id variant) new refl refl
          (stamp-late gov now variant target stamped late bounded)),
  )
