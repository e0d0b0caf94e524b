-- ===== src/Governance/Proposals/Own.antt =====
-- Our own operations keep pending proposals vetted: crates/myownmesh-core/src/engine/governance.rs.
use my_own_mesh.Base.{
  ℕ, ◌≡◌, refl, Bool, true, false, inl, inr, some, List, [], ◌∷◌, ◌++◌, find?, first?, is_some, All,
  Option-cases, arith,
}
use my_own_mesh.Base.Every.{All-snoc, All-find?, All-update_first, All-update_all}
use my_own_mesh.Base.Results.{ok}
use my_own_mesh.Base.Text.{Text}
use my_own_mesh.Governance.{
  TransitionVariant, Transition, Proposal, NetworkState, apply_transition, split,
}
use my_own_mesh.Governance.Log.{Signing}
use my_own_mesh.Governance.Proposals.{is_proposal}
use my_own_mesh.Governance.Proposals.Local.{
  signed_by, add_signature, add_denier, mark_spawned, with_proposal, own_proposal,
  derive_split_network_id, propose, sign_proposal, deny_proposal, withdraw_proposal, spawn_split,
}
use my_own_mesh.Governance.Proposals.Inbound.{}
use my_own_mesh.Governance.Proposals.Vetting.{
  IsVetted, IsSigned-snoc, IsDistinct-snoc, AreVetted-remove_first, pending_apply_transition,
  AreVetted-try_ratify,
}

module _ (sig : Signing) (key : Transition → Text) (network_id me : Text) (sign : Text → Text)
    (digest : Text → Text)
    (signs : (payload : Text) → sig.verify me payload (sign payload) ≡ ok true) where
  abbrev Vetted : Proposal → Type 0
  Vetted = IsVetted sig key network_id

  pub AreVetted-add_signature :
      (gov : NetworkState) (id : Text) (p : Proposal) (signer signature : Text)
      → All Vetted gov.pending
      → find? (is_proposal id) gov.pending ≡ some p
      → signed_by signer p ≡ false
      → sig.verify signer (sig.payload network_id p.variant) signature ≡ ok true
      → All Vetted (with_proposal id (add_signature signer signature) gov).pending
  AreVetted-add_signature gov id p signer signature h e new v =
      let vetted : Vetted p = All-find? Vetted (is_proposal id) gov.pending p h e in
      All-update_first Vetted (is_proposal id) (add_signature signer signature) gov.pending p h e (
        IsSigned-snoc sig (sig.payload network_id p.variant) p.signers p.signatures signer signature
            vetted.0 v,
        IsDistinct-snoc p.signers signer vetted.1 new,
        is_some-snoc p.signers signer,
      )
    where
      is_some-snoc : (xs : List Text) (x : Text) → is_some (first? (xs ++ x ∷ [])) ≡ true
      is_some-snoc [] x = refl
      is_some-snoc (y ∷ xs) x = refl

  pub AreVetted-add_denier :
      (gov : NetworkState) (id signer : Text)
      → All Vetted gov.pending
      → All Vetted (with_proposal id (add_denier signer) gov).pending
  AreVetted-add_denier gov id signer =
      All-update_all Vetted (is_proposal id) (add_denier signer) gov.pending (λ p v. v)

  AreVetted-mark_spawned :
      (gov : NetworkState) (id : Text)
      → All Vetted gov.pending
      → All Vetted (with_proposal id mark_spawned gov).pending
  AreVetted-mark_spawned gov id =
      All-update_all Vetted (is_proposal id) mark_spawned gov.pending (λ p v. v)

  pub sign_proposal-AreVetted :
      (custody saves : Bool) (id : Text) (gov : NetworkState)
      → All Vetted gov.pending
      → All Vetted
          (sign_proposal sig key network_id me sign digest custody saves id gov).gov.pending
  unfolding sign_proposal
  sign_proposal-AreVetted custody saves id gov h =
      elim (Option-cases (find? (is_proposal id) gov.pending)) [
        | inl e ↦ rw (sign_proposal, e) h
        | inr (p, e) ↦
            let signed : NetworkState =
              with_proposal id (add_signature me (sign (sig.payload network_id p.variant))) gov in
            rw (sign_proposal, e)
              (ground (
                arith,
                AreVetted-try_ratify sig key network_id signed id,
                AreVetted-add_signature gov id p me (sign (sig.payload network_id p.variant)) h e,
                signs (sig.payload network_id p.variant),
                h,
              ))
      ]

  pub propose-AreVetted :
      (custody saves : Bool) (now : ℕ) (id : Text) (variant : TransitionVariant)
      (gov : NetworkState)
      → All Vetted gov.pending
      → All Vetted
          (propose sig key network_id me sign digest custody saves now id variant gov).gov.pending
  unfolding propose
  propose-AreVetted custody saves now id variant gov h =
      let own : Proposal = own_proposal sig key network_id me sign digest gov now id variant in
      let added : NetworkState = record gov { pending = gov.pending ++ own ∷ [] } in
      let vetted : All Vetted added.pending =
        All-snoc Vetted gov.pending own h
          ((signs (sig.payload network_id variant), tt), (refl, tt), refl) in
      ground (arith, AreVetted-try_ratify sig key network_id added id vetted, vetted, h)

  pub deny_proposal-AreVetted :
      (saves : Bool) (id : Text) (gov : NetworkState)
      → All Vetted gov.pending
      → All Vetted (deny_proposal sig key network_id me sign digest saves id gov).gov.pending
  unfolding deny_proposal
  deny_proposal-AreVetted saves id gov h =
      elim (Option-cases (find? (is_proposal id) gov.pending)) [
        | inl e ↦ rw (deny_proposal, e) h
        | inr (p, e) ↦
            let refused : NetworkState = with_proposal id (add_denier me) gov in
            let vetted : All Vetted refused.pending = AreVetted-add_denier gov id me h in
            rw (deny_proposal, e)
              (ground (arith, AreVetted-try_ratify sig key network_id refused id vetted, vetted, h))
      ]

  pub withdraw_proposal-AreVetted :
      (saves : Bool) (id : Text) (gov : NetworkState)
      → All Vetted gov.pending
      → All Vetted (withdraw_proposal sig key network_id me sign digest saves id gov).gov.pending
  unfolding withdraw_proposal
  withdraw_proposal-AreVetted saves id gov h =
      elim (Option-cases (find? (is_proposal id) gov.pending)) [
        | inl e ↦ rw (withdraw_proposal, e) h
        | inr (p, e) ↦
            rw (withdraw_proposal, e)
              (ground (arith, AreVetted-remove_first sig key network_id id gov.pending h, h))
      ]

  pub spawned-AreVetted :
      (gov : NetworkState) (t : Transition) (id : Text)
      → All Vetted gov.pending
      → All Vetted (with_proposal id mark_spawned (apply_transition gov t)).pending
  spawned-AreVetted gov t id h =
      AreVetted-mark_spawned (apply_transition gov t) id
        (rw (pending_apply_transition sig key network_id gov t) h)

  pub spawn_split-AreVetted :
      (saves : Bool) (now : ℕ) (id : Text) (gov : NetworkState)
      → All Vetted gov.pending
      → All Vetted (spawn_split sig key network_id me sign digest saves now id gov).gov.pending
  unfolding spawn_split
  spawn_split-AreVetted saves now id gov h =
      elim (Option-cases (find? (is_proposal id) gov.pending)) [
        | inl e ↦ rw (spawn_split, e) h
        | inr (p, e) ↦
            let new_network_id : Text = derive_split_network_id digest network_id p.signers in
            let t : Transition = record {
              at = now;
              variant = split new_network_id p.signers;
              signers = me ∷ [];
              signatures = sign (sig.payload network_id (split new_network_id p.signers)) ∷ [];
            } in
            rw (spawn_split, e) (ground (arith, spawned-AreVetted gov t id h, h))
      ]
