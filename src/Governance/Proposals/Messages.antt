-- ===== src/Governance/Proposals/Messages.antt =====
-- Messages of peers keep pending proposals vetted: crates/myownmesh-core/src/engine/governance.rs.
use my_own_mesh.Base.{
  ℕ, ◌≡◌, refl, Bool, true, false, inl, inr, some, List, [], ◌∷◌, ◌++◌, find?, All, Bool-cases,
  Option-cases, arith,
}
use my_own_mesh.Base.Every.{All-snoc}
use my_own_mesh.Base.Results.{Result, ok, err}
use my_own_mesh.Base.Text.{Text}
use my_own_mesh.Governance.{
  TransitionVariant, Transition, Proposal, NetworkState, apply_transition, split,
}
use my_own_mesh.Governance.Quorum.{Error}
use my_own_mesh.Governance.Log.{Signing}
use my_own_mesh.Governance.Proposals.{is_proposal}
use my_own_mesh.Governance.Proposals.Local.{
  Message, propose_message, sign_message, deny_message, split_message, signed_by, add_signature,
  add_denier, mark_spawned, with_proposal,
}
use my_own_mesh.Governance.Proposals.Inbound.{
  is_true, verified, foreign_proposal, on_propose, on_sign, on_deny, on_split, receive,
}
use my_own_mesh.Governance.Proposals.Vetting.{IsVetted, AreVetted-try_ratify}
use my_own_mesh.Governance.Proposals.Own.{
  AreVetted-add_signature, AreVetted-add_denier, spawned-AreVetted,
}

is_true-ok : (r : Result Error Bool) → is_true r ≡ true → r ≡ ok true
is_true-ok (ok true) h = refl
is_true-ok (ok false) h = cc
is_true-ok (err e) h = cc

module _ (sig : Signing) (key : Transition → Text) (network_id me : Text) (sign : Text → Text)
    (digest : Text → Text)
    (signs : (payload : Text) → sig.verify me payload (sign payload) ≡ ok true) where
  abbrev Vetted : Proposal → Type 0
  Vetted = IsVetted sig key network_id

  added :
      (gov : NetworkState) (id : Text) (p : Proposal) (signer signature : Text)
      → All Vetted gov.pending
      → find? (is_proposal id) gov.pending ≡ some p
      → signed_by signer p ≡ false
      → sig.verify signer (sig.payload network_id p.variant) signature ≡ ok true
      → All Vetted (with_proposal id (add_signature signer signature) gov).pending
  added = AreVetted-add_signature sig key network_id me sign digest signs

  denied_kept :
      (gov : NetworkState) (id signer : Text)
      → All Vetted gov.pending
      → All Vetted (with_proposal id (add_denier signer) gov).pending
  denied_kept = AreVetted-add_denier sig key network_id me sign digest signs

  spawned :
      (gov : NetworkState) (t : Transition) (id : Text)
      → All Vetted gov.pending
      → All Vetted (with_proposal id mark_spawned (apply_transition gov t)).pending
  spawned = spawned-AreVetted sig key network_id me sign digest signs

  on_propose-AreVetted :
      (peer_id id : Text) (variant : TransitionVariant) (proposer : Text) (created_at : ℕ)
      (signature : Text) (gov : NetworkState)
      → All Vetted gov.pending
      → All Vetted
          (on_propose sig key network_id peer_id id variant proposer created_at signature
            gov).pending
  unfolding on_propose
  on_propose-AreVetted peer_id id variant proposer created_at signature gov h =
      let foreign : Proposal =
        foreign_proposal sig key network_id id variant proposer created_at signature in
      let added : NetworkState = record gov { pending = gov.pending ++ foreign ∷ [] } in
      let payload : Text = sig.payload network_id variant in
      elim (Bool-cases (verified sig key network_id proposer payload signature)) [
        | inr e ↦ ground (arith, e, h)
        | inl e ↦
            let vetted : All Vetted added.pending =
              All-snoc Vetted gov.pending foreign h
                ((is_true-ok (sig.verify proposer payload signature) e, tt), (refl, tt), refl) in
            ground (
              arith,
              AreVetted-try_ratify sig key network_id added id vetted,
              AreVetted-try_ratify sig key network_id gov id h,
              h,
            )
      ]

  on_sign-AreVetted :
      (peer_id id signer signature : Text) (gov : NetworkState)
      → All Vetted gov.pending
      → All Vetted (on_sign sig key network_id peer_id id signer signature gov).pending
  unfolding on_sign
  on_sign-AreVetted peer_id id signer signature gov h =
      elim (Option-cases (find? (is_proposal id) gov.pending)) [
        | inl e ↦ rw (on_sign, e) (ground (arith, h))
        | inr (p, e) ↦
            let payload : Text = sig.payload network_id p.variant in
            let signed : NetworkState = with_proposal id (add_signature signer signature) gov in
            rw (on_sign, e)
              (ground (
                arith,
                AreVetted-try_ratify sig key network_id signed id,
                AreVetted-try_ratify sig key network_id gov id h,
                added gov id p signer signature h e,
                is_true-ok (sig.verify signer payload signature),
                h,
              ))
      ]

  on_deny-AreVetted :
      (peer_id id signer signature : Text) (gov : NetworkState)
      → All Vetted gov.pending
      → All Vetted (on_deny sig key network_id peer_id id signer signature gov).pending
  unfolding on_deny
  on_deny-AreVetted peer_id id signer signature gov h =
      elim (Option-cases (find? (is_proposal id) gov.pending)) [
        | inl e ↦ rw (on_deny, e) (ground (arith, h))
        | inr (p, e) ↦
            let refused : NetworkState = with_proposal id (add_denier signer) gov in
            rw (on_deny, e)
              (ground (
                arith,
                AreVetted-try_ratify sig key network_id refused id (denied_kept gov id signer h),
                AreVetted-try_ratify sig key network_id gov id h,
                h,
              ))
      ]

  on_split-AreVetted :
      (peer_id parent_id new_network_id : Text) (members : List Text) (proposer : Text) (at : ℕ)
      (signature : Text) (gov : NetworkState)
      → All Vetted gov.pending
      → All Vetted
          (on_split sig key network_id peer_id parent_id new_network_id members proposer at
            signature gov).pending
  unfolding on_split
  on_split-AreVetted peer_id parent_id new_network_id members proposer at signature gov h =
      let t : Transition = record {
        at = at;
        variant = split new_network_id members;
        signers = proposer ∷ [];
        signatures = signature ∷ [];
      } in
      ground (arith, spawned gov t parent_id h, h)

  pub receive-AreVetted :
      (peer_id : Text) (message : Message) (gov : NetworkState)
      → All Vetted gov.pending
      → All Vetted (receive sig key network_id peer_id message gov).pending
  unfolding receive
  receive-AreVetted peer_id (propose_message id variant proposer created_at signature) gov =
      on_propose-AreVetted peer_id id variant proposer created_at signature gov
  receive-AreVetted peer_id (sign_message id signer signature) gov =
      on_sign-AreVetted peer_id id signer signature gov
  receive-AreVetted peer_id (deny_message id signer signature) gov =
      on_deny-AreVetted peer_id id signer signature gov
  receive-AreVetted peer_id (split_message parent new members proposer at signature) gov =
      on_split-AreVetted peer_id parent new members proposer at signature gov
