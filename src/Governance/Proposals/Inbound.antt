-- ===== src/Governance/Proposals/Inbound.antt =====
-- What messages of peers do to proposals: `on_propose`, `on_ack` and `on_split` of
-- crates/myownmesh-core/src/engine/governance.rs. A message is a step on the state; what only logs is
-- left out, and so is a failing save, which only logs here.
use my_own_mesh.Base.{
  ℕ, Bool, false, not, none, some, List, [], ◌∷◌, ◌++◌, any, find?, if◌then◌else◌,
}
use my_own_mesh.Base.Results.{Result, ok, err}
use my_own_mesh.Base.Text.{Text, text_eq}
use my_own_mesh.Governance.{
  TransitionVariant, split, Transition, Proposal, SplitRecord, NetworkState, apply_transition,
}
use my_own_mesh.Governance.Quorum.{Error}
use my_own_mesh.Governance.Log.{Signing}
use my_own_mesh.Governance.Proposals.{is_proposal, try_ratify}
use my_own_mesh.Governance.Proposals.Local.{
  Message, propose_message, sign_message, deny_message, split_message, signed_by, denied_by,
  add_signature, add_denier, mark_spawned, with_proposal, deny_payload,
}
use my_own_mesh.Topology.{pubkey_part}

-- `unwrap_or(false)`.
abbrev pub is_true : Result Error Bool → Bool
is_true (ok b) = b
is_true (err e) = false

module _ (sig : Signing) (key : Transition → Text) (network_id : Text) where
  abbrev pub verified : Text → Text → Text → Bool
  verified signer payload signature = is_true (sig.verify signer payload signature)

  abbrev pub foreign_proposal : Text → TransitionVariant → Text → ℕ → Text → Proposal
  foreign_proposal id variant proposer created_at signature = record {
    id = id;
    created_at = created_at;
    proposer = proposer;
    variant = variant;
    signers = proposer ∷ [];
    signatures = signature ∷ [];
    deniers = [];
    split_spawned = false;
  }

  abbrev ratified : NetworkState → Text → NetworkState
  ratified gov id = (try_ratify sig key network_id gov id).0

  unfoldable pub on_propose :
      Text → Text → TransitionVariant → Text → ℕ → Text → NetworkState → NetworkState
  unfolding text_eq try_ratify
  on_propose peer_id id variant proposer created_at signature gov =
      let added = record gov {
        pending = gov.pending ++ foreign_proposal id variant proposer created_at signature ∷ [];
      } in
      if not (text_eq proposer (pubkey_part peer_id))
      then gov
      else if not (verified proposer (sig.payload network_id variant) signature)
      then gov
      else ratified (if any (is_proposal id) gov.pending then gov else added) id

  unfoldable pub on_sign : Text → Text → Text → Text → NetworkState → NetworkState
  unfolding text_eq try_ratify
  on_sign peer_id id signer signature gov =
      if not (text_eq signer (pubkey_part peer_id))
      then gov
      else elim (find? (is_proposal id) gov.pending) [
        | none ↦ gov
        | some p ↦
            if not (verified signer (sig.payload network_id p.variant) signature)
            then gov
            else ratified
                (if signed_by signer p
                  then gov
                  else with_proposal id (add_signature signer signature) gov)
                id
      ]

  unfoldable pub on_deny : Text → Text → Text → Text → NetworkState → NetworkState
  unfolding text_eq try_ratify deny_payload
  on_deny peer_id id signer signature gov =
      if not (text_eq signer (pubkey_part peer_id))
      then gov
      else elim (find? (is_proposal id) gov.pending) [
        | none ↦ gov
        | some p ↦
            if not (verified signer (deny_payload network_id id signer) signature)
            then gov
            else ratified
                (if denied_by signer p then gov else with_proposal id (add_denier signer) gov) id
      ]

  unfoldable pub on_split :
      Text → Text → Text → List Text → Text → ℕ → Text → NetworkState → NetworkState
  unfolding text_eq apply_transition
  on_split peer_id parent_id new_network_id members proposer at signature gov =
      let variant : TransitionVariant = split new_network_id members in
      let t : Transition = record {
        at = at;
        variant = variant;
        signers = proposer ∷ [];
        signatures = signature ∷ [];
      } in
      if not (text_eq proposer (pubkey_part peer_id))
      then gov
      else if not (verified proposer (sig.payload network_id variant) signature)
      then gov
      else if any (λ (s : SplitRecord). text_eq s.new_network_id new_network_id) gov.splits
      then gov
      else with_proposal parent_id mark_spawned (apply_transition gov t)

  -- A message of a peer, `on_ack` by its decision.
  unfoldable pub receive : Text → Message → NetworkState → NetworkState
  unfolding on_propose on_sign on_deny on_split
  receive peer_id (propose_message id variant proposer created_at signature) gov =
      on_propose peer_id id variant proposer created_at signature gov
  receive peer_id (sign_message id signer signature) gov = on_sign peer_id id signer signature gov
  receive peer_id (deny_message id signer signature) gov = on_deny peer_id id signer signature gov
  receive peer_id (split_message parent_id new_network_id members proposer at signature) gov =
      on_split peer_id parent_id new_network_id members proposer at signature gov
