-- ===== src/Governance/Proposals/Runs.antt =====
-- Every signature on a pending proposal was verified, over any sequence of our operations and of
-- messages of peers: crates/myownmesh-core/src/engine/governance.rs.
use my_own_mesh.Base.{ℕ, ◌≡◌, Bool, true, List, [], ◌∷◌, All}
use my_own_mesh.Base.Every.{}
use my_own_mesh.Base.Results.{ok}
use my_own_mesh.Base.Text.{Text}
use my_own_mesh.Governance.{TransitionVariant, Transition, NetworkState}
use my_own_mesh.Governance.Log.{Signing}
use my_own_mesh.Governance.Proposals.{}
use my_own_mesh.Governance.Proposals.Local.{
  Message, propose, sign_proposal, deny_proposal, withdraw_proposal, spawn_split,
}
use my_own_mesh.Governance.Proposals.Inbound.{receive}
use my_own_mesh.Governance.Proposals.Vetting.{IsVetted}
use my_own_mesh.Governance.Proposals.Own.{
  sign_proposal-AreVetted, propose-AreVetted, deny_proposal-AreVetted, withdraw_proposal-AreVetted,
  spawn_split-AreVetted,
}
use my_own_mesh.Governance.Proposals.Messages.{receive-AreVetted}

-- One of our operations, or a message of a peer.
pub data Event : Type 0 where
  proposes : (custody saves : Bool) (now : ℕ) (id : Text) (variant : TransitionVariant) → Event
  signs_proposal : (custody saves : Bool) (id : Text) → Event
  denies : (saves : Bool) (id : Text) → Event
  withdraws : (saves : Bool) (id : Text) → Event
  spawns : (saves : Bool) (now : ℕ) (id : Text) → Event
  receives : (peer_id : Text) (message : Message) → Event

module _ (sig : Signing) (key : Transition → Text) (network_id me : Text) (sign : Text → Text)
    (digest : Text → Text) where
  pub step : Event → NetworkState → NetworkState
  unfolding propose sign_proposal deny_proposal withdraw_proposal spawn_split receive
  step (proposes custody saves now id variant) gov =
      (propose sig key network_id me sign digest custody saves now id variant gov).gov
  step (signs_proposal custody saves id) gov =
      (sign_proposal sig key network_id me sign digest custody saves id gov).gov
  step (denies saves id) gov = (deny_proposal sig key network_id me sign digest saves id gov).gov
  step (withdraws saves id) gov =
      (withdraw_proposal sig key network_id me sign digest saves id gov).gov
  step (spawns saves now id) gov =
      (spawn_split sig key network_id me sign digest saves now id gov).gov
  step (receives peer_id message) gov = receive sig key network_id peer_id message gov

  pub run : List Event → NetworkState → NetworkState
  unfolding step
  run [] gov = gov
  run (event ∷ events) gov = run events (step event gov)

  module _ (signs : (payload : Text) → sig.verify me payload (sign payload) ≡ ok true) where
    step-AreVetted :
        (event : Event) (gov : NetworkState)
        → All (IsVetted sig key network_id) gov.pending
        → All (IsVetted sig key network_id) (step event gov).pending
    unfolding step
    step-AreVetted (proposes custody saves now id variant) gov =
        propose-AreVetted sig key network_id me sign digest signs custody saves now id variant gov
    step-AreVetted (signs_proposal custody saves id) gov =
        sign_proposal-AreVetted sig key network_id me sign digest signs custody saves id gov
    step-AreVetted (denies saves id) gov =
        deny_proposal-AreVetted sig key network_id me sign digest signs saves id gov
    step-AreVetted (withdraws saves id) gov =
        withdraw_proposal-AreVetted sig key network_id me sign digest signs saves id gov
    step-AreVetted (spawns saves now id) gov =
        spawn_split-AreVetted sig key network_id me sign digest signs saves now id gov
    step-AreVetted (receives peer_id message) gov =
        receive-AreVetted sig key network_id me sign digest signs peer_id message gov

    -- Over any sequence of our operations and of messages of peers, a pending proposal has a signer,
    -- each signer once, and of every signer a signature that verifies, when that held at the start and
    -- our own signatures verify.
    pub run-AreVetted :
        (events : List Event) (gov : NetworkState)
        → All (IsVetted sig key network_id) gov.pending
        → All (IsVetted sig key network_id) (run events gov).pending
    unfolding run
    run-AreVetted [] gov h = h
    run-AreVetted (event ∷ events) gov h =
        run-AreVetted events (step event gov) (step-AreVetted event gov h)
