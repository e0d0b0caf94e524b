-- ===== src/Governance/Log.antt =====
-- `verify_transition_signatures` and `verify_log` of
-- crates/myownmesh-core/src/network_state.rs. `signing::verify`, which rests on ed25519, and
-- `transition_payload` are taken as parameters.
pub mod Signatures
pub mod Replay
pub mod Authority
use my_own_mesh.Base.{ℕ, Bool, not, Option, none, some, List, [], ◌∷◌, length, is_none, ◌==◌}
use my_own_mesh.Base.Results.{Result, ok, err, ◌>>=◌, ◌>>◌, ensure}
use my_own_mesh.Base.Text.{Text}
use my_own_mesh.Governance.{
  TransitionVariant, Transition, NetworkState, empty_for, apply_transition,
}
use my_own_mesh.Governance.Quorum.{
  Error, signers_signatures_mismatch, no_signers, signature_invalid, verify_quorum,
}

-- `signing::verify(signer, payload, signature)` and the payload of a transition in a network.
pub record Signing : Type 0 where
  pub verify : Text → Text → Text → Result Error Bool
  pub payload : Text → TransitionVariant → Text

module _ (sig : Signing) where
  unfoldable pub check_signatures : Text → List Text → List Text → Result Error (Unit {0})
  check_signatures payload (signer ∷ signers) (s ∷ signatures) =
      let rest = check_signatures payload signers signatures in
      sig.verify signer payload s >>= λ valid. ensure valid signature_invalid >> rest
  check_signatures payload _ _ = ok tt

  unfoldable pub verify_transition_signatures : Text → Transition → Result Error (Unit {0})
  unfolding check_signatures
  verify_transition_signatures network_id t = do
    ensure (length t.signers == length t.signatures) signers_signatures_mismatch
    ensure (not (length t.signers == 0)) no_signers
    check_signatures (sig.payload network_id t.variant) t.signers t.signatures

  -- The loop of `verify_log`, from any state.
  unfoldable pub verify_from : Text → NetworkState → List Transition → Result Error NetworkState
  verify_from network_id state [] = ok state
  verify_from network_id state (t ∷ ts) =
      let rest = verify_from network_id (apply_transition state t) ts in
      verify_transition_signatures network_id t >>= λ _. verify_quorum state t >>= λ _. rest

  unfoldable pub verify_log : Text → List Transition → Result Error NetworkState
  unfolding verify_from
  verify_log network_id transitions = verify_from network_id (empty_for network_id) transitions
