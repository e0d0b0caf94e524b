-- ===== src/Custody/Authoring.antt =====
-- The custody lock in front of `propose` and `sign_proposal` of
-- crates/myownmesh-core/src/engine/governance.rs.
use my_own_mesh.Base.{
  ℕ, ◌≡◌, refl, Bool, false, inl, inr, Option, none, some, [], is_none, find?, Option-cases, arith,
}
use my_own_mesh.Base.Text.{Text, text_ordered}
use my_own_mesh.Base.TreeMap.{lookup}
use my_own_mesh.Governance.{TransitionVariant, Transition, NetworkState}
use my_own_mesh.Governance.Log.{Signing}
use my_own_mesh.Governance.Proposals.{is_proposal}
use my_own_mesh.Governance.Proposals.Local.{Outcome, propose, sign_proposal}
use my_own_mesh.Custody.{Enrollment, CustodyStore, Crypto, given_code, require_at}

-- `custody::require(..)?`: the check passes when there is no failure.
abbrev pub passes : Crypto → ℕ → Bool → Text → Option Text → CustodyStore → Bool
passes crypto now saves network_id code store =
    is_none (require_at crypto now saves network_id code store).failure

passes-without_code :
    (crypto : Crypto) (now : ℕ) (saves : Bool) (network_id : Text) (code : Option Text)
    (store : CustodyStore) (enrollment : Enrollment)
    → lookup network_id store ≡ some enrollment
    → given_code code ≡ none
    → passes crypto now saves network_id code store ≡ false
unfolding require_at
passes-without_code crypto now saves network_id code store enrollment e f =
    rw (require_at, e, f) refl

-- Nothing was changed and nothing was sent.
abbrev pub IsInert : NetworkState → Outcome → Type 0
IsInert gov outcome = (outcome.gov ≡ gov) × (outcome.broadcast ≡ [])

module _ (sig : Signing) (key : Transition → Text) (network_id me : Text) (sign : Text → Text)
    (digest : Text → Text) where
  propose-locked :
      (saves : Bool) (now : ℕ) (id : Text) (variant : TransitionVariant) (gov : NetworkState)
      → IsInert gov (propose sig key network_id me sign digest false saves now id variant gov)
  unfolding propose
  propose-locked saves now id variant gov = (ground arith, ground arith)

  sign_proposal-locked :
      (saves : Bool) (id : Text) (gov : NetworkState)
      → IsInert gov (sign_proposal sig key network_id me sign digest false saves id gov)
  unfolding sign_proposal
  sign_proposal-locked saves id gov = elim (Option-cases (find? (is_proposal id) gov.pending)) [
    | inl e ↦ rw (sign_proposal, e) (refl, refl)
    | inr (p, e) ↦ rw (sign_proposal, e) (ground arith, ground arith)
  ]

  -- On a network that the device is enrolled for, `propose` and `sign_proposal` leave the state as it is
  -- and broadcast nothing when no code or a blank one is given,
  -- whatever their other arguments.
  pub locked-IsInert :
      (crypto : Crypto) (clock : ℕ) (writes : Bool) (code : Option Text) (store : CustodyStore)
      (enrollment : Enrollment) (saves : Bool) (now : ℕ) (id : Text) (variant : TransitionVariant)
      (gov : NetworkState)
      → lookup network_id store ≡ some enrollment
      → given_code code ≡ none
      → IsInert gov (
          propose sig key network_id me sign digest
            (passes crypto clock writes network_id code store)
            saves
            now
            id
            variant
            gov)
        × IsInert gov (
            sign_proposal sig key network_id me sign digest
              (passes crypto clock writes network_id code store)
              saves
              id
              gov)
  locked-IsInert crypto clock writes code store enrollment saves now id variant gov e f =
      rw (passes-without_code crypto clock writes network_id code store enrollment e f)
        (propose-locked saves now id variant gov, sign_proposal-locked saves id gov)
