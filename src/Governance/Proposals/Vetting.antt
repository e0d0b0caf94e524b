-- ===== src/Governance/Proposals/Vetting.antt =====
-- What it is for a pending proposal to be vetted, and that ratification keeps it.
use my_own_mesh.Base.{
  ℕ, ◌≡◌, refl, Bool, true, false, not, ◌&&◌, inl, inr, List, [], ◌∷◌, ◌++◌, any, find?, first?,
  is_some, is_none, All, Bool-cases, Option-cases, arith,
}
use my_own_mesh.Base.Every.{All-filterb, any-snoc}
use my_own_mesh.Base.Results.{ok}
use my_own_mesh.Base.Text.{Text, text_eq, text_eq_iff}
use my_own_mesh.Governance.{
  TransitionVariant, Transition, Proposal, NetworkState, apply_variant, apply_transition,
  kind_change, role_grant, role_revoke, evict, split, topology_change, unknown,
}
use my_own_mesh.Governance.MemberLog.{is_ok}
use my_own_mesh.Governance.Quorum.{verify_quorum}
use my_own_mesh.Governance.Log.{Signing, verify_transition_signatures}
use my_own_mesh.Governance.Log.Signatures.{IsSigned}
use my_own_mesh.Governance.Proposals.{
  is_proposal, remove_first, rides_member_log, is_evict, candidate, apply_ratified, try_ratify,
}

abbrev pub IsDistinct : List Text → Type 0
IsDistinct [] = Unit
IsDistinct (x ∷ xs) = (any (λ (s : Text). text_eq s x) xs ≡ false) × IsDistinct xs

pub IsSigned-snoc :
    (sig : Signing) (payload : Text) (signers signatures : List Text) (s g : Text)
    → IsSigned sig payload signers signatures
    → sig.verify s payload g ≡ ok true
    → IsSigned sig payload (signers ++ s ∷ []) (signatures ++ g ∷ [])
IsSigned-snoc sig payload [] [] s g h v = (v, tt)
IsSigned-snoc sig payload (x ∷ xs) (y ∷ ys) s g h v =
    (h.0, IsSigned-snoc sig payload xs ys s g h.1 v)
IsSigned-snoc sig payload [] (y ∷ ys) s g h v = absurd h
IsSigned-snoc sig payload (x ∷ xs) [] s g h v = absurd h

pub IsDistinct-snoc :
    (xs : List Text) (x : Text)
    → IsDistinct xs
    → any (λ (s : Text). text_eq s x) xs ≡ false
    → IsDistinct (xs ++ x ∷ [])
IsDistinct-snoc [] x h e = (refl, tt)
IsDistinct-snoc (y ∷ xs) x h e = (
  ground
      (arith, h.0, any-snoc (λ (s : Text). text_eq s y) xs x, text_eq_iff x y, text_eq_iff y x, e),
  IsDistinct-snoc xs x h.1 (ground (arith, e)),
)

module _ (sig : Signing) (key : Transition → Text) (network_id : Text) where
  -- Somebody signed, each once, and every signature verifies.
  abbrev pub IsVetted : Proposal → Type 0
  IsVetted p =
      IsSigned sig (sig.payload network_id p.variant) p.signers p.signatures
      × IsDistinct p.signers
      × (is_some (first? p.signers) ≡ true)

  pub AreVetted-remove_first :
      (id : Text) (ps : List Proposal) → All IsVetted ps → All IsVetted (remove_first id ps)
  unfolding remove_first
  AreVetted-remove_first id [] h = tt
  AreVetted-remove_first id (p ∷ ps) h = elim (Bool-cases (is_proposal id p)) [
    | inl e ↦ rw (remove_first, e) h.1
    | inr e ↦ rw (remove_first, e) (h.0, AreVetted-remove_first id ps h.1)
  ]

  pub pending_apply_transition :
      (gov : NetworkState) (t : Transition) → (apply_transition gov t).pending ≡ gov.pending
  unfolding apply_transition
  pending_apply_transition gov t = of_variant t.variant t.at t.signers gov
    where
      of_variant :
          (variant : TransitionVariant) (at : ℕ) (signers : List Text) (s : NetworkState)
          → (apply_variant variant at signers s).pending ≡ s.pending
      of_variant (kind_change to) at signers s = refl
      of_variant (role_grant target role) at signers s = refl
      of_variant (role_revoke target) at signers s = refl
      of_variant (evict target) at signers s = refl
      of_variant (split id ms) at signers s = refl
      of_variant (topology_change to) at signers s = refl
      of_variant unknown at signers s = refl

  pending_apply_ratified :
      (gov : NetworkState) (t : Transition)
      → (apply_ratified sig key network_id gov t).pending ≡ gov.pending
  unfolding apply_ratified
  pending_apply_ratified gov t = elim (Bool-cases (rides_member_log gov t.variant)) [
    | inl e ↦ rw (apply_ratified, e) refl
    | inr e ↦ elim (Bool-cases (is_evict t.variant)) [
      | inl f ↦ rw (apply_ratified, e, f) (pending_apply_transition gov t)
      | inr f ↦ rw (apply_ratified, e, f) (pending_apply_transition gov t)
    ]
  ]

  -- The check of a proposal that is about to be ratified.
  abbrev passes : NetworkState → Proposal → Bool
  passes gov p =
      is_ok (verify_transition_signatures sig network_id (candidate sig key network_id p))
      && is_ok (verify_quorum gov (candidate sig key network_id p))

  pub AreVetted-try_ratify :
      (gov : NetworkState) (id : Text)
      → All IsVetted gov.pending
      → All IsVetted (try_ratify sig key network_id gov id).0.pending
  unfolding try_ratify
  AreVetted-try_ratify gov id h = elim (Option-cases (find? (is_proposal id) gov.pending)) [
    | inl e ↦ rw (try_ratify, e) h
    | inr (p, e) ↦ elim (Bool-cases (not (is_none (first? p.deniers)))) [
      | inl f ↦ rw (try_ratify, e, f) (AreVetted-remove_first id gov.pending h)
      | inr f ↦ elim (Bool-cases (passes gov p)) [
        | inl g ↦
            rw (try_ratify, e, f, g)
              (All-filterb IsVetted (λ (q : Proposal). not (is_proposal id q))
                (apply_ratified sig key network_id gov (candidate sig key network_id p)).pending
                (rw (pending_apply_ratified gov (candidate sig key network_id p)) h))
        | inr g ↦ rw (try_ratify, e, f, g) h
      ]
    ]
  ]
