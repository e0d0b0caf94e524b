-- ===== src/Governance/Log/Signatures.antt =====
-- What `verify_transition_signatures` of crates/myownmesh-core/src/network_state.rs decides.
use my_own_mesh.Base.{
  ◌≡◌, refl, ◌≢◌, ◌↔◌, Bool, true, false, not, List, [], ◌∷◌, length, ◌==◌, ==_iff, arith,
}
use my_own_mesh.Base.Results.{ok, ensure, >>=-eq-ok}
use my_own_mesh.Base.Text.{Text}
use my_own_mesh.Governance.{Transition}
use my_own_mesh.Governance.Quorum.{Error}
use my_own_mesh.Governance.Log.{Signing, check_signatures, verify_transition_signatures}

-- Each signer signed the text, in order.
abbrev pub IsSigned : Signing → Text → List Text → List Text → Type 0
IsSigned sig payload [] [] = Unit
IsSigned sig payload (s ∷ signers) (g ∷ signatures) =
    (sig.verify s payload g ≡ ok true) × IsSigned sig payload signers signatures
IsSigned sig payload _ _ = ⊥

-- Somebody signed the transition, and every signer has a signature that verifies over its payload in
-- the network, in order.
abbrev pub AreSigned : Signing → Text → Transition → Type 0
AreSigned sig id t =
    (t.signers ≢ []) × IsSigned sig (sig.payload id t.variant) t.signers t.signatures

ensure-ok : (b : Bool) (e : Error) → ensure b e ≡ ok tt → b ≡ true
ensure-ok true e h = refl
ensure-ok false e h = cc

module _ (sig : Signing) (payload : Text) where
  check→IsSigned :
      (signers signatures : List Text)
      → length signers ≡ length signatures
      → check_signatures sig payload signers signatures ≡ ok tt
      → IsSigned sig payload signers signatures
  unfolding check_signatures
  check→IsSigned [] [] l h = tt
  check→IsSigned [] (g ∷ gs) l h = absurd (omega (arith, l))
  check→IsSigned (s ∷ ss) [] l h = absurd (omega (arith, l))
  check→IsSigned (s ∷ ss) (g ∷ gs) l h =
      let (valid, v, h₁) = >>=-eq-ok (sig.verify s payload g) _ h in
      let (done, w, h₂) = >>=-eq-ok (ensure valid _) _ h₁ in
      let k : valid ≡ true = ensure-ok valid _ w in
      (rw k at v, check→IsSigned ss gs (omega (arith, l)) h₂)

  IsSigned→check :
      (signers signatures : List Text)
      → IsSigned sig payload signers signatures
      → (length signers ≡ length signatures)
        × (check_signatures sig payload signers signatures ≡ ok tt)
  unfolding check_signatures
  IsSigned→check [] [] h = (refl, refl)
  IsSigned→check [] (g ∷ gs) h = absurd h
  IsSigned→check (s ∷ ss) [] h = absurd h
  IsSigned→check (s ∷ ss) (g ∷ gs) h =
      let (l, c) = IsSigned→check ss gs h.1 in (omega (arith, l), rw (h.0, c) refl)

nonempty_iff : (xs : List Text) → (not (length xs == 0) ≡ true) ↔ (xs ≢ [])
nonempty_iff [] = (λ h. cc, λ h. absurd (h refl))
nonempty_iff (x ∷ xs) = (λ h e. cc, λ h. ground arith)

pub verify_transition_signatures_iff :
    (sig : Signing) (id : Text) (t : Transition)
    → (verify_transition_signatures sig id t ≡ ok tt) ↔ AreSigned sig id t
unfolding verify_transition_signatures
verify_transition_signatures_iff sig id t = (
  λ e.
      let (x, a, e₁) = >>=-eq-ok (ensure (length t.signers == length t.signatures) _) _ e in
      let (y, b, e₂) = >>=-eq-ok (ensure (not (length t.signers == 0)) _) _ e₁ in
      (
        (nonempty_iff t.signers).0 (ensure-ok _ _ b),
        check→IsSigned sig (sig.payload id t.variant) t.signers t.signatures
            ((==_iff (length t.signers) (length t.signatures)).0 (ensure-ok _ _ a)) e₂,
      ),
  λ h.
      let (l, c) = IsSigned→check sig (sig.payload id t.variant) t.signers t.signatures h.1 in
      rw ((==_iff (length t.signers) (length t.signatures)).1 l, (nonempty_iff t.signers).1 h.0) c,
)
