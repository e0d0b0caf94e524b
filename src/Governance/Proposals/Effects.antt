-- ===== src/Governance/Proposals/Effects.antt =====
-- What `try_ratify` of crates/myownmesh-core/src/engine/governance.rs leaves, whatever it decides.
use my_own_mesh.Base.{
  ◌≡◌, refl, Bool, true, not, ◌&&◌, ◌⊎◌, inl, inr, Option, none, some, List, [], ◌∷◌, ◌++◌, find?,
  filterb, first?, is_none, if◌then◌else◌, Some, here, there, Bool-cases, Option-cases, arith,
}
use my_own_mesh.Base.Results.{Result, ok, err}
use my_own_mesh.Base.Text.{Text, text_ordered}
use my_own_mesh.Base.TreeMap.{IsSorted}
use my_own_mesh.Governance.{Transition, Proposal, NetworkState}
use my_own_mesh.Governance.MemberLog.{is_ok}
use my_own_mesh.Governance.Quorum.{Error, verify_quorum}
use my_own_mesh.Governance.Quorum.Authority.{HasQuorum, verify_quorum-HasQuorum}
use my_own_mesh.Governance.Log.{Signing, verify_transition_signatures}
use my_own_mesh.Governance.Log.Replay.{apply-log}
use my_own_mesh.Governance.Log.Signatures.{AreSigned, verify_transition_signatures_iff}
use my_own_mesh.Governance.Proposals.{
  is_proposal, rides_member_log, is_evict, log_member, apply_ratified, candidate, try_ratify,
}

is_ok→ok : (r : Result Error (Unit {0})) → is_ok r ≡ true → r ≡ ok tt
is_ok→ok (ok done) h = refl
is_ok→ok (err e) h = cc

is_none→nil : (xs : List Text) → is_none (first? xs) ≡ true → xs ≡ []
is_none→nil [] h = refl
is_none→nil (x ∷ xs) h = cc

module _ {A : Type 0} {P : A → Type 0} where
  pub Some-last : (xs : List A) (x : A) → P x → Some P (xs ++ x ∷ [])
  Some-last [] x p = here p
  Some-last (y ∷ xs) x p = there (Some-last xs x p)

  Some-left : (xs ys : List A) → Some P xs → Some P (xs ++ ys)
  Some-left [] ys s = elim s [ ]
  Some-left (x ∷ xs) ys (here p) = here p
  Some-left (x ∷ xs) ys (there s) = there (Some-left xs ys s)

  Some-right : (xs ys : List A) → Some P ys → Some P (xs ++ ys)
  Some-right [] ys s = s
  Some-right (x ∷ xs) ys s = there (Some-right xs ys s)

module _ (sig : Signing) (key : Transition → Text) (network_id : Text) where
  -- Whether the candidate's signatures and quorum pass.
  abbrev pub passes : NetworkState → Transition → Bool
  passes gov c =
      is_ok (verify_transition_signatures sig network_id c) && is_ok (verify_quorum gov c)

  abbrev pub ratify : NetworkState → Text → Transition → NetworkState × Option Transition
  ratify gov id c = (
    record (apply_ratified sig key network_id gov c) {
      pending =
          filterb (λ (q : Proposal). not (is_proposal id q))
            (apply_ratified sig key network_id gov c).pending;
    },
    some c,
  )

  pub try_ratify-judged :
      (gov : NetworkState) (id : Text) (p : Proposal)
      → find? (is_proposal id) gov.pending ≡ some p
      → is_none (first? p.deniers) ≡ true
      → try_ratify sig key network_id gov id ≡ (
          if passes gov (candidate sig key network_id p)
          then ratify gov id (candidate sig key network_id p)
          else (gov, none))
  unfolding try_ratify
  try_ratify-judged gov id p e f = rw (try_ratify, e, f) refl

  -- The state in which the candidate of a pending proposal that nobody denied was applied, with that
  -- transition: somebody signed it, every signature verifies, and it has the quorum.
  abbrev pub IsQuorate : NetworkState → Text → NetworkState × Option Transition → Type 0
  IsQuorate gov id r =
      (p : Proposal) × (find? (is_proposal id) gov.pending ≡ some p)
      × (p.deniers ≡ [])
      × AreSigned sig network_id (candidate sig key network_id p)
      × HasQuorum gov (candidate sig key network_id p).variant
          (candidate sig key network_id p).signers
      × (r ≡ ratify gov id (candidate sig key network_id p))

  -- Nothing was ratified, and the state is as before but for its pending proposals.
  abbrev pub IsUnratified : NetworkState → NetworkState × Option Transition → Type 0
  IsUnratified gov r = (r.1 ≡ none) × (r.0 ≡ record gov { pending = r.0.pending })

  -- When the roles are a map, `try_ratify` either ratifies nothing and leaves all but the pending
  -- proposals as it was, or it applies the candidate of a pending proposal that nobody denied, which
  -- has at least one signer, only signatures that verify, and the quorum.
  pub try_ratify-IsQuorate :
      (gov : NetworkState) (id : Text)
      → IsSorted gov.roles
      → IsUnratified gov (try_ratify sig key network_id gov id)
        ⊎ IsQuorate gov id (try_ratify sig key network_id gov id)
  unfolding try_ratify
  try_ratify-IsQuorate gov id sorted = elim (Option-cases (find? (is_proposal id) gov.pending)) [
    | inl e ↦ inl (rw (try_ratify, e) refl, rw (try_ratify, e) refl)
    | inr (p, e) ↦ elim (Bool-cases (is_none (first? p.deniers))) [
      | inr f ↦ inl (rw (try_ratify, e, f) refl, rw (try_ratify, e, f) refl)
      | inl f ↦ judged p e f
    ]
  ]
    where
      judged :
          (p : Proposal)
          → find? (is_proposal id) gov.pending ≡ some p
          → is_none (first? p.deniers) ≡ true
          → IsUnratified gov (try_ratify sig key network_id gov id)
            ⊎ IsQuorate gov id (try_ratify sig key network_id gov id)
      judged p e f =
          let c : Transition = candidate sig key network_id p in
          elim (Bool-cases (passes gov c)) [
            | inr g ↦ inl (rw (try_ratify, e, f, g) refl, rw (try_ratify, e, f, g) refl)
            | inl g ↦
                let signed : is_ok (verify_transition_signatures sig network_id c) ≡ true =
                  ground (arith, g) in
                let quorate : is_ok (verify_quorum gov c) ≡ true = ground (arith, g) in
                inr (
                  p,
                  e,
                  is_none→nil p.deniers f,
                  (verify_transition_signatures_iff sig network_id c).0
                      (is_ok→ok (verify_transition_signatures sig network_id c) signed),
                  (verify_quorum-HasQuorum gov c sorted).0 (is_ok→ok (verify_quorum gov c) quorate),
                  rw (try_ratify, e, f, g) refl,
                )
          ]

  -- A transition that is applied is in one of the two logs.
  pub logged :
      {P : Transition → Type 0} (gov : NetworkState) (t : Transition)
      → P t
      → Some P (
          (apply_ratified sig key network_id gov t).transitions
          ++ (apply_ratified sig key network_id gov t).member_log)
  unfolding apply_ratified log_member
  logged gov t p = elim (Bool-cases (rides_member_log gov t.variant)) [
    | inl e ↦
        rw (apply_ratified, e)
          (Some-right gov.transitions (gov.member_log ++ t ∷ []) (Some-last gov.member_log t p))
    | inr e ↦ elim (Bool-cases (is_evict t.variant)) [
      | inl f ↦
          rw (apply_ratified, e, f, (apply-log gov t).0)
            (Some-left (gov.transitions ++ t ∷ []) _ (Some-last gov.transitions t p))
      | inr f ↦
          rw (apply_ratified, e, f, (apply-log gov t).0)
            (Some-left (gov.transitions ++ t ∷ []) _ (Some-last gov.transitions t p))
    ]
  ]
