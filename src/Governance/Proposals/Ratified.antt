-- ===== src/Governance/Proposals/Ratified.antt =====
-- What decides over a pending proposal: `try_ratify` and `on_ack` of
-- crates/myownmesh-core/src/engine/governance.rs.
use my_own_mesh.Base.{
  ℕ, ◌≡◌, refl, sym, ap, ◌∙◌, Bool, true, false, not, inl, inr, Option, none, some, List, [], ◌∷◌,
  ◌++◌, any, find?, update_first, first?, is_some, is_none, All, length, ◌==◌, ==_iff,
  if◌then◌else◌, Bool-cases, arith,
}
use my_own_mesh.Base.Every.{All-find?, find?-update_first}
use my_own_mesh.Base.Results.{ok}
use my_own_mesh.Base.Sorting.{sort, All-sort, length-sort}
use my_own_mesh.Base.Text.{Text, text_eq}
use my_own_mesh.Governance.{Transition, Proposal, NetworkState}
use my_own_mesh.Governance.MemberLog.{is_ok}
use my_own_mesh.Governance.Quorum.{verify_quorum}
use my_own_mesh.Governance.Log.{Signing, check_signatures, verify_transition_signatures}
use my_own_mesh.Governance.Proposals.{
  is_proposal, remove_first, zip, unzip, signer_le, canonicalize_signers, candidate, try_ratify,
}
use my_own_mesh.Governance.Proposals.Local.{denied_by, add_denier, with_proposal, deny_payload}
use my_own_mesh.Governance.Proposals.Inbound.{verified, on_deny}
use my_own_mesh.Governance.Proposals.Vetting.{IsVetted}
use my_own_mesh.Governance.Log.Signatures.{IsSigned}
use my_own_mesh.Topology.{pubkey_part}

module _ (sig : Signing) (payload : Text) where
  -- A signer and its signature, which verifies.
  abbrev Verifies : Text × Text → Type 0
  Verifies pair = sig.verify pair.0 payload pair.1 ≡ ok true

  IsSigned→All : (xs ys : List Text) → IsSigned sig payload xs ys → All Verifies (zip xs ys)
  IsSigned→All [] [] h = tt
  IsSigned→All (x ∷ xs) (y ∷ ys) h = (h.0, IsSigned→All xs ys h.1)
  IsSigned→All [] (y ∷ ys) h = absurd h
  IsSigned→All (x ∷ xs) [] h = absurd h

  length-IsSigned :
      (xs ys : List Text)
      → IsSigned sig payload xs ys
      → (length xs ≡ length ys) × (length (zip xs ys) ≡ length xs)
  length-IsSigned [] [] h = (refl, refl)
  length-IsSigned (x ∷ xs) (y ∷ ys) h =
      let (e, f) = length-IsSigned xs ys h.1 in (omega (arith, e), omega (arith, f))
  length-IsSigned [] (y ∷ ys) h = absurd h
  length-IsSigned (x ∷ xs) [] h = absurd h

  check-All :
      (pairs : List (Text × Text))
      → All Verifies pairs
      → check_signatures sig payload (unzip pairs).0 (unzip pairs).1 ≡ ok tt
  unfolding check_signatures
  check-All [] h = refl
  check-All (p ∷ pairs) h = rw (h.0, check-All pairs h.1) refl

length-unzip :
    (pairs : List (Text × Text))
    → (length (unzip pairs).0 ≡ length pairs) × (length (unzip pairs).1 ≡ length pairs)
length-unzip [] = (refl, refl)
length-unzip (p ∷ pairs) = let (e, f) = length-unzip pairs in (omega (arith, e), omega (arith, f))

is_some-length : (xs : List Text) → is_some (first? xs) ≡ true → (length xs == 0) ≡ false
is_some-length [] h = cc
is_some-length (x ∷ xs) h = ground arith

any-is_some : (t : Text → Bool) (xs : List Text) → any t xs ≡ true → is_none (first? xs) ≡ false
any-is_some t [] h = cc
any-is_some t (x ∷ xs) h = refl

is_none-snoc : (xs : List Text) (x : Text) → is_none (first? (xs ++ x ∷ [])) ≡ false
is_none-snoc [] x = refl
is_none-snoc (y ∷ xs) x = refl

module _ (sig : Signing) (key : Transition → Text) (network_id : Text) where
  -- The pairs of a proposal in the order of its candidate transition.
  abbrev ordered : Proposal → List (Text × Text)
  ordered p =
      sort (λ (a b : Text × Text). signer_le p.proposer a.0 b.0) (zip p.signers p.signatures)

  candidate-ordered :
      (p : Proposal)
      → IsVetted sig key network_id p
      → candidate sig key network_id p ≡ record {
        at = p.created_at;
        variant = p.variant;
        signers = (unzip (ordered p)).0;
        signatures = (unzip (ordered p)).1;
      }
  unfolding candidate canonicalize_signers
  candidate-ordered p h =
      let e : (length p.signers == length p.signatures) ≡ true =
        (==_iff (length p.signers) (length p.signatures)).1
          (length-IsSigned sig (sig.payload network_id p.variant) p.signers p.signatures h.0).0 in
      rw e refl

  candidate-verifies :
      (p : Proposal)
      → IsVetted sig key network_id p
      → verify_transition_signatures sig network_id (candidate sig key network_id p) ≡ ok tt
  unfolding verify_transition_signatures
  candidate-verifies p h =
      let payload : Text = sig.payload network_id p.variant in
      let checked : check_signatures sig payload (unzip (ordered p)).0 (unzip (ordered p)).1
          ≡ ok tt =
        check-All sig payload (ordered p) (
          All-sort _ (Verifies sig payload) (zip p.signers p.signatures)
            (IsSigned→All sig payload p.signers p.signatures h.0)) in
      rw (candidate-ordered p h, balanced (ordered p), ap not (nonempty p h)) checked
    where
      balanced :
          (pairs : List (Text × Text)) → (length (unzip pairs).0 == length (unzip pairs).1) ≡ true
      balanced pairs =
          let (e, f) = length-unzip pairs in
          (==_iff (length (unzip pairs).0) (length (unzip pairs).1)).1 (e ∙ sym f)

      nonempty :
          (q : Proposal)
          → IsVetted sig key network_id q
          → (length (unzip (ordered q)).0 == 0) ≡ false
      nonempty q v =
          ap (λ (n : ℕ). n == 0)
            ((length-unzip (ordered q)).0
              ∙ length-sort (λ (a b : Text × Text). signer_le q.proposer a.0 b.0)
                  (zip q.signers q.signatures)
              ∙ (length-IsSigned sig (sig.payload network_id q.variant) q.signers q.signatures
                  v.0).1)
          ∙ is_some-length q.signers v.2

  -- Of a vetted proposal that nobody denied, the quorum alone decides whether it is ratified: the
  -- signatures are never what stops it.
  pub quorum_decides :
      (gov : NetworkState) (id : Text) (p : Proposal)
      → All (IsVetted sig key network_id) gov.pending
      → find? (is_proposal id) gov.pending ≡ some p
      → is_none (first? p.deniers) ≡ true
      → (try_ratify sig key network_id gov id).1 ≡ (
          if is_ok (verify_quorum gov (candidate sig key network_id p))
          then some (candidate sig key network_id p)
          else none)
  unfolding try_ratify
  quorum_decides gov id p h e f =
      let vetted : IsVetted sig key network_id p =
        All-find? (IsVetted sig key network_id) (is_proposal id) gov.pending p h e in
      elim (Bool-cases (is_ok (verify_quorum gov (candidate sig key network_id p)))) [
        | inl g ↦ rw (try_ratify, e, f, candidate-verifies p vetted, g) refl
        | inr g ↦ rw (try_ratify, e, f, candidate-verifies p vetted, g) refl
      ]

  remove_first-add_denier :
      (id signer : Text) (ps : List Proposal)
      → remove_first id (update_first (is_proposal id) (add_denier signer) ps) ≡ remove_first id ps
  unfolding remove_first
  remove_first-add_denier id signer [] = refl
  remove_first-add_denier id signer (p ∷ ps) = ground (arith, remove_first-add_denier id signer ps)

  -- A proposal with a denier goes when it is looked at.
  try_ratify-denied :
      (gov : NetworkState) (id : Text) (p : Proposal)
      → find? (is_proposal id) gov.pending ≡ some p
      → is_none (first? p.deniers) ≡ false
      → try_ratify sig key network_id gov id
        ≡ (record gov { pending = remove_first id gov.pending }, none)
  unfolding try_ratify
  try_ratify-denied gov id p e f = rw (try_ratify, e, f) refl

  -- One denial that its signer signed takes a pending proposal away, whoever signed it before, and
  -- changes nothing else.
  on_deny-remove_first :
      (peer_id id signer signature : Text) (gov : NetworkState) (p : Proposal)
      → find? (is_proposal id) gov.pending ≡ some p
      → text_eq signer (pubkey_part peer_id) ≡ true
      → verified sig key network_id signer (deny_payload network_id id signer) signature ≡ true
      → on_deny sig key network_id peer_id id signer signature gov
        ≡ record gov { pending = remove_first id gov.pending }
  unfolding on_deny
  on_deny-remove_first peer_id id signer signature gov p e own v =
      elim (Bool-cases (denied_by signer p)) [
        | inl d ↦
            rw (on_deny, own, e, v, d)
              (ap (λ (r : NetworkState × Option Transition). r.0)
                (try_ratify-denied gov id p e
                  (any-is_some (λ (s : Text). text_eq s signer) p.deniers d)))
        | inr d ↦
            rw (on_deny, own, e, v, d)
              (ap (λ (r : NetworkState × Option Transition). r.0)
                  (try_ratify-denied (with_proposal id (add_denier signer) gov) id
                    (add_denier signer p)
                    (find?-update_first (is_proposal id) (add_denier signer) (λ q. refl) gov.pending
                      p e)
                    (is_none-snoc p.deniers signer))
                ∙ ap (λ (ps : List Proposal). record gov { pending = ps })
                    (remove_first-add_denier id signer gov.pending))
      ]
