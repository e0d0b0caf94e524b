-- ===== src/Governance/Adoption/Extension.antt =====
-- How a peer's log may replace ours: `adopt_transition_log` and `same_signer_set` of
-- crates/myownmesh-core/src/engine/governance.rs.
use my_own_mesh.Base.{
  ◌≡◌, refl, sym, ap, ◌∙◌, ◌<◌, true, false, ◌⊎◌, inl, inr, List, [], ◌∷◌, length, any, ◌==◌,
  ==_iff, Bool-cases, arith,
}
use my_own_mesh.Base.Results.{ok}
use my_own_mesh.Base.Text.{Text, text_eq, text_eq_iff, text_ordered}
use my_own_mesh.Base.TreeSet.{set_of, any-set_of}
use my_own_mesh.Governance.{
  NetworkKind, open_kind, closed, silent, Role, member, controller, owner, role_eq,
  TransitionVariant, kind_change, role_grant, role_revoke, evict, split, topology_change, unknown,
  Transition, NetworkState, texts_eq,
}
use my_own_mesh.Governance.Equality.{texts_eq→eq, topology_eq→eq}
use my_own_mesh.Governance.Log.{Signing, verify_log}
use my_own_mesh.Governance.Proposals.{same_signer_set}
use my_own_mesh.Governance.Adoption.{kind_eq, variant_eq, shares_prefix, adopt_transition_log}
use my_own_mesh.Governance.Adoption.Convergence.{adopted-extends}

-- The same devices, and as many signers.
abbrev pub HasSameSigners : Transition → Transition → Type 0
HasSameSigners a b =
    (length a.signers ≡ length b.signers)
    × ((p : Text) → any (text_eq p) a.signers ≡ any (text_eq p) b.signers)

-- Each of our entries has one with the same variant and the same signers at its place.
abbrev pub HasPrefix : List Transition → List Transition → Type 0
HasPrefix incoming [] = Unit
HasPrefix [] (b ∷ local) = ⊥
HasPrefix (a ∷ incoming) (b ∷ local) =
    (a.variant ≡ b.variant) × HasSameSigners a b × HasPrefix incoming local

kind_eq→eq : (a b : NetworkKind) → kind_eq a b ≡ true → a ≡ b
kind_eq→eq open_kind open_kind h = refl
kind_eq→eq closed closed h = refl
kind_eq→eq silent silent h = refl
kind_eq→eq _ _ h = cc

role_eq→eq : (a b : Role) → role_eq a b ≡ true → a ≡ b
role_eq→eq member member h = refl
role_eq→eq controller controller h = refl
role_eq→eq owner owner h = refl
role_eq→eq _ _ h = cc

variant_eq→eq : (a b : TransitionVariant) → variant_eq a b ≡ true → a ≡ b
unfolding variant_eq
variant_eq→eq (kind_change a) (kind_change b) h = ap kind_change (kind_eq→eq a b h)
variant_eq→eq (role_grant a r) (role_grant b q) h = ground (arith, text_eq_iff a b, role_eq→eq r q)
variant_eq→eq (role_revoke a) (role_revoke b) h = ap role_revoke ((text_eq_iff a b).0 h)
variant_eq→eq (evict a) (evict b) h = ap evict ((text_eq_iff a b).0 h)
variant_eq→eq (split a xs) (split b ys) h = ground (arith, text_eq_iff a b, texts_eq→eq xs ys)
variant_eq→eq (topology_change a) (topology_change b) h = ap topology_change (topology_eq→eq a b h)
variant_eq→eq unknown unknown h = refl
variant_eq→eq _ _ h = cc

same_signer_set→HasSameSigners :
    (a b : Transition) → same_signer_set a b ≡ true → HasSameSigners a b
unfolding same_signer_set
same_signer_set→HasSameSigners a b h = elim (Bool-cases (length a.signers == length b.signers)) [
  | inr e ↦ let k : false ≡ true = rw (same_signer_set, e) at h in cc
  | inl e ↦
      let sets : texts_eq (set_of a.signers) (set_of b.signers) ≡ true =
        rw (same_signer_set, e) at h in
      (
        (==_iff (length a.signers) (length b.signers)).0 e,
        λ p.
            sym (any-set_of (text_eq p) a.signers)
            ∙ ap (any (text_eq p)) (texts_eq→eq (set_of a.signers) (set_of b.signers) sets)
            ∙ any-set_of (text_eq p) b.signers,
      )
]

shares_prefix→HasPrefix :
    (incoming local : List Transition)
    → length local < length incoming
    → shares_prefix incoming local ≡ true
    → HasPrefix incoming local
unfolding shares_prefix
shares_prefix→HasPrefix incoming [] l h = tt
shares_prefix→HasPrefix [] (b ∷ local) l h = absurd (omega (arith, l))
shares_prefix→HasPrefix (a ∷ incoming) (b ∷ local) l h =
    let v : variant_eq a.variant b.variant ≡ true = ground (arith, h) in
    let s : same_signer_set a b ≡ true = ground (arith, h) in
    let rest : shares_prefix incoming local ≡ true = ground (arith, h) in
    (
      variant_eq→eq a.variant b.variant v,
      same_signer_set→HasSameSigners a b s,
      shares_prefix→HasPrefix incoming local (omega (arith, l)) rest,
    )

module _ (sig : Signing) (key : Transition → Text) (network_id : Text) where
  -- The governance log is left as it is, or it is replaced by the incoming one when that is longer,
  -- verifies, and has, at the place of each of our entries, one with the same variant and the same
  -- signers.
  pub adopted-IsExtension :
      (incoming incoming_members : List Transition) (gov : NetworkState)
      → ((adopt_transition_log sig key network_id incoming incoming_members gov).gov.transitions
          ≡ gov.transitions)
        ⊎ (((adopt_transition_log sig key network_id incoming incoming_members gov).gov.transitions
              ≡ incoming)
            × (length gov.transitions < length incoming)
            × HasPrefix incoming gov.transitions
            × (s : NetworkState) × (verify_log sig network_id incoming ≡ ok s))
  adopted-IsExtension incoming incoming_members gov =
      elim (adopted-extends sig key network_id incoming incoming_members gov) [
        | inl kept ↦ inl kept
        | inr (taken, e, s, v) ↦
            let longer : length gov.transitions < length incoming = ground (arith, e) in
            let shared : shares_prefix incoming gov.transitions ≡ true = ground (arith, e) in
            inr
              (taken, longer, shares_prefix→HasPrefix incoming gov.transitions longer shared, s, v)
      ]
