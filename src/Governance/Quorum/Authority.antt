-- ===== src/Governance/Quorum/Authority.antt =====
-- `verify_quorum` decides one rule: a signer acts on a tier that its own role may grant.
use mathlib.Core.Path.{fun_ext}
use my_own_mesh.Governance.Equality.{topology_eq_iff}
use my_own_mesh.Base.{
  ap, Option-cases, ◌≡◌, refl, ◌≢◌, ◌↔◌, ◌∙◌, Bool, true, false, not, some, List, [], ◌∷◌, map,
  length, filterb, unwrap_or, Some, any-Some, All, Bool-cases, arith, ◌==◌, ==_iff, inl, inr,
}
use my_own_mesh.Base.Results.{ok, ensure}
use my_own_mesh.Base.Text.{Text, text_ordered, text_eq_iff}
use my_own_mesh.Base.TreeMap.{TreeMap, lookup, IsSorted, lookup-Above}
use my_own_mesh.Base.TreeSet.{set_of, contains, any-set_of, set_of-eq-nil, length-set_of_one}
use my_own_mesh.Governance.{
  NetworkKind, open_kind, closed, silent, Role, member, controller, owner, can_grant, TopologyMode,
  TransitionVariant, kind_change, role_grant, role_revoke, evict, split, topology_change, unknown,
  Transition, NetworkState, role_of,
}
use my_own_mesh.Governance.Quorum.{
  Error, is_owner, is_authority, owners, quorum_kind_change, quorum_role_grant, quorum_removal,
  quorum_role_revoke, quorum_evict, quorum_split, is_current_topology, quorum_topology_change,
  controllers_and_owners, signed_by, quorum_of, verify_quorum,
}

-- Some signer holds a role that may grant `target`.
abbrev pub Commands : NetworkState → Role → List Text → Type 0
Commands s target signers = Some (λ p. can_grant (role_of s p) target ≡ true) signers

-- The quorum table as one rule for each kind of transition.
abbrev pub HasQuorum : NetworkState → TransitionVariant → List Text → Type 0
HasQuorum s (kind_change closed) signers = (s.kind ≡ open_kind) × (signers ≢ [])
HasQuorum s (kind_change open_kind) signers = (s.kind ≡ closed) × Commands s owner signers
HasQuorum s (kind_change silent) signers = ⊥
HasQuorum s (role_grant target role) signers = s.kind ≡ closed → Commands s role signers
HasQuorum s (role_revoke target) signers = s.kind ≡ closed → Commands s (role_of s target) signers
HasQuorum s (evict target) signers = s.kind ≡ closed → Commands s (role_of s target) signers
HasQuorum s (split new_network_id members) signers =
    (signers ≢ []) × ((a : Text) × All (λ p. p ≡ a) signers)
HasQuorum s (topology_change to) signers =
    (s.kind ≡ closed) × (s.topology ≢ some to) × Commands s owner signers
HasQuorum s unknown signers = ⊥

contains-holders :
    (test : Role → Bool) (p : Text) (m : TreeMap Text Role)
    → test member ≡ false
    → IsSorted m
    → contains (map (λ e. e.0) (filterb (λ e. test e.1) m)) p ≡ test (unwrap_or (lookup p m) member)
unfolding lookup contains
contains-holders test p [] h s = rw h
contains-holders test p ((j, r) ∷ m) h s =
    ground (arith, contains-holders test p m h s.1, text_eq_iff p j, lookup-Above j m s.0)

module _ (s : NetworkState) (sorted : IsSorted s.roles) where
  contains-owners : (p : Text) → contains (owners s) p ≡ can_grant (role_of s p) owner
  unfolding owners role_of can_grant
  contains-owners p = contains-holders is_owner p s.roles refl sorted ∙ ground arith

  pub contains-authorities :
      (p : Text) → contains (controllers_and_owners s) p ≡ can_grant (role_of s p) controller
  unfolding controllers_and_owners role_of can_grant
  contains-authorities p = contains-holders is_authority p s.roles refl sorted ∙ ground arith

  signed_by-Commands :
      (tier : List Text) (r : Role) (signers : List Text)
      → ((p : Text) → contains tier p ≡ can_grant (role_of s p) r)
      → (signed_by tier (set_of signers) ≡ true) ↔ Commands s r signers
  unfolding signed_by
  signed_by-Commands tier r signers h =
      rw (any-set_of (contains tier) signers, fun_ext h)
        (any-Some (λ p. can_grant (role_of s p) r) signers)

  owners-Commands :
      (signers : List Text)
      → (signed_by (owners s) (set_of signers) ≡ true) ↔ Commands s owner signers
  owners-Commands signers = signed_by-Commands (owners s) owner signers contains-owners

  authorities-Commands :
      (r : Role) (signers : List Text)
      → r ≢ owner
      → (signed_by (controllers_and_owners s) (set_of signers) ≡ true) ↔ Commands s r signers
  unfolding can_grant
  authorities-Commands r signers h =
      signed_by-Commands (controllers_and_owners s) r signers
        (λ p. contains-authorities p ∙ ground arith)

  ensure_iff : {P : Type 0} (b : Bool) (e : Error) → (b ≡ true) ↔ P → (ensure b e ≡ ok tt) ↔ P
  ensure_iff true e h = (λ _. h.0 refl, λ _. refl)
  ensure_iff false e h = (λ x. cc, λ p. absurd (false_ne (h.1 p)))
    where
      false_ne : false ≢ true
      false_ne x = cc

  founder_iff : (signers : List Text) → (not (length (set_of signers) == 0) ≡ true) ↔ (signers ≢ [])
  unfolding set_of
  founder_iff [] = (λ h. cc, λ h. absurd (h refl))
  founder_iff (x ∷ xs) =
      (λ h e. cc, λ h. ground (arith, non_empty (set_of (x ∷ xs)) (set_of-eq-nil (x ∷ xs))))
    where
      non_empty : (ys : List Text) → (ys ≡ [] → x ∷ xs ≡ []) → (length ys == 0) ≡ false
      non_empty [] f = cc (f refl)
      non_empty (y ∷ ys) f = ground arith

  kind_change_iff :
      (to k : NetworkKind) (signers : List Text)
      → s.kind ≡ k
      → (quorum_kind_change s to k (set_of signers) ≡ ok tt) ↔ HasQuorum s (kind_change to) signers
  unfolding quorum_kind_change
  kind_change_iff closed open_kind signers e =
      ensure_iff _ _ (λ h. (e, (founder_iff signers).0 h), λ h. (founder_iff signers).1 h.1)
  kind_change_iff open_kind closed signers e =
      ensure_iff _ _ (λ h. (e, (owners-Commands signers).0 h), λ h. (owners-Commands signers).1 h.1)
  kind_change_iff closed closed signers e = (λ h. cc, λ h. cc (h.0))
  kind_change_iff closed silent signers e = (λ h. cc, λ h. cc (h.0))
  kind_change_iff open_kind open_kind signers e = (λ h. cc, λ h. cc (h.0))
  kind_change_iff open_kind silent signers e = (λ h. cc, λ h. cc (h.0))
  kind_change_iff silent _ signers e = (λ h. cc, λ h. absurd h)

  role_grant_iff :
      (target : Text) (r : Role) (k : NetworkKind) (signers : List Text)
      → s.kind ≡ k
      → (quorum_role_grant s r k (set_of signers) ≡ ok tt)
        ↔ HasQuorum s (role_grant target r) signers
  unfolding quorum_role_grant
  role_grant_iff target owner closed signers e =
      ensure_iff _ _ (λ h _. (owners-Commands signers).0 h, λ h. (owners-Commands signers).1 (h e))
  role_grant_iff target controller closed signers e =
      let c = authorities-Commands controller signers (λ x. cc) in
      ensure_iff _ _ (λ h _. c.0 h, λ h. c.1 (h e))
  role_grant_iff target member closed signers e =
      let c = authorities-Commands member signers (λ x. cc) in
      ensure_iff _ _ (λ h _. c.0 h, λ h. c.1 (h e))
  role_grant_iff target member open_kind signers e = (λ _ x. cc, λ _. refl)
  role_grant_iff target member silent signers e = (λ _ x. cc, λ _. refl)
  role_grant_iff target controller open_kind signers e = (λ _ x. cc, λ _. refl)
  role_grant_iff target controller silent signers e = (λ _ x. cc, λ _. refl)
  role_grant_iff target owner _ signers e = (λ _ x. cc, λ _. refl)

  removal_iff :
      (r : Role) (signers : List Text) (e f : Error)
      → (quorum_removal s r (set_of signers) e f ≡ ok tt) ↔ Commands s r signers
  unfolding quorum_removal
  removal_iff owner signers e f = ensure_iff _ _ (owners-Commands signers)
  removal_iff controller signers e f =
      ensure_iff _ _ (authorities-Commands controller signers (λ x. cc))
  removal_iff member signers e f = ensure_iff _ _ (authorities-Commands member signers (λ x. cc))

  role_revoke_iff :
      (target : Text) (k : NetworkKind) (signers : List Text)
      → s.kind ≡ k
      → (quorum_role_revoke s target k (set_of signers) ≡ ok tt)
        ↔ HasQuorum s (role_revoke target) signers
  unfolding quorum_role_revoke
  role_revoke_iff target closed signers e =
      let c = removal_iff (role_of s target) signers _ _ in (λ h _. c.0 h, λ h. c.1 (h e))
  role_revoke_iff target _ signers e = (λ _ x. cc, λ _. refl)

  evict_iff :
      (target : Text) (k : NetworkKind) (signers : List Text)
      → s.kind ≡ k
      → (quorum_evict s target k (set_of signers) ≡ ok tt) ↔ HasQuorum s (evict target) signers
  unfolding quorum_evict
  evict_iff target closed signers e =
      let c = removal_iff (role_of s target) signers _ _ in (λ h _. c.0 h, λ h. c.1 (h e))
  evict_iff target _ signers e = (λ _ x. cc, λ _. refl)

  split_iff :
      (id : Text) (ms signers : List Text)
      → (quorum_split (set_of signers) ≡ ok tt) ↔ HasQuorum s (split id ms) signers
  unfolding quorum_split
  split_iff id ms signers =
      let c = length-set_of_one signers in
      let t = ==_iff (length (set_of signers)) 1 in
      ensure_iff _ _ (λ h. c.0 (t.0 h), λ h. t.1 (c.1 h))

  current_iff :
      (to : TopologyMode) → (is_current_topology s.topology to ≡ true) ↔ (s.topology ≡ some to)
  unfolding is_current_topology
  current_iff to = elim (Option-cases s.topology) [
    | inl e ↦ rw e (λ h. cc, λ h. cc)
    | inr (t, e) ↦
        rw e (λ h. ap some ((topology_eq_iff t to).0 h), λ h. (topology_eq_iff t to).1 (cc h))
  ]

  topology_change_iff :
      (to : TopologyMode) (k : NetworkKind) (signers : List Text)
      → s.kind ≡ k
      → (quorum_topology_change s to k (set_of signers) ≡ ok tt)
        ↔ HasQuorum s (topology_change to) signers
  unfolding quorum_topology_change
  topology_change_iff to closed signers e = elim (Bool-cases (is_current_topology s.topology to)) [
    | inl same ↦ rw same (λ h. cc, λ h. absurd (h.1 ((current_iff to).0 same)))
    | inr other ↦ rw other (
        ensure_iff _ _ (
          λ h. (e, λ x. cc ((current_iff to).1 x), (owners-Commands signers).0 h),
          λ h. (owners-Commands signers).1 h.2,
        ))
  ]
  topology_change_iff to _ signers e = (λ h. cc, λ h. cc (h.0))

  quorum_of-HasQuorum :
      (v : TransitionVariant) (signers : List Text)
      → (quorum_of s v (set_of signers) ≡ ok tt) ↔ HasQuorum s v signers
  unfolding quorum_of
  quorum_of-HasQuorum (kind_change to) signers = kind_change_iff to s.kind signers refl
  quorum_of-HasQuorum (role_grant target r) signers = role_grant_iff target r s.kind signers refl
  quorum_of-HasQuorum (role_revoke target) signers = role_revoke_iff target s.kind signers refl
  quorum_of-HasQuorum (evict target) signers = evict_iff target s.kind signers refl
  quorum_of-HasQuorum (split id ms) signers = split_iff id ms signers
  quorum_of-HasQuorum (topology_change to) signers = topology_change_iff to s.kind signers refl
  quorum_of-HasQuorum unknown signers = (λ h. cc, λ h. absurd h)

-- In a state whose roles are a map, `verify_quorum` accepts a transition exactly when its signers
-- have the quorum of the table: on a closed network some signer's role may grant the role that is
-- granted, or the target's role that is removed, or `owner` for a reopening and for a change of
-- topology to another one; a close needs a signer and an open network; a split has one distinct
-- signer.
pub verify_quorum-HasQuorum :
    (s : NetworkState) (t : Transition)
    → IsSorted s.roles
    → (verify_quorum s t ≡ ok tt) ↔ HasQuorum s t.variant t.signers
unfolding verify_quorum
verify_quorum-HasQuorum s t h = quorum_of-HasQuorum s h t.variant t.signers
