-- ===== src/Governance/Log/Authority.antt =====
-- Who can gain and lose authority by a ratified transition.
use my_own_mesh.Base.{
  ◌≡◌, refl, sym, subst, ◌∙◌, ◌≢◌, ◌<◌, ◌⊎◌, inl, inr, List, [], ◌∷◌, here, there, arith,
}
use my_own_mesh.Base.Results.{ok}
use my_own_mesh.Base.Text.{Text, text_eq_iff, text_ordered}
use my_own_mesh.Base.TreeMap.{
  TreeMap, insert, insert-IsSorted, IsSorted, lookup-insert, lookup-remove,
}
use my_own_mesh.Governance.{
  closed, open_kind, silent, Role, member, controller, owner, rank, can_grant, TransitionVariant,
  kind_change, role_grant, role_revoke, evict, split, topology_change, unknown, Transition,
  NetworkState, role_of, elect_founder, apply_variant, apply_transition,
}
use my_own_mesh.Governance.Quorum.{verify_quorum}
use my_own_mesh.Governance.Quorum.Authority.{Commands, HasQuorum, verify_quorum-HasQuorum}
use my_own_mesh.Governance.Log.{Signing, verify_from}
use my_own_mesh.Governance.Log.Replay.{IsRatified, replay, verify_from-IsRatified}

-- The role of `p` after a transition that sets or removes one entry.
role_of-apply :
    (s : NetworkState) (v : TransitionVariant) (t : Transition) (p : Text)
    → s.kind ≡ closed
    → HasQuorum s v t.signers
    → let q = role_of (apply_variant v t.at t.signers s) p in
      (q ≡ role_of s p) ⊎ (q ≡ member) ⊎ Commands s q t.signers
unfolding apply_variant role_of
role_of-apply s (kind_change closed) t p k h = cc (h.0)
role_of-apply s (kind_change open_kind) t p k h = inl refl
role_of-apply s (kind_change silent) t p k h = absurd h
role_of-apply s (role_grant target r) t p k h =
    ground (arith, lookup-insert p target r s.roles, h k)
role_of-apply s (role_revoke target) t p k h = ground (arith, lookup-remove p target s.roles)
role_of-apply s (evict target) t p k h = ground (arith, lookup-remove p target s.roles)
role_of-apply s (split id ms) t p k h = inl refl
role_of-apply s (topology_change to) t p k h = inl refl
role_of-apply s unknown t p k h = inl refl

-- On a closed network whose roles are a map, a quorate transition raises a device's rank only if a
-- signer's role may grant the device's new role.
pub promotion-Commands :
    (s : NetworkState) (t : Transition) (p : Text)
    → IsSorted s.roles
    → s.kind ≡ closed
    → verify_quorum s t ≡ ok tt
    → rank (role_of s p) < rank (role_of (apply_transition s t) p)
    → Commands s (role_of (apply_transition s t) p) t.signers
unfolding rank apply_transition role_of
promotion-Commands s t p sorted k q lt =
    ground (arith, role_of-apply s t.variant t p k ((verify_quorum-HasQuorum s t sorted).0 q))

abbrev pub NoOwner : NetworkState → Type 0
NoOwner s = (p : Text) → role_of s p ≢ owner

Commands-NoOwner : (s : NetworkState) (ps : List Text) → NoOwner s → ¬ Commands s owner ps
unfolding can_grant
Commands-NoOwner s _ no_owner (here {x = p} h) = no_owner p (ground arith)
Commands-NoOwner s _ no_owner (there m) = Commands-NoOwner s _ no_owner m

kind-apply :
    (s : NetworkState) (v : TransitionVariant) (t : Transition)
    → s.kind ≡ closed
    → NoOwner s
    → HasQuorum s v t.signers
    → (apply_variant v t.at t.signers s).kind ≡ closed
unfolding apply_variant
kind-apply s (kind_change closed) t k no_owner q = refl
kind-apply s (kind_change open_kind) t k no_owner q =
    absurd (Commands-NoOwner s t.signers no_owner q.1)
kind-apply s (kind_change silent) t k no_owner q = absurd q
kind-apply s (role_grant target r) t k no_owner q = k
kind-apply s _ t k no_owner q = k

step-NoOwner :
    (s : NetworkState) (t : Transition)
    → s.kind ≡ closed
    → NoOwner s
    → HasQuorum s t.variant t.signers
    → ((apply_transition s t).kind ≡ closed) × NoOwner (apply_transition s t)
unfolding apply_transition role_of
step-NoOwner s t k no_owner q = (
  kind-apply s t.variant t k no_owner q,
  λ p e. elim (role_of-apply s t.variant t p k q) [
    | inl same ↦ no_owner p (sym same ∙ e)
    | inr (inl lost) ↦ cc
    | inr (inr m) ↦ Commands-NoOwner s t.signers no_owner (rw e at m)
  ],
)

replay-NoOwner :
    (sig : Signing) (id : Text) (s : NetworkState) (ts : List Transition)
    → s.kind ≡ closed
    → NoOwner s
    → IsRatified sig id s ts
    → ((replay s ts).kind ≡ closed) × NoOwner (replay s ts)
replay-NoOwner sig id s [] k no_owner r = (k, no_owner)
replay-NoOwner sig id s (t ∷ ts) k no_owner r =
    let (k', n') = step-NoOwner s t k no_owner r.1 in
    replay-NoOwner sig id (apply_transition s t) ts k' n' r.2

-- From a closed network without an owner whose roles are a map, every list of transitions that the loop
-- of `verify_log` accepts leads to a closed network without an owner.
pub verify_from-NoOwner :
    (sig : Signing) (id : Text) (s u : NetworkState) (ts : List Transition)
    → IsSorted s.roles
    → s.kind ≡ closed
    → NoOwner s
    → verify_from sig id s ts ≡ ok u
    → (u.kind ≡ closed) × NoOwner u
verify_from-NoOwner sig id s u ts sorted k no_owner e =
    let (r, f) = verify_from-IsRatified sig id s ts u sorted e in
    subst (λ (w : NetworkState). (w.kind ≡ closed) × NoOwner w) (sym f)
      (replay-NoOwner sig id s ts k no_owner r)

abbrev pub grant_by : Text → Text → Role → Transition
grant_by signer target r = record {
  at = 0;
  variant = role_grant target r;
  signers = signer ∷ [];
  signatures = [];
}

abbrev pub revoke_by : Text → Text → Transition
revoke_by signer target = record {
  at = 0;
  variant = role_revoke target;
  signers = signer ∷ [];
  signatures = [];
}

-- On a closed network whose roles are a map, a controller alone strips an owner: `verify_quorum` refuses its signature under a `RoleRevoke` of
-- the owner, and accepts it under a grant of `controller` to the owner, which ends the ownership.
pub controller_demotes_owner :
    (s : NetworkState) (c o : Text)
    → IsSorted s.roles
    → s.kind ≡ closed
    → role_of s c ≡ controller
    → role_of s o ≡ owner
    → (verify_quorum s (revoke_by c o) ≢ ok tt)
      × (verify_quorum s (grant_by c o controller) ≡ ok tt)
      × (role_of (apply_transition s (grant_by c o controller)) o ≡ controller)
unfolding apply_transition apply_variant role_of can_grant
controller_demotes_owner s c o sorted k hc ho = (
  λ e. refused ((verify_quorum-HasQuorum s (revoke_by c o) sorted).0 e k),
  (verify_quorum-HasQuorum s (grant_by c o controller) sorted).1 (λ _. here (rw hc)),
  ground (arith, lookup-insert o o controller s.roles, text_eq_iff o o),
)
  where
    refused : ¬ Commands s (role_of s o) (c ∷ [])
    refused (here e) = ground arith
    refused (there m) = elim m [ ]

abbrev pub close_by : Text → Transition
close_by founder = record {
  at = 0;
  variant = kind_change closed;
  signers = founder ∷ [];
  signatures = [];
}

-- A role that anyone signs for itself on an open network whose roles are a map is not cosmetic: the grant and a later
-- close by another device are both quorate, and the closed network has that device for an owner
-- beside its founder.
pub open_grant_survives_close :
    (s : NetworkState) (m founder : Text)
    → IsSorted s.roles
    → s.kind ≡ open_kind
    → let granted = apply_transition s (grant_by m m owner) in
      let after = apply_transition granted (close_by founder) in
      (verify_quorum s (grant_by m m owner) ≡ ok tt)
      × (verify_quorum granted (close_by founder) ≡ ok tt)
      × (after.kind ≡ closed)
      × (role_of after m ≡ owner)
      × (role_of after founder ≡ owner)
unfolding apply_transition apply_variant elect_founder role_of
open_grant_survives_close s m founder sorted k = (
  (verify_quorum-HasQuorum s (grant_by m m owner) sorted).1 (λ e. cc),
  (verify_quorum-HasQuorum (apply_transition s (grant_by m m owner)) (close_by founder)
        (insert-IsSorted m owner s.roles sorted)).1
      (k, λ e. cc),
  refl,
  ground (
    arith,
    lookup-insert m founder owner granted,
    lookup-insert m m owner s.roles,
    text_eq_iff m m,
  ),
  ground (arith, lookup-insert founder founder owner granted, text_eq_iff founder founder),
)
  where
    granted : TreeMap Text Role
    granted = insert m owner s.roles
