-- ===== src/Governance/Log/Replay.antt =====
-- What a log that `verify_log` accepts is: every transition signed and quorate at its place, and
-- the log kept whole in the state that it produces.
use mathlib.Core.List.{append-nil, append_assoc}
use my_own_mesh.Base.{◌≡◌, refl, ap, sym, ◌∙◌, ◌↔◌, List, [], ◌∷◌, ◌++◌, arith}
use my_own_mesh.Base.Results.{ok, >>=-eq-ok}
use my_own_mesh.Base.Text.{Text, text_ordered}
use my_own_mesh.Base.TreeMap.{IsSorted, insert-IsSorted, remove-IsSorted}
use my_own_mesh.Governance.{
  NetworkKind, closed, open_kind, silent, TransitionVariant, kind_change, role_grant, role_revoke,
  evict, Transition, NetworkState, empty_for, elect_founder, apply_variant, apply_transition,
}
use my_own_mesh.Governance.Quorum.{verify_quorum}
use my_own_mesh.Governance.Quorum.Authority.{HasQuorum, verify_quorum-HasQuorum}
use my_own_mesh.Governance.Log.Signatures.{AreSigned, verify_transition_signatures_iff}
use my_own_mesh.Governance.Log.{Signing, verify_transition_signatures, verify_from, verify_log}

elect_founder-IsSorted :
    (to : NetworkKind) (signers : List Text) (s : NetworkState)
    → IsSorted s.roles
    → IsSorted (elect_founder to signers s.roles)
unfolding elect_founder
elect_founder-IsSorted closed [] s h = h
elect_founder-IsSorted closed (p ∷ ps) s h = insert-IsSorted p _ s.roles h
elect_founder-IsSorted open_kind ps s h = h
elect_founder-IsSorted silent ps s h = h

apply_variant-IsSorted :
    (v : TransitionVariant) (t : Transition) (s : NetworkState)
    → IsSorted s.roles
    → IsSorted (apply_variant v t.at t.signers s).roles
unfolding apply_variant
apply_variant-IsSorted (kind_change to) t s h = elect_founder-IsSorted to t.signers s h
apply_variant-IsSorted (role_grant p r) t s h = insert-IsSorted p r s.roles h
apply_variant-IsSorted (role_revoke p) t s h = remove-IsSorted p s.roles h
apply_variant-IsSorted (evict p) t s h = remove-IsSorted p s.roles h
apply_variant-IsSorted _ t s h = h

apply-IsSorted :
    (s : NetworkState) (t : Transition) → IsSorted s.roles → IsSorted (apply_transition s t).roles
unfolding apply_transition
apply-IsSorted s t h = apply_variant-IsSorted t.variant t s h

apply_variant-log :
    (v : TransitionVariant) (t : Transition) (s : NetworkState)
    → let u = apply_variant v t.at t.signers s in
      (u.transitions ≡ s.transitions)
      × (u.network_id ≡ s.network_id)
      × (u.member_log ≡ s.member_log)
unfolding apply_variant
apply_variant-log v t s = ground arith

pub apply-log :
    (s : NetworkState) (t : Transition)
    → let u = apply_transition s t in
      (u.transitions ≡ s.transitions ++ t ∷ [])
      × (u.network_id ≡ s.network_id)
      × (u.member_log ≡ s.member_log)
unfolding apply_transition
apply-log s t = ground (arith, apply_variant-log t.variant t s)

-- Every transition of a log is signed and has its quorum at its place in the replay.
abbrev pub IsRatified : Signing → Text → NetworkState → List Transition → Type 0
IsRatified sig id s [] = Unit
IsRatified sig id s (t ∷ ts) =
    AreSigned sig id t
    × HasQuorum s t.variant t.signers
    × IsRatified sig id (apply_transition s t) ts

-- The state that a list of transitions leads to, unchecked.
abbrev pub replay : NetworkState → List Transition → NetworkState
replay s [] = s
replay s (t ∷ ts) = replay (apply_transition s t) ts

module _ (sig : Signing) (id : Text) where
  pub verify_from-IsRatified :
      (s : NetworkState) (ts : List Transition) (u : NetworkState)
      → IsSorted s.roles
      → verify_from sig id s ts ≡ ok u
      → IsRatified sig id s ts × (u ≡ replay s ts)
  unfolding verify_from
  verify_from-IsRatified s [] u h e = (tt, cc)
  verify_from-IsRatified s (t ∷ ts) u h e =
      let (x, es, e₁) = >>=-eq-ok (verify_transition_signatures sig id t) _ e in
      let (y, eq, e₂) = >>=-eq-ok (verify_quorum s t) _ e₁ in
      let (r, f) = verify_from-IsRatified (apply_transition s t) ts u (apply-IsSorted s t h) e₂ in
      (
        ((verify_transition_signatures_iff sig id t).0 es, (verify_quorum-HasQuorum s t h).0 eq, r),
        f,
      )

  IsRatified-verify_from :
      (s : NetworkState) (ts : List Transition)
      → IsSorted s.roles
      → IsRatified sig id s ts
      → verify_from sig id s ts ≡ ok (replay s ts)
  unfolding verify_from
  IsRatified-verify_from s [] h r = refl
  IsRatified-verify_from s (t ∷ ts) h r =
      rw ((verify_transition_signatures_iff sig id t).1 r.0, (verify_quorum-HasQuorum s t h).1 r.1)
        (IsRatified-verify_from (apply_transition s t) ts (apply-IsSorted s t h) r.2)

replay-log :
    (s : NetworkState) (ts : List Transition)
    → let u = replay s ts in
      (u.transitions ≡ s.transitions ++ ts)
      × (u.network_id ≡ s.network_id)
      × (u.member_log ≡ s.member_log)
replay-log s [] = (rw append-nil, refl, refl)
replay-log s (t ∷ ts) = ground (
  arith,
  apply-log s t,
  replay-log (apply_transition s t) ts,
  append_assoc s.transitions (t ∷ []) ts,
)

-- `verify_log` succeeds exactly on the logs in which every transition has at least one signer, for each
-- signer a signature that verifies, and its quorum against the state that the log before it produces;
-- the result is the state that the replay of the log produces.
pub verify_log-IsRatified :
    (sig : Signing) (id : Text) (ts : List Transition) (u : NetworkState)
    → (verify_log sig id ts ≡ ok u)
      ↔ (IsRatified sig id (empty_for id) ts × (u ≡ replay (empty_for id) ts))
unfolding verify_log empty_for
verify_log-IsRatified sig id ts u = (
  verify_from-IsRatified sig id (empty_for id) ts u tt,
  λ h. IsRatified-verify_from sig id (empty_for id) ts tt h.0 ∙ ap ok (sym h.1),
)

-- The state that `verify_log` gives holds the log that it was given and the network's id, and an
-- empty member log.
pub verify_log-transitions :
    (sig : Signing) (id : Text) (ts : List Transition) (u : NetworkState)
    → verify_log sig id ts ≡ ok u
    → (u.transitions ≡ ts) × (u.network_id ≡ id) × (u.member_log ≡ [])
unfolding empty_for
verify_log-transitions sig id ts u e =
    let r = (verify_log-IsRatified sig id ts u).0 e in rw (r.1) (replay-log (empty_for id) ts)
