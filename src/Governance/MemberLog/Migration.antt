-- ===== src/Governance/MemberLog/Migration.antt =====
-- `split_member_tier`: migrating twice is migrating once, no entry is lost, and what the migration
-- does to a demotion by grant.
use mathlib.Core.List.{Permᴰ, append_assoc}
use mathlib.Core.List.Permᴰ
use my_own_mesh.Base.{
  ◌≡◌, refl, ap, ◌∙◌, ◌≢◌, inl, inr, true, false, Bool-cases, List, [], ◌∷◌, ◌++◌, unwrap_or, arith,
}
use my_own_mesh.Base.Text.{Text, text_eq_iff, text_ordered}
use my_own_mesh.Base.TreeMap.{TreeMap, lookup, lookup-insert, lookup-remove}
use my_own_mesh.Governance.{
  open_kind, closed, silent, Role, member, controller, owner, TransitionVariant, kind_change,
  role_grant, role_revoke, evict, split, topology_change, unknown, Transition, NetworkState,
  role_of, empty_for, elect_founder, apply_variant, apply_transition,
}
use my_own_mesh.Governance.Log.Replay.{replay}
use my_own_mesh.Governance.MemberLog.{
  is_member_tier, target_role, replay_roles, split_from, split_member_tier,
}

abbrev role_in : TreeMap Text Role → Text → Role
role_in roles p = unwrap_or (lookup p roles) member

-- The second map has every role above `member` that the first has.
abbrev Agrees : TreeMap Text Role → TreeMap Text Role → Type 0
Agrees full kept = (p : Text) → role_in full p ≢ member → role_in kept p ≡ role_in full p

-- A member-tier entry takes roles away only.
Agrees-member :
    (v : TransitionVariant) (signers : List Text) (full kept : TreeMap Text Role)
    → is_member_tier v (target_role v full) ≡ true
    → Agrees full kept
    → Agrees (replay_roles v signers full) kept
unfolding is_member_tier target_role replay_roles
Agrees-member (role_grant target member) signers full kept h a p ne =
    ground (arith, lookup-insert p target member full, a p)
Agrees-member (role_revoke target) signers full kept h a p ne =
    ground (arith, lookup-remove p target full, a p)
Agrees-member (evict target) signers full kept h a p ne =
    ground (arith, lookup-remove p target full, a p)
Agrees-member (role_grant target controller) signers full kept h a p ne = cc
Agrees-member (role_grant target owner) signers full kept h a p ne = cc
Agrees-member (kind_change to) signers full kept h a p ne = cc
Agrees-member (split i ms) signers full kept h a p ne = cc
Agrees-member (topology_change to) signers full kept h a p ne = cc
Agrees-member unknown signers full kept h a p ne = cc

Agrees-governance :
    (v : TransitionVariant) (signers : List Text) (full kept : TreeMap Text Role)
    → Agrees full kept
    → Agrees (replay_roles v signers full) (replay_roles v signers kept)
unfolding replay_roles elect_founder
Agrees-governance (role_grant target r) signers full kept a p ne =
    ground (arith, lookup-insert p target r full, lookup-insert p target r kept, a p)
Agrees-governance (role_revoke target) signers full kept a p ne =
    ground (arith, lookup-remove p target full, lookup-remove p target kept, a p)
Agrees-governance (evict target) signers full kept a p ne =
    ground (arith, lookup-remove p target full, lookup-remove p target kept, a p)
Agrees-governance (kind_change closed) [] full kept a p ne = a p ne
Agrees-governance (kind_change closed) (f ∷ fs) full kept a p ne =
    ground (arith, lookup-insert p f owner full, lookup-insert p f owner kept, a p)
Agrees-governance (kind_change open_kind) signers full kept a p ne = a p ne
Agrees-governance (kind_change silent) signers full kept a p ne = a p ne
Agrees-governance (split i ms) signers full kept a p ne = a p ne
Agrees-governance (topology_change to) signers full kept a p ne = a p ne
Agrees-governance unknown signers full kept a p ne = a p ne

-- An entry of the governance tier stays in it when the member entries before it are gone.
tier_kept :
    (v : TransitionVariant) (full kept : TreeMap Text Role)
    → Agrees full kept
    → is_member_tier v (target_role v full) ≡ false
    → is_member_tier v (target_role v kept) ≡ false
unfolding is_member_tier target_role
tier_kept (role_revoke target) full kept a h = ground (arith, a target)
tier_kept (evict target) full kept a h = ground (arith, a target)
tier_kept (role_grant target member) full kept a h = h
tier_kept _ full kept a h = refl

split_from_again :
    (ts : List Transition) (full kept : TreeMap Text Role)
    → Agrees full kept
    → split_from kept (split_from full ts).0 ≡ ((split_from full ts).0, [])
unfolding split_from
split_from_again [] full kept a = refl
split_from_again (t ∷ ts) full kept a =
    elim (Bool-cases (is_member_tier t.variant (target_role t.variant full))) [
      | inl e ↦ rw e (split_from_again ts _ kept (Agrees-member t.variant t.signers full kept e a))
      | inr e ↦ rw e (
          rw (
            tier_kept t.variant full kept a e,
            split_from_again ts _ _ (Agrees-governance t.variant t.signers full kept a),
          ))
    ]

-- Migrating a migrated state changes nothing.
split_member_tier_idem :
    (s : NetworkState) → split_member_tier (split_member_tier s) ≡ split_member_tier s
unfolding split_member_tier
split_member_tier_idem s = rw (split_from_again s.transitions [] [] (λ p ne. refl))

split_from-Permᴰ :
    (ts : List Transition) (roles : TreeMap Text Role)
    → Permᴰ ((split_from roles ts).0 ++ (split_from roles ts).1) ts
unfolding split_from
split_from-Permᴰ [] roles = Permᴰ.nil
split_from-Permᴰ (t ∷ ts) roles =
    elim (Bool-cases (is_member_tier t.variant (target_role t.variant roles))) [
      | inl e ↦ rw e (Permᴰ.trans (Permᴰ.middle t _ _) (Permᴰ.cons refl (split_from-Permᴰ ts _)))
      | inr e ↦ rw e (Permᴰ.cons refl (split_from-Permᴰ ts _))
    ]

-- The migration moves entries between the logs and keeps each.
split_member_tier-Permᴰ :
    (s : NetworkState)
    → let u = split_member_tier s in
      Permᴰ (u.transitions ++ u.member_log) (s.transitions ++ s.member_log)
unfolding split_member_tier
split_member_tier-Permᴰ s =
    rw (← append_assoc) (Permᴰ.append_right s.member_log (split_from-Permᴰ s.transitions []))

-- The roles of a replay are those that the migration keeps.
roles-apply :
    (v : TransitionVariant) (t : Transition) (s : NetworkState)
    → (apply_variant v t.at t.signers s).roles ≡ replay_roles v t.signers s.roles
unfolding apply_variant replay_roles
roles-apply v t s = ground arith

kept_roles :
    (ts : List Transition) (full kept : NetworkState) (roles : TreeMap Text Role)
    → full.roles ≡ roles
    → Agrees full.roles kept.roles
    → Agrees (replay full ts).roles (replay kept (split_from roles ts).0).roles
unfolding split_from apply_transition
kept_roles [] full kept roles e a = a
kept_roles (t ∷ ts) full kept roles e a =
    elim (Bool-cases (is_member_tier t.variant (target_role t.variant roles))) [
      | inl h ↦ rw h (
          kept_roles ts (apply_transition full t) kept _ moved (
            rw (roles-apply t.variant t full, e)
              (Agrees-member t.variant t.signers roles kept.roles h (rw e at a))))
      | inr h ↦ rw h (
          kept_roles ts (apply_transition full t) (apply_transition kept t) _ moved (
            rw (roles-apply t.variant t full, roles-apply t.variant t kept, e)
              (Agrees-governance t.variant t.signers roles kept.roles (rw e at a))))
    ]
  where
    moved : (apply_transition full t).roles ≡ replay_roles t.variant t.signers roles
    moved = roles-apply t.variant t full ∙ ap (replay_roles t.variant t.signers) e

split_from-grant :
    (ts : List Transition) (t : Transition) (b : Text) (roles : TreeMap Text Role)
    → t.variant ≡ role_grant b member
    → (split_from roles (ts ++ t ∷ [])).0 ≡ (split_from roles ts).0
unfolding split_from is_member_tier target_role
split_from-grant [] t b roles h = rw h
split_from-grant (u ∷ ts) t b roles h =
    ground (arith, split_from-grant ts t b (replay_roles u.variant u.signers roles) h)

replay-append :
    (s : NetworkState) (ts us : List Transition) → replay s (ts ++ us) ≡ replay (replay s ts) us
replay-append s [] us = refl
replay-append s (t ∷ ts) us = replay-append (apply_transition s t) ts us

-- The migration undoes a demotion by grant. If the last entry of a log grants `member` to a device
-- with a higher role, the log leaves the device a member, and the governance log that the migration
-- makes of it gives the device the higher role again.
pub migration_undoes_demotion :
    (s : NetworkState) (id b : Text) (ts : List Transition) (t : Transition)
    → s.transitions ≡ ts ++ t ∷ []
    → t.variant ≡ role_grant b member
    → role_of (replay (empty_for id) ts) b ≢ member
    → (role_of (replay (empty_for id) s.transitions) b ≡ member)
      × (role_of (replay (empty_for id) (split_member_tier s).transitions) b
          ≡ role_of (replay (empty_for id) ts) b)
unfolding split_member_tier role_of empty_for lookup apply_transition
migration_undoes_demotion s id b ts t e h ne = (
  rw (e, replay-append)
      (rw (roles-apply t.variant t (replay (empty_for id) ts), h)
        (ground
          (arith, lookup-insert b b member (replay (empty_for id) ts).roles, text_eq_iff b b))),
  rw (e, split_from-grant ts t b [] h)
      (kept_roles ts (empty_for id) (empty_for id) [] refl (λ p _. refl) b ne),
)
