-- ===== src/Governance/Proposals/Stamps.antt =====
-- The time stamp of a member-tier transition: `member_tier_timestamp` of
-- crates/myownmesh-core/src/engine/governance.rs.
use my_own_mesh.Base.{
  ℕ, ◌+◌, ◌-◌, ◌^◌, ◌≤◌, ◌<◌, ◌≡◌, ap, true, ◌⊎◌, inl, inr, some, List, [], ◌∷◌, max, min, All,
  Some, here, there, Bool-cases, arith,
}
use my_own_mesh.Base.Text.{Text, text_eq_iff}
use my_own_mesh.Governance.{
  member, controller, owner, TransitionVariant, kind_change, role_grant, role_revoke, evict, split,
  topology_change, unknown, Transition, NetworkState, role_of,
}
use my_own_mesh.Governance.Proposals.{
  member_entry_target, is_target, newest_for, stamped_target, member_tier_timestamp,
}

-- The transition grants the device a role, revokes its role or evicts it.
abbrev pub Concerns : Text → TransitionVariant → Type 0
Concerns target (role_grant t role) = t ≡ target
Concerns target (role_revoke t) = t ≡ target
Concerns target (evict t) = t ≡ target
Concerns target _ = ⊥

-- It admits the device, evicts it, or revokes it while it is a member.
abbrev pub IsStamped : NetworkState → TransitionVariant → Text → Type 0
IsStamped gov (role_grant t member) target = t ≡ target
IsStamped gov (role_revoke t) target = (t ≡ target) × (role_of gov t ≡ member)
IsStamped gov (evict t) target = t ≡ target
IsStamped gov _ target = ⊥

-- The entry is not about the device, or older than `at`.
abbrev pub IsOlder : Text → ℕ → Transition → Type 0
IsOlder target at t = (¬ Concerns target t.variant) ⊎ (t.at < at)

Concerns-is_target :
    (target : Text) (v : TransitionVariant)
    → Concerns target v
    → is_target target (member_entry_target v) ≡ true
unfolding member_entry_target
Concerns-is_target target (role_grant t role) h = (text_eq_iff t target).1 h
Concerns-is_target target (role_revoke t) h = (text_eq_iff t target).1 h
Concerns-is_target target (evict t) h = (text_eq_iff t target).1 h
Concerns-is_target target (kind_change to) h = absurd h
Concerns-is_target target (split id ms) h = absurd h
Concerns-is_target target (topology_change to) h = absurd h
Concerns-is_target target unknown h = absurd h

stamped_target-some :
    (gov : NetworkState) (v : TransitionVariant) (target : Text)
    → IsStamped gov v target
    → stamped_target gov v ≡ some target
unfolding stamped_target
stamped_target-some gov (role_grant t member) target h = ap some h
stamped_target-some gov (role_grant t controller) target h = absurd h
stamped_target-some gov (role_grant t owner) target h = absurd h
stamped_target-some gov (role_revoke t) target h = rw (h.1) (ap some h.0)
stamped_target-some gov (evict t) target h = ap some h
stamped_target-some gov (kind_change to) target h = absurd h
stamped_target-some gov (split id ms) target h = absurd h
stamped_target-some gov (topology_change to) target h = absurd h
stamped_target-some gov unknown target h = absurd h

older :
    (target : Text) (ts : List Transition) (at : ℕ)
    → newest_for target ts < at
    → All (IsOlder target at) ts
unfolding newest_for
older target [] at h = tt
older target (t ∷ ts) at h =
    let rest : newest_for target ts < at = ground (arith, h) in
    (
      elim (Bool-cases (is_target target (member_entry_target t.variant))) [
        | inl e ↦ inr (ground (arith, h, e))
        | inr e ↦ inl (λ c. cc (Concerns-is_target target t.variant c, e))
      ],
      older target ts at rest,
    )

newest-bounded :
    (target : Text) (ts : List Transition) (bound : ℕ)
    → All (λ (t : Transition). t.at < bound) ts
    → 0 < bound
    → newest_for target ts < bound
unfolding newest_for
newest-bounded target [] bound h pos = pos
newest-bounded target (t ∷ ts) bound h pos =
    ground (arith, newest-bounded target ts bound h.1 pos, h.0)

newest-late :
    (target : Text) (now : ℕ) (ts : List Transition)
    → Some (λ (t : Transition). Concerns target t.variant × (now ≤ t.at)) ts
    → now ≤ newest_for target ts
unfolding newest_for
newest-late target now [] s = elim s [ ]
newest-late target now (t ∷ ts) (here h) =
    ground (arith, Concerns-is_target target t.variant h.0, h.1)
newest-late target now (t ∷ ts) (there s) = ground (arith, newest-late target now ts s)

-- The stamp of an admission, of an eviction, and of the revocation of a member is not earlier than
-- the clock, and later than every entry of the member log that grants, revokes or evicts the device,
-- when those lie below the largest 64-bit time.
pub member_tier_timestamp-IsLast :
    (gov : NetworkState) (now : ℕ) (variant : TransitionVariant) (target : Text)
    → IsStamped gov variant target
    → All (λ (t : Transition). t.at < 2 ^ 64 - 1) gov.member_log
    → (now ≤ member_tier_timestamp gov now variant)
      × All (IsOlder target (member_tier_timestamp gov now variant)) gov.member_log
unfolding member_tier_timestamp
member_tier_timestamp-IsLast gov now variant target h bounded =
    let newest : newest_for target gov.member_log < 2 ^ 64 - 1 =
      newest-bounded target gov.member_log (2 ^ 64 - 1) bounded (omega arith) in
    rw (member_tier_timestamp, stamped_target-some gov variant target h)
      (
        omega arith,
        older target gov.member_log
            (max now (min (newest_for target gov.member_log + 1) (2 ^ 64 - 1)))
            (omega (arith, newest)),
      )

pub stamp-late :
    (gov : NetworkState) (now : ℕ) (variant : TransitionVariant) (target : Text)
    → IsStamped gov variant target
    → Some (λ (t : Transition). Concerns target t.variant × (now ≤ t.at)) gov.member_log
    → All (λ (t : Transition). t.at < 2 ^ 64 - 1) gov.member_log
    → now < member_tier_timestamp gov now variant
unfolding member_tier_timestamp
stamp-late gov now variant target h late bounded =
    let newest : newest_for target gov.member_log < 2 ^ 64 - 1 =
      newest-bounded target gov.member_log (2 ^ 64 - 1) bounded (omega arith) in
    rw (member_tier_timestamp, stamped_target-some gov variant target h)
      (omega (arith, newest, newest-late target now gov.member_log late))
