-- ===== src/Governance/MemberLog/LastWriter.antt =====
-- Whose word counts in the projection of the member log: the latest, and on a tie the admit.
use my_own_mesh.Base.{
  ℕ, ◌≡◌, refl, inl, inr, ◌≤◌, ◌<◌, Bool, true, false, not, Option, none, some, List, [], ◌∷◌,
  Bool-cases, if◌then◌else◌, All, All-map, All-map₂, Some-map, Some, here, there, arith,
}
use my_own_mesh.Base.Text.{Text, text_eq, text_ordered}
use my_own_mesh.Base.Sorting.{sort, IsAscending, sort-IsAscending, All-sort, Some-sort}
use my_own_mesh.Base.TreeMap.{TreeMap, lookup, lookup-insert}
use my_own_mesh.Governance.{
  TransitionVariant, Transition, NetworkState, member, controller, owner, kind_change, role_grant,
  role_revoke, evict, split, topology_change, unknown,
}
use my_own_mesh.Governance.Log.{Signing}
use my_own_mesh.Governance.MemberLog.{
  is_member_grant, then_le, entry_le, counts, record_verdict, fold_verdict, member_log_verdict,
}
use my_own_mesh.Governance.MemberLog.Convergence.{entry_le-IsLinear}

-- What an entry says of device `d`: nothing, that it is a member, or that it is removed.
abbrev pub says : Text → TransitionVariant → Option Bool
says d (role_grant target member) = if text_eq d target then some true else none
says d (role_revoke target) = if text_eq d target then some false else none
says d (evict target) = if text_eq d target then some false else none
says d _ = none

abbrev after_word : Option Bool → Option Bool → Option Bool
after_word none o = o
after_word (some b) o = some b

lookup-record_verdict :
    (d : Text) (v : TransitionVariant) (m : TreeMap Text Bool)
    → lookup d (record_verdict v m) ≡ after_word (says d v) (lookup d m)
lookup-record_verdict d (role_grant target member) m = ground (arith, lookup-insert d target true m)
lookup-record_verdict d (role_revoke target) m = ground (arith, lookup-insert d target false m)
lookup-record_verdict d (evict target) m = ground (arith, lookup-insert d target false m)
lookup-record_verdict d (role_grant target controller) m = refl
lookup-record_verdict d (role_grant target owner) m = refl
lookup-record_verdict d (kind_change to) m = refl
lookup-record_verdict d (split id ms) m = refl
lookup-record_verdict d (topology_change to) m = refl
lookup-record_verdict d unknown m = refl

-- An entry that a word gives way to: at the same time or before for an admit, before for a removal.
abbrev pub IsEarlier : Bool → ℕ → ℕ → Type 0
IsEarlier true a b = a ≤ b
IsEarlier false a b = a < b

module _ (sig : Signing) (gov : NetworkState) (id d : Text) where
  -- The entry counts and says `b` of the device.
  abbrev pub Says : Bool → Transition → Type 0
  Says b t = (counts sig gov id t ≡ true) × (says d t.variant ≡ some b)

  step_keeps :
      (b : Bool) (m : TreeMap Text Bool) (t : Transition)
      → lookup d m ≡ some b
      → ¬ Says (not b) t
      → lookup d (if counts sig gov id t then record_verdict t.variant m else m) ≡ some b
  step_keeps b m t h contrary = elim (Bool-cases (counts sig gov id t)) [
    | inl e ↦ rw (e, lookup-record_verdict d t.variant m) (stands b (says d t.variant) refl h e)
    | inr e ↦ rw e h
  ]
    where
      stands :
          (c : Bool) (o : Option Bool)
          → says d t.variant ≡ o
          → lookup d m ≡ some b
          → counts sig gov id t ≡ true
          → after_word o (lookup d m) ≡ some b
      stands c o f g e = ground (arith, λ (w : says d t.variant ≡ some (not b)). contrary (e, w))

  -- A verdict stands while no entry that counts says the contrary.
  fold_keeps :
      (b : Bool) (ts : List Transition) (m : TreeMap Text Bool)
      → lookup d m ≡ some b
      → All (λ t. ¬ Says (not b) t) ts
      → lookup d (fold_verdict sig gov id m ts) ≡ some b
  unfolding fold_verdict
  fold_keeps b [] m h contrary = h
  fold_keeps b (t ∷ ts) m h contrary = fold_keeps b ts _ (step_keeps b m t h contrary.0) contrary.1

  step-Says :
      (b : Bool) (m : TreeMap Text Bool) (t : Transition)
      → Says b t
      → lookup d (if counts sig gov id t then record_verdict t.variant m else m) ≡ some b
  step-Says b m t s = rw (s.0, lookup-record_verdict d t.variant m, s.1)

  module _ (key : Transition → Text) where
    -- `t` says `b`, and what says the contrary in `ts` does not stand behind it.
    abbrev Latest : Bool → List Transition → Transition → Type 0
    Latest b ts t = Says b t × All (λ u. Says (not b) u → entry_le key t u ≡ false) ts

    fold-Latest :
        (b : Bool) (ts : List Transition) (m : TreeMap Text Bool)
        → IsAscending (entry_le key) ts
        → Some (Latest b ts) ts
        → lookup d (fold_verdict sig gov id m ts) ≡ some b
    unfolding fold_verdict
    fold-Latest b [] m asc s = elim s [ ]
    fold-Latest b (t ∷ ts) m asc (here l) =
        fold_keeps b ts _ (step-Says b m t l.0)
          (All-map₂ ts (λ u le f s. absurd (cc (f s))) asc.0 l.1.1)
    fold-Latest b (t ∷ ts) m asc (there s) =
        fold-Latest b ts _ asc.1 (Some-map (λ u l. (l.0, l.1.1)) s)

  grant_of_says : (b : Bool) (v : TransitionVariant) → says d v ≡ some b → is_member_grant v ≡ b
  grant_of_says b (role_grant target member) h = ground arith
  grant_of_says b (role_revoke target) h = ground arith
  grant_of_says b (evict target) h = ground arith
  grant_of_says b (role_grant target controller) h = cc
  grant_of_says b (role_grant target owner) h = cc
  grant_of_says b (kind_change to) h = cc
  grant_of_says b (split i ms) h = cc
  grant_of_says b (topology_change to) h = cc
  grant_of_says b unknown h = cc

  module _ (key : Transition → Text) (key_inj : (a b : Transition) → key a ≡ key b → a ≡ b) where
    verdict-Latest :
        (b : Bool) (xs : List Transition)
        → Some (Latest key b xs) xs
        → lookup d (member_log_verdict sig key gov xs id) ≡ some b
    unfolding member_log_verdict
    verdict-Latest b xs s =
        fold-Latest key b (sort (entry_le key) xs) []
          (sort-IsAscending (entry_le key) (entry_le-IsLinear key key_inj) xs)
          (Some-map (λ t l. (l.0, All-sort (entry_le key) _ xs l.1)) (Some-sort (entry_le key) s))

    -- The latest of the entries that count decides, and at equal times an admit.
    pub counted_latest_wins :
        (b : Bool) (xs : List Transition)
        → Some (λ t. Says b t × All (λ u. Says (not b) u → IsEarlier b u.at t.at) xs) xs
        → lookup d (member_log_verdict sig key gov xs id) ≡ some b
    unfolding entry_le then_le
    counted_latest_wins b xs s =
        verdict-Latest b xs (Some-map (λ t h. (h.0, All-map xs (loses b t h.0) h.1)) s)
      where
        loses :
            (c : Bool) (t : Transition)
            → Says c t
            → (u : Transition) → (Says (not c) u → IsEarlier c u.at t.at)
            → Says (not c) u
            → entry_le key t u ≡ false
        loses true t st u h su =
            ground
              (arith, h su, grant_of_says true t.variant st.1, grant_of_says false u.variant su.1)
        loses false t st u h su = ground (arith, h su)
