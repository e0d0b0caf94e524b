-- ===== src/Governance/MemberLog/Convergence.antt =====
-- The member tier converges: the merge of two logs is a join, and the projection does not depend on
-- the order in which entries arrive.
use mathlib.Core.Logic.{∥∥₁_elim}
use mathlib.Core.List.{Perm}
use my_own_mesh.Base.{ℕ, ◌≡◌, ap, ◌⊎◌, Bool, true, false, List, [], if◌then◌else◌, arith, ltb}
use my_own_mesh.Base.Text.{Text, text_le_total, text_le_trans, text_le_antisymm, text_ordered}
use my_own_mesh.Base.Sorting.{IsLinear, sort-Permᴰ}
use my_own_mesh.Base.TreeMap.{TreeMap}
use my_own_mesh.Governance.{Transition, NetworkState}
use my_own_mesh.Governance.Log.{Signing}
use my_own_mesh.Governance.MemberLog.{
  is_member_grant, then_le, entry_le, fold_verdict, member_log_verdict,
}

then_le_trans :
    (g h k p q r : Bool)
    → (p ≡ true → q ≡ true → r ≡ true)
    → then_le g h p ≡ true
    → then_le h k q ≡ true
    → then_le g k r ≡ true
unfolding then_le
then_le_trans true h k p q r f = ground arith
then_le_trans false h k p q r f = ground arith

lex_trans :
    (m n l : ℕ) (p q r : Bool)
    → (p ≡ true → q ≡ true → r ≡ true)
    → (if ltb m n then true else if ltb n m then false else p) ≡ true
    → (if ltb n l then true else if ltb l n then false else q) ≡ true
    → (if ltb m l then true else if ltb l m then false else r) ≡ true
lex_trans m n l p q r f u v = ground arith

module _ (key : Transition → Text) (key_inj : (a b : Transition) → key a ≡ key b → a ≡ b) where
  entry_le_total : (a b : Transition) → (entry_le key a b ≡ true) ⊎ (entry_le key b a ≡ true)
  unfolding entry_le
  entry_le_total a b = ground (arith, text_le_total (key a) (key b))

  entry_le_trans :
      (a b c : Transition)
      → entry_le key a b ≡ true
      → entry_le key b c ≡ true
      → entry_le key a c ≡ true
  unfolding entry_le
  entry_le_trans a b c p q =
      lex_trans a.at b.at c.at _ _ _
        (then_le_trans (is_member_grant a.variant) (is_member_grant b.variant)
          (is_member_grant c.variant) _ _ _ (text_le_trans (key a) (key b) (key c)))
        p q

  entry_le_antisymm : (a b : Transition) → entry_le key a b ≡ true → entry_le key b a ≡ true → a ≡ b
  unfolding entry_le
  entry_le_antisymm a b p q = key_inj a b (ground (arith, text_le_antisymm (key a) (key b)))

  pub entry_le-IsLinear : IsLinear (entry_le key)
  entry_le-IsLinear = record {
    total = entry_le_total;
    trans = entry_le_trans;
    antisymm = entry_le_antisymm;
  }

  -- If only equal entries share a key, the verdict that a member log gives, on members and on removed
  -- devices, does not depend on the order of its entries.
  pub verdict-Perm :
      (sig : Signing) (gov : NetworkState) (xs ys : List Transition) (id : Text)
      → Perm xs ys
      → member_log_verdict sig key gov xs id ≡ member_log_verdict sig key gov ys id
  unfolding member_log_verdict
  verdict-Perm sig gov xs ys id p =
      ∥∥₁_elim p (verdict_set _ _)
        (λ d. ap (fold_verdict sig gov id []) (sort-Permᴰ (entry_le key) entry_le-IsLinear d))
    where
      verdict_set : IsSet (TreeMap Text Bool)
      verdict_set = hlevel
