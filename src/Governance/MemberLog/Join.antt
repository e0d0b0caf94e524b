-- ===== src/Governance/MemberLog/Join.antt =====
-- `merge_member_logs` is a join: commutative, associative and absorbing, and it keeps under each key
-- what either side has.
use my_own_mesh.Base.{
  ◌≡◌, refl, sym, ap, ◌∙◌, inl, inr, Bool, Option, none, some, List, [], ◌∷◌, ◌++◌, map, find?,
  find?-append, find?-sound, or_else, All, Option-cases, arith,
}
use my_own_mesh.Base.Text.{Text, text_eq, text_eq_iff, text_ordered}
use my_own_mesh.Base.TreeMap.{
  TreeMap, lookup, insert, or_insert, IsSorted, lookup-or_insert, or_insert-IsSorted, sorted_ext,
}
use my_own_mesh.Governance.{Transition}
use my_own_mesh.Governance.MemberLog.{merge_into, merge_member_logs}

module _ (key : Transition → Text) where
  -- The entry under `k` in a list of entries.
  abbrev keyed : Text → Transition → Bool
  keyed k t = text_eq k (key t)

  lookup-merge_into :
      (k : Text) (m : TreeMap Text Transition) (ts : List Transition)
      → lookup k (merge_into key m ts) ≡ or_else (lookup k m) (find? (keyed k) ts)
  unfolding merge_into
  lookup-merge_into k m [] = ground arith
  lookup-merge_into k m (t ∷ ts) =
      ground (arith, lookup-merge_into k (or_insert (key t) t m) ts, lookup-or_insert k (key t) t m)

  merge_into-IsSorted :
      (m : TreeMap Text Transition) (ts : List Transition)
      → IsSorted m
      → IsSorted (merge_into key m ts)
  unfolding merge_into
  merge_into-IsSorted m [] h = h
  merge_into-IsSorted m (t ∷ ts) h =
      merge_into-IsSorted (or_insert (key t) t m) ts (or_insert-IsSorted (key t) t m h)

  -- Two lists that show the same entry under every key give the same map.
  merge_into_ext :
      (xs ys : List Transition)
      → ((k : Text) → find? (keyed k) xs ≡ find? (keyed k) ys)
      → merge_into key [] xs ≡ merge_into key [] ys
  unfolding lookup
  merge_into_ext xs ys h =
      sorted_ext _ _ (merge_into-IsSorted [] xs tt) (merge_into-IsSorted [] ys tt)
        (λ k. lookup-merge_into k [] xs ∙ h k ∙ sym (lookup-merge_into k [] ys))

  -- Entries under one key are one entry.
  or_else_comm :
      ((a b : Transition) → key a ≡ key b → a ≡ b)
      → (k : Text) (xs ys : List Transition)
      → or_else (find? (keyed k) xs) (find? (keyed k) ys)
        ≡ or_else (find? (keyed k) ys) (find? (keyed k) xs)
  or_else_comm key_inj k xs ys = elim (Option-cases (find? (keyed k) xs)) [
    | inl e ↦ rw e (right_none (find? (keyed k) ys))
    | inr (a, e) ↦ elim (Option-cases (find? (keyed k) ys)) [
      | inl f ↦ rw (e, f)
      | inr (b, f) ↦ rw (e, f) (ap some (key_inj a b (sym (same a xs e) ∙ same b ys f)))
    ]
  ]
    where
      right_none : (o : Option Transition) → or_else none o ≡ or_else o none
      right_none none = refl
      right_none (some a) = refl

      same : (t : Transition) (ts : List Transition) → find? (keyed k) ts ≡ some t → k ≡ key t
      same t ts h = (text_eq_iff k (key t)).0 (find?-sound (keyed k) ts t h)

  -- If only equal entries share a key, merging two logs gives the same log on both sides.
  merge_comm :
      ((a b : Transition) → key a ≡ key b → a ≡ b)
      → (xs ys : List Transition) → merge_member_logs key xs ys ≡ merge_member_logs key ys xs
  unfolding merge_member_logs
  merge_comm key_inj xs ys = ap (map (λ e. e.1)) (
      merge_into_ext (xs ++ ys) (ys ++ xs) (λ k.
        find?-append (keyed k) xs ys
        ∙ or_else_comm key_inj k xs ys
        ∙ sym (find?-append (keyed k) ys xs)))

  -- Each entry of the map stands under its own key.
  abbrev SelfKeyed : TreeMap Text Transition → Type 0
  SelfKeyed = All (λ e. e.0 ≡ key e.1)

  insert-SelfKeyed :
      (t : Transition) (m : TreeMap Text Transition) → SelfKeyed m → SelfKeyed (insert (key t) t m)
  unfolding insert
  insert-SelfKeyed t [] h = (refl, tt)
  insert-SelfKeyed t ((k, u) ∷ m) h = ground (arith, insert-SelfKeyed t m h.1)

  merge_into-SelfKeyed :
      (m : TreeMap Text Transition) (ts : List Transition)
      → SelfKeyed m
      → SelfKeyed (merge_into key m ts)
  unfolding merge_into or_insert
  merge_into-SelfKeyed m [] h = h
  merge_into-SelfKeyed m (t ∷ ts) h =
      merge_into-SelfKeyed (or_insert (key t) t m) ts (ground (arith, insert-SelfKeyed t m h))

  find?-values :
      (k : Text) (m : TreeMap Text Transition)
      → SelfKeyed m
      → find? (keyed k) (map (λ e. e.1) m) ≡ lookup k m
  unfolding lookup
  find?-values k [] h = refl
  find?-values k ((j, u) ∷ m) h = ground (arith, find?-values k m h.1)

  -- Under each key the merge has the entry of the first log, or else that of the second: no entry is
  -- lost and none is made up.
  find?-merge :
      (k : Text) (xs ys : List Transition)
      → find? (keyed k) (merge_member_logs key xs ys)
        ≡ or_else (find? (keyed k) xs) (find? (keyed k) ys)
  unfolding merge_member_logs lookup
  find?-merge k xs ys =
      find?-values k (merge_into key [] (xs ++ ys)) (merge_into-SelfKeyed [] (xs ++ ys) tt)
      ∙ lookup-merge_into k [] (xs ++ ys)
      ∙ find?-append (keyed k) xs ys

  or_else_assoc : (a b c : Option Transition) → or_else (or_else a b) c ≡ or_else a (or_else b c)
  or_else_assoc none b c = refl
  or_else_assoc (some a) b c = refl

  or_else_absorb : (a b : Option Transition) → or_else (or_else a b) b ≡ or_else a b
  or_else_absorb none none = refl
  or_else_absorb none (some b) = refl
  or_else_absorb (some a) b = refl

  find?-append-merge :
      (k : Text) (xs ys zs : List Transition)
      → find? (keyed k) (merge_member_logs key xs ys ++ zs)
        ≡ or_else (or_else (find? (keyed k) xs) (find? (keyed k) ys)) (find? (keyed k) zs)
  find?-append-merge k xs ys zs =
      find?-append (keyed k) (merge_member_logs key xs ys) zs
      ∙ ap (λ o. or_else o (find? (keyed k) zs)) (find?-merge k xs ys)

  -- The order in which three logs meet does not matter.
  merge_assoc :
      (xs ys zs : List Transition)
      → merge_member_logs key (merge_member_logs key xs ys) zs
        ≡ merge_member_logs key xs (merge_member_logs key ys zs)
  unfolding merge_member_logs
  merge_assoc xs ys zs =
      ap (map (λ e. e.1)) (
        merge_into_ext (merge_member_logs key xs ys ++ zs) (xs ++ merge_member_logs key ys zs) same)
    where
      same :
          (k : Text)
          → find? (keyed k) (merge_member_logs key xs ys ++ zs)
            ≡ find? (keyed k) (xs ++ merge_member_logs key ys zs)
      same k =
          find?-append-merge k xs ys zs
          ∙ or_else_assoc (find? (keyed k) xs) (find? (keyed k) ys) (find? (keyed k) zs)
          ∙ sym (
              find?-append (keyed k) xs (merge_member_logs key ys zs)
              ∙ ap (or_else (find? (keyed k) xs)) (find?-merge k ys zs))

  -- Merging a log in again changes nothing.
  pub merge_absorb :
      (xs ys : List Transition)
      → merge_member_logs key (merge_member_logs key xs ys) ys ≡ merge_member_logs key xs ys
  unfolding merge_member_logs
  merge_absorb xs ys = ap (map (λ e. e.1)) (
      merge_into_ext (merge_member_logs key xs ys ++ ys) (xs ++ ys) (λ k.
        find?-append-merge k xs ys ys
        ∙ or_else_absorb (find? (keyed k) xs) (find? (keyed k) ys)
        ∙ sym (find?-append (keyed k) xs ys)))

  -- Member logs form a semilattice under the merge: it is commutative when only equal entries share a
  -- key, it is associative, and merging a log in again changes nothing.
  pub merge_semilattice :
      ((a b : Transition) → key a ≡ key b → a ≡ b)
      → (xs ys zs : List Transition)
      → (merge_member_logs key xs ys ≡ merge_member_logs key ys xs)
        × (merge_member_logs key (merge_member_logs key xs ys) zs
            ≡ merge_member_logs key xs (merge_member_logs key ys zs))
        × (merge_member_logs key (merge_member_logs key xs ys) ys ≡ merge_member_logs key xs ys)
  merge_semilattice key_inj xs ys zs =
      (merge_comm key_inj xs ys, merge_assoc xs ys zs, merge_absorb xs ys)
