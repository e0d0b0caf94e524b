-- ===== src/MediaQueue/Limits.antt =====
-- The invariant of the queue, kept by every send and every receive.
use my_own_mesh.Base.{
  ap, subst, ℕ, suc, ◌+◌, ◌-◌, ◌≤◌, ◌≡◌, refl, sym, ◌∙◌, inl, inr, false, not, Option, none, some,
  List, [], ◌∷◌, ◌++◌, length, is_none, arith, Bool-cases, Option-cases, length-append,
}
use my_own_mesh.Base.Text.{Text}
use my_own_mesh.MediaQueue.{
  Picture, picture, Budget, Item, Queue, max_queued_samples, new_queue, count_of, is_known?,
  is_full, charge, refund, try_send, recv,
}
use my_own_mesh.MediaQueue.Budgets.{
  one_if, one_for, bytes_in, others_in, samples_of, IsDistinct, count_of-reserve,
  IsDistinct-reserve, length-reserve, count_of-release, IsDistinct-release, length-release,
}

-- The budget says what the queue holds, and is within the limits.
pub record IsValid (q : Queue) : Type 0 where
  pub distinct : IsDistinct q.budget.pictures
  pub samples : (p : Picture) → count_of p q.budget.pictures ≡ samples_of p q.queued
  pub others : q.budget.other ≡ others_in q.queued
  pub bytes : q.budget.bytes ≡ bytes_in q.queued
  pub items : q.budget.items ≡ length q.queued
  within_capacity : length q.budget.pictures + q.budget.other ≤ q.capacity
  within_other : q.budget.other ≤ q.other_capacity
  within_bytes : q.budget.bytes ≤ q.byte_capacity
  within_samples : q.budget.items ≤ max_queued_samples

bytes_in-snoc : (is : List Item) (i : Item) → bytes_in (is ++ i ∷ []) ≡ bytes_in is + length i.body
bytes_in-snoc [] i = omega arith
bytes_in-snoc (j ∷ is) i = omega (arith, bytes_in-snoc is i)

others_in-snoc :
    (is : List Item) (i : Item)
    → others_in (is ++ i ∷ []) ≡ others_in is + one_if (is_none i.picture_key)
others_in-snoc [] i = omega arith
others_in-snoc (j ∷ is) i = omega (arith, others_in-snoc is i)

samples_of-snoc :
    (p : Picture) (is : List Item) (i : Item)
    → samples_of p (is ++ i ∷ []) ≡ samples_of p is + one_for p i.picture_key
samples_of-snoc p [] i = omega arith
samples_of-snoc p (j ∷ is) i = omega (arith, samples_of-snoc p is i)

-- The tests that let a body in.
admitted :
    (q : Queue) (body : Text)
    → is_full q body ≡ false
    → ((is_known? (picture body) q.budget.pictures ≡ false)
        → suc (length q.budget.pictures + q.budget.other) ≤ q.capacity)
      × (length body ≤ q.byte_capacity - q.budget.bytes)
      × (suc q.budget.items ≤ max_queued_samples)
      × ((picture body ≡ none) → suc q.budget.other ≤ q.other_capacity)
unfolding is_full
admitted q body h =
    (λ k. ground (arith, h, k), ground (arith, h), ground (arith, h), λ k. ground (arith, h, k))

sent : Queue → Text → Queue
sent q body = record q {
  budget = charge (picture body) body q.budget;
  queued = q.queued ++ record { body = body; picture_key = picture body } ∷ [];
}

charge-facts :
    (k : Option Picture) (body : Text) (b : Budget)
    → ((charge k body b).bytes ≡ b.bytes + length body)
      × ((charge k body b).items ≡ suc b.items)
      × ((charge k body b).other ≡ b.other + one_if (is_none k))
      × (length (charge k body b).pictures + (charge k body b).other
          ≡ length b.pictures + b.other + one_if (not (is_known? k b.pictures)))
unfolding charge
charge-facts none body b = (refl, omega arith, refl, omega arith)
charge-facts (some p) body b =
    (refl, omega arith, omega arith, omega (arith, length-reserve p b.pictures))

charge-samples :
    (k : Option Picture) (body : Text) (b : Budget) (r : Picture)
    → count_of r (charge k body b).pictures ≡ count_of r b.pictures + one_for r k
unfolding charge
charge-samples none body b r = omega arith
charge-samples (some p) body b r = count_of-reserve r p b.pictures

charge-IsDistinct :
    (k : Option Picture) (body : Text) (b : Budget)
    → IsDistinct b.pictures
    → IsDistinct (charge k body b).pictures
unfolding charge
charge-IsDistinct none body b h = h
charge-IsDistinct (some p) body b h = IsDistinct-reserve p b.pictures h

sent-IsValid :
    (q : Queue) (body : Text) → IsValid q → is_full q body ≡ false → IsValid (sent q body)
unfolding sent
sent-IsValid q body v h =
    let f = charge-facts (picture body) body q.budget in
    let a = admitted q body h in
    let i : Item = record { body = body; picture_key = picture body } in
    record {
      distinct = charge-IsDistinct (picture body) body q.budget v.distinct;
      samples = λ p. omega (
        arith,
        charge-samples (picture body) body q.budget p,
        v.samples p,
        samples_of-snoc p q.queued i,
      );
      others = omega (arith, f.2, v.others, others_in-snoc q.queued i);
      bytes = omega (arith, f.0, v.bytes, bytes_in-snoc q.queued i);
      items = omega (arith, f.1, v.items, length-append q.queued (i ∷ []));
      within_capacity = elim (Bool-cases (is_known? (picture body) q.budget.pictures)) [
        | inl k ↦ omega (arith, f.3, ap (λ b. one_if (not b)) k, v.within_capacity)
        | inr k ↦ omega (arith, f.3, ap (λ b. one_if (not b)) k, a.0 k)
      ];
      within_other = elim (Option-cases (picture body)) [
        | inl k ↦ omega (arith, f.2, ap (λ (o : Option Picture). one_if (is_none o)) k, a.3 k)
        | inr (p, k) ↦
            omega (arith, f.2, ap (λ (o : Option Picture). one_if (is_none o)) k, v.within_other)
      ];
      within_bytes = omega (arith, f.0, a.1, v.within_bytes);
      within_samples = omega (arith, f.1, a.2);
    }

try_send-IsValid : (body : Text) (q : Queue) → IsValid q → IsValid (try_send body q).0
unfolding try_send sent
try_send-IsValid body q v = elim (Bool-cases (is_full q body)) [
  | inl e ↦ rw (try_send, e) v
  | inr e ↦ rw (try_send, e) (sent-IsValid q body v e)
]

refund-facts :
    (i : Item) (is : List Item) (b : Budget)
    → IsDistinct b.pictures
    → ((p : Picture) → count_of p b.pictures ≡ samples_of p (i ∷ is))
    → b.other ≡ others_in (i ∷ is)
    → IsDistinct (refund i b).pictures
      × ((p : Picture) → count_of p (refund i b).pictures ≡ samples_of p is)
      × ((refund i b).other ≡ others_in is)
      × (length (refund i b).pictures + (refund i b).other ≤ length b.pictures + b.other)
unfolding refund
refund-facts i is b d s o = elim (Option-cases i.picture_key) [
  | inl e ↦
      (ground (arith, e, d), λ p. ground (arith, e, s p), ground (arith, e, o), ground (arith, e))
  | inr (k, e) ↦ (
    ground (arith, e, IsDistinct-release k b.pictures d),
    λ p. ground (arith, e, s p, count_of-release p k b.pictures d),
    ground (arith, e, o),
    ground (arith, e, length-release k b.pictures),
  )
]

received : Queue → Item → List Item → Queue
unfolding refund
received q i is = record q { budget = refund i q.budget; queued = is }

received-IsValid :
    (q : Queue) (i : Item) (is : List Item)
    → IsValid q
    → q.queued ≡ i ∷ is
    → IsValid (received q i is)
unfolding received refund
received-IsValid q i is v e =
    let f =
      refund-facts i is q.budget v.distinct (λ p. v.samples p ∙ ap (samples_of p) e)
        (v.others ∙ ap others_in e) in
    record {
      distinct = f.0;
      samples = f.1;
      others = f.2;
      bytes = omega (arith, v.bytes, ap bytes_in e);
      items = omega (arith, v.items, ap (λ (x : List Item). length x) e);
      within_capacity = omega (arith, f.3, v.within_capacity);
      within_other = omega (arith, f.2, v.others, ap others_in e, v.within_other);
      within_bytes = omega (arith, v.within_bytes);
      within_samples = omega (arith, v.within_samples);
    }

recv-IsValid : (q : Queue) → IsValid q → IsValid (recv q).0
unfolding recv received
recv-IsValid q v = go q.queued refl
  where
    go : (is : List Item) → q.queued ≡ is → IsValid (recv q).0
    go [] e = let same : (recv q).0 ≡ q = ground (arith, e) in subst IsValid (sym same) v
    go (i ∷ is) e =
        let same : (recv q).0 ≡ received q i is = ground (arith, e) in
        subst IsValid (sym same) (received-IsValid q i is v e)

-- A queue whose budget is what it holds, picture by picture, and is within its limits on slots, on
-- bodies that belong to no picture, on bytes and on samples is such a queue after any send, taken or refused, and after any receive.
pub queue_ops-IsValid :
    (body : Text) (q : Queue) → IsValid q → IsValid (try_send body q).0 × IsValid (recv q).0
queue_ops-IsValid body q v = (try_send-IsValid body q v, recv-IsValid q v)

-- An empty queue is valid.
pub new_queue-IsValid :
    (capacity other_capacity byte_capacity : ℕ)
    → IsValid (new_queue capacity other_capacity byte_capacity)
unfolding count_of
new_queue-IsValid capacity other_capacity byte_capacity = record {
  distinct = tt;
  samples = λ p. refl;
  others = refl;
  bytes = refl;
  items = refl;
  within_capacity = omega arith;
  within_other = omega arith;
  within_bytes = omega arith;
  within_samples = omega arith;
}
