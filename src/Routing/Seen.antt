-- ===== src/Routing/Seen.antt =====
-- The ring of frame ids that were seen: its size, and how long an entry stays.
use mathlib.Core.List.{append_assoc}
use my_own_mesh.Base.{
  ℕ, ◌+◌, ◌≤◌, ◌<◌, ◌≡◌, refl, ap, ◌∙◌, true, false, ◌⊎◌, inl, inr, max, List, [], ◌∷◌, ◌++◌,
  length, length-append, any, leb, ◌==◌, ==_iff, Bool-cases, arith,
}
use my_own_mesh.Base.Text.{Text, text_eq_self}
use my_own_mesh.Routing.{first_sighting, routing_seen_capacity, pop_front, is_entry}

abbrev pub Ring : Type 0
Ring = List (Text × ℕ)

-- A ring that took in an entry: the same, one longer, or one that dropped its oldest.
abbrev TakesIn : Text × ℕ → Ring → Ring → Type 0
TakesIn entry seen after =
    (after ≡ seen)
    ⊎ ((length seen < routing_seen_capacity) × (after ≡ seen ++ entry ∷ []))
    ⊎ ((routing_seen_capacity ≤ length seen) × (after ≡ pop_front seen ++ entry ∷ []))

pub first_sighting-TakesIn :
    (origin : Text) (id : ℕ) (seen : Ring)
    → TakesIn (origin, id) seen (first_sighting origin id seen).1
unfolding first_sighting
first_sighting-TakesIn origin id seen = elim (Bool-cases (id == 0)) [
  | inl e ↦ inl (rw e refl)
  | inr e ↦ elim (Bool-cases (any (is_entry origin id) seen)) [
    | inl f ↦ inl (rw (e, f) refl)
    | inr f ↦ elim (Bool-cases (leb routing_seen_capacity (length seen))) [
      | inl g ↦ inr (inr (ground (arith, g), rw (e, f, g) refl))
      | inr g ↦ inr (inl (ground (arith, g), rw (e, f, g) refl))
    ]
  ]
]

length-pop_front : (x : Text × ℕ) (xs : Ring) → length (pop_front xs ++ x ∷ []) ≤ max 1 (length xs)
length-pop_front x [] = omega arith
length-pop_front x (y ∷ ys) = omega (arith, length-append ys (x ∷ []))

length-TakesIn :
    (entry : Text × ℕ) (seen after : Ring)
    → TakesIn entry seen after
    → length seen ≤ routing_seen_capacity
    → length after ≤ routing_seen_capacity
length-TakesIn entry seen after (inl e) h = rw e h
length-TakesIn entry seen after (inr (inl (k, e))) h =
    rw e (omega (arith, k, length-append seen (entry ∷ [])))
length-TakesIn entry seen after (inr (inr (k, e))) h =
    rw e (omega (arith, h, length-pop_front entry seen))

pub length-first_sighting :
    (origin : Text) (id : ℕ) (seen : Ring)
    → length seen ≤ routing_seen_capacity
    → length (first_sighting origin id seen).1 ≤ routing_seen_capacity
length-first_sighting origin id seen =
    length-TakesIn (origin, id) seen (first_sighting origin id seen).1
      (first_sighting-TakesIn origin id seen)

-- The entry is in the ring with at most `n` entries after it.
abbrev pub IsRecent : ℕ → Text × ℕ → Ring → Type 0
IsRecent n entry seen = (older newer : Ring) × (seen ≡ older ++ entry ∷ newer) × (length newer ≤ n)

any-entry :
    (origin : Text) (id : ℕ) (older newer : Ring)
    → any (is_entry origin id) (older ++ (origin, id) ∷ newer) ≡ true
any-entry origin id [] newer = ground (arith, ==_iff id id, text_eq_self origin)
any-entry origin id (x ∷ older) newer = ground (arith, any-entry origin id older newer)

any-IsRecent :
    (n : ℕ) (origin : Text) (id : ℕ) (seen : Ring)
    → IsRecent n (origin, id) seen
    → any (is_entry origin id) seen ≡ true
any-IsRecent n origin id seen (older, newer, e, h) = rw e (any-entry origin id older newer)

pushed :
    (n : ℕ) (entry x : Text × ℕ) (older newer after : Ring)
    → after ≡ (older ++ entry ∷ newer) ++ x ∷ []
    → length newer ≤ n
    → IsRecent (n + 1) entry after
pushed n entry x older newer after e h = (
  older,
  newer ++ x ∷ [],
  e ∙ append_assoc older (entry ∷ newer) (x ∷ []),
  omega (arith, h, length-append newer (x ∷ [])),
)

popped :
    (n : ℕ) (entry x : Text × ℕ) (older newer after : Ring)
    → n + 1 < routing_seen_capacity
    → routing_seen_capacity ≤ length (older ++ entry ∷ newer)
    → after ≡ pop_front (older ++ entry ∷ newer) ++ x ∷ []
    → length newer ≤ n
    → IsRecent (n + 1) entry after
popped n entry x [] newer after room full e h = absurd (omega (arith, room, full, h))
popped n entry x (o ∷ older) newer after room full e h = pushed n entry x older newer after e h

pub TakesIn-IsRecent :
    (n : ℕ) (entry x : Text × ℕ) (seen after : Ring)
    → n + 1 < routing_seen_capacity
    → TakesIn x seen after
    → IsRecent n entry seen
    → IsRecent (n + 1) entry after
TakesIn-IsRecent n entry x seen after room (inl e) (older, newer, f, h) =
    (older, newer, e ∙ f, omega (arith, h))
TakesIn-IsRecent n entry x seen after room (inr (inl (k, e))) (older, newer, f, h) =
    pushed n entry x older newer after (e ∙ ap (λ s. s ++ x ∷ []) f) h
TakesIn-IsRecent n entry x seen after room (inr (inr (k, e))) (older, newer, f, h) =
    popped n entry x older newer after room (rw f at k) (e ∙ ap (λ s. pop_front s ++ x ∷ []) f) h

pub first_sighting_new :
    (origin : Text) (id : ℕ) (seen : Ring)
    → (id == 0) ≡ false
    → (first_sighting origin id seen).0 ≡ true
    → IsRecent 0 (origin, id) (first_sighting origin id seen).1
unfolding first_sighting
first_sighting_new origin id seen e h = elim (Bool-cases (any (is_entry origin id) seen)) [
  | inl f ↦ let k : false ≡ true = rw (e, f) at h in cc
  | inr f ↦ elim (Bool-cases (leb routing_seen_capacity (length seen))) [
    | inl g ↦ (pop_front seen, [], rw (e, f, g) refl, omega arith)
    | inr g ↦ (seen, [], rw (e, f, g) refl, omega arith)
  ]
]

pub first_sighting_again :
    (n : ℕ) (origin : Text) (id : ℕ) (seen : Ring)
    → (id == 0) ≡ false
    → IsRecent n (origin, id) seen
    → (first_sighting origin id seen).0 ≡ false
unfolding first_sighting
first_sighting_again n origin id seen e h = rw (e, any-IsRecent n origin id seen h) refl
