-- ===== src/MediaQueue/Budgets.antt =====
-- The budget of the queue is what the queue holds, and stays within its limits.
use my_own_mesh.Base.{
  ℕ, ◌+◌, ◌-◌, ◌≤◌, ◌≡◌, ◌↔◌, refl, Bool, true, false, not, ◌||◌, Option, none, some, List, [], ◌∷◌,
  length, ==_iff, is_none, arith,
}
use my_own_mesh.Base.Text.{text_eq_iff}
use my_own_mesh.MediaQueue.{Picture, picture_eq, Item, count_of, is_known, reserve, release}

picture_eq_iff : (p q : Picture) → (picture_eq p q ≡ true) ↔ (p ≡ q)
unfolding picture_eq
picture_eq_iff p q =
    ground (arith, text_eq_iff p.peer q.peer, ==_iff p.lane q.lane, ==_iff p.timestamp q.timestamp)

abbrev pub one_if : Bool → ℕ
one_if true = 1
one_if false = 0

abbrev pub IsDistinct : List (Picture × ℕ) → Type 0
IsDistinct [] = Unit
IsDistinct ((q, n) ∷ m) = (is_known q m ≡ false) × IsDistinct m

count_of-unknown : (p : Picture) (m : List (Picture × ℕ)) → is_known p m ≡ false → count_of p m ≡ 0
unfolding count_of is_known
count_of-unknown p [] h = refl
count_of-unknown p ((q, n) ∷ m) h = ground (arith, count_of-unknown p m)

pub count_of-reserve :
    (r p : Picture) (m : List (Picture × ℕ))
    → count_of r (reserve p m) ≡ count_of r m + one_if (picture_eq r p)
unfolding count_of reserve
count_of-reserve r p [] = ground arith
count_of-reserve r p ((q, n) ∷ m) =
    ground
      (arith, count_of-reserve r p m, picture_eq_iff r p, picture_eq_iff p q, picture_eq_iff r q)

is_known-reserve :
    (r p : Picture) (m : List (Picture × ℕ))
    → is_known r (reserve p m) ≡ (picture_eq r p || is_known r m)
unfolding is_known reserve
is_known-reserve r p [] = ground arith
is_known-reserve r p ((q, n) ∷ m) =
    ground
      (arith, is_known-reserve r p m, picture_eq_iff r p, picture_eq_iff p q, picture_eq_iff r q)

pub IsDistinct-reserve :
    (p : Picture) (m : List (Picture × ℕ)) → IsDistinct m → IsDistinct (reserve p m)
unfolding reserve is_known
IsDistinct-reserve p [] h = (refl, tt)
IsDistinct-reserve p ((q, n) ∷ m) h = ground (
  arith,
  IsDistinct-reserve p m h.1,
  is_known-reserve q p m,
  picture_eq_iff p q,
  picture_eq_iff q p,
)

pub length-reserve :
    (p : Picture) (m : List (Picture × ℕ))
    → length (reserve p m) ≡ length m + one_if (not (is_known p m))
unfolding reserve is_known
length-reserve p [] = omega arith
length-reserve p ((q, n) ∷ m) = ground (arith, length-reserve p m)

is_known-release :
    (r p : Picture) (m : List (Picture × ℕ))
    → is_known r m ≡ false
    → is_known r (release p m) ≡ false
unfolding is_known release
is_known-release r p [] h = refl
is_known-release r p ((q, n) ∷ m) h = ground (arith, is_known-release r p m)

pub count_of-release :
    (r p : Picture) (m : List (Picture × ℕ))
    → IsDistinct m
    → count_of r (release p m) ≡ count_of r m - one_if (picture_eq r p)
unfolding count_of release
count_of-release r p [] h = omega arith
count_of-release r p ((q, n) ∷ m) h = ground (
  arith,
  count_of-release r p m h.1,
  count_of-unknown q m h.0,
  picture_eq_iff r p,
  picture_eq_iff p q,
  picture_eq_iff r q,
)

pub IsDistinct-release :
    (p : Picture) (m : List (Picture × ℕ)) → IsDistinct m → IsDistinct (release p m)
unfolding release
IsDistinct-release p [] h = tt
IsDistinct-release p ((q, n) ∷ m) h =
    ground (arith, IsDistinct-release p m h.1, is_known-release q p m)

pub length-release : (p : Picture) (m : List (Picture × ℕ)) → length (release p m) ≤ length m
unfolding release
length-release p [] = omega arith
length-release p ((q, n) ∷ m) = ground (arith, length-release p m)

-- What a queue holds.
abbrev pub bytes_in : List Item → ℕ
bytes_in [] = 0
bytes_in (i ∷ is) = length i.body + bytes_in is

abbrev pub others_in : List Item → ℕ
others_in [] = 0
others_in (i ∷ is) = one_if (is_none i.picture_key) + others_in is

abbrev pub one_for : Picture → Option Picture → ℕ
one_for p none = 0
one_for p (some q) = one_if (picture_eq p q)

abbrev pub samples_of : Picture → List Item → ℕ
samples_of p [] = 0
samples_of p (i ∷ is) = one_for p i.picture_key + samples_of p is
