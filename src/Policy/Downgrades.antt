-- ===== src/Policy/Downgrades.antt =====
-- Versions are ordered, so no chain of updates leads back.
use my_own_mesh.Base.{◌≡◌, refl, inl, inr, true, false, List, [], ◌∷◌, arith, Bool-cases}
use my_own_mesh.Base.Text.{Text, text_eq_iff, text_le_total, text_le_trans, text_le_antisymm}
use my_own_mesh.Policy.{
  ApplyPolicy, patch, minor, every, never, Ordering, less, equal, greater, cmp_text, Core,
  parse_core, split_prerelease, then_cmp, cmp_core, cmp_pre, compare_semver, is_greater,
  policy_allows,
}

abbrev flip : Ordering → Ordering
flip less = greater
flip equal = equal
flip greater = less

flip-cmp_text : (a b : Text) → cmp_text b a ≡ flip (cmp_text a b)
unfolding cmp_text
flip-cmp_text a b =
    ground (arith, text_eq_iff a b, text_eq_iff b a, text_le_total a b, text_le_antisymm a b)

flip-cmp_core : (a b : Core) → cmp_core b a ≡ flip (cmp_core a b)
unfolding cmp_core
flip-cmp_core a b = ground arith

flip-cmp_pre : (a b : Text) → cmp_pre b a ≡ flip (cmp_pre a b)
unfolding cmp_pre
flip-cmp_pre [] [] = refl
flip-cmp_pre [] (y ∷ ys) = refl
flip-cmp_pre (x ∷ xs) [] = refl
flip-cmp_pre (x ∷ xs) (y ∷ ys) = flip-cmp_text (x ∷ xs) (y ∷ ys)

flip-then_cmp : (o p : Ordering) → then_cmp (flip o) (flip p) ≡ flip (then_cmp o p)
flip-then_cmp less p = refl
flip-then_cmp equal p = refl
flip-then_cmp greater p = refl

-- Comparing two versions the other way round gives the opposite answer.
flip-compare_semver : (a b : Text) → compare_semver b a ≡ flip (compare_semver a b)
unfolding compare_semver
flip-compare_semver a b =
    rw
      (
        flip-cmp_core (parse_core (split_prerelease a).0) (parse_core (split_prerelease b).0),
        flip-cmp_pre (split_prerelease a).1 (split_prerelease b).1,
      )
      (flip-then_cmp
        (cmp_core (parse_core (split_prerelease a).0) (parse_core (split_prerelease b).0))
        (cmp_pre (split_prerelease a).1 (split_prerelease b).1))

less-cmp_text : (a b c : Text) → cmp_text a b ≡ less → cmp_text b c ≡ less → cmp_text a c ≡ less
unfolding cmp_text
less-cmp_text a b c p q = ground (
  arith,
  text_eq_iff a b,
  text_eq_iff b c,
  text_eq_iff a c,
  text_le_trans a b c,
  text_le_antisymm a b,
  text_le_antisymm b c,
  text_le_total b c,
)

less-cmp_pre : (a b c : Text) → cmp_pre a b ≡ less → cmp_pre b c ≡ less → cmp_pre a c ≡ less
unfolding cmp_pre
less-cmp_pre [] [] c p q = cc
less-cmp_pre [] (y ∷ ys) c p q = cc
less-cmp_pre (x ∷ xs) [] [] p q = cc
less-cmp_pre (x ∷ xs) [] (z ∷ zs) p q = cc
less-cmp_pre (x ∷ xs) (y ∷ ys) [] p q = refl
less-cmp_pre (x ∷ xs) (y ∷ ys) (z ∷ zs) p q = less-cmp_text (x ∷ xs) (y ∷ ys) (z ∷ zs) p q

less-less : (a b c : Core) → cmp_core a b ≡ less → cmp_core b c ≡ less → cmp_core a c ≡ less
unfolding cmp_core
less-less a b c p q = ground arith

less-equal : (a b c : Core) → cmp_core a b ≡ less → cmp_core b c ≡ equal → cmp_core a c ≡ less
unfolding cmp_core
less-equal a b c p q = ground arith

equal-less : (a b c : Core) → cmp_core a b ≡ equal → cmp_core b c ≡ less → cmp_core a c ≡ less
unfolding cmp_core
equal-less a b c p q = ground arith

equal-equal : (a b c : Core) → cmp_core a b ≡ equal → cmp_core b c ≡ equal → cmp_core a c ≡ equal
unfolding cmp_core
equal-equal a b c p q = ground arith

then_cmp_trans :
    (o o' o'' p p' p'' : Ordering)
    → (o ≡ less → o' ≡ less → o'' ≡ less)
    → (o ≡ less → o' ≡ equal → o'' ≡ less)
    → (o ≡ equal → o' ≡ less → o'' ≡ less)
    → (o ≡ equal → o' ≡ equal → o'' ≡ equal)
    → (p ≡ less → p' ≡ less → p'' ≡ less)
    → then_cmp o p ≡ less
    → then_cmp o' p' ≡ less
    → then_cmp o'' p'' ≡ less
then_cmp_trans less less o'' p p' p'' a b c d t h k = rw (a refl refl) refl
then_cmp_trans less equal o'' p p' p'' a b c d t h k = rw (b refl refl) refl
then_cmp_trans less greater o'' p p' p'' a b c d t h k = cc
then_cmp_trans equal less o'' p p' p'' a b c d t h k = rw (c refl refl) refl
then_cmp_trans equal equal o'' p p' p'' a b c d t h k = rw (d refl refl) (t h k)
then_cmp_trans equal greater o'' p p' p'' a b c d t h k = cc
then_cmp_trans greater o' o'' p p' p'' a b c d t h k = cc

-- A version below another one is below whatever that one is below.
compare_semver_trans :
    (a b c : Text)
    → compare_semver a b ≡ less
    → compare_semver b c ≡ less
    → compare_semver a c ≡ less
unfolding compare_semver
compare_semver_trans a b c =
    let x = parse_core (split_prerelease a).0 in
    let y = parse_core (split_prerelease b).0 in
    let z = parse_core (split_prerelease c).0 in
    then_cmp_trans (cmp_core x y) (cmp_core y z) (cmp_core x z) _ _ _ (less-less x y z)
      (less-equal x y z) (equal-less x y z) (equal-equal x y z)
      (less-cmp_pre (split_prerelease a).1 (split_prerelease b).1 (split_prerelease c).1)

greater_of : (o : Ordering) → is_greater o ≡ true → o ≡ greater
greater_of less h = cc
greater_of equal h = cc
greater_of greater h = refl

allowed_above :
    (p : ApplyPolicy) (a b : Text) → policy_allows p a b ≡ true → compare_semver a b ≡ less
unfolding policy_allows
allowed_above p a b h = elim (Bool-cases (is_greater (compare_semver b a))) [
  | inl e ↦ rw (flip-compare_semver b a, greater_of (compare_semver b a) e) refl
  | inr e ↦ cc (rw (policy_allows, e) at h)
]

refused_below :
    (p : ApplyPolicy) (a b : Text) → compare_semver a b ≡ less → policy_allows p b a ≡ false
unfolding policy_allows
refused_below p a b h = rw (policy_allows, h) refl

-- Updates one after another, each allowed by a policy of its own over the version before it.
abbrev pub IsChain : Text → List (ApplyPolicy × Text) → Type 0
IsChain a [] = Unit
IsChain a ((p, b) ∷ updates) = (policy_allows p a b ≡ true) × IsChain b updates

abbrev pub installed : Text → List (ApplyPolicy × Text) → Text
installed a [] = a
installed a ((p, b) ∷ updates) = installed b updates

chain_above :
    (p : ApplyPolicy) (a b : Text) (updates : List (ApplyPolicy × Text))
    → IsChain a ((p, b) ∷ updates)
    → compare_semver a (installed b updates) ≡ less
chain_above p a b [] h = allowed_above p a b h.0
chain_above p a b ((q, c) ∷ updates) h =
    compare_semver_trans a b (installed c updates) (allowed_above p a b h.0)
      (chain_above q b c updates h.1)

-- After one or more allowed updates, however many and whatever the policies, no policy allows an update
-- from the version that is then installed to the one that the chain started from.
pub no_way_back :
    (p r : ApplyPolicy) (a b : Text) (updates : List (ApplyPolicy × Text))
    → IsChain a ((p, b) ∷ updates)
    → policy_allows r (installed b updates) a ≡ false
no_way_back p r a b updates h =
    refused_below r a (installed b updates) (chain_above p a b updates h)

-- A stricter policy allows no more: what `patch` allows `minor` does, and what that allows `all` does;
-- `none` allows nothing.
policy_allows_mono :
    (current candidate : Text)
    → (policy_allows patch current candidate ≡ true → policy_allows minor current candidate ≡ true)
      × (policy_allows minor current candidate ≡ true
          → policy_allows every current candidate ≡ true)
      × (policy_allows never current candidate ≡ false)
unfolding policy_allows
policy_allows_mono current candidate = (λ h. ground arith, λ h. ground arith, ground arith)
