-- ===== src/Policy.antt =====
-- The updater's apply policy: crates/myownmesh-updater/src/policy.rs. `str::parse::<u32>` takes an
-- optional `+` and refuses a number of 2 ^ 32 or more, as Rust's standard library documents.
pub mod Downgrades
use my_own_mesh.Base.{
  ℕ, zero, suc, ◌+◌, ◌-◌, ◌*◌, ◌^◌, Bool, true, false, not, ◌&&◌, ◌||◌, Option, none, some, List,
  [], ◌∷◌, leb, ltb, ◌==◌, if◌then◌else◌, unwrap_or,
}
use my_own_mesh.Base.Text.{Text, text_eq, text_le, bytes}

pub data ApplyPolicy : Type 0 where
  patch minor every never : ApplyPolicy

parse_policy : Text → Option ApplyPolicy
unfolding text_eq
parse_policy s =
    if text_eq s (bytes "patch")
    then some patch
    else if text_eq s (bytes "minor")
    then some minor
    else if text_eq s (bytes "all")
    then some every
    else if text_eq s (bytes "none")
    then some never
    else none

pub data Ordering : Type 0 where
  less equal greater : Ordering

abbrev pub cmp : ℕ → ℕ → Ordering
cmp a b = if ltb a b then less else if a == b then equal else greater

pub cmp_text : Text → Text → Ordering
unfolding text_eq text_le
cmp_text a b = if text_eq a b then equal else if text_le a b then less else greater

-- The text before the first `-`, and after it.
pub split_prerelease : Text → Text × Text
split_prerelease [] = ([], [])
split_prerelease (c ∷ cs) =
    let rest = split_prerelease cs in if c == 45 then ([], cs) else (c ∷ rest.0, rest.1)

-- `split('.')`, its first part apart.
split_dots : Text → Text × List Text
split_dots [] = ([], [])
split_dots (c ∷ cs) =
    let rest = split_dots cs in if c == 46 then ([], rest.0 ∷ rest.1) else (c ∷ rest.0, rest.1)

parse_digits : Text → ℕ → Option ℕ
parse_digits [] acc = some acc
parse_digits (c ∷ cs) acc =
    let rest = parse_digits cs (acc * 10 + (c - 48)) in
    if leb 48 c && leb c 57 && ltb (acc * 10 + (c - 48)) 4_294_967_296 then rest else none

parse_u32 : Text → Option ℕ
unfolding parse_digits
parse_u32 [] = none
parse_u32 (c ∷ []) = parse_digits (c ∷ []) 0
parse_u32 (c ∷ d ∷ cs) = if c == 43 then parse_digits (d ∷ cs) 0 else parse_digits (c ∷ d ∷ cs) 0

-- The number of a part, 0 when it is not one or not there.
part : Option Text → ℕ
unfolding parse_u32
part none = 0
part (some p) = unwrap_or (parse_u32 p) 0

pub record Core : Type 0 where
  major : ℕ
  minor_version : ℕ
  patch_version : ℕ

abbrev nth : List Text → ℕ → Option Text
nth [] i = none
nth (x ∷ xs) zero = some x
nth (x ∷ xs) (suc i) = nth xs i

pub parse_core : Text → Core
unfolding split_dots part
parse_core core =
    let parts = split_dots core in
    record {
      major = part (some parts.0);
      minor_version = part (nth parts.1 0);
      patch_version = part (nth parts.1 1);
    }

abbrev pub then_cmp : Ordering → Ordering → Ordering
then_cmp less o = less
then_cmp equal o = o
then_cmp greater o = greater

pub cmp_core : Core → Core → Ordering
cmp_core a b =
    then_cmp (cmp a.major b.major)
      (then_cmp (cmp a.minor_version b.minor_version) (cmp a.patch_version b.patch_version))

-- No pre-release outranks any.
pub cmp_pre : Text → Text → Ordering
unfolding cmp_text
cmp_pre [] [] = equal
cmp_pre [] (b ∷ bs) = greater
cmp_pre (a ∷ more) [] = less
cmp_pre (a ∷ more) (b ∷ bs) = cmp_text (a ∷ more) (b ∷ bs)

pub compare_semver : Text → Text → Ordering
unfolding split_prerelease parse_core cmp_core cmp_pre
compare_semver a b =
    then_cmp (cmp_core (parse_core (split_prerelease a).0) (parse_core (split_prerelease b).0))
      (cmp_pre (split_prerelease a).1 (split_prerelease b).1)

abbrev is_greater : Ordering → Bool
is_greater greater = true
is_greater _ = false

unfoldable pub policy_allows : ApplyPolicy → Text → Text → Bool
unfolding compare_semver parse_core split_prerelease
policy_allows policy current candidate =
    let cur = parse_core (split_prerelease current).0 in
    let cand = parse_core (split_prerelease candidate).0 in
    if not (is_greater (compare_semver candidate current)) then false else elim policy [
      | never ↦ false
      | patch ↦ (cur.major == cand.major) && (cur.minor_version == cand.minor_version)
      | minor ↦ cur.major == cand.major
      | every ↦ true
    ]
