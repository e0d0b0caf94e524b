-- ===== src/Roster/Mirror.antt =====
-- What the roster says after the signed roles were mirrored on it.
use my_own_mesh.Base.{and_then}
use my_own_mesh.Base.{
  ℕ, ◌≡◌, refl, ◌∙◌, Bool, true, false, not, ◌||◌, inl, inr, Option, none, some, List, [], ◌∷◌,
  ◌++◌, map, any, find?, filterb, update_first, or_else, is_some, All, if◌then◌else◌, Bool-cases,
  arith,
}
use my_own_mesh.Base.Text.{Text, text_eq, text_eq_iff, text_ordered}
use my_own_mesh.Base.TreeMap.{TreeMap, lookup, contains_key, IsSorted, lookup-Above}
use my_own_mesh.Base.TreeSet.{contains}
use my_own_mesh.Governance.{Role, member, controller, owner, role_eq}
use my_own_mesh.Topology.{pubkey_part}
use my_own_mesh.Roster.{
  AuthorizedPeer, is_row, has_other_role, is_authorized, add_peer_in, set_role_in, mirror_roles,
  is_kept, is_stale, clear_stale, mirror_roles_to_roster,
}

-- The role that a device's row says.
abbrev pub role_at : List AuthorizedPeer → Text → Option Role
role_at [] x = none
role_at (p ∷ rows) x =
    let rest = role_at rows x in if text_eq p.device_id x then some p.role else rest

-- The id carries no display suffix.
abbrev IsBare : Text × Role → Type 0
IsBare entry = pubkey_part entry.0 ≡ entry.0

role_at-kept :
    (self_pk : Text) (removed : List Text) (rows : List AuthorizedPeer) (x : Text)
    → role_at (filterb (is_kept self_pk removed) rows) x
      ≡ (if text_eq x self_pk || not (contains removed x) then role_at rows x else none)
unfolding is_kept
role_at-kept self_pk removed [] x = ground arith
role_at-kept self_pk removed (p ∷ rows) x =
    ground (arith, role_at-kept self_pk removed rows x, text_eq_iff p.device_id x)

same_role : (a b : Role) → role_eq a b ≡ true → a ≡ b
same_role member member h = refl
same_role controller controller h = refl
same_role owner owner h = refl
same_role member controller h = cc
same_role member owner h = cc
same_role controller member h = cc
same_role controller owner h = cc
same_role owner member h = cc
same_role owner controller h = cc

clear_stale_id :
    (roles : TreeMap Text Role) (p : AuthorizedPeer) → (clear_stale roles p).device_id ≡ p.device_id
unfolding clear_stale
clear_stale_id roles p = ground arith

clear_stale_role :
    (roles : TreeMap Text Role) (p : AuthorizedPeer)
    → (clear_stale roles p).role ≡ (if contains_key p.device_id roles then p.role else member)
unfolding clear_stale is_stale
clear_stale_role roles p = ground (arith, same_role p.role member)

role_at-cleared :
    (roles : TreeMap Text Role) (rows : List AuthorizedPeer) (x : Text)
    → role_at (map (clear_stale roles) rows) x
      ≡ and_then (role_at rows x) (λ r. some (if contains_key x roles then r else member))
role_at-cleared roles [] x = refl
role_at-cleared roles (p ∷ rows) x = ground (
  arith,
  role_at-cleared roles rows x,
  clear_stale_id roles p,
  clear_stale_role roles p,
  text_eq_iff p.device_id x,
)

role_at-update :
    (rows : List AuthorizedPeer) (k : Text) (role : Role) (x : Text)
    → any (is_row k) rows ≡ true
    → role_at (update_first (is_row k) (λ (p : AuthorizedPeer). record p { role = role }) rows) x
      ≡ (if text_eq k x then some role else role_at rows x)
role_at-update [] k role x h = cc
role_at-update (p ∷ rows) k role x h = ground (
  arith,
  role_at-update rows k role x,
  text_eq_iff p.device_id k,
  text_eq_iff p.device_id x,
  text_eq_iff k x,
)

role_at-found :
    (rows : List AuthorizedPeer) (k : Text) (role : Role)
    → any (is_row k) rows ≡ true
    → has_other_role role (find? (is_row k) rows) ≡ false
    → role_at rows k ≡ some role
role_at-found [] k role h e = cc
role_at-found (p ∷ rows) k role h e =
    ground (arith, role_at-found rows k role, same_role p.role role)

role_at-tagged :
    (rows : List AuthorizedPeer) (k : Text) (role : Role) (x : Text)
    → pubkey_part k ≡ k
    → any (is_row k) rows ≡ true
    → role_at (set_role_in rows k role).1 x ≡ (if text_eq k x then some role else role_at rows x)
unfolding set_role_in
role_at-tagged rows k role x bare h =
    elim (Bool-cases (has_other_role role (find? (is_row k) rows))) [
      | inl e ↦ rw (bare, e) (role_at-update rows k role x h)
      | inr e ↦ rw (bare, e) (ground (arith, role_at-found rows k role h e, text_eq_iff k x))
    ]

any-last :
    (k : Text) (rows : List AuthorizedPeer) (p : AuthorizedPeer)
    → p.device_id ≡ k
    → any (is_row k) (rows ++ p ∷ []) ≡ true
any-last k [] p e = ground (arith, text_eq_iff p.device_id k)
any-last k (q ∷ rows) p e = ground (arith, any-last k rows p e)

role_at-last :
    (rows : List AuthorizedPeer) (p : AuthorizedPeer) (x : Text)
    → role_at (rows ++ p ∷ []) x
      ≡ or_else (role_at rows x) (if text_eq p.device_id x then some p.role else none)
role_at-last [] p x = refl
role_at-last (q ∷ rows) p x = ground (arith, role_at-last rows p x)

-- One turn of the loop over the signed roles.
pub role_at-entry :
    (now : ℕ) (rows : List AuthorizedPeer) (k label : Text) (role : Role) (x : Text)
    → pubkey_part k ≡ k
    → role_at
        (set_role_in (if is_authorized rows k then rows else add_peer_in now rows k label) k role).1
        x
      ≡ (if text_eq k x then some role else role_at rows x)
unfolding is_authorized add_peer_in
role_at-entry now rows k label role x bare = elim (Bool-cases (any (is_row k) rows)) [
  | inl e ↦ rw (bare, e) (role_at-tagged rows k role x bare e)
  | inr e ↦
      let row : AuthorizedPeer = record {
        device_id = k;
        label = label;
        approved_at = now;
        role = member;
      } in
      rw (bare, e)
        (ground (
          arith,
          role_at-tagged (rows ++ row ∷ []) k role x bare (any-last k rows row refl),
          role_at-last rows row x,
        ))
]

role_at-mirrored :
    (now : ℕ) (roles : TreeMap Text Role) (rows : List AuthorizedPeer) (x : Text)
    → All IsBare roles
    → IsSorted roles
    → role_at (mirror_roles now roles rows).0 x ≡ or_else (lookup x roles) (role_at rows x)
unfolding mirror_roles lookup
role_at-mirrored now [] rows x bare sorted = refl
role_at-mirrored now ((k, role) ∷ roles) rows x bare sorted =
    let entry : List AuthorizedPeer =
      (set_role_in (if is_authorized rows k then rows else add_peer_in now rows k []) k role).1 in
    ground (
      arith,
      role_at-mirrored now roles entry x bare.1 sorted.1,
      role_at-entry now rows k [] role x bare.0,
      lookup-Above k roles sorted.0,
      text_eq_iff k x,
      text_eq_iff x k,
    )

contains_key-lookup : (x : Text) (m : TreeMap Text Role) → contains_key x m ≡ is_some (lookup x m)
unfolding contains_key lookup
contains_key-lookup x m = ground arith

-- What clearing makes of the role that the mirror left.
cleared_role :
    (signed old : Option Role) (has : Bool)
    → has ≡ is_some signed
    → and_then (or_else signed old) (λ r. some (if has then r else member))
      ≡ or_else signed (and_then old (λ r. some member))
cleared_role none old has e = rw e refl
cleared_role (some role) old has e = rw e refl

-- When the signed roles are a map whose keys have no display suffix, after the mirror the roster says:
-- nothing of a device with a tombstone, unless it is our own; of
-- any other the signed role, or else that a device which had a row is a member.
pub role_at-mirror_roles_to_roster :
    (now : ℕ) (roles : TreeMap Text Role) (rows : List AuthorizedPeer) (removed : List Text)
    (self_pubkey x : Text)
    → All IsBare roles
    → IsSorted roles
    → role_at (mirror_roles_to_roster now roles rows removed self_pubkey).0 x ≡ (
        if text_eq x (pubkey_part self_pubkey) || not (contains removed x)
        then or_else (lookup x roles) (and_then (role_at rows x) (λ r. some member))
        else none)
unfolding mirror_roles_to_roster
role_at-mirror_roles_to_roster now roles rows removed self_pubkey x bare sorted =
    role_at-cleared roles
      (filterb (is_kept (pubkey_part self_pubkey) removed) (mirror_roles now roles rows).0) x
    ∙ rw
        (
          role_at-kept (pubkey_part self_pubkey) removed (mirror_roles now roles rows).0 x,
          role_at-mirrored now roles rows x bare sorted,
        )
        (ground (
          arith,
          cleared_role (lookup x roles) (role_at rows x) (contains_key x roles)
              (contains_key-lookup x roles),
        ))
