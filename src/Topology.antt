-- ===== src/Topology.antt =====
-- The shape of the network: crates/myownmesh-core/src/topology/{mod,star,hubs,fullmesh}.rs, and the
-- key part of a device id, crates/myownmesh-core/src/signing.rs.
-- first eight bytes of a SHA-256 digest are a parameter, `digest8`, for the hash is not part of the
-- repository.
pub mod Star
pub mod Hubs
pub mod Ring
pub mod FullMesh
pub mod Selector
pub mod Symmetry
pub mod Hops
use my_own_mesh.Base.{
  ℕ, ◌+◌, ◌*◌, Bool, true, false, not, ◌&&◌, ◌||◌, Option, none, some, List, [], ◌∷◌, ◌++◌, map,
  max, length, take, any, all, filterb, leb, ◌==◌, if◌then◌else◌, unwrap_or,
}
use my_own_mesh.Base.Text.{Text, text_eq, text_le}
use my_own_mesh.Base.Sorting.{sort}

-- `rsplit_once('-')`.
unfoldable pub rsplit_dash : Text → Option (Text × Text)
rsplit_dash [] = none
rsplit_dash (c ∷ cs) = elim (rsplit_dash cs) [
  | some (body, suffix) ↦ some (c ∷ body, suffix)
  | none ↦ if c == 45 then some ([], cs) else none
]

abbrev is_ascii_alphanumeric : ℕ → Bool
is_ascii_alphanumeric c = leb 48 c && leb c 57 || leb 65 c && leb c 90 || leb 97 c && leb c 122

unfoldable pub pubkey_part : Text → Text
unfolding rsplit_dash
pubkey_part device_id = elim (rsplit_dash device_id) [
  | some (body, suffix) ↦
      if (length suffix == 5) && all is_ascii_alphanumeric suffix then body else device_id
  | none ↦ device_id
]

-- `signing::pubkey_part(a) == signing::pubkey_part(b)`.
pub same_key : Text → Text → Bool
unfolding text_eq pubkey_part
same_key a b = text_eq (pubkey_part a) (pubkey_part b)
