-- ===== src/Governance/MemberLog/LatestWord.antt =====
-- Who is a member by the member log: the latest word of an owner or a manager decides.
-- `member_log_verdict` of crates/myownmesh-core/src/network_state.rs.
use my_own_mesh.Base.{◌≡◌, Bool, some}
use my_own_mesh.Base.Text.{Text, text_ordered}
use my_own_mesh.Base.TreeMap.{IsSorted}
use my_own_mesh.Governance.{controller, Transition, NetworkState}
use my_own_mesh.Governance.Quorum.Authority.{Commands}
use my_own_mesh.Governance.Log.{Signing}
use my_own_mesh.Governance.Log.Signatures.{AreSigned}
use my_own_mesh.Governance.MemberLog.LastWriter.{says}

module _ (sig : Signing) (gov : NetworkState) (sorted : IsSorted gov.roles) (id d : Text) where
  -- An entry that is signed, by an owner or a controller of the signed state among others, and says of
  -- the device that it is a member or, for `false`, that it is not.
  abbrev pub Rules : Bool → Transition → Type 0
  Rules b t = (AreSigned sig id t × Commands gov controller t.signers) × (says d t.variant ≡ some b)
