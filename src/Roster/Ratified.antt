-- ===== src/Roster/Ratified.antt =====
-- What the roster makes of a transition that was just ratified: `try_ratify` of
-- crates/myownmesh-core/src/engine/governance.rs, after its write lock.
use my_own_mesh.Base.{ℕ, ◌≡◌, refl, ◌∙◌, false, some, List, [], ◌∷◌, if◌then◌else◌}
use my_own_mesh.Base.Text.{Text, text_eq, text_eq_self, text_ordered}
use my_own_mesh.Base.TreeMap.{lookup, lookup-insert}
use my_own_mesh.Governance.{
  closed, Role, member, owner, TransitionVariant, kind_change, role_grant, role_revoke, evict,
  NetworkState, apply_transition,
}
use my_own_mesh.Roster.{AuthorizedPeer, is_authorized, add_peer_in, set_role_in, remove_peer_in}
use my_own_mesh.Roster.Mirror.{role_at, role_at-entry}
use my_own_mesh.Topology.{pubkey_part}

-- A row of the device with the role, which is added if it is missing.
abbrev with_role : ℕ → Text → Text → Role → List AuthorizedPeer → List AuthorizedPeer
with_role now id label role rows =
    (set_role_in (if is_authorized rows id then rows else add_peer_in now rows id label) id role).1

-- `me` is our own key and `label` our label.
pub mirror_ratified :
    ℕ → Text → Text → TransitionVariant → List AuthorizedPeer → List AuthorizedPeer
unfolding is_authorized add_peer_in set_role_in remove_peer_in
mirror_ratified now me label (role_grant target role) rows = with_role now target [] role rows
mirror_ratified now me label (role_revoke target) rows = (set_role_in rows target member).1
mirror_ratified now me label (kind_change closed) rows = with_role now me label owner rows
mirror_ratified now me label (evict target) rows =
    if is_authorized rows target then remove_peer_in rows target else rows
mirror_ratified now me label _ rows = rows

-- A close that somebody else founded leaves our signed role as it was, and marks us as an owner on our
-- own roster.
pub close_marks_self_owner :
    (now : ℕ) (me label founder : Text) (cosigners signatures : List Text) (at : ℕ)
    (gov : NetworkState) (rows : List AuthorizedPeer)
    → pubkey_part me ≡ me
    → text_eq me founder ≡ false
    → (lookup me
          (apply_transition gov (record {
            at = at;
            variant = kind_change closed;
            signers = founder ∷ cosigners;
            signatures = signatures;
          })).roles
        ≡ lookup me gov.roles)
      × (role_at (mirror_ratified now me label (kind_change closed) rows) me ≡ some owner)
unfolding mirror_ratified apply_transition
close_marks_self_owner now me label founder cosigners signatures at gov rows bare other = (
  lookup-insert me founder owner gov.roles ∙ rw other refl,
  role_at-entry now rows me label owner me bare ∙ rw (text_eq_self me) refl,
)
