-- ===== src/Tests/MemberRuns.antt =====
-- The member tier on a network that `alice` owns, with the entries keyed by their fields.
use my_own_mesh.Base.{◌≡◌, refl, ℕ, List, [], ◌∷◌, ◌++◌, none}
use my_own_mesh.Base.Results.{ok}
use my_own_mesh.Base.Text.{Text, bytes, text_eq, text_le, text_ordered}
use my_own_mesh.Base.TreeMap.{lookup, insert}
use my_own_mesh.Governance.{
  closed, member, controller, owner, role_grant, role_revoke, evict, kind_change, TransitionVariant,
  Transition, NetworkState, empty_for, role_of, apply_transition,
}
use my_own_mesh.Governance.Log.{Signing}
use my_own_mesh.Governance.Log.Replay.{replay}
use my_own_mesh.Governance.MemberLog.{member_log_verdict, merge_member_logs, split_member_tier}
use my_own_mesh.Governance.MemberLog.Convergence.{verdict-Perm}
use my_own_mesh.Governance.MemberLog.Join.{merge_semilattice}
use my_own_mesh.Governance.MemberLog.Migration.{migration_undoes_demotion}
use my_own_mesh.Tests.Keys.{key, key_injective}
use mathlib.Core.List.{Permᴰ}

abbrev alice : Text
alice = bytes "alice"

abbrev dave : Text
dave = bytes "dave"

abbrev net_id : Text
net_id = bytes "net"

abbrev by_name : Signing
by_name = record { verify = λ signer payload s. ok (text_eq signer s); payload = λ id v. id }

abbrev signed : ℕ → TransitionVariant → Transition
signed at v = record { at = at; variant = v; signers = alice ∷ []; signatures = alice ∷ [] }

abbrev gov : NetworkState
gov = record {
  version = 2;
  network_id = net_id;
  kind = closed;
  roles = (alice, owner) ∷ [];
  transitions = [];
  member_log = [];
  pending = [];
  splits = [];
  topology = none;
}

abbrev admit : Transition
admit = signed 5 (role_grant dave member)

abbrev removal : Transition
removal = signed 5 (role_revoke dave)

abbrev late_removal : Transition
late_removal = signed 9 (evict dave)

verdict-Perm_example :
    member_log_verdict by_name key gov (admit ∷ removal ∷ []) net_id
    ≡ member_log_verdict by_name key gov (removal ∷ admit ∷ []) net_id
verdict-Perm_example =
    verdict-Perm key key_injective by_name gov (admit ∷ removal ∷ []) (removal ∷ admit ∷ []) net_id
      ∣ Permᴰ.swap refl refl ∣₁

abbrev legacy : List Transition
legacy = signed 1 (kind_change closed) ∷ signed 2 (role_grant dave controller) ∷ []

abbrev demotion : Transition
demotion = signed 3 (role_grant dave member)

abbrev legacy_state : NetworkState
legacy_state = record gov { transitions = legacy ++ demotion ∷ [] }

migration_undoes_demotion_example :
    (role_of (replay (empty_for net_id) legacy_state.transitions) dave ≡ member)
    × (role_of (replay (empty_for net_id) (split_member_tier legacy_state).transitions) dave
        ≡ role_of (replay (empty_for net_id) legacy) dave)
unfolding role_of lookup insert apply_transition empty_for text_eq text_le
migration_undoes_demotion_example =
    migration_undoes_demotion legacy_state net_id dave legacy demotion refl refl (λ e. cc)

merge_semilattice_example :
    (merge_member_logs key (admit ∷ []) (removal ∷ [])
      ≡ merge_member_logs key (removal ∷ []) (admit ∷ []))
    × (merge_member_logs key (merge_member_logs key (admit ∷ []) (removal ∷ [])) (late_removal ∷ [])
        ≡ merge_member_logs key
            (admit ∷ [])
            (merge_member_logs key (removal ∷ []) (late_removal ∷ [])))
    × (merge_member_logs key (merge_member_logs key (admit ∷ []) (removal ∷ [])) (removal ∷ [])
        ≡ merge_member_logs key (admit ∷ []) (removal ∷ []))
merge_semilattice_example =
    merge_semilattice key key_injective (admit ∷ []) (removal ∷ []) (late_removal ∷ [])
