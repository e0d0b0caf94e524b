-- ===== src/Tests/AdoptionRuns.antt =====
-- Adoption of a founder's log, a close seen by another device, and a locked device. A signature is the
-- signer's name; the digests are short.
use my_own_mesh.Base.{
  ◌≡◌, refl, ◌⊎◌, ◌<◌, List, length, true, false, none, some, [], ◌∷◌, first?, unwrap_or,
}
use my_own_mesh.Base.Results.{ok}
use my_own_mesh.Base.Text.{Text, bytes, text_eq, text_ordered}
use my_own_mesh.Base.TreeMap.{lookup}
use my_own_mesh.Governance.{
  closed, owner, kind_change, evict, Transition, NetworkState, empty_for, apply_transition,
}
use my_own_mesh.Governance.Log.{Signing, verify_log}
use my_own_mesh.Governance.Adoption.{adopt_transition_log}
use my_own_mesh.Governance.Adoption.Convergence.{adopt_transition_log_idem}
use my_own_mesh.Governance.Adoption.Extension.{HasPrefix, adopted-IsExtension}
use my_own_mesh.Governance.Proposals.Local.{propose, sign_proposal}
use my_own_mesh.Roster.Mirror.{role_at}
use my_own_mesh.Roster.Ratified.{mirror_ratified, close_marks_self_owner}
use my_own_mesh.Custody.{Enrollment, CustodyStore, Crypto, given_code}
use my_own_mesh.Custody.Authoring.{IsInert, passes, locked-IsInert}
use my_own_mesh.Topology.{pubkey_part, rsplit_dash}

abbrev alice : Text
alice = bytes "alice"

abbrev bob : Text
bob = bytes "bob"

abbrev net_id : Text
net_id = bytes "net"

abbrev by_name : Signing
by_name = record { verify = λ signer payload s. ok (text_eq signer s); payload = λ id v. id }

abbrev by_signers : Transition → Text
by_signers t = unwrap_or (first? t.signers) []

abbrev close : Transition
close = record {
  at = 1;
  variant = kind_change closed;
  signers = alice ∷ [];
  signatures = alice ∷ [];
}

abbrev fresh : NetworkState
unfolding empty_for
fresh = empty_for net_id

-- The close is ours, and the peer's log has a removal behind it.
abbrev closed_by_us : NetworkState
closed_by_us = record fresh { kind = closed; transitions = close ∷ [] }

abbrev longer_log : List Transition
longer_log =
    close
    ∷ record { at = 2; variant = evict bob; signers = alice ∷ []; signatures = alice ∷ [] }
    ∷ []

adopted-IsExtension_example :
    ((adopt_transition_log by_name by_signers net_id longer_log [] closed_by_us).gov.transitions
      ≡ closed_by_us.transitions)
    ⊎ (((adopt_transition_log by_name by_signers net_id longer_log [] closed_by_us).gov.transitions
          ≡ longer_log)
        × (length closed_by_us.transitions < length longer_log)
        × HasPrefix longer_log closed_by_us.transitions
        × (s : NetworkState) × (verify_log by_name net_id longer_log ≡ ok s))
adopted-IsExtension_example =
    adopted-IsExtension by_name by_signers net_id longer_log [] closed_by_us

abbrev adopted : NetworkState
adopted = (adopt_transition_log by_name by_signers net_id (close ∷ []) [] fresh).gov

adopt_transition_log_idem_example :
    ((adopt_transition_log by_name by_signers net_id (close ∷ []) [] adopted).gov ≡ adopted)
    × ((adopt_transition_log by_name by_signers net_id (close ∷ []) [] adopted).changed ≡ false)
adopt_transition_log_idem_example =
    adopt_transition_log_idem by_name by_signers net_id (close ∷ []) [] fresh

close_marks_self_owner_example :
    (lookup bob (apply_transition fresh close).roles ≡ lookup bob fresh.roles)
    × (role_at (mirror_ratified 1 bob [] (kind_change closed) []) bob ≡ some owner)
unfolding pubkey_part rsplit_dash text_eq
close_marks_self_owner_example =
    close_marks_self_owner 1 bob [] alice [] (alice ∷ []) 1 fresh [] refl refl

-- An HMAC of zeros, and a digest that leaves the text.
abbrev crypto : Crypto
crypto = record {
  hmac = λ secret counter. [];
  digest = λ text. text;
  encode = λ text. text;
  decode = λ text. some text;
}

abbrev enrolled : Enrollment
enrolled = record { secret_b32 = bytes "s"; recovery_hashes = bytes "abc" ∷ []; created_at = 1 }

abbrev store : CustodyStore
store = (net_id, enrolled) ∷ []

locked-IsInert_example :
    IsInert fresh (
      propose by_name by_signers net_id alice
        (λ payload. alice)
        (λ text. text)
        (passes crypto 90 true net_id none store)
        true
        5
        (bytes "p")
        (evict bob)
        fresh)
    × IsInert fresh (
        sign_proposal by_name by_signers net_id alice
          (λ payload. alice)
          (λ text. text)
          (passes crypto 90 true net_id none store)
          true
          (bytes "p")
          fresh)
unfolding lookup text_eq given_code
locked-IsInert_example =
    locked-IsInert by_name by_signers net_id alice (λ payload. alice) (λ text. text) crypto 90 true
      none store enrolled true 5 (bytes "p") (evict bob) fresh refl refl
