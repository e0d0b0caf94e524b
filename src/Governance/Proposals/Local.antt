-- ===== src/Governance/Proposals/Local.antt =====
-- What this device does to proposals: `propose`, `sign_proposal`, `deny_proposal`,
-- `withdraw_proposal` and `spawn_split` of crates/myownmesh-core/src/engine/governance.rs. Each is given
-- the outcome of the custody check and of saving, the time and the fresh id; what it broadcasts is part
-- of its result. The device signs a text by `sign`.
use my_own_mesh.Base.{
  ℕ, Bool, true, false, not, Option, none, some, List, [], ◌∷◌, ◌++◌, any, find?, update_first,
  first?, is_some, if◌then◌else◌,
}
use my_own_mesh.Base.Text.{Text, text_eq, text_le, text_ordered, bytes}
use my_own_mesh.Base.Sorting.{sort}
use my_own_mesh.Base.TreeMap.{lookup}
use my_own_mesh.Governance.{
  closed, role_eq, TransitionVariant, kind_change, role_grant, split, Transition, Proposal,
  NetworkState, apply_transition,
}
use my_own_mesh.Governance.Log.{Signing}
use my_own_mesh.Governance.Proposals.{is_proposal, remove_first, member_tier_timestamp, try_ratify}

pub data Failure : Type 0 where
  not_found denied already_signed already_denied not_proposer split_already_spawned : Failure
  only_closing custody_refused save_failed : Failure

pub data Message : Type 0 where
  propose_message :
      (proposal_id : Text) (variant : TransitionVariant) (proposer : Text) (created_at : ℕ)
      (signature : Text)
      → Message
  sign_message : (proposal_id signer signature : Text) → Message
  deny_message : (proposal_id signer signature : Text) → Message
  split_message :
      (parent_proposal_id new_network_id : Text) (members : List Text) (proposer : Text) (at : ℕ)
      (signature : Text)
      → Message

-- The state, what was broadcast, and the failure of the call, if any.
pub record Outcome : Type 0 where
  pub gov : NetworkState
  pub broadcast : List Message
  pub failure : Option Failure

abbrev fails : NetworkState → Failure → Outcome
fails gov failure = record { gov = gov; broadcast = []; failure = some failure }

abbrev pub signed_by : Text → Proposal → Bool
signed_by signer p = any (λ (s : Text). text_eq s signer) p.signers

abbrev pub denied_by : Text → Proposal → Bool
denied_by signer p = any (λ (s : Text). text_eq s signer) p.deniers

abbrev pub add_signature : Text → Text → Proposal → Proposal
add_signature signer signature p = record p {
  signers = p.signers ++ signer ∷ [];
  signatures = p.signatures ++ signature ∷ [];
}

abbrev pub add_denier : Text → Proposal → Proposal
add_denier signer p = record p { deniers = p.deniers ++ signer ∷ [] }

abbrev pub mark_spawned : Proposal → Proposal
mark_spawned p = record p { split_spawned = true }

abbrev pub with_proposal : Text → (Proposal → Proposal) → NetworkState → NetworkState
with_proposal id f gov = record gov { pending = update_first (is_proposal id) f gov.pending }

abbrev is_closing : TransitionVariant → Bool
is_closing (kind_change closed) = true
is_closing _ = false

-- A grant of the role that the target holds in the role map already.
unfoldable pub is_reassertion : NetworkState → TransitionVariant → Bool
unfolding lookup
is_reassertion gov (role_grant target role) = elim (lookup target gov.roles) [
  | none ↦ false
  | some r ↦ role_eq r role
]
is_reassertion gov _ = false

-- What a denial is signed over.
unfoldable pub deny_payload : Text → Text → Text → Text
deny_payload network_id proposal_id signer =
    bytes "myownmesh-network-state-v1:"
    ++ bytes "deny|"
    ++ network_id
    ++ 124 ∷ proposal_id
    ++ 124 ∷ signer

join_bars : List Text → Text
join_bars [] = []
join_bars (x ∷ []) = x
join_bars (x ∷ y ∷ xs) = x ++ 124 ∷ join_bars (y ∷ xs)

-- `digest` is the lower-case base32 text of a SHA-256 digest.
pub derive_split_network_id : (Text → Text) → Text → List Text → Text
unfolding join_bars text_le
derive_split_network_id digest parent_id signers =
    digest (bytes "myownmesh-split-v1:" ++ parent_id ++ 124 ∷ join_bars (sort text_le signers))

module _ (sig : Signing) (key : Transition → Text) (network_id me : Text) (sign : Text → Text)
    (digest : Text → Text) where
  -- `sign_transition` with our own key.
  abbrev own_signature : TransitionVariant → Text
  own_signature variant = sign (sig.payload network_id variant)

  abbrev pub own_proposal : NetworkState → ℕ → Text → TransitionVariant → Proposal
  own_proposal gov now id variant = record {
    id = id;
    created_at = member_tier_timestamp gov now variant;
    proposer = me;
    variant = variant;
    signers = me ∷ [];
    signatures = own_signature variant ∷ [];
    deniers = [];
    split_spawned = false;
  }

  abbrev ratified : NetworkState → Text → NetworkState
  ratified gov id = (try_ratify sig key network_id gov id).0

  -- Broadcasts of the state's summary, which every operation makes too, are left out of `broadcast`.
  unfoldable pub propose : Bool → Bool → ℕ → Text → TransitionVariant → NetworkState → Outcome
  unfolding is_reassertion member_tier_timestamp try_ratify
  propose custody saves now id variant gov =
      let added = record gov { pending = gov.pending ++ own_proposal gov now id variant ∷ [] } in
      if is_reassertion gov variant
      then record { gov = gov; broadcast = []; failure = none }
      else if not custody
      then fails gov custody_refused
      else if not saves
      then fails added save_failed
      else record {
        gov = ratified added id;
        broadcast = propose_message id variant me now (own_signature variant) ∷ [];
        failure = none;
      }

  unfoldable pub sign_proposal : Bool → Bool → Text → NetworkState → Outcome
  unfolding text_eq try_ratify
  sign_proposal custody saves id gov = elim (find? (is_proposal id) gov.pending) [
    | none ↦ fails gov not_found
    | some p ↦
        let signature = own_signature p.variant in
        let signed = with_proposal id (add_signature me signature) gov in
        if is_some (first? p.deniers)
        then fails gov denied
        else if signed_by me p
        then fails gov already_signed
        else if not custody
        then fails gov custody_refused
        else if not saves
        then fails signed save_failed
        else record {
          gov = ratified signed id;
          broadcast = sign_message id me signature ∷ [];
          failure = none;
        }
  ]

  unfoldable pub deny_proposal : Bool → Text → NetworkState → Outcome
  unfolding text_eq try_ratify deny_payload
  deny_proposal saves id gov = elim (find? (is_proposal id) gov.pending) [
    | none ↦ fails gov not_found
    | some p ↦
        let refused = with_proposal id (add_denier me) gov in
        if denied_by me p
        then fails gov already_denied
        else if not saves
        then fails refused save_failed
        else record {
          gov = ratified refused id;
          broadcast = deny_message id me (sign (deny_payload network_id id me)) ∷ [];
          failure = none;
        }
  ]

  unfoldable pub withdraw_proposal : Bool → Text → NetworkState → Outcome
  unfolding text_eq remove_first
  withdraw_proposal saves id gov = elim (find? (is_proposal id) gov.pending) [
    | none ↦ fails gov not_found
    | some p ↦ if not (text_eq p.proposer me) then fails gov not_proposer else record {
      gov = record gov { pending = remove_first id gov.pending };
      broadcast = [];
      failure = if saves then none else some save_failed;
    }
  ]

  unfoldable pub spawn_split : Bool → ℕ → Text → NetworkState → Outcome
  unfolding text_eq derive_split_network_id apply_transition
  spawn_split saves now id gov = elim (find? (is_proposal id) gov.pending) [
    | none ↦ fails gov not_found
    | some p ↦
        let new_network_id = derive_split_network_id digest network_id p.signers in
        let variant : TransitionVariant = split new_network_id p.signers in
        let signature = own_signature variant in
        let t : Transition = record {
          at = now;
          variant = variant;
          signers = me ∷ [];
          signatures = signature ∷ [];
        } in
        let after = with_proposal id mark_spawned (apply_transition gov t) in
        if not (text_eq p.proposer me)
        then fails gov not_proposer
        else if p.split_spawned
        then fails gov split_already_spawned
        else if not (is_closing p.variant)
        then fails gov only_closing
        else if not saves
        then fails after save_failed
        else record {
          gov = after;
          broadcast = split_message id new_network_id p.signers me now signature ∷ [];
          failure = none;
        }
  ]
