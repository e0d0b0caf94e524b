-- ===== src/Ladder/Shelving.antt =====
-- What a pass of the topology selector leaves behind.
use my_own_mesh.Base.{
  ap, sym, ◌∙◌, ℕ, ◌≡◌, refl, inl, inr, Bool, true, false, List, [], ◌∷◌, if◌then◌else◌, arith,
  Bool-cases,
}
use my_own_mesh.Base.Text.{Text, text_ordered}
use my_own_mesh.Base.TreeMap.{TreeMap}
use my_own_mesh.Connection.{PeerState, PeerStatus, active, shelved, is_up}
use my_own_mesh.Ladder.{
  Links, active_peers, shelve_to, shelve_all, should_be_shelved, reevaluate_topology,
}

-- A peer that the pass has settled: not up, or marked, and shelved exactly when it is to be.
abbrev pub status_for : Bool → PeerStatus
status_for true = shelved
status_for false = active

abbrev IsSettledPeer : Bool → PeerState → Type 0
IsSettledPeer should p =
    is_up p.status ≡ true → (p.local_shelved ≡ should) × (p.status ≡ status_for should)

abbrev pub IsSettled : (Text → Bool) → TreeMap Text PeerState → Type 0
IsSettled should [] = Unit
IsSettled should ((id, p) ∷ peers) =
    (is_up p.status ≡ true → (p.local_shelved ≡ should id) × (p.status ≡ status_for (should id)))
    × IsSettled should peers

is_up-status_for : (b : Bool) → is_up (status_for b) ≡ true
is_up-status_for true = refl
is_up-status_for false = refl

shelve_to-settles :
    (should : Bool) (p : PeerState)
    → is_up p.status ≡ true
    → ((shelve_to should p).local_shelved ≡ should)
      × ((shelve_to should p).status ≡ status_for should)
unfolding shelve_to
shelve_to-settles should p h = ground arith

shelve_all-IsSettled :
    (should : Text → Bool) (peers : TreeMap Text PeerState)
    → IsSettled should (shelve_all should peers).0
unfolding shelve_all
shelve_all-IsSettled should [] = tt
shelve_all-IsSettled should ((id, p) ∷ peers) = elim (Bool-cases (is_up p.status)) [
  | inl e ↦ rw e ((λ h. shelve_to-settles (should id) p e), shelve_all-IsSettled should peers)
  | inr e ↦ rw e ((λ h. cc (h, e)), shelve_all-IsSettled should peers)
]

active_peers-shelve_all :
    (should : Text → Bool) (peers : TreeMap Text PeerState)
    → active_peers (shelve_all should peers).0 ≡ active_peers peers
unfolding active_peers shelve_all
active_peers-shelve_all should [] = refl
active_peers-shelve_all should ((id, p) ∷ peers) = ground (
  arith,
  shelve_to-settles (should id) p,
  is_up-status_for (should id),
  active_peers-shelve_all should peers,
)

shelve_to-same :
    (should : Bool) (p : PeerState)
    → p.local_shelved ≡ should
    → p.status ≡ status_for should
    → shelve_to should p ≡ p
unfolding shelve_to
shelve_to-same should p e f =
    ap (λ (st : PeerStatus). record p { status = st; local_shelved = should }) same_status
    ∙ ap (λ (b : Bool). record p { local_shelved = b }) (sym e)
  where
    same_status : (shelve_to should p).status ≡ p.status
    same_status = ground (arith, f)

shelve_all-settled :
    (should : Text → Bool) (peers : TreeMap Text PeerState)
    → IsSettled should peers
    → shelve_all should peers ≡ (peers, [])
unfolding shelve_all
shelve_all-settled should [] h = refl
shelve_all-settled should ((id, p) ∷ peers) h = elim (Bool-cases (is_up p.status)) [
  | inl e ↦ ground (
    arith,
    e,
    h.0 e,
    shelve_to-same (should id) p (h.0 e).0 (h.0 e).1,
    shelve_all-settled should peers h.1,
  )
  | inr e ↦ rw e (ap (λ r. ((id, p) ∷ r.0, r.1)) (shelve_all-settled should peers h.1))
]

IsSettled-cong :
    (a b : Text → Bool) (peers : TreeMap Text PeerState)
    → ((id : Text) → a id ≡ b id)
    → IsSettled b peers
    → IsSettled a peers
IsSettled-cong a b [] e h = tt
IsSettled-cong a b ((id, p) ∷ peers) e h =
    (λ up. rw (e id) (h.0 up), IsSettled-cong a b peers e h.1)

module _ (digest8 : Text → ℕ) where
  same_should :
      (links : Links) (id : Text)
      → should_be_shelved digest8 (reevaluate_topology digest8 links).0 id
        ≡ should_be_shelved digest8 links id
  unfolding should_be_shelved reevaluate_topology
  same_should links id = elim (Bool-cases links.self_evicted) [
    | inl e ↦ rw e refl
    | inr e ↦ rw e (rw (active_peers-shelve_all (should_be_shelved digest8 links) links.peers) refl)
  ]

  -- The marks and states are the ones that the tests of the pass ask for.
  pub reevaluate_topology-IsSettled :
      (links : Links)
      → links.self_evicted ≡ false
      → IsSettled (should_be_shelved digest8 links) (reevaluate_topology digest8 links).0.peers
  unfolding reevaluate_topology
  reevaluate_topology-IsSettled links e =
      rw e (shelve_all-IsSettled (should_be_shelved digest8 links) links.peers)

  settled_unchanged :
      (links : Links)
      → IsSettled (should_be_shelved digest8 links) links.peers
      → reevaluate_topology digest8 links ≡ (links, [])
  unfolding reevaluate_topology
  settled_unchanged links h = elim (Bool-cases links.self_evicted) [
    | inl e ↦ ground (arith, e)
    | inr e ↦
        ap
          (λ (b : Bool). if b then (links, []) else (
            record links { peers = (shelve_all (should_be_shelved digest8 links) links.peers).0 },
            (shelve_all (should_be_shelved digest8 links) links.peers).1,
          ))
          e
        ∙ ap
            (λ (r : TreeMap Text PeerState × List (Text × Bool)).
              (record links { peers = r.0 }, r.1))
            (shelve_all-settled (should_be_shelved digest8 links) links.peers h)
  ]

  -- A second pass right after the first changes nothing and sends nothing.
  pub reevaluate_topology_idem :
      (links : Links)
      → reevaluate_topology digest8 (reevaluate_topology digest8 links).0
        ≡ ((reevaluate_topology digest8 links).0, [])
  unfolding reevaluate_topology
  reevaluate_topology_idem links = elim (Bool-cases links.self_evicted) [
    | inl e ↦ ground (arith, e)
    | inr e ↦ settled_unchanged (reevaluate_topology digest8 links).0 (
        IsSettled-cong (should_be_shelved digest8 (reevaluate_topology digest8 links).0)
          (should_be_shelved digest8 links) (reevaluate_topology digest8 links).0.peers
          (same_should links) (reevaluate_topology-IsSettled links e))
  ]
