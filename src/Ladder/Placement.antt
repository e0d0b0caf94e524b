-- ===== src/Ladder/Placement.antt =====
-- Which peers a pass of `reevaluate_topology` of crates/myownmesh-core/src/engine/ladder.rs shelves.
use my_own_mesh.Base.{
  ℕ, ◌≡◌, refl, sym, ap, subst, ◌↔◌, not, Bool, true, false, ◌&&◌, List, [], ◌∷◌, map, filterb,
  any-Some, Some, Some-map, inl, inr, Bool-cases, if◌then◌else◌,
}
use my_own_mesh.Base.Text.{Text, text_eq, text_eq_iff, text_ordered}
use my_own_mesh.Base.TreeMap.{TreeMap}
use my_own_mesh.Connection.{PeerState, PeerStatus, active, shelved, is_up}
use my_own_mesh.Topology.Selector.{select_preferred}
use my_own_mesh.Ladder.{Links, among, active_peers, should_be_shelved, reevaluate_topology}
use my_own_mesh.Ladder.Shelving.{status_for, IsSettled, reevaluate_topology-IsSettled}

-- The ids of the peers that are up.
abbrev pub ups : TreeMap Text PeerState → List Text
ups peers = map (λ entry. entry.0) (filterb (λ entry. is_up entry.1.status) peers)

active_peers-ups : (peers : TreeMap Text PeerState) → active_peers peers ≡ ups peers
unfolding active_peers
active_peers-ups [] = refl
active_peers-ups ((id, p) ∷ peers) = elim (Bool-cases (is_up p.status)) [
  | inl e ↦ rw (active_peers, e) (ap (λ (ids : List Text). id ∷ ids) (active_peers-ups peers))
  | inr e ↦ rw (active_peers, e) (active_peers-ups peers)
]

among_iff : (xs : List Text) (x : Text) → (among xs x ≡ true) ↔ Some (λ y. x ≡ y) xs
unfolding among
among_iff xs x = (
  λ h. Some-map (λ y e. (text_eq_iff x y).0 e) ((any-Some (λ (y : Text). text_eq x y) xs).0 h),
  λ s. (any-Some (λ (y : Text). text_eq x y) xs).1 (Some-map (λ y e. (text_eq_iff x y).1 e) s),
)

neither_iff :
    (a b : Bool) {P Q : Type 0}
    → (a ≡ true) ↔ P
    → (b ≡ true) ↔ Q
    → ((not a && not b) ≡ true) ↔ ((¬ P) × (¬ Q))
neither_iff true b f g = (λ h. cc, λ h. absurd (h.0 (f.0 refl)))
neither_iff false true f g = (λ h. cc, λ h. absurd (h.1 (g.0 refl)))
neither_iff false false f g = (λ h. (λ p. cc (f.1 p), λ q. cc (g.1 q)), λ h. refl)

module _ (digest8 : Text → ℕ) (links : Links) where
  -- The selector does not choose the peer from those that are up, and it is not pinned.
  abbrev pub IsUnwanted : Text → Type 0
  IsUnwanted id =
      (¬ Some (λ y. id ≡ y) (select_preferred digest8 links.selector links.me (ups links.peers)))
      × (¬ Some (λ y. id ≡ y) links.sticky)

  should_be_shelved_iff : (id : Text) → (should_be_shelved digest8 links id ≡ true) ↔ IsUnwanted id
  unfolding should_be_shelved
  should_be_shelved_iff id =
      neither_iff
        (among (select_preferred digest8 links.selector links.me (active_peers links.peers)) id)
        (among links.sticky id)
        (subst
          (λ (ids : List Text).
            (among (select_preferred digest8 links.selector links.me (active_peers links.peers)) id
              ≡ true)
            ↔ Some (λ y. id ≡ y) (select_preferred digest8 links.selector links.me ids))
          (active_peers-ups links.peers)
          (among_iff (select_preferred digest8 links.selector links.me (active_peers links.peers))
            id))
        (among_iff links.sticky id)

  -- A peer that is up is marked as shelved exactly when it is unwanted, and its status says the same.
  abbrev pub IsPlaced : TreeMap Text PeerState → Type 0
  IsPlaced [] = Unit
  IsPlaced ((id, p) ∷ peers) =
      (is_up p.status ≡ true
        → ((p.local_shelved ≡ true) ↔ IsUnwanted id)
          × (p.status ≡ (if p.local_shelved then shelved else active)))
      × IsPlaced peers

  placed :
      (peers : TreeMap Text PeerState)
      → IsSettled (should_be_shelved digest8 links) peers
      → IsPlaced peers
  placed [] h = tt
  placed ((id, p) ∷ peers) h = (
    λ up. (
      subst (λ (b : Bool). (b ≡ true) ↔ IsUnwanted id) (sym (h.0 up).0) (should_be_shelved_iff id),
      status_of p.local_shelved (should_be_shelved digest8 links id) p.status (h.0 up).0 (h.0 up).1,
    ),
    placed peers h.1,
  )
    where
      status_of :
          (a b : Bool) (st : PeerStatus)
          → a ≡ b
          → st ≡ status_for b
          → st ≡ (if a then shelved else active)
      status_of true true st e f = f
      status_of false false st e f = f
      status_of true false st e f = cc
      status_of false true st e f = cc

  -- After a pass on an engine that is not evicted, every peer that is up is marked as shelved exactly
  -- when the selector does not choose it from the peers that were up and it is not pinned, and its
  -- status says the same.
  pub reevaluate_topology-IsPlaced :
      links.self_evicted ≡ false → IsPlaced (reevaluate_topology digest8 links).0.peers
  reevaluate_topology-IsPlaced e =
      placed (reevaluate_topology digest8 links).0.peers
        (reevaluate_topology-IsSettled digest8 links e)
