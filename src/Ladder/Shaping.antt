-- ===== src/Ladder/Shaping.antt =====
-- What the connection-shaping pass can close and dial.
use my_own_mesh.Base.{ℕ, ◌≡◌, true, false, [], ◌∷◌, arith}
use my_own_mesh.Base.Text.{Text, text_eq_iff, text_le_total}
use my_own_mesh.Base.TreeMap.{TreeMap}
use my_own_mesh.Connection.{PeerState}
use my_own_mesh.Ladder.{
  Links, among, has_edge, is_pruned, is_dialed, to_prune, to_dial, shape_connections,
}

module _ (digest8 : Text → ℕ) where
  to_dial-is_dialed :
      (links : Links) (id : Text) (peers : TreeMap Text PeerState)
      → among (to_dial digest8 links peers) id ≡ true
      → is_dialed digest8 links id ≡ true
  unfolding among to_dial
  to_dial-is_dialed links id [] h = cc
  to_dial-is_dialed links id ((j, p) ∷ peers) h =
      ground (arith, to_dial-is_dialed links id peers, text_eq_iff id j)

  to_prune-is_pruned :
      (links : Links) (id : Text) (peers : TreeMap Text PeerState)
      → among (to_prune digest8 links peers) id ≡ true
      → (among links.sessions id ≡ true)
        × (has_edge digest8 links id ≡ false)
        × (among links.sticky id ≡ false)
  unfolding among to_prune is_pruned
  to_prune-is_pruned links id [] h = cc
  to_prune-is_pruned links id ((j, p) ∷ peers) h =
      ground (arith, to_prune-is_pruned links id peers, text_eq_iff id j)

  -- Of two engines at most one dials the other in a shaping pass, however much their views of the
  -- network, their selectors and their pins differ.
  one_dials :
      (here there : Links)
      → among (shape_connections digest8 here).1 there.me ≡ true
      → among (shape_connections digest8 there).1 here.me ≡ false
  unfolding shape_connections is_dialed among
  one_dials here there h = ground (
    arith,
    to_dial-is_dialed here there.me here.peers,
    to_dial-is_dialed there here.me there.peers,
    text_le_total here.me there.me,
  )

  -- A shaping pass closes only links with a session, on which the selector wants no edge and which
  -- are not pinned, and dials none of those that it closes.
  pruned-unwanted :
      (links : Links) (id : Text)
      → among (shape_connections digest8 links).0 id ≡ true
      → (among links.sessions id ≡ true)
        × (has_edge digest8 links id ≡ false)
        × (among links.sticky id ≡ false)
        × (among (shape_connections digest8 links).1 id ≡ false)
  unfolding shape_connections is_dialed among
  pruned-unwanted links id h =
      ground
        (arith, to_dial-is_dialed links id links.peers, to_prune-is_pruned links id links.peers)
