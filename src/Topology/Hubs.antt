-- ===== src/Topology/Hubs.antt =====
-- Several hubs, each spoke on the best ranked: crates/myownmesh-core/src/topology/hubs.rs. The first
-- eight bytes of a SHA-256 digest are a parameter, `digest8`, for the hash is not in the repository.
use my_own_mesh.Base.{
  ℕ, Bool, true, false, not, ◌&&◌, List, [], ◌∷◌, ◌++◌, map, max, take, any, filterb, leb, ◌==◌,
  if◌then◌else◌,
}
use my_own_mesh.Base.Text.{Text, text_eq, text_le}
use my_own_mesh.Base.Sorting.{sort}
use my_own_mesh.Topology.{same_key, pubkey_part}

is_hub : List Text → Text → Bool
unfolding same_key
is_hub hubs id = any (λ h. same_key h id) hubs

-- The order of the ranking: the higher score first, the hub's id on a tie.
unfoldable pub ranks_before : ℕ × Text → ℕ × Text → Bool
unfolding text_le
ranks_before (x, g) (y, h) = if x == y then text_le g h else leb y x

module _ (digest8 : Text → ℕ) where
  pub rendezvous_score : Text → Text → ℕ
  rendezvous_score spoke hub = digest8 (spoke ++ 58 ∷ hub)

  unfoldable pub hubs_for : List Text → ℕ → Text → List Text
  unfolding rendezvous_score sort ranks_before pubkey_part
  hubs_for hubs spoke_redundancy spoke =
      let scored =
        map (λ h. (rendezvous_score (pubkey_part spoke) (pubkey_part h), pubkey_part h)) hubs in
      map (λ r. r.1) (take (max spoke_redundancy 1) (sort ranks_before scored))

  -- `self.hubs_for(spoke).iter().any(|h| h == pubkey_part(hub))`.
  attaches : List Text → ℕ → Text → Text → Bool
  unfolding hubs_for text_eq
  attaches hubs spoke_redundancy spoke hub =
      any (λ h. text_eq h (pubkey_part hub)) (hubs_for hubs spoke_redundancy spoke)

  unfoldable pub edge : List Text → ℕ → Text → Text → Bool
  unfolding attaches is_hub
  edge hubs spoke_redundancy a b =
      if is_hub hubs a
      then if is_hub hubs b then true else attaches hubs spoke_redundancy b a
      else if is_hub hubs b
      then attaches hubs spoke_redundancy a b
      else false

  pub select_preferred : List Text → ℕ → Text → List Text → List Text
  unfolding edge
  select_preferred hubs spoke_redundancy self_id peer_ids =
      filterb (λ p. edge hubs spoke_redundancy self_id p) peer_ids

  dest_hubs : List Text → ℕ → Text → List Text
  unfolding is_hub hubs_for
  dest_hubs hubs spoke_redundancy dest =
      if is_hub hubs (pubkey_part dest)
      then pubkey_part dest ∷ []
      else hubs_for hubs spoke_redundancy (pubkey_part dest)

  unfoldable pub next_hops : List Text → ℕ → Text → Text → List Text → List Text
  unfolding dest_hubs
  next_hops hubs spoke_redundancy self_id dest connected =
      let hops =
        filterb (λ c. any (λ h. text_eq h (pubkey_part c)) (dest_hubs hubs spoke_redundancy dest))
          connected in
      elim hops [
        | [] ↦ filterb (λ c. is_hub hubs c && not (same_key c self_id)) connected
        | hop ∷ others ↦ hop ∷ others
      ]

unfoldable pub forwards : List Text → Text → Bool
unfolding is_hub
forwards hubs self_id = is_hub hubs self_id
