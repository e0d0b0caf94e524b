-- ===== src/Routing/Relay.antt =====
-- The roster-gated relay: `relay_targets` and one turn of the loop of
-- crates/myownmesh-core/src/services/relay.rs.
use my_own_mesh.Base.{
  ℕ, ◌≤◌, ◌≡◌, refl, Bool, true, false, not, ◌&&◌, ◌||◌, inl, inr, ◌⊎◌, zero, suc, All-map, List,
  [], ◌∷◌, map, any, take, length, filterb, All, ltb, if◌then◌else◌, Bool-cases, arith,
}
use my_own_mesh.Base.Text.{Text, text_eq, text_eq_self}
use my_own_mesh.Connection.{PeerState, is_up}
use my_own_mesh.Roster.{AuthorizedPeer}
use my_own_mesh.Base.TreeMap.{TreeMap}
use my_own_mesh.Routing.{RelayEnvelope, is_empty}

abbrev listed : List Text → Text → Bool
listed ids id = any (λ (r : Text). text_eq r id) ids

-- `truncate`, unless the cap is 0.
abbrev capped : ℕ → List Text → List Text
capped max_fanout out =
    if ltb 0 max_fanout && ltb max_fanout (length out) then take max_fanout out else out

relay_targets : Text → Text → List Text → List Text → ℕ → List Text
unfolding text_eq
relay_targets from dst rostered reachable max_fanout =
    if not (listed rostered from)
    then []
    else if not (is_empty dst)
    then if not (text_eq dst from) && listed rostered dst && listed reachable dst
      then dst ∷ []
      else []
    else capped max_fanout
        (filterb (λ (id : Text). not (text_eq id from) && listed rostered id) reachable)

-- The peers that are up.
reachable_ids : TreeMap Text PeerState → List Text
reachable_ids [] = []
reachable_ids ((id, p) ∷ peers) =
    let rest = reachable_ids peers in if is_up p.status then id ∷ rest else rest

-- The frames that one inbound frame makes: the receiver and the envelope.
relay_frame :
    {Value : Type 0}
    → ℕ
    → List AuthorizedPeer
    → TreeMap Text PeerState
    → Text
    → RelayEnvelope Value
    → List (Text × RelayEnvelope Value)
unfolding relay_targets reachable_ids
relay_frame max_fanout roster peers from env =
    map (λ (target : Text). (target, record { dst = []; src = from; payload = env.payload }))
      (relay_targets from env.dst (map (λ (p : AuthorizedPeer). p.device_id) roster)
        (reachable_ids peers) max_fanout)

-- A receiver is on the roster, reachable, and not the sender.
abbrev IsEligible : Text → List Text → List Text → Text → Type 0
IsEligible from rostered reachable id =
    (text_eq id from ≡ false) × (listed rostered id ≡ true) × (listed reachable id ≡ true)

All-take : (P : Text → Type 0) (n : ℕ) (xs : List Text) → All P xs → All P (take n xs)
All-take P zero xs h = tt
All-take P (suc n) [] h = tt
All-take P (suc n) (x ∷ xs) h = (h.0, All-take P n xs h.1)

length-take : (n : ℕ) (xs : List Text) → length (take n xs) ≤ n
length-take zero xs = omega arith
length-take (suc n) [] = omega arith
length-take (suc n) (x ∷ xs) = omega (arith, length-take n xs)

All-capped : (P : Text → Type 0) (n : ℕ) (xs : List Text) → All P xs → All P (capped n xs)
All-capped P n xs h = elim (Bool-cases (ltb 0 n && ltb n (length xs))) [
  | inl e ↦ rw e (All-take P n xs h)
  | inr e ↦ rw e h
]

length-capped : (n : ℕ) (xs : List Text) → (n ≡ 0) ⊎ (length (capped n xs) ≤ n)
length-capped n xs = elim (Bool-cases (ltb 0 n)) [
  | inr e ↦ inl (ground (arith, e))
  | inl e ↦ elim (Bool-cases (ltb n (length xs))) [
    | inl f ↦ inr (rw (e, f) (length-take n xs))
    | inr f ↦ inr (rw (e, f) (ground (arith, f)))
  ]
]

listed-own : (xs : List Text) → All (λ id. listed xs id ≡ true) xs
listed-own [] = tt
listed-own (x ∷ xs) =
    (rw (text_eq_self x) refl, All-map xs (λ id h. ground (arith, h)) (listed-own xs))

All-IsEligible :
    (from : Text) (rostered reachable within : List Text)
    → All (λ id. listed reachable id ≡ true) within
    → All
        (IsEligible from rostered reachable)
        (filterb (λ (id : Text). not (text_eq id from) && listed rostered id) within)
All-IsEligible from rostered reachable [] h = tt
All-IsEligible from rostered reachable (x ∷ xs) h =
    ground (arith, All-IsEligible from rostered reachable xs h.1, h.0)

one_within : (n : ℕ) → (n ≡ 0) ⊎ (1 ≤ n)
one_within n = ground arith

-- Only a sender on the roster is relayed for, and only to eligible receivers; a directed frame goes to
-- its destination alone, and a broadcast to no more receivers than the cap, unless that is 0.
relay_targets-AreEligible :
    (from dst : Text) (rostered reachable : List Text) (max_fanout : ℕ)
    → All
        (λ id.
          (listed rostered from ≡ true)
          × IsEligible from rostered reachable id
          × (is_empty dst || text_eq id dst ≡ true))
        (relay_targets from dst rostered reachable max_fanout)
      × ((max_fanout ≡ 0)
          ⊎ (length (relay_targets from dst rostered reachable max_fanout) ≤ max_fanout))
unfolding relay_targets
relay_targets-AreEligible from dst rostered reachable max_fanout =
    elim (Bool-cases (listed rostered from)) [
      | inr e ↦ rw e (tt, inr (omega arith))
      | inl e ↦ elim (Bool-cases (is_empty dst)) [
        | inl f ↦
            rw (e, f)
              (
                All-capped _ max_fanout
                    (filterb (λ (id : Text). not (text_eq id from) && listed rostered id) reachable)
                    (All-map
                      (filterb (λ (id : Text). not (text_eq id from) && listed rostered id)
                        reachable)
                      (λ id h. (refl, h, refl))
                      (All-IsEligible from rostered reachable reachable (listed-own reachable))),
                length-capped max_fanout (
                    filterb (λ (id : Text). not (text_eq id from) && listed rostered id) reachable),
              )
        | inr f ↦
            elim (Bool-cases
              (not (text_eq dst from) && listed rostered dst && listed reachable dst)) [
                | inr g ↦ rw (e, f, g) (tt, inr (omega arith))
                | inl g ↦
                    rw (e, f, g)
                      (
                        (
                          (
                            refl,
                            (ground (arith, g), ground (arith, g), ground (arith, g)),
                            text_eq_self dst,
                          ),
                          tt,
                        ),
                        one_within max_fanout,
                      )
              ]
      ]
    ]
