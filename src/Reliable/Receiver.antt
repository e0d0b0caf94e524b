-- ===== src/Reliable/Receiver.antt =====
-- The receive side: what of one peer's frames reaches the channel router.
use my_own_mesh.Base.{
  ap, All, ℕ, ◌≤◌, ◌≡◌, refl, inl, inr, true, not, Option, none, some, List, [], ◌∷◌, ◌++◌, leb,
  ◌==◌, Bool-cases, if◌then◌else◌, arith,
}
use my_own_mesh.Base.Text.{Text, text_eq_self, text_ordered}
use my_own_mesh.Base.TreeMap.{lookup, lookup-insert}
use my_own_mesh.Reliable.{
  InboundMark, Delivery, State, advance, on_channel_seq, Event, seq_arrives, step, run,
}

pub record Arrival : Type 0 where
  pub seq : ℕ
  pub channel : Text
  pub payload : Text

-- Frames of one stream from one peer, whose acknowledgements all go out.
abbrev pub arrivals : Text → ℕ → List Arrival → List Event
arrivals peer stream [] = []
arrivals peer stream (a ∷ more) =
    seq_arrives true peer stream a.seq a.channel a.payload ∷ arrivals peer stream more

-- What is handed on, from the number of the last one.
abbrev pub fresh : ℕ → List Arrival → List Arrival
fresh last [] = []
fresh last (a ∷ more) = if leb a.seq last then fresh last more else a ∷ fresh a.seq more

abbrev pub router_of : Text → List Arrival → List Delivery → List Delivery
router_of peer [] router = router
router_of peer (a ∷ more) router =
    router_of peer more (record { from = peer; channel = a.channel; payload = a.payload } ∷ router)

-- The number up to which a peer's stream is known to have come.
abbrev pub known_up_to : Option InboundMark → ℕ → ℕ
known_up_to none stream = 0
known_up_to (some m) stream = if m.stream == stream then m.last_seq else 0

advance-known :
    (known : Option InboundMark) (stream seq : ℕ)
    → ((advance known stream seq).0.stream ≡ stream)
      × ((advance known stream seq).0.last_seq
          ≡ (if leb seq (known_up_to known stream) then known_up_to known stream else seq))
      × ((advance known stream seq).1 ≡ not (leb seq (known_up_to known stream)))
unfolding advance
advance-known none stream seq = ground arith
advance-known (some m) stream seq = ground arith

abbrev known_of : Text → ℕ → State → ℕ
known_of peer stream s = known_up_to (lookup peer s.reliable_in) stream

abbrev arrive : Text → ℕ → Arrival → State → State
arrive peer stream a s = on_channel_seq true peer stream a.seq a.channel a.payload s

known_of-arrive :
    (peer : Text) (stream : ℕ) (a : Arrival) (s : State)
    → known_of peer stream (arrive peer stream a s)
      ≡ (if leb a.seq (known_of peer stream s) then known_of peer stream s else a.seq)
unfolding on_channel_seq
known_of-arrive peer stream a s =
    let mark = (advance (lookup peer s.reliable_in) stream a.seq).0 in
    ground (
      arith,
      advance-known (lookup peer s.reliable_in) stream a.seq,
      lookup-insert peer peer mark s.reliable_in,
      text_eq_self peer,
    )

router-arrive :
    (peer : Text) (stream : ℕ) (a : Arrival) (s : State)
    → (arrive peer stream a s).router ≡ (
        if leb a.seq (known_of peer stream s)
        then s.router
        else (record { from = peer; channel = a.channel; payload = a.payload }) ∷ s.router)
unfolding on_channel_seq
router-arrive peer stream a s =
    ground (arith, advance-known (lookup peer s.reliable_in) stream a.seq)

pub router-fresh :
    (peer : Text) (stream : ℕ) (more : List Arrival) (s : State)
    → (run (arrivals peer stream more) s).router
      ≡ router_of peer (fresh (known_up_to (lookup peer s.reliable_in) stream) more) s.router
unfolding step
router-fresh peer stream [] s = refl
router-fresh peer stream (a ∷ more) s = elim (Bool-cases (leb a.seq (known_of peer stream s))) [
  | inl e ↦ ground (
    arith,
    known_of-arrive peer stream a s,
    router-arrive peer stream a s,
    router-fresh peer stream more (arrive peer stream a s),
  )
  | inr e ↦ ground (
    arith,
    known_of-arrive peer stream a s,
    router-arrive peer stream a s,
    router-fresh peer stream more (arrive peer stream a s),
  )
]

-- Every frame of a list has come, when the stream is known up to `last` and `more` came after.
abbrev top : ℕ → List Arrival → ℕ
top last [] = last
top last (a ∷ more) = top (if leb a.seq last then last else a.seq) more

fresh-known :
    (last : ℕ) (again : List Arrival) → All (λ a. a.seq ≤ last) again → fresh last again ≡ []
fresh-known last [] h = refl
fresh-known last (a ∷ again) h = ground (arith, fresh-known last again h.1)

fresh-append :
    (last : ℕ) (more again : List Arrival)
    → All (λ a. a.seq ≤ top last more) again
    → fresh last (more ++ again) ≡ fresh last more
fresh-append last [] again h = fresh-known last again h
fresh-append last (a ∷ more) again h = elim (Bool-cases (leb a.seq last)) [
  | inl e ↦ rw e (fresh-append last more again (rw e at h))
  | inr e ↦ rw e (ap (λ rest. a ∷ rest) (fresh-append a.seq more again (rw e at h)))
]

top-le : (last : ℕ) (more : List Arrival) → last ≤ top last more
top-le last [] = omega arith
top-le last (a ∷ more) = ground (arith, top-le (if leb a.seq last then last else a.seq) more)

All-le-top : (last : ℕ) (more : List Arrival) → All (λ a. a.seq ≤ top last more) more
All-le-top last [] = tt
All-le-top last (a ∷ more) = (
  ground (arith, top-le (if leb a.seq last then last else a.seq) more),
  All-le-top (if leb a.seq last then last else a.seq) more,
)

-- When a whole stream is sent again after it came, as after a rebuilt session, nothing of it is
-- handed on a second time.
resend-harmless :
    (peer : Text) (stream : ℕ) (more : List Arrival) (s : State)
    → (run (arrivals peer stream (more ++ more)) s).router
      ≡ (run (arrivals peer stream more) s).router
resend-harmless peer stream more s =
    let last = known_of peer stream s in
    rw
      (
        router-fresh peer stream (more ++ more) s,
        router-fresh peer stream more s,
        fresh-append last more more (All-le-top last more),
      )
      refl
