-- ===== src/Reliable.antt =====
-- Acknowledged channel delivery: crates/myownmesh-core/src/engine/reliable.rs. The outboxes and
-- the receive marks of all peers are one state; what the code does outwards is kept beside it: the
-- frames that the transport took, the answers that callers were given and the frames handed to the
-- channel router. Time is in milliseconds; whether the transport takes a frame is up to the
-- caller's `accepts`. A JSON payload stands as its text, a caller's `oneshot` as a number.
pub mod Outboxes
pub mod Callers
pub mod Conservation
pub mod Accounts
pub mod Receiver
use my_own_mesh.Base.{
  ℕ, suc, ◌+◌, ◌%◌, Bool, true, false, not, ◌&&◌, ◌||◌, Option, none, some, List, [], ◌∷◌, ◌++◌,
  length, any, filterb, find?, leb, ltb, ◌==◌, if◌then◌else◌, is_some, unwrap_or,
}
use my_own_mesh.Base.Text.{Text, text_ordered}
use my_own_mesh.Base.TreeMap.{TreeMap, lookup, insert, remove, or_insert}
use my_own_mesh.Connection.{PeerState, is_up, peer_supports, reliable_channels}

abbrev default_ttl_ms : ℕ
default_ttl_ms = 60_000

abbrev pub outbox_cap : ℕ
outbox_cap = 256

pub record Pending : Type 0 where
  pub seq : ℕ
  pub channel : Text
  pub payload : Text
  pub expires_at : ℕ
  pub sent : Bool
  pub reply : Option ℕ

pub record Outbox : Type 0 where
  pub stream : ℕ
  pub next_seq : ℕ
  pub entries : List Pending

pub record InboundMark : Type 0 where
  pub stream : ℕ
  pub last_seq : ℕ

pub data Message : Type 0 where
  channel_seq : ℕ → ℕ → Text → Text → Message
  channel : Text → Text → Message
  channel_ack : ℕ → ℕ → Message

pub data Answer : Type 0 where
  delivered full abandoned expired : Answer

pub record Delivery : Type 0 where
  pub from : Text
  pub channel : Text
  pub payload : Text

pub record State : Type 0 where
  pub peers : TreeMap Text PeerState
  pub reliable_out : TreeMap Text Outbox
  pub reliable_in : TreeMap Text InboundMark
  -- Oldest last, like the two below.
  pub wire : List (Text × Message)
  pub answers : List (ℕ × Answer)
  pub router : List Delivery

-- `rand::thread_rng().gen::<u64>() | 1`.
abbrev fresh_stream : ℕ → ℕ
fresh_stream random = if random % 2 == 0 then random + 1 else random

pub new_outbox : ℕ → Outbox
new_outbox random = record { stream = fresh_stream random; next_seq = 0; entries = [] }

-- `reply.send(answer)`, if somebody waits.
abbrev pub answer : Answer → Option ℕ → List (ℕ × Answer) → List (ℕ × Answer)
answer a none answers = answers
answer a (some caller) answers = (caller, a) ∷ answers

pub link_ready : State → Text → Option Bool
link_ready state peer = elim (lookup peer state.peers) [
  | none ↦ none
  | some p ↦
      if is_up p.status && p.data_channel_open
      then some (peer_supports p.features reliable_channels)
      else none
]

-- The first entry with a sequence number, marked as sent.
pub mark_sent : ℕ → List Pending → List Pending
mark_sent seq [] = []
mark_sent seq (p ∷ ps) =
    let rest = mark_sent seq ps in if p.seq == seq then record p { sent = true } ∷ ps else p ∷ rest

-- The entries without the first one that has a sequence number.
pub drop_seq : ℕ → List Pending → List Pending
drop_seq seq [] = []
drop_seq seq (p ∷ ps) = let rest = drop_seq seq ps in if p.seq == seq then ps else p ∷ rest

pub with_entries : Outbox → List Pending → Outbox
with_entries o entries = record o { entries = entries }

-- What a send that the transport took does to the peer's outbox: an entry for a peer that acks is
-- marked, any other is done with and its caller is answered.
pub settle_sent : Bool → Text → ℕ → Outbox → State → State
unfolding mark_sent drop_seq with_entries
settle_sent true peer seq o s = record s {
  reliable_out = insert peer (with_entries o (mark_sent seq o.entries)) s.reliable_out;
}
settle_sent false peer seq o s = elim (find? (λ p. p.seq == seq) o.entries) [
  | none ↦ s
  | some p ↦ record s {
    reliable_out = insert peer (with_entries o (drop_seq seq o.entries)) s.reliable_out;
    answers = answer delivered p.reply s.answers;
  }
]

pub frame_of : Bool → ℕ → Pending → Message
frame_of true stream p = channel_seq stream p.seq p.channel p.payload
frame_of false stream p = channel p.channel p.payload

-- The loop over a batch: it stops at the first send that the transport refuses, or when the
-- peer's outbox is gone.
pub flush_batch : (ℕ → Bool) → Bool → Text → ℕ → List Pending → State → State
unfolding settle_sent frame_of
flush_batch accepts acked_peer peer stream [] s = s
flush_batch accepts acked_peer peer stream (p ∷ ps) s =
    if accepts p.seq
    then elim (lookup peer s.reliable_out) [
      | none ↦ record s { wire = (peer, frame_of acked_peer stream p) ∷ s.wire }
      | some o ↦ flush_batch accepts acked_peer peer stream ps (
          settle_sent acked_peer peer p.seq o
            (record s { wire = (peer, frame_of acked_peer stream p) ∷ s.wire }))
    ]
    else s

pub flush_peer : (ℕ → Bool) → Text → State → State
unfolding flush_batch link_ready
flush_peer accepts peer s = elim (link_ready s peer) [
  | none ↦ s
  | some acked_peer ↦ elim (lookup peer s.reliable_out) [
    | none ↦ s
    | some o ↦ flush_batch accepts acked_peer peer o.stream (filterb (λ p. not p.sent) o.entries) s
  ]
]

abbrev entry : Text → Text → Option ℕ → ℕ → ℕ → Outbox → Pending
entry chan payload ttl_ms now caller o = record {
  seq = o.next_seq + 1;
  channel = chan;
  payload = payload;
  expires_at = now + unwrap_or ttl_ms default_ttl_ms;
  sent = false;
  reply = some caller;
}

-- The outbox with one more entry at its end.
pub push : Text → Text → Option ℕ → ℕ → ℕ → Outbox → Outbox
push chan payload ttl_ms now caller o = record o {
  next_seq = o.next_seq + 1;
  entries = o.entries ++ entry chan payload ttl_ms now caller o ∷ [];
}

pub enqueue : ℕ → ℕ → (ℕ → Bool) → Text → Text → Text → Option ℕ → ℕ → State → State
unfolding push new_outbox
enqueue random now accepts peer chan payload ttl_ms caller s =
    let o = unwrap_or (lookup peer s.reliable_out) (new_outbox random) in
    if leb outbox_cap (length o.entries)
    then record s { answers = answer full (some caller) s.answers }
    else flush_peer accepts peer (record s {
      reliable_out = insert peer (push chan payload ttl_ms now caller o) s.reliable_out;
    })

-- The mark of a peer after a frame `(stream, seq)`, and whether the frame is to be delivered. A mark
-- that is not there is `InboundMark::default()`.
pub advance : Option InboundMark → ℕ → ℕ → InboundMark × Bool
advance known stream seq =
    let m = unwrap_or known (record { stream = 0; last_seq = 0 }) in
    let m = if m.stream == stream then m else record { stream = stream; last_seq = 0 } in
    if leb seq m.last_seq then (m, false) else (record m { last_seq = seq }, true)

pub on_channel_seq : Bool → Text → ℕ → ℕ → Text → Text → State → State
unfolding advance
on_channel_seq ack_taken peer stream seq chan payload s =
    let (m, deliver) = advance (lookup peer s.reliable_in) stream seq in
    let router =
      if deliver
      then (record { from = peer; channel = chan; payload = payload }) ∷ s.router
      else s.router in
    let marked = record s { reliable_in = insert peer m s.reliable_in; router = router } in
    if ack_taken
    then record marked { wire = (peer, channel_ack stream m.last_seq) ∷ s.wire }
    else marked

-- The loop that pops acknowledged entries off the front: what is left, and the answers.
pub pop_acked : ℕ → List Pending → List (ℕ × Answer) → List Pending × List (ℕ × Answer)
pop_acked up_to [] answers = ([], answers)
pop_acked up_to (p ∷ ps) answers =
    let rest = pop_acked up_to ps (answer delivered p.reply answers) in
    if ltb up_to p.seq then (p ∷ ps, answers) else rest

-- The outbox of a peer, taken out of the map when it has no entries.
pub keep_if_pending : Text → Outbox → TreeMap Text Outbox → TreeMap Text Outbox
keep_if_pending peer o out = elim o.entries [ [] ↦ remove peer out | p ∷ ps ↦ insert peer o out ]

pub on_ack_outbox : Text → ℕ → ℕ → State → Outbox → State
unfolding pop_acked keep_if_pending with_entries
on_ack_outbox peer stream up_to s o =
    if o.stream == stream
    then record s {
      reliable_out =
          keep_if_pending peer (with_entries o (pop_acked up_to o.entries s.answers).0)
            s.reliable_out;
      answers = (pop_acked up_to o.entries s.answers).1;
    }
    else s

pub on_channel_ack : Text → ℕ → ℕ → State → State
unfolding on_ack_outbox
on_channel_ack peer stream up_to s = elim (lookup peer s.reliable_out) [
  | none ↦ s
  | some o ↦ on_ack_outbox peer stream up_to s o
]

pub unsent : List Pending → List Pending
unsent [] = []
unsent (p ∷ ps) = record p { sent = false } ∷ unsent ps

pub mark_unsent : Text → State → State
unfolding unsent with_entries
mark_unsent peer s = elim (lookup peer s.reliable_out) [
  | none ↦ s
  | some o ↦ record s {
    reliable_out = insert peer (with_entries o (unsent o.entries)) s.reliable_out;
  }
]

pub answer_all : Answer → List Pending → List (ℕ × Answer) → List (ℕ × Answer)
answer_all a [] answers = answers
answer_all a (p ∷ ps) answers = answer_all a ps (answer a p.reply answers)

pub fail_peer : Text → State → State
unfolding answer_all
fail_peer peer s = elim (lookup peer s.reliable_out) [
  | none ↦ s
  | some o ↦ record s {
    reliable_out = remove peer s.reliable_out;
    answers = answer_all abandoned o.entries s.answers;
  }
]

-- One outbox in the expiry pass: the entries that stay and those that lapsed.
pub fresh_entries : ℕ → List Pending → List Pending
fresh_entries now = filterb (λ p. not (leb p.expires_at now))

pub lapsed_entries : ℕ → List Pending → List Pending
lapsed_entries now = filterb (λ p. leb p.expires_at now)

-- `out.retain(..)`: the outboxes that stay, the lapsed entries, and the peers to flush.
pub record Swept : Type 0 where
  pub out : TreeMap Text Outbox
  pub lapsed : List Pending
  pub flush_candidates : List Text

pub keep_outbox : Text → Outbox → List Pending → TreeMap Text Outbox → TreeMap Text Outbox
unfolding with_entries
keep_outbox peer o [] out = out
keep_outbox peer o (p ∷ ps) out = (peer, with_entries o (p ∷ ps)) ∷ out

pub sweep : ℕ → TreeMap Text Outbox → Swept
unfolding fresh_entries lapsed_entries keep_outbox
sweep now [] = record { out = []; lapsed = []; flush_candidates = [] }
sweep now ((peer, o) ∷ out) =
    let rest = sweep now out in
    let left = fresh_entries now o.entries in
    record {
      out = keep_outbox peer o left rest.out;
      lapsed = lapsed_entries now o.entries ++ rest.lapsed;
      flush_candidates =
          if any (λ p. not p.sent) left
          then peer ∷ rest.flush_candidates
          else rest.flush_candidates;
    }

pub flush_peers : (ℕ → Bool) → List Text → State → State
flush_peers accepts [] s = s
flush_peers accepts (peer ∷ peers) s = flush_peers accepts peers (flush_peer accepts peer s)

pub tick : ℕ → (ℕ → Bool) → State → State
unfolding sweep answer_all flush_peers
tick now accepts s =
    let swept = sweep now s.reliable_out in
    flush_peers accepts swept.flush_candidates
      (record s { reliable_out = swept.out; answers = answer_all expired swept.lapsed s.answers })

pending_total : TreeMap Text Outbox → ℕ
pending_total [] = 0
pending_total ((peer, o) ∷ out) = length o.entries + pending_total out

-- What reaches this part of the engine.
pub data Event : Type 0 where
  enqueues : ℕ → ℕ → (ℕ → Bool) → Text → Text → Text → Option ℕ → ℕ → Event
  flushes : (ℕ → Bool) → Text → Event
  seq_arrives : Bool → Text → ℕ → ℕ → Text → Text → Event
  ack_arrives : Text → ℕ → ℕ → Event
  session_rebuilt : Text → Event
  peer_failed : Text → Event
  ticks : ℕ → (ℕ → Bool) → Event

pub step : Event → State → State
step (enqueues random now accepts peer chan payload ttl_ms caller) s =
    enqueue random now accepts peer chan payload ttl_ms caller s
step (flushes accepts peer) s = flush_peer accepts peer s
step (seq_arrives ack_taken peer stream seq chan payload) s =
    on_channel_seq ack_taken peer stream seq chan payload s
step (ack_arrives peer stream up_to) s = on_channel_ack peer stream up_to s
step (session_rebuilt peer) s = mark_unsent peer s
step (peer_failed peer) s = fail_peer peer s
step (ticks now accepts) s = tick now accepts s

abbrev pub run : List Event → State → State
run [] s = s
run (e ∷ es) s = run es (step e s)
