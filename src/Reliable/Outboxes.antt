-- ===== src/Reliable/Outboxes.antt =====
-- The shape of every outbox: numbered in order, at most `outbox_cap` entries.
use my_own_mesh.Base.{
  ℕ, ◌+◌, ◌≤◌, ◌<◌, ◌≡◌, refl, inl, inr, Bool, true, false, not, Option, some, List, [], ◌∷◌, ◌++◌,
  length, filterb, leb, ◌==◌, unwrap_or, Option-cases, Bool-cases, arith, length-append,
  length-filterb-le,
}
use my_own_mesh.Base.Text.{Text, text_ordered}
use my_own_mesh.Base.TreeMap.{TreeMap, lookup}
use my_own_mesh.Base.Entries.{Every, Every-lookup, Every-insert, Every-remove}
use my_own_mesh.Reliable.{
  Answer, delivered, answer, link_ready, Pending, Outbox, State, outbox_cap, new_outbox, mark_sent,
  drop_seq, with_entries, settle_sent, frame_of, flush_batch, flush_peer, entry, push, enqueue,
  on_channel_seq, pop_acked, keep_if_pending, on_ack_outbox, on_channel_ack, unsent, mark_unsent,
  fail_peer, fresh_entries, keep_outbox, sweep, flush_peers, tick, Event, enqueues, flushes,
  seq_arrives, ack_arrives, session_rebuilt, peer_failed, ticks, step, run,
}

-- Sequence numbers rise along the list, above `low` and up to `high`.
abbrev Rising : ℕ → ℕ → List Pending → Type 0
Rising low high [] = low ≤ high
Rising low high (p ∷ ps) = (low < p.seq) × Rising p.seq high ps

abbrev pub IsValid : Outbox → Type 0
IsValid o = Rising 0 o.next_seq o.entries × (length o.entries ≤ outbox_cap)

abbrev pub AllValid : State → Type 0
AllValid s = Every IsValid s.reliable_out

Rising-weaken :
    (low low' high : ℕ) (ps : List Pending) → low' ≤ low → Rising low high ps → Rising low' high ps
Rising-weaken low low' high [] h r = omega arith
Rising-weaken low low' high (p ∷ ps) h r = (omega arith, r.1)

Rising-mark_sent :
    (seq low high : ℕ) (ps : List Pending) → Rising low high ps → Rising low high (mark_sent seq ps)
unfolding mark_sent
Rising-mark_sent seq low high [] r = r
Rising-mark_sent seq low high (p ∷ ps) r = ground (arith, Rising-mark_sent seq p.seq high ps r.1)

Rising-drop_seq :
    (seq low high : ℕ) (ps : List Pending) → Rising low high ps → Rising low high (drop_seq seq ps)
unfolding drop_seq
Rising-drop_seq seq low high [] r = r
Rising-drop_seq seq low high (p ∷ ps) r =
    ground (arith, Rising-drop_seq seq p.seq high ps r.1, Rising-weaken p.seq low high ps)

Rising-filterb :
    (keep : Pending → Bool) (low high : ℕ) (ps : List Pending)
    → Rising low high ps
    → Rising low high (filterb keep ps)
Rising-filterb keep low high [] r = r
Rising-filterb keep low high (p ∷ ps) r = ground (
  arith,
  Rising-filterb keep p.seq high ps r.1,
  Rising-filterb keep low high ps,
  Rising-weaken p.seq low high ps,
)

Rising-unsent :
    (low high : ℕ) (ps : List Pending) → Rising low high ps → Rising low high (unsent ps)
unfolding unsent
Rising-unsent low high [] r = r
Rising-unsent low high (p ∷ ps) r = (r.0, Rising-unsent p.seq high ps r.1)

Rising-snoc :
    (low high : ℕ) (ps : List Pending) (p : Pending)
    → p.seq ≡ high + 1
    → Rising low high ps
    → Rising low p.seq (ps ++ p ∷ [])
Rising-snoc low high [] p e r = (omega arith, omega arith)
Rising-snoc low high (q ∷ ps) p e r = (r.0, Rising-snoc q.seq high ps p e r.1)

length-mark_sent : (seq : ℕ) (ps : List Pending) → length (mark_sent seq ps) ≡ length ps
unfolding mark_sent
length-mark_sent seq [] = omega arith
length-mark_sent seq (p ∷ ps) = ground (arith, length-mark_sent seq ps)

length-drop_seq : (seq : ℕ) (ps : List Pending) → length (drop_seq seq ps) ≤ length ps
unfolding drop_seq
length-drop_seq seq [] = omega arith
length-drop_seq seq (p ∷ ps) = ground (arith, length-drop_seq seq ps)

length-unsent : (ps : List Pending) → length (unsent ps) ≡ length ps
unfolding unsent
length-unsent [] = omega arith
length-unsent (p ∷ ps) = omega (arith, length-unsent ps)

pop_acked-IsValid :
    (up_to low high : ℕ) (ps : List Pending) (answers : List (ℕ × Answer))
    → Rising low high ps
    → Rising low high (pop_acked up_to ps answers).0
      × (length (pop_acked up_to ps answers).0 ≤ length ps)
unfolding pop_acked
pop_acked-IsValid up_to low high [] answers r = (r, omega arith)
pop_acked-IsValid up_to low high (p ∷ ps) answers r = ground (
  arith,
  pop_acked-IsValid up_to p.seq high ps (answer delivered p.reply answers) r.1,
  Rising-weaken p.seq low high (pop_acked up_to ps (answer delivered p.reply answers)).0,
)

settle_sent-AllValid :
    (acked_peer : Bool) (peer : Text) (seq : ℕ) (o : Outbox) (s : State)
    → IsValid o
    → AllValid s
    → AllValid (settle_sent acked_peer peer seq o s)
unfolding settle_sent with_entries
settle_sent-AllValid true peer seq o s v h =
    Every-insert IsValid peer (with_entries o (mark_sent seq o.entries)) s.reliable_out
      (
        Rising-mark_sent seq 0 o.next_seq o.entries v.0,
        omega (arith, length-mark_sent seq o.entries),
      )
      h
settle_sent-AllValid false peer seq o s v h = ground (
  arith,
  Every-insert IsValid peer (with_entries o (drop_seq seq o.entries)) s.reliable_out
      (Rising-drop_seq seq 0 o.next_seq o.entries v.0, omega (arith, length-drop_seq seq o.entries))
      h,
)

flush_batch-AllValid :
    (accepts : ℕ → Bool) (acked_peer : Bool) (peer : Text) (stream : ℕ) (ps : List Pending)
    (s : State)
    → AllValid s
    → AllValid (flush_batch accepts acked_peer peer stream ps s)
unfolding flush_batch
flush_batch-AllValid accepts acked_peer peer stream [] s h = h
flush_batch-AllValid accepts acked_peer peer stream (p ∷ ps) s h =
    elim (Bool-cases (accepts p.seq)) [
      | inr e ↦ rw e h
      | inl e ↦ rw e (elim (Option-cases (lookup peer s.reliable_out)) [
        | inl f ↦ rw f h
        | inr (o, f) ↦ rw f (
            flush_batch-AllValid accepts acked_peer peer stream ps
              (settle_sent acked_peer peer p.seq o
                (record s { wire = (peer, frame_of acked_peer stream p) ∷ s.wire }))
              (settle_sent-AllValid acked_peer peer p.seq o
                (record s { wire = (peer, frame_of acked_peer stream p) ∷ s.wire })
                (Every-lookup IsValid peer o s.reliable_out h f) h))
      ])
    ]

flush_peer-AllValid :
    (accepts : ℕ → Bool) (peer : Text) (s : State)
    → AllValid s
    → AllValid (flush_peer accepts peer s)
unfolding flush_peer
flush_peer-AllValid accepts peer s h = elim (Option-cases (link_ready s peer)) [
  | inl e ↦ rw (flush_peer, e) h
  | inr (acked_peer, e) ↦ elim (Option-cases (lookup peer s.reliable_out)) [
    | inl f ↦ rw (flush_peer, e, f) h
    | inr (o, f) ↦
        rw (flush_peer, e, f)
          (flush_batch-AllValid accepts acked_peer peer o.stream
            (filterb (λ p. not p.sent) o.entries) s h)
  ]
]

flush_peers-AllValid :
    (accepts : ℕ → Bool) (peers : List Text) (s : State)
    → AllValid s
    → AllValid (flush_peers accepts peers s)
unfolding flush_peers
flush_peers-AllValid accepts [] s h = h
flush_peers-AllValid accepts (peer ∷ peers) s h =
    flush_peers-AllValid accepts peers (flush_peer accepts peer s)
      (flush_peer-AllValid accepts peer s h)

push-IsValid :
    (chan payload : Text) (ttl_ms : Option ℕ) (now caller : ℕ) (o : Outbox)
    → leb outbox_cap (length o.entries) ≡ false
    → IsValid o
    → IsValid (push chan payload ttl_ms now caller o)
unfolding push
push-IsValid chan payload ttl_ms now caller o room v = (
  Rising-snoc 0 o.next_seq o.entries (entry chan payload ttl_ms now caller o) refl v.0,
  ground (arith, length-append o.entries (entry chan payload ttl_ms now caller o ∷ [])),
)

keep_outbox-IsValid :
    (peer : Text) (o : Outbox) (left : List Pending) (out : TreeMap Text Outbox)
    → Rising 0 o.next_seq left × (length left ≤ outbox_cap)
    → Every IsValid out
    → Every IsValid (keep_outbox peer o left out)
unfolding keep_outbox with_entries
keep_outbox-IsValid peer o [] out v h = h
keep_outbox-IsValid peer o (p ∷ ps) out v h = (v, h)

sweep-IsValid :
    (now : ℕ) (out : TreeMap Text Outbox) → Every IsValid out → Every IsValid (sweep now out).out
unfolding sweep fresh_entries
sweep-IsValid now [] h = tt
sweep-IsValid now ((peer, o) ∷ out) h =
    keep_outbox-IsValid peer o (filterb (λ p. not (leb p.expires_at now)) o.entries)
      (sweep now out).out
      (
        Rising-filterb (λ p. not (leb p.expires_at now)) 0 o.next_seq o.entries h.0.0,
        omega (arith, length-filterb-le (λ p. not (leb p.expires_at now)) o.entries),
      )
      (sweep-IsValid now out h.1)

enqueue-AllValid :
    (random now : ℕ) (accepts : ℕ → Bool) (peer chan payload : Text) (ttl_ms : Option ℕ)
    (caller : ℕ) (s : State)
    → AllValid s
    → AllValid (enqueue random now accepts peer chan payload ttl_ms caller s)
unfolding enqueue new_outbox
enqueue-AllValid random now accepts peer chan payload ttl_ms caller s h =
    elim (Bool-cases (
      leb outbox_cap
        (length (unwrap_or (lookup peer s.reliable_out) (new_outbox random)).entries))) [
          | inl e ↦ rw e h
          | inr e ↦ rw e (
              flush_peer-AllValid accepts peer _ (
                Every-insert IsValid peer _ s.reliable_out
                  (push-IsValid chan payload ttl_ms now caller
                    (unwrap_or (lookup peer s.reliable_out) (new_outbox random)) e valid)
                  h))
        ]
  where
    valid : IsValid (unwrap_or (lookup peer s.reliable_out) (new_outbox random))
    valid = elim (Option-cases (lookup peer s.reliable_out)) [
      | inl f ↦ rw f (omega arith, omega arith)
      | inr (o, f) ↦ rw f (Every-lookup IsValid peer o s.reliable_out h f)
    ]

keep_if_pending-IsValid :
    (peer : Text) (o : Outbox) (out : TreeMap Text Outbox)
    → IsValid o
    → Every IsValid out
    → Every IsValid (keep_if_pending peer o out)
unfolding keep_if_pending
keep_if_pending-IsValid peer o out v h =
    ground (arith, Every-insert IsValid peer o out v h, Every-remove IsValid peer out h)

on_channel_ack-AllValid :
    (peer : Text) (stream up_to : ℕ) (s : State)
    → AllValid s
    → AllValid (on_channel_ack peer stream up_to s)
unfolding on_channel_ack on_ack_outbox with_entries
on_channel_ack-AllValid peer stream up_to s h = elim (Option-cases (lookup peer s.reliable_out)) [
  | inl f ↦ rw (on_channel_ack, f) h
  | inr (o, f) ↦ rw (on_channel_ack, f) (acked o f)
]
  where
    acked :
        (o : Outbox)
        → lookup peer s.reliable_out ≡ some o
        → AllValid (on_ack_outbox peer stream up_to s o)
    acked o f = elim (Bool-cases (o.stream == stream)) [
      | inr e ↦ rw e h
      | inl e ↦ rw e (
          keep_if_pending-IsValid peer (with_entries o (pop_acked up_to o.entries s.answers).0)
            s.reliable_out (popped.0, omega (arith, popped.1, valid.1)) h)
    ]
      where
        valid : IsValid o
        valid = Every-lookup IsValid peer o s.reliable_out h f

        popped :
            Rising 0 o.next_seq (pop_acked up_to o.entries s.answers).0
            × (length (pop_acked up_to o.entries s.answers).0 ≤ length o.entries)
        popped = pop_acked-IsValid up_to 0 o.next_seq o.entries s.answers valid.0

mark_unsent-AllValid : (peer : Text) (s : State) → AllValid s → AllValid (mark_unsent peer s)
unfolding mark_unsent with_entries
mark_unsent-AllValid peer s h = elim (Option-cases (lookup peer s.reliable_out)) [
  | inl f ↦ rw (mark_unsent, f) h
  | inr (o, f) ↦
      rw (mark_unsent, f)
        (Every-insert IsValid peer _ s.reliable_out
          (
            Rising-unsent 0 o.next_seq o.entries (Every-lookup IsValid peer o s.reliable_out h f).0,
            omega (
              arith,
              length-unsent o.entries,
              (Every-lookup IsValid peer o s.reliable_out h f).1,
            ),
          )
          h)
]

fail_peer-AllValid : (peer : Text) (s : State) → AllValid s → AllValid (fail_peer peer s)
unfolding fail_peer
fail_peer-AllValid peer s h = ground (arith, Every-remove IsValid peer s.reliable_out h)

-- Whatever happens, every outbox stays valid: its sequence numbers rise strictly and are at most
-- the last one given out, and it holds at most `outbox_cap` entries.
step-AllValid : (e : Event) (s : State) → AllValid s → AllValid (step e s)
unfolding step tick on_channel_seq
step-AllValid (enqueues random now accepts peer chan payload ttl_ms caller) s h =
    enqueue-AllValid random now accepts peer chan payload ttl_ms caller s h
step-AllValid (flushes accepts peer) s h = flush_peer-AllValid accepts peer s h
step-AllValid (seq_arrives ack_taken peer stream seq chan payload) s h = ground arith
step-AllValid (ack_arrives peer stream up_to) s h = on_channel_ack-AllValid peer stream up_to s h
step-AllValid (session_rebuilt peer) s h = mark_unsent-AllValid peer s h
step-AllValid (peer_failed peer) s h = fail_peer-AllValid peer s h
step-AllValid (ticks now accepts) s h =
    flush_peers-AllValid accepts (sweep now s.reliable_out).flush_candidates _
      (sweep-IsValid now s.reliable_out h)

-- From a state whose outboxes are all valid, every sequence of events leads to a state whose
-- outboxes are all valid: the sequence numbers of an outbox rise strictly from its front to its back
-- and are at most the last one given out, and it holds at most `outbox_cap` frames.
pub run-AllValid : (es : List Event) (s : State) → AllValid s → AllValid (run es s)
run-AllValid [] s h = h
run-AllValid (e ∷ es) s h = run-AllValid es (step e s) (step-AllValid e s h)
