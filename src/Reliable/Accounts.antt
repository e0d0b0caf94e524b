-- ===== src/Reliable/Accounts.antt =====
-- The account of a caller over any sequence of events.
use my_own_mesh.Base.{ℕ, ◌+◌, ◌≡◌, Bool, List, [], ◌∷◌, arith}
use my_own_mesh.Base.Text.{Text, text_ordered}
use my_own_mesh.Base.TreeMap.{TreeMap, Above, IsSorted}
use my_own_mesh.Reliable.{
  expired, Pending, Outbox, State, on_channel_seq, answer_all, fresh_entries, keep_outbox, sweep,
  tick, Event, enqueues, flushes, seq_arrives, ack_arrives, session_rebuilt, peer_failed, ticks,
  step, run,
}
use my_own_mesh.Reliable.Callers.{accounted, issued, answered-answer_all, waiting_in-sweep}
use my_own_mesh.Reliable.Conservation.{
  Conserves, flush_peer-Conserves, flush_peers-Conserves, enqueue-Conserves,
  on_channel_ack-Conserves, mark_unsent-Conserves, fail_peer-Conserves,
}

keep_outbox-Above :
    (peer q : Text) (o : Outbox) (ps : List Pending) (out : TreeMap Text Outbox)
    → Above peer ((q, o) ∷ [])
    → Above peer out
    → Above peer (keep_outbox q o ps out)
unfolding keep_outbox
keep_outbox-Above peer q o [] out g h = h
keep_outbox-Above peer q o (p ∷ ps) out g h = (g.0, g.1, h)

sweep-Above :
    (now : ℕ) (peer : Text) (out : TreeMap Text Outbox)
    → Above peer out
    → Above peer (sweep now out).out
unfolding sweep
sweep-Above now peer [] h = tt
sweep-Above now peer ((q, o) ∷ out) h =
    keep_outbox-Above peer q o (fresh_entries now o.entries) (sweep now out).out (h.0, h.1, tt)
      (sweep-Above now peer out h.2)

keep_outbox-IsSorted :
    (peer : Text) (o : Outbox) (ps : List Pending) (out : TreeMap Text Outbox)
    → Above peer out
    → IsSorted out
    → IsSorted (keep_outbox peer o ps out)
unfolding keep_outbox
keep_outbox-IsSorted peer o [] out a h = h
keep_outbox-IsSorted peer o (p ∷ ps) out a h = (a, h)

sweep-IsSorted : (now : ℕ) (out : TreeMap Text Outbox) → IsSorted out → IsSorted (sweep now out).out
unfolding sweep
sweep-IsSorted now [] h = tt
sweep-IsSorted now ((peer, o) ∷ out) h =
    keep_outbox-IsSorted peer o (fresh_entries now o.entries) (sweep now out).out
      (sweep-Above now peer out h.0) (sweep-IsSorted now out h.1)

tick-Conserves :
    (caller now : ℕ) (accepts : ℕ → Bool) (s : State)
    → IsSorted s.reliable_out
    → Conserves caller 0 s (tick now accepts s)
unfolding tick
tick-Conserves caller now accepts s h =
    let swept = sweep now s.reliable_out in
    let flushed =
      flush_peers-Conserves caller accepts swept.flush_candidates
        (record s { reliable_out = swept.out; answers = answer_all expired swept.lapsed s.answers })
        (sweep-IsSorted now s.reliable_out h) in
    (
      flushed.0,
      omega (
        arith,
        flushed.1,
        waiting_in-sweep caller now s.reliable_out,
        answered-answer_all caller expired swept.lapsed s.answers,
      ),
    )

step-Conserves :
    (caller : ℕ) (e : Event) (s : State)
    → IsSorted s.reliable_out
    → Conserves caller (issued caller e) s (step e s)
unfolding step on_channel_seq
step-Conserves caller (enqueues random now accepts peer chan payload ttl_ms c) s h =
    enqueue-Conserves caller random now accepts peer chan payload ttl_ms c s h
step-Conserves caller (flushes accepts peer) s h = flush_peer-Conserves caller accepts peer s h
step-Conserves caller (seq_arrives ack_taken peer stream seq chan payload) s h = ground arith
step-Conserves caller (ack_arrives peer stream up_to) s h =
    on_channel_ack-Conserves caller peer stream up_to s h
step-Conserves caller (session_rebuilt peer) s h = mark_unsent-Conserves caller peer s h
step-Conserves caller (peer_failed peer) s h = fail_peer-Conserves caller peer s h
step-Conserves caller (ticks now accepts) s h = tick-Conserves caller now accepts s h

-- The frames that a caller enqueued in a sequence of events.
abbrev pub issued_by : ℕ → List Event → ℕ
issued_by caller [] = 0
issued_by caller (e ∷ es) = issued caller e + issued_by caller es

-- Over any sequence of events from a state whose map of outboxes is in order, the frames of a
-- caller that wait in an outbox and the answers that it was given add up to what they were before
-- and the frames that it enqueued meanwhile: no frame goes without an answer, none gets two.
pub run-accounted :
    (caller : ℕ) (es : List Event) (s : State)
    → IsSorted s.reliable_out
    → accounted caller (run es s) ≡ issued_by caller es + accounted caller s
run-accounted caller [] s h = omega arith
run-accounted caller (e ∷ es) s h =
    let one = step-Conserves caller e s h in
    omega (arith, one.1, run-accounted caller es (step e s) one.0)
