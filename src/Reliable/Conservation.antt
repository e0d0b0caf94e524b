-- ===== src/Reliable/Conservation.antt =====
-- Every event conserves what is owed to a caller: a frame leaves an outbox with an answer.
use my_own_mesh.Base.{
  ap, ℕ, ◌+◌, ◌≡◌, refl, inl, inr, Bool, true, false, not, Option, some, List, [], ◌∷◌, length,
  filterb, find?, leb, ◌==◌, unwrap_or, Option-cases, Bool-cases, subst, arith,
}
use my_own_mesh.Base.Text.{Text, text_ordered}
use my_own_mesh.Base.TreeMap.{
  TreeMap, lookup, insert, remove, IsSorted, insert-IsSorted, remove-IsSorted,
}
use my_own_mesh.Base.Entries.{held, sum_of-insert, sum_of-remove}
use my_own_mesh.Reliable.{
  delivered, abandoned, link_ready, Pending, Outbox, State, outbox_cap, new_outbox, mark_sent,
  drop_seq, with_entries, settle_sent, frame_of, flush_batch, flush_peer, entry, push, enqueue,
  pop_acked, keep_if_pending, on_ack_outbox, on_channel_ack, unsent, mark_unsent, fail_peer,
  flush_peers,
}
use my_own_mesh.Reliable.Callers.{
  owed, waiting, waiting_in, accounted, answered-answer, answered-answer_all, waiting-append,
  waiting-mark_sent, waiting-drop_seq, waiting-unsent, waiting-pop_acked,
}

-- From one state to another with `more` frames of the caller come in.
abbrev pub Conserves : ℕ → ℕ → State → State → Type 0
Conserves caller more s s' =
    IsSorted s'.reliable_out × (accounted caller s' ≡ more + accounted caller s)

replaced :
    (caller : ℕ) (peer : Text) (o o' : Outbox) (out : TreeMap Text Outbox)
    → IsSorted out
    → lookup peer out ≡ some o
    → waiting_in caller (insert peer o' out) + waiting caller o.entries
      ≡ waiting caller o'.entries + waiting_in caller out
replaced caller peer o o' out h e =
    subst
      (λ found.
        waiting_in caller (insert peer o' out) + held (λ x. waiting caller x.entries) found
        ≡ waiting caller o'.entries + waiting_in caller out)
      e (sum_of-insert (λ x. waiting caller x.entries) peer o' out h)

removed :
    (caller : ℕ) (peer : Text) (o : Outbox) (out : TreeMap Text Outbox)
    → IsSorted out
    → lookup peer out ≡ some o
    → waiting_in caller (remove peer out) + waiting caller o.entries ≡ waiting_in caller out
removed caller peer o out h e =
    subst
      (λ found.
        waiting_in caller (remove peer out) + held (λ x. waiting caller x.entries) found
        ≡ waiting_in caller out)
      e (sum_of-remove (λ x. waiting caller x.entries) peer out h)

settle_sent-Conserves :
    (caller : ℕ) (acked_peer : Bool) (peer : Text) (seq : ℕ) (o : Outbox) (s : State)
    → IsSorted s.reliable_out
    → lookup peer s.reliable_out ≡ some o
    → Conserves caller 0 s (settle_sent acked_peer peer seq o s)
unfolding settle_sent with_entries
settle_sent-Conserves caller true peer seq o s h e = (
  insert-IsSorted peer (with_entries o (mark_sent seq o.entries)) s.reliable_out h,
  omega (
    arith,
    replaced caller peer o (with_entries o (mark_sent seq o.entries)) s.reliable_out h e,
    waiting-mark_sent caller seq o.entries,
  ),
)
settle_sent-Conserves caller false peer seq o s h e =
    elim (Option-cases (find? (λ p. p.seq == seq) o.entries)) [
      | inl f ↦ rw (settle_sent, f) (h, omega arith)
      | inr (p, f) ↦
          rw (settle_sent, f)
            (
              insert-IsSorted peer (with_entries o (drop_seq seq o.entries)) s.reliable_out h,
              omega (
                arith,
                replaced caller peer o (with_entries o (drop_seq seq o.entries)) s.reliable_out h e,
                waiting-drop_seq caller seq o.entries p f,
                answered-answer caller delivered p.reply s.answers,
              ),
            )
    ]

flush_batch-Conserves :
    (caller : ℕ) (accepts : ℕ → Bool) (acked_peer : Bool) (peer : Text) (stream : ℕ)
    (ps : List Pending) (s : State)
    → IsSorted s.reliable_out
    → Conserves caller 0 s (flush_batch accepts acked_peer peer stream ps s)
unfolding flush_batch
flush_batch-Conserves caller accepts acked_peer peer stream [] s h = (h, omega arith)
flush_batch-Conserves caller accepts acked_peer peer stream (p ∷ ps) s h =
    elim (Bool-cases (accepts p.seq)) [
      | inr e ↦ rw e (h, omega arith)
      | inl e ↦ elim (Option-cases (lookup peer s.reliable_out)) [
        | inl f ↦ rw (e, f) (h, omega arith)
        | inr (o, f) ↦
            let sent = record s { wire = (peer, frame_of acked_peer stream p) ∷ s.wire } in
            let settled = settle_sent-Conserves caller acked_peer peer p.seq o sent h f in
            let rest =
              flush_batch-Conserves caller accepts acked_peer peer stream ps
                (settle_sent acked_peer peer p.seq o sent) settled.0 in
            rw (e, f) (rest.0, omega (arith, rest.1, settled.1))
      ]
    ]

pub flush_peer-Conserves :
    (caller : ℕ) (accepts : ℕ → Bool) (peer : Text) (s : State)
    → IsSorted s.reliable_out
    → Conserves caller 0 s (flush_peer accepts peer s)
unfolding flush_peer
flush_peer-Conserves caller accepts peer s h = elim (Option-cases (link_ready s peer)) [
  | inl e ↦ rw (flush_peer, e) (h, omega arith)
  | inr (acked_peer, e) ↦ elim (Option-cases (lookup peer s.reliable_out)) [
    | inl f ↦ rw (flush_peer, e, f) (h, omega arith)
    | inr (o, f) ↦
        rw (flush_peer, e, f)
          (flush_batch-Conserves caller accepts acked_peer peer o.stream
            (filterb (λ p. not p.sent) o.entries) s h)
  ]
]

pub flush_peers-Conserves :
    (caller : ℕ) (accepts : ℕ → Bool) (peers : List Text) (s : State)
    → IsSorted s.reliable_out
    → Conserves caller 0 s (flush_peers accepts peers s)
unfolding flush_peers
flush_peers-Conserves caller accepts [] s h = (h, omega arith)
flush_peers-Conserves caller accepts (peer ∷ peers) s h =
    let one = flush_peer-Conserves caller accepts peer s h in
    let rest = flush_peers-Conserves caller accepts peers (flush_peer accepts peer s) one.0 in
    (rest.0, omega (arith, one.1, rest.1))

pub enqueue-Conserves :
    (caller random now : ℕ) (accepts : ℕ → Bool) (peer chan payload : Text) (ttl_ms : Option ℕ)
    (c : ℕ) (s : State)
    → IsSorted s.reliable_out
    → Conserves caller
        (owed caller (some c))
        s
        (enqueue random now accepts peer chan payload ttl_ms c s)
unfolding enqueue new_outbox push
enqueue-Conserves caller random now accepts peer chan payload ttl_ms c s h =
    elim (Bool-cases (
      leb outbox_cap
        (length (unwrap_or (lookup peer s.reliable_out) (new_outbox random)).entries))) [
          | inl e ↦ rw e (h, omega arith)
          | inr e ↦
              let flushed =
                flush_peer-Conserves caller accepts peer pushed
                  (insert-IsSorted peer o s.reliable_out h) in
              rw e (flushed.0, omega (arith, flushed.1, more))
        ]
  where
    known : Outbox
    known = unwrap_or (lookup peer s.reliable_out) (new_outbox random)

    o : Outbox
    o = push chan payload ttl_ms now c known

    pushed : State
    pushed = record s { reliable_out = insert peer o s.reliable_out }

    more :
        waiting_in caller (insert peer o s.reliable_out)
        ≡ owed caller (some c) + waiting_in caller s.reliable_out
    more = elim (Option-cases (lookup peer s.reliable_out)) [
      | inl f ↦ omega (
        arith,
        sum_of-insert (λ x. waiting caller x.entries) peer o s.reliable_out h,
        ap (held (λ x. waiting caller x.entries)) f,
        ap (λ found. waiting caller (unwrap_or found (new_outbox random)).entries) f,
        waiting-append caller known.entries (entry chan payload ttl_ms now c known ∷ []),
      )
      | inr (x, f) ↦ omega (
        arith,
        sum_of-insert (λ x. waiting caller x.entries) peer o s.reliable_out h,
        ap (held (λ x. waiting caller x.entries)) f,
        ap (λ found. waiting caller (unwrap_or found (new_outbox random)).entries) f,
        waiting-append caller known.entries (entry chan payload ttl_ms now c known ∷ []),
      )
    ]

keep_if_pending-kept :
    (caller : ℕ) (peer : Text) (o o' : Outbox) (out : TreeMap Text Outbox)
    → IsSorted out
    → lookup peer out ≡ some o
    → IsSorted (keep_if_pending peer o' out)
      × (waiting_in caller (keep_if_pending peer o' out) + waiting caller o.entries
          ≡ waiting caller o'.entries + waiting_in caller out)
unfolding keep_if_pending remove
keep_if_pending-kept caller peer o o' out h e = go o'.entries refl
  where
    go :
        (ps : List Pending)
        → o'.entries ≡ ps
        → IsSorted (keep_if_pending peer o' out)
          × (waiting_in caller (keep_if_pending peer o' out) + waiting caller o.entries
              ≡ waiting caller o'.entries + waiting_in caller out)
    go [] f =
        rw (keep_if_pending, f)
          (remove-IsSorted peer out h, omega (arith, removed caller peer o out h e))
    go (p ∷ ps) f =
        rw (keep_if_pending, f)
          (
            insert-IsSorted peer o' out h,
            omega (arith, ap (waiting caller) f, replaced caller peer o o' out h e),
          )

pub on_channel_ack-Conserves :
    (caller : ℕ) (peer : Text) (stream up_to : ℕ) (s : State)
    → IsSorted s.reliable_out
    → Conserves caller 0 s (on_channel_ack peer stream up_to s)
unfolding on_channel_ack
on_channel_ack-Conserves caller peer stream up_to s h =
    elim (Option-cases (lookup peer s.reliable_out)) [
      | inl f ↦ rw (on_channel_ack, f) (h, omega arith)
      | inr (o, f) ↦ elim (Bool-cases (o.stream == stream)) [
        | inr e ↦ rw (on_channel_ack, f, on_ack_outbox, e) (h, omega arith)
        | inl e ↦
            let left = (pop_acked up_to o.entries s.answers).0 in
            let kept =
              keep_if_pending-kept caller peer o (with_entries o left) s.reliable_out h f in
            rw (on_channel_ack, f, on_ack_outbox, e)
              (kept.0, omega (arith, kept.1, waiting-pop_acked caller up_to o.entries s.answers))
      ]
    ]

pub mark_unsent-Conserves :
    (caller : ℕ) (peer : Text) (s : State)
    → IsSorted s.reliable_out
    → Conserves caller 0 s (mark_unsent peer s)
unfolding mark_unsent with_entries
mark_unsent-Conserves caller peer s h = elim (Option-cases (lookup peer s.reliable_out)) [
  | inl f ↦ rw (mark_unsent, f) (h, omega arith)
  | inr (o, f) ↦
      rw (mark_unsent, f)
        (
          insert-IsSorted peer (with_entries o (unsent o.entries)) s.reliable_out h,
          omega (
            arith,
            replaced caller peer o (with_entries o (unsent o.entries)) s.reliable_out h f,
            waiting-unsent caller o.entries,
          ),
        )
]

pub fail_peer-Conserves :
    (caller : ℕ) (peer : Text) (s : State)
    → IsSorted s.reliable_out
    → Conserves caller 0 s (fail_peer peer s)
unfolding fail_peer
fail_peer-Conserves caller peer s h = elim (Option-cases (lookup peer s.reliable_out)) [
  | inl f ↦ rw (fail_peer, f) (h, omega arith)
  | inr (o, f) ↦
      rw (fail_peer, f)
        (
          remove-IsSorted peer s.reliable_out h,
          omega (
            arith,
            removed caller peer o s.reliable_out h f,
            answered-answer_all caller abandoned o.entries s.answers,
          ),
        )
]
