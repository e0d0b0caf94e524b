-- ===== src/Reliable/Callers.antt =====
-- Nobody who enqueued a frame is forgotten or told twice: what is owed to a caller.
use my_own_mesh.Base.{
  ℕ, ◌+◌, ◌≡◌, refl, inl, inr, Option, none, some, List, [], ◌∷◌, ◌++◌, find?, ◌==◌, Bool-cases,
  if◌then◌else◌, arith,
}
use my_own_mesh.Base.Text.{Text, text_ordered}
use my_own_mesh.Base.TreeMap.{TreeMap}
use my_own_mesh.Base.Entries.{sum_of}
use my_own_mesh.Reliable.{
  Answer, delivered, answer, Pending, Outbox, State, mark_sent, drop_seq, with_entries, pop_acked,
  unsent, answer_all, fresh_entries, lapsed_entries, keep_outbox, sweep, Event, enqueues,
}

-- One for the caller asked about, none for another.
abbrev pub owed : ℕ → Option ℕ → ℕ
owed caller none = 0
owed caller (some c) = if c == caller then 1 else 0

abbrev pub waiting : ℕ → List Pending → ℕ
waiting caller [] = 0
waiting caller (p ∷ ps) = owed caller p.reply + waiting caller ps

abbrev pub waiting_in : ℕ → TreeMap Text Outbox → ℕ
waiting_in caller out = sum_of (λ o. waiting caller o.entries) out

abbrev pub answered : ℕ → List (ℕ × Answer) → ℕ
answered caller [] = 0
answered caller ((c, a) ∷ answers) = owed caller (some c) + answered caller answers

-- The frames of a caller that wait, and the answers that it was given.
abbrev pub accounted : ℕ → State → ℕ
accounted caller s = waiting_in caller s.reliable_out + answered caller s.answers

-- The frames of a caller that an event brings in.
abbrev pub issued : ℕ → Event → ℕ
issued caller (enqueues random now accepts peer chan payload ttl_ms c) = owed caller (some c)
issued caller _ = 0

pub answered-answer :
    (caller : ℕ) (a : Answer) (r : Option ℕ) (answers : List (ℕ × Answer))
    → answered caller (answer a r answers) ≡ owed caller r + answered caller answers
answered-answer caller a none answers = omega arith
answered-answer caller a (some c) answers = omega arith

pub answered-answer_all :
    (caller : ℕ) (a : Answer) (ps : List Pending) (answers : List (ℕ × Answer))
    → answered caller (answer_all a ps answers) ≡ waiting caller ps + answered caller answers
unfolding answer_all
answered-answer_all caller a [] answers = omega arith
answered-answer_all caller a (p ∷ ps) answers = omega (
  arith,
  answered-answer_all caller a ps (answer a p.reply answers),
  answered-answer caller a p.reply answers,
)

pub waiting-append :
    (caller : ℕ) (ps qs : List Pending)
    → waiting caller (ps ++ qs) ≡ waiting caller ps + waiting caller qs
waiting-append caller [] qs = omega arith
waiting-append caller (p ∷ ps) qs = omega (arith, waiting-append caller ps qs)

pub waiting-mark_sent :
    (caller seq : ℕ) (ps : List Pending) → waiting caller (mark_sent seq ps) ≡ waiting caller ps
unfolding mark_sent
waiting-mark_sent caller seq [] = refl
waiting-mark_sent caller seq (p ∷ ps) = ground (arith, waiting-mark_sent caller seq ps)

pub waiting-drop_seq :
    (caller seq : ℕ) (ps : List Pending) (p : Pending)
    → find? (λ q. q.seq == seq) ps ≡ some p
    → waiting caller (drop_seq seq ps) + owed caller p.reply ≡ waiting caller ps
unfolding drop_seq
waiting-drop_seq caller seq [] p h = cc
waiting-drop_seq caller seq (q ∷ ps) p h = elim (Bool-cases (q.seq == seq)) [
  | inl e ↦ ground arith
  | inr e ↦ ground (arith, waiting-drop_seq caller seq ps p)
]

pub waiting-unsent :
    (caller : ℕ) (ps : List Pending) → waiting caller (unsent ps) ≡ waiting caller ps
unfolding unsent
waiting-unsent caller [] = refl
waiting-unsent caller (p ∷ ps) = omega (arith, waiting-unsent caller ps)

pub waiting-pop_acked :
    (caller up_to : ℕ) (ps : List Pending) (answers : List (ℕ × Answer))
    → waiting caller (pop_acked up_to ps answers).0 + answered caller (pop_acked up_to ps answers).1
      ≡ waiting caller ps + answered caller answers
unfolding pop_acked
waiting-pop_acked caller up_to [] answers = refl
waiting-pop_acked caller up_to (p ∷ ps) answers = ground (
  arith,
  waiting-pop_acked caller up_to ps (answer delivered p.reply answers),
  answered-answer caller delivered p.reply answers,
)

waiting-lapsed :
    (caller now : ℕ) (ps : List Pending)
    → waiting caller (fresh_entries now ps) + waiting caller (lapsed_entries now ps)
      ≡ waiting caller ps
unfolding fresh_entries lapsed_entries
waiting-lapsed caller now [] = refl
waiting-lapsed caller now (p ∷ ps) = ground (arith, waiting-lapsed caller now ps)

waiting_in-keep_outbox :
    (caller : ℕ) (peer : Text) (o : Outbox) (left : List Pending) (out : TreeMap Text Outbox)
    → waiting_in caller (keep_outbox peer o left out) ≡ waiting caller left + waiting_in caller out
unfolding keep_outbox with_entries
waiting_in-keep_outbox caller peer o [] out = omega arith
waiting_in-keep_outbox caller peer o (p ∷ ps) out = omega arith

pub waiting_in-sweep :
    (caller now : ℕ) (out : TreeMap Text Outbox)
    → waiting_in caller (sweep now out).out + waiting caller (sweep now out).lapsed
      ≡ waiting_in caller out
unfolding sweep
waiting_in-sweep caller now [] = refl
waiting_in-sweep caller now ((peer, o) ∷ out) = omega (
  arith,
  waiting_in-sweep caller now out,
  waiting_in-keep_outbox caller peer o (fresh_entries now o.entries) (sweep now out).out,
  waiting-lapsed caller now o.entries,
  waiting-append caller (lapsed_entries now o.entries) (sweep now out).lapsed,
)
