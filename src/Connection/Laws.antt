-- ===== src/Connection/Laws.antt =====
-- One gathering generation: what its report counts.
use my_own_mesh.Base.{
  ◌+◌, ◌≡◌, refl, ◌∙◌, ap, true, false, none, some, List, [], ◌∷◌, length, arith,
}
use my_own_mesh.Connection.{
  PeerState, IceCandidateKind, IceCandidateStats, record_candidate, total, begin_local_gather,
  record_local_candidate, finish_local_gather,
}

abbrev record_all : List IceCandidateKind → PeerState → PeerState
record_all [] p = p
record_all (k ∷ ks) p = record_all ks (record_local_candidate k p)

total-record :
    (k : IceCandidateKind) (s : IceCandidateStats) → total (record_candidate k s) ≡ total s + 1
unfolding total record_candidate
total-record k s = ground arith

record_step :
    (k : IceCandidateKind) (p : PeerState)
    → p.local_gather_in_progress ≡ true
    → let q = record_local_candidate k p in
      (q.local_gather_in_progress ≡ true)
      × (total q.local_gather_candidates ≡ total p.local_gather_candidates + 1)
      × (total q.local_candidates ≡ total p.local_candidates + 1)
unfolding record_local_candidate
record_step k p h =
    ground (arith, total-record k p.local_gather_candidates, total-record k p.local_candidates)

record_all_totals :
    (ks : List IceCandidateKind) (p : PeerState)
    → p.local_gather_in_progress ≡ true
    → let q = record_all ks p in
      (q.local_gather_in_progress ≡ true)
      × (total q.local_gather_candidates ≡ total p.local_gather_candidates + length ks)
      × (total q.local_candidates ≡ total p.local_candidates + length ks)
record_all_totals [] p h = (h, omega arith, omega arith)
record_all_totals (k ∷ ks) p h =
    ground (arith, record_step k p h, record_all_totals ks (record_local_candidate k p))

begin_idle :
    (p : PeerState)
    → p.local_gather_in_progress ≡ false
    → let q = begin_local_gather p in
      (q.local_gather_in_progress ≡ true)
      × (total q.local_gather_candidates ≡ 0)
      × (total q.local_candidates ≡ total p.local_candidates)
unfolding begin_local_gather total
begin_idle p h = rw h (refl, refl, refl)

finish_running :
    (q : PeerState)
    → q.local_gather_in_progress ≡ true
    → let (r, report) = finish_local_gather q in
      (report ≡ some q.local_gather_candidates)
      × (r.local_candidates ≡ q.local_candidates)
      × ((finish_local_gather r).1 ≡ none)
      × (begin_local_gather q ≡ q)
unfolding finish_local_gather begin_local_gather
finish_running q h = ground arith

-- A gathering that begins while none is in progress, sees the candidates `ks` and finishes reports
-- exactly as many candidates as `ks` has, whatever an earlier generation counted, while the
-- cumulative count keeps the earlier ones; a second finish reports nothing, and a begin in the
-- middle changes nothing.
gather_counts :
    (p : PeerState) (ks : List IceCandidateKind)
    → p.local_gather_in_progress ≡ false
    → let q = record_all ks (begin_local_gather p) in
      let (r, report) = finish_local_gather q in
      ((s : IceCandidateStats) × (report ≡ some s) × (total s ≡ length ks))
      × (total r.local_candidates ≡ total p.local_candidates + length ks)
      × ((finish_local_gather r).1 ≡ none)
      × (begin_local_gather q ≡ q)
gather_counts p ks h =
    let q = record_all ks (begin_local_gather p) in
    let b = begin_idle p h in
    let t = record_all_totals ks (begin_local_gather p) b.0 in
    let f = finish_running q t.0 in
    (
      (q.local_gather_candidates, f.0, omega (arith, t.1, b.1)),
      ap total f.1 ∙ omega (arith, t.2, b.2),
      f.2,
      f.3,
    )
