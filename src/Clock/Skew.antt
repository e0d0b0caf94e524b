-- ===== src/Clock/Skew.antt =====
-- The latch of the clock-skew diagnostic, and the majority behind its estimate.
use my_own_mesh.Base.{
  ℕ, suc, ◌≤◌, ◌≡◌, refl, Bool, true, false, Option, none, some, List, [], ◌∷◌, ◌++◌, min, leb,
  if◌then◌else◌, arith,
}
use my_own_mesh.Clock.{
  ℤ, abs, skew_warn_ms, skew_warn_ticks, skew_clear_ms, SkewVerdict, warn, cleared, ClockSkewWatch,
  new_watch, observe_skew,
}

abbrev pub Tick : Type 0
Tick = Option ℤ × ℕ

-- The verdicts of a sequence of ticks, in their order.
abbrev with_verdict : Option SkewVerdict → List SkewVerdict → List SkewVerdict
with_verdict none vs = vs
with_verdict (some v) vs = v ∷ vs

abbrev pub verdicts : List Tick → ClockSkewWatch → List SkewVerdict
verdicts [] w = []
verdicts ((estimate, peers) ∷ ticks) w =
    with_verdict (observe_skew estimate peers w).1
      (verdicts ticks (observe_skew estimate peers w).0)

-- Warnings and clearances take turns; `warned` tells which is next.
abbrev pub Alternates : Bool → List SkewVerdict → Type 0
Alternates warned [] = Unit
Alternates warned (warn skew peers ∷ vs) =
    (warned ≡ false) × (skew_warn_ms ≤ abs skew) × Alternates true vs
Alternates warned (cleared skew ∷ vs) =
    (warned ≡ true) × (abs skew ≤ skew_clear_ms) × Alternates false vs

Alternates-observe :
    (estimate : Option ℤ) (peers : ℕ) (w : ClockSkewWatch) (vs : List SkewVerdict)
    → Alternates (observe_skew estimate peers w).0.warned vs
    → Alternates w.warned (with_verdict (observe_skew estimate peers w).1 vs)
unfolding observe_skew
Alternates-observe none peers w vs h = h
Alternates-observe (some skew) peers w vs h = ground arith

-- Whatever the estimates are, a warning is raised only when none stands and for a skew of at least
-- `skew_warn_ms`, and cleared only when one stands and for a skew of at most `skew_clear_ms`.
pub verdicts-Alternates :
    (ticks : List Tick) (w : ClockSkewWatch) → Alternates w.warned (verdicts ticks w)
verdicts-Alternates [] w = tt
verdicts-Alternates ((estimate, peers) ∷ ticks) w =
    Alternates-observe estimate peers w _
      (verdicts-Alternates ticks (observe_skew estimate peers w).0)

-- How many of the latest ticks, counted back from the last one, were over the threshold. `earlier` is
-- what the ticks before these made it.
abbrev streak : ℕ → List Tick → ℕ
streak earlier [] = earlier
streak earlier ((none, peers) ∷ ticks) = streak 0 ticks
streak earlier ((some skew, peers) ∷ ticks) =
    streak (if leb skew_warn_ms (abs skew) then suc earlier else 0) ticks

abbrev observe_all : List Tick → ClockSkewWatch → ClockSkewWatch
observe_all [] w = w
observe_all ((estimate, peers) ∷ ticks) w = observe_all ticks (observe_skew estimate peers w).0

over_ticks-observe :
    (earlier : ℕ) (skew : ℤ) (peers : ℕ) (w : ClockSkewWatch)
    → w.over_ticks ≡ min earlier 255
    → (observe_skew (some skew) peers w).0.over_ticks
      ≡ min (if leb skew_warn_ms (abs skew) then suc earlier else 0) 255
unfolding observe_skew
over_ticks-observe earlier skew peers w h = ground arith

over_ticks-streak :
    (earlier : ℕ) (ticks : List Tick) (w : ClockSkewWatch)
    → w.over_ticks ≡ min earlier 255
    → (observe_all ticks w).over_ticks ≡ min (streak earlier ticks) 255
over_ticks-streak earlier [] w h = h
over_ticks-streak earlier ((none, peers) ∷ ticks) w h =
    over_ticks-streak 0 ticks (observe_skew none peers w).0 (unfold observe_skew in omega arith)
over_ticks-streak earlier ((some skew, peers) ∷ ticks) w h =
    over_ticks-streak (if leb skew_warn_ms (abs skew) then suc earlier else 0) ticks
      (observe_skew (some skew) peers w).0 (over_ticks-observe earlier skew peers w h)

streak-snoc :
    (earlier : ℕ) (ticks : List Tick) (estimate : Option ℤ) (peers : ℕ)
    → streak earlier (ticks ++ (estimate, peers) ∷ [])
      ≡ streak (streak earlier ticks) ((estimate, peers) ∷ [])
streak-snoc earlier [] estimate peers = refl
streak-snoc earlier ((none, n) ∷ ticks) estimate peers = streak-snoc 0 ticks estimate peers
streak-snoc earlier ((some skew, n) ∷ ticks) estimate peers =
    streak-snoc (if leb skew_warn_ms (abs skew) then suc earlier else 0) ticks estimate peers

-- From a watch that has seen nothing, a warning is raised only at a tick over the threshold that
-- follows at least two more over it without a break.
warn-streak :
    (ticks : List Tick) (estimate : Option ℤ) (peers count : ℕ) (skew : ℤ)
    → (observe_skew estimate peers (observe_all ticks new_watch)).1 ≡ some (warn skew count)
    → skew_warn_ticks ≤ streak 0 (ticks ++ (estimate, peers) ∷ [])
unfolding observe_skew
warn-streak ticks none peers count skew h = ground (arith, h)
warn-streak ticks (some s) peers count skew h = ground (
  arith,
  h,
  streak-snoc 0 ticks (some s) peers,
  over_ticks-streak 0 ticks new_watch (omega arith),
)
