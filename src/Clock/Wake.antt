-- ===== src/Clock/Wake.antt =====
-- Which ticks the wake detector takes for a resume from sleep.
use my_own_mesh.Base.{
  ℕ, ◌-◌, ◌*◌, ◌≤◌, ◌≡◌, refl, inl, inr, false, Option, none, some, List, [], ◌∷◌, max, ltb,
  if◌then◌else◌, arith, Bool-cases, Option-cases,
}
use my_own_mesh.Clock.{
  WakeDetector, new_detector, is_wake, stale, observe, take_wake_event, wake_detection_threshold_ms,
}

-- The times at which the detector, driven by ticks of one interval, raises a wake event.
abbrev wakes : ℕ → List ℕ → WakeDetector → List ℕ
wakes interval_ms [] d = []
wakes interval_ms (now ∷ times) d =
    if (take_wake_event (observe now interval_ms d)).1
    then now ∷ wakes interval_ms times (take_wake_event (observe now interval_ms d)).0
    else wakes interval_ms times (take_wake_event (observe now interval_ms d)).0

-- The times of the ticks that come later than the threshold after the one before.
abbrev pub late : ℕ → ℕ → List ℕ → List ℕ
late interval_ms before [] = []
late interval_ms before (now ∷ times) =
    if ltb (max wake_detection_threshold_ms (interval_ms * 2)) (now - before)
    then now ∷ late interval_ms now times
    else late interval_ms now times

abbrev IsRising : ℕ → List ℕ → Type 0
IsRising before [] = Unit
IsRising before (now ∷ times) = (before ≤ now) × IsRising now times

abbrev NotAfter : Option ℕ → ℕ → Type 0
NotAfter none t = Unit
NotAfter (some s) t = s ≤ t

is_wake-gap :
    (interval_ms before now : ℕ) (d : WakeDetector)
    → d.last_tick_at ≡ some before
    → NotAfter d.last_wake_at before
    → is_wake now interval_ms d
      ≡ ltb (max wake_detection_threshold_ms (interval_ms * 2)) (now - before)
unfolding is_wake stale
is_wake-gap interval_ms before now d e n = elim (Option-cases d.last_wake_at) [
  | inl f ↦ ground (arith, e, f)
  | inr (t, f) ↦ let old : t ≤ before = rw f at n in ground (arith, e, f, old)
]

observe-facts :
    (interval_ms before now : ℕ) (d : WakeDetector)
    → d.pending ≡ false
    → NotAfter d.last_wake_at before
    → before ≤ now
    → ((observe now interval_ms d).pending ≡ is_wake now interval_ms d)
      × ((observe now interval_ms d).last_tick_at ≡ some now)
      × NotAfter (observe now interval_ms d).last_wake_at now
unfolding observe
observe-facts interval_ms before now d f n r = elim (Bool-cases (is_wake now interval_ms d)) [
  | inl e ↦ rw e (refl, refl, omega arith)
  | inr e ↦ rw e (f, refl, later d.last_wake_at n)
]
  where
    later : (t : Option ℕ) → NotAfter t before → NotAfter t now
    later none h = tt
    later (some t) h = omega (arith, h, r)

wakes-late_from :
    (interval_ms before : ℕ) (times : List ℕ) (d : WakeDetector)
    → d.last_tick_at ≡ some before
    → d.pending ≡ false
    → NotAfter d.last_wake_at before
    → IsRising before times
    → wakes interval_ms times d ≡ late interval_ms before times
unfolding take_wake_event
wakes-late_from interval_ms before [] d e f n r = refl
wakes-late_from interval_ms before (now ∷ times) d e f n r =
    let facts = observe-facts interval_ms before now d f n r.0 in
    let drained = (take_wake_event (observe now interval_ms d)).0 in
    ground (
      arith,
      facts.0,
      is_wake-gap interval_ms before now d e n,
      wakes-late_from interval_ms now times drained facts.1 refl facts.2 r.1,
    )

-- A detector that starts afresh and is drained after every tick raises a wake event at exactly the
-- ticks that come more than the threshold after the tick before, when time does not run backwards:
-- the window that coalesces wakes never suppresses one of its own ticks.
wakes-late :
    (interval_ms first : ℕ) (times : List ℕ)
    → IsRising first times
    → wakes interval_ms (first ∷ times) new_detector ≡ late interval_ms first times
unfolding observe is_wake take_wake_event new_detector
wakes-late interval_ms first times r =
    wakes-late_from interval_ms first times (observe first interval_ms new_detector) refl refl tt r
