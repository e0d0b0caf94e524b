-- ===== src/Clock.antt =====
-- Clocks: `median` and `ClockSkewWatch` of crates/myownmesh-core/src/engine/heartbeat.rs, and
-- `WakeDetector` of crates/myownmesh-core/src/engine/wake.rs with the constants of
-- crates/myownmesh-core/src/engine/scheduler.rs. An `i64` skew is an integer; its `abs` is taken not
-- to overflow. An `Instant` is a number of milliseconds.
pub mod Skew
pub mod Wake
use my_own_mesh.Base.{
  ℕ, suc, ◌+◌, ◌-◌, ◌*◌, ◌/◌, ◌%◌, Bool, true, false, not, ◌&&◌, Option, none, some, List, [], ◌∷◌,
  min, max, length, get_elem?, ltb, leb, ◌==◌, if◌then◌else◌, unwrap_or,
}
use my_own_mesh.Base.Sorting.{sort}

-- `negsuc n` is `- (n + 1)`.
pub data ℤ : Type 0 where
  pos : ℕ → ℤ
  negsuc : ℕ → ℤ

abbrev pub abs : ℤ → ℕ
abs (pos n) = n
abs (negsuc n) = suc n

abbrev le_int : ℤ → ℤ → Bool
le_int (pos a) (pos b) = leb a b
le_int (pos a) (negsuc b) = false
le_int (negsuc a) (pos b) = true
le_int (negsuc a) (negsuc b) = leb b a

-- `sorted[i]`, which the code reads within bounds.
abbrev at_or : List ℤ → ℕ → ℤ
at_or sorted i = unwrap_or (get_elem? sorted i) (pos 0)

-- The middle of a sorted list; of the two middle ones that of the smaller magnitude.
middle : List ℤ → ℤ
middle sorted =
    let n = length sorted in
    if n % 2 == 1
    then at_or sorted (n / 2)
    else if leb (abs (at_or sorted (n / 2 - 1))) (abs (at_or sorted (n / 2)))
    then at_or sorted (n / 2 - 1)
    else at_or sorted (n / 2)

median : List ℤ → Option ℤ
unfolding sort middle
median [] = none
median (x ∷ xs) = some (middle (sort le_int (x ∷ xs)))

abbrev pub skew_warn_ms : ℕ
skew_warn_ms = 10_000

abbrev pub skew_clear_ms : ℕ
skew_clear_ms = 5_000

abbrev pub skew_warn_ticks : ℕ
skew_warn_ticks = 3

pub data SkewVerdict : Type 0 where
  warn : ℤ → ℕ → SkewVerdict
  cleared : ℤ → SkewVerdict

pub record ClockSkewWatch : Type 0 where
  pub over_ticks : ℕ
  pub warned : Bool

-- `ClockSkewWatch::default()`.
abbrev pub new_watch : ClockSkewWatch
new_watch = record { over_ticks = 0; warned = false }

pub observe_skew : Option ℤ → ℕ → ClockSkewWatch → ClockSkewWatch × Option SkewVerdict
observe_skew none peers w = (record w { over_ticks = 0 }, none)
observe_skew (some skew_ms) peers w =
    if leb skew_warn_ms (abs skew_ms)
    then
        -- `saturating_add` on a `u8`.
        (let over_ticks = min (w.over_ticks + 1) 255 in
        if leb skew_warn_ticks over_ticks && not w.warned
        then (record { over_ticks = over_ticks; warned = true }, some (warn skew_ms peers))
        else (record w { over_ticks = over_ticks }, none))
    else if w.warned && leb (abs skew_ms) skew_clear_ms
    then (record { over_ticks = 0; warned = false }, some (cleared skew_ms))
    else (record w { over_ticks = 0 }, none)

abbrev pub wake_detection_threshold_ms : ℕ
wake_detection_threshold_ms = 60_000

abbrev wake_coalesce_ms : ℕ
wake_coalesce_ms = 2_000

pub record WakeDetector : Type 0 where
  pub last_tick_at : Option ℕ
  pub last_wake_at : Option ℕ
  pub pending : Bool

pub new_detector : WakeDetector
new_detector = record { last_tick_at = none; last_wake_at = none; pending = false }

-- Whether the last wake is far enough back; `u64::MAX` stands for no wake so far.
stale : ℕ → Option ℕ → Bool
stale now none = true
stale now (some t) = ltb wake_coalesce_ms (now - t)

-- Whether this tick counts as a wake. `saturating_duration_since` stops at 0, as `-` does.
pub is_wake : ℕ → ℕ → WakeDetector → Bool
unfolding stale
is_wake now interval_ms d = elim d.last_tick_at [
  | none ↦ false
  | some prev ↦
      ltb (max wake_detection_threshold_ms (interval_ms * 2)) (now - prev)
      && stale now d.last_wake_at
]

pub observe : ℕ → ℕ → WakeDetector → WakeDetector
unfolding is_wake
observe now interval_ms d =
    if is_wake now interval_ms d
    then record { last_tick_at = some now; last_wake_at = some now; pending = true }
    else record d { last_tick_at = some now }

pub take_wake_event : WakeDetector → WakeDetector × Bool
take_wake_event d = (record d { pending = false }, d.pending)
