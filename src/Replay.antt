-- ===== src/Replay.antt =====
-- The duplicate fence for RTP packets: `ReplayWindow` of
-- crates/myownmesh-core/src/transport/rtp_replay.rs. The bit `slot % 64` of the word `slot / 64` is
-- the bit at `slot`; a sequence number is a `u16`, whose wrap-around is written out.
pub mod Fence
use my_own_mesh.Base.{
  ℕ, zero, suc, ◌+◌, ◌-◌, ◌%◌, Bool, true, false, not, ◌&&◌, Option, none, some, ltb, leb, ◌==◌,
  if◌then◌else◌,
}

pub record ReplayWindow : Type 0 where
  pub latest : Option ℕ
  pub bits : ℕ → Bool
  pub size : ℕ

new_window : ℕ → ReplayWindow
new_window size = record { latest = none; bits = λ slot. false; size = size }

abbrev pub wrapping_sub : ℕ → ℕ → ℕ
wrapping_sub a b = ((a + 65_536) - b) % 65_536

-- `(a.wrapping_sub(b) as i16) > 0`.
abbrev pub is_ahead : ℕ → ℕ → Bool
is_ahead a b = ltb 0 (wrapping_sub a b) && ltb (wrapping_sub a b) 32_768

set_bit : ℕ → Bool → (ℕ → Bool) → ℕ → Bool
set_bit slot bit bits q = if q == slot then bit else bits q

-- The loop `for step in from..from + count`.
clear : ℕ → ℕ → ℕ → ℕ → (ℕ → Bool) → ℕ → Bool
unfolding set_bit
clear size latest zero from bits = bits
clear size latest (suc count) from bits =
    clear size latest count (from + 1) (set_bit (((latest + from) % 65_536) % size) false bits)

-- The window moved on to a number that is ahead.
move_to : ℕ → ℕ → ReplayWindow → ReplayWindow
unfolding clear
move_to seq latest w =
    let delta = wrapping_sub seq latest in
    record w {
      latest = some seq;
      bits = if leb w.size delta then (λ slot. false) else clear w.size latest delta 1 w.bits;
    }

-- The end of `accept`, once the window is where it has to be.
mark : ℕ → ReplayWindow → ReplayWindow × Bool
unfolding set_bit
mark seq w =
    if w.bits (seq % w.size)
    then (w, false)
    else (record w { bits = set_bit (seq % w.size) true w.bits }, true)

unfoldable pub accept : ℕ → ReplayWindow → ReplayWindow × Bool
unfolding move_to mark
accept seq w = elim w.latest [
  | none ↦ mark seq (record w { latest = some seq })
  | some latest ↦
      if is_ahead seq latest
      then mark seq (move_to seq latest w)
      else if leb w.size (wrapping_sub latest seq)
      then (w, false)
      else mark seq w
]
