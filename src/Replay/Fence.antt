-- ===== src/Replay/Fence.antt =====
-- A packet that was accepted is refused as long as its number is in the window.
use my_own_mesh.Base.{
  ap, subst, sym, ◌∙◌, ℕ, zero, suc, ◌+◌, ◌%◌, ◌≤◌, ◌<◌, ◌≡◌, ◌≢◌, refl, inl, inr, Bool, true,
  false, Option, none, some, List, [], ◌∷◌, leb, ◌==◌, arith, Bool-cases, Option-cases,
}
use my_own_mesh.Replay.{ReplayWindow, wrapping_sub, is_ahead, set_bit, clear, move_to, mark, accept}

clear-keeps :
    (size latest count from : ℕ) (bits : ℕ → Bool) (slot : ℕ)
    → ((j : ℕ) → from ≤ j → j < from + count → ((latest + j) % 65_536) % size ≢ slot)
    → clear size latest count from bits slot ≡ bits slot
unfolding clear set_bit
clear-keeps size latest zero from bits slot h = refl
clear-keeps size latest (suc count) from bits slot h = ground (
  arith,
  clear-keeps size latest count (from + 1) (set_bit (((latest + from) % 65_536) % size) false bits)
      slot (λ j l u. h j (omega arith) (omega arith)),
  h from (omega arith) (omega arith),
)

clear-off :
    (size latest count from : ℕ) (bits : ℕ → Bool) (slot : ℕ)
    → bits slot ≡ false
    → clear size latest count from bits slot ≡ false
unfolding clear set_bit
clear-off size latest zero from bits slot h = h
clear-off size latest (suc count) from bits slot h =
    clear-off size latest count (from + 1) (set_bit (((latest + from) % 65_536) % size) false bits)
      slot (ground arith)

clear-clears :
    (size latest count from : ℕ) (bits : ℕ → Bool) (j : ℕ)
    → from ≤ j
    → j < from + count
    → clear size latest count from bits (((latest + j) % 65_536) % size) ≡ false
unfolding clear set_bit
clear-clears size latest zero from bits j l u = absurd (omega arith)
clear-clears size latest (suc count) from bits j l u = elim (Bool-cases (j == from)) [
  | inl e ↦
      clear-off size latest count (from + 1)
        (set_bit (((latest + from) % 65_536) % size) false bits) _ (ground arith)
  | inr e ↦
      clear-clears size latest count (from + 1)
        (set_bit (((latest + from) % 65_536) % size) false bits) j (ground arith) (omega arith)
]

-- The numbers are 16 bits wide and the window is the one that the transport installs.
abbrev IsU16 : Option ℕ → Type 0
IsU16 none = Unit
IsU16 (some l) = l < 65_536

abbrev pub IsValid : ReplayWindow → Type 0
IsValid w = (w.size ≡ 8_192) × IsU16 w.latest

abbrev Within : Option ℕ → ℕ → Type 0
Within none seq = ⊥
Within (some l) seq = wrapping_sub l seq < 8_192

abbrev Holds : ReplayWindow → ℕ → Type 0
Holds w seq = Within w.latest seq × (w.bits (seq % 8_192) ≡ true)

back_after :
    (l q s : ℕ)
    → l < 65_536
    → q < 65_536
    → s < 65_536
    → wrapping_sub l s < 8_192
    → wrapping_sub q l < 32_768
    → wrapping_sub q s ≡ wrapping_sub l s + wrapping_sub q l
back_after l q s hl hq hs w d = omega arith

other_slot :
    (l s j : ℕ)
    → l < 65_536
    → s < 65_536
    → 0 < j
    → wrapping_sub l s + j < 8_192
    → ((l + j) % 65_536) % 8_192 ≢ s % 8_192
other_slot l s j hl hs p b = λ e. omega (arith, e)

same_slot :
    (q s : ℕ)
    → q < 65_536
    → s < 65_536
    → wrapping_sub q s < 8_192
    → (q % 8_192) ≡ (s % 8_192)
    → q ≡ s
same_slot q s hq hs w e = omega arith

mark-keeps :
    (q s : ℕ) (w : ReplayWindow)
    → w.bits (s % 8_192) ≡ true
    → ((mark q w).0.bits (s % 8_192) ≡ true)
      × ((mark q w).0.latest ≡ w.latest)
      × ((mark q w).0.size ≡ w.size)
unfolding mark set_bit
mark-keeps q s w h = ground arith

mark-latest :
    (q : ℕ) (w : ReplayWindow) → ((mark q w).0.latest ≡ w.latest) × ((mark q w).0.size ≡ w.size)
unfolding mark
mark-latest q w = ground arith

mark-sets : (q : ℕ) (w : ReplayWindow) → w.size ≡ 8_192 → (mark q w).0.bits (q % 8_192) ≡ true
unfolding mark set_bit
mark-sets q w e = ground (arith, e)

move_to-keeps :
    (l q s : ℕ) (w : ReplayWindow)
    → w.size ≡ 8_192
    → l < 65_536
    → q < 65_536
    → s < 65_536
    → wrapping_sub l s < 8_192
    → w.bits (s % 8_192) ≡ true
    → is_ahead q l ≡ true
    → wrapping_sub q s < 8_192
    → (move_to q l w).bits (s % 8_192) ≡ true
unfolding move_to
move_to-keeps l q s w e hl hq hs near bit ahead stays =
    let d = back_after l q s hl hq hs near (ground arith) in
    let close : leb 8_192 (wrapping_sub q l) ≡ false = ground (arith, d) in
    rw (e, close)
      (clear-keeps 8_192 l (wrapping_sub q l) 1 w.bits (s % 8_192)
          (λ j a b. other_slot l s j hl hs (omega arith) (omega (arith, d)))
        ∙ bit)

move_to-latest : (q l : ℕ) (w : ReplayWindow) → (move_to q l w).latest ≡ some q
unfolding move_to
move_to-latest q l w = refl

accept-IsValid : (q : ℕ) (w : ReplayWindow) → q < 65_536 → IsValid w → IsValid (accept q w).0
unfolding accept move_to
accept-IsValid q w hq v = elim (Option-cases w.latest) [
  | inl e ↦ rw (accept, e) (ground (arith, mark-latest q (record w { latest = some q })))
  | inr (l, e) ↦ ground (arith, e, v.1, mark-latest q (move_to q l w), mark-latest q w)
]

verdict_behind :
    (l s : ℕ) (w : ReplayWindow)
    → l < 65_536
    → s < 65_536
    → w.size ≡ 8_192
    → w.latest ≡ some l
    → wrapping_sub l s < 8_192
    → accept s w ≡ mark s w
unfolding accept
verdict_behind l s w hl hs e f near =
    let behind : is_ahead s l ≡ false = ground arith in ground (arith, e, f, behind)

verdict_ahead :
    (l s : ℕ) (w : ReplayWindow)
    → w.latest ≡ some l
    → is_ahead s l ≡ true
    → accept s w ≡ mark s (move_to s l w)
unfolding accept
verdict_ahead l s w f ahead = ground (arith, f, ahead)

verdict_old :
    (l s : ℕ) (w : ReplayWindow)
    → w.size ≡ 8_192
    → w.latest ≡ some l
    → is_ahead s l ≡ false
    → leb 8_192 (wrapping_sub l s) ≡ true
    → accept s w ≡ (w, false)
unfolding accept
verdict_old l s w e f behind old = ground (arith, e, f, behind, old)

Holds-refused :
    (s : ℕ) (w : ReplayWindow) → s < 65_536 → IsValid w → Holds w s → (accept s w).1 ≡ false
unfolding mark
Holds-refused s w hs v h = elim (Option-cases w.latest) [
  | inl e ↦ absurd (rw e at h.0)
  | inr (l, e) ↦
      let near : wrapping_sub l s < 8_192 = rw e at h.0 in
      let small : l < 65_536 = rw e at v.1 in
      rw (verdict_behind l s w small hs v.0 e near, mark, v.0, h.1) refl
]

Holds-accept :
    (q s : ℕ) (w : ReplayWindow)
    → q < 65_536
    → s < 65_536
    → IsValid w
    → Holds w s
    → Within (accept q w).0.latest s
    → (accept q w).0.bits (s % 8_192) ≡ true
Holds-accept q s w hq hs v h stays = elim (Option-cases w.latest) [
  | inl e ↦ absurd (rw e at h.0)
  | inr (l, e) ↦
      let near : wrapping_sub l s < 8_192 = rw e at h.0 in
      let small : l < 65_536 = rw e at v.1 in
      elim (Bool-cases (is_ahead q l)) [
        | inl ahead ↦
            let latest : (accept q w).0.latest ≡ some q =
              ap (λ r. r.0.latest) (verdict_ahead l q w e ahead)
              ∙ (mark-latest q (move_to q l w)).0
              ∙ move_to-latest q l w in
            rw (verdict_ahead l q w e ahead)
              (mark-keeps q s (move_to q l w)
                (move_to-keeps l q s w v.0 small hq hs near h.1 ahead (rw latest at stays))).0
        | inr behind ↦ elim (Bool-cases (leb 8_192 (wrapping_sub l q))) [
          | inl old ↦ rw (verdict_old l q w v.0 e behind old) h.1
          | inr near ↦
              rw (verdict_behind l q w small hq v.0 e (ground arith)) (mark-keeps q s w h.1).0
        ]
      ]
]

mark-Holds :
    (s l : ℕ) (w : ReplayWindow)
    → w.size ≡ 8_192
    → w.latest ≡ some l
    → wrapping_sub l s < 8_192
    → Holds (mark s w).0 s
mark-Holds s l w e f near =
    (subst (λ o. Within o s) (sym ((mark-latest s w).0 ∙ f)) near, mark-sets s w e)

accepted-Holds :
    (s : ℕ) (w : ReplayWindow)
    → s < 65_536
    → IsValid w
    → (accept s w).1 ≡ true
    → Holds (accept s w).0 s
unfolding accept move_to
accepted-Holds s w hs v h = elim (Option-cases w.latest) [
  | inl e ↦ rw (accept, e) (mark-Holds s s (record w { latest = some s }) v.0 refl (omega arith))
  | inr (l, e) ↦ elim (Bool-cases (is_ahead s l)) [
    | inl ahead ↦
        rw (verdict_ahead l s w e ahead)
          (mark-Holds s s (move_to s l w) v.0 (move_to-latest s l w) (omega arith))
    | inr behind ↦ elim (Bool-cases (leb 8_192 (wrapping_sub l s))) [
      | inl old ↦ cc (rw (verdict_old l s w v.0 e behind old) at h)
      | inr near ↦
          let small : l < 65_536 = rw e at v.1 in
          rw (verdict_behind l s w small hs v.0 e (ground arith))
            (mark-Holds s l w v.0 e (ground arith))
    ]
  ]
]

-- Windows after accepting a sequence of numbers, every one of them still holding `seq` inside.
abbrev pub accept_all : List ℕ → ReplayWindow → ReplayWindow
accept_all [] w = w
accept_all (q ∷ qs) w = accept_all qs (accept q w).0

abbrev Stays : ℕ → List ℕ → ReplayWindow → Type 0
Stays seq [] w = Unit
Stays seq (q ∷ qs) w = (q < 65_536) × Within (accept q w).0.latest seq × Stays seq qs (accept q w).0

Holds-refused_later :
    (qs : List ℕ) (s : ℕ) (w : ReplayWindow)
    → s < 65_536
    → IsValid w
    → Holds w s
    → Stays s qs w
    → (accept s (accept_all qs w)).1 ≡ false
Holds-refused_later [] s w hs v h stays = Holds-refused s w hs v h
Holds-refused_later (q ∷ qs) s w hs v h stays =
    Holds-refused_later qs s (accept q w).0 hs (accept-IsValid q w stays.0 v)
      (stays.1, Holds-accept q s w stays.0 hs v h stays.1) stays.2

-- From any state of the installed window, a packet that is accepted is refused when it comes again,
-- after any other packets, as long as none of them moved the window past its number. Numbers wrap
-- around at 2 ^ 16.
pub accepted-refused_again :
    (w : ReplayWindow) (seq : ℕ) (others : List ℕ)
    → IsValid w
    → seq < 65_536
    → (accept seq w).1 ≡ true
    → Stays seq others (accept seq w).0
    → (accept seq (accept_all others (accept seq w).0)).1 ≡ false
accepted-refused_again w seq others v h accepted stays =
    Holds-refused_later others seq (accept seq w).0 h (accept-IsValid seq w h v)
      (accepted-Holds seq w h v accepted) stays

move_to-free :
    (l q : ℕ) (w : ReplayWindow)
    → w.size ≡ 8_192
    → l < 65_536
    → q < 65_536
    → is_ahead q l ≡ true
    → (move_to q l w).bits (q % 8_192) ≡ false
unfolding move_to
move_to-free l q w e hl hq ahead = elim (Bool-cases (leb 8_192 (wrapping_sub q l))) [
  | inl far ↦ rw (e, far) refl
  | inr near ↦
      let here : (l + wrapping_sub q l) % 65_536 ≡ q = omega arith in
      let off =
        clear-clears 8_192 l (wrapping_sub q l) 1 w.bits (wrapping_sub q l) (ground arith)
          (omega arith) in
      rw (e, near)
        (subst (λ x. clear 8_192 l (wrapping_sub q l) 1 w.bits (x % 8_192) ≡ false) here off)
]

mark-free :
    (q : ℕ) (w : ReplayWindow) → w.size ≡ 8_192 → w.bits (q % 8_192) ≡ false → (mark q w).1 ≡ true
unfolding mark
mark-free q w e h = ground (arith, e, h)

-- The installed window accepts a packet whose number is ahead of the latest one, whatever it has
-- seen before.
pub ahead-accepted :
    (w : ReplayWindow) (latest seq : ℕ)
    → IsValid w
    → seq < 65_536
    → w.latest ≡ some latest
    → is_ahead seq latest ≡ true
    → (accept seq w).1 ≡ true
unfolding move_to
ahead-accepted w latest seq v h e ahead =
    let small : latest < 65_536 = rw e at v.1 in
    rw (verdict_ahead latest seq w e ahead)
      (mark-free seq (move_to seq latest w) v.0 (move_to-free latest seq w v.0 small h ahead))
