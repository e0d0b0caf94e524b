-- ===== src/MediaQueue.antt =====
-- The bounded media queue: crates/myownmesh/src/ipc/media_queue.rs. The channel under it is the list
-- of its items, oldest first; a byte is a number. The time stamp of an item, which only a trace
-- reads, is not modelled, nor is a closed channel.
pub mod Budgets
pub mod Limits
use my_own_mesh.Base.{
  ℕ, zero, suc, ◌+◌, ◌-◌, ◌*◌, Bool, true, false, not, ◌&&◌, ◌||◌, Option, none, some, List, [],
  ◌∷◌, ◌++◌, length, take, get_elem?, ltb, leb, ◌==◌, if◌then◌else◌, is_none, unwrap_or,
}
use my_own_mesh.Base.Text.{Text, text_eq}

pub record Picture : Type 0 where
  pub peer : Text
  pub lane : ℕ
  pub timestamp : ℕ

pub picture_eq : Picture → Picture → Bool
unfolding text_eq
picture_eq p q = text_eq p.peer q.peer && (p.lane == q.lane) && (p.timestamp == q.timestamp)

abbrev drop : ℕ → Text → Text
drop zero xs = xs
drop (suc n) [] = []
drop (suc n) (x ∷ xs) = drop n xs

-- `body[i]`, which the code reads within bounds.
abbrev byte : Text → ℕ → ℕ
byte body i = unwrap_or (get_elem? body i) 0

abbrev media_kind_video : ℕ
media_kind_video = 0

abbrev media_kind_video_discontinuity : ℕ
media_kind_video_discontinuity = 2

pub picture : Text → Option Picture
picture [] = none
picture (kind ∷ rest) =
    let body = kind ∷ rest in
    let len = byte body 7 + 256 * byte body 8 in
    if not ((kind == media_kind_video) || (kind == media_kind_video_discontinuity))
    then none
    else if ltb (length body) 9 || ltb (length body) (9 + len)
    then none
    else some (record {
      peer = take len (drop 9 body);
      lane = byte body 2;
      timestamp = byte body 3 + 256 * byte body 4 + 65_536 * byte body 5 + 16_777_216 * byte body 6;
    })

pub record Budget : Type 0 where
  pub pictures : List (Picture × ℕ)
  pub other : ℕ
  pub bytes : ℕ
  pub items : ℕ

pub record Item : Type 0 where
  pub body : Text
  pub picture_key : Option Picture

pub record Queue : Type 0 where
  pub budget : Budget
  pub queued : List Item
  pub capacity : ℕ
  pub other_capacity : ℕ
  pub byte_capacity : ℕ

abbrev pub max_queued_samples : ℕ
max_queued_samples = 4096

abbrev pub new_queue : ℕ → ℕ → ℕ → Queue
new_queue capacity other_capacity byte_capacity = record {
  budget = record { pictures = []; other = 0; bytes = 0; items = 0 };
  queued = [];
  capacity = capacity;
  other_capacity = other_capacity;
  byte_capacity = byte_capacity;
}

-- The samples that a picture has in the queue, by the map.
pub count_of : Picture → List (Picture × ℕ) → ℕ
unfolding picture_eq
count_of p [] = 0
count_of p ((q, n) ∷ m) = let rest = count_of p m in if picture_eq p q then n else rest

pub is_known : Picture → List (Picture × ℕ) → Bool
unfolding picture_eq
is_known p [] = false
is_known p ((q, n) ∷ m) = picture_eq p q || is_known p m

-- `*entry(p).or_default() += 1`.
pub reserve : Picture → List (Picture × ℕ) → List (Picture × ℕ)
unfolding picture_eq
reserve p [] = (p, 1) ∷ []
reserve p ((q, n) ∷ m) =
    let rest = reserve p m in if picture_eq p q then (q, n + 1) ∷ m else (q, n) ∷ rest

-- `*count -= 1`, and the entry goes at 0.
pub release : Picture → List (Picture × ℕ) → List (Picture × ℕ)
unfolding picture_eq
release p [] = []
release p ((q, n) ∷ m) =
    let rest = release p m in
    if picture_eq p q then if n - 1 == 0 then m else (q, n - 1) ∷ m else (q, n) ∷ rest

abbrev is_known? : Option Picture → List (Picture × ℕ) → Bool
is_known? none m = false
is_known? (some p) m = is_known p m

is_full : Queue → Text → Bool
unfolding picture is_known
is_full q body =
    not (is_known? (picture body) q.budget.pictures)
      && leb q.capacity (length q.budget.pictures + q.budget.other)
    || is_none (picture body) && leb q.other_capacity q.budget.other
    || ltb (q.byte_capacity - q.budget.bytes) (length body)
    || leb max_queued_samples q.budget.items

charge : Option Picture → Text → Budget → Budget
unfolding reserve
charge none body b = record b {
  other = b.other + 1;
  bytes = b.bytes + length body;
  items = b.items + 1;
}
charge (some p) body b = record b {
  pictures = reserve p b.pictures;
  bytes = b.bytes + length body;
  items = b.items + 1;
}

-- `Drop for Item`.
refund : Item → Budget → Budget
unfolding release
refund item b = record b {
  pictures = elim item.picture_key [ none ↦ b.pictures | some p ↦ release p b.pictures ];
  other = elim item.picture_key [ none ↦ b.other - 1 | some p ↦ b.other ];
  bytes = b.bytes - length item.body;
  items = b.items - 1;
}

-- Whether the body was taken.
pub try_send : Text → Queue → Queue × Bool
unfolding is_full charge picture
try_send body q = if is_full q body then (q, false) else (
  record q {
    budget = charge (picture body) body q.budget;
    queued = q.queued ++ record { body = body; picture_key = picture body } ∷ [];
  },
  true,
)

-- The oldest body leaves the queue, and its item is dropped.
pub recv : Queue → Queue × Option Text
unfolding refund
recv q = elim q.queued [
  | [] ↦ (q, none)
  | item ∷ queued ↦ (record q { budget = refund item q.budget; queued = queued }, some item.body)
]
