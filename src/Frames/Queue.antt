-- ===== src/Frames/Queue.antt =====
-- core/frame_ring.h, `FrameRing`: a bounded frame queue that drops the oldest entry when full.
use weblinked.Base.{
  Bool-cases, inl, inr, ◌↔◌, ℕ, zero, suc, ◌+◌, ◌-◌, ◌≤◌, ◌<◌, ◌≡◌, refl, Bool, true, Option, none,
  some, List, [], ◌∷◌, ◌++◌, arith, leb, ◌==◌, if◌then◌else◌, length, drop, length-append,
  length-drop,
}

pub record Queue {ℓ} (A : Type ℓ) : Type ℓ where
  pub capacity : ℕ
  pub items : List A
  pub dropped : ℕ

module _ {ℓ} {A : Type ℓ} where
  unfoldable pub make : ℕ → Queue A
  make capacity = record {
    capacity = if capacity == 0 then 1 else capacity;
    items = [];
    dropped = 0;
  }

  -- The `while (queue_.size() >= capacity_)` loop: it takes the front off until there is room.
  unfoldable pub make_room : ℕ → List A → ℕ → List A × ℕ
  make_room capacity [] dropped = ([], dropped)
  make_room capacity (x ∷ xs) dropped =
      let rest = make_room capacity xs (dropped + 1) in
      if leb capacity (length (x ∷ xs)) then rest else (x ∷ xs, dropped)

  -- The result says whether nothing was dropped.
  unfoldable pub push : Queue A → A → Queue A × Bool
  unfolding make_room
  push q f =
      let (items, dropped) = make_room q.capacity q.items q.dropped in
      (record q { items = items ++ (f ∷ []); dropped = dropped }, dropped == q.dropped)

  abbrev front : List A → Option A
  front [] = none
  front (x ∷ xs) = some x

  abbrev behind : List A → List A
  behind [] = []
  behind (x ∷ xs) = xs

  unfoldable pub pop : Queue A → Queue A × Option A
  pop q = (record q { items = behind q.items }, front q.items)

  unfoldable pub clear : Queue A → Queue A
  clear q = record q { items = [] }

  pub record IsValid (q : Queue A) : Type 0 where
    pub room : 1 ≤ q.capacity
    pub bounded : length q.items ≤ q.capacity

  drop_append : (n : ℕ) (xs ys : List A) → n ≤ length xs → drop n xs ++ ys ≡ drop n (xs ++ ys)
  drop_append zero xs ys h = refl
  drop_append (suc n) [] ys h = absurd (omega arith)
  drop_append (suc n) (x ∷ xs) ys h = drop_append n xs ys (omega arith)

  -- The loop keeps the newest `capacity - 1` items at most, and counts each that it takes off.
  make_room_lem :
      (capacity : ℕ) (xs : List A) (dropped : ℕ)
      → 1 ≤ capacity
      → make_room capacity xs dropped
        ≡ (drop (length xs + 1 - capacity) xs, dropped + (length xs + 1 - capacity))
  unfolding make_room
  make_room_lem capacity [] dropped h =
      let e : 0 + 1 - capacity ≡ 0 = omega arith in rw e (ground arith)
  make_room_lem capacity (x ∷ xs) dropped h = elim (Bool-cases (leb capacity (suc (length xs)))) [
    | inl full ↦
        let e : suc (length xs) + 1 - capacity ≡ suc (length xs + 1 - capacity) = ground arith in
        rw (full, e) (ground (arith, make_room_lem capacity xs (dropped + 1) h))
    | inr room ↦
        let e : suc (length xs) + 1 - capacity ≡ 0 = ground arith in rw (room, e) (ground arith)
  ]

  -- `push` on a queue of at least one place: the queue becomes the newest `capacity` items of the old
  -- ones and the new one, in order; each item lost is counted; the answer is whether none was; and
  -- the queue is within its capacity again.
  pub push_keeps_newest :
      (q : Queue A) (f : A)
      → IsValid q
      → let (q', kept) = push q f in
        (q'.items ≡ drop (length q.items + 1 - q.capacity) (q.items ++ (f ∷ [])))
        × (q'.dropped ≡ q.dropped + (length q.items + 1 - q.capacity))
        × ((kept ≡ true) ↔ (length q.items < q.capacity))
        × IsValid q'
  unfolding push
  push_keeps_newest q f v = rw (make_room_lem q.capacity q.items q.dropped v.room) (
      (
        drop_append (length q.items + 1 - q.capacity) q.items (f ∷ []) (omega arith),
        refl,
        ground arith,
        ground (
          arith,
          length-append (drop (length q.items + 1 - q.capacity) q.items) (f ∷ []),
          length-drop (length q.items + 1 - q.capacity) q.items,
        ),
      ))
