-- ===== src/Frames/Recycle.antt =====
-- core/recycle_ring.h: a fixed set of objects, handed out and given back. An object is its address.
pub mod Custody
use weblinked.Base.{
  ℕ, ◌+◌, Bool, true, false, Option, none, some, List, [], ◌∷◌, ◌++◌, map, ◌==◌, if◌then◌else◌,
  length,
}

pub record Slot : Type 0 where
  pub item : ℕ
  pub free : Bool

pub record Ring : Type 0 where
  pub slots : List Slot
  pub closed : Bool
  pub misses : ℕ
  pub double_releases : ℕ
  pub strangers : ℕ

abbrev pub empty : Ring
empty = record { slots = []; closed = false; misses = 0; double_releases = 0; strangers = 0 }

unfoldable pub add : Ring → ℕ → Ring
add r item = record r { slots = r.slots ++ (record { item = item; free = true } ∷ []) }

-- The scan of `acquire`: the first free slot is taken.
unfoldable pub take_free : List Slot → Option (ℕ × List Slot)
take_free [] = none
take_free (s ∷ ss) =
    if s.free
    then some (s.item, record s { free = false } ∷ ss)
    else elim (take_free ss) [ none ↦ none | some (item, rest) ↦ some (item, s ∷ rest) ]

unfoldable pub acquire : Ring → Ring × Option ℕ
unfolding take_free
acquire r = if r.closed then (r, none) else elim (take_free r.slots) [
  | none ↦ (record r { misses = r.misses + 1 }, none)
  | some (item, slots) ↦ (record r { slots = slots }, some item)
]

-- What the scan of `release` finds: no slot of that address, a slot that is already free, or a slot
-- in use, with the slots once it is freed.
pub data Return : Type 0 where
  stranger already_free : Return
  freed : List Slot → Return

-- The rest of the scan, behind a slot of another address.
abbrev pub keep : Slot → Return → Return
keep s stranger = stranger
keep s already_free = already_free
keep s (freed ss) = freed (s ∷ ss)

unfoldable pub give_back : ℕ → List Slot → Return
give_back item [] = stranger
give_back item (s ∷ ss) =
    if s.item == item
    then (if s.free then already_free else freed (record s { free = true } ∷ ss))
    else keep s (give_back item ss)

unfoldable pub release : Ring → ℕ → Ring × Bool
unfolding give_back
release r item = if r.closed then (r, false) else elim (give_back item r.slots) [
  | stranger ↦ (record r { strangers = r.strangers + 1 }, false)
  | already_free ↦ (record r { double_releases = r.double_releases + 1 }, false)
  | freed slots ↦ (record r { slots = slots }, true)
]

unfoldable pub count_out : List Slot → ℕ
count_out [] = 0
count_out (s ∷ ss) = (if s.free then 0 else 1) + count_out ss

-- Every object goes back to the owner, with how many were still out.
unfoldable pub close : Ring → Ring × List ℕ × ℕ
unfolding count_out
close r =
    (record r { closed = true; slots = [] }, map (λ (s : Slot). s.item) r.slots, count_out r.slots)

unfoldable pub size : Ring → ℕ
size r = length r.slots

unfoldable pub count_free : List Slot → ℕ
count_free [] = 0
count_free (s ∷ ss) = (if s.free then 1 else 0) + count_free ss

unfoldable pub free_count : Ring → ℕ
unfolding count_free
free_count r = count_free r.slots
