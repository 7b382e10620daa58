-- ===== src/Frames/Tests.antt =====
-- The frame stores on concrete inputs.
use weblinked.Base.{
  ℕ, ◌+◌, ◌-◌, ◌≤◌, ◌<◌, ◌≡◌, ◌≢◌, ◌↔◌, refl, true, false, none, some, List, [], ◌∷◌, arith, drop,
  length,
}
use weblinked.Frames.Recycle
use weblinked.Frames.Recycle.{empty, release, close}
use weblinked.Frames.Recycle.Custody.{
  Call, adds, acquires, releases, closes, events, times_cut_off, times_listed, handed, returned,
  refused, times_handed, times_returned, times_added, copies, custody, one_holder, run, in_use,
  close_final,
}
use weblinked.Frames.Latest
use weblinked.Frames.Latest.{Latest, paints, takes, all_accounted}
use weblinked.Frames.Queue
use weblinked.Frames.Queue.{Queue, push_keeps_newest, make_room}
use weblinked.Frames.Screen
use weblinked.Frames.Screen.Protocol
use weblinked.Frames.Pool
use weblinked.Frames.Pool.Custody

-- Two frames, at 7 and 9: both go out, one comes back twice, and a stranger is refused.
abbrev history : List Call
history =
    adds 7
    ∷ adds 9
    ∷ acquires
    ∷ acquires
    ∷ acquires
    ∷ releases 7
    ∷ releases 7
    ∷ releases 3
    ∷ acquires
    ∷ []

events-history :
    events empty history
    ≡ refused
      ∷ refused
      ∷ handed 7
      ∷ handed 9
      ∷ refused
      ∷ returned 7
      ∷ refused
      ∷ refused
      ∷ handed 7
      ∷ []
unfolding events Recycle.Custody.step Recycle.add Recycle.acquire release
events-history = refl

-- 7 is out when the ring is closed.
abbrev closed_history : List Call
closed_history = adds 7 ∷ acquires ∷ closes ∷ acquires ∷ releases 7 ∷ []

custody_example :
    times_handed 7 (events empty closed_history) + 0
    ≡ times_returned 7 (events empty closed_history)
      + (times_cut_off 7 empty closed_history + in_use 7 (run empty closed_history).slots)
unfolding in_use
custody_example = custody 7 empty closed_history

one_holder_example :
    (times_handed 7 (events empty history) ≤ times_returned 7 (events empty history) + 1)
    × (times_returned 7 (events empty history) ≤ times_handed 7 (events empty history))
unfolding copies times_added
one_holder_example = one_holder 7 empty history refl (omega arith)

abbrev stocked : Recycle.Ring
stocked = record empty {
  slots = record { item = 7; free = true } ∷ record { item = 9; free = false } ∷ [];
}

close_final_example :
    let (closed, items, outstanding) = close stocked in
    (length items ≡ Recycle.size stocked)
    × (times_listed 9 items ≡ 1)
    × (outstanding + Recycle.free_count stocked ≡ Recycle.size stocked)
    × (Recycle.acquire closed ≡ (closed, none))
    × (release closed 9 ≡ (closed, false))
unfolding copies
close_final_example = close_final stocked 9 9

painted : List (Latest.Call ℕ)
painted = paints 1 ∷ paints 2 ∷ takes ∷ paints 3 ∷ []

abbrev no_frame : Latest ℕ
no_frame = record { frame = none; overwritten = 0; published = 0 }

waiting_is_newest : (Latest.run no_frame painted).frame ≡ some 3
unfolding painted Latest.run Latest.step
waiting_is_newest = refl

all_accounted_example :
    (Latest.run no_frame painted).published + 0 + 0
    ≡ (Latest.run no_frame painted).overwritten + 1 + 0 + Latest.times_taken no_frame painted
unfolding painted Latest.run Latest.step
all_accounted_example = (all_accounted no_frame painted).0

abbrev full : Queue ℕ
full = record { capacity = 2; items = 5 ∷ 6 ∷ []; dropped = 1 }

push_keeps_newest_example :
    let (q', kept) = Queue.push full 7 in
    (q'.items ≡ drop (2 + 1 - 2) (5 ∷ 6 ∷ 7 ∷ []))
    × (q'.dropped ≡ 1 + (2 + 1 - 2))
    × ((kept ≡ true) ↔ (2 < 2))
    × Queue.IsValid q'
push_keeps_newest_example = push_keeps_newest full 7 (omega arith)

-- The writer publishes slot 0, the reader draws it, and the writer fills slot 1.
abbrev drawing : Protocol.System
drawing = record {
  ring = record {
    is_open = true;
    newest = some 0;
    in_use = some 0;
    writing = some 1;
    consumed = true;
    presented = 0;
    dropped = 0;
  };
  writer = some 1;
  reader = some 0;
}

abbrev opened : Protocol.System
opened = record Protocol.start { ring = Screen.reset Protocol.start.ring }

idle-Reach : Protocol.Reach Protocol.start opened
idle-Reach = Protocol.next Protocol.here (Protocol.opens Protocol.start refl refl)

drawing-Reach : Protocol.Reach Protocol.start drawing
unfolding Screen.reset Screen.claim Screen.first_idle Screen.publish Screen.acquire
drawing-Reach =
    Protocol.next
      (Protocol.next
        (Protocol.next (Protocol.next idle-Reach (Protocol.claims opened refl))
          (Protocol.publishes _ 0 refl))
        (Protocol.acquires _ refl))
      (Protocol.claims _ refl)

never_torn_example : ¬ (◌≡◌ {A = ℕ} 1 0) × Protocol.Apart (Screen.claim drawing.ring).1 (some 0)
never_torn_example = Protocol.never_torn drawing-Reach

writer_served_example : (Screen.claim opened.ring).1 ≢ none
unfolding Screen.reset
writer_served_example = Protocol.writer_served idle-Reach refl refl

abbrev lent : Custody.World
lent = record {
  pool = record { frame_bytes = 8; max_retained = 1; free = []; made = 1 };
  out = record { buffer = 0; size_bytes = 8 } ∷ [];
}

lent-Reach : Custody.Reach (Custody.start 8 1) lent
unfolding Pool.create Pool.acquire Pool.acquire_from
lent-Reach = Custody.next Custody.here (Custody.acquires (Custody.start 8 1))

one_place_example :
    (Custody.holds 0 [] + Custody.holds 0 lent.out ≤ 1)
    × (Pool.retained_count lent.pool ≤ 1)
    × Custody.OfShape 8 1 lent.out
one_place_example = Custody.one_place 8 1 0 lent-Reach

recycled :
    Pool.drop_frame (some lent.pool) (record { buffer = 0; size_bytes = 8 })
    ≡ some (record lent.pool { free = record { buffer = 0; size_bytes = 8 } ∷ [] })
unfolding Pool.drop_frame Pool.recycle
recycled = refl
