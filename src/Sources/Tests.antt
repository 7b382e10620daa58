-- ===== src/Sources/Tests.antt =====
-- The table of sources on concrete runs.
use weblinked.Base.{
  ℕ, ◌+◌, ◌≤◌, ◌<◌, ◌≡◌, refl, ◌⊎◌, true, false, not, ◌&&◌, ◌==◌, if◌then◌else◌, some, List, [],
  ◌∷◌, arith,
}
use weblinked.Sources.{
  enter, leave, begin_close, end_wait, reopen, retire, away, has_idle, System, fresh, begin_removal,
  finish_removal, Reach, enters, leaves, removes, wakes, gives_up, finishes, swaps, retires, closes,
  takes_idle, start, next,
}
use weblinked.Sources.Guard.{stopped_empty, busy_changes_nothing}
use weblinked.Sources.Table.{Row, AreDistinct, find, has, insert, count_id, insert_finds}

-- A removal that waits for the one call inside.
abbrev waiting_removal : System
waiting_removal = record {
  entry = record { users = 1; closing = true; retired = false };
  waiting = 1;
  late = 0;
  emptied = 0;
  removed = 0;
  taker = away;
}

waits : Reach fresh waiting_removal
unfolding enter begin_removal begin_close
waits = next (next start (enters fresh)) (removes _)

abbrev late_removal : System
late_removal = record waiting_removal { waiting = 0; late = 1 }

late_reached : Reach fresh late_removal
unfolding end_wait
late_reached = next waits (gives_up waiting_removal (omega arith) refl)

busy_changes_nothing_example :
    (reopen late_removal.entry ≡ record late_removal.entry { closing = false })
    × (late_removal.late ≡ 1)
    × (late_removal.waiting + late_removal.emptied + late_removal.removed ≡ 0)
busy_changes_nothing_example = busy_changes_nothing late_removal late_reached (omega arith) refl

-- The call comes out and the removal is woken after takeAll has taken the list, but before takeAll has
-- come to this entry: the removal hands the entry back, and so does takeAll.
abbrev owned_twice : System
owned_twice = record {
  entry = record { users = 0; closing = true; retired = true };
  waiting = 0;
  late = 0;
  emptied = 0;
  removed = 1;
  taker = has_idle;
}

reaches_owned_twice : Reach fresh owned_twice
unfolding leave end_wait finish_removal retire begin_close
reaches_owned_twice =
    next
      (next
        (next
          (next
            (next (next (next waits (swaps waiting_removal refl)) (leaves _ (omega arith)))
              (wakes _ (omega arith) refl))
            (finishes _ (omega arith)))
          (retires _ refl))
        (closes _ refl refl))
      (takes_idle _ refl refl)

stopped_empty_example :
    (owned_twice.removed ≤ 1)
    × ((0 < owned_twice.removed) ⊎ (owned_twice.taker ≡ has_idle)
        → (owned_twice.entry.users ≡ 0) × ((enter owned_twice.entry).1 ≡ false))
stopped_empty_example = stopped_empty owned_twice reaches_owned_twice

abbrev two_rows : List Row
two_rows = record { id = 7; key = 1 } ∷ record { id = 9; key = 2 } ∷ []

two_rows-AreDistinct : AreDistinct two_rows
unfolding AreDistinct count_id
two_rows-AreDistinct id = ground arith

insert_finds_example :
    AreDistinct (insert two_rows 8 3).0
    × ((insert two_rows 8 3).1 ≡ not (has two_rows 8))
    × ((other : ℕ)
        → find (insert two_rows 8 3).0 other
          ≡ (if not (has two_rows 8) && (8 == other) then some 3 else find two_rows other))
insert_finds_example = insert_finds two_rows 8 3 two_rows-AreDistinct
