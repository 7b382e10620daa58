-- ===== src/Gate/Tests.antt =====
-- The gate and the queue on concrete runs.
use weblinked.Base.{◌+◌, ◌≤◌, ◌<◌, ◌≡◌, refl, true, false, List, [], ◌∷◌}
use weblinked.Gate.{
  Gate, stamp, busy_nanos, is_wedged, begin_run, GateReach, runs, is_refused, idle, after, Turn,
  Queue, fresh_queue, join_queue, QueueReach, joins, locks, start, next,
}
use weblinked.Gate.Turns.{wedged_is_running, waiting_is_bounded}

abbrev open_gate : Gate
open_gate = record { running = false; since = 0; refusals = 0; wedged_after = 1000 }

-- A call that began at 5, and one refused.
abbrev busy_gate : Gate
busy_gate = record { running = true; since = 5; refusals = 1; wedged_after = 1000 }

gets_busy : GateReach open_gate busy_gate
unfolding begin_run
gets_busy = after (after idle (runs open_gate 5 refl)) (is_refused _ 7)

wedged_is_running_example :
    (is_wedged busy_gate 2000 ≡ true
      → (busy_gate.running ≡ true) × (busy_gate.since + busy_gate.wedged_after < stamp 2000))
    × (busy_gate.running ≡ false → busy_nanos busy_gate 2000 ≡ 0)
wedged_is_running_example = wedged_is_running open_gate busy_gate 2000 refl refl gets_busy

-- One may wait: the second is turned away.
abbrev full_queue : Queue
full_queue = record {
  locked = true;
  waiting = 2;
  max_waiting = 1;
  inside = 1;
  leaving = 0;
  refused = 1;
}

gets_full : QueueReach (fresh_queue 1) full_queue
unfolding join_queue
gets_full = next (next (next start (locks (fresh_queue 1) refl)) (joins _)) (joins _)

waiting_is_bounded_example :
    (full_queue.inside + full_queue.leaving ≤ full_queue.max_waiting)
    × (full_queue.waiting ≡ full_queue.inside + full_queue.leaving + full_queue.refused)
waiting_is_bounded_example = waiting_is_bounded 1 full_queue gets_full

abbrev early : Turn
early = record { now = 10; is_stuck = false; is_got = false }

abbrev between : Turn
between = record { now = 71; is_stuck = false; is_got = false }

abbrev late : Turn
late = record { now = 120; is_stuck = false; is_got = false }

abbrev tries : List Turn
tries = early ∷ between ∷ late ∷ []
