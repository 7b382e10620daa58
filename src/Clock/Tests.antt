-- ===== src/Clock/Tests.antt =====
-- The frame clock on concrete readings.
use weblinked.Base.{ℕ, ◌+◌, ◌≤◌, ◌≡◌, refl, arith}
use weblinked.Base.Int.{pos, ◌+ℤ◌, ◌≤ℤ◌, pos_part}
use weblinked.Clock.{FrameRate, Clock, deadline, behind, set_rate, wait_for_next_tick, start}
use weblinked.Clock.Deadlines.{exact, IsInRange, wait_never_bursts}

abbrev rate_25 : FrameRate
rate_25 = record { numerator = 25; denominator = 1 }

abbrev rate_59_94 : FrameRate
rate_59_94 = record { numerator = 60000; denominator = 1001 }

abbrev at_tick_10 : Clock
at_tick_10 = record { rate = rate_25; next = 10; dropped = 0; lateness = pos 0 }

starts_at_zero : (set_rate at_tick_10 rate_59_94).next ≡ 0
unfolding set_rate start
starts_at_zero = refl

-- A tenth of a second late at 25 frames per second: two ticks are dropped, and the tick that is chosen
-- was due 20 ms before the reading, not after it.
drops_two : behind at_tick_10 (pos 500000000) ≡ 2
unfolding behind deadline
drops_two = refl

due_before_reading : deadline rate_25 12 ≡ pos 480000000
unfolding deadline
due_before_reading = refl

-- After 42.7 hours at 59.94 the product no longer fits, and the deadline is in the distant past.
wraps_after_42_hours : pos_part (deadline rate_59_94 9214158) ≡ 0
unfolding deadline
wraps_after_42_hours = refl

last_good_deadline : deadline rate_59_94 9214157 ≡ pos 153722852616666
unfolding deadline
last_good_deadline = refl

tick_13_fits : IsInRange rate_25 (10 + behind at_tick_10 (pos 500000000) + 1)
unfolding behind deadline
tick_13_fits = omega arith

wait_never_bursts_example :
    let after : Clock × (ℕ × ℕ) =
      wait_for_next_tick at_tick_10 (pos 500000000) (pos 500000100) (pos 500000200) in
    (10 ≤ after.1.0)
    × (pos 500000000 ≤ℤ deadline rate_25 (after.1.0 + 1))
    × (after.0.next ≡ after.1.0 + 1)
    × (after.0.dropped + 10 + 1 ≡ 0 + after.0.next)
    × (pos (exact rate_25 after.1.0) ≤ℤ pos 500000100 +ℤ pos after.1.1)
wait_never_bursts_example =
    wait_never_bursts at_tick_10 500000000 (pos 500000100) (pos 500000200) (omega arith)
      (omega arith) (omega arith) (omega arith) tick_13_fits
