-- ===== src/Clock.antt =====
-- core/frame_clock.cpp: the deadlines of the ticks and what waitForNextTick makes of being late. The clock
-- of the system is a parameter: the readings that a wait makes are its arguments. A rate has a
-- numerator that is not positive as 0.
pub mod Deadlines
mod Tests
use weblinked.Base.{
  ℕ, zero, suc, ◌+◌, ◌-◌, ◌*◌, ◌/◌, ◌%◌, ◌^◌, Bool, ◌&&◌, ltb, ◌==◌, if◌then◌else◌,
}
use weblinked.Base.Int.{ℤ, pos, negsuc, ◌+ℤ◌, ◌-ℤ◌, ltb_ℤ, pos_part, sub_ℕ}

pub record FrameRate : Type 0 where
  pub numerator : ℕ
  pub denominator : ℕ

abbrev pub nanos_per_second : ℕ
nanos_per_second = 1000000000

-- The int64 that a product leaves.
abbrev pub int64 : ℕ → ℤ
int64 x = if ltb (x % 2 ^ 64) (2 ^ 63) then pos (x % 2 ^ 64) else negsuc (2 ^ 64 - 1 - x % 2 ^ 64)

-- Division of an int64 cuts towards zero.
abbrev pub cut_div : ℤ → ℕ → ℤ
cut_div (pos n) k = pos (n / k)
cut_div (negsuc n) k = sub_ℕ 0 ((n + 1) / k)

unfoldable pub deadline : FrameRate → ℕ → ℤ
deadline rate tick =
    if rate.numerator == 0
    then pos 0
    else cut_div (int64 (tick * nanos_per_second * rate.denominator)) rate.numerator

pub record Clock : Type 0 where
  pub rate : FrameRate
  pub next : ℕ
  pub dropped : ℕ
  pub lateness : ℤ

unfoldable pub start : Clock → Clock
start c = record c { next = 0; dropped = 0; lateness = pos 0 }

unfoldable pub set_rate : Clock → FrameRate → Clock
unfolding start
set_rate c rate = start (record c { rate = rate })

-- The ticks that are given up when the first reading is `now`.
unfoldable pub behind : Clock → ℤ → ℕ
unfolding ◌+ℤ◌ ◌-ℤ◌
behind c now =
    let period = deadline c.rate 1 in
    let due = deadline c.rate c.next in
    if ltb_ℤ (pos 0) period && ltb_ℤ (due +ℤ period) now
    then pos_part (now -ℤ due) / pos_part period
    else 0

-- What a wait asks the system to sleep, when its second reading is `now`.
unfoldable pub sleep_for : ℤ → ℤ → ℕ
unfolding ◌-ℤ◌
sleep_for due now = if ltb_ℤ now due then pos_part (due -ℤ now) else 0

-- The clock afterwards, the tick, and the sleep; the third reading is made after the sleep.
unfoldable pub wait_for_next_tick : Clock → ℤ → ℤ → ℤ → Clock × (ℕ × ℕ)
unfolding ◌-ℤ◌
wait_for_next_tick c first second third =
    let tick = c.next + behind c first in
    let due = deadline c.rate tick in
    (
      record c { next = tick + 1; dropped = c.dropped + behind c first; lateness = third -ℤ due },
      (tick, sleep_for due second),
    )
