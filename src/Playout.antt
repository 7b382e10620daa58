-- ===== src/Playout.antt =====
-- core/playout_schedule.h and core/playout_schedule.cpp: the display times of a scheduled-playback
-- output, and the jump of the timeline after a stall. Units are the card's own; the fields, which
-- the constructor clamps to be positive, are natural numbers.
pub mod Ahead
pub mod Samples
mod Tests
use weblinked.Base.{ℕ, ◌+◌, ◌-◌, ◌*◌, ◌/◌, ◌%◌, ◌≤◌, max, Bool, leb, if◌then◌else◌}
use weblinked.Base.Int.{ℤ, pos, negsuc}

pub record Schedule : Type 0 where
  pub frame_duration : ℕ
  pub time_scale : ℕ
  pub preroll : ℕ
  pub next : ℕ
  pub reanchors : ℕ
  pub skipped : ℕ

-- `std::max<int64_t>(low, z)` for a `low` that is not negative.
abbrev pub at_least : ℕ → ℤ → ℕ
at_least low (pos n) = max low n
at_least low (negsuc n) = low

unfoldable pub make : ℤ → ℤ → ℤ → Schedule
make frame_duration time_scale preroll = record {
  frame_duration = at_least 1 frame_duration;
  time_scale = at_least 1 time_scale;
  preroll = at_least 1 preroll;
  next = 0;
  reanchors = 0;
  skipped = 0;
}

unfoldable pub next_display_time : Schedule → ℕ
next_display_time s = s.next * s.frame_duration

unfoldable pub advance : Schedule → Schedule
advance s = record s { next = s.next + 1 }

unfoldable pub reset : Schedule → Schedule
reset s = record s { next = 0 }

abbrev pub margin : Schedule → Bool → ℕ
margin s late_reported = if late_reported then s.frame_duration else 1

-- The first whole frame at or after the playhead.
abbrev pub on_air : Schedule → ℕ → ℕ
on_air s playhead = (playhead + s.frame_duration - 1) / s.frame_duration

-- The jump itself: `target` is never before `next`, so the source's difference is not negative.
unfoldable pub jump_to : Schedule → ℕ → Schedule × ℕ
jump_to s target =
    let skipped = target - s.next in
    if leb skipped 0 then (s, 0) else (
      record s { next = target; reanchors = s.reanchors + 1; skipped = s.skipped + skipped },
      skipped,
    )

-- The schedule afterwards, and how many slots were skipped.
unfoldable pub reanchor : Schedule → ℤ → Bool → Schedule × ℕ
unfolding next_display_time jump_to
reanchor s time late_reported =
    let playhead = at_least 0 time in
    if leb (playhead + margin s late_reported) (next_display_time s)
    then (s, 0)
    else jump_to s (max s.next (on_air s playhead + s.preroll))

unfoldable pub sample_position : Schedule → ℕ → ℕ → ℕ
sample_position s index sample_rate =
    let time = index * s.frame_duration in
    let whole = time / s.time_scale in
    let part = time % s.time_scale in whole * sample_rate + part * sample_rate / s.time_scale

-- What the constructor establishes.
pub record IsValid (s : Schedule) : Type 0 where
  pub duration_pos : 1 ≤ s.frame_duration
  pub scale_pos : 1 ≤ s.time_scale
  pub preroll_pos : 1 ≤ s.preroll
