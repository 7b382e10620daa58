-- ===== src/Playout/Tests.antt =====
-- The playout schedule on concrete inputs: a 59.94 Hz timeline with a preroll of three.
use weblinked.Base.{◌+◌, ◌*◌, ◌/◌, ◌≤◌, ◌<◌, ◌≡◌, refl, ◌⊎◌, true, false, arith}
use weblinked.Base.Int.{pos, negsuc}
use weblinked.Playout.{
  Schedule, IsValid, at_least, margin, next_display_time, make, advance, reset, reanchor,
  sample_position,
}
use weblinked.Playout.Ahead.{make-IsValid, reanchor_ahead, reanchor_moves}
use weblinked.Playout.Samples.{sample_position_exact}

abbrev ntsc : Schedule
ntsc = record {
  frame_duration = 1001;
  time_scale = 60000;
  preroll = 3;
  next = 4;
  reanchors = 0;
  skipped = 0;
}

ntsc-IsValid : IsValid ntsc
ntsc-IsValid = omega arith

-- Three seconds of stall: the playhead is at 180180, frame 180 is on air, the next frame is 183.
jumps : (reanchor ntsc (pos 180180) false).0.next ≡ 183
unfolding reanchor
jumps = refl

stays : (reanchor ntsc (pos 3003) false).1 ≡ 0
unfolding reanchor
stays = refl

late_needs_a_frame : (reanchor ntsc (pos 3004) true).1 ≡ 3
unfolding reanchor
late_needs_a_frame = refl

starts_over : (reset (advance (make (negsuc 4) (pos 25) (pos 0)))).preroll ≡ 1
unfolding make advance reset
starts_over = refl

make-IsValid_test : IsValid (make (negsuc 4) (pos 25) (pos 0))
make-IsValid_test = make-IsValid (negsuc 4) (pos 25) (pos 0)

reanchor_ahead_example :
    let (s', skipped) = reanchor ntsc (pos 180180) true in
    (at_least 0 (pos 180180) + margin ntsc true ≤ next_display_time s')
    × (s'.next ≡ 4 + skipped)
    × (s'.skipped ≡ 0 + skipped)
    × IsValid s'
reanchor_ahead_example = reanchor_ahead ntsc (pos 180180) true ntsc-IsValid

reanchor_moves_example :
    let (s', skipped) = reanchor ntsc (pos 180180) false in
    ((at_least 0 (pos 180180) + margin ntsc false ≤ next_display_time ntsc)
      × (s' ≡ ntsc)
      × (skipped ≡ 0))
    ⊎ ((next_display_time ntsc < at_least 0 (pos 180180) + margin ntsc false)
        × (at_least 0 (pos 180180) + 3 * 1001 ≤ s'.next * 1001)
        × (s'.next * 1001 < at_least 0 (pos 180180) + (3 + 1) * 1001)
        × (0 < skipped)
        × (s'.reanchors ≡ 0 + 1))
reanchor_moves_example = reanchor_moves ntsc (pos 180180) false ntsc-IsValid

sample_position_exact_example : sample_position ntsc 7 48000 ≡ 7 * 1001 * 48000 / 60000
sample_position_exact_example = sample_position_exact ntsc 7 48000 ntsc-IsValid
