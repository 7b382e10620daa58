-- ===== src/Playout/Ahead.antt =====
-- `reanchor`: the next frame is never left behind the playhead, and the queue is refilled.
use weblinked.Base.{ℕ, ◌+◌, ◌-◌, ◌*◌, ◌≤◌, ◌<◌, ◌≡◌, ap, ◌∙◌, inl, inr, Bool, arith, ◌⊎◌, dec_lt}
use weblinked.Base.Int.{ℤ}
use weblinked.Playout.{
  Schedule, IsValid, at_least, make, next_display_time, margin, on_air, reanchor,
}
use native.Mathlib.Nat.{lt-div-mul-add, div-mul-le_self, mul-le-mul_right, add-mul}

pub make-IsValid : (d t p : ℤ) → IsValid (make d t p)
unfolding make
make-IsValid d t p = ground arith

-- Rounding up reaches the playhead, and stays within a frame of it.
on_air_covers :
    (s : Schedule) (playhead : ℕ)
    → 1 ≤ s.frame_duration
    → playhead ≤ on_air s playhead * s.frame_duration
on_air_covers s playhead h =
    omega (arith, lt-div-mul-add {a = playhead + s.frame_duration - 1} {b = s.frame_duration} h)

on_air_tight :
    (s : Schedule) (playhead : ℕ)
    → 1 ≤ s.frame_duration
    → on_air s playhead * s.frame_duration < playhead + s.frame_duration
on_air_tight s playhead h =
    omega (arith, div-mul-le_self (playhead + s.frame_duration - 1) s.frame_duration)

-- A target at least one frame past the frame on air is ahead of the playhead by a whole frame.
target_ahead :
    (s : Schedule) (playhead target : ℕ)
    → IsValid s
    → on_air s playhead + s.preroll ≤ target
    → playhead + s.frame_duration ≤ target * s.frame_duration
target_ahead s playhead target v h = omega (
  arith,
  on_air_covers s playhead v.duration_pos,
  mul-le-mul_right {m = on_air s playhead + 1} {n = target} s.frame_duration (omega arith),
)

-- If the next slot is not ahead, the jump lands past it: the source's `skipped <= 0` never holds.
behind_jumps :
    (s : Schedule) (playhead m : ℕ)
    → IsValid s
    → m ≤ s.frame_duration
    → s.next * s.frame_duration < playhead + m
    → s.next < on_air s playhead + s.preroll
behind_jumps s playhead m v hm h = elim (dec_lt s.next (on_air s playhead + s.preroll)) [
  | yes p ↦ p
  | no p ↦ absurd (omega (arith, target_ahead s playhead s.next v (omega arith)))
]

module _ (s : Schedule) (time : ℤ) (late : Bool) (v : IsValid s) where
  -- Whatever the card's playhead says, after `reanchor` the next display time is ahead of it by the
  -- margin asked for (one unit, or a whole frame after a late report), the index has grown by exactly
  -- the number returned, the total of skipped slots by the same, and the schedule stays valid.
  pub reanchor_ahead :
      let (s', skipped) = reanchor s time late in
      (at_least 0 time + margin s late ≤ next_display_time s')
      × (s'.next ≡ s.next + skipped)
      × (s'.skipped ≡ s.skipped + skipped)
      × IsValid s'
  unfolding reanchor
  reanchor_ahead = ground (
    arith,
    target_ahead s (at_least 0 time) (on_air s (at_least 0 time) + s.preroll) v,
    behind_jumps s (at_least 0 time) (margin s late) v,
  )

  jumps_to_target :
      let (s', skipped) = reanchor s time late in
      ((at_least 0 time + margin s late ≤ next_display_time s) × (s' ≡ s) × (skipped ≡ 0))
      ⊎ ((next_display_time s < at_least 0 time + margin s late)
          × (s'.next ≡ on_air s (at_least 0 time) + s.preroll)
          × (0 < skipped)
          × (s'.reanchors ≡ s.reanchors + 1))
  unfolding reanchor
  jumps_to_target = ground (arith, behind_jumps s (at_least 0 time) (margin s late) v)

  -- `reanchor` moves exactly when the next slot is not ahead of the playhead by the margin. Then the
  -- next frame is displayed no earlier than the preroll behind the playhead and less than one frame
  -- later, as it stands the preroll behind the first whole frame at or after the playhead; at least one
  -- slot is skipped, and one move is counted; if it does not move, nothing changes.
  pub reanchor_moves :
      let (s', skipped) = reanchor s time late in
      ((at_least 0 time + margin s late ≤ next_display_time s) × (s' ≡ s) × (skipped ≡ 0))
      ⊎ ((next_display_time s < at_least 0 time + margin s late)
          × (at_least 0 time + s.preroll * s.frame_duration ≤ s'.next * s.frame_duration)
          × (s'.next * s.frame_duration < at_least 0 time + (s.preroll + 1) * s.frame_duration)
          × (0 < skipped)
          × (s'.reanchors ≡ s.reanchors + 1))
  reanchor_moves =
      let playhead = at_least 0 time in
      let covers = on_air_covers s playhead v.duration_pos in
      let tight = on_air_tight s playhead v.duration_pos in
      let sum = add-mul (on_air s playhead) s.preroll s.frame_duration in
      let one_more = add-mul s.preroll 1 s.frame_duration in
      elim jumps_to_target [
        | inl still ↦ inl still
        | inr (behind, lands, some_skipped, counted) ↦
            let place = ap (λ (k : ℕ). k * s.frame_duration) lands ∙ sum in
            inr (behind, omega arith, omega arith, some_skipped, counted)
      ]
