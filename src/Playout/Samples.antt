-- ===== src/Playout/Samples.antt =====
-- `samplePosition`: exact, monotone, and safe from overflow for a long show.
use weblinked.Base.{ℕ, ◌+◌, ◌*◌, ◌/◌, ◌%◌, ◌≤◌, ◌<◌, ◌≡◌, arith, div_mono}
use weblinked.Playout.{Schedule, IsValid, sample_position}
use native.Mathlib.Nat.{div-add-mod', add-mul-div_right, mul-le-mul_right}

split_exact : (t r k : ℕ) → 0 < k → t / k * r + t % k * r / k ≡ t * r / k
split_exact t r k h =
    let e : t * r ≡ t % k * r + t / k * r * k = grind (arith, div-add-mod' t k) in
    rw (e, add-mul-div_right (t % k * r) (t / k * r) h) (omega arith)

-- The split into whole and part loses nothing: the position is the floor of
-- `index * frameDuration * sampleRate / timeScale`, as computed without any bound on the product.
pub sample_position_exact :
    (s : Schedule) (index sample_rate : ℕ)
    → IsValid s
    → sample_position s index sample_rate ≡ index * s.frame_duration * sample_rate / s.time_scale
unfolding sample_position
sample_position_exact s index sample_rate v =
    split_exact (index * s.frame_duration) sample_rate s.time_scale v.scale_pos

-- A later frame never has an earlier first sample, so the sound skipped by a jump is not negative.
pub sample_position_mono :
    (s : Schedule) (i j sample_rate : ℕ)
    → IsValid s
    → i ≤ j
    → sample_position s i sample_rate ≤ sample_position s j sample_rate
sample_position_mono s i j sample_rate v h =
    rw (sample_position_exact s i sample_rate v, sample_position_exact s j sample_rate v)
      (div_mono _ _ s.time_scale v.scale_pos
        (mul-le-mul_right sample_rate (mul-le-mul_right s.frame_duration h)))
