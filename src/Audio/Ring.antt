-- ===== src/Audio/Ring.antt =====
-- core/audio_ring.cpp: the ring between the frame clock and a sound card's callback, in interleaved
-- frames. The cursors are `uint64_t`, so they wrap at 2 ^ 64. `capacity` and `target` are zero where
-- the source's `int` would be negative: its guards treat the two alike. A frame count that the
-- source narrows to `int` is kept whole.
pub mod Flat
pub mod Contents
pub mod Threads
use weblinked.Base.{
  ℕ, ◌+◌, ◌-◌, ◌*◌, ◌/◌, ◌%◌, ◌^◌, min, max, Bool, true, false, ◌&&◌, ◌||◌, Option, none, some,
  List, [], ◌++◌, ltb, leb, ◌==◌, if◌then◌else◌, length, get_or, replicate, memcpy, tabulate,
}
use weblinked.Base.Int.{ℤ, pos, negsuc, pos_part}

pub record Stats : Type 0 where
  pub frames_written : ℕ
  pub frames_read : ℕ
  pub underruns : ℕ
  pub overruns : ℕ
  pub resyncs : ℕ

pub record Ring (A : Type 0) : Type 0 where
  pub channels : ℕ
  pub sample_rate : ℕ
  pub capacity : ℕ
  pub target : ℕ
  pub buffer : List A
  pub write_at : ℕ
  pub read_at : ℕ
  pub priming : Bool
  pub stats : Stats

abbrev pub u64 : ℕ
u64 = 2 ^ 64

-- `write - read` on `uint64_t`.
abbrev pub buffered : {A : Type 0} → Ring A → ℕ
buffered r = (r.write_at + u64 - r.read_at) % u64

-- The capacity in frames of that many milliseconds.
abbrev pub frames_in : ℕ → ℤ → ℕ
frames_in sample_rate ms = sample_rate * pos_part ms / 1000

module _ {A : Type 0} (silence : A) where
  unfoldable pub reset : Ring A → Ring A
  reset r = record r {
    write_at = 0;
    read_at = 0;
    priming = true;
    buffer = replicate (length r.buffer) silence;
  }

  -- The target leaves room on both sides: it is at most half the capacity.
  unfoldable pub configure : Ring A → ℤ → ℤ → ℤ → ℤ → Ring A
  unfolding reset
  configure r channels sample_rate capacity_ms target_ms =
      let rate = pos_part sample_rate in
      let capacity = frames_in rate capacity_ms in
      reset (record r {
        channels = pos_part channels;
        sample_rate = rate;
        capacity = capacity;
        target = min (frames_in rate target_ms) (capacity / 2);
        buffer = replicate (capacity * pos_part channels) silence;
      })

module _ {A : Type 0} where
  -- At most two block copies: up to the end of the buffer, then from its start.
  unfoldable pub copy_wrapped : List A → ℕ → ℕ → ℕ → (ℕ → A) → List A
  copy_wrapped buffer at first total source =
      let head = memcpy buffer at first source in
      if ltb first total then memcpy head 0 (total - first) (λ i. source (first + i)) else head

  -- `write` once its guards are passed, with `taken` frames to take, where it found the fill level `level`.
  unfoldable pub store : Ring A → ℕ → (ℕ → A) → ℕ → Ring A
  unfolding copy_wrapped
  store r level source taken =
      let offset = r.write_at % r.capacity in
      let first = min taken (r.capacity - offset) in
      record r {
        buffer =
            copy_wrapped r.buffer (offset * r.channels) (first * r.channels) (taken * r.channels)
              source;
        write_at = (r.write_at + taken) % u64;
        priming = r.priming && ltb (level + taken) r.target;
        stats = record {
          frames_written = r.stats.frames_written + taken;
          frames_read = r.stats.frames_read;
          underruns = r.stats.underruns;
          overruns = r.stats.overruns;
          resyncs = r.stats.resyncs;
        };
      }

  abbrev pub count_overrun : Ring A → Bool → Ring A
  count_overrun r short = record r {
    stats = record {
      frames_written = r.stats.frames_written;
      frames_read = r.stats.frames_read;
      underruns = r.stats.underruns;
      overruns = if short then r.stats.overruns + 1 else r.stats.overruns;
      resyncs = r.stats.resyncs;
    };
  }

  -- How many frames fit: `min(frames, max(space, 0))`.
  abbrev pub fitting : Ring A → ℕ → ℕ
  fitting r frames = min frames (r.capacity - buffered r)

  -- A null pointer is `none`. The result is how many frames were taken.
  unfoldable pub write : Ring A → Option (ℕ → A) → ℤ → Ring A × ℕ
  write r none frames = (r, 0)
  write r (some source) (negsuc n) = (r, 0)
  write r (some source) (pos frames) =
      if frames == 0 || (r.channels == 0 || r.capacity == 0)
      then (r, 0)
      else let taken = fitting r frames in
        let counted = count_overrun r (ltb taken frames) in
        if taken == 0 then (counted, 0) else (store counted (buffered r) source taken, taken)

  -- The excess that a ring which has drifted past twice its target throws away.
  abbrev pub excess : Ring A → ℕ
  excess r = if ltb 0 r.target && ltb (r.target * 2) (buffered r) then buffered r - r.target else 0

  -- How many frames `read` takes out.
  abbrev pub playable : Ring A → ℕ → ℕ
  playable r frames = min frames (buffered r - excess r)

  -- What `read` stores once it has skipped `skip` frames and copied `taken`: resynchronised, advanced, and
  -- priming again after an underrun.
  unfoldable pub finish_read : Ring A → ℕ → ℕ → ℕ → Ring A
  finish_read r frames skip taken =
      let short = ltb taken frames in
      record r {
        read_at = (r.read_at + skip + taken) % u64;
        priming = r.priming || short;
        stats = record {
          frames_written = r.stats.frames_written;
          frames_read = r.stats.frames_read + taken;
          underruns = if short then r.stats.underruns + 1 else r.stats.underruns;
          overruns = r.stats.overruns;
          resyncs = if ltb 0 skip then r.stats.resyncs + 1 else r.stats.resyncs;
        };
      }

module _ {A : Type 0} (silence : A) where
  -- `count` samples from `at` on, in at most two pieces.
  unfoldable pub fetch_wrapped : List A → ℕ → ℕ → ℕ → List A
  fetch_wrapped buffer at first total =
      tabulate first (λ i. get_or buffer (at + i) silence)
      ++ tabulate (total - first) (λ i. get_or buffer i silence)

  -- What goes to `dst`: the real samples, then silence.
  unfoldable pub play : Ring A → ℕ → List A
  play r frames =
      let taken = playable r frames in
      let offset = (r.read_at + excess r) % u64 % r.capacity in
      let first = min taken (r.capacity - offset) in
      fetch_wrapped r.buffer (offset * r.channels) (first * r.channels) (taken * r.channels)
      ++ replicate ((frames - taken) * r.channels) silence

  -- The state after it.
  unfoldable pub played : Ring A → ℕ → Ring A
  unfolding finish_read
  played r frames = finish_read r frames (excess r) (playable r frames)

  -- A null pointer is `false`. The result is how many real frames there were and the samples.
  unfoldable pub read : Ring A → Bool → ℤ → Ring A × ℕ × List A
  read r false frames = (r, 0, [])
  read r true (negsuc n) = (r, 0, [])
  read r true (pos frames) =
      if frames == 0 || (r.channels == 0 || r.capacity == 0)
      then (r, 0, [])
      else if r.priming
      then (r, 0, replicate (frames * r.channels) silence)
      else (played r frames, playable r frames, play r frames)
