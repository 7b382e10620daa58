-- ===== src/Audio/Fifo.antt =====
-- core/audio_fifo.cpp. Each operation holds the mutex throughout, so it is one step on the state.
-- The C++ `int` arguments are integers, so that the guards on them say what they say there; counters
-- are unbounded. Source planes are functions of channel and frame index.
pub mod Copy
pub mod Contents
pub mod Refine
pub mod Reads
use weblinked.Base.{
  ℕ, zero, suc, ◌+◌, ◌-◌, ◌*◌, ◌%◌, min, max, Bool, true, false, ◌||◌, List, [], ◌∷◌, ◌++◌, map,
  ltb, ◌==◌, if◌then◌else◌, length, get_or, replicate, memcpy, tabulate,
}
use weblinked.Base.Int.{ℤ, pos, negsuc}

pub record Stats : Type 0 where
  pub frames_written : ℕ
  pub frames_read : ℕ
  pub underruns : ℕ
  pub overruns : ℕ

abbrev pub no_stats : Stats
no_stats = record { frames_written = 0; frames_read = 0; underruns = 0; overruns = 0 }

pub record Fifo (A : Type 0) : Type 0 where
  pub channels : ℕ
  pub sample_rate : ℕ
  pub capacity : ℕ
  pub write_pos : ℕ
  pub read_pos : ℕ
  pub filled : ℕ
  pub planes : List (List A)
  pub stats : Stats

abbrev pub unconfigured : (A : Type 0) → Fifo A
unconfigured A = record {
  channels = 0;
  sample_rate = 0;
  capacity = 0;
  write_pos = 0;
  read_pos = 0;
  filled = 0;
  planes = [];
  stats = no_stats;
}

-- `std::max(low, z)`
abbrev pub at_least : ℕ → ℤ → ℕ
at_least low (pos n) = max low n
at_least low (negsuc n) = low

unfoldable pub configure : {A : Type 0} → A → ℤ → ℤ → ℤ → Fifo A
configure silence channels sample_rate capacity = record {
  channels = at_least 0 channels;
  sample_rate = at_least 0 sample_rate;
  capacity = at_least 1 capacity;
  write_pos = 0;
  read_pos = 0;
  filled = 0;
  planes = replicate (at_least 0 channels) (replicate (at_least 1 capacity) silence);
  stats = no_stats;
}

module _ {A : Type 0} where
  -- The chunk loop of `write` for one plane: at most up to the end of the plane, then from its start.
  unfoldable pub copy_in : ℕ → ℕ → List A → ℕ → ℕ → (ℕ → A) → List A
  copy_in zero capacity plane at remaining source = plane
  copy_in (suc fuel) capacity plane at remaining source =
      let chunk = min remaining (capacity - at) in
      let rest =
        copy_in fuel capacity (memcpy plane at chunk source) ((at + chunk) % capacity)
          (remaining - chunk) (λ i. source (chunk + i)) in
      if remaining == 0 then plane else rest

  -- The loop over the channels, from channel `c` on.
  unfoldable pub write_planes : ℕ → ℕ → ℕ → (ℕ → ℕ → A) → ℕ → List (List A) → List (List A)
  write_planes capacity at frames source c [] = []
  write_planes capacity at frames source c (plane ∷ planes) =
      copy_in frames capacity plane at frames (source c)
      ∷ write_planes capacity at frames source (c + 1) planes

  -- `write` once the packet is cut to its last `frames` frames, `offset` frames in.
  unfoldable pub write_tail : Fifo A → (ℕ → ℕ → A) → ℕ → ℕ → Bool → Fifo A
  write_tail s source offset frames cut =
      let room = s.capacity - s.filled in
      let overran = cut || ltb room frames in
      record s {
        planes =
            write_planes s.capacity s.write_pos frames (λ c i. source c (offset + i)) 0 s.planes;
        write_pos = (s.write_pos + frames) % s.capacity;
        read_pos =
            if ltb room frames then (s.read_pos + (frames - room)) % s.capacity else s.read_pos;
        filled = if ltb room frames then s.capacity else s.filled + frames;
        stats = record {
          frames_written = s.stats.frames_written + frames;
          frames_read = s.stats.frames_read;
          underruns = s.stats.underruns;
          overruns = if overran then s.stats.overruns + 1 else s.stats.overruns;
        };
      }

  unfoldable pub write : Fifo A → (ℕ → ℕ → A) → ℤ → Fifo A
  unfolding write_tail
  write s source (negsuc n) = s
  write s source (pos frames) =
      if frames == 0 || (s.channels == 0 || s.capacity == 0)
      then s
      else if ltb s.capacity frames
      then write_tail s source (frames - s.capacity) s.capacity true
      else write_tail s source 0 frames false

  abbrev pub available_frames : Fifo A → ℕ
  available_frames s = s.filled

  -- What both reads do to the state once `have` frames are taken of `frames` asked for.
  unfoldable pub take_frames : Fifo A → ℕ → ℕ → Fifo A
  take_frames s have frames = record s {
    read_pos = (s.read_pos + have) % s.capacity;
    filled = s.filled - have;
    stats = record {
      frames_written = s.stats.frames_written;
      frames_read = s.stats.frames_read + have;
      underruns = if ltb have frames then s.stats.underruns + 1 else s.stats.underruns;
      overruns = s.stats.overruns;
    };
  }

module _ {A : Type 0} (silence : A) where
  -- The chunk loop of `readPlanar` for one plane: what it puts at `dst`, in order.
  unfoldable pub copy_out : ℕ → ℕ → List A → ℕ → ℕ → List A
  copy_out zero capacity plane at remaining = []
  copy_out (suc fuel) capacity plane at remaining =
      let chunk = min remaining (capacity - at) in
      let rest = copy_out fuel capacity plane ((at + chunk) % capacity) (remaining - chunk) in
      if remaining == 0 then [] else tabulate chunk (λ i. get_or plane (at + i) silence) ++ rest

  unfoldable pub read_plane : Fifo A → ℕ → ℕ → List A → List A
  unfolding copy_out
  read_plane s have frames plane =
      copy_out have s.capacity plane s.read_pos have ++ replicate (frames - have) silence

  -- The result: how many real frames there were, and each channel's `frames` samples. Nothing is
  -- written to `planes` where the source returns early.
  unfoldable pub read_planar : Fifo A → ℤ → Fifo A × ℕ × List (List A)
  unfolding take_frames read_plane
  read_planar s (negsuc n) = (s, 0, [])
  read_planar s (pos frames) =
      if frames == 0 || s.channels == 0
      then (s, 0, [])
      else let have = min frames s.filled in
        (take_frames s have frames, have, map (read_plane s have frames) s.planes)

  -- One sample-frame of `readInterleaved`, channel by channel.
  unfoldable pub frame_of : Fifo A → ℕ → ℕ → List A
  frame_of s have f =
      map
        (λ plane.
          if ltb f have then get_or plane ((s.read_pos + f) % s.capacity) silence else silence)
        s.planes

  -- The frames from `f` on, one after another.
  unfoldable pub interleave : Fifo A → ℕ → ℕ → ℕ → List A
  interleave s have zero f = []
  interleave s have (suc left) f = frame_of s have f ++ interleave s have left (f + 1)

  unfoldable pub read_interleaved : Fifo A → ℤ → Fifo A × ℕ × List A
  unfolding take_frames interleave
  read_interleaved s (negsuc n) = (s, 0, [])
  read_interleaved s (pos frames) =
      if frames == 0 || s.channels == 0
      then (s, 0, [])
      else let have = min frames s.filled in
        (take_frames s have frames, have, interleave s have frames 0)

  unfoldable pub reset : Fifo A → Fifo A
  reset s = record s {
    write_pos = 0;
    read_pos = 0;
    filled = 0;
    planes = map (λ (p : List A). replicate (length p) silence) s.planes;
  }
