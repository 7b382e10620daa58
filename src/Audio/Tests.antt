-- ===== src/Audio/Tests.antt =====
-- The FIFO and the ring on concrete inputs: samples are numbers, and silence is 0.
use weblinked.Base.{
  length, ℕ, ◌+◌, ◌-◌, ◌*◌, ◌≤◌, ◌≡◌, refl, true, false, some, [], ◌∷◌, ◌++◌, map, min, arith, drop,
  ltb, get_or, if◌then◌else◌, memcpy, tabulate,
}
use weblinked.Base.Int.{pos, negsuc}
use weblinked.Audio.Fifo
use weblinked.Audio.Fifo.{Fifo}
use weblinked.Audio.Fifo.Contents
use weblinked.Audio.Fifo.Refine.{keep_newest, write_refines}
use weblinked.Audio.Fifo.Reads.{padded, read_refines, interleaved_planar}
use weblinked.Audio.Ring
use weblinked.Audio.Ring.{Ring, u64}
use weblinked.Audio.Ring.Contents as Unplayed
use weblinked.Audio.Ring.Threads

-- Two channels of four frames, of which 2 and 3 are unread.
abbrev stereo : Fifo ℕ
stereo = record {
  channels = 2;
  sample_rate = 48000;
  capacity = 4;
  write_pos = 1;
  read_pos = 3;
  filled = 2;
  planes = (3 ∷ 0 ∷ 0 ∷ 2 ∷ []) ∷ (30 ∷ 0 ∷ 0 ∷ 20 ∷ []) ∷ [];
  stats = Fifo.no_stats;
}

stereo-IsValid : Contents.IsValid stereo
stereo-IsValid = record {
  configured = omega arith;
  channel_count = refl;
  sized = (refl, (refl, tt));
  read_in = omega arith;
  bounded = omega arith;
  linked = refl;
}

abbrev packet : ℕ → ℕ → ℕ
packet c i = 100 * c + i + 4

wraps_and_drops :
    (Fifo.write stereo packet (pos 3)).planes
    ≡ (3 ∷ 4 ∷ 5 ∷ 6 ∷ []) ∷ (30 ∷ 104 ∷ 105 ∷ 106 ∷ []) ∷ []
unfolding Fifo.write Fifo.write_planes Fifo.copy_in memcpy
wraps_and_drops = refl

write_refines_example :
    let s' = Fifo.write stereo packet (pos 3) in
    (map (Contents.contents 0 s') s'.planes
      ≡ keep_newest 4 3 packet 0 (map (Contents.contents 0 stereo) stereo.planes))
    × Contents.IsValid s'
write_refines_example = write_refines 0 stereo packet (pos 3) stereo-IsValid

read_refines_example :
    let (s', have, out) = Fifo.read_planar 0 stereo (pos 3) in
    (have ≡ min 3 2)
    × (out ≡ map (padded 0 3) (map (Contents.contents 0 stereo) stereo.planes))
    × (map (Contents.contents 0 s') s'.planes
        ≡ map (drop have) (map (Contents.contents 0 stereo) stereo.planes))
    × (s'.stats.underruns ≡ 0 + (if ltb 2 3 then 1 else 0))
    × Contents.IsValid s'
read_refines_example = read_refines 0 stereo 3 stereo-IsValid (omega arith) (omega arith)

interleaved_planar_example :
    let (s', have, out) = Fifo.read_interleaved 0 stereo (pos 3) in
    let (t', have', planes) = Fifo.read_planar 0 stereo (pos 3) in
    (s' ≡ t')
    × (have ≡ have')
    × (length out ≡ 3 * 2)
    × (length (get_or planes 1 []) ≡ 3)
    × (get_or out (1 * 2 + 1) 0 ≡ get_or (get_or planes 1 []) 1 0)
interleaved_planar_example =
    interleaved_planar 0 stereo 3 1 1 stereo-IsValid (omega arith) (omega arith)

configure-IsValid_example :
    let s = Fifo.configure {A = ℕ} 0 (pos 2) (pos 48000) (negsuc 4) in
    Contents.IsValid s × (Contents.contents 0 s (7 ∷ []) ≡ []) × (s.channels ≡ 2)
configure-IsValid_example = Contents.configure-IsValid 0 (pos 2) (pos 48000) (negsuc 4) (7 ∷ [])

-- A stereo ring of four frames at cursor 6 with three frames unplayed: 10, 11, 20, 21, 30, 31.
abbrev card : Ring ℕ
card = record {
  channels = 2;
  sample_rate = 48000;
  capacity = 4;
  target = 2;
  buffer = 30 ∷ 31 ∷ 0 ∷ 0 ∷ 10 ∷ 11 ∷ 20 ∷ 21 ∷ [];
  write_at = 9;
  read_at = 6;
  priming = false;
  stats = record { frames_written = 9; frames_read = 6; underruns = 0; overruns = 0; resyncs = 0 };
}

card-IsValid : Unplayed.IsValid card
card-IsValid = record {
  some_channels = omega arith;
  some_frames = omega arith;
  int_capacity = omega arith;
  whole = refl;
  ordered = omega arith;
  no_wrap = omega arith;
  bounded = omega arith;
  half_full = omega arith;
}

plays_in_order : (Ring.read 0 card true (pos 4)).2 ≡ 10 ∷ 11 ∷ 20 ∷ 21 ∷ 30 ∷ 31 ∷ 0 ∷ 0 ∷ []
unfolding Ring.read Ring.play Ring.fetch_wrapped tabulate
plays_in_order = refl

abbrev more : ℕ → ℕ
more i = i + 40

write_appends_example :
    let (r', taken) = Ring.write card (some more) (pos 3) in
    (taken ≡ min 3 (4 - (9 - 6)))
    × (Unplayed.contents 0 r' ≡ Unplayed.contents 0 card ++ tabulate (taken * 2) more)
    × (r'.stats.overruns ≡ 0 + (if ltb taken 3 then 1 else 0))
    × Unplayed.IsValid r'
write_appends_example =
    Unplayed.write_appends 0 card more 3 card-IsValid (omega arith) (omega arith)

-- The same ring with a smaller target: three frames are past twice one.
abbrev drifted : Ring ℕ
drifted = record card { target = 1 }

drifted-IsValid : Unplayed.IsValid drifted
drifted-IsValid = record {
  some_channels = omega arith;
  some_frames = omega arith;
  int_capacity = omega arith;
  whole = refl;
  ordered = omega arith;
  no_wrap = omega arith;
  bounded = omega arith;
  half_full = omega arith;
}

read_plays_example :
    let (r', taken, out) = Ring.read 0 drifted true (pos 4) in
    (taken ≡ min 4 (3 - 2))
    × (out ≡ Unplayed.padded 0 (4 * 2) (drop (2 * 2) (Unplayed.contents 0 drifted)))
    × (Unplayed.contents 0 r' ≡ drop ((2 + taken) * 2) (Unplayed.contents 0 drifted))
    × (r'.priming ≡ ltb taken 4)
    × (r'.stats.underruns ≡ 0 + (if ltb taken 4 then 1 else 0))
    × (r'.stats.resyncs ≡ 0 + (if ltb 0 2 then 1 else 0))
    × Unplayed.IsValid r'
read_plays_example = Unplayed.read_plays 0 drifted 4 drifted-IsValid (omega arith) refl

-- A ring of one channel and four frames: two frames are in, and the producer copies the next two while the
-- consumer copies one out.
abbrev four_frames : Ring ℕ
four_frames = Ring.configure 0 card (pos 1) (pos 1000) (pos 4) (pos 2)

abbrev two_in : Ring ℕ
two_in = Ring.store four_frames 0 more 2

abbrev busy : Threads.Shared ℕ
busy = record {
  ring = Ring.count_overrun two_in true;
  producer = Threads.copies_in 2 2;
  consumer = Threads.copies_out 1 0 1;
}

busy-Reach : Threads.Reach (Threads.started four_frames) busy
unfolding Ring.configure Ring.reset Ring.store
busy-Reach =
    Threads.next
      (Threads.next
        (Threads.next
          (Threads.next Threads.here (
            Threads.begins_write (Threads.started four_frames) 2
              (omega arith, omega arith, omega arith) refl (omega arith)))
          (Threads.ends_write _ more 2 0 refl (omega arith)))
        (Threads.begins_write _ 5 (omega arith, omega arith, omega arith) refl (omega arith)))
      (Threads.begins_read _ 1 (omega arith, omega arith, omega arith) refl refl)

no_shared_sample_example :
    (busy.ring.read_at ≤ busy.ring.write_at)
    × (busy.ring.write_at ≤ busy.ring.read_at + busy.ring.capacity)
    × Threads.Reads busy.ring busy.consumer
    × Threads.AreApart busy.ring busy.producer busy.consumer
no_shared_sample_example =
    Threads.no_shared_sample 0 card (pos 1) (pos 1000) (pos 4) (pos 2) busy-Reach
