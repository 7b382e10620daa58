-- ===== src/Audio/Fifo/Reads.antt =====
-- The two reads of the FIFO: what they answer, what is left, and that they agree with one another.
use weblinked.Base.{
  ℕ, zero, suc, ◌+◌, ◌-◌, ◌*◌, ◌%◌, ◌≤◌, ◌<◌, min, false, List, [], ◌∷◌, ◌++◌, map, ltb, ◌==◌,
  if◌then◌else◌, length, get_or, tabulate, ◌≡◌, refl, sym, ap, ap₂, ◌∙◌, arith, tabulate_ext,
  tabulate-add, drop, drop-tabulate, length-map, get_or-tabulate, get_or_end, get_or-append,
  replicate-tabulate, get_or-map, length-append, length-tabulate,
}
use weblinked.Base.Int.{pos}
use native.Mathlib.Nat.{mod-add-mod, mod-lt, le_refl, add-zero, add_assoc, zero-add, zero-mul}
use weblinked.Audio.Fifo.{
  Fifo, take_frames, read_plane, read_planar, frame_of, interleave, read_interleaved,
}
use weblinked.Audio.Fifo.Copy.{copy_out_round}
use weblinked.Audio.Fifo.Contents.{IsValid, contents, length-contents}

module _ {A : Type 0} (silence : A) where
  -- `n` samples off the front of a queue, with silence past its end.
  abbrev pub padded : ℕ → List A → List A
  padded n q = tabulate n (λ i. get_or q i silence)

  get_or-contents :
      (s : Fifo A) (plane : List A) (i : ℕ)
      → i < s.filled
      → get_or plane ((s.read_pos + i) % s.capacity) silence
        ≡ get_or (contents silence s plane) i silence
  unfolding contents
  get_or-contents s plane i h = sym (
      get_or-tabulate s.filled i (λ i. get_or plane ((s.read_pos + i) % s.capacity) silence) silence
        h)

  read_plane-padded :
      (s : Fifo A) (n : ℕ) (plane : List A)
      → IsValid s
      → read_plane silence s (min n s.filled) n plane ≡ padded n (contents silence s plane)
  unfolding read_plane
  read_plane-padded s n plane v =
      let have = min n s.filled in
      let q = contents silence s plane in
      ap₂ ◌++◌
        (copy_out_round silence have s.capacity plane s.read_pos have v.read_in (le_refl have)
          ∙ tabulate_ext have _ (λ i. get_or q i silence)
              (λ i h. get_or-contents s plane i (omega arith)))
        (replicate-tabulate (n - have) silence
          ∙ tabulate_ext (n - have) (λ _. silence) (λ i. get_or q (have + i) silence)
              (λ i h.
                sym (
                  get_or_end q (have + i) silence
                    (omega (arith, length-contents silence s plane)))))
      ∙ sym (tabulate-add have (n - have) (λ i. get_or q i silence))
      ∙ ap (λ k. padded k q) (omega arith)

  contents-take_frames :
      (s : Fifo A) (have n : ℕ) (plane : List A)
      → contents silence (take_frames s have n) plane ≡ drop have (contents silence s plane)
  unfolding contents take_frames
  contents-take_frames s have n plane =
      tabulate_ext (s.filled - have) _ _ (λ i h.
        ap (λ (k : ℕ). get_or plane k silence)
          (mod-add-mod (s.read_pos + have) s.capacity i
            ∙ ap (λ (k : ℕ). k % s.capacity) (add_assoc s.read_pos have i)))
      ∙ sym
          (drop-tabulate have s.filled (λ i. get_or plane ((s.read_pos + i) % s.capacity) silence))

  take_frames-IsValid :
      (s : Fifo A) (have n : ℕ) → IsValid s → have ≤ s.filled → IsValid (take_frames s have n)
  unfolding take_frames
  take_frames-IsValid s have n v h = record {
    configured = v.configured;
    channel_count = v.channel_count;
    sized = v.sized;
    read_in = mod-lt _ v.configured;
    bounded = omega (arith, v.bounded);
    linked =
        v.linked
        ∙ ap (λ (k : ℕ). k % s.capacity) (omega arith)
        ∙ sym (mod-add-mod (s.read_pos + have) s.capacity (s.filled - have));
  }

  planes_padded :
      (s : Fifo A) (n : ℕ) (ps : List (List A))
      → IsValid s
      → map (read_plane silence s (min n s.filled) n) ps
        ≡ map (padded n) (map (contents silence s) ps)
  planes_padded s n [] v = refl
  planes_padded s n (p ∷ ps) v = ap₂ ◌∷◌ (read_plane-padded s n p v) (planes_padded s n ps v)

  planes_dropped :
      (s : Fifo A) (have n : ℕ) (ps : List (List A))
      → map (contents silence (take_frames s have n)) ps
        ≡ map (drop have) (map (contents silence s) ps)
  planes_dropped s have n [] = refl
  planes_dropped s have n (p ∷ ps) =
      ap₂ ◌∷◌ (contents-take_frames s have n p) (planes_dropped s have n ps)

  -- A planar read of at least one frame from a valid FIFO with at least one channel: it reports as many
  -- real frames as were asked for and are there; every channel gets exactly the frames asked for, the
  -- oldest unread samples in order and then silence; those are gone from the queues and nothing
  -- else is; an underrun is counted exactly when silence was needed; and the FIFO stays valid.
  pub read_refines :
      (s : Fifo A) (n : ℕ)
      → IsValid s
      → 1 ≤ n
      → 1 ≤ s.channels
      → let (s', have, out) = read_planar silence s (pos n) in
        (have ≡ min n s.filled)
        × (out ≡ map (padded n) (map (contents silence s) s.planes))
        × (map (contents silence s') s'.planes
            ≡ map (drop have) (map (contents silence s) s.planes))
        × (s'.stats.underruns ≡ s.stats.underruns + (if ltb s.filled n then 1 else 0))
        × IsValid s'
  unfolding read_planar
  read_refines s n v asked some_channels =
      let e : (n == 0) ≡ false = ground arith in
      let c : (s.channels == 0) ≡ false = ground arith in
      rw (e, c)
        (
          refl,
          planes_padded s n s.planes v,
          planes_dropped s (min n s.filled) n s.planes,
          ground arith,
          take_frames-IsValid s (min n s.filled) n v (omega arith),
        )

  length-frame_of : (s : Fifo A) (have f : ℕ) → length (frame_of silence s have f) ≡ length s.planes
  unfolding frame_of
  length-frame_of s have f = length-map s.planes _

  -- Frame `k` of channel `c` stands where an interleaved reader looks for it.
  get_or-interleave :
      (s : Fifo A) (have left f k c : ℕ)
      → k < left
      → c < length s.planes
      → get_or (interleave silence s have left f) (k * length s.planes + c) silence
        ≡ get_or (frame_of silence s have (f + k)) c silence
  unfolding interleave
  get_or-interleave s have zero f k c h hc = absurd (omega arith)
  get_or-interleave s have (suc left) f zero c h hc =
      let row = frame_of silence s have f in
      let rest = interleave silence s have left (f + 1) in
      rw (zero-mul, zero-add, add-zero)
        (ground (arith, get_or-append row rest c silence, length-frame_of s have f))
  get_or-interleave s have (suc left) f (suc k) c h hc =
      let row = frame_of silence s have f in
      let rest = interleave silence s have left (f + 1) in
      let at : suc k * length s.planes + c ≡ length s.planes + (k * length s.planes + c) =
        grind arith in
      let past : length s.planes + (k * length s.planes + c) - length s.planes
          ≡ k * length s.planes + c =
        omega arith in
      let step : f + suc k ≡ f + 1 + k = omega arith in
      rw (at, step)
        (ground (
          arith,
          get_or-append row rest (length s.planes + (k * length s.planes + c)) silence,
          length-frame_of s have f,
          ap (λ (j : ℕ). get_or rest j silence) past,
          get_or-interleave s have left (f + 1) k c,
        ))

  -- One sample, by either read.
  same_sample :
      (s : Fifo A) (n f : ℕ) (plane : List A)
      → IsValid s
      → f < n
      → (if ltb f (min n s.filled)
          then get_or plane ((s.read_pos + f) % s.capacity) silence
          else silence)
        ≡ get_or (read_plane silence s (min n s.filled) n plane) f silence
  same_sample s n f plane v h =
      rw
        (
          read_plane-padded s n plane v,
          get_or-tabulate n f (λ i. get_or (contents silence s plane) i silence) silence h,
        )
        (ground (
          arith,
          get_or-contents s plane f,
          get_or_end (contents silence s plane) f silence,
          length-contents silence s plane,
        ))

  frame_of-same :
      (s : Fifo A) (n f c : ℕ)
      → IsValid s
      → f < n
      → c < length s.planes
      → get_or (frame_of silence s (min n s.filled) f) c silence
        ≡ get_or (get_or (map (read_plane silence s (min n s.filled) n) s.planes) c []) f silence
  unfolding frame_of
  frame_of-same s n f c v h hc =
      get_or-map _ s.planes c [] silence hc
      ∙ same_sample s n f (get_or s.planes c []) v h
      ∙ ap (λ (p : List A). get_or p f silence) (sym (get_or-map _ s.planes c [] [] hc))

  length-interleave :
      (s : Fifo A) (have left f : ℕ)
      → length (interleave silence s have left f) ≡ left * length s.planes
  unfolding interleave
  length-interleave s have zero f = sym (zero-mul (length s.planes))
  length-interleave s have (suc left) f =
      let row = frame_of silence s have f in
      let rest = interleave silence s have left (f + 1) in
      let more : suc left * length s.planes ≡ length s.planes + left * length s.planes =
        grind arith in
      omega (
        arith,
        length-append row rest,
        length-frame_of s have f,
        length-interleave s have left (f + 1),
        more,
      )

  length-read_plane :
      (s : Fifo A) (n : ℕ) (plane : List A)
      → IsValid s
      → length (read_plane silence s (min n s.filled) n plane) ≡ n
  length-read_plane s n plane v = ap length (read_plane-padded s n plane v) ∙ length-tabulate n _

  -- The two reads agree: from a valid FIFO they report the same number of frames and leave the same
  -- state, the interleaved read writes as many samples for every frame asked for as there are channels, the
  -- planar read one for each frame in each channel, and sample `f` of channel `c` of the planar read
  -- stands at `f * channels + c` of the interleaved one.
  pub interleaved_planar :
      (s : Fifo A) (n f c : ℕ)
      → IsValid s
      → f < n
      → c < s.channels
      → let (s', have, out) = read_interleaved silence s (pos n) in
        let (t', have', planes) = read_planar silence s (pos n) in
        (s' ≡ t')
        × (have ≡ have')
        × (length out ≡ n * s.channels)
        × (length (get_or planes c []) ≡ n)
        × (get_or out (f * s.channels + c) silence ≡ get_or (get_or planes c []) f silence)
  unfolding read_interleaved read_planar
  interleaved_planar s n f c v h hc =
      let e : (n == 0) ≡ false = ground arith in
      let d : (s.channels == 0) ≡ false = ground arith in
      rw (e, d)
        (
          refl,
          refl,
          length-interleave s (min n s.filled) n 0 ∙ ap (λ (k : ℕ). n * k) v.channel_count,
          ap length (get_or-map _ s.planes c [] [] (omega (arith, v.channel_count)))
              ∙ length-read_plane s n (get_or s.planes c []) v,
          ap
                (λ (width : ℕ).
                  get_or (interleave silence s (min n s.filled) n 0) (f * width + c) silence)
                (sym v.channel_count)
              ∙ get_or-interleave s (min n s.filled) n 0 f c h (omega (arith, v.channel_count))
              ∙ rw zero-add (frame_of-same s n f c v h (omega (arith, v.channel_count))),
        )
