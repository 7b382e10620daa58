-- ===== src/Audio/Fifo/Contents.antt =====
-- What a FIFO holds, as a list, and the invariant of its cursors.
use weblinked.Base.{
  ℕ, zero, suc, ◌+◌, ◌-◌, ◌%◌, ◌≤◌, ◌<◌, Bool, List, [], ◌∷◌, ◌++◌, map, ltb, if◌then◌else◌, length,
  get_or, replicate, tabulate, ◌≡◌, refl, sym, ap, ap₂, ◌∙◌, arith, before_chunk, after_chunk,
  tabulate_ext, tabulate-add, dec_lt, inl, inr, ◌⊎◌, drop, drop-tabulate, length-tabulate,
  length-replicate, length-map,
}
use weblinked.Base.Int.{ℤ, pos_part}
use native.Mathlib.Nat.{mod-add-mod, mod-eq_of_lt, mod-lt, le_refl, add-zero, add_assoc}
use weblinked.Audio.Fifo.{Fifo, configure, reset, at_least, copy_in, write_tail}
use weblinked.Audio.Fifo.Copy.{copy_in_round}

abbrev pub AllSized : {A : Type 0} → ℕ → List (List A) → Type 0
AllSized n [] = Unit {0}
AllSized n (p ∷ ps) = (length p ≡ n) × AllSized n ps

-- The cursors lie in the ring, the write cursor where the buffered frames end.
pub record IsValid {A : Type 0} (s : Fifo A) : Type 0 where
  pub configured : 1 ≤ s.capacity
  pub channel_count : length s.planes ≡ s.channels
  pub sized : AllSized s.capacity s.planes
  pub read_in : s.read_pos < s.capacity
  pub bounded : s.filled ≤ s.capacity
  pub linked : s.write_pos ≡ (s.read_pos + s.filled) % s.capacity

AllSized-replicate :
    {A : Type 0} (capacity k : ℕ) (plane : List A)
    → length plane ≡ capacity
    → AllSized capacity (replicate k plane)
AllSized-replicate capacity zero plane h = tt
AllSized-replicate capacity (suc k) plane h = (h, AllSized-replicate capacity k plane h)

AllSized-silenced :
    {A : Type 0} (silence : A) (capacity : ℕ) (ps : List (List A))
    → AllSized capacity ps
    → AllSized capacity (map (λ (p : List A). replicate (length p) silence) ps)
AllSized-silenced silence capacity [] h = tt
AllSized-silenced silence capacity (p ∷ ps) h =
    (length-replicate (length p) silence ∙ h.0, AllSized-silenced silence capacity ps h.1)

module _ {A : Type 0} (silence : A) where
  -- The unread samples of one plane, oldest first.
  unfoldable pub contents : Fifo A → List A → List A
  contents s plane = tabulate s.filled (λ i. get_or plane ((s.read_pos + i) % s.capacity) silence)

  -- The unread samples followed by a packet.
  stream : Fifo A → List A → (ℕ → A) → ℕ → A
  stream s plane source i =
      if ltb i s.filled
      then get_or plane ((s.read_pos + i) % s.capacity) silence
      else source (i - s.filled)

  contents-append :
      (s : Fifo A) (plane : List A) (source : ℕ → A) (n : ℕ)
      → contents s plane ++ tabulate n source ≡ tabulate (s.filled + n) (stream s plane source)
  unfolding contents stream
  contents-append s plane source n =
      ap₂ ◌++◌ (tabulate_ext s.filled _ _ (λ i h. ground arith))
        (tabulate_ext n _ _ (λ i h. ground arith))
      ∙ sym (tabulate-add s.filled n (stream s plane source))

  -- The cell `t` frames on from the oldest, after the packet is copied in at the write cursor.
  written :
      (s : Fifo A) (plane : List A) (source : ℕ → A) (n t : ℕ)
      → IsValid s
      → length plane ≡ s.capacity
      → n ≤ s.capacity
      → s.filled + n ≤ t + s.capacity
      → t < s.filled + n
      → get_or
          (copy_in n s.capacity plane s.write_pos n source)
          ((s.read_pos + t) % s.capacity)
          silence
        ≡ stream s plane source t
  unfolding stream
  written s plane source n t v size small new inside =
      let cap = s.capacity in
      let cell = λ (j : ℕ).
        copy_in_round n cap plane s.write_pos n j source silence size
          (rw v.linked (mod-lt _ v.configured)) small (le_refl n) in
      elim (dec_lt t s.filled) [
        | yes p ↦ ground (
          arith,
          cell (t + cap - s.filled) (ground arith),
          before_chunk cap s.read_pos s.filled t p v.bounded,
        )
        | no p ↦ ground (
          arith,
          cell (t - s.filled) (ground arith),
          after_chunk cap s.read_pos s.filled t (omega arith),
        )
      ]

  -- Where the read cursor and the count go when `n` frames are written.
  abbrev lost : Fifo A → ℕ → ℕ
  lost s n = s.filled + n - s.capacity

  read_moves :
      (s : Fifo A) (source : ℕ → ℕ → A) (offset n : ℕ) (cut : Bool)
      → IsValid s
      → n ≤ s.capacity
      → ((write_tail s source offset n cut).read_pos ≡ (s.read_pos + lost s n) % s.capacity)
        × ((write_tail s source offset n cut).filled ≡ s.filled + n - lost s n)
  unfolding write_tail
  read_moves s source offset n cut v small =
      ground (arith, mod-eq_of_lt v.read_in, add-zero s.read_pos)

  -- A packet cut to its last `n` frames is missing none that the ring could keep.
  stream_cut :
      (s : Fifo A) (plane : List A) (source : ℕ → A) (offset n i : ℕ)
      → IsValid s
      → (offset ≡ 0) ⊎ (n ≡ s.capacity)
      → stream s plane (λ i. source (offset + i)) (lost s n + i)
        ≡ stream s plane source (s.filled + (offset + n) - s.capacity + i)
  unfolding stream
  stream_cut s plane source offset n i v (inl e) = ground arith
  stream_cut s plane source offset n i v (inr e) = ground arith

  pub length-contents : (s : Fifo A) (plane : List A) → length (contents s plane) ≡ s.filled
  unfolding contents
  length-contents s plane = length-tabulate s.filled _

  -- The window that starts `lost` frames on, over the plane with the packet in it.
  window_written :
      (s : Fifo A) (plane : List A) (source : ℕ → A) (offset n from count : ℕ)
      → IsValid s
      → length plane ≡ s.capacity
      → n ≤ s.capacity
      → (offset ≡ 0) ⊎ (n ≡ s.capacity)
      → from ≡ (s.read_pos + lost s n) % s.capacity
      → count ≡ s.filled + n - lost s n
      → tabulate count (λ i.
        get_or
          (copy_in n s.capacity plane s.write_pos n (λ i. source (offset + i)))
          ((from + i) % s.capacity)
          silence)
        ≡ drop
            (length (contents s plane) + (offset + n) - s.capacity)
            (contents s plane ++ tabulate (offset + n) source)
  window_written s plane source offset n from count v size small whole hf hc =
      let k = s.filled + (offset + n) - s.capacity in
      let f = stream s plane source in
      let enough : count ≡ s.filled + (offset + n) - k = omega (arith, v.bounded) in
      rw
        (
          length-contents s plane,
          contents-append s plane source (offset + n),
          drop-tabulate k (s.filled + (offset + n)) f,
          ← enough,
        )
        (tabulate_ext count _ (λ i. f (k + i))
          (λ i h. rw hf (
            ap
              (λ (j : ℕ).
                get_or (copy_in n s.capacity plane s.write_pos n (λ i. source (offset + i))) j
                  silence)
              (mod-add-mod (s.read_pos + lost s n) s.capacity i
                ∙ ap (λ (j : ℕ). j % s.capacity) (add_assoc s.read_pos (lost s n) i))
            ∙ written s plane (λ i. source (offset + i)) n (lost s n + i) v size small
                (omega (arith, v.bounded)) (omega (arith, v.bounded))
            ∙ stream_cut s plane source offset n i v whole)))

  pub plane_written :
      (s : Fifo A) (plane : List A) (source : ℕ → A) (sources : ℕ → ℕ → A) (offset n : ℕ)
      (cut : Bool)
      → IsValid s
      → length plane ≡ s.capacity
      → n ≤ s.capacity
      → (offset ≡ 0) ⊎ (n ≡ s.capacity)
      → contents
          (write_tail s sources offset n cut)
          (copy_in n s.capacity plane s.write_pos n (λ i. source (offset + i)))
        ≡ drop
            (length (contents s plane) + (offset + n) - s.capacity)
            (contents s plane ++ tabulate (offset + n) source)
  unfolding contents write_tail
  plane_written s plane source sources offset n cut v size small whole =
      let s' = write_tail s sources offset n cut in
      let moves = read_moves s sources offset n cut v small in
      window_written s plane source offset n s'.read_pos s'.filled v size small whole moves.0
        moves.1

  -- `configure` with any arguments, negative ones too, leaves a valid FIFO with nothing unread: at
  -- least one frame of capacity, and no channels for a negative count.
  pub configure-IsValid :
      (channels sample_rate capacity : ℤ) (plane : List A)
      → let s = configure silence channels sample_rate capacity in
        IsValid s × (contents s plane ≡ []) × (s.channels ≡ pos_part channels)
  unfolding configure contents tabulate
  configure-IsValid channels sample_rate capacity plane = (
    record {
      configured = ground arith;
      channel_count = length-replicate (at_least 0 channels) _;
      sized =
          AllSized-replicate (at_least 1 capacity) (at_least 0 channels) _
            (length-replicate (at_least 1 capacity) silence);
      read_in = ground arith;
      bounded = omega arith;
      linked = ground arith;
    },
    refl,
    ground arith,
  )

  -- `reset` forgets what is unread and keeps the shape: the FIFO stays valid.
  pub reset-IsValid :
      (s : Fifo A) (plane : List A)
      → IsValid s
      → IsValid (reset silence s) × (contents (reset silence s) plane ≡ [])
  unfolding reset contents tabulate
  reset-IsValid s plane v = (
    record {
      configured = v.configured;
      channel_count = length-map s.planes _ ∙ v.channel_count;
      sized = AllSized-silenced silence s.capacity s.planes v.sized;
      read_in = v.configured;
      bounded = omega arith;
      linked = sym (mod-eq_of_lt v.configured);
    },
    refl,
  )
