-- ===== src/Audio/Fifo/Refine.antt =====
-- The FIFO against its promise: for each channel a queue of at most `capacity` samples, which keeps
-- the newest on overflow and answers silence when it runs dry.
use weblinked.Base.{
  ℕ, suc, ◌+◌, ◌-◌, ◌%◌, ◌≤◌, Bool, true, false, List, [], ◌∷◌, ◌++◌, map, ltb, ◌==◌, if◌then◌else◌,
  length, tabulate, ◌≡◌, refl, sym, ap, ap₂, ◌∙◌, arith, dec_lt, Bool-cases, inl, inr, ◌⊎◌, drop,
  lt→ltb, subst,
}
use weblinked.Base.Int.{ℤ, pos, negsuc, pos_part}
use native.Mathlib.Nat.{mod-add-mod, mod-lt, le_refl, add_assoc, zero-add}
use mathlib.Core.List.{append-nil}
use weblinked.Audio.Fifo.{Fifo, write_planes, write_tail, write}
use weblinked.Audio.Fifo.Copy.{length-copy_in}
use weblinked.Audio.Fifo.Contents.{IsValid, AllSized, contents, plane_written, length-contents}

module _ {A : Type 0} where
  -- What `write` promises of the queues of the channels from `c` on.
  unfoldable pub keep_newest : ℕ → ℕ → (ℕ → ℕ → A) → ℕ → List (List A) → List (List A)
  keep_newest capacity frames source c [] = []
  keep_newest capacity frames source c (q ∷ qs) =
      drop (length q + frames - capacity) (q ++ tabulate frames (source c))
      ∷ keep_newest capacity frames source (c + 1) qs

  write_planes-AllSized :
      (n capacity at frames c : ℕ) (source : ℕ → ℕ → A) (ps : List (List A))
      → AllSized n ps
      → AllSized n (write_planes capacity at frames source c ps)
  unfolding write_planes
  write_planes-AllSized n capacity at frames c source [] h = tt
  write_planes-AllSized n capacity at frames c source (p ∷ ps) h = (
    length-copy_in frames capacity p at frames (source c) ∙ h.0,
    write_planes-AllSized n capacity at frames (c + 1) source ps h.1,
  )

  length-write_planes :
      (capacity at frames c : ℕ) (source : ℕ → ℕ → A) (ps : List (List A))
      → length (write_planes capacity at frames source c ps) ≡ length ps
  unfolding write_planes
  length-write_planes capacity at frames c source [] = refl
  length-write_planes capacity at frames c source (p ∷ ps) =
      ap suc (length-write_planes capacity at frames (c + 1) source ps)

  -- The write cursor stands where the frames that are kept end, on either branch of `write`.
  write_linked :
      (s : Fifo A) (n : ℕ)
      → IsValid s
      → n ≤ s.capacity
      → (s.write_pos + n) % s.capacity
        ≡ ((if ltb (s.capacity - s.filled) n
              then (s.read_pos + (n - (s.capacity - s.filled))) % s.capacity
              else s.read_pos)
            + (if ltb (s.capacity - s.filled) n then s.capacity else s.filled + n))
          % s.capacity
  write_linked s n v small =
      let lost = n - (s.capacity - s.filled) in
      let whole : (s.write_pos + n) % s.capacity ≡ (s.read_pos + s.filled + n) % s.capacity =
        rw v.linked (mod-add-mod (s.read_pos + s.filled) s.capacity n) in
      elim (dec_lt (s.capacity - s.filled) n) [
        | yes p ↦ rw (lt→ltb (s.capacity - s.filled) n p) (
            whole
            ∙ ap (λ (k : ℕ). k % s.capacity) (omega (arith, v.bounded))
            ∙ sym (mod-add-mod (s.read_pos + lost) s.capacity s.capacity))
        | no p ↦
            let e : ltb (s.capacity - s.filled) n ≡ false = ground arith in
            rw e (whole ∙ ap (λ (k : ℕ). k % s.capacity) (add_assoc s.read_pos s.filled n))
      ]

  write_tail-IsValid :
      (s : Fifo A) (source : ℕ → ℕ → A) (offset n : ℕ) (cut : Bool)
      → IsValid s
      → n ≤ s.capacity
      → IsValid (write_tail s source offset n cut)
  unfolding write_tail
  write_tail-IsValid s source offset n cut v small = record {
    configured = v.configured;
    channel_count = length-write_planes s.capacity s.write_pos n 0 _ s.planes ∙ v.channel_count;
    sized = write_planes-AllSized s.capacity s.capacity s.write_pos n 0 _ s.planes v.sized;
    read_in =
        ground (arith, v.read_in, mod-lt (s.read_pos + (n - (s.capacity - s.filled))) v.configured);
    bounded = ground arith;
    linked = write_linked s n v small;
  }

module _ {A : Type 0} (silence : A) where
  planes_written :
      (s : Fifo A) (source : ℕ → ℕ → A) (offset n c : ℕ) (cut : Bool) (ps : List (List A))
      → IsValid s
      → AllSized s.capacity ps
      → n ≤ s.capacity
      → (offset ≡ 0) ⊎ (n ≡ s.capacity)
      → map
          (contents silence (write_tail s source offset n cut))
          (write_planes s.capacity s.write_pos n (λ c i. source c (offset + i)) c ps)
        ≡ keep_newest s.capacity (offset + n) source c (map (contents silence s) ps)
  unfolding write_planes keep_newest
  planes_written s source offset n c cut [] v sized small whole = refl
  planes_written s source offset n c cut (p ∷ ps) v sized small whole =
      ap₂ ◌∷◌ (plane_written silence s p (source c) source offset n cut v sized.0 small whole)
        (planes_written s source offset n (c + 1) cut ps v sized.1 small whole)

  -- With fewer frames than the cut, or none of the channels, the spec changes nothing either.
  keep_none :
      (s : Fifo A) (source : ℕ → ℕ → A) (c : ℕ) (ps : List (List A))
      → IsValid s
      → map (contents silence s) ps
        ≡ keep_newest s.capacity 0 source c (map (contents silence s) ps)
  unfolding keep_newest tabulate
  keep_none s source c [] v = refl
  keep_none s source c (p ∷ ps) v =
      let e : length (contents silence s p) + 0 - s.capacity ≡ 0 =
        omega (arith, length-contents silence s p, v.bounded) in
      rw e (ap₂ ◌∷◌ (sym (append-nil (contents silence s p))) (keep_none s source (c + 1) ps v))

  no_planes :
      (s : Fifo A) (source : ℕ → ℕ → A) (n : ℕ) (ps : List (List A))
      → length ps ≡ 0
      → map (contents silence s) ps
        ≡ keep_newest s.capacity n source 0 (map (contents silence s) ps)
  unfolding keep_newest
  no_planes s source n [] h = refl
  no_planes s source n (p ∷ ps) h = absurd (omega arith)

  abbrev Written : Fifo A → (ℕ → ℕ → A) → ℕ → Fifo A → Type 0
  Written s source n s' =
      (map (contents silence s') s'.planes
        ≡ keep_newest s.capacity n source 0 (map (contents silence s) s.planes))
      × IsValid s'

  tail_Written :
      (s : Fifo A) (source : ℕ → ℕ → A) (offset n : ℕ) (cut : Bool)
      → IsValid s
      → n ≤ s.capacity
      → (offset ≡ 0) ⊎ (n ≡ s.capacity)
      → Written s source (offset + n) (write_tail s source offset n cut)
  unfolding write_tail
  tail_Written s source offset n cut v small whole = (
    planes_written s source offset n 0 cut s.planes v v.sized small whole,
    write_tail-IsValid s source offset n cut v small,
  )

  -- `write` on a valid FIFO, for any packet size, negative and larger than the ring included: each
  -- channel's unread samples become the newest `capacity` of what was unread followed by the packet,
  -- in order, and the FIFO stays valid.
  pub write_refines :
      (s : Fifo A) (source : ℕ → ℕ → A) (frames : ℤ)
      → IsValid s
      → let s' = write s source frames in
        (map (contents silence s') s'.planes
          ≡ keep_newest s.capacity (pos_part frames) source 0 (map (contents silence s) s.planes))
        × IsValid s'
  unfolding write
  write_refines s source (negsuc n) v = (keep_none s source 0 s.planes v, v)
  write_refines s source (pos n) v = elim (Bool-cases (n == 0)) [
    | inl z ↦ let e : n ≡ 0 = ground arith in rw (e) (keep_none s source 0 s.planes v, v)
    | inr some_frames ↦ elim (Bool-cases (s.channels == 0)) [
      | inl z ↦
          rw (some_frames, z) (no_planes s source n s.planes (ground (arith, v.channel_count)), v)
      | inr some_channels ↦
          let c : (s.capacity == 0) ≡ false = ground (arith, v.configured) in
          elim (Bool-cases (ltb s.capacity n)) [
            | inl big ↦
                let e : n - s.capacity + s.capacity ≡ n = ground arith in
                rw (some_frames, some_channels, c, big)
                  (subst
                    (λ k. Written s source k (write_tail s source (n - s.capacity) s.capacity true))
                    e
                    (tail_Written s source (n - s.capacity) s.capacity true v (le_refl s.capacity)
                      (inr refl)))
            | inr fits ↦
                rw (some_frames, some_channels, c, fits)
                  (subst (λ k. Written s source k (write_tail s source 0 n false)) (zero-add n)
                    (tail_Written s source 0 n false v (ground arith) (inl refl)))
          ]
    ]
  ]
