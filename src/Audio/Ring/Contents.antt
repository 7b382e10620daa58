-- ===== src/Audio/Ring/Contents.antt =====
-- What a ring holds, as a list of samples, and what `write` and `read` do to it.
use weblinked.Base.{
  ℕ, ◌+◌, ◌-◌, ◌*◌, ◌%◌, ◌^◌, ◌≤◌, ◌<◌, min, Bool, true, false, some, List, [], ◌++◌, ltb, leb,
  ◌&&◌, ◌==◌, if◌then◌else◌, length, get_or, tabulate, ◌≡◌, refl, sym, ap, ap₂, subst, ◌∙◌, arith,
  drop, tabulate_ext, tabulate-add, dec_lt, Bool-cases, inl, inr, drop-tabulate, length-tabulate,
  get_or-tabulate, get_or_end, get_or-drop, replicate-tabulate,
}
use weblinked.Base.Int.{pos}
use native.Mathlib.Nat.{mod-add-mod, mul-le-mul_right, mod-lt, add-mul, zero-mul}
use mathlib.Core.List.{append-nil}
use weblinked.Audio.Ring.{
  count_overrun, finish_read, Ring, u64, buffered, store, write, excess, playable, fetch_wrapped,
  play, played, read,
}
use weblinked.Audio.Ring.Flat.{
  flat_offset, flat_first, flat_cell, fetch_wrapped_round, length-copy_wrapped, sub-mul,
}

abbrev pub size : {A : Type 0} → Ring A → ℕ
size r = r.capacity * r.channels

-- A configured ring whose cursors have not run 2 ^ 64 frames. `capacity` is an `int`, so a fill level
-- up to it survives the narrowing.
pub record IsValid {A : Type 0} (r : Ring A) : Type 0 where
  pub some_channels : 0 < r.channels
  pub some_frames : 0 < r.capacity
  pub int_capacity : r.capacity < 2 ^ 31
  pub whole : length r.buffer ≡ r.capacity * r.channels
  pub ordered : r.read_at ≤ r.write_at
  pub no_wrap : r.write_at < u64
  pub bounded : r.write_at ≤ r.read_at + r.capacity
  pub half_full : r.target * 2 ≤ r.capacity

pub buffered_lem : {A : Type 0} (r : Ring A) → IsValid r → buffered r ≡ r.write_at - r.read_at
buffered_lem r v = omega (arith, v.ordered, v.no_wrap)

-- What is left of a fill level by the drift correction: past twice the target it falls to the target.
abbrev pub level_kept : ℕ → ℕ → ℕ
level_kept target level = if leb 1 target && leb (target + target + 1) level then target else level

count_if : (b : Bool) (k : ℕ) → (if b then k + 1 else k) ≡ k + (if b then 1 else 0)
count_if true k = refl
count_if false k = omega arith

-- Where fewer frames are played than asked for, what follows them is past the end.
past_end :
    (level skip n channels i : ℕ)
    → skip ≤ level
    → let taken = min n (level - skip) in
      i < (n - taken) * channels → level * channels ≤ skip * channels + (taken * channels + i)
past_end level skip n channels i le h = elim (dec_lt n (level - skip)) [
  | yes p ↦
      let e : n - min n (level - skip) ≡ 0 = omega arith in
      absurd (omega (arith, ap (λ (k : ℕ). k * channels) e))
  | no p ↦
      let e : level ≡ skip + min n (level - skip) = omega arith in
      omega (arith, ap (λ (k : ℕ). k * channels) e)
]

module _ {A : Type 0} (silence : A) where
  -- The unplayed samples, oldest first.
  unfoldable pub contents : Ring A → List A
  contents r =
      tabulate ((r.write_at - r.read_at) * r.channels)
        (λ i. get_or r.buffer ((r.read_at * r.channels + i) % size r) silence)

  size_pos : (r : Ring A) → IsValid r → 0 < size r
  size_pos r v = grind (arith, v.some_channels, v.some_frames)

  contents-store :
      (r : Ring A) (level : ℕ) (source : ℕ → A) (taken : ℕ)
      → IsValid r
      → r.write_at + taken ≤ r.read_at + r.capacity
      → r.write_at + taken < u64
      → contents (store r level source taken) ≡ contents r ++ tabulate (taken * r.channels) source
  unfolding contents store
  contents-store r level source taken v room early =
      let ch = r.channels in
      let start = r.read_at * ch in
      let kept = (r.write_at - r.read_at) * ch in
      let offset = r.write_at % r.capacity in
      let sum : r.write_at * ch ≡ start + kept =
        ap (λ (k : ℕ). k * ch) (omega (arith, v.ordered))
        ∙ add-mul r.read_at (r.write_at - r.read_at) ch in
      let place : offset * ch ≡ (start + kept) % size r =
        flat_offset r.write_at r.capacity ch v.some_frames v.some_channels
        ∙ ap (λ (k : ℕ). k % size r) sum in
      let fits : kept + taken * ch ≤ size r = omega (
        arith,
        mul-le-mul_right {m = r.write_at - r.read_at + taken} {n = r.capacity} ch
            (omega (arith, v.ordered)),
      ) in
      let count : ((r.write_at + taken) % u64 - r.read_at) * ch ≡ kept + taken * ch =
        ap (λ (k : ℕ). k * ch) (omega (arith, v.ordered))
        ∙ add-mul (r.write_at - r.read_at) taken ch in
      let cell = λ (t : ℕ).
        flat_cell (size r) r.buffer start kept (taken * ch) (offset * ch) t source silence v.whole
          (size_pos r v) place fits in
      rw (count, flat_first taken r.capacity offset ch, tabulate-add kept (taken * ch) _)
        (ap₂ ◌++◌ (tabulate_ext kept _ _ (λ t h. ground (arith, cell t (omega arith))))
          (tabulate_ext (taken * ch) _ _ (λ t h. ground (arith, cell (kept + t) (omega arith)))))

  store-IsValid :
      (r : Ring A) (level : ℕ) (source : ℕ → A) (taken : ℕ)
      → IsValid r
      → r.write_at + taken ≤ r.read_at + r.capacity
      → r.write_at + taken < u64
      → IsValid (store r level source taken)
  unfolding store
  store-IsValid r level source taken v room early = record {
    some_channels = v.some_channels;
    some_frames = v.some_frames;
    int_capacity = v.int_capacity;
    whole = length-copy_wrapped r.buffer _ _ _ source ∙ v.whole;
    ordered = omega (arith, v.ordered);
    no_wrap = omega arith;
    bounded = omega arith;
    half_full = v.half_full;
  }

  counted-IsValid : (r : Ring A) (short : Bool) → IsValid r → IsValid (count_overrun r short)
  counted-IsValid r short v = record {
    some_channels = v.some_channels;
    some_frames = v.some_frames;
    int_capacity = v.int_capacity;
    whole = v.whole;
    ordered = v.ordered;
    no_wrap = v.no_wrap;
    bounded = v.bounded;
    half_full = v.half_full;
  }

  store_overruns :
      (r : Ring A) (level : ℕ) (source : ℕ → A) (taken : ℕ)
      → (store r level source taken).stats.overruns ≡ r.stats.overruns
  unfolding store
  store_overruns r level source taken = refl

  nothing : (k : ℕ) (source : ℕ → A) → tabulate (0 * k) source ≡ []
  unfolding tabulate
  nothing k source = rw zero-mul refl

  -- A packet of at least one frame written to a valid ring, before the cursor has run 2 ^ 64 frames: as
  -- many frames are taken as fit, and exactly those are appended to what is unplayed; nothing
  -- unplayed is lost; a packet that does not fit whole is counted as an overrun; the ring stays valid.
  pub write_appends :
      (r : Ring A) (source : ℕ → A) (n : ℕ)
      → IsValid r
      → 0 < n
      → r.write_at + n < u64
      → let (r', taken) = write r (some source) (pos n) in
        (taken ≡ min n (r.capacity - (r.write_at - r.read_at)))
        × (contents r' ≡ contents r ++ tabulate (taken * r.channels) source)
        × (r'.stats.overruns ≡ r.stats.overruns + (if ltb taken n then 1 else 0))
        × IsValid r'
  unfolding write contents
  write_appends r source n v asked early =
      let e : (n == 0) ≡ false = ground arith in
      let c : (r.channels == 0) ≡ false = ground (arith, v.some_channels) in
      let k : (r.capacity == 0) ≡ false = ground (arith, v.some_frames) in
      let taken = min n (r.capacity - (r.write_at - r.read_at)) in
      let counted = count_overrun r (ltb taken n) in
      let v' = counted-IsValid r (ltb taken n) v in
      rw (e, c, k, buffered_lem r v)
        (elim (Bool-cases (taken == 0)) [
          | inl z ↦
              let none_taken : taken ≡ 0 = ground arith in
              rw z (
                sym none_taken,
                sym (ap (◌++◌ (contents r)) (nothing r.channels source) ∙ append-nil (contents r)),
                count_if (ltb taken n) r.stats.overruns
                    ∙ ap (λ (k : ℕ). r.stats.overruns + (if ltb k n then 1 else 0)) none_taken,
                v',
              )
          | inr some_taken ↦ rw some_taken (
            refl,
            contents-store counted (r.write_at - r.read_at) source taken v'
                (omega (arith, v.bounded)) (omega arith),
            store_overruns counted (r.write_at - r.read_at) source taken
                ∙ count_if (ltb taken n) r.stats.overruns,
            store-IsValid counted (r.write_at - r.read_at) source taken v'
                (omega (arith, v.bounded)) (omega arith),
          )
        ])

  -- The samples that are fetched are those from the read cursor on.
  fetched :
      (r : Ring A) (skip taken : ℕ)
      → IsValid r
      → r.read_at + skip + taken ≤ r.write_at
      → let offset = (r.read_at + skip) % u64 % r.capacity in
        fetch_wrapped silence r.buffer
          (offset * r.channels)
          (min taken (r.capacity - offset) * r.channels)
          (taken * r.channels)
        ≡ tabulate (taken * r.channels) (λ i. get_or (contents r) (skip * r.channels + i) silence)
  unfolding contents
  fetched r skip taken v ahead =
      let ch = r.channels in
      let offset = (r.read_at + skip) % u64 % r.capacity in
      let whole_count : (r.read_at + skip) % u64 ≡ r.read_at + skip = omega (arith, v.no_wrap) in
      let place : offset * ch ≡ (r.read_at + skip) * ch % size r =
        ap (λ (k : ℕ). k % r.capacity * ch) whole_count
        ∙ flat_offset (r.read_at + skip) r.capacity ch v.some_frames v.some_channels in
      let in_ring : offset * ch < size r =
        rw place (mod-lt ((r.read_at + skip) * ch) (size_pos r v)) in
      let small : taken * ch ≤ size r =
        mul-le-mul_right {m = taken} {n = r.capacity} ch (omega (arith, v.bounded)) in
      let within : skip * ch + taken * ch ≤ (r.write_at - r.read_at) * ch = omega (
        arith,
        mul-le-mul_right {m = skip + taken} {n = r.write_at - r.read_at} ch (omega arith),
      ) in
      rw (flat_first taken r.capacity offset ch) (
        fetch_wrapped_round silence (size r) r.buffer (offset * ch) (taken * ch) in_ring small
        ∙ tabulate_ext (taken * ch) _ _ (λ i h.
          ap (λ (k : ℕ). get_or r.buffer ((k + i) % size r) silence) place
          ∙ ap (λ (k : ℕ). get_or r.buffer k silence)
              (mod-add-mod ((r.read_at + skip) * ch) (size r) i
                ∙ ap (λ (k : ℕ). k % size r) (omega arith))
          ∙ sym (
              get_or-tabulate ((r.write_at - r.read_at) * ch) (skip * ch + i)
                (λ i. get_or r.buffer ((r.read_at * ch + i) % size r) silence) silence
                (omega arith))))

  -- `n` frames' worth of samples off the front of a list, with silence past its end.
  abbrev pub padded : ℕ → List A → List A
  padded n q = tabulate n (λ i. get_or q i silence)

  length-contents : (r : Ring A) → length (contents r) ≡ (r.write_at - r.read_at) * r.channels
  unfolding contents
  length-contents r = length-tabulate ((r.write_at - r.read_at) * r.channels) _

  excess-le : (r : Ring A) → IsValid r → r.read_at + excess r ≤ r.write_at
  excess-le r v = ground (arith, buffered_lem r v)

  play-padded :
      (r : Ring A) (n : ℕ)
      → IsValid r
      → play silence r n ≡ padded (n * r.channels) (drop (excess r * r.channels) (contents r))
  unfolding play
  play-padded r n v =
      let ch = r.channels in
      let skip = excess r in
      let taken = playable r n in
      let q = contents r in
      let level = buffered_lem r v in
      let le : skip ≤ r.write_at - r.read_at = omega (arith, excess-le r v) in
      let same : playable r n ≡ min n (r.write_at - r.read_at - skip) =
        ap (λ (k : ℕ). min n (k - skip)) level in
      let long : (i : ℕ) → i < (n - taken) * ch → length q ≤ skip * ch + (taken * ch + i) = λ i h.
        omega (
          arith,
          length-contents r,
          past_end (r.write_at - r.read_at) skip n ch i le
              (subst (λ (k : ℕ). i < (n - k) * ch) same h),
          ap (λ (k : ℕ). k * ch) same,
        ) in
      let whole : taken * ch + (n - taken) * ch ≡ n * ch =
        sym (add-mul taken (n - taken) ch) ∙ ap (λ (k : ℕ). k * ch) (omega arith) in
      ap₂ ◌++◌
        (fetched r skip taken v (omega (arith, excess-le r v))
          ∙ tabulate_ext (taken * ch) _ (λ i. get_or (drop (skip * ch) q) i silence)
              (λ i h. sym (get_or-drop (skip * ch) q i silence)))
        (replicate-tabulate ((n - taken) * ch) silence
          ∙ tabulate_ext ((n - taken) * ch) (λ _. silence)
              (λ i. get_or (drop (skip * ch) q) (taken * ch + i) silence)
              (λ i h. sym (
                get_or-drop (skip * ch) q (taken * ch + i) silence
                ∙ get_or_end q (skip * ch + (taken * ch + i)) silence (long i h))))
      ∙ sym (tabulate-add (taken * ch) ((n - taken) * ch) _)
      ∙ ap (λ k. padded k (drop (skip * ch) q)) whole

  played-IsValid : (r : Ring A) (n : ℕ) → IsValid r → IsValid (played silence r n)
  unfolding played finish_read
  played-IsValid r n v =
      let le = excess-le r v in
      let b = buffered_lem r v in
      record {
        some_channels = v.some_channels;
        some_frames = v.some_frames;
        int_capacity = v.int_capacity;
        whole = v.whole;
        ordered = omega (arith, v.no_wrap);
        no_wrap = omega (arith, v.no_wrap);
        bounded = omega (arith, v.bounded, v.no_wrap);
        half_full = v.half_full;
      }

  contents-played :
      (r : Ring A) (n : ℕ)
      → IsValid r
      → contents (played silence r n) ≡ drop ((excess r + playable r n) * r.channels) (contents r)
  unfolding played contents finish_read
  contents-played r n v =
      let ch = r.channels in
      let gone = excess r + playable r n in
      let f = λ (i : ℕ). get_or r.buffer ((r.read_at * ch + i) % size r) silence in
      let start : (r.read_at + excess r + playable r n) % u64 ≡ r.read_at + gone =
        omega (arith, v.no_wrap, excess-le r v, buffered_lem r v) in
      let left : (r.write_at - (r.read_at + gone)) * ch
          ≡ (r.write_at - r.read_at) * ch - gone * ch =
        ap (λ (k : ℕ). k * ch) (omega arith) ∙ sub-mul (r.write_at - r.read_at) gone ch in
      rw (start, left)
        (tabulate_ext ((r.write_at - r.read_at) * ch - gone * ch) _ (λ i. f (gone * ch + i))
            (λ i h. ap (λ (k : ℕ). get_or r.buffer (k % size r) silence) (omega arith))
          ∙ sym (drop-tabulate (gone * ch) ((r.write_at - r.read_at) * ch) f))

  played_priming :
      (r : Ring A) (n : ℕ) → r.priming ≡ false → (played silence r n).priming ≡ ltb (playable r n) n
  unfolding played finish_read
  played_priming r n running = simp running

  played_underruns :
      (r : Ring A) (n : ℕ)
      → (played silence r n).stats.underruns
        ≡ r.stats.underruns + (if ltb (playable r n) n then 1 else 0)
  unfolding played finish_read
  played_underruns r n = count_if (ltb (playable r n) n) r.stats.underruns

  read_running :
      (r : Ring A) (n : ℕ)
      → IsValid r
      → 0 < n
      → r.priming ≡ false
      → read silence r true (pos n) ≡ (played silence r n, playable r n, play silence r n)
  unfolding read
  read_running r n v asked running =
      let e : (n == 0) ≡ false = ground arith in
      let c : (r.channels == 0) ≡ false = ground (arith, v.some_channels) in
      let k : (r.capacity == 0) ≡ false = ground (arith, v.some_frames) in simp (e, c, k, running)

  excess-kept :
      (r : Ring A)
      → IsValid r
      → excess r ≡ r.write_at - r.read_at - level_kept r.target (r.write_at - r.read_at)
  excess-kept r v = ground (arith, buffered_lem r v)

  -- What a read plays of a ring, with `gone` frames thrown away first.
  abbrev Plays : Ring A → ℕ → ℕ → Ring A × ℕ × List A → Type 0
  Plays r n gone (r', taken, out) =
      (taken ≡ min n (r.write_at - r.read_at - gone))
      × (out ≡ padded (n * r.channels) (drop (gone * r.channels) (contents r)))
      × (contents r' ≡ drop ((gone + taken) * r.channels) (contents r))
      × (r'.priming ≡ ltb taken n)
      × (r'.stats.underruns ≡ r.stats.underruns + (if ltb taken n then 1 else 0))
      × (r'.stats.resyncs ≡ r.stats.resyncs + (if ltb 0 gone then 1 else 0))
      × IsValid r'

  played_resyncs :
      (r : Ring A) (n : ℕ)
      → (played silence r n).stats.resyncs ≡ r.stats.resyncs + (if ltb 0 (excess r) then 1 else 0)
  unfolding played finish_read
  played_resyncs r n = count_if (ltb 0 (excess r)) r.stats.resyncs

  read-Plays-excess :
      (r : Ring A) (n : ℕ)
      → IsValid r
      → 0 < n
      → r.priming ≡ false
      → Plays r n (excess r) (read silence r true (pos n))
  read-Plays-excess r n v asked running = rw (read_running r n v asked running) (
    ap (λ (level : ℕ). min n (level - excess r)) (buffered_lem r v),
    play-padded r n v,
    contents-played r n v,
    played_priming r n running,
    played_underruns r n,
    played_resyncs r n,
    played-IsValid r n v,
  )

  -- A read of at least one frame from a valid ring that is not priming: a level past twice a target that
  -- is not 0 is cut down to the target, which throws the oldest frames away and counts a resync;
  -- then as many real frames are played as were asked for and are there, in order, and silence after
  -- them; those frames are gone from the ring and no others; the ring goes back to priming, and counts
  -- an underrun, exactly when it had to play silence; and it stays valid.
  pub read_plays :
      (r : Ring A) (n : ℕ)
      → IsValid r
      → 0 < n
      → r.priming ≡ false
      → let level = r.write_at - r.read_at in
        let gone = level - level_kept r.target level in
        let (r', taken, out) = read silence r true (pos n) in
        (taken ≡ min n (level - gone))
        × (out ≡ padded (n * r.channels) (drop (gone * r.channels) (contents r)))
        × (contents r' ≡ drop ((gone + taken) * r.channels) (contents r))
        × (r'.priming ≡ ltb taken n)
        × (r'.stats.underruns ≡ r.stats.underruns + (if ltb taken n then 1 else 0))
        × (r'.stats.resyncs ≡ r.stats.resyncs + (if ltb 0 gone then 1 else 0))
        × IsValid r'
  read_plays r n v asked running =
      subst (λ (gone : ℕ). Plays r n gone (read silence r true (pos n))) (excess-kept r v)
        (read-Plays-excess r n v asked running)
