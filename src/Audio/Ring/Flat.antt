-- ===== src/Audio/Ring/Flat.antt =====
-- The interleaved buffer as one ring of samples: frame positions times channels.
use weblinked.Base.{
  ℕ, ◌+◌, ◌-◌, ◌*◌, ◌/◌, ◌%◌, ◌≤◌, ◌<◌, min, List, ◌++◌, ltb, if◌then◌else◌, length, get_or, memcpy,
  tabulate, ◌≡◌, sym, ap, ap₂, ◌∙◌, arith, mod_once, get_or-memcpy, length-memcpy, tabulate_ext,
  tabulate-add, dec_lt, before_chunk, after_chunk,
}
use native.Mathlib.Nat.{
  mod-eq_of_lt, mul-le-mul_right, mul-lt-mul_of_pos_right, div-add-mod, add-mul-mod_self_left,
  mod-lt,
}
use weblinked.Audio.Ring.{copy_wrapped, fetch_wrapped}

-- Frame `i` of a ring of `capacity` frames starts at sample `i * channels` of a ring of
-- `capacity * channels` samples.
pub flat_offset :
    (i capacity channels : ℕ)
    → 0 < capacity
    → 0 < channels
    → i % capacity * channels ≡ i * channels % (capacity * channels)
flat_offset i capacity channels some_frames some_channels =
    let size = capacity * channels in
    let split : i * channels ≡ i % capacity * channels + size * (i / capacity) =
      omega (arith, ap (λ (k : ℕ). k * channels) (div-add-mod i capacity)) in
    let inside : i % capacity * channels < size =
      mul-lt-mul_of_pos_right (mod-lt i some_frames) some_channels in
    sym (
      ap (λ (k : ℕ). k % size) split
      ∙ add-mul-mod_self_left (i % capacity * channels) size (i / capacity)
      ∙ mod-eq_of_lt inside)

fst_le : (a b : ℕ) → a ≤ b → min a b ≡ a
fst_le a b h = omega arith

snd_le : (a b : ℕ) → b ≤ a → min a b ≡ b
snd_le a b h = omega arith

pub sub-mul : (a b c : ℕ) → (a - b) * c ≡ a * c - b * c
sub-mul a b c = elim (dec_lt a b) [
  | yes p ↦
      let e : a - b ≡ 0 = omega arith in
      omega (arith, ap (λ (k : ℕ). k * c) e, mul-le-mul_right {m = a} {n = b} c (omega arith))
  | no p ↦ let e : b + (a - b) ≡ a = omega arith in omega (arith, ap (λ (k : ℕ). k * c) e)
]

pub flat_first :
    (taken capacity offset channels : ℕ)
    → min taken (capacity - offset) * channels
      ≡ min (taken * channels) (capacity * channels - offset * channels)
flat_first taken capacity offset channels =
    let scale : (capacity - offset) * channels ≡ capacity * channels - offset * channels =
      sub-mul capacity offset channels in
    elim (dec_lt taken (capacity - offset)) [
      | yes p ↦ omega (
        arith,
        scale,
        mul-le-mul_right {m = taken} {n = capacity - offset} channels (omega arith),
        ap (λ (k : ℕ). k * channels) (fst_le taken (capacity - offset) (omega arith)),
      )
      | no p ↦ omega (
        arith,
        scale,
        mul-le-mul_right {m = capacity - offset} {n = taken} channels (omega arith),
        ap (λ (k : ℕ). k * channels) (snd_le taken (capacity - offset) (omega arith)),
      )
    ]

module _ {A : Type 0} where
  pub copy_wrapped_round :
      (size : ℕ) (buffer : List A) (at total j : ℕ) (source : ℕ → A) (d : A)
      → length buffer ≡ size
      → at < size
      → total ≤ size
      → j < size
      → get_or (copy_wrapped buffer at (min total (size - at)) total source) ((at + j) % size) d
        ≡ (if ltb j total then source j else get_or buffer ((at + j) % size) d)
  unfolding copy_wrapped
  copy_wrapped_round size buffer at total j source d whole inside small round =
      let first = min total (size - at) in
      let head = memcpy buffer at first source in
      ground (
        arith,
        mod_once (at + j) size,
        get_or-memcpy buffer at first ((at + j) % size) source d,
        get_or-memcpy head 0 (total - first) ((at + j) % size) (λ i. source (first + i)) d,
        length-memcpy buffer at first source,
      )

  pub length-copy_wrapped :
      (buffer : List A) (at first total : ℕ) (source : ℕ → A)
      → length (copy_wrapped buffer at first total source) ≡ length buffer
  unfolding copy_wrapped
  length-copy_wrapped buffer at first total source = ground (
    arith,
    length-memcpy buffer at first source,
    length-memcpy (memcpy buffer at first source) 0 (total - first) (λ i. source (first + i)),
  )

  -- After the packet of `total` samples is written behind the `kept` unplayed ones from `start` on, the
  -- samples from `start` are the unplayed ones followed by the packet.
  pub flat_cell :
      (size : ℕ) (buffer : List A) (start kept total at t : ℕ) (source : ℕ → A) (d : A)
      → length buffer ≡ size
      → 0 < size
      → at ≡ (start + kept) % size
      → kept + total ≤ size
      → t < kept + total
      → get_or (copy_wrapped buffer at (min total (size - at)) total source) ((start + t) % size) d
        ≡ (if ltb t kept then get_or buffer ((start + t) % size) d else source (t - kept))
  flat_cell size buffer start kept total at t source d whole some_size place room inside =
      let in_ring : at < size = rw place (mod-lt (start + kept) some_size) in
      let cell =
        λ (j : ℕ). copy_wrapped_round size buffer at total j source d whole in_ring (omega arith) in
      elim (dec_lt t kept) [
        | yes p ↦ ground (
          arith,
          cell (t + size - kept) (omega arith),
          before_chunk size start kept t p (omega arith),
        )
        | no p ↦
            ground
              (arith, cell (t - kept) (omega arith), after_chunk size start kept t (omega arith))
      ]

module _ {A : Type 0} (silence : A) where
  -- The two pieces that are fetched are the samples from `at` on, round the ring.
  pub fetch_wrapped_round :
      (size : ℕ) (buffer : List A) (at total : ℕ)
      → at < size
      → total ≤ size
      → fetch_wrapped silence buffer at (min total (size - at)) total
        ≡ tabulate total (λ i. get_or buffer ((at + i) % size) silence)
  unfolding fetch_wrapped
  fetch_wrapped_round size buffer at total inside small =
      let first = min total (size - at) in
      let f = λ (i : ℕ). get_or buffer ((at + i) % size) silence in
      ap₂ ◌++◌
        (tabulate_ext first _ f
          (λ i h. ap (λ (k : ℕ). get_or buffer k silence) (sym (mod-eq_of_lt (omega arith)))))
        (tabulate_ext (total - first) _ (λ i. f (first + i))
          (λ i h.
            ap (λ (k : ℕ). get_or buffer k silence)
              (ground (arith, mod_once (at + (first + i)) size))))
      ∙ sym (tabulate-add first (total - first) f)
      ∙ ap (λ (k : ℕ). tabulate k f) (omega arith)
