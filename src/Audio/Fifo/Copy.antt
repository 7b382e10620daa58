-- ===== src/Audio/Fifo/Copy.antt =====
-- The chunk loops of the FIFO: whatever the chunks, a copy is sample by sample round the ring.
use weblinked.Base.{
  ℕ, zero, suc, ◌+◌, ◌-◌, ◌%◌, ◌≤◌, ◌<◌, min, List, ◌++◌, ltb, ◌==◌, if◌then◌else◌, length, get_or,
  memcpy, tabulate, ◌≡◌, refl, sym, ap, ap₂, ◌∙◌, arith, mod_once, get_or-memcpy, length-memcpy,
  before_chunk, after_chunk, tabulate_ext, tabulate-add, dec_lt, Bool-cases, inl, inr,
}
use native.Mathlib.Nat.{mod-add-mod, mod-eq_of_lt}
use weblinked.Audio.Fifo.{copy_in, copy_out}

module _ {A : Type 0} where
  -- One chunk from `at` on.
  memcpy_round :
      (capacity : ℕ) (plane : List A) (at chunk j : ℕ) (source : ℕ → A) (d : A)
      → length plane ≡ capacity
      → at < capacity
      → chunk ≤ capacity - at
      → j < capacity
      → get_or (memcpy plane at chunk source) ((at + j) % capacity) d
        ≡ (if ltb j chunk then source j else get_or plane ((at + j) % capacity) d)
  memcpy_round capacity plane at chunk j source d size inside fits round = ground (
    arith,
    get_or-memcpy plane at chunk ((at + j) % capacity) source d,
    mod_once (at + j) capacity,
  )

  pub length-copy_in :
      (fuel capacity : ℕ) (plane : List A) (at remaining : ℕ) (source : ℕ → A)
      → length (copy_in fuel capacity plane at remaining source) ≡ length plane
  unfolding copy_in
  length-copy_in zero capacity plane at remaining source = refl
  length-copy_in (suc fuel) capacity plane at remaining source =
      let chunk = min remaining (capacity - at) in
      ground (
        arith,
        length-copy_in fuel capacity (memcpy plane at chunk source) ((at + chunk) % capacity)
            (remaining - chunk) (λ i. source (chunk + i)),
        length-memcpy plane at chunk source,
      )

  -- The whole loop.
  pub copy_in_round :
      (fuel capacity : ℕ) (plane : List A) (at remaining j : ℕ) (source : ℕ → A) (d : A)
      → length plane ≡ capacity
      → at < capacity
      → remaining ≤ capacity
      → remaining ≤ fuel
      → j < capacity
      → get_or (copy_in fuel capacity plane at remaining source) ((at + j) % capacity) d
        ≡ (if ltb j remaining then source j else get_or plane ((at + j) % capacity) d)
  unfolding copy_in
  copy_in_round zero capacity plane at remaining j source d size inside small enough round =
      ground arith
  copy_in_round (suc fuel) capacity plane at remaining j source d size inside small enough round =
      let chunk = min remaining (capacity - at) in
      let plane' = memcpy plane at chunk source in
      let rest = λ (k : ℕ).
        copy_in_round fuel capacity plane' ((at + chunk) % capacity) (remaining - chunk) k
          (λ i. source (chunk + i)) d in
      let once = memcpy_round capacity plane at chunk j source d size inside (omega arith) round in
      elim (dec_lt j chunk) [
        | yes p ↦ ground (
          arith,
          once,
          rest (j + capacity - chunk),
          before_chunk capacity at chunk j p (omega arith),
          length-memcpy plane at chunk source,
        )
        | no p ↦ ground (
          arith,
          once,
          rest (j - chunk),
          after_chunk capacity at chunk j (omega arith),
          length-memcpy plane at chunk source,
        )
      ]

module _ {A : Type 0} (silence : A) where
  -- The first `chunk` samples stand in a row, the rest come after the turn.
  chunked :
      (capacity : ℕ) (plane : List A) (at remaining chunk : ℕ) (rest : List A)
      → chunk ≤ remaining
      → at + chunk ≤ capacity
      → rest
        ≡ tabulate
            (remaining - chunk)
            (λ i. get_or plane (((at + chunk) % capacity + i) % capacity) silence)
      → tabulate chunk (λ i. get_or plane (at + i) silence) ++ rest
        ≡ tabulate remaining (λ i. get_or plane ((at + i) % capacity) silence)
  chunked capacity plane at remaining chunk rest part row e =
      let f = λ (i : ℕ). get_or plane ((at + i) % capacity) silence in
      ap₂ ◌++◌
        (tabulate_ext chunk (λ i. get_or plane (at + i) silence) f
          (λ i h. ap (λ (k : ℕ). get_or plane k silence) (sym (mod-eq_of_lt (omega arith)))))
        (e
          ∙ tabulate_ext (remaining - chunk) _ (λ i. f (chunk + i))
              (λ i h.
                ap (λ (k : ℕ). get_or plane k silence)
                  (mod-add-mod (at + chunk) capacity i
                    ∙ ap (λ (k : ℕ). k % capacity) (omega arith))))
      ∙ sym (tabulate-add chunk (remaining - chunk) f)
      ∙ ap (λ (k : ℕ). tabulate k f) (omega arith)

  -- The samples that come out are those from `at` on, round the ring.
  pub copy_out_round :
      (fuel capacity : ℕ) (plane : List A) (at remaining : ℕ)
      → at < capacity
      → remaining ≤ fuel
      → copy_out silence fuel capacity plane at remaining
        ≡ tabulate remaining (λ i. get_or plane ((at + i) % capacity) silence)
  unfolding copy_out tabulate
  copy_out_round zero capacity plane at remaining inside enough =
      let e : remaining ≡ 0 = omega arith in rw e refl
  copy_out_round (suc fuel) capacity plane at remaining inside enough =
      elim (Bool-cases (remaining == 0)) [
        | inl e ↦ let z : remaining ≡ 0 = ground arith in rw z refl
        | inr e ↦
            let chunk = min remaining (capacity - at) in
            rw e (
              chunked capacity plane at remaining chunk _ (omega arith) (omega arith) (
                copy_out_round fuel capacity plane ((at + chunk) % capacity) (remaining - chunk)
                  (omega arith) (ground arith)))
      ]
