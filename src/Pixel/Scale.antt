-- ===== src/Pixel/Scale.antt =====
-- downscale_bgra: the mean of a block.
use weblinked.Base.{
  ℕ, zero, suc, ◌+◌, ◌*◌, ◌/◌, ◌%◌, ◌≤◌, ◌<◌, ◌≡◌, refl, sym, subst, ap, arith, ltb, if◌then◌else◌,
}
use native.Mathlib.Nat.{mul-le-mul, le-div_iff_mul-le, div-le_of_le-mul}
use weblinked.Pixel.{Memory, Quad, quad_at, sum_from, paint, block_mean, downscale_bgra}
use weblinked.Pixel.Paint.{painted_at, painted_outside, IsOutside}

-- A sum of `n` values lies between `n` times the bounds of the values.
sum_from_between :
    (n : ℕ) (f : ℕ → ℕ) (lo hi i : ℕ)
    → ((j : ℕ) → i ≤ j → j < i + n → (lo ≤ f j) × (f j ≤ hi))
    → (n * lo ≤ sum_from n f i) × (sum_from n f i ≤ n * hi)
unfolding sum_from
sum_from_between zero f lo hi i h = (omega arith, omega arith)
sum_from_between (suc n) f lo hi i h =
    let first = h i (omega arith) (omega arith) in
    let rest = sum_from_between n f lo hi (i + 1) (λ j a b. h j (omega arith) (omega arith)) in
    let e : suc n * lo ≡ lo + n * lo = grind arith in
    let e' : suc n * hi ≡ hi + n * hi = grind arith in (omega arith, omega arith)

mean_between :
    (total samples lo hi : ℕ)
    → 0 < samples
    → hi ≤ 255
    → lo * samples ≤ total
    → total ≤ samples * hi
    → (lo ≤ total / samples % 256) × (total / samples % 256 ≤ hi)
mean_between total samples lo hi some_left byte low high =
    let lower = (le-div_iff_mul-le {x = lo} {y = total} some_left).1 low in
    let upper : total / samples ≤ hi = div-le_of_le-mul samples high in (omega arith, omega arith)

-- The bytes of one channel in the block that makes a pixel.
abbrev pub in_block : Memory → ℕ → ℕ → ℕ → ℕ → ℕ → ℕ → ℕ → ℕ
in_block src src_stride factor y x channel sy sx =
    src ((y * factor + sy) * src_stride + x * factor * 4 + 4 * sx + channel)

square_pos : (n : ℕ) → 0 < n → 0 < n * n
square_pos n h = mul-le-mul h h

-- Every colour lies between the bounds, and the pixel is opaque.
abbrev pub IsWithin : ℕ → ℕ → Quad → Type 0
IsWithin lo hi q =
    ((lo ≤ q.b0) × (q.b0 ≤ hi))
    × ((lo ≤ q.b1) × (q.b1 ≤ hi))
    × ((lo ≤ q.b2) × (q.b2 ≤ hi))
    × (q.b3 ≡ 255)

-- Every colour in the block that makes a pixel lies between the bounds.
abbrev pub IsBlockWithin : Memory → ℕ → ℕ → ℕ → ℕ → ℕ → ℕ → Type 0
IsBlockWithin src src_stride factor y x lo hi =
    (channel sy sx : ℕ)
    → channel < 3
    → sy < factor
    → sx < factor
    → (lo ≤ in_block src src_stride factor y x channel sy sx)
      × (in_block src src_stride factor y x channel sy sx ≤ hi)

pub block_mean_between :
    (src : Memory) (src_stride factor y x channel lo hi : ℕ)
    → 0 < factor
    → hi ≤ 255
    → ((sy sx : ℕ)
        → sy < factor
        → sx < factor
        → (lo ≤ in_block src src_stride factor y x channel sy sx)
          × (in_block src src_stride factor y x channel sy sx ≤ hi))
    → (lo ≤ block_mean src src_stride factor y x channel)
      × (block_mean src src_stride factor y x channel ≤ hi)
unfolding block_mean
block_mean_between src src_stride factor y x channel lo hi some_left byte h =
    let row : ℕ → ℕ = λ sy. sum_from factor (in_block src src_stride factor y x channel sy) 0 in
    let rows : (sy : ℕ) → sy < factor → (factor * lo ≤ row sy) × (row sy ≤ factor * hi) =
      λ sy below.
        sum_from_between factor (in_block src src_stride factor y x channel sy) lo hi 0
          (λ sx a b. h sy sx below (omega arith)) in
    let all =
      sum_from_between factor row (factor * lo) (factor * hi) 0 (λ sy a b. rows sy (omega arith)) in
    let e : lo * (factor * factor) ≡ factor * (factor * lo) = grind arith in
    let e' : factor * factor * hi ≡ factor * (factor * hi) = grind arith in
    mean_between (sum_from factor row 0) (factor * factor) lo hi (square_pos factor some_left) byte
      (omega arith) (omega arith)

abbrev mean_of : Memory → ℕ → ℕ → ℕ → ℕ → Quad
mean_of src src_stride factor y x = record {
  b0 = block_mean src src_stride factor y x 0;
  b1 = block_mean src src_stride factor y x 1;
  b2 = block_mean src src_stride factor y x 2;
  b3 = 255;
}

downscaled :
    (src : Memory) (src_stride src_width src_height : ℕ) (dst : Memory) (dst_stride factor : ℕ)
    → 0 < factor
    → downscale_bgra src src_stride src_width src_height dst dst_stride factor
      ≡ paint
          (src_height / factor)
          (src_width / factor)
          dst_stride
          (mean_of src src_stride factor)
          0
          dst
unfolding downscale_bgra
downscaled src src_stride src_width src_height dst dst_stride factor some_left =
    let e : (if ltb factor 1 then 1 else factor) ≡ factor = ground arith in
    ap
      (λ (f : ℕ).
        paint (src_height / f) (src_width / f) dst_stride (mean_of src src_stride f) 0 dst)
      e

-- A downscale by a factor of at least one makes every pixel of the smaller picture opaque, with its
-- colours between any bounds that hold for the block of the source it stands for; nothing outside
-- its rows changes.
pub downscale_between :
    (src : Memory) (src_stride src_width src_height : ℕ) (dst : Memory) (dst_stride factor : ℕ)
    → 0 < factor
    → 4 * (src_width / factor) ≤ dst_stride
    → ((y x lo hi : ℕ)
        → y < src_height / factor
        → x < src_width / factor
        → hi ≤ 255
        → IsBlockWithin src src_stride factor y x lo hi
        → IsWithin lo hi (
            quad_at
              (downscale_bgra src src_stride src_width src_height dst dst_stride factor)
              (y * dst_stride + 4 * x)))
      × ((a : ℕ)
          → IsOutside (src_height / factor) (4 * (src_width / factor)) dst_stride a
          → downscale_bgra src src_stride src_width src_height dst dst_stride factor a ≡ dst a)
downscale_between src src_stride src_width src_height dst dst_stride factor some_left fits =
    let e = downscaled src src_stride src_width src_height dst dst_stride factor some_left in
    subst
      (λ (m : Memory).
        ((y x lo hi : ℕ)
          → y < src_height / factor
          → x < src_width / factor
          → hi ≤ 255
          → IsBlockWithin src src_stride factor y x lo hi
          → IsWithin lo hi (quad_at m (y * dst_stride + 4 * x)))
        × ((a : ℕ)
            → IsOutside (src_height / factor) (4 * (src_width / factor)) dst_stride a
            → m a ≡ dst a))
      (sym e)
      (
        λ y x lo hi hy hx byte h.
            subst (IsWithin lo hi)
              (sym (
                painted_at (src_height / factor) (src_width / factor) dst_stride
                  (mean_of src src_stride factor) dst y x hy hx fits))
              (
                block_mean_between src src_stride factor y x 0 lo hi some_left byte
                    (λ sy sx. h 0 sy sx (omega arith)),
                block_mean_between src src_stride factor y x 1 lo hi some_left byte
                    (λ sy sx. h 1 sy sx (omega arith)),
                block_mean_between src src_stride factor y x 2 lo hi some_left byte
                    (λ sy sx. h 2 sy sx (omega arith)),
                refl,
              ),
        λ a out.
            painted_outside (src_height / factor) (src_width / factor) dst_stride
              (mean_of src src_stride factor) dst a out,
      )
