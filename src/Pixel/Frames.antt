-- ===== src/Pixel/Frames.antt =====
-- unpremultiply_bgra, composite_over_bgra and copy_bgra over a whole frame.
use weblinked.Base.{
  ℕ, zero, suc, ◌+◌, ◌-◌, ◌*◌, ◌≤◌, ◌<◌, ◌≡◌, refl, ◌∙◌, sym, subst, ap, ◌⊎◌, inl, arith,
  if◌then◌else◌, Bool,
}
use weblinked.Pixel.{
  Memory, Quad, quad_at, unpremultiply_bgra, composite_over_bgra, copy_rows, copy_bgra, copy_bytes,
}
use weblinked.Pixel.Paint.{painted_at, painted_outside, IsOutside, row_after}
use weblinked.Pixel.Alpha.{
  IsPremultiplied, Restores, unpremultiply_pixel-Restores, IsOver, over_pixel-IsOver,
}

abbrev pub pixel_of : Memory → ℕ → ℕ → ℕ → Quad
pixel_of m stride y x = quad_at m (y * stride + 4 * x)

-- Whatever the page drew with premultiplied alpha, every pixel of the result keeps its alpha, and
-- multiplying its colours by that alpha again, rounded, gives back the very bytes of the source;
-- nothing outside the rows of the destination changes.
pub unpremultiply_invertible :
    (src : Memory) (src_stride : ℕ) (dst : Memory) (dst_stride width height : ℕ)
    → ((y x : ℕ) → y < height → x < width → IsPremultiplied (pixel_of src src_stride y x))
    → 4 * width ≤ dst_stride
    → ((y x : ℕ)
        → y < height
        → x < width
        → Restores
            (pixel_of
              (unpremultiply_bgra src src_stride dst dst_stride width height)
              dst_stride
              y
              x)
            (pixel_of src src_stride y x))
      × ((a : ℕ)
          → IsOutside height (4 * width) dst_stride a
          → unpremultiply_bgra src src_stride dst dst_stride width height a ≡ dst a)
unfolding unpremultiply_bgra
unpremultiply_invertible src src_stride dst dst_stride width height pre fits = (
  λ y x hy hx.
      subst (λ q. Restores q (pixel_of src src_stride y x))
        (sym (painted_at height width dst_stride _ dst y x hy hx fits))
        (unpremultiply_pixel-Restores (pixel_of src src_stride y x) (pre y x hy hx)),
  λ a out. painted_outside height width dst_stride _ dst a out,
)

-- Over a background of bytes, every pixel of the result is opaque and each of its channels is the
-- exact mix of the premultiplied source and the background, rounded to within half a step; nothing
-- outside the rows of the destination changes.
pub composite_exact :
    (src : Memory) (src_stride : ℕ) (dst : Memory) (dst_stride width height blue green red : ℕ)
    → ((y x : ℕ) → y < height → x < width → IsPremultiplied (pixel_of src src_stride y x))
    → 4 * width ≤ dst_stride
    → blue ≤ 255
    → green ≤ 255
    → red ≤ 255
    → ((y x : ℕ)
        → y < height
        → x < width
        → IsOver
            (pixel_of
              (composite_over_bgra src src_stride dst dst_stride width height blue green red)
              dst_stride
              y
              x)
            (record { b0 = blue; b1 = green; b2 = red; b3 = 255 })
            (pixel_of src src_stride y x))
      × ((a : ℕ)
          → IsOutside height (4 * width) dst_stride a
          → composite_over_bgra src src_stride dst dst_stride width height blue green red a ≡ dst a)
unfolding composite_over_bgra
composite_exact src src_stride dst dst_stride width height blue green red pre fits hb hg hr =
    let back : Quad = record { b0 = blue; b1 = green; b2 = red; b3 = 255 } in
    (
      λ y x hy hx.
          subst (λ q. IsOver q back (pixel_of src src_stride y x))
            (sym (painted_at height width dst_stride _ dst y x hy hx fits))
            (over_pixel-IsOver back (pixel_of src src_stride y x) (pre y x hy hx) hb hg hr),
      λ a out. painted_outside height width dst_stride _ dst a out,
    )

-- One row that memcpy wrote.
copied_inside :
    (dst : Memory) (at : ℕ) (src : Memory) (from n x : ℕ)
    → x < n
    → copy_bytes dst at src from n (at + x) ≡ src (from + x)
copied_inside dst at src from n x h =
    let e : at + x - at ≡ x = omega arith in
    let kept : copy_bytes dst at src from n (at + x) ≡ src (from + (at + x - at)) = ground arith in
    kept ∙ ap (λ (k : ℕ). src (from + k)) e

copy_rows_outside :
    (left row_bytes stride : ℕ) (from : ℕ → ℕ) (src : Memory) (y : ℕ) (dst : Memory) (a : ℕ)
    → ((r : ℕ) → r < left → (a < (y + r) * stride) ⊎ ((y + r) * stride + row_bytes ≤ a))
    → copy_rows left row_bytes stride from src y dst a ≡ dst a
unfolding copy_rows
copy_rows_outside zero row_bytes stride from src y dst a h = refl
copy_rows_outside (suc left) row_bytes stride from src y dst a h =
    let e : y + 0 ≡ y = omega arith in
    let here =
      subst (λ (k : ℕ). (a < k * stride) ⊎ (k * stride + row_bytes ≤ a)) e (h 0 (omega arith)) in
    copy_rows_outside left row_bytes stride from src (y + 1)
      (copy_bytes dst (y * stride) src (from y) row_bytes) a
      (λ r below.
        let e : y + suc r ≡ y + 1 + r = omega arith in
        subst (λ (k : ℕ). (a < k * stride) ⊎ (k * stride + row_bytes ≤ a)) e
          (h (suc r) (omega arith)))
    ∙ ground arith

copy_rows_at :
    (left row_bytes stride : ℕ) (from : ℕ → ℕ) (src : Memory) (y : ℕ) (dst : Memory) (r x : ℕ)
    → r < left
    → x < row_bytes
    → row_bytes ≤ stride
    → copy_rows left row_bytes stride from src y dst ((y + r) * stride + x) ≡ src (from (y + r) + x)
unfolding copy_rows
copy_rows_at zero row_bytes stride from src y dst r x below inside fits = absurd (omega arith)
copy_rows_at (suc left) row_bytes stride from src y dst zero x below inside fits =
    let dst' = copy_bytes dst (y * stride) src (from y) row_bytes in
    let e : y + 0 ≡ y = omega arith in
    subst
      (λ (k : ℕ).
        copy_rows left row_bytes stride from src (y + 1) dst' (k * stride + x) ≡ src (from k + x))
      (sym e)
      (copy_rows_outside left row_bytes stride from src (y + 1) dst' (y * stride + x) (λ r h'.
          let e = row_after y r stride in
          let e' : suc y + r ≡ y + 1 + r = omega arith in
          inl (subst (λ (n : ℕ). y * stride + x < n * stride) e' (omega arith)))
        ∙ copied_inside dst (y * stride) src (from y) row_bytes x inside)
copy_rows_at (suc left) row_bytes stride from src y dst (suc r) x below inside fits =
    let dst' = copy_bytes dst (y * stride) src (from y) row_bytes in
    let e : y + suc r ≡ y + 1 + r = omega arith in
    subst
      (λ (k : ℕ).
        copy_rows left row_bytes stride from src (y + 1) dst' (k * stride + x) ≡ src (from k + x))
      (sym e)
      (copy_rows_at left row_bytes stride from src (y + 1) dst' r x (omega arith) inside fits)

-- The row that a row is copied from.
abbrev pub row_from : Bool → ℕ → ℕ → ℕ
row_from flip height y = if flip then height - 1 - y else y

-- When the rows fit the stride of the destination, a copy puts into row `y` the bytes of row `y`, or
-- with the flip of the row as far from the bottom; nothing outside the rows changes.
pub copy_turns :
    (src : Memory) (src_stride : ℕ) (dst : Memory) (dst_stride width height : ℕ) (flip : Bool)
    → width * 4 ≤ dst_stride
    → ((y x : ℕ)
        → y < height
        → x < width * 4
        → copy_bgra src src_stride dst dst_stride width height flip (y * dst_stride + x)
          ≡ src (row_from flip height y * src_stride + x))
      × ((a : ℕ)
          → IsOutside height (width * 4) dst_stride a
          → copy_bgra src src_stride dst dst_stride width height flip a ≡ dst a)
unfolding copy_bgra
copy_turns src src_stride dst dst_stride width height flip fits = (
  λ y x hy hx.
      let e : 0 + y ≡ y = omega arith in
      subst
        (λ (k : ℕ).
          copy_bgra src src_stride dst dst_stride width height flip (k * dst_stride + x)
          ≡ src (row_from flip height k * src_stride + x))
        e
        (copy_rows_at height (width * 4) dst_stride (λ y. row_from flip height y * src_stride) src 0
          dst y x hy hx fits),
  λ a out.
      copy_rows_outside height (width * 4) dst_stride (λ y. row_from flip height y * src_stride) src
        0 dst a
        (λ r h.
          let e : r ≡ 0 + r = omega arith in
          subst (λ (n : ℕ). (a < n * dst_stride) ⊎ (n * dst_stride + width * 4 ≤ a)) e (out r h)),
)
