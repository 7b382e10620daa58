-- ===== src/Pixel/Uyvy.antt =====
-- bgra_to_uyvy over a whole frame.
use weblinked.Base.{ℕ, ◌+◌, ◌*◌, ◌/◌, ◌≤◌, ◌<◌, ◌≡◌, ◌∙◌, sym, subst, ap}
use weblinked.Pixel.{Memory, Quad, quad_at, Matrix, coefficients, uyvy_pair, bgra_to_uyvy}
use weblinked.Pixel.Paint.{painted_at, painted_outside, IsOutside}
use weblinked.Pixel.Studio.{
  IsStudioPair, coefficients-IsMatrix, uyvy_pair-IsStudioPair, IsGrey, pair_neutral,
}

-- The pair of pixels in the source that a pair of columns is made of.
abbrev pub left_of : Memory → ℕ → ℕ → ℕ → Quad
left_of src src_stride y p = quad_at src (y * src_stride + 8 * p)

abbrev pub right_of : Memory → ℕ → ℕ → ℕ → Quad
right_of src src_stride y p = quad_at src (y * src_stride + 8 * p + 4)

pub converted :
    (src : Memory) (src_stride : ℕ) (dst : Memory) (dst_stride width height : ℕ) (matrix : Matrix)
    (y p : ℕ)
    → y < height
    → p < width / 2
    → 4 * (width / 2) ≤ dst_stride
    → quad_at
        (bgra_to_uyvy src src_stride dst dst_stride width height matrix)
        (y * dst_stride + 4 * p)
      ≡ uyvy_pair
          (coefficients matrix height)
          (left_of src src_stride y p)
          (right_of src src_stride y p)
unfolding bgra_to_uyvy
converted src src_stride dst dst_stride width height matrix y p hy hp fits =
    painted_at height (width / 2) dst_stride
      (λ y p.
        uyvy_pair (coefficients matrix height) (left_of src src_stride y p)
          (right_of src src_stride y p))
      dst y p hy hp fits

-- A conversion of a frame of bytes whose rows fit writes studio video in every pair of pixels: luma
-- from 16 to 235 and chroma from 16 to 240, with either matrix; and no byte outside the rows of
-- the destination changes.
pub uyvy_in_studio_range :
    (src : Memory) (src_stride : ℕ) (dst : Memory) (dst_stride width height : ℕ) (matrix : Matrix)
    → ((a : ℕ) → src a ≤ 255)
    → 4 * (width / 2) ≤ dst_stride
    → ((y p : ℕ)
        → y < height
        → p < width / 2
        → IsStudioPair (
            quad_at
              (bgra_to_uyvy src src_stride dst dst_stride width height matrix)
              (y * dst_stride + 4 * p)))
      × ((a : ℕ)
          → IsOutside height (4 * (width / 2)) dst_stride a
          → bgra_to_uyvy src src_stride dst dst_stride width height matrix a ≡ dst a)
unfolding bgra_to_uyvy
uyvy_in_studio_range src src_stride dst dst_stride width height matrix bytes fits = (
  λ y p hy hp.
      subst IsStudioPair
        (sym (converted src src_stride dst dst_stride width height matrix y p hy hp fits))
        (uyvy_pair-IsStudioPair (coefficients matrix height) (left_of src src_stride y p)
          (right_of src src_stride y p) (coefficients-IsMatrix matrix height)
          (bytes _, bytes _, bytes _) (bytes _, bytes _, bytes _)),
  λ a out. painted_outside height (width / 2) dst_stride _ dst a out,
)

-- Two neighbouring pixels of the same grey have no tint after the conversion: both chroma bytes
-- are 128, with either matrix.
pub grey_stays_grey :
    (src : Memory) (src_stride : ℕ) (dst : Memory) (dst_stride width height : ℕ) (matrix : Matrix)
    (y p v : ℕ)
    → y < height
    → p < width / 2
    → 4 * (width / 2) ≤ dst_stride
    → IsGrey (left_of src src_stride y p) v
    → IsGrey (right_of src src_stride y p) v
    → (bgra_to_uyvy src src_stride dst dst_stride width height matrix (y * dst_stride + 4 * p)
        ≡ 128)
      × (bgra_to_uyvy src src_stride dst dst_stride width height matrix (y * dst_stride + 4 * p + 2)
          ≡ 128)
grey_stays_grey src src_stride dst dst_stride width height matrix y p v hy hp fits gl gr =
    let e = converted src src_stride dst dst_stride width height matrix y p hy hp fits in
    let n =
      pair_neutral (coefficients matrix height) (left_of src src_stride y p)
        (right_of src src_stride y p) v (coefficients-IsMatrix matrix height) gl gr in
    (ap (λ (q : Quad). q.b0) e ∙ n.0, ap (λ (q : Quad). q.b2) e ∙ n.1)
