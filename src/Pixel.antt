-- ===== src/Pixel.antt =====
-- core/pixel_convert.cpp: what each conversion writes to its destination. Memory is a function from
-- address to byte, and the source and the destination are two memories, so they do not overlap.
-- Sizes and strides are natural numbers: with a negative one the loops do nothing.
pub mod Paint
pub mod Studio
pub mod Uyvy
pub mod Alpha
pub mod Frames
pub mod Scale
mod Tests
use weblinked.Base.{
  ℕ, zero, suc, ◌+◌, ◌-◌, ◌*◌, ◌/◌, ◌%◌, ◌^◌, min, Bool, ◌&&◌, ltb, leb, ◌==◌, if◌then◌else◌,
}
use weblinked.Base.Int.{ℤ, pos, negsuc, ◌+ℤ◌, ◌*ℤ◌}

abbrev pub Memory : Type 0
Memory = ℕ → ℕ

abbrev pub store : Memory → ℕ → ℕ → Memory
store m address byte x = if x == address then byte else m x

-- One pixel, or one pair of pixels, as its bytes in memory order.
pub record Quad : Type 0 where
  pub b0 : ℕ
  pub b1 : ℕ
  pub b2 : ℕ
  pub b3 : ℕ

abbrev pub put : Memory → ℕ → Quad → Memory
put m at q = store (store (store (store m at q.b0) (at + 1) q.b1) (at + 2) q.b2) (at + 3) q.b3

abbrev pub quad_at : Memory → ℕ → Quad
quad_at m at = record { b0 = m at; b1 = m (at + 1); b2 = m (at + 2); b3 = m (at + 3) }

-- The inner loop that every conversion has: quads from `at` on, for columns `x` and after.
unfoldable pub paint_row : ℕ → ℕ → (ℕ → Quad) → ℕ → Memory → Memory
paint_row zero at pixel x m = m
paint_row (suc left) at pixel x m = paint_row left (at + 4) pixel (x + 1) (put m at (pixel x))

-- The outer loop: `rows` rows of `columns` quads, for rows `y` and after.
unfoldable pub paint : ℕ → ℕ → ℕ → (ℕ → ℕ → Quad) → ℕ → Memory → Memory
paint zero columns stride pixel y m = m
paint (suc left) columns stride pixel y m =
    paint left columns stride pixel (y + 1) (paint_row columns (y * stride) (pixel y) 0 m)

pub record Coefficients : Type 0 where
  pub yr : ℤ
  pub yg : ℤ
  pub yb : ℤ
  pub y_offset : ℤ
  pub ur : ℤ
  pub ug : ℤ
  pub ub : ℤ
  pub vr : ℤ
  pub vg : ℤ
  pub vb : ℤ

abbrev pub bt601 : Coefficients
bt601 = record {
  yr = pos 16829;
  yg = pos 33039;
  yb = pos 6416;
  y_offset = pos 1048576;
  ur = negsuc 9713;
  ug = negsuc 19069;
  ub = pos 28784;
  vr = pos 28784;
  vg = negsuc 24102;
  vb = negsuc 4680;
}

abbrev pub bt709 : Coefficients
bt709 = record {
  yr = pos 11966;
  yg = pos 40254;
  yb = pos 4064;
  y_offset = pos 1048576;
  ur = negsuc 6595;
  ug = negsuc 22187;
  ub = pos 28784;
  vr = pos 28784;
  vg = negsuc 26144;
  vb = negsuc 2638;
}

-- `std::clamp(value, 0, 255)`
abbrev pub clamp_byte : ℤ → ℕ
clamp_byte (pos n) = min n 255
clamp_byte (negsuc n) = 0

-- `>> 16` of a signed number rounds down.
abbrev pub shift16 : ℤ → ℤ
shift16 (pos n) = pos (n / 65536)
shift16 (negsuc n) = negsuc (n / 65536)

unfoldable pub round16 : ℤ → ℤ
unfolding ◌+ℤ◌
round16 fixed = shift16 (fixed +ℤ pos 32768)

pub data Matrix : Type 0 where
  bt601_only bt709_only by_height : Matrix

unfoldable pub resolve_matrix : Matrix → ℕ → Matrix
resolve_matrix bt601_only height = bt601_only
resolve_matrix bt709_only height = bt709_only
resolve_matrix by_height height = if leb 720 height then bt709_only else bt601_only

unfoldable pub coefficients : Matrix → ℕ → Coefficients
unfolding resolve_matrix
coefficients matrix height = elim (resolve_matrix matrix height) [ bt709_only ↦ bt709 | _ ↦ bt601 ]

module _ (c : Coefficients) where
  unfoldable pub luma : ℕ → ℕ → ℕ → ℤ
  unfolding round16 ◌+ℤ◌ ◌*ℤ◌
  luma r g b = round16 (c.yr *ℤ pos r +ℤ c.yg *ℤ pos g +ℤ c.yb *ℤ pos b +ℤ c.y_offset)

  unfoldable pub chroma_blue : ℕ → ℕ → ℕ → ℤ
  unfolding round16 ◌+ℤ◌ ◌*ℤ◌
  chroma_blue r g b = round16 (c.ur *ℤ pos r +ℤ c.ug *ℤ pos g +ℤ c.ub *ℤ pos b) +ℤ pos 128

  unfoldable pub chroma_red : ℕ → ℕ → ℕ → ℤ
  unfolding round16 ◌+ℤ◌ ◌*ℤ◌
  chroma_red r g b = round16 (c.vr *ℤ pos r +ℤ c.vg *ℤ pos g +ℤ c.vb *ℤ pos b) +ℤ pos 128

  -- Two pixels to U, Y0, V, Y1: the chroma is of their rounded average.
  unfoldable pub uyvy_pair : Quad → Quad → Quad
  uyvy_pair p q =
      let r = (p.b2 + q.b2 + 1) / 2 in
      let g = (p.b1 + q.b1 + 1) / 2 in
      let b = (p.b0 + q.b0 + 1) / 2 in
      record {
        b0 = clamp_byte (chroma_blue r g b);
        b1 = clamp_byte (luma p.b2 p.b1 p.b0);
        b2 = clamp_byte (chroma_red r g b);
        b3 = clamp_byte (luma q.b2 q.b1 q.b0);
      }

unfoldable pub bgra_to_uyvy : Memory → ℕ → Memory → ℕ → ℕ → ℕ → Matrix → Memory
bgra_to_uyvy src src_stride dst dst_stride width height matrix =
    paint height (width / 2) dst_stride
      (λ y p.
        uyvy_pair (coefficients matrix height) (quad_at src (y * src_stride + 8 * p))
          (quad_at src (y * src_stride + 8 * p + 4)))
      0 dst

-- `memcpy(dst + at, src + from, n)`
abbrev pub copy_bytes : Memory → ℕ → Memory → ℕ → ℕ → Memory
copy_bytes dst at src from n x = if leb at x && ltb x (at + n) then src (from + (x - at)) else dst x

unfoldable pub copy_rows : ℕ → ℕ → ℕ → (ℕ → ℕ) → Memory → ℕ → Memory → Memory
copy_rows zero row_bytes dst_stride from src y dst = dst
copy_rows (suc left) row_bytes dst_stride from src y dst =
    copy_rows left row_bytes dst_stride from src (y + 1)
      (copy_bytes dst (y * dst_stride) src (from y) row_bytes)

unfoldable pub copy_bgra : Memory → ℕ → Memory → ℕ → ℕ → ℕ → Bool → Memory
unfolding copy_rows
copy_bgra src src_stride dst dst_stride width height flip =
    copy_rows height (width * 4) dst_stride (λ y. (if flip then height - 1 - y else y) * src_stride)
      src 0 dst

abbrev pub u32 : ℕ
u32 = 2 ^ 32

-- The entry of the reciprocal table for an alpha.
abbrev pub reciprocal : ℕ → ℕ
reciprocal a = if a == 0 then 0 else (255 * 65536 + a / 2) / a

unfoldable pub unpremultiply_channel : ℕ → ℕ → ℕ
unpremultiply_channel value alpha = min ((value * reciprocal alpha + 32768) % u32 / 65536) 255

unfoldable pub unpremultiply_pixel : Quad → Quad
unpremultiply_pixel p =
    if p.b3 == 255
    then p
    else if p.b3 == 0
    then record { b0 = 0; b1 = 0; b2 = 0; b3 = p.b3 }
    else record {
      b0 = unpremultiply_channel p.b0 p.b3;
      b1 = unpremultiply_channel p.b1 p.b3;
      b2 = unpremultiply_channel p.b2 p.b3;
      b3 = p.b3;
    }

unfoldable pub unpremultiply_bgra : Memory → ℕ → Memory → ℕ → ℕ → ℕ → Memory
unpremultiply_bgra src src_stride dst dst_stride width height =
    paint height width dst_stride
      (λ y x. unpremultiply_pixel (quad_at src (y * src_stride + 4 * x))) 0 dst

unfoldable pub over_channel : ℕ → ℕ → ℕ → ℕ
over_channel value background alpha =
    min ((value + (background * (255 - alpha) + 127) / 255) % u32) 255

unfoldable pub over_pixel : Quad → Quad → Quad
over_pixel back p =
    if p.b3 == 255
    then record { b0 = p.b0; b1 = p.b1; b2 = p.b2; b3 = 255 }
    else if p.b3 == 0
    then record { b0 = back.b0; b1 = back.b1; b2 = back.b2; b3 = 255 }
    else record {
      b0 = over_channel p.b0 back.b0 p.b3;
      b1 = over_channel p.b1 back.b1 p.b3;
      b2 = over_channel p.b2 back.b2 p.b3;
      b3 = 255;
    }

unfoldable pub composite_over_bgra : Memory → ℕ → Memory → ℕ → ℕ → ℕ → ℕ → ℕ → ℕ → Memory
composite_over_bgra src src_stride dst dst_stride width height blue green red =
    paint height width dst_stride
      (λ y x.
        over_pixel (record { b0 = blue; b1 = green; b2 = red; b3 = 255 })
          (quad_at src (y * src_stride + 4 * x)))
      0 dst

unfoldable pub fill_black_bgra : Memory → ℕ → ℕ → ℕ → Memory
fill_black_bgra dst stride width height =
    paint height width stride (λ y x. record { b0 = 0; b1 = 0; b2 = 0; b3 = 255 }) 0 dst

-- The column steps by two, so an odd width has a last quad too.
unfoldable pub fill_black_uyvy : Memory → ℕ → ℕ → ℕ → Memory
fill_black_uyvy dst stride width height =
    paint height ((width + 1) / 2) stride (λ y x. record { b0 = 128; b1 = 16; b2 = 128; b3 = 16 }) 0
      dst

-- The sum of `n` values from `i` on.
unfoldable pub sum_from : ℕ → (ℕ → ℕ) → ℕ → ℕ
sum_from zero f i = 0
sum_from (suc n) f i = f i + sum_from n f (i + 1)

-- The mean of one channel over a block of `factor` by `factor` pixels.
unfoldable pub block_mean : Memory → ℕ → ℕ → ℕ → ℕ → ℕ → ℕ
unfolding sum_from
block_mean src src_stride factor y x channel =
    sum_from factor
      (λ sy.
        sum_from factor
          (λ sx. src ((y * factor + sy) * src_stride + x * factor * 4 + 4 * sx + channel)) 0)
      0
    / (factor * factor)
    % 256

unfoldable pub downscale_bgra : Memory → ℕ → ℕ → ℕ → Memory → ℕ → ℕ → Memory
unfolding block_mean
downscale_bgra src src_stride src_width src_height dst dst_stride factor' =
    let factor = if ltb factor' 1 then 1 else factor' in
    paint (src_height / factor) (src_width / factor) dst_stride
      (λ y x. record {
        b0 = block_mean src src_stride factor y x 0;
        b1 = block_mean src src_stride factor y x 1;
        b2 = block_mean src src_stride factor y x 2;
        b3 = 255;
      })
      0 dst
