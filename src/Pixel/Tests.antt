-- ===== src/Pixel/Tests.antt =====
-- The pixel conversions on concrete frames.
use weblinked.Base.{ℕ, ◌+◌, ◌*◌, ◌/◌, ◌%◌, ◌≤◌, ◌<◌, ◌≡◌, refl, arith}
use weblinked.Pixel.{
  Memory, paint, paint_row, uyvy_pair, luma, coefficients, unpremultiply_channel, quad_at,
  bt709_only, by_height, bgra_to_uyvy, unpremultiply_pixel, unpremultiply_bgra, composite_over_bgra,
  fill_black_bgra, fill_black_uyvy, downscale_bgra,
}
use weblinked.Pixel.Paint.{IsOutside}
use weblinked.Pixel.Studio.{IsStudioPair}
use weblinked.Pixel.Uyvy.{uyvy_in_studio_range, grey_stays_grey}
use weblinked.Pixel.Alpha.{IsPremultiplied, Restores, IsOver}
use weblinked.Pixel.Frames.{pixel_of, unpremultiply_invertible, composite_exact}
use weblinked.Pixel.Scale.{IsBlockWithin, IsWithin, downscale_between}

abbrev pattern : Memory
pattern a = a * 37 % 256

abbrev blank : Memory
blank a = 7

abbrev flat : Memory
flat a = 128

-- A soft edge of a page: half transparent, in colours that its alpha allows.
abbrev soft_edge : Memory
soft_edge a = 60 + 20 * (a % 4)

white_is_235 : bgra_to_uyvy (λ a. 255) 8 blank 4 2 1 by_height 1 ≡ 235
unfolding bgra_to_uyvy paint paint_row uyvy_pair luma coefficients
white_is_235 = refl

green_bar :
    unpremultiply_pixel (record { b0 = 0; b1 = 64; b2 = 0; b3 = 128 })
    ≡ record { b0 = 0; b1 = 128; b2 = 0; b3 = 128 }
unfolding unpremultiply_pixel unpremultiply_channel
green_bar = refl

odd_width_has_a_last_pair : fill_black_uyvy blank 8 3 1 4 ≡ 128
unfolding fill_black_uyvy paint paint_row
odd_width_has_a_last_pair = refl

black_is_opaque : fill_black_bgra blank 4 1 1 3 ≡ 255
unfolding fill_black_bgra paint paint_row
black_is_opaque = refl

uyvy_in_studio_range_example :
    ((y p : ℕ)
      → y < 2
      → p < 4 / 2
      → IsStudioPair (quad_at (bgra_to_uyvy pattern 16 blank 8 4 2 by_height) (y * 8 + 4 * p)))
    × ((a : ℕ)
        → IsOutside 2 (4 * (4 / 2)) 8 a
        → bgra_to_uyvy pattern 16 blank 8 4 2 by_height a ≡ blank a)
uyvy_in_studio_range_example =
    uyvy_in_studio_range pattern 16 blank 8 4 2 by_height (λ a. omega arith) (omega arith)

grey_stays_grey_example :
    (bgra_to_uyvy flat 16 blank 8 4 2 bt709_only (1 * 8 + 4 * 1) ≡ 128)
    × (bgra_to_uyvy flat 16 blank 8 4 2 bt709_only (1 * 8 + 4 * 1 + 2) ≡ 128)
grey_stays_grey_example =
    grey_stays_grey flat 16 blank 8 4 2 bt709_only 1 1 128 (omega arith) (omega arith) (omega arith)
      (refl, refl, refl) (refl, refl, refl)

soft_edge-IsPremultiplied : (y x : ℕ) → y < 2 → x < 3 → IsPremultiplied (pixel_of soft_edge 12 y x)
soft_edge-IsPremultiplied y x hy hx = omega arith

unpremultiply_invertible_example :
    ((y x : ℕ)
      → y < 2
      → x < 3
      → Restores
          (pixel_of (unpremultiply_bgra soft_edge 12 blank 12 3 2) 12 y x)
          (pixel_of soft_edge 12 y x))
    × ((a : ℕ)
        → IsOutside 2 (4 * 3) 12 a
        → unpremultiply_bgra soft_edge 12 blank 12 3 2 a ≡ blank a)
unpremultiply_invertible_example =
    unpremultiply_invertible soft_edge 12 blank 12 3 2 soft_edge-IsPremultiplied (omega arith)

composite_exact_example :
    ((y x : ℕ)
      → y < 2
      → x < 3
      → IsOver
          (pixel_of (composite_over_bgra soft_edge 12 blank 12 3 2 10 200 30) 12 y x)
          (record { b0 = 10; b1 = 200; b2 = 30; b3 = 255 })
          (pixel_of soft_edge 12 y x))
    × ((a : ℕ)
        → IsOutside 2 (4 * 3) 12 a
        → composite_over_bgra soft_edge 12 blank 12 3 2 10 200 30 a ≡ blank a)
composite_exact_example =
    composite_exact soft_edge 12 blank 12 3 2 10 200 30 soft_edge-IsPremultiplied (omega arith)
      (omega arith) (omega arith) (omega arith)

downscale_between_example :
    ((y x lo hi : ℕ)
      → y < 4 / 2
      → x < 4 / 2
      → hi ≤ 255
      → IsBlockWithin pattern 16 2 y x lo hi
      → IsWithin lo hi (quad_at (downscale_bgra pattern 16 4 4 blank 8 2) (y * 8 + 4 * x)))
    × ((a : ℕ)
        → IsOutside (4 / 2) (4 * (4 / 2)) 8 a
        → downscale_bgra pattern 16 4 4 blank 8 2 a ≡ blank a)
downscale_between_example = downscale_between pattern 16 4 4 blank 8 2 (omega arith) (omega arith)
