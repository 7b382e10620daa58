-- ===== src/Blit.antt =====
-- core/rotated_blit.cpp: where the picture stands on the display, which pixel of the picture each pixel of
-- the display samples, and the address that the copy reads. The rotation and the fit are by their
-- enumerations; sizes are natural numbers once configure has taken negative ones for 0, and int and
-- int64 are taken to be wide enough. The order in which the tiles are copied is not modelled.
pub mod Placement
pub mod Addresses
pub mod Names
mod Tests
use weblinked.Base.{
  ℕ, zero, suc, ◌+◌, ◌-◌, ◌*◌, ◌/◌, ◌%◌, min, Bool, true, false, not, ◌&&◌, ◌||◌, ltb, leb, ◌==◌,
  if◌then◌else◌,
}
use weblinked.Base.Int.{ℤ, pos, negsuc, ◌+ℤ◌, ◌-ℤ◌, pos_part, neg_part, sub_ℕ, ltb_ℤ}

pub data Rotation : Type 0 where
  r0 r90 r180 r270 : Rotation

pub data Fit : Type 0 where
  fit fill stretch : Fit

abbrev pub is_transposed : Rotation → Bool
is_transposed r0 = false
is_transposed r90 = true
is_transposed r180 = false
is_transposed r270 = true

abbrev pub is_r0 : Rotation → Bool
is_r0 r0 = true
is_r0 r = false

-- (a - b) / 2 of signed numbers cuts towards zero.
abbrev pub half_apart : ℕ → ℕ → ℤ
half_apart a b = if leb b a then pos ((a - b) / 2) else sub_ℕ 0 ((b - a) / 2)

-- The size of the picture on the display: `fit_width` says which side is the display's.
unfoldable pub fits_width : Fit → ℕ → ℕ → ℕ → ℕ → Bool
fits_width fit rw rh dw dh = ltb (dw * rh) (rw * dh)
fits_width f rw rh dw dh = not (ltb (dw * rh) (rw * dh))

unfoldable pub scaled : ℕ → ℕ → ℕ → ℕ
scaled of by to = (of * to + by / 2) / by

unfoldable pub placed_width : Fit → ℕ → ℕ → ℕ → ℕ → ℕ
unfolding fits_width scaled
placed_width stretch rw rh dw dh = dw
placed_width f rw rh dw dh = if fits_width f rw rh dw dh then dw else scaled rw rh dh

unfoldable pub placed_height : Fit → ℕ → ℕ → ℕ → ℕ → ℕ
unfolding fits_width scaled
placed_height stretch rw rh dw dh = dh
placed_height f rw rh dw dh = if fits_width f rw rh dw dh then scaled rh rw dw else dh

-- One axis: the size of the picture turned, of its place, and of the display.
pub record Axis : Type 0 where
  pub picture : ℕ
  pub placed : ℕ
  pub display : ℕ

abbrev pub offset : Axis → ℤ
offset a = half_apart a.display a.placed

-- The pixels of the display that the picture covers: from `first` up to `last`.
unfoldable pub first : Axis → ℕ
first a = pos_part (offset a)

unfoldable pub last : Axis → ℕ
unfolding ◌+ℤ◌
last a = min (pos_part (offset a +ℤ pos a.placed)) a.display

-- The pixel of the picture that a pixel of the display samples.
unfoldable pub sample : Axis → ℕ → ℕ
unfolding ◌-ℤ◌
sample a x =
    let local = pos_part (pos x -ℤ offset a) in
    min ((2 * local + 1) * a.picture / (2 * a.placed)) (a.picture - 1)

pub record Blit : Type 0 where
  pub source_width : ℕ
  pub source_height : ℕ
  pub rotation : Rotation
  pub across : Axis
  pub down : Axis
  pub is_identity : Bool

-- A side of nothing leaves a blit that covers nothing.
abbrev pub nothing : Axis
nothing = record { picture = 0; placed = 0; display = 0 }

unfoldable pub configure : ℤ → ℤ → ℤ → ℤ → Rotation → Fit → Blit
configure source_width source_height dest_width dest_height rotation f =
    let sw = pos_part source_width in
    let sh = pos_part source_height in
    let dw = pos_part dest_width in
    let dh = pos_part dest_height in
    let rw = if is_transposed rotation then sh else sw in
    let rh = if is_transposed rotation then sw else sh in
    let w = placed_width f rw rh dw dh in
    let h = placed_height f rw rh dw dh in
    if rw == 0 || (rh == 0 || (dw == 0 || dh == 0))
    then record {
      source_width = sw;
      source_height = sh;
      rotation = rotation;
      across = nothing;
      down = nothing;
      is_identity = false;
    }
    else record {
      source_width = sw;
      source_height = sh;
      rotation = rotation;
      across = record { picture = rw; placed = w; display = dw };
      down = record { picture = rh; placed = h; display = dh };
      is_identity = is_r0 rotation && (w == rw && h == rh);
    }

-- The two parts of the source address, by the sampled column `c` and the sampled row `r`.
unfoldable pub x_offset : Rotation → ℕ → ℕ → ℕ → ℕ → ℕ
x_offset r0 sw sh stride c = c * 4
x_offset r90 sw sh stride c = (sh - 1 - c) * stride
x_offset r180 sw sh stride c = (sw - 1 - c) * 4
x_offset r270 sw sh stride c = c * stride

unfoldable pub y_offset : Rotation → ℕ → ℕ → ℕ → ℕ → ℕ
y_offset r0 sw sh stride r = r * stride
y_offset r90 sw sh stride r = r * 4
y_offset r180 sw sh stride r = (sh - 1 - r) * stride
y_offset r270 sw sh stride r = (sw - 1 - r) * 4

-- The address that the copy of display pixel (x, y) reads through the two tables.
unfoldable pub table_address : Blit → ℕ → ℕ → ℕ → ℕ
unfolding x_offset y_offset
table_address b stride x y =
    y_offset b.rotation b.source_width b.source_height stride (sample b.down y)
    + x_offset b.rotation b.source_width b.source_height stride (sample b.across x)

-- The address that it reads when whole rows are copied: a row starts at the first sampled column.
unfoldable pub row_address : Blit → ℕ → ℕ → ℕ → ℕ
row_address b stride x y =
    sample b.down y * stride + sample b.across (first b.across) * 4 + (x - first b.across) * 4

-- The address that blit reads for display pixel (x, y).
unfoldable pub source_address : Blit → ℕ → ℕ → ℕ → ℕ
unfolding table_address row_address
source_address b stride x y =
    if b.is_identity then row_address b stride x y else table_address b stride x y
