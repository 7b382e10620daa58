-- ===== src/Blit/Tests.antt =====
-- The rotated blit on concrete rasters.
use weblinked.Base.{◌≤◌, ◌<◌, ◌≡◌, refl, true, arith}
use weblinked.Base.Int.{pos}
use weblinked.Blit.{
  r0, r90, fit, Blit, placed_width, placed_height, first, last, sample, configure, source_address,
  row_address, fits_width, scaled,
}
use weblinked.Blit.Addresses.{Shown, reads_inside}

-- A page of 1080 by 1920 stands upright on a display of 1920 by 1080.
upright_width : placed_width fit 1080 1920 1920 1080 ≡ 608
unfolding placed_width fits_width scaled
upright_width = refl

same_raster : (configure (pos 1920) (pos 1080) (pos 1920) (pos 1080) r0 fit).is_identity ≡ true
unfolding configure placed_width placed_height fits_width scaled
same_raster = refl

abbrev turned : Blit
turned = configure (pos 4) (pos 2) (pos 3) (pos 6) r90 fit

first_across : first turned.across ≤ 1
unfolding first configure placed_width placed_height fits_width scaled
first_across = omega arith

last_across : 1 < last turned.across
unfolding last configure placed_width placed_height fits_width scaled
last_across = omega arith

first_down : first turned.down ≤ 4
unfolding first configure placed_width placed_height fits_width scaled
first_down = omega arith

last_down : 4 < last turned.down
unfolding last configure placed_width placed_height fits_width scaled
last_down = omega arith

reads_inside_example : Shown r90 4 2 3 6 turned 16 1 4
reads_inside_example =
    reads_inside (pos 4) (pos 2) (pos 3) (pos 6) r90 fit 16 1 4
      (first_across, last_across, first_down, last_down)

-- On its own raster a row is copied whole.
copied_row : source_address (configure (pos 4) (pos 2) (pos 4) (pos 2) r0 fit) 16 3 1 ≡ 28
unfolding source_address row_address sample first configure placed_width placed_height fits_width
    scaled
copied_row = refl
