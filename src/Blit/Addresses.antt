-- ===== src/Blit/Addresses.antt =====
-- Every address that the copy reads is that of one pixel of the picture.
use weblinked.Base.{
  ℕ, ◌+◌, ◌-◌, ◌*◌, ◌/◌, ◌≤◌, ◌<◌, ◌≡◌, refl, ◌∙◌, ap, sym, subst, inl, inr, ◌⊎◌, ◌||◌, Bool-cases,
  ◌==◌, ◌&&◌, if◌then◌else◌, true, leb, dec_lt, arith,
}
use weblinked.Base.Int.{ℤ, pos, pos_part, ◌+ℤ◌, ◌-ℤ◌}
use native.Mathlib.Nat.{div-lt_iff_lt-mul, mul_comm, mul-le-mul_right, div-add-mod, mod-lt}
use weblinked.Blit.{
  Rotation, r0, r90, r180, r270, is_transposed, Axis, offset, first, last, sample, Blit, x_offset,
  y_offset, source_address, configure, Fit, nothing, is_r0, placed_width, placed_height,
  table_address, row_address,
}

-- A visible pixel lies on the display and, seen from the place of the picture, within its size.
visible :
    (a : Axis) (x : ℕ)
    → first a ≤ x
    → x < last a
    → (x < a.display) × (pos_part (pos x -ℤ offset a) < a.placed)
unfolding first last ◌+ℤ◌ ◌-ℤ◌
visible a x low high = ground arith

-- The centre of a pixel inside the place samples a pixel inside the picture without the clamp.
centre_inside :
    (n picture placed : ℕ)
    → n < placed
    → 0 < picture
    → (2 * n + 1) * picture / (2 * placed) < picture
centre_inside n picture placed h some_left =
    let k : (2 * n + 2) * picture ≤ 2 * placed * picture = mul-le-mul_right picture (omega arith) in
    let e : (2 * n + 2) * picture ≡ (2 * n + 1) * picture + picture = grind arith in
    let e' : picture * (2 * placed) ≡ 2 * placed * picture = mul_comm picture (2 * placed) in
    let some_placed : 0 < 2 * placed = omega arith in
    (div-lt_iff_lt-mul {x = (2 * n + 1) * picture} {y = picture} some_placed).1 (omega arith)

sample_unclamped :
    (a : Axis) (x : ℕ)
    → first a ≤ x
    → x < last a
    → 0 < a.picture
    → (sample a x ≡ (2 * pos_part (pos x -ℤ offset a) + 1) * a.picture / (2 * a.placed))
      × (sample a x < a.picture)
unfolding sample
sample_unclamped a x low high some_left =
    let inside = visible a x low high in
    let k = centre_inside (pos_part (pos x -ℤ offset a)) a.picture a.placed inside.1 some_left in
    (omega arith, omega arith)

-- The pixel of the picture, column first, that shows the rotated picture at column `c` and row `r`.
abbrev pub unturned : Rotation → ℕ → ℕ → ℕ → ℕ → ℕ × ℕ
unturned r0 sw sh c r = (c, r)
unturned r90 sw sh c r = (r, sh - 1 - c)
unturned r180 sw sh c r = (sw - 1 - c, sh - 1 - r)
unturned r270 sw sh c r = (sw - 1 - r, c)

abbrev pub turned_width : Rotation → ℕ → ℕ → ℕ
turned_width rotation sw sh = if is_transposed rotation then sh else sw

abbrev pub turned_height : Rotation → ℕ → ℕ → ℕ
turned_height rotation sw sh = if is_transposed rotation then sw else sh

unturned_inside :
    (rotation : Rotation) (sw sh c r : ℕ)
    → c < turned_width rotation sw sh
    → r < turned_height rotation sw sh
    → ((unturned rotation sw sh c r).0 < sw) × ((unturned rotation sw sh c r).1 < sh)
unturned_inside r0 sw sh c r hc hr = (hc, hr)
unturned_inside r90 sw sh c r hc hr = omega arith
unturned_inside r180 sw sh c r hc hr = omega arith
unturned_inside r270 sw sh c r hc hr = omega arith

address_of :
    (rotation : Rotation) (sw sh stride c r : ℕ)
    → y_offset rotation sw sh stride r + x_offset rotation sw sh stride c
      ≡ (unturned rotation sw sh c r).1 * stride + 4 * (unturned rotation sw sh c r).0
unfolding x_offset y_offset
address_of r0 sw sh stride c r = omega arith
address_of r90 sw sh stride c r = omega arith
address_of r180 sw sh stride c r = omega arith
address_of r270 sw sh stride c r = omega arith

-- The place of display pixel `x` within the picture as it stands on the display, centred to the pixel: to
-- the right of a bar, or with part of the picture cut off.
abbrev pub place_in : ℕ → ℕ → ℕ → ℕ
place_in placed display x =
    if leb placed display then x - (display - placed) / 2 else x + (placed - display) / 2

-- The centre of display pixel `x` falls into pixel `c` of a picture of that many pixels, scaled to `placed`.
abbrev pub IsSampled : ℕ → ℕ → ℕ → ℕ → ℕ → Type 0
IsSampled picture placed display x c =
    (2 * placed * c ≤ (2 * place_in placed display x + 1) * picture)
    × ((2 * place_in placed display x + 1) * picture < 2 * placed * (c + 1))

local_place :
    (a : Axis) (x : ℕ) → first a ≤ x → pos_part (pos x -ℤ offset a) ≡ place_in a.placed a.display x
unfolding first ◌-ℤ◌
local_place a x low = ground arith

div_between : (n d : ℕ) → 0 < d → (d * (n / d) ≤ n) × (n < d * (n / d + 1))
div_between n d h =
    let e : d * (n / d + 1) ≡ d * (n / d) + d = grind arith in
    let less = mod-lt n h in let parts = div-add-mod n d in (omega arith, omega arith)

sample-IsSampled :
    (a : Axis) (x : ℕ)
    → first a ≤ x
    → x < last a
    → 0 < a.picture
    → IsSampled a.picture a.placed a.display x (sample a x)
sample-IsSampled a x low high some_left =
    let inside = (visible a x low high).1 in
    let local : pos_part (pos x -ℤ offset a) ≡ place_in a.placed a.display x =
      local_place a x low in
    let e : sample a x ≡ (2 * place_in a.placed a.display x + 1) * a.picture / (2 * a.placed) =
      (sample_unclamped a x low high some_left).0
      ∙ ap (λ n. (2 * n + 1) * a.picture / (2 * a.placed)) local in
    subst (IsSampled a.picture a.placed a.display x) (sym e) (
      div_between ((2 * place_in a.placed a.display x + 1) * a.picture) (2 * a.placed)
        (omega arith))

-- An axis that scales nothing samples each pixel at its own place.
own_pixel : (n m c : ℕ) → 2 * n * c ≤ (2 * m + 1) * n → (2 * m + 1) * n < 2 * n * (c + 1) → c ≡ m
own_pixel n m c low high = elim (dec_lt c m) [
  | yes h ↦
      let k = mul-le-mul_right {m = 2 * (c + 1)} {n = 2 * m} n (omega arith) in
      let e : 2 * n * (c + 1) ≡ 2 * (c + 1) * n = grind arith in
      let e' : (2 * m + 1) * n ≡ 2 * m * n + n = grind arith in absurd (omega arith)
  | no h ↦ elim (dec_lt m c) [
    | yes l ↦
        let k = mul-le-mul_right {m = 2 * (m + 1)} {n = 2 * c} n (omega arith) in
        let e : 2 * n * c ≡ 2 * c * n = grind arith in
        let e' : 2 * (m + 1) * n ≡ (2 * m + 1) * n + n = grind arith in absurd (omega arith)
    | no l ↦ omega arith
  ]
]

sample_unscaled :
    (a : Axis) (x : ℕ)
    → first a ≤ x
    → x < last a
    → 0 < a.picture
    → a.placed ≡ a.picture
    → sample a x ≡ place_in a.placed a.display x
sample_unscaled a x low high some_left same =
    let k = sample-IsSampled a x low high some_left in
    let m = place_in a.placed a.display x in
    own_pixel a.picture m (sample a x)
      (subst (λ n. 2 * n * sample a x ≤ (2 * m + 1) * a.picture) same k.0)
      (subst (λ n. (2 * m + 1) * a.picture < 2 * n * (sample a x + 1)) same k.1)

-- Along a row the places run on.
place_runs :
    (a : Axis) (x : ℕ)
    → first a ≤ x
    → place_in a.placed a.display x ≡ place_in a.placed a.display (first a) + (x - first a)
unfolding first
place_runs a x low = ground arith

-- What configure leaves of a picture and a display that are not empty.
abbrev shape : Rotation → ℕ → ℕ → ℕ → ℕ → ℕ → ℕ → Blit
shape rotation w h pw ph dw dh =
    let rw = turned_width rotation w h in
    let rh = turned_height rotation w h in
    record {
      source_width = w;
      source_height = h;
      rotation = rotation;
      across = record { picture = rw; placed = pw; display = dw };
      down = record { picture = rh; placed = ph; display = dh };
      is_identity = is_r0 rotation && (pw == rw && ph == rh);
    }

last-nothing : last nothing ≡ 0
unfolding last
last-nothing = refl

-- Configure covers nothing, or takes that shape.
abbrev IsShaped : Rotation → ℕ → ℕ → ℕ → ℕ → ℕ → ℕ → Blit → Type 0
IsShaped rotation w h pw ph dw dh b =
    (last b.across ≡ 0)
    ⊎ ((b ≡ shape rotation w h pw ph dw dh)
        × (0 < turned_width rotation w h)
        × (0 < turned_height rotation w h))

configure-IsShaped :
    (sw sh dw dh : ℤ) (rotation : Rotation) (f : Fit)
    → let w = pos_part sw in
      let h = pos_part sh in
      let rw = turned_width rotation w h in
      let rh = turned_height rotation w h in
      IsShaped rotation w h
        (placed_width f rw rh (pos_part dw) (pos_part dh))
        (placed_height f rw rh (pos_part dw) (pos_part dh))
        (pos_part dw)
        (pos_part dh)
        (configure sw sh dw dh rotation f)
unfolding configure
configure-IsShaped sw sh dw dh rotation f =
    let w = pos_part sw in
    let h = pos_part sh in
    let rw = turned_width rotation w h in
    let rh = turned_height rotation w h in
    let b = configure sw sh dw dh rotation f in
    elim (Bool-cases (rw == 0 || (rh == 0 || (pos_part dw == 0 || pos_part dh == 0)))) [
      | inl e ↦
          let covers_nothing : b.across ≡ nothing = ground arith in
          inl (ap last covers_nothing ∙ last-nothing)
      | inr e ↦ inr (ground arith, ground arith, ground arith)
    ]

-- The display pixel (x, y) reads one pixel of the source: the one that the rotation brings to the column and
-- the row of the turned picture into which the centre of the display pixel falls.
abbrev pub Shown : Rotation → ℕ → ℕ → ℕ → ℕ → Blit → ℕ → ℕ → ℕ → Type 0
Shown rotation w h dw dh b stride x y =
    (c : ℕ) × (r : ℕ) × (IsSampled (turned_width rotation w h) b.across.placed dw x c
      × IsSampled (turned_height rotation w h) b.down.placed dh y r
      × (source_address b stride x y
          ≡ (unturned rotation w h c r).1 * stride + 4 * (unturned rotation w h c r).0)
      × ((unturned rotation w h c r).0 < w)
      × ((unturned rotation w h c r).1 < h)
      × (x < dw)
      × (y < dh))

-- A row that is copied whole is read at the addresses of the tables.
row_address-table_address :
    (b : Blit) (stride x y : ℕ)
    → b.rotation ≡ r0
    → b.across.placed ≡ b.across.picture
    → 0 < b.across.picture
    → first b.across ≤ x
    → x < last b.across
    → row_address b stride x y ≡ table_address b stride x y
unfolding row_address table_address x_offset y_offset
row_address-table_address b stride x y e same some_left low high =
    let a = b.across in
    let start = sample_unscaled a (first a) (omega arith) (omega arith) some_left same in
    let here = sample_unscaled a x low high some_left same in
    let runs = place_runs a x low in
    let r = sample b.down y in
    let row : r * stride + sample a (first a) * 4 + (x - first a) * 4
        ≡ r * stride + sample a x * 4 =
      omega arith in
    row
    ∙ ap
        (λ t.
          y_offset t b.source_width b.source_height stride r
          + x_offset t b.source_width b.source_height stride (sample a x))
        (sym e)

is_r0_eq : (rotation : Rotation) → is_r0 rotation ≡ true → rotation ≡ r0
is_r0_eq r0 h = refl
is_r0_eq r90 h = absurd (ground arith)
is_r0_eq r180 h = absurd (ground arith)
is_r0_eq r270 h = absurd (ground arith)

-- Both ways of copying read the same addresses.
shape_address :
    (rotation : Rotation) (w h pw ph dw dh stride x y : ℕ)
    → let b : Blit = shape rotation w h pw ph dw dh in
      0 < b.across.picture
      → first b.across ≤ x
      → x < last b.across
      → source_address b stride x y ≡ table_address b stride x y
unfolding source_address
shape_address rotation w h pw ph dw dh stride x y some_left low high =
    let b = shape rotation w h pw ph dw dh in
    elim (Bool-cases b.is_identity) [
      | inl e ↦
          let unscaled : pw ≡ b.across.picture = ground arith in
          ap (λ t. if t then row_address b stride x y else table_address b stride x y) e
          ∙ row_address-table_address b stride x y (is_r0_eq rotation (ground arith)) unscaled
              some_left low high
      | inr e ↦ ap (λ t. if t then row_address b stride x y else table_address b stride x y) e
    ]

shape-Shown :
    (rotation : Rotation) (w h pw ph dw dh stride x y : ℕ)
    → let b : Blit = shape rotation w h pw ph dw dh in
      0 < b.across.picture
      → 0 < b.down.picture
      → first b.across ≤ x
      → x < last b.across
      → first b.down ≤ y
      → y < last b.down
      → Shown rotation w h dw dh b stride x y
unfolding table_address
shape-Shown rotation w h pw ph dw dh stride x y some_across some_down lx hx ly hy =
    let b = shape rotation w h pw ph dw dh in
    let c = sample b.across x in
    let r = sample b.down y in
    let p =
      unturned_inside rotation w h c r (sample_unclamped b.across x lx hx some_across).1
        (sample_unclamped b.down y ly hy some_down).1 in
    (
      c,
      r,
      (
        sample-IsSampled b.across x lx hx some_across,
        sample-IsSampled b.down y ly hy some_down,
        shape_address rotation w h pw ph dw dh stride x y some_across lx hx
            ∙ address_of rotation w h stride c r,
        p.0,
        p.1,
        (visible b.across x lx hx).0,
        (visible b.down y ly hy).0,
      ),
    )

-- A pixel that the blit writes.
abbrev pub IsVisible : Blit → ℕ → ℕ → Type 0
IsVisible b x y =
    (first b.across ≤ x) × (x < last b.across) × (first b.down ≤ y) × (y < last b.down)

-- However a blit is configured, with sizes of nothing or negative too, and whether it copies whole rows or
-- goes through its tables, what it reads for a visible pixel of the display is one pixel inside the source:
-- the one that the rotation brings to the column and row of the turned picture into which the centre of the
-- display pixel falls, for the picture scaled to its place and centred; and the pixel lies on the display.
pub reads_inside :
    (sw sh dw dh : ℤ) (rotation : Rotation) (f : Fit) (stride x y : ℕ)
    → IsVisible (configure sw sh dw dh rotation f) x y
    → Shown rotation
        (pos_part sw)
        (pos_part sh)
        (pos_part dw)
        (pos_part dh)
        (configure sw sh dw dh rotation f)
        stride
        x
        y
reads_inside sw sh dw dh rotation f stride x y v =
    let w = pos_part sw in
    let h = pos_part sh in
    let rw = turned_width rotation w h in
    let rh = turned_height rotation w h in
    let wide = placed_width f rw rh (pos_part dw) (pos_part dh) in
    let tall = placed_height f rw rh (pos_part dw) (pos_part dh) in
    let b = configure sw sh dw dh rotation f in
    elim (configure-IsShaped sw sh dw dh rotation f) [
      | inl e ↦ absurd (omega (arith, v.1))
      | inr e ↦
          let s = shape rotation w h wide tall (pos_part dw) (pos_part dh) in
          let seen : IsVisible s x y = subst (λ t. IsVisible t x y) e.0 v in
          subst (λ t. Shown rotation w h (pos_part dw) (pos_part dh) t stride x y) (sym e.0)
            (shape-Shown rotation w h wide tall (pos_part dw) (pos_part dh) stride x y e.1 e.2
              seen.0 seen.1 seen.2 seen.3)
    ]
