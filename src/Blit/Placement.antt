-- ===== src/Blit/Placement.antt =====
-- Fit keeps the picture inside the display and fill covers it.
use weblinked.Base.{ℕ, ◌+◌, ◌*◌, ◌/◌, ◌≤◌, ◌<◌, ◌≡◌, Bool-cases, ◌⊎◌, inl, inr, ltb, arith}
use native.Mathlib.Nat.{le-div_iff_mul-le, div-lt_iff_lt-mul, mul_comm}
use weblinked.Blit.{fit, fill, fits_width, scaled, placed_width, placed_height}

-- A side scaled to the nearest pixel is at most any length that the exact side is, and at least too.
scaled_at_most : (side by to n : ℕ) → 0 < by → side * to ≤ n * by → scaled side by to ≤ n
unfolding scaled
scaled_at_most side by to n h le =
    let e : (n + 1) * by ≡ n * by + by = grind arith in
    let below = (div-lt_iff_lt-mul {x = side * to + by / 2} {y = n + 1} h).1 (omega arith) in
    omega arith

scaled_at_least : (side by to n : ℕ) → 0 < by → n * by ≤ side * to → n ≤ scaled side by to
unfolding scaled
scaled_at_least side by to n h le =
    (le-div_iff_mul-le {x = n} {y = side * to + by / 2} h).1 (omega arith)

-- The fit keeps the whole picture on the display with one side exact.
abbrev pub IsInside : ℕ → ℕ → ℕ → ℕ → Type 0
IsInside w h dw dh = (w ≤ dw) × (h ≤ dh) × ((w ≡ dw) ⊎ (h ≡ dh))

-- The fill leaves no bar.
abbrev pub IsCovering : ℕ → ℕ → ℕ → ℕ → Type 0
IsCovering w h dw dh = (dw ≤ w) × (dh ≤ h) × ((w ≡ dw) ⊎ (h ≡ dh))

-- With the fit the picture lies inside the display, with one side of the same length.
pub fit-IsInside :
    (rw rh dw dh : ℕ)
    → 0 < rw
    → 0 < rh
    → IsInside (placed_width fit rw rh dw dh) (placed_height fit rw rh dw dh) dw dh
unfolding placed_width placed_height fits_width
fit-IsInside rw rh dw dh hw hh =
    let c = mul_comm rw dh in
    let c' = mul_comm rh dw in
    let c'' = mul_comm dw rh in
    let wide = scaled_at_most rh rw dw dh hw in
    let tall = scaled_at_most rw rh dh dw hh in
    elim (Bool-cases (ltb (dw * rh) (rw * dh))) [
      | inl e ↦ let k = wide (ground arith) in ground arith
      | inr e ↦ let k = tall (ground arith) in ground arith
    ]

-- With the fill the picture covers the display, with one side of the same length.
pub fill-IsCovering :
    (rw rh dw dh : ℕ)
    → 0 < rw
    → 0 < rh
    → IsCovering (placed_width fill rw rh dw dh) (placed_height fill rw rh dw dh) dw dh
unfolding placed_width placed_height fits_width
fill-IsCovering rw rh dw dh hw hh =
    let c = mul_comm rw dh in
    let c' = mul_comm rh dw in
    let wide = scaled_at_least rw rh dh dw hh in
    let tall = scaled_at_least rh rw dw dh hw in
    elim (Bool-cases (ltb (dw * rh) (rw * dh))) [
      | inl e ↦ let k = wide (ground arith) in ground arith
      | inr e ↦ let k = tall (ground arith) in ground arith
    ]
