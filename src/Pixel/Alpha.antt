-- ===== src/Pixel/Alpha.antt =====
-- unpremultiply_bgra and composite_over_bgra: the arithmetic of one channel and of one pixel.
use weblinked.Base.{
  ℕ, ◌+◌, ◌-◌, ◌*◌, ◌/◌, ◌%◌, ◌≤◌, ◌<◌, min, ◌≡◌, refl, sym, subst, arith, ℕ_discrete,
}
use native.Mathlib.Nat.{
  mul_comm, mul-le-mul_left, mul-le-mul_right, div-mul-le_self, mod-lt, div-add-mod',
}
use weblinked.Pixel.{
  Quad, u32, reciprocal, unpremultiply_channel, unpremultiply_pixel, over_channel, over_pixel,
}

scale_mono : (b k : ℕ) → b ≤ 255 → b * k ≤ 255 * k
scale_mono b k h = grind arith

over_sum :
    (value product alpha : ℕ)
    → value ≤ alpha
    → alpha ≤ 255
    → product ≤ 255 * (255 - alpha)
    → min ((value + (product + 127) / 255) % u32) 255 ≡ value + (product + 127) / 255
over_sum value product alpha hv ha hp = ground arith

-- A colour that was multiplied by its alpha, over a background: the sum is the exact mix, rounded to
-- within half a step, so neither the clamp nor the width of the sum cuts anything.
pub over_channel_lem :
    (value background alpha : ℕ)
    → value ≤ alpha
    → background ≤ 255
    → alpha ≤ 255
    → (255 * over_channel value background alpha ≤ 255 * value + background * (255 - alpha) + 127)
      × (255 * value + background * (255 - alpha) ≤ 255 * over_channel value background alpha + 127)
unfolding over_channel
over_channel_lem value background alpha hv hb ha =
    let h = scale_mono background (255 - alpha) hb in
    let e = over_sum value (background * (255 - alpha)) alpha hv ha h in
    (omega (arith, e), omega (arith, e))

-- The reciprocal of the table times its alpha is 255 to within 127 parts in 65536.
reciprocal_lem :
    (a : ℕ)
    → 0 < a
    → a < 255
    → (reciprocal a * a ≤ 255 * 65536 + 127) × (255 * 65536 ≤ reciprocal a * a + 127)
reciprocal_lem a lo hi =
    let x = 255 * 65536 + a / 2 in
    let low = div-mul-le_self x a in
    let rest = mod-lt x lo in
    let parts = div-add-mod' x a in
    let high : x < x / a * a + a = omega arith in
    let e : reciprocal a ≡ x / a = ground arith in
    subst (λ (r : ℕ). (r * a ≤ 255 * 65536 + 127) × (255 * 65536 ≤ r * a + 127)) (sym e)
      (omega arith, omega arith)

scaled_below : (u c r a : ℕ) → u * 65536 ≤ c * r + 32768 → u * a * 65536 ≤ c * (r * a) + 32768 * a
scaled_below u c r a h =
    let k = mul-le-mul_right a h in
    let e : u * 65536 * a ≡ u * a * 65536 = grind arith in
    let e' : (c * r + 32768) * a ≡ c * (r * a) + 32768 * a = grind arith in omega arith

scaled_above :
    (u c r a : ℕ)
    → c * r + 32768 ≤ u * 65536 + 65535
    → c * (r * a) + 32768 * a ≤ u * a * 65536 + 65535 * a
scaled_above u c r a h =
    let k = mul-le-mul_right a h in
    let e : (u * 65536 + 65535) * a ≡ u * a * 65536 + 65535 * a = grind arith in
    let e' : (c * r + 32768) * a ≡ c * (r * a) + 32768 * a = grind arith in omega arith

-- Any factor in that range takes a premultiplied channel to one that the alpha takes back.
half_step :
    (c a r : ℕ)
    → c ≤ a
    → a < 255
    → r * a ≤ 255 * 65536 + 127
    → 255 * 65536 ≤ r * a + 127
    → ((c * r + 32768) / 65536 * a ≤ 255 * c + 127) × (255 * c ≤ (c * r + 32768) / 65536 * a + 127)
half_step c a r small hi high low =
    let u = (c * r + 32768) / 65536 in
    let below : u * 65536 ≤ c * r + 32768 = omega arith in
    let above : c * r + 32768 ≤ u * 65536 + 65535 = omega arith in
    let below' : u * a * 65536 ≤ c * (r * a) + 32768 * a = scaled_below u c r a below in
    let above' : c * (r * a) + 32768 * a ≤ u * a * 65536 + 65535 * a = scaled_above u c r a above in
    let high' : c * (r * a) ≤ c * (255 * 65536 + 127) = mul-le-mul_left c high in
    let low' : c * (255 * 65536) ≤ c * (r * a + 127) = mul-le-mul_left c low in
    let low'' : c * (r * a + 127) ≡ c * (r * a) + c * 127 = grind arith in
    (omega arith, omega arith)

unclamped :
    (x : ℕ) → x ≤ 255 * 65536 + 127 → min ((x + 32768) % u32 / 65536) 255 ≡ (x + 32768) / 65536
unclamped x h = omega arith

-- For an alpha that is neither clear nor opaque, and a channel no larger than it, the result times
-- the alpha is 255 times the channel to within 127, so multiplying again gives the channel back.
pub unpremultiply_channel_lem :
    (c a : ℕ) → c ≤ a → 0 < a → a < 255 → (unpremultiply_channel c a * a + 127) / 255 ≡ c
unfolding unpremultiply_channel
unpremultiply_channel_lem c a small lo hi =
    let range = reciprocal_lem a lo hi in
    let near = half_step c a (reciprocal a) small hi range.0 range.1 in
    let fits : c * reciprocal a ≤ a * reciprocal a = mul-le-mul_right (reciprocal a) small in
    let e : a * reciprocal a ≡ reciprocal a * a = mul_comm a (reciprocal a) in
    let u : unpremultiply_channel c a ≡ (c * reciprocal a + 32768) / 65536 =
      unclamped (c * reciprocal a) (omega arith) in
    subst (λ (n : ℕ). (n * a + 127) / 255 ≡ c) (sym u) (omega arith)

-- A pixel whose colours were multiplied by its alpha.
abbrev pub IsPremultiplied : Quad → Type 0
IsPremultiplied p = (p.b0 ≤ p.b3) × (p.b1 ≤ p.b3) × (p.b2 ≤ p.b3) × (p.b3 ≤ 255)

-- Multiplying the colours of `q` by its alpha gives `p`.
abbrev pub Restores : Quad → Quad → Type 0
Restores q p =
    (q.b3 ≡ p.b3)
    × ((q.b0 * q.b3 + 127) / 255 ≡ p.b0)
    × ((q.b1 * q.b3 + 127) / 255 ≡ p.b1)
    × ((q.b2 * q.b3 + 127) / 255 ≡ p.b2)

full_again : (c a : ℕ) → a ≡ 255 → (c * a + 127) / 255 ≡ c
full_again c a e = subst (λ (n : ℕ). (c * n + 127) / 255 ≡ c) (sym e) (omega arith)

abbrev divided_pixel : Quad → Quad
divided_pixel p = record {
  b0 = unpremultiply_channel p.b0 p.b3;
  b1 = unpremultiply_channel p.b1 p.b3;
  b2 = unpremultiply_channel p.b2 p.b3;
  b3 = p.b3;
}

pub unpremultiply_pixel-Restores :
    (p : Quad) → IsPremultiplied p → Restores (unpremultiply_pixel p) p
unfolding unpremultiply_pixel
unpremultiply_pixel-Restores p h = elim (ℕ_discrete p.b3 255) [
  | yes e ↦
      let kept : unpremultiply_pixel p ≡ p = ground arith in
      subst (λ q. Restores q p) (sym kept)
        (refl, full_again p.b0 p.b3 e, full_again p.b1 p.b3 e, full_again p.b2 p.b3 e)
  | no n ↦ elim (ℕ_discrete p.b3 0) [
    | yes e ↦
        let cleared : unpremultiply_pixel p ≡ record { b0 = 0; b1 = 0; b2 = 0; b3 = p.b3 } =
          ground arith in
        subst (λ q. Restores q p) (sym cleared) (refl, omega arith, omega arith, omega arith)
    | no n' ↦
        let divided : unpremultiply_pixel p ≡ divided_pixel p = ground arith in
        subst (λ q. Restores q p) (sym divided)
          (
            refl,
            unpremultiply_channel_lem p.b0 p.b3 (omega arith) (omega arith) (omega arith),
            unpremultiply_channel_lem p.b1 p.b3 (omega arith) (omega arith) (omega arith),
            unpremultiply_channel_lem p.b2 p.b3 (omega arith) (omega arith) (omega arith),
          )
  ]
]

-- A channel that is the mix of a premultiplied one and a background, to within half a step.
abbrev pub IsMix : ℕ → ℕ → ℕ → ℕ → Type 0
IsMix out value background alpha =
    (255 * out ≤ 255 * value + background * (255 - alpha) + 127)
    × (255 * value + background * (255 - alpha) ≤ 255 * out + 127)

abbrev pub IsOver : Quad → Quad → Quad → Type 0
IsOver out back p =
    (out.b3 ≡ 255)
    × IsMix out.b0 p.b0 back.b0 p.b3
    × IsMix out.b1 p.b1 back.b1 p.b3
    × IsMix out.b2 p.b2 back.b2 p.b3

IsMix-full : (value background a : ℕ) → a ≡ 255 → IsMix value value background a
IsMix-full value background a e =
    subst (λ k. IsMix value value background k) (sym e) (omega arith, omega arith)

IsMix-clear : (value background a : ℕ) → value ≤ a → a ≡ 0 → IsMix background value background a
IsMix-clear value background a h e =
    let none_left : value ≡ 0 = omega arith in
    subst (λ k. IsMix background value background k) (sym e) (omega arith, omega arith)

abbrev mixed_pixel : Quad → Quad → Quad
mixed_pixel back p = record {
  b0 = over_channel p.b0 back.b0 p.b3;
  b1 = over_channel p.b1 back.b1 p.b3;
  b2 = over_channel p.b2 back.b2 p.b3;
  b3 = 255;
}

pub over_pixel-IsOver :
    (back p : Quad)
    → IsPremultiplied p
    → back.b0 ≤ 255
    → back.b1 ≤ 255
    → back.b2 ≤ 255
    → IsOver (over_pixel back p) back p
unfolding over_pixel
over_pixel-IsOver back p h h0 h1 h2 = elim (ℕ_discrete p.b3 255) [
  | yes e ↦
      let kept : over_pixel back p ≡ record { b0 = p.b0; b1 = p.b1; b2 = p.b2; b3 = 255 } =
        ground arith in
      subst (λ q. IsOver q back p) (sym kept)
        (
          refl,
          IsMix-full p.b0 back.b0 p.b3 e,
          IsMix-full p.b1 back.b1 p.b3 e,
          IsMix-full p.b2 back.b2 p.b3 e,
        )
  | no n ↦ elim (ℕ_discrete p.b3 0) [
    | yes e ↦
        let shown : over_pixel back p
            ≡ record { b0 = back.b0; b1 = back.b1; b2 = back.b2; b3 = 255 } =
          ground arith in
        subst (λ q. IsOver q back p) (sym shown)
          (
            refl,
            IsMix-clear p.b0 back.b0 p.b3 (omega arith) e,
            IsMix-clear p.b1 back.b1 p.b3 (omega arith) e,
            IsMix-clear p.b2 back.b2 p.b3 (omega arith) e,
          )
    | no n' ↦
        let mixed : over_pixel back p ≡ mixed_pixel back p = ground arith in
        subst (λ q. IsOver q back p) (sym mixed)
          (
            refl,
            over_channel_lem p.b0 back.b0 p.b3 (omega arith) h0 (omega arith),
            over_channel_lem p.b1 back.b1 p.b3 (omega arith) h1 (omega arith),
            over_channel_lem p.b2 back.b2 p.b3 (omega arith) h2 (omega arith),
          )
  ]
]
