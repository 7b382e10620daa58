-- ===== src/Pixel/Studio.antt =====
-- bgra_to_uyvy: the fixed-point sums stay in the ranges of studio video.
use weblinked.Base.{
  ℕ, ◌+◌, ◌/◌, ◌≤◌, ◌≡◌, refl, ◌∙◌, sym, subst, ap, ap₂, ◌⊎◌, inl, inr, arith, Bool, true, false,
  leb, if◌then◌else◌,
}
use weblinked.Base.Int.{pos, ◌+ℤ◌, ◌*ℤ◌}
use weblinked.Pixel.{
  Coefficients, bt601, bt709, clamp_byte, round16, luma, chroma_blue, chroma_red, Matrix,
  coefficients, bt601_only, bt709_only, by_height, Quad, uyvy_pair,
}

-- A byte of studio video: from 16 up to its white or its full chroma.
abbrev pub IsStudio : ℕ → ℕ → Type 0
IsStudio top n = (16 ≤ n) × (n ≤ top)

luma601-range :
    (r g b : ℕ) → r ≤ 255 → g ≤ 255 → b ≤ 255 → IsStudio 235 (clamp_byte (luma bt601 r g b))
unfolding luma round16 ◌+ℤ◌ ◌*ℤ◌
luma601-range r g b hr hg hb = ground arith

blue601-range :
    (r g b : ℕ) → r ≤ 255 → g ≤ 255 → b ≤ 255 → IsStudio 240 (clamp_byte (chroma_blue bt601 r g b))
unfolding chroma_blue round16 ◌+ℤ◌ ◌*ℤ◌
blue601-range r g b hr hg hb = ground arith

red601-range :
    (r g b : ℕ) → r ≤ 255 → g ≤ 255 → b ≤ 255 → IsStudio 240 (clamp_byte (chroma_red bt601 r g b))
unfolding chroma_red round16 ◌+ℤ◌ ◌*ℤ◌
red601-range r g b hr hg hb = ground arith

luma709-range :
    (r g b : ℕ) → r ≤ 255 → g ≤ 255 → b ≤ 255 → IsStudio 235 (clamp_byte (luma bt709 r g b))
unfolding luma round16 ◌+ℤ◌ ◌*ℤ◌
luma709-range r g b hr hg hb = ground arith

blue709-range :
    (r g b : ℕ) → r ≤ 255 → g ≤ 255 → b ≤ 255 → IsStudio 240 (clamp_byte (chroma_blue bt709 r g b))
unfolding chroma_blue round16 ◌+ℤ◌ ◌*ℤ◌
blue709-range r g b hr hg hb = ground arith

red709-range :
    (r g b : ℕ) → r ≤ 255 → g ≤ 255 → b ≤ 255 → IsStudio 240 (clamp_byte (chroma_red bt709 r g b))
unfolding chroma_red round16 ◌+ℤ◌ ◌*ℤ◌
red709-range r g b hr hg hb = ground arith

abbrev pub IsMatrix : Coefficients → Type 0
IsMatrix c = (c ≡ bt601) ⊎ (c ≡ bt709)

abbrev either : Bool → Coefficients
either tall = elim (if tall then bt709_only else bt601_only) [ bt709_only ↦ bt709 | _ ↦ bt601 ]

either-IsMatrix : (tall : Bool) → IsMatrix (either tall)
either-IsMatrix true = inr refl
either-IsMatrix false = inl refl

pub coefficients-IsMatrix : (matrix : Matrix) (height : ℕ) → IsMatrix (coefficients matrix height)
unfolding coefficients
coefficients-IsMatrix bt601_only height = inl refl
coefficients-IsMatrix bt709_only height = inr refl
coefficients-IsMatrix by_height height = either-IsMatrix (leb 720 height)

abbrev pub AreBytes : Quad → Type 0
AreBytes p = (p.b0 ≤ 255) × (p.b1 ≤ 255) × (p.b2 ≤ 255)

abbrev pub IsStudioPair : Quad → Type 0
IsStudioPair q = IsStudio 240 q.b0 × IsStudio 235 q.b1 × IsStudio 240 q.b2 × IsStudio 235 q.b3

-- Both matrices keep a pair of pixels in the studio ranges, so the clamp cuts nothing.
pub uyvy_pair-IsStudioPair :
    (c : Coefficients) (p q : Quad)
    → IsMatrix c
    → AreBytes p
    → AreBytes q
    → IsStudioPair (uyvy_pair c p q)
unfolding uyvy_pair
uyvy_pair-IsStudioPair c p q (inl e) hp hq =
    let r = (p.b2 + q.b2 + 1) / 2 in
    let g = (p.b1 + q.b1 + 1) / 2 in
    let b = (p.b0 + q.b0 + 1) / 2 in
    subst (λ k. IsStudioPair (uyvy_pair k p q)) (sym e)
      (
        blue601-range r g b (omega arith) (omega arith) (omega arith),
        luma601-range p.b2 p.b1 p.b0 (omega arith) (omega arith) (omega arith),
        red601-range r g b (omega arith) (omega arith) (omega arith),
        luma601-range q.b2 q.b1 q.b0 (omega arith) (omega arith) (omega arith),
      )
uyvy_pair-IsStudioPair c p q (inr e) hp hq =
    let r = (p.b2 + q.b2 + 1) / 2 in
    let g = (p.b1 + q.b1 + 1) / 2 in
    let b = (p.b0 + q.b0 + 1) / 2 in
    subst (λ k. IsStudioPair (uyvy_pair k p q)) (sym e)
      (
        blue709-range r g b (omega arith) (omega arith) (omega arith),
        luma709-range p.b2 p.b1 p.b0 (omega arith) (omega arith) (omega arith),
        red709-range r g b (omega arith) (omega arith) (omega arith),
        luma709-range q.b2 q.b1 q.b0 (omega arith) (omega arith) (omega arith),
      )

abbrev pub IsNeutral : Coefficients → ℕ → Type 0
IsNeutral c v = (chroma_blue c v v v ≡ pos 128) × (chroma_red c v v v ≡ pos 128)

neutral601 : (v : ℕ) → IsNeutral bt601 v
unfolding chroma_blue chroma_red round16 ◌+ℤ◌ ◌*ℤ◌
neutral601 v = (ground arith, ground arith)

neutral709 : (v : ℕ) → IsNeutral bt709 v
unfolding chroma_blue chroma_red round16 ◌+ℤ◌ ◌*ℤ◌
neutral709 v = (ground arith, ground arith)

-- A grey pixel has no colour: both chroma values are the middle one.
pub grey-IsNeutral : (c : Coefficients) (v : ℕ) → IsMatrix c → IsNeutral c v
grey-IsNeutral c v (inl e) = subst (λ k. IsNeutral k v) (sym e) (neutral601 v)
grey-IsNeutral c v (inr e) = subst (λ k. IsNeutral k v) (sym e) (neutral709 v)

abbrev pub IsGrey : Quad → ℕ → Type 0
IsGrey p v = (p.b0 ≡ v) × (p.b1 ≡ v) × (p.b2 ≡ v)

pub pair_neutral :
    (c : Coefficients) (p q : Quad) (v : ℕ)
    → IsMatrix c
    → IsGrey p v
    → IsGrey q v
    → ((uyvy_pair c p q).b0 ≡ 128) × ((uyvy_pair c p q).b2 ≡ 128)
unfolding uyvy_pair
pair_neutral c p q v m hp hq =
    let r : (p.b2 + q.b2 + 1) / 2 ≡ v = omega arith in
    let g : (p.b1 + q.b1 + 1) / 2 ≡ v = omega arith in
    let b : (p.b0 + q.b0 + 1) / 2 ≡ v = omega arith in
    let n = grey-IsNeutral c v m in
    (
      ap clamp_byte (ap₂ (λ x (y : ℕ × ℕ). chroma_blue c x y.0 y.1) r (λ i. (g i, b i)) ∙ n.0),
      ap clamp_byte (ap₂ (λ x (y : ℕ × ℕ). chroma_red c x y.0 y.1) r (λ i. (g i, b i)) ∙ n.1),
    )
