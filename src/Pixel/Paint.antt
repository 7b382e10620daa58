-- ===== src/Pixel/Paint.antt =====
-- The double loop of the conversions: every pixel gets its bytes, and nothing else is touched.
use weblinked.Base.{
  ℕ, zero, suc, ◌+◌, ◌*◌, ◌≤◌, ◌<◌, ◌≡◌, refl, ◌∙◌, sym, subst, ap, ap₂, ◌⊎◌, inl, inr, arith,
}
use weblinked.Pixel.{Memory, Quad, put, quad_at, paint_row, paint}

-- Addresses outside a row keep their bytes.
paint_row_outside :
    (left at : ℕ) (pixel : ℕ → Quad) (x : ℕ) (m : Memory) (a : ℕ)
    → (a < at) ⊎ (at + 4 * left ≤ a)
    → paint_row left at pixel x m a ≡ m a
unfolding paint_row
paint_row_outside zero at pixel x m a h = refl
paint_row_outside (suc left) at pixel x m a (inl h) =
    paint_row_outside left (at + 4) pixel (x + 1) (put m at (pixel x)) a (inl (omega arith))
    ∙ ground arith
paint_row_outside (suc left) at pixel x m a (inr h) =
    paint_row_outside left (at + 4) pixel (x + 1) (put m at (pixel x)) a (inr (omega arith))
    ∙ ground arith

-- A quad is known by its four bytes.
quad_ext : (p q : Quad) → p.b0 ≡ q.b0 → p.b1 ≡ q.b1 → p.b2 ≡ q.b2 → p.b3 ≡ q.b3 → p ≡ q
quad_ext p q e0 e1 e2 e3 i = record { b0 = e0 i; b1 = e1 i; b2 = e2 i; b3 = e3 i }

-- The quad of a column stands at its place.
paint_row_at :
    (left at : ℕ) (pixel : ℕ → Quad) (x : ℕ) (m : Memory) (k : ℕ)
    → k < left
    → quad_at (paint_row left at pixel x m) (at + 4 * k) ≡ pixel (x + k)
unfolding paint_row
paint_row_at zero at pixel x m k h = absurd (omega arith)
paint_row_at (suc left) at pixel x m zero h =
    let m' = put m at (pixel x) in
    let kept : (d : ℕ) → d < 4 → paint_row left (at + 4) pixel (x + 1) m' (at + d) ≡ m' (at + d) =
      λ d h. paint_row_outside left (at + 4) pixel (x + 1) m' (at + d) (inl (omega arith)) in
    let e : at + 4 * 0 ≡ at = omega arith in
    let e' : x + 0 ≡ x = omega arith in
    ap (quad_at (paint_row left (at + 4) pixel (x + 1) m')) e
    ∙ (quad_ext (quad_at (paint_row left (at + 4) pixel (x + 1) m') at) (pixel x)
          (paint_row_outside left (at + 4) pixel (x + 1) m' at (inl (omega arith)) ∙ ground arith)
          (kept 1 (omega arith) ∙ ground arith) (kept 2 (omega arith) ∙ ground arith)
          (kept 3 (omega arith) ∙ ground arith)
        ∙ ap pixel (sym e'))
paint_row_at (suc left) at pixel x m (suc k) h =
    let ih = paint_row_at left (at + 4) pixel (x + 1) (put m at (pixel x)) k (omega arith) in
    let rest = paint_row left (at + 4) pixel (x + 1) (put m at (pixel x)) in
    let e : at + 4 * suc k ≡ at + 4 + 4 * k = omega arith in
    ap (quad_at rest) e ∙ (ih ∙ ap pixel (omega arith))

-- Rows above and the end of the last row hold nothing that the loop writes.
pub paint_outside :
    (left columns stride : ℕ) (pixel : ℕ → ℕ → Quad) (y : ℕ) (m : Memory) (a : ℕ)
    → ((r : ℕ) → r < left → (a < (y + r) * stride) ⊎ ((y + r) * stride + 4 * columns ≤ a))
    → paint left columns stride pixel y m a ≡ m a
unfolding paint
paint_outside zero columns stride pixel y m a h = refl
paint_outside (suc left) columns stride pixel y m a h =
    paint_outside left columns stride pixel (y + 1) (paint_row columns (y * stride) (pixel y) 0 m) a
      (λ r below.
        subst (λ (k : ℕ). (a < k * stride) ⊎ (k * stride + 4 * columns ≤ a)) (omega arith)
          (h (suc r) (omega arith)))
    ∙ paint_row_outside columns (y * stride) (pixel y) 0 m a (
        subst (λ (k : ℕ). (a < k * stride) ⊎ (k * stride + 4 * columns ≤ a)) (omega arith)
          (h 0 (omega arith)))

pub row_after : (y r stride : ℕ) → (suc y + r) * stride ≡ y * stride + stride + r * stride
row_after y r stride = grind arith

-- Every quad of the raster has its value, when a row fits its stride.
pub paint_at :
    (left columns stride : ℕ) (pixel : ℕ → ℕ → Quad) (y : ℕ) (m : Memory) (r k : ℕ)
    → r < left
    → k < columns
    → 4 * columns ≤ stride
    → quad_at (paint left columns stride pixel y m) ((y + r) * stride + 4 * k) ≡ pixel (y + r) k
unfolding paint
paint_at zero columns stride pixel y m r k below inside fits = absurd (omega arith)
paint_at (suc left) columns stride pixel y m zero k below inside fits =
    let m' = paint_row columns (y * stride) (pixel y) 0 m in
    let base = y * stride + 4 * k in
    let kept : (d : ℕ)
        → d < 4
        → paint left columns stride pixel (y + 1) m' (base + d) ≡ m' (base + d) =
      λ d h. paint_outside left columns stride pixel (y + 1) m' (base + d) (λ r h'.
        let e = row_after y r stride in
        let e' : suc y + r ≡ y + 1 + r = omega arith in
        inl (subst (λ (n : ℕ). base + d < n * stride) e' (omega arith))) in
    let first : quad_at (paint left columns stride pixel (y + 1) m') base ≡ quad_at m' base =
      quad_ext (quad_at (paint left columns stride pixel (y + 1) m') base) (quad_at m' base)
        (subst (λ (n : ℕ). paint left columns stride pixel (y + 1) m' n ≡ m' n) (omega arith)
          (kept 0 (omega arith)))
        (kept 1 (omega arith)) (kept 2 (omega arith)) (kept 3 (omega arith)) in
    let e : y + 0 ≡ y = omega arith in
    let k_eq : 0 + k ≡ k = omega arith in
    ap (λ (n : ℕ). quad_at (paint left columns stride pixel (y + 1) m') (n * stride + 4 * k)) e
    ∙ (first ∙ (paint_row_at columns (y * stride) (pixel y) 0 m k inside ∙ ap₂ pixel (sym e) k_eq))
paint_at (suc left) columns stride pixel y m (suc r) k below inside fits =
    let rest =
      paint left columns stride pixel (y + 1) (paint_row columns (y * stride) (pixel y) 0 m) in
    let e : y + suc r ≡ y + 1 + r = omega arith in
    ap (λ (n : ℕ). quad_at rest (n * stride + 4 * k)) e
    ∙ (paint_at left columns stride pixel (y + 1) (paint_row columns (y * stride) (pixel y) 0 m) r k
          (omega arith) inside fits
        ∙ ap (λ (n : ℕ). pixel n k) (sym e))

-- Both from the first row on, which is how the conversions call the loop.
pub painted_at :
    (rows columns stride : ℕ) (pixel : ℕ → ℕ → Quad) (m : Memory) (r k : ℕ)
    → r < rows
    → k < columns
    → 4 * columns ≤ stride
    → quad_at (paint rows columns stride pixel 0 m) (r * stride + 4 * k) ≡ pixel r k
painted_at rows columns stride pixel m r k below inside fits =
    let e : 0 + r ≡ r = omega arith in
    subst
      (λ (n : ℕ). quad_at (paint rows columns stride pixel 0 m) (n * stride + 4 * k) ≡ pixel n k) e
      (paint_at rows columns stride pixel 0 m r k below inside fits)

-- An address that no row of `row_bytes` at a stride holds.
abbrev pub IsOutside : ℕ → ℕ → ℕ → ℕ → Type 0
IsOutside rows row_bytes stride a =
    (r : ℕ) → r < rows → (a < r * stride) ⊎ (r * stride + row_bytes ≤ a)

pub painted_outside :
    (rows columns stride : ℕ) (pixel : ℕ → ℕ → Quad) (m : Memory) (a : ℕ)
    → IsOutside rows (4 * columns) stride a
    → paint rows columns stride pixel 0 m a ≡ m a
painted_outside rows columns stride pixel m a out =
    paint_outside rows columns stride pixel 0 m a (λ r h.
      let e : r ≡ 0 + r = omega arith in
      subst (λ (n : ℕ). (a < n * stride) ⊎ (n * stride + 4 * columns ≤ a)) e (out r h))
