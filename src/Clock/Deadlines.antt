-- ===== src/Clock/Deadlines.antt =====
-- The deadlines are exact while the product fits, and the clock neither bursts nor loses count.
use weblinked.Base.{
  ℕ, ◌+◌, ◌-◌, ◌*◌, ◌/◌, ◌^◌, ◌≤◌, ◌<◌, ◌≡◌, refl, ◌∙◌, sym, ap, ap₂, subst, Bool-cases, inl, inr,
  ltb, ◌==◌, ◌&&◌, if◌then◌else◌, arith,
}
use weblinked.Base.Int.{ℤ, pos, ◌+ℤ◌, ◌-ℤ◌, ◌≤ℤ◌, ltb_ℤ, pos_part}
use native.Mathlib.Nat.{le-div_iff_mul-le, div-mul-le_self, mul-le-mul_left, mod-lt, div-add-mod'}
use weblinked.Clock.{
  FrameRate, nanos_per_second, int64, cut_div, deadline, Clock, behind, sleep_for,
  wait_for_next_tick,
}

-- The deadline without the width of a machine word.
abbrev pub exact : FrameRate → ℕ → ℕ
exact rate tick = tick * nanos_per_second * rate.denominator / rate.numerator

-- The product that a deadline needs fits.
abbrev pub IsInRange : FrameRate → ℕ → Type 0
IsInRange rate tick = tick * nanos_per_second * rate.denominator < 2 ^ 63

unwrapped :
    (rate : FrameRate) (x : ℕ)
    → 0 < rate.numerator
    → int64 x ≡ pos x
    → (if rate.numerator == 0 then pos 0 else cut_div (int64 x) rate.numerator)
      ≡ pos (x / rate.numerator)
unwrapped rate x h e =
    let some_left : (if rate.numerator == 0 then pos 0 else cut_div (int64 x) rate.numerator)
        ≡ cut_div (int64 x) rate.numerator =
      ground arith in
    some_left ∙ ap (λ z. cut_div z rate.numerator) e

deadline-exact :
    (rate : FrameRate) (tick : ℕ)
    → 0 < rate.numerator
    → IsInRange rate tick
    → deadline rate tick ≡ pos (exact rate tick)
unfolding deadline
deadline-exact rate tick h fits =
    let x = tick * nanos_per_second * rate.denominator in
    let e : int64 x ≡ pos x = ground arith in unwrapped rate x h e

-- Later ticks are due later by at least the whole periods between them.
exact_apart :
    (rate : FrameRate) (t b : ℕ)
    → 0 < rate.numerator
    → exact rate t + b * exact rate 1 ≤ exact rate (t + b)
exact_apart rate t b h =
    let k = nanos_per_second * rate.denominator in
    let low : exact rate t * rate.numerator ≤ t * nanos_per_second * rate.denominator =
      div-mul-le_self (t * nanos_per_second * rate.denominator) rate.numerator in
    let one : exact rate 1 * rate.numerator ≤ 1 * nanos_per_second * rate.denominator =
      div-mul-le_self (1 * nanos_per_second * rate.denominator) rate.numerator in
    let all = mul-le-mul_left b one in
    let e : (exact rate t + b * exact rate 1) * rate.numerator
        ≡ exact rate t * rate.numerator + b * (exact rate 1 * rate.numerator) =
      grind arith in
    let e' : (t + b) * nanos_per_second * rate.denominator
        ≡ t * nanos_per_second * rate.denominator + b * (1 * nanos_per_second * rate.denominator) =
      grind arith in
    (le-div_iff_mul-le {x = exact rate t + b * exact rate 1}
        {y = (t + b) * nanos_per_second * rate.denominator} h).1
      (omega arith)

-- The ticks that a late wait gives up, in plain numbers.
behind-exact :
    (c : Clock) (now : ℕ)
    → 0 < c.rate.numerator
    → IsInRange c.rate 1
    → IsInRange c.rate c.next
    → behind c (pos now) ≡ (
        if ltb 0 (exact c.rate 1) && ltb (exact c.rate c.next + exact c.rate 1) now
        then (now - exact c.rate c.next) / exact c.rate 1
        else 0)
unfolding behind ◌+ℤ◌ ◌-ℤ◌
behind-exact c now h one here =
    let e1 = deadline-exact c.rate 1 h one in
    let e2 = deadline-exact c.rate c.next h here in
    ap₂
      (λ (p d : ℤ).
        if ltb_ℤ (pos 0) p && ltb_ℤ (d +ℤ p) (pos now)
        then pos_part (pos now -ℤ d) / pos_part p
        else 0)
      e1 e2
    ∙ ground arith

-- No reading is later than one period after the tick that a wait chooses.
caught_up :
    (p d now : ℕ)
    → 0 < p
    → now ≤ d + (if ltb 0 p && ltb (d + p) now then (now - d) / p else 0) * p + p
caught_up p d now h =
    let rest = mod-lt (now - d) h in
    let parts = div-add-mod' (now - d) p in
    elim (Bool-cases (ltb 0 p && ltb (d + p) now)) [
      | inl e ↦
          let jumped : (if ltb 0 p && ltb (d + p) now then (now - d) / p else 0) ≡ (now - d) / p =
            ground arith in
          subst (λ (n : ℕ). now ≤ d + n * p + p) (sym jumped) (omega arith)
      | inr e ↦
          let stayed : (if ltb 0 p && ltb (d + p) now then (now - d) / p else 0) ≡ 0 =
            ground arith in
          let near : now ≤ d + p = ground arith in
          subst (λ (n : ℕ). now ≤ d + n * p + p) (sym stayed) (omega arith)
    ]

-- The sleep reaches the deadline from whatever reading it was worked out with.
slept_enough : (due now : ℤ) → due ≤ℤ now +ℤ pos (sleep_for due now)
unfolding sleep_for ◌+ℤ◌ ◌-ℤ◌
slept_enough due now = ground arith

in_time :
    (c : Clock) (first : ℕ)
    → 0 < c.rate.numerator
    → 0 < exact c.rate 1
    → IsInRange c.rate 1
    → IsInRange c.rate c.next
    → first ≤ exact c.rate (c.next + behind c (pos first) + 1)
in_time c first h some_left one here =
    let b = behind c (pos first) in
    let e = behind-exact c first h one here in
    let late = caught_up (exact c.rate 1) (exact c.rate c.next) first some_left in
    let late' : first ≤ exact c.rate c.next + b * exact c.rate 1 + exact c.rate 1 =
      subst (λ (n : ℕ). first ≤ exact c.rate c.next + n * exact c.rate 1 + exact c.rate 1) (sym e)
        late in
    let far = exact_apart c.rate c.next (b + 1) h in
    let e' : (b + 1) * exact c.rate 1 ≡ b * exact c.rate 1 + exact c.rate 1 = grind arith in
    let e'' : c.next + (b + 1) ≡ c.next + b + 1 = omega arith in
    subst (λ (n : ℕ). first ≤ exact c.rate n) e'' (omega arith)

pos_mono : {a b : ℕ} → a ≤ b → pos a ≤ℤ pos b
pos_mono h = omega arith

IsInRange-before : (rate : FrameRate) (tick : ℕ) → IsInRange rate (tick + 1) → IsInRange rate tick
IsInRange-before rate tick h =
    let e : (tick + 1) * nanos_per_second * rate.denominator
        ≡ tick * nanos_per_second * rate.denominator + nanos_per_second * rate.denominator =
      grind arith in
    omega arith

-- While the products fit in 64 bits, a wait returns a tick not before the one expected; by the time of
-- its first reading the tick after it is not overdue, so late ticks never come in a burst; every
-- tick is either returned or counted as dropped; and the sleep asked for reaches the exact deadline.
pub wait_never_bursts :
    (c : Clock) (first : ℕ) (second third : ℤ)
    → 0 < c.rate.numerator
    → 0 < exact c.rate 1
    → IsInRange c.rate 1
    → IsInRange c.rate c.next
    → IsInRange c.rate (c.next + behind c (pos first) + 1)
    → let after : Clock × (ℕ × ℕ) = wait_for_next_tick c (pos first) second third in
      (c.next ≤ after.1.0)
      × (pos first ≤ℤ deadline c.rate (after.1.0 + 1))
      × (after.0.next ≡ after.1.0 + 1)
      × (after.0.dropped + c.next + 1 ≡ c.dropped + after.0.next)
      × (pos (exact c.rate after.1.0) ≤ℤ second +ℤ pos after.1.1)
unfolding wait_for_next_tick
wait_never_bursts c first second third h some_left one here fits =
    let b = behind c (pos first) in
    let e = deadline-exact c.rate (c.next + b + 1) h fits in
    let reach = in_time c first h some_left one here in
    let fits' : IsInRange c.rate (c.next + b) = IsInRange-before c.rate (c.next + b) fits in
    let e' = deadline-exact c.rate (c.next + b) h fits' in
    let slept = slept_enough (deadline c.rate (c.next + b)) second in
    (
      omega arith,
      subst (λ z. pos first ≤ℤ z) (sym e) (pos_mono reach),
      refl,
      omega arith,
      subst (λ z. z ≤ℤ second +ℤ pos (sleep_for (deadline c.rate (c.next + b)) second)) e' slept,
    )
