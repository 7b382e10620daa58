-- ===== src/Base/Division.antt =====
-- Quotients and remainders by a variable: what the indices of a ring and the clocks need.
use weblinked.Base.Tests.{ltb, if◌then◌else◌}
use Prim.Native.Nat.{ℕ, ◌+◌, ◌-◌, ◌/◌, ◌%◌, ◌≤◌, ◌<◌}
use mathlib.Core.Path.{◌≡◌, ap, ◌∙◌}
use native.Mathlib.Omega.{arith}
use native.Mathlib.Decide.{dec_lt}
use native.Mathlib.Nat.{
  le-div_iff_mul-le, div-mul-le_self, le_trans, mod-eq_of_lt, mod-eq-sub-mod, mod-add-mod,
  add-mod_right,
}

pub div_mono : (a b k : ℕ) → 0 < k → a ≤ b → a / k ≤ b / k
div_mono a b k h le = (le-div_iff_mul-le h).1 (le_trans (div-mul-le_self a k) le)

-- An index that has gone round at most once.
pub mod_once : (x n : ℕ) → x < n + n → x % n ≡ (if ltb x n then x else x - n)
mod_once x n h = elim (dec_lt x n) [
  | yes p ↦ ground (arith, mod-eq_of_lt p)
  | no p ↦ ground (
    arith,
    mod-eq-sub-mod {n = x} {m = n} (omega arith),
    mod-eq_of_lt {n = x - n} {m = n} (omega arith),
  )
]

-- The position `j` on from `at`, seen from `chunk` further on.
pub before_chunk :
    (capacity at chunk j : ℕ)
    → j < chunk
    → chunk ≤ capacity
    → ((at + chunk) % capacity + (j + capacity - chunk)) % capacity ≡ (at + j) % capacity
before_chunk capacity at chunk j h small =
    mod-add-mod (at + chunk) capacity (j + capacity - chunk)
    ∙ ap (λ (k : ℕ). k % capacity) (omega arith)
    ∙ add-mod_right (at + j) capacity

pub after_chunk :
    (capacity at chunk j : ℕ)
    → chunk ≤ j
    → ((at + chunk) % capacity + (j - chunk)) % capacity ≡ (at + j) % capacity
after_chunk capacity at chunk j h =
    mod-add-mod (at + chunk) capacity (j - chunk) ∙ ap (λ (k : ℕ). k % capacity) (omega arith)
