-- ===== src/Base/Text.antt =====
-- Text as its bytes: literals, digits and decimal numbers, as std::string and std::to_string have them.
use Prim.Native.Char.{code}
use Prim.Native.String.{String}
use weblinked.Base.Tests.{Bool-cases, ltb, leb, ◌==◌, if◌then◌else◌}
use weblinked.Base.Lists.{length}
use weblinked.Base.Int.{ℤ, pos, negsuc}
use Prim.Native.Nat.{ℕ, zero, suc, ◌+◌, ◌-◌, ◌*◌, ◌/◌, ◌%◌, ◌<◌}
use mathlib.Core.Path.{◌≡◌, refl, ap, ◌∙◌}
use mathlib.Core.Logic.{inl, inr}
use mathlib.Core.Bool.{Bool, true, false, ◌&&◌}
use mathlib.Core.List.{List, [], ◌∷◌}
use native.Mathlib.Omega.{arith}

abbrev pub Text : Type 0
Text = List ℕ

-- The bytes of an ASCII literal.
abbrev pub codes : String → Text
codes String.[] = []
codes (String.◌∷◌ c s) = code c ∷ codes s

abbrev pub is_digit : ℕ → Bool
is_digit c = leb 48 c && leb c 57

-- Equality of two texts.
unfoldable pub same_text : Text → Text → Bool
same_text [] [] = true
same_text [] (y ∷ ys) = false
same_text (x ∷ xs) [] = false
same_text (x ∷ xs) (y ∷ ys) = x == y && same_text xs ys

pub same_text_refl : (t : Text) → same_text t t ≡ true
unfolding same_text
same_text_refl [] = refl
same_text_refl (x ∷ xs) = ground (arith, same_text_refl xs)

pub eq_of_same_text : (s t : Text) → same_text s t ≡ true → s ≡ t
unfolding same_text
eq_of_same_text [] [] h = refl
eq_of_same_text [] (y ∷ ys) h = absurd (ground arith)
eq_of_same_text (x ∷ xs) [] h = absurd (ground arith)
eq_of_same_text (x ∷ xs) (y ∷ ys) h = ground (arith, eq_of_same_text xs ys)

-- The digits of `n` before those already written: enough fuel is one more than `n`.
unfoldable pub digits : ℕ → ℕ → Text → Text
digits zero n acc = acc
digits (suc fuel) n acc =
    let here = (48 + n % 10) ∷ acc in
    let more = digits fuel (n / 10) here in if ltb n 10 then here else more

unfoldable pub decimal : ℕ → Text
unfolding digits
decimal n = digits (suc n) n []

-- std::to_string of a signed number.
unfoldable pub decimal_ℤ : ℤ → Text
unfolding decimal
decimal_ℤ (pos n) = decimal n
decimal_ℤ (negsuc n) = 45 ∷ decimal (suc n)

abbrev pub AllDigits : Text → Type 0
AllDigits [] = Unit {0}
AllDigits (c ∷ cs) = (is_digit c ≡ true) × AllDigits cs

-- What the digits of a text come to, behind a value read so far.
unfoldable pub read_from : ℕ → Text → ℕ
read_from value [] = value
read_from value (c ∷ cs) = read_from (value * 10 + (c - 48)) cs

digits-AllDigits : (fuel n : ℕ) (acc : Text) → AllDigits acc → AllDigits (digits fuel n acc)
unfolding digits
digits-AllDigits zero n acc h = h
digits-AllDigits (suc fuel) n acc h =
    ground (arith, digits-AllDigits fuel (n / 10) ((48 + n % 10) ∷ acc) (ground arith, h))

digits-cons : (fuel n : ℕ) (c : ℕ) (acc : Text) → 0 < length (digits fuel n (c ∷ acc))
unfolding digits
digits-cons zero n c acc = omega arith
digits-cons (suc fuel) n c acc = ground (arith, digits-cons fuel (n / 10) (48 + n % 10) (c ∷ acc))

read_from-digits :
    (fuel n : ℕ) (acc : Text) → n < fuel → read_from 0 (digits fuel n acc) ≡ read_from n acc
unfolding digits read_from
read_from-digits zero n acc h = absurd (omega arith)
read_from-digits (suc fuel) n acc h =
    let ih = read_from-digits fuel (n / 10) ((48 + n % 10) ∷ acc) in
    elim (Bool-cases (ltb n 10)) [
      | inl e ↦
          let one : 0 * 10 + (48 + n % 10 - 48) ≡ n = ground arith in
          rw e (ap (λ (k : ℕ). read_from k acc) one)
      | inr e ↦
          let back : n / 10 * 10 + (48 + n % 10 - 48) ≡ n = omega arith in
          rw e (ih (ground arith) ∙ ap (λ (k : ℕ). read_from k acc) back)
    ]

pub decimal-AllDigits : (n : ℕ) → AllDigits (decimal n)
unfolding decimal
decimal-AllDigits n = digits-AllDigits (suc n) n [] tt

pub decimal_pos : (n : ℕ) → 0 < length (decimal n)
unfolding decimal digits
decimal_pos n = ground (arith, digits-cons n (n / 10) (48 + n % 10) [])

-- What was printed is read back.
pub read_from-decimal : (n : ℕ) → read_from 0 (decimal n) ≡ n
unfolding decimal read_from
read_from-decimal n = read_from-digits (suc n) n [] (omega arith)
