-- ===== src/Json/Numbers.antt =====
-- core/json.cpp: parseNumber on the digits of a whole number.
use weblinked.Base.{
  ℕ, suc, ◌-◌, ◌<◌, ◌≡◌, refl, ◌∙◌, ap, ap₂, Bool, true, false, not, ◌||◌, ◌==◌, if◌then◌else◌,
  Option, none, some, [], ◌∷◌, ◌++◌, length, take, length-append, arith,
}
use weblinked.Base.Int.{ℤ, pos, negsuc}
use weblinked.Base.Text.{
  Text, AllDigits, is_digit, decimal, decimal_ℤ, decimal-AllDigits, decimal_pos,
}
use weblinked.Json.{Value, number, Doubles, Parser, at, fail, invalid_number}
use weblinked.Json.Grammar.{
  skip_sign, skip_digits, skip_fraction, skip_exponent, starts_digit, number_end, parse_number,
}

-- The text behind a number does not go on with it.
abbrev pub stops : Text → Bool
stops [] = true
stops (c ∷ cs) = not (is_digit c || (c == b'.' || (c == b'e' || c == b'E')))

skip_digits-append :
    (t rest : Text) → AllDigits t → stops rest ≡ true → skip_digits (t ++ rest) ≡ rest
unfolding skip_digits
skip_digits-append [] [] h k = refl
skip_digits-append [] (c ∷ cs) h k = ground arith
skip_digits-append (c ∷ cs) rest h k = ground (arith, skip_digits-append cs rest h.1 k)

take_all : (xs ys : Text) → take (length xs) (xs ++ ys) ≡ xs
take_all [] ys = refl
take_all (x ∷ xs) ys = ap (λ (t : Text). x ∷ t) (take_all xs ys)

take-append : (xs ys : Text) → take (length (xs ++ ys) - length ys) (xs ++ ys) ≡ xs
take-append xs ys =
    let size = length-append xs ys in
    let e : length (xs ++ ys) - length ys ≡ length xs = omega arith in
    ap (λ (n : ℕ). take n (xs ++ ys)) e ∙ take_all xs ys

fraction_stops : (rest : Text) → stops rest ≡ true → skip_fraction rest ≡ (rest, false)
unfolding skip_fraction
fraction_stops [] h = refl
fraction_stops (c ∷ cs) h = ground arith

exponent_stops : (rest : Text) → stops rest ≡ true → skip_exponent rest ≡ rest
unfolding skip_exponent
exponent_stops [] h = refl
exponent_stops (c ∷ cs) h = ground arith

number_end_of :
    (t whole rest : Text)
    → skip_sign t ≡ whole
    → skip_digits whole ≡ rest
    → starts_digit whole ≡ true
    → stops rest ≡ true
    → number_end t ≡ (rest, true)
unfolding number_end
number_end_of t whole rest e e' k s =
    let behind : Text → Bool → Text × Bool =
      λ r b. (skip_exponent (skip_fraction r).0, b || (skip_fraction r).1) in
    let left : skip_digits (skip_sign t) ≡ rest = ap skip_digits e ∙ e' in
    let digit : starts_digit (skip_sign t) ≡ true = ap starts_digit e ∙ k in
    ap₂ behind left digit
    ∙ ap (λ (r : Text). (r, true))
        (ap (λ (q : Text × Bool). skip_exponent q.0) (fraction_stops rest s)
          ∙ exponent_stops rest s)

starts-AllDigits : (t rest : Text) → AllDigits t → 0 < length t → starts_digit (t ++ rest) ≡ true
starts-AllDigits [] rest h k = absurd (omega arith)
starts-AllDigits (c ∷ cs) rest h k = h.0

unsigned : (t : Text) → starts_digit t ≡ true → skip_sign t ≡ t
unfolding skip_sign
unsigned [] h = refl
unsigned (c ∷ cs) h = ground arith

signed : (t : Text) → skip_sign (b'-' ∷ t) ≡ t
unfolding skip_sign
signed t = refl

-- The decimal form of a number is scanned to its end.
decimal_end :
    (z : ℤ) (rest : Text) → stops rest ≡ true → number_end (decimal_ℤ z ++ rest) ≡ (rest, true)
unfolding decimal_ℤ
decimal_end (pos n) rest s =
    let digits = decimal-AllDigits n in
    let start = starts-AllDigits (decimal n) rest digits (decimal_pos n) in
    number_end_of (decimal n ++ rest) (decimal n ++ rest) rest (unsigned (decimal n ++ rest) start)
      (skip_digits-append (decimal n) rest digits s) start s
decimal_end (negsuc n) rest s =
    let digits = decimal-AllDigits (suc n) in
    let start = starts-AllDigits (decimal (suc n)) rest digits (decimal_pos (suc n)) in
    number_end_of (b'-' ∷ (decimal (suc n) ++ rest)) (decimal (suc n) ++ rest) rest
      (signed (decimal (suc n) ++ rest)) (skip_digits-append (decimal (suc n)) rest digits s) start
      s

-- What stands first in a number: a digit or a minus.
abbrev pub StartsNumber : Text → Type 0
StartsNumber [] = ⊥
StartsNumber (c ∷ cs) = (is_digit c || c == b'-') ≡ true

starts_with_digit : (t : Text) → starts_digit t ≡ true → StartsNumber t
starts_with_digit [] h = ground arith
starts_with_digit (c ∷ cs) h = ground arith

pub decimal-StartsNumber : (z : ℤ) (rest : Text) → StartsNumber (decimal_ℤ z ++ rest)
unfolding decimal_ℤ
decimal-StartsNumber (pos n) rest =
    starts_with_digit (decimal n ++ rest)
      (starts-AllDigits (decimal n) rest (decimal-AllDigits n) (decimal_pos n))
decimal-StartsNumber (negsuc n) rest = refl

-- A number written in decimal is read as what strtod makes of it, and reading goes on behind it.
pub parse_number-decimal :
    (d : Doubles) (z : ℤ) (rest : Text) (p : Parser)
    → stops rest ≡ true
    → parse_number d (at p (decimal_ℤ z ++ rest))
      ≡ (some (number (d.strtod (decimal_ℤ z))), at p rest)
unfolding parse_number
parse_number-decimal d z rest p s =
    let t = decimal_ℤ z ++ rest in
    let answer : Text × Bool → Option Value × Parser = λ r.
      if r.1
      then (some (number (d.strtod (take (length t - length r.0) t))), at p r.0)
      else (none, fail invalid_number (at p r.0)) in
    ap answer (decimal_end z rest s)
    ∙ ap (λ (k : Text). (some (number (d.strtod k)), at p rest)) (take-append (decimal_ℤ z) rest)
