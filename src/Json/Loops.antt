-- ===== src/Json/Loops.antt =====
-- core/json.cpp: what the members of Parser for numbers, strings, literals and arrays leave of the text, against
-- their fuel.
use weblinked.Base.{ℕ, zero, suc, ◌≤◌, ◌<◌, ◌≡◌, refl, false, Option, [], ◌∷◌, length, arith}
use weblinked.Base.Text.{Text}
use weblinked.Json.{
  Value, Items, no_items, Doubles, push_item, Parser, at, skip, consume, literal, invalid_literal,
  expected_array, expected_comma_or_bracket, expected_string, invalid_number,
}
use weblinked.Json.Grammar.{
  skip_sign, skip_digits, skip_fraction, skip_exponent, number_end, parse_number, parse_string,
  parse_literal, array_next, array_loop, parse_array,
}
use weblinked.Json.Fuel.{
  is_cut, Keeps, length-skip, length-consume, length-literal, Keeps-elim, Keeps-if, Uncut-fail,
  Uncut-trans, string_loop-Keeps,
}

pub length-skip_sign : (t : Text) → length (skip_sign t) ≤ length t
unfolding skip_sign
length-skip_sign [] = omega arith
length-skip_sign (c ∷ cs) = ground arith

pub length-skip_digits : (t : Text) → length (skip_digits t) ≤ length t
unfolding skip_digits
length-skip_digits [] = omega arith
length-skip_digits (c ∷ cs) = ground (arith, length-skip_digits cs)

pub length-skip_fraction : (t : Text) → length (skip_fraction t).0 ≤ length t
unfolding skip_fraction
length-skip_fraction [] = omega arith
length-skip_fraction (c ∷ cs) = ground (arith, length-skip_digits cs)

pub length-skip_exponent : (t : Text) → length (skip_exponent t) ≤ length t
unfolding skip_exponent
length-skip_exponent [] = omega arith
length-skip_exponent (c ∷ cs) =
    ground (arith, length-skip_digits (skip_sign cs), length-skip_sign cs)

pub length-number_end : (t : Text) → length (number_end t).0 ≤ length t
unfolding number_end
length-number_end t = omega (
  arith,
  length-skip_sign t,
  length-skip_digits (skip_sign t),
  length-skip_fraction (skip_digits (skip_sign t)),
  length-skip_exponent (skip_fraction (skip_digits (skip_sign t))).0,
)

-- A parser that notes no cut loop and leaves no more than it was given.
abbrev pub IsSound {ℓ} : {A : Type ℓ} → (Parser → A × Parser) → Type 0
IsSound parser = (p : Parser) → is_cut p.error ≡ false → Keeps (parser p) p

pub parse_number-IsSound : (d : Doubles) → IsSound (parse_number d)
unfolding parse_number
parse_number-IsSound d p h =
    let left = length-number_end p.rest in
    Keeps-if p (number_end p.rest).1 _ _ (λ t. (h, left))
      λ t. Uncut-fail invalid_number p (at p (number_end p.rest).0) refl h left

pub parse_string-IsSound : IsSound parse_string
unfolding parse_string
parse_string-IsSound p h =
    Keeps-elim p (consume b'"' p.rest) _ _ (Uncut-fail expected_string p p refl h (omega arith))
      λ rest e.
        Uncut-trans p (at p rest) _
          (string_loop-Keeps (suc (length rest)) [] (at p rest) (omega arith) h)
          (omega (arith, length-consume b'"' p.rest rest e))

pub parse_literal-IsSound : (word : Text) (v : Value) → IsSound (parse_literal word v)
unfolding parse_literal
parse_literal-IsSound word v p h =
    Keeps-elim p (literal word p.rest) _ _ (Uncut-fail invalid_literal p p refl h (omega arith))
      λ rest e. (h, length-literal word p.rest rest e)

pub array_next-Keeps :
    (loop : Items → Parser → Option Value × Parser) (xs : Items) (v : Value) (q : Parser)
    → is_cut q.error ≡ false
    → ((ys : Items) (r : Parser)
        → is_cut r.error ≡ false
        → length r.rest < length q.rest
        → Keeps (loop ys r) r)
    → Keeps (array_next loop xs v q) q
unfolding array_next
array_next-Keeps loop xs v q h more =
    let after = length-skip q.rest in
    Keeps-elim q (consume b',' (skip q.rest)) _ _
      (Keeps-elim q (consume b']' (skip q.rest)) _ _
        (Uncut-fail expected_comma_or_bracket q (at q (skip q.rest)) refl h after)
        λ rest e. (h, omega (arith, length-consume b']' (skip q.rest) rest e)))
      λ rest e.
        let less = length-consume b',' (skip q.rest) rest e in
        Uncut-trans q (at q rest) _ (more (push_item xs v) (at q rest) h (omega arith))
          (omega arith)

pub array_loop-Keeps :
    (value : Parser → Option Value × Parser)
    → IsSound value
    → (fuel : ℕ) (xs : Items) (p : Parser) → length p.rest < fuel
    → is_cut p.error ≡ false
    → Keeps (array_loop value fuel xs p) p
unfolding array_loop
array_loop-Keeps value sound zero xs p l h = absurd (omega arith)
array_loop-Keeps value sound (suc fuel) xs p l h =
    let first = sound p h in
    Keeps-elim p (value p).0 _ _ first λ v e.
      Uncut-trans p (value p).1 _
        (array_next-Keeps (array_loop value fuel) xs v (value p).1 first.0
          λ ys r u s. array_loop-Keeps value sound fuel ys r (omega (arith, first.1)) u)
        first.1

pub parse_array-IsSound :
    (value : Parser → Option Value × Parser) → IsSound value → IsSound (parse_array value)
unfolding parse_array
parse_array-IsSound value sound p h =
    Keeps-elim p (consume b'[' p.rest) _ _ (Uncut-fail expected_array p p refl h (omega arith))
      λ rest e.
        let less = length-consume b'[' p.rest rest e in
        let after = length-skip rest in
        Keeps-elim p (consume b']' (skip rest)) _ _
          (Uncut-trans p (at p (skip rest)) _
            (array_loop-Keeps value sound (suc (length (skip rest))) no_items (at p (skip rest))
              (omega arith) h)
            (omega arith))
          λ behind u. (h, omega (arith, length-consume b']' (skip rest) behind u))
