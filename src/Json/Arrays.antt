-- ===== src/Json/Arrays.antt =====
-- core/json.cpp: parseArray on what serialize writes.
use mathlib.Core.List.{append_assoc}
use weblinked.Base.{
  ℕ, zero, suc, ◌+◌, ◌*◌, ◌≤◌, ◌<◌, ◌≡◌, refl, ◌∙◌, ap, Bool, true, false, Option, none, some, [],
  ◌∷◌, ◌++◌, length, length-append, arith,
}
use weblinked.Base.Text.{Text}
use weblinked.Json.{
  Value, Items, null, bool, number, string, array, object, no_items, item, Doubles, push_item,
  Parser, at, skip, consume,
}
use weblinked.Json.Grammar.{array_next, array_loop, dispatch, parse_inner, parse_value}
use weblinked.Json.Print.{
  spaces, indent, separator, line_end, closing, serialize_into, serialize_items,
}
use weblinked.Json.Numbers.{stops}
use weblinked.Json.Shape.{
  height, height_items, IsPlain, ArePlain, opens, skip-opens, no_bracket, skip-indent,
  opens-serialize,
}
use weblinked.Json.Rounds.{append_items, append_items-push, Stands, inner_of, array_goes_on}

-- Five pieces of text with more behind them, bracketed to the right.
pub regroup : (a b c e z : Text) → (a ++ (b ++ (c ++ e))) ++ z ≡ a ++ (b ++ (c ++ (e ++ z)))
regroup a b c e z = simp append_assoc

pub regroup_open :
    (a b c e f z rest : Text)
    → (a ++ (b ++ (c ++ (e ++ (f ++ z))))) ++ rest ≡ a ++ (b ++ (c ++ (e ++ (f ++ (z ++ rest)))))
regroup_open a b c e f z rest = simp append_assoc

pub height_pos : (v : Value) → 0 < height v
unfolding height
height_pos null = omega arith
height_pos (bool b) = omega arith
height_pos (number n) = omega arith
height_pos (string t) = omega arith
height_pos (array xs) = omega arith
height_pos (object fs) = omega arith

unfoldable pub count_items : Items → ℕ
count_items no_items = 0
count_items (item v xs) = suc (count_items xs)

-- No member of an array goes on with a number.
stops-items :
    (d : Doubles) (pretty : Bool) (level : ℕ) (xs : Items) (rest : Text)
    → stops (serialize_items d pretty level xs ++ (closing pretty level ++ (b']' ∷ rest))) ≡ true
unfolding serialize_into
stops-items d true level no_items rest = refl
stops-items d false level no_items rest = refl
stops-items d true level (item v xs) rest = refl
stops-items d false level (item v xs) rest = refl

-- One round of parseArray when its value is read.
loop_round :
    (value : Parser → Option Value × Parser) (fuel : ℕ) (acc : Items) (v : Value) (p q : Parser)
    → value p ≡ (some v, q)
    → array_loop value (suc fuel) acc p ≡ array_next (array_loop value fuel) acc v q
unfolding array_loop
loop_round value fuel acc v p q e =
    ap
      (λ (r : Option Value × Parser). elim r.0 [
        | none ↦ (none, r.1)
        | some w ↦ array_next (array_loop value fuel) acc w r.1
      ])
      e

-- What a loop with fuel left does with members that are read.
abbrev pub ReadsValue : Doubles → Bool → Value → Type 0
ReadsValue d pretty v =
    (depth level : ℕ) (rest : Text) (p : Parser)
    → IsPlain d v
    → height v ≤ depth
    → stops rest ≡ true
    → Stands d pretty level v rest p
    → parse_value d depth p ≡ (some v, at p rest)

abbrev pub ReadsItems : Doubles → Bool → Items → Type 0
ReadsItems d pretty xs =
    (depth level fuel : ℕ) (acc : Items) (v : Value) (rest : Text) (q : Parser)
    → ArePlain d xs
    → height_items xs ≤ depth
    → count_items xs ≤ fuel
    → q.rest ≡ serialize_items d pretty level xs ++ (closing pretty level ++ (b']' ∷ rest))
    → array_next (array_loop (parse_value d depth) fuel) acc v q
      ≡ (some (array (append_items (push_item acc v) xs)), at q rest)

-- A value is read with a depth above none.
pub deeper :
    (d : Doubles) (pretty : Bool) (v : Value)
    → ((depth level : ℕ) (rest : Text) (p : Parser)
        → IsPlain d v
        → height v ≤ suc depth
        → stops rest ≡ true
        → Stands d pretty level v rest p
        → parse_inner d (parse_value d depth) p ≡ (some v, at p rest))
    → ReadsValue d pretty v
unfolding parse_value
deeper d pretty v f zero level rest p h k s e = absurd (omega (arith, height_pos v))
deeper d pretty v f (suc depth) level rest p h k s e = f depth level rest p h k s e

pub items_step :
    (d : Doubles) (pretty : Bool) (w : Value) (xs : Items)
    → ReadsValue d pretty w
    → ReadsItems d pretty xs
    → ReadsItems d pretty (item w xs)
unfolding height count_items IsPlain serialize_into
items_step d pretty w xs rw_ ris depth level zero acc v rest q h k c e = absurd (omega arith)
items_step d pretty w xs rw_ ris depth level (suc fuel) acc v rest q h k c e =
    let value = parse_value d depth in
    let tail = serialize_items d pretty level xs ++ (closing pretty level ++ (b']' ∷ rest)) in
    let text = serialize_into d pretty (level + 1) w ++ tail in
    let more = indent pretty level ++ text in
    let shape : q.rest ≡ separator pretty ++ more =
      e
      ∙ regroup (separator pretty) (indent pretty level) (serialize_into d pretty (level + 1) w)
          (serialize_items d pretty level xs) (closing pretty level ++ (b']' ∷ rest)) in
    let inside = at q (line_end pretty ++ more) in
    let read : value inside ≡ (some w, at inside tail) =
      rw_ depth (level + 1) tail inside h.0 (omega arith) (stops-items d pretty level xs rest) (
        skip-indent pretty level text
        ∙ skip-opens text (opens-serialize d pretty (level + 1) w tail h.0)) in
    array_goes_on (array_loop value (suc fuel)) acc v pretty more q shape
    ∙ (loop_round value fuel (push_item acc v) w inside (at inside tail) read
        ∙ (ris depth level fuel (push_item acc v) w rest (at inside tail) h.1 (omega arith)
              (omega arith) refl
            ∙ ap (λ (ys : Items). (some (array ys), at q rest))
                (append_items-push (push_item acc v) w xs)))

count_items-le :
    (d : Doubles) (pretty : Bool) (level : ℕ) (xs : Items)
    → count_items xs ≤ length (serialize_items d pretty level xs)
unfolding count_items serialize_into
count_items-le d pretty level no_items = omega arith
count_items-le d true level (item v xs) =
    let few = count_items-le d true level xs in
    let size =
      length-append (spaces ((level + 1) * 2))
        (serialize_into d true (level + 1) v ++ serialize_items d true level xs) in
    let size' =
      length-append (serialize_into d true (level + 1) v) (serialize_items d true level xs) in
    omega arith
count_items-le d false level (item v xs) =
    let few = count_items-le d false level xs in
    let size' =
      length-append (serialize_into d false (level + 1) v) (serialize_items d false level xs) in
    omega arith

array_opens :
    (d : Doubles) (value : Parser → Option Value × Parser) (p : Parser) (inside text : Text)
    → skip inside ≡ text
    → opens text ≡ true
    → dispatch d value b'[' (at p (b'[' ∷ inside))
      ≡ array_loop value (suc (length text)) no_items (at p text)
unfolding dispatch
array_opens d value p inside text e o =
    ap
      (λ (t : Text). elim (consume b']' t) [
        | some behind ↦ (some (array no_items), at p behind)
        | none ↦ array_loop value (suc (length t)) no_items (at p t)
      ])
      e
    ∙ ap
        (λ (r : Option Text). elim r [
          | some behind ↦ (some (array no_items), at p behind)
          | none ↦ array_loop value (suc (length text)) no_items (at p text)
        ])
        (no_bracket text o)

pub array_step :
    (d : Doubles) (pretty : Bool) (v : Value) (xs : Items)
    → ReadsValue d pretty v
    → ReadsItems d pretty xs
    → ReadsValue d pretty (array (item v xs))
unfolding height IsPlain serialize_into append_items push_item
array_step d pretty v xs rv ris = deeper d pretty (array (item v xs)) λ depth level rest p h k s e.
    let value = parse_value d depth in
    let behind = closing pretty level ++ (b']' ∷ rest) in
    let tail = serialize_items d pretty level xs ++ behind in
    let text = serialize_into d pretty (level + 1) v ++ tail in
    let inside = line_end pretty ++ (indent pretty level ++ text) in
    let shape : skip p.rest ≡ b'[' ∷ inside =
      e
      ∙ ap (λ (t : Text). b'[' ∷ t)
          (regroup_open (line_end pretty) (indent pretty level)
            (serialize_into d pretty (level + 1) v) (serialize_items d pretty level xs)
            (closing pretty level) (b']' ∷ []) rest) in
    let opened = opens-serialize d pretty (level + 1) v tail h.0 in
    let skipped : skip inside ≡ text = skip-indent pretty level text ∙ skip-opens text opened in
    let read : value (at p text) ≡ (some v, at p tail) =
      rv depth (level + 1) tail (at p text) h.0 (omega arith) (stops-items d pretty level xs rest)
        (skip-opens text opened) in
    let size = length-append (serialize_into d pretty (level + 1) v) tail in
    let size' = length-append (serialize_items d pretty level xs) behind in
    let few = count_items-le d pretty level xs in
    inner_of d value p b'[' inside shape
    ∙ (array_opens d value p inside text skipped opened
        ∙ (loop_round value (length text) no_items v (at p text) (at p tail) read
            ∙ ris depth level (length text) no_items v rest (at p tail) h.1 (omega arith)
                (omega arith) refl))
