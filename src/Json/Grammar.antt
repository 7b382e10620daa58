-- ===== src/Json/Grammar.antt =====
-- core/json.cpp: the members of Parser for whole values. The depth that is left counts down from
-- kMaxDepth, and each loop over members takes the size of what is left as its fuel.
use weblinked.Base.{
  ℕ, zero, suc, ◌-◌, Bool, true, false, ◌||◌, ◌==◌, if◌then◌else◌, Option, none, some, [], ◌∷◌,
  length, take,
}
use weblinked.Base.Text.{Text, codes, is_digit}
use weblinked.Json.{
  Value, Items, Fields, null, bool, number, string, array, object, no_items, no_fields, Doubles,
  set_field, push_item, Parser, Failure, fail, at, skip, consume, literal, string_loop,
  trailing_characters, nesting_too_deep, unexpected_end, invalid_literal, expected_object,
  expected_colon, expected_comma_or_brace, expected_array, expected_comma_or_bracket,
  expected_string, invalid_number, out_of_fuel,
}

unfoldable pub skip_sign : Text → Text
skip_sign [] = []
skip_sign (c ∷ cs) = if c == b'-' || c == b'+' then cs else c ∷ cs

unfoldable pub skip_digits : Text → Text
skip_digits [] = []
skip_digits (c ∷ cs) = if is_digit c then skip_digits cs else c ∷ cs

abbrev pub starts_digit : Text → Bool
starts_digit [] = false
starts_digit (c ∷ cs) = is_digit c

-- The fraction: what is left, and whether it had a digit.
unfoldable pub skip_fraction : Text → Text × Bool
unfolding skip_digits
skip_fraction [] = ([], false)
skip_fraction (c ∷ cs) = if c == b'.' then (skip_digits cs, starts_digit cs) else (c ∷ cs, false)

unfoldable pub skip_exponent : Text → Text
unfolding skip_digits skip_sign
skip_exponent [] = []
skip_exponent (c ∷ cs) = if c == b'e' || c == b'E' then skip_digits (skip_sign cs) else c ∷ cs

-- Where parseNumber comes to, and whether it saw a digit.
unfoldable pub number_end : Text → Text × Bool
unfolding skip_sign skip_digits skip_fraction skip_exponent
number_end t =
    let whole = skip_sign t in
    let (rest, digits) = skip_fraction (skip_digits whole) in
    (skip_exponent rest, starts_digit whole || digits)

unfoldable pub parse_number : Doubles → Parser → Option Value × Parser
unfolding number_end
parse_number d p =
    let (rest, digits) = number_end p.rest in
    if digits
    then (some (number (d.strtod (take (length p.rest - length rest) p.rest))), at p rest)
    else (none, fail invalid_number (at p rest))

unfoldable pub parse_string : Parser → Option Text × Parser
unfolding consume string_loop
parse_string p = elim (consume b'"' p.rest) [
  | none ↦ (none, fail expected_string p)
  | some rest ↦ string_loop (suc (length rest)) [] (at p rest)
]

unfoldable pub parse_literal : Text → Value → Parser → Option Value × Parser
unfolding literal
parse_literal word v p = elim (literal word p.rest) [
  | none ↦ (none, fail invalid_literal p)
  | some rest ↦ (some v, at p rest)
]

-- One round of parseArray behind the value: the comma and the rounds that follow, or the bracket.
unfoldable pub array_next :
    (Items → Parser → Option Value × Parser) → Items → Value → Parser → Option Value × Parser
unfolding skip consume
array_next loop xs v q =
    let after = skip q.rest in
    elim (consume b',' after) [
      | some rest ↦ loop (push_item xs v) (at q rest)
      | none ↦ elim (consume b']' after) [
        | some rest ↦ (some (array (push_item xs v)), at q rest)
        | none ↦ (none, fail expected_comma_or_bracket (at q after))
      ]
    ]

-- The loop of parseArray, with the parser of the values inside.
unfoldable pub array_loop :
    (Parser → Option Value × Parser) → ℕ → Items → Parser → Option Value × Parser
unfolding array_next
array_loop value zero xs p = (none, fail out_of_fuel p)
array_loop value (suc fuel) xs p = elim (value p).0 [
  | none ↦ (none, (value p).1)
  | some v ↦ array_next (array_loop value fuel) xs v (value p).1
]

unfoldable pub parse_array : (Parser → Option Value × Parser) → Parser → Option Value × Parser
unfolding array_loop
parse_array value p = elim (consume b'[' p.rest) [
  | none ↦ (none, fail expected_array p)
  | some rest ↦ elim (consume b']' (skip rest)) [
    | some behind ↦ (some (array no_items), at p behind)
    | none ↦ array_loop value (suc (length (skip rest))) no_items (at p (skip rest))
  ]
]

abbrev pub with_key : Text → Option Value × Parser → Option (Text × Value) × Parser
with_key key (none, p) = (none, p)
with_key key (some v, p) = (some (key, v), p)

-- One member of an object behind its key: the colon and the value.
unfoldable pub after_key :
    (Parser → Option Value × Parser) → Option Text × Parser → Option (Text × Value) × Parser
unfolding skip consume
after_key value (none, q) = (none, q)
after_key value (some key, q) = elim (consume b':' (skip q.rest)) [
  | none ↦ (none, fail expected_colon (at q (skip q.rest)))
  | some rest ↦ with_key key (value (at q rest))
]

unfoldable pub parse_member :
    (Parser → Option Value × Parser) → Parser → Option (Text × Value) × Parser
unfolding parse_string after_key skip
parse_member value p = after_key value (parse_string (at p (skip p.rest)))

-- One round of parseObject behind the member.
unfoldable pub object_next :
    (Fields → Parser → Option Value × Parser)
    → Fields
    → Text
    → Value
    → Parser
    → Option Value × Parser
unfolding skip consume
object_next loop fs key v q =
    let after = skip q.rest in
    elim (consume b',' after) [
      | some rest ↦ loop (set_field key v fs) (at q rest)
      | none ↦ elim (consume b'}' after) [
        | some rest ↦ (some (object (set_field key v fs)), at q rest)
        | none ↦ (none, fail expected_comma_or_brace (at q after))
      ]
    ]

unfoldable pub object_loop :
    (Parser → Option Value × Parser) → ℕ → Fields → Parser → Option Value × Parser
unfolding parse_member object_next
object_loop value zero fs p = (none, fail out_of_fuel p)
object_loop value (suc fuel) fs p = elim (parse_member value p).0 [
  | none ↦ (none, (parse_member value p).1)
  | some (key, v) ↦ object_next (object_loop value fuel) fs key v (parse_member value p).1
]

unfoldable pub parse_object : (Parser → Option Value × Parser) → Parser → Option Value × Parser
unfolding object_loop
parse_object value p = elim (consume b'{' p.rest) [
  | none ↦ (none, fail expected_object p)
  | some rest ↦ elim (consume b'}' (skip rest)) [
    | some behind ↦ (some (object no_fields), at p behind)
    | none ↦ object_loop value (suc (length (skip rest))) no_fields (at p (skip rest))
  ]
]

abbrev pub as_string : Option Text × Parser → Option Value × Parser
as_string (none, p) = (none, p)
as_string (some t, p) = (some (string t), p)

-- parseValueInner behind its white space, by the byte that stands there.
unfoldable pub dispatch :
    Doubles → (Parser → Option Value × Parser) → ℕ → Parser → Option Value × Parser
unfolding parse_object parse_array parse_string parse_literal parse_number
dispatch d value c p =
    if c == b'{'
    then parse_object value p
    else if c == b'['
    then parse_array value p
    else if c == b'"'
    then as_string (parse_string p)
    else if c == b't'
    then parse_literal (codes "true") (bool true) p
    else if c == b'f'
    then parse_literal (codes "false") (bool false) p
    else if c == b'n'
    then parse_literal (codes "null") null p
    else parse_number d p

unfoldable pub start_value :
    Doubles → (Parser → Option Value × Parser) → Parser → Text → Option Value × Parser
unfolding dispatch
start_value d value p [] = (none, fail unexpected_end (at p []))
start_value d value p (c ∷ cs) = dispatch d value c (at p (c ∷ cs))

unfoldable pub parse_inner :
    Doubles → (Parser → Option Value × Parser) → Parser → Option Value × Parser
unfolding start_value skip
parse_inner d value p = start_value d value p (skip p.rest)

-- parseValue, with the depth that is left.
unfoldable pub parse_value : Doubles → ℕ → Parser → Option Value × Parser
unfolding parse_inner
parse_value d zero p = (none, fail nesting_too_deep p)
parse_value d (suc depth) p = parse_inner d (parse_value d depth) p

abbrev pub max_depth : ℕ
max_depth = 64

-- run(): the value, or the failure. The white space in front is skipped twice.
pub data Outcome : Type 0 where
  parsed : Value → Outcome
  failed : Option Failure → Outcome

unfoldable pub finish : Option Value × Parser → Outcome
unfolding skip
finish (none, p) = failed p.error
finish (some v, p) = elim (skip p.rest) [
  | [] ↦ parsed v
  | c ∷ cs ↦ failed (fail trailing_characters (at p (c ∷ cs))).error
]

unfoldable pub parse : Doubles → Text → Outcome
unfolding parse_value finish
parse d text = finish (parse_value d max_depth (record { rest = skip text; error = none }))
