-- ===== src/Json/RoundTrip.antt =====
-- core/json.cpp: the parser on what serialize writes.
use mathlib.Core.List.{append-nil}
use weblinked.Base.{
  ℕ, ◌≤◌, ◌≡◌, refl, ◌∙◌, sym, ap, subst, Bool, true, false, none, some, [], ◌∷◌, ◌++◌,
}
use weblinked.Base.Text.{Text, codes, decimal_ℤ}
use weblinked.Json.{
  Value, Items, null, bool, number, string, array, object, no_items, item, no_fields, field,
  Doubles, push_item, Parser, at, skip,
}
use weblinked.Json.Grammar.{
  parse_literal, array_loop, object_loop, dispatch, parse_value, parse, parsed, finish, max_depth,
}
use weblinked.Json.Print.{serialize_into, serialize}
use weblinked.Json.Numbers.{decimal-StartsNumber, parse_number-decimal}
use weblinked.Json.Shape.{height, IsPlain, opens, skip-opens, opens-serialize, append_number-whole}
use weblinked.Json.Rounds.{
  append_items, append_items-nil, inner_of, literal_back, number_back, string_back, array_closes,
  object_closes,
}
use weblinked.Json.Arrays.{ReadsValue, ReadsItems, deeper, items_step, array_step}
use weblinked.Json.Members.{set_all}
use weblinked.Json.Objects.{ReadsFields, fields_step, object_step}

null_read : (d : Doubles) (pretty : Bool) → ReadsValue d pretty null
unfolding serialize_into dispatch parse_literal
null_read d pretty = deeper d pretty null λ depth level rest p h k s e.
    inner_of d (parse_value d depth) p b'n' (codes "ull" ++ rest) e
    ∙ literal_back (codes "null") rest null p

bool_read : (d : Doubles) (pretty b : Bool) → ReadsValue d pretty (bool b)
unfolding serialize_into dispatch parse_literal
bool_read d pretty true = deeper d pretty (bool true) λ depth level rest p h k s e.
    inner_of d (parse_value d depth) p b't' (codes "rue" ++ rest) e
    ∙ literal_back (codes "true") rest (bool true) p
bool_read d pretty false = deeper d pretty (bool false) λ depth level rest p h k s e.
    inner_of d (parse_value d depth) p b'f' (codes "alse" ++ rest) e
    ∙ literal_back (codes "false") rest (bool false) p

number_read : (d : Doubles) (pretty : Bool) (n : ℕ) → ReadsValue d pretty (number n)
unfolding serialize_into IsPlain
number_read d pretty n = deeper d pretty (number n) λ depth level rest p h k s e.
    let z = d.to_int64 n in
    let shape : skip p.rest ≡ decimal_ℤ z ++ rest =
      e ∙ ap (λ (t : Text). t ++ rest) (append_number-whole d n h) in
    number_back d (parse_value d depth) p (decimal_ℤ z ++ rest) (decimal-StartsNumber z rest) shape
    ∙ (parse_number-decimal d z rest p s ∙ ap (λ (m : ℕ). (some (number m), at p rest)) h.2)

string_read : (d : Doubles) (pretty : Bool) (t : Text) → ReadsValue d pretty (string t)
unfolding serialize_into
string_read d pretty t =
    deeper d pretty (string t)
      λ depth level rest p h k s e. string_back d (parse_value d depth) p t rest e

no_items_read : (d : Doubles) (pretty : Bool) → ReadsValue d pretty (array no_items)
unfolding serialize_into dispatch skip
no_items_read d pretty =
    deeper d pretty (array no_items)
      λ depth level rest p h k s e. inner_of d (parse_value d depth) p b'[' (b']' ∷ rest) e

no_fields_read : (d : Doubles) (pretty : Bool) → ReadsValue d pretty (object no_fields)
unfolding serialize_into dispatch skip
no_fields_read d pretty =
    deeper d pretty (object no_fields)
      λ depth level rest p h k s e. inner_of d (parse_value d depth) p b'{' (b'}' ∷ rest) e

items_end : (d : Doubles) (pretty : Bool) → ReadsItems d pretty no_items
unfolding serialize_into append_items
items_end d pretty depth level fuel acc v rest q h k c e =
    array_closes (array_loop (parse_value d depth) fuel) acc v pretty level rest q e
    ∙ ap (λ (xs : Items). (some (array xs), at q rest)) (sym (append_items-nil (push_item acc v)))

fields_end : (d : Doubles) (pretty : Bool) → ReadsFields d pretty no_fields
unfolding serialize_into set_all
fields_end d pretty depth level fuel acc key v rest q h k c e =
    object_closes (object_loop (parse_value d depth) fuel) acc key v pretty level rest q e

-- A member of an array is read in its place, and so is the array that begins with it.
all_read : (d : Doubles) (pretty : Bool) (v : Value) → ReadsValue d pretty v
all_read d pretty v =
    elim v
      as (ReadsValue d pretty) (λ xs.
        ReadsItems d pretty xs × ReadsValue d pretty (array xs)) (λ fs.
          ReadsFields d pretty fs × ReadsValue d pretty (object fs)) [
            | null ↦ null_read d pretty
            | bool b ↦ bool_read d pretty b
            | number n ↦ number_read d pretty n
            | string t ↦ string_read d pretty t
            | array (xs → ih) ↦ ih.1
            | object (fs → ih) ↦ ih.1
            | no_items ↦ (items_end d pretty, no_items_read d pretty)
            | item (w → ih) (xs → ihs) ↦
                (items_step d pretty w xs ih ihs.0, array_step d pretty w xs ih ihs.0)
            | no_fields ↦ (fields_end d pretty, no_fields_read d pretty)
            | field k (w → ih) (fs → ihs) ↦
                (fields_step d pretty k w fs ih ihs.0, object_step d pretty k w fs ih ihs.0)
          ]

-- What serialize writes for a value, pretty or not, is parsed back as that value, whatever bytes its strings and keys
-- hold: when its numbers are ones that strtod reads from their decimal digits, no object has a key
-- twice, and it nests no deeper than the 64 levels that the parser takes.
pub parse-serialize :
    (d : Doubles) (pretty : Bool) (v : Value)
    → IsPlain d v
    → height v ≤ max_depth
    → parse d (serialize d pretty v) ≡ parsed v
unfolding parse serialize
parse-serialize d pretty v h k =
    let text = serialize_into d pretty 0 v in
    let opened : opens text ≡ true =
      subst (λ (t : Text). opens t ≡ true) (append-nil text) (opens-serialize d pretty 0 v [] h) in
    let here : skip text ≡ text = skip-opens text opened in
    let p : Parser = record { rest = skip text; error = none } in
    let read : parse_value d max_depth p ≡ (some v, at p []) =
      all_read d pretty v max_depth 0 [] p h k refl
        (ap skip here ∙ (here ∙ sym (append-nil text))) in
    ap finish read
