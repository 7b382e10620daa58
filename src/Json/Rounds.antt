-- ===== src/Json/Rounds.antt =====
-- One round of each loop of the parser over what serialize wrote, and each case of a value.
use weblinked.Base.{
  ℕ, ◌≡◌, refl, ◌∙◌, ap, Bool, true, false, if◌then◌else◌, Option, none, some, [], ◌∷◌, ◌++◌, arith,
}
use weblinked.Base.Text.{Text}
use weblinked.Json.{
  Value, Items, Fields, string, array, object, no_items, item, Doubles, set_field, push_item,
  Parser, at, fail, invalid_literal, expected_comma_or_bracket, expected_comma_or_brace, skip,
  consume, literal,
}
use weblinked.Json.Grammar.{
  parse_string, parse_literal, parse_number, array_next, with_key, after_key, parse_member,
  object_next, dispatch, start_value, parse_inner, as_string,
}
use weblinked.Json.Print.{
  escape_all, append_escaped, separator, line_end, closing, colon, serialize_into,
}
use weblinked.Json.Numbers.{StartsNumber}
use weblinked.Json.Strings.{append_escaped_back}
use weblinked.Json.Shape.{skip-closing}

-- Members behind those that are there.
unfoldable pub append_items : Items → Items → Items
append_items no_items ys = ys
append_items (item v xs) ys = item v (append_items xs ys)

pub append_items-push :
    (xs : Items) (v : Value) (ys : Items)
    → append_items (push_item xs v) ys ≡ append_items xs (item v ys)
unfolding append_items push_item
append_items-push no_items v ys = refl
append_items-push (item w xs) v ys = ap (item w) (append_items-push xs v ys)

pub append_items-nil : (xs : Items) → append_items xs no_items ≡ xs
unfolding append_items
append_items-nil no_items = refl
append_items-nil (item v xs) = ap (item v) (append_items-nil xs)

-- A value stands behind the white space at a place.
abbrev pub Stands : Doubles → Bool → ℕ → Value → Text → Parser → Type 0
Stands d pretty level v rest p = skip p.rest ≡ serialize_into d pretty level v ++ rest

literal-append : (word rest : Text) → literal word (word ++ rest) ≡ some rest
unfolding literal
literal-append [] rest = refl
literal-append (w ∷ ws) rest = ground (arith, literal-append ws rest)

to_number :
    (d : Doubles) (value : Parser → Option Value × Parser) (p : Parser) (c : ℕ) (cs : Text)
    → StartsNumber (c ∷ cs)
    → dispatch d value c (at p (c ∷ cs)) ≡ parse_number d (at p (c ∷ cs))
to_number d value p c cs h = unfold dispatch in ground arith

pub inner_of :
    (d : Doubles) (value : Parser → Option Value × Parser) (p : Parser) (c : ℕ) (cs : Text)
    → skip p.rest ≡ c ∷ cs
    → parse_inner d value p ≡ dispatch d value c (at p (c ∷ cs))
unfolding parse_inner
inner_of d value p c cs e = ap (start_value d value p) e

-- The cases of a value, by the byte that it begins with.
pub literal_back :
    (word rest : Text) (v : Value) (p : Parser)
    → parse_literal word v (at p (word ++ rest)) ≡ (some v, at p rest)
unfolding parse_literal
literal_back word rest v p =
    let answer : Option Text → Option Value × Parser = λ o. elim o [
      | none ↦ (none, fail invalid_literal (at p (word ++ rest)))
      | some r ↦ (some v, at p r)
    ] in
    ap answer (literal-append word rest)

pub number_back :
    (d : Doubles) (value : Parser → Option Value × Parser) (p : Parser) (t : Text)
    → StartsNumber t
    → skip p.rest ≡ t
    → parse_inner d value p ≡ parse_number d (at p t)
unfolding parse_inner
number_back d value p [] h e = absurd h
number_back d value p (c ∷ cs) h e = ap (start_value d value p) e ∙ to_number d value p c cs h

pub string_back :
    (d : Doubles) (value : Parser → Option Value × Parser) (p : Parser) (t rest : Text)
    → skip p.rest ≡ append_escaped t ++ rest
    → parse_inner d value p ≡ (some (string t), at p rest)
unfolding append_escaped dispatch
string_back d value p t rest e =
    inner_of d value p b'"' (escape_all t ++ (b'"' ∷ []) ++ rest) e
    ∙ ap as_string (append_escaped_back t rest p)

-- A round of an array behind its last value, and behind any other.
comma_first :
    (pretty : Bool) (more : Text)
    → skip (separator pretty ++ more) ≡ b',' ∷ (line_end pretty ++ more)
unfolding skip
comma_first true more = refl
comma_first false more = refl

pub array_closes :
    (loop : Items → Parser → Option Value × Parser) (acc : Items) (v : Value) (pretty : Bool)
    (level : ℕ) (rest : Text) (q : Parser)
    → q.rest ≡ closing pretty level ++ (b']' ∷ rest)
    → array_next loop acc v q ≡ (some (array (push_item acc v)), at q rest)
unfolding array_next consume
array_closes loop acc v pretty level rest q e =
    let after : skip q.rest ≡ b']' ∷ rest = ap skip e ∙ skip-closing pretty level b']' rest refl in
    ap
      (λ (t : Text). elim (consume b',' t) [
        | some r ↦ loop (push_item acc v) (at q r)
        | none ↦ elim (consume b']' t) [
          | some r ↦ (some (array (push_item acc v)), at q r)
          | none ↦ (none, fail expected_comma_or_bracket (at q t))
        ]
      ])
      after

pub array_goes_on :
    (loop : Items → Parser → Option Value × Parser) (acc : Items) (v : Value) (pretty : Bool)
    (more : Text) (q : Parser)
    → q.rest ≡ separator pretty ++ more
    → array_next loop acc v q ≡ loop (push_item acc v) (at q (line_end pretty ++ more))
unfolding array_next consume skip
array_goes_on loop acc v pretty more q e =
    let after : skip q.rest ≡ b',' ∷ (line_end pretty ++ more) =
      ap skip e ∙ comma_first pretty more in
    ap
      (λ (t : Text). elim (consume b',' t) [
        | some r ↦ loop (push_item acc v) (at q r)
        | none ↦ elim (consume b']' t) [
          | some r ↦ (some (array (push_item acc v)), at q r)
          | none ↦ (none, fail expected_comma_or_bracket (at q t))
        ]
      ])
      after

pub object_closes :
    (loop : Fields → Parser → Option Value × Parser) (acc : Fields) (key : Text) (v : Value)
    (pretty : Bool) (level : ℕ) (rest : Text) (q : Parser)
    → q.rest ≡ closing pretty level ++ (b'}' ∷ rest)
    → object_next loop acc key v q ≡ (some (object (set_field key v acc)), at q rest)
unfolding object_next consume
object_closes loop acc key v pretty level rest q e =
    let after : skip q.rest ≡ b'}' ∷ rest = ap skip e ∙ skip-closing pretty level b'}' rest refl in
    ap
      (λ (t : Text). elim (consume b',' t) [
        | some r ↦ loop (set_field key v acc) (at q r)
        | none ↦ elim (consume b'}' t) [
          | some r ↦ (some (object (set_field key v acc)), at q r)
          | none ↦ (none, fail expected_comma_or_brace (at q t))
        ]
      ])
      after

pub object_goes_on :
    (loop : Fields → Parser → Option Value × Parser) (acc : Fields) (key : Text) (v : Value)
    (pretty : Bool) (more : Text) (q : Parser)
    → q.rest ≡ separator pretty ++ more
    → object_next loop acc key v q ≡ loop (set_field key v acc) (at q (line_end pretty ++ more))
unfolding object_next consume skip
object_goes_on loop acc key v pretty more q e =
    let after : skip q.rest ≡ b',' ∷ (line_end pretty ++ more) =
      ap skip e ∙ comma_first pretty more in
    ap
      (λ (t : Text). elim (consume b',' t) [
        | some r ↦ loop (set_field key v acc) (at q r)
        | none ↦ elim (consume b'}' t) [
          | some r ↦ (some (object (set_field key v acc)), at q r)
          | none ↦ (none, fail expected_comma_or_brace (at q t))
        ]
      ])
      after

colon_read :
    (value : Parser → Option Value × Parser) (key : Text) (pretty : Bool) (more : Text) (p : Parser)
    → after_key value (some key, at p (colon pretty ++ more))
      ≡ with_key key (value (at p ((if pretty then 32 ∷ [] else []) ++ more)))
unfolding after_key
colon_read value key true more p = refl
colon_read value key false more p = refl

-- The key and the colon of a member, and then its value by what reads it.
pub member_back :
    (value : Parser → Option Value × Parser) (key : Text) (v : Value) (pretty : Bool)
    (more rest : Text) (p : Parser)
    → skip p.rest ≡ append_escaped key ++ (colon pretty ++ more)
    → value (at p ((if pretty then 32 ∷ [] else []) ++ more)) ≡ (some v, at p rest)
    → parse_member value p ≡ (some (key, v), at p rest)
unfolding parse_member
member_back value key v pretty more rest p e h =
    ap (λ (t : Text). after_key value (parse_string (at p t))) e
    ∙ (ap (after_key value) (append_escaped_back key (colon pretty ++ more) p)
        ∙ (colon_read value key pretty more p ∙ ap (with_key key) h))
