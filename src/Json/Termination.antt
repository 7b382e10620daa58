-- ===== src/Json/Termination.antt =====
-- core/json.cpp: what the members of Parser for values leave of the text, against their fuel.
use weblinked.Base.{
  ℕ, zero, suc, ◌<◌, ◌≡◌, ◌≢◌, refl, ◌∙◌, sym, ap, Bool, true, false, ◌==◌, Option, none, some, [],
  ◌∷◌, length, arith, subst,
}
use weblinked.Base.Text.{Text, codes}
use weblinked.Json.{
  Value, Fields, bool, null, no_fields, Doubles, set_field, Message, out_of_fuel, Failure, Parser,
  at, fail, skip, consume, trailing_characters, nesting_too_deep, unexpected_end, expected_object,
  expected_colon, expected_comma_or_brace,
}
use weblinked.Json.Grammar.{
  parse_string, with_key, after_key, parse_member, object_next, object_loop, parse_object, dispatch,
  as_string, start_value, parse_inner, parse_value, parse, Outcome, parsed, failed, finish,
  max_depth,
}
use weblinked.Json.Fuel.{
  is_cut_message, is_cut, Uncut, Keeps, length-skip, length-consume, Keeps-elim, Keeps-if,
  Uncut-fail, Uncut-trans,
}
use weblinked.Json.Loops.{
  IsSound, parse_number-IsSound, parse_string-IsSound, parse_literal-IsSound, parse_array-IsSound,
}

with_key-parser : (key : Text) (r : Option Value × Parser) → (with_key key r).1 ≡ r.1
with_key-parser key (none, q) = refl
with_key-parser key (some v, q) = refl

after_key-Keeps :
    (value : Parser → Option Value × Parser)
    → IsSound value
    → (r : Option Text × Parser) → is_cut r.1.error ≡ false
    → Keeps (after_key value r) r.1
unfolding after_key
after_key-Keeps value sound (none, q) h = (h, omega arith)
after_key-Keeps value sound (some key, q) h =
    let after = length-skip q.rest in
    Keeps-elim q (consume b':' (skip q.rest)) _ _
      (Uncut-fail expected_colon q (at q (skip q.rest)) refl h after)
      λ rest e.
        Uncut-trans q (at q rest) _
          (subst (λ r. Uncut r (at q rest)) (sym (with_key-parser key (value (at q rest))))
            (sound (at q rest) h))
          (omega (arith, length-consume b':' (skip q.rest) rest e))

parse_member-IsSound :
    (value : Parser → Option Value × Parser) → IsSound value → IsSound (parse_member value)
unfolding parse_member
parse_member-IsSound value sound p h =
    let start = at p (skip p.rest) in
    let key = parse_string-IsSound start h in
    Uncut-trans p (parse_string start).1 _ (after_key-Keeps value sound (parse_string start) key.0)
      (omega (arith, key.1, length-skip p.rest))

object_next-Keeps :
    (loop : Fields → Parser → Option Value × Parser) (fs : Fields) (key : Text) (v : Value)
    (q : Parser)
    → is_cut q.error ≡ false
    → ((gs : Fields) (r : Parser)
        → is_cut r.error ≡ false
        → length r.rest < length q.rest
        → Keeps (loop gs r) r)
    → Keeps (object_next loop fs key v q) q
unfolding object_next
object_next-Keeps loop fs key v q h more =
    let after = length-skip q.rest in
    Keeps-elim q (consume b',' (skip q.rest)) _ _
      (Keeps-elim q (consume b'}' (skip q.rest)) _ _
        (Uncut-fail expected_comma_or_brace q (at q (skip q.rest)) refl h after)
        λ rest e. (h, omega (arith, length-consume b'}' (skip q.rest) rest e)))
      λ rest e.
        let less = length-consume b',' (skip q.rest) rest e in
        Uncut-trans q (at q rest) _ (more (set_field key v fs) (at q rest) h (omega arith))
          (omega arith)

object_loop-Keeps :
    (value : Parser → Option Value × Parser)
    → IsSound value
    → (fuel : ℕ) (fs : Fields) (p : Parser) → length p.rest < fuel
    → is_cut p.error ≡ false
    → Keeps (object_loop value fuel fs p) p
unfolding object_loop
object_loop-Keeps value sound zero fs p l h = absurd (omega arith)
object_loop-Keeps value sound (suc fuel) fs p l h =
    let first = parse_member-IsSound value sound p h in
    Keeps-elim p (parse_member value p).0 _ _ first λ (key, v) e.
      Uncut-trans p (parse_member value p).1 _
        (object_next-Keeps (object_loop value fuel) fs key v (parse_member value p).1 first.0
          λ gs r u s. object_loop-Keeps value sound fuel gs r (omega (arith, first.1)) u)
        first.1

parse_object-IsSound :
    (value : Parser → Option Value × Parser) → IsSound value → IsSound (parse_object value)
unfolding parse_object
parse_object-IsSound value sound p h =
    Keeps-elim p (consume b'{' p.rest) _ _ (Uncut-fail expected_object p p refl h (omega arith))
      λ rest e.
        let less = length-consume b'{' p.rest rest e in
        let after = length-skip rest in
        Keeps-elim p (consume b'}' (skip rest)) _ _
          (Uncut-trans p (at p (skip rest)) _
            (object_loop-Keeps value sound (suc (length (skip rest))) no_fields (at p (skip rest))
              (omega arith) h)
            (omega arith))
          λ behind u. (h, omega (arith, length-consume b'}' (skip rest) behind u))

as_string-parser : (r : Option Text × Parser) → (as_string r).1 ≡ r.1
as_string-parser (none, q) = refl
as_string-parser (some v, q) = refl

dispatch-IsSound :
    (d : Doubles) (value : Parser → Option Value × Parser) (c : ℕ)
    → IsSound value
    → IsSound (dispatch d value c)
unfolding dispatch
dispatch-IsSound d value c sound p h =
    Keeps-if p (c == b'{') _ _ (λ t. parse_object-IsSound value sound p h)
      λ t.
        Keeps-if p (c == b'[') _ _ (λ t. parse_array-IsSound value sound p h)
          λ t.
            Keeps-if p (c == b'"') _ _
              (λ t.
                subst (λ r. Uncut r p) (sym (as_string-parser (parse_string p)))
                  (parse_string-IsSound p h))
              λ t.
                Keeps-if p (c == b't') _ _
                  (λ t. parse_literal-IsSound (codes "true") (bool true) p h)
                  λ t.
                    Keeps-if p (c == b'f') _ _
                      (λ t. parse_literal-IsSound (codes "false") (bool false) p h)
                      λ t.
                        Keeps-if p (c == b'n') _ _
                          (λ t. parse_literal-IsSound (codes "null") null p h)
                          λ t. parse_number-IsSound d p h

start_value-Keeps :
    (d : Doubles) (value : Parser → Option Value × Parser) (p : Parser) (t : Text)
    → IsSound value
    → is_cut p.error ≡ false
    → Keeps (start_value d value p t) (at p t)
unfolding start_value
start_value-Keeps d value p [] sound h =
    Uncut-fail unexpected_end (at p []) (at p []) refl h (omega arith)
start_value-Keeps d value p (c ∷ cs) sound h = dispatch-IsSound d value c sound (at p (c ∷ cs)) h

parse_value-IsSound : (d : Doubles) (depth : ℕ) → IsSound (parse_value d depth)
unfolding parse_value parse_inner
parse_value-IsSound d zero p h = Uncut-fail nesting_too_deep p p refl h (omega arith)
parse_value-IsSound d (suc depth) p h =
    Uncut-trans p (at p (skip p.rest)) _
      (start_value-Keeps d (parse_value d depth) p (skip p.rest) (parse_value-IsSound d depth) h)
      (length-skip p.rest)

abbrev outcome_is_cut : Outcome → Bool
outcome_is_cut (parsed v) = false
outcome_is_cut (failed e) = is_cut e

finish_uncut :
    (r : Option Value × Parser) → is_cut r.1.error ≡ false → outcome_is_cut (finish r) ≡ false
unfolding finish
finish_uncut (none, p) h = h
finish_uncut (some v, p) h =
    elim (skip p.rest)
      as (λ (t : Text).
        outcome_is_cut (elim t as (λ x. Outcome) [
          | [] ↦ parsed v
          | c ∷ cs ↦ failed (fail trailing_characters (at p (c ∷ cs))).error
        ])
        ≡ false) [
          | [] ↦ refl
          | c ∷ cs ↦
              (Uncut-fail trailing_characters (at p (c ∷ cs)) (at p (c ∷ cs)) refl h
                (omega arith)).0
        ]

parse_uncut : (d : Doubles) (text : Text) → outcome_is_cut (parse d text) ≡ false
unfolding parse
parse_uncut d text =
    let start : Parser = record { rest = skip text; error = none } in
    finish_uncut (parse_value d max_depth start) (parse_value-IsSound d max_depth start refl).0

message_uncut : (m : Message) → is_cut_message m ≡ false → m ≢ out_of_fuel
message_uncut m h e = cc (h, ap is_cut_message e)

-- No text makes the parser run out of fuel: when it fails, the message is one of the source's.
pub parse-message :
    (d : Doubles) (text : Text) (f : Failure)
    → parse d text ≡ failed (some f)
    → f.message ≢ out_of_fuel
parse-message d text f e = message_uncut f.message (sym (ap outcome_is_cut e) ∙ parse_uncut d text)
