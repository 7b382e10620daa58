-- ===== src/Json/Objects.antt =====
-- core/json.cpp: parseObject on what serialize writes.
use weblinked.Base.{
  ℕ, zero, suc, ◌+◌, ◌≤◌, ◌≡◌, refl, ◌∙◌, ap, Bool, true, if◌then◌else◌, Option, none, some, [],
  ◌∷◌, ◌++◌, length, length-append, arith,
}
use weblinked.Base.Text.{Text}
use weblinked.Json.{
  Value, Fields, object, no_fields, field, Doubles, set_field, Parser, at, skip, consume,
}
use weblinked.Json.Grammar.{parse_member, object_next, object_loop, dispatch, parse_value}
use weblinked.Json.Print.{
  append_escaped, indent, separator, line_end, closing, colon, serialize_into, serialize_fields,
}
use weblinked.Json.Numbers.{stops}
use weblinked.Json.Shape.{
  height, height_fields, IsPlain, ArePlainFields, opens, skip-opens, no_brace, skip-indent,
  opens-serialize,
}
use weblinked.Json.Rounds.{inner_of, object_goes_on, member_back}
use weblinked.Json.Arrays.{ReadsValue, deeper}
use weblinked.Json.Members.{
  set_all, append_fields, set_all-append, count_fields, stops-fields, skip-blank, regroup_member,
  regroup_object, count_fields-le,
}

-- One round of parseObject when its member is read.
member_round :
    (value : Parser → Option Value × Parser) (fuel : ℕ) (acc : Fields) (key : Text) (v : Value)
    (p q : Parser)
    → parse_member value p ≡ (some (key, v), q)
    → object_loop value (suc fuel) acc p ≡ object_next (object_loop value fuel) acc key v q
unfolding object_loop
member_round value fuel acc key v p q e =
    ap
      (λ (r : Option (Text × Value) × Parser). elim r.0 [
        | none ↦ (none, r.1)
        | some (j, w) ↦ object_next (object_loop value fuel) acc j w r.1
      ])
      e

-- A member behind its white space.
member_read :
    (d : Doubles) (pretty : Bool) (depth level : ℕ) (key : Text) (v : Value) (tail : Text)
    (p : Parser)
    → ReadsValue d pretty v
    → IsPlain d v
    → height v ≤ depth
    → stops tail ≡ true
    → skip p.rest
      ≡ append_escaped key ++ (colon pretty ++ (serialize_into d pretty (level + 1) v ++ tail))
    → parse_member (parse_value d depth) p ≡ (some (key, v), at p tail)
member_read d pretty depth level key v tail p rv h k s e =
    let text = serialize_into d pretty (level + 1) v ++ tail in
    let from = (if pretty then 32 ∷ [] else []) ++ text in
    member_back (parse_value d depth) key v pretty text tail p e (
      rv depth (level + 1) tail (at p from) h k s
        (skip-blank pretty text ∙ skip-opens text (opens-serialize d pretty (level + 1) v tail h)))

abbrev pub ReadsFields : Doubles → Bool → Fields → Type 0
ReadsFields d pretty fs =
    (depth level fuel : ℕ) (acc : Fields) (key : Text) (v : Value) (rest : Text) (q : Parser)
    → ArePlainFields d fs
    → height_fields fs ≤ depth
    → count_fields fs ≤ fuel
    → q.rest ≡ serialize_fields d pretty level fs ++ (closing pretty level ++ (b'}' ∷ rest))
    → object_next (object_loop (parse_value d depth) fuel) acc key v q
      ≡ (some (object (set_all (set_field key v acc) fs)), at q rest)

pub fields_step :
    (d : Doubles) (pretty : Bool) (j : Text) (w : Value) (fs : Fields)
    → ReadsValue d pretty w
    → ReadsFields d pretty fs
    → ReadsFields d pretty (field j w fs)
unfolding height count_fields IsPlain serialize_into set_all append_escaped
fields_step d pretty j w fs rw_ rfs depth level zero acc key v rest q h k c e = absurd (omega arith)
fields_step d pretty j w fs rw_ rfs depth level (suc fuel) acc key v rest q h k c e =
    let value = parse_value d depth in
    let behind = closing pretty level ++ (b'}' ∷ rest) in
    let tail = serialize_fields d pretty level fs ++ behind in
    let text = serialize_into d pretty (level + 1) w ++ tail in
    let member = append_escaped j ++ (colon pretty ++ text) in
    let more = indent pretty level ++ member in
    let shape : q.rest ≡ separator pretty ++ more =
      e
      ∙ regroup_member (separator pretty) (indent pretty level) (append_escaped j) (colon pretty)
          (serialize_into d pretty (level + 1) w) (serialize_fields d pretty level fs) behind in
    let inside = at q (line_end pretty ++ more) in
    let read : parse_member value inside ≡ (some (j, w), at inside tail) =
      member_read d pretty depth level j w tail inside rw_ h.0 (omega arith)
        (stops-fields d pretty level fs rest)
        (skip-indent pretty level member ∙ skip-opens member refl) in
    object_goes_on (object_loop value (suc fuel)) acc key v pretty more q shape
    ∙ (member_round value fuel (set_field key v acc) j w inside (at inside tail) read
        ∙ rfs depth level fuel (set_field key v acc) j w rest (at inside tail) h.1.1 (omega arith)
            (omega arith) refl)

object_opens :
    (d : Doubles) (value : Parser → Option Value × Parser) (p : Parser) (inside text : Text)
    → skip inside ≡ text
    → opens text ≡ true
    → dispatch d value b'{' (at p (b'{' ∷ inside))
      ≡ object_loop value (suc (length text)) no_fields (at p text)
unfolding dispatch
object_opens d value p inside text e o =
    ap
      (λ (t : Text). elim (consume b'}' t) [
        | some behind ↦ (some (object no_fields), at p behind)
        | none ↦ object_loop value (suc (length t)) no_fields (at p t)
      ])
      e
    ∙ ap
        (λ (r : Option Text). elim r [
          | some behind ↦ (some (object no_fields), at p behind)
          | none ↦ object_loop value (suc (length text)) no_fields (at p text)
        ])
        (no_brace text o)

pub object_step :
    (d : Doubles) (pretty : Bool) (key : Text) (v : Value) (fs : Fields)
    → ReadsValue d pretty v
    → ReadsFields d pretty fs
    → ReadsValue d pretty (object (field key v fs))
unfolding height IsPlain serialize_into set_field append_fields append_escaped
object_step d pretty key v fs rv rfs =
    deeper d pretty (object (field key v fs)) λ depth level rest p h k s e.
      let value = parse_value d depth in
      let behind = closing pretty level ++ (b'}' ∷ rest) in
      let tail = serialize_fields d pretty level fs ++ behind in
      let text = serialize_into d pretty (level + 1) v ++ tail in
      let member = append_escaped key ++ (colon pretty ++ text) in
      let inside = line_end pretty ++ (indent pretty level ++ member) in
      let shape : skip p.rest ≡ b'{' ∷ inside =
        e
        ∙ ap (λ (t : Text). b'{' ∷ t)
            (regroup_object (line_end pretty) (indent pretty level) (append_escaped key)
              (colon pretty) (serialize_into d pretty (level + 1) v)
              (serialize_fields d pretty level fs) (closing pretty level) (b'}' ∷ []) rest) in
      let skipped : skip inside ≡ member =
        skip-indent pretty level member ∙ skip-opens member refl in
      let read : parse_member value (at p member) ≡ (some (key, v), at p tail) =
        member_read d pretty depth level key v tail (at p member) rv h.0 (omega arith)
          (stops-fields d pretty level fs rest) (skip-opens member refl) in
      let few = count_fields-le d pretty level fs in
      let size = length-append (append_escaped key) (colon pretty ++ text) in
      let behind_colon = length-append (colon pretty) text in
      let behind_value = length-append (serialize_into d pretty (level + 1) v) tail in
      let behind_fields = length-append (serialize_fields d pretty level fs) behind in
      let in_order : set_all (field key v no_fields) fs ≡ field key v fs =
        set_all-append d fs (field key v no_fields) h.1.1 (h.1.0, tt) in
      inner_of d value p b'{' inside shape
      ∙ (object_opens d value p inside member skipped refl
          ∙ (member_round value (length member) no_fields key v (at p member) (at p tail) read
              ∙ (rfs depth level (length member) no_fields key v rest (at p tail) h.1.1
                    (omega arith) (omega arith) refl
                  ∙ ap (λ (gs : Fields). (some (object gs), at p rest)) in_order)))
