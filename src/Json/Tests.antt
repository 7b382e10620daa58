-- ===== src/Json/Tests.antt =====
-- The parser and the printer on concrete texts, with doubles that stand for small whole numbers.
use weblinked.Base.{◌≡◌, ◌≢◌, refl, true, ltb, ◌==◌, if◌then◌else◌, some, [], ◌∷◌, arith}
use weblinked.Base.Int.{pos}
use weblinked.Base.Text.{codes, read_from, decimal, decimal_ℤ, digits, same_text}
use weblinked.Json.{
  Value, null, bool, number, string, array, object, no_items, item, no_fields, field, Doubles,
  set_field, fail, invalid_hex, expected_colon, trailing_characters, out_of_fuel,
}
use weblinked.Json.Grammar.{parse, parsed, failed}
use weblinked.Json.Print.{serialize}
use weblinked.Json.Shape.{IsPlain, height}
use weblinked.Json.RoundTrip.{parse-serialize}
use weblinked.Json.Termination.{parse-message}
use weblinked.Json.Access.{to_int32}

abbrev small : Doubles
small = record {
  is_finite = λ n. true;
  is_whole = λ n. ltb n 1000;
  is_zero = λ n. n == 0;
  to_int64 = pos;
  round = pos;
  format = decimal;
  strtod = read_from 0;
  from_bool = λ b. if b then 1 else 0;
}

-- {"name": "a\"<newline>\x01", "audio": [1, null, {"gain": true}]}
abbrev sample : Value
sample = object (
    field (codes "name") (string (97 ∷ 34 ∷ 10 ∷ 1 ∷ [])) (
      field (codes "audio")
        (array (
          item (number 1)
            (item null (item (object (field (codes "gain") (bool true) no_fields)) no_items))))
        no_fields))

sample-IsPlain : IsPlain small sample
unfolding IsPlain same_text read_from decimal digits decimal_ℤ
sample-IsPlain = (tt, ((refl, tt), (((refl, refl, refl), (tt, ((tt, (tt, tt)), tt))), (tt, tt))))

parse-serialize_example : parse small (serialize small true sample) ≡ parsed sample
unfolding height
parse-serialize_example = parse-serialize small true sample sample-IsPlain (omega arith)

no_colon :
    parse small (codes "{\"a\" 1}") ≡ failed (some (record { message = expected_colon; left = 2 }))
unfolding parse fail
no_colon = refl

parse-message_example : ◌≢◌ expected_colon out_of_fuel
parse-message_example =
    parse-message small (codes "{\"a\" 1}") (record { message = expected_colon; left = 2 }) no_colon

more_behind :
    parse small (codes " [1] 2")
    ≡ failed (some (record { message = trailing_characters; left = 1 }))
unfolding parse fail
more_behind = refl

-- A second escape that is no digits is kept as text: the first half of a pair stands alone, then u, z, z, z, z.
pair_broken :
    parse small (codes "\"\\ud800\\uzzzz\"")
    ≡ failed (some (record { message = invalid_hex; left = 4 }))
unfolding parse fail
pair_broken = refl

last_key_wins :
    parse small (codes "{\"a\": 1, \"b\": 2, \"a\": 3}")
    ≡ parsed (object (field (codes "a") (number 3) (field (codes "b") (number 2) no_fields)))
unfolding parse set_field same_text read_from
last_key_wins = refl

-- A number past an int is cut to its low 32 bits.
cut_to_int : to_int32 (pos 4294967301) ≡ pos 5
unfolding to_int32
cut_to_int = refl
