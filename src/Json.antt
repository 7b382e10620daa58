-- ===== src/Json.antt =====
-- core/json.cpp: JSON values and the parser. A text is its bytes. A double is taken as its 64 bits, a natural
-- number, and what the standard library does with one is a parameter (`Doubles`). The parser's place
-- in the text is what is left of it: pos_ is the size of the text less the length of the rest.
pub mod Grammar
pub mod Access
pub mod Print
pub mod Numbers
pub mod Strings
pub mod Shape
pub mod Rounds
pub mod Arrays
pub mod Members
pub mod Objects
pub mod RoundTrip
pub mod Fuel
pub mod Loops
pub mod Termination
mod Tests
use weblinked.Base.{
  ℕ, zero, suc, ◌+◌, ◌-◌, ◌*◌, ◌/◌, ◌%◌, ◌^◌, Bool, true, false, not, ◌&&◌, ◌||◌, ltb, leb, ◌==◌,
  if◌then◌else◌, Option, none, some, List, [], ◌∷◌, ◌++◌, length,
}
use weblinked.Base.Int.{ℤ}
use weblinked.Base.Text.{Text, codes, is_digit, same_text}

-- `items` and `fields` are the members of an array and of an object.
mutual
  pub data Value : Type 0 where
    null : Value
    bool : Bool → Value
    number : ℕ → Value
    string : Text → Value
    array : Items → Value
    object : Fields → Value

  pub data Items : Type 0 where
    no_items : Items
    item : Value → Items → Items

  pub data Fields : Type 0 where
    no_fields : Fields
    field : Text → Value → Fields → Fields

-- What <cmath>, <cstdio> and <cstdlib> do with a double: `is_whole` is the test of appendNumber, and
-- `to_int64` the conversion of a number that passes it.
pub record Doubles : Type 0 where
  pub is_finite : ℕ → Bool
  pub is_whole : ℕ → Bool
  pub is_zero : ℕ → Bool
  pub to_int64 : ℕ → ℤ
  pub round : ℕ → ℤ
  pub format : ℕ → Text
  pub strtod : Text → ℕ
  pub from_bool : Bool → ℕ

-- set() on an object: an existing key keeps its place.
unfoldable pub set_field : Text → Value → Fields → Fields
set_field key v no_fields = field key v no_fields
set_field key v (field k w fs) =
    if same_text k key then field k v fs else field k w (set_field key v fs)

-- push() on an array.
unfoldable pub push_item : Items → Value → Items
push_item no_items v = item v no_items
push_item (item w xs) v = item w (push_item xs v)

-- The messages of fail(), and `out_of_fuel` for a loop that is cut off, which the source does not have.
pub data Message : Type 0 where
  trailing_characters nesting_too_deep unexpected_end invalid_literal : Message
  expected_object expected_colon expected_comma_or_brace : Message
  expected_array expected_comma_or_bracket : Message
  expected_string unterminated_escape invalid_escape unterminated_string : Message
  truncated_hex invalid_hex invalid_number out_of_fuel : Message

-- The first message, and how much of the text was left.
pub record Failure : Type 0 where
  pub message : Message
  pub left : ℕ

pub record Parser : Type 0 where
  pub rest : Text
  pub error : Option Failure

unfoldable pub fail : Message → Parser → Parser
fail m p = record p {
  error = elim p.error [
    | none ↦ some (record { message = m; left = length p.rest })
    | some e ↦ some e
  ];
}

abbrev pub at : Parser → Text → Parser
at p rest = record p { rest = rest }

abbrev pub is_space : ℕ → Bool
is_space c = c == 32 || (c == 9 || (c == 10 || c == 13))

unfoldable pub skip : Text → Text
skip [] = []
skip (c ∷ cs) = if is_space c then skip cs else c ∷ cs

-- consume(): the rest behind the byte, if it stands there.
unfoldable pub consume : ℕ → Text → Option Text
consume expected [] = none
consume expected (c ∷ cs) = if c == expected then some cs else none

unfoldable pub literal : Text → Text → Option Text
literal [] t = some t
literal (w ∷ ws) [] = none
literal (w ∷ ws) (c ∷ cs) = if c == w then literal ws cs else none

abbrev pub hex_digit : ℕ → Option ℕ
hex_digit c =
    if is_digit c
    then some (c - 48)
    else if leb 97 c && leb c 102
    then some (c - 87)
    else if leb 65 c && leb c 70
    then some (c - 55)
    else none

-- The loop of parseHex4: a byte that is no digit has been stepped over too.
unfoldable pub hex_loop : ℕ → ℕ → Text → Option ℕ × Text
hex_loop zero value t = (some value, t)
hex_loop (suc n) value [] = (none, [])
hex_loop (suc n) value (c ∷ cs) = elim (hex_digit c) [
  | none ↦ (none, cs)
  | some d ↦ hex_loop n (value * 16 + d) cs
]

unfoldable pub parse_hex4 : Parser → Option ℕ × Parser
unfolding hex_loop
parse_hex4 p =
    if ltb (length p.rest) 4
    then (none, fail truncated_hex p)
    else let (read, rest) = hex_loop 4 0 p.rest in
      elim read [
        | none ↦ (none, fail invalid_hex (at p rest))
        | some value ↦ (some value, at p rest)
      ]

-- appendUtf8, with the bit operations as arithmetic on a code of at most 21 bits.
unfoldable pub utf8 : ℕ → Text
utf8 code =
    if ltb code 0x80
    then code ∷ []
    else if ltb code 0x800
    then (0xC0 + code / 64) ∷ (0x80 + code % 64) ∷ []
    else if ltb code 0x10000
    then (0xE0 + code / 4096) ∷ (0x80 + code / 64 % 64) ∷ (0x80 + code % 64) ∷ []
    else (0xF0 + code / 262144)
      ∷ (0x80 + code / 4096 % 64)
      ∷ (0x80 + code / 64 % 64)
      ∷ (0x80 + code % 64)
      ∷ []

abbrev pub is_high : ℕ → Bool
is_high code = leb 0xD800 code && leb code 0xDBFF

abbrev pub is_low : ℕ → Bool
is_low code = leb 0xDC00 code && leb code 0xDFFF

-- The second half of a surrogate pair, when the first was read. A second escape that does not fit is
-- left in the text, with the failure of its digits noted.
unfoldable pub pair_with : ℕ → Parser → ℕ × Parser
unfolding parse_hex4
pair_with code p = elim (literal (codes "\\u") p.rest) [
  | none ↦ (code, p)
  | some rest ↦
      let (low, q) = parse_hex4 (at p rest) in
      elim low [
        | none ↦ (code, record q { rest = p.rest })
        | some l ↦
            if is_low l
            then (0x10000 + (code - 0xD800) * 1024 + (l - 0xDC00), q)
            else (code, record q { rest = p.rest })
      ]
]

unfoldable pub parse_unicode : Parser → Option Text × Parser
unfolding parse_hex4 pair_with utf8
parse_unicode p =
    let (read, q) = parse_hex4 p in
    elim read [
      | none ↦ (none, q)
      | some code ↦
          let (whole, r) = if is_high code then pair_with code q else (code, q) in
          (some (utf8 whole), r)
    ]

-- The byte that a one-letter escape stands for.
abbrev pub escaped_byte : ℕ → Option ℕ
escaped_byte e =
    if e == b'"' || (e == b'\\' || e == b'/')
    then some e
    else if e == b'b'
    then some 8
    else if e == b'f'
    then some 12
    else if e == b'n'
    then some 10
    else if e == b'r'
    then some 13
    else if e == b't'
    then some 9
    else none

-- What stands behind a backslash: the bytes that it adds.
unfoldable pub parse_escape : Parser → Option Text × Parser
unfolding parse_unicode
parse_escape p = elim p.rest [
  | [] ↦ (none, fail unterminated_escape p)
  | e ∷ rest ↦ if e == b'u' then parse_unicode (at p rest) else elim (escaped_byte e) [
    | none ↦ (none, fail invalid_escape (at p rest))
    | some byte ↦ (some (byte ∷ []), at p rest)
  ]
]

-- The loop of parseString behind the opening quote.
unfoldable pub string_loop : ℕ → Text → Parser → Option Text × Parser
unfolding parse_escape
string_loop zero out p = (none, fail out_of_fuel p)
string_loop (suc fuel) out p = elim p.rest [
  | [] ↦ (none, fail unterminated_string p)
  | c ∷ rest ↦ if c == b'"' then (some out, at p rest) else elim (c == b'\\') [
    | false ↦ string_loop fuel (out ++ (c ∷ [])) (at p rest)
    | true ↦ elim (parse_escape (at p rest)).0 [
      | none ↦ (none, (parse_escape (at p rest)).1)
      | some bytes ↦ string_loop fuel (out ++ bytes) (parse_escape (at p rest)).1
    ]
  ]
]
