-- ===== src/Json/Print.antt =====
-- core/json.cpp: appendEscaped, appendNumber and serializeInto.
use weblinked.Base.{
  ℕ, ◌+◌, ◌*◌, ◌/◌, ◌%◌, Bool, true, false, not, ltb, ◌==◌, if◌then◌else◌, [], ◌∷◌, ◌++◌, replicate,
}
use weblinked.Base.Text.{Text, codes, decimal_ℤ}
use weblinked.Json.{
  Value, Items, Fields, null, bool, number, string, array, object, no_items, item, no_fields, field,
  Doubles,
}

-- A digit of "%x".
abbrev pub hex_char : ℕ → ℕ
hex_char n = if ltb n 10 then 48 + n else 87 + n

-- One byte as appendEscaped writes it.
unfoldable pub escape : ℕ → Text
escape c =
    if c == b'"'
    then b'\\' ∷ b'"' ∷ []
    else if c == b'\\'
    then b'\\' ∷ b'\\' ∷ []
    else if c == 10
    then b'\\' ∷ b'n' ∷ []
    else if c == 13
    then b'\\' ∷ b'r' ∷ []
    else if c == 9
    then b'\\' ∷ b't' ∷ []
    else if c == 8
    then b'\\' ∷ b'b' ∷ []
    else if c == 12
    then b'\\' ∷ b'f' ∷ []
    else if ltb c 0x20
    then b'\\' ∷ b'u' ∷ b'0' ∷ b'0' ∷ hex_char (c / 16) ∷ hex_char (c % 16) ∷ []
    else c ∷ []

unfoldable pub escape_all : Text → Text
escape_all [] = []
escape_all (c ∷ cs) = escape c ++ escape_all cs

unfoldable pub append_escaped : Text → Text
unfolding escape_all
append_escaped t = b'"' ∷ (escape_all t ++ b'"' ∷ [])

unfoldable pub append_number : Doubles → ℕ → Text
append_number d n =
    if not (d.is_finite n)
    then codes "null"
    else if d.is_whole n
    then decimal_ℤ (d.to_int64 n)
    else d.format n

abbrev pub spaces : ℕ → Text
spaces n = replicate n 32

abbrev pub indent : Bool → ℕ → Text
indent pretty depth = if pretty then spaces ((depth + 1) * 2) else []

abbrev pub separator : Bool → Text
separator pretty = if pretty then b',' ∷ 10 ∷ [] else b',' ∷ []

-- What stands behind the bracket that opens, and before the one that closes.
abbrev pub line_end : Bool → Text
line_end pretty = if pretty then 10 ∷ [] else []

abbrev pub closing : Bool → ℕ → Text
closing pretty depth = if pretty then 10 ∷ spaces (depth * 2) else []

abbrev pub colon : Bool → Text
colon pretty = if pretty then b':' ∷ 32 ∷ [] else b':' ∷ []

-- The members of an array and of an object are written with what goes before each: nothing before the
-- first, the separator before the others.
unfoldable mutual
  unfolding append_escaped append_number

  pub serialize_into : Doubles → Bool → ℕ → Value → Text
  serialize_into d pretty depth null = codes "null"
  serialize_into d pretty depth (bool true) = codes "true"
  serialize_into d pretty depth (bool false) = codes "false"
  serialize_into d pretty depth (number n) = append_number d n
  serialize_into d pretty depth (string t) = append_escaped t
  serialize_into d pretty depth (array no_items) = b'[' ∷ b']' ∷ []
  serialize_into d pretty depth (array (item v xs)) =
      b'['
      ∷ (line_end pretty
          ++ (indent pretty depth
              ++ (serialize_into d pretty (depth + 1) v
                  ++ (serialize_items d pretty depth xs ++ (closing pretty depth ++ b']' ∷ [])))))
  serialize_into d pretty depth (object no_fields) = b'{' ∷ b'}' ∷ []
  serialize_into d pretty depth (object (field k v fs)) =
      b'{'
      ∷ (line_end pretty
          ++ (indent pretty depth
              ++ (append_escaped k
                  ++ (colon pretty
                      ++ (serialize_into d pretty (depth + 1) v
                          ++ (serialize_fields d pretty depth fs
                              ++ (closing pretty depth ++ b'}' ∷ [])))))))

  pub serialize_items : Doubles → Bool → ℕ → Items → Text
  serialize_items d pretty depth no_items = []
  serialize_items d pretty depth (item v xs) =
      separator pretty
      ++ (indent pretty depth
          ++ (serialize_into d pretty (depth + 1) v ++ serialize_items d pretty depth xs))

  pub serialize_fields : Doubles → Bool → ℕ → Fields → Text
  serialize_fields d pretty depth no_fields = []
  serialize_fields d pretty depth (field k v fs) =
      separator pretty
      ++ (indent pretty depth
          ++ (append_escaped k
              ++ (colon pretty
                  ++ (serialize_into d pretty (depth + 1) v
                      ++ serialize_fields d pretty depth fs))))

unfoldable pub serialize : Doubles → Bool → Value → Text
unfolding serialize_into
serialize d pretty v = serialize_into d pretty 0 v
