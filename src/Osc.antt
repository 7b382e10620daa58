-- ===== src/Osc.antt =====
-- control/osc_server.cpp: how a packet becomes the messages that the handler gets. A packet is its bytes;
-- an offset is a natural number, and a packet is never so long that adding to one wraps. A float stays
-- the four bytes that it came in, as the 32-bit number they make.
pub mod Strings
pub mod Messages
mod Tests
use weblinked.Base.{
  ℕ, zero, suc, ◌+◌, ◌-◌, ◌*◌, ◌/◌, ◌%◌, ◌^◌, Bool, true, false, not, ◌&&◌, ◌||◌, ltb, leb, ◌==◌,
  if◌then◌else◌, Option, none, some, List, [], ◌∷◌, ◌++◌, length, get_or, take, drop,
}

abbrev pub Bytes : Type 0
Bytes = List ℕ

-- `(textLength + 4) & ~3`
abbrev pub padded : ℕ → ℕ
padded n = (n + 4) / 4 * 4

-- strnlen: how many bytes come before the first zero, or all of them.
unfoldable pub text_length : Bytes → ℕ
text_length [] = 0
text_length (b ∷ bs) = let rest = text_length bs in if b == 0 then 0 else suc rest

-- The string and the offset behind it.
unfoldable pub read_string : Bytes → ℕ → Option (Bytes × ℕ)
read_string packet offset =
    let rest = drop offset packet in
    let n = text_length rest in
    if leb (length packet) offset
    then none
    else if n == length rest
    then none
    else if leb (offset + padded n) (length packet)
    then some (take n rest, offset + padded n)
    else none

-- Four bytes, the most significant first, and the offset behind them.
unfoldable pub read_int32 : Bytes → ℕ → Option (ℕ × ℕ)
read_int32 packet offset =
    if ltb (length packet) (offset + 4)
    then none
    else some (
      get_or packet offset 0 * 2 ^ 24
          + get_or packet (offset + 1) 0 * 2 ^ 16
          + get_or packet (offset + 2) 0 * 2 ^ 8
          + get_or packet (offset + 3) 0,
      offset + 4,
    )

-- A number from the wire that is below zero as an int32_t.
abbrev pub is_negative : ℕ → Bool
is_negative n = leb (2 ^ 31) n

pub record Message : Type 0 where
  pub address : Bytes
  pub ints : List ℕ
  pub floats : List ℕ
  pub strings : List Bytes

-- What the switch does with one tag: the message and the offset, or the whole message given up.
-- The tags, by their ASCII codes: i f s S T F N I b d h t.
unfoldable pub read_argument : Bytes → ℕ → Message → ℕ → Option (Message × ℕ)
unfolding read_string read_int32
read_argument packet tag m offset =
    if tag == 105
    then elim (read_int32 packet offset) [
      | none ↦ none
      | some r ↦ some (record m { ints = m.ints ++ (r.0 ∷ []) }, r.1)
    ]
    else if tag == 102
    then elim (read_int32 packet offset) [
      | none ↦ none
      | some r ↦ some (record m { floats = m.floats ++ (r.0 ∷ []) }, r.1)
    ]
    else if tag == 115 || tag == 83
    then elim (read_string packet offset) [
      | none ↦ none
      | some r ↦ some (record m { strings = m.strings ++ (r.0 ∷ []) }, r.1)
    ]
    else if tag == 84
    then some (record m { ints = m.ints ++ (1 ∷ []) }, offset)
    else if tag == 70
    then some (record m { ints = m.ints ++ (0 ∷ []) }, offset)
    else if tag == 78 || tag == 73
    then some (m, offset)
    else if tag == 98
    then elim (read_int32 packet offset) [
      | none ↦ none
      | some r ↦
          if is_negative r.0
          then none
          else if leb (r.1 + padded r.0) (length packet)
          then some (m, r.1 + padded r.0)
          else none
    ]
    else if tag == 100 || (tag == 104 || tag == 116)
    then (if leb (offset + 8) (length packet) then some (m, offset + 8) else none)
    else none

unfoldable pub read_arguments : Bytes → Bytes → Message → ℕ → Option (Message × ℕ)
read_arguments packet [] m offset = some (m, offset)
read_arguments packet (tag ∷ tags) m offset = elim (read_argument packet tag m offset) [
  | none ↦ none
  | some r ↦ read_arguments packet tags r.0 r.1
]

-- The tag string is there when a comma stands at the offset.
unfoldable pub read_tags : Bytes → ℕ → Option (Bytes × ℕ)
unfolding read_string
read_tags packet offset =
    if ltb offset (length packet) && (get_or packet offset 0 == 44)
    then read_string packet offset
    else some ([], offset)

abbrev pub message_to : Bytes → Message
message_to address = record { address = address; ints = []; floats = []; strings = [] }

-- A packet that is not a bundle.
unfoldable pub decode_message : Bytes → Option Message
unfolding read_string read_tags read_arguments
decode_message packet = elim (read_string packet 0) [
  | none ↦ none
  | some a ↦ if not (get_or a.0 0 0 == 47) then none else elim (read_tags packet a.1) [
    | none ↦ none
    | some t ↦ elim (read_arguments packet (drop 1 t.0) (message_to a.0) t.1) [
      | none ↦ none
      | some r ↦ some r.0
    ]
  ]
]
