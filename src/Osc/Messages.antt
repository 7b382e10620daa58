-- ===== src/Osc/Messages.antt =====
-- A command with one string reaches the handler as it was sent.
use weblinked.Base.{
  ℕ, ◌+◌, ◌<◌, ◌≡◌, refl, ◌∙◌, sym, ap, subst, some, [], ◌∷◌, ◌++◌, length, drop, get_or, arith,
}
use weblinked.Osc.{
  Bytes, read_string, read_argument, read_arguments, read_tags, Message, message_to, decode_message,
}
use weblinked.Osc.Strings.{encode_string, IsText, read_string_back, length-append, append_assoc}

decode_steps :
    (packet address tags : Bytes) (o1 o2 o3 : ℕ) (m : Message)
    → read_string packet 0 ≡ some (address, o1)
    → get_or address 0 0 ≡ 47
    → read_tags packet o1 ≡ some (tags, o2)
    → read_arguments packet (drop 1 tags) (message_to address) o2 ≡ some (m, o3)
    → decode_message packet ≡ some m
unfolding decode_message
decode_steps packet address tags o1 o2 o3 m e1 slash e2 e3 = ground arith

abbrev pub one_string : Bytes
one_string = 44 ∷ 115 ∷ []

-- The wire form of a message with one string.
abbrev pub encode_command : Bytes → Bytes → Bytes
encode_command address text =
    encode_string address ++ (encode_string one_string ++ (encode_string text ++ []))

get_or-append : (xs ys : Bytes) → get_or (xs ++ ys) (length xs) 0 ≡ get_or ys 0 0
get_or-append [] ys = refl
get_or-append (x ∷ xs) ys = get_or-append xs ys

tags_read :
    (address text : Bytes)
    → read_tags (encode_command address text) (length (encode_string address))
      ≡ some (one_string, length (encode_string address) + length (encode_string one_string))
unfolding read_tags
tags_read address text =
    let packet = encode_command address text in
    let o = length (encode_string address) in
    let comma : get_or packet o 0 ≡ 44 =
      get_or-append (encode_string address)
        (encode_string one_string ++ (encode_string text ++ [])) in
    let whole =
      length-append (encode_string address)
        (encode_string one_string ++ (encode_string text ++ [])) in
    let inside : o < length packet = subst (λ (n : ℕ). o < n) (sym whole) (omega arith) in
    let tested : read_tags packet o ≡ read_string packet o = ground arith in
    tested
    ∙ read_string_back (encode_string address) one_string (encode_string text ++ [])
        (omega arith, (omega arith, tt))

text_read :
    (packet text : Bytes) (m : Message) (o o' : ℕ)
    → read_string packet o ≡ some (text, o')
    → read_arguments packet (115 ∷ []) m o
      ≡ some (record m { strings = m.strings ++ (text ∷ []) }, o')
unfolding read_arguments read_argument
text_read packet text m o o' e = ground arith

-- A message whose address begins with a slash and whose one argument is a string, each text followed by the
-- one to four zeros that bring it to a multiple of four, is decoded to that address and that string, of
-- whatever length either is, when neither holds a zero.
pub command_arrives :
    (address text : Bytes)
    → IsText address
    → IsText text
    → get_or address 0 0 ≡ 47
    → decode_message (encode_command address text)
      ≡ some (record (message_to address) { strings = text ∷ [] })
command_arrives address text ha ht slash =
    let packet = encode_command address text in
    let o = length (encode_string address) in
    let o' = o + length (encode_string one_string) in
    let shape : (encode_string address ++ encode_string one_string) ++ (encode_string text ++ [])
        ≡ packet =
      append_assoc (encode_string address) (encode_string one_string) (encode_string text ++ []) in
    let before = length-append (encode_string address) (encode_string one_string) in
    let last = read_string_back (encode_string address ++ encode_string one_string) text [] ht in
    let from_start : 0 + o ≡ o = omega arith in
    let there : read_string packet o' ≡ some (text, o' + length (encode_string text)) =
      subst
        (λ (p : Bytes × ℕ). read_string p.0 p.1 ≡ some (text, p.1 + length (encode_string text)))
        (λ i. (shape i, before i)) last in
    decode_steps packet address one_string o o' (o' + length (encode_string text))
      (record (message_to address) { strings = text ∷ [] })
      (read_string_back [] address (encode_string one_string ++ (encode_string text ++ [])) ha
        ∙ ap (λ (k : ℕ). some (address, k)) from_start)
      slash (tags_read address text)
      (text_read packet text (message_to address) o' (o' + length (encode_string text)) there)
