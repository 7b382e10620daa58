-- ===== src/Osc/Tests.antt =====
-- OSC packets, byte by byte.
use weblinked.Base.{◌≡◌, refl, none, some, [], ◌∷◌, arith}
use weblinked.Osc.{
  Bytes, text_length, read_string, read_int32, read_argument, read_arguments, read_tags, message_to,
  decode_message,
}
use weblinked.Osc.Strings.{encode_string}
use weblinked.Osc.Messages.{encode_command, command_arrives}

-- "/url" and "abc": the text that is one short of a multiple of four.
abbrev url : Bytes
url = 47 ∷ 117 ∷ 114 ∷ 108 ∷ []

abbrev abc : Bytes
abc = 97 ∷ 98 ∷ 99 ∷ []

-- "/a" with a blob of four bytes: the offset behind the blob is taken to be four further than it is,
-- past the end, and the message is given up.
blob_of_four_dropped :
    decode_message (47 ∷ 97 ∷ 0 ∷ 0 ∷ 44 ∷ 98 ∷ 0 ∷ 0 ∷ 0 ∷ 0 ∷ 0 ∷ 4 ∷ 1 ∷ 2 ∷ 3 ∷ 4 ∷ []) ≡ none
unfolding decode_message read_string read_tags read_arguments read_argument read_int32 text_length
blob_of_four_dropped = refl

-- A blob of three bytes is skipped.
blob_of_three_skipped :
    decode_message (47 ∷ 97 ∷ 0 ∷ 0 ∷ 44 ∷ 98 ∷ 0 ∷ 0 ∷ 0 ∷ 0 ∷ 0 ∷ 3 ∷ 1 ∷ 2 ∷ 3 ∷ 0 ∷ [])
    ≡ some (message_to (47 ∷ 97 ∷ []))
unfolding decode_message read_string read_tags read_arguments read_argument read_int32 text_length
blob_of_three_skipped = refl

url_read : read_string (encode_string url) 0 ≡ some (url, 8)
unfolding read_string text_length
url_read = refl

command_arrives_example :
    decode_message (encode_command url abc) ≡ some (record (message_to url) { strings = abc ∷ [] })
command_arrives_example =
    command_arrives url abc (omega arith, (omega arith, (omega arith, (omega arith, tt))))
      (omega arith, (omega arith, (omega arith, tt))) refl
