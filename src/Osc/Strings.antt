-- ===== src/Osc/Strings.antt =====
-- OSC strings: what is written is read back, and reading stays within the packet.
use weblinked.Base.{
  ℕ, zero, suc, ◌+◌, ◌-◌, ◌%◌, ◌≤◌, ◌<◌, ◌≡◌, refl, ◌∙◌, sym, ap, ap₂, leb, ◌==◌, if◌then◌else◌,
  Option, none, some, [], ◌∷◌, ◌++◌, length, take, drop, replicate, arith, length-replicate,
}
use weblinked.Osc.{Bytes, padded, text_length, read_string}

-- The zeros that OSC 1.0 puts behind a string: at least one, up to the next multiple of four.
abbrev pub zeros_behind : ℕ → ℕ
zeros_behind n = 4 - n % 4

-- The wire form of a string.
abbrev pub encode_string : Bytes → Bytes
encode_string text = text ++ replicate (zeros_behind (length text)) 0

-- No zero in the text.
abbrev pub IsText : Bytes → Type 0
IsText [] = Unit {0}
IsText (b ∷ bs) = (0 < b) × IsText bs

padded_lem : (n : ℕ) → padded n ≡ n + zeros_behind n
padded_lem n = omega arith

zeros_behind_pos : (n : ℕ) → 0 < zeros_behind n
zeros_behind_pos n = omega arith

text_length-append :
    (text rest : Bytes) → IsText text → text_length (text ++ (0 ∷ rest)) ≡ length text
unfolding text_length
text_length-append [] rest h = refl
text_length-append (b ∷ bs) rest (p, q) = let ih = text_length-append bs rest q in ground arith

take-append : (xs ys : Bytes) → take (length xs) (xs ++ ys) ≡ xs
take-append [] ys = refl
take-append (x ∷ xs) ys = ap (λ l. x ∷ l) (take-append xs ys)

pub length-append : (xs ys : Bytes) → length (xs ++ ys) ≡ length xs + length ys
length-append [] ys = omega arith
length-append (x ∷ xs) ys = omega (arith, length-append xs ys)

drop-append : (xs ys : Bytes) → drop (length xs) (xs ++ ys) ≡ ys
drop-append [] ys = refl
drop-append (x ∷ xs) ys = drop-append xs ys

pub text_length_bound : (bs : Bytes) → text_length bs ≤ length bs
unfolding text_length
text_length_bound [] = omega arith
text_length_bound (b ∷ bs) = let ih = text_length_bound bs in ground arith

-- A string that was read lies within the packet: the offset behind it is no further than the end, and
-- at least four on, by the padded size of the text.
pub read_string-bound :
    (packet : Bytes) (offset : ℕ) (text : Bytes) (behind : ℕ)
    → read_string packet offset ≡ some (text, behind)
    → (behind ≤ length packet) × (offset + 4 ≤ behind)
unfolding read_string
read_string-bound packet offset text behind e = ground arith

pub length-encode_string : (text : Bytes) → length (encode_string text) ≡ padded (length text)
length-encode_string text =
    let n = length text in
    length-append text (replicate (zeros_behind n) 0)
    ∙ (ap (λ (k : ℕ). n + k) (length-replicate (zeros_behind n) 0) ∙ sym (padded_lem n))

-- The padding has a zero at its front.
abbrev zeros : ℕ → Bytes
zeros n = replicate n 0

zero_first : (n : ℕ) → 0 < n → zeros n ≡ 0 ∷ zeros (n - 1)
zero_first zero h = absurd (omega arith)
zero_first (suc n) h = let e : n ≡ suc n - 1 = omega arith in ap (λ (k : ℕ). 0 ∷ zeros k) e

pub append_assoc : (xs ys zs : Bytes) → (xs ++ ys) ++ zs ≡ xs ++ (ys ++ zs)
append_assoc [] ys zs = refl
append_assoc (x ∷ xs) ys zs = ap (λ l. x ∷ l) (append_assoc xs ys zs)

-- What reading comes to when the text and the padding behind the offset are known.
read_at :
    (packet : Bytes) (offset : ℕ) (rest text : Bytes) (n : ℕ)
    → drop offset packet ≡ rest
    → text_length rest ≡ n
    → take n rest ≡ text
    → n < length rest
    → offset + padded n ≤ length packet
    → read_string packet offset ≡ some (text, offset + padded n)
unfolding read_string
read_at packet offset rest text n at front taken some_left fits =
    let e : text_length (drop offset packet) ≡ n = ap text_length at ∙ front in
    let outcome : Bytes → ℕ → Option (Bytes × ℕ) = λ r k.
      if leb (length packet) offset
      then none
      else if k == length r
      then none
      else if leb (offset + padded k) (length packet)
      then some (take k r, offset + padded k)
      else none in
    let read : outcome rest n ≡ some (take n rest, offset + padded n) = ground arith in
    ap₂ outcome at e ∙ (read ∙ ap (λ (t : Bytes). some (t, offset + padded n)) taken)

-- A string that was written into a packet, with anything before and behind it, is read back, and the
-- offset behind it is where the next one begins.
pub read_string_back :
    (before text after : Bytes)
    → IsText text
    → read_string (before ++ (encode_string text ++ after)) (length before)
      ≡ some (text, length before + length (encode_string text))
read_string_back before text after h =
    let n = length text in
    let behind = zeros (zeros_behind n - 1) ++ after in
    let padding : zeros (zeros_behind n) ++ after ≡ 0 ∷ behind =
      ap (λ l. l ++ after) (zero_first (zeros_behind n) (zeros_behind_pos n)) in
    let shape : encode_string text ++ after ≡ text ++ (0 ∷ behind) =
      append_assoc text (zeros (zeros_behind n)) after ∙ ap (λ l. text ++ l) padding in
    let packet = before ++ (encode_string text ++ after) in
    let whole = length-append before (encode_string text ++ after) in
    let part = length-append (encode_string text) after in
    let coded = length-encode_string text in
    let shaped = length-append text (0 ∷ behind) in
    let r =
      read_at packet (length before) (text ++ (0 ∷ behind)) text n
        (drop-append before (encode_string text ++ after) ∙ shape)
        (text_length-append text behind h) (take-append text (0 ∷ behind)) (omega arith)
        (omega arith) in
    r ∙ ap (λ (k : ℕ). some (text, length before + k)) (sym coded)
