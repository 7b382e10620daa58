-- ===== src/Json/Strings.antt =====
-- core/json.cpp: parseString on what appendEscaped writes.
use mathlib.Core.List.{append-nil, append_assoc}
use weblinked.Base.{
  ℕ, zero, suc, ◌/◌, ◌%◌, ◌<◌, ◌≡◌, ◌≢◌, ℕ_discrete, subst, refl, ◌∙◌, sym, ap, Bool-cases, inl,
  inr, ltb, Option, none, some, [], ◌∷◌, ◌++◌, length, length-append, arith,
}
use weblinked.Base.Text.{Text}
use weblinked.Json.{
  Parser, at, string_loop, parse_escape, parse_unicode, parse_hex4, hex_loop, utf8, consume,
}
use weblinked.Json.Grammar.{parse_string}
use weblinked.Json.Print.{hex_char, escape, escape_all, append_escaped}

-- The control bytes, as \u00xx.
control_back :
    (c : ℕ) (rest : Text) (p : Parser)
    → c < 32
    → parse_escape (at p (b'u' ∷ b'0' ∷ b'0' ∷ hex_char (c / 16) ∷ hex_char (c % 16) ∷ rest))
      ≡ (some (c ∷ []), at p rest)
unfolding parse_escape parse_unicode parse_hex4 hex_loop utf8
control_back c rest p h = ground arith

backslash_step :
    (c fuel : ℕ) (out body rest : Text) (p : Parser)
    → parse_escape (at p body) ≡ (some (c ∷ []), at p rest)
    → string_loop (suc fuel) out (at p (b'\\' ∷ body))
      ≡ string_loop fuel (out ++ (c ∷ [])) (at p rest)
unfolding string_loop
backslash_step c fuel out body rest p e =
    let go_on : Option Text × Parser → Option Text × Parser =
      λ r. elim r.0 [ none ↦ (none, r.1) | some bytes ↦ string_loop fuel (out ++ bytes) r.1 ] in
    ap go_on e

plain_step :
    (c fuel : ℕ) (out rest : Text) (p : Parser)
    → c ≢ b'"'
    → c ≢ b'\\'
    → string_loop (suc fuel) out (at p (c ∷ rest)) ≡ string_loop fuel (out ++ (c ∷ [])) (at p rest)
unfolding string_loop
plain_step c fuel out rest p h k = ground arith

-- The bytes that have an escape of one letter.
abbrev special : Text
special = b'"' ∷ b'\\' ∷ 10 ∷ 13 ∷ 9 ∷ 8 ∷ 12 ∷ []

abbrev All : (ℕ → Type 0) → Text → Type 0
All P [] = Unit {0}
All P (b ∷ bs) = P b × All P bs

abbrev IsNone : ℕ → Text → Type 0
IsNone c [] = Unit {0}
IsNone c (b ∷ bs) = (c ≢ b) × IsNone c bs

-- One escaped byte is one round of the loop.
abbrev GoesBack : ℕ → Type 0
GoesBack c =
    (fuel : ℕ) (out rest : Text) (p : Parser)
    → string_loop (suc fuel) out (at p (escape c ++ rest))
      ≡ string_loop fuel (out ++ (c ∷ [])) (at p rest)

-- The escapes of one letter are checked one by one.
special_or : (bs : Text) (P : ℕ → Type 0) (c : ℕ) → (All P bs) → (IsNone c bs → P c) → P c
special_or [] P c h k = k tt
special_or (b ∷ bs) P c (h, hs) k = elim (ℕ_discrete c b) [
  | yes e ↦ subst P (sym e) h
  | no n ↦ special_or bs P c hs (λ r. k (n, r))
]

ordinary : (c : ℕ) → IsNone c special → GoesBack c
unfolding escape
ordinary c n fuel out rest p = elim (Bool-cases (ltb c 32)) [
  | inl e ↦
      let shown : escape c ++ rest
          ≡ b'\\' ∷ b'u' ∷ b'0' ∷ b'0' ∷ hex_char (c / 16) ∷ hex_char (c % 16) ∷ rest =
        ground arith in
      ap (λ (t : Text). string_loop (suc fuel) out (at p t)) shown
      ∙ backslash_step c fuel out
          (b'u' ∷ b'0' ∷ b'0' ∷ hex_char (c / 16) ∷ hex_char (c % 16) ∷ rest) rest p
          (control_back c rest p (ground arith))
  | inr e ↦
      let shown : escape c ++ rest ≡ c ∷ rest = ground arith in
      ap (λ (t : Text). string_loop (suc fuel) out (at p t)) shown
      ∙ plain_step c fuel out rest p (ground arith) (ground arith)
]

escape_back : (c : ℕ) → GoesBack c
unfolding string_loop escape
escape_back c =
    special_or special GoesBack c
      (
        λ fuel out rest p. refl,
        (
          λ fuel out rest p. refl,
          (
            λ fuel out rest p. refl,
            (
              λ fuel out rest p. refl,
              (λ fuel out rest p. refl, (λ fuel out rest p. refl, (λ fuel out rest p. refl, tt))),
            ),
          ),
        ),
      )
      (ordinary c)

length-escape : (c : ℕ) → 0 < length (escape c)
unfolding escape
length-escape c = ground arith

end_of_string :
    (fuel : ℕ) (out rest : Text) (p : Parser)
    → 0 < fuel
    → string_loop fuel out (at p (b'"' ∷ rest)) ≡ (some out, at p rest)
unfolding string_loop
end_of_string zero out rest p h = absurd (omega arith)
end_of_string (suc fuel) out rest p h = refl

escape_step :
    (fuel c : ℕ) (cs out rest : Text) (p : Parser)
    → length (escape c ++ escape_all cs) < fuel
    → ((fuel : ℕ) (out rest : Text) (p : Parser)
        → length (escape_all cs) < fuel
        → string_loop fuel out (at p (escape_all cs ++ (b'"' ∷ rest)))
          ≡ (some (out ++ cs), at p rest))
    → string_loop fuel out (at p ((escape c ++ escape_all cs) ++ (b'"' ∷ rest)))
      ≡ (some (out ++ (c ∷ cs)), at p rest)
escape_step zero c cs out rest p h ih = absurd (omega arith)
escape_step (suc fuel) c cs out rest p h ih =
    let size = length-append (escape c) (escape_all cs) in
    let some_left = length-escape c in
    ap (λ (t : Text). string_loop (suc fuel) out (at p t))
      (append_assoc (escape c) (escape_all cs) (b'"' ∷ rest))
    ∙ (escape_back c fuel out (escape_all cs ++ (b'"' ∷ rest)) p
        ∙ (ih fuel (out ++ (c ∷ [])) rest p (omega arith)
            ∙ ap (λ (t : Text). (some t, at p rest)) (append_assoc out (c ∷ []) cs)))

escape_all_back :
    (t : Text) (fuel : ℕ) (out rest : Text) (p : Parser)
    → length (escape_all t) < fuel
    → string_loop fuel out (at p (escape_all t ++ (b'"' ∷ rest))) ≡ (some (out ++ t), at p rest)
unfolding escape_all
escape_all_back [] fuel out rest p h =
    end_of_string fuel out rest p h ∙ ap (λ (t : Text). (some t, at p rest)) (sym (append-nil out))
escape_all_back (c ∷ cs) fuel out rest p h = escape_step fuel c cs out rest p h (escape_all_back cs)

-- Whatever bytes a text holds, what appendEscaped writes for it is read back as that text, and reading
-- goes on right behind it.
pub append_escaped_back :
    (t rest : Text) (p : Parser)
    → parse_string (at p (append_escaped t ++ rest)) ≡ (some t, at p rest)
unfolding parse_string append_escaped consume
append_escaped_back t rest p =
    let shape = append_assoc (escape_all t) (b'"' ∷ []) rest in
    let size = length-append (escape_all t) (b'"' ∷ rest) in
    ap (λ (k : Text). string_loop (suc (length k)) [] (at p k)) shape
    ∙ escape_all_back t (suc (length (escape_all t ++ (b'"' ∷ rest)))) [] rest p (omega arith)
