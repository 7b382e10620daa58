-- ===== src/Json/Fuel.antt =====
-- core/json.cpp: what the members of Parser for strings leave of the text, against their fuel.
use weblinked.Base.{
  ℕ, zero, suc, ◌+◌, ◌*◌, ◌≤◌, ◌<◌, ◌≡◌, refl, ap, Bool, true, false, ◌==◌, ltb, if◌then◌else◌,
  Option, none, some, List, [], ◌∷◌, ◌++◌, length, arith,
}
use weblinked.Base.Text.{Text, codes}
use weblinked.Json.{
  Message, out_of_fuel, Failure, Parser, is_low, is_low, is_low, at, fail, truncated_hex,
  invalid_hex, unterminated_escape, invalid_escape, escaped_byte, unterminated_string, is_high,
  skip, consume, literal, hex_digit, hex_loop, parse_hex4, pair_with, parse_unicode, parse_escape,
  string_loop,
}

abbrev pub is_cut_message : Message → Bool
is_cut_message out_of_fuel = true
is_cut_message m = false

abbrev pub is_cut : Option Failure → Bool
is_cut none = false
is_cut (some f) = is_cut_message f.message

-- No loop was cut off, and no more is left than before.
abbrev pub Uncut : Parser → Parser → Type 0
Uncut q p = (is_cut q.error ≡ false) × (length q.rest ≤ length p.rest)

abbrev pub Keeps {ℓ} : {A : Type ℓ} → A × Parser → Parser → Type 0
Keeps r p = Uncut r.1 p

IsUncut-fail :
    (m : Message) (p : Parser)
    → is_cut_message m ≡ false
    → is_cut p.error ≡ false
    → is_cut (fail m p).error ≡ false
unfolding fail
IsUncut-fail m p h k = ground arith

rest-fail : (m : Message) (p : Parser) → (fail m p).rest ≡ p.rest
unfolding fail
rest-fail m p = refl

pub length-skip : (t : Text) → length (skip t) ≤ length t
unfolding skip
length-skip [] = omega arith
length-skip (c ∷ cs) = ground (arith, length-skip cs)

pub length-consume :
    (c : ℕ) (t rest : Text) → consume c t ≡ some rest → suc (length rest) ≡ length t
unfolding consume
length-consume c [] rest h = ground arith
length-consume c (b ∷ bs) rest h = ground arith

pub length-literal : (w t rest : Text) → literal w t ≡ some rest → length rest ≤ length t
unfolding literal
length-literal [] t rest h = ground arith
length-literal (b ∷ bs) [] rest h = ground arith
length-literal (b ∷ bs) (c ∷ cs) rest h = ground (arith, length-literal bs cs rest)

length-hex_loop : (n value : ℕ) (t : Text) → length (hex_loop n value t).1 ≤ length t
unfolding hex_loop
length-hex_loop zero value t = omega arith
length-hex_loop (suc n) value [] = omega arith
length-hex_loop (suc n) value (c ∷ cs) =
    elim (hex_digit c)
      as (λ (o : Option ℕ).
        length {A = ℕ}
          (elim o as (λ x. Option ℕ × Text) [
            | none ↦ (none, cs)
            | some d ↦ hex_loop n (value * 16 + d) cs
          ]).1
        ≤ suc (length cs)) [
          | none ↦ omega arith
          | some d ↦ omega (arith, length-hex_loop n (value * 16 + d) cs)
        ]

pub Keeps-elim {ℓ κ} :
    {A : Type ℓ} {B : Type κ} (p : Parser) (o : Option A) (n : B × Parser) (s : A → B × Parser)
    → Keeps n p
    → ((a : A) → o ≡ some a → Keeps (s a) p)
    → Keeps (elim o as (λ x. B × Parser) [ none ↦ n | some a ↦ s a ]) p
Keeps-elim p none n s h k = h
Keeps-elim p (some a) n s h k = k a refl

pub Keeps-if {κ} :
    {B : Type κ} (p : Parser) (b : Bool) (x y : B × Parser)
    → (b ≡ true → Keeps x p)
    → (b ≡ false → Keeps y p)
    → Keeps (if b then x else y) p
Keeps-if p true x y h k = h refl
Keeps-if p false x y h k = k refl

pub Keeps-list {ℓ κ} :
    {A : Type ℓ} {B : Type κ} (p : Parser) (t : List A) (n : B × Parser)
    (s : A → List A → B × Parser)
    → Keeps n p
    → ((a : A) (rest : List A) → t ≡ a ∷ rest → Keeps (s a rest) p)
    → Keeps (elim t as (λ x. B × Parser) [ [] ↦ n | a ∷ rest ↦ s a rest ]) p
Keeps-list p [] n s h k = h
Keeps-list p (a ∷ rest) n s h k = k a rest refl

pub Keeps-bool {κ} :
    {B : Type κ} (p : Parser) (b : Bool) (x y : B × Parser)
    → Keeps x p
    → Keeps y p
    → Keeps (elim b as (λ t. B × Parser) [ false ↦ x | true ↦ y ]) p
Keeps-bool p true x y h k = k
Keeps-bool p false x y h k = h

pub Uncut-fail :
    (m : Message) (p q : Parser)
    → is_cut_message m ≡ false
    → is_cut q.error ≡ false
    → length q.rest ≤ length p.rest
    → Uncut (fail m q) p
unfolding fail
Uncut-fail m p q u h k = (IsUncut-fail m q u h, k)

pub Uncut-trans : (p q r : Parser) → Uncut r q → length q.rest ≤ length p.rest → Uncut r p
Uncut-trans p q r h k = (h.0, omega arith)

parse_hex4-Keeps : (p : Parser) → is_cut p.error ≡ false → Keeps (parse_hex4 p) p
unfolding parse_hex4
parse_hex4-Keeps p h =
    let left = length-hex_loop 4 0 p.rest in
    Keeps-if p (ltb (length p.rest) 4) _ _ (λ e. Uncut-fail truncated_hex p p refl h (omega arith))
      λ e.
        Keeps-elim p (hex_loop 4 0 p.rest).0 _ _
          (Uncut-fail invalid_hex p (at p (hex_loop 4 0 p.rest).1) refl h left) λ v k. (h, left)

pair_with-Keeps : (code : ℕ) (p : Parser) → is_cut p.error ≡ false → Keeps (pair_with code p) p
unfolding pair_with
pair_with-Keeps code p h =
    Keeps-elim p (literal (codes "\\u") p.rest) _ _ (h, omega arith)
      λ rest e.
        let low = parse_hex4-Keeps (at p rest) h in
        let left = length-literal (codes "\\u") p.rest rest e in
        Keeps-elim p (parse_hex4 (at p rest)).0 _ _ (low.0, omega arith)
          λ l k.
            Keeps-if p (is_low l) _ _ (λ t. Uncut-trans p (at p rest) _ low left)
              λ t. (low.0, omega arith)

parse_unicode-Keeps : (p : Parser) → is_cut p.error ≡ false → Keeps (parse_unicode p) p
unfolding parse_unicode
parse_unicode-Keeps p h =
    let read = parse_hex4-Keeps p h in
    Keeps-elim p (parse_hex4 p).0 _ _ read λ code e.
      Keeps-if p (is_high code) _ _
        (λ t.
          Uncut-trans p (parse_hex4 p).1 _ (pair_with-Keeps code (parse_hex4 p).1 read.0) read.1)
        λ t. read

parse_escape-Keeps : (p : Parser) → is_cut p.error ≡ false → Keeps (parse_escape p) p
unfolding parse_escape
parse_escape-Keeps p h =
    Keeps-list p p.rest _ _ (Uncut-fail unterminated_escape p p refl h (omega arith)) λ e rest k.
      let shorter = ap length k in
      Keeps-if p (e == b'u') _ _
        (λ t. Uncut-trans p (at p rest) _ (parse_unicode-Keeps (at p rest) h) (omega arith))
        λ t.
          Keeps-elim p (escaped_byte e) _ _
            (Uncut-fail invalid_escape p (at p rest) refl h (omega arith))
            λ byte u. (h, omega arith)

pub string_loop-Keeps :
    (fuel : ℕ) (out : Text) (p : Parser)
    → length p.rest < fuel
    → is_cut p.error ≡ false
    → Keeps (string_loop fuel out p) p
unfolding string_loop
string_loop-Keeps zero out p l h = absurd (omega arith)
string_loop-Keeps (suc fuel) out p l h =
    Keeps-list p p.rest _ _ (Uncut-fail unterminated_string p p refl h (omega arith)) λ c rest k.
      let shorter = ap length k in
      let escape = parse_escape-Keeps (at p rest) h in
      Keeps-if p (c == b'"') _ _ (λ t. (h, omega arith))
        λ t.
          Keeps-bool p (c == b'\\') _ _
            (Uncut-trans p (at p rest) _
              (string_loop-Keeps fuel (out ++ (c ∷ [])) (at p rest) (omega arith) h) (omega arith))
            (Keeps-elim p (parse_escape (at p rest)).0 _ _
              (Uncut-trans p (at p rest) _ escape (omega arith))
              λ bytes u.
                Uncut-trans p (parse_escape (at p rest)).1 _
                  (string_loop-Keeps fuel (out ++ bytes) (parse_escape (at p rest)).1
                    (omega (arith, escape.1)) escape.0)
                  (omega (arith, escape.1)))
