-- ===== src/Json/Shape.antt =====
-- What the round trip of values speaks of: plain values, their height, and the white space and first
-- bytes of what was printed.
use weblinked.Base.{
  ℕ, zero, suc, ◌+◌, ◌*◌, max, ◌≡◌, refl, ◌∙◌, ap, Bool, true, false, not, ◌||◌, ◌==◌, none, [],
  ◌∷◌, ◌++◌, arith,
}
use weblinked.Base.Text.{Text, decimal_ℤ, same_text}
use weblinked.Json.{
  Value, Items, Fields, null, bool, number, string, array, object, no_items, item, no_fields, field,
  Doubles, is_space, skip, consume,
}
use weblinked.Json.Print.{append_number, spaces, indent, line_end, closing, serialize_into}
use weblinked.Json.Numbers.{StartsNumber, decimal-StartsNumber}

-- How deep the values nest.
unfoldable mutual
  pub height : Value → ℕ
  height (array xs) = suc (height_items xs)
  height (object fs) = suc (height_fields fs)
  height v = 1

  pub height_items : Items → ℕ
  height_items no_items = 0
  height_items (item v xs) = max (height v) (height_items xs)

  pub height_fields : Fields → ℕ
  height_fields no_fields = 0
  height_fields (field k v fs) = max (height v) (height_fields fs)

-- A key that no member has.
abbrev pub IsApart : Text → Fields → Type 0
IsApart key no_fields = Unit {0}
IsApart key (field k v fs) = (same_text key k ≡ false) × IsApart key fs

-- A number that its decimal form stands for.
abbrev pub IsWhole : Doubles → ℕ → Type 0
IsWhole d n =
    (d.is_finite n ≡ true) × (d.is_whole n ≡ true) × (d.strtod (decimal_ℤ (d.to_int64 n)) ≡ n)

-- Whole numbers, and objects without a key twice.
unfoldable mutual
  pub IsPlain : Doubles → Value → Type 0
  IsPlain d (number n) = IsWhole d n
  IsPlain d (array xs) = ArePlain d xs
  IsPlain d (object fs) = ArePlainFields d fs
  IsPlain d v = Unit {0}

  pub ArePlain : Doubles → Items → Type 0
  ArePlain d no_items = Unit {0}
  ArePlain d (item v xs) = IsPlain d v × ArePlain d xs

  pub ArePlainFields : Doubles → Fields → Type 0
  ArePlainFields d no_fields = Unit {0}
  ArePlainFields d (field k v fs) = IsPlain d v × (IsApart k fs × ArePlainFields d fs)

-- A byte that begins a value: no white space and no closing bracket.
abbrev pub opens : Text → Bool
opens [] = false
opens (c ∷ cs) = not (is_space c || (c == b']' || c == b'}'))

pub skip-opens : (t : Text) → opens t ≡ true → skip t ≡ t
unfolding skip
skip-opens [] h = refl
skip-opens (c ∷ cs) h = ground arith

pub no_bracket : (t : Text) → opens t ≡ true → consume b']' t ≡ none
unfolding consume
no_bracket [] h = refl
no_bracket (c ∷ cs) h = ground arith

pub no_brace : (t : Text) → opens t ≡ true → consume b'}' t ≡ none
unfolding consume
no_brace [] h = refl
no_brace (c ∷ cs) h = ground arith

opens-number : (t : Text) → StartsNumber t → opens t ≡ true
opens-number [] h = absurd h
opens-number (c ∷ cs) h = ground arith

skip-spaces : (n : ℕ) (t : Text) → skip (spaces n ++ t) ≡ skip t
unfolding skip
skip-spaces zero t = refl
skip-spaces (suc n) t = skip-spaces n t

-- The white space that pretty printing puts in is skipped.
pub skip-indent :
    (pretty : Bool) (depth : ℕ) (t : Text)
    → skip (line_end pretty ++ (indent pretty depth ++ t)) ≡ skip t
unfolding skip
skip-indent true depth t = skip-spaces ((depth + 1) * 2) t
skip-indent false depth t = refl

pub skip-closing :
    (pretty : Bool) (depth c : ℕ) (t : Text)
    → is_space c ≡ false
    → skip (closing pretty depth ++ (c ∷ t)) ≡ c ∷ t
unfolding skip
skip-closing true depth c t h = skip-spaces (depth * 2) (c ∷ t) ∙ ground arith
skip-closing false depth c t h = ground arith

-- A whole number is written in decimal.
pub append_number-whole :
    (d : Doubles) (n : ℕ) → IsWhole d n → append_number d n ≡ decimal_ℤ (d.to_int64 n)
unfolding append_number
append_number-whole d n h = ground arith

pub opens-serialize :
    (d : Doubles) (pretty : Bool) (depth : ℕ) (v : Value) (rest : Text)
    → IsPlain d v
    → opens (serialize_into d pretty depth v ++ rest) ≡ true
unfolding serialize_into IsPlain
opens-serialize d pretty depth null rest h = refl
opens-serialize d pretty depth (bool true) rest h = refl
opens-serialize d pretty depth (bool false) rest h = refl
opens-serialize d pretty depth (number n) rest h =
    ap (λ (t : Text). opens (t ++ rest)) (append_number-whole d n h)
    ∙ opens-number (decimal_ℤ (d.to_int64 n) ++ rest) (decimal-StartsNumber (d.to_int64 n) rest)
opens-serialize d pretty depth (string t) rest h = refl
opens-serialize d pretty depth (array no_items) rest h = refl
opens-serialize d pretty depth (array (item v xs)) rest h = refl
opens-serialize d pretty depth (object no_fields) rest h = refl
opens-serialize d pretty depth (object (field k v fs)) rest h = refl
