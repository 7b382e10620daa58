-- ===== src/Json/Access.antt =====
-- core/json.cpp: the members of Value. A reference to the shared null value is `null`, and a member that
-- changes the value returns the new one.
use weblinked.Base.{
  ℕ, zero, suc, ◌-◌, ◌%◌, ◌≡◌, refl, sym, ap, ◌∙◌, subst, Bool, true, false, not, ltb, ◌==◌,
  if◌then◌else◌, Bool-cases, inl, inr, arith,
}
use weblinked.Base.Int.{ℤ, pos, negsuc}
use weblinked.Base.Text.{Text, same_text, eq_of_same_text}
use weblinked.Json.{
  Value, Items, Fields, null, bool, number, string, array, object, no_items, item, no_fields, field,
  Doubles, set_field, push_item,
}

unfoldable pub as_bool : Doubles → Value → Bool → Bool
as_bool d (bool b) fallback = b
as_bool d (number n) fallback = not (d.is_zero n)
as_bool d v fallback = fallback

unfoldable pub as_double : Doubles → Value → ℕ → ℕ
as_double d (number n) fallback = n
as_double d (bool b) fallback = d.from_bool b
as_double d v fallback = fallback

unfoldable pub as_int64 : Doubles → Value → ℤ → ℤ
as_int64 d (number n) fallback = d.round n
as_int64 d (bool b) fallback = if b then pos 1 else pos 0
as_int64 d v fallback = fallback

-- static_cast<int> of a 64-bit integer: its low 32 bits, the highest of them the sign.
unfoldable pub int_of_low : ℕ → ℤ
int_of_low m = if ltb m 2147483648 then pos m else negsuc (4294967295 - m)

unfoldable pub to_int32 : ℤ → ℤ
unfolding int_of_low
to_int32 (pos n) = int_of_low (n % 4294967296)
to_int32 (negsuc n) = int_of_low (4294967295 - n % 4294967296)

unfoldable pub as_int : Doubles → Value → ℤ → ℤ
unfolding as_int64 to_int32
as_int d v fallback = to_int32 (as_int64 d v fallback)

unfoldable pub as_string : Value → Text → Text
as_string (string t) fallback = t
as_string v fallback = fallback

unfoldable pub push : Value → Value → Value
unfolding push_item
push (array xs) v = array (push_item xs v)
push other v = array (push_item no_items v)

unfoldable pub items_size : Items → ℕ
items_size no_items = 0
items_size (item v xs) = suc (items_size xs)

unfoldable pub fields_size : Fields → ℕ
fields_size no_fields = 0
fields_size (field k v fs) = suc (fields_size fs)

unfoldable pub size : Value → ℕ
unfolding items_size fields_size
size (array xs) = items_size xs
size (object fs) = fields_size fs
size v = 0

unfoldable pub at_item : Items → ℕ → Value
at_item no_items index = null
at_item (item v xs) zero = v
at_item (item v xs) (suc index) = at_item xs index

unfoldable pub at : Value → ℕ → Value
unfolding at_item
at (array xs) index = at_item xs index
at v index = null

unfoldable pub set : Value → Text → Value → Value
unfolding set_field
set (object fs) key v = object (set_field key v fs)
set other key v = object (set_field key v no_fields)

unfoldable pub has_field : Fields → Text → Bool
has_field no_fields key = false
has_field (field k v fs) key = if same_text k key then true else has_field fs key

unfoldable pub has : Value → Text → Bool
unfolding has_field
has (object fs) key = has_field fs key
has v key = false

unfoldable pub get_field : Fields → Text → Value
get_field no_fields key = null
get_field (field k v fs) key = if same_text k key then v else get_field fs key

-- operator[] with a key.
unfoldable pub get : Value → Text → Value
unfolding get_field
get (object fs) key = get_field fs key
get v key = null

-- The members that a value has as an object, and the elements that it has as an array.
abbrev pub fields_of : Value → Fields
fields_of (object fs) = fs
fields_of v = no_fields

abbrev pub items_of : Value → Items
items_of (array xs) = xs
items_of v = no_items

set-fields :
    (v : Value) (key : Text) (w : Value) → set v key w ≡ object (set_field key w (fields_of v))
unfolding set
set-fields null key w = refl
set-fields (bool b) key w = refl
set-fields (number n) key w = refl
set-fields (string t) key w = refl
set-fields (array xs) key w = refl
set-fields (object fs) key w = refl

pub get-fields : (v : Value) (key : Text) → get v key ≡ get_field (fields_of v) key
unfolding get get_field
get-fields null key = refl
get-fields (bool b) key = refl
get-fields (number n) key = refl
get-fields (string t) key = refl
get-fields (array xs) key = refl
get-fields (object fs) key = refl

same_text_join : (s t u : Text) → same_text s u ≡ true → same_text t u ≡ true → same_text s t ≡ true
same_text_join s t u h k = subst (λ x. same_text s x ≡ true) (sym (eq_of_same_text t u k)) h

get_field-set_field :
    (fs : Fields) (key other : Text) (w : Value)
    → get_field (set_field key w fs) other ≡ (if same_text key other then w else get_field fs other)
unfolding get_field set_field
get_field-set_field no_fields key other w = refl
get_field-set_field (field k v fs) key other w =
    let ih = get_field-set_field fs key other w in
    elim (Bool-cases (same_text k key)) [
      | inl e ↦ ground (arith, e, ap (λ t. same_text t other) (eq_of_same_text k key e))
      | inr e ↦ ground (arith, e, ih, same_text_join k key other)
    ]

set_field-size :
    (fs : Fields) (key : Text) (w : Value)
    → fields_size (set_field key w fs)
      ≡ (if has_field fs key then fields_size fs else suc (fields_size fs))
unfolding fields_size set_field has_field
set_field-size no_fields key w = refl
set_field-size (field k v fs) key w = ground (arith, set_field-size fs key w)

at_item-push_item :
    (xs : Items) (v : Value) (i : ℕ)
    → at_item (push_item xs v) i ≡ (if i == items_size xs then v else at_item xs i)
unfolding at_item push_item items_size
at_item-push_item no_items v zero = refl
at_item-push_item no_items v (suc i) = ground arith
at_item-push_item (item w xs) v zero = ground arith
at_item-push_item (item w xs) v (suc i) = ground (arith, at_item-push_item xs v i)

-- After set the key has the new value, and any other key has what it had if the value was an object,
-- and null if it was not.
pub get-set :
    (v : Value) (key other : Text) (w : Value)
    → get (set v key w) other ≡ (if same_text key other then w else get v other)
unfolding get
get-set v key other w =
    ap (λ x. get x other) (set-fields v key w)
    ∙ (get_field-set_field (fields_of v) key other w
        ∙ ap (λ x. if same_text key other then w else x) (sym (get-fields v other)))

push-items : (v w : Value) → push v w ≡ array (push_item (items_of v) w)
unfolding push push_item
push-items null w = refl
push-items (bool b) w = refl
push-items (number n) w = refl
push-items (string t) w = refl
push-items (array xs) w = refl
push-items (object fs) w = refl

at-items : (v : Value) (i : ℕ) → at v i ≡ at_item (items_of v) i
unfolding at at_item
at-items null i = refl
at-items (bool b) i = refl
at-items (number n) i = refl
at-items (string t) i = refl
at-items (array xs) i = refl
at-items (object fs) i = refl

-- push puts the new value behind the elements that an array had, and makes an array of the one value of
-- anything else; the places in front keep what they had.
at-push :
    (v w : Value) (i : ℕ) → at (push v w) i ≡ (if i == items_size (items_of v) then w else at v i)
unfolding at
at-push v w i =
    ap (λ x. at x i) (push-items v w)
    ∙ (at_item-push_item (items_of v) w i
        ∙ ap (λ x. if i == items_size (items_of v) then w else x) (sym (at-items v i)))
