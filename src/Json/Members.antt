-- ===== src/Json/Members.antt =====
-- core/json.cpp: the members of an object, in the order in which set_field gathers them.
use mathlib.Core.List.{append_assoc}
use weblinked.Base.{
  ℕ, suc, ◌+◌, ◌≤◌, ◌<◌, ◌≡◌, refl, ◌∙◌, sym, ap, Bool, true, false, if◌then◌else◌, [], ◌∷◌, ◌++◌,
  length, length-append, arith,
}
use weblinked.Base.Text.{Text}
use weblinked.Json.{Value, Fields, no_fields, field, Doubles, set_field, skip}
use weblinked.Json.Print.{
  append_escaped, indent, separator, closing, colon, serialize_into, serialize_fields,
}
use weblinked.Json.Numbers.{stops}
use weblinked.Json.Shape.{IsApart, IsPlain, ArePlainFields}

-- Members set one after another.
unfoldable pub set_all : Fields → Fields → Fields
set_all acc no_fields = acc
set_all acc (field k v fs) = set_all (set_field k v acc) fs

unfoldable pub append_fields : Fields → Fields → Fields
append_fields no_fields gs = gs
append_fields (field k v fs) gs = field k v (append_fields fs gs)

pub append_fields-nil : (fs : Fields) → append_fields fs no_fields ≡ fs
unfolding append_fields
append_fields-nil no_fields = refl
append_fields-nil (field k v fs) = ap (field k v) (append_fields-nil fs)

pub append_fields_assoc :
    (fs : Fields) (k : Text) (v : Value) (gs : Fields)
    → append_fields (append_fields fs (field k v no_fields)) gs ≡ append_fields fs (field k v gs)
unfolding append_fields
append_fields_assoc no_fields k v gs = refl
append_fields_assoc (field j w fs) k v gs = ap (field j w) (append_fields_assoc fs k v gs)

-- No key of the one is a key of the other.
abbrev pub AreApart : Fields → Fields → Type 0
AreApart no_fields gs = Unit {0}
AreApart (field k v fs) gs = IsApart k gs × AreApart fs gs

pub set_field-new :
    (key : Text) (v : Value) (acc gs : Fields)
    → AreApart acc (field key v gs)
    → set_field key v acc ≡ append_fields acc (field key v no_fields)
unfolding set_field append_fields
set_field-new key v no_fields gs h = refl
set_field-new key v (field k w fs) gs h = ground (arith, set_field-new key v fs gs h.1)

pub AreApart-push :
    (key : Text) (v : Value) (acc gs : Fields)
    → AreApart acc (field key v gs)
    → IsApart key gs
    → AreApart (append_fields acc (field key v no_fields)) gs
unfolding append_fields
AreApart-push key v no_fields gs h k = (k, tt)
AreApart-push key v (field j w fs) gs h k = (h.0.1, AreApart-push key v fs gs h.1 k)

-- Members with new keys are put behind those that are there.
pub set_all-append :
    (d : Doubles) (fs acc : Fields)
    → ArePlainFields d fs
    → AreApart acc fs
    → set_all acc fs ≡ append_fields acc fs
unfolding set_all IsPlain
set_all-append d no_fields acc h a = sym (append_fields-nil acc)
set_all-append d (field k v fs) acc h a =
    ap (λ (gs : Fields). set_all gs fs) (set_field-new k v acc fs a)
    ∙ (set_all-append d fs (append_fields acc (field k v no_fields)) h.1.1
          (AreApart-push k v acc fs a h.1.0)
        ∙ append_fields_assoc acc k v fs)

unfoldable pub count_fields : Fields → ℕ
count_fields no_fields = 0
count_fields (field k v fs) = suc (count_fields fs)

pub stops-fields :
    (d : Doubles) (pretty : Bool) (level : ℕ) (fs : Fields) (rest : Text)
    → stops (serialize_fields d pretty level fs ++ (closing pretty level ++ (b'}' ∷ rest))) ≡ true
unfolding serialize_into
stops-fields d true level no_fields rest = refl
stops-fields d false level no_fields rest = refl
stops-fields d true level (field k v fs) rest = refl
stops-fields d false level (field k v fs) rest = refl

pub separator_pos : (pretty : Bool) → 0 < length (separator pretty)
separator_pos true = omega arith
separator_pos false = omega arith

pub skip-blank : (pretty : Bool) (t : Text) → skip ((if pretty then 32 ∷ [] else []) ++ t) ≡ skip t
unfolding skip
skip-blank true t = refl
skip-blank false t = refl

pub regroup_member :
    (a b k c v f z : Text)
    → (a ++ (b ++ (k ++ (c ++ (v ++ f))))) ++ z ≡ a ++ (b ++ (k ++ (c ++ (v ++ (f ++ z)))))
regroup_member a b k c v f z = simp append_assoc

pub regroup_object :
    (a b k c v f e z rest : Text)
    → (a ++ (b ++ (k ++ (c ++ (v ++ (f ++ (e ++ z))))))) ++ rest
      ≡ a ++ (b ++ (k ++ (c ++ (v ++ (f ++ (e ++ (z ++ rest)))))))
regroup_object a b k c v f e z rest = simp append_assoc

pub count_fields-le :
    (d : Doubles) (pretty : Bool) (level : ℕ) (fs : Fields)
    → count_fields fs ≤ length (serialize_fields d pretty level fs)
unfolding count_fields serialize_into
count_fields-le d pretty level no_fields = omega arith
count_fields-le d pretty level (field k v fs) =
    let few = count_fields-le d pretty level fs in
    let value = serialize_into d pretty (level + 1) v in
    let fields = serialize_fields d pretty level fs in
    let some_left = separator_pos pretty in
    let all =
      length-append (separator pretty)
        (indent pretty level ++ (append_escaped k ++ (colon pretty ++ (value ++ fields)))) in
    let behind_blank =
      length-append (indent pretty level)
        (append_escaped k ++ (colon pretty ++ (value ++ fields))) in
    let behind_key = length-append (append_escaped k) (colon pretty ++ (value ++ fields)) in
    let behind_colon = length-append (colon pretty) (value ++ fields) in
    let behind_value = length-append value fields in omega arith
