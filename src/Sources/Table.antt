-- ===== src/Sources/Table.antt =====
-- core/source_table.h: the list of entries that the table's own mutex guards. An identifier is compared
-- for equality and nothing else, so it is a number here; an entry is known by its number too.
use weblinked.Base.{
  ℕ, ◌+◌, ◌≤◌, ◌≡◌, ◌≢◌, refl, ◌∙◌, sym, ap, subst, inl, inr, Bool, true, false, Bool-cases, not,
  ◌&&◌, ◌==◌, if◌then◌else◌, Option, none, some, List, [], ◌∷◌, ◌++◌, map, arith, ℕ_discrete,
  length,
}

pub record Row : Type 0 where
  pub id : ℕ
  pub key : ℕ

-- findLocked
unfoldable pub find : List Row → ℕ → Option ℕ
find [] id = none
find (row ∷ rows) id = if row.id == id then some row.key else find rows id

abbrev pub is_there : Option ℕ → Bool
is_there none = false
is_there (some key) = true

unfoldable pub has : List Row → ℕ → Bool
has rows id = is_there (find rows id)

unfoldable pub insert : List Row → ℕ → ℕ → List Row × Bool
insert rows id key =
    if has rows id then (rows, false) else (rows ++ (record { id = id; key = key } ∷ []), true)

-- The erase of remove: the entry found goes, by its pointer.
unfoldable pub erase : List Row → ℕ → List Row
erase [] key = []
erase (row ∷ rows) key = let rest = erase rows key in if row.key == key then rest else row ∷ rest

unfoldable pub ids : List Row → List ℕ
ids rows = map (λ row. row.id) rows

unfoldable pub first_id : List Row → Option ℕ
first_id [] = none
first_id (row ∷ rows) = some row.id

unfoldable pub size : List Row → ℕ
size rows = length rows

-- A row of the table has that identifier, or that entry.
unfoldable pub count_id : List Row → ℕ → ℕ
count_id [] id = 0
count_id (row ∷ rows) id = (if row.id == id then 1 else 0) + count_id rows id

unfoldable pub count_key : List Row → ℕ → ℕ
count_key [] key = 0
count_key (row ∷ rows) key = (if row.key == key then 1 else 0) + count_key rows key

count_id-append :
    (rows : List Row) (row : Row) (id : ℕ)
    → count_id (rows ++ (row ∷ [])) id ≡ count_id rows id + (if row.id == id then 1 else 0)
unfolding count_id
count_id-append [] row id = ground arith
count_id-append (r ∷ rows) row id = let ih = count_id-append rows row id in ground arith

count_id-missing : (rows : List Row) (id : ℕ) → has rows id ≡ false → count_id rows id ≡ 0
unfolding count_id has find
count_id-missing [] id h = refl
count_id-missing (r ∷ rows) id h = let ih = count_id-missing rows id in ground arith

find-append :
    (rows : List Row) (row : Row) (id : ℕ)
    → has rows id ≡ false
    → find (rows ++ (row ∷ [])) id ≡ (if row.id == id then some row.key else none)
unfolding has find
find-append [] row id h = ground arith
find-append (r ∷ rows) row id h = let ih = find-append rows row id in ground arith

find-append_present :
    (rows : List Row) (row : Row) (id : ℕ)
    → has rows id ≡ true
    → find (rows ++ (row ∷ [])) id ≡ find rows id
unfolding has find
find-append_present [] row id h = ground arith
find-append_present (r ∷ rows) row id h = let ih = find-append_present rows row id in ground arith

count_id-erase : (rows : List Row) (key id : ℕ) → count_id (erase rows key) id ≤ count_id rows id
unfolding count_id erase
count_id-erase [] key id = omega arith
count_id-erase (r ∷ rows) key id = let ih = count_id-erase rows key id in ground arith

count_key-erase :
    (rows : List Row) (key other : ℕ)
    → count_key (erase rows key) other ≡ (if other == key then 0 else count_key rows other)
unfolding count_key erase
count_key-erase [] key other = ground arith
count_key-erase (r ∷ rows) key other = let ih = count_key-erase rows key other in ground arith

-- No two rows of the table have one identifier.
unfoldable pub AreDistinct : List Row → Type 0
AreDistinct rows = (id : ℕ) → count_id rows id ≤ 1

at_most_one :
    (rows : List Row) (id other : ℕ)
    → count_id rows other ≤ 1
    → count_id rows id ≡ 0
    → count_id rows other + (if id == other then 1 else 0) ≤ 1
at_most_one rows id other before absent = elim (ℕ_discrete id other) [
  | yes e ↦
      let here : count_id rows other ≡ 0 = subst (λ k. count_id rows k ≡ 0) e absent in ground arith
  | no n ↦ ground arith
]

false-true : false ≢ true
false-true e = ground arith

missing_none : (rows : List Row) (id : ℕ) → has rows id ≡ false → find rows id ≡ none
unfolding has
missing_none rows id h = ground arith

insert-AreDistinct :
    (rows : List Row) (id key : ℕ) → AreDistinct rows → AreDistinct (insert rows id key).0
unfolding insert AreDistinct
insert-AreDistinct rows id key d other = elim (Bool-cases (has rows id)) [
  | inl e ↦
      let kept : (insert rows id key).0 ≡ rows = ground arith in
      subst (λ l. count_id l other ≤ 1) (sym kept) (d other)
  | inr e ↦
      let row : Row = record { id = id; key = key } in
      let added : (insert rows id key).0 ≡ rows ++ (row ∷ []) = ground arith in
      let count = count_id-append rows row other in
      let absent = count_id-missing rows id e in
      let before = d other in
      let bound : count_id rows other + (if id == other then 1 else 0) ≤ 1 =
        at_most_one rows id other before absent in
      subst (λ l. count_id l other ≤ 1) (sym added) (omega arith)
]

-- The lookup after an insertion that found the identifier free.
insert-find :
    (rows : List Row) (id key other : ℕ)
    → has rows id ≡ false
    → find (rows ++ (record { id = id; key = key } ∷ [])) other
      ≡ (if id == other then some key else find rows other)
insert-find rows id key other e =
    let row : Row = record { id = id; key = key } in
    elim (Bool-cases (has rows other)) [
      | inl h ↦
          let apart : id ≢ other = λ same. false-true (sym e ∙ ap (has rows) same ∙ h) in
          find-append_present rows row other h ∙ ground arith
      | inr h ↦
          let missing = missing_none rows other h in find-append rows row other h ∙ ground arith
    ]

insert_answers : (rows : List Row) (id key : ℕ) → (insert rows id key).1 ≡ not (has rows id)
unfolding insert
insert_answers rows id key = ground arith

insert_looks_up :
    (rows : List Row) (id key other : ℕ)
    → find (insert rows id key).0 other
      ≡ (if not (has rows id) && (id == other) then some key else find rows other)
unfolding insert
insert_looks_up rows id key other = elim (Bool-cases (has rows id)) [
  | inl e ↦
      let kept : (insert rows id key).0 ≡ rows = ground arith in
      ap (λ l. find l other) kept ∙ ground arith
  | inr e ↦
      let row : Row = record { id = id; key = key } in
      let added : (insert rows id key).0 ≡ rows ++ (row ∷ []) = ground arith in
      ap (λ l. find l other) added ∙ (insert-find rows id key other e ∙ ground arith)
]

-- An insertion answers whether the identifier was free. When it was, a lookup of it finds the new
-- entry; every other lookup, and after a refusal every lookup, is what it was. No two rows ever have one
-- identifier.
pub insert_finds :
    (rows : List Row) (id key : ℕ)
    → AreDistinct rows
    → AreDistinct (insert rows id key).0
      × ((insert rows id key).1 ≡ not (has rows id))
      × ((other : ℕ)
          → find (insert rows id key).0 other
            ≡ (if not (has rows id) && (id == other) then some key else find rows other))
insert_finds rows id key d =
    (insert-AreDistinct rows id key d, insert_answers rows id key, insert_looks_up rows id key)

-- After an erase no row has that entry, every other entry has the rows it had, and the identifiers
-- stay distinct.
pub erase_only :
    (rows : List Row) (key : ℕ)
    → AreDistinct rows
    → AreDistinct (erase rows key)
      × ((other : ℕ)
          → count_key (erase rows key) other ≡ (if other == key then 0 else count_key rows other))
unfolding AreDistinct
erase_only rows key d = (
  λ id. let bound = count_id-erase rows key id in let before = d id in omega arith,
  λ other. count_key-erase rows key other,
)
