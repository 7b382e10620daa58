-- ===== src/Route/Router/Lines.antt =====
-- core/audio_route.cpp: one delay line of AudioRouter, as the samples that wait in it, oldest first.
use mathlib.Core.List.{append-nil, append_assoc}
use weblinked.Base.{
  ℕ, zero, suc, ◌+◌, ◌≤◌, ◌<◌, ◌≡◌, refl, sym, ap, subst, ap₂, ◌∙◌, true, false, Bool-cases, inl,
  inr, ◌==◌, List, [], ◌∷◌, ◌++◌, length, set, get_or, take, drop, map, length-set, length-append,
  arith,
}
use weblinked.Route.Router.{Plane, delay_sample, next_place, delay_loop}

-- What waits in a line at `place`.
unfoldable pub waiting : Plane → ℕ → Plane
waiting line place = drop place line ++ take place line

-- The loop over the frames, for one channel alone.
unfoldable pub lane_loop : ℕ → ℕ → ℕ → ℕ → Plane × Plane → Plane × Plane
unfolding delay_sample
lane_loop len zero f place lane = lane
lane_loop len (suc n) f place lane =
    lane_loop len n (suc f) (next_place len place) (delay_sample place f lane)

unfoldable pub place_after : ℕ → ℕ → ℕ → ℕ
place_after len zero place = place
place_after len (suc n) place = place_after len n (next_place len place)

map_map :
    {A B C : Type 0} (f : B → C) (g : A → B) (xs : List A)
    → map f (map g xs) ≡ map (λ x. f (g x)) xs
map_map f g [] = refl
map_map f g (x ∷ xs) = ap (λ ys. f (g x) ∷ ys) (map_map f g xs)

map_id : {A : Type 0} (xs : List A) → map (λ x. x) xs ≡ xs
map_id [] = refl
map_id (x ∷ xs) = ap (λ ys. x ∷ ys) (map_id xs)

-- The channels do not meet: the shared loop runs each of them alone.
pub delay_loop_lanes :
    (len n f place : ℕ) (lanes : List (Plane × Plane))
    → delay_loop len n f place lanes
      ≡ (map (lane_loop len n f place) lanes, place_after len n place)
unfolding delay_loop lane_loop place_after
delay_loop_lanes len zero f place lanes = ap (λ xs. (xs, place)) (sym (map_id lanes))
delay_loop_lanes len (suc n) f place lanes =
    delay_loop_lanes len n (suc f) (next_place len place) (map (delay_sample place f) lanes)
    ∙ ap (λ xs. (xs, place_after len n (next_place len place)))
        (map_map (lane_loop len n (suc f) (next_place len place)) (delay_sample place f) lanes)

drop-get_or :
    (line : Plane) (place : ℕ)
    → place < length line
    → drop place line ≡ get_or line place 0 ∷ drop (suc place) line
drop-get_or [] place h = absurd (omega arith)
drop-get_or (x ∷ xs) zero h = refl
drop-get_or (x ∷ xs) (suc place) h = drop-get_or xs place (omega arith)

drop-set :
    (line : Plane) (place value : ℕ)
    → drop (suc place) (set line place value) ≡ drop (suc place) line
drop-set [] place value = refl
drop-set (x ∷ xs) zero value = refl
drop-set (x ∷ xs) (suc place) value = drop-set xs place value

take-set :
    (line : Plane) (place value : ℕ)
    → place < length line
    → take (suc place) (set line place value) ≡ take place line ++ (value ∷ [])
take-set [] place value h = absurd (omega arith)
take-set (x ∷ xs) zero value h = refl
take-set (x ∷ xs) (suc place) value h = ap (λ ys. x ∷ ys) (take-set xs place value (omega arith))

drop_all : (line : Plane) (n : ℕ) → length line ≤ n → drop n line ≡ []
drop_all [] zero h = refl
drop_all [] (suc n) h = refl
drop_all (x ∷ xs) zero h = absurd (omega arith)
drop_all (x ∷ xs) (suc n) h = drop_all xs n (omega arith)

take_all : (line : Plane) (n : ℕ) → length line ≤ n → take n line ≡ line
take_all [] zero h = refl
take_all [] (suc n) h = refl
take_all (x ∷ xs) zero h = absurd (omega arith)
take_all (x ∷ xs) (suc n) h = ap (λ ys. x ∷ ys) (take_all xs n (omega arith))

-- What waits behind the oldest sample.
abbrev behind : Plane → ℕ → Plane
behind line place = drop (suc place) line ++ take place line

waiting_front :
    (line : Plane) (place : ℕ)
    → place < length line
    → waiting line place ≡ get_or line place 0 ∷ behind line place
unfolding waiting
waiting_front line place h = ap (λ xs. xs ++ take place line) (drop-get_or line place h)

next_wraps : (len place : ℕ) → (place + 1 == len) ≡ true → next_place len place ≡ 0
next_wraps len place h = ground arith

next_steps : (len place : ℕ) → (place + 1 == len) ≡ false → next_place len place ≡ suc place
next_steps len place h = ground arith

waiting_next :
    (line : Plane) (place value : ℕ)
    → place < length line
    → waiting (set line place value) (next_place (length line) place)
      ≡ behind line place ++ (value ∷ [])
unfolding waiting
waiting_next line place value h =
    let after = set line place value in
    elim (Bool-cases (place + 1 == length line)) [
      | inl e ↦
          let ends : length line ≤ suc place = ground arith in
          ap (waiting after) (next_wraps (length line) place e)
          ∙ (append-nil after
              ∙ (sym (take_all after (suc place) (omega (arith, length-set line place value)))
                  ∙ (take-set line place value h
                      ∙ ap (λ xs. xs ++ take place line ++ (value ∷ []))
                          (sym (drop_all line (suc place) ends)))))
      | inr e ↦
          ap (waiting after) (next_steps (length line) place e)
          ∙ (ap₂ (λ xs ys. xs ++ ys) (drop-set line place value) (take-set line place value h)
              ∙ sym (append_assoc (drop (suc place) line) (take place line) (value ∷ [])))
    ]

waiting_turn :
    (len place value : ℕ) (line todo : Plane)
    → length line ≡ len
    → place < len
    → get_or line place 0 ∷ (waiting (set line place value) (next_place len place) ++ todo)
      ≡ waiting line place ++ (value ∷ todo)
waiting_turn len place value line todo k h =
    let inside : place < length line = omega arith in
    let oldest = get_or line place 0 in
    ap (λ (w : Plane). oldest ∷ (w ++ todo))
      (ap (λ n. waiting (set line place value) (next_place n place)) (sym k)
        ∙ waiting_next line place value inside)
    ∙ (ap (λ (w : Plane). oldest ∷ w) (append_assoc (behind line place) (value ∷ []) todo)
        ∙ ap (λ (w : Plane). w ++ (value ∷ todo)) (sym (waiting_front line place inside)))

get_or_at : (xs ys : Plane) (y : ℕ) → get_or (xs ++ (y ∷ ys)) (length xs) 0 ≡ y
get_or_at [] ys y = refl
get_or_at (x ∷ xs) ys y = get_or_at xs ys y

set_at : (xs ys : Plane) (y z : ℕ) → set (xs ++ (y ∷ ys)) (length xs) z ≡ xs ++ (z ∷ ys)
set_at [] ys y z = refl
set_at (x ∷ xs) ys y z = ap (λ zs. x ∷ zs) (set_at xs ys y z)

next_place_lt : (len place : ℕ) → place < len → next_place len place < len
next_place_lt len place h = ground arith

pub place_after_lt : (len n place : ℕ) → place < len → place_after len n place < len
unfolding place_after
place_after_lt len zero place h = h
place_after_lt len (suc n) place h =
    place_after_lt len n (next_place len place) (next_place_lt len place h)

-- With `done` behind it and `todo` before it the loop hands out what waited, then `todo`.
abbrev Delays : ℕ → ℕ → ℕ → Plane → Plane → Plane → Plane → Type 0
Delays len f place line plane done todo =
    let r = lane_loop len (length todo) f place (line, plane) in
    (r.1 ≡ done ++ take (length todo) (waiting line place ++ todo))
    × ((length r.0 ≡ len)
        × (waiting r.0 (place_after len (length todo) place)
            ≡ drop (length todo) (waiting line place ++ todo)))

lane-Delays :
    (todo : Plane) (len f place : ℕ) (line plane done : Plane)
    → length line ≡ len
    → length done ≡ f
    → plane ≡ done ++ todo
    → place < len
    → Delays len f place line plane done todo
unfolding lane_loop place_after delay_sample
lane-Delays [] len f place line plane done k l e h = (e, (k, sym (append-nil (waiting line place))))
lane-Delays (x ∷ todo) len f place line plane done k l e h =
    let oldest = get_or line place 0 in
    let reads : get_or plane f 0 ≡ x =
      ap₂ (λ p i. get_or p i 0) e (sym l) ∙ get_or_at done todo x in
    let writes : set plane f oldest ≡ (done ++ (oldest ∷ [])) ++ todo =
      ap₂ (λ p i. set p i oldest) e (sym l)
      ∙ (set_at done todo x oldest ∙ sym (append_assoc done (oldest ∷ []) todo)) in
    let rest =
      lane-Delays todo len (suc f) (next_place len place) (set line place (get_or plane f 0))
        (set plane f oldest) (done ++ (oldest ∷ [])) (length-set line place (get_or plane f 0) ∙ k)
        (length-append done (oldest ∷ []) ∙ omega arith) writes (next_place_lt len place h) in
    let queue : oldest
          ∷ (waiting (set line place (get_or plane f 0)) (next_place len place) ++ todo)
        ≡ waiting line place ++ (x ∷ todo) =
      waiting_turn len place (get_or plane f 0) line todo k h
      ∙ ap (λ v. waiting line place ++ (v ∷ todo)) reads in
    (
      rest.0
          ∙ (append_assoc done (oldest ∷ []) _
              ∙ ap (λ (q : Plane). done ++ take (suc (length todo)) q) queue),
      (rest.1.0, rest.1.1 ∙ ap (λ (q : Plane). drop (suc (length todo)) q) queue),
    )

-- A whole plane goes through a line: what waited comes out first.
abbrev pub LaneShifts : ℕ → ℕ → ℕ → Plane → Plane → Type 0
LaneShifts len frames place line plane =
    let r = lane_loop len frames 0 place (line, plane) in
    (r.1 ≡ take frames (waiting line place ++ plane))
    × ((length r.0 ≡ len)
        × (waiting r.0 (place_after len frames place) ≡ drop frames (waiting line place ++ plane)))

pub lane-LaneShifts :
    (len frames place : ℕ) (line plane : Plane)
    → length line ≡ len
    → length plane ≡ frames
    → place < len
    → LaneShifts len frames place line plane
lane-LaneShifts len frames place line plane k l h =
    subst (λ m. LaneShifts len m place line plane) l
      (lane-Delays plane len 0 place line plane [] k refl refl h)
