-- ===== src/Frames/Recycle/Custody.antt =====
-- Who holds an object of a `Recycle.Ring`: whatever is called, in any order, no object is in two
-- hands.
use weblinked.Base.{
  ℕ, ◌+◌, ◌≤◌, ◌<◌, ◌≡◌, refl, ap, map, Bool, true, false, Option, none, some, List, [], ◌∷◌, ◌++◌,
  ◌==◌, if◌then◌else◌, arith, ◌⊎◌, length, length-map,
}
use weblinked.Frames.Recycle.{
  Slot, Ring, add, take_free, acquire, Return, stranger, already_free, freed, give_back, release,
  count_out, close, count_free, size, free_count,
}

-- How many slots of that address are in use.
unfoldable pub in_use : ℕ → List Slot → ℕ
in_use item [] = 0
in_use item (s ∷ ss) = (if s.item == item then (if s.free then 0 else 1) else 0) + in_use item ss

-- How many slots of that address there are.
unfoldable pub copies : ℕ → List Slot → ℕ
copies item [] = 0
copies item (s ∷ ss) = (if s.item == item then 1 else 0) + copies item ss

abbrev is_it : ℕ → ℕ → ℕ
is_it a b = if a == b then 1 else 0

-- What `take_free` does to the slots of one address.
abbrev Takes : ℕ → List Slot → Option (ℕ × List Slot) → Type 0
Takes x ss none = count_free ss ≡ 0
Takes x ss (some (item, rest)) =
    (in_use x rest ≡ is_it item x + in_use x ss) × (copies x rest ≡ copies x ss)

take_free-Takes : (x : ℕ) (ss : List Slot) → Takes x ss (take_free ss)
unfolding take_free in_use copies count_free
take_free-Takes x [] = refl
take_free-Takes x (s ∷ ss) = ground (arith, take_free-Takes x ss)

abbrev Gives : ℕ → ℕ → List Slot → Return → Type 0
Gives x item ss stranger = copies item ss ≡ 0
Gives x item ss already_free = 0 < copies item ss
Gives x item ss (freed rest) =
    (in_use x ss ≡ is_it item x + in_use x rest) × (copies x rest ≡ copies x ss)

give_back-Gives : (x item : ℕ) (ss : List Slot) → Gives x item ss (give_back item ss)
unfolding give_back in_use copies
give_back-Gives x item [] = refl
give_back-Gives x item (s ∷ ss) = ground (arith, give_back-Gives x item ss)

add_append :
    (x item : ℕ) (ss : List Slot)
    → (in_use x (ss ++ (record { item = item; free = true } ∷ [])) ≡ in_use x ss)
      × (copies x (ss ++ (record { item = item; free = true } ∷ [])) ≡ copies x ss + is_it item x)
unfolding in_use copies
add_append x item [] = ground arith
add_append x item (s ∷ ss) = ground (arith, add_append x item ss)

-- What a caller sees of one call.
pub data Call : Type 0 where
  adds : ℕ → Call
  acquires : Call
  releases : ℕ → Call
  closes : Call

pub data Event : Type 0 where
  handed returned : ℕ → Event
  ended : List ℕ → ℕ → Event
  refused : Event

abbrev on_acquire : Option ℕ → Event
on_acquire none = refused
on_acquire (some item) = handed item

abbrev on_release : ℕ → Bool → Event
on_release item true = returned item
on_release item false = refused

unfoldable pub step : Ring → Call → Ring × Event
step r (adds item) = (add r item, refused)
step r acquires = let (r', o) = acquire r in (r', on_acquire o)
step r (releases item) = let (r', b) = release r item in (r', on_release item b)
step r closes = let (r', items, outstanding) = close r in (r', ended items outstanding)

unfoldable pub run : Ring → List Call → Ring
run r [] = r
run r (c ∷ cs) = run (step r c).0 cs

unfoldable pub events : Ring → List Call → List Event
events r [] = []
events r (c ∷ cs) = (step r c).1 ∷ events (step r c).0 cs

abbrev pub handed_once : ℕ → Event → ℕ
handed_once x (handed item) = is_it item x
handed_once x (returned item) = 0
handed_once x (ended items n) = 0
handed_once x refused = 0

abbrev pub returned_once : ℕ → Event → ℕ
returned_once x (handed item) = 0
returned_once x (returned item) = is_it item x
returned_once x (ended items n) = 0
returned_once x refused = 0

unfoldable pub times_handed : ℕ → List Event → ℕ
times_handed x [] = 0
times_handed x (e ∷ es) = handed_once x e + times_handed x es

unfoldable pub times_returned : ℕ → List Event → ℕ
times_returned x [] = 0
times_returned x (e ∷ es) = returned_once x e + times_returned x es

-- How many slots of an address are in use when a call closes the ring, which takes them out of its hands.
abbrev cut_off : ℕ → Ring → Call → ℕ
cut_off x r (adds item) = 0
cut_off x r acquires = 0
cut_off x r (releases item) = 0
cut_off x r closes = in_use x r.slots

unfoldable pub times_cut_off : ℕ → Ring → List Call → ℕ
times_cut_off x r [] = 0
times_cut_off x r (c ∷ cs) = cut_off x r c + times_cut_off x (step r c).0 cs

step_balance :
    (x : ℕ) (r : Ring) (c : Call)
    → handed_once x (step r c).1 + in_use x r.slots
      ≡ returned_once x (step r c).1 + (cut_off x r c + in_use x (step r c).0.slots)
unfolding step add acquire release close in_use
step_balance x r (adds item) = ground (arith, add_append x item r.slots)
step_balance x r acquires = ground (arith, take_free-Takes x r.slots)
step_balance x r (releases item) = ground (arith, give_back-Gives x item r.slots)
step_balance x r closes = omega arith

-- Over any history of calls, close among them, an object has been handed out as often as it has been given
-- back (a refused `release` does not count) or was out when the ring was closed, up to the slots of that
-- address in use before and after.
pub custody :
    (x : ℕ) (r : Ring) (cs : List Call)
    → times_handed x (events r cs) + in_use x r.slots
      ≡ times_returned x (events r cs) + (times_cut_off x r cs + in_use x (run r cs).slots)
unfolding times_handed times_returned times_cut_off events run
custody x r [] = omega arith
custody x r (c ∷ cs) = omega (arith, custody x (step r c).0 cs, step_balance x r c)

in_use-le-copies : (x : ℕ) (ss : List Slot) → in_use x ss ≤ copies x ss
unfolding in_use copies
in_use-le-copies x [] = omega arith
in_use-le-copies x (s ∷ ss) = ground (arith, in_use-le-copies x ss)

-- How often an object is added in a history.
unfoldable pub times_added : ℕ → List Call → ℕ
times_added x [] = 0
times_added x (adds item ∷ cs) = is_it item x + times_added x cs
times_added x (acquires ∷ cs) = times_added x cs
times_added x (releases item ∷ cs) = times_added x cs
times_added x (closes ∷ cs) = times_added x cs

copies-step :
    (x : ℕ) (r : Ring) (c : Call) (cs : List Call)
    → cut_off x r c + (copies x (step r c).0.slots + times_added x cs)
      ≤ copies x r.slots + times_added x (c ∷ cs)
unfolding step add acquire release close copies times_added
copies-step x r (adds item) cs = ground (arith, add_append x item r.slots)
copies-step x r acquires cs = ground (arith, take_free-Takes x r.slots)
copies-step x r (releases item) cs = ground (arith, give_back-Gives x item r.slots)
copies-step x r closes cs = omega (arith, in_use-le-copies x r.slots)

copies-run :
    (x : ℕ) (r : Ring) (cs : List Call)
    → times_cut_off x r cs + copies x (run r cs).slots ≤ copies x r.slots + times_added x cs
unfolding run times_added times_cut_off
copies-run x r [] = omega arith
copies-run x r (c ∷ cs) = omega (arith, copies-run x (step r c).0 cs, copies-step x r c cs)

-- An object that is added once, to a ring that did not have it, is never in two hands: over any
-- history of calls, in any order, with double releases, strangers and close among them, it has been
-- handed out at most once more than it has been taken back, and taken back no more often than handed
-- out.
pub one_holder :
    (x : ℕ) (r : Ring) (cs : List Call)
    → copies x r.slots ≡ 0
    → times_added x cs ≤ 1
    → (times_handed x (events r cs) ≤ times_returned x (events r cs) + 1)
      × (times_returned x (events r cs) ≤ times_handed x (events r cs))
one_holder x r cs fresh once = omega (
  arith,
  custody x r cs,
  copies-run x r cs,
  in_use-le-copies x r.slots,
  in_use-le-copies x (run r cs).slots,
)

-- `acquire` comes back empty-handed only from a closed ring or one with every object out, and only the
-- latter is counted as a miss; the slots are then unchanged.
pub acquire-none :
    (r : Ring)
    → (acquire r).1 ≡ none
    → ((r.closed ≡ true) × ((acquire r).0 ≡ r))
      ⊎ ((r.closed ≡ false)
          × (free_count r ≡ 0)
          × ((acquire r).0 ≡ record r { misses = r.misses + 1 }))
unfolding acquire free_count
acquire-none r e = ground (arith, take_free-Takes 0 r.slots)

count_sum : (ss : List Slot) → count_out ss + count_free ss ≡ length ss
unfolding count_out count_free
count_sum [] = refl
count_sum (s ∷ ss) = ground (arith, count_sum ss)

-- How often an address is among those handed back.
unfoldable pub times_listed : ℕ → List ℕ → ℕ
times_listed x [] = 0
times_listed x (y ∷ ys) = is_it y x + times_listed x ys

times_listed-map :
    (x : ℕ) (ss : List Slot) → times_listed x (map (λ (s : Slot). s.item) ss) ≡ copies x ss
unfolding times_listed copies
times_listed-map x [] = refl
times_listed-map x (s ∷ ss) = ap (λ (n : ℕ). is_it s.item x + n) (times_listed-map x ss)

-- `close` hands back every object, each address as often as the ring has a slot of it, reports exactly
-- those not free as outstanding, and leaves a ring that hands nothing out and takes nothing back,
-- whatever it is asked for.
pub close_final :
    (r : Ring) (item x : ℕ)
    → let (closed, items, outstanding) = close r in
      (length items ≡ size r)
      × (times_listed x items ≡ copies x r.slots)
      × (outstanding + free_count r ≡ size r)
      × (acquire closed ≡ (closed, none))
      × (release closed item ≡ (closed, false))
unfolding close size free_count acquire release
close_final r item x = (
  length-map r.slots (λ (s : Slot). s.item),
  times_listed-map x r.slots,
  count_sum r.slots,
  refl,
  refl,
)
