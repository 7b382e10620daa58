-- ===== src/Sources/Guard.antt =====
-- SourceTable: no source is handed back to be stopped with a call inside it.
use weblinked.Base.{ℕ, ◌+◌, ◌≤◌, ◌<◌, ◌≡◌, refl, ap, ◌⊎◌, inl, inr, Bool, true, false, arith}
use weblinked.Sources.{
  enter, leave, begin_close, end_wait, reopen, retire, Taker, away, swapped, retired, has_idle,
  System, fresh, begin_removal, finish_removal, Step, Reach, enters, leaves, removes, wakes,
  gives_up, reopens, finishes, swaps, retires, closes, takes_idle, takes_busy, start, next,
}

-- takeAll has reached the entry.
abbrev is_retired : Taker → Bool
is_retired away = false
is_retired swapped = false
is_retired _ = true

-- takeAll has closed the entry.
abbrev is_closed : Taker → Bool
is_closed away = false
is_closed swapped = false
is_closed retired = false
is_closed _ = true

abbrev is_idle : Taker → Bool
is_idle has_idle = true
is_idle _ = false

-- The removals that have closed the entry.
abbrev active : System → ℕ
active s = s.waiting + s.late + s.emptied + s.removed

record IsGuarded (s : System) : Type 0 where
  agrees : s.entry.retired ≡ is_retired s.taker
  shut : is_closed s.taker ≡ true → s.entry.closing ≡ true
  unclosed : s.entry.closing ≡ false → active s ≡ 0
  alone : s.entry.retired ≡ false → s.entry.closing ≡ true → active s ≡ 1
  once : s.removed ≤ 1
  quiet : 0 < s.emptied + s.removed → s.entry.users ≡ 0
  taken : is_idle s.taker ≡ true → s.entry.users ≡ 0

Step-IsGuarded : {s t : System} → Step s t → IsGuarded s → IsGuarded t
unfolding enter leave begin_close end_wait reopen retire begin_removal finish_removal
Step-IsGuarded (enters s) v = ground arith
Step-IsGuarded (leaves s h) v = ground arith
Step-IsGuarded (removes s) v = ground arith
Step-IsGuarded (wakes s h e) v = ground arith
Step-IsGuarded (gives_up s h e) v = ground arith
Step-IsGuarded (reopens s h) v = ground arith
Step-IsGuarded (finishes s h) v = ground arith
Step-IsGuarded (swaps s e) v = ground arith
Step-IsGuarded (retires s e) v = ground arith
Step-IsGuarded (closes s e f) v = ground arith
Step-IsGuarded (takes_idle s e f) v = ground arith
Step-IsGuarded (takes_busy s e f) v = ground arith

fresh-IsGuarded : IsGuarded fresh
fresh-IsGuarded = record {
  agrees = refl;
  shut = λ h. ground arith;
  unclosed = λ h. refl;
  alone = λ h k. ground arith;
  once = omega arith;
  quiet = λ h. refl;
  taken = λ h. refl;
}

Reach-IsGuarded : {s t : System} → Reach s t → IsGuarded s → IsGuarded t
Reach-IsGuarded start v = v
Reach-IsGuarded (next r st) v = Step-IsGuarded st (Reach-IsGuarded r v)

stopped :
    (s : System)
    → IsGuarded s
    → (0 < s.removed) ⊎ (s.taker ≡ has_idle)
    → (s.entry.users ≡ 0) × ((enter s.entry).1 ≡ false)
unfolding enter
stopped s v (inl h) = let u = v.quiet (omega arith) in (u, ground arith)
stopped s v (inr e) = let c = v.shut (ap is_closed e) in (v.taken (ap is_idle e), ground arith)

given_up :
    (s : System)
    → IsGuarded s
    → 0 < s.late
    → s.entry.retired ≡ false
    → (s.late ≡ 1) × (s.waiting + s.emptied + s.removed ≡ 0)
given_up s v h e = let one = v.alone e in ground arith

-- However calls, removals and takeAll interleave on an entry, it is handed back by a removal at most
-- once; and from the moment that a removal or takeAll has it to stop, no call is inside it and none
-- can enter.
pub stopped_empty :
    (s : System)
    → Reach fresh s
    → (s.removed ≤ 1)
      × ((0 < s.removed) ⊎ (s.taker ≡ has_idle) → (s.entry.users ≡ 0) × ((enter s.entry).1 ≡ false))
unfolding enter
stopped_empty s r = let v = Reach-IsGuarded r fresh-IsGuarded in (v.once, λ h. stopped s v h)

-- A removal that gave up on an entry which takeAll has not reached has changed nothing: the entry is
-- open again with the calls that were inside it, and no other removal had it.
pub busy_changes_nothing :
    (s : System)
    → Reach fresh s
    → 0 < s.late
    → s.entry.retired ≡ false
    → (reopen s.entry ≡ record s.entry { closing = false })
      × (s.late ≡ 1)
      × (s.waiting + s.emptied + s.removed ≡ 0)
unfolding reopen
busy_changes_nothing s r h e =
    let v = Reach-IsGuarded r fresh-IsGuarded in
    let g = given_up s v h e in (ground arith, g.0, g.1)
