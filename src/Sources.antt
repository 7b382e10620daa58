-- ===== src/Sources.antt =====
-- core/source_table.h: the table of sources, and the calls that are inside each of them. The members of
-- the table are shared pointers, so an entry is known by its number and stays in the store when the
-- table no longer lists it. Waiting is a state: a removal that waits sits in its thread until it is
-- woken with nobody inside or its deadline has passed.
pub mod Guard
pub mod Table
mod Tests
use weblinked.Base.{
  ℕ, zero, suc, ◌+◌, ◌-◌, ◌<◌, ◌≡◌, Bool, true, false, not, ◌&&◌, ◌==◌, if◌then◌else◌, Option, none,
  some, List, [], ◌∷◌, ◌++◌,
}

-- What an entry guards with its mutex: the calls inside, and the two flags.
pub record Entry : Type 0 where
  pub users : ℕ
  pub closing : Bool
  pub retired : Bool

abbrev pub open_entry : Entry
open_entry = record { users = 0; closing = false; retired = false }

unfoldable pub enter : Entry → Entry × Bool
enter e = if e.closing then (e, false) else (record e { users = e.users + 1 }, true)

unfoldable pub leave : Entry → Entry
leave e = record e { users = e.users - 1 }

pub data Closed : Type 0 where
  empty timed_out already : Closed

-- close up to its wait: `none` when it has begun to wait.
unfoldable pub begin_close : Entry → Entry × Option Closed
begin_close e =
    if e.closing && not e.retired then (e, some already) else (record e { closing = true }, none)

-- What the wait of close ends with, when it ends now.
unfoldable pub end_wait : Entry → Closed
end_wait e = if e.users == 0 then empty else timed_out

unfoldable pub reopen : Entry → Entry
reopen e = if e.retired then e else record e { closing = false }

unfoldable pub retire : Entry → Entry
retire e = record e { retired = true }

-- Where takeAll is with the entry: it has the table's list before it retires the entry, then it closes
-- it and waits.
pub data Taker : Type 0 where
  away swapped retired closed has_idle has_busy : Taker

-- One entry and the threads at work on it: removals that wait, that have timed out, that have seen
-- it empty, and that have handed it back.
pub record System : Type 0 where
  pub entry : Entry
  pub waiting : ℕ
  pub late : ℕ
  pub emptied : ℕ
  pub removed : ℕ
  pub taker : Taker

abbrev pub fresh : System
fresh = record { entry = open_entry; waiting = 0; late = 0; emptied = 0; removed = 0; taker = away }

-- A removal begins to wait, unless another has the entry.
unfoldable pub begin_removal : System → System
begin_removal s = elim (begin_close s.entry).1 [
  | none ↦ record s { entry = (begin_close s.entry).0; waiting = s.waiting + 1 }
  | some result ↦ s
]

-- What a removal does after its wait: it hands the entry back, unless takeAll has it.
unfoldable pub finish_removal : System → System
finish_removal s =
    if s.entry.retired
    then record s { emptied = s.emptied - 1 }
    else record s { emptied = s.emptied - 1; removed = s.removed + 1 }

pub data Step : System → System → Type 0 where
  enters : (s : System) → Step s (record s { entry = (enter s.entry).0 })
  leaves : (s : System) → 0 < s.entry.users → Step s (record s { entry = leave s.entry })
  removes : (s : System) → Step s (begin_removal s)
  wakes :
      (s : System)
      → 0 < s.waiting
      → end_wait s.entry ≡ empty
      → Step s (record s { waiting = s.waiting - 1; emptied = s.emptied + 1 })
  gives_up :
      (s : System)
      → 0 < s.waiting
      → end_wait s.entry ≡ timed_out
      → Step s (record s { waiting = s.waiting - 1; late = s.late + 1 })
  reopens :
      (s : System) → 0 < s.late → Step s (record s { entry = reopen s.entry; late = s.late - 1 })
  finishes : (s : System) → 0 < s.emptied → Step s (finish_removal s)
  swaps : (s : System) → s.taker ≡ away → Step s (record s { taker = swapped })
  retires :
      (s : System)
      → s.taker ≡ swapped
      → Step s (record s { entry = retire s.entry; taker = retired })
  closes :
      (s : System)
      → s.taker ≡ retired
      → (begin_close s.entry).1 ≡ none
      → Step s (record s { entry = (begin_close s.entry).0; taker = closed })
  takes_idle :
      (s : System)
      → s.taker ≡ closed
      → end_wait s.entry ≡ empty
      → Step s (record s { taker = has_idle })
  takes_busy :
      (s : System)
      → s.taker ≡ closed
      → end_wait s.entry ≡ timed_out
      → Step s (record s { taker = has_busy })

pub data Reach : System → System → Type 0 where
  start : {s : System} → Reach s s
  next : {s t u : System} → Reach s t → Step t u → Reach s u
