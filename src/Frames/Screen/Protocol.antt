-- ===== src/Frames/Screen/Protocol.antt =====
-- The clock thread and the display's refresh thread over a `Screen.Ring`, in any interleaving: they
-- never touch one slot at once, and the writer always finds a slot.
use weblinked.Base.{
  Bool-cases, ℕ, zero, suc, ◌+◌, ◌≡◌, ◌≢◌, refl, Bool, true, false, Option, none, some, arith, inl,
  inr,
}
use weblinked.Frames.Screen.{
  Ring, fresh, slot_count, is_slot, is_busy, first_idle, claim, publish, acquire, release, shutdown,
  reset,
}

-- The ring with what each thread has in hand: the slot that the writer is filling, and the slot that
-- the reader is drawing.
pub record System : Type 0 where
  pub ring : Ring
  pub writer : Option ℕ
  pub reader : Option ℕ

pub data Step : System → System → Type 0 where
  claims :
      (s : System)
      → s.writer ≡ none
      → Step s (record s { ring = (claim s.ring).0; writer = (claim s.ring).1 })
  publishes :
      (s : System) (i : ℕ)
      → s.writer ≡ some i
      → Step s (record s { ring = publish s.ring i; writer = none })
  acquires :
      (s : System)
      → s.reader ≡ none
      → Step s (record s { ring = (acquire s.ring).0; reader = (acquire s.ring).1 })
  releases :
      (s : System) (i : ℕ) (presented : Bool)
      → s.reader ≡ some i
      → Step s (record s { ring = release s.ring presented; reader = none })
  -- The window closes at any moment; it is opened anew when neither thread has a slot in hand.
  closes : (s : System) → Step s (record s { ring = shutdown s.ring })
  opens :
      (s : System) → s.writer ≡ none → s.reader ≡ none → Step s (record s { ring = reset s.ring })

pub data Reach (s : System) : System → Type 0 where
  here : Reach s s
  next : {t u : System} → Reach s t → Step t u → Reach s u

abbrev pub Apart : Option ℕ → Option ℕ → Type 0
Apart none b = Unit {0}
Apart (some i) none = Unit {0}
Apart (some i) (some j) = i ≢ j

-- While the ring is open its indices are what the threads have in hand.
pub record IsSafe (s : System) : Type 0 where
  pub apart : Apart s.writer s.reader
  pub linked : s.ring.is_open ≡ true → (s.ring.writing ≡ s.writer) × (s.ring.in_use ≡ s.reader)
  pub unpublished : s.ring.is_open ≡ true → Apart s.writer s.ring.newest

abbrev pub start : System
start = record { ring = fresh; writer = none; reader = none }

idle_found : (r : Ring) (left i j : ℕ) → first_idle r left i ≡ some j → is_busy r j ≡ false
unfolding first_idle
idle_found r zero i j e = cc
idle_found r (suc left) i j e = ground (arith, idle_found r left (i + 1) j)

Apart-of_idle : (o : Option ℕ) (i : ℕ) → is_slot i o ≡ false → Apart (some i) o
Apart-of_idle none i h = tt
Apart-of_idle (some j) i h = ground arith

first-Apart :
    (r : Ring) (o : Option ℕ)
    → first_idle r slot_count 0 ≡ o
    → Apart o r.newest × Apart o r.in_use × Apart o r.writing
first-Apart r none e = (tt, tt, tt)
first-Apart r (some i) e = ground (
  arith,
  idle_found r slot_count 0 i e,
  Apart-of_idle r.newest i,
  Apart-of_idle r.in_use i,
  Apart-of_idle r.writing i,
)

-- `claim` gives out only a slot that is neither published, nor drawn from, nor being filled.
claim-Apart :
    (r : Ring)
    → Apart (claim r).1 r.newest × Apart (claim r).1 r.in_use × Apart (claim r).1 r.writing
unfolding claim
claim-Apart r = ground (arith, first-Apart r (first_idle r slot_count 0) refl)

three_suffice : (r : Ring) → r.writing ≡ none → first_idle r slot_count 0 ≢ none
unfolding first_idle
three_suffice r w = ground arith

-- With nothing claimed, an open ring always has a slot to give, whatever is published and drawn.
claim_finds : (r : Ring) → r.is_open ≡ true → r.writing ≡ none → (claim r).1 ≢ none
unfolding claim
claim_finds r o w = ground (arith, three_suffice r w)

claims-IsSafe :
    (s : System)
    → s.writer ≡ none
    → IsSafe s
    → IsSafe (record s { ring = (claim s.ring).0; writer = (claim s.ring).1 })
unfolding claim
claims-IsSafe s e v = ground (arith, claim-Apart s.ring)

Step-IsSafe : {s t : System} → Step s t → IsSafe s → IsSafe t
unfolding publish acquire release shutdown reset
Step-IsSafe (claims s e) v = claims-IsSafe s e v
Step-IsSafe (publishes s i e) v = ground arith
Step-IsSafe (acquires s e) v = ground arith
Step-IsSafe (releases s i presented e) v = ground arith
Step-IsSafe (closes s) v = ground arith
Step-IsSafe (opens s e f) v = ground arith

Reach-IsSafe : {s t : System} → IsSafe s → Reach s t → IsSafe t
Reach-IsSafe v here = v
Reach-IsSafe v (next r st) = Step-IsSafe st (Reach-IsSafe v r)

start-IsSafe : IsSafe start
start-IsSafe = record { apart = tt; linked = λ e. cc; unpublished = λ e. tt }

claim_reader : (r : Ring) (o : Option ℕ) → (r.is_open ≡ true → r.in_use ≡ o) → Apart (claim r).1 o
unfolding claim
claim_reader r o h = elim (Bool-cases r.is_open) [
  | inl e ↦ rw (← h e) (claim-Apart r).1
  | inr e ↦ closed r e
]
  where
    closed : (r : Ring) → r.is_open ≡ false → Apart (claim r).1 o
    closed r e = rw (e, claim) tt

-- In every state that the two threads can reach, however they are interleaved and whenever the window
-- closes and opens, they do not hold one slot at once, and a slot that the writer is given next is
-- not the one that the reader is drawing.
pub never_torn :
    {s : System} → Reach start s → Apart s.writer s.reader × Apart (claim s.ring).1 s.reader
never_torn {s} r =
    let v = Reach-IsSafe start-IsSafe r in
    (v.apart, claim_reader s.ring s.reader (λ e. (v.linked e).1))

-- In every reachable state where the ring is open and the writer has nothing in hand, `claim` gives it
-- a slot: three are enough, whatever the reader is doing.
pub writer_served :
    {s : System} → Reach start s → s.ring.is_open ≡ true → s.writer ≡ none → (claim s.ring).1 ≢ none
writer_served {s} r o w =
    claim_finds s.ring o (ground (arith, (Reach-IsSafe start-IsSafe r).linked o))
