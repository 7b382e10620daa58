-- ===== src/Gate/Turns.antt =====
-- The gate tells a stuck call from an idle gate, and the queue stays within its bound and its deadline.
use weblinked.Base.{ℕ, ◌⊎◌, ◌+◌, ◌≤◌, ◌<◌, ◌≡◌, true, false, List, [], ◌∷◌, arith}
use weblinked.Gate.{
  Gate, stamp, busy_nanos, is_wedged, begin_run, end_run, GateStep, GateReach, runs, is_refused,
  ends, idle, after, Turn, step_for, Queue, fresh_queue, join_queue, QueueStep, QueueReach, locks,
  joins, turns_away, gets, gives_up, leaves, unlocks, start, next,
}

-- The stamp is set exactly while a call runs.
record IsStamped (g : Gate) : Type 0 where
  stopped : g.running ≡ false → g.since ≡ 0
  going : g.running ≡ true → 0 < g.since

GateStep-IsStamped : {g h : Gate} → GateStep g h → IsStamped g → IsStamped h
unfolding begin_run end_run
GateStep-IsStamped (runs g now e) v = ground arith
GateStep-IsStamped (is_refused g now) v = ground arith
GateStep-IsStamped (ends g e) v = ground arith

GateReach-IsStamped : {g h : Gate} → GateReach g h → IsStamped g → IsStamped h
GateReach-IsStamped idle v = v
GateReach-IsStamped (after r s) v = GateStep-IsStamped s (GateReach-IsStamped r v)

idle-IsStamped : (g : Gate) → g.since ≡ 0 → g.running ≡ false → IsStamped g
idle-IsStamped g e f = ground arith

-- From an idle gate, whatever calls run, end or are refused, a gate that reports itself wedged has a
-- call running in it for longer than the limit; and when no call runs it reports no time at all.
pub wedged_is_running :
    (g h : Gate) (now : ℕ)
    → g.since ≡ 0
    → g.running ≡ false
    → GateReach g h
    → (is_wedged h now ≡ true → (h.running ≡ true) × (h.since + h.wedged_after < stamp now))
      × (h.running ≡ false → busy_nanos h now ≡ 0)
unfolding is_wedged busy_nanos
wedged_is_running g h now e f r =
    let v = GateReach-IsStamped r (idle-IsStamped g e f) in (λ w. ground arith, λ n. ground arith)

record IsCounted (q : Queue) : Type 0 where
  counted : q.waiting ≡ q.inside + q.leaving + q.refused
  bounded : q.inside + q.leaving ≤ q.max_waiting

QueueStep-IsCounted : {q r : Queue} → QueueStep q r → IsCounted q → IsCounted r
unfolding join_queue
QueueStep-IsCounted (locks q e) v = ground arith
QueueStep-IsCounted (joins q) v = ground arith
QueueStep-IsCounted (turns_away q h) v = ground arith
QueueStep-IsCounted (gets q h e) v = ground arith
QueueStep-IsCounted (gives_up q h) v = ground arith
QueueStep-IsCounted (leaves q h) v = ground arith
QueueStep-IsCounted (unlocks q e) v = ground arith

QueueReach-IsCounted : {q r : Queue} → QueueReach q r → IsCounted q → IsCounted r
QueueReach-IsCounted start v = v
QueueReach-IsCounted (next r s) v = QueueStep-IsCounted s (QueueReach-IsCounted r v)

fresh-IsCounted : (max : ℕ) → IsCounted (fresh_queue max)
fresh-IsCounted max = ground arith

-- However requests enter, wait, are turned away and leave, no more than the maximum of them wait at
-- once, and the counter is exact: it is 0 whenever no request is in enter.
pub waiting_is_bounded :
    (max : ℕ) (q : Queue)
    → QueueReach (fresh_queue max) q
    → (q.inside + q.leaving ≤ q.max_waiting) × (q.waiting ≡ q.inside + q.leaving + q.refused)
waiting_is_bounded max q r =
    let v = QueueReach-IsCounted r (fresh-IsCounted max) in (v.bounded, v.counted)

-- The wait for the lock never runs past the deadline.
pub step_for-bound :
    (deadline poll now : ℕ) → now < deadline → now + step_for deadline poll now ≤ deadline
unfolding step_for
step_for-bound deadline poll now h = ground arith

-- Readings that follow one another: the first is not before `from`, and a wait for the lock that fails
-- lasts as long as it was asked to.
abbrev pub IsPaced : ℕ → ℕ → ℕ → List Turn → Type 0
IsPaced deadline poll from [] = Unit {0}
IsPaced deadline poll from (t ∷ ts) =
    (from ≤ t.now) × IsPaced deadline poll (t.now + step_for deadline poll t.now) ts

-- No turn finds the holder stuck or gets the lock.
abbrev pub AreIdle : List Turn → Type 0
AreIdle [] = Unit {0}
AreIdle (t ∷ ts) = ((t.is_stuck ≡ false) × (t.is_got ≡ false)) × AreIdle ts

abbrev pub Has : (Turn → Type 0) → List Turn → Type 0
Has P [] = ⊥
Has P (t ∷ ts) = P t ⊎ Has P ts

-- A turn before the deadline that gets the lock from a holder that is not stuck.
abbrev pub IsGot : ℕ → Turn → Type 0
IsGot deadline t = (t.now < deadline) × ((t.is_stuck ≡ false) × (t.is_got ≡ true))

-- A turn before the deadline that finds the holder stuck.
abbrev pub IsStuck : ℕ → Turn → Type 0
IsStuck deadline t = (t.now < deadline) × (t.is_stuck ≡ true)
