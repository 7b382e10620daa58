-- ===== src/Gate.antt =====
-- core/call_gate.h and core/control_queue.h: the gate that a call into a source holds, and the requests that
-- wait for their turn. Times are natural numbers of nanoseconds; whether a mutex was got within a
-- wait is an argument, since the scheduler decides it.
pub mod Turns
mod Tests
use weblinked.Base.{
  ℕ, zero, suc, ◌+◌, ◌-◌, ◌≤◌, ◌<◌, ◌≡◌, min, Bool, true, false, not, ltb, leb, ◌==◌, if◌then◌else◌,
  Option, none, some, List, [], ◌∷◌,
}

-- CallGate: `since` is 0 when no call holds the gate, and `running` says whether one does.
pub record Gate : Type 0 where
  pub running : Bool
  pub since : ℕ
  pub refusals : ℕ
  pub wedged_after : ℕ

abbrev pub stamp : ℕ → ℕ
stamp now = if now == 0 then 1 else now

unfoldable pub busy_nanos : Gate → ℕ → ℕ
busy_nanos g now = if g.since == 0 then 0 else stamp now - g.since

unfoldable pub is_wedged : Gate → ℕ → Bool
unfolding busy_nanos
is_wedged g now = ltb g.wedged_after (busy_nanos g now)

-- How long tryRun waits for the gate.
unfoldable pub deadline_for : Gate → ℕ → ℕ → ℕ
unfolding is_wedged
deadline_for g now deadline = if is_wedged g now then now else deadline

-- tryRun up to the call: the gate is held, or a refusal is counted.
unfoldable pub begin_run : Gate → Bool → ℕ → Gate
begin_run g got now =
    if got
    then record g { running = true; since = stamp now }
    else record g { refusals = g.refusals + 1 }

unfoldable pub end_run : Gate → Gate
end_run g = record g { running = false; since = 0 }

pub data GateStep : Gate → Gate → Type 0 where
  runs : (g : Gate) (now : ℕ) → g.running ≡ false → GateStep g (begin_run g true now)
  is_refused : (g : Gate) (now : ℕ) → GateStep g (begin_run g false now)
  ends : (g : Gate) → g.running ≡ true → GateStep g (end_run g)

pub data GateReach (g : Gate) : Gate → Type 0 where
  idle : GateReach g g
  after : {h k : Gate} → GateReach g h → GateStep h k → GateReach g k

-- ControlQueue.
pub data Result : Type 0 where
  held timed_out too_many holder_stuck : Result

-- One turn of the loop of enter: the reading, whether the holder is stuck, whether the lock was got.
pub record Turn : Type 0 where
  pub now : ℕ
  pub is_stuck : Bool
  pub is_got : Bool

-- `deadline - now < poll_ ? deadline - now : poll_`
unfoldable pub step_for : ℕ → ℕ → ℕ → ℕ
step_for deadline poll now = if ltb (deadline - now) poll then deadline - now else poll

-- The loop over the turns that come: `none` while they have not ended it.
unfoldable pub wait_turns : ℕ → List Turn → Option Result
wait_turns deadline [] = none
wait_turns deadline (t ∷ ts) =
    let rest = wait_turns deadline ts in
    if leb deadline t.now
    then some timed_out
    else if t.is_stuck
    then some holder_stuck
    else if t.is_got
    then some held
    else rest

-- The counter of the waiting, and the requests by where they are in enter: in the loop, on the way out
-- of it, or turned away and not yet counted off.
pub record Queue : Type 0 where
  pub locked : Bool
  pub waiting : ℕ
  pub max_waiting : ℕ
  pub inside : ℕ
  pub leaving : ℕ
  pub refused : ℕ

abbrev pub fresh_queue : ℕ → Queue
fresh_queue max = record {
  locked = false;
  waiting = 0;
  max_waiting = max;
  inside = 0;
  leaving = 0;
  refused = 0;
}

-- The fetch_add of enter.
unfoldable pub join_queue : Queue → Queue
join_queue q =
    if leb q.max_waiting q.waiting
    then record q { waiting = q.waiting + 1; refused = q.refused + 1 }
    else record q { waiting = q.waiting + 1; inside = q.inside + 1 }

pub data QueueStep : Queue → Queue → Type 0 where
  locks : (q : Queue) → q.locked ≡ false → QueueStep q (record q { locked = true })
  joins : (q : Queue) → QueueStep q (join_queue q)
  turns_away :
      (q : Queue)
      → 0 < q.refused
      → QueueStep q (record q { waiting = q.waiting - 1; refused = q.refused - 1 })
  gets :
      (q : Queue)
      → 0 < q.inside
      → q.locked ≡ false
      → QueueStep q (record q { locked = true; inside = q.inside - 1; leaving = q.leaving + 1 })
  gives_up :
      (q : Queue)
      → 0 < q.inside
      → QueueStep q (record q { inside = q.inside - 1; leaving = q.leaving + 1 })
  leaves :
      (q : Queue)
      → 0 < q.leaving
      → QueueStep q (record q { waiting = q.waiting - 1; leaving = q.leaving - 1 })
  unlocks : (q : Queue) → q.locked ≡ true → QueueStep q (record q { locked = false })

pub data QueueReach (q : Queue) : Queue → Type 0 where
  start : QueueReach q q
  next : {r s : Queue} → QueueReach q r → QueueStep r s → QueueReach q s
