-- ===== src/Audio/Ring/Threads.antt =====
-- One producer and one consumer over the ring without a lock: every interleaving of the halves of `write` and
-- `read`. The first half of each loads the cursors and finds how many frames it will copy; the second
-- stores its own cursor when the copy is done. A write is taken to end before its cursor has run 2 ^ 64.
use weblinked.Base.{
  ℕ, ◌+◌, ◌-◌, ◌%◌, ◌≤◌, ◌<◌, ◌≡◌, ◌≢◌, arith, dec_lt, ltb, ◌/◌, subst, sym, false, refl,
}
use weblinked.Base.Int.{ℤ}
use native.Mathlib.Nat.{div-add-mod, mul-le-mul_left}
use weblinked.Audio.Ring.{
  Ring, u64, buffered, configure, reset, count_overrun, fitting, store, excess, playable,
  finish_read,
}

-- What the producer is in the middle of: it has found the fill level `level`, and is copying `taken` frames
-- in.
pub data Producer : Type 0 where
  waits : Producer
  copies_in : (taken level : ℕ) → Producer

-- The consumer was asked for `frames`, skips `skip` of what is there, and is copying `taken` frames out.
pub data Consumer : Type 0 where
  rests : Consumer
  copies_out : (frames skip taken : ℕ) → Consumer

pub record Shared (A : Type 0) : Type 0 where
  pub ring : Ring A
  pub producer : Producer
  pub consumer : Consumer

-- What gets past the guards of write and read.
abbrev IsAsked : {A : Type 0} → Ring A → ℕ → Type 0
IsAsked r frames = (0 < frames) × (0 < r.channels) × (0 < r.capacity)

-- Each side computes from the cursors as they are when it begins, and stores its own when it ends;
-- in between the other side may have begun and ended any number of times. A call that a guard turns away,
-- or a read while priming, changes nothing.
pub data Step {A : Type 0} : Shared A → Shared A → Type 0 where
  refuses_write :
      (s : Shared A) (frames : ℕ)
      → IsAsked s.ring frames
      → s.producer ≡ waits
      → fitting s.ring frames ≡ 0
      → Step s (record s { ring = count_overrun s.ring (ltb 0 frames) })
  begins_write :
      (s : Shared A) (frames : ℕ)
      → IsAsked s.ring frames
      → s.producer ≡ waits
      → 0 < fitting s.ring frames
      → Step s (record s {
        ring = count_overrun s.ring (ltb (fitting s.ring frames) frames);
        producer = copies_in (fitting s.ring frames) (buffered s.ring);
      })
  ends_write :
      (s : Shared A) (source : ℕ → A) (taken level : ℕ)
      → s.producer ≡ copies_in taken level
      → s.ring.write_at + taken < u64
      → Step s (record s { ring = store s.ring level source taken; producer = waits })
  begins_read :
      (s : Shared A) (frames : ℕ)
      → IsAsked s.ring frames
      → s.consumer ≡ rests
      → s.ring.priming ≡ false
      → Step s (record s { consumer = copies_out frames (excess s.ring) (playable s.ring frames) })
  ends_read :
      (s : Shared A) (frames skip taken : ℕ)
      → s.consumer ≡ copies_out frames skip taken
      → Step s (record s { ring = finish_read s.ring frames skip taken; consumer = rests })

pub data Reach {A : Type 0} (s : Shared A) : Shared A → Type 0 where
  here : Reach s s
  next : {t u : Shared A} → Reach s t → Step t u → Reach s u

abbrev Writes : {A : Type 0} → Ring A → Producer → Type 0
Writes r waits = Unit {0}
Writes r (copies_in taken level) = r.write_at + taken ≤ r.read_at + r.capacity

-- What is copied out has been written.
abbrev pub Reads : {A : Type 0} → Ring A → Consumer → Type 0
Reads r rests = Unit {0}
Reads r (copies_out frames skip taken) = r.read_at + skip + taken ≤ r.write_at

-- While both sides copy, they touch different places of the buffer.
abbrev pub AreApart : {A : Type 0} → Ring A → Producer → Consumer → Type 0
AreApart r waits c = Unit {0}
AreApart r (copies_in taken level) rests = Unit {0}
AreApart r (copies_in taken level) (copies_out frames skip played) =
    (i j : ℕ)
    → i < taken
    → j < played
    → (r.write_at + i) % r.capacity ≢ (r.read_at + skip + j) % r.capacity

pub record IsSafe {A : Type 0} (s : Shared A) : Type 0 where
  pub ordered : s.ring.read_at ≤ s.ring.write_at
  pub bounded : s.ring.write_at ≤ s.ring.read_at + s.ring.capacity
  pub no_wrap : s.ring.write_at < u64
  pub writes : Writes s.ring s.producer
  pub reads : Reads s.ring s.consumer

safe_level :
    {A : Type 0} (s : Shared A) → IsSafe s → buffered s.ring ≡ s.ring.write_at - s.ring.read_at
safe_level s v = omega (arith, v.ordered, v.no_wrap)

-- What one side has begun outlasts what the other side does.
Reads-later :
    {A : Type 0} (r r' : Ring A) (c : Consumer)
    → r'.read_at ≡ r.read_at
    → r.write_at ≤ r'.write_at
    → Reads r c
    → Reads r' c
Reads-later r r' rests e h d = tt
Reads-later r r' (copies_out frames skip taken) e h d = omega arith

Writes-later :
    {A : Type 0} (r r' : Ring A) (p : Producer)
    → r'.write_at ≡ r.write_at
    → r'.capacity ≡ r.capacity
    → r.read_at ≤ r'.read_at
    → Writes r p
    → Writes r' p
Writes-later r r' waits e k h w = tt
Writes-later r r' (copies_in taken level) e k h w = omega arith

Step-IsSafe : {A : Type 0} {s t : Shared A} → Step s t → IsSafe s → IsSafe t
unfolding store finish_read
Step-IsSafe (refuses_write s frames a e z) v = record {
  ordered = v.ordered;
  bounded = v.bounded;
  no_wrap = v.no_wrap;
  writes = subst (Writes (count_overrun s.ring (ltb 0 frames))) (sym e) tt;
  reads = v.reads;
}
Step-IsSafe (begins_write s frames a e z) v = record {
  ordered = v.ordered;
  bounded = v.bounded;
  no_wrap = v.no_wrap;
  writes = omega (arith, safe_level s v, v.ordered, v.bounded);
  reads = v.reads;
}
Step-IsSafe (ends_write s source taken level e early) v =
    let room = subst (Writes s.ring) e v.writes in
    record {
      ordered = omega (arith, v.ordered);
      bounded = omega arith;
      no_wrap = omega arith;
      writes = tt;
      reads =
          Reads-later s.ring (store s.ring level source taken) s.consumer refl (omega arith)
            v.reads;
    }
Step-IsSafe (begins_read s frames a e p) v = record {
  ordered = v.ordered;
  bounded = v.bounded;
  no_wrap = v.no_wrap;
  writes = v.writes;
  reads = ground (arith, safe_level s v, v.ordered);
}
Step-IsSafe (ends_read s frames skip taken e) v =
    let there = subst (Reads s.ring) e v.reads in
    let moves : (s.ring.read_at + skip + taken) % u64 ≡ s.ring.read_at + skip + taken =
      omega (arith, v.no_wrap) in
    record {
      ordered = omega arith;
      bounded = omega (arith, v.bounded);
      no_wrap = v.no_wrap;
      writes =
          Writes-later s.ring (finish_read s.ring frames skip taken) s.producer refl refl
            (omega arith) v.writes;
      reads = tt;
    }

Reach-IsSafe : {A : Type 0} {s t : Shared A} → IsSafe s → Reach s t → IsSafe t
Reach-IsSafe v here = v
Reach-IsSafe v (next r st) = Step-IsSafe st (Reach-IsSafe v r)

-- Two positions less than one turn apart are not the same place.
turn_apart : (p q n : ℕ) → q < p → p < q + n → p % n ≢ q % n
turn_apart p q n later near e = elim (dec_lt (q / n) (p / n)) [
  | yes h ↦ omega (
    arith,
    div-add-mod p n,
    div-add-mod q n,
    mul-le-mul_left {m = q / n + 1} {n = p / n} n (omega arith),
  )
  | no h ↦ omega (
    arith,
    div-add-mod p n,
    div-add-mod q n,
    mul-le-mul_left {m = p / n} {n = q / n} n (omega arith),
  )
]

abbrev pub started : {A : Type 0} → Ring A → Shared A
started r = record { ring = r; producer = waits; consumer = rests }

configured-IsSafe :
    {A : Type 0} (silence : A) (r : Ring A) (channels sample_rate capacity_ms target_ms : ℤ)
    → IsSafe (started (configure silence r channels sample_rate capacity_ms target_ms))
unfolding configure reset
configured-IsSafe silence r channels sample_rate capacity_ms target_ms = record {
  ordered = omega arith;
  bounded = omega arith;
  no_wrap = omega arith;
  writes = tt;
  reads = tt;
}

safe-AreApart :
    {A : Type 0} (r : Ring A) (p : Producer) (c : Consumer)
    → r.write_at ≤ r.read_at + r.capacity
    → Writes r p
    → Reads r c
    → AreApart r p c
safe-AreApart r waits c b w d = tt
safe-AreApart r (copies_in taken level) rests b w d = tt
safe-AreApart r (copies_in taken level) (copies_out frames skip played) b w d = λ i j hi hj.
    turn_apart (r.write_at + i) (r.read_at + skip + j) r.capacity (omega arith) (omega arith)

-- However the halves of write and read are interleaved from a configured ring on, the fill level stays
-- between nothing and the capacity, everything that the consumer is copying out has been written, and while
-- both sides copy they never touch the same place of the buffer.
pub no_shared_sample :
    {A : Type 0} (silence : A) (r : Ring A) (channels sample_rate capacity_ms target_ms : ℤ)
    {s : Shared A}
    → Reach (started (configure silence r channels sample_rate capacity_ms target_ms)) s
    → (s.ring.read_at ≤ s.ring.write_at)
      × (s.ring.write_at ≤ s.ring.read_at + s.ring.capacity)
      × Reads s.ring s.consumer
      × AreApart s.ring s.producer s.consumer
no_shared_sample silence r channels sample_rate capacity_ms target_ms {s} reached =
    let v =
      Reach-IsSafe (configured-IsSafe silence r channels sample_rate capacity_ms target_ms)
        reached in
    (
      v.ordered,
      v.bounded,
      v.reads,
      safe-AreApart s.ring s.producer s.consumer v.bounded v.writes v.reads,
    )
