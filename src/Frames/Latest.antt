-- ===== src/Frames/Latest.antt =====
-- core/frame_ring.h, `LatestFrameSlot`: a handoff that holds only the most recent frame. A published frame is
-- taken not to be null.
use weblinked.Base.{ℕ, ◌+◌, ◌≡◌, refl, Option, none, some, List, [], ◌∷◌, arith}

pub record Latest {ℓ} (A : Type ℓ) : Type ℓ where
  pub frame : Option A
  pub overwritten : ℕ
  pub published : ℕ

-- The two threads, in any order: the browser paints, the clock takes.
pub data Call {ℓ} (A : Type ℓ) : Type ℓ where
  paints : A → Call A
  takes : Call A

module _ {ℓ} {A : Type ℓ} where
  unfoldable pub publish : Latest A → A → Latest A
  publish s f = record {
    frame = some f;
    overwritten = elim s.frame [ none ↦ s.overwritten | some _ ↦ s.overwritten + 1 ];
    published = s.published + 1;
  }

  unfoldable pub take : Latest A → Latest A × Option A
  take s = (record s { frame = none }, s.frame)

  abbrev pub peek : Latest A → Option A
  peek s = s.frame

  unfoldable pub step : Latest A → Call A → Latest A × Option A
  unfolding publish take
  step s (paints f) = (publish s f, none)
  step s takes = take s

  unfoldable pub run : Latest A → List (Call A) → Latest A
  run s [] = s
  run s (c ∷ cs) = run (step s c).0 cs

  abbrev got : Option A → ℕ
  got none = 0
  got (some _) = 1

  -- How many of the `take` calls came back with a frame.
  unfoldable pub times_taken : Latest A → List (Call A) → ℕ
  times_taken s [] = 0
  times_taken s (c ∷ cs) = got (step s c).1 + times_taken (step s c).0 cs

  -- The frame of the last call that painted or took, if that painted; else what was there before.
  unfoldable pub last_painted : Option A → List (Call A) → Option A
  last_painted o [] = o
  last_painted o (paints f ∷ cs) = last_painted (some f) cs
  last_painted o (takes ∷ cs) = last_painted none cs

  step_balance :
      (s : Latest A) (c : Call A)
      → let (s', o) = step s c in
        s'.published + got s.frame + s.overwritten
        ≡ s'.overwritten + got s'.frame + s.published + got o
  unfolding step publish take
  step_balance s (paints f) = ground arith
  step_balance s takes = ground arith

  painted : (s : Latest A) (f : A) → (step s (paints f)).0.frame ≡ some f
  unfolding step
  painted s f = refl

  taken : (s : Latest A) → (step s takes).0.frame ≡ none
  unfolding step
  taken s = refl

  -- However the browser and the clock take turns, every frame published since is accounted for: it
  -- was taken, or overwritten, or is the one that waits; and the one that waits is the newest.
  pub all_accounted :
      (s : Latest A) (cs : List (Call A))
      → let s' = run s cs in
        (s'.published + got s.frame + s.overwritten
          ≡ s'.overwritten + got s'.frame + s.published + times_taken s cs)
        × (s'.frame ≡ last_painted s.frame cs)
  unfolding run times_taken last_painted
  all_accounted s [] = (omega arith, refl)
  all_accounted s (paints f ∷ cs) =
      ground (arith, step_balance s (paints f), all_accounted (step s (paints f)).0 cs, painted s f)
  all_accounted s (takes ∷ cs) =
      ground (arith, step_balance s takes, all_accounted (step s takes).0 cs, taken s)
