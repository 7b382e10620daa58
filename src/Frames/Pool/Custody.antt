-- ===== src/Frames/Pool/Custody.antt =====
-- The buffers of a `Pool` and the frames that are out: no buffer is in two places.
use mathlib.Core.Path.{subst}
use weblinked.Base.{
  ◌↔◌, ap, ◌∙◌, ℕ, ◌+◌, ◌≤◌, ◌<◌, ◌≡◌, refl, List, [], ◌∷◌, ◌++◌, ◌==◌, arith, if◌then◌else◌,
  length,
}
use weblinked.Frames.Pool.{Frame, Pool, create, acquire_from, acquire, recycle, retained_count}

-- How many of these frames stand on that buffer.
unfoldable pub holds : ℕ → List Frame → ℕ
holds b [] = 0
holds b (f ∷ fs) = (if f.buffer == b then 1 else 0) + holds b fs

-- Every frame has the pool's shape, and a buffer that the pool has made.
unfoldable pub OfShape : ℕ → ℕ → List Frame → Type 0
OfShape bytes made [] = Unit {0}
OfShape bytes made (f ∷ fs) = (f.size_bytes ≡ bytes) × (f.buffer < made) × OfShape bytes made fs

-- A pool with the frames that are out.
pub record World : Type 0 where
  pub pool : Pool
  pub out : List Frame

-- A frame is acquired, or the last holder of one of those that are out lets go of it.
pub data Step : World → World → Type 0 where
  acquires :
      (w : World) → Step w (record { pool = (acquire w.pool).0; out = (acquire w.pool).1 ∷ w.out })
  drops :
      (w : World) (before after : List Frame) (f : Frame)
      → w.out ≡ before ++ (f ∷ after)
      → Step w (record { pool = recycle w.pool f; out = before ++ after })

pub data Reach (w : World) : World → Type 0 where
  here : Reach w w
  next : {t u : World} → Reach w t → Step t u → Reach w u

abbrev total : World → ℕ → ℕ
total w b = holds b w.pool.free + holds b w.out

-- No buffer is in two places, and one that has not been made is in none.
abbrev Single : World → ℕ → Type 0
Single w b = (total w b ≤ 1) × (w.pool.made ≤ b → total w b ≡ 0)

holds-append : (b : ℕ) (xs ys : List Frame) → holds b (xs ++ ys) ≡ holds b xs + holds b ys
unfolding holds
holds-append b [] ys = omega arith
holds-append b (x ∷ xs) ys = omega (arith, holds-append b xs ys)

acquire_from-Single :
    (p : Pool) (out free : List Frame) (b : ℕ)
    → p.free ≡ free
    → Single (record { pool = p; out = out }) b
    → Single (record { pool = (acquire_from p free).0; out = (acquire_from p free).1 ∷ out }) b
unfolding acquire_from holds
acquire_from-Single p out [] b e v = ground arith
acquire_from-Single p out (f ∷ rest) b e v = ground arith

Step-Single : {w t : World} (b : ℕ) → Step w t → Single w b → Single t b
unfolding acquire recycle holds
Step-Single b (acquires w) v = acquire_from-Single w.pool w.out w.pool.free b refl v
Step-Single b (drops w before after f e) v =
    ground (arith, ap (holds b) e, holds-append b before after, holds-append b before (f ∷ after))

OfShape-append :
    (bytes made : ℕ) (xs ys : List Frame)
    → OfShape bytes made (xs ++ ys) ↔ OfShape bytes made xs × OfShape bytes made ys
unfolding OfShape
OfShape-append bytes made [] ys = (λ h. (tt, h), λ h. h.1)
OfShape-append bytes made (x ∷ xs) ys =
    let ih = OfShape-append bytes made xs ys in
    (λ h. ((h.0, h.1, (ih.0 h.2).0), (ih.0 h.2).1), λ h. (h.0.0, h.0.1, ih.1 (h.0.2, h.1)))

OfShape-mono :
    (bytes made : ℕ) (xs : List Frame) → OfShape bytes made xs → OfShape bytes (made + 1) xs
unfolding OfShape
OfShape-mono bytes made [] h = tt
OfShape-mono bytes made (x ∷ xs) h = (h.0, omega arith, OfShape-mono bytes made xs h.2)

-- Every frame, in the pool or out, has the pool's shape; the pool keeps no more than it may.
pub record IsSound (w : World) : Type 0 where
  pub shape_free : OfShape w.pool.frame_bytes w.pool.made w.pool.free
  pub shape_out : OfShape w.pool.frame_bytes w.pool.made w.out
  pub bounded : retained_count w.pool ≤ w.pool.max_retained

acquire_from-IsSound :
    (p : Pool) (out free : List Frame)
    → p.free ≡ free
    → IsSound (record { pool = p; out = out })
    → IsSound (record { pool = (acquire_from p free).0; out = (acquire_from p free).1 ∷ out })
unfolding acquire_from OfShape retained_count
acquire_from-IsSound p out [] e v = record {
  shape_free = OfShape-mono p.frame_bytes p.made p.free v.shape_free;
  shape_out = (refl, omega arith, OfShape-mono p.frame_bytes p.made out v.shape_out);
  bounded = v.bounded;
}
acquire_from-IsSound p out (f ∷ rest) e v =
    let h = subst (OfShape p.frame_bytes p.made) e v.shape_free in
    record {
      shape_free = h.2;
      shape_out = (h.0, h.1, v.shape_out);
      bounded = omega (arith, v.bounded, ap length e);
    }

recycle-IsSound :
    (p : Pool) (f : Frame) (out : List Frame)
    → OfShape p.frame_bytes p.made (f ∷ [])
    → IsSound (record { pool = p; out = out })
    → IsSound (record { pool = recycle p f; out = out })
unfolding recycle OfShape retained_count
recycle-IsSound p f out h v = ground arith

Step-IsSound : {w t : World} → Step w t → IsSound w → IsSound t
unfolding acquire
Step-IsSound (acquires w) v = acquire_from-IsSound w.pool w.out w.pool.free refl v
Step-IsSound (drops w before after f e) v =
    let bytes = w.pool.frame_bytes in
    let made = w.pool.made in
    let h =
      (OfShape-append bytes made before (f ∷ after)).0 (subst (OfShape bytes made) e v.shape_out) in
    let g = (OfShape-append bytes made (f ∷ []) after).0 h.1 in
    recycle-IsSound w.pool f (before ++ after) g.0 (record {
      shape_free = v.shape_free;
      shape_out = (OfShape-append bytes made before after).1 (h.0, g.1);
      bounded = v.bounded;
    })

abbrev pub start : ℕ → ℕ → World
start bytes max_retained = record { pool = create bytes max_retained; out = [] }

acquire_from_config :
    (p : Pool) (free : List Frame)
    → let q = (acquire_from p free).0 in
      (q.frame_bytes ≡ p.frame_bytes) × (q.max_retained ≡ p.max_retained)
unfolding acquire_from
acquire_from_config p [] = (refl, refl)
acquire_from_config p (f ∷ rest) = (refl, refl)

Step-config :
    {w t : World}
    → Step w t
    → (t.pool.frame_bytes ≡ w.pool.frame_bytes) × (t.pool.max_retained ≡ w.pool.max_retained)
unfolding acquire recycle
Step-config (acquires w) = acquire_from_config w.pool w.pool.free
Step-config (drops w before after f e) = ground arith

-- What holds in each reachable world, of each buffer.
record Holds (bytes max_retained b : ℕ) (w : World) : Type 0 where
  single : Single w b
  sound : IsSound w
  same_bytes : w.pool.frame_bytes ≡ bytes
  same_max : w.pool.max_retained ≡ max_retained

Reach-Holds :
    (bytes max_retained b : ℕ) {w : World}
    → Reach (start bytes max_retained) w
    → Holds bytes max_retained b w
unfolding create holds OfShape retained_count
Reach-Holds bytes max_retained b here = record {
  single = (omega arith, λ _. refl);
  sound = record { shape_free = tt; shape_out = tt; bounded = omega arith };
  same_bytes = refl;
  same_max = refl;
}
Reach-Holds bytes max_retained b (next r st) =
    let v = Reach-Holds bytes max_retained b r in
    record {
      single = Step-Single b st v.single;
      sound = Step-IsSound st v.sound;
      same_bytes = (Step-config st).0 ∙ v.same_bytes;
      same_max = (Step-config st).1 ∙ v.same_max;
    }

-- However frames are acquired and dropped: of all the frames in the pool and out of it at most one
-- stands on a given buffer, the pool retains no more than it was created to, and every frame that is
-- out has the size that the pool was created for.
pub one_place :
    (bytes max_retained b : ℕ) {w : World}
    → Reach (start bytes max_retained) w
    → (holds b w.pool.free + holds b w.out ≤ 1)
      × (retained_count w.pool ≤ max_retained)
      × OfShape bytes w.pool.made w.out
one_place bytes max_retained b {w} r =
    let v = Reach-Holds bytes max_retained b r in
    (
      v.single.0,
      omega (arith, v.sound.bounded, v.same_max),
      subst (λ k. OfShape k w.pool.made w.out) v.same_bytes v.sound.shape_out,
    )
