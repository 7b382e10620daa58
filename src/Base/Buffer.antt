-- ===== src/Base/Buffer.antt =====
-- Memory as lists: a block copy into a buffer, and the lists that a loop over an index fills.
use weblinked.Base.Tests.{ltb, leb, ◌==◌, if◌then◌else◌}
use weblinked.Base.Lists.{length, set, get_or, drop, replicate, length-set}
use Prim.Native.Nat.{ℕ, zero, suc, ◌+◌, ◌-◌, ◌≤◌, ◌<◌}
use mathlib.Core.Path.{◌≡◌, refl, ap, ap₂, ◌∙◌}
use mathlib.Core.Bool.{◌&&◌}
use mathlib.Core.List.{List, [], ◌∷◌, ◌++◌, map}
use native.Mathlib.Omega.{arith}
use native.Mathlib.Nat.{zero-add, sub-zero}

module _ {A : Type 0} where
  -- `memcpy(xs + at, source, n)`. A write past the end of `xs` is lost.
  unfoldable pub memcpy : List A → ℕ → ℕ → (ℕ → A) → List A
  memcpy xs at zero source = xs
  memcpy xs at (suc n) source = memcpy (set xs at (source 0)) (at + 1) n (λ i. source (i + 1))

  -- The list of `f 0` to `f (n - 1)`.
  unfoldable pub tabulate : ℕ → (ℕ → A) → List A
  tabulate zero f = []
  tabulate (suc n) f = f 0 ∷ tabulate n (λ i. f (i + 1))

  pub get_or-set :
      (xs : List A) (i j : ℕ) (v d : A)
      → i < length xs
      → get_or (set xs i v) j d ≡ (if i == j then v else get_or xs j d)
  get_or-set [] i j v d h = absurd (omega arith)
  get_or-set (x ∷ xs) zero zero v d h = refl
  get_or-set (x ∷ xs) zero (suc j) v d h = ground arith
  get_or-set (x ∷ xs) (suc i) zero v d h = ground arith
  get_or-set (x ∷ xs) (suc i) (suc j) v d h = ground (arith, get_or-set xs i j v d)

  pub length-memcpy :
      (xs : List A) (at n : ℕ) (source : ℕ → A) → length (memcpy xs at n source) ≡ length xs
  unfolding memcpy
  length-memcpy xs at zero source = refl
  length-memcpy xs at (suc n) source =
      length-memcpy (set xs at (source 0)) (at + 1) n (λ i. source (i + 1))
      ∙ length-set xs at (source 0)

  -- Inside the block stands the source, outside it what was there before.
  pub get_or-memcpy :
      (xs : List A) (at n k : ℕ) (source : ℕ → A) (d : A)
      → at + n ≤ length xs
      → get_or (memcpy xs at n source) k d
        ≡ (if leb at k && ltb k (at + n) then source (k - at) else get_or xs k d)
  unfolding memcpy
  get_or-memcpy xs at zero k source d h = ground arith
  get_or-memcpy xs at (suc n) k source d h = ground (
    arith,
    get_or-memcpy (set xs at (source 0)) (at + 1) n k (λ i. source (i + 1)) d,
    length-set xs at (source 0),
    get_or-set xs at k (source 0) d,
  )

  pub length-tabulate : (n : ℕ) (f : ℕ → A) → length (tabulate n f) ≡ n
  unfolding tabulate
  length-tabulate zero f = refl
  length-tabulate (suc n) f = ap suc (length-tabulate n (λ i. f (i + 1)))

  pub tabulate_ext :
      (n : ℕ) (f g : ℕ → A) → ((i : ℕ) → i < n → f i ≡ g i) → tabulate n f ≡ tabulate n g
  unfolding tabulate
  tabulate_ext zero f g h = refl
  tabulate_ext (suc n) f g h =
      ap₂ ◌∷◌ (h 0 (omega arith))
        (tabulate_ext n (λ i. f (i + 1)) (λ i. g (i + 1)) (λ i p. h (i + 1) (omega arith)))

  pub tabulate-add :
      (n m : ℕ) (f : ℕ → A) → tabulate (n + m) f ≡ tabulate n f ++ tabulate m (λ i. f (n + i))
  unfolding tabulate
  tabulate-add zero m f =
      rw zero-add (tabulate_ext m f (λ i. f (0 + i)) (λ i _. ap f (omega arith)))
  tabulate-add (suc n) m f =
      let e : suc n + m ≡ suc (n + m) = omega arith in
      rw e (
        ap (◌∷◌ (f 0)) (
          tabulate-add n m (λ i. f (i + 1))
          ∙ ap (◌++◌ (tabulate n (λ i. f (i + 1))))
              (tabulate_ext m _ _ (λ i _. ap f (omega arith)))))

  pub drop-tabulate :
      (k n : ℕ) (f : ℕ → A) → drop k (tabulate n f) ≡ tabulate (n - k) (λ i. f (k + i))
  unfolding tabulate
  drop-tabulate zero n f =
      rw sub-zero (tabulate_ext n f (λ i. f (0 + i)) (λ i _. ap f (omega arith)))
  drop-tabulate (suc k) zero f = let e : zero - suc k ≡ zero = omega arith in rw e refl
  drop-tabulate (suc k) (suc n) f =
      let e : suc n - suc k ≡ n - k = omega arith in
      rw e
        (drop-tabulate k n (λ i. f (i + 1)) ∙ tabulate_ext (n - k) _ _ (λ i _. ap f (omega arith)))

  pub get_or-tabulate : (n i : ℕ) (f : ℕ → A) (d : A) → i < n → get_or (tabulate n f) i d ≡ f i
  unfolding tabulate
  get_or-tabulate zero i f d h = absurd (omega arith)
  get_or-tabulate (suc n) zero f d h = refl
  get_or-tabulate (suc n) (suc i) f d h =
      get_or-tabulate n i (λ i. f (i + 1)) d (omega arith) ∙ ap f (omega arith)

  -- Past its end a list reads as the default.
  pub get_or_end : (xs : List A) (i : ℕ) (d : A) → length xs ≤ i → get_or xs i d ≡ d
  get_or_end [] i d h = refl
  get_or_end (x ∷ xs) zero d h = absurd (omega arith)
  get_or_end (x ∷ xs) (suc i) d h = get_or_end xs i d (omega arith)

  pub get_or-append :
      (xs ys : List A) (i : ℕ) (d : A)
      → get_or (xs ++ ys) i d
        ≡ (if ltb i (length xs) then get_or xs i d else get_or ys (i - length xs) d)
  get_or-append [] ys i d = ground arith
  get_or-append (x ∷ xs) ys zero d = ground arith
  get_or-append (x ∷ xs) ys (suc i) d = ground (arith, get_or-append xs ys i d)

  pub replicate-tabulate : (n : ℕ) (d : A) → replicate n d ≡ tabulate n (λ _. d)
  unfolding tabulate
  replicate-tabulate zero d = refl
  replicate-tabulate (suc n) d = ap (◌∷◌ d) (replicate-tabulate n d)

  pub get_or-drop :
      (n : ℕ) (xs : List A) (i : ℕ) (d : A) → get_or (drop n xs) i d ≡ get_or xs (n + i) d
  get_or-drop zero xs i d = ap (λ (k : ℕ). get_or xs k d) (omega arith)
  get_or-drop (suc n) [] i d = refl
  get_or-drop (suc n) (x ∷ xs) i d =
      let e : suc n + i ≡ suc (n + i) = omega arith in rw e (get_or-drop n xs i d)

module _ {A B : Type 0} where
  pub get_or-map :
      (g : A → B) (xs : List A) (i : ℕ) (d : A) (e : B)
      → i < length xs
      → get_or (map g xs) i e ≡ g (get_or xs i d)
  get_or-map g [] i d e h = absurd (omega arith)
  get_or-map g (x ∷ xs) zero d e h = refl
  get_or-map g (x ∷ xs) (suc i) d e h = get_or-map g xs i d e (omega arith)
