-- ===== src/Route/Router/Delay.antt =====
-- core/audio_route.cpp: the delay lines of all channels, over one block.
use weblinked.Base.{
  ℕ, zero, suc, ◌<◌, ◌≡◌, refl, sym, ap, subst, ap₂, ◌∙◌, Bool-cases, inl, inr, ltb, if◌then◌else◌,
  List, [], ◌∷◌, ◌++◌, length, get_or, take, drop, map, length-map, arith,
}
use weblinked.Route.Router.{Plane, AudioRouter, zip, delay_loop, delayed, delay_block}
use weblinked.Route.Router.Lines.{
  waiting, lane_loop, place_after_lt, delay_loop_lanes, lane-LaneShifts,
}

-- What waits for channel `c`.
unfoldable pub queue : AudioRouter → ℕ → Plane
unfolding waiting
queue r c = waiting (get_or r.delay_lines c []) r.delay_pos

-- One line for each of `n` channels, all of the delay's length.
abbrev pub IsLined : AudioRouter → ℕ → Type 0
IsLined r n =
    (length r.delay_lines ≡ n)
    × (((c : ℕ) → c < n → length (get_or r.delay_lines c []) ≡ r.delay_frames)
        × (0 < r.delay_frames → r.delay_pos < r.delay_frames))

get_or-map :
    {A B : Type 0} (f : A → B) (xs : List A) (c : ℕ) (a : A) (b : B)
    → c < length xs
    → get_or (map f xs) c b ≡ f (get_or xs c a)
get_or-map f [] c a b h = absurd (omega arith)
get_or-map f (x ∷ xs) zero a b h = refl
get_or-map f (x ∷ xs) (suc c) a b h = get_or-map f xs c a b (omega arith)

get_or-zip :
    (xs ys : List Plane) (c : ℕ)
    → c < length xs
    → c < length ys
    → get_or (zip xs ys) c ([], []) ≡ (get_or xs c [], get_or ys c [])
get_or-zip [] ys c h k = absurd (omega arith)
get_or-zip (x ∷ xs) [] c h k = absurd (omega arith)
get_or-zip (x ∷ xs) (y ∷ ys) zero h k = refl
get_or-zip (x ∷ xs) (y ∷ ys) (suc c) h k = get_or-zip xs ys c (omega arith) (omega arith)

length-zip : (xs ys : List Plane) → length xs ≡ length ys → length (zip xs ys) ≡ length xs
length-zip [] ys h = refl
length-zip (x ∷ xs) [] h = absurd (omega arith)
length-zip (x ∷ xs) (y ∷ ys) h = ap suc (length-zip xs ys (omega arith))

take_exact : (xs : Plane) (n : ℕ) → length xs ≡ n → (take n xs ≡ xs) × (drop n xs ≡ [])
take_exact [] zero h = (refl, refl)
take_exact [] (suc n) h = absurd (omega arith)
take_exact (x ∷ xs) zero h = absurd (omega arith)
take_exact (x ∷ xs) (suc n) h =
    let rest = take_exact xs n (omega arith) in (ap (λ ys. x ∷ ys) rest.0, rest.1)

no_samples : (xs : Plane) → length xs ≡ 0 → xs ≡ []
no_samples [] h = refl
no_samples (x ∷ xs) h = absurd (omega arith)

-- What a block does to channel `c` of a router that is lined up.
abbrev pub Shifts : ℕ → AudioRouter → AudioRouter → ℕ → Type 0
Shifts frames r q c =
    (get_or q.planes c [] ≡ take frames (queue r c ++ get_or r.planes c []))
    × (queue q c ≡ drop frames (queue r c ++ get_or r.planes c []))

-- One lane of the loop that all channels share.
lane_of :
    (frames n c : ℕ) (r : AudioRouter)
    → IsLined r n
    → length r.planes ≡ n
    → c < n
    → get_or
        (map (lane_loop r.delay_frames frames 0 r.delay_pos) (zip r.delay_lines r.planes))
        c
        ([], [])
      ≡ lane_loop r.delay_frames frames 0 r.delay_pos
          (get_or r.delay_lines c [], get_or r.planes c [])
lane_of frames n c r h k l =
    let lane = lane_loop r.delay_frames frames 0 r.delay_pos in
    get_or-map lane (zip r.delay_lines r.planes) c ([], []) ([], [])
      (omega (arith, length-zip r.delay_lines r.planes (h.0 ∙ sym k), h.0))
    ∙ ap lane (get_or-zip r.delay_lines r.planes c (omega (arith, h.0)) (omega arith))

delayed_lane :
    (frames n c : ℕ) (r : AudioRouter) (part : Plane × Plane → Plane)
    → part ([], []) ≡ []
    → IsLined r n
    → length r.planes ≡ n
    → c < n
    → get_or
        (map part (delay_loop r.delay_frames frames 0 r.delay_pos (zip r.delay_lines r.planes)).0)
        c
        []
      ≡ part (
          lane_loop r.delay_frames frames 0 r.delay_pos
            (get_or r.delay_lines c [], get_or r.planes c []))
delayed_lane frames n c r part e h k l =
    let lanes = zip r.delay_lines r.planes in
    let lane = lane_loop r.delay_frames frames 0 r.delay_pos in
    let many : length lanes ≡ n = length-zip r.delay_lines r.planes (h.0 ∙ sym k) ∙ h.0 in
    ap (λ (x : List (Plane × Plane) × ℕ). get_or (map part x.0) c [])
      (delay_loop_lanes r.delay_frames frames 0 r.delay_pos lanes)
    ∙ (get_or-map part (map lane lanes) c ([], []) [] (omega (arith, length-map lanes lane, many))
        ∙ ap part (lane_of frames n c r h k l))

delayed-Shifts :
    (frames n c : ℕ) (r : AudioRouter)
    → 0 < r.delay_frames
    → IsLined r n
    → length r.planes ≡ n
    → length (get_or r.planes c []) ≡ frames
    → c < n
    → Shifts frames r (delayed frames r) c
unfolding delayed queue
delayed-Shifts frames n c r e h k p l =
    let turn =
      lane-LaneShifts r.delay_frames frames r.delay_pos (get_or r.delay_lines c [])
        (get_or r.planes c []) (h.1.0 c l) p (h.1.1 e) in
    (
      delayed_lane frames n c r (λ lane. lane.1) refl h k l ∙ turn.0,
      ap₂ waiting (delayed_lane frames n c r (λ lane. lane.0) refl h k l) (
            ap (λ (x : List (Plane × Plane) × ℕ). x.1)
              (delay_loop_lanes r.delay_frames frames 0 r.delay_pos (zip r.delay_lines r.planes)))
          ∙ turn.1.1,
    )

delayed-IsLined :
    (frames n : ℕ) (r : AudioRouter)
    → 0 < r.delay_frames
    → IsLined r n
    → length r.planes ≡ n
    → ((c : ℕ) → c < n → length (get_or r.planes c []) ≡ frames)
    → IsLined (delayed frames r) n
unfolding delayed
delayed-IsLined frames n r e h k p =
    let lanes = zip r.delay_lines r.planes in
    let loop = delay_loop_lanes r.delay_frames frames 0 r.delay_pos lanes in
    let lane = lane_loop r.delay_frames frames 0 r.delay_pos in
    let many : length lanes ≡ n = length-zip r.delay_lines r.planes (h.0 ∙ sym k) ∙ h.0 in
    (
      ap (λ (x : List (Plane × Plane) × ℕ). length (map (λ (lane : Plane × Plane). lane.0) x.0))
            loop
          ∙ (length-map (map lane lanes) (λ l. l.0) ∙ (length-map lanes lane ∙ many)),
      (
        λ c l.
            ap length (delayed_lane frames n c r (λ lane. lane.0) refl h k l)
            ∙ (lane-LaneShifts r.delay_frames frames r.delay_pos (get_or r.delay_lines c [])
                (get_or r.planes c []) (h.1.0 c l) (p c l) (h.1.1 e)).1.0,
        λ d.
            subst (λ (x : List (Plane × Plane) × ℕ). x.1 < r.delay_frames) (sym loop)
              (place_after_lt r.delay_frames frames r.delay_pos (h.1.1 d)),
      ),
    )

waiting-none : (place : ℕ) → waiting [] place ≡ []
unfolding waiting
waiting-none zero = refl
waiting-none (suc place) = refl

-- With no delay nothing waits, and the planes are left alone.
still-Shifts :
    (frames n c : ℕ) (r : AudioRouter)
    → r.delay_frames ≡ 0
    → IsLined r n
    → length (get_or r.planes c []) ≡ frames
    → c < n
    → Shifts frames r r c
unfolding queue
still-Shifts frames n c r e h p l =
    let line = no_samples (get_or r.delay_lines c []) (h.1.0 c l ∙ e) in
    let empty : queue r c ≡ [] = ap (λ x. waiting x r.delay_pos) line ∙ waiting-none r.delay_pos in
    let whole = take_exact (get_or r.planes c []) frames p in
    (
      sym whole.0 ∙ ap (λ (q : Plane). take frames (q ++ get_or r.planes c [])) (sym empty),
      empty
          ∙ (sym whole.1 ∙ ap (λ (q : Plane). drop frames (q ++ get_or r.planes c [])) (sym empty)),
    )

abbrev pub Flows : ℕ → ℕ → AudioRouter → AudioRouter → Type 0
Flows frames n r q = IsLined q n × ((c : ℕ) → c < n → Shifts frames r q c)

-- The second loop of apply lets every channel's samples through its line, and leaves the lines in order.
pub delay_block-Flows :
    (frames n : ℕ) (r : AudioRouter)
    → IsLined r n
    → length r.planes ≡ n
    → ((c : ℕ) → c < n → length (get_or r.planes c []) ≡ frames)
    → Flows frames n r (delay_block frames r)
unfolding delay_block
delay_block-Flows frames n r h k p = elim (Bool-cases (ltb 0 r.delay_frames)) [
  | inl e ↦
      let long : 0 < r.delay_frames = ground arith in
      subst (λ b. Flows frames n r (if b then delayed frames r else r)) (sym e)
        (
          delayed-IsLined frames n r long h k p,
          λ c l. delayed-Shifts frames n c r long h k (p c l) l,
        )
  | inr e ↦
      subst (λ b. Flows frames n r (if b then delayed frames r else r)) (sym e)
        (h, λ c l. still-Shifts frames n c r (ground arith) h (p c l) l)
]
