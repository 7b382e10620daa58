-- ===== src/Route/Router/Stream.antt =====
-- core/audio_route.cpp: one block through the router, in terms of the samples that wait.
use mathlib.Core.List.{append-nil}
use native.Mathlib.Nat.{zero-add}
use weblinked.Base.{
  ℕ, zero, suc, ◌+◌, ◌*◌, ◌/◌, ◌≤◌, ◌<◌, ◌≡◌, refl, ap, ◌∙◌, Bool, true, false, ltb, ◌==◌, ◌&&◌,
  if◌then◌else◌, Option, none, some, List, [], ◌∷◌, ◌++◌, length, get_or, take, drop, replicate,
  get_or-tabulate, length-tabulate, length-replicate, arith,
}
use weblinked.Route.{Gains, Route}
use weblinked.Route.Router.{
  Plane, AudioBlock, AudioRouter, feed, source_of, relined, prepare, plane_from, routed_plane,
  delay_block, loaded, sent, route_at, delayed,
}
use weblinked.Route.Router.Lines.{waiting}
use weblinked.Route.Router.Delay.{queue, IsLined, delay_block-Flows}

-- The router has its lines for `n` channels at `rate`.
abbrev pub IsSettled : AudioRouter → ℕ → ℕ → Type 0
IsSettled r n rate = (r.prepared_channels ≡ n) × ((r.prepared_rate ≡ rate) × IsLined r n)

pub prepare_again :
    (g : Gains) (n rate : ℕ) (r : AudioRouter) → IsSettled r n rate → prepare g n rate r ≡ r
unfolding prepare
prepare_again g n rate r h =
    let same : (n == r.prepared_channels && rate == r.prepared_rate) ≡ true =
      ground (arith, h.0, h.1.0) in
    ap (λ b. if b then r else relined g n rate r) same

get_or-replicate : {A : Type 0} (n c : ℕ) (a d : A) → c < n → get_or (replicate n a) c d ≡ a
get_or-replicate zero c a d h = absurd (omega arith)
get_or-replicate (suc n) zero a d h = refl
get_or-replicate (suc n) (suc c) a d h = get_or-replicate n c a d (omega arith)

-- The first block after configure finds silence in every line.
pub prepare_first :
    (g : Gains) (n rate : ℕ) (r : AudioRouter)
    → r.prepared_channels ≡ 0
    → 0 < n
    → prepare g n rate r ≡ relined g n rate r
unfolding prepare
prepare_first g n rate r h k =
    let other : (n == r.prepared_channels && rate == r.prepared_rate) ≡ false = ground (arith, h) in
    ap (λ b. if b then r else relined g n rate r) other

pub relined-IsSettled :
    (g : Gains) (n rate : ℕ) (r : AudioRouter) → IsSettled (relined g n rate r) n rate
unfolding relined
relined-IsSettled g n rate r =
    let frames = r.route.delay_ms * rate / 1000 in
    (
      refl,
      (
        refl,
        (
          length-replicate n (replicate frames g.silence),
          (
            λ c l.
                ap length (get_or-replicate n c (replicate frames g.silence) [] l)
                ∙ length-replicate frames g.silence,
            λ d. d,
          ),
        ),
      ),
    )

pub queue-relined :
    (g : Gains) (n rate c : ℕ) (r : AudioRouter)
    → c < n
    → queue (relined g n rate r) c ≡ replicate (r.route.delay_ms * rate / 1000) g.silence
unfolding relined queue waiting
queue-relined g n rate c r l =
    let frames = r.route.delay_ms * rate / 1000 in
    append-nil _ ∙ get_or-replicate n c (replicate frames g.silence) [] l

length-plane_from :
    (g : Gains) (gain : ℕ) (planes : List Plane) (frames : ℕ) (o : Option ℕ)
    → length (plane_from g gain planes frames o) ≡ frames
unfolding plane_from
length-plane_from g gain planes frames none = length-replicate frames g.silence
length-plane_from g gain planes frames (some n) =
    length-tabulate frames (λ f. g.scale (get_or (get_or planes n []) f g.silence) gain)

pub length-routed_plane :
    (g : Gains) (route : Route) (planes : List Plane) (channels frames c : ℕ)
    → length (routed_plane g route planes channels frames c) ≡ frames
unfolding routed_plane
length-routed_plane g route planes channels frames c =
    length-plane_from g route.gain planes frames (feed route channels (source_of route c))

pub take_split :
    (n m : ℕ) (xs ys : Plane)
    → n ≤ length xs
    → take (n + m) (xs ++ ys) ≡ take n xs ++ take m (drop n xs ++ ys)
take_split zero m xs ys h = ap (λ k. take k (xs ++ ys)) (zero-add m)
take_split (suc n) m [] ys h = absurd (omega arith)
take_split (suc n) m (x ∷ xs) ys h =
    let more : suc n + m ≡ suc (n + m) = omega arith in
    ap (λ k. take k (x ∷ xs ++ ys)) more ∙ ap (λ zs. x ∷ zs) (take_split n m xs ys (omega arith))

-- The samples of channel `c` in the planes that apply returns.
abbrev pub plane_of : Option (List Plane) → ℕ → Plane
plane_of none c = []
plane_of (some planes) c = get_or planes c []

-- The same before the delay: gained and mapped.
unfoldable pub routed_from : Gains → Route → AudioBlock → ℕ → Option (List Plane) → Plane
unfolding routed_plane
routed_from g route b c none = []
routed_from g route b c (some planes) = routed_plane g route planes b.channels b.frames c

unfoldable pub routed : Gains → Route → AudioBlock → ℕ → Plane
unfolding routed_from
routed g route b c = routed_from g route b c b.planes

-- What a block does to the router at `n` channels and `rate`, in terms of the queues.
abbrev pub Passes :
    Gains → ℕ → ℕ → AudioRouter → AudioBlock → List Plane → AudioRouter × AudioBlock → Type 0
Passes g n rate r b planes out =
    (out.0.route ≡ r.route)
    × (IsSettled out.0 n rate
        × ((c : ℕ)
            → c < n
            → (plane_of out.1.planes c
                ≡ take b.frames (
                    queue (prepare g n rate r) c
                    ++ routed_plane g r.route planes b.channels b.frames c))
              × (queue out.0 c
                  ≡ drop b.frames (
                      queue (prepare g n rate r) c
                      ++ routed_plane g r.route planes b.channels b.frames c))))

delay_block_keeps :
    (frames : ℕ) (r : AudioRouter)
    → ((delay_block frames r).route ≡ r.route)
      × (((delay_block frames r).prepared_channels ≡ r.prepared_channels)
          × ((delay_block frames r).prepared_rate ≡ r.prepared_rate))
unfolding delay_block delayed
delay_block_keeps frames r =
    elim (ltb 0 r.delay_frames)
      as (λ (b : Bool).
        ((if b then delayed frames r else r).route ≡ r.route)
        × (((if b then delayed frames r else r).prepared_channels ≡ r.prepared_channels)
            × ((if b then delayed frames r else r).prepared_rate ≡ r.prepared_rate))) [
              | true ↦ (refl, (refl, refl))
              | false ↦ (refl, (refl, refl))
            ]

prepare_route : (g : Gains) (n rate : ℕ) (r : AudioRouter) → (prepare g n rate r).route ≡ r.route
unfolding prepare relined
prepare_route g n rate r =
    elim (n == r.prepared_channels && rate == r.prepared_rate)
      as (λ (b : Bool). (if b then r else relined g n rate r).route ≡ r.route) [
        | true ↦ refl
        | false ↦ refl
      ]

pub route_at-Passes :
    (g : Gains) (n rate : ℕ) (r : AudioRouter) (b : AudioBlock) (planes : List Plane)
    → IsSettled (prepare g n rate r) n rate
    → Passes g n rate r b planes (route_at g n rate r b planes)
unfolding route_at sent loaded queue
route_at-Passes g n rate r b planes h =
    let source = routed_plane g r.route planes b.channels b.frames in
    let l = loaded g n rate r b planes in
    let plane : (c : ℕ) → c < n → get_or l.planes c [] ≡ source c =
      λ c k. get_or-tabulate n c source [] k in
    let keeps = delay_block_keeps b.frames l in
    let flows =
      delay_block-Flows b.frames n l h.1.1 (length-tabulate n source) (λ c k.
        ap length (plane c k) ∙ length-routed_plane g r.route planes b.channels b.frames c) in
    (
      keeps.0 ∙ prepare_route g n rate r,
      (
        (keeps.1.0 ∙ h.0, (keeps.1.1 ∙ h.1.0, flows.0)),
        λ c k. (
          (flows.1 c k).0 ∙ ap (λ x. take b.frames (queue l c ++ x)) (plane c k),
          (flows.1 c k).1 ∙ ap (λ x. drop b.frames (queue l c ++ x)) (plane c k),
        ),
      ),
    )
