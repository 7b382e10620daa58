-- ===== src/Route/Router/Shortcut.antt =====
-- core/audio_route.cpp: the shortcut of AudioRouter::apply, a block that isIdentity lets through as it is.
use weblinked.Base.{
  ℕ, zero, suc, ◌+◌, ◌*◌, ◌/◌, ◌<◌, ◌≡◌, refl, sym, ap, subst, ◌∙◌, Bool, true, false, not, ◌||◌,
  if◌then◌else◌, Bool-cases, inl, inr, leb, some, List, [], ◌∷◌, ◌++◌, length, get_or, take,
  replicate, tabulate, tabulate_ext, arith,
}
use weblinked.Base.Int.{ℤ, pos, negsuc}
use weblinked.Route.{
  Gains, Route, silent, is_empty, is_pos, counts_up, is_identity, destination_channels,
}
use weblinked.Route.Router.{
  Plane, AudioBlock, AudioRouter, source_of, feed, plane_from, routed_plane, reset, configure,
  prepare, route_at, route_block, sent, apply, apply_planes, valid,
}
use weblinked.Route.Router.Delay.{queue}
use weblinked.Route.Router.Stream.{
  IsSettled, prepare_first, relined-IsSettled, queue-relined, length-routed_plane, plane_of,
  route_at-Passes,
}

is_pos_eq : (x : ℤ) (i : ℕ) → is_pos x i ≡ true → x ≡ pos i
is_pos_eq (pos n) i h = ap pos (ground arith)
is_pos_eq (negsuc n) i h = absurd (ground arith)

counts_up_at :
    (i c : ℕ) (map : List ℤ)
    → counts_up i map ≡ true
    → c < length map
    → get_or map c silent ≡ pos (i + c)
unfolding counts_up
counts_up_at i c [] h l = absurd (omega arith)
counts_up_at i zero (x ∷ xs) h l = is_pos_eq x i (ground arith) ∙ ap pos (omega arith)
counts_up_at i (suc c) (x ∷ xs) h l =
    counts_up_at (suc i) c xs (ground arith) (omega arith) ∙ ap pos (omega arith)

-- The map reaches every channel, or there is none.
abbrev pub covers : Route → ℕ → Bool
covers route channels = is_empty route.map || leb channels (length route.map)

source_straight :
    (route : Route) (channels c : ℕ)
    → counts_up 0 route.map ≡ true
    → covers route channels ≡ true
    → c < channels
    → source_of route c ≡ pos c
unfolding source_of
source_straight route channels c h k l = elim (Bool-cases (is_empty route.map)) [
  | inl e ↦ ground (arith, e)
  | inr e ↦
      let inside : c < length route.map = ground (arith, e) in
      ground (arith, e, inside, counts_up_at 0 c route.map h inside)
]

suc_eq : (i : ℕ) → i + 1 ≡ suc i
suc_eq i = omega arith

tabulate_plane : (plane : Plane) (d : ℕ) → tabulate (length plane) (λ f. get_or plane f d) ≡ plane
unfolding tabulate
tabulate_plane [] d = refl
tabulate_plane (x ∷ xs) d =
    ap (λ ys. x ∷ ys)
      (tabulate_ext (length xs) _ _ (λ i l. ap (λ k. get_or (x ∷ xs) k d) (suc_eq i))
        ∙ tabulate_plane xs d)

feed_straight :
    (route : Route) (channels c : ℕ)
    → route.mute ≡ false
    → c < channels
    → feed route channels (pos c) ≡ some c
feed_straight route channels c h l = ground arith

-- The first loop copies every channel then.
routed_identity :
    (g : Gains) (route : Route) (planes : List Plane) (channels frames c : ℕ)
    → ((x : ℕ) → g.is_unity x ≡ true → (s : ℕ) → g.scale s x ≡ s)
    → is_identity g route channels ≡ true
    → covers route channels ≡ true
    → c < channels
    → length (get_or planes c []) ≡ frames
    → routed_plane g route planes channels frames c ≡ get_or planes c []
unfolding routed_plane plane_from is_identity
routed_identity g route planes channels frames c law h k l e =
    let plane = get_or planes c [] in
    let unity : g.is_unity route.gain ≡ true = ground arith in
    let fed : feed route channels (source_of route c) ≡ some c =
      ap (feed route channels) (source_straight route channels c (ground arith) k l)
      ∙ feed_straight route channels c (ground arith) l in
    ap (plane_from g route.gain planes frames) fed
    ∙ (tabulate_ext frames _ _ (λ i _. law route.gain unity (get_or plane i g.silence))
        ∙ (ap (λ n. tabulate n (λ f. get_or plane f g.silence)) (sym e)
            ∙ tabulate_plane plane g.silence))

take_whole : (xs : Plane) (n : ℕ) → length xs ≡ n → take n xs ≡ xs
take_whole [] zero h = refl
take_whole [] (suc n) h = absurd (omega arith)
take_whole (x ∷ xs) zero h = absurd (omega arith)
take_whole (x ∷ xs) (suc n) h = ap (λ ys. x ∷ ys) (take_whole xs n (omega arith))

-- The block that the general path returns is, as far as a listener goes, the block that came in.
abbrev pub IsCopy : AudioBlock → AudioBlock → Type 0
IsCopy out b =
    (out.channels ≡ b.channels)
    × (out.frames ≡ b.frames)
    × (out.sample_rate ≡ b.sample_rate)
    × ((c : ℕ) → c < b.channels → plane_of out.planes c ≡ plane_of b.planes c)

configured_route :
    (g : Gains) (route : Route) (r : AudioRouter) → (configure g route r).route ≡ route
unfolding configure reset
configured_route g route r = refl

configured_first :
    (g : Gains) (route : Route) (r : AudioRouter) → (configure g route r).prepared_channels ≡ 0
unfolding configure reset
configured_first g route r = refl

shortcut_taken :
    (g : Gains) (r : AudioRouter) (b : AudioBlock) (planes : List Plane)
    → is_identity g r.route b.channels ≡ true
    → b.planes ≡ some planes
    → apply g r b ≡ (r, b)
unfolding apply apply_planes
shortcut_taken g r b planes h e =
    ap (apply_planes g r b) e
    ∙ ap (λ t. if not (valid b) || t then (r, b) else route_block g r b planes) h
    ∙ elim (not (valid b))
        as (λ (v : Bool). (if v || true then (r, b) else route_block g r b planes) ≡ (r, b)) [
          | true ↦ refl
          | false ↦ refl
        ]

-- Behind configure and with no delay, a plane of the general path is the plane of its first loop.
undelayed :
    (g : Gains) (n : ℕ) (r : AudioRouter) (b : AudioBlock) (planes : List Plane) (c : ℕ)
    → r.prepared_channels ≡ 0
    → r.route.delay_ms ≡ 0
    → c < n
    → plane_of (route_at g n b.sample_rate r b planes).1.planes c
      ≡ routed_plane g r.route planes b.channels b.frames c
undelayed g n r b planes c fresh prompt l =
    let rate = b.sample_rate in
    let lined = prepare_first g n rate r fresh (omega arith) in
    let settled = subst (λ q. IsSettled q n rate) (sym lined) (relined-IsSettled g n rate r) in
    let plane = routed_plane g r.route planes b.channels b.frames c in
    let passes = route_at-Passes g n rate r b planes settled in
    let none_of_it : 0 * rate / 1000 ≡ 0 = ground arith in
    let waits : queue (prepare g n rate r) c ≡ [] =
      ap (λ q. queue q c) lined
      ∙ queue-relined g n rate c r l
      ∙ ap (λ d. replicate (d * rate / 1000) g.silence) prompt
      ∙ ap (λ d. replicate d g.silence) none_of_it in
    (passes.1.1 c l).0
    ∙ ap (λ q. take b.frames (q ++ plane)) waits
    ∙ take_whole plane b.frames (length-routed_plane g r.route planes b.channels b.frames c)

sent_shape :
    (g : Gains) (n : ℕ) (r : AudioRouter) (b : AudioBlock) (planes : List Plane)
    → ((route_at g n b.sample_rate r b planes).1.channels ≡ n)
      × ((route_at g n b.sample_rate r b planes).1.frames ≡ b.frames)
      × ((route_at g n b.sample_rate r b planes).1.sample_rate ≡ b.sample_rate)
unfolding route_at sent
sent_shape g n r b planes = (refl, refl, refl)

-- What isIdentity says of a route and a block.
identity_means :
    (g : Gains) (route : Route) (channels : ℕ)
    → is_identity g route channels ≡ true
    → (destination_channels route channels ≡ channels) × (route.delay_ms ≡ 0)
unfolding is_identity
identity_means g route channels h = (ground arith, ground arith)

route_block-IsCopy :
    (g : Gains) (r : AudioRouter) (b : AudioBlock) (planes : List Plane)
    → ((x : ℕ) → g.is_unity x ≡ true → (s : ℕ) → g.scale s x ≡ s)
    → r.prepared_channels ≡ 0
    → is_identity g r.route b.channels ≡ true
    → covers r.route b.channels ≡ true
    → ((c : ℕ) → c < b.channels → length (get_or planes c []) ≡ b.frames)
    → b.planes ≡ some planes
    → IsCopy (route_block g r b planes).1 b
unfolding route_block
route_block-IsCopy g r b planes law fresh h k full e =
    let n = destination_channels r.route b.channels in
    let means = identity_means g r.route b.channels h in
    let shape = sent_shape g n r b planes in
    (
      shape.0 ∙ means.0,
      shape.1,
      shape.2,
      λ c l.
          undelayed g n r b planes c fresh means.1 (subst (λ m. c < m) (sym means.0) l)
          ∙ (routed_identity g r.route planes b.channels b.frames c law h k l (full c l)
              ∙ ap (λ p. plane_of p c) (sym e)),
    )

-- A block that isIdentity holds for, whose every channel the map reaches or that has no map and whose planes
-- are as long as it says, apply hands back as it is; and the general path of a router just configured would
-- have returned the same: its channel count, its frames, its rate and the samples of every channel. A gain
-- that compares equal to one is taken to leave a sample alone.
pub identity_copies :
    (g : Gains) (route : Route) (r : AudioRouter) (b : AudioBlock) (planes : List Plane)
    → ((x : ℕ) → g.is_unity x ≡ true → (s : ℕ) → g.scale s x ≡ s)
    → is_identity g route b.channels ≡ true
    → covers route b.channels ≡ true
    → ((c : ℕ) → c < b.channels → length (get_or planes c []) ≡ b.frames)
    → b.planes ≡ some planes
    → (apply g (configure g route r) b ≡ (configure g route r, b))
      × IsCopy (route_block g (configure g route r) b planes).1 b
identity_copies g route r b planes law h k full e =
    let q = configure g route r in
    let same = configured_route g route r in
    let h' : is_identity g q.route b.channels ≡ true =
      ap (λ x. is_identity g x b.channels) same ∙ h in
    let k' : covers q.route b.channels ≡ true = ap (λ x. covers x b.channels) same ∙ k in
    (
      shortcut_taken g q b planes h' e,
      route_block-IsCopy g q b planes law (configured_first g route r) h' k' full e,
    )
