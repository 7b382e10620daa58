-- ===== src/Route/Router/Sequence.antt =====
-- core/audio_route.cpp: a sequence of blocks through one router, from configure on.
use mathlib.Core.List.{append_assoc}
use weblinked.Base.{
  ℕ, ◌+◌, ◌*◌, ◌/◌, ◌<◌, ◌≡◌, refl, sym, ap, ap₂, subst, ◌∙◌, Bool, true, false, not, ◌||◌,
  if◌then◌else◌, Option, none, some, List, [], ◌∷◌, ◌++◌, length, take, drop, replicate,
  length-append, arith,
}
use weblinked.Route.{Gains, Route, destination_channels, is_identity}
use weblinked.Route.Router.{
  Plane, AudioBlock, AudioRouter, valid, reset, configure, prepare, routed_plane, route_at,
  route_block, apply_planes, apply,
}
use weblinked.Route.Router.Delay.{queue}
use weblinked.Route.Router.Stream.{
  IsSettled, plane_of, routed_from, routed, prepare_again, prepare_first, relined-IsSettled,
  queue-relined, length-routed_plane, take_split, route_at-Passes,
}

-- The blocks that one call of apply after the other returns.
unfoldable pub outputs : Gains → AudioRouter → List AudioBlock → List AudioBlock
unfolding apply
outputs g r [] = []
outputs g r (b ∷ bs) = (apply g r b).1 ∷ outputs g (apply g r b).0 bs

-- Channel `c` of a sequence of blocks.
abbrev pub joined : ℕ → List AudioBlock → Plane
joined c [] = []
joined c (b ∷ bs) = plane_of b.planes c ++ joined c bs

abbrev pub routed_joined : Gains → Route → ℕ → List AudioBlock → Plane
routed_joined g route c [] = []
routed_joined g route c (b ∷ bs) = routed g route b c ++ routed_joined g route c bs

abbrev pub total : List AudioBlock → ℕ
total [] = 0
total (b ∷ bs) = b.frames + total bs

abbrev pub has_planes : Option (List Plane) → Bool
has_planes none = false
has_planes (some planes) = true

-- A block that the route changes, for `n` channels at `rate`.
abbrev pub Suits : Gains → Route → ℕ → ℕ → AudioBlock → Type 0
Suits g route n rate b =
    ((not (valid b) || is_identity g route b.channels) ≡ false)
    × ((destination_channels route b.channels ≡ n)
        × ((b.sample_rate ≡ rate) × (has_planes b.planes ≡ true)))

abbrev pub AllSuit : Gains → Route → ℕ → ℕ → List AudioBlock → Type 0
AllSuit g route n rate [] = Unit {0}
AllSuit g route n rate (b ∷ bs) = Suits g route n rate b × AllSuit g route n rate bs

-- One call of apply, with the queue of channel `c`.
abbrev Steps :
    Gains → ℕ → ℕ → AudioRouter → AudioBlock → Plane → ℕ → AudioRouter × AudioBlock → Type 0
Steps g n rate r b source c out =
    (out.0.route ≡ r.route)
    × (IsSettled out.0 n rate
        × ((plane_of out.1.planes c ≡ take b.frames (queue (prepare g n rate r) c ++ source))
            × (queue out.0 c ≡ drop b.frames (queue (prepare g n rate r) c ++ source))))

apply_planes-Steps :
    (g : Gains) (n rate c : ℕ) (r : AudioRouter) (b : AudioBlock) (o : Option (List Plane))
    → IsSettled (prepare g n rate r) n rate
    → c < n
    → (not (valid b) || is_identity g r.route b.channels) ≡ false
    → destination_channels r.route b.channels ≡ n
    → b.sample_rate ≡ rate
    → has_planes o ≡ true
    → Steps g n rate r b (routed_from g r.route b c o) c (apply_planes g r b o)
      × (length (routed_from g r.route b c o) ≡ b.frames)
unfolding apply_planes routed_from route_block
apply_planes-Steps g n rate c r b none s l i d k h = absurd (ground arith)
apply_planes-Steps g n rate c r b (some planes) s l i d k h =
    let source = routed_plane g r.route planes b.channels b.frames c in
    let here : route_at g n rate r b planes ≡ apply_planes g r b (some planes) = sym (
      ap (λ t. if t then (r, b) else route_block g r b planes) i
      ∙ ap₂ (λ m q. route_at g m q r b planes) d k) in
    let passes = route_at-Passes g n rate r b planes s in
    (
      subst (λ out. Steps g n rate r b source c out) here (passes.0, (passes.1.0, passes.1.1 c l)),
      length-routed_plane g r.route planes b.channels b.frames c,
    )

outputs_settled :
    (g : Gains) (n rate c : ℕ) (r : AudioRouter) (blocks : List AudioBlock)
    → IsSettled (prepare g n rate r) n rate
    → c < n
    → AllSuit g r.route n rate blocks
    → joined c (outputs g r blocks)
      ≡ take (total blocks) (queue (prepare g n rate r) c ++ routed_joined g r.route c blocks)
unfolding outputs apply routed
outputs_settled g n rate c r [] s l h = refl
outputs_settled g n rate c r (b ∷ bs) s l h =
    let step = apply_planes-Steps g n rate c r b b.planes s l h.0.0 h.0.1.0 h.0.1.1.0 h.0.1.1.1 in
    let next = (apply_planes g r b b.planes).0 in
    let source = routed_from g r.route b c b.planes in
    let front = queue (prepare g n rate r) c ++ source in
    let rest = routed_joined g r.route c bs in
    let again : prepare g n rate next ≡ next = prepare_again g n rate next step.0.1.0 in
    let later : joined c (outputs g next bs) ≡ take (total bs) (drop b.frames front ++ rest) =
      outputs_settled g n rate c next bs (subst (λ x. IsSettled x n rate) (sym again) step.0.1.0) l
        (subst (λ route. AllSuit g route n rate bs) (sym step.0.0) h.1)
      ∙ ap₂ (λ q route. take (total bs) (q ++ routed_joined g route c bs))
          (ap (λ x. queue x c) again ∙ step.0.1.1.1) step.0.0 in
    ap₂ (λ xs ys. xs ++ ys) step.0.1.1.0 later
    ∙ (sym (
          take_split b.frames (total bs) front rest
            (omega (arith, length-append (queue (prepare g n rate r) c) source, step.1)))
        ∙ ap (λ (xs : Plane). take (b.frames + total bs) xs)
            (append_assoc (queue (prepare g n rate r) c) source rest))

-- From configure on, as long as every block is one that the route changes, with planes, for the same number of
-- channels and at the same rate, each channel that comes out is what the route lets through, behind exactly
-- delay_ms * rate / 1000 samples of silence, and no sample is lost or repeated between the blocks.
pub outputs-configure :
    (g : Gains) (route : Route) (r : AudioRouter) (n rate c : ℕ) (blocks : List AudioBlock)
    → AllSuit g route n rate blocks
    → c < n
    → joined c (outputs g (configure g route r) blocks)
      ≡ take
          (total blocks)
          (replicate (route.delay_ms * rate / 1000) g.silence ++ routed_joined g route c blocks)
unfolding configure reset
outputs-configure g route r n rate c blocks h l =
    let fresh = configure g route r in
    let built = prepare_first g n rate fresh refl (omega arith) in
    outputs_settled g n rate c fresh blocks
      (subst (λ x. IsSettled x n rate) (sym built) (relined-IsSettled g n rate fresh)) l h
    ∙ ap (λ (q : Plane). take (total blocks) (q ++ routed_joined g route c blocks))
        (ap (λ x. queue x c) built ∙ queue-relined g n rate c fresh l)
