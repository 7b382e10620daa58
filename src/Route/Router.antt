-- ===== src/Route/Router.antt =====
-- core/audio_route.cpp: AudioRouter. A plane is the list of its samples, and so is a delay line; a block's
-- planes are `none` for a null pointer. A map entry below kSilent, which fromOptions does not let through, is silent too.
pub mod Lines
pub mod Delay
pub mod Stream
pub mod Sequence
pub mod Shortcut
use weblinked.Base.{
  ℕ, zero, suc, ◌+◌, ◌-◌, ◌*◌, ◌/◌, Bool, true, false, not, ◌&&◌, ◌||◌, ltb, leb, ◌==◌,
  if◌then◌else◌, Option, none, some, List, [], ◌∷◌, ◌++◌, length, map, set, get_or, replicate,
  tabulate,
}
use weblinked.Base.Int.{ℤ, pos, negsuc, pos_part}
use weblinked.Route.{Gains, Route, silent, is_empty, destination_channels, is_identity}

abbrev pub Plane : Type 0
Plane = List ℕ

pub record AudioBlock : Type 0 where
  pub planes : Option (List Plane)
  pub interleaved : Plane
  pub frames : ℕ
  pub channels : ℕ
  pub sample_rate : ℕ

pub record AudioRouter : Type 0 where
  pub route : Route
  pub prepared_channels : ℕ
  pub prepared_rate : ℕ
  pub delay_frames : ℕ
  pub planes : List Plane
  pub interleaved : Plane
  pub delay_lines : List Plane
  pub delay_pos : ℕ

abbrev fill : ℕ → Plane → Plane
fill value [] = []
fill value (x ∷ xs) = value ∷ fill value xs

unfoldable pub reset : Gains → AudioRouter → AudioRouter
reset g r = record r { delay_lines = map (fill g.silence) r.delay_lines; delay_pos = 0 }

unfoldable pub configure : Gains → Route → AudioRouter → AudioRouter
unfolding reset
configure g route r = reset g (record r { route = route; prepared_channels = 0; prepared_rate = 0 })

-- What prepare builds anew.
unfoldable pub relined : Gains → ℕ → ℕ → AudioRouter → AudioRouter
relined g destination rate r = record r {
  prepared_channels = destination;
  prepared_rate = rate;
  delay_frames = r.route.delay_ms * rate / 1000;
  planes = replicate destination [];
  delay_lines = replicate destination (replicate (r.route.delay_ms * rate / 1000) g.silence);
  delay_pos = 0;
}

unfoldable pub prepare : Gains → ℕ → ℕ → AudioRouter → AudioRouter
unfolding relined
prepare g destination rate r =
    if destination == r.prepared_channels && rate == r.prepared_rate
    then r
    else relined g destination rate r

-- The source channel of a destination.
unfoldable pub source_of : Route → ℕ → ℤ
source_of route c =
    if is_empty route.map
    then pos c
    else if ltb c (length route.map)
    then get_or route.map c silent
    else silent

-- What feeds a destination: a source channel, or nothing.
abbrev pub feed : Route → ℕ → ℤ → Option ℕ
feed route channels (pos n) = if route.mute || leb channels n then none else some n
feed route channels (negsuc n) = none

-- The samples that a source channel gives, with the gain applied, or silence.
unfoldable pub plane_from : Gains → ℕ → List Plane → ℕ → Option ℕ → Plane
unfolding tabulate
plane_from g gain planes frames none = replicate frames g.silence
plane_from g gain planes frames (some n) =
    tabulate frames (λ f. g.scale (get_or (get_or planes n []) f g.silence) gain)

-- The first loop of apply: the plane of destination `c`.
unfoldable pub routed_plane : Gains → Route → List Plane → ℕ → ℕ → ℕ → Plane
unfolding source_of plane_from
routed_plane g route planes channels frames c =
    plane_from g route.gain planes frames (feed route channels (source_of route c))

-- One channel of the delay: its line and its plane, at place `place` of the line and `f` of the plane.
unfoldable pub delay_sample : ℕ → ℕ → Plane × Plane → Plane × Plane
delay_sample place f (line, plane) =
    (set line place (get_or plane f 0), set plane f (get_or line place 0))

abbrev pub next_place : ℕ → ℕ → ℕ
next_place len place = if place + 1 == len then 0 else place + 1

-- The loop over `n` frames from frame `f` on, all channels at each.
unfoldable pub delay_loop : ℕ → ℕ → ℕ → ℕ → List (Plane × Plane) → List (Plane × Plane) × ℕ
unfolding delay_sample
delay_loop len zero f place lanes = (lanes, place)
delay_loop len (suc n) f place lanes =
    delay_loop len n (suc f) (next_place len place) (map (delay_sample place f) lanes)

abbrev pub zip : List Plane → List Plane → List (Plane × Plane)
zip [] ys = []
zip (x ∷ xs) [] = []
zip (x ∷ xs) (y ∷ ys) = (x, y) ∷ zip xs ys

-- The second loop of apply, over the planes that the first one wrote.
unfoldable pub delayed : ℕ → AudioRouter → AudioRouter
unfolding delay_loop
delayed frames r =
    let (lanes, place) =
      delay_loop r.delay_frames frames 0 r.delay_pos (zip r.delay_lines r.planes) in
    record r {
      planes = map (λ lane. lane.1) lanes;
      delay_lines = map (λ lane. lane.0) lanes;
      delay_pos = place;
    }

unfoldable pub delay_block : ℕ → AudioRouter → AudioRouter
unfolding delayed
delay_block frames r = if ltb 0 r.delay_frames then delayed frames r else r

-- The samples of frame `f`, one of each plane.
unfoldable pub row : ℕ → List Plane → Plane
row f [] = []
row f (plane ∷ planes) = get_or plane f 0 ∷ row f planes

-- The last loop of apply: `n` frames from frame `f` on.
unfoldable pub interleave : ℕ → ℕ → List Plane → Plane
unfolding row
interleave zero f planes = []
interleave (suc n) f planes = row f planes ++ interleave n (suc f) planes

abbrev pub valid : AudioBlock → Bool
valid b = ltb 0 b.frames && (ltb 0 b.channels && ltb 0 b.sample_rate)

-- The router behind the first loop of apply, for `n` destinations at `rate`.
unfoldable pub loaded : Gains → ℕ → ℕ → AudioRouter → AudioBlock → List Plane → AudioRouter
unfolding prepare routed_plane
loaded g n rate r b planes = record (prepare g n rate r) {
  planes = tabulate n (routed_plane g r.route planes b.channels b.frames);
}

-- The last loop of apply, and the block that it returns.
unfoldable pub sent : ℕ → AudioBlock → AudioRouter → AudioRouter × AudioBlock
unfolding interleave
sent n b q =
    let mixed = interleave b.frames 0 q.planes in
    (
      record q { interleaved = mixed },
      record {
        planes = some q.planes;
        interleaved = mixed;
        frames = b.frames;
        channels = n;
        sample_rate = b.sample_rate;
      },
    )

unfoldable pub route_at :
    Gains → ℕ → ℕ → AudioRouter → AudioBlock → List Plane → AudioRouter × AudioBlock
unfolding loaded delay_block sent
route_at g n rate r b planes = sent n b (delay_block b.frames (loaded g n rate r b planes))

-- What apply does with a block that the route changes.
unfoldable pub route_block :
    Gains → AudioRouter → AudioBlock → List Plane → AudioRouter × AudioBlock
unfolding route_at
route_block g r b planes =
    route_at g (destination_channels r.route b.channels) b.sample_rate r b planes

unfoldable pub apply_planes :
    Gains → AudioRouter → AudioBlock → Option (List Plane) → AudioRouter × AudioBlock
unfolding route_block
apply_planes g r b none = (r, b)
apply_planes g r b (some planes) =
    if not (valid b) || is_identity g r.route b.channels then (r, b) else route_block g r b planes

unfoldable pub apply : Gains → AudioRouter → AudioBlock → AudioRouter × AudioBlock
unfolding apply_planes
apply g r b = apply_planes g r b b.planes
