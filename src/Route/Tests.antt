-- ===== src/Route/Tests.antt =====
-- The routes and the router on concrete options and blocks. A gain of 1 leaves a sample alone, and a
-- number stands for itself.
use weblinked.Base.{
  ℕ, ◌*◌, ◌/◌, ◌%◌, ◌≡◌, refl, ap, ◌∙◌, true, false, ◌==◌, if◌then◌else◌, some, List, [], ◌∷◌, ◌++◌,
  length, take, replicate, arith, ◌+◌, none, zero, suc, get_or, ◌<◌,
}
use weblinked.Base.Int.{ℤ, pos, negsuc, pos_part}
use weblinked.Base.Text.{codes, same_text}
use weblinked.Json.{Value, Doubles, null, number, array, object, no_items, item, no_fields, field}
use weblinked.Json.Access.{set, get, as_int, size}
use weblinked.Route.{Gains, Route, straight, is_identity}
use weblinked.Route.Options.{linear_from_db, gain_db, to_json, from_options, delay_out_of_range}
use weblinked.Route.Bounds.{IsValid, from_options-IsValid, from_options-straight}
use weblinked.Route.Members.{Converts, KeepsGain}
use weblinked.Route.RoundTrip.{from_options-to_json}
use weblinked.Route.Router.{
  Plane, AudioBlock, AudioRouter, configure, routed_plane, apply, route_block,
}
use weblinked.Route.Router.Sequence.{outputs, joined, routed_joined, AllSuit, outputs-configure}
use weblinked.Route.Router.Shortcut.{identity_copies, IsCopy}

abbrev plain : Doubles
plain = record {
  is_finite = λ n. true;
  is_whole = λ n. true;
  is_zero = λ n. n == 0;
  to_int64 = pos;
  round = pos;
  format = λ n. [];
  strtod = λ t. 0;
  from_bool = λ b. if b then 1 else 0;
}

abbrev gains : Gains
gains = record {
  unity = 1;
  silence = 0;
  floor_db = 0;
  zero_db = 1;
  is_unity = λ n. n == 1;
  is_silent = λ n. n == 0;
  below_floor = λ n. n == 0;
  pow = λ n. n;
  log = λ n. n;
  scale = λ s x. s * x;
  to_double = pos_part;
}

abbrev audio_of : Value → Value
audio_of delay = object (
    field (codes "audio")
      (object (
        field (codes "channels") (number 2) (
          field (codes "delay_ms") delay
            (field (codes "map") (array (item (number 1) (item null no_items))) no_fields))))
      no_fields)

from_options-IsValid_example : IsValid (from_options plain gains (audio_of (number 40))).0
from_options-IsValid_example = from_options-IsValid plain gains (audio_of (number 40))

too_late : (from_options plain gains (audio_of (number 2001))).1 ≡ some delay_out_of_range
unfolding from_options same_text get as_int size
too_late = refl

from_options-straight_example :
    (from_options plain gains (audio_of (number 2001))).0 ≡ straight gains
from_options-straight_example =
    from_options-straight plain gains (audio_of (number 2001)) delay_out_of_range too_late

-- A delay of 2 ^ 32 + 5 ms is read as 5 ms.
wraps_into_range : (from_options plain gains (audio_of (number 4294967301))).0.delay_ms ≡ 5
unfolding from_options same_text get as_int size
wraps_into_range = refl

-- Doubles that hold an integer and its sign.
abbrev encode : ℤ → ℕ
encode (pos n) = n * 2
encode (negsuc n) = n * 2 + 1

abbrev decode : ℕ → ℤ
decode n = if n % 2 == 0 then pos (n / 2) else negsuc (n / 2)

abbrev signed : Doubles
signed = record plain { round = decode }

abbrev signed_gains : Gains
signed_gains = record gains { to_double = encode }

decode-encode : (n : ℕ) → decode (encode (pos n)) ≡ pos n
decode-encode n =
    let even : (n * 2 % 2 == 0) ≡ true = ground arith in
    ap (λ b. if b then pos (n * 2 / 2) else negsuc (n * 2 / 2)) even ∙ ap pos (omega arith)

signed-Converts : Converts signed signed_gains
signed-Converts = ((λ n h. decode-encode n), refl)

-- Two samples of delay, and the channels swapped.
abbrev swapped : Route
swapped = record { mute = false; gain = 3; delay_ms = 2; channels = 0; map = pos 1 ∷ pos 0 ∷ [] }

abbrev block : Plane → Plane → AudioBlock
block left right = record {
  planes = some (left ∷ right ∷ []);
  interleaved = [];
  frames = length left;
  channels = 2;
  sample_rate = 1000;
}

abbrev blocks : List AudioBlock
blocks = block (1 ∷ 2 ∷ 3 ∷ []) (10 ∷ 20 ∷ 30 ∷ []) ∷ block (4 ∷ []) (40 ∷ []) ∷ []

abbrev idle : AudioRouter
idle = record {
  route = straight gains;
  prepared_channels = 0;
  prepared_rate = 0;
  delay_frames = 0;
  planes = [];
  interleaved = [];
  delay_lines = [];
  delay_pos = 0;
}

blocks_suit : AllSuit gains swapped 2 1000 blocks
unfolding is_identity
blocks_suit = ((refl, (refl, (refl, refl))), ((refl, (refl, (refl, refl))), tt))

swaps_and_delays :
    joined 0 (outputs gains (configure gains swapped idle) blocks) ≡ 0 ∷ 0 ∷ 30 ∷ 60 ∷ []
unfolding outputs configure is_identity
swaps_and_delays = refl

outputs-configure_example :
    joined 0 (outputs gains (configure gains swapped idle) blocks)
    ≡ take 4 (replicate 2 0 ++ routed_joined gains swapped 0 blocks)
outputs-configure_example =
    outputs-configure gains swapped idle 2 1000 0 blocks blocks_suit (omega arith)

times_one : (x : ℕ) → (x == 1) ≡ true → (s : ℕ) → s * x ≡ s
times_one x h s = let one : x ≡ 1 = ground arith in ap (λ k. s * k) one ∙ omega arith

abbrev straight_map : Route
straight_map = record {
  mute = false;
  gain = 1;
  delay_ms = 0;
  channels = 0;
  map = pos 0 ∷ pos 1 ∷ [];
}

straight_identity : is_identity gains straight_map 2 ≡ true
unfolding is_identity
straight_identity = refl

abbrev stereo_planes : List Plane
stereo_planes = (7 ∷ 8 ∷ []) ∷ (5 ∷ 6 ∷ []) ∷ []

abbrev stereo_block : AudioBlock
stereo_block = record {
  planes = some stereo_planes;
  interleaved = 7 ∷ 5 ∷ 8 ∷ 6 ∷ [];
  frames = 2;
  channels = 2;
  sample_rate = 48000;
}

full_planes : (c : ℕ) → c < 2 → length (get_or stereo_planes c []) ≡ 2
full_planes zero l = refl
full_planes (suc zero) l = refl
full_planes (suc (suc c)) l = absurd (omega arith)

identity_copies_example :
    (apply gains (configure gains straight_map idle) stereo_block
      ≡ (configure gains straight_map idle, stereo_block))
    × IsCopy
        (route_block gains (configure gains straight_map idle) stereo_block stereo_planes).1
        stereo_block
identity_copies_example =
    identity_copies gains straight_map idle stereo_block stereo_planes times_one straight_identity
      refl full_planes refl

swapped_gain : KeepsGain signed_gains 3
unfolding linear_from_db gain_db
swapped_gain = ((λ e. absurd (ground arith)), (λ e. refl))

from_options-to_json_example :
    from_options signed signed_gains
      (set (object no_fields) (codes "audio") (to_json signed_gains swapped))
    ≡ (swapped, none)
from_options-to_json_example =
    from_options-to_json signed signed_gains swapped signed-Converts swapped_gain
      (omega arith, (omega arith, (omega arith, (omega arith, (omega arith, tt)))))

-- A map of one entry for two channels, on a source of two: the second channel should be silent.
abbrev short_map : Route
short_map = record { mute = false; gain = 1; delay_ms = 0; channels = 2; map = pos 0 ∷ [] }

short_map_passes : is_identity gains short_map 2 ≡ true
unfolding is_identity
short_map_passes = refl

short_map_silences :
    routed_plane gains short_map ((7 ∷ 8 ∷ []) ∷ (5 ∷ 6 ∷ []) ∷ []) 2 2 1 ≡ 0 ∷ 0 ∷ []
unfolding routed_plane
short_map_silences = refl
