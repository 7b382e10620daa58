-- ===== src/Route/Options.antt =====
-- core/audio_route.cpp: AudioRoute::fromOptions and toJson. A route comes with the message, if there is one.
use weblinked.Base.{
  ℕ, suc, Bool, true, false, not, ◌||◌, ltb, leb, ◌==◌, if◌then◌else◌, Option, none, some, List, [],
  ◌∷◌,
}
use weblinked.Base.Int.{ℤ, pos, negsuc}
use weblinked.Base.Text.{Text, codes}
use weblinked.Json.{
  Value, Items, Doubles, null, bool, number, array, object, no_items, item, no_fields,
}
use weblinked.Json.Access.{as_bool, as_double, as_int, get, set, size}
use weblinked.Route.{Gains, Route, silent, max_channels, max_delay_ms, straight, is_empty}

-- The messages of fromOptions, with the place in the map where the message names one.
pub data RouteError : Type 0 where
  expected_object delay_out_of_range channels_out_of_range map_too_long map_not_array : RouteError
  entry_not_number entry_out_of_range : ℕ → RouteError

-- A value that was read, or the message of an early return.
pub data Reading (A : Type 0) : Type 0 where
  got : A → Reading A
  wrong : RouteError → Reading A

abbrev pub is_number : Value → Bool
is_number (number n) = true
is_number v = false

abbrev pub is_null : Value → Bool
is_null null = true
is_null v = false

-- linearFromDb.
unfoldable pub linear_from_db : Gains → ℕ → ℕ
linear_from_db g db = if g.below_floor db then g.silence else g.pow db

unfoldable pub read_gain : Doubles → Gains → Value → ℕ
unfolding linear_from_db
read_gain d g v = if is_number v then linear_from_db g (as_double d v g.zero_db) else g.unity

-- An integer of at most `limit`: the test of delay_ms and of channels.
unfoldable pub check_range : ℕ → RouteError → ℤ → Reading ℕ
check_range limit error (pos n) = if leb n limit then got n else wrong error
check_range limit error (negsuc n) = wrong error

unfoldable pub read_limited : Doubles → ℕ → RouteError → Value → Reading ℕ
unfolding check_range
read_limited d limit error v =
    if is_number v then check_range limit error (as_int d v (pos 0)) else got 0

-- channel < kSilent || channel >= kMaxChannels
abbrev pub is_channel : ℤ → Bool
is_channel (pos n) = ltb n max_channels
is_channel (negsuc n) = n == 0

-- One entry of the map.
unfoldable pub read_entry : Doubles → ℕ → Value → Reading ℤ
read_entry d i v =
    if is_null v
    then got silent
    else if is_number v
    then if is_channel (as_int d v silent)
      then got (as_int d v silent)
      else wrong (entry_out_of_range i)
    else wrong (entry_not_number i)

abbrev pub and_then : Reading ℤ → Reading (List ℤ) → Reading (List ℤ)
and_then (wrong e) rest = wrong e
and_then (got x) (wrong e) = wrong e
and_then (got x) (got xs) = got (x ∷ xs)

-- The loop over the map, from place `i` on.
unfoldable pub read_entries : Doubles → ℕ → Items → Reading (List ℤ)
unfolding read_entry
read_entries d i no_items = got []
read_entries d i (item v xs) = and_then (read_entry d i v) (read_entries d (suc i) xs)

unfoldable pub read_map : Doubles → Value → Reading (List ℤ)
unfolding read_entries
read_map d (array xs) =
    if ltb max_channels (size (array xs)) then wrong map_too_long else read_entries d 0 xs
read_map d null = got []
read_map d v = wrong map_not_array

-- A route behind the early returns, in the order of the source.
abbrev pub assemble :
    Gains → Bool → ℕ → Reading ℕ → Reading ℕ → Reading (List ℤ) → Route × Option RouteError
assemble g mute gain (wrong e) channels entries = (straight g, some e)
assemble g mute gain (got delay) (wrong e) entries = (straight g, some e)
assemble g mute gain (got delay) (got channels) (wrong e) = (straight g, some e)
assemble g mute gain (got delay) (got channels) (got entries) = (
  record { mute = mute; gain = gain; delay_ms = delay; channels = channels; map = entries },
  none,
)

-- fromOptions on its "audio" member.
unfoldable pub from_audio : Doubles → Gains → Value → Route × Option RouteError
unfolding read_gain read_limited read_map
from_audio d g (object fs) =
    let audio = object fs in
    assemble g (as_bool d (get audio (codes "mute")) false)
      (read_gain d g (get audio (codes "gain_db")))
      (read_limited d max_delay_ms delay_out_of_range (get audio (codes "delay_ms")))
      (read_limited d max_channels channels_out_of_range (get audio (codes "channels")))
      (read_map d (get audio (codes "map")))
from_audio d g null = (straight g, none)
from_audio d g v = (straight g, some expected_object)

unfoldable pub from_options : Doubles → Gains → Value → Route × Option RouteError
unfolding from_audio
from_options d g options = from_audio d g (get options (codes "audio"))

-- An entry is written when its test holds.
abbrev pub set_if : Bool → Text → Value → Value → Value
set_if true key v value = set value key v
set_if false key v value = value

unfoldable pub map_items : Gains → List ℤ → Items
map_items g [] = no_items
map_items g (x ∷ xs) = item (number (g.to_double x)) (map_items g xs)

unfoldable pub gain_db : Gains → ℕ → ℕ
gain_db g gain = if g.is_silent gain then g.floor_db else g.log gain

abbrev pub is_written : Gains → Route → Bool
is_written g r =
    r.mute
    || (not (g.is_unity r.gain)
        || (not (r.delay_ms == 0) || (not (r.channels == 0) || not (is_empty r.map))))

unfoldable pub to_json : Gains → Route → Value
unfolding map_items gain_db
to_json g r =
    if is_written g r
    then set_if (not (is_empty r.map)) (codes "map") (array (map_items g r.map)) (
        set_if (not (r.channels == 0)) (codes "channels") (number (g.to_double (pos r.channels))) (
          set_if (not (r.delay_ms == 0)) (codes "delay_ms") (number (g.to_double (pos r.delay_ms)))
            (set_if (not (g.is_unity r.gain)) (codes "gain_db") (number (gain_db g r.gain))
              (set_if r.mute (codes "mute") (bool true) (object no_fields)))))
    else null
