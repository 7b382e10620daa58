-- ===== src/Route/Bounds.antt =====
-- What AudioRoute::fromOptions lets through, and what it leaves when it reports a message.
use weblinked.Base.{
  ℕ, suc, ◌≤◌, ◌<◌, ◌≡◌, refl, ap, Bool, true, false, ltb, leb, if◌then◌else◌, some, List, [], ◌∷◌,
  length, arith,
}
use weblinked.Base.Int.{ℤ, pos, negsuc}
use weblinked.Base.Text.{codes}
use weblinked.Json.{
  Value, Items, Doubles, null, bool, number, string, array, object, no_items, item,
}
use weblinked.Json.Access.{as_bool, as_int, get, size, items_size}
use weblinked.Route.{Gains, Route, silent, max_channels, max_delay_ms, straight}
use weblinked.Route.Options.{
  RouteError, Reading, got, wrong, read_gain, check_range, read_limited, is_channel, read_entry,
  and_then, read_entries, read_map, assemble, from_audio, from_options, entry_out_of_range,
  map_too_long, delay_out_of_range, channels_out_of_range,
}

-- An entry of the map: -1 for silence, or a channel.
abbrev pub IsEntry : ℤ → Type 0
IsEntry (pos n) = n < 64
IsEntry (negsuc n) = n ≡ 0

abbrev pub AreChannels : List ℤ → Type 0
AreChannels [] = Unit {0}
AreChannels (x ∷ xs) = IsEntry x × AreChannels xs

abbrev pub IsValid : Route → Type 0
IsValid r = (r.delay_ms ≤ 2000) × ((r.channels ≤ 64) × ((length r.map ≤ 64) × AreChannels r.map))

is_channel-IsEntry : (x : ℤ) → is_channel x ≡ true → IsEntry x
is_channel-IsEntry (pos n) h = ground arith
is_channel-IsEntry (negsuc n) h = ground arith

abbrev Reads : {A : Type 0} → (A → Type 0) → Reading A → Type 0
Reads P (got a) = P a
Reads P (wrong e) = Unit {0}

Reads-if :
    {A : Type 0} (P : A → Type 0) (b : Bool) (x y : Reading A)
    → (b ≡ true → Reads P x)
    → (b ≡ false → Reads P y)
    → Reads P (if b then x else y)
Reads-if P true x y h k = h refl
Reads-if P false x y h k = k refl

Reads-mono :
    {A : Type 0} (P Q : A → Type 0) (x : Reading A) → ((a : A) → P a → Q a) → Reads P x → Reads Q x
Reads-mono P Q (got a) h k = h a k
Reads-mono P Q (wrong e) h k = tt

straight-IsValid : (g : Gains) → IsValid (straight g)
unfolding straight
straight-IsValid g = (omega arith, (omega arith, (omega arith, tt)))

check_range-Reads :
    (limit : ℕ) (e : RouteError) (z : ℤ) → Reads (λ n. n ≤ limit) (check_range limit e z)
unfolding check_range
check_range-Reads limit e (pos n) =
    Reads-if (λ m. m ≤ limit) (leb n limit) (got n) (wrong e) (λ t. ground arith) λ t. tt
check_range-Reads limit e (negsuc n) = tt

read_limited-Reads :
    (d : Doubles) (limit : ℕ) (e : RouteError) (v : Value)
    → Reads (λ n. n ≤ limit) (read_limited d limit e v)
unfolding read_limited
read_limited-Reads d limit e (number n) = check_range-Reads limit e (as_int d (number n) (pos 0))
read_limited-Reads d limit e null = omega arith
read_limited-Reads d limit e (bool b) = omega arith
read_limited-Reads d limit e (string t) = omega arith
read_limited-Reads d limit e (array xs) = omega arith
read_limited-Reads d limit e (object fs) = omega arith

read_entry-Reads : (d : Doubles) (i : ℕ) (v : Value) → Reads IsEntry (read_entry d i v)
unfolding read_entry
read_entry-Reads d i null = refl
read_entry-Reads d i (number n) =
    let x = as_int d (number n) silent in
    Reads-if IsEntry (is_channel x) (got x) (wrong (entry_out_of_range i)) (is_channel-IsEntry x)
      λ t. tt
read_entry-Reads d i (bool b) = tt
read_entry-Reads d i (string t) = tt
read_entry-Reads d i (array xs) = tt
read_entry-Reads d i (object fs) = tt

abbrev Fits : Items → List ℤ → Type 0
Fits xs entries = (length entries ≡ items_size xs) × AreChannels entries

and_then-Fits :
    (v : Value) (xs : Items) (first : Reading ℤ) (rest : Reading (List ℤ))
    → Reads IsEntry first
    → Reads (Fits xs) rest
    → Reads (Fits (item v xs)) (and_then first rest)
unfolding items_size
and_then-Fits v xs (wrong e) rest h k = tt
and_then-Fits v xs (got x) (wrong e) h k = tt
and_then-Fits v xs (got x) (got ys) h k = (ap suc k.0, (h, k.1))

read_entries-Fits : (d : Doubles) (i : ℕ) (xs : Items) → Reads (Fits xs) (read_entries d i xs)
unfolding read_entries items_size
read_entries-Fits d i no_items = (refl, tt)
read_entries-Fits d i (item v xs) =
    and_then-Fits v xs (read_entry d i v) (read_entries d (suc i) xs) (read_entry-Reads d i v)
      (read_entries-Fits d (suc i) xs)

abbrev FitsMap : List ℤ → Type 0
FitsMap entries = (length entries ≤ max_channels) × AreChannels entries

read_map-FitsMap : (d : Doubles) (v : Value) → Reads FitsMap (read_map d v)
unfolding read_map size
read_map-FitsMap d null = (omega arith, tt)
read_map-FitsMap d (number n) = tt
read_map-FitsMap d (bool b) = tt
read_map-FitsMap d (string t) = tt
read_map-FitsMap d (object fs) = tt
read_map-FitsMap d (array xs) =
    Reads-if FitsMap (ltb max_channels (items_size xs)) (wrong map_too_long) (read_entries d 0 xs)
      (λ t. tt)
      λ t.
        Reads-mono (Fits xs) FitsMap (read_entries d 0 xs) (λ ys h. (ground arith, h.1))
          (read_entries-Fits d 0 xs)

assemble-IsValid :
    (g : Gains) (mute : Bool) (gain : ℕ) (delay channels : Reading ℕ) (entries : Reading (List ℤ))
    → Reads (λ n. n ≤ max_delay_ms) delay
    → Reads (λ n. n ≤ max_channels) channels
    → Reads FitsMap entries
    → IsValid (assemble g mute gain delay channels entries).0
assemble-IsValid g mute gain (wrong e) channels entries h k l = straight-IsValid g
assemble-IsValid g mute gain (got n) (wrong e) entries h k l = straight-IsValid g
assemble-IsValid g mute gain (got n) (got c) (wrong e) h k l = straight-IsValid g
assemble-IsValid g mute gain (got n) (got c) (got xs) h k l = (h, (k, l))

from_audio-IsValid : (d : Doubles) (g : Gains) (v : Value) → IsValid (from_audio d g v).0
unfolding from_audio
from_audio-IsValid d g null = straight-IsValid g
from_audio-IsValid d g (number n) = straight-IsValid g
from_audio-IsValid d g (bool b) = straight-IsValid g
from_audio-IsValid d g (string t) = straight-IsValid g
from_audio-IsValid d g (array xs) = straight-IsValid g
from_audio-IsValid d g (object fs) =
    let audio = object fs in
    assemble-IsValid g _ _ _ _ _
      (read_limited-Reads d max_delay_ms delay_out_of_range (get audio (codes "delay_ms")))
      (read_limited-Reads d max_channels channels_out_of_range (get audio (codes "channels")))
      (read_map-FitsMap d (get audio (codes "map")))

-- Whatever the options are, the route that comes out has a delay of at most two seconds, at most 64
-- channels, and a map of at most 64 entries, each silent or a channel below 64.
pub from_options-IsValid :
    (d : Doubles) (g : Gains) (options : Value) → IsValid (from_options d g options).0
unfolding from_options
from_options-IsValid d g options = from_audio-IsValid d g (get options (codes "audio"))

assemble-straight :
    (g : Gains) (mute : Bool) (gain : ℕ) (delay channels : Reading ℕ) (entries : Reading (List ℤ))
    (e : RouteError)
    → (assemble g mute gain delay channels entries).1 ≡ some e
    → (assemble g mute gain delay channels entries).0 ≡ straight g
assemble-straight g mute gain (wrong e) channels entries f h = refl
assemble-straight g mute gain (got n) (wrong e) entries f h = refl
assemble-straight g mute gain (got n) (got c) (wrong e) f h = refl
assemble-straight g mute gain (got n) (got c) (got xs) f h = absurd (ground arith)

from_audio-straight :
    (d : Doubles) (g : Gains) (v : Value) (e : RouteError)
    → (from_audio d g v).1 ≡ some e
    → (from_audio d g v).0 ≡ straight g
unfolding from_audio
from_audio-straight d g null e h = refl
from_audio-straight d g (number n) e h = refl
from_audio-straight d g (bool b) e h = refl
from_audio-straight d g (string t) e h = refl
from_audio-straight d g (array xs) e h = refl
from_audio-straight d g (object fs) e h =
    let audio = object fs in
    assemble-straight g (as_bool d (get audio (codes "mute")) false)
      (read_gain d g (get audio (codes "gain_db")))
      (read_limited d max_delay_ms delay_out_of_range (get audio (codes "delay_ms")))
      (read_limited d max_channels channels_out_of_range (get audio (codes "channels")))
      (read_map d (get audio (codes "map"))) e h

-- When a message is reported, the route is the straight one: nothing that was read before the mistake
-- is kept.
pub from_options-straight :
    (d : Doubles) (g : Gains) (options : Value) (e : RouteError)
    → (from_options d g options).1 ≡ some e
    → (from_options d g options).0 ≡ straight g
unfolding from_options
from_options-straight d g options e h = from_audio-straight d g (get options (codes "audio")) e h
