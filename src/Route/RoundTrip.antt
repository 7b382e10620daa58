-- ===== src/Route/RoundTrip.antt =====
-- core/audio_route.cpp: fromOptions on what toJson writes.
use weblinked.Base.{
  ℕ, zero, suc, ◌≤◌, ◌≡◌, refl, sym, ap, subst, ap₂, ◌∙◌, Bool, true, false, not, Bool-cases, inl,
  inr, ltb, leb, ◌==◌, if◌then◌else◌, Option, none, List, [], ◌∷◌, length, arith,
}
use weblinked.Base.Int.{ℤ, pos, negsuc}
use weblinked.Base.Text.{codes, same_text}
use weblinked.Json.{Value, Doubles, null, bool, number, array, object, no_fields}
use weblinked.Json.Access.{
  as_bool, as_double, as_int64, as_int, to_int32, int_of_low, get, set, size, items_size, get-set,
}
use weblinked.Route.{Gains, Route, silent, max_channels, max_delay_ms, straight, is_empty}
use weblinked.Route.Options.{
  RouteError, got, wrong, read_gain, check_range, read_limited, is_channel, read_entry, and_then,
  read_entries, read_map, assemble, from_audio, from_options, map_items, gain_db, is_written,
  to_json, entry_out_of_range, map_too_long, delay_out_of_range, channels_out_of_range,
}
use weblinked.Route.Bounds.{IsEntry, AreChannels, IsValid}
use weblinked.Route.Members.{
  Converts, KeepsGain, IsObject, set_if-IsObject, with_map, get-mute, get-gain, get-delay,
  get-channels, get-map,
}

mute_back : (d : Doubles) (b : Bool) → as_bool d (if b then bool true else null) false ≡ b
unfolding as_bool
mute_back d true = refl
mute_back d false = refl

gain_back :
    (d : Doubles) (g : Gains) (gain : ℕ)
    → KeepsGain g gain
    → read_gain d g (if not (g.is_unity gain) then number (gain_db g gain) else null) ≡ gain
unfolding read_gain as_double
gain_back d g gain h = elim (Bool-cases (g.is_unity gain)) [
  | inl e ↦
      ap (λ b. read_gain d g (if not b then number (gain_db g gain) else null)) e ∙ sym (h.0 e)
  | inr e ↦ ap (λ b. read_gain d g (if not b then number (gain_db g gain) else null)) e ∙ h.1 e
]

to_int32_small : (n : ℕ) → n ≤ max_delay_ms → to_int32 (pos n) ≡ pos n
unfolding to_int32 int_of_low
to_int32_small n h = ground arith

silent_cut : to_int32 silent ≡ silent
unfolding to_int32
silent_cut = refl

limited_back :
    (d : Doubles) (g : Gains) (limit : ℕ) (e : RouteError) (n : ℕ)
    → Converts d g
    → limit ≤ max_delay_ms
    → n ≤ limit
    → read_limited d limit e (if not (n == 0) then number (g.to_double (pos n)) else null) ≡ got n
unfolding read_limited check_range as_int as_int64
limited_back d g limit e zero c l h = refl
limited_back d g limit e (suc n) c l h =
    let written : (suc n == 0) ≡ false = ground arith in
    let inside : leb (suc n) limit ≡ true = ground arith in
    let read : as_int d (number (g.to_double (pos (suc n)))) (pos 0) ≡ pos (suc n) =
      ap to_int32 (c.0 (suc n) (omega arith)) ∙ to_int32_small (suc n) (omega arith) in
    ap (λ b. read_limited d limit e (if not b then number (g.to_double (pos (suc n))) else null))
      written
    ∙ (ap (check_range limit e) read ∙ ap (λ b. if b then got (suc n) else wrong e) inside)

channel_back :
    (d : Doubles) (g : Gains) (x : ℤ)
    → Converts d g
    → is_channel x ≡ true
    → to_int32 (d.round (g.to_double x)) ≡ x
channel_back d g (pos n) c h =
    let small : n ≤ max_delay_ms = ground arith in
    ap to_int32 (c.0 n small) ∙ to_int32_small n small
channel_back d g (negsuc zero) c h = ap to_int32 c.1 ∙ silent_cut
channel_back d g (negsuc (suc n)) c h = absurd (ground arith)

IsEntry-is_channel : (x : ℤ) → IsEntry x → is_channel x ≡ true
IsEntry-is_channel (pos n) h = ground arith
IsEntry-is_channel (negsuc n) h = ground arith

entry_back :
    (d : Doubles) (g : Gains) (i : ℕ) (x : ℤ)
    → Converts d g
    → is_channel x ≡ true
    → read_entry d i (number (g.to_double x)) ≡ got x
unfolding read_entry as_int as_int64
entry_back d g i x c h =
    ap (λ y. if is_channel y then got y else wrong (entry_out_of_range i)) (channel_back d g x c h)
    ∙ ap (λ b. if b then got x else wrong (entry_out_of_range i)) h

entries_back :
    (d : Doubles) (g : Gains) (i : ℕ) (xs : List ℤ)
    → Converts d g
    → AreChannels xs
    → read_entries d i (map_items g xs) ≡ got xs
unfolding read_entries map_items
entries_back d g i [] c h = refl
entries_back d g i (x ∷ xs) c h =
    ap₂ and_then (entry_back d g i x c (IsEntry-is_channel x h.0))
      (entries_back d g (suc i) xs c h.1)

items_size-map_items : (g : Gains) (xs : List ℤ) → items_size (map_items g xs) ≡ length xs
unfolding items_size map_items
items_size-map_items g [] = refl
items_size-map_items g (x ∷ xs) = ap suc (items_size-map_items g xs)

map_back :
    (d : Doubles) (g : Gains) (xs : List ℤ)
    → Converts d g
    → length xs ≤ max_channels
    → AreChannels xs
    → read_map d (if not (is_empty xs) then array (map_items g xs) else null) ≡ got xs
unfolding read_map size
map_back d g [] c l h = refl
map_back d g (x ∷ xs) c l h =
    let many : ltb max_channels (items_size (map_items g (x ∷ xs))) ≡ false =
      ground (arith, items_size-map_items g (x ∷ xs)) in
    ap (λ b. if b then wrong map_too_long else read_entries d 0 (map_items g (x ∷ xs))) many
    ∙ entries_back d g 0 (x ∷ xs) c h

-- fromOptions on an object.
abbrev read_object : Doubles → Gains → Value → Route × Option RouteError
read_object d g v =
    assemble g (as_bool d (get v (codes "mute")) false) (read_gain d g (get v (codes "gain_db")))
      (read_limited d max_delay_ms delay_out_of_range (get v (codes "delay_ms")))
      (read_limited d max_channels channels_out_of_range (get v (codes "channels")))
      (read_map d (get v (codes "map")))

from_audio_object :
    (d : Doubles) (g : Gains) (v : Value) → IsObject v → from_audio d g v ≡ read_object d g v
unfolding from_audio
from_audio_object d g v (fs, e) = subst (λ w. from_audio d g w ≡ read_object d g w) (sym e) refl

with_map-IsObject : (g : Gains) (r : Route) → IsObject (with_map g r)
with_map-IsObject g r = set_if-IsObject (not (is_empty r.map)) (codes "map") _ _ (
    set_if-IsObject (not (r.channels == 0)) (codes "channels") _ _ (
      set_if-IsObject (not (r.delay_ms == 0)) (codes "delay_ms") _ _ (
        set_if-IsObject (not (g.is_unity r.gain)) (codes "gain_db") _ _
          (set_if-IsObject r.mute (codes "mute") _ _ (no_fields, refl)))))

written_back :
    (d : Doubles) (g : Gains) (r : Route)
    → Converts d g
    → KeepsGain g r.gain
    → IsValid r
    → from_audio d g (with_map g r) ≡ (r, none)
written_back d g r c k h =
    from_audio_object d g (with_map g r) (with_map-IsObject g r)
    ∙ (ap₂
          (λ mute gain.
            assemble g mute gain
              (read_limited d max_delay_ms delay_out_of_range
                (get (with_map g r) (codes "delay_ms")))
              (read_limited d max_channels channels_out_of_range
                (get (with_map g r) (codes "channels")))
              (read_map d (get (with_map g r) (codes "map"))))
          (ap (λ v. as_bool d v false) (get-mute g r) ∙ mute_back d r.mute)
          (ap (read_gain d g) (get-gain g r) ∙ gain_back d g r.gain k)
        ∙ (ap₂
              (λ delay channels.
                assemble g r.mute r.gain delay channels
                  (read_map d (get (with_map g r) (codes "map"))))
              (ap (read_limited d max_delay_ms delay_out_of_range) (get-delay g r)
                ∙ limited_back d g max_delay_ms delay_out_of_range r.delay_ms c (omega arith) h.0)
              (ap (read_limited d max_channels channels_out_of_range) (get-channels g r)
                ∙ limited_back d g max_channels channels_out_of_range r.channels c (omega arith)
                    h.1.0)
            ∙ ap (assemble g r.mute r.gain (got r.delay_ms) (got r.channels))
                (ap (read_map d) (get-map g r) ∙ map_back d g r.map c h.1.1.0 h.1.1.1)))

empty_map : (xs : List ℤ) → is_empty xs ≡ true → xs ≡ []
empty_map [] h = refl
empty_map (x ∷ xs) h = absurd (ground arith)

abbrev route_of : Bool → ℕ → ℕ → ℕ → List ℤ → Route
route_of mute gain delay channels entries = record {
  mute = mute;
  gain = gain;
  delay_ms = delay;
  channels = channels;
  map = entries;
}

unwritten_back :
    (g : Gains) (r : Route) → KeepsGain g r.gain → is_written g r ≡ false → straight g ≡ r
unfolding straight
unwritten_back g r k h =
    let mute : r.mute ≡ false = ground (arith, h) in
    let unity : g.is_unity r.gain ≡ true = ground (arith, h) in
    let delay : r.delay_ms ≡ 0 = ground (arith, h) in
    let channels : r.channels ≡ 0 = ground (arith, h) in
    let entries : is_empty r.map ≡ true = ground (arith, h) in
    ap₂ (λ m u. route_of m u 0 0 []) (sym mute) (sym (k.0 unity))
    ∙ (ap₂ (λ a b. route_of r.mute r.gain a b []) (sym delay) (sym channels)
        ∙ ap (route_of r.mute r.gain r.delay_ms r.channels) (sym (empty_map r.map entries)))

-- A valid route that toJson wrote into the options of an output is read back as it was, without a message, when
-- its small numbers survive the conversion to a double and back and its gain the one to dB and back.
pub from_options-to_json :
    (d : Doubles) (g : Gains) (r : Route)
    → Converts d g
    → KeepsGain g r.gain
    → IsValid r
    → from_options d g (set (object no_fields) (codes "audio") (to_json g r)) ≡ (r, none)
unfolding from_options to_json same_text
from_options-to_json d g r c k h =
    ap (from_audio d g) (get-set (object no_fields) (codes "audio") (codes "audio") (to_json g r))
    ∙ elim (Bool-cases (is_written g r)) [
      | inl e ↦
          ap (λ b. from_audio d g (if b then with_map g r else null)) e ∙ written_back d g r c k h
      | inr e ↦
          ap (λ b. from_audio d g (if b then with_map g r else null)) e
          ∙ ap (λ x. (x, none)) (unwritten_back g r k e)
    ]
