-- ===== src/Route/Members.antt =====
-- core/audio_route.cpp: the members of the object that toJson writes.
use weblinked.Base.{ℕ, ◌≤◌, ◌≡◌, refl, ap, ◌∙◌, Bool, true, false, not, ◌==◌, if◌then◌else◌}
use weblinked.Base.Int.{pos}
use weblinked.Base.Text.{Text, codes, same_text}
use weblinked.Json.{Value, Fields, Doubles, null, bool, number, array, object, no_fields}
use weblinked.Json.Access.{get, set, get-set}
use weblinked.Route.{Gains, Route, silent, max_delay_ms, is_empty}
use weblinked.Route.Options.{linear_from_db, set_if, map_items, gain_db}

-- What the conversions of a small number, and of the gain of a route, have to give back.
abbrev pub Converts : Doubles → Gains → Type 0
Converts d g =
    ((n : ℕ) → n ≤ max_delay_ms → d.round (g.to_double (pos n)) ≡ pos n)
    × (d.round (g.to_double silent) ≡ silent)

abbrev pub KeepsGain : Gains → ℕ → Type 0
KeepsGain g gain =
    (g.is_unity gain ≡ true → gain ≡ g.unity)
    × (g.is_unity gain ≡ false → linear_from_db g (gain_db g gain) ≡ gain)

pub skip_key :
    (b : Bool) (key : Text) (v x : Value) (other : Text)
    → same_text key other ≡ false
    → get (set_if b key v x) other ≡ get x other
skip_key true key v x other h = get-set x key other v ∙ ap (λ t. if t then v else get x other) h
skip_key false key v x other h = refl

pub hit_key :
    (b : Bool) (key : Text) (v x : Value) (other : Text)
    → same_text key other ≡ true
    → get (set_if b key v x) other ≡ (if b then v else get x other)
hit_key true key v x other h = get-set x key other v ∙ ap (λ t. if t then v else get x other) h
hit_key false key v x other h = refl

abbrev pub IsObject : Value → Type 0
IsObject v = (fs : Fields) × (v ≡ object fs)

pub set_if-IsObject :
    (b : Bool) (key : Text) (v x : Value) → IsObject x → IsObject (set_if b key v x)
unfolding set
set_if-IsObject true key v x (fs, e) = (_, ap (λ y. set y key v) e)
set_if-IsObject false key v x h = h

-- The members of toJson, the last one outermost.
abbrev pub with_mute : Route → Value
with_mute r = set_if r.mute (codes "mute") (bool true) (object no_fields)

abbrev pub with_gain : Gains → Route → Value
with_gain g r =
    set_if (not (g.is_unity r.gain)) (codes "gain_db") (number (gain_db g r.gain)) (with_mute r)

abbrev pub with_delay : Gains → Route → Value
with_delay g r =
    set_if (not (r.delay_ms == 0)) (codes "delay_ms") (number (g.to_double (pos r.delay_ms)))
      (with_gain g r)

abbrev pub with_channels : Gains → Route → Value
with_channels g r =
    set_if (not (r.channels == 0)) (codes "channels") (number (g.to_double (pos r.channels)))
      (with_delay g r)

abbrev pub with_map : Gains → Route → Value
with_map g r =
    set_if (not (is_empty r.map)) (codes "map") (array (map_items g r.map)) (with_channels g r)

pub get-mute :
    (g : Gains) (r : Route)
    → get (with_map g r) (codes "mute") ≡ (if r.mute then bool true else null)
unfolding same_text get
get-mute g r =
    skip_key (not (is_empty r.map)) (codes "map") _ (with_channels g r) (codes "mute") refl
    ∙ (skip_key (not (r.channels == 0)) (codes "channels") _ (with_delay g r) (codes "mute") refl
        ∙ (skip_key (not (r.delay_ms == 0)) (codes "delay_ms") _ (with_gain g r) (codes "mute") refl
            ∙ (skip_key (not (g.is_unity r.gain)) (codes "gain_db") _ (with_mute r) (codes "mute")
                  refl
                ∙ hit_key r.mute (codes "mute") (bool true) (object no_fields) (codes "mute")
                    refl)))

pub get-gain :
    (g : Gains) (r : Route)
    → get (with_map g r) (codes "gain_db")
      ≡ (if not (g.is_unity r.gain) then number (gain_db g r.gain) else null)
unfolding same_text get
get-gain g r =
    skip_key (not (is_empty r.map)) (codes "map") _ (with_channels g r) (codes "gain_db") refl
    ∙ (skip_key (not (r.channels == 0)) (codes "channels") _ (with_delay g r) (codes "gain_db") refl
        ∙ (skip_key (not (r.delay_ms == 0)) (codes "delay_ms") _ (with_gain g r) (codes "gain_db")
              refl
            ∙ (hit_key (not (g.is_unity r.gain)) (codes "gain_db") _ (with_mute r) (codes "gain_db")
                  refl
                ∙ ap (λ z. if not (g.is_unity r.gain) then number (gain_db g r.gain) else z)
                    (skip_key r.mute (codes "mute") (bool true) (object no_fields) (codes "gain_db")
                      refl))))

pub get-delay :
    (g : Gains) (r : Route)
    → get (with_map g r) (codes "delay_ms")
      ≡ (if not (r.delay_ms == 0) then number (g.to_double (pos r.delay_ms)) else null)
unfolding same_text get
get-delay g r =
    skip_key (not (is_empty r.map)) (codes "map") _ (with_channels g r) (codes "delay_ms") refl
    ∙ (skip_key (not (r.channels == 0)) (codes "channels") _ (with_delay g r) (codes "delay_ms")
          refl
        ∙ (hit_key (not (r.delay_ms == 0)) (codes "delay_ms") _ (with_gain g r) (codes "delay_ms")
              refl
            ∙ ap (λ z. if not (r.delay_ms == 0) then number (g.to_double (pos r.delay_ms)) else z)
                (skip_key (not (g.is_unity r.gain)) (codes "gain_db") _ (with_mute r)
                    (codes "delay_ms") refl
                  ∙ skip_key r.mute (codes "mute") (bool true) (object no_fields) (codes "delay_ms")
                      refl)))

pub get-channels :
    (g : Gains) (r : Route)
    → get (with_map g r) (codes "channels")
      ≡ (if not (r.channels == 0) then number (g.to_double (pos r.channels)) else null)
unfolding same_text get
get-channels g r =
    skip_key (not (is_empty r.map)) (codes "map") _ (with_channels g r) (codes "channels") refl
    ∙ (hit_key (not (r.channels == 0)) (codes "channels") _ (with_delay g r) (codes "channels") refl
        ∙ ap (λ z. if not (r.channels == 0) then number (g.to_double (pos r.channels)) else z)
            (skip_key (not (r.delay_ms == 0)) (codes "delay_ms") _ (with_gain g r)
                (codes "channels") refl
              ∙ (skip_key (not (g.is_unity r.gain)) (codes "gain_db") _ (with_mute r)
                    (codes "channels") refl
                  ∙ skip_key r.mute (codes "mute") (bool true) (object no_fields) (codes "channels")
                      refl)))

pub get-map :
    (g : Gains) (r : Route)
    → get (with_map g r) (codes "map")
      ≡ (if not (is_empty r.map) then array (map_items g r.map) else null)
unfolding same_text get
get-map g r =
    hit_key (not (is_empty r.map)) (codes "map") _ (with_channels g r) (codes "map") refl
    ∙ ap (λ z. if not (is_empty r.map) then array (map_items g r.map) else z)
        (skip_key (not (r.channels == 0)) (codes "channels") _ (with_delay g r) (codes "map") refl
          ∙ (skip_key (not (r.delay_ms == 0)) (codes "delay_ms") _ (with_gain g r) (codes "map")
                refl
              ∙ (skip_key (not (g.is_unity r.gain)) (codes "gain_db") _ (with_mute r) (codes "map")
                    refl
                  ∙ skip_key r.mute (codes "mute") (bool true) (object no_fields) (codes "map")
                      refl)))
