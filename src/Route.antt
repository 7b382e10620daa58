-- ===== src/Route.antt =====
-- core/audio_route.h and core/audio_route.cpp: what happens to a source's audio on its way to one output. A
-- sample and a gain are the bits of a float, a level in dB those of a double, and what <cmath> and the
-- processor do with them is a parameter (`Gains`).
pub mod Options
pub mod Bounds
pub mod Members
pub mod RoundTrip
pub mod Router
mod Tests
use weblinked.Base.{
  ℕ, zero, suc, ◌+◌, Bool, true, false, not, ◌&&◌, ◌||◌, ltb, ◌==◌, if◌then◌else◌, List, [], ◌∷◌,
  length,
}
use weblinked.Base.Int.{ℤ, pos, negsuc}

-- The arithmetic on samples and gains: `below_floor` is db <= kMinusInfinityDb, and `to_double` the
-- conversion of an int to a double.
pub record Gains : Type 0 where
  pub unity : ℕ
  pub silence : ℕ
  pub floor_db : ℕ
  pub zero_db : ℕ
  pub is_unity : ℕ → Bool
  pub is_silent : ℕ → Bool
  pub below_floor : ℕ → Bool
  pub pow : ℕ → ℕ
  pub log : ℕ → ℕ
  pub scale : ℕ → ℕ → ℕ
  pub to_double : ℤ → ℕ

-- AudioRoute. What fromOptions stores in `delay_ms` and `channels` is never negative.
pub record Route : Type 0 where
  pub mute : Bool
  pub gain : ℕ
  pub delay_ms : ℕ
  pub channels : ℕ
  pub map : List ℤ

-- kSilent.
abbrev pub silent : ℤ
silent = negsuc 0

abbrev pub max_channels : ℕ
max_channels = 64

abbrev pub max_delay_ms : ℕ
max_delay_ms = 2000

-- The route that a fresh AudioRoute is.
unfoldable pub straight : Gains → Route
straight g = record { mute = false; gain = g.unity; delay_ms = 0; channels = 0; map = [] }

abbrev pub is_empty : List ℤ → Bool
is_empty [] = true
is_empty (x ∷ xs) = false

unfoldable pub destination_channels : Route → ℕ → ℕ
destination_channels r source_channels =
    if ltb 0 r.channels
    then r.channels
    else if is_empty r.map
    then source_channels
    else length r.map

abbrev pub is_pos : ℤ → ℕ → Bool
is_pos (pos n) i = n == i
is_pos (negsuc n) i = false

-- The loop of isIdentity over the map, from place `i` on.
unfoldable pub counts_up : ℕ → List ℤ → Bool
counts_up i [] = true
counts_up i (x ∷ xs) = is_pos x i && counts_up (suc i) xs

unfoldable pub is_identity : Gains → Route → ℕ → Bool
unfolding destination_channels counts_up
is_identity g r source_channels =
    not (r.mute || (not (g.is_unity r.gain) || not (r.delay_ms == 0)))
    && (destination_channels r source_channels == source_channels && counts_up 0 r.map)
