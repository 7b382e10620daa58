-- ===== src/StreamArgs.antt =====
-- core/stream_args.cpp: the command line of the stream encoder, and the URL that may be shown. A text is its bytes; the
-- number of frames between two keyframes, which the source rounds from doubles, is a parameter.
pub mod Redaction
pub mod Bitrate
mod Tests
use weblinked.Base.{
  ℕ, zero, suc, ◌+◌, ◌-◌, ◌*◌, ◌≤◌, min, Bool, true, false, not, ◌&&◌, ◌||◌, ltb, leb, ◌==◌,
  if◌then◌else◌, Option, none, some, List, [], ◌∷◌, ◌++◌, length, take, drop, map,
}
use weblinked.Base.Int.{ℤ, pos, negsuc}
use weblinked.Base.Text.{Text, codes, is_digit, same_text, read_from, decimal, decimal_ℤ}

-- What buildFfmpegArgs reads of a VideoFormat.
pub record VideoFormat : Type 0 where
  pub width : ℤ
  pub height : ℤ
  pub numerator : ℤ
  pub denominator : ℤ

-- `gop_seconds` is the bits of a double.
pub record StreamSettings : Type 0 where
  pub url : Text
  pub container : Text
  pub ffmpeg_path : Text
  pub video_codec : Text
  pub video_bitrate : Text
  pub preset : Text
  pub tune : Text
  pub gop_seconds : ℕ
  pub audio_codec : Text
  pub audio_bitrate : Text
  pub audio_channels : ℤ
  pub audio_sample_rate : ℤ
  pub extra_args : List Text

-- std::tolower of the C locale.
abbrev pub to_lower : ℕ → ℕ
to_lower c = if leb 65 c && leb c 90 then c + 32 else c

unfoldable pub starts_with : Text → Text → Bool
starts_with t [] = true
starts_with [] (p ∷ ps) = false
starts_with (c ∷ cs) (p ∷ ps) = c == p && starts_with cs ps

abbrev pub is_empty : Text → Bool
is_empty [] = true
is_empty (c ∷ cs) = false

unfoldable pub container_for_url : Text → Text
unfolding starts_with
container_for_url url =
    let lowered = map to_lower url in
    if starts_with lowered (codes "rtmp://")
      || (starts_with lowered (codes "rtmps://") || starts_with lowered (codes "rtmpt://"))
    then codes "flv"
    else if starts_with lowered (codes "srt://")
        || (starts_with lowered (codes "udp://") || starts_with lowered (codes "rtp://"))
    then codes "mpegts"
    else codes "flv"

abbrev pub one_on : Option ℕ → Option ℕ
one_on none = none
one_on (some n) = some (suc n)

-- find("://").
unfoldable pub find_scheme : Text → Option ℕ
unfolding starts_with
find_scheme [] = none
find_scheme (c ∷ cs) =
    let rest = one_on (find_scheme cs) in
    if starts_with (c ∷ cs) (codes "://") then some 0 else rest

-- find('/', start).
unfoldable pub find_slash : Text → ℕ → Option ℕ
find_slash [] start = none
find_slash (c ∷ cs) (suc start) = one_on (find_slash cs start)
find_slash (c ∷ cs) zero =
    let rest = one_on (find_slash cs zero) in if c == b'/' then some 0 else rest

abbrev pub or_here : ℕ → Option ℕ → Option ℕ
or_here c none = if c == b'/' then some 0 else none
or_here c (some n) = some (suc n)

-- find_last_of('/').
unfoldable pub find_last_slash : Text → Option ℕ
find_last_slash [] = none
find_last_slash (c ∷ cs) = or_here c (find_last_slash cs)

abbrev pub path_from : Option ℕ → ℕ
path_from none = 0
path_from (some scheme) = scheme + 3

-- Where the path of a URL starts.
unfoldable pub find_path : Text → Option ℕ
unfolding find_scheme find_slash
find_path url = find_slash url (path_from (find_scheme url))

-- What redactStreamUrl does with the two places.
abbrev pub redact_at : Text → Option ℕ → Option ℕ → Text
redact_at url none last = url
redact_at url (some path) none = url
redact_at url (some path) (some last) =
    if leb last path
    then url
    else if is_empty (drop (suc last) url)
    then url
    else take (suc last) url ++ codes "<key>"

unfoldable pub redact_stream_url : Text → Text
unfolding find_path find_last_slash
redact_stream_url url = redact_at url (find_path url) (find_last_slash url)

-- The digits of a bitrate and its suffix, if it has one.
abbrev pub is_suffix : ℕ → Bool
is_suffix c = c == b'k' || (c == b'K' || (c == b'm' || c == b'M'))

unfoldable pub all_digits : Text → Bool
all_digits [] = true
all_digits (c ∷ cs) = is_digit c && all_digits cs

abbrev pub join_split : ℕ → Text × Text → Text × Text
join_split c (digits, suffix) = (c ∷ digits, suffix)

unfoldable pub split_suffix : Text → Text × Text
split_suffix [] = ([], [])
split_suffix (c ∷ []) = if is_suffix c then ([], c ∷ []) else (c ∷ [], [])
split_suffix (c ∷ d ∷ ds) = join_split c (split_suffix (d ∷ ds))

-- The highest `long`, at which strtol stops. The double of it is taken without the overflow.
abbrev pub long_max : ℕ
long_max = 9223372036854775807

abbrev pub double_parts : Text → Text × Text → Text
double_parts bitrate (digits, suffix) =
    let value = min (read_from 0 digits) long_max in
    if is_empty digits || not (all_digits digits)
    then bitrate
    else if value == 0
    then bitrate
    else decimal (value * 2) ++ suffix

-- doubleBitrate.
unfoldable pub double_bitrate : Text → Text
unfolding split_suffix all_digits read_from decimal
double_bitrate bitrate =
    if is_empty bitrate then bitrate else double_parts bitrate (split_suffix bitrate)

abbrev pub at_least_one : ℤ → ℤ
at_least_one (pos zero) = pos 1
at_least_one (pos (suc n)) = pos (suc n)
at_least_one (negsuc n) = pos 1

unfoldable pub input_args : StreamSettings → VideoFormat → ℤ → ℤ → List Text
unfolding decimal_ℤ
input_args s f video_port audio_port =
    s.ffmpeg_path
    ∷ codes "-hide_banner"
    ∷ codes "-nostdin"
    ∷ codes "-loglevel"
    ∷ codes "warning"
    ∷ codes "-f"
    ∷ codes "rawvideo"
    ∷ codes "-pix_fmt"
    ∷ codes "uyvy422"
    ∷ codes "-s"
    ∷ (decimal_ℤ f.width ++ (codes "x" ++ decimal_ℤ f.height))
    ∷ codes "-r"
    ∷ (decimal_ℤ f.numerator ++ (codes "/" ++ decimal_ℤ f.denominator))
    ∷ codes "-i"
    ∷ (codes "tcp://127.0.0.1:" ++ decimal_ℤ video_port)
    ∷ codes "-f"
    ∷ codes "f32le"
    ∷ codes "-ar"
    ∷ decimal_ℤ s.audio_sample_rate
    ∷ codes "-ac"
    ∷ decimal_ℤ s.audio_channels
    ∷ codes "-i"
    ∷ (codes "tcp://127.0.0.1:" ++ decimal_ℤ audio_port)
    ∷ codes "-map"
    ∷ codes "0:v:0"
    ∷ codes "-map"
    ∷ codes "1:a:0"
    ∷ []

-- The options of the video encoder, which a copied stream has none of.
unfoldable pub video_args : (VideoFormat → ℕ → ℤ) → StreamSettings → VideoFormat → List Text
unfolding double_bitrate decimal_ℤ same_text
video_args gop s f =
    if same_text s.video_codec (codes "copy")
    then []
    else codes "-preset"
      ∷ s.preset
      ∷ ((if is_empty s.tune then [] else codes "-tune" ∷ s.tune ∷ [])
          ++ (codes "-pix_fmt"
              ∷ codes "yuv420p"
              ∷ codes "-b:v"
              ∷ s.video_bitrate
              ∷ codes "-maxrate"
              ∷ s.video_bitrate
              ∷ codes "-bufsize"
              ∷ double_bitrate s.video_bitrate
              ∷ codes "-g"
              ∷ decimal_ℤ (at_least_one (gop f s.gop_seconds))
              ∷ codes "-sc_threshold"
              ∷ codes "0"
              ∷ []))

unfoldable pub audio_args : StreamSettings → List Text
unfolding same_text
audio_args s =
    if same_text s.audio_codec (codes "copy") then [] else codes "-b:a" ∷ s.audio_bitrate ∷ []

unfoldable pub build_ffmpeg_args :
    (VideoFormat → ℕ → ℤ) → StreamSettings → VideoFormat → ℤ → ℤ → List Text
unfolding input_args video_args audio_args container_for_url
build_ffmpeg_args gop s f video_port audio_port =
    input_args s f video_port audio_port
    ++ (codes "-c:v"
        ∷ s.video_codec
        ∷ (video_args gop s f
            ++ (codes "-c:a"
                ∷ s.audio_codec
                ∷ (audio_args s
                    ++ (s.extra_args
                        ++ (codes "-f"
                            ∷ (if is_empty s.container
                                then container_for_url s.url
                                else s.container)
                            ∷ s.url
                            ∷ []))))))
