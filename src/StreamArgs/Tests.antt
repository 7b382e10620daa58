-- ===== src/StreamArgs/Tests.antt =====
-- The arguments of the stream encoder on concrete settings.
use weblinked.Base.{◌≡◌, refl, none, some, ◌++◌}
use weblinked.Base.Text.{Text, codes, digits}
use weblinked.StreamArgs.{
  find_scheme, find_slash, find_path, redact_stream_url, double_bitrate, container_for_url,
}
use weblinked.StreamArgs.Redaction.{redact_hides}

abbrev front : Text
front = codes "rtmp://host:1935/live"

front_scheme : find_scheme front ≡ some 4
unfolding find_scheme
front_scheme = refl

front_path : find_path front ≡ some 16
unfolding find_path
front_path = refl

key_segment : find_slash (codes "abcd-efgh") 0 ≡ none
unfolding find_slash
key_segment = refl

redact_hides_example : redact_stream_url (front ++ codes "/abcd-efgh") ≡ front ++ codes "/<key>"
redact_hides_example =
    redact_hides front (codes "abcd-efgh") 4 16 front_scheme front_path key_segment refl

-- A slash behind the key, in the query, leaves the key in sight.
key_in_sight :
    redact_stream_url (codes "rtmp://host/live/secret?t=a/b")
    ≡ codes "rtmp://host/live/secret?t=a/<key>"
unfolding redact_stream_url
key_in_sight = refl

-- So does a path that is the key alone.
lone_key_in_sight : redact_stream_url (codes "rtmp://host/secret") ≡ codes "rtmp://host/secret"
unfolding redact_stream_url
lone_key_in_sight = refl

doubles : double_bitrate (codes "6000k") ≡ codes "12000k"
unfolding double_bitrate digits
doubles = refl

keeps_words : double_bitrate (codes "fast") ≡ codes "fast"
unfolding double_bitrate
keeps_words = refl

srt_is_mpegts : container_for_url (codes "SRT://host:6000") ≡ codes "mpegts"
unfolding container_for_url
srt_is_mpegts = refl
