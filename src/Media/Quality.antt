-- ===== src/Media/Quality.antt =====
-- packages/core/encodr_core/media/quality.py. A rate in Mbps is a float of the configuration; it
-- stands here as the whole number of bits per second that it rounds to.
use encodr.Prelude.{ℕ, zero, suc, Bool, false, Option, none, some, ltb, leb, if◌then◌else◌}
use encodr.Media.{VideoStream}

-- Python's `a or b` on optional integers: 0 counts as absent.
abbrev pub or_else : Option ℕ → Option ℕ → Option ℕ
or_else none b = b
or_else (some zero) b = b
or_else (some (suc n)) b = some (suc n)

pub data Bucket : Type 0 where
  p720 p1080 : Bucket

abbrev pub mbps_to_bps : Option ℕ → Option ℕ
mbps_to_bps value = value

abbrev pub stream_height : VideoStream → Option ℕ
stream_height v = or_else v.height v.coded_height

bucket_of_width : Option ℕ → Bucket
bucket_of_width none = p1080
bucket_of_width (some w) = if leb w 1280 then p720 else p1080

bucket_of_height : Option ℕ → Option ℕ → Bucket
unfolding bucket_of_width
bucket_of_height none width = bucket_of_width width
bucket_of_height (some h) width = if leb h 720 then p720 else p1080

unfoldable pub resolution_bucket : VideoStream → Bucket
unfolding bucket_of_height
resolution_bucket v = bucket_of_height (stream_height v) (or_else v.width v.coded_width)

abbrev pub by_bucket : Bucket → ℕ → ℕ → ℕ
by_bucket p720 at_1080p at_720p = at_720p
by_bucket p1080 at_1080p at_720p = at_1080p

unfoldable pub low_bitrate_threshold_bps : VideoStream → ℕ → ℕ → Option ℕ
low_bitrate_threshold_bps v threshold_1080p threshold_720p =
    mbps_to_bps (some (by_bucket (resolution_bucket v) threshold_1080p threshold_720p))

unfoldable pub minimum_output_bitrate_bps : VideoStream → ℕ → ℕ → Option ℕ
minimum_output_bitrate_bps v floor_1080p floor_720p =
    mbps_to_bps (some (by_bucket (resolution_bucket v) floor_1080p floor_720p))

abbrev pub below : Option ℕ → Option ℕ → Bool
below (some rate) (some threshold) = ltb rate threshold
below none _ = false
below (some rate) none = false

unfoldable pub is_low_bitrate_source : VideoStream → Option ℕ → Bool
is_low_bitrate_source v threshold_bps = below v.bit_rate threshold_bps
