-- ===== src/Execution/Metrics.antt =====
-- packages/core/encodr_core/execution/metrics.py: what an encoding saved. A duration is in microseconds, and
-- the products of floats stand as quotients of whole numbers. Texts that name a missing value are left out.
use encodr.Prelude.{
  ℕ, ◌+◌, ◌-◌, ◌*◌, ◌/◌, Bool, true, Option, none, some, List, [], ◌∷◌, if◌then◌else◌, ◌==◌, ltb,
}
use encodr.Jobs.Models.{ℤ, pos, negsuc}
use encodr.Jobs.Policies.{subtract}

-- A stream: its index, and the bit rate that ffprobe reported.
pub record MeasuredStream : Type 0 where
  pub index : ℕ
  pub bit_rate : Option ℕ

-- A media file, as far as it is measured. The packet sizes, by stream, are what a second run of ffprobe
-- counts, if it is made.
pub record MeasuredMedia : Type 0 where
  pub size_bytes : Option ℕ
  pub duration : Option ℕ
  pub video_streams : List MeasuredStream
  pub other_streams : List MeasuredStream
  pub packet_sizes : Option (List (ℕ × ℕ))

abbrev pub is_zero_or_none : Option ℕ → Bool
is_zero_or_none none = true
is_zero_or_none (some n) = n == 0

-- `int((bit_rate * duration) / 8)`
abbrev pub bytes_of_rate : ℕ → ℕ → ℕ
bytes_of_rate bit_rate duration = bit_rate * duration / 8_000_000

-- The loop of `estimate_stream_size_from_bitrate`: the total so far, when some stream had a rate.
abbrev pub add_rate : ℕ → Option ℕ → Option ℕ → Option ℕ
add_rate duration total none = total
add_rate duration none (some rate) = some (bytes_of_rate rate duration)
add_rate duration (some total) (some rate) = some (total + bytes_of_rate rate duration)

abbrev pub total_of_rates : ℕ → Option ℕ → List MeasuredStream → Option ℕ
total_of_rates duration total [] = total
total_of_rates duration total (s ∷ streams) =
    total_of_rates duration (add_rate duration total s.bit_rate) streams

unfoldable pub estimate_stream_size_from_bitrate : Option ℕ → List MeasuredStream → Option ℕ
estimate_stream_size_from_bitrate none streams = none
estimate_stream_size_from_bitrate (some duration) streams =
    if duration == 0 then none else total_of_rates duration none streams

abbrev pub packet_size : List (ℕ × ℕ) → ℕ → Option ℕ
packet_size [] index = none
packet_size ((i, size) ∷ sizes) index =
    let rest = packet_size sizes index in if i == index then some size else rest

abbrev pub add_size : Option ℕ → Option ℕ → Option ℕ
add_size none total = total
add_size (some n) none = some n
add_size (some n) (some total) = some (n + total)

-- The indices of a class of streams are distinct.
unfoldable pub sum_packet_sizes_if_present : List (ℕ × ℕ) → List MeasuredStream → Option ℕ
sum_packet_sizes_if_present sizes [] = none
sum_packet_sizes_if_present sizes (s ∷ streams) =
    add_size (packet_size sizes s.index) (sum_packet_sizes_if_present sizes streams)

-- `value if value is not None else fallback`
abbrev pub or_else : Option ℕ → Option ℕ → Option ℕ
or_else none fallback = fallback
or_else (some n) fallback = some n

abbrev pub from_packets : Option (List (ℕ × ℕ)) → List MeasuredStream → Option ℕ
from_packets none streams = none
from_packets (some sizes) streams = sum_packet_sizes_if_present sizes streams

-- `max(total - part, 0)` where both are there.
abbrev pub remainder_of : Option ℕ → Option ℕ → Option ℕ
remainder_of (some total) (some part) = some (total - part)
remainder_of (some total) none = none
remainder_of none part = none

pub record ClassSizes : Type 0 where
  pub video : Option ℕ
  pub non_video : Option ℕ

-- `estimate_stream_class_sizes`
unfoldable pub estimate_stream_class_sizes : MeasuredMedia → ClassSizes
estimate_stream_class_sizes m =
    let video =
      or_else (estimate_stream_size_from_bitrate m.duration m.video_streams)
        (from_packets m.packet_sizes m.video_streams) in
    let non_video =
      or_else (estimate_stream_size_from_bitrate m.duration m.other_streams)
        (from_packets m.packet_sizes m.other_streams) in
    let video' = or_else video (remainder_of m.size_bytes non_video) in
    record { video = video'; non_video = or_else non_video (remainder_of m.size_bytes video') }

abbrev pub difference : Option ℕ → Option ℕ → Option ℤ
difference (some a) (some b) = some (subtract a b)
difference (some a) none = none
difference none b = none

-- `max(total - part, 0)`, the part with a sign.
abbrev pub less_part : ℕ → ℤ → ℤ
less_part total (pos n) = pos (total - n)
less_part total (negsuc n) = pos (total + n + 1)

abbrev pub or_rest : Option ℤ → Option ℕ → Option ℤ → Option ℤ
or_rest (some saved) total part = some saved
or_rest none (some total) (some part) = some (less_part total part)
or_rest none (some total) none = none
or_rest none none part = none

-- `(saved / size) * 100.0`, as the two numbers.
pub record Reduction : Type 0 where
  pub saved : ℤ
  pub size : ℕ

abbrev pub reduction_of : Option ℕ → Option ℤ → Option Reduction
reduction_of (some size) (some saved) =
    if size == 0 then none else some (record { saved = saved; size = size })
reduction_of (some size) none = none
reduction_of none saved = none

abbrev pub first_video_bitrate : List MeasuredStream → Option ℕ
first_video_bitrate [] = none
first_video_bitrate (s ∷ streams) = s.bit_rate

-- `int(round((size * 8) / duration))`, half to even.
abbrev pub round_quotient : ℕ → ℕ → ℕ
round_quotient a b =
    let q = a / b in
    let twice = 2 * (a - q * b) in
    if ltb twice b then q else if ltb b twice then q + 1 else q + (q - 2 * (q / 2))

-- The rate when ffprobe reported none.
abbrev pub derived_bitrate : Option ℕ → Option ℕ → Option ℕ
derived_bitrate (some size) (some duration) =
    if duration == 0 then none else some (round_quotient (size * 8_000_000) duration)
derived_bitrate (some size) none = none
derived_bitrate none duration = none

-- `measure_video_bitrate`, its value.
unfoldable pub measure_video_bitrate : MeasuredMedia → Option ℕ → Option ℕ
measure_video_bitrate m video_size_bytes =
    or_else (first_video_bitrate m.video_streams) (derived_bitrate video_size_bytes m.duration)

-- The numbers of the dictionary that `calculate_media_savings` returns.
pub record MediaSavings : Type 0 where
  pub input_size_bytes : Option ℕ
  pub output_size_bytes : Option ℕ
  pub space_saved_bytes : Option ℕ
  pub video_input_size_bytes : Option ℕ
  pub video_output_size_bytes : Option ℕ
  pub video_space_saved_bytes : Option ℤ
  pub non_video_space_saved_bytes : Option ℤ
  pub source_video_bitrate_bps : Option ℕ
  pub output_video_bitrate_bps : Option ℕ
  pub compression_reduction : Option Reduction

unfoldable pub calculate_media_savings : MeasuredMedia → MeasuredMedia → MediaSavings
calculate_media_savings source output =
    let total_saved = remainder_of source.size_bytes output.size_bytes in
    let source_sizes = estimate_stream_class_sizes source in
    let output_sizes = estimate_stream_class_sizes output in
    let non_video_saved = difference source_sizes.non_video output_sizes.non_video in
    let video_saved =
      or_rest (difference source_sizes.video output_sizes.video) total_saved non_video_saved in
    record {
      input_size_bytes = source.size_bytes;
      output_size_bytes = output.size_bytes;
      space_saved_bytes = total_saved;
      video_input_size_bytes = source_sizes.video;
      video_output_size_bytes = output_sizes.video;
      video_space_saved_bytes = video_saved;
      non_video_space_saved_bytes = or_rest non_video_saved total_saved video_saved;
      source_video_bitrate_bps = measure_video_bitrate source source_sizes.video;
      output_video_bitrate_bps = measure_video_bitrate output output_sizes.video;
      compression_reduction = reduction_of source_sizes.video video_saved;
    }
