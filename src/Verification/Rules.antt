-- ===== src/Verification/Rules.antt =====
-- packages/core/encodr_core/verification/rules.py. Its `language_code` is that of planning.
use encodr.Prelude.{
  ℕ, zero, suc, String, Bool, true, false, not, ◌&&◌, ◌||◌, Option, none, some, List, [], ◌∷◌,
  if◌then◌else◌, ◌==◌, iff, length, any, all, filter, map, is_empty, codes, lower, list_eq, str_eq,
  option_eq, contains_text, ltb,
}
use encodr.Config.{OutputContainer, container_value}
use encodr.Media.{VideoStream, AudioStream, SubtitleStream, MediaFile}
use encodr.Planning.Models.{ProcessingPlan}
use encodr.Planning.Languages.{language_code}

abbrev or_empty : Option String → List ℕ
or_empty none = []
or_empty (some s) = codes s

-- `text.split(",")`: what stands before the first comma, and the rest.
extend_piece : ℕ → List (List ℕ) → List (List ℕ)
extend_piece c [] = (c ∷ []) ∷ []
extend_piece c (piece ∷ pieces) = (c ∷ piece) ∷ pieces

unfoldable pub split_commas : List ℕ → List (List ℕ)
unfolding extend_piece
split_commas [] = [] ∷ []
split_commas (c ∷ cs) =
    let rest = split_commas cs in if c == b',' then [] ∷ rest else extend_piece c rest

unfoldable pub output_container_matches : MediaFile → OutputContainer → Bool
output_container_matches media_file target_container =
    option_eq str_eq media_file.extension (some (container_value target_container))
    || any (list_eq (codes (container_value target_container)))
        (split_commas (or_empty media_file.format_name))

abbrev pub all_listed : List String → List String → Bool
all_listed languages = all (contains_text languages)

unfoldable pub has_required_audio : ProcessingPlan → MediaFile → Bool
has_required_audio plan media_file =
    if is_empty plan.audio.selected_stream_indices
    then true
    else if is_empty plan.audio.required_language_codes
    then media_file.has_english_audio
    else all_listed (map (λ s. language_code s.language) media_file.audio_streams)
        plan.audio.required_language_codes

abbrev pub marked_forced : SubtitleStream → Bool
marked_forced s = s.forced || s.is_forced

unfoldable pub has_required_subtitles : ProcessingPlan → MediaFile → Bool
has_required_subtitles plan media_file =
    let languages = map (λ s. language_code s.language) media_file.subtitle_streams in
    let required = plan.subtitles.required_language_codes in
    let required_forced = plan.subtitles.required_forced_language_codes in
    if is_empty plan.subtitles.selected_stream_indices
    then true
    else if is_empty media_file.subtitle_streams
    then false
    else if not (is_empty required) && not (all_listed languages required)
    then false
    else if not (is_empty plan.subtitles.forced_stream_indices)
    then (if is_empty required_forced
        then media_file.has_forced_english_subtitle
        else all_listed
            (map (λ s. language_code s.language) (filter marked_forced media_file.subtitle_streams))
            required_forced)
    else if not (is_empty required)
    then true
    else contains_text languages "eng"

first_codec_matches : List VideoStream → Option String → Bool
first_codec_matches [] target = false
first_codec_matches (v ∷ vs) none = true
first_codec_matches (v ∷ vs) (some target) = option_eq str_eq v.codec_name (some target)

unfoldable pub has_required_video : ProcessingPlan → MediaFile → Bool
unfolding first_codec_matches
has_required_video plan output_media = required plan.video.primary_stream_index
  where
    required : Option ℕ → Bool
    required none = true
    required (some i) =
        first_codec_matches output_media.video_streams
          (if plan.video.transcode_required then plan.video.target_codec else none)

unfoldable pub has_expected_selected_stream_shape : ProcessingPlan → MediaFile → Bool
has_expected_selected_stream_shape plan output_media =
    length output_media.video_streams == length plan.selected_streams.video_stream_indices
    && (length output_media.audio_streams == length plan.selected_streams.audio_stream_indices
        && (length output_media.subtitle_streams
              == length plan.selected_streams.subtitle_stream_indices
            && (length output_media.attachment_indices
                  == length plan.selected_streams.attachment_stream_indices
                && (length output_media.data_indices
                      == length plan.selected_streams.data_stream_indices
                    && length output_media.unknown_indices
                      == length plan.selected_streams.unknown_stream_indices))))

-- The dictionary from index to stream: of two streams with one index, the later stands.
module _ {A : Type 0} (index : A → ℕ) where
  abbrev or_this : Option A → A → ℕ → Option A
  or_this (some later) s i = some later
  or_this none s i = if index s == i then some s else none

  unfoldable pub by_index : List A → ℕ → Option A
  by_index [] i = none
  by_index (s ∷ ss) i = or_this (by_index ss i) s i

  abbrev keep_found : Option A → List A → List A
  keep_found none rest = rest
  keep_found (some s) rest = s ∷ rest

  unfoldable pub planned_streams : List A → List ℕ → List A
  unfolding by_index
  planned_streams streams [] = []
  planned_streams streams (i ∷ is) = keep_found (by_index streams i) (planned_streams streams is)

unfoldable pub planned_audio_streams : MediaFile → ProcessingPlan → List AudioStream
planned_audio_streams source_media plan =
    planned_streams (λ s. s.index) source_media.audio_streams
      plan.selected_streams.audio_stream_indices

unfoldable pub planned_subtitle_streams : MediaFile → ProcessingPlan → List SubtitleStream
planned_subtitle_streams source_media plan =
    planned_streams (λ s. s.index) source_media.subtitle_streams
      plan.selected_streams.subtitle_stream_indices

unfoldable pub normalised_codec : Option String → List ℕ
normalised_codec value = lower (or_empty value)

unfoldable pub audio_stream_matches : AudioStream → AudioStream → Bool
audio_stream_matches output planned =
    str_eq (language_code output.language) (language_code planned.language)
    && (list_eq (normalised_codec output.codec_name) (normalised_codec planned.codec_name)
        && option_eq ◌==◌ output.channels planned.channels)

unfoldable pub subtitle_stream_matches : SubtitleStream → SubtitleStream → Bool
subtitle_stream_matches output planned =
    str_eq (language_code output.language) (language_code planned.language)
    && (list_eq (normalised_codec output.codec_name) (normalised_codec planned.codec_name)
        && iff (marked_forced output) (marked_forced planned))

-- `all(... for a, b in zip(xs, ys))`
unfoldable pub all_zip : {A : Type 0} → (A → A → Bool) → List A → List A → Bool
all_zip test [] ys = true
all_zip test (x ∷ xs) [] = true
all_zip test (x ∷ xs) (y ∷ ys) = test x y && all_zip test xs ys

unfoldable pub audio_stream_selection_matches_plan : MediaFile → ProcessingPlan → MediaFile → Bool
audio_stream_selection_matches_plan source_media plan output_media =
    let planned = planned_audio_streams source_media plan in
    length planned == length plan.selected_streams.audio_stream_indices
    && (length output_media.audio_streams == length planned
        && all_zip audio_stream_matches output_media.audio_streams planned)

unfoldable pub subtitle_stream_selection_matches_plan :
    MediaFile → ProcessingPlan → MediaFile → Bool
subtitle_stream_selection_matches_plan source_media plan output_media =
    let planned = planned_subtitle_streams source_media plan in
    length planned == length plan.selected_streams.subtitle_stream_indices
    && (length output_media.subtitle_streams == length planned
        && all_zip subtitle_stream_matches output_media.subtitle_streams planned)

abbrev pub next_place : Option ℕ → Option ℕ
next_place none = none
next_place (some n) = some (suc n)

-- `indices.index(i)`, with `none` where it raises.
unfoldable pub position : List ℕ → ℕ → Option ℕ
position [] i = none
position (x ∷ xs) i = let rest = position xs i in if x == i then some zero else next_place rest

-- Of these dispositions, counted from `n`, the one at `place` is set, and no other.
unfoldable pub only_default : ℕ → ℕ → List Bool → Bool
only_default place n [] = true
only_default place n (d ∷ ds) = iff d (n == place) && only_default place (suc n) ds

abbrev pub no_default : List Bool → Bool
no_default ds = not (any (λ d. d) ds)

abbrev pub default_at : Option ℕ → List Bool → Bool
default_at none ds = false
default_at (some place) ds = only_default place zero ds

abbrev pub primary_source_index : Option ℕ → ℕ → ℕ
primary_source_index none first = first
primary_source_index (some primary) first = primary

abbrev pub primary_default_matches : Option ℕ → List ℕ → List Bool → Bool
primary_default_matches primary [] defaults = no_default defaults
primary_default_matches primary (first ∷ rest) defaults =
    default_at (position (first ∷ rest) (primary_source_index primary first)) defaults

unfoldable pub audio_default_disposition_matches_plan : ProcessingPlan → MediaFile → Bool
audio_default_disposition_matches_plan plan output_media =
    primary_default_matches plan.audio.primary_stream_index
      plan.selected_streams.audio_stream_indices (map (λ s. s.default) output_media.audio_streams)

abbrev pub main_default_matches : Option ℕ → List ℕ → List Bool → Bool
main_default_matches none indices defaults = no_default defaults
main_default_matches (some main) indices defaults = default_at (position indices main) defaults

unfoldable pub subtitle_default_disposition_matches_plan : ProcessingPlan → MediaFile → Bool
subtitle_default_disposition_matches_plan plan output_media =
    let defaults = map (λ s. s.default) output_media.subtitle_streams in
    if is_empty plan.selected_streams.subtitle_stream_indices
    then no_default defaults
    else main_default_matches plan.subtitles.main_stream_index
        plan.selected_streams.subtitle_stream_indices defaults

unfoldable pub retains_required_4k : MediaFile → ProcessingPlan → MediaFile → Bool
retains_required_4k source_media plan output_media =
    if not source_media.is_4k
    then true
    else if not plan.video.preserve_original
    then true
    else output_media.is_4k

unfoldable pub retains_required_surround : ProcessingPlan → MediaFile → Bool
retains_required_surround plan output_media =
    if is_empty plan.audio.preserved_surround_stream_indices
    then true
    else output_media.has_surround_audio

unfoldable pub retains_required_atmos : ProcessingPlan → MediaFile → Bool
retains_required_atmos plan output_media =
    if is_empty plan.audio.preserved_atmos_stream_indices
    then true
    else output_media.has_atmos_capable_audio

-- The size of the regular file at the path, if there is one.
unfoldable pub is_non_empty_output : Option ℕ → Bool
is_non_empty_output none = false
is_non_empty_output (some size) = ltb zero size
