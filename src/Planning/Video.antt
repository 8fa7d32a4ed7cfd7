-- ===== src/Planning/Video.antt =====
-- The video plan of packages/core/encodr_core/planning/planner.py.
pub mod Required
use encodr.Prelude.{
  ℕ, ◌*◌, String, Bool, true, false, not, ◌&&◌, ◌||◌, Option, none, some, List, [], ◌∷◌, ◌++◌,
  if◌then◌else◌, ltb, length, str_eq, is_none,
}
use encodr.Config.{VideoRules, FourKVideoRules, NonFourKVideoRules, is_strip_only, codec_value}
use encodr.Media.{VideoStream, MediaFile}
use encodr.Media.Quality.{
  low_bitrate_threshold_bps, minimum_output_bitrate_bps, is_low_bitrate_source,
}
use encodr.Planning.Models.{
  VideoPlan, PlanReason, MetadataValue, preserve, transcode_to_policy, number, text, four_k_mode,
  formatted_bitrate, make_reason,
}

-- A plan, its reasons, and whether it asks for manual review.
abbrev pub VideoResult : Type 0
VideoResult = VideoPlan × List PlanReason × Bool

-- `codec_name != target_codec`
unfoldable pub codec_differs : Option String → String → Bool
codec_differs none target = true
codec_differs (some codec) target = not (str_eq codec target)

abbrev pub exceeds : Option ℕ → ℕ → Bool
exceeds none limit = false
exceeds (some n) limit = ltb limit n

ambiguous_video : MediaFile → VideoResult
ambiguous_video media_file = (
  record {
    primary_stream_index = none;
    handling = preserve;
    preserve_original = true;
    target_codec = none;
    transcode_required = false;
    quality_mode = none;
    quality_crf = none;
    source_bitrate_bps = none;
    low_bitrate_skip_threshold_bps = none;
    minimum_output_bitrate_bps = none;
    max_allowed_video_reduction_percent = none;
    output_larger_than_input_review_percent = none;
  },
  make_reason "manual_review_video_stream_ambiguity"
        (("stream_count", number (some (length media_file.video_streams))) ∷ [])
      ∷ [],
  true,
)

module _ (v : VideoStream) where
  -- The plan of a 4K stream with its target codec, and whether it is to be encoded anew.
  four_k_plan : FourKVideoRules → Option String → Bool → VideoPlan
  four_k_plan rules target_codec transcode_required = record {
    primary_stream_index = some v.index;
    handling = if transcode_required then transcode_to_policy else preserve;
    preserve_original = not transcode_required;
    target_codec = target_codec;
    transcode_required = transcode_required;
    quality_mode = some rules.quality_mode;
    quality_crf = rules.quality_crf;
    source_bitrate_bps = v.bit_rate;
    low_bitrate_skip_threshold_bps = none;
    minimum_output_bitrate_bps =
        minimum_output_bitrate_bps v rules.minimum_output_bitrate_1080p
          rules.minimum_output_bitrate_720p;
    max_allowed_video_reduction_percent = some rules.max_video_reduction_percent;
    output_larger_than_input_review_percent = rules.output_larger_than_input_review_percent;
  }

  reduction_limit_reason : ℕ → Option ℕ → PlanReason
  reduction_limit_reason max_video_reduction_percent minimum =
      make_reason "video_reduction_limit_applies" (
        ("max_allowed_video_reduction_percent", number (some max_video_reduction_percent))
        ∷ ("minimum_output_bitrate_bps", number minimum)
        ∷ [])

  unfoldable pub build_4k_video_plan : VideoRules → VideoResult
  unfolding four_k_plan reduction_limit_reason codec_differs
  build_4k_video_plan video_rules =
      let rules = video_rules.four_k in
      let target_codec : String = codec_value rules.preferred_codec in
      let transcode_required = codec_differs v.codec_name target_codec in
      if is_strip_only rules.mode && not rules.allow_transcode
      then (
        four_k_plan rules v.codec_name false,
        make_reason "video_preserved_for_4k_policy" (("stream_index", number (some v.index)) ∷ [])
            ∷ [],
        false,
      )
      else if not rules.allow_transcode
      then (
        four_k_plan rules v.codec_name false,
        make_reason "manual_review_unsupported_4k_policy_mode"
              (("mode", four_k_mode rules.mode) ∷ [])
            ∷ [],
        true,
      )
      else (
        four_k_plan rules (some target_codec) transcode_required,
        (if transcode_required
            then make_reason "video_transcode_required_for_4k_policy_codec" (
                ("source_codec", text v.codec_name)
                ∷ ("target_codec", text (some target_codec))
                ∷ [])
              ∷ reduction_limit_reason rules.max_video_reduction_percent (
                  minimum_output_bitrate_bps v rules.minimum_output_bitrate_1080p
                    rules.minimum_output_bitrate_720p)
              ∷ []
            else []),
        false,
      )

  module _ (rules : NonFourKVideoRules) where
    unfoldable pub low_threshold : Option ℕ
    low_threshold =
        low_bitrate_threshold_bps v rules.low_bitrate_skip_threshold_1080p
          rules.low_bitrate_skip_threshold_720p

    unfoldable pub low_bitrate_source : Bool
    low_bitrate_source = is_low_bitrate_source v low_threshold

    max_bitrate : ℕ
    max_bitrate = rules.max_video_bitrate_mbps * 1_000_000

    unfoldable pub codec_requires : Bool
    codec_requires =
        not low_bitrate_source && codec_differs v.codec_name (codec_value rules.preferred_codec)

    unfoldable pub bitrate_requires : Bool
    unfolding max_bitrate
    bitrate_requires = not low_bitrate_source && exceeds v.bit_rate max_bitrate

    unfoldable pub width_requires : Bool
    width_requires = not low_bitrate_source && exceeds v.width rules.max_width

    unfoldable pub non_4k_transcode_required : Bool
    non_4k_transcode_required = codec_requires || bitrate_requires || width_requires

    minimum_output : Option ℕ
    minimum_output =
        minimum_output_bitrate_bps v rules.minimum_output_bitrate_1080p
          rules.minimum_output_bitrate_720p

    abbrev when : Bool → String → List (String × MetadataValue) → List PlanReason
    when test code metadata = if test then make_reason code metadata ∷ [] else []

    non_4k_reasons : List PlanReason
    unfolding max_bitrate minimum_output reduction_limit_reason
    non_4k_reasons =
        when low_bitrate_source "video_skip_low_bitrate_source" (
          ("source_bitrate_bps", number v.bit_rate)
          ∷ ("low_bitrate_skip_threshold_bps", number low_threshold)
          ∷ ("source_bitrate", formatted_bitrate v.bit_rate)
          ∷ ("threshold", formatted_bitrate low_threshold)
          ∷ [])
        ++ (when codec_requires "video_transcode_required_for_policy_codec" (
              ("source_codec", text v.codec_name)
              ∷ ("target_codec", text (some (codec_value rules.preferred_codec)))
              ∷ [])
            ++ (when bitrate_requires "video_transcode_required_for_policy_bitrate" (
                  ("bit_rate", number v.bit_rate)
                  ∷ ("max_bit_rate", number (some max_bitrate))
                  ∷ [])
                ++ (when width_requires "video_transcode_required_for_policy_width" (
                      ("width", number v.width) ∷ ("max_width", number (some rules.max_width)) ∷ [])
                    ++ (if non_4k_transcode_required
                        then reduction_limit_reason rules.max_video_reduction_percent minimum_output
                          ∷ when (not (is_none rules.output_larger_than_input_review_percent))
                              "output_larger_than_input_guard_applies"
                              ((
                                "output_larger_than_input_review_percent",
                                number rules.output_larger_than_input_review_percent,
                              )
                                ∷ [])
                        else []))))

  unfoldable pub build_non_4k_video_plan : VideoRules → VideoResult
  unfolding minimum_output non_4k_reasons
  build_non_4k_video_plan video_rules =
      let rules = video_rules.non_4k in
      let transcode_required = non_4k_transcode_required rules in
      (
        record {
          primary_stream_index = some v.index;
          handling = if transcode_required then transcode_to_policy else preserve;
          preserve_original = not transcode_required;
          target_codec = some (codec_value rules.preferred_codec);
          transcode_required = transcode_required;
          quality_mode = some rules.quality_mode;
          quality_crf = rules.quality_crf;
          source_bitrate_bps = v.bit_rate;
          low_bitrate_skip_threshold_bps = low_threshold rules;
          minimum_output_bitrate_bps = minimum_output rules;
          max_allowed_video_reduction_percent = some rules.max_video_reduction_percent;
          output_larger_than_input_review_percent = rules.output_larger_than_input_review_percent;
        },
        non_4k_reasons rules,
        false,
      )

-- A file with any number of video streams but one is ambiguous.
unfoldable pub video_plan_of : List VideoStream → MediaFile → VideoRules → VideoResult
unfolding ambiguous_video
video_plan_of (v ∷ []) media_file rules =
    if media_file.is_4k then build_4k_video_plan v rules else build_non_4k_video_plan v rules
video_plan_of _ media_file rules = ambiguous_video media_file

unfoldable pub build_video_plan : MediaFile → VideoRules → VideoResult
unfolding video_plan_of
build_video_plan media_file rules = video_plan_of media_file.video_streams media_file rules
