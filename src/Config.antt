-- ===== src/Config.antt =====
-- packages/core/encodr_core/config: the policy (policy.py), its enumerations (base.py) and the
-- checks that its models make of themselves. The thresholds and floors in Mbps stand as bits per second.
use encodr.Prelude.{ℕ, String, Bool, true, false, not, ◌&&◌, Option, List, [], ◌∷◌, any}

pub data OutputContainer : Type 0 where
  mkv mp4 : OutputContainer

pub data PolicyDecision : Type 0 where
  skip remux transcode : PolicyDecision

pub data VideoCodec : Type 0 where
  h264 hevc av1 mpeg2 vp9 : VideoCodec

pub data VideoQualityMode : Type 0 where
  high_quality balanced efficient : VideoQualityMode

pub data FourKMode : Type 0 where
  strip_only policy_controlled : FourKMode

abbrev pub container_value : OutputContainer → String
container_value mkv = "mkv"
container_value mp4 = "mp4"

abbrev pub codec_value : VideoCodec → String
codec_value h264 = "h264"
codec_value hevc = "hevc"
codec_value av1 = "av1"
codec_value mpeg2 = "mpeg2"
codec_value vp9 = "vp9"

abbrev pub is_strip_only : FourKMode → Bool
is_strip_only strip_only = true
is_strip_only policy_controlled = false

abbrev pub same_decision : PolicyDecision → PolicyDecision → Bool
same_decision skip skip = true
same_decision remux remux = true
same_decision transcode transcode = true
same_decision _ _ = false

-- `decision in order`
abbrev pub allows : List PolicyDecision → PolicyDecision → Bool
allows order decision = any (same_decision decision) order

-- The fields that the planner reads.
pub record LanguagePreferences : Type 0 where
  pub preserve_forced_subtitles : Bool
  pub drop_undetermined_audio : Bool

pub record SubtitleRules : Type 0 where
  pub keep_languages : List String
  pub keep_forced_languages : List String
  pub keep_commentary : Bool
  pub keep_hearing_impaired : Bool
  pub keep_one_full_preferred_subtitle : Bool
  pub drop_other_subtitles : Bool

pub record AudioRules : Type 0 where
  pub keep_languages : List String
  pub keep_only_preferred_languages : Bool
  pub preserve_best_surround : Bool
  pub preserve_seven_one : Bool
  pub preserve_atmos_capable : Bool
  pub preferred_codecs : List String
  pub allow_commentary : Bool
  pub max_tracks_to_keep : ℕ

pub record NonFourKVideoRules : Type 0 where
  pub decision_order : List PolicyDecision
  pub preferred_codec : VideoCodec
  pub allow_transcode : Bool
  pub quality_mode : VideoQualityMode
  pub quality_crf : Option ℕ
  pub max_video_reduction_percent : ℕ
  pub max_video_bitrate_mbps : ℕ
  pub max_width : ℕ
  pub low_bitrate_skip_threshold_1080p : ℕ
  pub low_bitrate_skip_threshold_720p : ℕ
  pub minimum_output_bitrate_1080p : ℕ
  pub minimum_output_bitrate_720p : ℕ
  pub output_larger_than_input_review_percent : Option ℕ

pub record FourKVideoRules : Type 0 where
  pub mode : FourKMode
  pub preferred_codec : VideoCodec
  pub preserve_original_video : Bool
  pub preserve_original_audio : Bool
  pub allow_transcode : Bool
  pub quality_mode : VideoQualityMode
  pub quality_crf : Option ℕ
  pub max_video_reduction_percent : ℕ
  pub minimum_output_bitrate_1080p : ℕ
  pub minimum_output_bitrate_720p : ℕ
  pub output_larger_than_input_review_percent : Option ℕ
  pub remove_non_english_audio : Bool
  pub remove_non_english_subtitles : Bool

pub record VideoRules : Type 0 where
  pub output_container : OutputContainer
  pub non_4k : NonFourKVideoRules
  pub four_k : FourKVideoRules

pub record ReplacementRules : Type 0 where
  pub in_place : Bool
  pub require_verification : Bool
  pub keep_original_until_verified : Bool
  pub delete_replaced_source : Bool

-- The model validators: `true` is a model that is accepted.
unique_decisions : List PolicyDecision → Bool
unique_decisions [] = true
unique_decisions (d ∷ ds) = not (allows ds d) && unique_decisions ds

unfoldable pub validate_non_4k : NonFourKVideoRules → Bool
unfolding unique_decisions
validate_non_4k r =
    unique_decisions r.decision_order
    && not (not r.allow_transcode && allows r.decision_order transcode)

unfoldable pub validate_mode : FourKVideoRules → Bool
validate_mode r = not (is_strip_only r.mode && r.allow_transcode)

unfoldable pub validate_replacement_safety : ReplacementRules → Bool
validate_replacement_safety r = not (r.delete_replaced_source && not r.require_verification)
