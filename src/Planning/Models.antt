-- ===== src/Planning/Models.antt =====
-- packages/core/encodr_core/planning/models.py, enums.py and reasons.py. The message of a reason or
-- a warning is a fixed text beside its code and is left out; a rate that `format_bitrate` prints
-- stands as the rate.
use encodr.Prelude.{ℕ, String, Bool, Option, List}
use encodr.Config.{OutputContainer, VideoQualityMode, FourKMode}

pub data PlanAction : Type 0 where
  skip remux transcode manual_review : PlanAction

pub data ConfidenceLevel : Type 0 where
  high medium low : ConfidenceLevel

pub data VideoHandling : Type 0 where
  preserve transcode_to_policy : VideoHandling

pub data ContainerHandling : Type 0 where
  preserve remux_to_target : ContainerHandling

-- A value of the metadata of a reason.
pub data MetadataValue : Type 0 where
  stream_indices : List ℕ → MetadataValue
  number : Option ℕ → MetadataValue
  text : Option String → MetadataValue
  four_k_mode : FourKMode → MetadataValue
  formatted_bitrate : Option ℕ → MetadataValue

pub record PlanReason : Type 0 where
  pub code : String
  pub metadata : List (String × MetadataValue)

pub record PlanWarning : Type 0 where
  pub code : String
  pub metadata : List (String × MetadataValue)

abbrev pub make_reason : String → List (String × MetadataValue) → PlanReason
make_reason code metadata = record { code = code; metadata = metadata }

abbrev pub make_warning : String → List (String × MetadataValue) → PlanWarning
make_warning code metadata = record { code = code; metadata = metadata }

pub record SelectedStreamSet : Type 0 where
  pub video_stream_indices : List ℕ
  pub audio_stream_indices : List ℕ
  pub subtitle_stream_indices : List ℕ
  pub attachment_stream_indices : List ℕ
  pub data_stream_indices : List ℕ
  pub unknown_stream_indices : List ℕ

pub record AudioSelectionIntent : Type 0 where
  pub selected_stream_indices : List ℕ
  pub dropped_stream_indices : List ℕ
  pub required_language_codes : List String
  pub primary_stream_index : Option ℕ
  pub preserved_atmos_stream_indices : List ℕ
  pub preserved_surround_stream_indices : List ℕ
  pub commentary_removed_stream_indices : List ℕ
  pub available_preferred_language_stream_indices : List ℕ
  pub missing_required_audio : Bool

pub record SubtitleSelectionIntent : Type 0 where
  pub selected_stream_indices : List ℕ
  pub dropped_stream_indices : List ℕ
  pub required_language_codes : List String
  pub required_forced_language_codes : List String
  pub forced_stream_indices : List ℕ
  pub main_stream_index : Option ℕ
  pub hearing_impaired_stream_indices : List ℕ
  pub ambiguous_forced_stream_indices : List ℕ

pub record VideoPlan : Type 0 where
  pub primary_stream_index : Option ℕ
  pub handling : VideoHandling
  pub preserve_original : Bool
  pub target_codec : Option String
  pub transcode_required : Bool
  pub quality_mode : Option VideoQualityMode
  pub quality_crf : Option ℕ
  pub source_bitrate_bps : Option ℕ
  pub low_bitrate_skip_threshold_bps : Option ℕ
  pub minimum_output_bitrate_bps : Option ℕ
  pub max_allowed_video_reduction_percent : Option ℕ
  pub output_larger_than_input_review_percent : Option ℕ

pub record ContainerPlan : Type 0 where
  pub source_extension : Option String
  pub target_container : OutputContainer
  pub handling : ContainerHandling
  pub change_required : Bool

pub record ReplacePlan : Type 0 where
  pub in_place : Bool
  pub require_verification : Bool
  pub keep_original_until_verified : Bool
  pub delete_replaced_source : Bool
  pub existing_backup_strategy : String

pub record PlanSummary : Type 0 where
  pub action : PlanAction
  pub confidence : ConfidenceLevel
  pub is_already_compliant : Bool
  pub should_treat_as_protected : Bool

-- The rename plan and the policy's name stand in no decision and are left out.
pub record ProcessingPlan : Type 0 where
  pub action : PlanAction
  pub summary : PlanSummary
  pub selected_streams : SelectedStreamSet
  pub audio : AudioSelectionIntent
  pub subtitles : SubtitleSelectionIntent
  pub video : VideoPlan
  pub container : ContainerPlan
  pub replace : ReplacePlan
  pub reasons : List PlanReason
  pub warnings : List PlanWarning
  pub confidence : ConfidenceLevel
  pub is_already_compliant : Bool
  pub should_treat_as_protected : Bool
