-- ===== src/Execution/Examples.antt =====
-- A small film and its plan, for the tests of what packages/core/encodr_core/execution does.
use encodr.Prelude.{true, false, some, none, [], ◌∷◌}
use encodr.Config.{mkv}
use encodr.Media.{MediaFile}
use encodr.Planning.Models.{
  PlanAction, ConfidenceLevel, VideoHandling, ContainerHandling, VideoPlan, ProcessingPlan,
}
use encodr.Planning.Examples.{video, english}

abbrev pub film : MediaFile
film = record {
  file_name = "Film.avi";
  extension = some "mkv";
  format_name = some "matroska,webm";
  video_streams = video "hevc" ∷ [];
  audio_streams = english ∷ [];
  subtitle_streams = [];
  attachment_indices = [];
  data_indices = [];
  unknown_indices = [];
  is_4k = false;
  is_hdr_candidate = false;
  has_english_audio = true;
  has_forced_english_subtitle = false;
  has_surround_audio = true;
  has_atmos_capable_audio = true;
}

abbrev pub video_plan : VideoPlan
video_plan = record {
  primary_stream_index = some 0;
  handling = VideoHandling.transcode_to_policy;
  preserve_original = false;
  target_codec = some "hevc";
  transcode_required = true;
  quality_mode = none;
  quality_crf = none;
  source_bitrate_bps = some 8_000_000;
  low_bitrate_skip_threshold_bps = none;
  minimum_output_bitrate_bps = some 1_750_000;
  max_allowed_video_reduction_percent = some 35;
  output_larger_than_input_review_percent = some 5;
}

abbrev pub plan : ProcessingPlan
plan = record {
  action = PlanAction.transcode;
  summary = record {
    action = PlanAction.transcode;
    confidence = ConfidenceLevel.high;
    is_already_compliant = false;
    should_treat_as_protected = false;
  };
  selected_streams = record {
    video_stream_indices = 0 ∷ [];
    audio_stream_indices = 1 ∷ [];
    subtitle_stream_indices = [];
    attachment_stream_indices = [];
    data_stream_indices = [];
    unknown_stream_indices = [];
  };
  audio = record {
    selected_stream_indices = 1 ∷ [];
    dropped_stream_indices = [];
    required_language_codes = "eng" ∷ [];
    primary_stream_index = some 1;
    preserved_atmos_stream_indices = 1 ∷ [];
    preserved_surround_stream_indices = 1 ∷ [];
    commentary_removed_stream_indices = [];
    available_preferred_language_stream_indices = 1 ∷ [];
    missing_required_audio = false;
  };
  subtitles = record {
    selected_stream_indices = [];
    dropped_stream_indices = [];
    required_language_codes = [];
    required_forced_language_codes = [];
    forced_stream_indices = [];
    main_stream_index = none;
    hearing_impaired_stream_indices = [];
    ambiguous_forced_stream_indices = [];
  };
  video = video_plan;
  container = record {
    source_extension = some "avi";
    target_container = mkv;
    handling = ContainerHandling.remux_to_target;
    change_required = true;
  };
  replace = record {
    in_place = true;
    require_verification = true;
    keep_original_until_verified = true;
    delete_replaced_source = true;
    existing_backup_strategy = "fail";
  };
  reasons = [];
  warnings = [];
  confidence = ConfidenceLevel.high;
  is_already_compliant = false;
  should_treat_as_protected = false;
}
