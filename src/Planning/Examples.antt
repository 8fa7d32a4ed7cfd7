-- ===== src/Planning/Examples.antt =====
-- Files and policies that the planner is run on.
use encodr.Prelude.{String, true, false, none, some, [], ◌∷◌}
use encodr.Config.{
  mkv, hevc, PolicyDecision, balanced, strip_only, LanguagePreferences, SubtitleRules, AudioRules,
  NonFourKVideoRules, FourKVideoRules,
}
use encodr.Media.{VideoStream, AudioStream, SubtitleStream, MediaFile}
use encodr.Planning.Planner.{ResolvedPolicy}

abbrev pub english : AudioStream
english = record {
  index = 1;
  codec_name = some "truehd";
  language = some "eng";
  default = true;
  channels = some 8;
  channel_layout = some "7.1";
  is_commentary_candidate = false;
  is_surround_candidate = true;
  is_atmos_capable = true;
}

abbrev pub english_stereo : AudioStream
english_stereo = record english {
  index = 2;
  codec_name = some "aac";
  default = false;
  channels = some 2;
  channel_layout = some "stereo";
  is_surround_candidate = false;
  is_atmos_capable = false;
}

abbrev pub french : AudioStream
french = record english_stereo { index = 3; language = some "fra" }

abbrev pub english_subtitle : SubtitleStream
english_subtitle = record {
  index = 4;
  codec_name = some "subrip";
  language = some "eng";
  title = none;
  handler_name = none;
  raw_tags = [];
  default = false;
  forced = false;
  is_forced = false;
  is_hearing_impaired_candidate = false;
}

abbrev pub forced_subtitle : SubtitleStream
forced_subtitle = record english_subtitle { index = 5; forced = true; is_forced = true }

abbrev pub video : String → VideoStream
video codec = record {
  index = 0;
  codec_name = some codec;
  width = some 1920;
  height = some 1080;
  coded_width = none;
  coded_height = none;
  bit_rate = some 8000000;
}

-- A film with tracks to drop, in the policy's codec and container.
abbrev pub film : MediaFile
film = record {
  file_name = "Film.mkv";
  extension = some "mkv";
  format_name = some "matroska,webm";
  video_streams = video "hevc" ∷ [];
  audio_streams = english ∷ english_stereo ∷ french ∷ [];
  subtitle_streams = english_subtitle ∷ forced_subtitle ∷ [];
  attachment_indices = [];
  data_indices = [];
  unknown_indices = [];
  is_4k = false;
  is_hdr_candidate = false;
  has_english_audio = true;
  has_forced_english_subtitle = true;
  has_surround_audio = true;
  has_atmos_capable_audio = true;
}

abbrev pub compliant_film : MediaFile
compliant_film = record film { audio_streams = english ∷ [] }

abbrev pub old_film : MediaFile
old_film = record film { video_streams = video "h264" ∷ [] }

abbrev pub four_k_film : MediaFile
four_k_film = record old_film { is_4k = true }

abbrev pub languages : LanguagePreferences
languages = record { preserve_forced_subtitles = true; drop_undetermined_audio = false }

abbrev pub audio_rules : AudioRules
audio_rules = record {
  keep_languages = "eng" ∷ [];
  keep_only_preferred_languages = true;
  preserve_best_surround = true;
  preserve_seven_one = true;
  preserve_atmos_capable = true;
  preferred_codecs = "truehd" ∷ "eac3" ∷ [];
  allow_commentary = false;
  max_tracks_to_keep = 1;
}

abbrev pub subtitle_rules : SubtitleRules
subtitle_rules = record {
  keep_languages = "eng" ∷ [];
  keep_forced_languages = "eng" ∷ [];
  keep_commentary = false;
  keep_hearing_impaired = false;
  keep_one_full_preferred_subtitle = true;
  drop_other_subtitles = true;
}

abbrev non_4k : NonFourKVideoRules
non_4k = record {
  decision_order = PolicyDecision.skip ∷ PolicyDecision.remux ∷ PolicyDecision.transcode ∷ [];
  preferred_codec = hevc;
  allow_transcode = true;
  quality_mode = balanced;
  quality_crf = none;
  max_video_reduction_percent = 60;
  max_video_bitrate_mbps = 12;
  max_width = 1920;
  low_bitrate_skip_threshold_1080p = 2500000;
  low_bitrate_skip_threshold_720p = 1500000;
  minimum_output_bitrate_1080p = 2000000;
  minimum_output_bitrate_720p = 1000000;
  output_larger_than_input_review_percent = none;
}

abbrev four_k : FourKVideoRules
four_k = record {
  mode = strip_only;
  preferred_codec = hevc;
  preserve_original_video = true;
  preserve_original_audio = true;
  allow_transcode = false;
  quality_mode = balanced;
  quality_crf = none;
  max_video_reduction_percent = 60;
  minimum_output_bitrate_1080p = 2000000;
  minimum_output_bitrate_720p = 1000000;
  output_larger_than_input_review_percent = none;
  remove_non_english_audio = true;
  remove_non_english_subtitles = true;
}

abbrev pub policy : ResolvedPolicy
policy = record {
  audio_rules = audio_rules;
  subtitle_rules = subtitle_rules;
  video_rules = record { output_container = mkv; non_4k = non_4k; four_k = four_k };
  replacement_rules = record {
    in_place = true;
    require_verification = true;
    keep_original_until_verified = true;
    delete_replaced_source = false;
  };
}
