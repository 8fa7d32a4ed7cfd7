-- ===== src/Media.antt =====
-- packages/core/encodr_core/media/models.py: probed streams and files, with the fields that
-- planning, execution and verification read. Attachment and data streams are read by index alone.
pub mod Quality
use encodr.Prelude.{ℕ, String, Bool, Option, List, ◌&&◌, str_eq, option_eq, iff, ◌==◌}

pub record VideoStream : Type 0 where
  pub index : ℕ
  pub codec_name : Option String
  pub width : Option ℕ
  pub height : Option ℕ
  pub coded_width : Option ℕ
  pub coded_height : Option ℕ
  pub bit_rate : Option ℕ

-- `language` is `tags.language`, and `default` is `disposition.default`.
pub record AudioStream : Type 0 where
  pub index : ℕ
  pub codec_name : Option String
  pub language : Option String
  pub default : Bool
  pub channels : Option ℕ
  pub channel_layout : Option String
  pub is_commentary_candidate : Bool
  pub is_surround_candidate : Bool
  pub is_atmos_capable : Bool

-- `forced` is `disposition.forced`, and `raw_tags` are the values of `tags.raw`.
pub record SubtitleStream : Type 0 where
  pub index : ℕ
  pub codec_name : Option String
  pub language : Option String
  pub title : Option String
  pub handler_name : Option String
  pub raw_tags : List String
  pub default : Bool
  pub forced : Bool
  pub is_forced : Bool
  pub is_hearing_impaired_candidate : Bool

pub record MediaFile : Type 0 where
  pub file_name : String
  pub extension : Option String
  pub format_name : Option String
  pub video_streams : List VideoStream
  pub audio_streams : List AudioStream
  pub subtitle_streams : List SubtitleStream
  pub attachment_indices : List ℕ
  pub data_indices : List ℕ
  pub unknown_indices : List ℕ
  pub is_4k : Bool
  pub is_hdr_candidate : Bool
  pub has_english_audio : Bool
  pub has_forced_english_subtitle : Bool
  pub has_surround_audio : Bool
  pub has_atmos_capable_audio : Bool
