-- ===== src/Verification/Verifier.antt =====
-- `OutputVerifier` of packages/core/encodr_core/verification/verifier.py and models.py. The file system
-- and ffprobe answer for the staged output: its size, and its media unless the probe fails. Messages and
-- the path are left out.
pub mod Laws
use encodr.Prelude.{
  ℕ, String, Bool, true, false, not, Option, none, some, List, [], ◌∷◌, ◌++◌, if◌then◌else◌, length,
  is_empty, str_eq,
}
use encodr.Media.{VideoStream, AudioStream, MediaFile}
use encodr.Planning.Models.{ProcessingPlan}
use encodr.Verification.Rules.{
  output_container_matches, has_required_audio, has_required_subtitles, has_required_video,
  has_expected_selected_stream_shape, audio_stream_selection_matches_plan,
  subtitle_stream_selection_matches_plan, audio_default_disposition_matches_plan,
  subtitle_default_disposition_matches_plan, retains_required_4k, retains_required_surround,
  retains_required_atmos, is_non_empty_output,
}

pub data VerificationStatus : Type 0 where
  passed failed not_required : VerificationStatus

pub record VerificationCheck : Type 0 where
  pub code : String
  pub passed : Bool

pub record VerificationIssue : Type 0 where
  pub code : String
  pub stream_indices : List ℕ

pub record VerificationOutputSummary : Type 0 where
  pub container : Option String
  pub video_stream_count : ℕ
  pub audio_stream_count : ℕ
  pub subtitle_stream_count : ℕ
  pub is_4k : Bool
  pub has_english_audio : Bool
  pub has_forced_english_subtitle : Bool
  pub has_surround_audio : Bool
  pub has_atmos_capable_audio : Bool
  pub primary_video_codec : Option String
  pub primary_audio_codec : Option String

pub record VerificationResult : Type 0 where
  pub status : VerificationStatus
  pub passed : Bool
  pub checks : List VerificationCheck
  pub warnings : List VerificationIssue
  pub failures : List VerificationIssue
  pub output_summary : Option VerificationOutputSummary

-- The staged output, as the file system and ffprobe see it; `none` is a `ProbeError`.
pub record StagedOutput : Type 0 where
  pub size : Option ℕ
  pub probed : Option MediaFile

-- The two lists that the checks append to.
pub record Report : Type 0 where
  pub checks : List VerificationCheck
  pub failures : List VerificationIssue

abbrev pub issue : String → VerificationIssue
issue code = record { code = code; stream_indices = [] }

-- `_add_check`
unfoldable pub add_check : Report → String → Bool → Report
add_check report code ok = record {
  checks = report.checks ++ record { code = code; passed = ok } ∷ [];
  failures = if not ok then report.failures ++ issue code ∷ [] else report.failures;
}

-- The calls of `_add_check`, one after the other.
unfoldable pub add_checks : Report → List (String × Bool) → Report
add_checks report [] = report
add_checks report (c ∷ cs) = add_checks (add_check report c.0 c.1) cs

abbrev pub failed_result : List VerificationCheck → String → VerificationResult
failed_result checks code = record {
  status = failed;
  passed = false;
  checks = checks;
  warnings = [];
  failures = issue code ∷ [];
  output_summary = none;
}

abbrev first_video_codec : List VideoStream → Option String
first_video_codec [] = none
first_video_codec (v ∷ vs) = v.codec_name

abbrev first_audio_codec : List AudioStream → Option String
first_audio_codec [] = none
first_audio_codec (a ∷ rest) = a.codec_name

-- `output_media.extension or output_media.container.format_name`
abbrev or_format : Option String → Option String → Option String
or_format none format_name = format_name
or_format (some extension) format_name = if str_eq extension "" then format_name else some extension

abbrev summary_of : MediaFile → VerificationOutputSummary
summary_of m = record {
  container = or_format m.extension m.format_name;
  video_stream_count = length m.video_streams;
  audio_stream_count = length m.audio_streams;
  subtitle_stream_count = length m.subtitle_streams;
  is_4k = m.is_4k;
  has_english_audio = m.has_english_audio;
  has_forced_english_subtitle = m.has_forced_english_subtitle;
  has_surround_audio = m.has_surround_audio;
  has_atmos_capable_audio = m.has_atmos_capable_audio;
  primary_video_codec = first_video_codec m.video_streams;
  primary_audio_codec = first_audio_codec m.audio_streams;
}

abbrev pub existence : Bool → VerificationCheck
existence ok = record { code = "output_exists_and_non_empty"; passed = ok }

abbrev probing : Bool → VerificationCheck
probing ok = record { code = "output_probe"; passed = ok }

module _ (plan : ProcessingPlan) (source_media : MediaFile) where
  abbrev pub plan_checks : MediaFile → List (String × Bool)
  plan_checks m =
      ("container_matches_plan", output_container_matches m plan.container.target_container)
      ∷ ("required_audio_present", has_required_audio plan m)
      ∷ ("subtitle_intent_satisfied", has_required_subtitles plan m)
      ∷ ("selected_stream_shape_satisfied", has_expected_selected_stream_shape plan m)
      ∷ (
        "audio_stream_selection_satisfied",
        audio_stream_selection_matches_plan source_media plan m,
      )
      ∷ (
        "subtitle_stream_selection_satisfied",
        subtitle_stream_selection_matches_plan source_media plan m,
      )
      ∷ ("audio_default_disposition_satisfied", audio_default_disposition_matches_plan plan m)
      ∷ ("subtitle_default_disposition_satisfied", subtitle_default_disposition_matches_plan plan m)
      ∷ ("video_intent_satisfied", has_required_video plan m)
      ∷ ("four_k_preserved_when_required", retains_required_4k source_media plan m)
      ∷ ("surround_preserved_when_required", retains_required_surround plan m)
      ∷ ("atmos_preserved_when_required", retains_required_atmos plan m)
      ∷ []

  unfoldable pub report_of : MediaFile → Report
  report_of m =
      add_checks (record { checks = existence true ∷ probing true ∷ []; failures = [] })
        (plan_checks m)

  unfoldable pub verify_probed : Option MediaFile → VerificationResult
  verify_probed none = failed_result (existence true ∷ probing false ∷ []) "probe_failed"
  verify_probed (some m) =
      let report = report_of m in
      record {
        status = if is_empty report.failures then passed else failed;
        passed = is_empty report.failures;
        checks = report.checks;
        warnings =
            if is_empty plan.subtitles.ambiguous_forced_stream_indices
            then []
            else record {
              code = "ambiguous_forced_subtitle_metadata";
              stream_indices = plan.subtitles.ambiguous_forced_stream_indices;
            }
              ∷ [];
        failures = report.failures;
        output_summary = some (summary_of m);
      }

  -- `verify_output`
  unfoldable pub verify_output : StagedOutput → VerificationResult
  unfolding verify_probed
  verify_output output =
      if is_non_empty_output output.size
      then verify_probed output.probed
      else failed_result (existence false ∷ []) "output_missing_or_empty"
