-- ===== src/Execution/Command/Pipeline.antt =====
-- The plan of a film, its command, and an output that follows it, for the tests of packages/core/encodr_core/execution.
use encodr.Prelude.{◌≡◌, refl, true, some, none, [], ◌∷◌, codes, lower, is_prefix, is_infix}
use encodr.Media.{MediaFile}
use encodr.Planning.Models.{ProcessingPlan}
use encodr.Planning.Examples.{english, film, policy, languages}
use encodr.Replacement.Paths.{FilePath, stem}
use encodr.Verification.Rules.{
  by_index, planned_streams, normalised_codec, audio_stream_matches,
  audio_stream_selection_matches_plan, audio_default_disposition_matches_plan,
}
use encodr.Execution.Command.{
  ExecutionCommandPlan, stream_maps, append_selected_stream_maps, audio_disposition,
  subtitle_disposition, disposition_flags, disposition_flags_for_selected_streams,
  build_temp_output_path, command_of, remux_command, build_execution_command_plan,
}
use encodr.Execution.Command.Reading.{mapped, dispositions}
use encodr.Execution.Command.Copied.{codec_for}
use encodr.Execution.Command.Verified.{AudioFollows}
use encodr.Execution.Command.Composed.{build-command_verified}
use encodr.Media.Quality.{
  resolution_bucket, low_bitrate_threshold_bps, minimum_output_bitrate_bps, is_low_bitrate_source,
}
use encodr.Planning.Languages.{
  language_code, collect, unique_languages, ordered_language_codes, rank_entries, language_ranks,
  rank_of, is_ranked,
}
use encodr.Planning.Scores.{lex_lt, key_lt, max_from, insert_sorted, sorted_reverse}
use encodr.Planning.Append.{append_new, append_all_new}
use encodr.Planning.Best.{select_best}
use encodr.Planning.Audio.{
  audio_quality_score, audio_stream_score, same_audio, select_best_audio_by_language, fill,
  preferred_language_order, preferred_streams, candidate_streams, selectable_streams,
  effective_max_tracks, best_audio, sorted_streams, selected_audio, dropped_audio, choose_audio,
  select_audio_streams,
}
use encodr.Planning.Subtitles.{
  contains_forced_marker, subtitle_stream_score, same_subtitle, select_best_subtitle_by_language,
  is_main, preferred_order, forced_order, in_forced_language, forced_candidates, ambiguous_forced,
  main_candidates, hearing_impaired_candidates, forced_streams, main_streams,
  hearing_impaired_streams, picked_streams, selected_subtitles, dropped_subtitles,
  select_subtitle_streams,
}
use encodr.Planning.Video.{
  codec_differs, build_4k_video_plan, low_threshold, low_bitrate_source, codec_requires,
  bitrate_requires, width_requires, non_4k_transcode_required, build_non_4k_video_plan,
  video_plan_of, build_video_plan,
}
use encodr.Planning.Planner.{
  build_replace_plan, build_container_plan, determine_action, determine_confidence,
  build_processing_plan,
}

abbrev plan : ProcessingPlan
plan = build_processing_plan film policy languages

abbrev input : FilePath
input = record { directory = codes "/media"; name = codes "Film.mkv" }

abbrev ffmpeg : FilePath
ffmpeg = record { directory = codes "/usr/bin"; name = codes "ffmpeg" }

abbrev made : FilePath
made = record { directory = codes "/scratch"; name = codes "Film.pending.tmp.mkv" }

abbrev command : ExecutionCommandPlan
command = remux_command plan input ffmpeg made

-- Of the three audio tracks the best English one is kept.
abbrev output : MediaFile
output = record film { audio_streams = english ∷ [] }

built :
    (build_execution_command_plan plan input ffmpeg (codes "/scratch") none none ≡ some command)
    × (command.output_path ≡ some made)
    × AudioFollows command.command film output
unfolding lower is_prefix is_infix resolution_bucket low_bitrate_threshold_bps
    minimum_output_bitrate_bps is_low_bitrate_source language_code collect unique_languages
    ordered_language_codes rank_entries language_ranks rank_of is_ranked lex_lt key_lt max_from
    insert_sorted sorted_reverse append_new append_all_new select_best audio_quality_score
    audio_stream_score same_audio select_best_audio_by_language fill preferred_language_order
    preferred_streams candidate_streams selectable_streams effective_max_tracks best_audio
    sorted_streams selected_audio dropped_audio choose_audio select_audio_streams
    encodr.Planning.Audio.is_preferred contains_forced_marker subtitle_stream_score same_subtitle
    select_best_subtitle_by_language is_main preferred_order forced_order in_forced_language
    forced_candidates ambiguous_forced main_candidates hearing_impaired_candidates forced_streams
    main_streams hearing_impaired_streams picked_streams selected_subtitles dropped_subtitles
    select_subtitle_streams encodr.Planning.Subtitles.is_preferred codec_differs build_4k_video_plan
    low_threshold low_bitrate_source codec_requires bitrate_requires width_requires
    non_4k_transcode_required build_non_4k_video_plan video_plan_of build_video_plan
    build_replace_plan build_container_plan determine_action determine_confidence
    build_processing_plan build_execution_command_plan build_temp_output_path stem remux_command
    command_of append_selected_stream_maps stream_maps disposition_flags_for_selected_streams
    disposition_flags audio_disposition mapped dispositions codec_for by_index planned_streams
    audio_stream_matches normalised_codec subtitle_disposition
built = (refl, refl, record { copied = (refl, tt); defaults = (refl, tt) })

build-command_verified_example :
    (audio_stream_selection_matches_plan film (build_processing_plan film policy languages) output
      ≡ true)
    × (audio_default_disposition_matches_plan (build_processing_plan film policy languages) output
        ≡ true)
build-command_verified_example =
    build-command_verified film policy languages output input ffmpeg (codes "/scratch") none none
      (refl, (refl, (refl, tt))) (refl, (refl, (refl, tt))) built.0 built.1 built.2
