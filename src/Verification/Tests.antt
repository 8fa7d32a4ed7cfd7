-- ===== src/Verification/Tests.antt =====
-- The verification of the output of a remux.
use encodr.Prelude.{
  ◌≡◌, ◌≢◌, refl, ◌<◌, true, false, some, [], ◌∷◌, length, all, is_empty, arith, if◌then◌else◌,
}
use encodr.Media.{MediaFile}
use encodr.Planning.Models.{remux, manual_review, ProcessingPlan}
use encodr.Planning.Examples.{english, english_subtitle, forced_subtitle, film, policy, languages}
use encodr.Verification.Verifier.{VerificationCheck, StagedOutput, passed, failed}
use encodr.Verification.Verifier.Laws.{
  HasShape, HasLanguages, verify_output_passed, verify_output_consistent,
}
use encodr.Verification.Delivered.{build-verify_delivers}
use encodr.Prelude.{lower, is_prefix, is_infix}
use encodr.Media.Quality.{
  resolution_bucket, low_bitrate_threshold_bps, minimum_output_bitrate_bps, is_low_bitrate_source,
}
use encodr.Planning.Languages.{
  language_code, collect, unique_languages, ordered_language_codes, rank_entries, language_ranks,
  rank_of, is_ranked,
}
use encodr.Planning.Scores.{lex_lt, key_lt, max_from, insert_sorted, sorted_reverse}
use encodr.Planning.Append.{append_new, append_all_new}
use encodr.Planning.Best.{select_best}
use encodr.Planning.Audio.{
  audio_quality_score, audio_stream_score, same_audio, select_best_audio_by_language, fill,
  preferred_language_order, preferred_streams, candidate_streams, selectable_streams,
  effective_max_tracks, best_audio, sorted_streams, selected_audio, dropped_audio, choose_audio,
  select_audio_streams,
}
use encodr.Planning.Subtitles.{
  contains_forced_marker, subtitle_stream_score, same_subtitle, select_best_subtitle_by_language,
  is_main, preferred_order, forced_order, in_forced_language, forced_candidates, ambiguous_forced,
  main_candidates, hearing_impaired_candidates, forced_streams, main_streams,
  hearing_impaired_streams, picked_streams, selected_subtitles, dropped_subtitles,
  select_subtitle_streams,
}
use encodr.Planning.Video.{
  codec_differs, build_4k_video_plan, low_threshold, low_bitrate_source, codec_requires,
  bitrate_requires, width_requires, non_4k_transcode_required, build_non_4k_video_plan,
  video_plan_of, build_video_plan,
}
use encodr.Planning.Planner.{
  build_replace_plan, build_container_plan, determine_action, determine_confidence,
  build_processing_plan,
}
use encodr.Verification.Rules.{
  split_commas, output_container_matches, has_required_audio, has_required_subtitles,
  has_required_video, has_expected_selected_stream_shape, by_index, planned_streams,
  planned_audio_streams, planned_subtitle_streams, normalised_codec, audio_stream_matches,
  subtitle_stream_matches, all_zip, audio_stream_selection_matches_plan,
  subtitle_stream_selection_matches_plan, position, only_default,
  audio_default_disposition_matches_plan, subtitle_default_disposition_matches_plan,
  retains_required_4k, retains_required_surround, retains_required_atmos, is_non_empty_output,
}
use encodr.Verification.Verifier.{add_check, add_checks, report_of, verify_probed, verify_output}

abbrev plan : ProcessingPlan
plan = build_processing_plan film policy languages

-- The tracks that the plan selects, in its order, with the main subtitle as the default.
abbrev remuxed : MediaFile
remuxed = record film {
  audio_streams = english ∷ [];
  subtitle_streams = forced_subtitle ∷ record english_subtitle { default = true } ∷ [];
}

abbrev staged : StagedOutput
staged = record { size = some 1000; probed = some remuxed }

-- An output that still has every track.
abbrev unchanged : StagedOutput
unchanged = record { size = some 1000; probed = some film }

remux_passes : ((verify_output plan film staged).passed ≡ true) × (plan.action ≡ remux)
unfolding lower is_prefix is_infix resolution_bucket low_bitrate_threshold_bps
    minimum_output_bitrate_bps is_low_bitrate_source language_code collect unique_languages
    ordered_language_codes rank_entries language_ranks rank_of is_ranked lex_lt key_lt max_from
    insert_sorted sorted_reverse append_new append_all_new select_best audio_quality_score
    audio_stream_score same_audio select_best_audio_by_language fill preferred_language_order
    preferred_streams candidate_streams selectable_streams effective_max_tracks best_audio
    sorted_streams selected_audio dropped_audio choose_audio select_audio_streams
    encodr.Planning.Audio.is_preferred contains_forced_marker subtitle_stream_score same_subtitle
    select_best_subtitle_by_language is_main preferred_order forced_order in_forced_language
    forced_candidates ambiguous_forced main_candidates hearing_impaired_candidates forced_streams
    main_streams hearing_impaired_streams picked_streams selected_subtitles dropped_subtitles
    select_subtitle_streams encodr.Planning.Subtitles.is_preferred codec_differs build_4k_video_plan
    low_threshold low_bitrate_source codec_requires bitrate_requires width_requires
    non_4k_transcode_required build_non_4k_video_plan video_plan_of build_video_plan
    build_replace_plan build_container_plan determine_action determine_confidence
    build_processing_plan split_commas output_container_matches has_required_audio
    has_required_subtitles has_required_video has_expected_selected_stream_shape by_index
    planned_streams planned_audio_streams planned_subtitle_streams normalised_codec
    audio_stream_matches subtitle_stream_matches all_zip audio_stream_selection_matches_plan
    subtitle_stream_selection_matches_plan position only_default
    audio_default_disposition_matches_plan subtitle_default_disposition_matches_plan
    retains_required_4k retains_required_surround retains_required_atmos is_non_empty_output
    add_check add_checks report_of verify_probed verify_output
remux_passes = (refl, refl)

unchanged_fails : (verify_output plan film unchanged).passed ≡ false
unfolding lower is_prefix is_infix resolution_bucket low_bitrate_threshold_bps
    minimum_output_bitrate_bps is_low_bitrate_source language_code collect unique_languages
    ordered_language_codes rank_entries language_ranks rank_of is_ranked lex_lt key_lt max_from
    insert_sorted sorted_reverse append_new append_all_new select_best audio_quality_score
    audio_stream_score same_audio select_best_audio_by_language fill preferred_language_order
    preferred_streams candidate_streams selectable_streams effective_max_tracks best_audio
    sorted_streams selected_audio dropped_audio choose_audio select_audio_streams
    encodr.Planning.Audio.is_preferred contains_forced_marker subtitle_stream_score same_subtitle
    select_best_subtitle_by_language is_main preferred_order forced_order in_forced_language
    forced_candidates ambiguous_forced main_candidates hearing_impaired_candidates forced_streams
    main_streams hearing_impaired_streams picked_streams selected_subtitles dropped_subtitles
    select_subtitle_streams encodr.Planning.Subtitles.is_preferred codec_differs build_4k_video_plan
    low_threshold low_bitrate_source codec_requires bitrate_requires width_requires
    non_4k_transcode_required build_non_4k_video_plan video_plan_of build_video_plan
    build_replace_plan build_container_plan determine_action determine_confidence
    build_processing_plan split_commas output_container_matches has_required_audio
    has_required_subtitles has_required_video has_expected_selected_stream_shape by_index
    planned_streams planned_audio_streams planned_subtitle_streams normalised_codec
    audio_stream_matches subtitle_stream_matches all_zip audio_stream_selection_matches_plan
    subtitle_stream_selection_matches_plan position only_default
    audio_default_disposition_matches_plan subtitle_default_disposition_matches_plan
    retains_required_4k retains_required_surround retains_required_atmos is_non_empty_output
    add_check add_checks report_of verify_probed verify_output
unchanged_fails = refl

verify_output_passed_example :
    (is_non_empty_output staged.size ≡ true)
    × ((m : MediaFile) × (staged.probed ≡ some m) × HasShape plan m × HasLanguages plan film m)
verify_output_passed_example = verify_output_passed plan film staged remux_passes.0

verify_output_consistent_example :
    let r = verify_output plan film unchanged in
    (r.passed ≡ all (λ (c : VerificationCheck). c.passed) r.checks)
    × (r.passed ≡ is_empty r.failures)
    × (r.status ≡ (if r.passed then passed else failed))
verify_output_consistent_example = verify_output_consistent plan film unchanged

remux_not_reviewed : plan.action ≢ manual_review
remux_not_reviewed = cc remux_passes.1

build-verify_delivers_example :
    (m : MediaFile) × (staged.probed ≡ some m)
    × (length m.video_streams ≡ 1)
    × (0 < length m.audio_streams)
build-verify_delivers_example =
    build-verify_delivers film policy languages staged (omega arith) remux_not_reviewed
      remux_passes.0
