-- ===== src/Planning/Tests.antt =====
-- The planner's theorems at a film.
use encodr.Prelude.{ℕ}
use encodr.Prelude.{
  codes, List, some, ◌≡◌, ◌≢◌, refl, ◌≤◌, ◌⊎◌, true, false, not, [], ◌∷◌, length, contains,
  is_empty, is_none, Memᴰ, arith,
}
use encodr.Config.{validate_mode}
use encodr.Media.{VideoStream, AudioStream, SubtitleStream, MediaFile}
use encodr.Planning.Models.{
  skip, remux, transcode, manual_review, ProcessingPlan, AudioSelectionIntent,
  SubtitleSelectionIntent,
}
use encodr.Planning.Audio.{AudioSelectionResult, audio_language}
use encodr.Planning.Audio.Laws.{is_allowed, IsKept}
use encodr.Planning.Audio.Choice.{
  select_audio_streams-best, select_audio_streams_sound, select_audio_streams_partition,
  select_audio_streams_limit, select_audio_streams_review,
}
use encodr.Planning.Languages.{Listed, listed}
use encodr.Planning.Subtitles.{subtitle_language}
use encodr.Planning.Subtitles.Choice.{
  select_subtitle_streams_forced, select_subtitle_streams_partition, select_subtitle_streams_main,
}
use encodr.Planning.Planner.Laws.{
  Wanted, build_processing_plan_skip, build_processing_plan_strip_only,
  build_processing_plan_transcode, build_processing_plan_remux, build_processing_plan_review,
}
use encodr.Planning.Profiles.{
  PathProfileOverride, trimmed, path_matches_prefix, matched_override, matched_override-longest,
}
use encodr.Planning.Examples.{
  english_stereo, english_subtitle, forced_subtitle, film, compliant_film, old_film, four_k_film,
  policy, languages, audio_rules, subtitle_rules,
}
use encodr.Prelude.{lower, is_prefix, is_infix}
use encodr.Media.Quality.{
  resolution_bucket, low_bitrate_threshold_bps, minimum_output_bitrate_bps, is_low_bitrate_source,
}
use encodr.Planning.Languages.{
  language_code, collect, unique_languages, ordered_language_codes, rank_entries, language_ranks,
  rank_of, is_ranked,
}
use encodr.Planning.Scores.{lex_lt, key_lt, max_from, insert_sorted, sorted_reverse}
use encodr.Planning.Append.{append_new, append_all_new}
use encodr.Planning.Best.{select_best}
use encodr.Planning.Audio.{
  audio_quality_score, audio_stream_score, same_audio, select_best_audio_by_language, fill,
  preferred_language_order, preferred_streams, candidate_streams, selectable_streams,
  effective_max_tracks, best_audio, sorted_streams, selected_audio, dropped_audio, choose_audio,
  select_audio_streams,
}
use encodr.Planning.Subtitles.{
  contains_forced_marker, subtitle_stream_score, same_subtitle, select_best_subtitle_by_language,
  is_main, preferred_order, forced_order, in_forced_language, forced_candidates, ambiguous_forced,
  main_candidates, hearing_impaired_candidates, forced_streams, main_streams,
  hearing_impaired_streams, picked_streams, selected_subtitles, dropped_subtitles,
  select_subtitle_streams,
}
use encodr.Planning.Video.{
  codec_differs, build_4k_video_plan, low_threshold, low_bitrate_source, codec_requires,
  bitrate_requires, width_requires, non_4k_transcode_required, build_non_4k_video_plan,
  video_plan_of, build_video_plan,
}
use encodr.Planning.Planner.{
  build_replace_plan, build_container_plan, determine_action, determine_confidence,
  build_processing_plan,
}

abbrev plan_of : MediaFile → ProcessingPlan
plan_of file = build_processing_plan file policy languages

-- The action of each film's plan, and what is selected of the first.
actions :
    ((plan_of compliant_film).action ≡ skip)
    × ((plan_of film).action ≡ remux)
    × ((plan_of old_film).action ≡ transcode)
    × ((plan_of film).audio.selected_stream_indices ≡ 1 ∷ [])
    × ((plan_of film).subtitles.selected_stream_indices ≡ 5 ∷ 4 ∷ [])
unfolding lower is_prefix is_infix resolution_bucket low_bitrate_threshold_bps
    minimum_output_bitrate_bps is_low_bitrate_source language_code collect unique_languages
    ordered_language_codes rank_entries language_ranks rank_of is_ranked lex_lt key_lt max_from
    insert_sorted sorted_reverse append_new append_all_new select_best audio_quality_score
    audio_stream_score same_audio select_best_audio_by_language fill preferred_language_order
    preferred_streams candidate_streams selectable_streams effective_max_tracks best_audio
    sorted_streams selected_audio dropped_audio choose_audio select_audio_streams
    encodr.Planning.Audio.is_preferred contains_forced_marker subtitle_stream_score same_subtitle
    select_best_subtitle_by_language is_main preferred_order forced_order in_forced_language
    forced_candidates ambiguous_forced main_candidates hearing_impaired_candidates forced_streams
    main_streams hearing_impaired_streams picked_streams selected_subtitles dropped_subtitles
    select_subtitle_streams encodr.Planning.Subtitles.is_preferred codec_differs build_4k_video_plan
    low_threshold low_bitrate_source codec_requires bitrate_requires width_requires
    non_4k_transcode_required build_non_4k_video_plan video_plan_of build_video_plan
    build_replace_plan build_container_plan determine_action determine_confidence
    build_processing_plan
actions = (refl, refl, refl, refl, refl)

eng-Listed : Listed ("eng" ∷ []) "eng"
unfolding language_code
eng-Listed = listed "eng" (Memᴰ.head refl) refl

english-Listed : Listed audio_rules.keep_languages (audio_language english_stereo)
unfolding language_code
english-Listed = eng-Listed

abbrev audio : AudioSelectionIntent
audio = (select_audio_streams film audio_rules languages).intent

abbrev subtitles : SubtitleSelectionIntent
subtitles = (select_subtitle_streams film subtitle_rules languages).intent

stereo-mem : Memᴰ english_stereo film.audio_streams
stereo-mem = Memᴰ.tail (Memᴰ.head refl)

select_audio_streams-best_example :
    (b : AudioStream) × Memᴰ b film.audio_streams
    × (contains audio.selected_stream_indices b.index ≡ true)
    × (audio_language b ≡ audio_language english_stereo)
    × (key_lt (audio_quality_score audio_rules b) (audio_quality_score audio_rules english_stereo)
        ≡ false)
select_audio_streams-best_example =
    select_audio_streams-best film audio_rules languages stereo-mem refl english-Listed

film_selects : contains audio.selected_stream_indices 1 ≡ true
unfolding lower is_prefix is_infix resolution_bucket low_bitrate_threshold_bps
    minimum_output_bitrate_bps is_low_bitrate_source language_code collect unique_languages
    ordered_language_codes rank_entries language_ranks rank_of is_ranked lex_lt key_lt max_from
    insert_sorted sorted_reverse append_new append_all_new select_best audio_quality_score
    audio_stream_score same_audio select_best_audio_by_language fill preferred_language_order
    preferred_streams candidate_streams selectable_streams effective_max_tracks best_audio
    sorted_streams selected_audio dropped_audio choose_audio select_audio_streams
    encodr.Planning.Audio.is_preferred contains_forced_marker subtitle_stream_score same_subtitle
    select_best_subtitle_by_language is_main preferred_order forced_order in_forced_language
    forced_candidates ambiguous_forced main_candidates hearing_impaired_candidates forced_streams
    main_streams hearing_impaired_streams picked_streams selected_subtitles dropped_subtitles
    select_subtitle_streams encodr.Planning.Subtitles.is_preferred codec_differs build_4k_video_plan
    low_threshold low_bitrate_source codec_requires bitrate_requires width_requires
    non_4k_transcode_required build_non_4k_video_plan video_plan_of build_video_plan
    build_replace_plan build_container_plan determine_action determine_confidence
    build_processing_plan
film_selects = refl

select_audio_streams_sound_example :
    (s : AudioStream) × Memᴰ s film.audio_streams
    × (s.index ≡ 1)
    × (is_allowed audio_rules s ≡ true)
    × (audio_rules.keep_only_preferred_languages ≡ true → IsKept audio_rules s)
select_audio_streams_sound_example =
    select_audio_streams_sound film audio_rules languages 1 film_selects

select_audio_streams_partition_example :
    contains audio.dropped_stream_indices 2 ≡ not (contains audio.selected_stream_indices 2)
select_audio_streams_partition_example =
    select_audio_streams_partition film audio_rules languages stereo-mem

select_audio_streams_limit_example : length audio.selected_stream_indices ≤ 1
select_audio_streams_limit_example = select_audio_streams_limit film audio_rules languages

select_audio_streams_review_example :
    let r = select_audio_streams film audio_rules languages in
    (is_empty r.intent.selected_stream_indices ≡ r.requires_manual_review)
    × (r.intent.missing_required_audio ≡ r.requires_manual_review)
    × (is_none r.intent.primary_stream_index ≡ r.requires_manual_review)
select_audio_streams_review_example =
    select_audio_streams_review film audio_rules languages (omega arith)

english_subtitle-Listed : Listed subtitle_rules.keep_languages (subtitle_language english_subtitle)
unfolding language_code
english_subtitle-Listed = eng-Listed

forced_subtitle-Listed :
    Listed subtitle_rules.keep_forced_languages (subtitle_language forced_subtitle)
unfolding language_code
forced_subtitle-Listed = eng-Listed

english_subtitle-is_main : is_main english_subtitle ≡ true
unfolding is_main contains_forced_marker is_infix lower
english_subtitle-is_main = refl

select_subtitle_streams_forced_example : contains subtitles.selected_stream_indices 5 ≡ true
select_subtitle_streams_forced_example =
    select_subtitle_streams_forced film subtitle_rules languages {a = forced_subtitle}
      (Memᴰ.tail (Memᴰ.head refl)) refl refl forced_subtitle-Listed

select_subtitle_streams_partition_example :
    (contains subtitles.dropped_stream_indices 4
      ≡ not (contains subtitles.selected_stream_indices 4))
    × (subtitle_rules.drop_other_subtitles ≡ false
        → contains subtitles.selected_stream_indices 4 ≡ true)
select_subtitle_streams_partition_example =
    select_subtitle_streams_partition film subtitle_rules languages {s = english_subtitle}
      (Memᴰ.head refl)

select_subtitle_streams_main_example :
    (b : SubtitleStream) × Memᴰ b film.subtitle_streams
    × (contains subtitles.selected_stream_indices b.index ≡ true)
    × (is_main b ≡ true)
    × (subtitle_language b ≡ subtitle_language english_subtitle)
    × (key_lt (subtitle_stream_score [] b) (subtitle_stream_score [] english_subtitle) ≡ false)
select_subtitle_streams_main_example =
    select_subtitle_streams_main film subtitle_rules languages {a = english_subtitle}
      (Memᴰ.head refl) refl english_subtitle-is_main english_subtitle-Listed

build_processing_plan_skip_example :
    ((plan_of compliant_film).video.transcode_required ≡ false)
    × ((plan_of compliant_film).audio.dropped_stream_indices ≡ [])
    × ((plan_of compliant_film).subtitles.dropped_stream_indices ≡ [])
    × ((plan_of compliant_film).container.change_required ≡ false)
    × ((plan_of compliant_film).warnings ≡ [])
    × ((plan_of compliant_film).audio.missing_required_audio ≡ false)
    × ((plan_of compliant_film).subtitles.ambiguous_forced_stream_indices ≡ [])
build_processing_plan_skip_example =
    build_processing_plan_skip compliant_film policy languages actions.0

mode_accepted : validate_mode policy.video_rules.four_k ≡ true
unfolding validate_mode
mode_accepted = refl

build_processing_plan_strip_only_example :
    ((plan_of four_k_film).action ≢ transcode)
    × ((plan_of four_k_film).video.transcode_required ≡ false)
build_processing_plan_strip_only_example =
    build_processing_plan_strip_only four_k_film policy languages refl mode_accepted refl

build_processing_plan_transcode_example :
    (v : VideoStream) × (old_film.video_streams ≡ v ∷ []) × Wanted false policy.video_rules v
build_processing_plan_transcode_example =
    build_processing_plan_transcode old_film policy languages actions.2

build_processing_plan_remux_example :
    ((plan_of film).video.transcode_required ≡ false)
    × ((film.is_4k ≡ true)
        ⊎ (is_empty (plan_of film).audio.dropped_stream_indices ≡ false)
        ⊎ (is_empty (plan_of film).subtitles.dropped_stream_indices ≡ false)
        ⊎ ((plan_of film).container.change_required ≡ true))
build_processing_plan_remux_example = build_processing_plan_remux film policy languages actions.1

film_not_reviewed : (plan_of film).action ≢ manual_review
film_not_reviewed = cc actions.1

build_processing_plan_review_example :
    (length film.video_streams ≡ 1)
    × (is_empty (plan_of film).selected_streams.audio_stream_indices ≡ false)
    × ((plan_of film).audio.missing_required_audio ≡ false)
    × ((plan_of film).subtitles.ambiguous_forced_stream_indices ≡ [])
build_processing_plan_review_example =
    build_processing_plan_review film policy languages (omega arith) film_not_reviewed

abbrev of_media : PathProfileOverride
of_media = record { path_prefix = codes "/media"; profile = "default" }

abbrev of_films : PathProfileOverride
of_films = record { path_prefix = codes "/media/films"; profile = "films" }

abbrev a_film_path : List ℕ
a_film_path = codes "/media/films/Film.mkv"

-- A prefix ends with a whole part of the path.
prefixes :
    (path_matches_prefix a_film_path of_media.path_prefix ≡ true)
    × (path_matches_prefix (codes "/media/films2/Film.mkv") of_films.path_prefix ≡ false)
unfolding path_matches_prefix trimmed is_prefix
prefixes = (refl, refl)

matched_override-longest_example :
    (b : PathProfileOverride) × (matched_override (of_media ∷ of_films ∷ []) a_film_path ≡ some b)
    × Memᴰ b (of_media ∷ of_films ∷ [])
    × (path_matches_prefix a_film_path b.path_prefix ≡ true)
    × (length of_media.path_prefix ≤ length b.path_prefix)
matched_override-longest_example =
    matched_override-longest (of_media ∷ of_films ∷ []) a_film_path (Memᴰ.head refl) prefixes.0
