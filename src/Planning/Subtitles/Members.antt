-- ===== src/Planning/Subtitles/Members.antt =====
-- The subtitles that `select_subtitle_streams` of packages/core/encodr_core/planning/selection.py selects are the
-- file's.
use encodr.Prelude.{not, ◌&&◌, List, [], Memᴰ, inl, inr, is_empty, mem_of_if, mem_of_mem-filter}
use encodr.Config.{SubtitleRules, LanguagePreferences}
use encodr.Media.{SubtitleStream, MediaFile}
use encodr.Planning.Languages.{language_ranks}
use encodr.Planning.Append.{append_all_new-mem}
use encodr.Planning.Best.{select_best-mem}
use encodr.Planning.Audio.Members.{mem_of_mem-sorted_reverse}
use encodr.Planning.Subtitles.{
  same_subtitle, subtitle_language, subtitle_stream_score, is_main,
  select_best_subtitle_by_language, preferred_order, forced_order, is_preferred, in_forced_language,
  forced_candidates, main_candidates, hearing_impaired_candidates, forced_streams, main_streams,
  hearing_impaired_streams, picked_streams, selected_subtitles,
}

no_member : {A : Type 0} {a : A} → Memᴰ a [] → ⊥
no_member m = elim m [ ]

module _ (file : MediaFile) (rules : SubtitleRules) (languages : LanguagePreferences) where
  best-mem :
      (candidates : List SubtitleStream) {s : SubtitleStream}
      → Memᴰ s (select_best_subtitle_by_language candidates (preferred_order file rules languages))
      → Memᴰ s candidates
  unfolding select_best_subtitle_by_language
  best-mem candidates m =
      select_best-mem subtitle_language (subtitle_stream_score []) candidates
        (preferred_order file rules languages) m

  forced_streams-mem :
      {s : SubtitleStream}
      → Memᴰ s (forced_streams file rules languages)
      → Memᴰ s file.subtitle_streams
  unfolding forced_streams forced_candidates
  forced_streams-mem m =
      elim (mem_of_if languages.preserve_forced_subtitles (
        mem_of_mem-sorted_reverse
          (subtitle_stream_score (language_ranks (forced_order file rules languages))) _ m)) [
            | inl k ↦
                mem_of_mem-filter (λ t. in_forced_language file rules languages t && t.forced)
                  file.subtitle_streams k.1
            | inr k ↦ absurd (no_member k.1)
          ]

  main_streams-mem :
      {s : SubtitleStream}
      → Memᴰ s (main_streams file rules languages)
      → Memᴰ s file.subtitle_streams
  unfolding main_streams main_candidates
  main_streams-mem m =
      elim (mem_of_if
        (rules.keep_one_full_preferred_subtitle
          && not (is_empty (main_candidates file rules languages)))
        m) [
          | inl k ↦
              mem_of_mem-filter (λ t. is_preferred file rules languages t && is_main t)
                file.subtitle_streams (best-mem (main_candidates file rules languages) k.1)
          | inr k ↦ absurd (no_member k.1)
        ]

  hearing_impaired_streams-mem :
      {s : SubtitleStream}
      → Memᴰ s (hearing_impaired_streams file rules languages)
      → Memᴰ s file.subtitle_streams
  unfolding hearing_impaired_streams hearing_impaired_candidates
  hearing_impaired_streams-mem m =
      elim (mem_of_if
        (rules.keep_hearing_impaired
          && not (is_empty (hearing_impaired_candidates file rules languages)))
        m) [
          | inl k ↦
              mem_of_mem-filter
                (λ t. is_preferred file rules languages t && t.is_hearing_impaired_candidate)
                file.subtitle_streams
                (best-mem (hearing_impaired_candidates file rules languages) k.1)
          | inr k ↦ absurd (no_member k.1)
        ]

  pub selected_subtitles-mem :
      {s : SubtitleStream}
      → Memᴰ s (selected_subtitles file rules languages)
      → Memᴰ s file.subtitle_streams
  unfolding selected_subtitles picked_streams
  selected_subtitles-mem m = elim (mem_of_if (not rules.drop_other_subtitles) m) [
    | inl k ↦ k.1
    | inr k ↦
        elim (append_all_new-mem same_subtitle _ (hearing_impaired_streams file rules languages)
          k.1) [
            | inr impaired ↦ hearing_impaired_streams-mem impaired
            | inl others ↦
                elim (append_all_new-mem same_subtitle _ (main_streams file rules languages)
                  others) [
                    | inl forced ↦ forced_streams-mem forced
                    | inr main ↦ main_streams-mem main
                  ]
          ]
  ]
