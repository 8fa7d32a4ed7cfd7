-- ===== src/Planning/Audio/Choice.antt =====
-- The choice of audio tracks, as the planner's client sees it.
use Prim.Native.Nat.{max}
use encodr.Prelude.{
  ℕ, ◌≤◌, ◌<◌, ◌≡◌, refl, ◌∙◌, true, false, not, Memᴰ, arith, if◌then◌else◌, Bool-cases, inl, inr,
  length, contains, is_empty, mem_of_mem-filter, test_of_mem-filter, mem-filter_of_mem,
  contains_of_mem, mem_of_contains, length-take_le, not_empty_of_mem, mem_of_not_empty,
  is_empty-take, is_empty-map, is_none, is_none-head?, length-map, contains-filter,
}
use encodr.Config.{AudioRules, LanguagePreferences}
use encodr.Media.{AudioStream, MediaFile}
use encodr.Planning.Languages.{language_ranks, ordered_takes, length-ordered_language_codes}
use encodr.Planning.Scores.{key_lt}
use encodr.Planning.Best.{select_best-best}
use encodr.Planning.Audio.{
  audio_quality_score, audio_stream_score, audio_language, audio_indices,
  select_best_audio_by_language, fill, preferred_language_order, candidate_streams, choose_audio,
  selectable_streams, best_audio, sorted_streams, effective_max_tracks, selected_audio,
  dropped_audio, select_audio_streams,
}
use encodr.Planning.Audio.Members.{
  fill_some, is_empty-sorted_reverse, mem-audio_indices, mem_of_mem-audio_indices,
}
use encodr.Planning.Audio.Laws.{
  is_allowed, IsKept, candidate-mem, candidate-IsKept, candidate_of_kept, selected_audio-mem,
  best_audio-selected, select_audio-choose, select_audio-none,
}

module _ (file : MediaFile) (rules : AudioRules) where
  selectable_of_kept :
      {a : AudioStream}
      → Memᴰ a file.audio_streams
      → is_allowed rules a ≡ true
      → IsKept rules a
      → Memᴰ a (selectable_streams file rules)
  unfolding selectable_streams
  selectable_of_kept m h k =
      mem-filter_of_mem (is_allowed rules) (candidate_streams file rules)
        (candidate_of_kept file rules m k) h

  selectable-mem :
      {a : AudioStream} → Memᴰ a (selectable_streams file rules) → Memᴰ a file.audio_streams
  unfolding selectable_streams
  selectable-mem m =
      candidate-mem file rules
        (mem_of_mem-filter (is_allowed rules) (candidate_streams file rules) m)

  best_of_kept :
      {a : AudioStream}
      → Memᴰ a (selectable_streams file rules)
      → IsKept rules a
      → (b : AudioStream) × Memᴰ b (best_audio file rules)
        × (audio_language b ≡ audio_language a)
        × (key_lt (audio_quality_score rules b) (audio_quality_score rules a) ≡ false)
  unfolding best_audio select_best_audio_by_language preferred_language_order
  best_of_kept {a} m k =
      select_best-best audio_language (audio_quality_score rules) (selectable_streams file rules)
        (preferred_language_order file rules) m
        (ordered_takes rules.keep_languages (audio_language a) k)

  -- For every audio track of the file that the rules allow, in a language that they keep, the plan
  -- selects a track of the file in that language whose quality score is not below it.
  pub select_audio_streams-best :
      (lang : LanguagePreferences) {a : AudioStream}
      → Memᴰ a file.audio_streams
      → is_allowed rules a ≡ true
      → IsKept rules a
      → (b : AudioStream) × Memᴰ b file.audio_streams
        × (contains (select_audio_streams file rules lang).intent.selected_stream_indices b.index
            ≡ true)
        × (audio_language b ≡ audio_language a)
        × (key_lt (audio_quality_score rules b) (audio_quality_score rules a) ≡ false)
  unfolding choose_audio
  select_audio_streams-best lang m h k =
      let s = selectable_of_kept m h k in
      let (b, chosen, same, best) = best_of_kept s k in
      let kept = best_audio-selected file rules chosen in
      (
        b,
        selectable-mem (selected_audio-mem file rules kept),
        rw (select_audio-choose file rules lang (not_empty_of_mem _ s))
            (contains_of_mem _ (mem-audio_indices (selected_audio file rules) kept)),
        same,
        best,
      )

  -- Every selected index is the index of a track of the file that the rules allow, and that is in a
  -- kept language where only preferred languages are kept.
  pub select_audio_streams_sound :
      (lang : LanguagePreferences) (i : ℕ)
      → contains (select_audio_streams file rules lang).intent.selected_stream_indices i ≡ true
      → (s : AudioStream) × Memᴰ s file.audio_streams
        × (s.index ≡ i)
        × (is_allowed rules s ≡ true)
        × (rules.keep_only_preferred_languages ≡ true → IsKept rules s)
  unfolding choose_audio selectable_streams
  select_audio_streams_sound lang i h =
      elim (Bool-cases (is_empty (selectable_streams file rules))) [
        | inl e ↦ cc (rw (select_audio-none file rules lang e).2 at h)
        | inr e ↦
            let inside =
              mem_of_contains i (audio_indices (selected_audio file rules))
                (rw (select_audio-choose file rules lang e) at h) in
            let (s, m, same) = mem_of_mem-audio_indices (selected_audio file rules) inside in
            let p = selected_audio-mem file rules m in
            let candidate = mem_of_mem-filter (is_allowed rules) (candidate_streams file rules) p in
            (
              s,
              candidate-mem file rules candidate,
              same,
              test_of_mem-filter (is_allowed rules) (candidate_streams file rules) p,
              candidate-IsKept file rules candidate,
            )
      ]

  -- Every audio track of the file is selected or dropped, and never both.
  pub select_audio_streams_partition :
      (lang : LanguagePreferences) {s : AudioStream}
      → Memᴰ s file.audio_streams
      → let intent = (select_audio_streams file rules lang).intent in
        contains intent.dropped_stream_indices s.index
        ≡ not (contains intent.selected_stream_indices s.index)
  unfolding choose_audio dropped_audio
  select_audio_streams_partition lang {s} m =
      let listed = contains_of_mem _ (mem-audio_indices file.audio_streams m) in
      elim (Bool-cases (is_empty (selectable_streams file rules))) [
        | inl e ↦ let none = select_audio-none file rules lang e in rw (none.2, none.3) listed
        | inr e ↦ rw (select_audio-choose file rules lang e, contains-filter, listed) (ground arith)
      ]

  -- No more tracks are selected than the larger of the limit and the number of kept languages.
  pub select_audio_streams_limit :
      (lang : LanguagePreferences)
      → length (select_audio_streams file rules lang).intent.selected_stream_indices
        ≤ max rules.max_tracks_to_keep (length rules.keep_languages)
  unfolding choose_audio selected_audio effective_max_tracks preferred_language_order
  select_audio_streams_limit lang = elim (Bool-cases (is_empty (selectable_streams file rules))) [
    | inl e ↦ rw (select_audio-none file rules lang e).2 (omega arith)
    | inr e ↦
        rw (select_audio-choose file rules lang e, length-map)
          (omega (
            arith,
            length-take_le (effective_max_tracks file rules) (
                if rules.keep_only_preferred_languages
                then best_audio file rules
                else fill rules.max_tracks_to_keep (best_audio file rules)
                    (sorted_streams file rules)),
            length-ordered_language_codes rules.keep_languages,
          ))
  ]

  -- Something is selected where something is selectable.
  selected_audio_some :
      0 < rules.max_tracks_to_keep
      → is_empty (selectable_streams file rules) ≡ false
      → is_empty (selected_audio file rules) ≡ false
  unfolding selected_audio effective_max_tracks selectable_streams sorted_streams
  selected_audio_some h e = elim (Bool-cases rules.keep_only_preferred_languages) [
    | inl only ↦
        let (a, m) = mem_of_not_empty (selectable_streams file rules) e in
        let candidate = mem_of_mem-filter (is_allowed rules) (candidate_streams file rules) m in
        let (b, chosen, same, best) = best_of_kept m (candidate-IsKept file rules candidate only) in
        not_empty_of_mem (selected_audio file rules) (best_audio-selected file rules chosen)
    | inr all ↦
        is_empty-take (effective_max_tracks file rules) _ (omega arith)
        ∙ simp all (
            fill_some rules.max_tracks_to_keep (best_audio file rules) (sorted_streams file rules) (
              is_empty-sorted_reverse
                (audio_stream_score rules (language_ranks (preferred_language_order file rules)))
                (selectable_streams file rules)
              ∙ e))
  ]

  -- Where at least one track may be kept: the file goes to manual review, with its required audio
  -- reported missing and no primary track, exactly when no track is selected.
  pub select_audio_streams_review :
      (lang : LanguagePreferences)
      → 0 < rules.max_tracks_to_keep
      → let r = select_audio_streams file rules lang in
        (is_empty r.intent.selected_stream_indices ≡ r.requires_manual_review)
        × (r.intent.missing_required_audio ≡ r.requires_manual_review)
        × (is_none r.intent.primary_stream_index ≡ r.requires_manual_review)
  unfolding choose_audio
  select_audio_streams_review lang h =
      elim (Bool-cases (is_empty (selectable_streams file rules))) [
        | inl e ↦
            let none = select_audio-none file rules lang e in
            rw (none.0, none.1, none.2, none.4) (refl, refl, refl)
        | inr e ↦ rw (select_audio-choose file rules lang e) (
          is_empty-map (λ (t : AudioStream). t.index) (selected_audio file rules)
              ∙ selected_audio_some h e,
          refl,
          is_none-head? (audio_indices (selected_audio file rules))
              ∙ is_empty-map (λ (t : AudioStream). t.index) (selected_audio file rules)
              ∙ selected_audio_some h e,
        )
      ]
