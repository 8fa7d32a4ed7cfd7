-- ===== src/Planning/Audio/Laws.antt =====
-- What the selection of audio streams guarantees.
use encodr.Prelude.{
  ◌≤◌, ◌≡◌, refl, Bool, true, false, not, ◌&&◌, ◌||◌, none, [], Memᴰ, arith, if◌then◌else◌,
  Bool-cases, inl, inr, length, is_empty, mem_of_if, mem-if_both, mem_of_mem-filter,
  test_of_mem-filter, mem-filter_of_mem, mem_of_mem-take, nil_of_is_empty, &&_true,
}
use encodr.Config.{AudioRules, LanguagePreferences}
use encodr.Media.{AudioStream, MediaFile}
use encodr.Planning.Languages.{
  Listed, ordered_again, ordered_again_only, is_ranked-language_ranks, language_ranks,
}
use encodr.Planning.Append.{Extends, Extends-refl, mem-take_of_Extends}
use encodr.Planning.Best.{select_best-mem, length-select_best}
use encodr.Planning.Audio.{
  audio_quality_score, audio_stream_score, audio_language, audio_indices,
  select_best_audio_by_language, fill, preferred_language_order, is_preferred, preferred_streams,
  choose_audio, candidate_streams, selectable_streams, best_audio, sorted_streams,
  effective_max_tracks, selected_audio, select_audio_streams,
}
use encodr.Planning.Audio.Members.{mem_of_mem-sorted_reverse, fill-Extends, fill-mem}

-- A stream that is not commentary, or any stream where commentary is allowed.
abbrev pub is_allowed : AudioRules → AudioStream → Bool
is_allowed rules s = rules.allow_commentary || not s.is_commentary_candidate

-- A stream whose language is one that the rules keep.
abbrev pub IsKept : AudioRules → AudioStream → Type 0
IsKept rules s = Listed rules.keep_languages (audio_language s)

module _ (file : MediaFile) (rules : AudioRules) where
  is_preferred_of_IsKept : (s : AudioStream) → IsKept rules s → is_preferred file rules s ≡ true
  unfolding is_preferred preferred_language_order
  is_preferred_of_IsKept s k =
      rw is_ranked-language_ranks (ordered_again rules.keep_languages (audio_language s) k)

  IsKept-of_is_preferred : (s : AudioStream) → is_preferred file rules s ≡ true → IsKept rules s
  unfolding is_preferred preferred_language_order
  IsKept-of_is_preferred s h =
      ordered_again_only rules.keep_languages (audio_language s) (rw is_ranked-language_ranks at h)

  pub candidate-mem :
      {s : AudioStream} → Memᴰ s (candidate_streams file rules) → Memᴰ s file.audio_streams
  unfolding candidate_streams preferred_streams
  candidate-mem m = elim (mem_of_if rules.keep_only_preferred_languages m) [
    | inl e ↦ mem_of_mem-filter (is_preferred file rules) file.audio_streams e.1
    | inr e ↦ e.1
  ]

  pub candidate-IsKept :
      {s : AudioStream}
      → Memᴰ s (candidate_streams file rules)
      → rules.keep_only_preferred_languages ≡ true
      → IsKept rules s
  unfolding candidate_streams preferred_streams
  candidate-IsKept {s} m k = elim (mem_of_if rules.keep_only_preferred_languages m) [
    | inl e ↦
        IsKept-of_is_preferred s
          (test_of_mem-filter (is_preferred file rules) file.audio_streams e.1)
    | inr e ↦ cc
  ]

  pub candidate_of_kept :
      {s : AudioStream}
      → Memᴰ s file.audio_streams
      → IsKept rules s
      → Memᴰ s (candidate_streams file rules)
  unfolding candidate_streams preferred_streams
  candidate_of_kept {s} m k =
      mem-if_both rules.keep_only_preferred_languages
        (mem-filter_of_mem (is_preferred file rules) file.audio_streams m
          (is_preferred_of_IsKept s k))
        m

  pub best_audio-mem :
      {a : AudioStream} → Memᴰ a (best_audio file rules) → Memᴰ a (selectable_streams file rules)
  unfolding best_audio select_best_audio_by_language
  best_audio-mem m =
      select_best-mem audio_language (audio_quality_score rules) (selectable_streams file rules)
        (preferred_language_order file rules) m

  pub sorted_streams-mem :
      {a : AudioStream}
      → Memᴰ a (sorted_streams file rules)
      → Memᴰ a (selectable_streams file rules)
  unfolding sorted_streams
  sorted_streams-mem m =
      mem_of_mem-sorted_reverse
        (audio_stream_score rules (language_ranks (preferred_language_order file rules)))
        (selectable_streams file rules) m

  length-best_audio : length (best_audio file rules) ≤ effective_max_tracks file rules
  unfolding best_audio select_best_audio_by_language effective_max_tracks
  length-best_audio = omega (
    arith,
    length-select_best audio_language (audio_quality_score rules) (selectable_streams file rules)
        (preferred_language_order file rules),
  )

  pub best_audio-Extends : Extends (best_audio file rules) (
      if rules.keep_only_preferred_languages
      then best_audio file rules
      else fill rules.max_tracks_to_keep (best_audio file rules) (sorted_streams file rules))
  best_audio-Extends = elim (Bool-cases rules.keep_only_preferred_languages) [
    | inl e ↦ simp e (Extends-refl (best_audio file rules))
    | inr e ↦
        simp e (
          fill-Extends rules.max_tracks_to_keep (best_audio file rules) (sorted_streams file rules))
  ]

  -- Only selectable streams are selected.
  pub selected_audio-mem :
      {a : AudioStream}
      → Memᴰ a (selected_audio file rules)
      → Memᴰ a (selectable_streams file rules)
  unfolding selected_audio
  selected_audio-mem m =
      elim (mem_of_if rules.keep_only_preferred_languages
        (mem_of_mem-take (effective_max_tracks file rules) _ m)) [
          | inl e ↦ best_audio-mem e.1
          | inr e ↦
              elim (fill-mem rules.max_tracks_to_keep (best_audio file rules)
                (sorted_streams file rules) e.1) [
                  | inl k ↦ best_audio-mem k
                  | inr k ↦ sorted_streams-mem k
                ]
        ]

  -- The best of each language is never truncated away.
  pub best_audio-selected :
      {a : AudioStream} → Memᴰ a (best_audio file rules) → Memᴰ a (selected_audio file rules)
  unfolding selected_audio
  best_audio-selected m =
      mem-take_of_Extends (effective_max_tracks file rules) best_audio-Extends length-best_audio m

  none_selectable :
      (rules.keep_only_preferred_languages && is_empty (preferred_streams file rules)) ≡ true
      → is_empty (selectable_streams file rules) ≡ true
  unfolding selectable_streams candidate_streams
  none_selectable h =
      let (only, none_preferred) =
        &&_true rules.keep_only_preferred_languages (is_empty (preferred_streams file rules)) h in
      simp (only, nil_of_is_empty (preferred_streams file rules) none_preferred)

  -- Past both early returns.
  pub select_audio-choose :
      (lang : LanguagePreferences)
      → is_empty (selectable_streams file rules) ≡ false
      → select_audio_streams file rules lang ≡ choose_audio file rules
  unfolding select_audio_streams
  select_audio-choose lang h =
      elim (Bool-cases
        (rules.keep_only_preferred_languages && is_empty (preferred_streams file rules))) [
          | inl e ↦ cc (none_selectable e)
          | inr e ↦ rw (e, h)
        ]

  -- The early returns select nothing.
  pub select_audio-none :
      (lang : LanguagePreferences)
      → is_empty (selectable_streams file rules) ≡ true
      → let r = select_audio_streams file rules lang in
        (r.requires_manual_review ≡ true)
        × (r.intent.missing_required_audio ≡ true)
        × (r.intent.selected_stream_indices ≡ [])
        × (r.intent.dropped_stream_indices ≡ audio_indices file.audio_streams)
        × (r.intent.primary_stream_index ≡ none)
  unfolding select_audio_streams
  select_audio-none lang h =
      elim (Bool-cases
        (rules.keep_only_preferred_languages && is_empty (preferred_streams file rules))) [
          | inl e ↦ rw e (refl, refl, refl, refl, refl)
          | inr e ↦ rw (e, h) (refl, refl, refl, refl, refl)
        ]
