-- ===== src/Planning/Subtitles/Choice.antt =====
-- The choice of subtitle tracks, as the planner's client sees it.
use mathlib.Core.List.Memᴰ
use encodr.Prelude.{
  ◌≡◌, refl, sym, ◌∙◌, true, false, not, ◌&&◌, List, [], ◌∷◌, Memᴰ, arith, Bool-cases, inl, inr,
  contains, is_empty, mem-filter_of_mem, mem_of_mem-filter, contains_of_mem, contains-filter,
  not_empty_of_mem, mem_of_if, test_of_mem-filter, &&_true, ==_iff,
}
use encodr.Config.{SubtitleRules, LanguagePreferences}
use encodr.Media.{SubtitleStream, MediaFile}
use encodr.Planning.Languages.{
  Listed, ordered_language_codes, ordered_takes, ordered_again, is_ranked-language_ranks,
  language_ranks,
}
use encodr.Planning.Scores.{Key, key_lt, sorted_reverse, insert_sorted}
use encodr.Planning.Append.{append_all_new-Extends, append_all_new-arg, mem_of_Extends}
use encodr.Planning.Best.{select_best-best, select_best-mem}
use encodr.Planning.Subtitles.{
  same_subtitle, subtitle_language, subtitle_indices, subtitle_stream_score, is_main,
  select_best_subtitle_by_language, preferred_order, forced_order, is_preferred, in_forced_language,
  forced_candidates, main_candidates, forced_streams, main_streams, hearing_impaired_streams,
  picked_streams, selected_subtitles, dropped_subtitles, select_subtitle_streams,
}

mem-subtitle_indices :
    (xs : List SubtitleStream) {s : SubtitleStream} → Memᴰ s xs → Memᴰ s.index (subtitle_indices xs)
mem-subtitle_indices xs m = Memᴰ.map (λ (t : SubtitleStream). t.index) m

insert_sorted-mem :
    {A : Type 0} (key : A → Key) (x : A) (ys : List A) {a : A}
    → Memᴰ a (x ∷ ys)
    → Memᴰ a (insert_sorted key x ys)
unfolding insert_sorted
insert_sorted-mem key x [] m = m
insert_sorted-mem key x (y ∷ ys) {a} m = elim (Bool-cases (key_lt (key x) (key y))) [
  | inl e ↦ rw e (elim (Memᴰ.cases_cons m) [
    | inl p ↦ Memᴰ.tail (insert_sorted-mem key x ys (Memᴰ.head p))
    | inr r ↦ elim (Memᴰ.cases_cons r) [
      | inl p ↦ Memᴰ.head p
      | inr q ↦ Memᴰ.tail (insert_sorted-mem key x ys (Memᴰ.tail q))
    ]
  ])
  | inr e ↦ rw e m
]

sorted_reverse-mem :
    {A : Type 0} (key : A → Key) (xs : List A) {a : A} → Memᴰ a xs → Memᴰ a (sorted_reverse key xs)
unfolding sorted_reverse
sorted_reverse-mem key [] m = m
sorted_reverse-mem key (x ∷ xs) m = elim (Memᴰ.cases_cons m) [
  | inl e ↦ insert_sorted-mem key x (sorted_reverse key xs) (Memᴰ.head e)
  | inr r ↦
      insert_sorted-mem key x (sorted_reverse key xs) (Memᴰ.tail (sorted_reverse-mem key xs r))
]

same_subtitle-index : (a b : SubtitleStream) → same_subtitle a b ≡ true → b.index ≡ a.index
unfolding same_subtitle
same_subtitle-index a b h = sym ((==_iff a.index b.index).0 (&&_true _ _ h).0)

module _ (file : MediaFile) (rules : SubtitleRules) (languages : LanguagePreferences) where
  picked-selected :
      {a c : SubtitleStream}
      → Memᴰ a file.subtitle_streams
      → Memᴰ c (picked_streams file rules languages)
      → c.index ≡ a.index
      → contains
          (select_subtitle_streams file rules languages).intent.selected_stream_indices
          a.index
        ≡ true
  unfolding select_subtitle_streams selected_subtitles
  picked-selected {a} m k e = elim (Bool-cases (not rules.drop_other_subtitles)) [
    | inl all ↦ simp all (contains_of_mem _ (mem-subtitle_indices file.subtitle_streams m))
    | inr few ↦ simp few (
        rw (← e) (contains_of_mem _ (mem-subtitle_indices (picked_streams file rules languages) k)))
  ]

  -- Where forced subtitles are preserved, every track of the file that is flagged as forced, in a
  -- language whose forced tracks are kept, is selected.
  pub select_subtitle_streams_forced :
      {a : SubtitleStream}
      → Memᴰ a file.subtitle_streams
      → languages.preserve_forced_subtitles ≡ true
      → a.forced ≡ true
      → Listed rules.keep_forced_languages (subtitle_language a)
      → contains
          (select_subtitle_streams file rules languages).intent.selected_stream_indices
          a.index
        ≡ true
  unfolding picked_streams forced_streams forced_candidates in_forced_language forced_order
  select_subtitle_streams_forced {a} m preserve forced kept =
      let ranked =
        is_ranked-language_ranks (ordered_language_codes rules.keep_forced_languages)
          (subtitle_language a)
        ∙ ordered_again rules.keep_forced_languages (subtitle_language a) kept in
      let candidate : Memᴰ a (forced_candidates file rules languages) = simp preserve (
        mem-filter_of_mem (λ s. in_forced_language file rules languages s && s.forced)
          file.subtitle_streams m (simp (ranked, forced))) in
      let sorted =
        sorted_reverse-mem
          (subtitle_stream_score (language_ranks (forced_order file rules languages)))
          (forced_candidates file rules languages) candidate in
      picked-selected m
        (mem_of_Extends
          (append_all_new-Extends same_subtitle _ (hearing_impaired_streams file rules languages))
          (mem_of_Extends
            (append_all_new-Extends same_subtitle _ (main_streams file rules languages)) sorted))
        refl

  -- Every subtitle track of the file is selected or dropped, and never both; where the other
  -- subtitles are not to be dropped, each is selected.
  pub select_subtitle_streams_partition :
      {s : SubtitleStream}
      → Memᴰ s file.subtitle_streams
      → let intent = (select_subtitle_streams file rules languages).intent in
        (contains intent.dropped_stream_indices s.index
          ≡ not (contains intent.selected_stream_indices s.index))
        × (rules.drop_other_subtitles ≡ false
            → contains intent.selected_stream_indices s.index ≡ true)
  unfolding select_subtitle_streams dropped_subtitles selected_subtitles
  select_subtitle_streams_partition {s} m =
      let listed = contains_of_mem _ (mem-subtitle_indices file.subtitle_streams m) in
      (rw (contains-filter, listed) (ground arith), λ h. simp h listed)

  main_candidate_of_kept :
      {a : SubtitleStream}
      → Memᴰ a file.subtitle_streams
      → is_main a ≡ true
      → Listed rules.keep_languages (subtitle_language a)
      → Memᴰ a (main_candidates file rules languages)
  unfolding main_candidates is_preferred preferred_order
  main_candidate_of_kept {a} m main kept =
      let ranked =
        is_ranked-language_ranks (ordered_language_codes rules.keep_languages) (subtitle_language a)
        ∙ ordered_again rules.keep_languages (subtitle_language a) kept in
      mem-filter_of_mem (λ s. is_preferred file rules languages s && is_main s)
        file.subtitle_streams m (simp ranked main)

  main_streams-candidate :
      {b : SubtitleStream}
      → Memᴰ b (main_streams file rules languages)
      → Memᴰ b (main_candidates file rules languages)
  unfolding main_streams select_best_subtitle_by_language
  main_streams-candidate m =
      elim (mem_of_if
        (rules.keep_one_full_preferred_subtitle
          && not (is_empty (main_candidates file rules languages)))
        m) [
          | inl e ↦
              select_best-mem subtitle_language (subtitle_stream_score [])
                (main_candidates file rules languages) (preferred_order file rules languages) e.1
          | inr e ↦ elim e.1 [ ]
        ]

  main_best :
      {a : SubtitleStream}
      → Memᴰ a (main_candidates file rules languages)
      → rules.keep_one_full_preferred_subtitle ≡ true
      → Listed rules.keep_languages (subtitle_language a)
      → (b : SubtitleStream) × Memᴰ b (main_streams file rules languages)
        × (subtitle_language b ≡ subtitle_language a)
        × (key_lt (subtitle_stream_score [] b) (subtitle_stream_score [] a) ≡ false)
  unfolding main_streams select_best_subtitle_by_language preferred_order
  main_best {a} m keep kept =
      simp (keep, not_empty_of_mem (main_candidates file rules languages) m)
        (select_best-best subtitle_language (subtitle_stream_score [])
          (main_candidates file rules languages) (preferred_order file rules languages) m
          (ordered_takes rules.keep_languages (subtitle_language a) kept))

  -- Where one full subtitle is kept, for every full track of the file in a kept language a track in
  -- that language is selected whose score is not below it.
  pub select_subtitle_streams_main :
      {a : SubtitleStream}
      → Memᴰ a file.subtitle_streams
      → rules.keep_one_full_preferred_subtitle ≡ true
      → is_main a ≡ true
      → Listed rules.keep_languages (subtitle_language a)
      → (b : SubtitleStream) × Memᴰ b file.subtitle_streams
        × (contains
              (select_subtitle_streams file rules languages).intent.selected_stream_indices
              b.index
            ≡ true)
        × (is_main b ≡ true)
        × (subtitle_language b ≡ subtitle_language a)
        × (key_lt (subtitle_stream_score [] b) (subtitle_stream_score [] a) ≡ false)
  unfolding picked_streams main_candidates
  select_subtitle_streams_main {a} m keep main kept =
      let (b, chosen, same, best) = main_best (main_candidate_of_kept m main kept) keep kept in
      let (c, found, index) =
        append_all_new-arg same_subtitle (λ s. s.index) same_subtitle-index
          (forced_streams file rules languages) (main_streams file rules languages) chosen in
      let candidate = main_streams-candidate chosen in
      let inside =
        mem_of_mem-filter (λ s. is_preferred file rules languages s && is_main s)
          file.subtitle_streams candidate in
      let tested =
        test_of_mem-filter (λ s. is_preferred file rules languages s && is_main s)
          file.subtitle_streams candidate in
      (
        b,
        inside,
        picked-selected inside
            (mem_of_Extends
              (append_all_new-Extends same_subtitle _
                (hearing_impaired_streams file rules languages))
              found)
            index,
        (&&_true _ _ tested).1,
        same,
        best,
      )
