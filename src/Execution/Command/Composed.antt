-- ===== src/Execution/Command/Composed.antt =====
-- The planner of packages/core/encodr_core/planning/planner.py, the command of execution/ffmpeg_builder.py beside it, and
-- the checks of verification/rules.py, together.
use mathlib.Core.List.Memᴰ
use encodr.Prelude.{
  ℕ, ◌≡◌, refl, sym, ap, ◌∙◌, true, false, Option, none, some, List, [], ◌∷◌, ◌++◌, map, Memᴰ, All,
  mem-All, contains, mem_of_contains, contains_of_mem, Distinct, is_none, Bool-cases, Option-cases,
  inl, inr, ◌==◌,
}
use encodr.Config.{LanguagePreferences}
use encodr.Media.{VideoStream, AudioStream, SubtitleStream, MediaFile}
use encodr.Planning.Planner.{ResolvedPolicy, build_processing_plan}
use encodr.Planning.Planner.Streams.{build_processing_plan_video_listed}
use encodr.Planning.Audio.{audio_indices}
use encodr.Planning.Audio.Choice.{select_audio_streams_sound}
use encodr.Planning.Audio.Unique.{select_audio_streams-Distinct, select_audio_streams_primary}
use encodr.Planning.Audio.Members.{mem-audio_indices}
use encodr.Planning.Subtitles.{subtitle_indices, selected_subtitles, select_subtitle_streams}
use encodr.Planning.Subtitles.Members.{selected_subtitles-mem}
use encodr.Replacement.Paths.{FilePath}
use encodr.Verification.Rules.{
  by_index, audio_stream_selection_matches_plan, audio_default_disposition_matches_plan,
}
use encodr.Execution.Backend.{SelectedExecutionBackend}
use encodr.Execution.Command.{ExecutionCommandPlan, build_execution_command_plan}
use encodr.Execution.Command.Defaults.{Listed}
use encodr.Execution.Command.Verified.{AudioFollows, split_All, build_execution_command_plan-audio}

module _ {A : Type 0} (index : A → ℕ) where
  absent_of_fresh :
      (streams : List A) (i : ℕ)
      → contains (map index streams) i ≡ false
      → by_index index streams i ≡ none
  unfolding by_index
  absent_of_fresh [] i h = refl
  absent_of_fresh (s ∷ ss) i h = elim (Bool-cases (index s == i)) [
    | inl e ↦ absurd (cc (simp e at h))
    | inr e ↦ simp (absent_of_fresh ss i (simp e at h), e) refl
  ]

  found_of_listed :
      (streams : List A) (i : ℕ)
      → contains (map index streams) i ≡ true
      → is_none (by_index index streams i) ≡ false
  unfolding by_index
  found_of_listed [] i h = cc
  found_of_listed (s ∷ ss) i h = elim (Option-cases (by_index index ss i)) [
    | inr (t, f) ↦ simp f refl
    | inl f ↦ elim (Bool-cases (index s == i)) [
      | inl e ↦ simp (f, e) refl
      | inr e ↦ absurd (cc (ap is_none f, found_of_listed ss i (simp e at h)))
    ]
  ]

by_members : (P : ℕ → Type 0) (xs : List ℕ) → ((i : ℕ) → contains xs i ≡ true → P i) → All P xs
by_members P [] h = tt
by_members P (x ∷ xs) h = (
  h x (contains_of_mem (x ∷ xs) (Memᴰ.head refl)),
  by_members P xs (λ i k. h i (contains_of_mem (x ∷ xs) (Memᴰ.tail (mem_of_contains i xs k)))),
)

All-append : (P : ℕ → Type 0) (xs ys : List ℕ) → All P xs → All P ys → All P (xs ++ ys)
All-append P [] ys h k = k
All-append P (x ∷ xs) ys (p, h) k = (p, All-append P xs ys h k)

map-All_mono :
    {A : Type 0} (P : ℕ → Type 0) (f : A → ℕ) (xs ys : List A)
    → All P (map f ys)
    → ((a : A) → Memᴰ a xs → Memᴰ a ys)
    → All P (map f xs)
map-All_mono P f [] ys h sub = tt
map-All_mono P f (x ∷ xs) ys h sub = (
  mem-All P (map f ys) h (Memᴰ.map f (sub x (Memᴰ.head refl))),
  map-All_mono P f xs ys h (λ a m. sub a (Memᴰ.tail m)),
)

primary_there :
    (o : Option ℕ) (is : List ℕ) → ((i : ℕ) → o ≡ some i → contains is i ≡ true) → Listed o is
primary_there none is h = tt
primary_there (some i) is h = h i refl

-- No stream of another kind has the index of an audio track.
abbrev pub KindsApart : MediaFile → Type 0
KindsApart file =
    All (λ i. contains (audio_indices file.audio_streams) i ≡ false)
      (map (λ (v : VideoStream). v.index) file.video_streams
        ++ (subtitle_indices file.subtitle_streams
            ++ (file.attachment_indices ++ file.data_indices)))

module _ (file : MediaFile) (policy : ResolvedPolicy) (languages : LanguagePreferences) where
  foreign_lem :
      KindsApart file
      → let selected = (build_processing_plan file policy languages).selected_streams in
        All
          (λ i. by_index (λ (s : AudioStream). s.index) file.audio_streams i ≡ none)
          (selected.video_stream_indices
            ++ (selected.subtitle_stream_indices
                ++ (selected.attachment_stream_indices ++ selected.data_stream_indices)))
  unfolding build_processing_plan select_subtitle_streams
  foreign_lem apart =
      let Fresh : ℕ → Type 0 = λ i. contains (audio_indices file.audio_streams) i ≡ false in
      let (videos, others) =
        split_All Fresh (map (λ (v : VideoStream). v.index) file.video_streams) _ apart in
      let (subtitles, rest) = split_All Fresh (subtitle_indices file.subtitle_streams) _ others in
      let selected = (build_processing_plan file policy languages).selected_streams in
      by_members _ _ (λ i k.
        absent_of_fresh (λ (s : AudioStream). s.index) file.audio_streams i
          (mem-All Fresh _
            (All-append Fresh selected.video_stream_indices _
              (by_members Fresh selected.video_stream_indices (λ j l. mem-All Fresh _ videos (
                mem_of_contains j _
                  (build_processing_plan_video_listed file policy languages j l))))
              (All-append Fresh selected.subtitle_stream_indices _
                (map-All_mono Fresh (λ (s : SubtitleStream). s.index)
                  (selected_subtitles file policy.subtitle_rules languages) file.subtitle_streams
                  subtitles (λ s m. selected_subtitles-mem file policy.subtitle_rules languages m))
                rest))
            (mem_of_contains i _ k)))

  -- Where every audio track of the file has an index that no other of its streams has: whatever is planned for the
  -- file under any policy, an output that follows the plan's command, as ffmpeg documents the mapping, the codec
  -- `copy`, where the command gives it, and the dispositions of audio streams, passes both of the verifier's checks of the audio.
  pub build-command_verified :
      (output : MediaFile) (input ffmpeg : FilePath) (scratch_dir : List ℕ)
      (job_id : Option (List ℕ)) (backend : Option SelectedExecutionBackend)
      {c : ExecutionCommandPlan} {made : FilePath}
      → Distinct (audio_indices file.audio_streams)
      → KindsApart file
      → build_execution_command_plan
          (build_processing_plan file policy languages)
          input
          ffmpeg
          scratch_dir
          job_id
          backend
        ≡ some c
      → c.output_path ≡ some made
      → AudioFollows c.command file output
      → (audio_stream_selection_matches_plan file
            (build_processing_plan file policy languages)
            output
          ≡ true)
        × (audio_default_disposition_matches_plan
              (build_processing_plan file policy languages)
              output
            ≡ true)
  unfolding build_processing_plan
  build-command_verified output input ffmpeg scratch_dir job_id backend unique apart h named
        follows =
      let plan = build_processing_plan file policy languages in
      build_execution_command_plan-audio plan file output input ffmpeg scratch_dir job_id backend h
        named
        (by_members _ plan.selected_streams.audio_stream_indices (λ i k.
          let (s, m, same, _, _) =
            select_audio_streams_sound file policy.audio_rules languages i k in
          found_of_listed (λ (t : AudioStream). t.index) file.audio_streams i
            (ap (contains (audio_indices file.audio_streams)) (sym same)
              ∙ contains_of_mem (audio_indices file.audio_streams)
                  (mem-audio_indices file.audio_streams m))))
        (foreign_lem apart) (select_audio_streams-Distinct file policy.audio_rules unique languages)
        (primary_there _ _
          (λ i e. select_audio_streams_primary file policy.audio_rules unique languages e))
        follows
