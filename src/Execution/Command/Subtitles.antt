-- ===== src/Execution/Command/Subtitles.antt =====
-- The subtitles under the command of packages/core/encodr_core/execution/ffmpeg_builder.py, against the checks of
-- packages/core/encodr_core/verification/rules.py.
use encodr.Prelude.{
  Distinct, length-map, ℕ, ◌≡◌, refl, sym, ap, subst, ◌∙◌, Bool, true, false, ◌&&◌, ◌||◌, Option,
  none, some, List, [], ◌∷◌, ◌++◌, map, if◌then◌else◌, All, contains, Bool-cases, inl, inr, str_eq,
  list_eq, iff, ==_iff, ◌==◌, arith, is_empty, String, not,
}
use encodr.Media.{SubtitleStream, MediaFile}
use encodr.Planning.Models.{ProcessingPlan}
use encodr.Planning.Languages.{language_code}
use encodr.Replacement.Paths.{FilePath}
use encodr.Verification.Rules.{
  by_index, planned_streams, planned_subtitle_streams, normalised_codec, subtitle_stream_matches,
  all_zip, subtitle_stream_selection_matches_plan, subtitle_default_disposition_matches_plan,
  main_default_matches, no_default,
}
use encodr.Execution.Backend.{SelectedExecutionBackend}
use encodr.Execution.Command.{
  subtitle, Argument, is_index, subtitle_disposition, ExecutionCommandPlan, build_temp_output_path,
  build_execution_command_plan,
}
use encodr.Execution.Command.Reading.{
  mapped, dispositions, numbered, all_selected, mapped-command_of, subtitle_dispositions,
}
use encodr.Execution.Command.Copied.{codec_for, is_copy, for_subtitles}
use encodr.Execution.Command.Copying.{copies-command_of}
use encodr.Execution.Command.Defaults.{Set, Listed, marks_lem, main_default_lem}
use encodr.Execution.Command.Planned.{Named, Foreign, planned-Foreign, planned_own, length-planned}
use encodr.Execution.Command.Verified.{Copies, length-Copies, map-ap, split_All, shape_by}

abbrev pub index_of : SubtitleStream → ℕ
index_of s = s.index

-- An output track has the language of its source, its codec if the stream is copied, and the mark that a probe
-- derives: from its flag, or from its title, which is copied.
abbrev pub CopiedSubtitle :
    (SubtitleStream → Bool) → Option String → SubtitleStream → SubtitleStream → Type 0
CopiedSubtitle titled codec o s =
    (str_eq (language_code o.language) (language_code s.language) ≡ true)
    × ((not (is_copy codec)
          || list_eq (normalised_codec o.codec_name) (normalised_codec s.codec_name))
        ≡ true)
    × (o.is_forced ≡ (o.forced || titled s))

-- What ffmpeg makes of the subtitles of a source under a command, and what a probe says of both.
pub record SubtitlesFollow (titled : SubtitleStream → Bool) (command : List Argument)
    (source output : MediaFile) : Type 0 where
  pub copied :
      Copies
        (CopiedSubtitle titled (codec_for "-c:s" command))
        output.subtitle_streams
        (planned_streams (λ (s : SubtitleStream). s.index) source.subtitle_streams (mapped command))
  pub defaults :
      Set "default" (dispositions subtitle command) 0 (map (λ s. s.default) output.subtitle_streams)
  pub forced :
      Set "forced" (dispositions subtitle command) 0 (map (λ s. s.forced) output.subtitle_streams)

-- The mark of every selected track comes through: it is in the title, or the plan forces the track exactly if the
-- source does.
abbrev pub marks_kept : (SubtitleStream → Bool) → List ℕ → List SubtitleStream → List ℕ → Bool
marks_kept titled forced [] indices = true
marks_kept titled forced (s ∷ ss) [] = true
marks_kept titled forced (s ∷ ss) (i ∷ is) =
    (titled s || iff (contains forced i) s.forced) && marks_kept titled forced ss is

mark_of : (f t b : Bool) → iff (f || (f || t)) (b || (b || t)) ≡ (t || iff f b)
mark_of true t b = ground arith
mark_of false t b = ground arith

matches_mark :
    (titled : SubtitleStream → Bool) (o s : SubtitleStream)
    → CopiedSubtitle titled (some "copy") o s
    → s.is_forced ≡ (s.forced || titled s)
    → subtitle_stream_matches o s ≡ (titled s || iff o.forced s.forced)
unfolding subtitle_stream_matches
matches_mark titled o s (language, codec, mark) first =
    simp (language, codec, mark, first) (mark_of o.forced (titled s) s.forced)

matches-kept :
    (titled : SubtitleStream → Bool) (forced : List ℕ) (os ss : List SubtitleStream) (is : List ℕ)
    → Copies (CopiedSubtitle titled (some "copy")) os ss
    → All (λ (s : SubtitleStream). s.is_forced ≡ (s.forced || titled s)) ss
    → map (λ (s : SubtitleStream). s.forced) os ≡ map (contains forced) is
    → all_zip subtitle_stream_matches os ss ≡ marks_kept titled forced ss is
unfolding all_zip subtitle_stream_matches
matches-kept titled forced [] [] is copied marked same = refl
matches-kept titled forced [] (s ∷ ss) is copied marked same = absurd copied
matches-kept titled forced (o ∷ os) [] is copied marked same = absurd copied
matches-kept titled forced (o ∷ os) (s ∷ ss) [] copied marked same = cc
matches-kept titled forced (o ∷ os) (s ∷ ss) (i ∷ is) (copy, copied) (first, marked) same =
    let flag : o.forced ≡ contains forced i = cc same in
    let rest : map (λ (t : SubtitleStream). t.forced) os ≡ map (contains forced) is = cc same in
    ap (λ b. b && all_zip subtitle_stream_matches os ss)
      (matches_mark titled o s copy first ∙ ap (λ b. titled s || iff b s.forced) flag)
    ∙ ap (λ b. (titled s || iff (contains forced i) s.forced) && b)
        (matches-kept titled forced os ss is copied marked rest)

forced_mark :
    (plan : ProcessingPlan) (i : ℕ)
    → str_eq (subtitle_disposition plan i) "forced"
      ≡ contains plan.subtitles.forced_stream_indices i
unfolding subtitle_disposition
forced_mark plan i = elim (Bool-cases (contains plan.subtitles.forced_stream_indices i)) [
  | inl e ↦ rw e refl
  | inr e ↦ elim (Bool-cases (is_index plan.subtitles.main_stream_index i)) [
    | inl f ↦ rw (e, f) refl
    | inr f ↦ rw (e, f) refl
  ]
]

-- The main subtitle, if there is one, is not forced.
abbrev pub NotForced : Option ℕ → List ℕ → Type 0
NotForced none forced = Unit
NotForced (some main) forced = contains forced main ≡ false

main-NotForced :
    (main : Option ℕ) (forced : List ℕ) (i : ℕ)
    → NotForced main forced
    → contains forced i ≡ true
    → is_index main i ≡ false
main-NotForced none forced i h e = refl
main-NotForced (some m) forced i h e = elim (Bool-cases (i == m)) [
  | inr f ↦ f
  | inl f ↦ absurd (cc (sym (ap (contains forced) ((==_iff i m).0 f)) ∙ e, h))
]

main_mark :
    (plan : ProcessingPlan)
    → NotForced plan.subtitles.main_stream_index plan.subtitles.forced_stream_indices
    → (i : ℕ)
    → str_eq (subtitle_disposition plan i) "default" ≡ is_index plan.subtitles.main_stream_index i
unfolding subtitle_disposition
main_mark plan h i = elim (Bool-cases (contains plan.subtitles.forced_stream_indices i)) [
  | inl e ↦
      rw
        (
          e,
          main-NotForced plan.subtitles.main_stream_index plan.subtitles.forced_stream_indices i h
              e,
        )
        refl
  | inr e ↦ elim (Bool-cases (is_index plan.subtitles.main_stream_index i)) [
    | inl f ↦ rw (e, f) refl
    | inr f ↦ rw (e, f) refl
  ]
]

module _ (titled : SubtitleStream → Bool) (plan : ProcessingPlan) (source output : MediaFile) where
  planned_mapped :
      (command : List Argument)
      → mapped command ≡ all_selected plan
      → Foreign index_of source.subtitle_streams (
          plan.selected_streams.video_stream_indices
          ++ (plan.selected_streams.audio_stream_indices
              ++ (plan.selected_streams.attachment_stream_indices
                  ++ plan.selected_streams.data_stream_indices)))
      → planned_streams index_of source.subtitle_streams (mapped command)
        ≡ planned_subtitle_streams source plan
  unfolding planned_subtitle_streams
  planned_mapped command mapping others =
      let streams = source.subtitle_streams in
      let selected = plan.selected_streams in
      let (before, after) =
        split_All (λ i. by_index index_of streams i ≡ none) selected.video_stream_indices _
          others in
      let (between, behind) =
        split_All (λ i. by_index index_of streams i ≡ none) selected.audio_stream_indices _ after in
      ap (planned_streams index_of streams) mapping
      ∙ planned-Foreign index_of streams selected.video_stream_indices _ before
      ∙ planned-Foreign index_of streams selected.audio_stream_indices _ between
      ∙ planned_own index_of streams selected.subtitle_stream_indices _ behind

  subtitle_checks_lem :
      (command : List Argument)
      → mapped command ≡ all_selected plan
      → codec_for "-c:s" command ≡ some "copy"
      → dispositions subtitle command
        ≡ numbered (subtitle_disposition plan) 0 plan.selected_streams.subtitle_stream_indices
      → Named index_of source.subtitle_streams plan.selected_streams.subtitle_stream_indices
      → Foreign index_of source.subtitle_streams (
          plan.selected_streams.video_stream_indices
          ++ (plan.selected_streams.audio_stream_indices
              ++ (plan.selected_streams.attachment_stream_indices
                  ++ plan.selected_streams.data_stream_indices)))
      → All
          (λ (s : SubtitleStream). s.is_forced ≡ (s.forced || titled s))
          (planned_subtitle_streams source plan)
      → SubtitlesFollow titled command source output
      → (subtitle_stream_selection_matches_plan source plan output
          ≡ marks_kept titled plan.subtitles.forced_stream_indices
              (planned_subtitle_streams source plan)
              plan.selected_streams.subtitle_stream_indices)
        × (map (λ (s : SubtitleStream). s.default) output.subtitle_streams
            ≡ map
                (λ i. str_eq (subtitle_disposition plan i) "default")
                plan.selected_streams.subtitle_stream_indices)
  unfolding subtitle_stream_selection_matches_plan planned_subtitle_streams
  subtitle_checks_lem command mapping copy set own others marked follows =
      let selected = plan.selected_streams.subtitle_stream_indices in
      let streams = output.subtitle_streams in
      let copied =
        subst (Copies (CopiedSubtitle titled (some "copy")) streams)
          (planned_mapped command mapping others)
          (subst
            (λ t.
              Copies (CopiedSubtitle titled t) streams
                (planned_streams index_of source.subtitle_streams (mapped command)))
            copy follows.copied) in
      let many = length-planned index_of source.subtitle_streams selected own in
      let count = length-Copies (CopiedSubtitle titled (some "copy")) streams _ copied in
      let forced =
        marks_lem "forced" (subtitle_disposition plan) 0
          (map (λ (s : SubtitleStream). s.forced) streams) selected
          (length-map _ streams ∙ count ∙ many)
          (subst (λ t. Set "forced" t 0 (map (λ (s : SubtitleStream). s.forced) streams)) set
            follows.forced)
        ∙ map-ap _ _ (forced_mark plan) selected in
      (
        simp ((==_iff _ _).1 many, (==_iff _ _).1 count)
            (matches-kept titled plan.subtitles.forced_stream_indices streams _ selected copied
              marked forced),
        marks_lem "default" (subtitle_disposition plan) 0
            (map (λ (s : SubtitleStream). s.default) streams) selected
            (length-map _ streams ∙ count ∙ many)
            (subst (λ t. Set "default" t 0 (map (λ (s : SubtitleStream). s.default) streams)) set
              follows.defaults),
      )

-- The defaults that the check compares, by whether a subtitle is selected.
default_by_selection :
    (main : Option ℕ) (is : List ℕ) (ds : List Bool)
    → Distinct is
    → Listed main is
    → ds ≡ map (λ i. is_index main i) is
    → (if is_empty is then no_default ds else main_default_matches main is ds) ≡ true
default_by_selection main [] ds distinct listed e = rw e refl
default_by_selection main (i ∷ is) ds distinct listed e =
    main_default_lem main (i ∷ is) ds distinct listed e

-- The indices that the plan selects as subtitles are ones of the source's subtitles, each once; its other selected
-- indices are none of theirs; the main subtitle is among them, if there is one, and is not forced; and the probe marks
-- a selected track as forced by its flag or its title. Then what ffmpeg makes under a command that is built for an
-- output, with the codecs that the command copies, has the default that the verifier looks for; and it passes the check
-- of the selection exactly when the mark of each selected track comes through, by its title or because the plan forces
-- the tracks that the source forces.
pub build_execution_command_plan-subtitles :
    (titled : SubtitleStream → Bool) (plan : ProcessingPlan) (source output : MediaFile)
    (input ffmpeg : FilePath) (scratch_dir : List ℕ) (job_id : Option (List ℕ))
    (backend : Option SelectedExecutionBackend) {c : ExecutionCommandPlan} {made : FilePath}
    → build_execution_command_plan plan input ffmpeg scratch_dir job_id backend ≡ some c
    → c.output_path ≡ some made
    → Named index_of source.subtitle_streams plan.selected_streams.subtitle_stream_indices
    → Foreign index_of source.subtitle_streams (
        plan.selected_streams.video_stream_indices
        ++ (plan.selected_streams.audio_stream_indices
            ++ (plan.selected_streams.attachment_stream_indices
                ++ plan.selected_streams.data_stream_indices)))
    → Distinct plan.selected_streams.subtitle_stream_indices
    → Listed plan.subtitles.main_stream_index plan.selected_streams.subtitle_stream_indices
    → NotForced plan.subtitles.main_stream_index plan.subtitles.forced_stream_indices
    → All
        (λ (s : SubtitleStream). s.is_forced ≡ (s.forced || titled s))
        (planned_subtitle_streams source plan)
    → SubtitlesFollow titled c.command source output
    → (subtitle_default_disposition_matches_plan plan output ≡ true)
      × (subtitle_stream_selection_matches_plan source plan output
          ≡ marks_kept titled plan.subtitles.forced_stream_indices
              (planned_subtitle_streams source plan)
              plan.selected_streams.subtitle_stream_indices)
unfolding build_execution_command_plan subtitle_default_disposition_matches_plan
build_execution_command_plan-subtitles titled plan source output input ffmpeg scratch_dir job_id
      backend {c} h named own others distinct listed unforced marked follows =
    let at = build_temp_output_path input scratch_dir plan.container.target_container job_id in
    let selected = plan.selected_streams.subtitle_stream_indices in
    let (prefix, coding, same, copying) =
      shape_by plan input ffmpeg plan.action at backend h named in
    let (selection, defaults) =
      subtitle_checks_lem titled plan source output c.command
        (ap mapped same ∙ mapped-command_of plan input ffmpeg at prefix coding)
        (ap (codec_for "-c:s") same
          ∙ copies-command_of plan input ffmpeg for_subtitles prefix coding at copying)
        (ap (dispositions subtitle) same ∙ subtitle_dispositions plan input ffmpeg at prefix coding)
        own others marked follows in
    (
      default_by_selection plan.subtitles.main_stream_index selected _ distinct listed
          (defaults ∙ map-ap _ _ (main_mark plan unforced) selected),
      selection,
    )
