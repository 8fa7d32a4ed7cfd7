-- ===== src/Execution/Command/Verified.antt =====
-- The command of packages/core/encodr_core/execution/ffmpeg_builder.py against the checks of
-- packages/core/encodr_core/verification/rules.py. What ffmpeg documents of `-map`, of `-disposition` and of copied
-- streams is a hypothesis on its output.
use encodr.Prelude.{
  Distinct, length-map, ℕ, ◌≡◌, refl, sym, ap, subst, ◌∙◌, Bool, true, Option, none, some, List, [],
  ◌∷◌, ◌++◌, map, length, All, Bool-cases, inl, inr, suc, str_eq, ==_iff, String, not, ◌||◌,
}
use encodr.Media.{AudioStream, MediaFile}
use encodr.Planning.Models.{PlanAction, ProcessingPlan}
use encodr.Replacement.Paths.{FilePath}
use encodr.Verification.Rules.{
  by_index, planned_streams, planned_audio_streams, audio_stream_matches, all_zip,
  audio_stream_selection_matches_plan, audio_default_disposition_matches_plan,
}
use encodr.Execution.Backend.{Flag, text, SelectedExecutionBackend}
use encodr.Execution.Command.{
  audio, Argument, is_index, or_first, audio_disposition, command_of, ExecutionCommandPlan,
  build_temp_output_path, remux_command, transcoded, copied_streams, build_execution_command_plan,
  command_by, coding_flags,
}
use encodr.Execution.Command.Reading.{
  mapped, dispositions, numbered, all_selected, mapped-command_of, audio_dispositions,
}
use encodr.Execution.Command.Copied.{codec_for, is_copy, for_audio}
use encodr.Execution.Command.Copying.{
  Copying, remux-Copying, coding_flags-Copying, copies-command_of,
}
use encodr.Execution.Command.Defaults.{Set, Listed, marks_lem, primary_default_lem}
use encodr.Execution.Command.Planned.{Named, Foreign, planned-Foreign, planned_own, length-planned}

-- Stream for stream.
abbrev pub Copies : {A : Type 0} → (A → A → Type 0) → List A → List A → Type 0
Copies R [] [] = Unit
Copies R [] (y ∷ ys) = ⊥
Copies R (x ∷ xs) [] = ⊥
Copies R (x ∷ xs) (y ∷ ys) = R x y × Copies R xs ys

-- An output track has what the verifier compares, where its stream is copied; another codec may make anything of it.
abbrev pub audio_under : Option String → AudioStream → AudioStream → Bool
audio_under codec o s = not (is_copy codec) || audio_stream_matches o s

-- What ffmpeg makes of the audio of a source under a command: a track for every mapped stream, copied if the command
-- says so of the audio.
pub record AudioFollows (command : List Argument) (source output : MediaFile) : Type 0 where
  pub copied :
      Copies
        (λ o s. audio_under (codec_for "-c:a" command) o s ≡ true)
        output.audio_streams
        (planned_streams (λ (s : AudioStream). s.index) source.audio_streams (mapped command))
  pub defaults :
      Set "default" (dispositions audio command) 0 (map (λ s. s.default) output.audio_streams)

pub length-Copies :
    {A : Type 0} (R : A → A → Type 0) (xs ys : List A) → Copies R xs ys → length xs ≡ length ys
length-Copies R [] [] h = refl
length-Copies R [] (y ∷ ys) h = absurd h
length-Copies R (x ∷ xs) [] h = absurd h
length-Copies R (x ∷ xs) (y ∷ ys) (r, h) = ap suc (length-Copies R xs ys h)

all_zip-Copies :
    {A : Type 0} (test : A → A → Bool) (xs ys : List A)
    → Copies (λ x y. test x y ≡ true) xs ys
    → all_zip test xs ys ≡ true
unfolding all_zip
all_zip-Copies test [] [] h = refl
all_zip-Copies test [] (y ∷ ys) h = refl
all_zip-Copies test (x ∷ xs) [] h = refl
all_zip-Copies test (x ∷ xs) (y ∷ ys) (r, h) = rw (r, all_zip-Copies test xs ys h) refl

pub map-ap :
    {A B : Type 0} (f g : A → B) → ((x : A) → f x ≡ g x) → (xs : List A) → map f xs ≡ map g xs
map-ap f g h [] = refl
map-ap f g h (x ∷ xs) = rw (h x, map-ap f g h xs) refl

pub split_All :
    {A : Type 0} (P : A → Type 0) (xs ys : List A) → All P (xs ++ ys) → All P xs × All P ys
split_All P [] ys h = (tt, h)
split_All P (x ∷ xs) ys (p, h) = let (left, right) = split_All P xs ys h in ((p, left), right)

module _ (plan : ProcessingPlan) (input ffmpeg : FilePath) where
  -- A command that names an output is that of the plan, for some prefix and coding.
  pub shape_by :
      (action : PlanAction) (made : FilePath) (backend : Option SelectedExecutionBackend)
      {c : ExecutionCommandPlan} {output : FilePath}
      → command_by plan input ffmpeg action made backend ≡ some c
      → c.output_path ≡ some output
      → (prefix : List Flag) × (coding : List Flag) × (c.command
          ≡ command_of plan input ffmpeg prefix coding made)
        × Copying coding
  unfolding remux_command transcoded
  shape_by PlanAction.skip made backend h named = cc
  shape_by PlanAction.manual_review made backend h named = cc
  shape_by PlanAction.remux made backend {c} h named =
      let same : remux_command plan input ffmpeg made ≡ c = cc h in
      (
        [],
        text "-c:v" ∷ text "copy" ∷ copied_streams,
        ap (λ t. t.command) (sym same),
        remux-Copying,
      )
  shape_by PlanAction.transcode made none h named = cc
  shape_by PlanAction.transcode made (some selection) {c} h named =
      let same : transcoded plan input ffmpeg made selection ≡ c = cc h in
      (
        selection.command_prefix,
        coding_flags plan input ffmpeg selection,
        ap (λ t. t.command) (sym same),
        coding_flags-Copying plan input ffmpeg selection,
      )

audio_mark :
    (plan : ProcessingPlan) (i : ℕ)
    → str_eq (audio_disposition plan i) "default"
      ≡ is_index
          (or_first plan.audio.primary_stream_index plan.selected_streams.audio_stream_indices)
          i
unfolding audio_disposition
audio_mark plan i =
    elim (Bool-cases (
      is_index (or_first plan.audio.primary_stream_index plan.selected_streams.audio_stream_indices)
        i)) [ inl e ↦ rw e refl | inr e ↦ rw e refl ]

module _ (plan : ProcessingPlan) (source output : MediaFile) where
  audio_selection_lem :
      (command : List Argument)
      → mapped command ≡ all_selected plan
      → codec_for "-c:a" command ≡ some "copy"
      → Named
          (λ (s : AudioStream). s.index)
          source.audio_streams
          plan.selected_streams.audio_stream_indices
      → Foreign
          (λ (s : AudioStream). s.index)
          source.audio_streams
          (plan.selected_streams.video_stream_indices
            ++ (plan.selected_streams.subtitle_stream_indices
                ++ (plan.selected_streams.attachment_stream_indices
                    ++ plan.selected_streams.data_stream_indices)))
      → AudioFollows command source output
      → (length output.audio_streams ≡ length plan.selected_streams.audio_stream_indices)
        × (audio_stream_selection_matches_plan source plan output ≡ true)
  unfolding audio_stream_selection_matches_plan planned_audio_streams
  audio_selection_lem command mapping copy own others follows =
      let index : AudioStream → ℕ = λ s. s.index in
      let streams = source.audio_streams in
      let selected = plan.selected_streams in
      let (before, after) =
        split_All (λ i. by_index index streams i ≡ none) selected.video_stream_indices _ others in
      let planned : planned_streams index streams (mapped command)
          ≡ planned_streams index streams selected.audio_stream_indices =
        ap (planned_streams index streams) mapping
        ∙ planned-Foreign index streams selected.video_stream_indices _ before
        ∙ planned_own index streams selected.audio_stream_indices _ after in
      let copied =
        subst (Copies (λ o s. audio_stream_matches o s ≡ true) output.audio_streams) planned (
          subst
            (λ t.
              Copies (λ o s. audio_under t o s ≡ true) output.audio_streams
                (planned_streams index streams (mapped command)))
            copy follows.copied) in
      let count : length (planned_streams index streams selected.audio_stream_indices)
          ≡ length selected.audio_stream_indices =
        length-planned index streams selected.audio_stream_indices own in
      (
        length-Copies (λ o s. audio_stream_matches o s ≡ true) output.audio_streams _ copied
            ∙ count,
        simp
            (
              (==_iff _ _).1 count,
              (==_iff _ _).1 (
                  length-Copies (λ o s. audio_stream_matches o s ≡ true) output.audio_streams _
                    copied),
              all_zip-Copies audio_stream_matches output.audio_streams _ copied,
            )
            refl,
      )

  audio_default_lem :
      (command : List Argument)
      → dispositions audio command
        ≡ numbered (audio_disposition plan) 0 plan.selected_streams.audio_stream_indices
      → length output.audio_streams ≡ length plan.selected_streams.audio_stream_indices
      → Distinct plan.selected_streams.audio_stream_indices
      → Listed plan.audio.primary_stream_index plan.selected_streams.audio_stream_indices
      → AudioFollows command source output
      → audio_default_disposition_matches_plan plan output ≡ true
  unfolding audio_default_disposition_matches_plan
  audio_default_lem command set count distinct listed follows =
      let selected = plan.selected_streams.audio_stream_indices in
      let defaults = map (λ (s : AudioStream). s.default) output.audio_streams in
      primary_default_lem plan.audio.primary_stream_index selected defaults distinct listed (
        marks_lem "default" (audio_disposition plan) 0 defaults selected
          (length-map _ output.audio_streams ∙ count)
          (subst (λ t. Set "default" t 0 defaults) set follows.defaults)
        ∙ map-ap _ _ (audio_mark plan) selected)

-- Where the source's audio streams are those that the plan names as such, each once, with the primary one among them:
-- what ffmpeg makes under a command that is built for an output passes both of the verifier's checks of the audio.
pub build_execution_command_plan-audio :
    (plan : ProcessingPlan) (source output : MediaFile) (input ffmpeg : FilePath)
    (scratch_dir : List ℕ) (job_id : Option (List ℕ)) (backend : Option SelectedExecutionBackend)
    {c : ExecutionCommandPlan} {made : FilePath}
    → build_execution_command_plan plan input ffmpeg scratch_dir job_id backend ≡ some c
    → c.output_path ≡ some made
    → Named
        (λ (s : AudioStream). s.index)
        source.audio_streams
        plan.selected_streams.audio_stream_indices
    → Foreign
        (λ (s : AudioStream). s.index)
        source.audio_streams
        (plan.selected_streams.video_stream_indices
          ++ (plan.selected_streams.subtitle_stream_indices
              ++ (plan.selected_streams.attachment_stream_indices
                  ++ plan.selected_streams.data_stream_indices)))
    → Distinct plan.selected_streams.audio_stream_indices
    → Listed plan.audio.primary_stream_index plan.selected_streams.audio_stream_indices
    → AudioFollows c.command source output
    → (audio_stream_selection_matches_plan source plan output ≡ true)
      × (audio_default_disposition_matches_plan plan output ≡ true)
unfolding build_execution_command_plan
build_execution_command_plan-audio plan source output input ffmpeg scratch_dir job_id backend {c} h
      named own others distinct listed follows =
    let at = build_temp_output_path input scratch_dir plan.container.target_container job_id in
    let (prefix, coding, same, copying) =
      shape_by plan input ffmpeg plan.action at backend h named in
    let (count, selection) =
      audio_selection_lem plan source output c.command
        (ap mapped same ∙ mapped-command_of plan input ffmpeg at prefix coding)
        (ap (codec_for "-c:a") same
          ∙ copies-command_of plan input ffmpeg for_audio prefix coding at copying)
        own others follows in
    (
      selection,
      audio_default_lem plan source output c.command
          (ap (dispositions audio) same ∙ audio_dispositions plan input ffmpeg at prefix coding)
          count distinct listed follows,
    )
