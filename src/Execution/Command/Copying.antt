-- ===== src/Execution/Command/Copying.antt =====
-- The audio and the subtitles are copied by every command that packages/core/encodr_core/execution/ffmpeg_builder.py
-- builds for an output.
use encodr.Prelude.{
  ℕ, String, ◌≡◌, refl, true, not, Option, none, some, List, [], ◌∷◌, ◌++◌, Bool-cases,
  Option-cases, inl, inr, &&_true,
}
use encodr.Config.{VideoQualityMode}
use encodr.Planning.Models.{ProcessingPlan}
use encodr.Replacement.Paths.{FilePath}
use encodr.Execution.Backend.{Flag, text, number, Accelerator, SelectedExecutionBackend}
use encodr.Execution.Backend.Quality.{
  is_text, quality_flags, replace_next, raised_quality, quality_flags_for_backend,
  replace_at_option, replace_quality_value, mode_or_default,
}
use encodr.Execution.Command.{
  audio, subtitle, Argument, path, option, flags_of, stream_maps, append_selected_stream_maps,
  audio_disposition, subtitle_disposition, disposition_flags_for_selected_streams, copied_streams,
  command_of, coding_flags,
}
use encodr.Execution.Command.Copied.{
  codec_for, CopiedOption, for_audio, for_subtitles, names_codec, free_of_codecs, codec_for-later,
  codec_for-flags, codec_for-dispositions, codec_for-last, audio_disposition-other,
  subtitle_disposition-other,
}

-- The flags of the quality name no codec.
quality_flags-free :
    (accelerator : Accelerator) (mode : VideoQualityMode)
    → free_of_codecs (quality_flags accelerator mode) ≡ true
quality_flags-free Accelerator.cpu VideoQualityMode.high_quality = refl
quality_flags-free Accelerator.cpu VideoQualityMode.balanced = refl
quality_flags-free Accelerator.cpu VideoQualityMode.efficient = refl
quality_flags-free Accelerator.nvenc VideoQualityMode.high_quality = refl
quality_flags-free Accelerator.nvenc VideoQualityMode.balanced = refl
quality_flags-free Accelerator.nvenc VideoQualityMode.efficient = refl
quality_flags-free Accelerator.qsv VideoQualityMode.high_quality = refl
quality_flags-free Accelerator.qsv VideoQualityMode.balanced = refl
quality_flags-free Accelerator.qsv VideoQualityMode.efficient = refl
quality_flags-free Accelerator.vaapi VideoQualityMode.high_quality = refl
quality_flags-free Accelerator.vaapi VideoQualityMode.balanced = refl
quality_flags-free Accelerator.vaapi VideoQualityMode.efficient = refl
quality_flags-free Accelerator.amf VideoQualityMode.high_quality = refl
quality_flags-free Accelerator.amf VideoQualityMode.balanced = refl
quality_flags-free Accelerator.amf VideoQualityMode.efficient = refl

replace_next-free :
    (n : ℕ) (fs : List Flag)
    → free_of_codecs fs ≡ true
    → free_of_codecs (replace_next (number n) fs) ≡ true
replace_next-free n [] h = refl
replace_next-free n (f ∷ fs) h = (&&_true (not (names_codec f)) (free_of_codecs fs) h).1

replace_at_option-free :
    (fs : List Flag) (name : String) (n : ℕ)
    → free_of_codecs fs ≡ true
    → free_of_codecs (replace_at_option fs name (number n)) ≡ true
unfolding replace_at_option
replace_at_option-free [] name n h = refl
replace_at_option-free (f ∷ fs) name n h =
    let (first, others) = &&_true (not (names_codec f)) (free_of_codecs fs) h in
    elim (Bool-cases (is_text name f)) [
      | inl e ↦ rw (e, first) (replace_next-free n fs others)
      | inr e ↦ rw (e, first) (replace_at_option-free fs name n others)
    ]

replace_quality_value-free :
    (fs : List Flag) (name : String) (value : Option ℕ)
    → free_of_codecs fs ≡ true
    → free_of_codecs (replace_quality_value fs name value) ≡ true
unfolding replace_quality_value
replace_quality_value-free fs name none h = h
replace_quality_value-free fs name (some n) h = replace_at_option-free fs name n h

quality_flags_for_backend-free :
    (accelerator : Accelerator) (mode : Option VideoQualityMode) (crf : Option ℕ)
    → free_of_codecs (quality_flags_for_backend accelerator mode crf) ≡ true
unfolding quality_flags_for_backend
quality_flags_for_backend-free accelerator mode crf =
    by_accelerator accelerator (quality_flags-free accelerator (mode_or_default mode))
  where
    by_accelerator :
        (a : Accelerator)
        → free_of_codecs (quality_flags a (mode_or_default mode)) ≡ true
        → free_of_codecs (quality_flags_for_backend a mode crf) ≡ true
    by_accelerator Accelerator.cpu h = replace_quality_value-free _ "-crf" crf h
    by_accelerator Accelerator.nvenc h = replace_quality_value-free _ "-cq" crf h
    by_accelerator Accelerator.qsv h = replace_quality_value-free _ "-global_quality" crf h
    by_accelerator Accelerator.vaapi h = replace_quality_value-free _ "-qp" crf h
    by_accelerator Accelerator.amf h =
        replace_quality_value-free _ "-qp_p" (raised_quality crf)
          (replace_quality_value-free _ "-qp_i" crf h)

-- A choice of codecs copies the streams, if no option after it chooses other ones.
pub Copying : List Flag → Type 0
Copying coding =
    (name : String)
    → CopiedOption name
    → (rest : List Argument) → codec_for name rest ≡ none
    → codec_for name (flags_of coding ++ rest) ≡ some "copy"

copied_streams-copy : (fs : List Flag) → free_of_codecs fs ≡ true → Copying (copied_streams ++ fs)
unfolding codec_for Copying
copied_streams-copy fs free name for_audio rest h =
    rw (codec_for-flags for_audio fs rest free h) refl
copied_streams-copy fs free name for_subtitles rest h =
    rw (codec_for-flags for_subtitles fs rest free h) refl

-- A remux copies them, and so does a transcode, whatever the backend is.
pub remux-Copying : Copying (text "-c:v" ∷ text "copy" ∷ copied_streams)
unfolding Copying
remux-Copying name o rest h =
    codec_for-later name (option "-c:v" ∷ option "copy" ∷ []) _
      (copied_streams-copy [] refl name o rest h)

module _ (plan : ProcessingPlan) (input ffmpeg : FilePath) where
  pub coding_flags-Copying :
      (selection : SelectedExecutionBackend) → Copying (coding_flags plan input ffmpeg selection)
  unfolding coding_flags Copying
  coding_flags-Copying selection name o rest h =
      let copied =
        copied_streams-copy
          (quality_flags_for_backend selection.accelerator plan.video.quality_mode
            plan.video.quality_crf)
          (quality_flags_for_backend-free selection.accelerator plan.video.quality_mode
            plan.video.quality_crf)
          name o rest h in
      elim (Option-cases selection.video_filter) [
        | inl e ↦
            rw e
              (codec_for-later name (option "-c:v" ∷ option selection.video_encoder ∷ []) _ copied)
        | inr (filter, e) ↦ rw e (
            codec_for-later name
              (option "-vf" ∷ option filter ∷ option "-c:v" ∷ option selection.video_encoder ∷ []) _
              copied)
      ]

  -- The command copies the audio and the subtitles.
  pub copies-command_of :
      {name : String}
      → CopiedOption name
      → (prefix coding : List Flag) (output : FilePath) → Copying coding
      → codec_for name (command_of plan input ffmpeg prefix coding output) ≡ some "copy"
  unfolding command_of append_selected_stream_maps disposition_flags_for_selected_streams Copying
  copies-command_of {name} o prefix coding output copying =
      let selected = plan.selected_streams in
      let set =
        codec_for-dispositions name audio (audio_disposition plan) (audio_disposition-other o plan)
          0 selected.audio_stream_indices _
          (codec_for-dispositions name subtitle (subtitle_disposition plan)
            (subtitle_disposition-other o plan) 0 selected.subtitle_stream_indices
            (path output ∷ []) (codec_for-last name output)) in
      codec_for-later name (path ffmpeg ∷ []) _ (
        codec_for-later name (flags_of prefix) _ (
          codec_for-later name
            (option "-y"
              ∷ option "-i"
              ∷ path input
              ∷ option "-nostats"
              ∷ option "-progress"
              ∷ option "pipe:1"
              ∷ [])
            _
            (codec_for-later name (stream_maps selected.video_stream_indices) _ (
              codec_for-later name (stream_maps selected.audio_stream_indices) _ (
                codec_for-later name (stream_maps selected.subtitle_stream_indices) _ (
                  codec_for-later name (stream_maps selected.attachment_stream_indices) _ (
                    codec_for-later name (stream_maps selected.data_stream_indices) _
                      (copying name o _ set))))))))
