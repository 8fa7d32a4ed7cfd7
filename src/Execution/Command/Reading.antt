-- ===== src/Execution/Command/Reading.antt =====
-- What ffmpeg reads in a command line of packages/core/encodr_core/execution/ffmpeg_builder.py: the streams that are
-- mapped, in their order, and the dispositions that are set.
use mathlib.Core.List.{append-nil}
use encodr.Prelude.{
  ℕ, suc, String, ◌≡◌, refl, ap, ◌∙◌, Bool, true, false, List, [], ◌∷◌, ◌++◌, if◌then◌else◌,
}
use encodr.Planning.Models.{ProcessingPlan}
use encodr.Replacement.Paths.{FilePath}
use encodr.Execution.Backend.{Flag, text, number, child_device}
use encodr.Execution.Command.{
  StreamKind, audio, subtitle, Argument, flag, path, stream, disposition, flags_of, stream_maps,
  append_selected_stream_maps, audio_disposition, subtitle_disposition, disposition_flags,
  disposition_flags_for_selected_streams, command_of,
}

-- The indices of the source's streams that the command maps.
unfoldable pub mapped : List Argument → List ℕ
mapped [] = []
mapped (stream i ∷ rest) = i ∷ mapped rest
mapped (flag f ∷ rest) = mapped rest
mapped (path p ∷ rest) = mapped rest
mapped (disposition k n ∷ rest) = mapped rest

abbrev pub matches_kind : StreamKind → StreamKind → Bool
matches_kind audio audio = true
matches_kind audio subtitle = false
matches_kind subtitle audio = false
matches_kind subtitle subtitle = true

-- A disposition with the value that follows it.
abbrev pub valued : ℕ → List Argument → List (ℕ × String) → List (ℕ × String)
valued n (flag (text value) ∷ arguments) rest = (n, value) ∷ rest
valued n (flag (number i) ∷ arguments) rest = rest
valued n (flag (child_device d) ∷ arguments) rest = rest
valued n (path p ∷ arguments) rest = rest
valued n (stream i ∷ arguments) rest = rest
valued n (disposition k m ∷ arguments) rest = rest
valued n [] rest = rest

-- The outputs of a kind whose disposition the command sets, with the value.
unfoldable pub dispositions : StreamKind → List Argument → List (ℕ × String)
dispositions kind [] = []
dispositions kind (disposition k n ∷ rest) =
    let others = dispositions kind rest in
    if matches_kind kind k then valued n rest others else others
dispositions kind (flag f ∷ rest) = dispositions kind rest
dispositions kind (path p ∷ rest) = dispositions kind rest
dispositions kind (stream i ∷ rest) = dispositions kind rest

-- The values of a list, counted from `n`.
abbrev pub numbered : (ℕ → String) → ℕ → List ℕ → List (ℕ × String)
numbered value n [] = []
numbered value n (i ∷ is) = (n, value i) ∷ numbered value (suc n) is

mapped-maps :
    (is : List ℕ) (rest : List Argument) → mapped (stream_maps is ++ rest) ≡ is ++ mapped rest
unfolding mapped stream_maps
mapped-maps [] rest = refl
mapped-maps (i ∷ is) rest = ap (λ t. i ∷ t) (mapped-maps is rest)

mapped-flags : (fs : List Flag) (rest : List Argument) → mapped (flags_of fs ++ rest) ≡ mapped rest
unfolding mapped
mapped-flags [] rest = refl
mapped-flags (f ∷ fs) rest = mapped-flags fs rest

mapped-disposition_flags :
    (kind : StreamKind) (value : ℕ → String) (n : ℕ) (is : List ℕ) (rest : List Argument)
    → mapped (disposition_flags kind value n is ++ rest) ≡ mapped rest
unfolding mapped disposition_flags
mapped-disposition_flags kind value n [] rest = refl
mapped-disposition_flags kind value n (i ∷ is) rest =
    mapped-disposition_flags kind value (suc n) is rest

dispositions-maps :
    (kind : StreamKind) (is : List ℕ) (rest : List Argument)
    → dispositions kind (stream_maps is ++ rest) ≡ dispositions kind rest
unfolding dispositions stream_maps
dispositions-maps kind [] rest = refl
dispositions-maps kind (i ∷ is) rest = dispositions-maps kind is rest

dispositions-flags :
    (kind : StreamKind) (fs : List Flag) (rest : List Argument)
    → dispositions kind (flags_of fs ++ rest) ≡ dispositions kind rest
unfolding dispositions
dispositions-flags kind [] rest = refl
dispositions-flags kind (f ∷ fs) rest = dispositions-flags kind fs rest

dispositions-own :
    (kind : StreamKind) (value : ℕ → String) (n : ℕ) (is : List ℕ) (rest : List Argument)
    → dispositions kind (disposition_flags kind value n is ++ rest)
      ≡ numbered value n is ++ dispositions kind rest
unfolding dispositions disposition_flags
dispositions-own kind value n [] rest = refl
dispositions-own audio value n (i ∷ is) rest =
    ap (λ t. (n, value i) ∷ t) (dispositions-own audio value (suc n) is rest)
dispositions-own subtitle value n (i ∷ is) rest =
    ap (λ t. (n, value i) ∷ t) (dispositions-own subtitle value (suc n) is rest)

dispositions-other :
    (kind k : StreamKind)
    → matches_kind kind k ≡ false
    → (value : ℕ → String) (n : ℕ) (is : List ℕ) (rest : List Argument)
    → dispositions kind (disposition_flags k value n is ++ rest) ≡ dispositions kind rest
unfolding dispositions disposition_flags
dispositions-other kind k h value n [] rest = refl
dispositions-other kind k h value n (i ∷ is) rest =
    rw h (dispositions-other kind k h value (suc n) is rest)

dispositions-last : (kind : StreamKind) (p : FilePath) → dispositions kind (path p ∷ []) ≡ []
unfolding dispositions
dispositions-last kind p = refl

-- The selected streams, kind after kind; none of the unknown ones.
abbrev pub all_selected : ProcessingPlan → List ℕ
all_selected plan =
    plan.selected_streams.video_stream_indices
    ++ (plan.selected_streams.audio_stream_indices
        ++ (plan.selected_streams.subtitle_stream_indices
            ++ (plan.selected_streams.attachment_stream_indices
                ++ plan.selected_streams.data_stream_indices)))

mapped-selected :
    (plan : ProcessingPlan) (rest : List Argument)
    → mapped rest ≡ []
    → mapped (append_selected_stream_maps plan rest) ≡ all_selected plan
unfolding append_selected_stream_maps
mapped-selected plan rest h =
    let selected = plan.selected_streams in
    mapped-maps selected.video_stream_indices _
    ∙ ap (λ t. selected.video_stream_indices ++ t)
        (mapped-maps selected.audio_stream_indices _
          ∙ ap (λ t. selected.audio_stream_indices ++ t)
              (mapped-maps selected.subtitle_stream_indices _
                ∙ ap (λ t. selected.subtitle_stream_indices ++ t)
                    (mapped-maps selected.attachment_stream_indices _
                      ∙ ap (λ t. selected.attachment_stream_indices ++ t)
                          (mapped-maps selected.data_stream_indices rest
                            ∙ ap (λ t. selected.data_stream_indices ++ t) h
                            ∙ append-nil selected.data_stream_indices))))

dispositions-selected :
    (kind : StreamKind) (plan : ProcessingPlan) (rest : List Argument)
    → dispositions kind (append_selected_stream_maps plan rest) ≡ dispositions kind rest
unfolding append_selected_stream_maps
dispositions-selected kind plan rest =
    let selected = plan.selected_streams in
    dispositions-maps kind selected.video_stream_indices _
    ∙ dispositions-maps kind selected.audio_stream_indices _
    ∙ dispositions-maps kind selected.subtitle_stream_indices _
    ∙ dispositions-maps kind selected.attachment_stream_indices _
    ∙ dispositions-maps kind selected.data_stream_indices rest

module _ (plan : ProcessingPlan) (input ffmpeg output : FilePath) (prefix coding : List Flag) where
  mapped_settings :
      mapped (flags_of coding ++ disposition_flags_for_selected_streams plan (path output ∷ []))
      ≡ []
  unfolding disposition_flags_for_selected_streams
  mapped_settings =
      mapped-flags coding _
      ∙ mapped-disposition_flags audio (audio_disposition plan) 0
          plan.selected_streams.audio_stream_indices _
      ∙ mapped-disposition_flags subtitle (subtitle_disposition plan) 0
          plan.selected_streams.subtitle_stream_indices (path output ∷ [])
      ∙ (unfold mapped in refl)

  pub mapped-command_of :
      mapped (command_of plan input ffmpeg prefix coding output) ≡ all_selected plan
  unfolding command_of mapped
  mapped-command_of = mapped-flags prefix _ ∙ mapped-selected plan _ mapped_settings

  -- Before the flags of the streams, no disposition is set.
  dispositions-command_of :
      (kind : StreamKind)
      → dispositions kind (command_of plan input ffmpeg prefix coding output)
        ≡ dispositions kind (disposition_flags_for_selected_streams plan (path output ∷ []))
  unfolding command_of dispositions
  dispositions-command_of kind =
      dispositions-flags kind prefix _
      ∙ dispositions-selected kind plan _
      ∙ dispositions-flags kind coding _

  pub audio_dispositions :
      dispositions audio (command_of plan input ffmpeg prefix coding output)
      ≡ numbered (audio_disposition plan) 0 plan.selected_streams.audio_stream_indices
  unfolding disposition_flags_for_selected_streams
  audio_dispositions =
      dispositions-command_of audio
      ∙ dispositions-own audio (audio_disposition plan) 0 plan.selected_streams.audio_stream_indices
          _
      ∙ ap
          (λ t. numbered (audio_disposition plan) 0 plan.selected_streams.audio_stream_indices ++ t)
          (dispositions-other audio subtitle refl (subtitle_disposition plan) 0
              plan.selected_streams.subtitle_stream_indices (path output ∷ [])
            ∙ dispositions-last audio output)
      ∙ append-nil _

  pub subtitle_dispositions :
      dispositions subtitle (command_of plan input ffmpeg prefix coding output)
      ≡ numbered (subtitle_disposition plan) 0 plan.selected_streams.subtitle_stream_indices
  unfolding disposition_flags_for_selected_streams
  subtitle_dispositions =
      dispositions-command_of subtitle
      ∙ dispositions-other subtitle audio refl (audio_disposition plan) 0
          plan.selected_streams.audio_stream_indices _
      ∙ dispositions-own subtitle (subtitle_disposition plan) 0
          plan.selected_streams.subtitle_stream_indices (path output ∷ [])
      ∙ ap
          (λ t.
            numbered (subtitle_disposition plan) 0 plan.selected_streams.subtitle_stream_indices
            ++ t)
          (dispositions-last subtitle output)
      ∙ append-nil _
