-- ===== src/Verification/Delivered.antt =====
-- From the plan to the verified output.
use encodr.Prelude.{
  ℕ, ◌≡◌, ◌≢◌, ◌∙◌, ◌<◌, true, false, some, List, [], ◌∷◌, arith, length, is_empty,
}
use encodr.Config.{LanguagePreferences}
use encodr.Media.{MediaFile}
use encodr.Planning.Models.{manual_review}
use encodr.Planning.Planner.{ResolvedPolicy, build_processing_plan}
use encodr.Planning.Planner.Laws.{build_processing_plan_review}
use encodr.Planning.Planner.Streams.{build_processing_plan_video}
use encodr.Verification.Verifier.{StagedOutput, verify_output}
use encodr.Verification.Verifier.Laws.{verify_output_passed}

some_element : (xs : List ℕ) → is_empty xs ≡ false → 0 < length xs
some_element [] h = cc
some_element (x ∷ xs) h = omega arith

-- Where at least one audio track may be kept: an output that passes the verification of a plan that
-- asks for no manual review is probed as a media file with one video stream and some audio track.
pub build-verify_delivers :
    (source : MediaFile) (policy : ResolvedPolicy) (languages : LanguagePreferences)
    (output : StagedOutput)
    → 0 < policy.audio_rules.max_tracks_to_keep
    → (build_processing_plan source policy languages).action ≢ manual_review
    → (verify_output (build_processing_plan source policy languages) source output).passed ≡ true
    → (m : MediaFile) × (output.probed ≡ some m)
      × (length m.video_streams ≡ 1)
      × (0 < length m.audio_streams)
build-verify_delivers source policy languages output keeps no_review passed =
    let plan = build_processing_plan source policy languages in
    let (size, seen) = verify_output_passed plan source output passed in
    let (m, probed, shape, names) = seen in
    let planned = build_processing_plan_review source policy languages keeps no_review in
    let audio = some_element plan.selected_streams.audio_stream_indices planned.1 in
    (
      m,
      probed,
      shape.0 ∙ build_processing_plan_video source policy languages no_review,
      omega (arith, shape.1, audio),
    )
