-- ===== src/Verification/Verifier/Laws.antt =====
-- What a verification that passed says of the output.
use mathlib.Core.List.Memᴰ
use encodr.Prelude.{
  Memᴰ, String, ◌≡◌, refl, sym, ap, ◌∙◌, Bool, true, false, ◌&&◌, Option, none, some, List, [], ◌∷◌,
  ◌++◌, map, arith, if◌then◌else◌, Bool-cases, inl, inr, length, all, is_empty, &&_true, ==_iff,
  eq_iff,
}
use encodr.Media.{AudioStream, SubtitleStream, MediaFile}
use encodr.Planning.Models.{ProcessingPlan}
use encodr.Planning.Audio.{audio_language}
use encodr.Planning.Subtitles.{subtitle_language}
use encodr.Verification.Rules.{
  has_expected_selected_stream_shape, audio_stream_selection_matches_plan,
  subtitle_stream_selection_matches_plan, planned_audio_streams, planned_subtitle_streams,
  audio_stream_matches, subtitle_stream_matches, all_zip, is_non_empty_output,
}
use encodr.Verification.Verifier.{
  VerificationCheck, VerificationResult, Report, StagedOutput, failed_result, existence, add_check,
  add_checks, plan_checks, report_of, verify_probed, verify_output, passed, failed,
}

all-append :
    {A : Type 0} (p : A → Bool) (xs : List A) (y : A) → all p (xs ++ y ∷ []) ≡ (all p xs && p y)
all-append p [] y = ground arith
all-append p (x ∷ xs) y = ground (arith, all-append p xs y)

is_empty-append : {A : Type 0} (xs : List A) (y : A) → is_empty (xs ++ y ∷ []) ≡ false
is_empty-append [] y = refl
is_empty-append (x ∷ xs) y = refl

-- The failures of a report are empty exactly when its checks have all passed.
abbrev Agrees : Report → Type 0
Agrees r = is_empty r.failures ≡ all (λ (c : VerificationCheck). c.passed) r.checks

add_check-Agrees :
    (r : Report) (code : String) (ok : Bool) → Agrees r → Agrees (add_check r code ok)
unfolding add_check
add_check-Agrees r code true h =
    h
    ∙ sym (
        all-append (λ (c : VerificationCheck). c.passed) r.checks
          (record { code = code; passed = true })
        ∙ ground arith)
add_check-Agrees r code false h =
    is_empty-append r.failures _
    ∙ sym (
        all-append (λ (c : VerificationCheck). c.passed) r.checks
          (record { code = code; passed = false })
        ∙ ground arith)

add_checks-Agrees : (r : Report) (cs : List (String × Bool)) → Agrees r → Agrees (add_checks r cs)
unfolding add_checks
add_checks-Agrees r [] h = h
add_checks-Agrees r (c ∷ cs) h =
    add_checks-Agrees (add_check r c.0 c.1) cs (add_check-Agrees r c.0 c.1 h)

add_check_failures :
    (r : Report) (code : String) (ok : Bool)
    → is_empty (add_check r code ok).failures ≡ (is_empty r.failures && ok)
unfolding add_check
add_check_failures r code true = ground arith
add_check_failures r code false = is_empty-append r.failures _ ∙ ground arith

-- A report without failures had none before, and its checks passed.
add_checks_failures :
    (r : Report) (cs : List (String × Bool))
    → is_empty (add_checks r cs).failures
      ≡ (is_empty r.failures && all (λ (c : String × Bool). c.1) cs)
unfolding add_checks
add_checks_failures r [] = ground arith
add_checks_failures r (c ∷ cs) =
    ground (arith, add_checks_failures (add_check r c.0 c.1) cs, add_check_failures r c.0 c.1)

all_mem :
    {A : Type 0} (p : A → Bool) (xs : List A) → all p xs ≡ true → {c : A} → Memᴰ c xs → p c ≡ true
all_mem p [] h m = elim m [ ]
all_mem p (x ∷ xs) h m =
    let parts = &&_true (p x) (all p xs) h in
    elim (Memᴰ.cases_cons m) [ inl e ↦ ap p e ∙ parts.0 | inr r ↦ all_mem p xs parts.1 r ]

-- Matching streams have one language, one by one.
languages_of_zip :
    {A : Type 0} (test : A → A → Bool) (language : A → String)
    (same : (x y : A) → test x y ≡ true → language x ≡ language y) (xs ys : List A)
    → length xs ≡ length ys
    → all_zip test xs ys ≡ true
    → map language xs ≡ map language ys
unfolding all_zip
languages_of_zip test language same [] [] h t = refl
languages_of_zip test language same [] (y ∷ ys) h t = absurd (omega arith)
languages_of_zip test language same (x ∷ xs) [] h t = absurd (omega arith)
languages_of_zip test language same (x ∷ xs) (y ∷ ys) h t =
    let both = &&_true (test x y) (all_zip test xs ys) t in
    cc (same x y both.0, languages_of_zip test language same xs ys (omega arith) both.1)

audio_matches_language :
    (x y : AudioStream) → audio_stream_matches x y ≡ true → audio_language x ≡ audio_language y
unfolding audio_stream_matches
audio_matches_language x y h = (eq_iff _ _).0 (&&_true _ _ h).0

subtitle_matches_language :
    (x y : SubtitleStream)
    → subtitle_stream_matches x y ≡ true
    → subtitle_language x ≡ subtitle_language y
unfolding subtitle_stream_matches
subtitle_matches_language x y h = (eq_iff _ _).0 (&&_true _ _ h).0

-- The output has as many tracks of each kind as the plan selects.
abbrev pub HasShape : ProcessingPlan → MediaFile → Type 0
HasShape plan m =
    (length m.video_streams ≡ length plan.selected_streams.video_stream_indices)
    × (length m.audio_streams ≡ length plan.selected_streams.audio_stream_indices)
    × (length m.subtitle_streams ≡ length plan.selected_streams.subtitle_stream_indices)
    × (length m.attachment_indices ≡ length plan.selected_streams.attachment_stream_indices)
    × (length m.data_indices ≡ length plan.selected_streams.data_stream_indices)
    × (length m.unknown_indices ≡ length plan.selected_streams.unknown_stream_indices)

-- The output has the planned tracks in their languages, in the plan's order.
abbrev pub HasLanguages : ProcessingPlan → MediaFile → MediaFile → Type 0
HasLanguages plan source m =
    (map audio_language m.audio_streams ≡ map audio_language (planned_audio_streams source plan))
    × (map subtitle_language m.subtitle_streams
        ≡ map subtitle_language (planned_subtitle_streams source plan))

shape_of :
    (plan : ProcessingPlan) (m : MediaFile)
    → has_expected_selected_stream_shape plan m ≡ true
    → HasShape plan m
unfolding has_expected_selected_stream_shape
shape_of plan m h = ground arith

audio_languages_of :
    (plan : ProcessingPlan) (source m : MediaFile)
    → audio_stream_selection_matches_plan source plan m ≡ true
    → map audio_language m.audio_streams ≡ map audio_language (planned_audio_streams source plan)
unfolding audio_stream_selection_matches_plan
audio_languages_of plan source m h =
    let selected = &&_true _ _ h in
    let matching = &&_true _ _ selected.1 in
    languages_of_zip audio_stream_matches audio_language audio_matches_language m.audio_streams
      (planned_audio_streams source plan) ((==_iff _ _).0 matching.0) matching.1

subtitle_languages_of :
    (plan : ProcessingPlan) (source m : MediaFile)
    → subtitle_stream_selection_matches_plan source plan m ≡ true
    → map subtitle_language m.subtitle_streams
      ≡ map subtitle_language (planned_subtitle_streams source plan)
unfolding subtitle_stream_selection_matches_plan
subtitle_languages_of plan source m h =
    let selected = &&_true _ _ h in
    let matching = &&_true _ _ selected.1 in
    languages_of_zip subtitle_stream_matches subtitle_language subtitle_matches_language
      m.subtitle_streams (planned_subtitle_streams source plan) ((==_iff _ _).0 matching.0)
      matching.1

record Consistent (r : VerificationResult) : Type 0 where
  agrees :
      (r.passed ≡ all (λ (c : VerificationCheck). c.passed) r.checks)
      × (r.passed ≡ is_empty r.failures)
      × (r.status ≡ (if r.passed then passed else failed))

Consistent-if :
    (b : Bool) {x y : VerificationResult}
    → Consistent x
    → Consistent y
    → Consistent (if b then x else y)
Consistent-if true hx hy = hx
Consistent-if false hx hy = hy

module _ (plan : ProcessingPlan) (source : MediaFile) where
  probed_passed :
      (o : Option MediaFile)
      → (verify_probed plan source o).passed ≡ true
      → (m : MediaFile) × (o ≡ some m) × HasShape plan m × HasLanguages plan source m
  unfolding verify_probed report_of
  probed_passed none h = cc
  probed_passed (some m) h =
      let no_failure = sym (add_checks_failures _ (plan_checks plan source m)) ∙ h in
      let shape =
        all_mem (λ (c : String × Bool). c.1) (plan_checks plan source m) no_failure
          (Memᴰ.tail (Memᴰ.tail (Memᴰ.tail (Memᴰ.head refl)))) in
      let audio =
        all_mem (λ (c : String × Bool). c.1) (plan_checks plan source m) no_failure
          (Memᴰ.tail (Memᴰ.tail (Memᴰ.tail (Memᴰ.tail (Memᴰ.head refl))))) in
      let subtitle =
        all_mem (λ (c : String × Bool). c.1) (plan_checks plan source m) no_failure
          (Memᴰ.tail (Memᴰ.tail (Memᴰ.tail (Memᴰ.tail (Memᴰ.tail (Memᴰ.head refl)))))) in
      (
        m,
        refl,
        shape_of plan m shape,
        (audio_languages_of plan source m audio, subtitle_languages_of plan source m subtitle),
      )

  -- If the verification passes, the staged output is not empty and its probe succeeded; the probed
  -- media has as many tracks of each kind as the plan selects, and its audio and subtitle tracks are
  -- in the languages of the planned source tracks, in the plan's order.
  pub verify_output_passed :
      (output : StagedOutput)
      → (verify_output plan source output).passed ≡ true
      → (is_non_empty_output output.size ≡ true)
        × ((m : MediaFile) × (output.probed ≡ some m)
            × HasShape plan m
            × HasLanguages plan source m)
  unfolding verify_output
  verify_output_passed output h = elim (Bool-cases (is_non_empty_output output.size)) [
    | inl e ↦ (e, probed_passed output.probed (simp e at h))
    | inr e ↦ cc (simp e at h)
  ]

  probed-Consistent : (o : Option MediaFile) → Consistent (verify_probed plan source o)
  unfolding verify_probed report_of
  probed-Consistent none = record { agrees = (refl, refl, refl) }
  probed-Consistent (some m) = record {
    agrees = (add_checks-Agrees _ (plan_checks plan source m) refl, refl, refl);
  }

  -- On every path a verification passes exactly when each of its recorded checks passed, which is when it
  -- records no failure; and its status says the same.
  pub verify_output_consistent :
      (output : StagedOutput)
      → let r = verify_output plan source output in
        (r.passed ≡ all (λ (c : VerificationCheck). c.passed) r.checks)
        × (r.passed ≡ is_empty r.failures)
        × (r.status ≡ (if r.passed then passed else failed))
  unfolding verify_output
  verify_output_consistent output =
      let consistent =
        Consistent-if (is_non_empty_output output.size)
          {y = failed_result (existence false ∷ []) "output_missing_or_empty"}
          (probed-Consistent output.probed) (record { agrees = (refl, refl, refl) }) in
      consistent.agrees
