-- ===== src/Execution/Service/Outcomes.antt =====
-- What `_verify_and_place` of packages/db/encodr_db/runtime/worker.py leaves behind.
use encodr.Prelude.{
  ℕ, String, ◌≡◌, refl, sym, ap, ◌∙◌, true, false, Option, none, some, List, ◌⊎◌, inl, inr,
  Bool-cases, Option-cases, str_eq,
}
use encodr.Media.{MediaFile}
use encodr.Planning.Models.{ProcessingPlan}
use encodr.Verification.Verifier.{VerificationResult}
use encodr.Replacement.Paths.{FilePath, build_backup_path, final_path}
use encodr.Replacement.FileSystem.{World, Content}
use encodr.Replacement.Moves.{ReplacementStatus, ReplacementResult}
use encodr.Replacement.Service.{place_verified_output}
use encodr.Replacement.Apart.{Apart}
use encodr.Replacement.Success.{place_verified_output-succeeds}
use encodr.Replacement.Safety.{place_verified_output-keeps}
use encodr.Jobs.Models.{ResultStatus, JobReplacement, ExecutionResult}
use encodr.Execution.Metrics.{MediaSavings}
use encodr.Execution.Safety.{evaluate_execution_safety}
use encodr.Execution.Service.{
  verify_and_place_output, is_completed, file_size_or_none, nonzero_or, size_at, StagedResult,
  is_succeeded, job_replacement, savings_or_none, text_of, safety_metrics, verification_of, placed,
  unplaced, unsafe, unverified, result_of, after_replacement, after_safety, verify_and_place_path,
  verify_and_place,
}

module _ (posix : FilePath → String) (now : ℕ) (staged : StagedResult) (plan : ProcessingPlan)
    (source_media : MediaFile) (source : FilePath) where
  -- How it ends for an output: nothing was touched, or the output was verified, found safe and handed to the
  -- replacement, whose result decides.
  pub data PathOutcome (tokens : List (List ℕ)) (probed : Option MediaFile) (metrics : MediaSavings)
      (path : FilePath) (w : World) (r : ExecutionResult) (w' : World) : Type 0 where
    untouched :
        is_completed r.status ≡ false → w' ≡ w → PathOutcome tokens probed metrics path w r w'
    handed :
        (q : ReplacementResult)
        → (verification_of posix now staged plan source_media source probed path w).passed ≡ true
        → evaluate_execution_safety plan.video
            (safety_metrics posix now staged plan source_media source metrics path w)
          ≡ none
        → place_verified_output source path plan.container.target_container plan.replace tokens w
          ≡ some (q, w')
        → is_completed r.status ≡ is_succeeded q.status
        → r.final_output_path ≡ text_of posix now staged q.final_output_path
        → r.replacement ≡ some (job_replacement q)
        → PathOutcome tokens probed metrics path w r w'

  after_replacement-cases :
      (verification : VerificationResult) (size : Option ℕ)
      (ended : Option (ReplacementResult × World)) {r : ExecutionResult} {w' : World}
      → after_replacement posix now staged plan source_media source verification size ended
        ≡ some (r, w')
      → (q : ReplacementResult) × (ended ≡ some (q, w'))
        × (is_completed r.status ≡ is_succeeded q.status)
        × (r.final_output_path ≡ text_of posix now staged q.final_output_path)
        × (r.replacement ≡ some (job_replacement q))
  unfolding after_replacement placed unplaced result_of
  after_replacement-cases verification size none h = cc
  after_replacement-cases verification size (some (q, v)) {r} {w'} h =
      elim (Bool-cases (is_succeeded q.status)) [
        | inl e ↦
            let final = nonzero_or (size_at v q.final_output_path) size in
            let same : placed posix now staged verification final q ≡ r = cc (rw e at h) in
            let world : v ≡ w' = cc (rw e at h) in
            (
              q,
              ap (λ x. some (q, x)) world,
              ap (λ t. is_completed t.status) (sym same) ∙ sym e,
              ap (λ t. t.final_output_path) (sym same),
              ap (λ t. t.replacement) (sym same),
            )
        | inr e ↦
            let same : unplaced posix now staged verification size q ≡ r = cc (rw e at h) in
            let world : v ≡ w' = cc (rw e at h) in
            (
              q,
              ap (λ x. some (q, x)) world,
              ap (λ t. is_completed t.status) (sym same) ∙ sym e,
              ap (λ t. t.final_output_path) (sym same),
              ap (λ t. t.replacement) (sym same),
            )
      ]

  verify_and_place_path-outcome :
      (tokens : List (List ℕ)) (probed : Option MediaFile) (metrics : MediaSavings)
      (path : FilePath) (w : World) {r : ExecutionResult} {w' : World}
      → verify_and_place_path posix now staged plan source_media source tokens probed metrics path w
        ≡ some (r, w')
      → PathOutcome tokens probed metrics path w r w'
  unfolding verify_and_place_path after_safety unverified unsafe result_of
  verify_and_place_path-outcome tokens probed metrics path w {r} {w'} h =
      let verification = verification_of posix now staged plan source_media source probed path w in
      let measured = safety_metrics posix now staged plan source_media source metrics path w in
      let size = file_size_or_none w path in
      elim (Bool-cases verification.passed) [
        | inr e ↦
            let same : unverified posix now staged verification size ≡ r = cc (rw e at h) in
            let world : w ≡ w' = cc (rw e at h) in
            untouched (ap (λ t. is_completed t.status) (sym same)) (sym world)
        | inl e ↦ elim (Option-cases (evaluate_execution_safety plan.video measured)) [
          | inr (failure, f) ↦
              let same : unsafe posix now staged verification measured.output_size_bytes failure
                  ≡ r =
                cc (rw (e, f) at h) in
              let world : w ≡ w' = cc (rw (e, f) at h) in
              untouched (ap (λ t. is_completed t.status) (sym same)) (sym world)
          | inl f ↦
              let (q, ended, status, final, told) =
                after_replacement-cases verification size
                  (place_verified_output source path plan.container.target_container plan.replace
                    tokens w)
                  (simp (e, f) at h) in
              handed q e f ended status final told
        ]
      ]

  succeeded_of :
      (q : ReplacementResult)
      → is_succeeded q.status ≡ true
      → q.status ≡ ReplacementStatus.succeeded
  succeeded_of q h = status_of q.status h
    where
      status_of : (s : ReplacementStatus) → is_succeeded s ≡ true → s ≡ ReplacementStatus.succeeded
      status_of ReplacementStatus.succeeded k = refl
      status_of ReplacementStatus.failed k = cc
      status_of ReplacementStatus.not_required k = cc

  path_of_staged :
      (tokens : List (List ℕ)) (probed : Option MediaFile) (savings : Option MediaSavings)
      (w : World) {path : FilePath} {r : ExecutionResult} {w' : World}
      → staged.output_path ≡ some path
      → verify_and_place posix now staged plan source_media source tokens probed savings w
        ≡ some (r, w')
      → verify_and_place_path posix now staged plan source_media source tokens probed
          (savings_or_none savings)
          path
          w
        ≡ some (r, w')
  unfolding verify_and_place
  path_of_staged tokens probed savings w named h =
      ap
        (λ o.
          verify_and_place_output posix now staged plan source_media source tokens probed savings o
            w)
        (sym named)
      ∙ h

  -- A job is reported as completed only if its output passed the verification and the guards; and the output, which
  -- was staged at none of the source, backup and final paths, then stands at the path that the result names.
  pub verify_and_place_completed :
      (tokens : List (List ℕ)) (probed : Option MediaFile) (savings : Option MediaSavings)
      (w : World) {path : FilePath} {output : Content} {r : ExecutionResult} {w' : World}
      → staged.output_path ≡ some path
      → Apart source plan.container.target_container path
      → w.files path ≡ some output
      → verify_and_place posix now staged plan source_media source tokens probed savings w
        ≡ some (r, w')
      → r.status ≡ ResultStatus.completed
      → ((verification_of posix now staged plan source_media source probed path w).passed ≡ true)
        × (evaluate_execution_safety plan.video (
              safety_metrics posix now staged plan source_media source
                (savings_or_none savings)
                path
                w)
            ≡ none)
        × ((p : FilePath) × (r.final_output_path ≡ some (posix p)) × (w'.files p ≡ some output))
  verify_and_place_completed tokens probed savings w {path} {output} {r} {w'} named apart there h
        done =
      let whole : is_completed r.status ≡ true = ap is_completed done in
      elim (verify_and_place_path-outcome tokens probed (savings_or_none savings) path w
        (path_of_staged tokens probed savings w named h)) [
          | untouched other _ ↦ absurd (cc)
          | handed q verified safe placed_by status final told ↦
              let (p, at, found) =
                place_verified_output-succeeds source path plan.container.target_container
                  plan.replace output apart tokens w there placed_by
                  (succeeded_of q (sym status ∙ whole)) in
              (verified, safe, (p, final ∙ ap (text_of posix now staged) at, found))
        ]

  -- Whatever system calls fail: when a job's output has been checked and placed or refused, a source file that was
  -- there is at its own path or at the backup path; or the result reports that it was deleted, the output passed the
  -- verification, and it stands at the final path. It is assumed that the output was staged at none of the three, and that a new backup is to be made.
  pub verify_and_place-keeps :
      (tokens : List (List ℕ)) (probed : Option MediaFile) (savings : Option MediaSavings)
      (w : World) {path : FilePath} {original output : Content} {r : ExecutionResult} {w' : World}
      → staged.output_path ≡ some path
      → Apart source plan.container.target_container path
      → str_eq plan.replace.existing_backup_strategy "keep_existing_backup" ≡ false
      → w.files source ≡ some original
      → w.files path ≡ some output
      → verify_and_place posix now staged plan source_media source tokens probed savings w
        ≡ some (r, w')
      → (w'.files source ≡ some original)
        ⊎ (w'.files (build_backup_path source) ≡ some original)
        ⊎ ((verification_of posix now staged plan source_media source probed path w).passed ≡ true)
          × ((told : JobReplacement) × (r.replacement ≡ some told)
              × (told.deleted_original_source ≡ true))
          × (w'.files (final_path source plan.container.target_container) ≡ some output)
  verify_and_place-keeps tokens probed savings w {path} {original} {output} {r} {w'} named apart
        strategy s there h =
      elim (verify_and_place_path-outcome tokens probed (savings_or_none savings) path w
        (path_of_staged tokens probed savings w named h)) [
          | untouched _ same ↦ inl (ap (λ v. v.files source) same ∙ s)
          | handed q verified safe placed_by status final told ↦
              elim (place_verified_output-keeps source path plan.container.target_container
                plan.replace original output apart tokens w strategy s there placed_by) [
                  | inl kept ↦ inl kept
                  | inr (inl kept) ↦ inr (inl kept)
                  | inr (inr (deleted, found)) ↦
                      inr (inr (verified, (job_replacement q, told, deleted), found))
                ]
        ]
