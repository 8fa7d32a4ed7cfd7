-- ===== src/Execution/Run/Settles.antt =====
-- What `execute_job` of packages/db/encodr_db/runtime/worker.py leaves behind.
use encodr.Prelude.{
  ℕ, String, ◌≡◌, refl, true, false, Bool, Option, none, some, List, Memᴰ, is_none, if◌then◌else◌,
  Option-cases, Bool-cases, inl, inr,
}
use encodr.Media.{MediaFile}
use encodr.Planning.Models.{ProcessingPlan}
use encodr.Verification.Verifier.{VerificationResult}
use encodr.Replacement.Paths.{FilePath, replacing_path, build_backup_path}
use encodr.Replacement.FileSystem.{World, exists}
use encodr.Replacement.Moves.{ReplacementResult}
use encodr.Replacement.Service.{place_verified_output}
use encodr.Replacement.Ends.{place_verified_output_ends}
use encodr.Jobs.Models.{
  ResultStatus, FileLifecycleState, TrackedFile, Job, ExecutionResult, is_active_status,
}
use encodr.Jobs.Marks.{mark_result, status_of_result}
use encodr.Execution.Metrics.{MediaSavings}
use encodr.Execution.Safety.{evaluate_execution_safety}
use encodr.Execution.Exclusions.{encodr_exclusion_reason}
use encodr.Execution.Service.{
  StagedResult, is_succeeded, savings_or_none, file_size_or_none, safety_metrics, verification_of,
  after_replacement, after_safety, verify_and_place_path, verify_and_place_output, verify_and_place,
}
use encodr.Execution.Run.{
  RunnerOutcome, staged_output, without_run, cancelled, ffmpeg_failed, raised, Executed,
  lifecycle_state_for_plan, lifecycle_of, result_marks_file_processed,
  update_file_state_from_execution_result, or_now, unless_blocked, run_result, settle, settled,
  execute_job, is_manual_review_plan,
}

-- The states of a file that waits for a job, or that a job works on.
abbrev pub is_in_progress : FileLifecycleState → Bool
is_in_progress FileLifecycleState.queued = true
is_in_progress FileLifecycleState.processing = true
is_in_progress FileLifecycleState.discovered = false
is_in_progress FileLifecycleState.probed = false
is_in_progress FileLifecycleState.planned = false
is_in_progress FileLifecycleState.manual_review = false
is_in_progress FileLifecycleState.completed = false
is_in_progress FileLifecycleState.failed = false

result_not_active : (s : ResultStatus) → is_active_status (status_of_result s) ≡ false
result_not_active ResultStatus.completed = refl
result_not_active ResultStatus.failed = refl
result_not_active ResultStatus.skipped = refl
result_not_active ResultStatus.manual_review = refl
result_not_active ResultStatus.cancelled = refl

planned_not_in_progress :
    (plan : ProcessingPlan) → is_in_progress (lifecycle_state_for_plan plan) ≡ false
unfolding lifecycle_state_for_plan
planned_not_in_progress plan = elim (Bool-cases (is_manual_review_plan plan.action)) [
  | inl e ↦ rw e refl
  | inr e ↦ rw e refl
]

state_not_in_progress :
    (plan : ProcessingPlan) (processed : Bool) (s : ResultStatus)
    → is_in_progress (if processed then FileLifecycleState.completed else lifecycle_of plan s)
      ≡ false
state_not_in_progress plan true s = refl
state_not_in_progress plan false ResultStatus.completed = refl
state_not_in_progress plan false ResultStatus.failed = refl
state_not_in_progress plan false ResultStatus.skipped = refl
state_not_in_progress plan false ResultStatus.manual_review = refl
state_not_in_progress plan false ResultStatus.cancelled = planned_not_in_progress plan

module _ (posix : FilePath → String) (now : ℕ) (plan : ProcessingPlan) (source_media : MediaFile)
    (source : FilePath) (tokens : List (List ℕ)) (probed : Option MediaFile)
    (savings : Option MediaSavings) (w : World) {token : List ℕ} (drawn : Memᴰ token tokens)
    (free : exists w (replacing_path (build_backup_path source) token) ≡ false) where
  after_replacement_ends :
      (staged : StagedResult) (verification : VerificationResult) (size : Option ℕ)
      (ended : Option (ReplacementResult × World))
      → is_none ended ≡ false
      → is_none
          (after_replacement posix now staged plan source_media source verification size ended)
        ≡ false
  unfolding after_replacement
  after_replacement_ends staged verification size none h = cc
  after_replacement_ends staged verification size (some (r, v)) h =
      elim (Bool-cases (is_succeeded r.status)) [ inl e ↦ rw e refl | inr e ↦ rw e refl ]

  path_ends :
      (staged : StagedResult) (metrics : MediaSavings) (path : FilePath)
      → is_none (
          verify_and_place_path posix now staged plan source_media source tokens probed metrics path
            w)
        ≡ false
  unfolding verify_and_place_path after_safety
  path_ends staged metrics path =
      let verification = verification_of posix now staged plan source_media source probed path w in
      elim (Bool-cases verification.passed) [
        | inr e ↦ rw e refl
        | inl e ↦
            elim (Option-cases (
              evaluate_execution_safety plan.video
                (safety_metrics posix now staged plan source_media source metrics path w))) [
                  | inr (failure, f) ↦ rw (e, f) refl
                  | inl f ↦
                      simp (e, f)
                        (after_replacement_ends staged verification (file_size_or_none w path)
                          (place_verified_output source path plan.container.target_container
                            plan.replace tokens w)
                          (place_verified_output_ends source path plan.container.target_container
                            plan.replace tokens w drawn free))
                ]
      ]

  output_ends :
      (staged : StagedResult) (output_path : Option FilePath)
      → is_none (
          verify_and_place_output posix now staged plan source_media source tokens probed savings
            output_path w)
        ≡ false
  output_ends staged none = refl
  output_ends staged (some path) = path_ends staged (savings_or_none savings) path

  run_ends :
      (started_at : ℕ) (outcome : RunnerOutcome)
      → is_none
          (run_result posix now started_at plan source_media source tokens outcome probed savings w)
        ≡ false
  unfolding run_result verify_and_place
  run_ends started_at (staged_output staged) = output_ends staged staged.output_path
  run_ends started_at (without_run result) = refl
  run_ends started_at (cancelled d) = refl
  run_ends started_at (ffmpeg_failed message d) = refl
  run_ends started_at (raised message) = refl

  blocked_ends :
      (started_at : ℕ) (reason : Option String) (ended : Option (ExecutionResult × World))
      → is_none ended ≡ false
      → is_none (unless_blocked posix now started_at reason w ended) ≡ false
  blocked_ends started_at none ended h = h
  blocked_ends started_at (some reason) ended h = refl

  settle_lem :
      (found : World → String → Bool) (job : Job) (file : TrackedFile)
      (ended : Option (ExecutionResult × World))
      → is_none ended ≡ false
      → (e : Executed) × (settled found plan job file ended ≡ some e)
        × (is_active_status e.job.status ≡ false)
        × (e.job.assigned_worker_id ≡ none)
        × (is_in_progress e.file.lifecycle_state ≡ false)
  unfolding settle mark_result update_file_state_from_execution_result
  settle_lem found job file none h = cc
  settle_lem found job file (some (r, v)) h = (
    settle found plan job file (r, v),
    refl,
    result_not_active r.status,
    refl,
    state_not_in_progress plan (result_marks_file_processed (found v) r) r.status,
  )

  -- Where one of the drawn tokens names a free path: however the run of a job ends, the execution returns, and the
  -- job is not active any more and has no worker, and its file neither waits for a job nor is worked on.
  pub execute_job_settles :
      (found : World → String → Bool) (in_scratch : Bool) (outcome : RunnerOutcome) (job : Job)
      (file : TrackedFile)
      → (e : Executed) × (execute_job posix found now in_scratch plan source_media source tokens
            outcome probed savings job file w
          ≡ some e)
        × (is_active_status e.job.status ≡ false)
        × (e.job.assigned_worker_id ≡ none)
        × (is_in_progress e.file.lifecycle_state ≡ false)
  unfolding execute_job
  execute_job_settles found in_scratch outcome job file =
      let at = or_now now job.started_at in
      settle_lem found job file _ (
        blocked_ends at (encodr_exclusion_reason in_scratch source.name)
          (run_result posix now at plan source_media source tokens outcome probed savings w)
          (run_ends at outcome))
