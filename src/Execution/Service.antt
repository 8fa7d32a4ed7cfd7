-- ===== src/Execution/Service.antt =====
-- `WorkerExecutionService` of packages/db/encodr_db/runtime/worker.py: what becomes of the output of a job. The
-- clock is read once. The text of a verification's or a guard's message stands as its code, and `posix` is `str` of a
-- path. Logging and the reports of progress are left out.
pub mod Outcomes
use encodr.Prelude.{
  ℕ, String, Bool, true, false, not, Option, none, some, List, [], ◌∷◌, if◌then◌else◌, ◌==◌, length,
  str_eq,
}
use encodr.Media.{MediaFile}
use encodr.Planning.Models.{ProcessingPlan, VideoPlan}
use encodr.Verification.Verifier.{
  VerificationStatus, VerificationIssue, VerificationResult, StagedOutput, verify_output,
}
use encodr.Replacement.Paths.{FilePath}
use encodr.Replacement.FileSystem.{World}
use encodr.Replacement.Moves.{ReplacementStatus, ReplacementResult}
use encodr.Replacement.Service.{place_verified_output}
use encodr.Jobs.Models.{
  ResultStatus, JobVerificationStatus, JobReplacementStatus, JobReplacement, ExecutionResult,
}
use encodr.Execution.Metrics.{MediaSavings, or_else, is_zero_or_none}
use encodr.Execution.Safety.{SafetyFailure, failure_category, evaluate_execution_safety}

-- What the runner returns once ffmpeg has written its output.
pub record StagedResult : Type 0 where
  pub command : List String
  pub output_path : Option FilePath
  pub stdout : Option (List ℕ)
  pub stderr : Option (List ℕ)
  pub requested_backend : Option String
  pub actual_backend : Option String
  pub actual_accelerator : Option String
  pub backend_fallback_used : Bool
  pub backend_selection_reason : Option String
  pub started_at : ℕ

abbrev size_of {ℓ} : {A : Type ℓ} → Option (List A) → Option ℕ
size_of none = none
size_of (some content) = some (length content)

-- `file_size_or_none`, of a path that is there.
unfoldable pub file_size_or_none : World → FilePath → Option ℕ
file_size_or_none w p = size_of (w.files p)

abbrev pub size_at : World → Option FilePath → Option ℕ
size_at w none = none
size_at w (some p) = file_size_or_none w p

-- `a or b`, of two sizes.
abbrev pub nonzero_or : Option ℕ → Option ℕ → Option ℕ
nonzero_or a b = if is_zero_or_none a then b else a

-- The dictionary of `_probe_media_savings` when there is no probe.
abbrev pub no_savings : MediaSavings
no_savings = record {
  input_size_bytes = none;
  output_size_bytes = none;
  space_saved_bytes = none;
  video_input_size_bytes = none;
  video_output_size_bytes = none;
  video_space_saved_bytes = none;
  non_video_space_saved_bytes = none;
  source_video_bitrate_bps = none;
  output_video_bitrate_bps = none;
  compression_reduction = none;
}

abbrev pub savings_or_none : Option MediaSavings → MediaSavings
savings_or_none none = no_savings
savings_or_none (some savings) = savings

abbrev pub job_verification : VerificationStatus → JobVerificationStatus
job_verification VerificationStatus.passed = JobVerificationStatus.passed
job_verification VerificationStatus.failed = JobVerificationStatus.failed
job_verification VerificationStatus.not_required = JobVerificationStatus.not_required

abbrev pub job_replacement_status : ReplacementStatus → JobReplacementStatus
job_replacement_status ReplacementStatus.succeeded = JobReplacementStatus.succeeded
job_replacement_status ReplacementStatus.failed = JobReplacementStatus.failed
job_replacement_status ReplacementStatus.not_required = JobReplacementStatus.not_required

abbrev pub job_replacement : ReplacementResult → JobReplacement
job_replacement r = record {
  status = job_replacement_status r.status;
  deleted_original_source = r.deleted_original_source;
  failure_message = r.failure_message;
}

-- `ReplacementResult.not_required()`
abbrev pub replacement_not_required : JobReplacement
replacement_not_required = record {
  status = JobReplacementStatus.not_required;
  deleted_original_source = false;
  failure_message = none;
}

abbrev pub first_failure : List VerificationIssue → String
first_failure [] = "Output verification failed."
first_failure (f ∷ failures) = f.code

abbrev pub text_or_default : Option String → String → String
text_or_default none default = default
text_or_default (some text) default = if str_eq text "" then default else text

abbrev pub is_succeeded : ReplacementStatus → Bool
is_succeeded ReplacementStatus.succeeded = true
is_succeeded ReplacementStatus.failed = false
is_succeeded ReplacementStatus.not_required = false

abbrev pub is_completed : ResultStatus → Bool
is_completed ResultStatus.completed = true
is_completed ResultStatus.failed = false
is_completed ResultStatus.skipped = false
is_completed ResultStatus.manual_review = false
is_completed ResultStatus.cancelled = false

module _ (posix : FilePath → String) (now : ℕ) (staged : StagedResult) where
  abbrev pub text_of : Option FilePath → Option String
  text_of none = none
  text_of (some p) = some (posix p)

  -- The fields that every result of `_verify_and_place` takes from the staged one.
  unfoldable pub result_of :
      ResultStatus → Option ℕ → JobVerificationStatus → JobReplacement → ExecutionResult
  result_of status output_size verification replacement = record {
    status = status;
    command = staged.command;
    output_path = text_of staged.output_path;
    final_output_path = none;
    original_backup_path = none;
    output_size_bytes = output_size;
    stdout = staged.stdout;
    stderr = staged.stderr;
    failure_message = none;
    failure_category = none;
    requested_backend = staged.requested_backend;
    actual_backend = staged.actual_backend;
    actual_accelerator = staged.actual_accelerator;
    backend_fallback_used = staged.backend_fallback_used;
    backend_selection_reason = staged.backend_selection_reason;
    analysis_payload = none;
    verification = some verification;
    replacement = some replacement;
    started_at = staged.started_at;
    completed_at = now;
  }

  abbrev pub with_failure : String → String → ExecutionResult → ExecutionResult
  with_failure message category result = record result {
    failure_message = some message;
    failure_category = some category;
  }

  unfoldable pub without_output : ExecutionResult
  unfolding result_of
  without_output =
      with_failure "The execution runner did not produce a staged output path." "execution_failed"
        (result_of ResultStatus.failed none JobVerificationStatus.failed replacement_not_required)

  unfoldable pub unverified : VerificationResult → Option ℕ → ExecutionResult
  unfolding result_of
  unverified verification size =
      with_failure (first_failure verification.failures) "verification_failed" (
        result_of ResultStatus.failed size (job_verification verification.status)
          replacement_not_required)

  unfoldable pub unsafe : VerificationResult → Option ℕ → SafetyFailure → ExecutionResult
  unfolding result_of
  unsafe verification size failure =
      with_failure (failure_category failure) (failure_category failure) (
        result_of ResultStatus.manual_review size (job_verification verification.status)
          replacement_not_required)

  unfoldable pub unplaced : VerificationResult → Option ℕ → ReplacementResult → ExecutionResult
  unfolding result_of
  unplaced verification size r =
      with_failure (text_or_default r.failure_message "Verified output placement failed.")
        "replacement_failed"
        (record (result_of ResultStatus.failed size (job_verification verification.status)
          (job_replacement r)) {
            final_output_path = text_of r.final_output_path;
            original_backup_path = text_of r.original_backup_path;
          })

  unfoldable pub placed : VerificationResult → Option ℕ → ReplacementResult → ExecutionResult
  unfolding result_of
  placed verification size r =
      record (result_of ResultStatus.completed size (job_verification verification.status)
        (job_replacement r)) {
          final_output_path = text_of r.final_output_path;
          original_backup_path = text_of r.original_backup_path;
        }

  module _ (plan : ProcessingPlan) (source_media : MediaFile) (source : FilePath) where
    -- After the replacement, by its status; a size of zero is taken for a missing one.
    unfoldable pub after_replacement :
        VerificationResult
        → Option ℕ
        → Option (ReplacementResult × World)
        → Option (ExecutionResult × World)
    after_replacement verification size none = none
    after_replacement verification size (some (r, w)) =
        if is_succeeded r.status
        then some (placed verification (nonzero_or (size_at w r.final_output_path) size) r, w)
        else some (unplaced verification size r, w)

    -- After the guards.
    unfoldable pub after_safety :
        List (List ℕ)
        → FilePath
        → VerificationResult
        → Option ℕ
        → Option ℕ
        → Option SafetyFailure
        → World
        → Option (ExecutionResult × World)
    after_safety tokens path verification size measured (some failure) w =
        some (unsafe verification measured failure, w)
    after_safety tokens path verification size measured none w =
        after_replacement verification size
          (place_verified_output source path plan.container.target_container plan.replace tokens w)

    -- The metrics that the guards read.
    abbrev pub safety_metrics : MediaSavings → FilePath → World → MediaSavings
    safety_metrics metrics path w = record metrics {
      input_size_bytes = nonzero_or metrics.input_size_bytes (file_size_or_none w source);
      output_size_bytes = nonzero_or metrics.output_size_bytes (file_size_or_none w path);
    }

    abbrev pub verification_of : Option MediaFile → FilePath → World → VerificationResult
    verification_of probed path w =
        verify_output plan source_media
          (record { size = file_size_or_none w path; probed = probed })

    unfoldable pub verify_and_place_path :
        List (List ℕ)
        → Option MediaFile
        → MediaSavings
        → FilePath
        → World
        → Option (ExecutionResult × World)
    verify_and_place_path tokens probed metrics path w =
        let verification = verification_of probed path w in
        let measured = safety_metrics metrics path w in
        if not verification.passed
        then some (unverified verification (file_size_or_none w path), w)
        else after_safety tokens path verification (file_size_or_none w path)
            measured.output_size_bytes (evaluate_execution_safety plan.video measured) w

    abbrev pub verify_and_place_output :
        List (List ℕ)
        → Option MediaFile
        → Option MediaSavings
        → Option FilePath
        → World
        → Option (ExecutionResult × World)
    verify_and_place_output tokens probed savings none w = some (without_output, w)
    verify_and_place_output tokens probed savings (some path) w =
        verify_and_place_path tokens probed (savings_or_none savings) path w

    -- `_verify_and_place`: `probed` is what ffprobe says of the output, and `savings` what is measured of it.
    unfoldable pub verify_and_place :
        List (List ℕ)
        → Option MediaFile
        → Option MediaSavings
        → World
        → Option (ExecutionResult × World)
    verify_and_place tokens probed savings w =
        verify_and_place_output tokens probed savings staged.output_path w
