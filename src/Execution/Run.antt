-- ===== src/Execution/Run.antt =====
-- `execute_job` of packages/db/encodr_db/runtime/worker.py, and the state that it gives the job and its tracked
-- file (repositories/tracked_files.py). The runner's result, or the exception that it raises, is an argument, as is
-- `found`, whether a path is there by its text.
pub mod Settles
use encodr.Prelude.{
  ℕ, String, Bool, true, false, ◌||◌, ◌&&◌, Option, none, some, List, [], ◌∷◌, if◌then◌else◌,
  str_eq, is_none,
}
use encodr.Media.{MediaFile}
use encodr.Planning.Models.{PlanAction, ProcessingPlan}
use encodr.Replacement.Paths.{FilePath}
use encodr.Replacement.FileSystem.{World, exists}
use encodr.Replacement.FileSystem
use encodr.Jobs.Models.{
  ResultStatus, JobVerificationStatus, JobReplacementStatus, JobReplacement, FileLifecycleState,
  ComplianceState, TrackedFile, Job, ExecutionResult,
}
use encodr.Jobs.Marks.{mark_result}
use encodr.Execution.Metrics.{MediaSavings}
use encodr.Execution.Exclusions.{encodr_exclusion_reason}
use encodr.Execution.Service.{StagedResult, replacement_not_required, verify_and_place}

abbrev pub is_manual_review_plan : PlanAction → Bool
is_manual_review_plan PlanAction.manual_review = true
is_manual_review_plan PlanAction.skip = false
is_manual_review_plan PlanAction.remux = false
is_manual_review_plan PlanAction.transcode = false

unfoldable pub lifecycle_state_for_plan : ProcessingPlan → FileLifecycleState
lifecycle_state_for_plan plan =
    if is_manual_review_plan plan.action
    then FileLifecycleState.manual_review
    else FileLifecycleState.planned

unfoldable pub compliance_state_for_plan : ProcessingPlan → ComplianceState
compliance_state_for_plan plan =
    if is_manual_review_plan plan.action
    then ComplianceState.manual_review
    else if plan.is_already_compliant
    then ComplianceState.compliant
    else ComplianceState.non_compliant

abbrev protected_by : ProcessingPlan → TrackedFile → Bool
protected_by plan file = plan.should_treat_as_protected || file.operator_protected

unfoldable pub update_file_state_from_plan_result : ProcessingPlan → TrackedFile → TrackedFile
unfolding lifecycle_state_for_plan compliance_state_for_plan
update_file_state_from_plan_result plan file = record file {
  is_protected = protected_by plan file;
  compliance_state = compliance_state_for_plan plan;
  lifecycle_state = lifecycle_state_for_plan plan;
}

abbrev replaced : Option JobReplacement → Bool
replaced none = false
replaced (some r) = elim r.status [
  | JobReplacementStatus.succeeded ↦ true
  | JobReplacementStatus.pending ↦ false
  | JobReplacementStatus.failed ↦ false
  | JobReplacementStatus.not_required ↦ false
]

abbrev found_at : (String → Bool) → Option String → Bool
found_at found none = false
found_at found (some path) = found path

-- The replacement's own path, to which the source falls back, is the result's.
unfoldable pub result_marks_file_processed : (String → Bool) → ExecutionResult → Bool
result_marks_file_processed found result = elim result.status [
  | ResultStatus.completed ↦ replaced result.replacement && found_at found result.final_output_path
  | ResultStatus.failed ↦ false
  | ResultStatus.skipped ↦ false
  | ResultStatus.manual_review ↦ false
  | ResultStatus.cancelled ↦ false
]

-- The states by the status of a result that does not mark the file as processed.
abbrev pub lifecycle_of : ProcessingPlan → ResultStatus → FileLifecycleState
lifecycle_of plan ResultStatus.skipped = FileLifecycleState.completed
lifecycle_of plan ResultStatus.manual_review = FileLifecycleState.manual_review
lifecycle_of plan ResultStatus.cancelled = lifecycle_state_for_plan plan
lifecycle_of plan ResultStatus.completed = FileLifecycleState.failed
lifecycle_of plan ResultStatus.failed = FileLifecycleState.failed

abbrev compliance_of_failure : ProcessingPlan → ComplianceState
compliance_of_failure plan =
    if is_manual_review_plan plan.action
    then ComplianceState.manual_review
    else ComplianceState.non_compliant

abbrev compliance_of : ProcessingPlan → ResultStatus → ComplianceState
compliance_of plan ResultStatus.skipped = ComplianceState.compliant
compliance_of plan ResultStatus.manual_review = ComplianceState.manual_review
compliance_of plan ResultStatus.cancelled = compliance_state_for_plan plan
compliance_of plan ResultStatus.completed = compliance_of_failure plan
compliance_of plan ResultStatus.failed = compliance_of_failure plan

-- Less the policy's version and the profile's name, which it records.
unfoldable pub update_file_state_from_execution_result :
    (String → Bool) → ProcessingPlan → ExecutionResult → TrackedFile → TrackedFile
update_file_state_from_execution_result found plan result file =
    let processed = result_marks_file_processed found result in
    record file {
      is_protected = protected_by plan file;
      lifecycle_state =
          if processed then FileLifecycleState.completed else lifecycle_of plan result.status;
      compliance_state =
          if processed then ComplianceState.compliant else compliance_of plan result.status;
    }

-- What an exception of the execution carries.
pub record ErrorDetails : Type 0 where
  pub command : List String
  pub output_path : Option FilePath
  pub stdout : Option (List ℕ)
  pub stderr : Option (List ℕ)
  pub requested_backend : Option String
  pub actual_backend : Option String
  pub actual_accelerator : Option String
  pub backend_fallback_used : Bool
  pub backend_selection_reason : Option String

abbrev no_details : ErrorDetails
no_details = record {
  command = [];
  output_path = none;
  stdout = none;
  stderr = none;
  requested_backend = none;
  actual_backend = none;
  actual_accelerator = none;
  backend_fallback_used = false;
  backend_selection_reason = none;
}

-- How `execute_plan` ends: with a staged output, with a result without one, cancelled, with an error of ffmpeg, or
-- with any other exception.
pub data RunnerOutcome : Type 0 where
  staged_output : StagedResult → RunnerOutcome
  without_run : ExecutionResult → RunnerOutcome
  cancelled : ErrorDetails → RunnerOutcome
  ffmpeg_failed : String → ErrorDetails → RunnerOutcome
  raised : String → RunnerOutcome

abbrev pub or_now : ℕ → Option ℕ → ℕ
or_now now none = now
or_now now (some at) = at

-- `_delete_file_if_present`, whose errors are dropped.
unfoldable pub delete_file_if_present : Option FilePath → World → World
delete_file_if_present none w = w
delete_file_if_present (some p) w = if exists w p then (FileSystem.unlink p w).1 else w

pub record Executed : Type 0 where
  pub result : ExecutionResult
  pub job : Job
  pub file : TrackedFile
  pub world : World

module _ (posix : FilePath → String) (now : ℕ) (started_at : ℕ) where
  abbrev pub error_result :
      ResultStatus → String → String → Option FilePath → ErrorDetails → ExecutionResult
  error_result status message category output_path d = record {
    status = status;
    command = d.command;
    output_path = elim output_path [ none ↦ none | some p ↦ some (posix p) ];
    final_output_path = none;
    original_backup_path = none;
    output_size_bytes = none;
    stdout = d.stdout;
    stderr = d.stderr;
    failure_message = some message;
    failure_category = some category;
    requested_backend = d.requested_backend;
    actual_backend = d.actual_backend;
    actual_accelerator = d.actual_accelerator;
    backend_fallback_used = d.backend_fallback_used;
    backend_selection_reason = d.backend_selection_reason;
    analysis_payload = none;
    verification = none;
    replacement = none;
    started_at = started_at;
    completed_at = now;
  }

  -- `_blocked_artifact_result`, for a reason.
  unfoldable pub blocked_artifact_result : String → ExecutionResult
  blocked_artifact_result reason =
      record (error_result ResultStatus.skipped reason "excluded_encodr_artifact" none no_details) {
        verification = some JobVerificationStatus.not_required;
        replacement = some replacement_not_required;
      }

  abbrev pub unless_blocked :
      Option String → World → Option (ExecutionResult × World) → Option (ExecutionResult × World)
  unless_blocked none w ended = ended
  unless_blocked (some reason) w ended = some (blocked_artifact_result reason, w)

  module _ (plan : ProcessingPlan) (source_media : MediaFile) (source : FilePath) where
    -- The result of the run, with the files after it.
    unfoldable pub run_result :
        List (List ℕ)
        → RunnerOutcome
        → Option MediaFile
        → Option MediaSavings
        → World
        → Option (ExecutionResult × World)
    run_result tokens (staged_output staged) probed savings w =
        verify_and_place posix now staged plan source_media source tokens probed savings w
    run_result tokens (without_run result) probed savings w = some (result, w)
    run_result tokens (cancelled d) probed savings w = some (
      error_result ResultStatus.cancelled "Cancelled by operator." "cancelled_by_operator"
          d.output_path d,
      delete_file_if_present d.output_path w,
    )
    run_result tokens (ffmpeg_failed message d) probed savings w =
        some (error_result ResultStatus.failed message "execution_failed" none d, w)
    run_result tokens (raised message) probed savings w =
        some (error_result ResultStatus.failed message "execution_failed" none no_details, w)

unfoldable pub settle :
    (World → String → Bool)
    → ProcessingPlan
    → Job
    → TrackedFile
    → ExecutionResult × World
    → Executed
settle found plan job file (result, w) = record {
  result = result;
  job = mark_result result job;
  file = update_file_state_from_execution_result (found w) plan result file;
  world = w;
}

abbrev pub settled :
    (World → String → Bool)
    → ProcessingPlan
    → Job
    → TrackedFile
    → Option (ExecutionResult × World)
    → Option Executed
settled found plan job file none = none
settled found plan job file (some ended) = some (settle found plan job file ended)

-- `execute_job`; none is that the drawn tokens are used up.
unfoldable pub execute_job :
    (FilePath → String)
    → (World → String → Bool)
    → ℕ
    → Bool
    → ProcessingPlan
    → MediaFile
    → FilePath
    → List (List ℕ)
    → RunnerOutcome
    → Option MediaFile
    → Option MediaSavings
    → Job
    → TrackedFile
    → World
    → Option Executed
execute_job posix found now in_scratch plan source_media source tokens outcome probed savings job
      file w =
    let started_at = or_now now job.started_at in
    settled found plan job file (
      unless_blocked posix now started_at (encodr_exclusion_reason in_scratch source.name) w
        (run_result posix now started_at plan source_media source tokens outcome probed savings w))
