-- ===== src/Jobs/Models.antt =====
-- The rows that packages/db/encodr_db/repositories/jobs.py reads and writes: models/job.py, models/enums.py
-- and the parts of models/tracked_file.py, worker.py and plan_snapshot.py that it uses. Ids are numbers, and
-- instants are microseconds. Payloads that are only copied are texts.
use encodr.Prelude.{
  ℕ, Bool, true, false, Option, List, String, if◌then◌else◌, ◌==◌, ==_iff, ◌≡◌, refl, sym, ap, ◌∙◌,
}
use encodr.Planning.Models.{PlanAction, ReplacePlan}
use encodr.Scheduling.{ScheduleWindow}

-- A whole number, where the code subtracts sizes.
pub data ℤ : Type 0 where
  pos negsuc : ℕ → ℤ

pub data JobStatus : Type 0 where
  pending scheduled running completed failed interrupted cancelled skipped manual_review : JobStatus

-- `ACTIVE_JOB_STATUSES`
abbrev pub is_active_status : JobStatus → Bool
is_active_status JobStatus.pending = true
is_active_status JobStatus.scheduled = true
is_active_status JobStatus.running = true
is_active_status JobStatus.completed = false
is_active_status JobStatus.failed = false
is_active_status JobStatus.interrupted = false
is_active_status JobStatus.cancelled = false
is_active_status JobStatus.skipped = false
is_active_status JobStatus.manual_review = false

abbrev pub status_index : JobStatus → ℕ
status_index JobStatus.pending = 0
status_index JobStatus.scheduled = 1
status_index JobStatus.running = 2
status_index JobStatus.completed = 3
status_index JobStatus.failed = 4
status_index JobStatus.interrupted = 5
status_index JobStatus.cancelled = 6
status_index JobStatus.skipped = 7
status_index JobStatus.manual_review = 8

-- The status of a place.
abbrev status_at : ℕ → JobStatus
status_at n =
    if n == 0
    then JobStatus.pending
    else if n == 1
    then JobStatus.scheduled
    else if n == 2
    then JobStatus.running
    else if n == 3
    then JobStatus.completed
    else if n == 4
    then JobStatus.failed
    else if n == 5
    then JobStatus.interrupted
    else if n == 6
    then JobStatus.cancelled
    else if n == 7
    then JobStatus.skipped
    else JobStatus.manual_review

status_at-status_index : (s : JobStatus) → status_at (status_index s) ≡ s
status_at-status_index JobStatus.pending = refl
status_at-status_index JobStatus.scheduled = refl
status_at-status_index JobStatus.running = refl
status_at-status_index JobStatus.completed = refl
status_at-status_index JobStatus.failed = refl
status_at-status_index JobStatus.interrupted = refl
status_at-status_index JobStatus.cancelled = refl
status_at-status_index JobStatus.skipped = refl
status_at-status_index JobStatus.manual_review = refl

pub data JobKind : Type 0 where
  execution dry_run : JobKind

pub data WorkerType : Type 0 where
  local remote : WorkerType

pub data JobVerificationStatus : Type 0 where
  pending passed failed not_required : JobVerificationStatus

pub data JobReplacementStatus : Type 0 where
  pending succeeded failed not_required : JobReplacementStatus

pub data FileLifecycleState : Type 0 where
  discovered probed planned manual_review queued processing completed failed : FileLifecycleState

pub data ComplianceState : Type 0 where
  unknown compliant non_compliant manual_review : ComplianceState

-- The texts that `Job.backup_policy` holds.
pub data BackupPolicy : Type 0 where
  keep delete_after_success keep_for_1_day discovered : BackupPolicy

pub record TrackedFile : Type 0 where
  pub id : ℕ
  pub source_path : String
  pub source_filename : String
  pub last_observed_size : Option ℕ
  pub lifecycle_state : FileLifecycleState
  pub compliance_state : ComplianceState
  pub is_protected : Bool
  pub operator_protected : Bool

-- A stored plan; `replace` is that part of its payload.
pub record PlanSnapshot : Type 0 where
  pub id : ℕ
  pub action : PlanAction
  pub should_treat_as_protected : Bool
  pub replace : ReplacePlan

pub record Worker : Type 0 where
  pub id : ℕ
  pub display_name : String

-- A row of `jobs`, with the plan snapshot that it names. The columns `updated_at` and `schedule_summary` and
-- those of the video's sizes are left out.
pub record Job : Type 0 where
  pub id : ℕ
  pub tracked_file_id : ℕ
  pub plan_snapshot : PlanSnapshot
  pub created_at : ℕ
  pub assigned_worker_id : Option ℕ
  pub preferred_worker_id : Option ℕ
  pub pinned_worker_id : Option ℕ
  pub last_worker_id : Option ℕ
  pub watched_job_id : Option ℕ
  pub requested_worker_type : Option WorkerType
  pub job_kind : JobKind
  pub preferred_backend_override : Option String
  pub schedule_windows : List ScheduleWindow
  pub ignore_worker_schedule : Bool
  pub worker_name : Option String
  pub status : JobStatus
  pub attempt_count : ℕ
  pub started_at : Option ℕ
  pub completed_at : Option ℕ
  pub progress_stage : Option String
  pub progress_percent : Option ℕ
  pub progress_out_time_seconds : Option ℕ
  pub progress_fps : Option String
  pub progress_speed : Option String
  pub progress_updated_at : Option ℕ
  pub scheduled_for_at : Option ℕ
  pub interrupted_at : Option ℕ
  pub interruption_reason : Option String
  pub interruption_retryable : Bool
  pub cleared_at : Option ℕ
  pub cleared_reason : Option String
  pub cancellation_requested_at : Option ℕ
  pub cancellation_reason : Option String
  pub requested_execution_backend : Option String
  pub actual_execution_backend : Option String
  pub actual_execution_accelerator : Option String
  pub backend_fallback_used : Bool
  pub backend_selection_reason : Option String
  pub failure_message : Option String
  pub failure_category : Option String
  pub input_size_bytes : Option ℕ
  pub output_size_bytes : Option ℕ
  pub space_saved_bytes : Option ℤ
  pub analysis_payload : Option String
  pub output_path : Option String
  pub final_output_path : Option String
  pub original_backup_path : Option String
  pub execution_command : List String
  pub execution_stdout : Option (List ℕ)
  pub execution_stderr : Option (List ℕ)
  pub verification_status : JobVerificationStatus
  pub replacement_status : JobReplacementStatus
  pub replacement_failure_message : Option String
  pub replace_in_place : Bool
  pub require_verification : Bool
  pub keep_original_until_verified : Bool
  pub delete_replaced_source : Bool
  pub backup_policy : BackupPolicy
  pub backup_retention_until : Option ℕ
  pub backup_deleted_at : Option ℕ
  pub backup_restored_at : Option ℕ

-- The statuses that an execution reports.
pub data ResultStatus : Type 0 where
  completed failed skipped manual_review cancelled : ResultStatus

-- What the repository reads of the result of a replacement.
pub record JobReplacement : Type 0 where
  pub status : JobReplacementStatus
  pub deleted_original_source : Bool
  pub failure_message : Option String

-- `ExecutionResult` of packages/core/encodr_core/execution/models.py, less the sizes of the video.
pub record ExecutionResult : Type 0 where
  pub status : ResultStatus
  pub command : List String
  pub output_path : Option String
  pub final_output_path : Option String
  pub original_backup_path : Option String
  pub output_size_bytes : Option ℕ
  pub stdout : Option (List ℕ)
  pub stderr : Option (List ℕ)
  pub failure_message : Option String
  pub failure_category : Option String
  pub requested_backend : Option String
  pub actual_backend : Option String
  pub actual_accelerator : Option String
  pub backend_fallback_used : Bool
  pub backend_selection_reason : Option String
  pub analysis_payload : Option String
  pub verification : Option JobVerificationStatus
  pub replacement : Option JobReplacement
  pub started_at : ℕ
  pub completed_at : ℕ

-- `ExecutionProgressUpdate`; a percentage and a time are in thousandths.
pub record ExecutionProgressUpdate : Type 0 where
  pub stage : String
  pub percent : Option ℕ
  pub out_time_seconds : Option ℕ
  pub fps : Option String
  pub speed : Option String
  pub updated_at : ℕ

abbrev pub has_status : JobStatus → Job → Bool
has_status status job = status_index job.status == status_index status

pub status_of_has_status :
    (status : JobStatus) (job : Job) → has_status status job ≡ true → job.status ≡ status
status_of_has_status status job h =
    sym (status_at-status_index job.status)
    ∙ ap status_at ((==_iff (status_index job.status) (status_index status)).0 h)
    ∙ status_at-status_index status
