-- ===== src/Jobs/Marks.antt =====
-- The operations on one job of packages/db/encodr_db/repositories/jobs.py, and the state that they give its
-- tracked file. The instants that they take from the clock are arguments.
use encodr.Prelude.{ℕ, ◌+◌, ◌*◌, ◌/◌, Bool, true, false, Option, none, some, String, if◌then◌else◌}
use encodr.Jobs.Models.{
  JobStatus, ResultStatus, FileLifecycleState, ComplianceState, BackupPolicy, TrackedFile, Worker,
  Job, ExecutionResult, ExecutionProgressUpdate,
}
use encodr.Jobs.Policies.{
  normalise_backend_preference, calculate_space_saved, truncate_log, verification_status_for_result,
  replacement_status_for_result, microseconds_per_second,
}

-- `requested if requested is not None else the present value`
abbrev requested_backend_of : Option String → Option String → Option String
requested_backend_of none present = present
requested_backend_of (some backend) present = some (normalise_backend_preference backend)

unfoldable pub mark_running : ℕ → String → Option String → Job → Job
mark_running now worker_name requested_backend job = record job {
  status = JobStatus.running;
  worker_name = some worker_name;
  started_at = some now;
  interrupted_at = none;
  interruption_reason = none;
  progress_stage = some "starting";
  progress_percent = some 0;
  progress_out_time_seconds = some 0;
  progress_fps = none;
  progress_speed = none;
  progress_updated_at = some now;
  requested_execution_backend =
      requested_backend_of requested_backend job.requested_execution_backend;
}

unfoldable pub mark_running_for_worker : ℕ → Worker → Option String → Job → Job
mark_running_for_worker now worker requested_backend job =
    record (mark_running now worker.display_name requested_backend job) {
      assigned_worker_id = some worker.id;
      last_worker_id = some worker.id;
    }

unfoldable pub mark_scheduled : Option ℕ → Job → Job
mark_scheduled scheduled_for_at job = record job {
  status = JobStatus.scheduled;
  scheduled_for_at = scheduled_for_at;
}

unfoldable pub mark_cancelling : ℕ → Job → Job
mark_cancelling requested_at job = record job {
  progress_stage = some "cancelling";
  progress_updated_at = some requested_at;
}

unfoldable pub mark_cancellation_requested : ℕ → String → Job → Job
mark_cancellation_requested requested_at reason job = record job {
  cancellation_requested_at = some requested_at;
  cancellation_reason = some reason;
  interruption_reason = some reason;
  progress_stage = some "cancellation_requested";
  progress_updated_at = some requested_at;
}

unfoldable pub promote_scheduled : Job → Job
promote_scheduled job = record job { status = JobStatus.pending; scheduled_for_at = none }

unfoldable pub assign_worker : Worker → Job → Job
assign_worker worker job = record job {
  assigned_worker_id = some worker.id;
  worker_name = some worker.display_name;
}

-- `status_map`
abbrev pub status_of_result : ResultStatus → JobStatus
status_of_result ResultStatus.completed = JobStatus.completed
status_of_result ResultStatus.failed = JobStatus.failed
status_of_result ResultStatus.skipped = JobStatus.skipped
status_of_result ResultStatus.manual_review = JobStatus.manual_review
status_of_result ResultStatus.cancelled = JobStatus.cancelled

abbrev pub stage_of_result : ResultStatus → String
stage_of_result ResultStatus.completed = "completed"
stage_of_result ResultStatus.failed = "failed"
stage_of_result ResultStatus.skipped = "skipped"
stage_of_result ResultStatus.manual_review = "manual_review"
stage_of_result ResultStatus.cancelled = "cancelled"

abbrev pub percent_of_result : ResultStatus → Option ℕ → Option ℕ
percent_of_result ResultStatus.completed present = some 100
percent_of_result ResultStatus.skipped present = some 100
percent_of_result ResultStatus.failed present = present
percent_of_result ResultStatus.manual_review present = present
percent_of_result ResultStatus.cancelled present = none

abbrev pub microseconds_of_retention : ℕ
microseconds_of_retention = 86_400 * microseconds_per_second

-- A completed job with a backup that is kept for a day gets the end of that day.
abbrev pub retention_of_result :
    ResultStatus → BackupPolicy → Option String → ℕ → Option ℕ → Option ℕ
retention_of_result ResultStatus.completed BackupPolicy.keep_for_1_day (some path) completed_at
      present =
    some (completed_at + microseconds_of_retention)
retention_of_result status policy path completed_at present = present

abbrev is_cancelled : ResultStatus → Bool
is_cancelled ResultStatus.cancelled = true
is_cancelled status = false

abbrev deleted_source : ExecutionResult → Bool
deleted_source result = elim result.replacement [
  | none ↦ false
  | some r ↦ r.deleted_original_source
]

-- `mark_result`, less the record that it makes in the telemetry.
unfoldable pub mark_result : ExecutionResult → Job → Job
mark_result result job =
    let cancelled = is_cancelled result.status in
    record job {
      status = status_of_result result.status;
      started_at = some result.started_at;
      completed_at = some result.completed_at;
      failure_message = result.failure_message;
      failure_category = result.failure_category;
      requested_execution_backend = result.requested_backend;
      actual_execution_backend = result.actual_backend;
      actual_execution_accelerator = result.actual_accelerator;
      backend_fallback_used = result.backend_fallback_used;
      backend_selection_reason = result.backend_selection_reason;
      output_size_bytes = result.output_size_bytes;
      space_saved_bytes = calculate_space_saved job.input_size_bytes result.output_size_bytes;
      output_path = result.output_path;
      final_output_path = result.final_output_path;
      original_backup_path = result.original_backup_path;
      execution_command = result.command;
      execution_stdout = truncate_log result.stdout;
      execution_stderr = truncate_log result.stderr;
      verification_status = verification_status_for_result result;
      replacement_status = replacement_status_for_result result;
      replacement_failure_message = elim result.replacement [
        | none ↦ none
        | some r ↦ r.failure_message
      ];
      analysis_payload = result.analysis_payload;
      backup_retention_until =
          retention_of_result result.status job.backup_policy result.original_backup_path
            result.completed_at job.backup_retention_until;
      backup_deleted_at =
          if deleted_source result then some result.completed_at else job.backup_deleted_at;
      interrupted_at = if cancelled then some result.completed_at else job.interrupted_at;
      interruption_reason = if cancelled then result.failure_message else job.interruption_reason;
      interruption_retryable = if cancelled then true else job.interruption_retryable;
      progress_stage = some (stage_of_result result.status);
      progress_percent = percent_of_result result.status job.progress_percent;
      progress_updated_at = some result.completed_at;
      assigned_worker_id = none;
      scheduled_for_at = none;
    }

unfoldable pub route_to_manual_review : ℕ → String → String → Job → Job
route_to_manual_review reviewed_at reason category job = record job {
  status = JobStatus.manual_review;
  completed_at = some reviewed_at;
  failure_message = some reason;
  failure_category = some category;
  progress_stage = some "manual_review";
  progress_updated_at = some reviewed_at;
  assigned_worker_id = none;
  scheduled_for_at = none;
}

unfoldable pub mark_interrupted : ℕ → String → Bool → Job → Job
mark_interrupted interrupted_at reason retryable job = record job {
  status = JobStatus.interrupted;
  interrupted_at = some interrupted_at;
  interruption_reason = some reason;
  interruption_retryable = retryable;
  failure_message = some reason;
  failure_category = some "worker_interrupted";
  progress_stage = some "interrupted";
  progress_updated_at = some interrupted_at;
  assigned_worker_id = none;
}

unfoldable pub mark_cancelled : ℕ → String → Job → Job
mark_cancelled cancelled_at reason job = record job {
  status = JobStatus.cancelled;
  completed_at = some cancelled_at;
  interrupted_at = some cancelled_at;
  interruption_reason = some reason;
  interruption_retryable = true;
  failure_message = some reason;
  failure_category = some "cancelled_by_operator";
  progress_stage = some "cancelled";
  progress_percent = none;
  progress_updated_at = some cancelled_at;
  assigned_worker_id = none;
  scheduled_for_at = none;
  cancellation_requested_at = some cancelled_at;
  cancellation_reason = some reason;
}

unfoldable pub mark_cleared : ℕ → String → Job → Job
mark_cleared cleared_at reason job = record job {
  cleared_at = some cleared_at;
  cleared_reason = some reason;
}

abbrev floor_of : Option ℕ → Option ℕ
floor_of none = none
floor_of (some thousandths) = some (thousandths / 1000)

unfoldable pub record_progress : ExecutionProgressUpdate → Job → Job
record_progress update job = record job {
  progress_stage = some update.stage;
  progress_percent = floor_of update.percent;
  progress_out_time_seconds = floor_of update.out_time_seconds;
  progress_fps = update.fps;
  progress_speed = update.speed;
  progress_updated_at = some update.updated_at;
}

-- What the operations set on the tracked file.
abbrev pub set_processing : TrackedFile → TrackedFile
set_processing file = record file { lifecycle_state = FileLifecycleState.processing }

abbrev pub set_queued : TrackedFile → TrackedFile
set_queued file = record file { lifecycle_state = FileLifecycleState.queued }

abbrev pub set_manual_review : TrackedFile → TrackedFile
set_manual_review file = record file {
  lifecycle_state = FileLifecycleState.manual_review;
  compliance_state = ComplianceState.manual_review;
}
