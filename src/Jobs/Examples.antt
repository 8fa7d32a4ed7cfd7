-- ===== src/Jobs/Examples.antt =====
-- A film with a job, for the tests of packages/db/encodr_db/repositories/jobs.py.
use encodr.Prelude.{true, false, some, none, [], ◌∷◌}
use encodr.Planning.Models.{PlanAction}
use encodr.Jobs.Models.{
  JobStatus, JobKind, JobVerificationStatus, JobReplacementStatus, ResultStatus, FileLifecycleState,
  ComplianceState, BackupPolicy, TrackedFile, PlanSnapshot, Worker, Job, ExecutionResult,
}
use encodr.Jobs.Database.{Database}

abbrev pub plan : PlanSnapshot
plan = record {
  id = 5;
  action = PlanAction.transcode;
  should_treat_as_protected = false;
  replace = record {
    in_place = true;
    require_verification = true;
    keep_original_until_verified = true;
    delete_replaced_source = false;
    existing_backup_strategy = "fail";
  };
}

abbrev pub film : TrackedFile
film = record {
  id = 1;
  source_path = "/media/Film.avi";
  source_filename = "Film.avi";
  last_observed_size = some 9_000;
  lifecycle_state = FileLifecycleState.planned;
  compliance_state = ComplianceState.non_compliant;
  is_protected = false;
  operator_protected = false;
}

-- A job of the film that waits.
abbrev pub waiting : Job
waiting = record {
  id = 10;
  tracked_file_id = 1;
  plan_snapshot = plan;
  created_at = 1_000;
  assigned_worker_id = none;
  preferred_worker_id = none;
  pinned_worker_id = none;
  last_worker_id = none;
  watched_job_id = none;
  requested_worker_type = none;
  job_kind = JobKind.execution;
  preferred_backend_override = none;
  schedule_windows = [];
  ignore_worker_schedule = false;
  worker_name = none;
  status = JobStatus.pending;
  attempt_count = 1;
  started_at = none;
  completed_at = none;
  progress_stage = none;
  progress_percent = none;
  progress_out_time_seconds = none;
  progress_fps = none;
  progress_speed = none;
  progress_updated_at = none;
  scheduled_for_at = none;
  interrupted_at = none;
  interruption_reason = none;
  interruption_retryable = true;
  cleared_at = none;
  cleared_reason = none;
  cancellation_requested_at = none;
  cancellation_reason = none;
  requested_execution_backend = none;
  actual_execution_backend = none;
  actual_execution_accelerator = none;
  backend_fallback_used = false;
  backend_selection_reason = none;
  failure_message = none;
  failure_category = none;
  input_size_bytes = some 9_000;
  output_size_bytes = none;
  space_saved_bytes = none;
  analysis_payload = none;
  output_path = none;
  final_output_path = none;
  original_backup_path = none;
  execution_command = [];
  execution_stdout = none;
  execution_stderr = none;
  verification_status = JobVerificationStatus.pending;
  replacement_status = JobReplacementStatus.pending;
  replacement_failure_message = none;
  replace_in_place = true;
  require_verification = true;
  keep_original_until_verified = true;
  delete_replaced_source = false;
  backup_policy = BackupPolicy.keep;
  backup_retention_until = none;
  backup_deleted_at = none;
  backup_restored_at = none;
}

-- The same after it failed.
abbrev pub failed_job : Job
failed_job = record waiting { status = JobStatus.failed; completed_at = some 7_000 }

abbrev pub waiting_rows : Database
waiting_rows = record { jobs = waiting ∷ []; tracked_files = film ∷ [] }

abbrev pub failed_rows : Database
failed_rows = record { jobs = failed_job ∷ []; tracked_files = film ∷ [] }

abbrev pub worker : Worker
worker = record { id = 3; display_name = "Attic" }

-- An encoding that failed at an instant.
abbrev pub failure : ExecutionResult
failure = record {
  status = ResultStatus.failed;
  command = "ffmpeg" ∷ [];
  output_path = none;
  final_output_path = none;
  original_backup_path = none;
  output_size_bytes = none;
  stdout = none;
  stderr = none;
  failure_message = some "ffmpeg failed";
  failure_category = none;
  requested_backend = some "cpu";
  actual_backend = some "cpu";
  actual_accelerator = none;
  backend_fallback_used = false;
  backend_selection_reason = none;
  analysis_payload = none;
  verification = none;
  replacement = none;
  started_at = 2_000;
  completed_at = 7_000;
}

-- A job whose backup may go.
abbrev pub replaced : Job
replaced = record waiting {
  status = JobStatus.completed;
  completed_at = some 7_000;
  replacement_status = JobReplacementStatus.succeeded;
  original_backup_path = some "/media/Film.encodr-backup.avi";
  backup_policy = BackupPolicy.keep_for_1_day;
  backup_retention_until = some 86_400_007_000;
}
