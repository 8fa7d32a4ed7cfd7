-- ===== src/Jobs/Retry.antt =====
-- `apply_automatic_retry_policy` of packages/db/encodr_db/repositories/jobs.py.
pub mod Delays
pub mod Settles
pub mod Chains
use encodr.Prelude.{
  ℕ, ◌+◌, Bool, true, false, not, ◌&&◌, ◌||◌, Option, none, some, List, [], ◌∷◌, String,
  if◌then◌else◌, leb, str_eq,
}
use encodr.Jobs.Models.{JobKind, ResultStatus, Job, ExecutionResult, TrackedFile}
use encodr.Jobs.Marks.{route_to_manual_review, set_manual_review}
use encodr.Jobs.Policies.{
  job_requires_manual_review, automatic_retry_delay, max_automated_retries, policy_text,
}
use encodr.Jobs.Database.{
  Database, JobRequest, job_of_request, create_job_from_plan, has_active_job_for_tracked_file, save,
  find_file,
}

abbrev pub is_failed : ResultStatus → Bool
is_failed ResultStatus.failed = true
is_failed status = false

abbrev pub is_execution : JobKind → Bool
is_execution JobKind.execution = true
is_execution JobKind.dry_run = false

-- `text or default`
abbrev pub text_or : Option String → String → String
text_or none default = default
text_or (some text) default = if str_eq text "" then default else text

-- The arguments with which a failed job is made again.
unfoldable pub retry_request : ℕ → ℕ → Job → TrackedFile → ExecutionResult → JobRequest
retry_request new_id now job file result = record {
  id = new_id;
  now = now;
  tracked_file = file;
  plan_snapshot = job.plan_snapshot;
  worker_name = none;
  attempt_count = job.attempt_count + 1;
  preferred_worker_id = job.preferred_worker_id;
  pinned_worker_id = job.pinned_worker_id;
  preferred_backend_override = job.preferred_backend_override;
  schedule_windows = job.schedule_windows;
  watched_job_id = job.watched_job_id;
  job_kind = job.job_kind;
  analysis_payload = job.analysis_payload;
  ignore_worker_schedule = job.ignore_worker_schedule;
  scheduled_for_at = some (result.completed_at + automatic_retry_delay (job.attempt_count + 1));
  backup_policy = policy_text job.backup_policy;
}

-- What the policy returns, and the rows after it.
pub record Retried : Type 0 where
  pub job : Option Job
  pub after : Database

abbrev pub nothing_retried : Database → Retried
nothing_retried db = record { job = none; after = db }

abbrev pub retried : Option Job → Option Database → Option Retried
retried job none = none
retried job (some db) = some (record { job = job; after = db })

abbrev pub review : Job → ExecutionResult → String → String → Database → Option Retried
review job result message category db = retried none (
    save
      (route_to_manual_review result.completed_at (text_or result.failure_message message)
        (text_or result.failure_category category))
      set_manual_review job db)

-- The new job, or none when an `IntegrityError` is met by a job that is active by then.
abbrev pub retry_created : Job → Job → Option Database → Database → Option Retried
retry_created new job (some created) db = some (record { job = some new; after = created })
retry_created new job none db =
    if has_active_job_for_tracked_file job.tracked_file_id db.jobs
    then some (nothing_retried db)
    else none

unfoldable pub retry_again : ℕ → ℕ → Job → TrackedFile → ExecutionResult → Database → Option Retried
retry_again new_id now job file result db =
    if has_active_job_for_tracked_file job.tracked_file_id db.jobs
    then some (nothing_retried db)
    else let request = retry_request new_id now job file result in
      retry_created (job_of_request request) job (create_job_from_plan request db) db

-- The job's tracked file is there, by its foreign key. None is an `IntegrityError` that is raised again.
unfoldable pub apply_automatic_retry_policy :
    ℕ → ℕ → Job → TrackedFile → ExecutionResult → Database → Option Retried
apply_automatic_retry_policy new_id now job file result db =
    if not (is_failed result.status) || not (is_execution job.job_kind)
    then some (nothing_retried db)
    else if job_requires_manual_review (some file) job.plan_snapshot
    then review job result
        "The failed job matches a manual-review rule and will not be retried automatically."
        "manual_review_required" db
    else if leb job.attempt_count max_automated_retries
    then retry_again new_id now job file result db
    else review job result "The job failed after its automated retry budget was exhausted."
        "retry_limit_exceeded" db
