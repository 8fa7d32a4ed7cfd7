-- ===== src/Jobs/Database.antt =====
-- The table of jobs as packages/db/encodr_db/repositories/jobs.py uses it: the index of models/job.py that
-- keeps one active job for a tracked file, the creation of a job, and the queries that the others share.
use encodr.Prelude.{
  ℕ, Bool, true, false, not, ◌&&◌, ◌||◌, Option, none, some, List, [], ◌∷◌, map, String,
  if◌then◌else◌, ◌==◌, is_none, is_empty, any,
}
use encodr.Scheduling.{ScheduleWindow, next_schedule_opening, schedule_windows_allow_now}
use encodr.Jobs.Models.{
  JobStatus, JobKind, JobVerificationStatus, JobReplacementStatus, TrackedFile, PlanSnapshot, Job,
  is_active_status,
}
use encodr.Jobs.Marks.{set_queued}
use encodr.Jobs.Policies.{
  normalise_backend_preference, normalise_backup_policy, delete_replaced_source_for_backup_policy,
  policy_text,
}

pub record Database : Type 0 where
  pub jobs : List Job
  pub tracked_files : List TrackedFile

-- `status IN ('pending', 'scheduled', 'running') AND cleared_at IS NULL`
unfoldable pub is_live : Job → Bool
is_live job = is_active_status job.status && is_none job.cleared_at

unfoldable pub is_live_for : ℕ → Job → Bool
is_live_for tracked_file_id job = is_live job && job.tracked_file_id == tracked_file_id

unfoldable pub has_active_job_for_tracked_file : ℕ → List Job → Bool
has_active_job_for_tracked_file tracked_file_id jobs = any (is_live_for tracked_file_id) jobs

-- `uq_jobs_one_active_per_tracked_file`
unfoldable pub unique_active : List Job → Bool
unique_active [] = true
unique_active (job ∷ jobs) =
    not (is_live job && has_active_job_for_tracked_file job.tracked_file_id jobs)
    && unique_active jobs

-- The statements of a flush are refused with an `IntegrityError`, here none, when they break the index.
unfoldable pub flush : Database → Option Database
flush db = if unique_active db.jobs then some db else none

-- `update(...).where(...)`, on the jobs and on the tracked files.
unfoldable pub update_where : (Job → Bool) → (Job → Job) → List Job → List Job
update_where test change [] = []
update_where test change (job ∷ jobs) =
    let rest = update_where test change jobs in if test job then change job ∷ rest else job ∷ rest

abbrev pub has_id : ℕ → Job → Bool
has_id id job = job.id == id

abbrev pub change_file : ℕ → (TrackedFile → TrackedFile) → TrackedFile → TrackedFile
change_file id change file = if file.id == id then change file else file

unfoldable pub update_file : ℕ → (TrackedFile → TrackedFile) → List TrackedFile → List TrackedFile
update_file id change files = map (change_file id change) files

unfoldable pub find_job : ℕ → List Job → Option Job
find_job id [] = none
find_job id (job ∷ jobs) = let rest = find_job id jobs in if has_id id job then some job else rest

unfoldable pub find_file : ℕ → List TrackedFile → Option TrackedFile
find_file id [] = none
find_file id (file ∷ files) =
    let rest = find_file id files in if file.id == id then some file else rest

-- An operation on the job of an id, and on its tracked file, and the flush.
unfoldable pub save : (Job → Job) → (TrackedFile → TrackedFile) → Job → Database → Option Database
save change change_its_file job db = flush (record {
  jobs = update_where (has_id job.id) change db.jobs;
  tracked_files = update_file job.tracked_file_id change_its_file db.tracked_files;
})

-- The arguments of `create_job_from_plan`, with the id and the time that the new row gets.
pub record JobRequest : Type 0 where
  pub id : ℕ
  pub now : ℕ
  pub tracked_file : TrackedFile
  pub plan_snapshot : PlanSnapshot
  pub worker_name : Option String
  pub attempt_count : ℕ
  pub preferred_worker_id : Option ℕ
  pub pinned_worker_id : Option ℕ
  pub preferred_backend_override : Option String
  pub schedule_windows : List ScheduleWindow
  pub watched_job_id : Option ℕ
  pub job_kind : JobKind
  pub analysis_payload : Option String
  pub ignore_worker_schedule : Bool
  pub scheduled_for_at : Option ℕ
  pub backup_policy : List ℕ

abbrev pub starts_scheduled : JobRequest → Bool
starts_scheduled r =
    not (is_none r.scheduled_for_at)
    || not (is_empty r.schedule_windows)
      && not (schedule_windows_allow_now r.schedule_windows r.now)

-- `a or b`
abbrev pub first_of : Option ℕ → Option ℕ → Option ℕ
first_of none b = b
first_of (some a) b = some a

abbrev backend_of : Option String → Option String
backend_of none = none
backend_of (some backend) = some (normalise_backend_preference backend)

unfoldable pub job_of_request : JobRequest → Job
job_of_request r =
    let scheduled = starts_scheduled r in
    let effective_backup_policy = normalise_backup_policy r.backup_policy in
    record {
      id = r.id;
      tracked_file_id = r.tracked_file.id;
      plan_snapshot = r.plan_snapshot;
      created_at = r.now;
      assigned_worker_id = none;
      preferred_worker_id = r.preferred_worker_id;
      pinned_worker_id = r.pinned_worker_id;
      last_worker_id = none;
      watched_job_id = r.watched_job_id;
      requested_worker_type = none;
      job_kind = r.job_kind;
      preferred_backend_override = backend_of r.preferred_backend_override;
      schedule_windows = r.schedule_windows;
      ignore_worker_schedule = r.ignore_worker_schedule;
      worker_name = r.worker_name;
      status = if scheduled then JobStatus.scheduled else JobStatus.pending;
      attempt_count = r.attempt_count;
      started_at = none;
      completed_at = none;
      progress_stage = none;
      progress_percent = none;
      progress_out_time_seconds = none;
      progress_fps = none;
      progress_speed = none;
      progress_updated_at = none;
      scheduled_for_at =
          if scheduled
          then first_of r.scheduled_for_at (next_schedule_opening r.schedule_windows r.now)
          else none;
      interrupted_at = none;
      interruption_reason = none;
      interruption_retryable = true;
      cleared_at = none;
      cleared_reason = none;
      cancellation_requested_at = none;
      cancellation_reason = none;
      requested_execution_backend = none;
      actual_execution_backend = none;
      actual_execution_accelerator = none;
      backend_fallback_used = false;
      backend_selection_reason = none;
      failure_message = none;
      failure_category = none;
      input_size_bytes = r.tracked_file.last_observed_size;
      output_size_bytes = none;
      space_saved_bytes = none;
      analysis_payload = r.analysis_payload;
      output_path = none;
      final_output_path = none;
      original_backup_path = none;
      execution_command = [];
      execution_stdout = none;
      execution_stderr = none;
      verification_status = JobVerificationStatus.pending;
      replacement_status = JobReplacementStatus.pending;
      replacement_failure_message = none;
      replace_in_place = r.plan_snapshot.replace.in_place;
      require_verification = r.plan_snapshot.replace.require_verification;
      keep_original_until_verified = r.plan_snapshot.replace.keep_original_until_verified;
      delete_replaced_source =
          delete_replaced_source_for_backup_policy (policy_text effective_backup_policy)
            r.plan_snapshot.replace.delete_replaced_source;
      backup_policy = effective_backup_policy;
      backup_retention_until = none;
      backup_deleted_at = none;
      backup_restored_at = none;
    }

-- The rows after `session.add`, and the tracked file.
abbrev pub with_job : JobRequest → Database → Database
with_job r db = record {
  jobs = job_of_request r ∷ db.jobs;
  tracked_files = update_file r.tracked_file.id set_queued db.tracked_files;
}

-- None is the `IntegrityError` of the flush.
unfoldable pub create_job_from_plan : JobRequest → Database → Option Database
create_job_from_plan r db = flush (with_job r db)
