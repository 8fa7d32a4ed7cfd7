-- ===== src/Jobs/Tests.antt =====
-- A film's jobs, in the tests of packages/db/encodr_db/repositories/jobs.py.
use encodr.Prelude.{
  ℕ, ◌+◌, ◌*◌, ◌≤◌, ◌<◌, ◌≡◌, refl, Bool, true, false, some, none, List, [], ◌∷◌, map, String, Memᴰ,
  arith, is_none, filter, ◌⊎◌, str_eq, contains_text, codes, Distinct,
}
use encodr.Jobs.Models.{JobKind, JobStatus, Job, ExecutionResult}
use encodr.Jobs.Policies.{
  job_requires_manual_review, max_automated_retries, automatic_retry_delay, microseconds_per_second,
  greater,
}
use encodr.Jobs.Marks.{mark_running, mark_running_for_worker, mark_result, promote_scheduled}
use encodr.Jobs.Database.{
  Database, JobRequest, create_job_from_plan, has_active_job_for_tracked_file, is_live, is_live_for,
  unique_active, flush, update_where, update_file, find_job,
}
use encodr.Jobs.Index.{create_job_from_plan_iff}
use encodr.Jobs.Queue.{
  Claimed, can_claim, count_active_assignments_for_worker, is_running_on, claim_pending_for_worker,
}
use encodr.Jobs.Queue.Rows.{id_of}
use encodr.Jobs.Queue.Claims.{claim_pending_for_worker_limit, claim_pending_for_worker_taken}
use encodr.Jobs.Retry.{retry_again, Retried, apply_automatic_retry_policy, retry_request}
use encodr.Jobs.Database.{job_of_request, with_job}
use encodr.Jobs.Retry.Settles.{RetryOutcome, apply_automatic_retry_policy_outcome}
use encodr.Jobs.Retry.Chains.{RetryChain, start, retry, made, promoted, claimed, retries_bounded}
use encodr.Jobs.Retry.Delays.{automatic_retry_delay-bounds}
use encodr.Jobs.Backups.{
  Cleanup, backup_exists, list_backup_jobs, limited, offset_by, is_expired, validated_path,
  cleanup_rows, cleanup_expired_backups, mark_deleted,
}
use encodr.Jobs.Backups.Batches.{list_backup_jobs_lem}
use encodr.Jobs.Backups.Expiry.{
  Expired, Removed, cleanup_expired_backups-gone, cleanup_expired_backups-Removed,
}
use encodr.Jobs.Examples.{
  plan, film, waiting, failed_job, waiting_rows, failed_rows, worker, failure, replaced,
}

abbrev request : JobRequest
request = record {
  id = 11;
  now = 8_000;
  tracked_file = film;
  plan_snapshot = plan;
  worker_name = none;
  attempt_count = 1;
  preferred_worker_id = none;
  pinned_worker_id = none;
  preferred_backend_override = none;
  schedule_windows = [];
  watched_job_id = none;
  job_kind = JobKind.execution;
  analysis_payload = none;
  ignore_worker_schedule = false;
  scheduled_for_at = none;
  backup_policy = codes "keep";
}

waiting_rows_unique : unique_active waiting_rows.jobs ≡ true
unfolding unique_active is_live has_active_job_for_tracked_file
waiting_rows_unique = refl

failed_rows_unique : unique_active failed_rows.jobs ≡ true
unfolding unique_active is_live has_active_job_for_tracked_file
failed_rows_unique = refl

create_job_from_plan_iff_example :
    is_none (create_job_from_plan request waiting_rows)
    ≡ has_active_job_for_tracked_file 1 waiting_rows.jobs
create_job_from_plan_iff_example = create_job_from_plan_iff request waiting_rows waiting_rows_unique

-- The rows after the job is claimed.
abbrev running : Job
running = record waiting {
  status = JobStatus.running;
  worker_name = some "Attic";
  started_at = some 9_000;
  progress_stage = some "starting";
  progress_percent = some 0;
  progress_out_time_seconds = some 0;
  progress_updated_at = some 9_000;
  assigned_worker_id = some 3;
  last_worker_id = some 3;
}

claims :
    (c : Claimed) × (claim_pending_for_worker 9_000 10 worker none 1 waiting_rows ≡ some c)
    × (c.job ≡ some running)
unfolding claim_pending_for_worker count_active_assignments_for_worker is_running_on can_claim flush
    unique_active is_live is_live_for has_active_job_for_tracked_file update_where update_file
    find_job mark_running mark_running_for_worker
claims = (_, refl, refl)

one_job : Distinct (map id_of waiting_rows.jobs)
one_job = (refl, tt)

idle : count_active_assignments_for_worker worker.id waiting_rows.jobs ≡ 0
unfolding count_active_assignments_for_worker is_running_on
idle = refl

claim_pending_for_worker_limit_example :
    count_active_assignments_for_worker 3 claims.0.after.jobs ≤ greater 1 1
claim_pending_for_worker_limit_example =
    claim_pending_for_worker_limit 9_000 10 worker none 1 waiting_rows one_job waiting_rows_unique
      claims.1 (omega (arith, idle))

claim_pending_for_worker_taken_example :
    (row : Job) × Memᴰ row waiting_rows.jobs
    × (row.id ≡ 10)
    × (row.status ≡ JobStatus.pending)
    × (row.cleared_at ≡ none)
    × ((row.assigned_worker_id ≡ none) ⊎ (row.assigned_worker_id ≡ some 3))
    × (running ≡ mark_running_for_worker 9_000 worker none row)
    × (running.status ≡ JobStatus.running)
    × (running.assigned_worker_id ≡ some 3)
    × (count_active_assignments_for_worker worker.id waiting_rows.jobs < greater 1 1)
claim_pending_for_worker_taken_example =
    claim_pending_for_worker_taken 9_000 10 worker none 1 waiting_rows one_job waiting_rows_unique
      claims.1 claims.2

apply_automatic_retry_policy_outcome_example :
    (r : Retried) × (apply_automatic_retry_policy 11 7_500 failed_job film failure failed_rows
      ≡ some r)
    × RetryOutcome failed_job failure film failed_rows r
apply_automatic_retry_policy_outcome_example =
    apply_automatic_retry_policy_outcome 11 7_500 failed_job film failure failed_rows refl
      failed_rows_unique refl refl

-- The job after its first run, the job that is made again, that one after its run, and the one made after that.
abbrev ran : Job
ran = mark_result failure (mark_running_for_worker 2_000 worker none waiting)

abbrev ran_rows : Database
ran_rows = record { jobs = ran ∷ []; tracked_files = film ∷ [] }

abbrev again : Job
again = job_of_request (retry_request 11 7_500 ran film failure)

abbrev second_failure : ExecutionResult
second_failure = record failure { started_at = 80_000_000; completed_at = 90_000_000 }

abbrev ran_again : Job
ran_again =
    mark_result second_failure
      (mark_running_for_worker 80_000_000 worker none (promote_scheduled again))

abbrev ran_again_rows : Database
ran_again_rows = record { jobs = ran ∷ ran_again ∷ []; tracked_files = film ∷ [] }

abbrev third : Job
third = job_of_request (retry_request 12 90_000_500 ran_again film second_failure)

ran_rows_unique : (unique_active ran_rows.jobs ≡ true) × (unique_active ran_again_rows.jobs ≡ true)
unfolding unique_active is_live has_active_job_for_tracked_file is_live_for mark_result
    job_of_request retry_request promote_scheduled mark_running_for_worker mark_running
ran_rows_unique = (refl, refl)

same_film_first : film.id ≡ ran.tracked_file_id
unfolding mark_result mark_running_for_worker mark_running
same_film_first = refl

same_film : film.id ≡ ran_again.tracked_file_id
unfolding mark_result job_of_request retry_request promote_scheduled mark_running_for_worker
    mark_running
same_film = refl

retries :
    (apply_automatic_retry_policy 11 7_500 ran film failure ran_rows
      ≡ some (record {
        job = some again;
        after = with_job (retry_request 11 7_500 ran film failure) ran_rows;
      }))
    × (apply_automatic_retry_policy 12 90_000_500 ran_again film second_failure ran_again_rows
        ≡ some (record {
          job = some third;
          after =
              with_job (retry_request 12 90_000_500 ran_again film second_failure) ran_again_rows;
        }))
unfolding apply_automatic_retry_policy job_requires_manual_review retry_again create_job_from_plan
    job_of_request retry_request flush unique_active is_live is_live_for
    has_active_job_for_tracked_file mark_result promote_scheduled mark_running_for_worker
    mark_running
retries = (refl, refl)

twice : RetryChain waiting 2 third
twice =
    retry 12 90_000_500 film second_failure ran_again_rows _ _
      (retry 11 7_500 film failure ran_rows _ _ start (claimed 2_000 worker none made)
        same_film_first ran_rows_unique.0 retries.0 refl)
      (claimed 80_000_000 worker none (promoted made)) same_film ran_rows_unique.1 retries.1 refl

retries_bounded_example :
    (2 ≤ max_automated_retries) × (third.attempt_count ≡ 1 + 2) × (third.tracked_file_id ≡ 1)
retries_bounded_example = retries_bounded waiting 2 _ (omega arith) twice

automatic_retry_delay-bounds_example :
    (60 * microseconds_per_second ≤ automatic_retry_delay 3)
    × (automatic_retry_delay 3 ≤ 900 * microseconds_per_second)
    × (automatic_retry_delay 3 ≤ automatic_retry_delay (3 + 2))
automatic_retry_delay-bounds_example = automatic_retry_delay-bounds 3 2

abbrev on_disk : String → Bool
on_disk path = contains_text ("/media/Film.encodr-backup.avi" ∷ []) path

list_backup_jobs_lem_example :
    list_backup_jobs on_disk (some 1) (some 0) false (waiting ∷ replaced ∷ [])
    ≡ some (
        limited
          (some 1)
          (offset_by (some 0) (filter (backup_exists on_disk) (waiting ∷ replaced ∷ []))))
list_backup_jobs_lem_example =
    list_backup_jobs_lem on_disk (some 1) (some 0) (waiting ∷ replaced ∷ [])

-- Two days later.
abbrev later : ℕ
later = 172_800_000_000

abbrev files : List String
files = "/media/Film.encodr-backup.avi" ∷ "/media/Second.encodr-backup.avi" ∷ "/media/Film.mkv" ∷ []

abbrev second : Job
second = record replaced { id = 12; original_backup_path = some "/media/Second.encodr-backup.avi" }

abbrev backups : List Job
backups = replaced ∷ second ∷ []

-- The removal of the second backup is refused.
abbrev refuses : String → Bool
refuses path = str_eq path "/media/Second.encodr-backup.avi"

abbrev cleaned : Cleanup
cleaned = cleanup_expired_backups later none refuses backups files

backup_gone : contains_text cleaned.files "/media/Film.encodr-backup.avi" ≡ false
unfolding cleanup_expired_backups is_expired cleanup_rows validated_path
backup_gone = refl

backup_marked : Memᴰ (mark_deleted later replaced) cleaned.deleted
unfolding cleanup_expired_backups is_expired cleanup_rows validated_path
backup_marked = Memᴰ.head refl

cleanup_raises : cleaned.raised ≡ true
unfolding cleanup_expired_backups is_expired cleanup_rows validated_path
cleanup_raises = refl

cleanup_expired_backups-gone_example :
    (job : Job) × Memᴰ job backups
    × Expired later job
    × (validated_path none job ≡ some "/media/Film.encodr-backup.avi")
cleanup_expired_backups-gone_example =
    cleanup_expired_backups-gone later none refuses backups files "/media/Film.encodr-backup.avi"
      refl backup_gone

cleanup_expired_backups-Removed_example :
    (r : Removed later none refuses backups files cleaned.files (mark_deleted later replaced))
    × Expired later r.job
cleanup_expired_backups-Removed_example =
    cleanup_expired_backups-Removed later none refuses backups files backup_marked
