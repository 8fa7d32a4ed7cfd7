-- ===== src/Jobs/Queue.antt =====
-- The queue of packages/db/encodr_db/repositories/jobs.py: the next jobs in their order, the claim of a job by a
-- worker, and the clearing of the queue and of the history.
pub mod Rows
pub mod Claims
use encodr.Prelude.{
  ℕ, zero, suc, ◌+◌, Bool, true, false, not, ◌&&◌, ◌||◌, Option, none, some, List, [], ◌∷◌, map,
  String, if◌then◌else◌, ◌==◌, leb, ltb, is_none, is_empty, any, filter, length, take, head?,
  contains,
}
use encodr.Jobs.Models.{JobStatus, WorkerType, Job, Worker, has_status}
use encodr.Jobs.Marks.{mark_running_for_worker, mark_cancelled, mark_cleared, set_processing}
use encodr.Jobs.Policies.{greater}
use encodr.Jobs.Database.{Database, flush, update_where, update_file, has_id, find_job}

abbrev pub is_local_or_any : Option WorkerType → Bool
is_local_or_any none = true
is_local_or_any (some WorkerType.local) = true
is_local_or_any (some WorkerType.remote) = false

abbrev pub is_remote_or_any : Option WorkerType → Bool
is_remote_or_any none = true
is_remote_or_any (some WorkerType.local) = false
is_remote_or_any (some WorkerType.remote) = true

abbrev pub is_id : ℕ → Option ℕ → Bool
is_id n none = false
is_id n (some m) = m == n

-- `asc(created_at), asc(id)`
abbrev pub is_before : Job → Job → Bool
is_before a b = ltb a.created_at b.created_at || a.created_at == b.created_at && ltb a.id b.id

-- A sort by insertion.
unfoldable pub insert_by : (Job → Job → Bool) → Job → List Job → List Job
insert_by before job [] = job ∷ []
insert_by before job (x ∷ xs) =
    let rest = insert_by before job xs in if before x job then x ∷ rest else job ∷ x ∷ xs

unfoldable pub order_by : (Job → Job → Bool) → List Job → List Job
order_by before [] = []
order_by before (x ∷ xs) = insert_by before x (order_by before xs)

unfoldable pub is_next_local : Job → Bool
is_next_local job =
    (has_status JobStatus.pending job && is_none job.cleared_at)
    && (is_none job.assigned_worker_id && is_local_or_any job.requested_worker_type)

unfoldable pub fetch_next_pending_local_jobs : ℕ → Database → List Job
fetch_next_pending_local_jobs limit db =
    take limit (order_by is_before (filter is_next_local db.jobs))

unfoldable pub fetch_next_pending_local_job : Database → Option Job
fetch_next_pending_local_job db = head? (fetch_next_pending_local_jobs 1 db)

unfoldable pub is_next_remote : ℕ → Job → Bool
is_next_remote worker_id job =
    (has_status JobStatus.pending job && is_none job.cleared_at)
    && (is_remote_or_any job.requested_worker_type
        && (is_none job.assigned_worker_id || is_id worker_id job.assigned_worker_id))

-- `desc(assigned_worker_id == worker.id)` first.
abbrev pub is_before_for : ℕ → Job → Job → Bool
is_before_for worker_id a b =
    let mine = is_id worker_id a.assigned_worker_id in
    let yours = is_id worker_id b.assigned_worker_id in
    mine && not yours || (mine && yours || not mine && not yours) && is_before a b

unfoldable pub fetch_next_pending_remote_jobs : ℕ → ℕ → Database → List Job
fetch_next_pending_remote_jobs worker_id limit db =
    take limit (order_by (is_before_for worker_id) (filter (is_next_remote worker_id) db.jobs))

unfoldable pub fetch_next_pending_remote_job : ℕ → Database → Option Job
fetch_next_pending_remote_job worker_id db = head? (fetch_next_pending_remote_jobs worker_id 1 db)

unfoldable pub list_jobs_for_scheduling : ℕ → Database → List Job
list_jobs_for_scheduling limit db = take limit (
    order_by is_before (
      filter
        (λ job.
          (has_status JobStatus.pending job || has_status JobStatus.scheduled job)
          && is_none job.cleared_at)
        db.jobs))

unfoldable pub is_running_on : ℕ → Job → Bool
is_running_on worker_id job =
    is_id worker_id job.assigned_worker_id
    && (has_status JobStatus.running job && is_none job.cleared_at)

unfoldable pub count_active_assignments_for_worker : ℕ → List Job → ℕ
count_active_assignments_for_worker worker_id jobs = length (filter (is_running_on worker_id) jobs)

-- The rows that the update of a claim is for.
unfoldable pub can_claim : ℕ → ℕ → Job → Bool
can_claim job_id worker_id job =
    (has_id job_id job && has_status JobStatus.pending job)
    && (is_none job.cleared_at
        && (is_none job.assigned_worker_id || is_id worker_id job.assigned_worker_id))

-- What a claim returns, and the rows after it.
pub record Claimed : Type 0 where
  pub job : Option Job
  pub after : Database

abbrev pub nothing_claimed : Database → Option Database → Option Claimed
nothing_claimed db none = none
nothing_claimed db (some db') = some (record { job = none; after = db' })

abbrev claimed : Option Job → Option Database → Option Claimed
claimed job none = none
claimed job (some db) = some (record { job = job; after = db })

abbrev pub files_of_claim : Option Job → Database → Database
files_of_claim none db = db
files_of_claim (some job) db = record db {
  tracked_files = update_file job.tracked_file_id set_processing db.tracked_files;
}

-- The columns that the update sets are those of `mark_running_for_worker`; none is an `IntegrityError`.
unfoldable pub claim_pending_for_worker :
    ℕ → ℕ → Worker → Option String → ℕ → Database → Option Claimed
claim_pending_for_worker now job_id worker requested_backend max_running_assignments db =
    if leb (greater 1 max_running_assignments)
      (count_active_assignments_for_worker worker.id db.jobs)
    then claimed none (flush db)
    else let test = can_claim job_id worker.id in
      let updated = record db {
        jobs = update_where test (mark_running_for_worker now worker requested_backend) db.jobs;
      } in
      if not (length (filter test db.jobs) == 1)
      then claimed none (flush updated)
      else let job = find_job job_id updated.jobs in
        claimed job (flush (files_of_claim job updated))

unfoldable pub is_queued : Job → Bool
is_queued job =
    is_none job.cleared_at
    && (has_status JobStatus.pending job
        || has_status JobStatus.scheduled job
        || (has_status JobStatus.interrupted job
            && job.interruption_retryable
            && is_none job.assigned_worker_id))

-- Every job that the query finds is cancelled; the jobs come back in its order.
unfoldable pub clear_queue : ℕ → String → Database → Database
clear_queue cleared_at reason db = record db {
  jobs = update_where is_queued (mark_cancelled cleared_at reason) db.jobs;
}

unfoldable pub is_problem : Option (List ℕ) → Job → Bool
is_problem job_ids job =
    (is_none job.cleared_at
      && (has_status JobStatus.failed job
          || has_status JobStatus.interrupted job
          || has_status JobStatus.cancelled job
          || has_status JobStatus.skipped job))
    && elim job_ids [ none ↦ true | some ids ↦ contains ids job.id ]

unfoldable pub clear_failed_history : ℕ → Option (List ℕ) → String → Database → Database
clear_failed_history cleared_at job_ids reason db = record db {
  jobs = update_where (is_problem job_ids) (mark_cleared cleared_at reason) db.jobs;
}
