-- ===== src/Jobs/Retry/Chains.antt =====
-- Retries of retries in packages/db/encodr_db/repositories/jobs.py: how long they can go on.
use encodr.Prelude.{ℕ, suc, ◌+◌, ◌≤◌, ◌≡◌, refl, ◌∙◌, true, some, arith, Option, String}
use encodr.Jobs.Models.{Job, ExecutionResult, ExecutionProgressUpdate, TrackedFile, Worker}
use encodr.Jobs.Marks.{
  mark_scheduled, promote_scheduled, assign_worker, mark_running, mark_running_for_worker,
  record_progress, mark_cancelling, mark_cancellation_requested, mark_result,
}
use encodr.Jobs.Policies.{max_automated_retries}
use encodr.Jobs.Database.{Database, unique_active}
use encodr.Jobs.Retry.{Retried, apply_automatic_retry_policy}
use encodr.Jobs.Retry.Settles.{retry_returned}

-- What becomes of a job from its creation on, by the operations that leave it in the queue or running: a retry waits
-- as scheduled, is promoted, assigned and claimed, and runs.
pub data Life (job : Job) : Job → Type 0 where
  made : Life job job
  postponed : {later : Job} (at : Option ℕ) → Life job later → Life job (mark_scheduled at later)
  promoted : {later : Job} → Life job later → Life job (promote_scheduled later)
  assigned :
      {later : Job} (worker : Worker) → Life job later → Life job (assign_worker worker later)
  started :
      {later : Job} (now : ℕ) (worker_name : String) (backend : Option String)
      → Life job later
      → Life job (mark_running now worker_name backend later)
  claimed :
      {later : Job} (now : ℕ) (worker : Worker) (backend : Option String)
      → Life job later
      → Life job (mark_running_for_worker now worker backend later)
  progressed :
      {later : Job} (update : ExecutionProgressUpdate)
      → Life job later
      → Life job (record_progress update later)
  cancelling : {later : Job} (at : ℕ) → Life job later → Life job (mark_cancelling at later)
  asked_to_stop :
      {later : Job} (at : ℕ) (reason : String)
      → Life job later
      → Life job (mark_cancellation_requested at reason later)

-- A job after so many automatic retries, each of the one before: that one has run, its result is marked on it, and
-- the policy is applied to it and the result. The times and the states of the table are any.
pub data RetryChain (first : Job) : ℕ → Job → Type 0 where
  start : RetryChain first 0 first
  retry :
      {n : ℕ} {job ran : Job} (new_id now : ℕ) (file : TrackedFile) (result : ExecutionResult)
      (db : Database) (r : Retried) (new : Job)
      → RetryChain first n job
      → Life job ran
      → file.id ≡ (mark_result result ran).tracked_file_id
      → unique_active db.jobs ≡ true
      → apply_automatic_retry_policy new_id now (mark_result result ran) file result db ≡ some r
      → r.job ≡ some new
      → RetryChain first (suc n) new

-- The attempts and the file of a job stay as they are made.
Life-keeps :
    {job later : Job}
    → Life job later
    → (later.attempt_count ≡ job.attempt_count) × (later.tracked_file_id ≡ job.tracked_file_id)
unfolding mark_scheduled promote_scheduled assign_worker mark_running mark_running_for_worker
    record_progress mark_cancelling mark_cancellation_requested
Life-keeps made = (refl, refl)
Life-keeps (postponed at life) = Life-keeps life
Life-keeps (promoted life) = Life-keeps life
Life-keeps (assigned worker life) = Life-keeps life
Life-keeps (started now worker_name backend life) = Life-keeps life
Life-keeps (claimed now worker backend life) = Life-keeps life
Life-keeps (progressed update life) = Life-keeps life
Life-keeps (cancelling at life) = Life-keeps life
Life-keeps (asked_to_stop at reason life) = Life-keeps life

marked_lem :
    (result : ExecutionResult) (job : Job)
    → ((mark_result result job).attempt_count ≡ job.attempt_count)
      × ((mark_result result job).tracked_file_id ≡ job.tracked_file_id)
unfolding mark_result
marked_lem result job = (refl, refl)

-- The attempts are counted, and no retry is made of a job past the budget.
record Counted (first : Job) (n : ℕ) (job : Job) : Type 0 where
  attempts : job.attempt_count ≡ first.attempt_count + n
  bounded : 1 ≤ n → first.attempt_count + n ≤ max_automated_retries + 1
  same_file : job.tracked_file_id ≡ first.tracked_file_id

RetryChain-Counted :
    {first : Job} {n : ℕ} {job : Job} → RetryChain first n job → Counted first n job
RetryChain-Counted start = record {
  attempts = omega arith;
  bounded = λ h. absurd (omega arith);
  same_file = refl;
}
RetryChain-Counted
      (retry {n} {job} {ran} new_id now file result db r new chain life named unique e k) =
    let before = RetryChain-Counted chain in
    let (attempts, file_kept) = Life-keeps life in
    let (marked, file_marked) = marked_lem result ran in
    let (step, same) = retry_returned new_id now _ file result db named unique e k in
    record {
      attempts = omega (arith, before.attempts, attempts, marked, step.next_attempt);
      bounded = λ h. omega (arith, before.attempts, attempts, marked, step.in_budget);
      same_file = same ∙ file_marked ∙ file_kept ∙ before.same_file;
    }

-- Automatic retries of one job, the retries of retries counted, are three at most, all of its tracked file, and count
-- its attempts. Each is made of the one before after that has waited and run in any way and its result is marked, with
-- the index of active jobs kept; and the first job starts at its first attempt or later.
pub retries_bounded :
    (first : Job) (n : ℕ) (job : Job)
    → 1 ≤ first.attempt_count
    → RetryChain first n job
    → (n ≤ max_automated_retries)
      × (job.attempt_count ≡ first.attempt_count + n)
      × (job.tracked_file_id ≡ first.tracked_file_id)
retries_bounded first n job h chain =
    let c = RetryChain-Counted chain in (ground (arith, c.bounded), c.attempts, c.same_file)
