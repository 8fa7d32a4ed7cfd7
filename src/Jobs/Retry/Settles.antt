-- ===== src/Jobs/Retry/Settles.antt =====
-- What `apply_automatic_retry_policy` of packages/db/encodr_db/repositories/jobs.py leaves behind.
use encodr.Prelude.{
  ℕ, ◌+◌, ◌≤◌, ◌<◌, ◌≡◌, refl, ap, ◌∙◌, Bool, true, none, some, ◌∷◌, String, arith, leb, leb→le,
  Bool-cases, inl, inr, ◌⊎◌,
}
use encodr.Jobs.Models.{Job, JobStatus, ExecutionResult, TrackedFile}
use encodr.Jobs.Marks.{route_to_manual_review, set_manual_review}
use encodr.Jobs.Policies.{automatic_retry_delay, max_automated_retries, job_requires_manual_review}
use encodr.Jobs.Database.{
  Database, job_of_request, with_job, has_active_job_for_tracked_file, unique_active, update_where,
  update_file, save, is_live, has_id,
}
use encodr.Jobs.Index.{KeepsLive, unique_active-update, create_job_from_plan-some, flush-some}
use encodr.Jobs.Retry.{
  Retried, nothing_retried, text_or, is_failed, is_execution, retry_request, retry_again, review,
  apply_automatic_retry_policy,
}

-- A retry: one attempt more, scheduled for after the delay, with the settings of the failed job.
pub record IsRetryOf (job : Job) (result : ExecutionResult) (new : Job) : Type 0 where
  pub next_attempt : new.attempt_count ≡ job.attempt_count + 1
  pub in_budget : job.attempt_count ≤ max_automated_retries
  pub waits : new.status ≡ JobStatus.scheduled
  pub due :
      new.scheduled_for_at
      ≡ some (result.completed_at + automatic_retry_delay (job.attempt_count + 1))
  pub same_plan : new.plan_snapshot ≡ job.plan_snapshot
  pub same_kind : new.job_kind ≡ job.job_kind

retry-IsRetryOf :
    (new_id now : ℕ) (job : Job) (file : TrackedFile) (result : ExecutionResult)
    → job.attempt_count ≤ max_automated_retries
    → IsRetryOf job result (job_of_request (retry_request new_id now job file result))
unfolding job_of_request retry_request
retry-IsRetryOf new_id now job file result h = record {
  next_attempt = refl;
  in_budget = h;
  waits = refl;
  due = refl;
  same_plan = refl;
  same_kind = refl;
}

request_file :
    (new_id now : ℕ) (job : Job) (file : TrackedFile) (result : ExecutionResult)
    → (retry_request new_id now job file result).tracked_file.id ≡ file.id
unfolding retry_request
request_file new_id now job file result = refl

job_file :
    (new_id now : ℕ) (job : Job) (file : TrackedFile) (result : ExecutionResult)
    → (job_of_request (retry_request new_id now job file result)).tracked_file_id ≡ file.id
unfolding job_of_request retry_request
job_file new_id now job file result = refl

-- The ways in which the policy ends.
pub data RetryOutcome (job : Job) (result : ExecutionResult) (file : TrackedFile) (db : Database)
    (r : Retried) : Type 0 where
  busy :
      r.job ≡ none
      → r.after ≡ db
      → has_active_job_for_tracked_file job.tracked_file_id db.jobs ≡ true
      → RetryOutcome job result file db r
  again :
      (new : Job)
      → r.job ≡ some new
      → r.after.jobs ≡ new ∷ db.jobs
      → IsRetryOf job result new
      → new.tracked_file_id ≡ job.tracked_file_id
      → unique_active r.after.jobs ≡ true
      → RetryOutcome job result file db r
  reviewed :
      (message category : String)
      → r.job ≡ none
      → r.after.jobs
        ≡ update_where
            (has_id job.id)
            (route_to_manual_review result.completed_at message category)
            db.jobs
      → (job_requires_manual_review (some file) job.plan_snapshot ≡ true)
        ⊎ (max_automated_retries < job.attempt_count)
      → RetryOutcome job result file db r

route-KeepsLive :
    (test : Job → Bool) (at : ℕ) (message category : String)
    → KeepsLive test (route_to_manual_review at message category)
unfolding route_to_manual_review is_live
route-KeepsLive test at message category = record {
  same_file = λ job t. refl;
  was_live = λ job t l. cc;
}

review_outcome :
    (job : Job) (result : ExecutionResult) (file : TrackedFile) (message category : String)
    (db : Database)
    → unique_active db.jobs ≡ true
    → (job_requires_manual_review (some file) job.plan_snapshot ≡ true)
      ⊎ (max_automated_retries < job.attempt_count)
    → (r : Retried) × (review job result message category db ≡ some r)
      × RetryOutcome job result file db r
unfolding save
review_outcome job result file message category db unique why =
    let m = text_or result.failure_message message in
    let k = text_or result.failure_category category in
    let change = route_to_manual_review result.completed_at m k in
    let after : Database = record {
      jobs = update_where (has_id job.id) change db.jobs;
      tracked_files = update_file job.tracked_file_id set_manual_review db.tracked_files;
    } in
    let r : Retried = record { job = none; after = after } in
    (
      r,
      rw
          (flush-some after (
            unique_active-update (has_id job.id) change
              (route-KeepsLive (has_id job.id) result.completed_at m k) db.jobs unique))
          refl,
      reviewed m k refl refl why,
    )

retry_again_outcome :
    (new_id now : ℕ) (job : Job) (file : TrackedFile) (result : ExecutionResult) (db : Database)
    → file.id ≡ job.tracked_file_id
    → unique_active db.jobs ≡ true
    → job.attempt_count ≤ max_automated_retries
    → (r : Retried) × (retry_again new_id now job file result db ≡ some r)
      × RetryOutcome job result file db r
unfolding retry_again
retry_again_outcome new_id now job file result db named unique room =
    elim (Bool-cases (has_active_job_for_tracked_file job.tracked_file_id db.jobs)) [
      | inl e ↦ (record { job = none; after = db }, rw e refl, busy refl refl e)
      | inr e ↦
          let request = retry_request new_id now job file result in
          let created =
            create_job_from_plan-some request db
              (ap (λ k. has_active_job_for_tracked_file k db.jobs)
                  (request_file new_id now job file result ∙ named)
                ∙ e)
              unique in
          let r : Retried = record {
            job = some (job_of_request request);
            after = with_job request db;
          } in
          (
            r,
            rw (e, created.0) refl,
            again (job_of_request request) refl refl
                (retry-IsRetryOf new_id now job file result room)
                (job_file new_id now job file result ∙ named) created.1,
          )
    ]

-- For a failed execution, with its own tracked file and the index of active jobs kept, the policy
-- meets no `IntegrityError` in the end: the file has an active job already and nothing changes, or
-- there is one new job, the retry, or the failed job goes to manual review because a rule asks for
-- it or its retries are used up.
pub apply_automatic_retry_policy_outcome :
    (new_id now : ℕ) (job : Job) (file : TrackedFile) (result : ExecutionResult) (db : Database)
    → file.id ≡ job.tracked_file_id
    → unique_active db.jobs ≡ true
    → is_failed result.status ≡ true
    → is_execution job.job_kind ≡ true
    → (r : Retried) × (apply_automatic_retry_policy new_id now job file result db ≡ some r)
      × RetryOutcome job result file db r
unfolding apply_automatic_retry_policy
apply_automatic_retry_policy_outcome new_id now job file result db named unique failed kind =
    rw (failed, kind)
      (elim (Bool-cases (job_requires_manual_review (some file) job.plan_snapshot)) [
        | inl e ↦ rw e (review_outcome job result file _ _ db unique (inl e))
        | inr e ↦ elim (Bool-cases (leb job.attempt_count max_automated_retries)) [
          | inl room ↦
              rw (e, room)
                (retry_again_outcome new_id now job file result db named unique (leb→le _ _ room))
          | inr full ↦
              rw (e, full) (review_outcome job result file _ _ db unique (inr (ground arith)))
        ]
      ])

-- A job that the policy returns is a retry of the failed job.
pub retry_returned :
    (new_id now : ℕ) (job : Job) (file : TrackedFile) (result : ExecutionResult) (db : Database)
    {r : Retried} {new : Job}
    → file.id ≡ job.tracked_file_id
    → unique_active db.jobs ≡ true
    → apply_automatic_retry_policy new_id now job file result db ≡ some r
    → r.job ≡ some new
    → IsRetryOf job result new × (new.tracked_file_id ≡ job.tracked_file_id)
unfolding apply_automatic_retry_policy
retry_returned new_id now job file result db {r} {new} named unique e k =
    elim (Bool-cases (is_failed result.status)) [
      | inr other ↦
          let same : nothing_retried db ≡ r = cc (rw other at e) in
          let bad : none ≡ some new = ap (λ t. t.job) same ∙ k in absurd cc
      | inl failed ↦ elim (Bool-cases (is_execution job.job_kind)) [
        | inr other ↦
            let same : nothing_retried db ≡ r = cc (rw (failed, other) at e) in
            let bad : none ≡ some new = ap (λ t. t.job) same ∙ k in absurd cc
        | inl kind ↦
            let (s, f, outcome) =
              apply_automatic_retry_policy_outcome new_id now job file result db named unique failed
                kind in
            let same : s ≡ r = cc in
            elim (rw same at outcome) [
              | busy unmade _ _ ↦ absurd (cc)
              | again made there _ retry file' _ ↦
                  let it : made ≡ new = cc in rw (← it) (retry, file')
              | reviewed _ _ unmade _ _ ↦ absurd (cc)
            ]
      ]
    ]
