-- ===== src/Jobs/Index.antt =====
-- The index of models/job.py that keeps one active job for a tracked file, in the table of Database.
use encodr.Prelude.{
  ℕ, ◌≡◌, refl, sym, ap, ◌∙◌, Bool, true, false, not, ◌&&◌, ◌||◌, none, some, List, [], ◌∷◌, arith,
  ◌==◌, is_none, Bool-cases, inl, inr, &&_true,
}
use encodr.Jobs.Models.{Job}
use encodr.Jobs.Database.{
  Database, is_live, is_live_for, has_active_job_for_tracked_file, unique_active, update_where,
  flush, JobRequest, job_of_request, starts_scheduled, with_job, create_job_from_plan,
}

-- On the jobs that pass a test, a change leaves the tracked file and makes none active that was not.
pub record KeepsLive (test : Job → Bool) (change : Job → Job) : Type 0 where
  pub same_file : (job : Job) → test job ≡ true → (change job).tracked_file_id ≡ job.tracked_file_id
  pub was_live : (job : Job) → test job ≡ true → is_live (change job) ≡ true → is_live job ≡ true

false_of : (a b : Bool) → (b ≡ true → a ≡ true) → a ≡ false → b ≡ false
false_of a true f h = sym (f refl) ∙ h
false_of a false f h = refl

pub or_false : (a b : Bool) → (a || b) ≡ false → (a ≡ false) × (b ≡ false)
or_false a b h = ground arith

or_of_false : (a b : Bool) → a ≡ false → b ≡ false → (a || b) ≡ false
or_of_false a b h k = ground arith

live_for-change :
    (test : Job → Bool) (change : Job → Job)
    → KeepsLive test change
    → (k : ℕ) (job : Job) → test job ≡ true
    → is_live_for k (change job) ≡ true
    → is_live_for k job ≡ true
unfolding is_live_for
live_for-change test change keeps k job t h =
    let parts = &&_true (is_live (change job)) ((change job).tracked_file_id == k) h in
    rw (keeps.was_live job t parts.0, ap (λ n. n == k) (sym (keeps.same_file job t)) ∙ parts.1) refl

-- No change of this kind makes a tracked file have an active job.
pub has_active-update :
    (test : Job → Bool) (change : Job → Job)
    → KeepsLive test change
    → (k : ℕ) (jobs : List Job) → has_active_job_for_tracked_file k jobs ≡ false
    → has_active_job_for_tracked_file k (update_where test change jobs) ≡ false
unfolding has_active_job_for_tracked_file update_where
has_active-update test change keeps k [] h = refl
has_active-update test change keeps k (job ∷ jobs) h = elim (Bool-cases (test job)) [
  | inl t ↦ rw t (
      or_of_false (is_live_for k (change job))
        (has_active_job_for_tracked_file k (update_where test change jobs))
        (false_of (is_live_for k job) (is_live_for k (change job))
          (live_for-change test change keeps k job t) (parts h).0)
        (has_active-update test change keeps k jobs (parts h).1))
  | inr t ↦ rw t (
      or_of_false (is_live_for k job)
        (has_active_job_for_tracked_file k (update_where test change jobs)) (parts h).0
        (has_active-update test change keeps k jobs (parts h).1))
]
  where
    parts :
        has_active_job_for_tracked_file k (job ∷ jobs) ≡ false
        → (is_live_for k job ≡ false) × (has_active_job_for_tracked_file k jobs ≡ false)
    parts h = or_false (is_live_for k job) (has_active_job_for_tracked_file k jobs) h

head_free :
    (live active rest : Bool)
    → (not (live && active) && rest) ≡ true
    → (live ≡ true → active ≡ false) × (rest ≡ true)
head_free true active rest h = ground arith
head_free false active rest h = ((λ e. cc), h)

head_free_of :
    (live active rest : Bool)
    → (live ≡ true → active ≡ false)
    → rest ≡ true
    → (not (live && active) && rest) ≡ true
head_free_of true active rest f h = let e = f refl in ground arith
head_free_of false active rest f h = h

-- The index holds on after such a change.
pub unique_active-update :
    (test : Job → Bool) (change : Job → Job)
    → KeepsLive test change
    → (jobs : List Job) → unique_active jobs ≡ true
    → unique_active (update_where test change jobs) ≡ true
unfolding unique_active update_where
unique_active-update test change keeps [] h = refl
unique_active-update test change keeps (job ∷ jobs) h =
    let rest = update_where test change jobs in
    let parts =
      head_free (is_live job) (has_active_job_for_tracked_file job.tracked_file_id jobs)
        (unique_active jobs) h in
    let after = unique_active-update test change keeps jobs parts.1 in
    elim (Bool-cases (test job)) [
      | inl t ↦ rw t (
          head_free_of (is_live (change job))
            (has_active_job_for_tracked_file (change job).tracked_file_id rest) (unique_active rest)
            (λ l.
              ap (λ n. has_active_job_for_tracked_file n rest) (keeps.same_file job t)
              ∙ has_active-update test change keeps job.tracked_file_id jobs
                  (parts.0 (keeps.was_live job t l)))
            after)
      | inr t ↦ rw t (
          head_free_of (is_live job) (has_active_job_for_tracked_file job.tracked_file_id rest)
            (unique_active rest)
            (λ l. has_active-update test change keeps job.tracked_file_id jobs (parts.0 l)) after)
    ]

-- A job of a tracked file that has no active job can be added.
pub unique_active-add :
    (job : Job) (jobs : List Job)
    → has_active_job_for_tracked_file job.tracked_file_id jobs ≡ false
    → unique_active jobs ≡ true
    → unique_active (job ∷ jobs) ≡ true
unfolding unique_active
unique_active-add job jobs free h =
    head_free_of (is_live job) (has_active_job_for_tracked_file job.tracked_file_id jobs)
      (unique_active jobs) (λ l. free) h

-- An active job of a tracked file that has one cannot.
pub unique_active-refuse :
    (job : Job) (jobs : List Job)
    → is_live job ≡ true
    → has_active_job_for_tracked_file job.tracked_file_id jobs ≡ true
    → unique_active (job ∷ jobs) ≡ false
unfolding unique_active
unique_active-refuse job jobs live taken = rw (live, taken) refl

pub flush-some : (db : Database) → unique_active db.jobs ≡ true → flush db ≡ some db
unfolding flush
flush-some db h = rw h refl

pub flush-none : (db : Database) → unique_active db.jobs ≡ false → flush db ≡ none
unfolding flush
flush-none db h = rw h refl

-- What is flushed keeps to the index.
pub flush_unique :
    (db : Database) {after : Database}
    → flush db ≡ some after
    → (db ≡ after) × (unique_active after.jobs ≡ true)
unfolding flush
flush_unique db {after} h = elim (Bool-cases (unique_active db.jobs)) [
  | inl e ↦ let same : db ≡ after = cc (rw e at h) in (same, rw (← same) e)
  | inr e ↦ absurd (cc (rw e at h))
]

job_of_request-file : (r : JobRequest) → (job_of_request r).tracked_file_id ≡ r.tracked_file.id
unfolding job_of_request
job_of_request-file r = refl

job_of_request-live : (r : JobRequest) → is_live (job_of_request r) ≡ true
unfolding job_of_request is_live
job_of_request-live r = elim (Bool-cases (starts_scheduled r)) [
  | inl e ↦ rw e refl
  | inr e ↦ rw e refl
]

-- A job is created when its tracked file has no active job.
pub create_job_from_plan-some :
    (r : JobRequest) (db : Database)
    → has_active_job_for_tracked_file r.tracked_file.id db.jobs ≡ false
    → unique_active db.jobs ≡ true
    → (create_job_from_plan r db ≡ some (with_job r db))
      × (unique_active (with_job r db).jobs ≡ true)
unfolding create_job_from_plan
create_job_from_plan-some r db free unique =
    let holds =
      unique_active-add (job_of_request r) db.jobs
        (ap (λ k. has_active_job_for_tracked_file k db.jobs) (job_of_request-file r) ∙ free)
        unique in
    (flush-some (with_job r db) holds, holds)

-- When it has one, there is an `IntegrityError`.
pub create_job_from_plan-none :
    (r : JobRequest) (db : Database)
    → has_active_job_for_tracked_file r.tracked_file.id db.jobs ≡ true
    → create_job_from_plan r db ≡ none
unfolding create_job_from_plan
create_job_from_plan-none r db taken = flush-none (with_job r db) (
    unique_active-refuse (job_of_request r) db.jobs (job_of_request-live r)
      (ap (λ k. has_active_job_for_tracked_file k db.jobs) (job_of_request-file r) ∙ taken))

-- Where the index of active jobs is kept: the creation of a job fails exactly when its tracked
-- file has an active job.
pub create_job_from_plan_iff :
    (r : JobRequest) (db : Database)
    → unique_active db.jobs ≡ true
    → is_none (create_job_from_plan r db)
      ≡ has_active_job_for_tracked_file r.tracked_file.id db.jobs
create_job_from_plan_iff r db unique =
    elim (Bool-cases (has_active_job_for_tracked_file r.tracked_file.id db.jobs)) [
      | inl e ↦ ap is_none (create_job_from_plan-none r db e) ∙ sym e
      | inr e ↦ ap is_none (create_job_from_plan-some r db e unique).0 ∙ sym e
    ]
