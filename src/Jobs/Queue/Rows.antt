-- ===== src/Jobs/Queue/Rows.antt =====
-- The rows that a claim of `claim_pending_for_worker` is for, of packages/db/encodr_db/repositories/jobs.py.
use encodr.Prelude.{
  ℕ, suc, ◌+◌, ◌≤◌, ◌≡◌, refl, sym, ap, ◌∙◌, Bool, true, false, ◌&&◌, ◌||◌, Option, List, [], ◌∷◌,
  map, String, arith, ◌==◌, is_none, filter, length, contains, Distinct, Bool-cases, inl, inr,
  &&_true, ==_iff, ◌⊎◌, none, some,
}
use encodr.Jobs.Models.{
  Job, JobStatus, Worker, is_active_status, status_index, has_status, status_of_has_status,
}
use encodr.Jobs.Marks.{mark_running_for_worker, mark_running}
use encodr.Jobs.Database.{is_live, update_where, has_id}
use encodr.Jobs.Index.{or_false, KeepsLive}
use encodr.Jobs.Queue.{is_id, is_running_on, count_active_assignments_for_worker, can_claim}

-- What the test of a claim says of a row.
pub record Claimable (job_id worker_id : ℕ) (job : Job) : Type 0 where
  pub named : has_id job_id job ≡ true
  pub waiting : has_status JobStatus.pending job ≡ true
  pub uncleared : is_none job.cleared_at ≡ true
  pub free : (is_none job.assigned_worker_id || is_id worker_id job.assigned_worker_id) ≡ true

pub can_claim-Claimable :
    (job_id worker_id : ℕ) (job : Job)
    → can_claim job_id worker_id job ≡ true
    → Claimable job_id worker_id job
unfolding can_claim
can_claim-Claimable job_id worker_id job h =
    let halves =
      &&_true (has_id job_id job && has_status JobStatus.pending job)
        (is_none job.cleared_at
          && (is_none job.assigned_worker_id || is_id worker_id job.assigned_worker_id))
        h in
    let left = &&_true (has_id job_id job) (has_status JobStatus.pending job) halves.0 in
    let right =
      &&_true (is_none job.cleared_at)
        (is_none job.assigned_worker_id || is_id worker_id job.assigned_worker_id) halves.1 in
    record { named = left.0; waiting = left.1; uncleared = right.0; free = right.1 }

-- Assigned to no worker, or to this one.
pub free_lem :
    (worker_id : ℕ) (assigned : Option ℕ)
    → (is_none assigned || is_id worker_id assigned) ≡ true
    → (assigned ≡ none) ⊎ (assigned ≡ some worker_id)
free_lem worker_id none h = inl refl
free_lem worker_id (some n) h = inr (ap some ((==_iff n worker_id).0 h))

-- A pending job is active, and runs on no worker.
live_of_waiting :
    (job : Job)
    → has_status JobStatus.pending job ≡ true
    → is_none job.cleared_at ≡ true
    → is_live job ≡ true
unfolding is_live
live_of_waiting job h k =
    ap (λ s. is_active_status s && is_none job.cleared_at)
      (status_of_has_status JobStatus.pending job h)
    ∙ k

and_false : (a b : Bool) → (a && (false && b)) ≡ false
and_false a b = ground arith

waiting-not_running :
    (w : ℕ) (job : Job) → has_status JobStatus.pending job ≡ true → is_running_on w job ≡ false
unfolding is_running_on
waiting-not_running w job h =
    ap (λ s. is_id w job.assigned_worker_id && (status_index s == 2 && is_none job.cleared_at))
      (status_of_has_status JobStatus.pending job h)
    ∙ and_false (is_id w job.assigned_worker_id) (is_none job.cleared_at)

-- The job that is claimed runs on the worker, and on no other.
claimed-running :
    (now : ℕ) (worker : Worker) (backend : Option String) (job : Job)
    → is_none job.cleared_at ≡ true
    → is_running_on worker.id (mark_running_for_worker now worker backend job) ≡ true
unfolding is_running_on mark_running_for_worker mark_running
claimed-running now worker backend job h = ground (arith, h)

claimed-not_running :
    (now : ℕ) (worker : Worker) (backend : Option String) (w : ℕ) (job : Job)
    → (worker.id == w) ≡ false
    → is_running_on w (mark_running_for_worker now worker backend job) ≡ false
unfolding is_running_on mark_running_for_worker mark_running
claimed-not_running now worker backend w job h = ground (arith, h)

pub claim-KeepsLive :
    (now job_id : ℕ) (worker : Worker) (backend : Option String)
    → KeepsLive (can_claim job_id worker.id) (mark_running_for_worker now worker backend)
unfolding mark_running_for_worker mark_running
claim-KeepsLive now job_id worker backend = record {
  same_file = λ job t. refl;
  was_live = λ job t l.
      let c = can_claim-Claimable job_id worker.id job t in
      live_of_waiting job c.waiting c.uncleared;
}

-- A claim adds as many running jobs to its worker as it has rows.
pub count-claim :
    (now job_id : ℕ) (worker : Worker) (backend : Option String) (jobs : List Job)
    → count_active_assignments_for_worker worker.id (
        update_where (can_claim job_id worker.id) (mark_running_for_worker now worker backend) jobs)
      ≡ count_active_assignments_for_worker worker.id jobs
        + length (filter (can_claim job_id worker.id) jobs)
unfolding count_active_assignments_for_worker update_where
count-claim now job_id worker backend [] = refl
count-claim now job_id worker backend (job ∷ jobs) =
    let rest = count-claim now job_id worker backend jobs in
    elim (Bool-cases (can_claim job_id worker.id job)) [
      | inl t ↦
          let c = can_claim-Claimable job_id worker.id job t in
          rw
            (
              t,
              claimed-running now worker backend job c.uncleared,
              waiting-not_running worker.id job c.waiting,
            )
            (omega (arith, rest))
      | inr t ↦ elim (Bool-cases (is_running_on worker.id job)) [
        | inl r ↦ rw (t, r) (omega (arith, rest))
        | inr r ↦ rw (t, r) (omega (arith, rest))
      ]
    ]

-- And none to another.
pub count-claim_other :
    (now job_id : ℕ) (worker : Worker) (backend : Option String) (w : ℕ) (jobs : List Job)
    → (worker.id == w) ≡ false
    → count_active_assignments_for_worker w (
        update_where (can_claim job_id worker.id) (mark_running_for_worker now worker backend) jobs)
      ≡ count_active_assignments_for_worker w jobs
unfolding count_active_assignments_for_worker update_where
count-claim_other now job_id worker backend w [] other = refl
count-claim_other now job_id worker backend w (job ∷ jobs) other =
    let rest = count-claim_other now job_id worker backend w jobs other in
    elim (Bool-cases (can_claim job_id worker.id job)) [
      | inl t ↦
          let c = can_claim-Claimable job_id worker.id job t in
          rw
            (
              t,
              claimed-not_running now worker backend w job other,
              waiting-not_running w job c.waiting,
            )
            rest
      | inr t ↦ elim (Bool-cases (is_running_on w job)) [
        | inl r ↦ rw (t, r) (ap suc rest)
        | inr r ↦ rw (t, r) rest
      ]
    ]

abbrev pub id_of : Job → ℕ
id_of job = job.id

-- No row has an id, or one at most.
pub no_rows :
    (job_id worker_id : ℕ) (jobs : List Job)
    → contains (map id_of jobs) job_id ≡ false
    → length (filter (can_claim job_id worker_id) jobs) ≡ 0
no_rows job_id worker_id [] h = refl
no_rows job_id worker_id (job ∷ jobs) h =
    let parts = or_false (has_id job_id job) (contains (map id_of jobs) job_id) h in
    elim (Bool-cases (can_claim job_id worker_id job)) [
      | inl t ↦
          let bad : true ≡ false =
            sym (can_claim-Claimable job_id worker_id job t).named ∙ parts.0 in
          absurd cc
      | inr t ↦ rw t (no_rows job_id worker_id jobs parts.1)
    ]

pub one_row :
    (job_id worker_id : ℕ) (jobs : List Job)
    → Distinct (map id_of jobs)
    → length (filter (can_claim job_id worker_id) jobs) ≤ 1
one_row job_id worker_id [] h = omega arith
one_row job_id worker_id (job ∷ jobs) h = elim (Bool-cases (can_claim job_id worker_id job)) [
  | inl t ↦
      let same = (==_iff job.id job_id).0 (can_claim-Claimable job_id worker_id job t).named in
      rw t (
        omega
          (arith, no_rows job_id worker_id jobs (ap (contains (map id_of jobs)) (sym same) ∙ h.0)))
  | inr t ↦ rw t (one_row job_id worker_id jobs h.1)
]

-- An update of no row changes nothing.
pub update-none :
    (test : Job → Bool) (change : Job → Job) (jobs : List Job)
    → length (filter test jobs) ≡ 0
    → update_where test change jobs ≡ jobs
unfolding update_where
update-none test change [] h = refl
update-none test change (job ∷ jobs) h = elim (Bool-cases (test job)) [
  | inl t ↦ absurd (omega (arith, (rw t at h)))
  | inr t ↦ rw t (ap (λ rest. job ∷ rest) (update-none test change jobs (rw t at h)))
]
