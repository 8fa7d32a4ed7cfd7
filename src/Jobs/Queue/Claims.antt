-- ===== src/Jobs/Queue/Claims.antt =====
-- `claim_pending_for_worker` of packages/db/encodr_db/repositories/jobs.py.
use encodr.Prelude.{
  ℕ, ◌≤◌, ◌<◌, ◌≡◌, refl, sym, ap, ◌∙◌, true, false, Option, none, some, List, [], ◌∷◌, Memᴰ, map,
  String, arith, ◌==◌, leb, filter, length, contains, Distinct, Bool-cases, inl, inr, ==_iff, ◌⊎◌,
}
use encodr.Replacement.Apart.{none_of_is_none}
use encodr.Jobs.Models.{Job, JobStatus, Worker, status_of_has_status}
use encodr.Jobs.Marks.{mark_running_for_worker, mark_running}
use encodr.Jobs.Policies.{greater}
use encodr.Jobs.Database.{Database, unique_active, update_where, has_id, find_job}
use encodr.Jobs.Index.{unique_active-update, flush-some}
use encodr.Jobs.Queue.{
  Claimed, count_active_assignments_for_worker, can_claim, claim_pending_for_worker, files_of_claim,
}
use encodr.Jobs.Queue.Rows.{
  can_claim-Claimable, claim-KeepsLive, count-claim, count-claim_other, id_of, no_rows, one_row,
  update-none, free_lem,
}

-- The outcomes of a claim.
pub data ClaimOutcome (now job_id : ℕ) (worker : Worker) (backend : Option String) (most : ℕ)
    (db : Database) (c : Claimed) : Type 0 where
  refused : c.job ≡ none → c.after ≡ db → ClaimOutcome now job_id worker backend most db c
  taken :
      count_active_assignments_for_worker worker.id db.jobs < greater 1 most
      → length (filter (can_claim job_id worker.id) db.jobs) ≡ 1
      → c.after.jobs
        ≡ update_where
            (can_claim job_id worker.id)
            (mark_running_for_worker now worker backend)
            db.jobs
      → c.job ≡ find_job job_id c.after.jobs
      → ClaimOutcome now job_id worker backend most db c

-- The row that is taken, before.
record TakenRow (job_id : ℕ) (worker : Worker) (change : Job → Job) (jobs : List Job) : Type 0 where
  row : Job
  listed : Memᴰ row jobs
  was_for_it : can_claim job_id worker.id row ≡ true
  found :
      find_job job_id (update_where (can_claim job_id worker.id) change jobs) ≡ some (change row)

taken_row :
    (job_id : ℕ) (worker : Worker) (change : Job → Job) (jobs : List Job)
    → ((job : Job) → (change job).id ≡ job.id)
    → Distinct (map id_of jobs)
    → length (filter (can_claim job_id worker.id) jobs) ≡ 1
    → TakenRow job_id worker change jobs
unfolding find_job update_where
taken_row job_id worker change [] same_id h one = absurd (omega arith)
taken_row job_id worker change (job ∷ jobs) same_id h one =
    elim (Bool-cases (can_claim job_id worker.id job)) [
      | inl t ↦
          let c = can_claim-Claimable job_id worker.id job t in
          let named : ((change job).id == job_id) ≡ true =
            ap (λ n. n == job_id) (same_id job) ∙ c.named in
          record { row = job; listed = Memᴰ.head refl; was_for_it = t; found = rw (t, named) refl }
      | inr t ↦ elim (Bool-cases (has_id job_id job)) [
        | inl named ↦ absurd (
            omega (
              arith,
              (rw t at one),
              no_rows job_id worker.id jobs
                  (ap (contains (map id_of jobs)) (sym ((==_iff job.id job_id).0 named)) ∙ h.0),
            ))
        | inr named ↦
            let rest = taken_row job_id worker change jobs same_id h.1 (rw t at one) in
            record {
              row = rest.row;
              listed = Memᴰ.tail rest.listed;
              was_for_it = rest.was_for_it;
              found = rw (t, named) rest.found;
            }
      ]
    ]

files_of_claim-jobs : (job : Option Job) (db : Database) → (files_of_claim job db).jobs ≡ db.jobs
files_of_claim-jobs none db = refl
files_of_claim-jobs (some job) db = refl

-- With no two rows of one id and at most one active job for a file, a claim meets no `IntegrityError`. It takes
-- the one row that is for it, or leaves the table as it is.
pub claim_pending_for_worker_outcome :
    (now job_id : ℕ) (worker : Worker) (backend : Option String) (most : ℕ) (db : Database)
    → Distinct (map id_of db.jobs)
    → unique_active db.jobs ≡ true
    → (c : Claimed) × (claim_pending_for_worker now job_id worker backend most db ≡ some c)
      × ClaimOutcome now job_id worker backend most db c
unfolding claim_pending_for_worker
claim_pending_for_worker_outcome now job_id worker backend most db distinct unique =
    elim (Bool-cases
      (leb (greater 1 most) (count_active_assignments_for_worker worker.id db.jobs))) [
        | inl full ↦ (
          record { job = none; after = db },
          rw (full, flush-some db unique) refl,
          refused refl refl,
        )
        | inr room ↦
            let test = can_claim job_id worker.id in
            let updated = record db {
              jobs = update_where test (mark_running_for_worker now worker backend) db.jobs;
            } in
            let kept =
              unique_active-update test (mark_running_for_worker now worker backend)
                (claim-KeepsLive now job_id worker backend) db.jobs unique in
            elim (Bool-cases (length (filter test db.jobs) == 1)) [
              | inr none_found ↦
                  let same =
                    update-none test (mark_running_for_worker now worker backend) db.jobs
                      (ground (arith, one_row job_id worker.id db.jobs distinct)) in
                  (
                    record { job = none; after = db },
                    rw (room, none_found, same, flush-some db unique) refl,
                    refused refl refl,
                  )
              | inl one ↦
                  let job = find_job job_id updated.jobs in
                  let after = files_of_claim job updated in
                  (
                    record { job = job; after = after },
                    rw
                        (
                          room,
                          one,
                          flush-some after
                              (ap unique_active (files_of_claim-jobs job updated) ∙ kept),
                        )
                        refl,
                    taken (ground arith) (ground arith) (files_of_claim-jobs job updated)
                        (ap (find_job job_id) (sym (files_of_claim-jobs job updated))),
                  )
            ]
      ]

claim-same_id :
    (now : ℕ) (worker : Worker) (backend : Option String) (job : Job)
    → (mark_running_for_worker now worker backend job).id ≡ job.id
unfolding mark_running_for_worker mark_running
claim-same_id now worker backend job = refl

-- Where no two rows have one id and the index of active jobs is kept: a claim does not take its
-- worker above its limit of running jobs, the larger of one and the given number.
pub claim_pending_for_worker_limit :
    (now job_id : ℕ) (worker : Worker) (backend : Option String) (most : ℕ) (db : Database)
    {c : Claimed}
    → Distinct (map id_of db.jobs)
    → unique_active db.jobs ≡ true
    → claim_pending_for_worker now job_id worker backend most db ≡ some c
    → count_active_assignments_for_worker worker.id db.jobs ≤ greater 1 most
    → count_active_assignments_for_worker worker.id c.after.jobs ≤ greater 1 most
claim_pending_for_worker_limit now job_id worker backend most db {c} distinct unique e h =
    let (d, f, outcome) =
      claim_pending_for_worker_outcome now job_id worker backend most db distinct unique in
    let same : d ≡ c = cc in
    rw (← same) (elim outcome [
      | refused _ unchanged ↦ rw unchanged h
      | taken room one rows _ ↦
          rw rows (omega (arith, room, one, count-claim now job_id worker backend db.jobs))
    ])

-- A claim changes the number of running jobs of no other worker.
pub claim_pending_for_worker_others :
    (now job_id : ℕ) (worker : Worker) (backend : Option String) (most w : ℕ) (db : Database)
    {c : Claimed}
    → Distinct (map id_of db.jobs)
    → unique_active db.jobs ≡ true
    → claim_pending_for_worker now job_id worker backend most db ≡ some c
    → (worker.id == w) ≡ false
    → count_active_assignments_for_worker w c.after.jobs
      ≡ count_active_assignments_for_worker w db.jobs
claim_pending_for_worker_others now job_id worker backend most w db {c} distinct unique e other =
    let (d, f, outcome) =
      claim_pending_for_worker_outcome now job_id worker backend most db distinct unique in
    let same : d ≡ c = cc in
    rw (← same) (elim outcome [
      | refused _ unchanged ↦ ap (λ t. count_active_assignments_for_worker w t.jobs) unchanged
      | taken room one rows _ ↦
          ap (count_active_assignments_for_worker w) rows
          ∙ count-claim_other now job_id worker backend w db.jobs other
    ])

-- Where no two rows have one id and the index of active jobs is kept: a job that a claim returns is the row with the
-- id that was asked for, which was pending, not cleared, and assigned to no worker or to this one. It comes back
-- marked: it runs, on this worker, which ran fewer jobs than its limit before.
pub claim_pending_for_worker_taken :
    (now job_id : ℕ) (worker : Worker) (backend : Option String) (most : ℕ) (db : Database)
    {c : Claimed} {j : Job}
    → Distinct (map id_of db.jobs)
    → unique_active db.jobs ≡ true
    → claim_pending_for_worker now job_id worker backend most db ≡ some c
    → c.job ≡ some j
    → (row : Job) × Memᴰ row db.jobs
      × (row.id ≡ job_id)
      × (row.status ≡ JobStatus.pending)
      × (row.cleared_at ≡ none)
      × ((row.assigned_worker_id ≡ none) ⊎ (row.assigned_worker_id ≡ some worker.id))
      × (j ≡ mark_running_for_worker now worker backend row)
      × (j.status ≡ JobStatus.running)
      × (j.assigned_worker_id ≡ some worker.id)
      × (count_active_assignments_for_worker worker.id db.jobs < greater 1 most)
unfolding mark_running_for_worker mark_running
claim_pending_for_worker_taken now job_id worker backend most db {c} {j} distinct unique e k =
    let (d, f, outcome) =
      claim_pending_for_worker_outcome now job_id worker backend most db distinct unique in
    let same : d ≡ c = cc in
    elim (rw same at outcome) [
      | refused nothing _ ↦ absurd cc
      | taken room one rows found ↦
          let t =
            taken_row job_id worker (mark_running_for_worker now worker backend) db.jobs
              (claim-same_id now worker backend) distinct one in
          let there : some (mark_running_for_worker now worker backend t.row) ≡ some j =
            sym t.found ∙ ap (find_job job_id) (sym rows) ∙ sym found ∙ k in
          let it : j ≡ mark_running_for_worker now worker backend t.row = cc in
          let test = can_claim-Claimable job_id worker.id t.row t.was_for_it in
          (
            t.row,
            t.listed,
            (==_iff t.row.id job_id).0 test.named,
            status_of_has_status JobStatus.pending t.row test.waiting,
            none_of_is_none t.row.cleared_at test.uncleared,
            free_lem worker.id t.row.assigned_worker_id test.free,
            it,
            ap (λ (x : Job). x.status) it,
            ap (λ (x : Job). x.assigned_worker_id) it,
            room,
          )
    ]
