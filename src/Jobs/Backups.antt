-- ===== src/Jobs/Backups.antt =====
-- The backups that packages/db/encodr_db/repositories/jobs.py lists and removes. The rows of a query come in
-- its order; `exists` is the file system's answer for a path.
pub mod Listing
pub mod Batches
pub mod Expiry
use encodr.Prelude.{
  ℕ, zero, suc, ◌+◌, ◌-◌, Bool, true, false, not, ◌&&◌, ◌||◌, Option, none, some, List, [], ◌∷◌,
  ◌++◌, String, if◌then◌else◌, ◌==◌, leb, ltb, is_none, is_empty, filter, length, take, str_eq,
  contains_text,
}
use encodr.Jobs.Models.{Job, JobStatus, JobReplacementStatus, BackupPolicy, has_status}
use encodr.Jobs.Policies.{backup_listing_batch_size}

-- `query.offset(n)`
unfoldable pub drop {ℓ} : {A : Type ℓ} → ℕ → List A → List A
drop zero xs = xs
drop (suc n) [] = []
drop (suc n) (x ∷ xs) = drop n xs

-- `query.limit(n)`, when there is one.
abbrev pub limited {ℓ} : {A : Type ℓ} → Option ℕ → List A → List A
limited none xs = xs
limited (some n) xs = take n xs

abbrev pub offset_by {ℓ} : {A : Type ℓ} → Option ℕ → List A → List A
offset_by none xs = xs
offset_by (some n) xs = drop n xs

abbrev pub has_backup : Job → Bool
has_backup job =
    not (is_none job.original_backup_path)
    && (is_none job.backup_deleted_at && is_none job.backup_restored_at)

-- `job.original_backup_path and Path(job.original_backup_path).exists()`
unfoldable pub backup_exists : (String → Bool) → Job → Bool
backup_exists exists job = elim job.original_backup_path [
  | none ↦ false
  | some path ↦ not (str_eq path "") && exists path
]

abbrev pub reached : Option ℕ → ℕ → Bool
reached none n = false
reached (some target) n = leb target n

-- The state of the loop over one batch; `done` is its return.
pub record Scan : Type 0 where
  pub collected : List Job
  pub skip : ℕ
  pub done : Bool

unfoldable pub scan_batch : (Job → Bool) → Option ℕ → ℕ → List Job → List Job → Scan
scan_batch found target skip collected [] = record {
  collected = collected;
  skip = skip;
  done = false;
}
scan_batch found target skip collected (job ∷ jobs) = elim (found job) [
  | false ↦ scan_batch found target skip collected jobs
  | true ↦ elim skip [
    | suc n ↦ scan_batch found target n collected jobs
    | zero ↦ elim (reached target (length (collected ++ job ∷ []))) [
      | true ↦ record { collected = collected ++ job ∷ []; skip = 0; done = true }
      | false ↦ scan_batch found target 0 (collected ++ job ∷ []) jobs
    ]
  ]
]

-- The loop over the batches; none is that the fuel is used up.
unfoldable pub scan_batches :
    ℕ → (Job → Bool) → Option ℕ → ℕ → ℕ → List Job → ℕ → List Job → Option (List Job)
scan_batches zero found target batch skip collected query_offset rows = none
scan_batches (suc fuel) found target batch skip collected query_offset rows =
    let candidates = take batch (drop query_offset rows) in
    let s = scan_batch found target skip collected candidates in
    let rest =
      scan_batches fuel found target batch s.skip s.collected (query_offset + batch) rows in
    if is_empty candidates
    then some collected
    else if s.done
    then some s.collected
    else if ltb (length candidates) batch
    then some s.collected
    else rest

abbrev pub or_zero : Option ℕ → ℕ
or_zero none = 0
or_zero (some n) = n

-- `target_count == 0`
abbrev pub wants_none : Option ℕ → Bool
wants_none none = false
wants_none (some n) = n == 0

unfoldable pub list_backup_jobs :
    (String → Bool) → Option ℕ → Option ℕ → Bool → List Job → Option (List Job)
list_backup_jobs exists limit offset include_missing rows =
    if include_missing
    then some (limited limit (offset_by offset rows))
    else if wants_none limit
    then some []
    else scan_batches (length rows + 1) (backup_exists exists) limit
        (backup_listing_batch_size limit) (or_zero offset) [] 0 rows

unfoldable pub count_backup_jobs : (String → Bool) → List Job → ℕ
count_backup_jobs exists rows = length (filter (backup_exists exists) rows)

abbrev pub is_succeeded : JobReplacementStatus → Bool
is_succeeded JobReplacementStatus.succeeded = true
is_succeeded status = false

abbrev pub is_kept_for_1_day : BackupPolicy → Bool
is_kept_for_1_day BackupPolicy.keep_for_1_day = true
is_kept_for_1_day policy = false

-- `at is not None and at <= now`
abbrev pub is_past : ℕ → Option ℕ → Bool
is_past now none = false
is_past now (some at) = leb at now

-- The query of `cleanup_expired_backups`.
unfoldable pub is_expired : ℕ → Job → Bool
is_expired now job =
    (has_status JobStatus.completed job && is_succeeded job.replacement_status)
    && ((is_kept_for_1_day job.backup_policy && is_past now job.backup_retention_until)
        && has_backup job)

-- The path to remove, which a validator can change or refuse.
unfoldable pub validated_path : Option (String → Job → Option String) → Job → Option String
validated_path validator job = elim job.original_backup_path [
  | none ↦ none
  | some path ↦ elim validator [ none ↦ some path | some check ↦ check path job ]
]

-- The regular files; the jobs whose backup is removed, marked; and whether an `OSError` of a removal leaves the loop,
-- which then returns nothing.
pub record Cleanup : Type 0 where
  pub files : List String
  pub deleted : List Job
  pub raised : Bool

abbrev pub unlink : String → List String → List String
unlink path files = filter (λ f. not (str_eq path f)) files

abbrev pub mark_deleted : ℕ → Job → Job
mark_deleted now job = record job { backup_deleted_at = some now }

abbrev also_deleted : Job → Cleanup → Cleanup
also_deleted job c = record c { deleted = job ∷ c.deleted }

-- `refuses` says for which paths the file system refuses a removal. A path is removed once at most, since it is not
-- there for a later row.
unfoldable pub cleanup_rows :
    ℕ → Option (String → Job → Option String) → (String → Bool) → List Job → List String → Cleanup
cleanup_rows now validator refuses [] files = record { files = files; deleted = []; raised = false }
cleanup_rows now validator refuses (job ∷ jobs) files = elim (validated_path validator job) [
  | none ↦ cleanup_rows now validator refuses jobs files
  | some path ↦ elim (contains_text files path) [
    | false ↦ cleanup_rows now validator refuses jobs files
    | true ↦ elim (refuses path) [
      | true ↦ record { files = files; deleted = []; raised = true }
      | false ↦
          also_deleted (mark_deleted now job)
            (cleanup_rows now validator refuses jobs (unlink path files))
    ]
  ]
]

unfoldable pub cleanup_expired_backups :
    ℕ → Option (String → Job → Option String) → (String → Bool) → List Job → List String → Cleanup
cleanup_expired_backups now validator refuses rows files =
    cleanup_rows now validator refuses (filter (is_expired now) rows) files
