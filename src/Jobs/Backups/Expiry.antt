-- ===== src/Jobs/Backups/Expiry.antt =====
-- `cleanup_expired_backups` of packages/db/encodr_db/repositories/jobs.py: which files it removes, and which jobs it marks.
use mathlib.Core.List.Memᴰ
use encodr.Prelude.{
  ℕ, ◌≡◌, ◌≤◌, none, leb→le, &&_true, is_none, not, Bool, refl, sym, ap, ◌∙◌, true, false, ◌||◌,
  Option, some, String, List, [], ◌∷◌, Memᴰ, str_eq, eq_iff, eq_refl, contains_text, filter,
  Bool-cases, Option-cases, inl, inr, mem_of_mem-filter, test_of_mem-filter,
}
use encodr.Jobs.Models.{Job, JobStatus, JobReplacementStatus, BackupPolicy, status_of_has_status}
use encodr.Replacement.Apart.{none_of_is_none}
use encodr.Jobs.Backups.{
  is_expired, is_succeeded, is_kept_for_1_day, is_past, validated_path, unlink, mark_deleted,
  cleanup_rows, cleanup_expired_backups,
}

str_eq-sym : (a b : String) → str_eq a b ≡ false → str_eq b a ≡ false
str_eq-sym a b h = elim (Bool-cases (str_eq b a)) [
  | inl e ↦
      let same : b ≡ a = (eq_iff b a).0 e in
      let bad : true ≡ false = sym (eq_refl a) ∙ ap (str_eq a) (sym same) ∙ h in absurd cc
  | inr e ↦ e
]

-- A removed file is gone, and the others stay.
unlink-gone : (path : String) (files : List String) → contains_text (unlink path files) path ≡ false
unlink-gone path [] = refl
unlink-gone path (f ∷ files) = elim (Bool-cases (str_eq path f)) [
  | inl e ↦ rw e (unlink-gone path files)
  | inr e ↦ rw (e, str_eq-sym path f e) (unlink-gone path files)
]

unlink-other :
    (path other : String) (files : List String)
    → str_eq path other ≡ false
    → contains_text (unlink path files) other ≡ contains_text files other
unlink-other path other [] h = refl
unlink-other path other (f ∷ files) h = elim (Bool-cases (str_eq path f)) [
  | inr e ↦ rw e (ap (λ b. str_eq f other || b) (unlink-other path other files h))
  | inl e ↦
      let apart : str_eq f other ≡ false =
        ap (λ x. str_eq x other) (sym ((eq_iff path f).0 e)) ∙ h in
      rw (e, apart) (unlink-other path other files h)
]

unlink-none :
    (path other : String) (files : List String)
    → contains_text files other ≡ false
    → contains_text (unlink path files) other ≡ false
unlink-none path other files h = elim (Bool-cases (str_eq path other)) [
  | inl e ↦
      ap (contains_text (unlink path files)) (sym ((eq_iff path other).0 e))
      ∙ unlink-gone path files
  | inr e ↦ unlink-other path other files e ∙ h
]

-- What the cleanup's query asks of a row.
pub record Expired (now : ℕ) (job : Job) : Type 0 where
  pub completed : job.status ≡ JobStatus.completed
  pub replaced : job.replacement_status ≡ JobReplacementStatus.succeeded
  pub kept_for_a_day : job.backup_policy ≡ BackupPolicy.keep_for_1_day
  pub until : ℕ
  pub retention : job.backup_retention_until ≡ some until
  pub is_over : until ≤ now
  pub has_path : (path : String) × (job.original_backup_path ≡ some path)
  pub not_deleted : job.backup_deleted_at ≡ none
  pub not_restored : job.backup_restored_at ≡ none

status_lem : (s : JobReplacementStatus) → is_succeeded s ≡ true → s ≡ JobReplacementStatus.succeeded
status_lem JobReplacementStatus.succeeded h = refl
status_lem JobReplacementStatus.pending h = cc
status_lem JobReplacementStatus.failed h = cc
status_lem JobReplacementStatus.not_required h = cc

policy_lem : (p : BackupPolicy) → is_kept_for_1_day p ≡ true → p ≡ BackupPolicy.keep_for_1_day
policy_lem BackupPolicy.keep_for_1_day h = refl
policy_lem BackupPolicy.keep h = cc
policy_lem BackupPolicy.delete_after_success h = cc
policy_lem BackupPolicy.discovered h = cc

past_lem : (now : ℕ) (o : Option ℕ) → is_past now o ≡ true → (at : ℕ) × (o ≡ some at) × (at ≤ now)
past_lem now none h = cc
past_lem now (some at) h = (at, refl, leb→le at now h)

path_lem : (o : Option String) → not (is_none o) ≡ true → (path : String) × (o ≡ some path)
path_lem none h = cc
path_lem (some path) h = (path, refl)

is_expired-Expired : (now : ℕ) (job : Job) → is_expired now job ≡ true → Expired now job
unfolding is_expired
is_expired-Expired now job h =
    let (ended, kept) = &&_true _ _ h in
    let (completed, replaced) = &&_true _ _ ended in
    let (over, backup) = &&_true _ _ kept in
    let (policy, past) = &&_true _ _ over in
    let (path, others) = &&_true _ _ backup in
    let (deleted, restored) = &&_true _ _ others in
    let (until, retention, is_over) = past_lem now job.backup_retention_until past in
    record {
      completed = status_of_has_status JobStatus.completed job completed;
      replaced = status_lem job.replacement_status replaced;
      kept_for_a_day = policy_lem job.backup_policy policy;
      until = until;
      retention = retention;
      is_over = is_over;
      has_path = path_lem job.original_backup_path path;
      not_deleted = none_of_is_none job.backup_deleted_at deleted;
      not_restored = none_of_is_none job.backup_restored_at restored;
    }

module _ (now : ℕ) (validator : Option (String → Job → Option String))
    (refuses : String → Bool) where
  -- No file comes into being.
  cleanup_rows-none :
      (rows : List Job) (files : List String) (p : String)
      → contains_text files p ≡ false
      → contains_text (cleanup_rows now validator refuses rows files).files p ≡ false
  unfolding cleanup_rows
  cleanup_rows-none [] files p h = h
  cleanup_rows-none (job ∷ rows) files p h = elim (Option-cases (validated_path validator job)) [
    | inl e ↦ rw (cleanup_rows, e) (cleanup_rows-none rows files p h)
    | inr (path, e) ↦ elim (Bool-cases (contains_text files path)) [
      | inl k ↦ elim (Bool-cases (refuses path)) [
        | inl f ↦ rw (cleanup_rows, e, k, f) h
        | inr f ↦
            rw (cleanup_rows, e, k, f)
              (cleanup_rows-none rows (unlink path files) p (unlink-none path p files h))
      ]
      | inr k ↦ rw (cleanup_rows, e, k) (cleanup_rows-none rows files p h)
    ]
  ]

  -- A file that goes is the backup of one of the rows.
  cleanup_rows-gone :
      (rows : List Job) (files : List String) (p : String)
      → contains_text files p ≡ true
      → contains_text (cleanup_rows now validator refuses rows files).files p ≡ false
      → (job : Job) × Memᴰ job rows × (validated_path validator job ≡ some p)
  unfolding cleanup_rows
  cleanup_rows-gone [] files p there gone = absurd cc
  cleanup_rows-gone (job ∷ rows) files p there gone =
      elim (Option-cases (validated_path validator job)) [
        | inl e ↦ later (cleanup_rows-gone rows files p there (rw (cleanup_rows, e) at gone))
        | inr (path, e) ↦ elim (Bool-cases (contains_text files path)) [
          | inr k ↦ later (cleanup_rows-gone rows files p there (rw (cleanup_rows, e, k) at gone))
          | inl k ↦ elim (Bool-cases (refuses path)) [
            | inl f ↦
                let bad : true ≡ false = sym there ∙ (rw (cleanup_rows, e, k, f) at gone) in
                absurd cc
            | inr f ↦ elim (Bool-cases (str_eq path p)) [
              | inl same ↦ (job, Memᴰ.head refl, e ∙ ap some ((eq_iff path p).0 same))
              | inr other ↦ later (
                  cleanup_rows-gone rows (unlink path files) p
                    (unlink-other path p files other ∙ there) (rw (cleanup_rows, e, k, f) at gone))
            ]
          ]
        ]
      ]
    where
      later :
          (j : Job) × Memᴰ j rows × (validated_path validator j ≡ some p)
          → (j : Job) × Memᴰ j (job ∷ rows) × (validated_path validator j ≡ some p)
      later (j, m, t) = (j, Memᴰ.tail m, t)

  -- The removal of one row's backup.
  pub record Removed (rows : List Job) (files after : List String) (d : Job) : Type 0 where
    pub job : Job
    pub path : String
    pub listed : Memᴰ job rows
    pub marked : d ≡ mark_deleted now job
    pub is_path : validated_path validator job ≡ some path
    pub was_there : contains_text files path ≡ true
    pub was_removed : refuses path ≡ false
    pub is_gone : contains_text after path ≡ false

  cleanup_rows-Removed :
      (rows : List Job) (files : List String) {d : Job}
      → Memᴰ d (cleanup_rows now validator refuses rows files).deleted
      → Removed rows files (cleanup_rows now validator refuses rows files).files d
  unfolding cleanup_rows
  cleanup_rows-Removed [] files m = elim m [ ]
  cleanup_rows-Removed (job ∷ rows) files {d} m =
      elim (Option-cases (validated_path validator job)) [
        | inl e ↦
            rw (cleanup_rows, e)
              (wider files files (λ q h. h)
                (cleanup_rows-Removed rows files (rw (cleanup_rows, e) at m)))
        | inr (path, e) ↦ elim (Bool-cases (contains_text files path)) [
          | inr k ↦
              rw (cleanup_rows, e, k)
                (wider files files (λ q h. h)
                  (cleanup_rows-Removed rows files (rw (cleanup_rows, e, k) at m)))
          | inl k ↦ elim (Bool-cases (refuses path)) [
            | inl f ↦ elim (rw (cleanup_rows, e, k, f) at m) [ ]
            | inr f ↦
                rw (cleanup_rows, e, k, f)
                  (elim (Memᴰ.cases_cons (rw (cleanup_rows, e, k, f) at m)) [
                    | inl same ↦ record {
                      job = job;
                      path = path;
                      listed = Memᴰ.head refl;
                      marked = same;
                      is_path = e;
                      was_there = k;
                      was_removed = f;
                      is_gone =
                          cleanup_rows-none rows (unlink path files) path (unlink-gone path files);
                    }
                    | inr r ↦
                        wider (unlink path files) files (still path files)
                          (cleanup_rows-Removed rows (unlink path files) r)
                  ])
          ]
        ]
      ]
    where
      still :
          (path : String) (files : List String) (q : String)
          → contains_text (unlink path files) q ≡ true
          → contains_text files q ≡ true
      still path files q h = elim (Bool-cases (contains_text files q)) [
        | inl e ↦ e
        | inr e ↦ let bad : true ≡ false = sym h ∙ unlink-none path q files e in absurd cc
      ]

      wider :
          (smaller larger : List String) {after : List String} {x : Job}
          → ((q : String) → contains_text smaller q ≡ true → contains_text larger q ≡ true)
          → Removed rows smaller after x
          → Removed (job ∷ rows) larger after x
      wider smaller larger f r = record {
        job = r.job;
        path = r.path;
        listed = Memᴰ.tail r.listed;
        marked = r.marked;
        is_path = r.is_path;
        was_there = f r.path r.was_there;
        was_removed = r.was_removed;
        is_gone = r.is_gone;
      }

-- Also where a removal raises and ends the loop: a file that the cleanup removes is the backup, as the validator gives
-- it, of a completed and replaced job that keeps it for one day, whose retention is over, and whose backup was neither
-- deleted nor restored.
pub cleanup_expired_backups-gone :
    (now : ℕ) (validator : Option (String → Job → Option String)) (refuses : String → Bool)
    (rows : List Job) (files : List String) (p : String)
    → contains_text files p ≡ true
    → contains_text (cleanup_expired_backups now validator refuses rows files).files p ≡ false
    → (job : Job) × Memᴰ job rows × Expired now job × (validated_path validator job ≡ some p)
unfolding cleanup_expired_backups
cleanup_expired_backups-gone now validator refuses rows files p there gone =
    let (job, m, e) =
      cleanup_rows-gone now validator refuses (filter (is_expired now) rows) files p there gone in
    (
      job,
      mem_of_mem-filter (is_expired now) rows m,
      is_expired-Expired now job (test_of_mem-filter (is_expired now) rows m),
      e,
    )

-- Also where a removal raises and ends the loop: a job that the cleanup marks as deleted was completed and replaced,
-- kept its backup for one day, had its retention over and its backup neither deleted nor restored; the backup's file
-- was there, its removal was allowed, and it is gone.
pub cleanup_expired_backups-Removed :
    (now : ℕ) (validator : Option (String → Job → Option String)) (refuses : String → Bool)
    (rows : List Job) (files : List String) {d : Job}
    → Memᴰ d (cleanup_expired_backups now validator refuses rows files).deleted
    → (r : Removed now validator refuses rows files
        (cleanup_expired_backups now validator refuses rows files).files
        d)
      × Expired now r.job
unfolding cleanup_expired_backups
cleanup_expired_backups-Removed now validator refuses rows files m =
    let r = cleanup_rows-Removed now validator refuses (filter (is_expired now) rows) files m in
    (
      record {
        job = r.job;
        path = r.path;
        listed = mem_of_mem-filter (is_expired now) rows r.listed;
        marked = r.marked;
        is_path = r.is_path;
        was_there = r.was_there;
        was_removed = r.was_removed;
        is_gone = r.is_gone;
      },
      is_expired-Expired now r.job (test_of_mem-filter (is_expired now) rows r.listed),
    )
