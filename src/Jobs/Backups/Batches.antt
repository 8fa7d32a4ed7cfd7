-- ===== src/Jobs/Backups/Batches.antt =====
-- `list_backup_jobs` of packages/db/encodr_db/repositories/jobs.py against the listing that it stands for: the
-- jobs whose backup exists, from an offset on, up to a limit.
use mathlib.Core.List.{append-nil}
use encodr.Prelude.{
  ℕ, zero, suc, ◌+◌, ◌<◌, ◌≡◌, refl, sym, ap, ◌∙◌, Bool, true, false, Option, none, some, String,
  List, [], ◌++◌, arith, ltb, is_empty, filter, length, take, length-append, Bool-cases, inl, inr,
}
use encodr.Jobs.Models.{Job}
use encodr.Jobs.Policies.{backup_listing_batch_size}
use encodr.Jobs.Backups.{
  drop, limited, offset_by, backup_exists, reached, scan_batch, scan_batches, or_zero, wants_none,
  list_backup_jobs, count_backup_jobs,
}
use encodr.Jobs.Backups.Listing.{
  take-drop, drop-drop, drop-nil, limited-nil, drop-short, empty_of_take, rest_of, answer, finished,
  going, scan_batch-answer,
}

-- With no rows left, what is collected is returned.
answer-end :
    (found : Job → Bool) (target : Option ℕ) (skip : ℕ) (collected : List Job)
    → answer found target skip collected [] ≡ collected
unfolding answer
answer-end found target skip collected =
    rw (drop-nil {A = Job} skip, limited-nil {A = Job} (rest_of target (length collected)))
      (append-nil collected)

-- A full batch leaves fewer rows.
shorter :
    (batch query_offset fuel : ℕ) (rows : List Job)
    → 0 < batch
    → ltb (length (take batch (drop query_offset rows))) batch ≡ false
    → length (drop query_offset rows) < suc fuel
    → length (drop (query_offset + batch) rows) < fuel
shorter batch query_offset fuel rows positive full enough =
    let left = drop query_offset rows in
    let sum =
      sym (length-append (take batch left) (drop batch left)) ∙ ap length (take-drop batch left) in
    let next = ap length (drop-drop batch query_offset rows) in ground (arith, sum, next)

scan_batches-answer :
    (fuel : ℕ) (found : Job → Bool) (target : Option ℕ) (batch skip : ℕ) (collected : List Job)
    (query_offset : ℕ) (rows : List Job)
    → 0 < batch
    → reached target (length collected) ≡ false
    → length (drop query_offset rows) < fuel
    → scan_batches fuel found target batch skip collected query_offset rows
      ≡ some (answer found target skip collected (drop query_offset rows))
unfolding scan_batches
scan_batches-answer zero found target batch skip collected query_offset rows positive h enough =
    absurd (omega arith)
scan_batches-answer (suc fuel) found target batch skip collected query_offset rows positive h
      enough =
    let left = drop query_offset rows in
    let candidates = take batch left in
    let split : answer found target skip collected left
        ≡ answer found target skip collected (candidates ++ drop batch left) =
      ap (answer found target skip collected) (sym (take-drop batch left)) in
    elim (Bool-cases (is_empty candidates)) [
      | inl e ↦
          rw (e, empty_of_take batch left positive e)
            (ap some (sym (answer-end found target skip collected)))
      | inr e ↦
          elim (scan_batch-answer found target skip collected candidates (drop batch left) h) [
            | finished over same ↦ rw (e, over) (ap some (sym (split ∙ same)))
            | going on room same ↦ elim (Bool-cases (ltb (length candidates) batch)) [
              | inl short ↦
                  rw (e, on, short)
                    (ap some (
                      sym (
                        split
                        ∙ same
                        ∙ ap
                            (answer found target
                              (scan_batch found target skip collected candidates).skip
                              (scan_batch found target skip collected candidates).collected)
                            (drop-short batch left (ground arith))
                        ∙ answer-end found target
                            (scan_batch found target skip collected candidates).skip
                            (scan_batch found target skip collected candidates).collected)))
              | inr full ↦
                  rw (e, on, full)
                    (scan_batches-answer fuel found target batch
                        (scan_batch found target skip collected candidates).skip
                        (scan_batch found target skip collected candidates).collected
                        (query_offset + batch) rows positive room
                        (shorter batch query_offset fuel rows positive full enough)
                      ∙ ap some (
                          sym (
                            split
                            ∙ same
                            ∙ ap
                                (answer found target
                                  (scan_batch found target skip collected candidates).skip
                                  (scan_batch found target skip collected candidates).collected)
                                (drop-drop batch query_offset rows))))
            ]
          ]
    ]

batch_size-positive : (limit : Option ℕ) → 0 < backup_listing_batch_size limit
unfolding backup_listing_batch_size
batch_size-positive none = omega arith
batch_size-positive (some n) = ground arith

drop_none : (rows : List Job) → drop 0 rows ≡ rows
unfolding drop
drop_none rows = refl

all_rows : (rows : List Job) → length (drop 0 rows) < length rows + 1
all_rows rows = omega (arith, ap length (drop_none rows))

-- The listing that the function stands for.
unfoldable visible : (String → Bool) → Option ℕ → Option ℕ → List Job → List Job
visible exists limit offset rows =
    limited limit (offset_by offset (filter (backup_exists exists) rows))

answer-visible :
    (exists : String → Bool) (limit offset : Option ℕ) (rows : List Job)
    → answer (backup_exists exists) limit (or_zero offset) [] rows
      ≡ visible exists limit offset rows
unfolding answer visible drop
answer-visible exists none none rows = refl
answer-visible exists none (some n) rows = refl
answer-visible exists (some m) none rows =
    ap (λ k. take k (filter (backup_exists exists) rows)) (omega arith)
answer-visible exists (some m) (some n) rows =
    ap (λ k. take k (drop n (filter (backup_exists exists) rows))) (omega arith)

limit_not_reached : (limit : Option ℕ) → wants_none limit ≡ false → reached limit 0 ≡ false
limit_not_reached none h = refl
limit_not_reached (some n) h = ground arith

visible-none :
    (exists : String → Bool) (limit offset : Option ℕ) (rows : List Job)
    → wants_none limit ≡ true
    → visible exists limit offset rows ≡ []
unfolding visible
visible-none exists none offset rows h = cc
visible-none exists (some n) offset rows h = let e : n ≡ 0 = ground arith in rw e refl

-- The listing in batches ends, and returns the jobs whose backup exists, in the order of the query, from the
-- offset on and up to the limit.
pub list_backup_jobs_lem :
    (exists : String → Bool) (limit offset : Option ℕ) (rows : List Job)
    → list_backup_jobs exists limit offset false rows
      ≡ some (limited limit (offset_by offset (filter (backup_exists exists) rows)))
unfolding list_backup_jobs visible
list_backup_jobs_lem exists limit offset rows = elim (Bool-cases (wants_none limit)) [
  | inl e ↦ rw e (ap some (sym (visible-none exists limit offset rows e)))
  | inr e ↦ rw e (
      scan_batches-answer (length rows + 1) (backup_exists exists) limit
        (backup_listing_batch_size limit) (or_zero offset) [] 0 rows (batch_size-positive limit)
        (limit_not_reached limit e) (all_rows rows)
      ∙ ap some (
          ap (answer (backup_exists exists) limit (or_zero offset) []) (drop_none rows)
          ∙ answer-visible exists limit offset rows))
]

-- The listing without limit or offset has as many jobs as the count.
pub count_backup_jobs_lem :
    (exists : String → Bool) (rows : List Job) {listed : List Job}
    → list_backup_jobs exists none none false rows ≡ some listed
    → length listed ≡ count_backup_jobs exists rows
unfolding count_backup_jobs
count_backup_jobs_lem exists rows {listed} e =
    let same : filter (backup_exists exists) rows ≡ listed =
      cc (sym (list_backup_jobs_lem exists none none rows) ∙ e) in
    ap length (sym same)
