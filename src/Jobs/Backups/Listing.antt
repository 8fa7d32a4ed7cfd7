-- ===== src/Jobs/Backups/Listing.antt =====
-- One batch in `list_backup_jobs` of packages/db/encodr_db/repositories/jobs.py, and what is left to be listed.
use mathlib.Core.List.{append-nil, append_assoc}
use encodr.Prelude.{
  ℕ, zero, suc, ◌+◌, ◌-◌, ◌<◌, ◌≡◌, refl, sym, ap, ◌∙◌, Bool, true, false, Option, none, some, List,
  [], ◌∷◌, ◌++◌, arith, is_empty, filter, length, take, length-append, Bool-cases, inl, inr,
}
use encodr.Jobs.Models.{Job}
use encodr.Jobs.Backups.{drop, limited, reached, Scan, scan_batch}

module _ {A : Type 0} where
  pub drop-nil : (n : ℕ) → drop {A = A} n [] ≡ []
  unfolding drop
  drop-nil zero = refl
  drop-nil (suc n) = refl

  pub limited-nil : (o : Option ℕ) → limited {A = A} o [] ≡ []
  limited-nil none = refl
  limited-nil (some zero) = refl
  limited-nil (some (suc n)) = refl

  pub take-drop : (n : ℕ) (xs : List A) → take n xs ++ drop n xs ≡ xs
  unfolding drop
  take-drop zero xs = refl
  take-drop (suc n) [] = refl
  take-drop (suc n) (x ∷ xs) = ap (λ t. x ∷ t) (take-drop n xs)

  pub drop-drop : (n m : ℕ) (xs : List A) → drop n (drop m xs) ≡ drop (m + n) xs
  unfolding drop
  drop-drop n zero xs = ap (λ k. drop k xs) (omega arith)
  drop-drop n (suc m) [] = drop-nil n ∙ sym (drop-nil (suc m + n))
  drop-drop n (suc m) (x ∷ xs) =
      let e : suc (m + n) ≡ suc m + n = omega arith in
      drop-drop n m xs ∙ ap (λ k. drop k (x ∷ xs)) e

  pub length-drop : (n : ℕ) (xs : List A) → length (drop n xs) ≡ length xs - n
  unfolding drop
  length-drop zero xs = omega arith
  length-drop (suc n) [] = omega arith
  length-drop (suc n) (x ∷ xs) = omega (arith, length-drop n xs)

  -- A short batch is the last.
  pub drop-short : (n : ℕ) (xs : List A) → length (take n xs) < n → drop n xs ≡ []
  unfolding drop
  drop-short zero xs h = absurd (omega arith)
  drop-short (suc n) [] h = refl
  drop-short (suc n) (x ∷ xs) h = drop-short n xs (omega arith)

  pub empty_of_take : (n : ℕ) (xs : List A) → 0 < n → is_empty (take n xs) ≡ true → xs ≡ []
  empty_of_take zero xs h e = absurd (omega arith)
  empty_of_take (suc n) [] h e = refl
  empty_of_take (suc n) (x ∷ xs) h e = absurd cc

-- The rest of the limit, when so many are collected.
abbrev pub rest_of : Option ℕ → ℕ → Option ℕ
rest_of none n = none
rest_of (some target) n = some (target - n)

module _ {A : Type 0} where
  limited-step :
      (target : Option ℕ) (n : ℕ) (x : A) (xs : List A)
      → reached target n ≡ false
      → limited (rest_of target n) (x ∷ xs) ≡ x ∷ limited (rest_of target (n + 1)) xs
  limited-step none n x xs h = refl
  limited-step (some target) n x xs h =
      let e : target - n ≡ suc (target - (n + 1)) = ground arith in rw e refl

  limited-reached :
      (target : Option ℕ) (n : ℕ) (xs : List A)
      → reached target n ≡ true
      → limited (rest_of target n) xs ≡ []
  limited-reached none n xs h = cc
  limited-reached (some target) n xs h = let e : target - n ≡ 0 = ground arith in rw e refl

-- What is to be returned when so much is collected and so much is to be skipped, and these rows are left.
unfoldable pub answer : (Job → Bool) → Option ℕ → ℕ → List Job → List Job → List Job
answer found target skip collected rows =
    collected ++ limited (rest_of target (length collected)) (drop skip (filter found rows))

pub data ScanAnswer (found : Job → Bool) (target : Option ℕ) (before : List Job) (rest : List Job)
    (s : Scan) : Type 0 where
  finished : s.done ≡ true → before ≡ s.collected → ScanAnswer found target before rest s
  going :
      s.done ≡ false
      → reached target (length s.collected) ≡ false
      → before ≡ answer found target s.skip s.collected rest
      → ScanAnswer found target before rest s

-- One more of the visible rows.
answer-step :
    (found : Job → Bool) (target : Option ℕ) (collected : List Job) (job : Job) (rows : List Job)
    → found job ≡ true
    → reached target (length collected) ≡ false
    → answer found target 0 collected (job ∷ rows)
      ≡ answer found target 0 (collected ++ job ∷ []) rows
unfolding answer drop
answer-step found target collected job rows f h =
    rw (f, limited-step target (length collected) job (filter found rows) h)
      (sym (
          append_assoc collected (job ∷ [])
            (limited (rest_of target (length collected + 1)) (filter found rows)))
        ∙ ap (λ n. (collected ++ job ∷ []) ++ limited (rest_of target n) (filter found rows))
            (sym (length-append collected (job ∷ []))))

pub answer-reached :
    (found : Job → Bool) (target : Option ℕ) (skip : ℕ) (collected rows : List Job)
    → reached target (length collected) ≡ true
    → answer found target skip collected rows ≡ collected
unfolding answer
answer-reached found target skip collected rows h =
    rw (limited-reached target (length collected) (drop skip (filter found rows)) h)
      (append-nil collected)

answer-hidden :
    (found : Job → Bool) (target : Option ℕ) (skip : ℕ) (collected : List Job) (job : Job)
    (rows : List Job)
    → found job ≡ false
    → answer found target skip collected (job ∷ rows) ≡ answer found target skip collected rows
unfolding answer
answer-hidden found target skip collected job rows e = rw e refl

answer-skipped :
    (found : Job → Bool) (target : Option ℕ) (skip : ℕ) (collected : List Job) (job : Job)
    (rows : List Job)
    → found job ≡ true
    → answer found target (suc skip) collected (job ∷ rows)
      ≡ answer found target skip collected rows
unfolding answer drop
answer-skipped found target skip collected job rows e = rw e refl

pub scan_batch-answer :
    (found : Job → Bool) (target : Option ℕ) (skip : ℕ) (collected batch rest : List Job)
    → reached target (length collected) ≡ false
    → ScanAnswer found target
        (answer found target skip collected (batch ++ rest))
        rest
        (scan_batch found target skip collected batch)
unfolding scan_batch
scan_batch-answer found target skip collected [] rest h = going refl h refl
scan_batch-answer found target zero collected (job ∷ batch) rest h = elim (Bool-cases (found job)) [
  | inr e ↦
      rw (scan_batch, e, answer-hidden found target 0 collected job (batch ++ rest) e)
        (scan_batch-answer found target 0 collected batch rest h)
  | inl e ↦ elim (Bool-cases (reached target (length (collected ++ job ∷ [])))) [
    | inl full ↦
        rw (scan_batch, e, full)
          (finished refl (
            answer-step found target collected job (batch ++ rest) e h
            ∙ answer-reached found target 0 (collected ++ job ∷ []) (batch ++ rest) full))
    | inr room ↦
        rw (scan_batch, e, room, answer-step found target collected job (batch ++ rest) e h)
          (scan_batch-answer found target 0 (collected ++ job ∷ []) batch rest room)
  ]
]
scan_batch-answer found target (suc n) collected (job ∷ batch) rest h =
    elim (Bool-cases (found job)) [
      | inr e ↦
          rw (scan_batch, e, answer-hidden found target (suc n) collected job (batch ++ rest) e)
            (scan_batch-answer found target (suc n) collected batch rest h)
      | inl e ↦
          rw (scan_batch, e, answer-skipped found target n collected job (batch ++ rest) e)
            (scan_batch-answer found target n collected batch rest h)
    ]
