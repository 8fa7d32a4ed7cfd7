-- ===== src/Planning/Best/Unique.antt =====
-- `select_best` chooses no stream twice where its languages are distinct, as those of `ordered_language_codes` of
-- packages/core/encodr_core/planning/selection.py are.
use encodr.Prelude.{
  ℕ, String, ◌≡◌, refl, sym, ap, ◌∙◌, true, false, Option, some, List, [], ◌∷◌, ◌++◌, map, Memᴰ,
  arith, Bool-cases, inl, inr, filter, str_eq, eq_iff, ==_iff, ◌==◌, contains, contains_text,
  Distinct, test_of_mem-filter, mem_of_mem-filter,
}
use encodr.Planning.Languages.{collect, language_code, ordered_language_codes, contains_text-append}
use encodr.Planning.Scores.{Key}
use encodr.Planning.Best.{add_best, add_best-mem, select_best, select_best-mem, max_from-mem}

abbrev pub DistinctTexts : List String → Type 0
DistinctTexts [] = Unit
DistinctTexts (x ∷ xs) = (contains_text xs x ≡ false) × DistinctTexts xs

append-DistinctTexts :
    (xs : List String) (s : String)
    → DistinctTexts xs
    → contains_text xs s ≡ false
    → DistinctTexts (xs ++ s ∷ [])
append-DistinctTexts [] s h fresh = (refl, tt)
append-DistinctTexts (x ∷ xs) s (first, h) fresh = elim (Bool-cases (str_eq x s)) [
  | inl e ↦ absurd (cc (simp e at fresh))
  | inr e ↦ elim (Bool-cases (str_eq s x)) [
    | inl f ↦ absurd (cc ((eq_iff x s).1 (sym ((eq_iff s x).0 f)), e))
    | inr f ↦ (
      contains_text-append xs (s ∷ []) x ∙ ground (arith, first, f),
      append-DistinctTexts xs s h (rw e at fresh),
    )
  ]
]

collect-DistinctTexts :
    (values : List (Option String)) (languages : List String)
    → DistinctTexts languages
    → DistinctTexts (collect languages values)
unfolding collect
collect-DistinctTexts [] languages h = h
collect-DistinctTexts (v ∷ values) languages h =
    elim (Bool-cases (contains_text languages (language_code v))) [
      | inl e ↦ rw e (collect-DistinctTexts values languages h)
      | inr e ↦ rw e (
          collect-DistinctTexts values (languages ++ language_code v ∷ [])
            (append-DistinctTexts languages (language_code v) h e))
    ]

pub ordered_language_codes-DistinctTexts :
    (languages : List String) → DistinctTexts (ordered_language_codes languages)
unfolding ordered_language_codes
ordered_language_codes-DistinctTexts languages = collect-DistinctTexts (map some languages) [] tt

module _ {A : Type 0} (language : A → String) (key : A → Key) (index : A → ℕ) where
  select_best_language :
      (streams : List A) (ls : List String) {a : A}
      → Memᴰ a (select_best language key streams ls)
      → contains_text ls (language a) ≡ true
  unfolding select_best
  select_best_language streams [] m = elim m [ ]
  select_best_language streams (l ∷ ls) {a} m =
      elim (add_best-mem language key (filter (λ s. str_eq (language s) l) streams)
        (select_best language key streams ls) m) [
          | inl c ↦
              let e =
                (eq_iff (language a) l).0
                  (test_of_mem-filter (λ s. str_eq (language s) l) streams c) in
              ground (arith, (eq_iff l (language a)).1 (sym e))
          | inr r ↦ ground (arith, select_best_language streams ls r)
        ]

  -- An index of a list is that of an element.
  pub mem_of_contains-index :
      (xs : List A) (i : ℕ) → contains (map index xs) i ≡ true → (a : A) × Memᴰ a xs × (index a ≡ i)
  mem_of_contains-index [] i h = cc
  mem_of_contains-index (x ∷ xs) i h = elim (Bool-cases (index x == i)) [
    | inl e ↦ (x, Memᴰ.head refl, (==_iff (index x) i).0 e)
    | inr e ↦ let (a, m, same) = mem_of_contains-index xs i (rw e at h) in (a, Memᴰ.tail m, same)
  ]

  add_best-Distinct :
      (candidates rest : List A)
      → Distinct (map index rest)
      → ((a : A) → Memᴰ a candidates → contains (map index rest) (index a) ≡ false)
      → Distinct (map index (add_best language key candidates rest))
  unfolding add_best
  add_best-Distinct [] rest h fresh = h
  add_best-Distinct (s ∷ ss) rest h fresh = (fresh _ (max_from-mem key s ss), h)

  pub select_best-Distinct :
      (streams : List A) (ls : List String)
      → ((a b : A) → Memᴰ a streams → Memᴰ b streams → index a ≡ index b → a ≡ b)
      → DistinctTexts ls
      → Distinct (map index (select_best language key streams ls))
  unfolding select_best
  select_best-Distinct streams [] one h = tt
  select_best-Distinct streams (l ∷ ls) one (fresh, h) =
      let rest = select_best language key streams ls in
      let candidates = filter (λ s. str_eq (language s) l) streams in
      add_best-Distinct candidates rest (select_best-Distinct streams ls one h) (λ a m.
        elim (Bool-cases (contains (map index rest) (index a))) [
          | inr e ↦ e
          | inl e ↦
              let (b, k, same) = mem_of_contains-index rest (index a) e in
              let whole =
                one b a (select_best-mem language key streams ls k)
                  (mem_of_mem-filter (λ s. str_eq (language s) l) streams m) same in
              let own =
                (eq_iff (language a) l).0
                  (test_of_mem-filter (λ s. str_eq (language s) l) streams m) in
              absurd (
                cc (
                  sym (ap (contains_text ls) (ap language whole ∙ own))
                      ∙ select_best_language streams ls k,
                  fresh,
                ))
        ])
