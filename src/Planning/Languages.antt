-- ===== src/Planning/Languages.antt =====
-- The language helpers of packages/core/encodr_core/planning/selection.py.
use mathlib.Core.List.Memᴰ
use encodr.Prelude.{
  Memᴰ, ℕ, String, ◌≡◌, refl, Bool, true, false, ◌||◌, Option, none, some, List, [], ◌∷◌, ◌++◌, map,
  arith, if◌then◌else◌, length, length-append, length-map, ◌≤◌, ◌+◌, contains_text, str_eq, eq_refl,
  eq_iff, sym, ap, ◌∙◌, ◌⊎◌, Bool-cases, inl, inr,
}

-- `value or "und"`
unfoldable pub language_code : Option String → String
language_code none = "und"
language_code (some value) = if str_eq value "" then "und" else value

-- The loop of `ordered_language_codes` and of `unique_languages`.
unfoldable pub collect : List String → List (Option String) → List String
collect languages [] = languages
collect languages (value ∷ values) =
    let language = language_code value in
    collect (if contains_text languages language then languages else languages ++ language ∷ [])
      values

unfoldable pub unique_languages : List (Option String) → List String
unfolding collect
unique_languages values = collect [] values

unfoldable pub ordered_language_codes : List String → List String
unfolding collect
ordered_language_codes languages = collect [] (map some languages)

-- The dictionary of `language_ranks`: the first language has the highest rank.
unfoldable pub rank_entries : List String → List (String × ℕ)
rank_entries [] = []
rank_entries (language ∷ rest) = (language, length (language ∷ rest)) ∷ rank_entries rest

unfoldable pub language_ranks : List String → List (String × ℕ)
unfolding rank_entries ordered_language_codes
language_ranks languages = rank_entries (ordered_language_codes languages)

-- `ranks.get(language, 0)`
unfoldable pub rank_of : List (String × ℕ) → String → ℕ
rank_of [] language = 0
rank_of ((key, rank) ∷ ranks) language =
    if str_eq key language then rank else rank_of ranks language

-- `language in set(ranks)`
unfoldable pub is_ranked : List (String × ℕ) → String → Bool
is_ranked [] language = false
is_ranked ((key, rank) ∷ ranks) language = str_eq key language || is_ranked ranks language

-- A language is ranked exactly when it is listed.
pub is_ranked-rank_entries :
    (languages : List String) (l : String)
    → is_ranked (rank_entries languages) l ≡ contains_text languages l
unfolding is_ranked rank_entries
is_ranked-rank_entries [] l = refl
is_ranked-rank_entries (k ∷ ks) l = ground (arith, is_ranked-rank_entries ks l)

pub contains_text-append :
    (xs ys : List String) (s : String)
    → contains_text (xs ++ ys) s ≡ (contains_text xs s || contains_text ys s)
contains_text-append [] ys s = refl
contains_text-append (x ∷ xs) ys s = ground (arith, contains_text-append xs ys s)

-- What has been collected stays.
pub collect_keeps :
    (values : List (Option String)) (languages : List String) (l : String)
    → contains_text languages l ≡ true
    → contains_text (collect languages values) l ≡ true
unfolding collect
collect_keeps [] languages l h = h
collect_keeps (v ∷ vs) languages l h =
    elim (Bool-cases (contains_text languages (language_code v))) [
      | inl e ↦ rw e (collect_keeps vs languages l h)
      | inr e ↦
          rw e
            (collect_keeps vs (languages ++ language_code v ∷ []) l (rw (contains_text-append, h)))
    ]

-- Each language that occurs is collected.
collect_head :
    (values : List (Option String)) (languages : List String) (v : Option String)
    → contains_text (collect languages (v ∷ values)) (language_code v) ≡ true
unfolding collect
collect_head values languages v = elim (Bool-cases (contains_text languages (language_code v))) [
  | inl e ↦ rw e (collect_keeps values languages (language_code v) e)
  | inr e ↦ rw e (
      collect_keeps values (languages ++ language_code v ∷ []) (language_code v)
        (rw (contains_text-append, e, eq_refl)))
]

pub collect_takes :
    (values : List (Option String)) (languages : List String) {v : Option String}
    → Memᴰ v values
    → contains_text (collect languages values) (language_code v) ≡ true
unfolding collect
collect_takes [] languages m = elim m [ ]
collect_takes (w ∷ values) languages {v} m = elim (Memᴰ.cases_cons m) [
  | inl e ↦ rw e (collect_head values languages w)
  | inr r ↦
      collect_takes values
        (if contains_text languages (language_code w)
          then languages
          else languages ++ language_code w ∷ [])
        r
]

pub mem_of_contains_text : (xs : List String) (s : String) → contains_text xs s ≡ true → Memᴰ s xs
mem_of_contains_text [] s h = cc
mem_of_contains_text (x ∷ xs) s h = elim (Bool-cases (str_eq x s)) [
  | inl e ↦ Memᴰ.head (sym ((eq_iff x s).0 e))
  | inr e ↦ Memᴰ.tail (mem_of_contains_text xs s (rw e at h))
]

pub contains_text_of_mem : (xs : List String) {s : String} → Memᴰ s xs → contains_text xs s ≡ true
contains_text_of_mem [] m = elim m [ ]
contains_text_of_mem (x ∷ xs) {s} m = elim (Memᴰ.cases_cons m) [
  | inl e ↦ rw (e, eq_refl)
  | inr r ↦ ground (arith, contains_text_of_mem xs r)
]

pub language_code_idem :
    (v : Option String) → language_code (some (language_code v)) ≡ language_code v
unfolding language_code
language_code_idem none = refl
language_code_idem (some value) = elim (Bool-cases (str_eq value "")) [
  | inl e ↦ rw e
  | inr e ↦ rw (e, e)
]

-- `l` is the code of a language of the list.
pub data Listed (languages : List String) (l : String) : Type 0 where
  listed : (k : String) → Memᴰ k languages → language_code (some k) ≡ l → Listed languages l

mem-map_some : (ls : List String) {k : String} → Memᴰ k ls → Memᴰ (some k) (map some ls)
mem-map_some ls m = Memᴰ.map some m

-- `l` is the code of one of the values.
data Collected (values : List (Option String)) (l : String) : Type 0 where
  collected : (v : Option String) → Memᴰ v values → language_code v ≡ l → Collected values l

-- What is collected is the code of a value, or was there before.
collect_only :
    (values : List (Option String)) (languages : List String) (l : String)
    → contains_text (collect languages values) l ≡ true
    → (contains_text languages l ≡ true) ⊎ Collected values l
unfolding collect
collect_only [] languages l h = inl h
collect_only (v ∷ vs) languages l h =
    elim (Bool-cases (contains_text languages (language_code v))) [
      | inl e ↦ old (collect_only vs languages l (rw e at h))
      | inr e ↦ new (collect_only vs (languages ++ language_code v ∷ []) l (rw e at h))
    ]
  where
    old :
        (contains_text languages l ≡ true) ⊎ Collected vs l
        → (contains_text languages l ≡ true) ⊎ Collected (v ∷ vs) l
    old (inl k) = inl k
    old (inr (collected k m e)) = inr (collected k (Memᴰ.tail m) e)

    split :
        (contains_text languages l || contains_text (language_code v ∷ []) l) ≡ true
        → (contains_text languages l ≡ true) ⊎ (str_eq (language_code v) l ≡ true)
    split k = ground arith

    new :
        (contains_text (languages ++ language_code v ∷ []) l ≡ true) ⊎ Collected vs l
        → (contains_text languages l ≡ true) ⊎ Collected (v ∷ vs) l
    new (inr (collected k m e)) = inr (collected k (Memᴰ.tail m) e)
    new (inl k) = elim (split (rw contains_text-append at k)) [
      | inl p ↦ inl p
      | inr q ↦ inr (collected v (Memᴰ.head refl) ((eq_iff (language_code v) l).0 q))
    ]

Listed-of_Collected : (ls : List String) (l : String) → Collected (map some ls) l → Listed ls l
Listed-of_Collected ls l (collected v m e) =
    let (k, p, q) = Memᴰ.of_map some ls m in listed k p (ap language_code q ∙ e)

-- The ordered codes are exactly the codes of the list.
pub ordered_takes :
    (ls : List String) (l : String)
    → Listed ls l
    → contains_text (ordered_language_codes ls) l ≡ true
unfolding ordered_language_codes
ordered_takes ls l (listed k m e) = rw (← e) (collect_takes (map some ls) [] (mem-map_some ls m))

pub ordered_only :
    (ls : List String) (l : String)
    → contains_text (ordered_language_codes ls) l ≡ true
    → Listed ls l
unfolding ordered_language_codes
ordered_only ls l h = elim (collect_only (map some ls) [] l h) [
  | inl k ↦ cc
  | inr p ↦ Listed-of_Collected ls l p
]

-- Ordering the codes again changes nothing: they are the same languages.
pub ordered_again :
    (ls : List String) (l : String)
    → Listed ls l
    → contains_text (ordered_language_codes (ordered_language_codes ls)) l ≡ true
ordered_again ls l (listed k m e) = ordered_takes (ordered_language_codes ls) l (
    listed l
      (mem_of_contains_text (ordered_language_codes ls) l (ordered_takes ls l (listed k m e)))
      (rw (← e) (language_code_idem (some k))))

pub ordered_again_only :
    (ls : List String) (l : String)
    → contains_text (ordered_language_codes (ordered_language_codes ls)) l ≡ true
    → Listed ls l
ordered_again_only ls l h = go (ordered_only (ordered_language_codes ls) l h)
  where
    back : (k : String) → language_code (some k) ≡ l → Listed ls k → Listed ls l
    back k e (listed j m f) =
        listed j m (sym (language_code_idem (some j)) ∙ ap (λ t. language_code (some t)) f ∙ e)

    go : Listed (ordered_language_codes ls) l → Listed ls l
    go (listed k m e) =
        back k e (ordered_only ls k (contains_text_of_mem (ordered_language_codes ls) m))

-- A language has a rank exactly when it is listed.
pub is_ranked-language_ranks :
    (ls : List String) (l : String)
    → is_ranked (language_ranks ls) l ≡ contains_text (ordered_language_codes ls) l
unfolding language_ranks
is_ranked-language_ranks ls l = is_ranked-rank_entries (ordered_language_codes ls) l

length-collect :
    (values : List (Option String)) (languages : List String)
    → length (collect languages values) ≤ length languages + length values
unfolding collect
length-collect [] languages = omega arith
length-collect (v ∷ vs) languages = elim (Bool-cases (contains_text languages (language_code v))) [
  | inl e ↦ rw e (omega (arith, length-collect vs languages))
  | inr e ↦ rw e (
      omega (
        arith,
        length-collect vs (languages ++ language_code v ∷ []),
        length-append languages (language_code v ∷ []),
      ))
]

-- Ordering the codes makes no more of them.
pub length-ordered_language_codes :
    (ls : List String) → length (ordered_language_codes ls) ≤ length ls
unfolding ordered_language_codes
length-ordered_language_codes ls =
    omega (arith, length-collect (map some ls) [], length-map some ls)
