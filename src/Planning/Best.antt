-- ===== src/Planning/Best.antt =====
-- `select_best_audio_by_language` and `select_best_subtitle_by_language` of
-- packages/core/encodr_core/planning/selection.py: one loop, over a language and a key of a stream.
pub mod Unique
use mathlib.Core.List.Memᴰ
use encodr.Prelude.{
  suc, ◌≤◌, String, ◌≡◌, refl, Bool, true, false, List, [], ◌∷◌, Memᴰ, arith, if◌then◌else◌,
  Bool-cases, inl, inr, filter, length, str_eq, eq_iff, mem_of_mem-filter, test_of_mem-filter,
  mem-filter_of_mem, contains_text, ◌⊎◌, ◌∙◌, sym,
}
use encodr.Planning.Scores.{Key, key_lt, max_from, key_lt_refl, key_lt_trans, key_lt_asym}

module _ {ℓ} {A : Type ℓ} (key : A → Key) where
  max_step :
      (best x : A) → key_lt (key (if key_lt (key best) (key x) then x else best)) (key best) ≡ false
  max_step best x = elim (Bool-cases (key_lt (key best) (key x))) [
    | inl e ↦ rw e (key_lt_asym (key best) (key x) e)
    | inr e ↦ rw e (key_lt_refl (key best))
  ]

  max_step_right :
      (best x : A) → key_lt (key (if key_lt (key best) (key x) then x else best)) (key x) ≡ false
  max_step_right best x = elim (Bool-cases (key_lt (key best) (key x))) [
    | inl e ↦ rw e (key_lt_refl (key x))
    | inr e ↦ rw e e
  ]

  pub max_from-ge_best :
      (best : A) (xs : List A) → key_lt (key (max_from key best xs)) (key best) ≡ false
  unfolding max_from
  max_from-ge_best best [] = key_lt_refl (key best)
  max_from-ge_best best (x ∷ xs) =
      let next = if key_lt (key best) (key x) then x else best in
      key_lt_trans (key (max_from key next xs)) (key next) (key best) (max_from-ge_best next xs)
        (max_step best x)

  pub max_from-ge_mem :
      (best : A) (xs : List A) {a : A}
      → Memᴰ a xs
      → key_lt (key (max_from key best xs)) (key a) ≡ false
  unfolding max_from
  max_from-ge_mem best [] m = elim m [ ]
  max_from-ge_mem best (x ∷ xs) {a} m =
      let next = if key_lt (key best) (key x) then x else best in
      elim (Memᴰ.cases_cons m) [
        | inl e ↦ rw e (
            key_lt_trans (key (max_from key next xs)) (key next) (key x) (max_from-ge_best next xs)
              (max_step_right best x))
        | inr r ↦ max_from-ge_mem next xs r
      ]

  -- The greatest is one of the candidates.
  pub max_from-mem : (best : A) (xs : List A) → Memᴰ (max_from key best xs) (best ∷ xs)
  unfolding max_from
  max_from-mem best [] = Memᴰ.head refl
  max_from-mem best (x ∷ xs) = elim (Bool-cases (key_lt (key best) (key x))) [
    | inl e ↦ rw e (Memᴰ.tail (max_from-mem x xs))
    | inr e ↦ rw e (elim (Memᴰ.cases_cons (max_from-mem best xs)) [
      | inl p ↦ Memᴰ.head p
      | inr r ↦ Memᴰ.tail (Memᴰ.tail r)
    ])
  ]

module _ {ℓ} {A : Type ℓ} (language : A → String) (key : A → Key) where
  abbrev of_language : String → A → Bool
  of_language l s = str_eq (language s) l

  -- The body of the loop: the best of the streams in one language, if there are any.
  pub add_best : List A → List A → List A
  add_best [] rest = rest
  add_best (s ∷ ss) rest = max_from key s ss ∷ rest

  unfoldable pub select_best : List A → List String → List A
  unfolding add_best
  select_best streams [] = []
  select_best streams (l ∷ ls) = add_best (filter (of_language l) streams) (select_best streams ls)

  length-add_best :
      (candidates rest : List A) → length (add_best candidates rest) ≤ suc (length rest)
  unfolding add_best
  length-add_best [] rest = omega arith
  length-add_best (s ∷ ss) rest = omega arith

  -- At most one stream is chosen for each language.
  pub length-select_best :
      (streams : List A) (ls : List String) → length (select_best streams ls) ≤ length ls
  unfolding select_best
  length-select_best streams [] = omega arith
  length-select_best streams (l ∷ ls) = omega (
    arith,
    length-select_best streams ls,
    length-add_best (filter (of_language l) streams) (select_best streams ls),
  )

  pub add_best-mem :
      (candidates rest : List A) {a : A}
      → Memᴰ a (add_best candidates rest)
      → Memᴰ a candidates ⊎ Memᴰ a rest
  unfolding add_best
  add_best-mem [] rest m = inr m
  add_best-mem (s ∷ ss) rest m = elim (Memᴰ.cases_cons m) [
    | inl e ↦ inl (Memᴰ.cast e (max_from-mem key s ss))
    | inr r ↦ inr r
  ]

  pub select_best-mem :
      (streams : List A) (ls : List String) {a : A}
      → Memᴰ a (select_best streams ls)
      → Memᴰ a streams
  unfolding select_best
  select_best-mem streams [] m = elim m [ ]
  select_best-mem streams (l ∷ ls) m =
      elim (add_best-mem (filter (of_language l) streams) (select_best streams ls) m) [
        | inl c ↦ mem_of_mem-filter (of_language l) streams c
        | inr r ↦ select_best-mem streams ls r
      ]

  add_best-rest :
      (candidates : List A) {rest : List A} {a : A}
      → Memᴰ a rest
      → Memᴰ a (add_best candidates rest)
  unfolding add_best
  add_best-rest [] m = m
  add_best-rest (s ∷ ss) m = Memᴰ.tail m

  -- What is chosen from candidates is a candidate that none of them beats.
  add_best-best :
      (candidates rest : List A) {a : A}
      → Memᴰ a candidates
      → (b : A) × Memᴰ b (add_best candidates rest)
        × Memᴰ b candidates
        × (key_lt (key b) (key a) ≡ false)
  unfolding add_best
  add_best-best [] rest m = elim m [ ]
  add_best-best (s ∷ ss) rest {a} m = (
    max_from key s ss,
    Memᴰ.head refl,
    max_from-mem key s ss,
    elim (Memᴰ.cases_cons m) [
      | inl e ↦ rw e (max_from-ge_best key s ss)
      | inr r ↦ max_from-ge_mem key s ss r
    ],
  )

  -- For every stream in a listed language one in that language is chosen that it does not beat.
  pub select_best-best :
      (streams : List A) (ls : List String) {a : A}
      → Memᴰ a streams
      → contains_text ls (language a) ≡ true
      → (b : A) × Memᴰ b (select_best streams ls)
        × (language b ≡ language a)
        × (key_lt (key b) (key a) ≡ false)
  unfolding select_best
  select_best-best streams [] m h = cc
  select_best-best streams (l ∷ ls) {a} m h = elim (Bool-cases (str_eq (language a) l)) [
    | inl e ↦
        let (b, chosen, candidate, best) =
          add_best-best (filter (of_language l) streams) (select_best streams ls)
            (mem-filter_of_mem (of_language l) streams m e) in
        (
          b,
          chosen,
          ((eq_iff (language b) l).0 (test_of_mem-filter (of_language l) streams candidate))
              ∙ sym ((eq_iff (language a) l).0 e),
          best,
        )
    | inr e ↦
        let (b, chosen, same, best) =
          select_best-best streams ls m
            (ground (arith, eq_iff l (language a), eq_iff (language a) l)) in
        (b, add_best-rest (filter (of_language l) streams) chosen, same, best)
  ]
