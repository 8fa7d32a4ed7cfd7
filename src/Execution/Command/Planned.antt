-- ===== src/Execution/Command/Planned.antt =====
-- The streams of a source that a list of mapped indices names, as the verifier looks them up.
use encodr.Prelude.{
  ℕ, ◌≡◌, refl, ap, false, none, List, [], ◌∷◌, ◌++◌, length, All, is_none, Option-cases, inl, inr,
  suc,
}
use encodr.Verification.Rules.{by_index, planned_streams}

module _ {A : Type 0} (index : A → ℕ) (streams : List A) where
  -- The own indices are of these streams, and the others are not.
  abbrev pub Named : List ℕ → Type 0
  Named own = All (λ i. is_none (by_index index streams i) ≡ false) own

  abbrev pub Foreign : List ℕ → Type 0
  Foreign others = All (λ i. by_index index streams i ≡ none) others

  pub planned-Foreign :
      (others rest : List ℕ)
      → Foreign others
      → planned_streams index streams (others ++ rest) ≡ planned_streams index streams rest
  unfolding planned_streams
  planned-Foreign [] rest h = refl
  planned-Foreign (i ∷ is) rest (absent, h) = simp absent (planned-Foreign is rest h)

  pub planned_own :
      (own others : List ℕ)
      → Foreign others
      → planned_streams index streams (own ++ others) ≡ planned_streams index streams own
  unfolding planned_streams
  planned_own [] [] h = refl
  planned_own [] (i ∷ is) (absent, h) = simp absent (planned_own [] is h)
  planned_own (i ∷ is) others h = elim (Option-cases (by_index index streams i)) [
    | inl absent ↦ simp absent (planned_own is others h)
    | inr (s, found) ↦ simp found (ap (λ t. s ∷ t) (planned_own is others h))
  ]

  pub length-planned :
      (own : List ℕ) → Named own → length (planned_streams index streams own) ≡ length own
  unfolding planned_streams
  length-planned [] h = refl
  length-planned (i ∷ is) (there, h) = elim (Option-cases (by_index index streams i)) [
    | inl absent ↦ absurd (cc (rw absent at there))
    | inr (s, found) ↦ simp found (ap suc (length-planned is h))
  ]
