-- ===== src/Execution/Command/Defaults.antt =====
-- The dispositions that a command sets, as the verifier of packages/core/encodr_core/verification looks for them.
use encodr.Prelude.{
  Distinct, ℕ, suc, ◌+◌, ◌<◌, String, ◌≡◌, refl, sym, ap, ◌∙◌, Bool, true, false, Option, none,
  some, List, [], ◌∷◌, map, if◌then◌else◌, ◌==◌, ==_refl, ==_iff, arith, length, All, contains,
  Bool-cases, Option-cases, inl, inr, str_eq,
}
use encodr.Verification.Rules.{
  position, only_default, no_default, primary_default_matches, main_default_matches,
}
use encodr.Execution.Command.{is_index, or_first}
use encodr.Execution.Command.Reading.{numbered}

-- The element at place `m` of a list that is counted from `n`.
abbrev pub nth_from : ℕ → ℕ → List Bool → Option Bool
nth_from n m [] = none
nth_from n m (d ∷ ds) = let rest = nth_from (suc n) m ds in if m == n then some d else rest

-- The outputs of these numbers have the mark of the value.
abbrev pub Set : String → List (ℕ × String) → ℕ → List Bool → Type 0
Set mark settings n ds =
    All (λ (e : ℕ × String). nth_from n e.0 ds ≡ some (str_eq e.1 mark)) settings

module _ (mark : String) (value : ℕ → String) where
  -- What is set of later outputs does not depend on the first.
  later :
      (n k : ℕ) (d : Bool) (ds : List Bool) (is : List ℕ)
      → n < k
      → Set mark (numbered value k is) n (d ∷ ds)
      → Set mark (numbered value k is) (suc n) ds
  later n k d ds [] above h = h
  later n k d ds (i ∷ is) above (first, rest) =
      let other : (k == n) ≡ false = ground arith in
      (rw other at first, later n (suc k) d ds is (omega arith) rest)

  -- Where as many outputs are there as values, the marks are those of the values.
  pub marks_lem :
      (n : ℕ) (ds : List Bool) (is : List ℕ)
      → length ds ≡ length is
      → Set mark (numbered value n is) n ds
      → ds ≡ map (λ i. str_eq (value i) mark) is
  marks_lem n [] [] h set = refl
  marks_lem n [] (i ∷ is) h set = cc
  marks_lem n (d ∷ ds) [] h set = cc
  marks_lem n (d ∷ ds) (i ∷ is) h (first, rest) =
      let head : some d ≡ some (str_eq (value i) mark) = rw (==_refl n) at first in
      let bit : d ≡ str_eq (value i) mark = cc head in
      ap (λ b. b ∷ ds) bit
      ∙ ap (λ t. str_eq (value i) mark ∷ t)
          (marks_lem (suc n) ds is (omega (arith, h)) (later n (suc n) d ds is (omega arith) rest))

-- Only one place is the default, and it lies before.
only_default_before :
    (place n primary : ℕ) (is : List ℕ)
    → place < n
    → contains is primary ≡ false
    → only_default place n (map (λ i. i == primary) is) ≡ true
unfolding only_default
only_default_before place n primary [] before h = refl
only_default_before place n primary (i ∷ is) before h =
    ground (arith, only_default_before place (suc n) primary is (omega arith))

-- The mark of the primary index stands at its position alone.
pub only_default_lem :
    (n place primary : ℕ) (is : List ℕ)
    → Distinct is
    → {k : ℕ} → position is primary ≡ some k
    → place ≡ n + k
    → only_default place n (map (λ i. i == primary) is) ≡ true
unfolding only_default position
only_default_lem n place primary [] distinct at e = refl
only_default_lem n place primary (i ∷ is) (fresh, distinct) {k} at e =
    elim (Bool-cases (i == primary)) [
      | inl same ↦
          let start : some 0 ≡ some k = rw same at at in
          let first : 0 ≡ k = cc start in
          let absent : contains is primary ≡ false =
            sym (ap (contains is) ((==_iff i primary).0 same)) ∙ fresh in
          ground (arith, only_default_before place (suc n) primary is (omega arith) absent)
      | inr other ↦ elim (Option-cases (position is primary)) [
        | inl missing ↦ absurd (cc (rw (other, missing) at at))
        | inr (j, found) ↦
            let next : some (suc j) ≡ some k = rw (other, found) at at in
            let above : suc j ≡ k = cc next in
            ground (arith, only_default_lem (suc n) place primary is distinct found (omega arith))
      ]
    ]

-- A value that is listed has a position.
pub position_of_contains :
    (is : List ℕ) (i : ℕ) → contains is i ≡ true → (k : ℕ) × (position is i ≡ some k)
unfolding position
position_of_contains [] i h = cc
position_of_contains (x ∷ xs) i h = elim (Bool-cases (x == i)) [
  | inl same ↦ (0, rw same refl)
  | inr other ↦
      let (k, found) = position_of_contains xs i (rw other at h) in (suc k, rw (other, found) refl)
]

-- An index that may be missing is in the list where it is there.
abbrev pub Listed : Option ℕ → List ℕ → Type 0
Listed none is = Unit
Listed (some i) is = contains is i ≡ true

pub primary_default_lem :
    (primary : Option ℕ) (is : List ℕ) (ds : List Bool)
    → Distinct is
    → Listed primary is
    → ds ≡ map (λ i. is_index (or_first primary is) i) is
    → primary_default_matches primary is ds ≡ true
primary_default_lem primary [] ds distinct listed e = rw e refl
primary_default_lem none (i ∷ is) ds distinct listed e =
    let (k, found) = position_of_contains (i ∷ is) i (rw (==_refl i) refl) in
    rw (found, e) (only_default_lem 0 k i (i ∷ is) distinct found (omega arith))
primary_default_lem (some p) (i ∷ is) ds distinct listed e =
    let (k, found) = position_of_contains (i ∷ is) p listed in
    rw (found, e) (only_default_lem 0 k p (i ∷ is) distinct found (omega arith))

none_default : (is : List ℕ) → no_default (map (λ i. false) is) ≡ true
none_default [] = refl
none_default (i ∷ is) = none_default is

pub main_default_lem :
    (main : Option ℕ) (is : List ℕ) (ds : List Bool)
    → Distinct is
    → Listed main is
    → ds ≡ map (λ i. is_index main i) is
    → main_default_matches main is ds ≡ true
main_default_lem none is ds distinct listed e = rw e (none_default is)
main_default_lem (some p) is ds distinct listed e =
    let (k, found) = position_of_contains is p listed in
    rw (found, e) (only_default_lem 0 k p is distinct found (omega arith))
