-- ===== src/Prelude/Lists.antt =====
-- Lists measured by native numbers and filtered by Boolean tests, under the library's names.
use Prim.Native.Nat.{ℕ, zero, suc, ◌+◌, ◌<◌, ◌≤◌}
use mathlib.Core.Path.{◌≡◌, refl, ap}
use mathlib.Core.Logic.{◌⊎◌, inl, inr}
use mathlib.Core.Bool.{Bool, true, false, not, ◌&&◌, ◌||◌}
use mathlib.Core.Option.{Option, none, some}
use mathlib.Core.List.Memᴰ
use mathlib.Core.List.{List, [], ◌∷◌, ◌++◌, map, Memᴰ}
use native.Mathlib.Omega.{arith}
use encodr.Prelude.Tests.{is_none, if◌then◌else◌, Bool-cases, ◌==◌, ==_iff}

module _ {ℓ} {A : Type ℓ} where
  abbrev pub length : List A → ℕ
  length [] = 0
  length (x ∷ xs) = suc (length xs)

  abbrev pub take : ℕ → List A → List A
  take zero xs = []
  take (suc n) [] = []
  take (suc n) (x ∷ xs) = x ∷ take n xs

  abbrev pub filter : (A → Bool) → List A → List A
  filter p [] = []
  filter p (x ∷ xs) = let rest = filter p xs in if p x then x ∷ rest else rest

  abbrev pub any : (A → Bool) → List A → Bool
  any p [] = false
  any p (x ∷ xs) = p x || any p xs

  abbrev pub all : (A → Bool) → List A → Bool
  all p [] = true
  all p (x ∷ xs) = p x && all p xs

  -- Python's truth value of a list.
  abbrev pub is_empty : List A → Bool
  is_empty [] = true
  is_empty (x ∷ xs) = false

  abbrev pub head? : List A → Option A
  head? [] = none
  head? (x ∷ xs) = some x

  -- Every element has the property.
  abbrev pub All {κ} : (A → Type κ) → List A → Type κ
  All P [] = Unit
  All P (x ∷ xs) = P x × All P xs

  pub length-filter : (p : A → Bool) (xs : List A) → length (filter p xs) ≤ length xs
  length-filter p [] = omega arith
  length-filter p (x ∷ xs) = ground (arith, length-filter p xs)

  pub length-take_le : (n : ℕ) (xs : List A) → length (take n xs) ≤ n
  length-take_le zero xs = omega arith
  length-take_le (suc n) [] = omega arith
  length-take_le (suc n) (x ∷ xs) = omega (arith, length-take_le n xs)

  -- A prefix at least as long as the list is the list.
  pub take_all : (n : ℕ) (xs : List A) → length xs ≤ n → take n xs ≡ xs
  take_all zero [] h = refl
  take_all zero (x ∷ xs) h = absurd (omega arith)
  take_all (suc n) [] h = refl
  take_all (suc n) (x ∷ xs) h = ap (λ t. x ∷ t) (take_all n xs (omega arith))

-- Membership and filters.
module _ {ℓ} {A : Type ℓ} where
  mem-if :
      (b : Bool) {a x : A} {rest xs : List A}
      → (Memᴰ a rest → Memᴰ a xs)
      → Memᴰ a (if b then x ∷ rest else rest)
      → ((a ≡ x) × (b ≡ true)) ⊎ Memᴰ a xs
  mem-if true f m = elim (Memᴰ.cases_cons m) [ inl e ↦ inl (e, refl) | inr r ↦ inr (f r) ]
  mem-if false f m = inr (f m)

  -- A member of a conditional list, with the test.
  pub mem_of_if :
      (b : Bool) {a : A} {xs ys : List A}
      → Memᴰ a (if b then xs else ys)
      → ((b ≡ true) × Memᴰ a xs) ⊎ ((b ≡ false) × Memᴰ a ys)
  mem_of_if true m = inl (refl, m)
  mem_of_if false m = inr (refl, m)

  pub mem-if_both :
      (b : Bool) {a : A} {xs ys : List A} → Memᴰ a xs → Memᴰ a ys → Memᴰ a (if b then xs else ys)
  mem-if_both true m n = m
  mem-if_both false m n = n

  -- What a filter keeps is in the list and passes the test.
  pub mem_of_mem-filter : (p : A → Bool) {a : A} (xs : List A) → Memᴰ a (filter p xs) → Memᴰ a xs
  mem_of_mem-filter p [] m = m
  mem_of_mem-filter p (x ∷ xs) m = elim (mem-if (p x) (mem_of_mem-filter p xs) m) [
    | inl e ↦ Memᴰ.head e.0
    | inr r ↦ Memᴰ.tail r
  ]

  pub test_of_mem-filter : (p : A → Bool) {a : A} (xs : List A) → Memᴰ a (filter p xs) → p a ≡ true
  test_of_mem-filter p [] m = elim m [ ]
  test_of_mem-filter p {a} (x ∷ xs) m = elim (mem-if (p x) (λ r. r) m) [
    | inl e ↦ rw e.0 e.1
    | inr r ↦ test_of_mem-filter p xs r
  ]

  -- A member that passes the test is kept.
  pub mem-filter_of_mem :
      (p : A → Bool) {a : A} (xs : List A) → Memᴰ a xs → p a ≡ true → Memᴰ a (filter p xs)
  mem-filter_of_mem p [] m h = m
  mem-filter_of_mem p {a} (x ∷ xs) m h = elim (Memᴰ.cases_cons m) [
    | inl e ↦ rw (rw e at h) (Memᴰ.head e)
    | inr r ↦ elim (Bool-cases (p x)) [
      | inl k ↦ rw k (Memᴰ.tail (mem-filter_of_mem p xs r h))
      | inr k ↦ rw k (mem-filter_of_mem p xs r h)
    ]
  ]

  pub mem-All {κ} : (P : A → Type κ) {a : A} (xs : List A) → All P xs → Memᴰ a xs → P a
  mem-All P [] h m = elim m [ ]
  mem-All P (x ∷ xs) h m = elim (Memᴰ.cases_cons m) [
    | inl e ↦ rw e h.0
    | inr r ↦ mem-All P xs h.1 r
  ]

  pub mem_of_mem-take : (n : ℕ) {a : A} (xs : List A) → Memᴰ a (take n xs) → Memᴰ a xs
  mem_of_mem-take zero xs m = elim m [ ]
  mem_of_mem-take (suc n) [] m = m
  mem_of_mem-take (suc n) (x ∷ xs) m = elim (Memᴰ.cases_cons m) [
    | inl e ↦ Memᴰ.head e
    | inr r ↦ Memᴰ.tail (mem_of_mem-take n xs r)
  ]

  pub any_of_mem : (p : A → Bool) {a : A} (xs : List A) → Memᴰ a xs → p a ≡ true → any p xs ≡ true
  any_of_mem p [] m h = elim m [ ]
  any_of_mem p {a} (x ∷ xs) m h = elim (Memᴰ.cases_cons m) [
    | inl e ↦ rw (rw e at h)
    | inr r ↦ ground (arith, any_of_mem p xs r h)
  ]

  -- A test that some element passes has a witness.
  pub mem_of_any :
      (p : A → Bool) (xs : List A) → any p xs ≡ true → (a : A) × Memᴰ a xs × (p a ≡ true)
  mem_of_any p [] h = cc
  mem_of_any p (x ∷ xs) h = elim (Bool-cases (p x)) [
    | inl k ↦ (x, Memᴰ.head refl, k)
    | inr k ↦ let (a, m, t) = mem_of_any p xs (rw k at h) in (a, Memᴰ.tail m, t)
  ]

  pub is_empty-filter : (p : A → Bool) (xs : List A) → is_empty (filter p xs) ≡ not (any p xs)
  is_empty-filter p [] = refl
  is_empty-filter p (x ∷ xs) = ground (arith, is_empty-filter p xs)

-- Whether a number is in a list.
abbrev pub contains : List ℕ → ℕ → Bool
contains [] n = false
contains (x ∷ xs) n = x == n || contains xs n

pub contains_of_mem : {n : ℕ} (xs : List ℕ) → Memᴰ n xs → contains xs n ≡ true
contains_of_mem [] m = elim m [ ]
contains_of_mem {n} (x ∷ xs) m = elim (Memᴰ.cases_cons m) [
  | inl e ↦ ground arith
  | inr r ↦ ground (arith, contains_of_mem xs r)
]

pub mem_of_contains : (n : ℕ) (xs : List ℕ) → contains xs n ≡ true → Memᴰ n xs
mem_of_contains n [] h = cc
mem_of_contains n (x ∷ xs) h = elim (Bool-cases (x == n)) [
  | inl k ↦ Memᴰ.head (omega (arith, (==_iff x n).0 k))
  | inr k ↦ Memᴰ.tail (mem_of_contains n xs (rw k at h))
]

pub contains-filter :
    (p : ℕ → Bool) (xs : List ℕ) (n : ℕ) → contains (filter p xs) n ≡ (p n && contains xs n)
contains-filter p [] n = ground arith
contains-filter p (x ∷ xs) n = elim (Bool-cases (x == n)) [
  | inl e ↦ ground (arith, contains-filter p xs n, ap p ((==_iff x n).0 e))
  | inr e ↦ elim (Bool-cases (p x)) [
    | inl k ↦ rw (k, e) (contains-filter p xs n)
    | inr k ↦ rw (k, e) (contains-filter p xs n)
  ]
]

pub nil_of_is_empty {ℓ} : {A : Type ℓ} (xs : List A) → is_empty xs ≡ true → xs ≡ []
nil_of_is_empty [] h = refl
nil_of_is_empty (x ∷ xs) h = cc

pub not_empty_of_mem {ℓ} : {A : Type ℓ} (xs : List A) {a : A} → Memᴰ a xs → is_empty xs ≡ false
not_empty_of_mem [] m = elim m [ ]
not_empty_of_mem (x ∷ xs) m = refl

pub mem_of_not_empty {ℓ} : {A : Type ℓ} (xs : List A) → is_empty xs ≡ false → (a : A) × Memᴰ a xs
mem_of_not_empty [] h = cc
mem_of_not_empty (x ∷ xs) h = (x, Memᴰ.head refl)

pub is_empty-take {ℓ} :
    {A : Type ℓ} (n : ℕ) (xs : List A) → 0 < n → is_empty (take n xs) ≡ is_empty xs
is_empty-take zero xs h = absurd (omega arith)
is_empty-take (suc n) [] h = refl
is_empty-take (suc n) (x ∷ xs) h = refl

pub is_none-head? {ℓ} : {A : Type ℓ} (xs : List A) → is_none (head? xs) ≡ is_empty xs
is_none-head? [] = refl
is_none-head? (x ∷ xs) = refl

pub is_empty-map {ℓ κ} :
    {A : Type ℓ} {B : Type κ} (f : A → B) (xs : List A) → is_empty (map f xs) ≡ is_empty xs
is_empty-map f [] = refl
is_empty-map f (x ∷ xs) = refl

pub length-map {ℓ κ} :
    {A : Type ℓ} {B : Type κ} (f : A → B) (xs : List A) → length (map f xs) ≡ length xs
length-map f [] = refl
length-map f (x ∷ xs) = ap suc (length-map f xs)

pub length-append {ℓ} : {A : Type ℓ} (xs ys : List A) → length (xs ++ ys) ≡ length xs + length ys
length-append [] ys = omega arith
length-append (x ∷ xs) ys = omega (arith, length-append xs ys)

-- No element occurs twice.
abbrev pub Distinct : List ℕ → Type 0
Distinct [] = Unit
Distinct (x ∷ xs) = (contains xs x ≡ false) × Distinct xs
