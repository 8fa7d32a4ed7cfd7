-- ===== src/Planning/Scores.antt =====
-- Sort keys as tuples whose last entry is a negated stream index, and Python's `max` and `sorted`
-- over such keys.
use encodr.Prelude.{ℕ, ◌≡◌, refl, Bool, true, false, List, [], ◌∷◌, arith, ltb, if◌then◌else◌}

pub record Key : Type 0 where
  pub ranks : List ℕ
  pub index : ℕ

-- The order of tuples; the last entries are -i and -j.
unfoldable pub lex_lt : List ℕ → ℕ → List ℕ → ℕ → Bool
lex_lt [] i [] j = ltb j i
lex_lt [] i (y ∷ ys) j = true
lex_lt (x ∷ xs) i [] j = false
lex_lt (x ∷ xs) i (y ∷ ys) j = if ltb x y then true else if ltb y x then false else lex_lt xs i ys j

unfoldable pub key_lt : Key → Key → Bool
unfolding lex_lt
key_lt a b = lex_lt a.ranks a.index b.ranks b.index

lex_lt_refl : (xs : List ℕ) (i : ℕ) → lex_lt xs i xs i ≡ false
unfolding lex_lt
lex_lt_refl [] i = ground arith
lex_lt_refl (x ∷ xs) i = ground (arith, lex_lt_refl xs i)

lex_lt_trans :
    (xs ys zs : List ℕ) (i j k : ℕ)
    → lex_lt xs i ys j ≡ false
    → lex_lt ys j zs k ≡ false
    → lex_lt xs i zs k ≡ false
unfolding lex_lt
lex_lt_trans [] [] [] i j k h h' = ground arith
lex_lt_trans [] [] (z ∷ zs) i j k h h' = h'
lex_lt_trans [] (y ∷ ys) zs i j k h h' = cc
lex_lt_trans (x ∷ xs) ys [] i j k h h' = refl
lex_lt_trans (x ∷ xs) [] (z ∷ zs) i j k h h' = cc
lex_lt_trans (x ∷ xs) (y ∷ ys) (z ∷ zs) i j k h h' = ground (arith, lex_lt_trans xs ys zs i j k)

pub key_lt_refl : (a : Key) → key_lt a a ≡ false
unfolding key_lt
key_lt_refl a = lex_lt_refl a.ranks a.index

-- "Not below" is transitive.
pub key_lt_trans : (a b c : Key) → key_lt a b ≡ false → key_lt b c ≡ false → key_lt a c ≡ false
unfolding key_lt
key_lt_trans a b c = lex_lt_trans a.ranks b.ranks c.ranks a.index b.index c.index

lex_lt_asym : (xs ys : List ℕ) (i j : ℕ) → lex_lt xs i ys j ≡ true → lex_lt ys j xs i ≡ false
unfolding lex_lt
lex_lt_asym [] [] i j h = ground arith
lex_lt_asym [] (y ∷ ys) i j h = refl
lex_lt_asym (x ∷ xs) [] i j h = cc
lex_lt_asym (x ∷ xs) (y ∷ ys) i j h = ground (arith, lex_lt_asym xs ys i j)

pub key_lt_asym : (a b : Key) → key_lt a b ≡ true → key_lt b a ≡ false
unfolding key_lt
key_lt_asym a b = lex_lt_asym a.ranks b.ranks a.index b.index

module _ {ℓ} {A : Type ℓ} (key : A → Key) where
  -- The rest of `max(best, *items, key=key)`: the first of the greatest.
  unfoldable pub max_from : A → List A → A
  max_from best [] = best
  max_from best (x ∷ xs) = max_from (if key_lt (key best) (key x) then x else best) xs

  -- One step of `sorted(items, key=key, reverse=True)`, which is stable.
  unfoldable pub insert_sorted : A → List A → List A
  insert_sorted x [] = x ∷ []
  insert_sorted x (y ∷ ys) = if key_lt (key x) (key y) then y ∷ insert_sorted x ys else x ∷ y ∷ ys

  unfoldable pub sorted_reverse : List A → List A
  unfolding insert_sorted
  sorted_reverse [] = []
  sorted_reverse (x ∷ xs) = insert_sorted x (sorted_reverse xs)
