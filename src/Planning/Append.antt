-- ===== src/Planning/Append.antt =====
-- `if stream not in selected: selected.append(stream)` of
-- packages/core/encodr_core/planning/selection.py, once and over a list.
use mathlib.Core.List.Memᴰ
use mathlib.Core.List.{append-nil, append_assoc}
use encodr.Prelude.{
  ℕ, zero, suc, ◌≤◌, ◌≡◌, refl, sym, ◌∙◌, ap, Bool, true, List, [], ◌∷◌, ◌++◌, Memᴰ, arith,
  if◌then◌else◌, Bool-cases, inl, inr, ◌⊎◌, length, take, any, mem_of_any,
}

module _ {A : Type 0} (same : A → A → Bool) where
  unfoldable pub append_new : List A → A → List A
  append_new selected s = if any (same s) selected then selected else selected ++ s ∷ []

  -- Over the streams in order.
  unfoldable pub append_all_new : List A → List A → List A
  unfolding append_new
  append_all_new selected [] = selected
  append_all_new selected (s ∷ ss) = append_all_new (append_new selected s) ss

-- `ys` begins with `xs`.
pub data Extends {A : Type 0} (xs ys : List A) : Type 0 where
  by_rest : (zs : List A) → ys ≡ xs ++ zs → Extends xs ys

module _ {A : Type 0} where
  pub Extends-refl : (xs : List A) → Extends xs xs
  Extends-refl xs = by_rest [] (sym (append-nil xs))

  pub Extends-trans : {xs ys zs : List A} → Extends xs ys → Extends ys zs → Extends xs zs
  Extends-trans {xs} {ys} {zs} (by_rest p e) (by_rest q f) =
      by_rest (p ++ q) (f ∙ ap (λ t. t ++ q) e ∙ append_assoc xs p q)

  pub mem-append_left : (xs ys : List A) {a : A} → Memᴰ a xs → Memᴰ a (xs ++ ys)
  mem-append_left xs ys m = Memᴰ.append_left ys m

  mem-take-append :
      (n : ℕ) (xs ys : List A) {a : A} → length xs ≤ n → Memᴰ a xs → Memᴰ a (take n (xs ++ ys))
  mem-take-append n [] ys h m = elim m [ ]
  mem-take-append zero (x ∷ xs) ys h m = absurd (omega arith)
  mem-take-append (suc n) (x ∷ xs) ys h m = elim (Memᴰ.cases_cons m) [
    | inl e ↦ Memᴰ.head e
    | inr r ↦ Memᴰ.tail (mem-take-append n xs ys (omega arith) r)
  ]

  -- A truncation that is long enough keeps the front.
  pub mem-take_of_Extends :
      (n : ℕ) {xs ys : List A} {a : A}
      → Extends xs ys
      → length xs ≤ n
      → Memᴰ a xs
      → Memᴰ a (take n ys)
  mem-take_of_Extends n {xs} (by_rest zs e) h m = rw e (mem-take-append n xs zs h m)

  pub mem_of_Extends : {xs ys : List A} {a : A} → Extends xs ys → Memᴰ a xs → Memᴰ a ys
  mem_of_Extends {xs} (by_rest zs e) m = rw e (mem-append_left xs zs m)

module _ {A : Type 0} (same : A → A → Bool) where
  pub append_new-Extends : (xs : List A) (s : A) → Extends xs (append_new same xs s)
  unfolding append_new
  append_new-Extends xs s = elim (Bool-cases (any (same s) xs)) [
    | inl e ↦ rw e (Extends-refl xs)
    | inr e ↦ rw e (by_rest (s ∷ []) refl)
  ]

  pub append_new-mem :
      (xs : List A) (s : A) {a : A} → Memᴰ a (append_new same xs s) → Memᴰ a xs ⊎ (a ≡ s)
  unfolding append_new
  append_new-mem xs s m = elim (Bool-cases (any (same s) xs)) [
    | inl e ↦ inl (rw e at m)
    | inr e ↦ elim (Memᴰ.append_cases xs (rw e at m)) [
      | inl k ↦ inl k
      | inr k ↦ inr (Memᴰ.eq_of_singleton k)
    ]
  ]

  pub append_all_new-Extends : (xs ss : List A) → Extends xs (append_all_new same xs ss)
  unfolding append_all_new
  append_all_new-Extends xs [] = Extends-refl xs
  append_all_new-Extends xs (s ∷ ss) =
      Extends-trans (append_new-Extends xs s) (append_all_new-Extends (append_new same xs s) ss)

  pub append_all_new-mem :
      (xs ss : List A) {a : A} → Memᴰ a (append_all_new same xs ss) → Memᴰ a xs ⊎ Memᴰ a ss
  unfolding append_all_new
  append_all_new-mem xs [] m = inl m
  append_all_new-mem xs (s ∷ ss) m = elim (append_all_new-mem (append_new same xs s) ss m) [
    | inl k ↦ elim (append_new-mem xs s k) [ inl j ↦ inl j | inr e ↦ inr (Memᴰ.head e) ]
    | inr k ↦ inr (Memᴰ.tail k)
  ]

  -- What is asked for is there, up to the value of `f`, if equal elements agree on it.
  append_new-arg :
      (f : A → ℕ) (agree : (a b : A) → same a b ≡ true → f b ≡ f a) (xs : List A) (s : A)
      → (c : A) × Memᴰ c (append_new same xs s) × (f c ≡ f s)
  unfolding append_new
  append_new-arg f agree xs s = elim (Bool-cases (any (same s) xs)) [
    | inl e ↦ let (c, m, t) = mem_of_any (same s) xs e in rw e (c, m, agree s c t)
    | inr e ↦ rw e (s, Memᴰ.append_right xs (Memᴰ.head refl), refl)
  ]

  pub append_all_new-arg :
      (f : A → ℕ) (agree : (a b : A) → same a b ≡ true → f b ≡ f a) (xs ss : List A) {b : A}
      → Memᴰ b ss
      → (c : A) × Memᴰ c (append_all_new same xs ss) × (f c ≡ f b)
  unfolding append_all_new
  append_all_new-arg f agree xs [] m = elim m [ ]
  append_all_new-arg f agree xs (s ∷ ss) {b} m = elim (Memᴰ.cases_cons m) [
    | inl e ↦
        let (c, k, p) = append_new-arg f agree xs s in
        (c, mem_of_Extends (append_all_new-Extends (append_new same xs s) ss) k, p ∙ ap f (sym e))
    | inr r ↦ append_all_new-arg f agree (append_new same xs s) ss r
  ]
