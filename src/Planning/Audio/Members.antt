-- ===== src/Planning/Audio/Members.antt =====
-- Where the streams of a selection come from: indices, sorted streams and the loop that fills up.
use mathlib.Core.List.Memᴰ
use encodr.Prelude.{
  ℕ, ◌≡◌, refl, sym, ap, false, List, [], ◌∷◌, Memᴰ, leb, Bool-cases, inl, inr, ◌⊎◌, length, any,
  is_empty, not_empty_of_mem, mem_of_not_empty,
}
use encodr.Media.{AudioStream}
use encodr.Planning.Languages.{}
use encodr.Planning.Scores.{Key, key_lt, sorted_reverse, insert_sorted}
use encodr.Planning.Append.{
  Extends, Extends-refl, Extends-trans, append_new, append_new-Extends, append_new-mem,
  mem_of_Extends,
}
use encodr.Planning.Audio.{audio_indices, same_audio, fill}

pub mem-audio_indices :
    (xs : List AudioStream) {s : AudioStream} → Memᴰ s xs → Memᴰ s.index (audio_indices xs)
mem-audio_indices [] m = elim m [ ]
mem-audio_indices (x ∷ xs) m = elim (Memᴰ.cases_cons m) [
  | inl e ↦ Memᴰ.head (ap (λ (t : AudioStream). t.index) e)
  | inr r ↦ Memᴰ.tail (mem-audio_indices xs r)
]

pub mem_of_mem-audio_indices :
    (xs : List AudioStream) {i : ℕ}
    → Memᴰ i (audio_indices xs)
    → (s : AudioStream) × Memᴰ s xs × (s.index ≡ i)
mem_of_mem-audio_indices [] m = elim m [ ]
mem_of_mem-audio_indices (x ∷ xs) m = elim (Memᴰ.cases_cons m) [
  | inl e ↦ (x, Memᴰ.head refl, sym e)
  | inr r ↦ let (s, k, e) = mem_of_mem-audio_indices xs r in (s, Memᴰ.tail k, e)
]

pub mem-insert_sorted :
    {A : Type 0} (key : A → Key) (x : A) (ys : List A) {a : A}
    → Memᴰ a (insert_sorted key x ys)
    → Memᴰ a (x ∷ ys)
unfolding insert_sorted
mem-insert_sorted key x [] m = m
mem-insert_sorted key x (y ∷ ys) {a} m = elim (Bool-cases (key_lt (key x) (key y))) [
  | inl e ↦ elim (Memᴰ.cases_cons (rw e at m)) [
    | inl p ↦ Memᴰ.tail (Memᴰ.head p)
    | inr r ↦ elim (Memᴰ.cases_cons (mem-insert_sorted key x ys r)) [
      | inl p ↦ Memᴰ.head p
      | inr q ↦ Memᴰ.tail (Memᴰ.tail q)
    ]
  ]
  | inr e ↦ rw e at m
]

pub insert_some :
    {A : Type 0} (key : A → Key) (x : A) (ys : List A) → is_empty (insert_sorted key x ys) ≡ false
unfolding insert_sorted
insert_some key x [] = refl
insert_some key x (y ∷ ys) = elim (Bool-cases (key_lt (key x) (key y))) [
  | inl e ↦ rw e
  | inr e ↦ rw e
]

pub mem_of_mem-sorted_reverse :
    {A : Type 0} (key : A → Key) (xs : List A) {a : A} → Memᴰ a (sorted_reverse key xs) → Memᴰ a xs
unfolding sorted_reverse
mem_of_mem-sorted_reverse key [] m = m
mem_of_mem-sorted_reverse key (x ∷ xs) m =
    elim (Memᴰ.cases_cons (mem-insert_sorted key x (sorted_reverse key xs) m)) [
      | inl p ↦ Memᴰ.head p
      | inr r ↦ Memᴰ.tail (mem_of_mem-sorted_reverse key xs r)
    ]

-- The loop only appends.
pub fill-Extends :
    (limit : ℕ) (selected ss : List AudioStream) → Extends selected (fill limit selected ss)
unfolding fill
fill-Extends limit selected [] = Extends-refl selected
fill-Extends limit selected (s ∷ ss) =
    let first = append_new-Extends same_audio selected s in
    elim (Bool-cases (leb limit (length (append_new same_audio selected s)))) [
      | inl e ↦ rw e first
      | inr e ↦
          rw e (Extends-trans first (fill-Extends limit (append_new same_audio selected s) ss))
    ]

pub fill-mem :
    (limit : ℕ) (selected ss : List AudioStream) {a : AudioStream}
    → Memᴰ a (fill limit selected ss)
    → Memᴰ a selected ⊎ Memᴰ a ss
unfolding fill
fill-mem limit selected [] m = inl m
fill-mem limit selected (s ∷ ss) {a} m =
    elim (Bool-cases (leb limit (length (append_new same_audio selected s)))) [
      | inl e ↦ start (append_new-mem same_audio selected s (rw e at m))
      | inr e ↦ elim (fill-mem limit (append_new same_audio selected s) ss (rw e at m)) [
        | inl k ↦ start (append_new-mem same_audio selected s k)
        | inr k ↦ inr (Memᴰ.tail k)
      ]
    ]
  where
    start : Memᴰ a selected ⊎ (a ≡ s) → Memᴰ a selected ⊎ Memᴰ a (s ∷ ss)
    start (inl k) = inl k
    start (inr e) = inr (Memᴰ.head e)

pub append_new_some :
    (xs : List AudioStream) (s : AudioStream) → is_empty (append_new same_audio xs s) ≡ false
unfolding append_new
append_new_some [] s = refl
append_new_some (x ∷ xs) s = elim (Bool-cases (any (same_audio s) (x ∷ xs))) [
  | inl e ↦ rw e
  | inr e ↦ rw e
]

pub some_of_Extends :
    {xs ys : List AudioStream} → Extends xs ys → is_empty xs ≡ false → is_empty ys ≡ false
some_of_Extends {xs} {ys} e h = not_empty_of_mem ys (mem_of_Extends e (mem_of_not_empty xs h).1)

pub fill_some :
    (limit : ℕ) (selected ss : List AudioStream)
    → is_empty ss ≡ false
    → is_empty (fill limit selected ss) ≡ false
unfolding fill
fill_some limit selected [] h = cc
fill_some limit selected (s ∷ ss) h =
    let first = append_new_some selected s in
    elim (Bool-cases (leb limit (length (append_new same_audio selected s)))) [
      | inl e ↦ rw e first
      | inr e ↦
          rw e (some_of_Extends (fill-Extends limit (append_new same_audio selected s) ss) first)
    ]

pub is_empty-sorted_reverse :
    {A : Type 0} (key : A → Key) (xs : List A) → is_empty (sorted_reverse key xs) ≡ is_empty xs
unfolding sorted_reverse
is_empty-sorted_reverse key [] = refl
is_empty-sorted_reverse key (x ∷ xs) = insert_some key x (sorted_reverse key xs)
