-- ===== src/Planning/Profiles.antt =====
-- The choice of a profile of packages/core/encodr_core/planning/rules.py. A path stands as the text that
-- pathlib's `as_posix` gives for it.
use encodr.Prelude.{
  ℕ, ◌≤◌, String, ◌≡◌, refl, Bool, true, ◌||◌, Option, none, some, List, [], ◌∷◌, ◌++◌, Memᴰ, arith,
  if◌then◌else◌, ◌==◌, ltb, length, filter, list_eq, is_prefix, Bool-cases, inl, inr,
  mem_of_mem-filter, test_of_mem-filter, mem-filter_of_mem,
}
use mathlib.Core.List.Memᴰ

pub record PathProfileOverride : Type 0 where
  pub path_prefix : List ℕ
  pub profile : String

-- `text.rstrip("/") or "/"`
keep_unless_slashes : ℕ → List ℕ → List ℕ
keep_unless_slashes c [] = if c == b'/' then [] else c ∷ []
keep_unless_slashes c (d ∷ ds) = c ∷ d ∷ ds

rstrip_slashes : List ℕ → List ℕ
unfolding keep_unless_slashes
rstrip_slashes [] = []
rstrip_slashes (c ∷ cs) = keep_unless_slashes c (rstrip_slashes cs)

or_root : List ℕ → List ℕ
or_root [] = b'/' ∷ []
or_root (c ∷ cs) = c ∷ cs

unfoldable pub trimmed : List ℕ → List ℕ
unfolding rstrip_slashes or_root
trimmed text = or_root (rstrip_slashes text)

unfoldable pub path_matches_prefix : List ℕ → List ℕ → Bool
path_matches_prefix source_path path_prefix =
    let source = trimmed source_path in
    let prefix = trimmed path_prefix in
    if list_eq prefix (b'/' ∷ [])
    then is_prefix (b'/' ∷ []) source
    else list_eq source prefix || is_prefix (prefix ++ b'/' ∷ []) source

-- `max(matches, key=...)`: the first of those with the longest prefix.
unfoldable pub longest_from : PathProfileOverride → List PathProfileOverride → PathProfileOverride
longest_from best [] = best
longest_from best (o ∷ os) =
    longest_from (if ltb (length best.path_prefix) (length o.path_prefix) then o else best) os

unfoldable pub longest : List PathProfileOverride → Option PathProfileOverride
unfolding longest_from
longest [] = none
longest (o ∷ os) = some (longest_from o os)

-- The override that `resolve_profile_for_path` takes the profile of.
unfoldable pub matched_override : List PathProfileOverride → List ℕ → Option PathProfileOverride
matched_override overrides source_text =
    longest (filter (λ o. path_matches_prefix source_text o.path_prefix) overrides)

longest_from-mem :
    (best : PathProfileOverride) (os : List PathProfileOverride)
    → Memᴰ (longest_from best os) (best ∷ os)
unfolding longest_from
longest_from-mem best [] = Memᴰ.head refl
longest_from-mem best (o ∷ os) =
    elim (Bool-cases (ltb (length best.path_prefix) (length o.path_prefix))) [
      | inl e ↦ rw e (Memᴰ.tail (longest_from-mem o os))
      | inr e ↦ elim (Memᴰ.cases_cons (longest_from-mem best os)) [
        | inl same ↦ rw e (Memᴰ.head same)
        | inr later ↦ rw e (Memᴰ.tail (Memᴰ.tail later))
      ]
    ]

longer_of : (best x : PathProfileOverride) → PathProfileOverride
longer_of best x = if ltb (length best.path_prefix) (length x.path_prefix) then x else best

longer_of-ge :
    (best x : PathProfileOverride)
    → (length best.path_prefix ≤ length (longer_of best x).path_prefix)
      × (length x.path_prefix ≤ length (longer_of best x).path_prefix)
unfolding longer_of
longer_of-ge best x = elim (Bool-cases (ltb (length best.path_prefix) (length x.path_prefix))) [
  | inl e ↦ rw e (ground (arith, e), omega arith)
  | inr e ↦ rw e (omega arith, ground (arith, e))
]

longest_from-ge_best :
    (best : PathProfileOverride) (os : List PathProfileOverride)
    → length best.path_prefix ≤ length (longest_from best os).path_prefix
unfolding longest_from longer_of
longest_from-ge_best best [] = omega arith
longest_from-ge_best best (x ∷ os) =
    omega (arith, (longer_of-ge best x).0, longest_from-ge_best (longer_of best x) os)

longest_from-ge :
    (best : PathProfileOverride) (os : List PathProfileOverride) {o : PathProfileOverride}
    → Memᴰ o os
    → length o.path_prefix ≤ length (longest_from best os).path_prefix
unfolding longest_from longer_of
longest_from-ge best [] m = elim m [ ]
longest_from-ge best (x ∷ os) m = elim (Memᴰ.cases_cons m) [
  | inl same ↦
      rw same (omega (arith, (longer_of-ge best x).1, longest_from-ge_best (longer_of best x) os))
  | inr rest ↦ longest_from-ge (longer_of best x) os rest
]

longest-best :
    (os : List PathProfileOverride) {o : PathProfileOverride}
    → Memᴰ o os
    → (b : PathProfileOverride) × (longest os ≡ some b)
      × Memᴰ b os
      × (length o.path_prefix ≤ length b.path_prefix)
unfolding longest
longest-best [] m = elim m [ ]
longest-best (x ∷ os) m = (
  longest_from x os,
  refl,
  longest_from-mem x os,
  elim (Memᴰ.cases_cons m) [
    | inl same ↦ rw same (longest_from-ge_best x os)
    | inr rest ↦ longest_from-ge x os rest
  ],
)

-- Where some override matches the path, the profile is taken from an override of the list that matches
-- it, and whose prefix is not shorter.
pub matched_override-longest :
    (overrides : List PathProfileOverride) (source_text : List ℕ) {o : PathProfileOverride}
    → Memᴰ o overrides
    → path_matches_prefix source_text o.path_prefix ≡ true
    → (b : PathProfileOverride) × (matched_override overrides source_text ≡ some b)
      × Memᴰ b overrides
      × (path_matches_prefix source_text b.path_prefix ≡ true)
      × (length o.path_prefix ≤ length b.path_prefix)
unfolding matched_override
matched_override-longest overrides source_text m h =
    let test = λ (o : PathProfileOverride). path_matches_prefix source_text o.path_prefix in
    let (b, found, inside, longer) =
      longest-best (filter test overrides) (mem-filter_of_mem test overrides m h) in
    (
      b,
      found,
      mem_of_mem-filter test overrides inside,
      test_of_mem-filter test overrides inside,
      longer,
    )
