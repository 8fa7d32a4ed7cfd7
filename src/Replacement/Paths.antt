-- ===== src/Replacement/Paths.antt =====
-- The paths of packages/core/encodr_core/replacement/service.py, with pathlib's `stem`, `suffix` and
-- `with_suffix` on a final name that is not empty.
use encodr.Prelude.{
  ℕ, suc, ◌+◌, ◌≤◌, ◌<◌, ◌≡◌, refl, sym, ap, ◌∙◌, Bool, true, false, ◌&&◌, List, [], ◌∷◌, ◌++◌,
  if◌then◌else◌, ◌==◌, ==_iff, length, length-append, list_eq, codes, arith, is_empty, Bool-cases,
  inl, inr, &&_true,
}
use mathlib.Core.Option.{Option, none, some}
use encodr.Config.{OutputContainer, mkv, mp4, container_value}

-- A path: its directory and its final name.
pub record FilePath : Type 0 where
  pub directory : List ℕ
  pub name : List ℕ

unfoldable pub path_eq : FilePath → FilePath → Bool
path_eq p q = list_eq p.directory q.directory && list_eq p.name q.name

-- The parts of a name at its last dot, if it has one: what is before, and what is after.
extend_split : ℕ → List ℕ → Option (List ℕ × List ℕ) → Option (List ℕ × List ℕ)
extend_split c cs (some (before, after)) = some (c ∷ before, after)
extend_split c cs none = if c == b'.' then some ([], cs) else none

split_last_dot : List ℕ → Option (List ℕ × List ℕ)
unfolding extend_split
split_last_dot [] = none
split_last_dot (c ∷ cs) = extend_split c cs (split_last_dot cs)

-- pathlib: a name that begins or ends with its last dot has no suffix.
split_suffix : List ℕ → Option (List ℕ × List ℕ) → List ℕ × List ℕ
split_suffix name none = (name, [])
split_suffix name (some (before, after)) =
    if is_empty before
    then (name, [])
    else if is_empty after
    then (name, [])
    else (before, b'.' ∷ after)

stem_and_suffix : List ℕ → List ℕ × List ℕ
unfolding split_last_dot split_suffix
stem_and_suffix name = split_suffix name (split_last_dot name)

unfoldable pub stem : FilePath → List ℕ
unfolding stem_and_suffix
stem p = (stem_and_suffix p.name).0

unfoldable pub suffix : FilePath → List ℕ
unfolding stem_and_suffix
suffix p = (stem_and_suffix p.name).1

abbrev pub with_name : FilePath → List ℕ → FilePath
with_name p name = record p { name = name }

-- `source_path.with_suffix(f".{target_container.value}")`
unfoldable pub final_path : FilePath → OutputContainer → FilePath
final_path source target = with_name source (stem source ++ b'.' ∷ codes (container_value target))

-- `_build_backup_path`
unfoldable pub build_backup_path : FilePath → FilePath
build_backup_path source =
    with_name source (stem source ++ (codes ".encodr-backup" ++ suffix source))

-- The destination of `_place_alongside_original`.
unfoldable pub alongside_path : FilePath → OutputContainer → FilePath
alongside_path source target =
    with_name source (stem source ++ (codes ".encodr." ++ codes (container_value target)))

-- A candidate of `_temporary_replaced_backup_path`, with the hexadecimal digits of its token.
unfoldable pub replacing_path : FilePath → List ℕ → FilePath
replacing_path backup token =
    with_name backup (backup.name ++ (codes ".replacing-" ++ (token ++ codes ".tmp")))

list_eq_refl : (xs : List ℕ) → list_eq xs xs ≡ true
list_eq_refl [] = refl
list_eq_refl (x ∷ xs) = ground (arith, list_eq_refl xs)

list_eq-length : (xs ys : List ℕ) → list_eq xs ys ≡ true → length xs ≡ length ys
list_eq-length [] [] h = refl
list_eq-length [] (y ∷ ys) h = cc
list_eq-length (x ∷ xs) [] h = cc
list_eq-length (x ∷ xs) (y ∷ ys) h =
    ap suc (list_eq-length xs ys (&&_true (x == y) (list_eq xs ys) h).1)

list_eq_sound : (xs ys : List ℕ) → list_eq xs ys ≡ true → xs ≡ ys
list_eq_sound [] [] h = refl
list_eq_sound [] (y ∷ ys) h = cc
list_eq_sound (x ∷ xs) (y ∷ ys) h =
    let (same, rest) = &&_true (x == y) (list_eq xs ys) h in
    cc ((==_iff x y).0 same, list_eq_sound xs ys rest)
list_eq_sound (x ∷ xs) [] h = cc

pub path_eq_refl : (p : FilePath) → path_eq p p ≡ true
unfolding path_eq
path_eq_refl p = rw (list_eq_refl p.directory, list_eq_refl p.name)

pub path_eq_sound : (p q : FilePath) → path_eq p q ≡ true → p ≡ q
unfolding path_eq
path_eq_sound p q h =
    let (directory, name) = &&_true (list_eq p.directory q.directory) (list_eq p.name q.name) h in
    λ i. record {
      directory = list_eq_sound p.directory q.directory directory i;
      name = list_eq_sound p.name q.name name i;
    }

pub path_eq-length : (p q : FilePath) → path_eq p q ≡ true → length p.name ≡ length q.name
unfolding path_eq
path_eq-length p q h =
    list_eq-length p.name q.name
      (&&_true (list_eq p.directory q.directory) (list_eq p.name q.name) h).1

-- The length of a name from its two parts and the dot.
split_length : Option (List ℕ × List ℕ) → ℕ → ℕ
split_length none n = n
split_length (some (before, after)) n = length before + suc (length after)

length-extend_split :
    (c : ℕ) (cs : List ℕ) (r : Option (List ℕ × List ℕ))
    → split_length r (length cs) ≡ length cs
    → split_length (extend_split c cs r) (suc (length cs)) ≡ suc (length cs)
unfolding split_length extend_split
length-extend_split c cs (some (before, after)) h = omega arith
length-extend_split c cs none h = ground arith

length-split_last_dot :
    (name : List ℕ) → split_length (split_last_dot name) (length name) ≡ length name
unfolding split_last_dot
length-split_last_dot [] = unfold split_length in refl
length-split_last_dot (c ∷ cs) =
    length-extend_split c cs (split_last_dot cs) (length-split_last_dot cs)

length-split_suffix :
    (name : List ℕ) (r : Option (List ℕ × List ℕ))
    → split_length r (length name) ≡ length name
    → length (split_suffix name r).0 + length (split_suffix name r).1 ≡ length name
unfolding split_length split_suffix
length-split_suffix name none h = omega arith
length-split_suffix name (some (before, after)) h = ground arith

-- The stem and the suffix make up the name.
length-stem-suffix : (p : FilePath) → length (stem p) + length (suffix p) ≡ length p.name
unfolding stem suffix
length-stem-suffix p =
    length-split_suffix p.name (split_last_dot p.name) (length-split_last_dot p.name)

ne_of_length : (p q : FilePath) → length p.name < length q.name → path_eq p q ≡ false
ne_of_length p q h = elim (Bool-cases (path_eq p q)) [
  | inl e ↦ absurd (omega (arith, path_eq-length p q e))
  | inr e ↦ e
]

pub path_eq_comm : (p q : FilePath) → path_eq p q ≡ path_eq q p
path_eq_comm p q = elim (Bool-cases (path_eq p q)) [
  | inl e ↦ rw (path_eq_sound p q e)
  | inr e ↦ elim (Bool-cases (path_eq q p)) [ inl f ↦ rw (path_eq_sound q p f) | inr f ↦ e ∙ sym f ]
]

length-backup :
    (source : FilePath) → length (build_backup_path source).name ≡ length source.name + 14
unfolding build_backup_path
length-backup source = omega (
  arith,
  length-append (stem source) (codes ".encodr-backup" ++ suffix source),
  length-append (codes ".encodr-backup") (suffix source),
  length-stem-suffix source,
)

-- The backup is never the source, and never the final output.
pub source-ne-backup : (source : FilePath) → path_eq source (build_backup_path source) ≡ false
source-ne-backup source =
    ne_of_length source (build_backup_path source) (omega (arith, length-backup source))

length-final :
    (source : FilePath) (target : OutputContainer)
    → length (final_path source target).name ≤ length source.name + 4
unfolding final_path
length-final source mkv = omega (
  arith,
  length-append (stem source) (b'.' ∷ codes (container_value mkv)),
  length-stem-suffix source,
)
length-final source mp4 = omega (
  arith,
  length-append (stem source) (b'.' ∷ codes (container_value mp4)),
  length-stem-suffix source,
)

pub final-ne-backup :
    (source : FilePath) (target : OutputContainer)
    → path_eq (final_path source target) (build_backup_path source) ≡ false
final-ne-backup source target =
    ne_of_length (final_path source target) (build_backup_path source)
      (omega (arith, length-backup source, length-final source target))

length-replacing :
    (source : FilePath) (token : List ℕ)
    → length source.name + 29 ≤ length (replacing_path (build_backup_path source) token).name
unfolding replacing_path
length-replacing source token =
    let backup = build_backup_path source in
    omega (
      arith,
      length-backup source,
      length-append backup.name (codes ".replacing-" ++ (token ++ codes ".tmp")),
      length-append (codes ".replacing-") (token ++ codes ".tmp"),
      length-append token (codes ".tmp"),
    )

-- A backup that is moved aside goes to none of the three paths.
module _ (source : FilePath) (token : List ℕ) where
  pub source-ne-replacing : path_eq (replacing_path (build_backup_path source) token) source ≡ false
  source-ne-replacing =
      path_eq_comm (replacing_path (build_backup_path source) token) source
      ∙ ne_of_length source (replacing_path (build_backup_path source) token)
          (omega (arith, length-replacing source token))

  pub backup-ne-replacing :
      path_eq (replacing_path (build_backup_path source) token) (build_backup_path source) ≡ false
  backup-ne-replacing =
      path_eq_comm (replacing_path (build_backup_path source) token) (build_backup_path source)
      ∙ ne_of_length (build_backup_path source) (replacing_path (build_backup_path source) token)
          (omega (arith, length-replacing source token, length-backup source))

pub final-ne-replacing :
    (source : FilePath) (target : OutputContainer) (token : List ℕ)
    → path_eq (replacing_path (build_backup_path source) token) (final_path source target) ≡ false
final-ne-replacing source target token =
    path_eq_comm (replacing_path (build_backup_path source) token) (final_path source target)
    ∙ ne_of_length (final_path source target) (replacing_path (build_backup_path source) token)
        (omega (arith, length-replacing source token, length-final source target))
