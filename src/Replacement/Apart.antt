-- ===== src/Replacement/Apart.antt =====
-- The path an older backup is moved to, and the paths of a replacement.
use encodr.Prelude.{
  ℕ, ◌≡◌, refl, ap, subst, Bool, true, false, not, Option, none, some, List, [], ◌∷◌, Bool-cases,
  inl, inr, arith, is_none,
}
use encodr.Config.{OutputContainer}
use encodr.Replacement.Paths.{
  FilePath, path_eq, path_eq_sound, final_path, build_backup_path, replacing_path,
  source-ne-replacing, backup-ne-replacing, final-ne-replacing,
}
use encodr.Replacement.FileSystem.{World, Content, exists}
use encodr.Replacement.Moves.{temporary_replaced_backup_path}
use encodr.Replacement.Steps.{}
use encodr.Replacement.Service.{backup}

pub some_inj : {A : Type 0} {a b : A} → some a ≡ some b → a ≡ b
some_inj h = cc

pub not-not-true : (b : Bool) → not (not b) ≡ true → b ≡ true
not-not-true b h = ground arith

pub none_of_is_none : {A : Type 0} (o : Option A) → is_none o ≡ true → o ≡ none
none_of_is_none none h = refl
none_of_is_none (some a) h = cc

-- A path that is none of the three.
pub record Apart (source : FilePath) (target : OutputContainer) (p : FilePath) : Type 0 where
  pub from_source : path_eq p source ≡ false
  pub from_backup : path_eq p (build_backup_path source) ≡ false
  pub from_final : path_eq p (final_path source target) ≡ false

-- An older backup was moved aside to such a path, if at all.
abbrev pub Aside : FilePath → OutputContainer → Option FilePath → Type 0
Aside source target replaced = (t : FilePath) → replaced ≡ some t → Apart source target t

pub replacing-Apart :
    (source : FilePath) (target : OutputContainer) (token : List ℕ)
    → Apart source target (replacing_path (build_backup_path source) token)
replacing-Apart source target token = record {
  from_source = source-ne-replacing source token;
  from_backup = backup-ne-replacing source token;
  from_final = final-ne-replacing source target token;
}

-- The path drawn for the older backup is none of the three, and is free.
pub temporary-Aside :
    (source : FilePath) (target : OutputContainer) (tokens : List (List ℕ)) (w : World)
    (t : FilePath)
    → temporary_replaced_backup_path tokens (build_backup_path source) w ≡ some t
    → Apart source target t
unfolding temporary_replaced_backup_path
temporary-Aside source target [] w t h = cc
temporary-Aside source target (token ∷ tokens) w t h =
    let candidate = replacing_path (build_backup_path source) token in
    elim (Bool-cases (not (exists w candidate))) [
      | inl free ↦
          subst (Apart source target) (some_inj (rw free at h))
            (replacing-Apart source target token)
      | inr taken ↦ temporary-Aside source target tokens w t (rw taken at h)
    ]

pub temporary_free :
    (backup : FilePath) (tokens : List (List ℕ)) (w : World) (t : FilePath)
    → temporary_replaced_backup_path tokens backup w ≡ some t
    → is_none (w.files t) ≡ true
unfolding temporary_replaced_backup_path
temporary_free backup [] w t h = cc
temporary_free backup (token ∷ tokens) w t h =
    let candidate = replacing_path backup token in
    elim (Bool-cases (not (exists w candidate))) [
      | inl free ↦
          subst (λ p. is_none (w.files p) ≡ true) (some_inj (rw free at h))
            (not-not-true (is_none (w.files candidate)) free)
      | inr taken ↦ temporary_free backup tokens w t (rw taken at h)
    ]

-- Two paths of which one is taken and one is free differ.
pub taken-ne-free :
    (w : World) (p q : FilePath) {c : Content}
    → w.files p ≡ some c
    → is_none (w.files q) ≡ true
    → path_eq q p ≡ false
taken-ne-free w p q taken free = elim (Bool-cases (path_eq q p)) [
  | inl e ↦ cc (ap (λ x. is_none (w.files x)) (path_eq_sound q p e), ap is_none taken, free)
  | inr e ↦ e
]
