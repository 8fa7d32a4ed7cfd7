-- ===== src/Replacement/Kept.antt =====
-- Where the original is, and the steps after the backup that keep it.
use encodr.Prelude.{
  ℕ, ◌≡◌, refl, ◌∙◌, Bool, true, false, ◌&&◌, Option, none, some, Bool-cases, inl, inr, ◌⊎◌, arith,
  is_none,
}
use encodr.Config.{OutputContainer}
use encodr.Planning.Models.{ReplacePlan}
use encodr.Replacement.Paths.{
  FilePath, path_eq_comm, final_path, build_backup_path, source-ne-backup, final-ne-backup,
}
use encodr.Replacement.FileSystem.{World, Content, exists, unlink}
use encodr.Replacement.Moves.{
  Details, failure_details, Attempt, returned, raised, Move, moved, move_failed,
  delete_replaced_backup_temp, restore_replaced_backup,
}
use encodr.Replacement.Steps.{
  rename_failed, rename_done, unlink_other, unlink_failed, restore_other, restore_backup,
  delete_temp_other,
}
use encodr.Replacement.Apart.{Aside}
use encodr.Replacement.Service.{
  create_new_backup, finish, after_delete, settle, roll_back, after_move,
}

abbrev pub deletes : Attempt → Bool
deletes (returned result) = result.deleted_original_source
deletes (raised error) = false

module _ (source staged : FilePath) (target : OutputContainer) (plan : ReplacePlan)
    (original output : Content) where
  -- The original is at the source or at the backup; or it was deleted, and the output is in place.
  abbrev pub KeptAt : Bool → World → Type 0
  KeptAt deleted w =
      (w.files source ≡ some original)
      ⊎ (w.files (build_backup_path source) ≡ some original)
      ⊎ ((deleted ≡ true) × (w.files (final_path source target) ≡ some output))

  -- The original is at the source or at the backup.
  abbrev pub Held : World → Type 0
  Held w = (w.files source ≡ some original) ⊎ (w.files (build_backup_path source) ≡ some original)

  abbrev pub Kept : Attempt × World → Type 0
  Kept r = KeptAt (deletes r.0) r.1

  delete_temp-Kept :
      (replaced : Option FilePath) (d : Details) (deleted : Bool) (w : World)
      → Aside source target replaced
      → KeptAt deleted w
      → KeptAt deleted
          (delete_replaced_backup_temp source staged
            (final_path source target)
            (build_backup_path source)
            replaced
            d
            w).1
  delete_temp-Kept replaced d deleted w aside kept = ground (
    arith,
    delete_temp_other source staged (final_path source target) (build_backup_path source) replaced
        source d w (λ t e. (aside t e).from_source),
    delete_temp_other source staged (final_path source target) (build_backup_path source) replaced
        (build_backup_path source) d w (λ t e. (aside t e).from_backup),
    delete_temp_other source staged (final_path source target) (build_backup_path source) replaced
        (final_path source target) d w (λ t e. (aside t e).from_final),
  )

  after_delete-Kept :
      (replaced : Option FilePath) (d : Details) (e : Option ℕ) (w : World)
      → Aside source target replaced
      → (is_none e ≡ true → w.files (final_path source target) ≡ some output)
      → (is_none e ≡ false → w.files (build_backup_path source) ≡ some original)
      → Kept (after_delete source staged target plan replaced d (e, w))
  unfolding after_delete finish
  after_delete-Kept replaced d none w aside f b =
      delete_temp-Kept replaced d true w aside (inr (inr (refl, f refl)))
  after_delete-Kept replaced d (some e) w aside f b =
      delete_temp-Kept replaced d false w aside (inr (inl (b refl)))

  settle-Kept :
      (replaced : Option FilePath) (d : Details) (w : World)
      → Aside source target replaced
      → w.files (build_backup_path source) ≡ some original
      → w.files (final_path source target) ≡ some output
      → Kept (settle source staged target plan replaced d w)
  unfolding settle finish
  settle-Kept replaced d w aside b f =
      elim (Bool-cases (
        create_new_backup source staged target plan
        && plan.delete_replaced_source
        && exists w (build_backup_path source))) [
          | inl c ↦
              let call = unlink (build_backup_path source) w in
              rw c (
                after_delete-Kept replaced d call.0 call.1 aside
                  (λ e.
                    unlink_other (build_backup_path source) (final_path source target) w (
                      path_eq_comm (build_backup_path source) (final_path source target)
                      ∙ final-ne-backup source target)
                    ∙ f)
                  (λ e.
                    unlink_failed (build_backup_path source) (build_backup_path source) w e ∙ b))
          | inr c ↦ rw c (delete_temp-Kept replaced d false w aside (inr (inl b)))
        ]

  pub roll_back-Held :
      (d : Details) (w : World)
      → w.files (build_backup_path source) ≡ some original
      → Held (roll_back source staged target plan d w).1
  unfolding roll_back
  roll_back-Held d w b = ground (
    arith,
    rename_done (build_backup_path source) source w,
    rename_failed (build_backup_path source) source (build_backup_path source) w,
  )

  pub restore-Held :
      (replaced : Option FilePath) (d : Details) (w : World)
      → Aside source target replaced
      → Held w
      → Held (restore_replaced_backup replaced (build_backup_path source) d w).1
  restore-Held replaced d w aside (inl s) = inl (
      restore_other replaced (build_backup_path source) source d w
        (path_eq_comm (build_backup_path source) source ∙ source-ne-backup source)
        (λ t e. (aside t e).from_source)
      ∙ s)
  restore-Held replaced d w aside (inr b) =
      inr (restore_backup replaced (build_backup_path source) d w b)

  pub Kept_of_Held : (deleted : Bool) (w : World) → Held w → KeptAt deleted w
  Kept_of_Held deleted w (inl s) = inl s
  Kept_of_Held deleted w (inr b) = inr (inl b)

  pub after_move-Kept :
      (replaced : Option FilePath) (m : Move) (w : World)
      → Aside source target replaced
      → w.files (build_backup_path source) ≡ some original
      → ((d : Details) → m ≡ moved d → w.files (final_path source target) ≡ some output)
      → Kept (after_move source staged target plan replaced (m, w))
  unfolding after_move
  after_move-Kept replaced (moved d) w aside b f = settle-Kept replaced _ w aside b (f d refl)
  after_move-Kept replaced (move_failed e) w aside b f =
      let d =
        failure_details "move_verified_output_into_place" e source staged
          (some (final_path source target)) (some (build_backup_path source)) w in
      let rolled = roll_back source staged target plan d w in
      Kept_of_Held false
        (restore_replaced_backup replaced (build_backup_path source) rolled.0 rolled.1).1
        (restore-Held replaced rolled.0 rolled.1 aside (roll_back-Held d w b))
