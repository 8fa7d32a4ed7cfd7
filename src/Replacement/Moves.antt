-- ===== src/Replacement/Moves.antt =====
-- packages/core/encodr_core/replacement/service.py and errors.py: results, and the functions beside the
-- class. `details` keeps the entries about the course of the work; the texts of exceptions are left
-- out, and of two entries of one name the later counts. The random tokens of uuid4 are a list of the
-- tokens drawn: `none` means that all were taken.
use encodr.Prelude.{
  ℕ, String, Bool, true, false, not, ◌||◌, Option, none, some, List, [], ◌∷◌, ◌++◌, if◌then◌else◌,
  ◌==◌,
}
use encodr.Replacement.Paths.{FilePath, replacing_path}
use encodr.Replacement.FileSystem.{
  World, Call, exists, rename, unlink, copyfile, exdev, eacces, eperm,
}

pub data Detail : Type 0 where
  flag : Bool → Detail
  errno : ℕ → Detail
  text : String → Detail
  path : Option FilePath → Detail

abbrev pub Details : Type 0
Details = List (String × Detail)

pub data ReplacementStatus : Type 0 where
  succeeded failed not_required : ReplacementStatus

pub record ReplacementResult : Type 0 where
  pub status : ReplacementStatus
  pub final_output_path : Option FilePath
  pub original_backup_path : Option FilePath
  pub deleted_original_source : Bool
  pub failure_message : Option String
  pub details : Details

-- The parts of a `ReplacementError` that its handler reads.
pub record ReplacementError : Type 0 where
  pub message : String
  pub final_output_path : Option FilePath
  pub original_backup_path : Option FilePath
  pub details : Details

pub data Attempt : Type 0 where
  returned : ReplacementResult → Attempt
  raised : ReplacementError → Attempt

-- The part of `_replacement_failure_details` that is about the files.
unfoldable pub failure_details :
    String → ℕ → FilePath → FilePath → Option FilePath → Option FilePath → World → Details
failure_details operation number source staged final backup w =
    ("operation", text operation)
    ∷ ("source_path", path (some source))
    ∷ ("staged_output_path", path (some staged))
    ∷ ("final_output_path", path final)
    ∷ ("original_backup_path", path backup)
    ∷ ("errno", errno number)
    ∷ ("source_exists", flag (exists w source))
    ∷ ("staged_output_exists", flag (exists w staged))
    ∷ ("permission_hint", flag (number == eacces || number == eperm))
    ∷ backup_entry backup
  where
    backup_entry : Option FilePath → Details
    backup_entry none = []
    backup_entry (some b) = ("backup_exists", flag (exists w b)) ∷ []

-- `_OutputMoveResult`, or the exception that `_move_generated_output` lets through.
pub data Move : Type 0 where
  moved : Details → Move
  move_failed : ℕ → Move

after_cleanup : Details → Call → Move × World
after_cleanup details (none, w) = (moved details, w)
after_cleanup details (some number, w) = (
  moved (
      details
      ++ ("staged_cleanup_failed", flag true) ∷ ("staged_cleanup_errno", errno number) ∷ []),
  w,
)

after_copy : FilePath → Call → Move × World
unfolding after_cleanup
after_copy staged (some number, w) = (move_failed number, w)
after_copy staged (none, w) =
    after_cleanup (("move_strategy", text "copyfile") ∷ ("cross_device_errno", errno exdev) ∷ [])
      (unlink staged w)

after_replace : FilePath → FilePath → Call → Move × World
unfolding after_copy
after_replace staged final (none, w) = (moved (("move_strategy", text "rename") ∷ []), w)
after_replace staged final (some number, w) =
    if not (number == exdev)
    then (move_failed number, w)
    else after_copy staged (copyfile staged final w)

-- `_move_generated_output`
unfoldable pub move_generated_output : FilePath → FilePath → World → Move × World
unfolding after_replace
move_generated_output staged final w = after_replace staged final (rename staged final w)

-- `_temporary_replaced_backup_path`
unfoldable pub temporary_replaced_backup_path : List (List ℕ) → FilePath → World → Option FilePath
temporary_replaced_backup_path [] backup w = none
temporary_replaced_backup_path (token ∷ tokens) backup w =
    let candidate = replacing_path backup token in
    if not (exists w candidate)
    then some candidate
    else temporary_replaced_backup_path tokens backup w

after_restore : FilePath → FilePath → Details → Call → Details × World
after_restore replaced backup details (error, w) = (
  details
      ++ (restored error
          ++ (("replaced_backup_temp_exists_after_rollback", flag (exists w replaced))
              ∷ ("backup_exists_after_replaced_backup_restore", flag (exists w backup))
              ∷ [])),
  w,
)
  where
    restored : Option ℕ → Details
    restored none = ("replaced_backup_restore_succeeded", flag true) ∷ []
    restored (some number) = ("replaced_backup_restore_errno", errno number) ∷ []

-- `_restore_replaced_backup`
unfoldable pub restore_replaced_backup :
    Option FilePath → FilePath → Details → World → Details × World
unfolding after_restore
restore_replaced_backup none backup details w = (details, w)
restore_replaced_backup (some replaced) backup details w =
    let located = details ++ ("replaced_backup_temp_path", path (some replaced)) ∷ [] in
    if not (exists w replaced)
    then (located ++ ("replaced_backup_temp_exists_after_rollback", flag false) ∷ [], w)
    else if exists w backup
    then (
      located
          ++ ("replaced_backup_restore_blocked", flag true)
            ∷ ("backup_exists_after_replaced_backup_restore", flag true)
            ∷ [],
      w,
    )
    else after_restore replaced backup located (rename replaced backup w)

module _ (source staged final backup : FilePath) where
  after_delete_temp : FilePath → Details → Call → Details × World
  unfolding failure_details
  after_delete_temp replaced details (none, w) =
      (details ++ ("replaced_existing_backup_deleted", flag true) ∷ [], w)
  after_delete_temp replaced details (some number, w) = (
    details
        ++ ("replaced_backup_delete_failed", flag true)
          ∷ (failure_details "delete_replaced_existing_backup" number source staged (some final)
                (some backup) w
              ++ ("replaced_backup_temp_path", path (some replaced)) ∷ []),
    w,
  )

  -- `_delete_replaced_backup_temp`
  unfoldable pub delete_replaced_backup_temp : Option FilePath → Details → World → Details × World
  unfolding after_delete_temp
  delete_replaced_backup_temp none details w = (details, w)
  delete_replaced_backup_temp (some replaced) details w =
      if not (exists w replaced)
      then (details, w)
      else after_delete_temp replaced details (unlink replaced w)
