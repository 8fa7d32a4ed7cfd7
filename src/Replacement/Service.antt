-- ===== src/Replacement/Service.antt =====
-- `ReplacementService` of packages/core/encodr_core/replacement/service.py.
use encodr.Prelude.{
  ℕ, String, Bool, true, false, not, ◌&&◌, Option, none, some, List, [], ◌∷◌, ◌++◌, if◌then◌else◌,
  str_eq,
}
use encodr.Config.{OutputContainer}
use encodr.Planning.Models.{ReplacePlan}
use encodr.Replacement.Paths.{FilePath, path_eq, final_path, build_backup_path, alongside_path}
use encodr.Replacement.FileSystem.{World, Call, exists, rename, unlink}
use encodr.Replacement.Moves.{
  Details, ReplacementError, flag, errno, text, path, ReplacementResult, succeeded, failed, Attempt,
  returned, raised, Move, moved, move_failed, failure_details, move_generated_output,
  temporary_replaced_backup_path, restore_replaced_backup, delete_replaced_backup_temp,
}

module _ (source staged : FilePath) (target : OutputContainer) (plan : ReplacePlan) where
  abbrev pub final : FilePath
  final = final_path source target

  abbrev pub backup : FilePath
  backup = build_backup_path source

  abbrev pub create_new_backup : Bool
  create_new_backup = not (str_eq plan.existing_backup_strategy "keep_existing_backup")

  unfoldable pub raise_error : String → Details → Attempt
  raise_error message details = raised (record {
    message = message;
    final_output_path = some final;
    original_backup_path = some backup;
    details = details;
  })

  -- The last step: the backup that was moved aside is deleted.
  unfoldable pub finish :
      Option FilePath → Details → Option FilePath → Bool → World → Attempt × World
  finish replaced details original_backup deleted w =
      let (details', w') =
        delete_replaced_backup_temp source staged final backup replaced details w in
      (
        returned (record {
          status = succeeded;
          final_output_path = some final;
          original_backup_path = original_backup;
          deleted_original_source = deleted;
          failure_message = none;
          details = details';
        }),
        w',
      )

  unfoldable pub after_delete : Option FilePath → Details → Call → Attempt × World
  unfolding finish failure_details
  after_delete replaced details (none, w) = finish replaced details none true w
  after_delete replaced details (some number, w) =
      let (details', w') =
        delete_replaced_backup_temp source staged final backup replaced details w in
      (
        returned (record {
          status = succeeded;
          final_output_path = some final;
          original_backup_path = some backup;
          deleted_original_source = false;
          failure_message = none;
          details =
              details'
              ++ ("backup_delete_failed", flag true)
                ∷ failure_details "delete_replaced_source_backup" number source staged (some final)
                    (some backup) w';
        }),
        w',
      )

  -- The output is in place: the backup is deleted if the plan says so.
  unfoldable pub settle : Option FilePath → Details → World → Attempt × World
  unfolding after_delete
  settle replaced details w =
      if create_new_backup && plan.delete_replaced_source && exists w backup
      then after_delete replaced details (unlink backup w)
      else finish replaced details (some backup) false w

  unfoldable pub after_rollback : Details → Call → Details × World
  after_rollback details (error, w) = (
    details
        ++ (outcome error
            ++ (("source_exists_after_rollback", flag (exists w source))
                ∷ ("backup_exists_after_rollback", flag (exists w backup))
                ∷ ("staged_output_exists_after_rollback", flag (exists w staged))
                ∷ [])),
    w,
  )
    where
      outcome : Option ℕ → Details
      outcome none = ("rollback_succeeded", flag true) ∷ []
      outcome (some number) = ("rollback_errno", errno number) ∷ []

  -- The output could not be moved: the source is put back if its path is free.
  unfoldable pub roll_back : Details → World → Details × World
  unfolding after_rollback
  roll_back details w =
      if create_new_backup && exists w backup && not (exists w source)
      then after_rollback details (rename backup source w)
      else (details, w)

  unfoldable pub after_move : Option FilePath → Move × World → Attempt × World
  unfolding settle roll_back raise_error failure_details
  after_move replaced (moved details, w) =
      settle replaced
        (("mode", text "replace_in_place")
          ∷ ("existing_backup_strategy", text plan.existing_backup_strategy)
          ∷ details)
        w
  after_move replaced (move_failed number, w) =
      let rolled =
        roll_back
          (failure_details "move_verified_output_into_place" number source staged (some final)
            (some backup) w)
          w in
      let (details, w') = restore_replaced_backup replaced backup rolled.0 rolled.1 in
      (raise_error "Failed to move the verified output into place." details, w')

  unfoldable pub place : Option FilePath → World → Attempt × World
  unfolding after_move
  place replaced w = after_move replaced (move_generated_output staged final w)

  unfoldable pub after_backup : Option FilePath → Call → Attempt × World
  unfolding place
  after_backup replaced (none, w) = place replaced w
  after_backup replaced (some number, w) =
      let (details, w') =
        restore_replaced_backup replaced backup
          (failure_details "move_source_to_backup" number source staged (some final) (some backup)
            w)
          w in
      (raise_error "Failed to move the source file to its backup path." details, w')

  unfoldable pub back_up : Option FilePath → World → Attempt × World
  unfolding after_backup
  back_up replaced w =
      if create_new_backup then after_backup replaced (rename source backup w) else place replaced w

  unfoldable pub after_aside : FilePath → Call → Attempt × World
  unfolding back_up
  after_aside replaced (none, w) = back_up (some replaced) w
  after_aside replaced (some number, w) = (
    raise_error "Failed to move the existing backup aside before replacement." (
        failure_details "move_existing_backup_aside" number source staged (some final) (some backup)
          w),
    w,
  )

  unfoldable pub move_aside : Option FilePath → World → Option (Attempt × World)
  unfolding after_aside
  move_aside none w = none
  move_aside (some replaced) w = some (after_aside replaced (rename backup replaced w))

  abbrev error_of : String → Option FilePath → Option FilePath → Details → ReplacementError
  error_of message final_output original_backup details = record {
    message = message;
    final_output_path = final_output;
    original_backup_path = original_backup;
    details = details;
  }

  -- The checks that stand before the first change.
  unfoldable pub refusal : World → Option ReplacementError
  refusal w =
      let strategy : String = plan.existing_backup_strategy in
      let backup_exists = exists w backup in
      if not (exists w source)
      then some (error_of "The source file does not exist for in-place replacement." none none [])
      else if backup_exists && str_eq strategy "fail"
      then some (
          error_of "A backup file already exists for the source path." (some final) (some backup) (
            ("failure_code", text "backup_already_exists")
            ∷ ("existing_backup_strategy", text strategy)
            ∷ []))
      else if not backup_exists && str_eq strategy "keep_existing_backup"
      then some (
          error_of "A backup file must already exist before keeping the original backup."
            (some final) (some backup)
            (("failure_code", text "backup_missing_for_keep_existing")
              ∷ ("existing_backup_strategy", text strategy)
              ∷ []))
      else if not (path_eq final source) && exists w final
      then some (
          error_of "A destination file already exists for the replacement target." (some final) none
            [])
      else none

  unfoldable pub proceed :
      Option ReplacementError → List (List ℕ) → World → Option (Attempt × World)
  unfolding move_aside back_up
  proceed (some error) tokens w = some (raised error, w)
  proceed none tokens w =
      if exists w backup && str_eq plan.existing_backup_strategy "replace_backup"
      then move_aside (temporary_replaced_backup_path tokens backup w) w
      else some (back_up none w)

  -- `_replace_in_place`
  unfoldable pub replace_in_place : List (List ℕ) → World → Option (Attempt × World)
  replace_in_place tokens w = proceed (refusal w) tokens w

  abbrev pub beside : FilePath
  beside = alongside_path source target

  unfoldable pub after_placing : Move × World → Attempt × World
  unfolding failure_details
  after_placing (moved details, w) = (
    returned (record {
      status = succeeded;
      final_output_path = some beside;
      original_backup_path = none;
      deleted_original_source = false;
      failure_message = none;
      details = ("mode", text "keep_original") ∷ details;
    }),
    w,
  )
  after_placing (move_failed number, w) = (
    raised (record {
      message = "Failed to place the verified output alongside the source file.";
      final_output_path = some beside;
      original_backup_path = none;
      details =
          failure_details "place_verified_output_alongside_source" number source staged
            (some beside) none w;
    }),
    w,
  )

  -- `_place_alongside_original`
  unfoldable pub place_alongside_original : World → Attempt × World
  unfolding after_placing
  place_alongside_original w =
      if exists w beside
      then (
        raised (record {
          message = "A destination file already exists for the placed output.";
          final_output_path = some beside;
          original_backup_path = none;
          details = [];
        }),
        w,
      )
      else after_placing (move_generated_output staged beside w)

  -- The handler of `ReplacementError`.
  unfoldable pub handle_error : Attempt × World → ReplacementResult × World
  handle_error (returned result, w) = (result, w)
  handle_error (raised error, w) = (
    record {
      status = failed;
      final_output_path = error.final_output_path;
      original_backup_path = error.original_backup_path;
      deleted_original_source = false;
      failure_message = some error.message;
      details = error.details;
    },
    w,
  )

  unfoldable pub handle_drawn : Option (Attempt × World) → Option (ReplacementResult × World)
  unfolding handle_error
  handle_drawn none = none
  handle_drawn (some attempt) = some (handle_error attempt)

  -- `place_verified_output`
  unfoldable pub place_verified_output : List (List ℕ) → World → Option (ReplacementResult × World)
  unfolding handle_drawn handle_error
  place_verified_output tokens w =
      if not (exists w staged)
      then some (
        record {
          status = failed;
          final_output_path = none;
          original_backup_path = none;
          deleted_original_source = false;
          failure_message = some "The staged output file does not exist.";
          details = ("staged_output_path", path (some staged)) ∷ [];
        },
        w,
      )
      else if plan.in_place
      then handle_drawn (replace_in_place tokens w)
      else some (handle_error (place_alongside_original w))
