-- ===== src/Replacement/Tests.antt =====
-- The replacement of a film whose output lies on another device.
use encodr.Prelude.{
  ◌≡◌, refl, ◌⊎◌, true, false, is_none, Memᴰ, Option, some, none, [], ◌∷◌, if◌then◌else◌, codes,
}
use encodr.Config.{mkv}
use encodr.Planning.Models.{ReplacePlan}
use encodr.Replacement.Paths.{FilePath}
use encodr.Replacement.FileSystem.{Content, World, exists, done, failed, failed_after, exdev}
use encodr.Replacement.Moves.{succeeded, ReplacementResult}
use encodr.Replacement.Apart.{Apart}
use encodr.Replacement.Success.{place_verified_output-succeeds}
use encodr.Replacement.Ends.{place_verified_output_ends}
use encodr.Replacement.Safety.{place_verified_output-keeps}
use encodr.Replacement.Paths.{
  path_eq, stem, suffix, final_path, build_backup_path, alongside_path, replacing_path,
}
use encodr.Replacement.FileSystem.{rename, unlink, copyfile}
use encodr.Replacement.Moves.{
  failure_details, move_generated_output, temporary_replaced_backup_path, restore_replaced_backup,
  delete_replaced_backup_temp,
}
use encodr.Replacement.Service.{
  raise_error, finish, after_delete, settle, after_rollback, roll_back, after_move, place,
  after_backup, back_up, after_aside, move_aside, refusal, proceed, replace_in_place, after_placing,
  place_alongside_original, handle_error, handle_drawn, place_verified_output,
}

abbrev source : FilePath
source = record { directory = codes "/media"; name = codes "Film.avi" }

abbrev staged : FilePath
staged = record { directory = codes "/scratch"; name = codes "Film.mkv" }

abbrev original : Content
original = 1 ∷ 2 ∷ 3 ∷ []

abbrev output : Content
output = 4 ∷ 5 ∷ []

abbrev in_place : ReplacePlan
in_place = record {
  in_place = true;
  require_verification = true;
  keep_original_until_verified = true;
  delete_replaced_source = true;
  existing_backup_strategy = "fail";
}

-- The source is backed up, the output cannot be renamed, and its copy breaks off after a byte.
abbrev broken : World
broken = record {
  files = λ p.
      if path_eq p source then some original else if path_eq p staged then some output else none;
  outcomes = done ∷ failed exdev ∷ failed_after 1 28 ∷ [];
}

-- Every call is done.
abbrev sound : World
sound = record broken { outcomes = [] }

abbrev run : World → Option (ReplacementResult × World)
run w = place_verified_output source staged mkv in_place [] w

abbrev result_or :
    ReplacementResult × World → Option (ReplacementResult × World) → ReplacementResult × World
result_or fallback none = fallback
result_or fallback (some ended) = ended

abbrev nothing : ReplacementResult
nothing = record {
  status = encodr.Replacement.Moves.failed;
  final_output_path = none;
  original_backup_path = none;
  deleted_original_source = false;
  failure_message = none;
  details = [];
}

abbrev after : World → ReplacementResult × World
after w = result_or (nothing, w) (run w)

staged-Apart : Apart source mkv staged
unfolding path_eq stem suffix final_path build_backup_path alongside_path replacing_path rename
    unlink copyfile failure_details move_generated_output temporary_replaced_backup_path
    restore_replaced_backup delete_replaced_backup_temp raise_error finish after_delete settle
    after_rollback roll_back after_move place after_backup back_up after_aside move_aside refusal
    proceed replace_in_place after_placing place_alongside_original handle_error handle_drawn
    place_verified_output
staged-Apart = record { from_source = refl; from_backup = refl; from_final = refl }

source-found : broken.files source ≡ some original
unfolding path_eq
source-found = refl

staged-found : broken.files staged ≡ some output
unfolding path_eq
staged-found = refl

broken_ends : run broken ≡ some (after broken)
unfolding path_eq stem suffix final_path build_backup_path alongside_path replacing_path rename
    unlink copyfile failure_details move_generated_output temporary_replaced_backup_path
    restore_replaced_backup delete_replaced_backup_temp raise_error finish after_delete settle
    after_rollback roll_back after_move place after_backup back_up after_aside move_aside refusal
    proceed replace_in_place after_placing place_alongside_original handle_error handle_drawn
    place_verified_output
broken_ends = refl

-- The broken copy is undone: the source is at its path again. Without a failure the output replaces it.
ends :
    ((after broken).1.files source ≡ some original)
    × ((after sound).1.files source ≡ none)
    × ((after sound).1.files (final_path source mkv) ≡ some output)
    × ((after sound).0.deleted_original_source ≡ true)
unfolding path_eq stem suffix final_path build_backup_path alongside_path replacing_path rename
    unlink copyfile failure_details move_generated_output temporary_replaced_backup_path
    restore_replaced_backup delete_replaced_backup_temp raise_error finish after_delete settle
    after_rollback roll_back after_move place after_backup back_up after_aside move_aside refusal
    proceed replace_in_place after_placing place_alongside_original handle_error handle_drawn
    place_verified_output
ends = (refl, refl, refl, refl)

place_verified_output-keeps_example :
    ((after broken).1.files source ≡ some original)
    ⊎ ((after broken).1.files (build_backup_path source) ≡ some original)
    ⊎ (((after broken).0.deleted_original_source ≡ true)
        × ((after broken).1.files (final_path source mkv) ≡ some output))
place_verified_output-keeps_example =
    place_verified_output-keeps source staged mkv in_place original output staged-Apart [] broken
      refl source-found staged-found broken_ends

-- A backup is there already, with one random name beside it taken.
abbrev replacing : ReplacePlan
replacing = record in_place { existing_backup_strategy = "replace_backup" }

abbrev crowded : World
crowded = record sound {
  files = λ p.
      if path_eq p (build_backup_path source)
      then some original
      else if path_eq p (replacing_path (build_backup_path source) (codes "a"))
      then some output
      else sound.files p;
}

b_is_free : exists crowded (replacing_path (build_backup_path source) (codes "b")) ≡ false
unfolding path_eq build_backup_path replacing_path stem suffix
b_is_free = refl

place_verified_output_ends_example :
    is_none (place_verified_output source staged mkv replacing (codes "a" ∷ codes "b" ∷ []) crowded)
    ≡ false
place_verified_output_ends_example =
    place_verified_output_ends source staged mkv replacing (codes "a" ∷ codes "b" ∷ []) crowded
      (Memᴰ.tail (Memᴰ.head refl)) b_is_free

sound_ends : (run sound ≡ some (after sound)) × ((after sound).0.status ≡ succeeded)
unfolding path_eq stem suffix final_path build_backup_path alongside_path replacing_path rename
    unlink copyfile failure_details move_generated_output temporary_replaced_backup_path
    restore_replaced_backup delete_replaced_backup_temp raise_error finish after_delete settle
    after_rollback roll_back after_move place after_backup back_up after_aside move_aside refusal
    proceed replace_in_place after_placing place_alongside_original handle_error handle_drawn
    place_verified_output
sound_ends = (refl, refl)

place_verified_output-succeeds_example :
    (p : FilePath) × ((after sound).0.final_output_path ≡ some p)
    × ((after sound).1.files p ≡ some output)
place_verified_output-succeeds_example =
    place_verified_output-succeeds source staged mkv in_place output staged-Apart [] sound
      staged-found sound_ends.0 sound_ends.1
