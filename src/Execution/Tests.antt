-- ===== src/Execution/Tests.antt =====
-- The encoding of a small film, in the tests of packages/db/encodr_db/runtime/worker.py.
use mathlib.Core.List.Memᴰ
use encodr.Prelude.{
  String, ◌≡◌, refl, ◌⊎◌, true, false, Option, some, none, [], ◌∷◌, if◌then◌else◌, codes, lower,
  is_prefix, is_infix,
}
use encodr.Planning.Languages.{language_code}
use encodr.Verification.Rules.{
  split_commas, output_container_matches, has_required_audio, has_required_subtitles,
  has_required_video, has_expected_selected_stream_shape, by_index, planned_streams,
  planned_audio_streams, planned_subtitle_streams, normalised_codec, audio_stream_matches,
  subtitle_stream_matches, all_zip, audio_stream_selection_matches_plan,
  subtitle_stream_selection_matches_plan, position, only_default,
  audio_default_disposition_matches_plan, subtitle_default_disposition_matches_plan,
  retains_required_4k, retains_required_surround, retains_required_atmos, is_non_empty_output,
}
use encodr.Verification.Verifier.{add_check, add_checks, report_of, verify_probed, verify_output}
use encodr.Replacement.Paths.{
  FilePath, path_eq, stem, suffix, final_path, build_backup_path, alongside_path, replacing_path,
}
use encodr.Replacement.FileSystem.{Content, World, exists, rename, unlink, copyfile}
use encodr.Replacement.Moves.{
  failure_details, move_generated_output, temporary_replaced_backup_path, restore_replaced_backup,
  delete_replaced_backup_temp,
}
use encodr.Replacement.Service.{
  raise_error, finish, after_delete, settle, after_rollback, roll_back, after_move, place,
  after_backup, back_up, after_aside, move_aside, refusal, proceed, replace_in_place, after_placing,
  place_alongside_original, handle_error, handle_drawn, place_verified_output,
}
use encodr.Replacement.Apart.{Apart}
use encodr.Jobs.Models.{JobReplacement, ResultStatus, ExecutionResult, pos, is_active_status}
use encodr.Execution.Metrics.{MediaSavings}
use encodr.Execution.Safety.{
  output_larger_than_input_failure, judge_reduction, evaluate_execution_safety,
}
use encodr.Execution.Service.{
  StagedResult, no_savings, savings_or_none, file_size_or_none, safety_metrics, verification_of,
  result_of, placed, unplaced, unsafe, unverified, after_replacement, after_safety,
  verify_and_place_path, verify_and_place, without_output,
}
use encodr.Execution.Service.Outcomes.{verify_and_place_completed, verify_and_place-keeps}
use encodr.Execution.Run.{ffmpeg_failed, ErrorDetails, Executed, execute_job}
use encodr.Execution.Run.Settles.{is_in_progress, execute_job_settles}
use encodr.Execution.Examples.{film, plan}
use encodr.Jobs.Examples.{waiting, film as queued_film}

-- Two thirds of the video are saved, at a rate above the floor.
abbrev savings : MediaSavings
savings = record no_savings {
  input_size_bytes = some 9_000;
  output_size_bytes = some 3_000;
  output_video_bitrate_bps = some 2_000_000;
  compression_reduction = some (record { saved = pos 6_000; size = 9_000 });
}

abbrev source : FilePath
source = record { directory = codes "/media"; name = codes "Film.avi" }

abbrev output_path : FilePath
output_path = record { directory = codes "/scratch"; name = codes "Film.mkv" }

abbrev original : Content
original = 1 ∷ 2 ∷ 3 ∷ []

abbrev output : Content
output = 4 ∷ 5 ∷ []

-- Every call is done.
abbrev world : World
world = record {
  files = λ p.
      if path_eq p source
      then some original
      else if path_eq p output_path
      then some output
      else none;
  outcomes = [];
}

abbrev staged : StagedResult
staged = record {
  command = "ffmpeg" ∷ [];
  output_path = some output_path;
  stdout = none;
  stderr = none;
  requested_backend = none;
  actual_backend = none;
  actual_accelerator = none;
  backend_fallback_used = false;
  backend_selection_reason = none;
  started_at = 1_000;
}

-- The text of a path in a test.
abbrev posix : FilePath → String
posix p = if path_eq p source then "/media/Film.avi" else "/media/Film.mkv"

abbrev nothing : ExecutionResult
nothing = without_output posix 2_000 staged

abbrev result_or :
    ExecutionResult × World → Option (ExecutionResult × World) → ExecutionResult × World
result_or fallback none = fallback
result_or fallback (some ended) = ended

abbrev run : Option (ExecutionResult × World)
run = verify_and_place posix 2_000 staged plan film source [] (some film) (some savings) world

abbrev after : ExecutionResult × World
after = result_or (nothing, world) run

run_ends : (run ≡ some after) × (after.0.status ≡ ResultStatus.completed)
unfolding lower is_prefix is_infix language_code split_commas output_container_matches
    has_required_audio has_required_subtitles has_required_video has_expected_selected_stream_shape
    by_index planned_streams planned_audio_streams planned_subtitle_streams normalised_codec
    audio_stream_matches subtitle_stream_matches all_zip audio_stream_selection_matches_plan
    subtitle_stream_selection_matches_plan position only_default
    audio_default_disposition_matches_plan subtitle_default_disposition_matches_plan
    retains_required_4k retains_required_surround retains_required_atmos is_non_empty_output
    add_check add_checks report_of verify_probed verify_output path_eq stem suffix final_path
    build_backup_path alongside_path replacing_path rename unlink copyfile failure_details
    move_generated_output temporary_replaced_backup_path restore_replaced_backup
    delete_replaced_backup_temp raise_error finish after_delete settle after_rollback roll_back
    after_move place after_backup back_up after_aside move_aside refusal proceed replace_in_place
    after_placing place_alongside_original handle_error handle_drawn place_verified_output
    output_larger_than_input_failure judge_reduction evaluate_execution_safety file_size_or_none
    result_of placed unplaced unsafe unverified after_replacement after_safety verify_and_place_path
    verify_and_place without_output
run_ends = (refl, refl)

staged-Apart : Apart source plan.container.target_container output_path
unfolding path_eq stem suffix final_path build_backup_path
staged-Apart = record { from_source = refl; from_backup = refl; from_final = refl }

found : (world.files source ≡ some original) × (world.files output_path ≡ some output)
unfolding path_eq
found = (refl, refl)

verify_and_place_completed_example :
    ((verification_of posix 2_000 staged plan film source (some film) output_path world).passed
      ≡ true)
    × (evaluate_execution_safety plan.video (
          safety_metrics posix 2_000 staged plan film source
            (savings_or_none (some savings))
            output_path
            world)
        ≡ none)
    × ((p : FilePath) × (after.0.final_output_path ≡ some (posix p))
        × (after.1.files p ≡ some output))
verify_and_place_completed_example =
    verify_and_place_completed posix 2_000 staged plan film source [] (some film) (some savings)
      world refl staged-Apart found.1 run_ends.0 run_ends.1

verify_and_place-keeps_example :
    (after.1.files source ≡ some original)
    ⊎ (after.1.files (build_backup_path source) ≡ some original)
    ⊎ ((verification_of posix 2_000 staged plan film source (some film) output_path world).passed
        ≡ true)
      × ((told : JobReplacement) × (after.0.replacement ≡ some told)
          × (told.deleted_original_source ≡ true))
      × (after.1.files (final_path source plan.container.target_container) ≡ some output)
verify_and_place-keeps_example =
    verify_and_place-keeps posix 2_000 staged plan film source [] (some film) (some savings) world
      refl staged-Apart refl found.0 found.1 run_ends.0

a_is_free : exists world (replacing_path (build_backup_path source) (codes "a")) ≡ false
unfolding path_eq build_backup_path replacing_path stem suffix
a_is_free = refl

abbrev details : ErrorDetails
details = record {
  command = "ffmpeg" ∷ [];
  output_path = some output_path;
  stdout = none;
  stderr = none;
  requested_backend = none;
  actual_backend = none;
  actual_accelerator = none;
  backend_fallback_used = false;
  backend_selection_reason = none;
}

execute_job_settles_example :
    (e : Executed) × (execute_job posix
        (λ w path. false)
        2_000
        false
        plan
        film
        source
        (codes "a" ∷ [])
        (ffmpeg_failed "Conversion failed." details)
        none
        none
        waiting
        queued_film
        world
      ≡ some e)
    × (is_active_status e.job.status ≡ false)
    × (e.job.assigned_worker_id ≡ none)
    × (is_in_progress e.file.lifecycle_state ≡ false)
execute_job_settles_example =
    execute_job_settles posix 2_000 plan film source (codes "a" ∷ []) none none world
      (Memᴰ.head refl) a_is_free (λ w path. false) false
      (ffmpeg_failed "Conversion failed." details) waiting queued_film
