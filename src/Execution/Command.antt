-- ===== src/Execution/Command.antt =====
-- packages/core/encodr_core/execution/ffmpeg_builder.py: the command line of ffmpeg for a plan. An argument that is
-- printed from a path or a number stands as what is printed.
pub mod Reading
pub mod Copied
pub mod Copying
pub mod Defaults
pub mod Planned
pub mod Verified
pub mod Subtitles
pub mod Composed
mod Tests
mod Pipeline
use encodr.Prelude.{
  ℕ, suc, String, Bool, true, false, Option, none, some, List, [], ◌∷◌, ◌++◌, map, if◌then◌else◌,
  ◌==◌, codes, contains,
}
use encodr.Config.{OutputContainer, container_value}
use encodr.Planning.Models.{PlanAction, ProcessingPlan}
use encodr.Replacement.Paths.{FilePath, stem}
use encodr.Execution.Backend.{
  Flag, text, number, texts, RequestedBackend, Accelerator, SelectedExecutionBackend,
}
use encodr.Execution.Backend.Quality.{quality_flags_for_backend}

pub data StreamKind : Type 0 where
  audio subtitle : StreamKind

-- `stream i` is `f"0:{i}"`, and `disposition k n` is `f"-disposition:a:{n}"` or `f"-disposition:s:{n}"`.
pub data Argument : Type 0 where
  flag : Flag → Argument
  path : FilePath → Argument
  stream : ℕ → Argument
  disposition : StreamKind → ℕ → Argument

abbrev pub option : String → Argument
option name = flag (text name)

abbrev pub flags_of : List Flag → List Argument
flags_of = map flag

unfoldable pub stream_maps : List ℕ → List Argument
stream_maps [] = []
stream_maps (i ∷ is) = option "-map" ∷ stream i ∷ stream_maps is

-- `append_selected_stream_maps`, the arguments that it appends before `rest`.
unfoldable pub append_selected_stream_maps : ProcessingPlan → List Argument → List Argument
append_selected_stream_maps plan rest =
    let selected = plan.selected_streams in
    stream_maps selected.video_stream_indices
    ++ (stream_maps selected.audio_stream_indices
        ++ (stream_maps selected.subtitle_stream_indices
            ++ (stream_maps selected.attachment_stream_indices
                ++ (stream_maps selected.data_stream_indices ++ rest))))

abbrev pub is_index : Option ℕ → ℕ → Bool
is_index none i = false
is_index (some n) i = i == n

abbrev pub or_first : Option ℕ → List ℕ → Option ℕ
or_first (some i) indices = some i
or_first none [] = none
or_first none (i ∷ is) = some i

unfoldable pub audio_disposition : ProcessingPlan → ℕ → String
audio_disposition plan i =
    if is_index
      (or_first plan.audio.primary_stream_index plan.selected_streams.audio_stream_indices) i
    then "default"
    else "0"

unfoldable pub subtitle_disposition : ProcessingPlan → ℕ → String
subtitle_disposition plan i =
    if contains plan.subtitles.forced_stream_indices i
    then "forced"
    else if is_index plan.subtitles.main_stream_index i
    then "default"
    else "0"

-- The flags of the streams of one kind, whose outputs are counted from `n`.
unfoldable pub disposition_flags : StreamKind → (ℕ → String) → ℕ → List ℕ → List Argument
disposition_flags kind value n [] = []
disposition_flags kind value n (i ∷ is) =
    disposition kind n ∷ option (value i) ∷ disposition_flags kind value (suc n) is

-- `disposition_flags_for_selected_streams`, before `rest`.
unfoldable pub disposition_flags_for_selected_streams :
    ProcessingPlan → List Argument → List Argument
disposition_flags_for_selected_streams plan rest =
    disposition_flags audio (audio_disposition plan) 0 plan.selected_streams.audio_stream_indices
    ++ (disposition_flags subtitle (subtitle_disposition plan) 0
          plan.selected_streams.subtitle_stream_indices
        ++ rest)

-- `build_temp_output_path`; a job's identifier may be empty, and then it is not used.
abbrev pub token_of : Option (List ℕ) → List ℕ
token_of none = codes "pending"
token_of (some []) = codes "pending"
token_of (some (c ∷ cs)) = c ∷ cs

unfoldable pub build_temp_output_path :
    FilePath → List ℕ → OutputContainer → Option (List ℕ) → FilePath
build_temp_output_path input scratch_dir target job_id = record {
  directory = scratch_dir;
  name =
      stem input ++ b'.' ∷ (token_of job_id ++ (codes ".tmp." ++ codes (container_value target)));
}

pub record ExecutionCommandPlan : Type 0 where
  pub mode : PlanAction
  pub input_path : FilePath
  pub output_path : Option FilePath
  pub command : List Argument
  pub requested_backend : Option RequestedBackend
  pub actual_backend : Option RequestedBackend
  pub actual_accelerator : Option Accelerator
  pub fallback_used : Bool

abbrev pub copied_streams : List Flag
copied_streams = texts ("-c:a" ∷ "copy" ∷ "-c:s" ∷ "copy" ∷ "-c:t" ∷ "copy" ∷ "-c:d" ∷ "copy" ∷ [])

abbrev pub filter_flags : Option String → List Flag
filter_flags none = []
filter_flags (some filter) = texts ("-vf" ∷ filter ∷ [])

module _ (plan : ProcessingPlan) (input : FilePath) (ffmpeg : FilePath) where
  -- The command, with what the backend puts after the program's name, and the choice of codecs.
  unfoldable pub command_of : List Flag → List Flag → FilePath → List Argument
  unfolding append_selected_stream_maps disposition_flags_for_selected_streams
  command_of prefix coding output =
      path ffmpeg
      ∷ (flags_of prefix
          ++ option "-y"
            ∷ option "-i"
            ∷ path input
            ∷ option "-nostats"
            ∷ option "-progress"
            ∷ option "pipe:1"
            ∷ append_selected_stream_maps plan
                (flags_of coding ++ disposition_flags_for_selected_streams plan (path output ∷ [])))

  abbrev pub without_command : PlanAction → ExecutionCommandPlan
  without_command mode = record {
    mode = mode;
    input_path = input;
    output_path = none;
    command = [];
    requested_backend = none;
    actual_backend = none;
    actual_accelerator = none;
    fallback_used = false;
  }

  unfoldable pub remux_command : FilePath → ExecutionCommandPlan
  unfolding command_of
  remux_command output = record {
    mode = PlanAction.remux;
    input_path = input;
    output_path = some output;
    command = command_of [] (text "-c:v" ∷ text "copy" ∷ copied_streams) output;
    requested_backend = some RequestedBackend.cpu;
    actual_backend = some RequestedBackend.cpu;
    actual_accelerator = some Accelerator.cpu;
    fallback_used = false;
  }

  unfoldable pub coding_flags : SelectedExecutionBackend → List Flag
  unfolding quality_flags_for_backend
  coding_flags selection =
      filter_flags selection.video_filter
      ++ text "-c:v"
        ∷ text selection.video_encoder
        ∷ (copied_streams
            ++ quality_flags_for_backend selection.accelerator plan.video.quality_mode
                plan.video.quality_crf)

  unfoldable pub transcoded : FilePath → SelectedExecutionBackend → ExecutionCommandPlan
  unfolding command_of coding_flags
  transcoded output selection = record {
    mode = PlanAction.transcode;
    input_path = input;
    output_path = some output;
    command = command_of selection.command_prefix (coding_flags selection) output;
    requested_backend = some selection.requested_backend;
    actual_backend = some selection.actual_backend;
    actual_accelerator = some selection.accelerator;
    fallback_used = selection.fallback_used;
  }

  abbrev pub transcode_command :
      FilePath → Option SelectedExecutionBackend → Option ExecutionCommandPlan
  transcode_command output none = none
  transcode_command output (some selection) = some (transcoded output selection)

  abbrev pub command_by :
      PlanAction → FilePath → Option SelectedExecutionBackend → Option ExecutionCommandPlan
  command_by PlanAction.skip output backend = some (without_command PlanAction.skip)
  command_by PlanAction.manual_review output backend =
      some (without_command PlanAction.manual_review)
  command_by PlanAction.remux output backend = some (remux_command output)
  command_by PlanAction.transcode output backend = transcode_command output backend

  -- The backend that `select_execution_backend` gives enters as an argument; none is a `BackendSelectionError`.
  unfoldable pub build_execution_command_plan :
      List ℕ → Option (List ℕ) → Option SelectedExecutionBackend → Option ExecutionCommandPlan
  unfolding build_temp_output_path
  build_execution_command_plan scratch_dir job_id backend =
      command_by plan.action
        (build_temp_output_path input scratch_dir plan.container.target_container job_id) backend
