-- ===== src/Execution/Command/Tests.antt =====
-- The command of a remux with two subtitles, and an output that follows it.
use encodr.Prelude.{
  ◌≡◌, refl, true, false, some, none, [], ◌∷◌, Bool, codes, lower, String, Option, ◌⊎◌, str_eq,
  if◌then◌else◌, strip, is_space,
}
use encodr.Media.{SubtitleStream, MediaFile}
use encodr.Planning.Models.{PlanAction, ProcessingPlan}
use encodr.Planning.Examples.{film, english, english_subtitle, forced_subtitle}
use encodr.Planning.Languages.{language_code}
use encodr.Replacement.Paths.{FilePath, stem}
use encodr.Verification.Rules.{
  by_index, planned_streams, planned_subtitle_streams, normalised_codec,
  subtitle_stream_selection_matches_plan, subtitle_default_disposition_matches_plan,
}
use encodr.Jobs.Policies.{normalise_backend_preference}
use encodr.Execution.Backend.{
  RequestedBackend, Accelerator, AccelerationDetails, BackendProbe, SelectedExecutionBackend, texts,
  encoder_of, codec_of, requested_of, usable_selection, accelerated_selection,
  probe_backend_for_preference, is_cpu, select_execution_backend,
}
use encodr.Execution.Backend.Usable.{Probed, select_execution_backend_sound}
use encodr.Execution.Command.{
  ExecutionCommandPlan, stream_maps, append_selected_stream_maps, audio_disposition,
  subtitle_disposition, disposition_flags, disposition_flags_for_selected_streams,
  build_temp_output_path, command_of, remux_command, build_execution_command_plan,
}
use encodr.Execution.Command.Reading.{mapped, dispositions}
use encodr.Execution.Command.Copied.{codec_for}
use encodr.Execution.Command.Subtitles.{
  SubtitlesFollow, marks_kept, build_execution_command_plan-subtitles,
}
use encodr.Execution.Examples

abbrev plan : ProcessingPlan
plan = record Examples.plan {
  action = PlanAction.remux;
  selected_streams = record Examples.plan.selected_streams { subtitle_stream_indices = 5 ∷ 4 ∷ [] };
  subtitles = record Examples.plan.subtitles {
    selected_stream_indices = 5 ∷ 4 ∷ [];
    forced_stream_indices = 5 ∷ [];
    main_stream_index = some 4;
  };
}

-- No title of the film says that a track is forced.
abbrev untitled : SubtitleStream → Bool
untitled s = false

abbrev input : FilePath
input = record { directory = codes "/media"; name = codes "Film.avi" }

abbrev ffmpeg : FilePath
ffmpeg = record { directory = codes "/usr/bin"; name = codes "ffmpeg" }

abbrev made : FilePath
made = record { directory = codes "/scratch"; name = codes "Film.pending.tmp.mkv" }

abbrev command : ExecutionCommandPlan
command = remux_command plan input ffmpeg made

-- The selected streams, with the dispositions of the command.
abbrev output : MediaFile
output = record film {
  audio_streams = english ∷ [];
  subtitle_streams = forced_subtitle ∷ record english_subtitle { default = true } ∷ [];
}

built : build_execution_command_plan plan input ffmpeg (codes "/scratch") none none ≡ some command
unfolding build_execution_command_plan build_temp_output_path stem
built = refl

names_made : command.output_path ≡ some made
unfolding remux_command
names_made = refl

subtitles_follow : SubtitlesFollow untitled command.command film output
unfolding remux_command command_of append_selected_stream_maps stream_maps
    disposition_flags_for_selected_streams disposition_flags audio_disposition subtitle_disposition
    mapped dispositions codec_for by_index planned_streams language_code normalised_codec lower
subtitles_follow = record {
  copied = ((refl, refl, refl), ((refl, refl, refl), tt));
  defaults = (refl, (refl, tt));
  forced = (refl, (refl, tt));
}

build_execution_command_plan-subtitles_example :
    (subtitle_default_disposition_matches_plan plan output ≡ true)
    × (subtitle_stream_selection_matches_plan film plan output
        ≡ marks_kept untitled plan.subtitles.forced_stream_indices
            (planned_subtitle_streams film plan)
            plan.selected_streams.subtitle_stream_indices)
unfolding by_index planned_streams planned_subtitle_streams
build_execution_command_plan-subtitles_example =
    build_execution_command_plan-subtitles untitled plan film output input ffmpeg (codes "/scratch")
      none none built names_made (refl, (refl, tt)) (refl, (refl, tt)) (refl, (refl, tt)) refl refl
      (refl, (refl, tt)) subtitles_follow

-- A machine with an Intel device that only VAAPI drives.
abbrev off : AccelerationDetails
off = record { usable = false; command_prefix = []; render_devices = []; device_paths = [] }

abbrev probes : String → Option BackendProbe
probes key =
    if str_eq key "intel_igpu"
    then some (record {
      usable = true;
      qsv = off;
      vaapi = record off { usable = true; device_paths = some "/dev/dri/renderD128" ∷ [] };
      amf = off;
    })
    else none

abbrev chosen : SelectedExecutionBackend
chosen = record {
  requested_backend = RequestedBackend.intel_auto;
  actual_backend = RequestedBackend.intel_vaapi;
  accelerator = Accelerator.vaapi;
  video_encoder = "hevc_vaapi";
  command_prefix = texts ("-vaapi_device" ∷ "/dev/dri/renderD128" ∷ []);
  video_filter = some "format=nv12,hwupload";
  fallback_used = false;
  device_path = some "/dev/dri/renderD128";
}

chooses_vaapi :
    select_execution_backend false probes (some "prefer_intel_igpu") true (some "hevc")
    ≡ some chosen
unfolding select_execution_backend requested_of normalise_backend_preference accelerated_selection
    usable_selection lower strip is_space
chooses_vaapi = refl

select_execution_backend_sound_example :
    (encoder_of chosen.accelerator (codec_of (some "hevc")) ≡ some chosen.video_encoder)
    × (Probed
          (codec_of (some "hevc"))
          (probes (probe_backend_for_preference (requested_of (some "prefer_intel_igpu"))))
          chosen
        ⊎ ((chosen.accelerator ≡ Accelerator.cpu)
            × (((is_cpu (requested_of (some "prefer_intel_igpu")) ≡ true)
                  × (chosen.fallback_used ≡ false))
                ⊎ ((true ≡ true) × (chosen.fallback_used ≡ true)))))
select_execution_backend_sound_example =
    select_execution_backend_sound false probes (some "prefer_intel_igpu") true (some "hevc")
      chooses_vaapi

-- A track that the source forces and the plan does not, with nothing in its title, loses its mark.
unforced_track_refused : marks_kept untitled [] (forced_subtitle ∷ []) (5 ∷ []) ≡ false
unforced_track_refused = refl

-- The spaces around a preference are not read.
spaced_preference : requested_of (some " qsv ") ≡ RequestedBackend.intel_qsv
unfolding requested_of normalise_backend_preference strip is_space
spaced_preference = refl
