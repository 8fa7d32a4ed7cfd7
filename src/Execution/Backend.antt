-- ===== src/Execution/Backend.antt =====
-- packages/core/encodr_core/execution/backend_selection.py: the encoder for a transcode. What the probes of the
-- machine found is an argument; logging, the reasons and the fields that only they read are left out.
pub mod Usable
pub mod Quality
use encodr.Prelude.{
  ℕ, ◌+◌, String, Bool, true, false, not, ◌&&◌, Option, none, some, List, [], ◌∷◌, if◌then◌else◌,
  codes, strip, lower, list_eq, is_empty, str_eq, leb,
}
use encodr.Config.{VideoQualityMode}
use encodr.Jobs.Policies.{normalise_backend_preference}

-- A text of the command line: a plain one, a printed number, or the device that
-- `f"qsv=qs:hw,child_device={...}"` names.
pub data Flag : Type 0 where
  text : String → Flag
  number : ℕ → Flag
  child_device : String → Flag

-- The backends that a preference stands for.
pub data RequestedBackend : Type 0 where
  cpu intel_auto intel_qsv intel_vaapi nvidia_gpu amd_gpu : RequestedBackend

-- `normalise_backend_preference`; its result is one of these texts.
unfoldable pub requested_of : Option String → RequestedBackend
unfolding normalise_backend_preference
requested_of none = cpu
requested_of (some value) =
    let name = normalise_backend_preference value in
    if str_eq name "intel_auto"
    then intel_auto
    else if str_eq name "intel_qsv"
    then intel_qsv
    else if str_eq name "intel_vaapi"
    then intel_vaapi
    else if str_eq name "nvidia_gpu"
    then nvidia_gpu
    else if str_eq name "amd_gpu"
    then amd_gpu
    else cpu

pub data Accelerator : Type 0 where
  cpu nvenc qsv vaapi amf : Accelerator

-- A probe's details of one kind of acceleration; `command_prefix` is what `_string_list` keeps of it, and
-- `none` among the devices is an entry without a path.
pub record AccelerationDetails : Type 0 where
  pub usable : Bool
  pub command_prefix : List String
  pub render_devices : List String
  pub device_paths : List (Option String)

pub record BackendProbe : Type 0 where
  pub usable : Bool
  pub qsv : AccelerationDetails
  pub vaapi : AccelerationDetails
  pub amf : AccelerationDetails

pub record SelectedExecutionBackend : Type 0 where
  pub requested_backend : RequestedBackend
  pub actual_backend : RequestedBackend
  pub accelerator : Accelerator
  pub video_encoder : String
  pub command_prefix : List Flag
  pub video_filter : Option String
  pub fallback_used : Bool
  pub device_path : Option String

-- The tables of encoders, by the codec's code points.
abbrev pub either_codec : String → String → List ℕ → Option String
either_codec h264 hevc codec =
    if list_eq codec (codes "h264")
    then some h264
    else if list_eq codec (codes "hevc")
    then some hevc
    else none

abbrev pub cpu_encoders : List ℕ → Option String
cpu_encoders codec =
    if list_eq codec (codes "av1")
    then some "libaom-av1"
    else either_codec "libx264" "libx265" codec

abbrev pub encoder_of : Accelerator → List ℕ → Option String
encoder_of Accelerator.cpu codec = cpu_encoders codec
encoder_of Accelerator.nvenc codec = either_codec "h264_nvenc" "hevc_nvenc" codec
encoder_of Accelerator.qsv codec = either_codec "h264_qsv" "hevc_qsv" codec
encoder_of Accelerator.vaapi codec = either_codec "h264_vaapi" "hevc_vaapi" codec
encoder_of Accelerator.amf codec = either_codec "h264_amf" "hevc_amf" codec

abbrev pub texts : List String → List Flag
texts [] = []
texts (t ∷ ts) = text t ∷ texts ts

-- `_first_device_path`
abbrev pub first_device_path : List (Option String) → Option String
first_device_path [] = none
first_device_path (none ∷ paths) = first_device_path paths
first_device_path (some path ∷ paths) =
    let rest = first_device_path paths in if str_eq path "" then rest else some path

abbrev pub first_device : List String → Option String
first_device [] = none
first_device (device ∷ devices) = some device

-- `_string_list(...) or [...]`, with a device where there is one and the system is not Windows.
abbrev pub default_qsv_prefix : Bool → List String → List Flag
default_qsv_prefix on_windows [] =
    texts ("-init_hw_device" ∷ "qsv=qs" ∷ "-filter_hw_device" ∷ "qs" ∷ [])
default_qsv_prefix on_windows (device ∷ devices) =
    if on_windows
    then texts ("-init_hw_device" ∷ "qsv=qs" ∷ "-filter_hw_device" ∷ "qs" ∷ [])
    else text "-init_hw_device" ∷ child_device device ∷ texts ("-filter_hw_device" ∷ "qs" ∷ [])

unfoldable pub qsv_prefix : Bool → AccelerationDetails → List Flag
qsv_prefix on_windows details =
    if is_empty details.command_prefix
    then default_qsv_prefix on_windows details.render_devices
    else texts details.command_prefix

-- `(target_codec or "hevc").strip().lower()`
abbrev pub codec_of : Option String → List ℕ
codec_of none = codes "hevc"
codec_of (some target) = if str_eq target "" then codes "hevc" else lower (strip (codes target))

module _ (requested : RequestedBackend) (codec : List ℕ) where
  -- `_cpu_selection`; none is a `BackendSelectionError`.
  abbrev pub cpu_selected : Bool → Option String → Option SelectedExecutionBackend
  cpu_selected fallback_used none = none
  cpu_selected fallback_used (some encoder) = some (record {
    requested_backend = requested;
    actual_backend = RequestedBackend.cpu;
    accelerator = Accelerator.cpu;
    video_encoder = encoder;
    command_prefix = [];
    video_filter = none;
    fallback_used = fallback_used;
    device_path = none;
  })

  unfoldable pub cpu_selection : Bool → Option SelectedExecutionBackend
  cpu_selection fallback_used = cpu_selected fallback_used (encoder_of Accelerator.cpu codec)

  -- A selection of an accelerated encoder, when the codec has one.
  abbrev pub accelerated :
      RequestedBackend
      → Accelerator
      → List Flag
      → Option String
      → Option String
      → Option String
      → Option SelectedExecutionBackend
  accelerated actual accelerator prefix filter device none = none
  accelerated actual accelerator prefix filter device (some encoder) = some (record {
    requested_backend = requested;
    actual_backend = actual;
    accelerator = accelerator;
    video_encoder = encoder;
    command_prefix = prefix;
    video_filter = filter;
    fallback_used = false;
    device_path = device;
  })

  -- VAAPI needs a device.
  abbrev pub vaapi_on : RequestedBackend → Option String → Option SelectedExecutionBackend
  vaapi_on actual none = none
  vaapi_on actual (some device) =
      accelerated actual Accelerator.vaapi (texts ("-vaapi_device" ∷ device ∷ []))
        (some "format=nv12,hwupload") (some device) (encoder_of Accelerator.vaapi codec)

  unfoldable pub qsv_selection : Bool → AccelerationDetails → Option SelectedExecutionBackend
  unfolding qsv_prefix
  qsv_selection on_windows details =
      accelerated RequestedBackend.intel_qsv Accelerator.qsv (qsv_prefix on_windows details)
        (some "format=nv12,hwupload=extra_hw_frames=64") (first_device details.render_devices)
        (encoder_of Accelerator.qsv codec)

  abbrev pub vaapi_selection :
      RequestedBackend → AccelerationDetails → Option SelectedExecutionBackend
  vaapi_selection actual details =
      if details.usable then vaapi_on actual (first_device_path details.device_paths) else none

  -- `_accelerated_selection` for a usable probe.
  unfoldable pub usable_selection : Bool → BackendProbe → Option SelectedExecutionBackend
  unfolding qsv_selection
  usable_selection on_windows probe = elim requested [
    | RequestedBackend.cpu ↦ none
    | RequestedBackend.intel_auto ↦
        if probe.qsv.usable
        then qsv_selection on_windows probe.qsv
        else vaapi_selection RequestedBackend.intel_vaapi probe.vaapi
    | RequestedBackend.intel_qsv ↦
        if probe.qsv.usable then qsv_selection on_windows probe.qsv else none
    | RequestedBackend.intel_vaapi ↦ vaapi_selection RequestedBackend.intel_vaapi probe.vaapi
    | RequestedBackend.nvidia_gpu ↦
        accelerated RequestedBackend.nvidia_gpu Accelerator.nvenc [] none none
          (encoder_of Accelerator.nvenc codec)
    | RequestedBackend.amd_gpu ↦
        if probe.amf.usable
        then accelerated RequestedBackend.amd_gpu Accelerator.amf [] none none
            (encoder_of Accelerator.amf codec)
        else vaapi_selection RequestedBackend.amd_gpu probe.vaapi
  ]

  -- `_accelerated_selection`
  unfoldable pub accelerated_selection :
      Bool → Option BackendProbe → Option SelectedExecutionBackend
  unfolding usable_selection
  accelerated_selection on_windows none = none
  accelerated_selection on_windows (some probe) =
      if probe.usable then usable_selection on_windows probe else none

  abbrev pub or_cpu : Bool → Option SelectedExecutionBackend → Option SelectedExecutionBackend
  or_cpu allow_cpu_fallback (some selection) = some selection
  or_cpu allow_cpu_fallback none = if allow_cpu_fallback then cpu_selection true else none

-- The probe that answers for a preference, by the key of `probe_backend_for_preference`.
abbrev pub probe_backend_for_preference : RequestedBackend → String
probe_backend_for_preference RequestedBackend.cpu = "cpu"
probe_backend_for_preference RequestedBackend.intel_auto = "intel_igpu"
probe_backend_for_preference RequestedBackend.intel_qsv = "intel_igpu"
probe_backend_for_preference RequestedBackend.intel_vaapi = "intel_igpu"
probe_backend_for_preference RequestedBackend.nvidia_gpu = "nvidia_gpu"
probe_backend_for_preference RequestedBackend.amd_gpu = "amd_gpu"

abbrev pub is_cpu : RequestedBackend → Bool
is_cpu RequestedBackend.cpu = true
is_cpu RequestedBackend.intel_auto = false
is_cpu RequestedBackend.intel_qsv = false
is_cpu RequestedBackend.intel_vaapi = false
is_cpu RequestedBackend.nvidia_gpu = false
is_cpu RequestedBackend.amd_gpu = false

-- None is a `BackendSelectionError`.
unfoldable pub select_execution_backend :
    Bool
    → (String → Option BackendProbe)
    → Option String
    → Bool
    → Option String
    → Option SelectedExecutionBackend
select_execution_backend on_windows probes preferred_backend allow_cpu_fallback target_codec =
    let requested = requested_of preferred_backend in
    let codec = codec_of target_codec in
    if is_cpu requested
    then cpu_selection requested codec false
    else or_cpu requested codec allow_cpu_fallback (
        accelerated_selection requested codec on_windows
          (probes (probe_backend_for_preference requested)))
