-- ===== src/Execution/Backend/Quality.antt =====
-- The quality flags of packages/core/encodr_core/execution/backend_selection.py.
use encodr.Prelude.{
  ℕ, ◌+◌, String, Bool, false, Option, none, some, List, [], ◌∷◌, if◌then◌else◌, str_eq, leb,
}
use encodr.Config.{VideoQualityMode}
use encodr.Execution.Backend.{Flag, text, number, child_device, texts, Accelerator}

-- `flags[flags.index(option) + 1] = str(value)`, at the first place of the option.
abbrev pub is_text : String → Flag → Bool
is_text option (text t) = str_eq t option
is_text option (number n) = false
is_text option (child_device d) = false

abbrev pub replace_next : Flag → List Flag → List Flag
replace_next value [] = []
replace_next value (f ∷ flags) = value ∷ flags

unfoldable pub replace_at_option : List Flag → String → Flag → List Flag
replace_at_option [] option value = []
replace_at_option (f ∷ flags) option value =
    let rest = replace_at_option flags option value in
    if is_text option f then f ∷ replace_next value flags else f ∷ rest

-- `_replace_quality_value`
unfoldable pub replace_quality_value : List Flag → String → Option ℕ → List Flag
replace_quality_value flags option none = flags
replace_quality_value flags option (some value) = replace_at_option flags option (number value)

abbrev pub quality_flags : Accelerator → VideoQualityMode → List Flag
quality_flags Accelerator.cpu VideoQualityMode.high_quality =
    texts ("-preset" ∷ "slow" ∷ "-crf" ∷ "18" ∷ [])
quality_flags Accelerator.cpu VideoQualityMode.balanced =
    texts ("-preset" ∷ "medium" ∷ "-crf" ∷ "20" ∷ [])
quality_flags Accelerator.cpu VideoQualityMode.efficient =
    texts ("-preset" ∷ "medium" ∷ "-crf" ∷ "23" ∷ [])
quality_flags Accelerator.nvenc VideoQualityMode.high_quality =
    texts ("-preset" ∷ "p5" ∷ "-rc" ∷ "vbr" ∷ "-cq" ∷ "19" ∷ [])
quality_flags Accelerator.nvenc VideoQualityMode.balanced =
    texts ("-preset" ∷ "p4" ∷ "-rc" ∷ "vbr" ∷ "-cq" ∷ "21" ∷ [])
quality_flags Accelerator.nvenc VideoQualityMode.efficient =
    texts ("-preset" ∷ "p3" ∷ "-rc" ∷ "vbr" ∷ "-cq" ∷ "24" ∷ [])
quality_flags Accelerator.qsv VideoQualityMode.high_quality = texts ("-global_quality" ∷ "19" ∷ [])
quality_flags Accelerator.qsv VideoQualityMode.balanced = texts ("-global_quality" ∷ "21" ∷ [])
quality_flags Accelerator.qsv VideoQualityMode.efficient = texts ("-global_quality" ∷ "24" ∷ [])
quality_flags Accelerator.vaapi VideoQualityMode.high_quality = texts ("-qp" ∷ "19" ∷ [])
quality_flags Accelerator.vaapi VideoQualityMode.balanced = texts ("-qp" ∷ "21" ∷ [])
quality_flags Accelerator.vaapi VideoQualityMode.efficient = texts ("-qp" ∷ "24" ∷ [])
quality_flags Accelerator.amf VideoQualityMode.high_quality =
    texts ("-quality" ∷ "quality" ∷ "-qp_i" ∷ "19" ∷ "-qp_p" ∷ "21" ∷ [])
quality_flags Accelerator.amf VideoQualityMode.balanced =
    texts ("-quality" ∷ "balanced" ∷ "-qp_i" ∷ "21" ∷ "-qp_p" ∷ "23" ∷ [])
quality_flags Accelerator.amf VideoQualityMode.efficient =
    texts ("-quality" ∷ "speed" ∷ "-qp_i" ∷ "24" ∷ "-qp_p" ∷ "26" ∷ [])

abbrev pub mode_or_default : Option VideoQualityMode → VideoQualityMode
mode_or_default none = VideoQualityMode.high_quality
mode_or_default (some mode) = mode

-- `min(51, quality_crf + 2)`
abbrev pub raised_quality : Option ℕ → Option ℕ
raised_quality none = none
raised_quality (some crf) = some (if leb (crf + 2) 51 then crf + 2 else 51)

unfoldable pub quality_flags_for_backend :
    Accelerator → Option VideoQualityMode → Option ℕ → List Flag
unfolding replace_quality_value
quality_flags_for_backend accelerator mode crf =
    let flags = quality_flags accelerator (mode_or_default mode) in
    elim accelerator [
      | Accelerator.cpu ↦ replace_quality_value flags "-crf" crf
      | Accelerator.nvenc ↦ replace_quality_value flags "-cq" crf
      | Accelerator.qsv ↦ replace_quality_value flags "-global_quality" crf
      | Accelerator.vaapi ↦ replace_quality_value flags "-qp" crf
      | Accelerator.amf ↦
          replace_quality_value (replace_quality_value flags "-qp_i" crf) "-qp_p"
            (raised_quality crf)
    ]
