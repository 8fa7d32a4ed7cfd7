-- ===== src/Execution/Safety.antt =====
-- packages/core/encodr_core/execution/safety.py: the guards on the size and the rate of an encoded output. The
-- percentages are compared as whole numbers, multiplied out; messages are left out.
use encodr.Prelude.{
  ℕ, ◌+◌, ◌*◌, ◌≤◌, ◌≡◌, Bool, true, false, not, ◌&&◌, ◌||◌, Option, none, some, ◌⊎◌, String,
  if◌then◌else◌, ◌==◌, ltb, leb, is_none,
}
use encodr.Planning.Models.{VideoPlan}
use encodr.Jobs.Models.{ℤ, pos, negsuc}
use encodr.Execution.Metrics.{Reduction, MediaSavings}

pub data SafetyFailure : Type 0 where
  output_larger_than_input unmeasurable bitrate_floor exceeded : SafetyFailure

abbrev pub failure_category : SafetyFailure → String
failure_category output_larger_than_input = "output_larger_than_input"
failure_category unmeasurable = "compression_safety_unmeasurable"
failure_category bitrate_floor = "compression_safety_bitrate_floor"
failure_category exceeded = "compression_safety_exceeded"

-- `output_size > input_size * (1 + guard_percent / 100.0)`
abbrev pub grows_past : ℕ → ℕ → ℕ → Bool
grows_past guard_percent input output =
    not (input == 0) && ltb (input * (100 + guard_percent)) (output * 100)

abbrev larger : Option ℕ → Option ℕ → Option ℕ → Bool
larger none input output = false
larger (some guard_percent) none output = false
larger (some guard_percent) (some input) none = false
larger (some guard_percent) (some input) (some output) = grows_past guard_percent input output

-- `_output_larger_than_input_failure`, whether it fails.
unfoldable pub output_larger_than_input_failure : VideoPlan → MediaSavings → Bool
output_larger_than_input_failure video metrics =
    larger video.output_larger_than_input_review_percent metrics.input_size_bytes
      metrics.output_size_bytes

-- `reduction <= limit`; a video that has grown has a negative reduction.
abbrev within_saved : ℕ → ℕ → ℤ → Bool
within_saved limit size (pos saved) = leb (saved * 100) (limit * size)
within_saved limit size (negsuc grown) = true

abbrev pub within_limit : ℕ → Reduction → Bool
within_limit limit r = within_saved limit r.size r.saved

-- `minimum is not None and output is not None and output < minimum`, and with `output >= minimum`.
abbrev pub below_floor : Option ℕ → Option ℕ → Bool
below_floor (some minimum) (some output) = ltb output minimum
below_floor (some minimum) none = false
below_floor none output = false

abbrev pub meets_floor : Option ℕ → Option ℕ → Bool
meets_floor (some minimum) (some output) = leb minimum output
meets_floor (some minimum) none = false
meets_floor none output = false

-- The end of `evaluate_execution_safety`, once the reduction is measured.
unfoldable pub judge_reduction : ℕ → Reduction → Option ℕ → Option ℕ → Option SafetyFailure
judge_reduction limit reduction minimum output =
    if below_floor minimum output
    then some bitrate_floor
    else if within_limit limit reduction
    then none
    else if meets_floor minimum output
    then none
    else if is_none minimum || is_none output
    then some unmeasurable
    else some exceeded

abbrev pub judge_measured : ℕ → Option Reduction → Option ℕ → Option ℕ → Option SafetyFailure
judge_measured limit none minimum output = some unmeasurable
judge_measured limit (some reduction) minimum output =
    judge_reduction limit reduction minimum output

abbrev pub judge_limited : Option ℕ → Option Reduction → Option ℕ → Option ℕ → Option SafetyFailure
judge_limited none reduction minimum output = none
judge_limited (some limit) reduction minimum output = judge_measured limit reduction minimum output

unfoldable pub evaluate_execution_safety : VideoPlan → MediaSavings → Option SafetyFailure
evaluate_execution_safety video metrics =
    if output_larger_than_input_failure video metrics
    then some output_larger_than_input
    else if not video.transcode_required
    then none
    else judge_limited video.max_allowed_video_reduction_percent metrics.compression_reduction
        video.minimum_output_bitrate_bps metrics.output_video_bitrate_bps

-- The growth of the output is within the guard, when there is one and both sizes are known.
abbrev pub GrowthBounded : Option ℕ → Option ℕ → Option ℕ → Type 0
GrowthBounded none input output = Unit
GrowthBounded (some guard_percent) none output = Unit
GrowthBounded (some guard_percent) (some input) none = Unit
GrowthBounded (some guard_percent) (some input) (some output) =
    (input ≡ 0) ⊎ (output * 100 ≤ input * (100 + guard_percent))

abbrev pub SavedBounded : ℕ → ℕ → ℤ → Type 0
SavedBounded limit size (pos saved) = saved * 100 ≤ limit * size
SavedBounded limit size (negsuc grown) = Unit

-- The rate of the output is not below the floor, so far as both are known; or both are known, and it is not.
abbrev pub FloorKept : Option ℕ → Option ℕ → Type 0
FloorKept (some minimum) (some output) = minimum ≤ output
FloorKept (some minimum) none = Unit
FloorKept none output = Unit

abbrev pub FloorKnown : Option ℕ → Option ℕ → Type 0
FloorKnown (some minimum) (some output) = minimum ≤ output
FloorKnown (some minimum) none = ⊥
FloorKnown none output = ⊥

abbrev pub ReductionBounded : Bool → Option ℕ → Option Reduction → Option ℕ → Option ℕ → Type 0
ReductionBounded false limit reduction minimum output = Unit
ReductionBounded true none reduction minimum output = Unit
ReductionBounded true (some limit) none minimum output = ⊥
ReductionBounded true (some limit) (some r) minimum output =
    FloorKept minimum output × (SavedBounded limit r.size r.saved ⊎ FloorKnown minimum output)
