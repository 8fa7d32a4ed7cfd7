-- ===== src/Jobs/Policies.antt =====
-- The functions at the foot of packages/db/encodr_db/repositories/jobs.py, its retry delay, and the backend
-- names of packages/shared/encodr_shared/backend_preferences.py.
use encodr.Prelude.{
  ℕ, ◌-◌, ◌*◌, ◌^◌, Bool, true, false, ◌||◌, Option, none, some, List, String, if◌then◌else◌, leb,
  length, take, is_empty, codes, list_eq, lower, strip,
}
use encodr.Planning.Models.{PlanAction}
use encodr.Jobs.Models.{
  ℤ, pos, negsuc, BackupPolicy, JobVerificationStatus, JobReplacementStatus, ExecutionResult,
  TrackedFile, PlanSnapshot,
}

abbrev pub policy_text : BackupPolicy → List ℕ
policy_text BackupPolicy.keep = codes "keep"
policy_text BackupPolicy.delete_after_success = codes "delete_after_success"
policy_text BackupPolicy.keep_for_1_day = codes "keep_for_1_day"
policy_text BackupPolicy.discovered = codes "discovered"

-- `aliases.get(cleaned, "keep")`
abbrev policy_of : List ℕ → BackupPolicy
policy_of cleaned =
    if list_eq cleaned (codes "delete_after_success")
      || (list_eq cleaned (codes "delete_backup_after_success")
          || list_eq cleaned (codes "no_backup"))
    then BackupPolicy.delete_after_success
    else if list_eq cleaned (codes "keep_for_1_day") || list_eq cleaned (codes "keep_for_one_day")
    then BackupPolicy.keep_for_1_day
    else BackupPolicy.keep

-- The empty text is `"keep"` too; `None` is the empty text here.
unfoldable pub normalise_backup_policy : List ℕ → BackupPolicy
normalise_backup_policy value =
    policy_of (lower (strip (if is_empty value then codes "keep" else value)))

-- The test of `delete_replaced_source_for_backup_policy`, the policy normalised.
abbrev pub deletes_source : BackupPolicy → Bool → Bool
deletes_source BackupPolicy.delete_after_success fallback = true
deletes_source BackupPolicy.keep fallback = false
deletes_source BackupPolicy.keep_for_1_day fallback = false
deletes_source BackupPolicy.discovered fallback = fallback

unfoldable pub delete_replaced_source_for_backup_policy : List ℕ → Bool → Bool
delete_replaced_source_for_backup_policy value fallback =
    deletes_source (normalise_backup_policy value) fallback

abbrev pub log_limit : ℕ
log_limit = 8000

unfoldable pub truncate_log : Option (List ℕ) → Option (List ℕ)
truncate_log none = none
truncate_log (some value) =
    if leb (length value) log_limit then some value else some (take log_limit value)

unfoldable pub verification_status_for_result : ExecutionResult → JobVerificationStatus
verification_status_for_result result = elim result.verification [
  | none ↦ JobVerificationStatus.not_required
  | some JobVerificationStatus.passed ↦ JobVerificationStatus.passed
  | some JobVerificationStatus.failed ↦ JobVerificationStatus.failed
  | some JobVerificationStatus.pending ↦ JobVerificationStatus.not_required
  | some JobVerificationStatus.not_required ↦ JobVerificationStatus.not_required
]

abbrev pub stored_replacement_status : JobReplacementStatus → JobReplacementStatus
stored_replacement_status JobReplacementStatus.succeeded = JobReplacementStatus.succeeded
stored_replacement_status JobReplacementStatus.failed = JobReplacementStatus.failed
stored_replacement_status JobReplacementStatus.pending = JobReplacementStatus.not_required
stored_replacement_status JobReplacementStatus.not_required = JobReplacementStatus.not_required

unfoldable pub replacement_status_for_result : ExecutionResult → JobReplacementStatus
replacement_status_for_result result = elim result.replacement [
  | none ↦ JobReplacementStatus.not_required
  | some r ↦ stored_replacement_status r.status
]

-- `a - b`
abbrev pub subtract : ℕ → ℕ → ℤ
subtract a b = if leb b a then pos (a - b) else negsuc (b - a - 1)

unfoldable pub calculate_space_saved : Option ℕ → Option ℕ → Option ℤ
calculate_space_saved (some input) (some output) = some (subtract input output)
calculate_space_saved (some input) none = none
calculate_space_saved none output = none

abbrev is_manual_review_action : PlanAction → Bool
is_manual_review_action PlanAction.manual_review = true
is_manual_review_action action = false

-- The tracked file of the job, when it is there, and its plan snapshot.
unfoldable pub job_requires_manual_review : Option TrackedFile → PlanSnapshot → Bool
job_requires_manual_review none plan = false
job_requires_manual_review (some file) plan =
    file.operator_protected
    || (file.is_protected
        || (is_manual_review_action plan.action || plan.should_treat_as_protected))

abbrev pub max_automated_retries : ℕ
max_automated_retries = 3

abbrev pub microseconds_per_second : ℕ
microseconds_per_second = 1_000_000

-- `min`
abbrev pub lesser : ℕ → ℕ → ℕ
lesser a b = if leb a b then a else b

abbrev pub greater : ℕ → ℕ → ℕ
greater a b = if leb a b then b else a

-- In microseconds; `max(0, attempt_count - 2)` is the subtraction on ℕ.
unfoldable pub automatic_retry_delay : ℕ → ℕ
automatic_retry_delay attempt_count =
    lesser (60 * 2 ^ (attempt_count - 2)) (15 * 60) * microseconds_per_second

-- `_backup_listing_batch_size`
unfoldable pub backup_listing_batch_size : Option ℕ → ℕ
backup_listing_batch_size none = 250
backup_listing_batch_size (some limit) = greater 25 (lesser 250 limit)

abbrev pub either_text : String → String → List ℕ → Bool
either_text a b s = list_eq s (codes a) || list_eq s (codes b)

-- `BACKEND_PREFERENCE_ALIASES.get(cleaned, DEFAULT_NORMALISED_BACKEND)`
abbrev canonical_backend : List ℕ → String
canonical_backend cleaned =
    if either_text "prefer_intel_igpu" "intel_igpu" cleaned
      || either_text "intel_auto" "auto" cleaned
    then "intel_auto"
    else if either_text "qsv" "intel_qsv" cleaned
    then "intel_qsv"
    else if either_text "vaapi" "intel_vaapi" cleaned
    then "intel_vaapi"
    else if either_text "prefer_nvidia_gpu" "nvidia_gpu" cleaned
    then "nvidia_gpu"
    else if either_text "prefer_amd_gpu" "amd_gpu" cleaned
    then "amd_gpu"
    else "cpu"

-- An empty name stands for the default, whose canonical name is that of any unknown one.
unfoldable pub normalise_backend_preference : String → String
unfolding strip
normalise_backend_preference value = canonical_backend (strip (codes value))
