-- ===== src/Execution/Exclusions.antt =====
-- packages/core/encodr_core/media/exclusions.py: the files that encodr makes itself. A name is a list of code
-- points, and whether the path lies in the scratch directory, which `resolve` decides, is an argument.
use encodr.Prelude.{
  ℕ, String, Bool, ◌||◌, not, Option, none, some, List, [], ◌∷◌, if◌then◌else◌, codes, is_none,
  is_empty, list_eq, lower, is_prefix, is_infix,
}

-- `text.endswith(part)`, the part first.
unfoldable pub is_suffix : List ℕ → List ℕ → Bool
is_suffix part [] = is_empty part
is_suffix part (c ∷ cs) = list_eq part (c ∷ cs) || is_suffix part cs

abbrev pub marks : String → String → List ℕ → Bool
marks inside ending name = is_infix (codes inside) name || is_suffix (codes ending) name

unfoldable pub encodr_exclusion_reason : Bool → List ℕ → Option String
encodr_exclusion_reason in_scratch file_name =
    let name = lower file_name in
    if in_scratch
    then some "Encodr scratch workspace files cannot be processed."
    else if marks ".encodr-backup." ".encodr-backup" name
    then some "Encodr backup files are managed separately and cannot be processed."
    else if marks ".encodr-restored-replacement." ".encodr-restored-replacement" name
    then some "Encodr restored replacement files cannot be queued for processing."
    else if marks ".tmp." ".tmp" name
    then some "Encodr temporary or staged output files cannot be processed."
    else if marks ".partial." ".partial" name
    then some "Encodr temporary or staged output files cannot be processed."
    else if is_infix (codes ".encodr-scratch.") name || is_prefix (codes "encodr-scratch.") name
    then some "Encodr scratch workspace files cannot be processed."
    else none

unfoldable pub is_encodr_excluded_path : Bool → List ℕ → Bool
is_encodr_excluded_path in_scratch file_name =
    not (is_none (encodr_exclusion_reason in_scratch file_name))
