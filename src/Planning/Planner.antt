-- ===== src/Planning/Planner.antt =====
-- `build_processing_plan` of packages/core/encodr_core/planning/planner.py, from the resolved policy.
pub mod Laws
pub mod Streams
use encodr.Prelude.{
  ℕ, String, Bool, true, false, not, ◌&&◌, ◌||◌, Option, none, some, List, [], ◌∷◌, ◌++◌,
  if◌then◌else◌, is_empty, str_eq,
}
use encodr.Config.{
  AudioRules, SubtitleRules, VideoRules, ReplacementRules, LanguagePreferences, OutputContainer,
  PolicyDecision, container_value, allows,
}
use encodr.Media.{MediaFile}
use encodr.Planning.Models.{
  PlanAction, ConfidenceLevel, manual_review, high, medium, low, preserve, remux_to_target,
  PlanReason, PlanWarning, VideoPlan, ContainerPlan, ReplacePlan, ProcessingPlan, make_reason,
}
use encodr.Planning.Audio.{select_audio_streams}
use encodr.Planning.Subtitles.{select_subtitle_streams}
use encodr.Planning.Video.{build_video_plan}

-- The rules of the `ResolvedPlanningPolicy`.
pub record ResolvedPolicy : Type 0 where
  pub audio_rules : AudioRules
  pub subtitle_rules : SubtitleRules
  pub video_rules : VideoRules
  pub replacement_rules : ReplacementRules

-- `build_replace_plan` of rules.py
unfoldable pub build_replace_plan : ResolvedPolicy → ReplacePlan
build_replace_plan policy = record {
  in_place = policy.replacement_rules.in_place;
  require_verification = policy.replacement_rules.require_verification;
  keep_original_until_verified = policy.replacement_rules.keep_original_until_verified;
  delete_replaced_source = policy.replacement_rules.delete_replaced_source;
  existing_backup_strategy = "fail";
}

extension_differs : Option String → String → Bool
extension_differs none target = true
extension_differs (some extension) target = not (str_eq extension target)

unfoldable pub build_container_plan : MediaFile → OutputContainer → ContainerPlan
unfolding extension_differs
build_container_plan media_file target =
    let change_required = extension_differs media_file.extension (container_value target) in
    record {
      source_extension = media_file.extension;
      target_container = target;
      handling = if change_required then remux_to_target else preserve;
      change_required = change_required;
    }

determine_4k_action : VideoRules → Bool → Bool → PlanAction
determine_4k_action rules transcode_required compliance_candidate =
    if transcode_required
    then (if not rules.four_k.allow_transcode then manual_review else PlanAction.transcode)
    else if compliance_candidate
    then PlanAction.skip
    else PlanAction.remux

determine_non_4k_action : VideoRules → Bool → Bool → Bool → Bool → PlanAction
determine_non_4k_action rules transcode_required compliance_candidate stream_cleanup
      container_change =
    let order = rules.non_4k.decision_order in
    if transcode_required
    then (if not rules.non_4k.allow_transcode
        then manual_review
        else if not (allows order PolicyDecision.transcode)
        then manual_review
        else PlanAction.transcode)
    else if stream_cleanup || container_change
    then (if not (allows order PolicyDecision.remux) then manual_review else PlanAction.remux)
    else if compliance_candidate && allows order PolicyDecision.skip
    then PlanAction.skip
    else manual_review

unfoldable pub determine_action : Bool → VideoRules → Bool → Bool → Bool → Bool → Bool → PlanAction
unfolding determine_4k_action determine_non_4k_action
determine_action is_4k rules transcode_required compliance_candidate stream_cleanup container_change
      manual_required =
    if manual_required
    then manual_review
    else if is_4k
    then determine_4k_action rules transcode_required compliance_candidate
    else determine_non_4k_action rules transcode_required compliance_candidate stream_cleanup
        container_change

abbrev pub is_manual_review : PlanAction → Bool
is_manual_review manual_review = true
is_manual_review _ = false

abbrev pub is_skip : PlanAction → Bool
is_skip PlanAction.skip = true
is_skip _ = false

unfoldable pub determine_confidence : PlanAction → List PlanWarning → ConfidenceLevel
determine_confidence action warnings =
    if is_manual_review action then low else if is_empty warnings then high else medium

abbrev to_list : Option ℕ → List ℕ
to_list none = []
to_list (some i) = i ∷ []

unfoldable pub build_processing_plan :
    MediaFile → ResolvedPolicy → LanguagePreferences → ProcessingPlan
build_processing_plan media_file policy languages =
    let audio_result = select_audio_streams media_file policy.audio_rules languages in
    let subtitle_result = select_subtitle_streams media_file policy.subtitle_rules languages in
    let (video_plan, video_reasons, review_for_video) =
      build_video_plan media_file policy.video_rules in
    let container_plan = build_container_plan media_file policy.video_rules.output_container in
    let warnings = audio_result.warnings ++ subtitle_result.warnings in
    let protected =
      media_file.is_4k || media_file.is_hdr_candidate || media_file.has_atmos_capable_audio in
    let stream_cleanup_needed =
      not (is_empty audio_result.intent.dropped_stream_indices)
      || not (is_empty subtitle_result.intent.dropped_stream_indices) in
    let compliance_candidate =
      not video_plan.transcode_required
      && not stream_cleanup_needed
      && not container_plan.change_required
      && is_empty warnings
      && not audio_result.intent.missing_required_audio
      && is_empty subtitle_result.intent.ambiguous_forced_stream_indices in
    let manual_required =
      review_for_video || audio_result.requires_manual_review
      || subtitle_result.requires_manual_review in
    let action =
      determine_action media_file.is_4k policy.video_rules video_plan.transcode_required
        compliance_candidate stream_cleanup_needed container_plan.change_required manual_required in
    let confidence = determine_confidence action warnings in
    record {
      action = action;
      summary = record {
        action = action;
        confidence = confidence;
        is_already_compliant = is_skip action;
        should_treat_as_protected = protected;
      };
      selected_streams = record {
        video_stream_indices = to_list video_plan.primary_stream_index;
        audio_stream_indices = audio_result.intent.selected_stream_indices;
        subtitle_stream_indices = subtitle_result.intent.selected_stream_indices;
        attachment_stream_indices = media_file.attachment_indices;
        data_stream_indices = media_file.data_indices;
        unknown_stream_indices = [];
      };
      audio = audio_result.intent;
      subtitles = subtitle_result.intent;
      video = video_plan;
      container = container_plan;
      replace = build_replace_plan policy;
      reasons =
          audio_result.reasons
          ++ (subtitle_result.reasons
              ++ (video_reasons
                  ++ (if is_skip action then make_reason "already_compliant" [] ∷ [] else [])));
      warnings = warnings;
      confidence = confidence;
      is_already_compliant = is_skip action;
      should_treat_as_protected = protected;
    }
