-- ===== src/Planning/Audio.antt =====
-- `select_audio_streams` of packages/core/encodr_core/planning/selection.py, with its scores.
pub mod Members
pub mod Laws
pub mod Choice
pub mod Unique
use encodr.Prelude.{
  ℕ, String, Bool, true, false, not, ◌&&◌, ◌||◌, Option, none, some, List, [], ◌∷◌, ◌++◌, map,
  if◌then◌else◌, ◌==◌, leb, iff, option_eq, length, take, filter, any, contains, is_empty, head?,
  str_eq, codes, list_eq, lower, is_infix,
}
use Prim.Native.Nat.{max}
use mathlib.Core.Option
use encodr.Config.{AudioRules, LanguagePreferences}
use encodr.Media.{AudioStream, MediaFile}
use encodr.Planning.Models.{
  AudioSelectionIntent, PlanReason, PlanWarning, stream_indices, make_reason, make_warning,
}
use encodr.Planning.Languages.{
  language_code, ordered_language_codes, unique_languages, language_ranks, rank_of, is_ranked,
}
use encodr.Planning.Scores.{Key, sorted_reverse}
use encodr.Planning.Append.{append_new}
use encodr.Planning.Best.{select_best}

pub record AudioSelectionResult : Type 0 where
  pub intent : AudioSelectionIntent
  pub reasons : List PlanReason
  pub warnings : List PlanWarning
  pub requires_manual_review : Bool

abbrev pub or_zero : Option ℕ → ℕ
or_zero none = 0
or_zero (some n) = n

abbrev pub or_empty : Option String → String
or_empty none = ""
or_empty (some s) = s

abbrev flag : Bool → ℕ
flag b = if b then 1 else 0

is_seven_one_candidate : AudioStream → Bool
is_seven_one_candidate s =
    leb 8 (or_zero s.channels) || is_infix (codes "7.1") (lower (codes (or_empty s.channel_layout)))

-- `len(ranked) - ranked.index(lowered)`, or 0 where it is not listed.
codec_rank : List ℕ → List String → ℕ
codec_rank lowered [] = 0
codec_rank lowered (codec ∷ codecs) =
    if list_eq (lower (codes codec)) lowered
    then length (codec ∷ codecs)
    else codec_rank lowered codecs

score_codec_preference : Option String → List String → ℕ
unfolding codec_rank
score_codec_preference none preferred_codecs = 0
score_codec_preference (some codec_name) preferred_codecs =
    codec_rank (lower (codes codec_name)) preferred_codecs

quality_ranks : AudioStream → AudioRules → List ℕ
unfolding is_seven_one_candidate score_codec_preference
quality_ranks s rules =
    flag (s.is_atmos_capable && rules.preserve_atmos_capable)
    ∷ flag (is_seven_one_candidate s && rules.preserve_seven_one)
    ∷ flag (s.is_surround_candidate && rules.preserve_best_surround)
    ∷ or_zero s.channels
    ∷ score_codec_preference s.codec_name rules.preferred_codecs
    ∷ flag s.default
    ∷ []

unfoldable pub audio_quality_score : AudioRules → AudioStream → Key
unfolding quality_ranks
audio_quality_score rules s = record { ranks = quality_ranks s rules; index = s.index }

unfoldable pub audio_stream_score : AudioRules → List (String × ℕ) → AudioStream → Key
unfolding quality_ranks
audio_stream_score rules preferred_language_ranks s = record {
  ranks = rank_of preferred_language_ranks (language_code s.language) ∷ quality_ranks s rules;
  index = s.index;
}

-- The equality of two streams, as models.
unfoldable pub same_audio : AudioStream → AudioStream → Bool
same_audio a b =
    a.index == b.index
    && option_eq str_eq a.codec_name b.codec_name
    && option_eq str_eq a.language b.language
    && iff a.default b.default
    && option_eq ◌==◌ a.channels b.channels
    && option_eq str_eq a.channel_layout b.channel_layout
    && iff a.is_commentary_candidate b.is_commentary_candidate
    && iff a.is_surround_candidate b.is_surround_candidate
    && iff a.is_atmos_capable b.is_atmos_capable

abbrev pub audio_language : AudioStream → String
audio_language s = language_code s.language

unfoldable pub select_best_audio_by_language :
    List AudioStream → AudioRules → List String → List AudioStream
select_best_audio_by_language streams rules order =
    select_best audio_language (audio_quality_score rules) streams order

-- The loop that fills the selection up; it stops as soon as there are `limit` streams.
unfoldable pub fill : ℕ → List AudioStream → List AudioStream → List AudioStream
fill limit selected [] = selected
fill limit selected (s ∷ ss) =
    let grown = append_new same_audio selected s in
    let rest = fill limit grown ss in if leb limit (length grown) then grown else rest

abbrev pub audio_indices : List AudioStream → List ℕ
audio_indices = map (λ s. s.index)

abbrev pub is_undetermined : AudioStream → Bool
is_undetermined s = str_eq (language_code s.language) "und"

module _ (media_file : MediaFile) (rules : AudioRules) where
  unfoldable pub preferred_language_order : List String
  preferred_language_order = ordered_language_codes rules.keep_languages

  unfoldable pub is_preferred : AudioStream → Bool
  unfolding preferred_language_order
  is_preferred s = is_ranked (language_ranks preferred_language_order) (language_code s.language)

  unfoldable pub preferred_streams : List AudioStream
  preferred_streams = filter is_preferred media_file.audio_streams

  unfoldable pub candidate_streams : List AudioStream
  candidate_streams =
      if rules.keep_only_preferred_languages then preferred_streams else media_file.audio_streams

  unfoldable pub selectable_streams : List AudioStream
  selectable_streams =
      filter (λ s. rules.allow_commentary || not s.is_commentary_candidate) candidate_streams

  commentary_removed : List ℕ
  commentary_removed =
      audio_indices
        (filter (λ s. s.is_commentary_candidate && not rules.allow_commentary) candidate_streams)

  commentary_reasons : List PlanReason
  unfolding commentary_removed
  commentary_reasons =
      if is_empty commentary_removed
      then []
      else make_reason "commentary_audio_removed"
          (("stream_indices", stream_indices commentary_removed) ∷ [])
        ∷ []

  -- The result of both early returns.
  no_audio : List PlanReason → List PlanWarning → AudioSelectionResult
  unfolding commentary_removed
  no_audio reasons warnings = record {
    intent = record {
      selected_stream_indices = [];
      dropped_stream_indices = audio_indices media_file.audio_streams;
      required_language_codes = [];
      primary_stream_index = none;
      preserved_atmos_stream_indices = [];
      preserved_surround_stream_indices = [];
      commentary_removed_stream_indices = commentary_removed;
      available_preferred_language_stream_indices = audio_indices preferred_streams;
      missing_required_audio = true;
    };
    reasons = reasons;
    warnings = warnings;
    requires_manual_review = true;
  }

  unfoldable pub effective_max_tracks : ℕ
  effective_max_tracks = max rules.max_tracks_to_keep (length preferred_language_order)

  -- `selected`, as it starts.
  unfoldable pub best_audio : List AudioStream
  best_audio = select_best_audio_by_language selectable_streams rules preferred_language_order

  unfoldable pub sorted_streams : List AudioStream
  sorted_streams =
      sorted_reverse (audio_stream_score rules (language_ranks preferred_language_order))
        selectable_streams

  -- `selected`, after its truncation.
  unfoldable pub selected_audio : List AudioStream
  selected_audio = take effective_max_tracks (
      if rules.keep_only_preferred_languages
      then best_audio
      else fill rules.max_tracks_to_keep best_audio sorted_streams)

  unfoldable pub dropped_audio : List ℕ
  dropped_audio =
      filter (λ i. not (contains (audio_indices selected_audio) i))
        (audio_indices media_file.audio_streams)

  non_preferred_removed : List ℕ
  non_preferred_removed = audio_indices (
      filter (λ s. not (is_preferred s) && contains dropped_audio s.index) media_file.audio_streams)

  abbrev reason_if_any : String → List ℕ → List PlanReason
  reason_if_any code indices =
      if is_empty indices
      then []
      else make_reason code (("stream_indices", stream_indices indices) ∷ []) ∷ []

  -- The rest of the function, where some stream is selectable.
  unfoldable pub choose_audio : AudioSelectionResult
  unfolding commentary_reasons commentary_removed non_preferred_removed
  choose_audio = record {
    intent = record {
      selected_stream_indices = audio_indices selected_audio;
      dropped_stream_indices = dropped_audio;
      required_language_codes = unique_languages (map (λ s. s.language) selected_audio);
      primary_stream_index = head? (audio_indices selected_audio);
      preserved_atmos_stream_indices =
          audio_indices (filter (λ s. s.is_atmos_capable) selected_audio);
      preserved_surround_stream_indices =
          audio_indices (filter (λ s. s.is_surround_candidate) selected_audio);
      commentary_removed_stream_indices = commentary_removed;
      available_preferred_language_stream_indices = audio_indices preferred_streams;
      missing_required_audio = false;
    };
    reasons =
        commentary_reasons
        ++ ((if rules.keep_only_preferred_languages
              then reason_if_any "non_preferred_audio_removed" non_preferred_removed
              else [])
            ++ (reason_if_any "atmos_audio_preserved"
                  (audio_indices (filter (λ s. s.is_atmos_capable) selected_audio))
                ++ reason_if_any "best_surround_audio_preserved"
                    (audio_indices (filter (λ s. s.is_surround_candidate) selected_audio))));
    warnings =
        if rules.keep_only_preferred_languages && any is_undetermined media_file.audio_streams
        then make_warning "undetermined_audio_not_selected" [] ∷ []
        else [];
    requires_manual_review = false;
  }

  unfoldable pub select_audio_streams : LanguagePreferences → AudioSelectionResult
  unfolding no_audio choose_audio commentary_reasons
  select_audio_streams language_rules =
      if rules.keep_only_preferred_languages && is_empty preferred_streams
      then no_audio
          (commentary_reasons ++ make_reason "manual_review_missing_english_audio" [] ∷ [])
          (if any is_undetermined media_file.audio_streams
              && not language_rules.drop_undetermined_audio
            then make_warning "undetermined_audio_present" [] ∷ []
            else [])
      else if is_empty selectable_streams
      then no_audio (commentary_reasons ++ make_reason "manual_review_no_usable_audio" [] ∷ []) []
      else choose_audio
