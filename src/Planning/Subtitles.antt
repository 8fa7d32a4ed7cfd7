-- ===== src/Planning/Subtitles.antt =====
-- `select_subtitle_streams` of packages/core/encodr_core/planning/selection.py.
pub mod Choice
pub mod Members
use encodr.Prelude.{
  ℕ, String, Bool, true, false, not, ◌&&◌, ◌||◌, Option, none, some, List, [], ◌∷◌, ◌++◌, map,
  if◌then◌else◌, ◌==◌, iff, option_eq, filter, any, contains, is_empty, head?, str_eq, codes, lower,
  is_infix,
}
use encodr.Config.{SubtitleRules, LanguagePreferences}
use encodr.Media.{SubtitleStream, MediaFile}
use encodr.Planning.Models.{
  SubtitleSelectionIntent, PlanReason, PlanWarning, stream_indices, make_reason, make_warning,
}
use encodr.Planning.Languages.{
  language_code, ordered_language_codes, unique_languages, language_ranks, rank_of, is_ranked,
}
use encodr.Planning.Scores.{Key, sorted_reverse}
use encodr.Planning.Append.{append_all_new}
use encodr.Planning.Best.{select_best}

pub record SubtitleSelectionResult : Type 0 where
  pub intent : SubtitleSelectionIntent
  pub reasons : List PlanReason
  pub warnings : List PlanWarning
  pub requires_manual_review : Bool

abbrev flag : Bool → ℕ
flag b = if b then 1 else 0

abbrev or_empty : Option String → String
or_empty none = ""
or_empty (some s) = s

-- `" ".join(values)`
join_spaces : List String → List ℕ
join_spaces [] = []
join_spaces (v ∷ []) = codes v
join_spaces (v ∷ w ∷ vs) = codes v ++ b' ' ∷ join_spaces (w ∷ vs)

unfoldable pub contains_forced_marker : SubtitleStream → Bool
unfolding join_spaces
contains_forced_marker s =
    is_infix (codes "forced")
      (lower (join_spaces (or_empty s.title ∷ or_empty s.handler_name ∷ s.raw_tags)))

unfoldable pub subtitle_stream_score : List (String × ℕ) → SubtitleStream → Key
subtitle_stream_score preferred_language_ranks s = record {
  ranks =
      rank_of preferred_language_ranks (language_code s.language)
      ∷ flag s.default
      ∷ flag s.is_forced
      ∷ [];
  index = s.index;
}

texts_eq : List String → List String → Bool
texts_eq [] [] = true
texts_eq (x ∷ xs) (y ∷ ys) = str_eq x y && texts_eq xs ys
texts_eq [] (y ∷ ys) = false
texts_eq (x ∷ xs) [] = false

-- The equality of two streams, as models.
unfoldable pub same_subtitle : SubtitleStream → SubtitleStream → Bool
unfolding texts_eq
same_subtitle a b =
    a.index == b.index
    && (option_eq str_eq a.codec_name b.codec_name
        && option_eq str_eq a.language b.language
        && option_eq str_eq a.title b.title
        && option_eq str_eq a.handler_name b.handler_name
        && texts_eq a.raw_tags b.raw_tags
        && iff a.default b.default
        && iff a.forced b.forced
        && iff a.is_forced b.is_forced
        && iff a.is_hearing_impaired_candidate b.is_hearing_impaired_candidate)

abbrev pub subtitle_language : SubtitleStream → String
subtitle_language s = language_code s.language

abbrev pub subtitle_indices : List SubtitleStream → List ℕ
subtitle_indices = map (λ s. s.index)

unfoldable pub select_best_subtitle_by_language :
    List SubtitleStream → List String → List SubtitleStream
select_best_subtitle_by_language streams order =
    select_best subtitle_language (subtitle_stream_score []) streams order

-- A track of full dialogue: not forced, not marked as forced, not for the hearing impaired.
unfoldable pub is_main : SubtitleStream → Bool
is_main s = not s.forced && not (contains_forced_marker s) && not s.is_hearing_impaired_candidate

module _ (media_file : MediaFile) (rules : SubtitleRules)
    (language_rules : LanguagePreferences) where
  unfoldable pub preferred_order : List String
  preferred_order = ordered_language_codes rules.keep_languages

  unfoldable pub forced_order : List String
  forced_order = ordered_language_codes rules.keep_forced_languages

  unfoldable pub is_preferred : SubtitleStream → Bool
  is_preferred s = is_ranked (language_ranks preferred_order) (language_code s.language)

  unfoldable pub in_forced_language : SubtitleStream → Bool
  in_forced_language s = is_ranked (language_ranks forced_order) (language_code s.language)

  unfoldable pub forced_candidates : List SubtitleStream
  forced_candidates =
      if language_rules.preserve_forced_subtitles
      then filter (λ s. in_forced_language s && s.forced) media_file.subtitle_streams
      else []

  unfoldable pub ambiguous_forced : List SubtitleStream
  ambiguous_forced =
      if language_rules.preserve_forced_subtitles
      then filter (λ s. in_forced_language s && not s.forced && contains_forced_marker s)
          media_file.subtitle_streams
      else []

  ambiguous_metadata : Bool
  ambiguous_metadata = not (is_empty ambiguous_forced) && language_rules.preserve_forced_subtitles

  unfoldable pub main_candidates : List SubtitleStream
  main_candidates = filter (λ s. is_preferred s && is_main s) media_file.subtitle_streams

  unfoldable pub hearing_impaired_candidates : List SubtitleStream
  hearing_impaired_candidates =
      filter (λ s. is_preferred s && s.is_hearing_impaired_candidate) media_file.subtitle_streams

  unfoldable pub forced_streams : List SubtitleStream
  forced_streams =
      sorted_reverse (subtitle_stream_score (language_ranks forced_order)) forced_candidates

  unfoldable pub main_streams : List SubtitleStream
  main_streams =
      if rules.keep_one_full_preferred_subtitle && not (is_empty main_candidates)
      then select_best_subtitle_by_language main_candidates preferred_order
      else []

  unfoldable pub hearing_impaired_streams : List SubtitleStream
  hearing_impaired_streams =
      if rules.keep_hearing_impaired && not (is_empty hearing_impaired_candidates)
      then select_best_subtitle_by_language hearing_impaired_candidates preferred_order
      else []

  unfoldable pub picked_streams : List SubtitleStream
  picked_streams =
      append_all_new same_subtitle (append_all_new same_subtitle forced_streams main_streams)
        hearing_impaired_streams

  unfoldable pub selected_subtitles : List SubtitleStream
  selected_subtitles =
      if not rules.drop_other_subtitles then media_file.subtitle_streams else picked_streams

  unfoldable pub dropped_subtitles : List ℕ
  dropped_subtitles =
      filter (λ i. not (contains (subtitle_indices selected_subtitles) i))
        (subtitle_indices media_file.subtitle_streams)

  removed_non_preferred : List ℕ
  removed_non_preferred = subtitle_indices (
      filter (λ s. not (is_preferred s) && contains dropped_subtitles s.index)
        media_file.subtitle_streams)

  abbrev about : List SubtitleStream → List PlanReason → String → List PlanReason
  about streams rest code =
      make_reason code (("stream_indices", stream_indices (subtitle_indices streams)) ∷ []) ∷ rest

  unfoldable pub select_subtitle_streams : SubtitleSelectionResult
  unfolding ambiguous_metadata removed_non_preferred
  select_subtitle_streams = record {
    intent = record {
      selected_stream_indices = subtitle_indices selected_subtitles;
      dropped_stream_indices = dropped_subtitles;
      required_language_codes = unique_languages (map (λ s. s.language) selected_subtitles);
      required_forced_language_codes = unique_languages (map (λ s. s.language) forced_candidates);
      forced_stream_indices = subtitle_indices forced_candidates;
      main_stream_index = head? (subtitle_indices main_streams);
      hearing_impaired_stream_indices = subtitle_indices hearing_impaired_streams;
      ambiguous_forced_stream_indices = subtitle_indices ambiguous_forced;
    };
    reasons =
        (if ambiguous_metadata
          then about ambiguous_forced [] "manual_review_low_confidence_subtitle_metadata"
          else [])
        ++ ((if rules.drop_other_subtitles && not (is_empty removed_non_preferred)
              then make_reason "non_preferred_subtitles_removed"
                  (("stream_indices", stream_indices removed_non_preferred) ∷ [])
                ∷ []
              else [])
            ++ (if is_empty forced_candidates
                then []
                else about forced_candidates [] "forced_english_subtitles_preserved"));
    warnings =
        (if ambiguous_metadata
          then make_warning "manual_review_low_confidence_subtitle_metadata"
              (("stream_indices", stream_indices (subtitle_indices ambiguous_forced)) ∷ [])
            ∷ []
          else [])
        ++ (if is_empty selected_subtitles && not (is_empty media_file.subtitle_streams)
            then make_warning "english_subtitle_not_found" [] ∷ []
            else []);
    requires_manual_review = not (is_empty ambiguous_forced);
  }
