-- ===== src/Planning/Planner/Streams.antt =====
-- The video stream that a plan selects.
use encodr.Prelude.{
  ℕ, map, contains, ◌≡◌, ◌≢◌, refl, Bool, true, false, some, List, [], ◌∷◌, arith, if◌then◌else◌,
  length,
}
use encodr.Config.{VideoRules, LanguagePreferences}
use encodr.Media.{MediaFile, VideoStream}
use encodr.Planning.Models.{manual_review}
use encodr.Planning.Video.{
  video_plan_of, build_video_plan, build_4k_video_plan, build_non_4k_video_plan,
}
use encodr.Planning.Planner.{ResolvedPolicy, to_list, build_processing_plan}
use encodr.Planning.Planner.Laws.{no_review_parts}

primary_of_4k :
    (v : VideoStream) (rules : VideoRules)
    → (build_4k_video_plan v rules).0.primary_stream_index ≡ some v.index
unfolding build_4k_video_plan
primary_of_4k v rules = ground arith

primary_of_one :
    (v : VideoStream) (file : MediaFile) (rules : VideoRules)
    → (video_plan_of (v ∷ []) file rules).0.primary_stream_index ≡ some v.index
unfolding video_plan_of build_non_4k_video_plan
primary_of_one v file rules = go file.is_4k
  where
    go :
        (b : Bool)
        → (if b
            then build_4k_video_plan v rules
            else build_non_4k_video_plan v rules).0.primary_stream_index
          ≡ some v.index
    go true = primary_of_4k v rules
    go false = refl

one_selected :
    (vs : List VideoStream) (file : MediaFile) (rules : VideoRules)
    → (video_plan_of vs file rules).2 ≡ false
    → length (to_list (video_plan_of vs file rules).0.primary_stream_index) ≡ 1
unfolding video_plan_of
one_selected [] file rules h = cc
one_selected (v ∷ []) file rules h = rw (primary_of_one v file rules) refl
one_selected (v ∷ w ∷ vs) file rules h = cc

-- A plan that asks for no manual review selects one video stream.
pub build_processing_plan_video :
    (file : MediaFile) (policy : ResolvedPolicy) (languages : LanguagePreferences)
    → (build_processing_plan file policy languages).action ≢ manual_review
    → length (build_processing_plan file policy languages).selected_streams.video_stream_indices ≡ 1
unfolding build_processing_plan build_video_plan
build_processing_plan_video file policy languages no_review =
    let parts = no_review_parts _ _ _ _ _ _ _ _ _ no_review in
    one_selected file.video_streams file policy.video_rules parts.0

-- The video stream that a plan selects is one of the file's.
video_selected :
    (vs : List VideoStream) (file : MediaFile) (rules : VideoRules) (i : ℕ)
    → contains (to_list (video_plan_of vs file rules).0.primary_stream_index) i ≡ true
    → contains (map (λ (v : VideoStream). v.index) vs) i ≡ true
unfolding video_plan_of
video_selected [] file rules i h = cc
video_selected (v ∷ []) file rules i h = rw (primary_of_one v file rules) at h
video_selected (v ∷ w ∷ vs) file rules i h = cc

pub build_processing_plan_video_listed :
    (file : MediaFile) (policy : ResolvedPolicy) (languages : LanguagePreferences) (i : ℕ)
    → contains (build_processing_plan file policy languages).selected_streams.video_stream_indices i
      ≡ true
    → contains (map (λ (v : VideoStream). v.index) file.video_streams) i ≡ true
unfolding build_processing_plan build_video_plan
build_processing_plan_video_listed file policy languages i h =
    video_selected file.video_streams file policy.video_rules i h
