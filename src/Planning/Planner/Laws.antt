-- ===== src/Planning/Planner/Laws.antt =====
-- What the action of a plan means.
use encodr.Prelude.{
  ℕ, ◌<◌, ◌≡◌, ◌≢◌, refl, some, Bool, true, false, not, ◌&&◌, ◌||◌, List, [], ◌∷◌, arith,
  if◌then◌else◌, is_empty, ◌⊎◌, length, nil_of_is_empty, is_empty-map, ◌∙◌,
}
use encodr.Config.{
  VideoRules, SubtitleRules, LanguagePreferences, PolicyDecision, allows, FourKVideoRules,
  strip_only, validate_mode, codec_value,
}
use encodr.Media.{MediaFile, VideoStream, SubtitleStream}
use encodr.Planning.Models.{manual_review, skip, remux, transcode, ProcessingPlan}
use encodr.Planning.Audio.Choice.{select_audio_streams_review}
use encodr.Planning.Subtitles.{select_subtitle_streams, ambiguous_forced}
use encodr.Planning.Video.{
  codec_differs, video_plan_of, build_video_plan, build_4k_video_plan, build_non_4k_video_plan,
}
use encodr.Planning.Video.Required.{
  OutOfPolicy, codec_differs-other, non_4k_transcode_required-OutOfPolicy,
}
use encodr.Planning.Planner.{ResolvedPolicy, determine_action, build_processing_plan}

determine_action_skip :
    (is_4k : Bool) (rules : VideoRules) (t c s k m : Bool)
    → determine_action is_4k rules t c s k m ≡ skip
    → c ≡ true
unfolding determine_action
determine_action_skip is_4k rules t c s k m h = ground arith

determine_action_transcode :
    (is_4k : Bool) (rules : VideoRules) (t c s k m : Bool)
    → determine_action is_4k rules t c s k m ≡ transcode
    → t ≡ true
unfolding determine_action
determine_action_transcode is_4k rules t c s k m h = ground arith

determine_action_transcode_4k :
    (rules : VideoRules) (t c s k m : Bool)
    → determine_action true rules t c s k m ≡ transcode
    → rules.four_k.allow_transcode ≡ true
unfolding determine_action
determine_action_transcode_4k rules t c s k m h = ground arith

determine_action_transcode_non_4k :
    (rules : VideoRules) (t c s k m : Bool)
    → determine_action false rules t c s k m ≡ transcode
    → (rules.non_4k.allow_transcode ≡ true)
      × (allows rules.non_4k.decision_order PolicyDecision.transcode ≡ true)
unfolding determine_action
determine_action_transcode_non_4k rules t c s k m h = ground arith

determine_action_remux :
    (is_4k : Bool) (rules : VideoRules) (t c s k m : Bool)
    → determine_action is_4k rules t c s k m ≡ remux
    → (t ≡ false) × ((is_4k ≡ true) ⊎ ((s || k) ≡ true))
unfolding determine_action
determine_action_remux is_4k rules t c s k m h = ground arith

determine_action_review :
    (is_4k : Bool) (rules : VideoRules) (t c s k m : Bool)
    → m ≡ true
    → determine_action is_4k rules t c s k m ≡ manual_review
unfolding determine_action
determine_action_review is_4k rules t c s k m h = ground arith

compliant_parts :
    (t s k w a f : Bool)
    → (not t && not s && not k && w && not a && f) ≡ true
    → (t ≡ false) × (s ≡ false) × (k ≡ false) × (w ≡ true) × (a ≡ false) × (f ≡ true)
compliant_parts t s k w a f h = ground arith

nothing_dropped :
    (xs ys : List ℕ) → (not (is_empty xs) || not (is_empty ys)) ≡ false → (xs ≡ []) × (ys ≡ [])
nothing_dropped [] [] h = (refl, refl)
nothing_dropped (x ∷ xs) ys h = cc
nothing_dropped [] (y ∷ ys) h = cc

not-false : (b : Bool) → not b ≡ false → b ≡ true
not-false b h = ground arith

strip_only_closed :
    (rules : FourKVideoRules)
    → rules.mode ≡ strip_only
    → validate_mode rules ≡ true
    → rules.allow_transcode ≡ false
unfolding validate_mode
strip_only_closed rules mode valid = ground arith

video_plan_strip_only :
    (file : MediaFile) (rules : VideoRules)
    → file.is_4k ≡ true
    → rules.four_k.mode ≡ strip_only
    → rules.four_k.allow_transcode ≡ false
    → (build_video_plan file rules).0.transcode_required ≡ false
unfolding build_video_plan build_4k_video_plan
video_plan_strip_only file rules k mode closed = ground arith

some_change :
    (is_4k : Bool) (xs ys : List ℕ) (k : Bool)
    → (is_4k ≡ true) ⊎ (((not (is_empty xs) || not (is_empty ys)) || k) ≡ true)
    → (is_4k ≡ true) ⊎ (is_empty xs ≡ false) ⊎ (is_empty ys ≡ false) ⊎ (k ≡ true)
some_change is_4k xs ys k h = ground arith

-- The rules want the stream encoded anew, and allow it.
abbrev pub Wanted : Bool → VideoRules → VideoStream → Type 0
Wanted true rules v =
    (rules.four_k.allow_transcode ≡ true)
    × (v.codec_name ≢ some (codec_value rules.four_k.preferred_codec))
Wanted false rules v =
    (rules.non_4k.allow_transcode ≡ true)
    × (allows rules.non_4k.decision_order PolicyDecision.transcode ≡ true)
    × OutOfPolicy rules.non_4k v

four_k_wanted :
    (v : VideoStream) (rules : VideoRules)
    → (build_4k_video_plan v rules).0.transcode_required ≡ true
    → codec_differs v.codec_name (codec_value rules.four_k.preferred_codec) ≡ true
unfolding build_4k_video_plan
four_k_wanted v rules h = ground arith

video_plan-Wanted :
    (vs : List VideoStream) (file : MediaFile) (rules : VideoRules) (c s k m : Bool)
    → (video_plan_of vs file rules).0.transcode_required ≡ true
    → determine_action file.is_4k rules (video_plan_of vs file rules).0.transcode_required c s k m
      ≡ transcode
    → (v : VideoStream) × (vs ≡ v ∷ []) × Wanted file.is_4k rules v
unfolding video_plan_of
video_plan-Wanted [] file rules c s k m t h = cc
video_plan-Wanted (v ∷ w ∷ vs) file rules c s k m t h = cc
video_plan-Wanted (v ∷ []) file rules c s k m t h = (v, refl, go file.is_4k t h)
  where
    go :
        (is_4k : Bool)
        → (if is_4k
            then build_4k_video_plan v rules
            else build_non_4k_video_plan v rules).0.transcode_required
          ≡ true
        → determine_action is_4k rules
            (if is_4k
              then build_4k_video_plan v rules
              else build_non_4k_video_plan v rules).0.transcode_required
            c
            s
            k
            m
          ≡ transcode
        → Wanted is_4k rules v
    go true t' h' = (
      determine_action_transcode_4k rules _ c s k m h',
      codec_differs-other v.codec_name _ (four_k_wanted v rules t'),
    )
    go false t' h' =
        let allowed = determine_action_transcode_non_4k rules _ c s k m h' in
        (
          allowed.0,
          allowed.1,
          non_4k_transcode_required-OutOfPolicy rules.non_4k v
              (unfold build_non_4k_video_plan in t'),
        )

one_video :
    (vs : List VideoStream) (file : MediaFile) (rules : VideoRules)
    → (video_plan_of vs file rules).2 ≡ false
    → length vs ≡ 1
unfolding video_plan_of
one_video [] file rules h = cc
one_video (v ∷ []) file rules h = refl
one_video (v ∷ w ∷ vs) file rules h = cc

pub no_review_parts :
    (is_4k : Bool) (rules : VideoRules) (t c s k v a b : Bool)
    → determine_action is_4k rules t c s k (v || a || b) ≢ manual_review
    → (v ≡ false) × (a ≡ false) × (b ≡ false)
no_review_parts is_4k rules t c s k false false false h = (refl, refl, refl)
no_review_parts is_4k rules t c s k true a b h =
    absurd (h (determine_action_review is_4k rules t c s k true refl))
no_review_parts is_4k rules t c s k false true b h =
    absurd (h (determine_action_review is_4k rules t c s k true refl))
no_review_parts is_4k rules t c s k false false true h =
    absurd (h (determine_action_review is_4k rules t c s k true refl))

no_ambiguous :
    (file : MediaFile) (rules : SubtitleRules) (languages : LanguagePreferences)
    → (select_subtitle_streams file rules languages).requires_manual_review ≡ false
    → (select_subtitle_streams file rules languages).intent.ambiguous_forced_stream_indices ≡ []
unfolding select_subtitle_streams
no_ambiguous file rules languages h = nil_of_is_empty _ (
    is_empty-map (λ (s : SubtitleStream). s.index) (ambiguous_forced file rules languages)
    ∙ not-false _ h)

module _ (file : MediaFile) (policy : ResolvedPolicy) (languages : LanguagePreferences) where
  abbrev plan : ProcessingPlan
  plan = build_processing_plan file policy languages

  -- A plan skips a file only if it encodes nothing, drops no audio or subtitle track, keeps the
  -- container, raises no warning, misses no required audio and has no ambiguous forced subtitle.
  pub build_processing_plan_skip :
      plan.action ≡ skip
      → (plan.video.transcode_required ≡ false)
        × (plan.audio.dropped_stream_indices ≡ [])
        × (plan.subtitles.dropped_stream_indices ≡ [])
        × (plan.container.change_required ≡ false)
        × (plan.warnings ≡ [])
        × (plan.audio.missing_required_audio ≡ false)
        × (plan.subtitles.ambiguous_forced_stream_indices ≡ [])
  unfolding build_processing_plan
  build_processing_plan_skip h =
      let candidate = determine_action_skip _ _ _ _ _ _ _ h in
      let (t, s, k, w, a, f) = compliant_parts _ _ _ _ _ _ candidate in
      let (none_audio, none_subtitle) = nothing_dropped _ _ s in
      (t, none_audio, none_subtitle, k, nil_of_is_empty _ w, a, nil_of_is_empty _ f)

  -- A 4K file under an accepted strip-only rule is never encoded anew: the action is not to transcode,
  -- and the video plan does not require it.
  pub build_processing_plan_strip_only :
      file.is_4k ≡ true
      → validate_mode policy.video_rules.four_k ≡ true
      → policy.video_rules.four_k.mode ≡ strip_only
      → (plan.action ≢ transcode) × (plan.video.transcode_required ≡ false)
  unfolding build_processing_plan validate_mode
  build_processing_plan_strip_only k valid mode =
      let closed = strip_only_closed policy.video_rules.four_k mode valid in
      let kept = video_plan_strip_only file policy.video_rules k mode closed in
      (λ h. cc (determine_action_transcode _ _ _ _ _ _ _ h, kept), kept)

  -- A plan transcodes only if the file has exactly one video stream that its rules want encoded: for 4K the rules
  -- allow it and the codec is unknown or not the preferred one; otherwise the rules allow it, list it in the decision
  -- order, the stream is no low-bitrate source, and its codec is unknown or not the preferred one, or its bit rate or
  -- its width is above the rules' limit.
  pub build_processing_plan_transcode :
      plan.action ≡ transcode
      → (v : VideoStream) × (file.video_streams ≡ v ∷ []) × Wanted file.is_4k policy.video_rules v
  unfolding build_processing_plan build_video_plan
  build_processing_plan_transcode h =
      video_plan-Wanted file.video_streams file policy.video_rules _ _ _ _
        (determine_action_transcode _ _ _ _ _ _ _ h) h

  -- A plan that remuxes does not encode the video; and outside 4K it drops a track or changes the
  -- container.
  pub build_processing_plan_remux :
      plan.action ≡ remux
      → (plan.video.transcode_required ≡ false)
        × ((file.is_4k ≡ true)
            ⊎ (is_empty plan.audio.dropped_stream_indices ≡ false)
            ⊎ (is_empty plan.subtitles.dropped_stream_indices ≡ false)
            ⊎ (plan.container.change_required ≡ true))
  unfolding build_processing_plan
  build_processing_plan_remux h =
      let (t, change) = determine_action_remux _ _ _ _ _ _ _ h in (t, some_change _ _ _ _ change)

  -- Where at least one audio track may be kept, every action but manual review has exactly one video
  -- stream and an audio track, misses no required audio, and is free of ambiguous forced subtitles.
  pub build_processing_plan_review :
      0 < policy.audio_rules.max_tracks_to_keep
      → plan.action ≢ manual_review
      → (length file.video_streams ≡ 1)
        × (is_empty plan.selected_streams.audio_stream_indices ≡ false)
        × (plan.audio.missing_required_audio ≡ false)
        × (plan.subtitles.ambiguous_forced_stream_indices ≡ [])
  unfolding build_processing_plan build_video_plan
  build_processing_plan_review h no_review =
      let (video, audio, subtitle) = no_review_parts _ _ _ _ _ _ _ _ _ no_review in
      let (selected, missing, primary) =
        select_audio_streams_review file policy.audio_rules languages h in
      (
        one_video file.video_streams file policy.video_rules video,
        selected ∙ audio,
        missing ∙ audio,
        no_ambiguous file policy.subtitle_rules languages subtitle,
      )
