-- ===== src/Planning/Video/Required.antt =====
-- When the rules of packages/core/encodr_core/planning/planner.py require that a video stream is encoded anew.
use encodr.Prelude.{
  ℕ, ◌*◌, ◌<◌, ◌≡◌, ◌≢◌, refl, ap, ◌∙◌, sym, String, true, false, not, Option, none, some, str_eq,
  eq_refl, arith, Bool-cases, ◌⊎◌, inl, inr,
}
use encodr.Config.{NonFourKVideoRules, codec_value}
use encodr.Media.{VideoStream}
use encodr.Planning.Video.{
  codec_differs, exceeds, low_bitrate_source, codec_requires, bitrate_requires, width_requires,
  non_4k_transcode_required,
}

-- A value is known and above a limit.
abbrev pub Above : Option ℕ → ℕ → Type 0
Above value limit = (n : ℕ) × (value ≡ some n) × (limit < n)

-- The stream is no low-bitrate source; and its codec is unknown or another one, or its bit rate or its width is above
-- the limit.
abbrev pub OutOfPolicy : NonFourKVideoRules → VideoStream → Type 0
OutOfPolicy rules v =
    (low_bitrate_source v rules ≡ false)
    × ((v.codec_name ≢ some (codec_value rules.preferred_codec))
        ⊎ Above v.bit_rate (rules.max_video_bitrate_mbps * 1_000_000)
        ⊎ Above v.width rules.max_width)

pub codec_differs-other :
    (codec : Option String) (target : String)
    → codec_differs codec target ≡ true
    → codec ≢ some target
unfolding codec_differs
codec_differs-other none target h = λ e. cc e
codec_differs-other (some codec) target h = λ e.
    let same : codec ≡ target = cc e in
    let bad : false ≡ true =
      ap not (sym (eq_refl codec)) ∙ ap (λ t. not (str_eq codec t)) same ∙ h in
    cc bad

exceeds-Above : (value : Option ℕ) (limit : ℕ) → exceeds value limit ≡ true → Above value limit
exceeds-Above none limit h = cc
exceeds-Above (some n) limit h = (n, refl, ground arith)

pub non_4k_transcode_required-OutOfPolicy :
    (rules : NonFourKVideoRules) (v : VideoStream)
    → non_4k_transcode_required v rules ≡ true
    → OutOfPolicy rules v
unfolding non_4k_transcode_required codec_requires bitrate_requires width_requires
non_4k_transcode_required-OutOfPolicy rules v h = elim (Bool-cases (low_bitrate_source v rules)) [
  | inl low ↦ let bad : false ≡ true = simp low at h in absurd (cc bad)
  | inr low ↦ (
    low,
    elim (Bool-cases (codec_differs v.codec_name (codec_value rules.preferred_codec))) [
      | inl e ↦ inl (codec_differs-other v.codec_name (codec_value rules.preferred_codec) e)
      | inr e ↦ elim (Bool-cases (exceeds v.bit_rate (rules.max_video_bitrate_mbps * 1_000_000))) [
        | inl f ↦ inr (inl (exceeds-Above v.bit_rate _ f))
        | inr f ↦ inr (inr (exceeds-Above v.width rules.max_width (simp (low, e, f) at h)))
      ]
    ],
  )
]
