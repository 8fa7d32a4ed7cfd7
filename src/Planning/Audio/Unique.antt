-- ===== src/Planning/Audio/Unique.antt =====
-- No track is selected twice by `select_audio_streams` of packages/core/encodr_core/planning/selection.py.
use mathlib.Core.List.Memᴰ
use encodr.Prelude.{
  ℕ, zero, suc, ◌≡◌, refl, sym, ap, ◌∙◌, Bool, true, false, ◌||◌, Option, none, some, List, [], ◌∷◌,
  ◌++◌, Memᴰ, arith, Bool-cases, inl, inr, any, any_of_mem, take, length, contains, contains_of_mem,
  Distinct, head?, is_empty, option_eq, iff, str_eq, eq_refl, ◌==◌, ==_refl, leb, mem_of_mem-take,
  mem_of_mem-filter,
}
use encodr.Config.{AudioRules, LanguagePreferences}
use encodr.Media.{AudioStream, MediaFile}
use encodr.Planning.Scores.{Key}
use encodr.Planning.Append.{append_new, append_new-mem}
use encodr.Planning.Best.Unique.{
  select_best-Distinct, ordered_language_codes-DistinctTexts, mem_of_contains-index,
}
use encodr.Planning.Audio.{
  audio_language, audio_quality_score, audio_indices, same_audio, fill,
  select_best_audio_by_language, selectable_streams, candidate_streams, preferred_language_order,
  best_audio, sorted_streams, effective_max_tracks, selected_audio, choose_audio,
  select_audio_streams,
}
use encodr.Planning.Audio.Members.{mem-audio_indices}
use encodr.Planning.Audio.Laws.{
  is_allowed, candidate-mem, best_audio-mem, sorted_streams-mem, select_audio-choose,
  select_audio-none,
}

-- Any key, where only indices matter.
abbrev index_key : AudioStream → Key
index_key s = record { ranks = []; index = s.index }

option_refl :
    {A : Type 0} (eq : A → A → Bool)
    → ((a : A) → eq a a ≡ true)
    → (o : Option A) → option_eq eq o o ≡ true
option_refl eq h none = refl
option_refl eq h (some a) = h a

iff_refl : (b : Bool) → iff b b ≡ true
iff_refl true = refl
iff_refl false = refl

same_audio_refl : (s : AudioStream) → same_audio s s ≡ true
unfolding same_audio
same_audio_refl s =
    simp
      (
        ==_refl s.index,
        option_refl str_eq eq_refl s.codec_name,
        option_refl str_eq eq_refl s.language,
        iff_refl s.default,
        option_refl ◌==◌ ==_refl s.channels,
        option_refl str_eq eq_refl s.channel_layout,
        iff_refl s.is_commentary_candidate,
        iff_refl s.is_surround_candidate,
        iff_refl s.is_atmos_capable,
      )
      refl

-- In a list without a repeated index, an index tells its stream.
pub stream_of_index :
    (xs : List AudioStream)
    → Distinct (audio_indices xs)
    → (a b : AudioStream) → Memᴰ a xs
    → Memᴰ b xs
    → a.index ≡ b.index
    → a ≡ b
stream_of_index [] h a b m k e = elim m [ ]
stream_of_index (x ∷ xs) (fresh, h) a b m k e = elim (Memᴰ.cases_cons m) [
  | inl p ↦ elim (Memᴰ.cases_cons k) [
    | inl q ↦ p ∙ sym q
    | inr q ↦ absurd (
        cc (
          ap (contains (audio_indices xs)) (sym e ∙ ap (λ (t : AudioStream). t.index) p) ∙ fresh,
          contains_of_mem (audio_indices xs) (mem-audio_indices xs q),
        ))
  ]
  | inr p ↦ elim (Memᴰ.cases_cons k) [
    | inl q ↦ absurd (
        cc (
          ap (contains (audio_indices xs)) (e ∙ ap (λ (t : AudioStream). t.index) q) ∙ fresh,
          contains_of_mem (audio_indices xs) (mem-audio_indices xs p),
        ))
    | inr q ↦ stream_of_index xs h a b p q e
  ]
]

contains-append :
    (xs ys : List ℕ) (n : ℕ) → contains (xs ++ ys) n ≡ (contains xs n || contains ys n)
contains-append [] ys n = refl
contains-append (x ∷ xs) ys n = ground (arith, contains-append xs ys n)

append-Distinct :
    (xs : List ℕ) (i : ℕ) → Distinct xs → contains xs i ≡ false → Distinct (xs ++ i ∷ [])
append-Distinct [] i h fresh = (refl, tt)
append-Distinct (x ∷ xs) i (first, h) fresh =
    let (other, rest) : ((x == i) ≡ false) × (contains xs i ≡ false) =
      (ground arith, ground arith) in
    (contains-append xs (i ∷ []) x ∙ ground (arith, first, other), append-Distinct xs i h rest)

take-Distinct :
    (n : ℕ) (xs : List AudioStream)
    → Distinct (audio_indices xs)
    → Distinct (audio_indices (take n xs))
take-Distinct zero xs h = tt
take-Distinct (suc n) [] h = tt
take-Distinct (suc n) (x ∷ xs) (fresh, h) =
    elim (Bool-cases (contains (audio_indices (take n xs)) x.index)) [
      | inr e ↦ (e, take-Distinct n xs h)
      | inl e ↦
          let (s, m, same) =
            mem_of_contains-index audio_language index_key (λ t. t.index) (take n xs) x.index e in
          absurd (
            cc (
              sym (ap (contains (audio_indices xs)) same)
                  ∙ contains_of_mem (audio_indices xs)
                      (mem-audio_indices xs (mem_of_mem-take n xs m)),
              fresh,
            ))
    ]

map-append :
    (xs ys : List AudioStream) → audio_indices (xs ++ ys) ≡ audio_indices xs ++ audio_indices ys
map-append [] ys = refl
map-append (x ∷ xs) ys = ap (λ t. x.index ∷ t) (map-append xs ys)

-- The tracks of one file.
module _ (streams : List AudioStream) (unique : Distinct (audio_indices streams)) where
  append_new-Distinct :
      (xs : List AudioStream) (s : AudioStream)
      → ((a : AudioStream) → Memᴰ a xs → Memᴰ a streams)
      → Memᴰ s streams
      → Distinct (audio_indices xs)
      → Distinct (audio_indices (append_new same_audio xs s))
  unfolding append_new
  append_new-Distinct xs s inside there h = elim (Bool-cases (any (same_audio s) xs)) [
    | inl e ↦ rw e h
    | inr e ↦
        rw (e, map-append)
          (append-Distinct (audio_indices xs) s.index h
            (elim (Bool-cases (contains (audio_indices xs) s.index)) [
              | inr f ↦ f
              | inl f ↦
                  let (t, m, same) =
                    mem_of_contains-index audio_language index_key (λ u. u.index) xs s.index f in
                  let whole = stream_of_index streams unique t s (inside t m) there same in
                  absurd (
                    cc (
                      any_of_mem (same_audio s) xs m (ap (same_audio s) whole ∙ same_audio_refl s),
                      e,
                    ))
            ]))
  ]

  fill-Distinct :
      (limit : ℕ) (selected ss : List AudioStream)
      → ((a : AudioStream) → Memᴰ a selected → Memᴰ a streams)
      → ((a : AudioStream) → Memᴰ a ss → Memᴰ a streams)
      → Distinct (audio_indices selected)
      → Distinct (audio_indices (fill limit selected ss))
  unfolding fill
  fill-Distinct limit selected [] inside others h = h
  fill-Distinct limit selected (s ∷ ss) inside others h =
      let there = others s (Memᴰ.head refl) in
      let grown = append_new-Distinct selected s inside there h in
      elim (Bool-cases (leb limit (length (append_new same_audio selected s)))) [
        | inl e ↦ rw e grown
        | inr e ↦ rw e (
            fill-Distinct limit (append_new same_audio selected s) ss
              (λ a m. elim (append_new-mem same_audio selected s m) [
                | inl k ↦ inside a k
                | inr k ↦ rw k there
              ])
              (λ a m. others a (Memᴰ.tail m)) grown)
      ]

module _ (file : MediaFile) (rules : AudioRules)
    (unique : Distinct (audio_indices file.audio_streams)) where
  selectable-mem :
      (a : AudioStream) → Memᴰ a (selectable_streams file rules) → Memᴰ a file.audio_streams
  unfolding selectable_streams
  selectable-mem a m =
      candidate-mem file rules
        (mem_of_mem-filter (is_allowed rules) (candidate_streams file rules) m)

  best_audio-Distinct : Distinct (audio_indices (best_audio file rules))
  unfolding best_audio select_best_audio_by_language preferred_language_order
  best_audio-Distinct =
      select_best-Distinct audio_language (audio_quality_score rules) (λ s. s.index)
        (selectable_streams file rules) _
        (λ a b m k.
          stream_of_index file.audio_streams unique a b (selectable-mem a m) (selectable-mem b k))
        (ordered_language_codes-DistinctTexts rules.keep_languages)

  selected_audio-Distinct : Distinct (audio_indices (selected_audio file rules))
  unfolding selected_audio
  selected_audio-Distinct =
      take-Distinct (effective_max_tracks file rules) _
        (elim (Bool-cases rules.keep_only_preferred_languages) [
          | inl e ↦ simp e best_audio-Distinct
          | inr e ↦ simp e (
              fill-Distinct file.audio_streams unique rules.max_tracks_to_keep
                (best_audio file rules) (sorted_streams file rules)
                (λ a m. selectable-mem a (best_audio-mem file rules m))
                (λ a m. selectable-mem a (sorted_streams-mem file rules m)) best_audio-Distinct)
        ])

  head_selected : (is : List ℕ) {i : ℕ} → head? is ≡ some i → contains is i ≡ true
  head_selected [] h = cc
  head_selected (j ∷ js) {i} h = let same : j ≡ i = cc h in ground (arith, same)

  -- Where the file's tracks have an index each, none is selected twice.
  pub select_audio_streams-Distinct :
      (lang : LanguagePreferences)
      → Distinct (select_audio_streams file rules lang).intent.selected_stream_indices
  unfolding choose_audio
  select_audio_streams-Distinct lang =
      elim (Bool-cases (is_empty (selectable_streams file rules))) [
        | inl e ↦ rw (select_audio-none file rules lang e).2 tt
        | inr e ↦ rw (select_audio-choose file rules lang e) selected_audio-Distinct
      ]

  -- The primary track is a selected one.
  pub select_audio_streams_primary :
      (lang : LanguagePreferences) {i : ℕ}
      → (select_audio_streams file rules lang).intent.primary_stream_index ≡ some i
      → contains (select_audio_streams file rules lang).intent.selected_stream_indices i ≡ true
  unfolding choose_audio
  select_audio_streams_primary lang {i} h =
      elim (Bool-cases (is_empty (selectable_streams file rules))) [
        | inl e ↦
            let (_, _, _, _, missing) = select_audio-none file rules lang e in
            absurd (cc (sym missing ∙ h))
        | inr e ↦ rw (select_audio-choose file rules lang e) (
            head_selected (audio_indices (selected_audio file rules))
              (rw (select_audio-choose file rules lang e) at h))
      ]
