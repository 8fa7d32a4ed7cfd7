-- ===== src/Execution/Command/Copied.antt =====
-- The codecs that ffmpeg reads for the audio and the subtitles in a command line of
-- packages/core/encodr_core/execution/ffmpeg_builder.py.
use encodr.Prelude.{
  ℕ, suc, String, ◌≡◌, refl, Bool, true, false, not, Option, none, some, List, [], ◌∷◌, ◌++◌,
  if◌then◌else◌, is_none, str_eq, contains, Bool-cases, inl, inr, &&_true, ◌&&◌, ◌||◌, arith,
}
use encodr.Planning.Models.{ProcessingPlan}
use encodr.Replacement.Paths.{FilePath}
use encodr.Execution.Backend.{Flag, text, number, child_device}
use encodr.Execution.Backend.Quality.{is_text}
use encodr.Execution.Command.{
  StreamKind, Argument, flag, path, stream, disposition, flags_of, is_index, or_first,
  audio_disposition, subtitle_disposition, disposition_flags,
}

-- The text of an argument that follows an option.
abbrev pub value_of : List Argument → Option String
value_of (flag (text value) ∷ rest) = some value
value_of (flag (number n) ∷ rest) = none
value_of (flag (child_device d) ∷ rest) = none
value_of (path p ∷ rest) = none
value_of (stream i ∷ rest) = none
value_of (disposition k n ∷ rest) = none
value_of [] = none

abbrev pub is_option : String → Argument → Bool
is_option name (flag f) = is_text name f
is_option name (path p) = false
is_option name (stream i) = false
is_option name (disposition k n) = false

-- The codec that an option such as `-c:a` gives: its last occurrence counts.
unfoldable pub codec_for : String → List Argument → Option String
codec_for name [] = none
codec_for name (a ∷ rest) =
    let later = codec_for name rest in
    if is_none later then if is_option name a then value_of rest else none else later

abbrev pub is_copy : Option String → Bool
is_copy none = false
is_copy (some codec) = str_eq codec "copy"

pub codec_for-later :
    (name : String) (before rest : List Argument) {codec : String}
    → codec_for name rest ≡ some codec
    → codec_for name (before ++ rest) ≡ some codec
unfolding codec_for
codec_for-later name [] rest h = h
codec_for-later name (a ∷ before) rest h = rw (codec_for-later name before rest h) refl

-- The options that `copied_streams` gives for the audio and the subtitles.
pub data CopiedOption : String → Type 0 where
  for_audio : CopiedOption "-c:a"
  for_subtitles : CopiedOption "-c:s"

-- No flag of a list is one of these options.
abbrev pub names_codec : Flag → Bool
names_codec f = is_text "-c:a" f || is_text "-c:s" f

abbrev pub free_of_codecs : List Flag → Bool
free_of_codecs [] = true
free_of_codecs (f ∷ fs) = not (names_codec f) && free_of_codecs fs

is_text-free :
    {name : String}
    → CopiedOption name
    → (f : Flag) → not (names_codec f) ≡ true
    → is_text name f ≡ false
is_text-free for_audio f h = ground arith
is_text-free for_subtitles f h = ground arith

pub codec_for-flags :
    {name : String}
    → CopiedOption name
    → (fs : List Flag) (rest : List Argument) → free_of_codecs fs ≡ true
    → codec_for name rest ≡ none
    → codec_for name (flags_of fs ++ rest) ≡ none
unfolding codec_for
codec_for-flags o [] rest free h = h
codec_for-flags o (f ∷ fs) rest free h =
    let (first, others) = &&_true (not (names_codec f)) (free_of_codecs fs) free in
    rw (codec_for-flags o fs rest others h, is_text-free o f first) refl

pub codec_for-dispositions :
    (name : String) (kind : StreamKind) (value : ℕ → String)
    → ((i : ℕ) → str_eq (value i) name ≡ false)
    → (n : ℕ) (is : List ℕ) (rest : List Argument) → codec_for name rest ≡ none
    → codec_for name (disposition_flags kind value n is ++ rest) ≡ none
unfolding codec_for disposition_flags
codec_for-dispositions name kind value other n [] rest h = h
codec_for-dispositions name kind value other n (i ∷ is) rest h =
    rw (codec_for-dispositions name kind value other (suc n) is rest h, other i) refl

pub codec_for-last : (name : String) (p : FilePath) → codec_for name (path p ∷ []) ≡ none
unfolding codec_for
codec_for-last name p = refl

other_text :
    {name : String}
    → CopiedOption name
    → (t : String) → str_eq t "-c:a" ≡ false
    → str_eq t "-c:s" ≡ false
    → str_eq t name ≡ false
other_text for_audio t h k = h
other_text for_subtitles t h k = k

pub audio_disposition-other :
    {name : String}
    → CopiedOption name
    → (plan : ProcessingPlan) (i : ℕ) → str_eq (audio_disposition plan i) name ≡ false
unfolding audio_disposition
audio_disposition-other o plan i =
    let primary =
      or_first plan.audio.primary_stream_index plan.selected_streams.audio_stream_indices in
    elim (Bool-cases (is_index primary i)) [
      | inl e ↦ rw e (other_text o "default" refl refl)
      | inr e ↦ rw e (other_text o "0" refl refl)
    ]

pub subtitle_disposition-other :
    {name : String}
    → CopiedOption name
    → (plan : ProcessingPlan) (i : ℕ) → str_eq (subtitle_disposition plan i) name ≡ false
unfolding subtitle_disposition
subtitle_disposition-other o plan i =
    elim (Bool-cases (contains plan.subtitles.forced_stream_indices i)) [
      | inl e ↦ rw e (other_text o "forced" refl refl)
      | inr e ↦ elim (Bool-cases (is_index plan.subtitles.main_stream_index i)) [
        | inl f ↦ rw (e, f) (other_text o "default" refl refl)
        | inr f ↦ rw (e, f) (other_text o "0" refl refl)
      ]
    ]
