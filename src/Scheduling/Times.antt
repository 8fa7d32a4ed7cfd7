-- ===== src/Scheduling/Times.antt =====
-- Times of day in packages/shared/encodr_shared/scheduling.py: what `strftime` writes, `_parse_time` reads.
use encodr.Prelude.{
  ℕ, zero, suc, ◌+◌, ◌/◌, ◌%◌, ◌<◌, ◌≡◌, refl, Bool, true, false, not, ◌&&◌, Option, none, some,
  List, [], ◌∷◌, ◌==◌, ltb, arith, Bool-cases, inl, inr, &&_true, ==_iff, strip, is_space,
  Option-cases,
}
use encodr.Scheduling.{ClockTime}
use encodr.Scheduling.Openings.{IsClockTime}
use encodr.Scheduling.Texts.{
  Signed, digits_value, parse_int, split_before, in_range, clock_in_range, clock_of_parts,
  parse_time, two_digits, time_text, normalise_time,
}

-- A property of numbers that a bound makes finite.
abbrev all_below : ℕ → (ℕ → Bool) → Bool
all_below zero p = true
all_below (suc n) p = p n && all_below n p

all_below-lem : (k : ℕ) (p : ℕ → Bool) → all_below k p ≡ true → (n : ℕ) → n < k → p n ≡ true
all_below-lem zero p h n l = absurd (omega arith)
all_below-lem (suc k) p h n l = elim (Bool-cases (n == k)) [
  | inl e ↦ let same : n ≡ k = ground arith in rw same (&&_true (p k) (all_below k p) h).0
  | inr e ↦ all_below-lem k p (&&_true (p k) (all_below k p) h).1 n (ground arith)
]

abbrev is_int : ℕ → Option Signed → Bool
is_int n none = false
is_int n (some s) = not s.is_negative && s.magnitude == n

reads_two_digits : all_below 60 (λ n. is_int n (parse_int (two_digits n))) ≡ true
unfolding parse_int digits_value strip is_space
reads_two_digits = refl

digits_not_spaces : all_below 10 (λ k. not (is_space (48 + k))) ≡ true
unfolding is_space
digits_not_spaces = refl

not_space : (k : ℕ) → k < 10 → is_space (48 + k) ≡ false
not_space k h =
    let e = all_below-lem 10 (λ k. not (is_space (48 + k))) digits_not_spaces k h in
    ground (arith, e)

colon_not_space : is_space b':' ≡ false
unfolding is_space
colon_not_space = refl

strip-five :
    (a b c d e : ℕ)
    → is_space a ≡ false
    → is_space b ≡ false
    → is_space c ≡ false
    → is_space d ≡ false
    → is_space e ≡ false
    → strip (a ∷ b ∷ c ∷ d ∷ e ∷ []) ≡ a ∷ b ∷ c ∷ d ∷ e ∷ []
unfolding strip
strip-five a b c d e ha hb hc hd he = simp (ha, hb, hc, hd, he)

strip-time_text : (c : ClockTime) → IsClockTime c → strip (time_text c) ≡ time_text c
strip-time_text c h =
    strip-five (48 + c.hour / 10) (48 + c.hour % 10) b':' (48 + c.minute / 10) (48 + c.minute % 10)
      (not_space (c.hour / 10) (omega (arith, h.hour_bound)))
      (not_space (c.hour % 10) (omega arith)) colon_not_space
      (not_space (c.minute / 10) (omega (arith, h.minute_bound)))
      (not_space (c.minute % 10) (omega arith))

split-two :
    (a b : ℕ) (rest : List ℕ)
    → (a == b':') ≡ false
    → (b == b':') ≡ false
    → split_before [] (a ∷ b ∷ b':' ∷ rest) ≡ some (a ∷ b ∷ [], rest)
split-two a b rest ha hb = simp (ha, hb)

split-time_text :
    (c : ClockTime)
    → IsClockTime c
    → split_before [] (time_text c) ≡ some (two_digits c.hour, two_digits c.minute)
split-time_text c h =
    split-two (48 + c.hour / 10) (48 + c.hour % 10) (two_digits c.minute)
      (ground (arith, h.hour_bound)) (ground arith)

clock-is_int :
    (h m : ℕ) (s t : Option Signed)
    → h < 24
    → m < 60
    → is_int h s ≡ true
    → is_int m t ≡ true
    → clock_of_parts s t ≡ some (record { hour = h; minute = m })
clock-is_int h m none t bh bm e f = cc
clock-is_int h m (some s) none bh bm e f = cc
clock-is_int h m (some s) (some t) bh bm e f =
    let left = &&_true (not s.is_negative) (s.magnitude == h) e in
    let right = &&_true (not t.is_negative) (t.magnitude == m) f in
    let same : s.magnitude ≡ h = (==_iff s.magnitude h).0 left.1 in
    let also : t.magnitude ≡ m = (==_iff t.magnitude m).0 right.1 in
    let in_day : ltb h 24 ≡ true = ground arith in
    let in_hour : ltb m 60 ≡ true = ground arith in
    simp (left.0, right.0, same, also, in_day, in_hour)

parse_time-time_text : (c : ClockTime) → IsClockTime c → parse_time (time_text c) ≡ some c
unfolding parse_time
parse_time-time_text c h =
    rw (parse_time, split-time_text c h)
      (clock-is_int c.hour c.minute (parse_int (two_digits c.hour))
        (parse_int (two_digits c.minute)) h.hour_bound h.minute_bound
        (all_below-lem 60 (λ n. is_int n (parse_int (two_digits n))) reads_two_digits c.hour
          (omega (arith, h.hour_bound)))
        (all_below-lem 60 (λ n. is_int n (parse_int (two_digits n))) reads_two_digits c.minute
          h.minute_bound))

pub normalise_time-time_text :
    (c : ClockTime) → IsClockTime c → normalise_time (time_text c) ≡ some c
unfolding normalise_time
normalise_time-time_text c h = rw (strip-time_text c h) (parse_time-time_text c h)

in_range-bound : (n : ℕ) (s : Signed) → in_range n s ≡ true → s.magnitude < n
in_range-bound n s h = ground arith

-- Every time that is read is one.
clock_in_range-IsClockTime :
    (s t : Signed) {c : ClockTime} → clock_in_range s t ≡ some c → IsClockTime c
clock_in_range-IsClockTime s t {c} e = elim (Bool-cases (in_range 24 s && in_range 60 t)) [
  | inl k ↦
      let parts = &&_true (in_range 24 s) (in_range 60 t) k in
      let same : record { hour = s.magnitude; minute = t.magnitude } ≡ c = cc (rw k at e) in
      rw (← same) (record {
        hour_bound = in_range-bound 24 s parts.0;
        minute_bound = in_range-bound 60 t parts.1;
      })
  | inr k ↦ absurd (cc (rw k at e))
]

clock_of_parts-IsClockTime :
    (s t : Option Signed) {c : ClockTime} → clock_of_parts s t ≡ some c → IsClockTime c
clock_of_parts-IsClockTime none t e = cc
clock_of_parts-IsClockTime (some s) none e = cc
clock_of_parts-IsClockTime (some s) (some t) e = clock_in_range-IsClockTime s t e

parse_time-IsClockTime : (text : List ℕ) {c : ClockTime} → parse_time text ≡ some c → IsClockTime c
unfolding parse_time
parse_time-IsClockTime text e = elim (Option-cases (split_before [] text)) [
  | inl k ↦ absurd (cc (rw (parse_time, k) at e))
  | inr (parts, k) ↦
      clock_of_parts-IsClockTime (parse_int parts.0) (parse_int parts.1) (rw (parse_time, k) at e)
]

pub normalise_time-IsClockTime :
    (text : List ℕ) {c : ClockTime} → normalise_time text ≡ some c → IsClockTime c
unfolding normalise_time
normalise_time-IsClockTime text e = parse_time-IsClockTime (strip text) e
