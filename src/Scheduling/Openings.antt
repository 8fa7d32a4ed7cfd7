-- ===== src/Scheduling/Openings.antt =====
-- The next opening of a schedule is allowed, and is the first.
use encodr.Prelude.{
  ℕ, suc, ◌+◌, ◌-◌, ◌%◌, ◌≤◌, ◌<◌, ◌≡◌, sym, ap, ◌∙◌, true, ◌==◌, leb, arith, Bool-cases, inl, inr,
  ◌⊎◌, &&_true, leb→le,
}
use encodr.Scheduling.{
  ScheduleWindow, ClockTime, microseconds_per_day, time_of_day, ordinal_of, clock_of, weekday,
  includes_weekday, window_allows, opening_on,
}

-- A time of day that `_parse_time` can return.
pub record IsClockTime (c : ClockTime) : Type 0 where
  pub hour_bound : c.hour < 24
  pub minute_bound : c.minute < 60

-- A window whose start is such a time.
abbrev pub StartsInDay : ScheduleWindow → Type 0
StartsInDay w = IsClockTime w.start_time

pub time_of_day-bound : (c : ClockTime) → IsClockTime c → time_of_day c < microseconds_per_day
unfolding time_of_day
time_of_day-bound c h = omega (arith, h.hour_bound, h.minute_bound)

-- An opening falls on its day, at the start time.
pub ordinal-opening : (w : ScheduleWindow) (n : ℕ) → StartsInDay w → ordinal_of (opening_on w n) ≡ n
unfolding opening_on
ordinal-opening w n h = omega (arith, time_of_day-bound w.start_time h)

clock-opening :
    (w : ScheduleWindow) (n : ℕ)
    → StartsInDay w
    → clock_of (opening_on w n) ≡ time_of_day w.start_time
unfolding opening_on
clock-opening w n h = omega (arith, time_of_day-bound w.start_time h)

weekday_before : (n : ℕ) → (weekday (suc n) + 6) % 7 ≡ weekday n
unfolding weekday
weekday_before n = omega arith

-- A window allows its opening.
pub window_allows-opening :
    (w : ScheduleWindow) (n : ℕ)
    → StartsInDay w
    → includes_weekday w.days (weekday n) ≡ true
    → window_allows w (opening_on w n) ≡ true
unfolding window_allows
window_allows-opening w n h inside =
    rw (ordinal-opening w n h, clock-opening w n h, inside) (ground arith)

-- An allowed instant lies in an opening of the window, which allows every instant up to it.
pub record OpenSince (w : ScheduleWindow) (v : ℕ) : Type 0 where
  pub day : ℕ
  pub included : includes_weekday w.days (weekday day) ≡ true
  pub begun : opening_on w day ≤ v
  pub held : (t : ℕ) → opening_on w day ≤ t → t ≤ v → window_allows w t ≡ true

-- The two ways in which a window allows an instant: from its start on, or past midnight.
allows_same_day :
    (w : ScheduleWindow) (t : ℕ)
    → includes_weekday w.days (weekday (ordinal_of t)) ≡ true
    → time_of_day w.start_time ≤ clock_of t
    → (time_of_day w.start_time ≤ time_of_day w.end_time → clock_of t ≤ time_of_day w.end_time)
    → window_allows w t ≡ true
unfolding window_allows
allows_same_day w t inside after before = rw inside (ground arith)

allows_next_day :
    (w : ScheduleWindow) (t : ℕ)
    → time_of_day w.end_time < time_of_day w.start_time
    → includes_weekday w.days ((weekday (ordinal_of t) + 6) % 7) ≡ true
    → clock_of t ≤ time_of_day w.end_time
    → window_allows w t ≡ true
unfolding window_allows
allows_next_day w t wraps inside before = rw inside (ground arith)

allowed_cases :
    (w : ScheduleWindow) (t : ℕ)
    → window_allows w t ≡ true
    → ((includes_weekday w.days (weekday (ordinal_of t)) ≡ true)
        × (time_of_day w.start_time ≤ clock_of t)
        × (time_of_day w.start_time ≤ time_of_day w.end_time → clock_of t ≤ time_of_day w.end_time))
      ⊎ ((time_of_day w.end_time < time_of_day w.start_time)
          × (includes_weekday w.days ((weekday (ordinal_of t) + 6) % 7) ≡ true)
          × (clock_of t ≤ time_of_day w.end_time))
unfolding window_allows
allowed_cases w t h = elim (Bool-cases (leb (time_of_day w.start_time) (time_of_day w.end_time))) [
  | inl e ↦
      let parts = &&_true _ _ (rw e at h) in
      let earlier = &&_true _ _ parts.0 in
      inl (earlier.0, leb→le _ _ earlier.1, λ _. leb→le _ _ parts.1)
  | inr e ↦ ground arith
]

pub open_since :
    (w : ScheduleWindow) (v : ℕ)
    → StartsInDay w
    → microseconds_per_day ≤ v
    → window_allows w v ≡ true
    → OpenSince w v
unfolding opening_on
open_since w v h later allowed = elim (allowed_cases w v allowed) [
  | inl (inside, after, before) ↦ record {
    day = ordinal_of v;
    included = inside;
    begun = omega arith;
    held = λ t from to.
        let same : ordinal_of t ≡ ordinal_of v = omega arith in
        allows_same_day w t (rw same inside) (omega arith) (λ e. omega (arith, before e));
  }
  | inr (wraps, inside, before) ↦
      let day_before = ordinal_of v - 1 in
      let next : ordinal_of v ≡ suc day_before = omega arith in
      let included : includes_weekday w.days (weekday day_before) ≡ true =
        ap (λ k. includes_weekday w.days k)
          (sym (weekday_before day_before) ∙ ap (λ k. (weekday k + 6) % 7) (sym next))
        ∙ inside in
      record {
        day = day_before;
        included = included;
        begun = omega (arith, time_of_day-bound w.start_time h);
        held = λ t from to. elim (Bool-cases (ordinal_of t == day_before)) [
          | inl e ↦
              let same : ordinal_of t ≡ day_before = ground arith in
              allows_same_day w t (rw same included) (omega arith) (λ e'. absurd (omega arith))
          | inr e ↦
              let same : ordinal_of t ≡ ordinal_of v = ground arith in
              allows_next_day w t wraps (rw same inside) (omega arith)
        ];
      }
]
