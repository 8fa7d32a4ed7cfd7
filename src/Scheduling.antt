-- ===== src/Scheduling.antt =====
-- packages/shared/encodr_shared/scheduling.py: the windows in which jobs may run. An instant is a count
-- of microseconds of local time: the proleptic day number (`toordinal`) times a day, and the time of day.
-- A window stands with its days and times read, as `normalise_schedule_windows` of Texts reads them.
pub mod Texts
pub mod Candidates
pub mod Openings
pub mod Next
pub mod Times
pub mod RoundTrip
mod Tests
use encodr.Prelude.{
  ℕ, zero, suc, ◌+◌, ◌*◌, ◌/◌, ◌%◌, Bool, true, false, ◌&&◌, ◌||◌, Option, none, some, List, [],
  ◌∷◌, ◌++◌, if◌then◌else◌, ◌==◌, leb, ltb, any, is_empty,
}

pub data Day : Type 0 where
  mon tue wed thu fri sat sun : Day

-- The place of a day in `DAY_ORDER`.
abbrev pub day_index : Day → ℕ
day_index mon = 0
day_index tue = 1
day_index wed = 2
day_index thu = 3
day_index fri = 4
day_index sat = 5
day_index sun = 6

pub record ClockTime : Type 0 where
  pub hour : ℕ
  pub minute : ℕ

pub record ScheduleWindow : Type 0 where
  pub days : List Day
  pub start_time : ClockTime
  pub end_time : ClockTime

abbrev pub microseconds_per_day : ℕ
microseconds_per_day = 86_400_000_000

-- The microseconds from midnight to a time of day.
unfoldable pub time_of_day : ClockTime → ℕ
time_of_day c = (c.hour * 60 + c.minute) * 60_000_000

abbrev pub ordinal_of : ℕ → ℕ
ordinal_of t = t / microseconds_per_day

abbrev pub clock_of : ℕ → ℕ
clock_of t = t % microseconds_per_day

-- `date.weekday()`: day 1 is a Monday.
unfoldable pub weekday : ℕ → ℕ
weekday ordinal = (ordinal + 6) % 7

-- `DAY_ORDER[n] in days`
unfoldable pub includes_weekday : List Day → ℕ → Bool
includes_weekday days n = any (λ d. day_index d == n) days

unfoldable pub window_allows : ScheduleWindow → ℕ → Bool
window_allows w t =
    let day = weekday (ordinal_of t) in
    let clock = clock_of t in
    let start = time_of_day w.start_time in
    let end = time_of_day w.end_time in
    if leb start end
    then includes_weekday w.days day && leb start clock && leb clock end
    else (includes_weekday w.days day && leb start clock)
      || (includes_weekday w.days ((day + 6) % 7) && leb clock end)

-- `None` and the empty list are the same to the callers: no windows, no restriction.
unfoldable pub schedule_windows_allow_now : List ScheduleWindow → ℕ → Bool
schedule_windows_allow_now windows now = is_empty windows || any (λ w. window_allows w now) windows

-- The opening of a window on a day.
unfoldable pub opening_on : ScheduleWindow → ℕ → ℕ
opening_on w ordinal = ordinal * microseconds_per_day + time_of_day w.start_time

-- The inner loop of `next_schedule_opening`: the openings on one day that are not past.
unfoldable pub openings_on : ℕ → ℕ → List ScheduleWindow → List ℕ
openings_on now ordinal [] = []
openings_on now ordinal (w ∷ windows) =
    let rest = openings_on now ordinal windows in
    if includes_weekday w.days (weekday ordinal) && leb now (opening_on w ordinal)
    then opening_on w ordinal ∷ rest
    else rest

-- The outer loop, over so many days from a day on.
unfoldable pub openings_from : ℕ → List ScheduleWindow → ℕ → ℕ → List ℕ
openings_from now windows ordinal zero = []
openings_from now windows ordinal (suc days) =
    openings_on now ordinal windows ++ openings_from now windows (ordinal + 1) days

unfoldable pub least_of : ℕ → List ℕ → ℕ
least_of m [] = m
least_of m (x ∷ xs) = least_of (if ltb x m then x else m) xs

-- `min(candidates) if candidates else None`
unfoldable pub minimum? : List ℕ → Option ℕ
minimum? [] = none
minimum? (x ∷ xs) = some (least_of x xs)

unfoldable pub next_schedule_opening : List ScheduleWindow → ℕ → Option ℕ
next_schedule_opening windows now =
    if is_empty windows
    then none
    else if schedule_windows_allow_now windows now
    then some now
    else minimum? (openings_from now windows (ordinal_of now) 8)
