-- ===== src/Scheduling/Next.antt =====
-- `next_schedule_opening` of packages/shared/encodr_shared/scheduling.py, against `schedule_windows_allow_now`.
use encodr.Prelude.{
  ℕ, ◌+◌, ◌-◌, ◌%◌, ◌<◌, ◌≡◌, refl, false, List, Memᴰ, ◌==◌, is_none, not_empty_of_mem, arith,
  Bool-cases, inl, inr, any_of_mem, All,
}
use encodr.Scheduling.{
  Day, mon, tue, wed, thu, fri, sat, sun, day_index, ScheduleWindow, ordinal_of, weekday,
  includes_weekday, schedule_windows_allow_now, opening_on, openings_from, next_schedule_opening,
}
use encodr.Scheduling.Candidates.{openings_from_complete, minimum?-some}
use encodr.Scheduling.Openings.{StartsInDay}

-- Windows that are read from texts all start within a day.
abbrev pub AllStartInDay : List ScheduleWindow → Type 0
AllStartInDay = All StartsInDay

weekday-next :
    (ordinal d : ℕ) → d < 7 → weekday (ordinal + 1 + (d + 7 - weekday (ordinal + 1)) % 7) ≡ d
unfolding weekday
weekday-next ordinal d h = omega arith

day_index-bound : (d : Day) → day_index d < 7
day_index-bound mon = omega arith
day_index-bound tue = omega arith
day_index-bound wed = omega arith
day_index-bound thu = omega arith
day_index-bound fri = omega arith
day_index-bound sat = omega arith
day_index-bound sun = omega arith

-- When some window has a day, `next_schedule_opening` returns a time.
pub next_schedule_opening-some :
    (windows : List ScheduleWindow) (now : ℕ) {w : ScheduleWindow} {d : Day}
    → Memᴰ w windows
    → Memᴰ d w.days
    → is_none (next_schedule_opening windows now) ≡ false
unfolding next_schedule_opening includes_weekday opening_on
next_schedule_opening-some windows now {w} {d} m k =
    let n = ordinal_of now + 1 + (day_index d + 7 - weekday (ordinal_of now + 1)) % 7 in
    let same = weekday-next (ordinal_of now) (day_index d) (day_index-bound d) in
    let c =
      openings_from_complete now windows (ordinal_of now) 8 n m (omega arith) (omega arith)
        (any_of_mem (λ e. day_index e == weekday n) w.days k (ground arith)) (ground arith) in
    rw (not_empty_of_mem windows m) (elim (Bool-cases (schedule_windows_allow_now windows now)) [
      | inl e ↦ rw e refl
      | inr e ↦ rw e (minimum?-some (openings_from now windows (ordinal_of now) 8) c)
    ])
