-- ===== src/Scheduling/Tests.antt =====
-- Weekend nights, in the tests of packages/shared/encodr_shared/scheduling.py.
use mathlib.Core.List.Memᴰ
use encodr.Prelude.{
  ℕ, ◌≡◌, refl, false, some, List, [], ◌∷◌, map, is_none, codes, strip, is_space, lower,
}
use encodr.Planning.Append.{append_new}
use encodr.Scheduling.{sat, sun, ScheduleWindow, next_schedule_opening}
use encodr.Scheduling.Texts.{
  WindowTexts, parse_day, digits_value, parse_int, parse_time, normalise_time, normalise_days,
  normalise_window, normalise_schedule_windows, window_texts,
}
use encodr.Scheduling.Next.{next_schedule_opening-some}
use encodr.Scheduling.RoundTrip.{normalise_schedule_windows_again}

abbrev weekend_nights : ScheduleWindow
weekend_nights = record {
  days = sat ∷ sun ∷ [];
  start_time = record { hour = 22; minute = 0 };
  end_time = record { hour = 6; minute = 30 };
}

abbrev windows : List ScheduleWindow
windows = weekend_nights ∷ []

-- Noon of the second Monday.
abbrev monday_noon : ℕ
monday_noon = 734_400_000_000

-- Ten in the evening of the Saturday after.
abbrev saturday_night : ℕ
saturday_night = 1_202_400_000_000

next_schedule_opening-some_example : is_none (next_schedule_opening windows monday_noon) ≡ false
next_schedule_opening-some_example =
    next_schedule_opening-some windows monday_noon {w = weekend_nights} {d = sun} (Memᴰ.head refl)
      (Memᴰ.tail (Memᴰ.head refl))

-- As an operator may write it, with a day twice.
abbrev written : List WindowTexts
written =
    record {
      days = codes " Sat" ∷ codes "sun" ∷ codes "SAT" ∷ [];
      start_time = codes "22:0";
      end_time = codes " 6:30 ";
    }
    ∷ []

reads : normalise_schedule_windows written ≡ some windows
unfolding normalise_schedule_windows normalise_window normalise_days append_new parse_day
    normalise_time parse_time parse_int digits_value strip is_space lower
reads = refl

normalise_schedule_windows_again_example :
    normalise_schedule_windows (map window_texts windows) ≡ some windows
normalise_schedule_windows_again_example = normalise_schedule_windows_again written reads
