-- ===== src/Scheduling/RoundTrip.antt =====
-- What `normalise_schedule_windows` of packages/shared/encodr_shared/scheduling.py stores is read back as it was.
use mathlib.Core.List.{append-nil, append_assoc}
use encodr.Prelude.{
  ℕ, ◌≡◌, refl, sym, ap, ◌∙◌, false, Option, none, some, List, [], ◌∷◌, ◌++◌, map, any, is_empty,
  Bool-cases, inl, inr, lower, strip, is_space, Option-cases,
}
use encodr.Planning.Append.{append_new}
use encodr.Scheduling.{Day, mon, tue, wed, thu, fri, sat, sun, ClockTime, ScheduleWindow}
use encodr.Scheduling.Openings.{IsClockTime}
use encodr.Scheduling.Next.{AllStartInDay}
use encodr.Scheduling.Texts.{
  WindowTexts, day_text, same_day, parse_day, window_of, normalise_time, normalise_days,
  normalise_window, normalise_schedule_windows, window_texts,
}
use encodr.Scheduling.Times.{normalise_time-time_text, normalise_time-IsClockTime}

parse_day-text : (d : Day) → parse_day (day_text d) ≡ some d
unfolding parse_day lower strip is_space
parse_day-text mon = refl
parse_day-text tue = refl
parse_day-text wed = refl
parse_day-text thu = refl
parse_day-text fri = refl
parse_day-text sat = refl
parse_day-text sun = refl

-- Each day of the second list is new to the first and to those before it.
abbrev Fresh : List Day → List Day → Type 0
Fresh seen [] = Unit
Fresh seen (d ∷ ds) = (any (same_day d) seen ≡ false) × Fresh (seen ++ d ∷ []) ds

-- Fresh days are all kept.
normalise_days-Fresh :
    (seen ds : List Day) → Fresh seen ds → normalise_days seen (map day_text ds) ≡ some (seen ++ ds)
unfolding normalise_days append_new
normalise_days-Fresh seen [] h = ap some (sym (append-nil seen))
normalise_days-Fresh seen (d ∷ ds) h =
    rw (normalise_days, parse_day-text d, append_new, h.0)
      (normalise_days-Fresh (seen ++ d ∷ []) ds h.1 ∙ ap some (append_assoc seen (d ∷ []) ds))

-- What is kept is fresh.
record Kept (seen days : List Day) : Type 0 where
  added : List Day
  same : days ≡ seen ++ added
  fresh : Fresh seen added

normalise_days-Kept :
    (seen : List Day) (texts : List (List ℕ)) {days : List Day}
    → normalise_days seen texts ≡ some days
    → Kept seen days
unfolding normalise_days append_new
normalise_days-Kept seen [] e = record { added = []; same = cc (sym (append-nil seen)); fresh = tt }
normalise_days-Kept seen (text ∷ texts) {days} e = elim (Option-cases (parse_day text)) [
  | inl k ↦ absurd (cc (rw (normalise_days, k) at e))
  | inr (d, k) ↦ elim (Bool-cases (any (same_day d) seen)) [
    | inl old ↦ normalise_days-Kept seen texts (rw (normalise_days, k, append_new, old) at e)
    | inr new ↦
        let rest =
          normalise_days-Kept (seen ++ d ∷ []) texts
            (rw (normalise_days, k, append_new, new) at e) in
        record {
          added = d ∷ rest.added;
          same = rest.same ∙ append_assoc seen (d ∷ []) rest.added;
          fresh = (new, rest.fresh);
        }
  ]
]

-- A window that the reading can give: some days, none of them twice, and two times of day.
pub record IsRead (w : ScheduleWindow) : Type 0 where
  pub some_day : is_empty w.days ≡ false
  pub fresh_days : Fresh [] w.days
  pub start_in_day : IsClockTime w.start_time
  pub end_in_day : IsClockTime w.end_time

is_empty-map_text : (ds : List Day) → is_empty (map day_text ds) ≡ is_empty ds
is_empty-map_text [] = refl
is_empty-map_text (d ∷ ds) = refl

-- A window that is read is written back in a form that reads as the same window.
normalise_window-window_texts :
    (w : ScheduleWindow) → IsRead w → normalise_window (window_texts w) ≡ some w
unfolding normalise_window window_texts
normalise_window-window_texts w h =
    rw
      (
        is_empty-map_text w.days,
        h.some_day,
        normalise_days-Fresh [] w.days h.fresh_days,
        normalise_time-time_text w.start_time h.start_in_day,
        normalise_time-time_text w.end_time h.end_in_day,
      )
      refl

-- The first day of a window is kept.
normalise_days-some :
    (texts : List (List ℕ)) {days : List Day}
    → is_empty texts ≡ false
    → normalise_days [] texts ≡ some days
    → is_empty days ≡ false
unfolding normalise_days append_new
normalise_days-some [] h e = cc
normalise_days-some (text ∷ texts) {days} h e = elim (Option-cases (parse_day text)) [
  | inl k ↦ absurd (cc (rw (normalise_days, k) at e))
  | inr (d, k) ↦
      let rest = normalise_days-Kept (d ∷ []) texts (rw (normalise_days, k) at e) in
      rw rest.same refl
]

window_of-IsRead :
    (days : List Day) (start end : Option ClockTime) {w : ScheduleWindow}
    → is_empty days ≡ false
    → Fresh [] days
    → ((c : ClockTime) → start ≡ some c → IsClockTime c)
    → ((c : ClockTime) → end ≡ some c → IsClockTime c)
    → window_of (some days) start end ≡ some w
    → IsRead w
window_of-IsRead days none end filled fresh hs he e = cc
window_of-IsRead days (some s) none filled fresh hs he e = cc
window_of-IsRead days (some s) (some t) {w} filled fresh hs he e =
    let same : record { days = days; start_time = s; end_time = t } ≡ w = cc in
    rw (← same) (record {
      some_day = filled;
      fresh_days = fresh;
      start_in_day = hs s refl;
      end_in_day = he t refl;
    })

-- What is read from an object has its days and its times.
pub normalise_window-IsRead :
    (item : WindowTexts) {w : ScheduleWindow} → normalise_window item ≡ some w → IsRead w
unfolding normalise_window
normalise_window-IsRead item {w} e = elim (Bool-cases (is_empty item.days)) [
  | inl k ↦ absurd (cc (rw (normalise_window, k) at e))
  | inr k ↦ elim (Option-cases (normalise_days [] item.days)) [
    | inl n ↦ absurd (cc (rw (normalise_window, k, n) at e))
    | inr (days, n) ↦
        let kept = normalise_days-Kept [] item.days n in
        window_of-IsRead days (normalise_time item.start_time) (normalise_time item.end_time)
          (normalise_days-some item.days k n) (rw kept.same kept.fresh)
          (λ c f. normalise_time-IsClockTime item.start_time f)
          (λ c f. normalise_time-IsClockTime item.end_time f) (rw (normalise_window, k, n) at e)
  ]
]

-- What `normalise_schedule_windows` stores is read again as the same windows.
pub normalise_schedule_windows_again :
    (items : List WindowTexts) {windows : List ScheduleWindow}
    → normalise_schedule_windows items ≡ some windows
    → normalise_schedule_windows (map window_texts windows) ≡ some windows
unfolding normalise_schedule_windows
normalise_schedule_windows_again [] {windows} e = let same : [] ≡ windows = cc in rw (← same) refl
normalise_schedule_windows_again (item ∷ items) {windows} e =
    elim (Option-cases (normalise_window item)) [
      | inl k ↦ absurd (cc (rw (normalise_schedule_windows, k) at e))
      | inr (w, k) ↦ elim (Option-cases (normalise_schedule_windows items)) [
        | inl n ↦ absurd (cc (rw (normalise_schedule_windows, k, n) at e))
        | inr (ws, n) ↦
            let same : w ∷ ws ≡ windows = cc (rw (normalise_schedule_windows, k, n) at e) in
            rw (← same) (
              rw
                (
                  normalise_schedule_windows,
                  normalise_window-window_texts w (normalise_window-IsRead item k),
                  normalise_schedule_windows_again items n,
                )
                refl)
      ]
    ]

-- The windows that are read start within the day.
pub normalise_schedule_windows-AllStartInDay :
    (items : List WindowTexts) {windows : List ScheduleWindow}
    → normalise_schedule_windows items ≡ some windows
    → AllStartInDay windows
unfolding normalise_schedule_windows
normalise_schedule_windows-AllStartInDay [] {windows} e =
    let same : [] ≡ windows = cc in rw (← same) tt
normalise_schedule_windows-AllStartInDay (item ∷ items) {windows} e =
    elim (Option-cases (normalise_window item)) [
      | inl k ↦ absurd (cc (rw (normalise_schedule_windows, k) at e))
      | inr (w, k) ↦ elim (Option-cases (normalise_schedule_windows items)) [
        | inl n ↦ absurd (cc (rw (normalise_schedule_windows, k, n) at e))
        | inr (ws, n) ↦
            let same : w ∷ ws ≡ windows = cc (rw (normalise_schedule_windows, k, n) at e) in
            rw (← same) (
              (normalise_window-IsRead item k).start_in_day,
              normalise_schedule_windows-AllStartInDay items n,
            )
      ]
    ]
