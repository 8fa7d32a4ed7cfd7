-- ===== src/Scheduling/Texts.antt =====
-- Schedule windows as the API sends them, read and written, in packages/shared/encodr_shared/scheduling.py.
-- Letters and digits are ASCII: `str.lower` and `int` of other scripts are not modelled.
use encodr.Prelude.{
  ℕ, ◌+◌, ◌-◌, ◌*◌, ◌/◌, ◌%◌, Bool, true, false, not, ◌&&◌, ◌||◌, Option, none, some, List, [], ◌∷◌,
  ◌++◌, map, if◌then◌else◌, ◌==◌, leb, ltb, is_empty, codes, list_eq, lower, strip,
}
use encodr.Planning.Append.{append_new}
use encodr.Scheduling.{Day, mon, tue, wed, thu, fri, sat, sun, day_index, ClockTime, ScheduleWindow}

-- One object of the list, its values already texts.
pub record WindowTexts : Type 0 where
  pub days : List (List ℕ)
  pub start_time : List ℕ
  pub end_time : List ℕ

abbrev pub day_text : Day → List ℕ
day_text mon = codes "mon"
day_text tue = codes "tue"
day_text wed = codes "wed"
day_text thu = codes "thu"
day_text fri = codes "fri"
day_text sat = codes "sat"
day_text sun = codes "sun"

abbrev pub same_day : Day → Day → Bool
same_day a b = day_index a == day_index b

abbrev find_day : List ℕ → List Day → Option Day
find_day text [] = none
find_day text (d ∷ ds) = if list_eq text (day_text d) then some d else find_day text ds

abbrev pub day_order : List Day
day_order = mon ∷ tue ∷ wed ∷ thu ∷ fri ∷ sat ∷ sun ∷ []

-- `str(day).strip().lower()`, in `DAY_ORDER`
unfoldable pub parse_day : List ℕ → Option Day
parse_day text = find_day (lower (strip text)) day_order

-- The digits of `int(text)`, with single underscores between them; the flag says that the last was a digit.
unfoldable pub digits_value : ℕ → Bool → List ℕ → Option ℕ
digits_value value after [] = if after then some value else none
digits_value value after (c ∷ cs) = elim (leb b'0' c && leb c b'9') [
  | true ↦ digits_value (value * 10 + (c - b'0')) true cs
  | false ↦ elim (c == b'_' && after) [ true ↦ digits_value value false cs | false ↦ none ]
]

-- `int(text)`, whether there is a minus sign, and the magnitude.
pub record Signed : Type 0 where
  pub is_negative : Bool
  pub magnitude : ℕ

abbrev pub signed : Bool → Option ℕ → Option Signed
signed minus none = none
signed minus (some n) = some (record { is_negative = minus; magnitude = n })

abbrev pub read_signed : List ℕ → Option Signed
read_signed [] = none
read_signed (c ∷ cs) = elim (c == b'-') [
  | true ↦ signed true (digits_value 0 false cs)
  | false ↦ elim (c == b'+') [
    | true ↦ signed false (digits_value 0 false cs)
    | false ↦ signed false (digits_value 0 false (c ∷ cs))
  ]
]

unfoldable pub parse_int : List ℕ → Option Signed
parse_int text = read_signed (strip text)

-- `value.split(":", maxsplit=1)` into two parts.
abbrev pub split_before : List ℕ → List ℕ → Option (List ℕ × List ℕ)
split_before front [] = none
split_before front (c ∷ cs) =
    let rest = split_before (front ++ c ∷ []) cs in if c == b':' then some (front, cs) else rest

-- `not (n < 0 or n >= bound)`
abbrev pub in_range : ℕ → Signed → Bool
in_range bound n = (not n.is_negative || n.magnitude == 0) && ltb n.magnitude bound

abbrev pub clock_in_range : Signed → Signed → Option ClockTime
clock_in_range h m =
    if in_range 24 h && in_range 60 m
    then some (record { hour = h.magnitude; minute = m.magnitude })
    else none

abbrev pub clock_of_parts : Option Signed → Option Signed → Option ClockTime
clock_of_parts (some h) (some m) = clock_in_range h m
clock_of_parts none m = none
clock_of_parts (some h) none = none

-- `_parse_time`; none is its `ValueError`.
unfoldable pub parse_time : List ℕ → Option ClockTime
parse_time value = elim (split_before [] value) [
  | none ↦ none
  | some parts ↦ clock_of_parts (parse_int parts.0) (parse_int parts.1)
]

abbrev pub two_digits : ℕ → List ℕ
two_digits n = (48 + n / 10) ∷ (48 + n % 10) ∷ []

-- `strftime("%H:%M")`
abbrev pub time_text : ClockTime → List ℕ
time_text c = two_digits c.hour ++ b':' ∷ two_digits c.minute

-- `_normalise_time` gives the text of this time.
unfoldable pub normalise_time : List ℕ → Option ClockTime
normalise_time value = parse_time (strip value)

-- The inner loop of `normalise_schedule_windows`.
unfoldable pub normalise_days : List Day → List (List ℕ) → Option (List Day)
normalise_days cleaned [] = some cleaned
normalise_days cleaned (d ∷ ds) = elim (parse_day d) [
  | none ↦ none
  | some x ↦ normalise_days (append_new same_day cleaned x) ds
]

abbrev pub window_of :
    Option (List Day) → Option ClockTime → Option ClockTime → Option ScheduleWindow
window_of none start end = none
window_of (some days) none end = none
window_of (some days) (some start) none = none
window_of (some days) (some start) (some end) =
    some (record { days = days; start_time = start; end_time = end })

-- One turn of the outer loop; none is its `ValueError`.
unfoldable pub normalise_window : WindowTexts → Option ScheduleWindow
normalise_window item =
    if is_empty item.days
    then none
    else window_of (normalise_days [] item.days) (normalise_time item.start_time)
        (normalise_time item.end_time)

unfoldable pub normalise_schedule_windows : List WindowTexts → Option (List ScheduleWindow)
normalise_schedule_windows [] = some []
normalise_schedule_windows (item ∷ items) = elim (normalise_window item) [
  | none ↦ none
  | some w ↦ elim (normalise_schedule_windows items) [ none ↦ none | some ws ↦ some (w ∷ ws) ]
]

-- The object that the function appends for a window.
unfoldable pub window_texts : ScheduleWindow → WindowTexts
window_texts w = record {
  days = map day_text w.days;
  start_time = time_text w.start_time;
  end_time = time_text w.end_time;
}

-- `",".join` and `" | ".join`
abbrev pub join : List ℕ → List (List ℕ) → List ℕ
join separator [] = []
join separator (x ∷ []) = x
join separator (x ∷ y ∷ ys) = x ++ separator ++ join separator (y ∷ ys)

abbrev pub window_summary : WindowTexts → List ℕ
window_summary w = join (codes ",") w.days ++ codes " " ++ w.start_time ++ codes "-" ++ w.end_time

abbrev pub schedule_windows_summary : List WindowTexts → Option (List ℕ)
schedule_windows_summary windows =
    if is_empty windows then none else some (join (codes " | ") (map window_summary windows))
