-- ===== src/Scheduling/Candidates.antt =====
-- The candidates of `next_schedule_opening` in packages/shared/encodr_shared/scheduling.py, and their minimum.
use mathlib.Core.List.Memᴰ
use encodr.Prelude.{
  ℕ, zero, suc, ◌+◌, ◌≤◌, ◌<◌, ◌≡◌, refl, ap, true, false, ◌&&◌, some, List, [], ◌∷◌, Memᴰ,
  if◌then◌else◌, leb, ltb, arith, Bool-cases, inl, inr, &&_true, leb→le, mem_of_if, is_none,
}
use encodr.Scheduling.{
  ScheduleWindow, weekday, includes_weekday, opening_on, openings_on, openings_from, least_of,
  minimum?,
}

-- An opening of one of the windows, from an instant on, on a day from one day on and before another.
pub record IsOpening (now from to : ℕ) (windows : List ScheduleWindow) (c : ℕ) : Type 0 where
  pub window : ScheduleWindow
  pub day : ℕ
  pub listed : Memᴰ window windows
  pub included : includes_weekday window.days (weekday day) ≡ true
  pub is_opening : c ≡ opening_on window day
  pub in_future : now ≤ c
  pub day_lower : from ≤ day
  pub day_upper : day < to

openings_on_sound :
    (now ordinal : ℕ) (windows : List ScheduleWindow) {c : ℕ}
    → Memᴰ c (openings_on now ordinal windows)
    → IsOpening now ordinal (suc ordinal) windows c
unfolding openings_on
openings_on_sound now ordinal [] m = elim m [ ]
openings_on_sound now ordinal (w ∷ windows) {c} m =
    elim (mem_of_if (includes_weekday w.days (weekday ordinal) && leb now (opening_on w ordinal))
      m) [
        | inl (e, inside) ↦ elim (Memᴰ.cases_cons inside) [
          | inl same ↦
              let parts = &&_true _ _ e in
              let soon = leb→le now (opening_on w ordinal) parts.1 in
              record {
                window = w;
                day = ordinal;
                listed = Memᴰ.head refl;
                included = parts.0;
                is_opening = same;
                in_future = omega arith;
                day_lower = omega arith;
                day_upper = omega arith;
              }
          | inr later ↦ widen (openings_on_sound now ordinal windows later)
        ]
        | inr (e, later) ↦ widen (openings_on_sound now ordinal windows later)
      ]
  where
    widen :
        IsOpening now ordinal (suc ordinal) windows c
        → IsOpening now ordinal (suc ordinal) (w ∷ windows) c
    widen o = record {
      window = o.window;
      day = o.day;
      listed = Memᴰ.tail o.listed;
      included = o.included;
      is_opening = o.is_opening;
      in_future = o.in_future;
      day_lower = o.day_lower;
      day_upper = o.day_upper;
    }

openings_on_complete :
    (now ordinal : ℕ) (windows : List ScheduleWindow) {w : ScheduleWindow}
    → Memᴰ w windows
    → includes_weekday w.days (weekday ordinal) ≡ true
    → leb now (opening_on w ordinal) ≡ true
    → Memᴰ (opening_on w ordinal) (openings_on now ordinal windows)
unfolding openings_on
openings_on_complete now ordinal [] m inside soon = elim m [ ]
openings_on_complete now ordinal (x ∷ windows) {w} m inside soon = elim (Memᴰ.cases_cons m) [
  | inl same ↦
      rw (rw same at inside, rw same at soon) (Memᴰ.head (ap (λ v. opening_on v ordinal) same))
  | inr later ↦
      let found = openings_on_complete now ordinal windows later inside soon in
      elim (Bool-cases
        (includes_weekday x.days (weekday ordinal) && leb now (opening_on x ordinal))) [
          | inl e ↦ rw e (Memᴰ.tail found)
          | inr e ↦ rw e found
        ]
]

pub openings_from_sound :
    (now : ℕ) (windows : List ScheduleWindow) (from days : ℕ) {c : ℕ}
    → Memᴰ c (openings_from now windows from days)
    → IsOpening now from (from + days) windows c
unfolding openings_from
openings_from_sound now windows from zero m = elim m [ ]
openings_from_sound now windows from (suc days) m =
    elim (Memᴰ.append_cases (openings_on now from windows) m) [
      | inl today ↦ widen (openings_on_sound now from windows today) (omega arith) (omega arith)
      | inr later ↦
          widen (openings_from_sound now windows (from + 1) days later) (omega arith) (omega arith)
    ]
  where
    widen :
        {lower upper c : ℕ}
        → IsOpening now lower upper windows c
        → from ≤ lower
        → upper ≤ from + suc days
        → IsOpening now from (from + suc days) windows c
    widen o below above = record {
      window = o.window;
      day = o.day;
      listed = o.listed;
      included = o.included;
      is_opening = o.is_opening;
      in_future = o.in_future;
      day_lower = omega (arith, o.day_lower);
      day_upper = omega (arith, o.day_upper);
    }

pub openings_from_complete :
    (now : ℕ) (windows : List ScheduleWindow) (from days day : ℕ) {w : ScheduleWindow}
    → Memᴰ w windows
    → from ≤ day
    → day < from + days
    → includes_weekday w.days (weekday day) ≡ true
    → leb now (opening_on w day) ≡ true
    → Memᴰ (opening_on w day) (openings_from now windows from days)
unfolding openings_from
openings_from_complete now windows from zero day m lower upper inside soon = absurd (omega arith)
openings_from_complete now windows from (suc days) day m lower upper inside soon =
    elim (Bool-cases (ltb from day)) [
      | inl e ↦ Memᴰ.append_right (openings_on now from windows) (
          openings_from_complete now windows (from + 1) days day m (ground arith) (omega arith)
            inside soon)
      | inr e ↦
          let today : day ≡ from = ground arith in
          Memᴰ.append_left (openings_from now windows (from + 1) days) (
            rw today
              (openings_on_complete now from windows m (rw today at inside) (rw today at soon)))
    ]

least_of-mem : (m : ℕ) (xs : List ℕ) → Memᴰ (least_of m xs) (m ∷ xs)
unfolding least_of
least_of-mem m [] = Memᴰ.head refl
least_of-mem m (x ∷ xs) = elim (Bool-cases (ltb x m)) [
  | inl e ↦ rw e (Memᴰ.tail (least_of-mem x xs))
  | inr e ↦ elim (Memᴰ.cases_cons (least_of-mem m xs)) [
    | inl same ↦ rw e (Memᴰ.head same)
    | inr later ↦ rw e (Memᴰ.tail (Memᴰ.tail later))
  ]
]

least_of-le_first : (m : ℕ) (xs : List ℕ) → least_of m xs ≤ m
unfolding least_of
least_of-le_first m [] = omega arith
least_of-le_first m (x ∷ xs) = ground (arith, least_of-le_first m xs, least_of-le_first x xs)

least_of-le : (m : ℕ) (xs : List ℕ) {c : ℕ} → Memᴰ c xs → least_of m xs ≤ c
unfolding least_of
least_of-le m [] k = elim k [ ]
least_of-le m (x ∷ xs) k = elim (Memᴰ.cases_cons k) [
  | inl e ↦ ground (arith, e, least_of-le_first m xs, least_of-le_first x xs)
  | inr r ↦ least_of-le (if ltb x m then x else m) xs r
]

pub minimum?-mem : (xs : List ℕ) {m : ℕ} → minimum? xs ≡ some m → Memᴰ m xs
unfolding minimum?
minimum?-mem [] h = cc
minimum?-mem (x ∷ xs) {m} h = let e : least_of x xs ≡ m = cc in rw (← e) (least_of-mem x xs)

pub minimum?-le : (xs : List ℕ) {m c : ℕ} → minimum? xs ≡ some m → Memᴰ c xs → m ≤ c
unfolding minimum?
minimum?-le [] h k = elim k [ ]
minimum?-le (x ∷ xs) {m} {c} h k =
    let e : least_of x xs ≡ m = cc in
    elim (Memᴰ.cases_cons k) [
      | inl same ↦ omega (arith, least_of-le_first x xs)
      | inr later ↦ omega (arith, least_of-le x xs later)
    ]

pub minimum?-some : (xs : List ℕ) {c : ℕ} → Memᴰ c xs → is_none (minimum? xs) ≡ false
unfolding minimum?
minimum?-some [] k = elim k [ ]
minimum?-some (x ∷ xs) k = refl
