-- ===== src/History/Years.antt =====
-- What the history of a zone says of the hours in which its ignition window was open.
use open_fire_watch.Base.{
  ℕ, ◌≤◌, ◌<◌, ◌≡◌, refl, ◌==◌, ltb, ltb→lt, inl, inr, Bool-cases, All-imp, String, true, List, [],
  ◌∷◌, map, keep, length, All, arith,
}
use open_fire_watch.Backfill.Weather.{WeatherHour}
use open_fire_watch.Evaluation.Level.{profile_for}
use open_fire_watch.RiskZones.Table.{ZoneRow}
use open_fire_watch.History.{
  YearSummary, DayRow, Calendar, qualifies, count_hour, count_hours, window_days, add_rows,
  with_sorted_months, group_by_year, total, for_zone,
}
use open_fire_watch.History.Sorted.{Distinct, Ascends, sort_by-All, sort_by-Ascends, total-sort_by}
use open_fire_watch.History.Totals.{IsOpenYear, AreYears, add_rows-AreYears, total-count_hours}

-- A year adds up: its days and hours are those of its months, which ascend, and no day of it had
-- more qualifying hours than the year.
pub record IsYear (y : YearSummary) : Type 0 where
  pub days : y.days ≡ total (λ m. m.days) y.months
  pub hours : y.hours ≡ total (λ m. m.hours) y.months
  pub longest : y.longest_window_hours ≤ y.hours
  pub months : Ascends (λ m. m.month) y.months

with_sorted_months-IsYear : (y : YearSummary) → IsOpenYear y → IsYear (with_sorted_months y)
with_sorted_months-IsYear y h = record {
  days = omega (arith, h.days, total-sort_by (λ m. m.month) (λ m. m.days) y.months);
  hours = omega (arith, h.hours, total-sort_by (λ m. m.month) (λ m. m.hours) y.months);
  longest = h.longest;
  months = sort_by-Ascends (λ m. m.month) y.months h.months;
}

All-with_sorted_months :
    (ys : List YearSummary) → All IsOpenYear ys → All IsYear (map with_sorted_months ys)
All-with_sorted_months [] h = tt
All-with_sorted_months (y ∷ ys) h = (with_sorted_months-IsYear y h.0, All-with_sorted_months ys h.1)

All-mapped :
    (P : ℕ → Type 0) (ys : List YearSummary)
    → All (λ y. P y.year) ys
    → All (λ y. P y.year) (map with_sorted_months ys)
All-mapped P [] h = tt
All-mapped P (y ∷ ys) h = (h.0, All-mapped P ys h.1)

Distinct-map :
    (ys : List YearSummary)
    → Distinct (λ y. y.year) ys
    → Distinct (λ y. y.year) (map with_sorted_months ys)
Distinct-map [] d = tt
Distinct-map (y ∷ ys) d = (All-mapped _ ys d.0, Distinct-map ys d.1)

total-map :
    (ys : List YearSummary)
    → (total (λ y. y.hours) (map with_sorted_months ys) ≡ total (λ y. y.hours) ys)
      × (total (λ y. y.days) (map with_sorted_months ys) ≡ total (λ y. y.days) ys)
total-map [] = (refl, refl)
total-map (y ∷ ys) = (rw ((total-map ys).0), rw ((total-map ys).1))

-- The years add up to so many hours and days, each adds up in itself, and they ascend.
pub record AddUp (h d : ℕ) (ys : List YearSummary) : Type 0 where
  pub all : All IsYear ys
  pub ascends : Ascends (λ y. y.year) ys
  pub sum_hours : total (λ y. y.hours) ys ≡ h
  pub sum_days : total (λ y. y.days) ys ≡ d

group_by_year-AddUp :
    (rows : List DayRow) → AddUp (total (λ r. r.hours) rows) (length rows) (group_by_year rows)
unfolding group_by_year
group_by_year-AddUp rows =
    let none_yet : AreYears 0 0 [] = record {
      all = tt;
      distinct = tt;
      sum_hours = refl;
      sum_days = refl;
    } in
    let a = add_rows-AreYears rows 0 0 [] none_yet in
    let ys = map with_sorted_months (add_rows rows []) in
    record {
      all = sort_by-All (λ y. y.year) IsYear ys (All-with_sorted_months _ a.all);
      ascends = sort_by-Ascends (λ y. y.year) ys (Distinct-map _ a.distinct);
      sum_hours = omega (
        arith,
        total-sort_by (λ y. y.year) (λ y. y.hours) ys,
        (total-map (add_rows rows [])).0,
        a.sum_hours,
      );
      sum_days = omega (
        arith,
        total-sort_by (λ y. y.year) (λ y. y.days) ys,
        (total-map (add_rows rows [])).1,
        a.sum_days,
      );
    }

count_hour-All :
    (calendar : Calendar) (P : ℕ → Type 0) (day : ℕ) (rows : List DayRow)
    → P day
    → All (λ r. P r.day) rows
    → All (λ r. P r.day) (count_hour calendar day rows)
unfolding count_hour
count_hour-All calendar P day [] p h = (p, tt)
count_hour-All calendar P day (r ∷ rs) p h = elim (Bool-cases (r.day == day)) [
  | inl e ↦ rw e h
  | inr e ↦ elim (Bool-cases (ltb day r.day)) [
    | inl l ↦ rw (e, l) (p, h)
    | inr l ↦ rw (e, l) (h.0, count_hour-All calendar P day rs p h.1)
  ]
]

count_hour-Ascends :
    (calendar : Calendar) (day : ℕ) (rows : List DayRow)
    → Ascends (λ r. r.day) rows
    → Ascends (λ r. r.day) (count_hour calendar day rows)
unfolding count_hour
count_hour-Ascends calendar day [] h = (tt, tt)
count_hour-Ascends calendar day (r ∷ rs) h = elim (Bool-cases (r.day == day)) [
  | inl e ↦ rw e h
  | inr e ↦ elim (Bool-cases (ltb day r.day)) [
    | inl l ↦
        let below = ltb→lt day r.day l in
        rw (e, l) ((below, All-imp rs (λ z k. omega (arith, below, k)) h.0), h)
    | inr l ↦
        rw (e, l)
          (
            count_hour-All calendar (λ d. r.day < d) day rs (ground arith) h.0,
            count_hour-Ascends calendar day rs h.1,
          )
  ]
]

count_hours-Ascends :
    (calendar : Calendar) (hours : List WeatherHour)
    → Ascends (λ r. r.day) (count_hours calendar hours)
unfolding count_hours
count_hours-Ascends calendar [] = tt
count_hours-Ascends calendar (h ∷ hs) =
    count_hour-Ascends calendar (calendar.local_day h.observed_at) (count_hours calendar hs)
      (count_hours-Ascends calendar hs)

-- The history of a zone whose window is tracked counts each stored hour of the zone in which it was
-- at least 30 °C and the soil below 20 % exactly once: the hours of its years add up to those
-- hours, and their days to the rows that the days with such an hour make, one a local day. The
-- years ascend; in each, the days and hours are those of its months, the months ascend, and no day
-- has more hours than the year.
pub for_zone-AddUp :
    (calendar : Calendar) (current_year : ℕ) (sources : ℕ → List String)
    (history : List WeatherHour) (zone : ZoneRow)
    → (profile_for zone.hazard_type).tracks_ignition_window ≡ true
    → AddUp
        (length (keep (qualifies zone.id) history))
        (length (window_days calendar zone.id history))
        (for_zone calendar current_year sources history zone).years
      × Ascends (λ r. r.day) (window_days calendar zone.id history)
unfolding for_zone window_days
for_zone-AddUp calendar current_year sources history zone gated =
    rw (gated, ← total-count_hours calendar (keep (qualifies zone.id) history))
      (
        group_by_year-AddUp (window_days calendar zone.id history),
        count_hours-Ascends calendar (keep (qualifies zone.id) history),
      )
