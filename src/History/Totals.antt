-- ===== src/History/Totals.antt =====
-- What the summaries of the years add up to.
use open_fire_watch.Base.{
  ℕ, ◌+◌, ◌≤◌, ◌≡◌, ◌≢◌, refl, List, [], ◌∷◌, length, All, ◌==◌, arith, inl, inr, Bool-cases,
}
use open_fire_watch.Backfill.Weather.{WeatherHour}
use open_fire_watch.History.{
  MonthSummary, YearSummary, DayRow, Calendar, count_hour, count_hours, add_to_month, add_to_year,
  new_year, add_row, add_rows, total,
}
use open_fire_watch.History.Sorted.{Distinct}

-- The hours of the rows: each qualifying hour is counted once.
total-count_hour :
    (calendar : Calendar) (day : ℕ) (rows : List DayRow)
    → total (λ r. r.hours) (count_hour calendar day rows) ≡ total (λ r. r.hours) rows + 1
unfolding count_hour
total-count_hour calendar day [] = refl
total-count_hour calendar day (r ∷ rs) = ground (arith, total-count_hour calendar day rs)

pub total-count_hours :
    (calendar : Calendar) (hours : List WeatherHour)
    → total (λ r. r.hours) (count_hours calendar hours) ≡ length hours
unfolding count_hours
total-count_hours calendar [] = refl
total-count_hours calendar (h ∷ hs) = omega (
  arith,
  total-count_hour calendar (calendar.local_day h.observed_at) (count_hours calendar hs),
  total-count_hours calendar hs,
)

days-add_to_month :
    (row : DayRow) (ms : List MonthSummary)
    → total (λ m. m.days) (add_to_month row ms) ≡ total (λ m. m.days) ms + 1
unfolding add_to_month
days-add_to_month row [] = refl
days-add_to_month row (m ∷ ms) = ground (arith, days-add_to_month row ms)

hours-add_to_month :
    (row : DayRow) (ms : List MonthSummary)
    → total (λ m. m.hours) (add_to_month row ms) ≡ total (λ m. m.hours) ms + row.hours
unfolding add_to_month
hours-add_to_month row [] = omega arith
hours-add_to_month row (m ∷ ms) = ground (arith, hours-add_to_month row ms)

add_to_month-All :
    (P : ℕ → Type 0) (row : DayRow) (ms : List MonthSummary)
    → P row.month
    → All (λ m. P m.month) ms
    → All (λ m. P m.month) (add_to_month row ms)
unfolding add_to_month
add_to_month-All P row [] p h = (p, tt)
add_to_month-All P row (m ∷ ms) p h = elim (Bool-cases (m.month == row.month)) [
  | inl e ↦ rw e h
  | inr e ↦ rw e (h.0, add_to_month-All P row ms p h.1)
]

add_to_month-Distinct :
    (row : DayRow) (ms : List MonthSummary)
    → Distinct (λ m. m.month) ms
    → Distinct (λ m. m.month) (add_to_month row ms)
unfolding add_to_month
add_to_month-Distinct row [] d = (tt, tt)
add_to_month-Distinct row (m ∷ ms) d = elim (Bool-cases (m.month == row.month)) [
  | inl e ↦ rw e d
  | inr e ↦ rw e (
    add_to_month-All (λ k. m.month ≢ k) row ms (ground arith) d.0,
    add_to_month-Distinct row ms d.1,
  )
]

-- What holds of a year while the rows are added.
pub record IsOpenYear (y : YearSummary) : Type 0 where
  pub days : y.days ≡ total (λ m. m.days) y.months
  pub hours : y.hours ≡ total (λ m. m.hours) y.months
  pub longest : y.longest_window_hours ≤ y.hours
  pub months : Distinct (λ m. m.month) y.months

add_to_year-IsOpenYear :
    (row : DayRow) (y : YearSummary) → IsOpenYear y → IsOpenYear (add_to_year row y)
unfolding add_to_year
add_to_year-IsOpenYear row y h = record {
  days = omega (arith, h.days, days-add_to_month row y.months);
  hours = omega (arith, h.hours, hours-add_to_month row y.months);
  longest = omega (arith, h.longest);
  months = add_to_month-Distinct row y.months h.months;
}

new_year-IsOpenYear : (n : ℕ) → IsOpenYear (new_year n)
new_year-IsOpenYear n = record { days = refl; hours = refl; longest = omega arith; months = tt }

add_row-All :
    (row : DayRow) (ys : List YearSummary) → All IsOpenYear ys → All IsOpenYear (add_row row ys)
unfolding add_row
add_row-All row [] h = (add_to_year-IsOpenYear row _ (new_year-IsOpenYear row.year), tt)
add_row-All row (y ∷ ys) h = elim (Bool-cases (y.year == row.year)) [
  | inl e ↦ rw e (add_to_year-IsOpenYear row y h.0, h.1)
  | inr e ↦ rw e (h.0, add_row-All row ys h.1)
]

add_row-All_keys :
    (P : ℕ → Type 0) (row : DayRow) (ys : List YearSummary)
    → P row.year
    → All (λ y. P y.year) ys
    → All (λ y. P y.year) (add_row row ys)
unfolding add_row add_to_year
add_row-All_keys P row [] p h = (p, tt)
add_row-All_keys P row (y ∷ ys) p h = elim (Bool-cases (y.year == row.year)) [
  | inl e ↦ rw e h
  | inr e ↦ rw e (h.0, add_row-All_keys P row ys p h.1)
]

add_row-Distinct :
    (row : DayRow) (ys : List YearSummary)
    → Distinct (λ y. y.year) ys
    → Distinct (λ y. y.year) (add_row row ys)
unfolding add_row add_to_year
add_row-Distinct row [] d = (tt, tt)
add_row-Distinct row (y ∷ ys) d = elim (Bool-cases (y.year == row.year)) [
  | inl e ↦ rw e d
  | inr e ↦
      rw e
        (add_row-All_keys (λ k. y.year ≢ k) row ys (ground arith) d.0, add_row-Distinct row ys d.1)
]

total-add_row :
    (row : DayRow) (ys : List YearSummary)
    → (total (λ y. y.hours) (add_row row ys) ≡ total (λ y. y.hours) ys + row.hours)
      × (total (λ y. y.days) (add_row row ys) ≡ total (λ y. y.days) ys + 1)
unfolding add_row add_to_year
total-add_row row [] = (omega arith, refl)
total-add_row row (y ∷ ys) =
    (ground (arith, (total-add_row row ys).0), ground (arith, (total-add_row row ys).1))

-- All of it, for the rows in turn.
pub record AreYears (h d : ℕ) (ys : List YearSummary) : Type 0 where
  pub all : All IsOpenYear ys
  pub distinct : Distinct (λ y. y.year) ys
  pub sum_hours : total (λ y. y.hours) ys ≡ h
  pub sum_days : total (λ y. y.days) ys ≡ d

pub add_rows-AreYears :
    (rows : List DayRow) (h d : ℕ) (ys : List YearSummary)
    → AreYears h d ys
    → AreYears (h + total (λ r. r.hours) rows) (d + length rows) (add_rows rows ys)
unfolding add_rows
add_rows-AreYears [] h d ys a = record {
  all = a.all;
  distinct = a.distinct;
  sum_hours = omega (arith, a.sum_hours);
  sum_days = omega (arith, a.sum_days);
}
add_rows-AreYears (r ∷ rs) h d ys a =
    let step : AreYears (h + r.hours) (d + 1) (add_row r ys) = record {
      all = add_row-All r ys a.all;
      distinct = add_row-Distinct r ys a.distinct;
      sum_hours = omega (arith, (total-add_row r ys).0, a.sum_hours);
      sum_days = omega (arith, (total-add_row r ys).1, a.sum_days);
    } in
    let rest = add_rows-AreYears rs (h + r.hours) (d + 1) (add_row r ys) step in
    record {
      all = rest.all;
      distinct = rest.distinct;
      sum_hours = omega (arith, rest.sum_hours);
      sum_days = omega (arith, rest.sum_days);
    }
