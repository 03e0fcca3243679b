-- ===== src/History.antt =====
-- backend/src/history/history.service.ts: how often the ignition window of a zone was open. The time
-- zone's calendar is a parameter: a local day is its number. Weather is in thousandths.
pub mod Csv
pub mod Sorted
pub mod Totals
pub mod Years
use open_fire_watch.Base.{
  ℕ, ◌+◌, ◌*◌, ◌/◌, ◌<◌, String, Bool, true, false, ◌&&◌, ◌||◌, not, Option, none, some, List, [],
  ◌∷◌, map, reverse, keep, length, leb, ltb, ◌==◌, max, any, if◌then◌else◌, or_else,
}
use open_fire_watch.Base.Int.{ℤ, ltb_ℤ, leb_ℤ}
use open_fire_watch.Base.Text.{Text}
use open_fire_watch.Backfill.Weather.{WeatherHour}
use open_fire_watch.Evaluation.Level.{
  profile_for, ignition_temperature_c, critical_soil_moisture_pct,
}
use open_fire_watch.RiskZones.Table.{ZoneRow}

pub record MonthSummary : Type 0 where
  pub month : ℕ
  pub days : ℕ
  pub hours : ℕ

pub record YearSummary : Type 0 where
  pub year : ℕ
  pub days : ℕ
  pub hours : ℕ
  pub longest_window_hours : ℕ
  pub months : List MonthSummary

-- A row of WINDOW_DAYS_SQL.
pub record DayRow : Type 0 where
  pub year : ℕ
  pub month : ℕ
  pub day : ℕ
  pub hours : ℕ

-- The local calendar.
pub record Calendar : Type 0 where
  pub local_day : ℕ → ℕ
  pub year_of : ℕ → ℕ
  pub month_of : ℕ → ℕ

-- WHERE zone_id = … AND temperature_c >= … AND soil_moisture_pct < …
abbrev pub qualifies : ℕ → WeatherHour → Bool
qualifies zone h =
    h.zone_id == zone
    && leb_ℤ ignition_temperature_c h.temperature_c
    && ltb_ℤ h.soil_moisture_pct critical_soil_moisture_pct

module _ (calendar : Calendar) where
  abbrev day_row : ℕ → DayRow
  day_row day = record {
    year = calendar.year_of day;
    month = calendar.month_of day;
    day = day;
    hours = 1;
  }

  -- GROUP BY the day and ORDER BY the day: one hour more.
  unfoldable pub count_hour : ℕ → List DayRow → List DayRow
  count_hour day [] = day_row day ∷ []
  count_hour day (r ∷ rs) =
      let rest = count_hour day rs in
      if r.day == day
      then record r { hours = r.hours + 1 } ∷ rs
      else if ltb day r.day
      then day_row day ∷ r ∷ rs
      else r ∷ rest

  unfoldable pub count_hours : List WeatherHour → List DayRow
  unfolding count_hour
  count_hours [] = []
  count_hours (h ∷ hs) = count_hour (calendar.local_day h.observed_at) (count_hours hs)

  unfoldable pub window_days : ℕ → List WeatherHour → List DayRow
  unfolding count_hours
  window_days zone history = count_hours (keep (qualifies zone) history)

-- `year.months.find(…)`, and the month or a new one at the end.
unfoldable pub add_to_month : DayRow → List MonthSummary → List MonthSummary
add_to_month row [] = record { month = row.month; days = 1; hours = row.hours } ∷ []
add_to_month row (m ∷ ms) =
    let rest = add_to_month row ms in
    if m.month == row.month
    then record m { days = m.days + 1; hours = m.hours + row.hours } ∷ ms
    else m ∷ rest

unfoldable pub add_to_year : DayRow → YearSummary → YearSummary
unfolding add_to_month
add_to_year row y = record y {
  days = y.days + 1;
  hours = y.hours + row.hours;
  longest_window_hours = max y.longest_window_hours row.hours;
  months = add_to_month row y.months;
}

abbrev pub new_year : ℕ → YearSummary
new_year year = record { year = year; days = 0; hours = 0; longest_window_hours = 0; months = [] }

-- The map of the years, in the order of their first row.
unfoldable pub add_row : DayRow → List YearSummary → List YearSummary
unfolding add_to_year
add_row row [] = add_to_year row (new_year row.year) ∷ []
add_row row (y ∷ ys) =
    let rest = add_row row ys in if y.year == row.year then add_to_year row y ∷ ys else y ∷ rest

unfoldable pub add_rows : List DayRow → List YearSummary → List YearSummary
unfolding add_row
add_rows [] ys = ys
add_rows (r ∷ rs) ys = add_rows rs (add_row r ys)

-- `sort((a, b) => a.key - b.key)`, which is stable.
module _ {A : Type 0} (key : A → ℕ) where
  unfoldable pub insert_by : A → List A → List A
  insert_by x [] = x ∷ []
  insert_by x (y ∷ ys) =
      let rest = insert_by x ys in if leb (key x) (key y) then x ∷ y ∷ ys else y ∷ rest

  unfoldable pub sort_by : List A → List A
  unfolding insert_by
  sort_by [] = []
  sort_by (x ∷ xs) = insert_by x (sort_by xs)

abbrev pub with_sorted_months : YearSummary → YearSummary
with_sorted_months y = record y { months = sort_by (λ m. m.month) y.months }

unfoldable pub group_by_year : List DayRow → List YearSummary
unfolding add_rows sort_by
group_by_year rows = sort_by (λ y. y.year) (map with_sorted_months (add_rows rows []))

pub record ZoneHistory : Type 0 where
  pub zone_id : ℕ
  pub name_de : Text
  pub name_en : Text
  pub hazard_type : String
  pub weather_gated : Bool
  pub sources : List String
  pub years : List YearSummary
  pub average_tenths : Option ℕ

abbrev pub total : {A : Type 0} → (A → ℕ) → List A → ℕ
total f [] = 0
total f (x ∷ xs) = f x + total f xs

-- `Math.round(mean * 10)`, of the years before the current one.
abbrev average : List YearSummary → Option ℕ
average [] = none
average (y ∷ ys) =
    let n = length (y ∷ ys) in some ((total (λ y. y.days) (y ∷ ys) * 20 + n) / (2 * n))

-- `forZone`, where `sources` are the values of the column in their order.
unfoldable pub for_zone :
    Calendar → ℕ → (ℕ → List String) → List WeatherHour → ZoneRow → ZoneHistory
unfolding window_days group_by_year
for_zone calendar current_year sources history zone =
    let years = group_by_year (window_days calendar zone.id history) in
    let gated = (profile_for zone.hazard_type).tracks_ignition_window in
    record {
      zone_id = zone.id;
      name_de = or_else zone.name_de zone.name;
      name_en = or_else zone.name_en zone.name;
      hazard_type = zone.hazard_type;
      weather_gated = gated;
      sources = if gated then sources zone.id else [];
      years = if gated then years else [];
      average_tenths = if gated then average (keep (λ y. ltb y.year current_year) years) else none;
    }

-- The active zones, in the order of their ids: the table's newest row stands first.
unfoldable pub summary :
    Calendar → ℕ → (ℕ → List String) → List WeatherHour → List ZoneRow → List ZoneHistory
unfolding for_zone
summary calendar current_year sources history rows =
    map (for_zone calendar current_year sources history) (reverse (keep (λ r. r.is_active) rows))
