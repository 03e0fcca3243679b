-- ===== src/Backfill/Nightly.antt =====
-- workers/src/ingestion/history-backfill.task.ts, `backfillHistory`: the nightly search for gaps in
-- the weather of past years. The archive's client, the calendar and the database's failures are
-- parameters.
use open_fire_watch.Base.{
  ℕ, suc, zero, ◌+◌, ◌-◌, ◌≡◌, Bool, true, ◌&&◌, Option, none, some, List, [], ◌∷◌, keep, length,
  take, ltb, ◌==◌, if◌then◌else◌,
}
use open_fire_watch.Base.Text.{Text}
use open_fire_watch.Base.Tried.{Tried, ok, thrown}
use open_fire_watch.Backfill.Weather.{WeatherHour, store_weather_hours}

-- `check_fails` is the count of a year's hours that throws, which ends the run; `archive` is what
-- the client answers for a zone and a year, and `store_fails` how many of its hours were in batches
-- written before one that throws, if one does.
pub record Environment : Type 0 where
  pub this_year : ℕ
  pub years_back : ℕ
  pub year_of : ℕ → ℕ
  pub check_fails : ℕ → ℕ → Bool
  pub archive : ℕ → ℕ → Tried Text (List WeatherHour)
  pub store_fails : ℕ → ℕ → Option ℕ

module _ (env : Environment) where
  -- More than 8000 hours of the year are on hand.
  unfoldable pub year_is_complete : ℕ → ℕ → List WeatherHour → Bool
  year_is_complete zone year history =
      ltb 8000 (length (keep (λ h. h.zone_id == zone && env.year_of h.observed_at == year) history))

  abbrev stored : Option ℕ → Tried Text (List WeatherHour) → List WeatherHour → List WeatherHour
  stored none (ok hours) history = (store_weather_hours hours history).1
  stored (some n) (ok hours) history = (store_weather_hours (take n hours) history).1
  stored _ (thrown e) history = history

  -- One zone and year: a closed year that is complete is passed over, and a failure is logged.
  abbrev pub zone_year : ℕ → ℕ → List WeatherHour → List WeatherHour
  zone_year zone year history =
      if year_is_complete zone year history && ltb year env.this_year
      then history
      else stored (env.store_fails zone year) (env.archive zone year) history

  -- The years from `year` on, `left` of them. `none` is a run that threw.
  unfoldable pub zone_years : ℕ → ℕ → ℕ → List WeatherHour → Option (List WeatherHour)
  unfolding year_is_complete
  zone_years zone year zero history = some history
  zone_years zone year (suc left) history =
      let rest = zone_years zone (year + 1) left (zone_year zone year history) in
      if env.check_fails zone year then none else rest

  abbrev then_rest :
      Option (List WeatherHour)
      → (List WeatherHour → Option (List WeatherHour))
      → Option (List WeatherHour)
  then_rest none f = none
  then_rest (some history) f = f history

  unfoldable pub backfill_history : List ℕ → List WeatherHour → Option (List WeatherHour)
  unfolding zone_years
  backfill_history [] history = some history
  backfill_history (zone ∷ zones) history =
      then_rest (zone_years zone (env.this_year + 1 - env.years_back) env.years_back history)
        (backfill_history zones)

  zone_year-kept :
      (zone year : ℕ) (history : List WeatherHour)
      → year_is_complete zone year history ≡ true
      → ltb year env.this_year ≡ true
      → zone_year zone year history ≡ history
  zone_year-kept zone year history c l = rw (c, l)
