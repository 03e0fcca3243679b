-- ===== src/FireDanger/Indices.antt =====
-- workers/src/fire-danger/fwi.ts: the indices, their class, and the chain over the days.
use open_fire_watch.Base.{◌&&◌, Bool, List, [], ◌∷◌, if◌then◌else◌}
use open_fire_watch.Base.Text.{Text}
use open_fire_watch.FireDanger.Numbers.{Arithmetic, ◌⊕◌, ◌⊖◌, ◌⊗◌, ◌⊘◌, ◌↑◌, ◌⊑◌, ◌⊏◌, num}
use open_fire_watch.FireDanger.Codes.{
  MoistureCodes, DailyFireWeather, fine_fuel_moisture_code, duff_moisture_code, drought_code,
}

pub data DangerClass : Type 0 where
  very_low low moderate high very_high extreme : DangerClass

pub record FireWeatherIndices (N : Type 0) : Type 0 where
  pub date : Text
  pub codes : MoistureCodes N
  pub isi : N
  pub bui : N
  pub fwi : N
  pub danger_class : DangerClass

module _ {N : Type 0} ⦃R : Arithmetic N⦄ where
  abbrev danger_class_lower_bounds : List (DangerClass × N)
  danger_class_lower_bounds =
      (very_low, num 0 0)
      ∷ (low, num 52 1)
      ∷ (moderate, num 112 1)
      ∷ (high, num 213 1)
      ∷ (very_high, num 380 1)
      ∷ (extreme, num 500 1)
      ∷ []

  -- The loop of `classify`: the last class whose bound is reached.
  abbrev last_reached : N → DangerClass → List (DangerClass × N) → DangerClass
  last_reached fwi result [] = result
  last_reached fwi result ((name, lower) ∷ rest) =
      last_reached fwi (if lower ⊑ fwi then name else result) rest

  unfoldable pub classify : N → DangerClass
  classify fwi = last_reached fwi very_low danger_class_lower_bounds

  unfoldable pub initial_spread_index : N → N → N
  initial_spread_index ffmc wind =
      let fm = num 1472 1 ⊗ (num 101 0 ⊖ ffmc) ⊘ (num 595 1 ⊕ ffmc) in
      let ff =
        num 919 1
        ⊗ R.exp ((num 0 0 ⊖ num 1386 4) ⊗ fm)
        ⊗ (num 1 0 ⊕ fm ↑ num 531 2 ⊘ num 49300000 0) in
      num 208 3 ⊗ R.exp (num 5039 5 ⊗ wind) ⊗ ff

  -- `x === 0`
  abbrev pub is_zero : N → Bool
  is_zero x = x ⊑ num 0 0 && num 0 0 ⊑ x

  unfoldable pub buildup_index : N → N → N
  buildup_index dmc dc =
      let mean = num 8 1 ⊗ dmc ⊗ dc ⊘ (dmc ⊕ num 4 1 ⊗ dc) in
      let above =
        dmc
        ⊖ (num 1 0 ⊖ num 8 1 ⊗ dc ⊘ (dmc ⊕ num 4 1 ⊗ dc))
          ⊗ (num 92 2 ⊕ (num 114 4 ⊗ dmc) ↑ num 17 1) in
      if is_zero dmc && is_zero dc
      then num 0 0
      else R.max (num 0 0) (if dmc ⊑ num 4 1 ⊗ dc then mean else above)

  unfoldable pub fire_weather_index : N → N → N
  fire_weather_index isi bui =
      let bb =
        if num 80 0 ⊏ bui
        then num 1 1 ⊗ isi ⊗ (num 1000 0 ⊘ (num 25 0 ⊕ num 10864 2 ⊘ R.exp (num 23 3 ⊗ bui)))
        else num 1 1 ⊗ isi ⊗ (num 626 3 ⊗ bui ↑ num 809 3 ⊕ num 2 0) in
      if bb ⊑ num 1 0 then bb else R.exp (num 272 2 ⊗ (num 434 3 ⊗ R.log bb) ↑ num 647 3)

  unfoldable pub step_fire_weather : MoistureCodes N → DailyFireWeather N → FireWeatherIndices N
  unfolding fine_fuel_moisture_code duff_moisture_code drought_code initial_spread_index
      buildup_index fire_weather_index classify
  step_fire_weather previous day =
      let ffmc =
        fine_fuel_moisture_code previous.ffmc day.temperature_c day.relative_humidity_pct
          day.wind_speed_kmh day.rain24h_mm in
      let dmc =
        duff_moisture_code previous.dmc day.temperature_c day.relative_humidity_pct day.rain24h_mm
          day.month in
      let dc = drought_code previous.dc day.temperature_c day.rain24h_mm day.month in
      let isi = initial_spread_index ffmc day.wind_speed_kmh in
      let bui = buildup_index dmc dc in
      let fwi = fire_weather_index isi bui in
      record {
        date = day.date;
        codes = record { ffmc = ffmc; dmc = dmc; dc = dc };
        isi = isi;
        bui = bui;
        fwi = fwi;
        danger_class = classify fwi;
      }

  -- The loop carries the codes of the day before.
  unfoldable pub compute_fire_weather_series :
      List (DailyFireWeather N) → MoistureCodes N → List (FireWeatherIndices N)
  unfolding step_fire_weather
  compute_fire_weather_series [] codes = []
  compute_fire_weather_series (day ∷ days) codes =
      let today = step_fire_weather codes day in
      today ∷ compute_fire_weather_series days today.codes
