-- ===== src/FireDanger/Daily.antt =====
-- workers/src/fire-danger/fwi.ts, `dailyInputsFromHourly`: the noon observations of the days.
use open_fire_watch.Base.{
  ℕ, zero, suc, ◌+◌, ◌-◌, ◌*◌, ◌≡◌, refl, Bool, List, [], ◌∷◌, map, keep, take, reverse,
  if◌then◌else◌, Bool-cases, inl, inr,
}
use open_fire_watch.Base.Text.{Text, text_eq}
use open_fire_watch.FireDanger.Numbers.{Arithmetic, ◌⊕◌, num}
use open_fire_watch.FireDanger.Codes.{DailyFireWeather}

pub record FireWeatherHour (N : Type 0) : Type 0 where
  pub at : Text
  pub temperature_c : N
  pub relative_humidity_pct : N
  pub wind_speed_kmh : N
  pub precipitation_mm : N

abbrev skip : ℕ → Text → Text
skip zero t = t
skip (suc n) [] = []
skip (suc n) (c ∷ t) = skip n t

-- `text.slice(from, to)`
abbrev pub slice : ℕ → ℕ → Text → Text
slice from to t = take (to - from) (skip from t)

-- "12:00"
abbrev noon : Text
noon = b'1' ∷ b'2' ∷ b':' ∷ b'0' ∷ b'0' ∷ []

-- `Number` of the two digits of a month; what is no digit makes no month.
abbrev digit : ℕ → ℕ
digit c = c - b'0'

abbrev month_of : Text → ℕ
month_of (c ∷ d ∷ []) = digit c * 10 + digit d
month_of _ = 0

module _ {N : Type 0} ⦃R : Arithmetic N⦄ where
  abbrev pub is_noon : FireWeatherHour N → Bool
  is_noon hour = text_eq (slice 11 16 hour.at) noon

  abbrev sum_from : N → List (FireWeatherHour N) → N
  sum_from rain [] = rain
  sum_from rain (h ∷ hs) = sum_from (rain ⊕ h.precipitation_mm) hs

  -- The rain of the 24 entries that end with this one; `before` are the earlier ones, last first.
  abbrev pub rain_of : FireWeatherHour N → List (FireWeatherHour N) → N
  rain_of hour before = sum_from (num 0 0) (reverse (hour ∷ take 23 before))

  abbrev pub day_of : FireWeatherHour N → List (FireWeatherHour N) → DailyFireWeather N
  day_of hour before = record {
    date = slice 0 10 hour.at;
    month = month_of (slice 5 7 hour.at);
    temperature_c = hour.temperature_c;
    relative_humidity_pct = hour.relative_humidity_pct;
    wind_speed_kmh = hour.wind_speed_kmh;
    rain24h_mm = rain_of hour before;
  }

  -- The loop over the hours, with those that it passed.
  unfoldable pub inputs_from :
      List (FireWeatherHour N) → List (FireWeatherHour N) → List (DailyFireWeather N)
  inputs_from before [] = []
  inputs_from before (hour ∷ hours) =
      let rest = inputs_from (hour ∷ before) hours in
      if is_noon hour then day_of hour before ∷ rest else rest

  unfoldable pub daily_inputs_from_hourly : List (FireWeatherHour N) → List (DailyFireWeather N)
  unfolding inputs_from
  daily_inputs_from_hourly hours = inputs_from [] hours

  inputs_from-date :
      (before hours : List (FireWeatherHour N))
      → map (λ d. d.date) (inputs_from before hours)
        ≡ map (λ h. slice 0 10 h.at) (keep is_noon hours)
  unfolding inputs_from
  inputs_from-date before [] = refl
  inputs_from-date before (h ∷ hs) = elim (Bool-cases (is_noon h)) [
    | inl e ↦ rw (e, keep, inputs_from-date (h ∷ before) hs)
    | inr e ↦ rw (e, keep, inputs_from-date (h ∷ before) hs)
  ]

  -- Each noon observation stands for one day, in the order of the hours, and no other day is made
  -- up.
  pub daily_inputs_from_hourly-date :
      (hours : List (FireWeatherHour N))
      → map (λ d. d.date) (daily_inputs_from_hourly hours)
        ≡ map (λ h. slice 0 10 h.at) (keep is_noon hours)
  unfolding daily_inputs_from_hourly
  daily_inputs_from_hourly-date hours = inputs_from-date [] hours
