-- ===== src/FireDanger/Bounds.antt =====
-- The ranges of the codes and the indices, the classes, and what a day's figure depends on.
use open_fire_watch.Base.{
  ℕ, zero, suc, ◌⊎◌, ◌≡◌, refl, true, false, ◌&&◌, List, [], ◌∷◌, ◌++◌, All, leb, arith, inl, inr,
  Bool-cases,
}
use open_fire_watch.FireDanger.Numbers.{
  Arithmetic, IsOrdered, ◌⊑◌, ◌⊖◌, ◌⊘◌, neg, num, IsWithin, IsFrom,
}
use open_fire_watch.FireDanger.Codes.{
  MoistureCodes, DailyFireWeather, nth, of_month, dmc_day_length, humidity, duff_moisture_code,
  fine_fuel_moisture_code, drought_code,
}
use open_fire_watch.FireDanger.Indices.{
  DangerClass, very_low, low, moderate, high, very_high, extreme, FireWeatherIndices, classify,
  is_zero, buildup_index, step_fire_weather, compute_fire_weather_series,
}

-- The classes from the lowest.
abbrev pub rank : DangerClass → ℕ
rank very_low = 0
rank low = 1
rank moderate = 2
rank high = 3
rank very_high = 4
rank extreme = 5

module _ {N : Type 0} ⦃R : Arithmetic N⦄ where
  -- A class against the lower bounds of the classes: 5.2, 11.2, 21.3, 38.0 and 50.0.
  abbrev pub IsClassOf : N → DangerClass → Type 0
  IsClassOf fwi c =
      (leb 1 (rank c) ≡ (num 52 1 ⊑ fwi))
      × (leb 2 (rank c) ≡ (num 112 1 ⊑ fwi))
      × (leb 3 (rank c) ≡ (num 213 1 ⊑ fwi))
      × (leb 4 (rank c) ≡ (num 380 1 ⊑ fwi))
      × (leb 5 (rank c) ≡ (num 500 1 ⊑ fwi))

  -- What holds of each day's figures.
  abbrev pub IsBounded : FireWeatherIndices N → Type 0
  IsBounded d =
      IsWithin (num 0 0) (num 101 0) d.codes.ffmc
      × IsFrom (num 0 0) d.codes.dmc
      × IsFrom (num 0 0) d.codes.dc
      × IsFrom (num 0 0) d.bui
      × IsClassOf d.fwi d.danger_class

module _ {N : Type 0} ⦃R : Arithmetic N⦄ (L : IsOrdered N R) where
  clamp_lem :
      (hi : ℕ) (x : N) → IsWithin (num 0 0) (num hi 0) (R.min (num hi 0) (R.max (num 0 0) x))
  clamp_lem hi x = elim (Bool-cases (x ⊑ x)) [
    | inl e ↦
        let below = L.at_most-max (num 0 0) x (L.at_most-literal 0 0 0 refl) e in
        inr (
          L.at_most-min _ _ _ (L.at_most-literal 0 hi 0 (ground arith)) below,
          L.min-at_most _ _ (L.at_most-literal hi hi 0 (ground arith)) (L.at_most_right _ _ below),
        )
    | inr e ↦ inl (L.min_nan _ _ (L.max_nan _ _ e))
  ]

  floor_lem : (x : N) → IsFrom (num 0 0) (R.max (num 0 0) x)
  floor_lem x = elim (Bool-cases (x ⊑ x)) [
    | inl e ↦ inr (L.at_most-max (num 0 0) x (L.at_most-literal 0 0 0 refl) e)
    | inr e ↦ inl (L.max_nan _ _ e)
  ]

  buildup_index-IsFrom : (dmc dc : N) → IsFrom (num 0 0) (buildup_index dmc dc)
  unfolding buildup_index
  buildup_index-IsFrom dmc dc = elim (Bool-cases (is_zero dmc && is_zero dc)) [
    | inl e ↦ rw e (inr (L.at_most-literal 0 0 0 refl))
    | inr e ↦ rw e (floor_lem _)
  ]

  ascends : (x : N) (m n : ℕ) → leb m n ≡ true → num n 1 ⊑ x ≡ true → num m 1 ⊑ x ≡ true
  ascends x m n h e = L.at_most_trans _ _ _ (L.at_most-literal m n 1 h) e

  classify-IsClassOf : (fwi : N) → IsClassOf fwi (classify fwi)
  unfolding classify
  classify-IsClassOf fwi = ground (
    arith,
    ascends fwi 52 112 refl,
    ascends fwi 112 213 refl,
    ascends fwi 213 380 refl,
    ascends fwi 380 500 refl,
  )

  nth-IsFrom :
      (table : List N) (n : ℕ) (d : N)
      → IsFrom (num 0 0) d
      → All (λ x. IsFrom (num 0 0) x) table
      → IsFrom (num 0 0) (nth d n table)
  nth-IsFrom [] n d h k = h
  nth-IsFrom (x ∷ xs) zero d h k = k.0
  nth-IsFrom (x ∷ xs) (suc n) d h k = nth-IsFrom xs n d h k.1

  tenths : (n : ℕ) → IsFrom {N = N} (num 0 0) (num n 1)
  tenths n = inr (L.from_literal n 1)

  day_length-IsFrom : (month : ℕ) → IsFrom {N = N} (num 0 0) (of_month month dmc_day_length)
  day_length-IsFrom zero = inl L.over_zero
  day_length-IsFrom (suc n) = nth-IsFrom dmc_day_length n (num 0 0 ⊘ num 0 0) (inl L.over_zero) (
    tenths 65,
    (
      tenths 75,
      (
        tenths 90,
        (
          tenths 128,
          (
            tenths 139,
            (
              tenths 139,
              (tenths 124, (tenths 109, (tenths 94, (tenths 80, (tenths 70, (tenths 60, tt)))))),
            ),
          ),
        ),
      ),
    ),
  )

  -- `100 - rh`, for a humidity that was clamped.
  humidity-IsFrom : (x : N) → IsFrom (num 0 0) (num 100 0 ⊖ humidity x)
  humidity-IsFrom x = L.minus_from _ _ (upper (clamp_lem 100 x))
    where
      upper :
          IsWithin (num 0 0) (num 100 0) (humidity x)
          → ((humidity x ⊑ humidity x) ≡ false) ⊎ ((humidity x ⊑ num 100 0) ≡ true)
      upper (inl n) = inl n
      upper (inr (lo, hi)) = inr hi

  duff_moisture_code-IsFrom :
      (previous temperature relative_humidity rain : N) (month : ℕ)
      → IsFrom (num 0 0) (duff_moisture_code previous temperature relative_humidity rain month)
  unfolding duff_moisture_code
  duff_moisture_code-IsFrom previous temperature relative_humidity rain month =
      let warm =
        L.plus_negative 11 1 _ (L.max_right temperature (neg 11 1) (L.minus_literal 11 1)) in
      L.plus_from _ _ (floor_lem _) (
        L.times_from _ _
          (L.times_from _ _
            (L.times_from _ _ (L.times_from _ _ (inr (L.from_literal 1894 3)) warm)
              (humidity-IsFrom relative_humidity))
            (day_length-IsFrom month))
          (inr (L.from_literal 1 4)))

  step_fire_weather-IsBounded :
      (codes : MoistureCodes N) (day : DailyFireWeather N) → IsBounded (step_fire_weather codes day)
  unfolding step_fire_weather fine_fuel_moisture_code drought_code
  step_fire_weather-IsBounded codes day = (
    clamp_lem 101 _,
    duff_moisture_code-IsFrom _ _ _ _ _,
    floor_lem _,
    buildup_index-IsFrom _ _,
    classify-IsClassOf _,
  )

  -- Whatever the weather and the codes of the first day, the fine fuel moisture code of each day
  -- lies from 0 to 101, and its duff moisture code, its drought code and its buildup index are not
  -- negative, each unless it is NaN; and its class is that class or a higher one exactly when its
  -- index reaches the lower bound of the class: 5.2 for low, 11.2 for moderate, 21.3 for high, 38.0
  -- for very high and 50.0 for extreme.
  pub compute_fire_weather_series-IsBounded :
      (days : List (DailyFireWeather N)) (codes : MoistureCodes N)
      → All IsBounded (compute_fire_weather_series days codes)
  unfolding compute_fire_weather_series
  compute_fire_weather_series-IsBounded [] codes = tt
  compute_fire_weather_series-IsBounded (day ∷ days) codes =
      (step_fire_weather-IsBounded codes day, compute_fire_weather_series-IsBounded days _)

module _ {N : Type 0} ⦃R : Arithmetic N⦄ where
  -- The codes that a series hands on.
  abbrev pub codes_after : List (FireWeatherIndices N) → MoistureCodes N → MoistureCodes N
  codes_after [] codes = codes
  codes_after (d ∷ ds) codes = codes_after ds d.codes

  -- The figures of a day depend on that day, the days before it and the codes at the start, and on
  -- no later day: a longer series begins with the shorter one and goes on from its last codes.
  pub compute_fire_weather_series-append :
      (xs ys : List (DailyFireWeather N)) (codes : MoistureCodes N)
      → compute_fire_weather_series (xs ++ ys) codes
        ≡ compute_fire_weather_series xs codes
          ++ compute_fire_weather_series ys
              (codes_after (compute_fire_weather_series xs codes) codes)
  unfolding compute_fire_weather_series
  compute_fire_weather_series-append [] ys codes = refl
  compute_fire_weather_series-append (x ∷ xs) ys codes =
      rw (compute_fire_weather_series-append xs ys (step_fire_weather codes x).codes)
