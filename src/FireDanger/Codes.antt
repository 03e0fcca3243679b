-- ===== src/FireDanger/Codes.antt =====
-- workers/src/fire-danger/fwi.ts: the three moisture codes, from yesterday's and the noon weather.
use open_fire_watch.Base.{ℕ, zero, suc, List, [], ◌∷◌, if◌then◌else◌}
use open_fire_watch.Base.Text.{Text}
use open_fire_watch.FireDanger.Numbers.{Arithmetic, ◌⊕◌, ◌⊖◌, ◌⊗◌, ◌⊘◌, ◌↑◌, ◌⊑◌, ◌⊏◌, num, neg}

pub record MoistureCodes (N : Type 0) : Type 0 where
  pub ffmc : N
  pub dmc : N
  pub dc : N

pub record DailyFireWeather (N : Type 0) : Type 0 where
  pub date : Text
  pub month : ℕ
  pub temperature_c : N
  pub relative_humidity_pct : N
  pub wind_speed_kmh : N
  pub rain24h_mm : N

module _ {N : Type 0} ⦃R : Arithmetic N⦄ where
  abbrev pub initial_codes : MoistureCodes N
  initial_codes = record { ffmc = num 85 0; dmc = num 6 0; dc = num 15 0 }

  -- The entry of a table for a month from 1 to 12; `undefined` is the number of month 0.
  abbrev pub nth : N → ℕ → List N → N
  nth missing n [] = missing
  nth missing zero (x ∷ xs) = x
  nth missing (suc n) (x ∷ xs) = nth missing n xs

  abbrev pub not_a_number : N
  not_a_number = num 0 0 ⊘ num 0 0

  abbrev pub of_month : ℕ → List N → N
  of_month zero table = not_a_number
  of_month (suc n) table = nth not_a_number n table

  abbrev pub dmc_day_length : List N
  dmc_day_length =
      num 65 1
      ∷ num 75 1
      ∷ num 90 1
      ∷ num 128 1
      ∷ num 139 1
      ∷ num 139 1
      ∷ num 124 1
      ∷ num 109 1
      ∷ num 94 1
      ∷ num 80 1
      ∷ num 70 1
      ∷ num 60 1
      ∷ []

  abbrev dc_day_length : List N
  dc_day_length =
      neg 16 1
      ∷ neg 16 1
      ∷ neg 16 1
      ∷ num 9 1
      ∷ num 38 1
      ∷ num 58 1
      ∷ num 64 1
      ∷ num 50 1
      ∷ num 24 1
      ∷ num 4 1
      ∷ neg 16 1
      ∷ neg 16 1
      ∷ []

  -- `Math.min(100, Math.max(0, rh))`
  abbrev pub humidity : N → N
  humidity rh = R.min (num 100 0) (R.max (num 0 0) rh)

  -- The rain's part of the fine fuel moisture.
  abbrev wetted : N → N → N
  wetted mo rain =
      let rf = rain ⊖ num 5 1 in
      let wetting =
        num 425 1
        ⊗ rf
        ⊗ R.exp (neg 100 0 ⊘ (num 251 0 ⊖ mo))
        ⊗ (num 1 0 ⊖ R.exp (neg 693 2 ⊘ rf)) in
      let wetter =
        if num 150 0 ⊏ mo
        then mo ⊕ (wetting ⊕ num 15 4 ⊗ (mo ⊖ num 150 0) ↑ num 2 0 ⊗ R.sqrt rf)
        else mo ⊕ wetting in
      if num 250 0 ⊏ wetter then num 250 0 else wetter

  -- The two equilibria and the two rates differ in their numbers only.
  abbrev equilibrium : N → N → N → N → N → N
  equilibrium factor exponent scale rh temperature =
      factor ⊗ rh ↑ exponent
      ⊕ scale ⊗ R.exp ((rh ⊖ num 100 0) ⊘ num 10 0)
      ⊕ num 18 2 ⊗ (num 211 1 ⊖ temperature) ⊗ (num 1 0 ⊖ R.exp (neg 115 3 ⊗ rh))

  abbrev rate : N → N → N → N
  rate share wind temperature =
      let k =
        num 424 3 ⊗ (num 1 0 ⊖ share ↑ num 17 1)
        ⊕ num 694 4 ⊗ R.sqrt wind ⊗ (num 1 0 ⊖ share ↑ num 8 0) in
      k ⊗ num 581 3 ⊗ R.exp (num 365 4 ⊗ temperature)

  abbrev decay : N → N
  decay k = num 10 0 ↑ (num 0 0 ⊖ k)

  abbrev dried : N → N → N → N → N
  dried mo temperature rh wind =
      let ed = equilibrium (num 942 3) (num 679 3) (num 11 0) rh temperature in
      let ew = equilibrium (num 618 3) (num 753 3) (num 10 0) rh temperature in
      if ed ⊏ mo
      then ed ⊕ (mo ⊖ ed) ⊗ decay (rate (rh ⊘ num 100 0) wind temperature)
      else if mo ⊏ ew
      then ew ⊖ (ew ⊖ mo) ⊗ decay (rate ((num 100 0 ⊖ rh) ⊘ num 100 0) wind temperature)
      else mo

  unfoldable pub fine_fuel_moisture_code : N → N → N → N → N → N
  fine_fuel_moisture_code previous temperature relative_humidity wind rain =
      let rh = humidity relative_humidity in
      let before = num 1472 1 ⊗ (num 101 0 ⊖ previous) ⊘ (num 595 1 ⊕ previous) in
      let mo = if num 5 1 ⊏ rain then wetted before rain else before in
      let m = dried mo temperature rh wind in
      R.min (num 101 0) (R.max (num 0 0) (num 595 1 ⊗ (num 250 0 ⊖ m) ⊘ (num 1472 1 ⊕ m)))

  -- The slope of the rain's effect on the duff.
  abbrev duff_slope : N → N
  duff_slope previous =
      if previous ⊑ num 33 0
      then num 100 0 ⊘ (num 5 1 ⊕ num 3 1 ⊗ previous)
      else if previous ⊑ num 65 0
      then num 14 0 ⊖ num 13 1 ⊗ R.log previous
      else num 62 1 ⊗ R.log previous ⊖ num 172 1

  abbrev pub duff_rained : N → N → N
  duff_rained previous rain =
      let rw = num 92 2 ⊗ rain ⊖ num 127 2 in
      let wmi = num 20 0 ⊕ num 280 0 ⊘ R.exp (num 23 3 ⊗ previous) in
      let wmr = wmi ⊕ num 1000 0 ⊗ rw ⊘ (num 4877 2 ⊕ duff_slope previous ⊗ rw) in
      num 4343 2 ⊗ (num 56348 4 ⊖ R.log (wmr ⊖ num 20 0))

  unfoldable pub duff_moisture_code : N → N → N → N → ℕ → N
  duff_moisture_code previous temperature relative_humidity rain month =
      let t = R.max temperature (neg 11 1) in
      let rh = humidity relative_humidity in
      let rk =
        num 1894 3 ⊗ (t ⊕ num 11 1) ⊗ (num 100 0 ⊖ rh) ⊗ of_month month dmc_day_length ⊗ num 1 4 in
      let pr = if num 15 1 ⊏ rain then duff_rained previous rain else previous in
      R.max (num 0 0) pr ⊕ rk

  unfoldable pub drought_code : N → N → N → ℕ → N
  drought_code previous temperature rain month =
      let t = R.max temperature (neg 28 1) in
      let pe =
        R.max (num 0 0) ((num 36 2 ⊗ (t ⊕ num 28 1) ⊕ of_month month dc_day_length) ⊘ num 2 0) in
      let rw = num 83 2 ⊗ rain ⊖ num 127 2 in
      let smi = num 800 0 ⊗ R.exp ((num 0 0 ⊖ previous) ⊘ num 400 0) in
      let dr =
        if num 28 1 ⊏ rain
        then R.max (num 0 0) (previous ⊖ num 400 0 ⊗ R.log (num 1 0 ⊕ num 3937 3 ⊗ rw ⊘ smi))
        else previous in
      R.max (num 0 0) (dr ⊕ pe)
