-- ===== src/Backfill/Weather.antt =====
-- workers/src/ingestion/history-backfill.task.ts: the table `zone_weather_history` and its writer.
use open_fire_watch.Base.{ℕ, ◌+◌, Bool, ◌&&◌, List, [], ◌∷◌, any, ◌==◌, if◌then◌else◌}
use open_fire_watch.Base.Int.{ℤ}

pub record WeatherHour : Type 0 where
  pub zone_id : ℕ
  pub observed_at : ℕ
  pub temperature_c : ℤ
  pub soil_moisture_pct : ℤ

-- ON CONFLICT (zone_id, observed_at) DO NOTHING; the result is the number of rows written.
abbrev pub same_hour : WeatherHour → WeatherHour → Bool
same_hour h k = h.zone_id == k.zone_id && h.observed_at == k.observed_at

unfoldable pub store_weather_hours : List WeatherHour → List WeatherHour → ℕ × List WeatherHour
store_weather_hours [] history = (0, history)
store_weather_hours (h ∷ hs) history =
    if any (same_hour h) history
    then store_weather_hours hs history
    else let (n, stored) = store_weather_hours hs (h ∷ history) in (1 + n, stored)
