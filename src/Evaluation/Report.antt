-- ===== src/Evaluation/Report.antt =====
-- backend/src/evaluation/detection-report.dto.ts: a report from the queue and its validation. A report
-- whose fields have other types than these is refused by the same call, before anything else.
use open_fire_watch.Base.{ℕ, ◌*◌, ◌-◌, Bool, true, ◌&&◌, not, Option, none, some, str_eq}
use open_fire_watch.Base.Int.{ℤ, pos, negsuc, leb_ℤ}
use open_fire_watch.Evaluation.Level.{units}
use open_fire_watch.Store.{Detection}

pub record Weather : Type 0 where
  pub temperature_c : ℤ
  pub soil_moisture_pct : ℤ
  pub relative_humidity_pct : Option ℤ
  pub wind_speed_kmh : Option ℤ
  pub observed_at : ℕ

pub data Ingestion : Type 0 where
  live backfill : Ingestion

pub record DetectionReport : Type 0 where
  pub detection : Detection
  pub weather : Weather
  pub ingestion : Option Ingestion

-- `@Min` and `@Max`; an optional field may be absent.
abbrev within : ℤ → ℤ → ℤ → Bool
within lo hi x = leb_ℤ lo x && leb_ℤ x hi

abbrev optional : (ℤ → Bool) → Option ℤ → Bool
optional test none = true
optional test (some x) = test x

-- Whole degrees, in millionths.
abbrev degrees : ℕ → ℤ
degrees n = pos (n * 1000000)

abbrev minus_degrees : ℕ → ℤ
minus_degrees n = negsuc (n * 1000000 - 1)

unfoldable pub detection_is_valid : Detection → Bool
detection_is_valid d =
    not (str_eq d.source "")
    && within (minus_degrees 90) (degrees 90) d.geom.latitude
    && within (minus_degrees 180) (degrees 180) d.geom.longitude
    && optional (within (units 200) (units 2000)) d.brightness_k
    && optional (leb_ℤ (units 0)) d.frp_mw

unfoldable pub weather_is_valid : Weather → Bool
weather_is_valid w =
    within (negsuc (90 * 1000 - 1)) (units 60) w.temperature_c
    && within (units 0) (units 100) w.soil_moisture_pct
    && optional (within (units 0) (units 100)) w.relative_humidity_pct
    && optional (leb_ℤ (units 0)) w.wind_speed_kmh

unfoldable pub report_is_valid : DetectionReport → Bool
unfolding detection_is_valid weather_is_valid
report_is_valid r = detection_is_valid r.detection && weather_is_valid r.weather
