-- ===== src/Sensors/Current.antt =====
-- backend/src/sensors/sensor.service.ts: the conditions measured inside each zone. Times are in
-- milliseconds, on which the order of ISO texts is the order of the instants.
pub mod Laws
use open_fire_watch.Base.{
  ℕ, ◌*◌, ◌+◌, ◌≡◌, String, Bool, true, false, ◌&&◌, Option, none, some, List, [], ◌∷◌, ◌++◌, map,
  ltb, leb, ◌==◌, if◌then◌else◌, or_else, keep,
}
use open_fire_watch.Base.Int.{ℤ, ◌+ℤ◌, ltb_ℤ, leb_ℤ, max_ℤ, min_ℤ, pos}
use open_fire_watch.Base.Map.{find, put}
use open_fire_watch.Evaluation.Level.{units}

-- A place, in millionths of a degree.
pub record Point : Type 0 where
  pub longitude : ℤ
  pub latitude : ℤ

pub record LocalConditions : Type 0 where
  pub zone_id : ℕ
  pub observed_at : ℕ
  pub temperature_c : Option ℤ
  pub soil_moisture_pct : Option ℤ
  pub device_id : String

pub record Sensor : Type 0 where
  pub id : ℕ
  pub device_id : String
  pub label : String
  pub geom : Point
  pub temperature_offset_c : ℤ
  pub soil_moisture_scale : ℤ
  pub soil_moisture_offset_pct : ℤ
  pub is_active : Bool

-- A stored reading, raw.
pub record Reading : Type 0 where
  pub sensor_id : ℕ
  pub observed_at : ℕ
  pub temperature_c_raw : Option ℤ
  pub soil_moisture_pct_raw : Option ℤ
  pub relative_humidity_pct : Option ℤ
  pub battery_pct : Option ℤ

-- CALIBRATED, with the database's product of two numbers as a parameter.
abbrev pub calibrated_temperature : Sensor → Option ℤ → Option ℤ
calibrated_temperature s none = none
calibrated_temperature s (some raw) = some (raw +ℤ s.temperature_offset_c)

abbrev pub calibrated_soil : (ℤ → ℤ → ℤ) → Sensor → Option ℤ → Option ℤ
calibrated_soil times s none = none
calibrated_soil times s (some raw) = some (
    min_ℤ (units 100)
      (max_ℤ (units 0) (times raw s.soil_moisture_scale +ℤ s.soil_moisture_offset_pct)))

-- `ORDER BY observed_at DESC LIMIT 1`, over the readings from a time on.
latest_from : Option Reading → List Reading → Option Reading
latest_from best [] = best
latest_from none (r ∷ rs) = latest_from (some r) rs
latest_from (some b) (r ∷ rs) =
    latest_from (some (if ltb b.observed_at r.observed_at then r else b)) rs

unfoldable pub latest_since : ℕ → ℕ → List Reading → Option Reading
unfolding latest_from
latest_since sensor_id cutoff readings =
    latest_from none (keep (λ r. r.sensor_id == sensor_id && leb cutoff r.observed_at) readings)

abbrev calibrate : (ℤ → ℤ → ℤ) → Sensor → Option Reading → ℕ → List LocalConditions
calibrate times s none zone_id = []
calibrate times s (some r) zone_id =
    record {
      zone_id = zone_id;
      observed_at = r.observed_at;
      temperature_c = calibrated_temperature s r.temperature_c_raw;
      soil_moisture_pct = calibrated_soil times s r.soil_moisture_pct_raw;
      device_id = s.device_id;
    }
    ∷ []

-- The rows of the query of `currentByZone`: for every active sensor and active zone around it, the
-- newest reading that is not older than the cutoff.
module _ (times : ℤ → ℤ → ℤ) (zones_at : Point → List ℕ) (cutoff : ℕ)
    (readings : List Reading) where
  in_zones : Sensor → List ℕ → List LocalConditions
  in_zones s [] = []
  in_zones s (z ∷ zs) = calibrate times s (latest_since s.id cutoff readings) z ++ in_zones s zs

  unfoldable pub fresh_rows : List Sensor → List LocalConditions
  unfolding in_zones latest_since
  fresh_rows [] = []
  fresh_rows (s ∷ rest) =
      (if s.is_active then in_zones s (zones_at s.geom) else []) ++ fresh_rows rest

abbrev pub pick : Option ℤ → Option ℤ → (ℤ → ℤ → ℤ) → Option ℤ
pick none b choose = b
pick (some x) none choose = some x
pick (some x) (some y) choose = some (choose x y)

-- `(b ?? -Infinity) > (a ?? -Infinity)`
abbrev is_hotter : Option ℤ → Option ℤ → Bool
is_hotter none a = false
is_hotter (some y) none = true
is_hotter (some y) (some x) = ltb_ℤ x y

unfoldable pub most_conservative : LocalConditions → LocalConditions → LocalConditions
most_conservative a b = record {
  zone_id = a.zone_id;
  device_id = if is_hotter b.temperature_c a.temperature_c then b.device_id else a.device_id;
  observed_at = if ltb b.observed_at a.observed_at then a.observed_at else b.observed_at;
  temperature_c = pick a.temperature_c b.temperature_c max_ℤ;
  soil_moisture_pct = pick a.soil_moisture_pct b.soil_moisture_pct min_ℤ;
}

abbrev pub merge : Option LocalConditions → LocalConditions → LocalConditions
merge none candidate = candidate
merge (some existing) candidate = most_conservative existing candidate

-- The loop over the rows.
current_from : List (ℕ × LocalConditions) → List LocalConditions → List (ℕ × LocalConditions)
current_from by_zone [] = by_zone
current_from by_zone (row ∷ rows) =
    current_from (put row.zone_id (merge (find row.zone_id by_zone) row) by_zone) rows

unfoldable pub current_by_zone : List LocalConditions → List (ℕ × LocalConditions)
unfolding current_from
current_by_zone rows = current_from [] rows
