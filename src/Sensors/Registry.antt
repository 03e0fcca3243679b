-- ===== src/Sensors/Registry.antt =====
-- backend/src/sensors/sensor.service.ts: the tables `ground_sensors` and `sensor_readings` and the
-- operations of `SensorService` that write them.
pub mod Apart
pub mod Devices
pub mod Readings
pub mod Retired
use open_fire_watch.Base.{
  ℕ, ◌+◌, String, Bool, true, false, ◌&&◌, not, Option, none, some, List, [], ◌∷◌, map, ◌==◌,
  if◌then◌else◌, or_else, first, keep, any, str_eq,
}
use open_fire_watch.Base.Int.{ℤ}
use open_fire_watch.Base.Map.{put}
use open_fire_watch.Evaluation.Level.{units}
use open_fire_watch.Sensors.Current.{Point, Sensor, Reading}
use open_fire_watch.Store.{Store}
use open_fire_watch.SensorAlert
use open_fire_watch.SensorAlert.{evaluate}

-- `last_seen` holds the column `last_seen_at` by sensor; the newest row stands first.
pub record Registry : Type 0 where
  pub sensors : List Sensor
  pub next_id : ℕ
  pub readings : List Reading
  pub last_seen : List (ℕ × ℕ)

pub record SensorReading : Type 0 where
  pub device_id : String
  pub observed_at : ℕ
  pub temperature_c : Option ℤ
  pub soil_moisture_pct : Option ℤ
  pub relative_humidity_pct : Option ℤ
  pub battery_pct : Option ℤ

pub record RegisterSensor : Type 0 where
  pub device_id : String
  pub label : String
  pub place : Point
  pub temperature_offset_c : Option ℤ
  pub soil_moisture_scale : Option ℤ
  pub soil_moisture_offset_pct : Option ℤ

pub data Answer : Type 0 where
  registered : ℕ → Answer
  done not_found conflict : Answer

abbrev pub is_device : String → Sensor → Bool
is_device device s = str_eq s.device_id device

abbrev pub is_live : String → Sensor → Bool
is_live device s = is_device device s && s.is_active

-- ON CONFLICT (sensor_id, observed_at) DO NOTHING
abbrev pub is_same_uplink : ℕ → ℕ → Reading → Bool
is_same_uplink id t r = r.sensor_id == id && r.observed_at == t

abbrev pub reading_row : ℕ → SensorReading → Reading
reading_row id dto = record {
  sensor_id = id;
  observed_at = dto.observed_at;
  temperature_c_raw = dto.temperature_c;
  soil_moisture_pct_raw = dto.soil_moisture_pct;
  relative_humidity_pct = dto.relative_humidity_pct;
  battery_pct = dto.battery_pct;
}

abbrev pub insert_reading : ℕ → SensorReading → List Reading → List Reading
insert_reading id dto readings =
    if any (is_same_uplink id dto.observed_at) readings
    then readings
    else reading_row id dto ∷ readings

abbrev pub stored : ℕ → ℕ → SensorReading → Registry → Registry
stored now id dto g = record g {
  readings = insert_reading id dto g.readings;
  last_seen = put id now g.last_seen;
}

-- `record`, which hands the reading to the alerts once it is stored.
module _ (env : SensorAlert.Environment) (fails : SensorAlert.Stage → Bool) where
  abbrev pub alert_environment : Registry → SensorAlert.Environment
  alert_environment g = record env { sensors = g.sensors; readings = g.readings }

  abbrev pub record_for : SensorReading → Option Sensor → Registry → Store → Bool × Registry × Store
  record_for dto none g s = (false, g, s)
  record_for dto (some sensor) g s =
      let g' = stored env.now sensor.id dto g in
      (true, g', evaluate (alert_environment g') fails sensor.id dto.observed_at s)

  unfoldable pub record_reading : SensorReading → Registry → Store → Bool × Registry × Store
  record_reading dto g s = record_for dto (first (keep (is_live dto.device_id) g.sensors)) g s

-- The columns that a form sets, with the defaults of a sensor that is not calibrated.
abbrev pub with_details : RegisterSensor → Sensor → Sensor
with_details dto s = record s {
  device_id = dto.device_id;
  label = dto.label;
  geom = dto.place;
  temperature_offset_c = or_else dto.temperature_offset_c (units 0);
  soil_moisture_scale = or_else dto.soil_moisture_scale (units 1);
  soil_moisture_offset_pct = or_else dto.soil_moisture_offset_pct (units 0);
}

abbrev pub new_sensor : ℕ → RegisterSensor → Sensor
new_sensor id dto = record {
  id = id;
  device_id = dto.device_id;
  label = dto.label;
  geom = dto.place;
  temperature_offset_c = or_else dto.temperature_offset_c (units 0);
  soil_moisture_scale = or_else dto.soil_moisture_scale (units 1);
  soil_moisture_offset_pct = or_else dto.soil_moisture_offset_pct (units 0);
  is_active = true;
}

abbrev pub remounted : RegisterSensor → Sensor → Sensor
remounted dto s = record (with_details dto s) { is_active = true }

abbrev pub change : (Sensor → Bool) → (Sensor → Sensor) → Registry → Registry
change test f g = record g { sensors = map (λ s. if test s then f s else s) g.sensors }

-- INSERT … ON CONFLICT (device_id) DO UPDATE … WHERE is_active = FALSE
abbrev pub register_over : RegisterSensor → Option Sensor → Registry → Answer × Registry
register_over dto none g = (
  registered g.next_id,
  record g { sensors = new_sensor g.next_id dto ∷ g.sensors; next_id = g.next_id + 1 },
)
register_over dto (some old) g =
    if old.is_active
    then (conflict, g)
    else (registered old.id, change (is_device dto.device_id) (remounted dto) g)

unfoldable pub register : RegisterSensor → Registry → Answer × Registry
register dto g = register_over dto (first (keep (is_device dto.device_id) g.sensors)) g

abbrev pub is_active_id : ℕ → Sensor → Bool
is_active_id id s = s.id == id && s.is_active

-- Whether another sensor has the device id: the violation of UNIQUE (device_id).
abbrev pub is_other : ℕ → String → Sensor → Bool
is_other id device s = not (s.id == id) && is_device device s

unfoldable pub update : ℕ → RegisterSensor → Registry → Answer × Registry
update id dto g =
    if not (any (is_active_id id) g.sensors)
    then (not_found, g)
    else if any (is_other id dto.device_id) g.sensors
    then (conflict, g)
    else (done, change (is_active_id id) (with_details dto) g)

abbrev pub retired : Sensor → Sensor
retired s = record s { is_active = false }

unfoldable pub retire : ℕ → Registry → Answer × Registry
retire id g =
    if any (is_active_id id) g.sensors
    then (done, change (is_active_id id) retired g)
    else (not_found, g)
