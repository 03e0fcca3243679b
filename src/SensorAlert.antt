-- ===== src/SensorAlert.antt =====
-- backend/src/sensors/sensor-alert.service.ts: the alert that a probe raises by itself. The median
-- of the database, its product of two numbers, its spatial test and its clock are parameters, and each
-- call that can throw is a stage that an argument lets fail: the service catches what is thrown.
pub mod Episodes
pub mod Cooldown
use Prim.Native.String
use open_fire_watch.Base.{
  ℕ, ◌+◌, ◌*◌, String, Bool, true, false, ◌&&◌, ◌||◌, not, Option, none, some, List, [], ◌∷◌, map,
  length, leb, ltb, ◌==◌, if◌then◌else◌, or_else, first, keep, any, str_eq,
}
use open_fire_watch.Base.Int.{ℤ, ◌-ℤ◌, leb_ℤ, ltb_ℤ}
use open_fire_watch.Evaluation.Level.{AlertLevel, critical_sensor_heat, units}
use open_fire_watch.Evaluation.Decision.{Conditions}
use open_fire_watch.Sensors.Current.{
  Point, Sensor, Reading, calibrated_temperature, calibrated_soil,
}
use open_fire_watch.Store.{
  Detection, Anomaly, Event, RiskZone, AlertPayload, Store, insert_anomaly, insert_event, publish,
}

pub data Stage : Type 0 where
  reading_stage baseline_stage cooldown_stage anomaly_stage event_stage publish_stage : Stage

pub data Trigger : Type 0 where
  absolute rise : Trigger

pub record Environment : Type 0 where
  pub alert_temperature_c : ℤ
  pub alert_rise_c : ℤ
  pub cooldown_hours : ℕ
  pub sensors : List Sensor
  pub readings : List Reading
  pub zones_at : Point → List RiskZone
  pub times : ℤ → ℤ → ℤ
  pub median : List ℤ → ℤ
  pub now : ℕ

pub record CalibratedReading : Type 0 where
  pub device_id : String
  pub geom : Point
  pub zone : Option RiskZone
  pub temperature_c : Option ℤ
  pub soil_moisture_pct : Option ℤ
  pub observed_at : ℕ

abbrev hour_ms : ℕ
hour_ms = 3600000

-- SENSOR_SOURCE_PREFIX and the probe's identifier.
abbrev pub sensor_source : String → String
sensor_source device_id = String.◌++◌ "GROUND_SENSOR:" device_id

abbrev joined : Environment → Option Sensor → Option Reading → Option CalibratedReading
joined env none r = none
joined env (some s) none = none
joined env (some s) (some r) = some (record {
  device_id = s.device_id;
  geom = s.geom;
  zone = first (env.zones_at s.geom);
  temperature_c = calibrated_temperature s r.temperature_c_raw;
  soil_moisture_pct = calibrated_soil env.times s r.soil_moisture_pct_raw;
  observed_at = r.observed_at;
})

unfoldable pub calibrated_reading : Environment → ℕ → ℕ → Option CalibratedReading
calibrated_reading env sensor_id observed_at =
    joined env (first (keep (λ s. s.id == sensor_id) env.sensors))
      (first (keep (λ r. r.sensor_id == sensor_id && r.observed_at == observed_at) env.readings))

-- The calibrated temperatures of the six hours before, from the readings that have one.
abbrev temperature_of : Option Sensor → Reading → Option ℤ
temperature_of none r = none
temperature_of (some s) r = calibrated_temperature s r.temperature_c_raw

abbrev present : List (Option ℤ) → List ℤ
present [] = []
present (none ∷ rest) = present rest
present (some t ∷ rest) = t ∷ present rest

abbrev is_before : ℕ → ℕ → Reading → Bool
is_before sensor_id observed_at r =
    r.sensor_id == sensor_id
    && ltb r.observed_at observed_at
    && leb observed_at (r.observed_at + 6 * hour_ms)

unfoldable pub earlier_temperatures : Environment → ℕ → ℕ → List ℤ
earlier_temperatures env sensor_id observed_at = present (
    map (temperature_of (first (keep (λ s. s.id == sensor_id) env.sensors)))
      (keep (is_before sensor_id observed_at) env.readings))

unfoldable pub baseline_median : Environment → ℕ → ℕ → Option ℤ
baseline_median env sensor_id observed_at =
    let earlier = earlier_temperatures env sensor_id observed_at in
    if ltb (length earlier) 2 then none else some (env.median earlier)

-- Whether a climb over the baseline is one.
abbrev risen : Environment → ℤ → Option ℤ → Bool
risen env temperature none = false
risen env temperature (some baseline) = leb_ℤ env.alert_rise_c (temperature -ℤ baseline)

-- The trigger; a baseline that cannot be read leaves none.
unfoldable pub trigger_of : Environment → (Stage → Bool) → ℕ → ℕ → ℤ → Option Trigger
trigger_of env fails sensor_id observed_at temperature =
    if ltb_ℤ (units 0) env.alert_temperature_c && leb_ℤ env.alert_temperature_c temperature
    then some absolute
    else if not (ltb_ℤ (units 0) env.alert_rise_c && leb_ℤ (units 35) temperature)
    then none
    else if fails baseline_stage
    then none
    else if risen env temperature (baseline_median env sensor_id observed_at)
    then some rise
    else none

abbrev is_sensor_heat : AlertLevel → Bool
is_sensor_heat critical_sensor_heat = true
is_sensor_heat _ = false

-- The rows of the cooldown's query: a recent verdict on an anomaly of this probe.
abbrev is_of_probe : String → ℕ → Anomaly → Bool
is_of_probe device_id id a = a.id == id && str_eq a.detection.source (sensor_source device_id)

abbrev is_recent : Environment → List Anomaly → String → Event → Bool
is_recent env anomalies device_id e =
    is_sensor_heat e.alert_level
    && leb env.now (e.evaluated_at + env.cooldown_hours * hour_ms)
    && any (is_of_probe device_id e.anomaly_id) anomalies

unfoldable pub in_cooldown : Environment → String → Store → Bool
in_cooldown env device_id s = any (is_recent env s.anomalies device_id) s.events

module _ (env : Environment) (reading : CalibratedReading) (temperature : ℤ) where
  abbrev measured : Conditions
  measured = record {
    temperature_c = temperature;
    soil_moisture_pct = or_else reading.soil_moisture_pct (units 0);
  }

  -- The detection, with the confidence `h` in the units of its text.
  abbrev pub sensor_detection : Detection
  sensor_detection = record {
    source = sensor_source reading.device_id;
    satellite = none;
    geom = reading.geom;
    acquired_at = reading.observed_at;
    brightness_k = none;
    frp_mw = none;
    confidence = some (104 ∷ []);
  }

  abbrev zone_id : Option RiskZone → Option ℕ
  zone_id none = none
  zone_id (some z) = some z.id

  abbrev pub sensor_event : ℕ → Event
  sensor_event id = record {
    anomaly_id = id;
    zone_id = zone_id reading.zone;
    alert_level = critical_sensor_heat;
    temperature_c = temperature;
    soil_moisture_pct = measured.soil_moisture_pct;
    backfilled = false;
    evaluated_at = env.now;
    acknowledged_at = none;
    outcome = none;
    outcome_at = none;
  }

  abbrev pub sensor_payload : ℕ → AlertPayload
  sensor_payload id = record {
    id = id;
    geom = reading.geom;
    acquired_at = reading.observed_at;
    level = critical_sensor_heat;
    zone = reading.zone;
    weather = measured;
    smouldering = none;
    sensor_device = some reading.device_id;
  }

  abbrev raise_inserted : (Stage → Bool) → Store → Option (ℕ × Store) → Store
  raise_inserted fails s none = s
  raise_inserted fails s (some (id, s')) =
      if fails event_stage
      then s'
      else let s'' = insert_event (sensor_event id) s' in
        if fails publish_stage then s'' else publish (sensor_payload id) s''

  unfoldable pub raise : (Stage → Bool) → Store → Store
  raise fails s =
      if fails anomaly_stage
      then s
      else raise_inserted fails s (insert_anomaly sensor_detection measured s)

module _ (env : Environment) (fails : Stage → Bool) (sensor_id observed_at : ℕ) (s : Store) where
  abbrev on_trigger : CalibratedReading → ℤ → Option Trigger → Store
  on_trigger reading temperature none = s
  on_trigger reading temperature (some t) =
      if fails cooldown_stage
      then s
      else if in_cooldown env reading.device_id s
      then s
      else raise env reading temperature fails s

  abbrev on_temperature : CalibratedReading → Option ℤ → Store
  on_temperature reading none = s
  on_temperature reading (some temperature) =
      on_trigger reading temperature (trigger_of env fails sensor_id observed_at temperature)

  abbrev on_reading : Option CalibratedReading → Store
  on_reading none = s
  on_reading (some reading) = on_temperature reading reading.temperature_c

  unfoldable pub evaluate : Store
  unfolding raise
  evaluate =
      if leb_ℤ env.alert_temperature_c (units 0) && leb_ℤ env.alert_rise_c (units 0)
      then s
      else if fails reading_stage
      then s
      else on_reading (calibrated_reading env sensor_id observed_at)
