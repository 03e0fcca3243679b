-- ===== src/Evaluation/Level.antt =====
-- backend/src/evaluation/alert-level.enum.ts: the alert levels and the hazard profiles.
-- A measured number is an integer count of thousandths of its unit.
pub mod Cases
use text.Mathlib.Text.{starts_with}
use open_fire_watch.Base.{
  ℕ, ◌*◌, String, Bool, true, false, List, [], ◌∷◌, Option, none, some, or_else, if◌then◌else◌,
  str_eq,
}
use open_fire_watch.Base.Int.{ℤ, pos}

-- A whole number of units, as a measurement.
abbrev pub units : ℕ → ℤ
units n = pos (n * 1000)

pub data AlertLevel : Type 0 where
  info elevated : AlertLevel
  critical_phosphorus_fire critical_wildfire critical_ordnance_heat : AlertLevel
  critical_thermal_anomaly critical_smouldering critical_sensor_heat : AlertLevel

-- `level === AlertLevel.INFO`
abbrev pub is_info : AlertLevel → Bool
is_info info = true
is_info _ = false

-- The string that stands for a level, in the database and on the bus.
abbrev pub level_name : AlertLevel → String
level_name info = "INFO"
level_name elevated = "ELEVATED"
level_name critical_phosphorus_fire = "CRITICAL_PHOSPHORUS_FIRE"
level_name critical_wildfire = "CRITICAL_WILDFIRE"
level_name critical_ordnance_heat = "CRITICAL_ORDNANCE_HEAT"
level_name critical_thermal_anomaly = "CRITICAL_THERMAL_ANOMALY"
level_name critical_smouldering = "CRITICAL_SMOULDERING"
level_name critical_sensor_heat = "CRITICAL_SENSOR_HEAT"

unfoldable pub is_critical : AlertLevel → Bool
is_critical level = starts_with (level_name level) "CRITICAL_"

-- PHOSPHORUS_IGNITION
abbrev pub ignition_temperature_c : ℤ
ignition_temperature_c = units 30

abbrev pub critical_soil_moisture_pct : ℤ
critical_soil_moisture_pct = units 20

pub record HazardProfile : Type 0 where
  pub critical_level : AlertLevel
  pub requires_ignition_weather : Bool
  pub tracks_ignition_window : Bool
  pub requires_credible_detection : Bool

abbrev pub phosphorus_profile : HazardProfile
phosphorus_profile = record {
  critical_level = critical_phosphorus_fire;
  requires_ignition_weather = true;
  tracks_ignition_window = true;
  requires_credible_detection = false;
}

abbrev pub forest_profile : HazardProfile
forest_profile = record {
  critical_level = critical_wildfire;
  requires_ignition_weather = false;
  tracks_ignition_window = true;
  requires_credible_detection = true;
}

abbrev pub wildfire_profile : HazardProfile
wildfire_profile = record {
  critical_level = critical_wildfire;
  requires_ignition_weather = false;
  tracks_ignition_window = false;
  requires_credible_detection = true;
}

abbrev pub depot_profile : HazardProfile
depot_profile = record {
  critical_level = critical_ordnance_heat;
  requires_ignition_weather = false;
  tracks_ignition_window = false;
  requires_credible_detection = false;
}

abbrev pub generic_profile : HazardProfile
generic_profile = record {
  critical_level = critical_thermal_anomaly;
  requires_ignition_weather = false;
  tracks_ignition_window = false;
  requires_credible_detection = true;
}

abbrev pub hazard_profiles : List (String × HazardProfile)
hazard_profiles =
    ("white_phosphorus", phosphorus_profile)
    ∷ ("white_phosphorus_forest", forest_profile)
    ∷ ("wildfire", wildfire_profile)
    ∷ ("ammunition_depot", depot_profile)
    ∷ ("generic", generic_profile)
    ∷ []

-- `table[key]`: the entry under a key.
abbrev pub entry {ℓ} : {A : Type ℓ} → String → List (String × A) → Option A
entry key [] = none
entry key ((k, v) ∷ rest) = if str_eq key k then some v else entry key rest

unfoldable pub profile_for : String → HazardProfile
profile_for hazard_type = or_else (entry hazard_type hazard_profiles) generic_profile

-- SMOULDERING
abbrev pub radius_metres : ℕ
radius_metres = 500

abbrev pub window_hours : ℕ
window_hours = 72

abbrev pub min_passes : ℕ
min_passes = 2

abbrev pub max_frp_mw : ℤ
max_frp_mw = units 5
