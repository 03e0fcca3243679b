-- ===== src/Tests/Registry.antt =====
-- A registry with one probe: its readings, its retirement, and its remounting.
use open_fire_watch.Base.{true, none, some, [], ◌∷◌, arith}
use open_fire_watch.Base.Int.{pos}
use open_fire_watch.Evaluation.Level.{units}
use open_fire_watch.Sensors.Registry.{Registry, SensorReading, RegisterSensor}
use open_fire_watch.Sensors.Registry.Devices.{
  IsRegistry, registration, edit, retirement, calls, calls-IsRegistry,
}
use open_fire_watch.Sensors.Intake.{Texts}
use open_fire_watch.Base.Json.{Json, null, string, array, object, nil, cons, done, field}
use open_fire_watch.Tests.Probes.{probe_7}

abbrev registry : Registry
registry = record { sensors = probe_7 ∷ []; next_id = 8; readings = []; last_seen = [] }

registry-IsRegistry : IsRegistry registry
registry-IsRegistry = ((tt, tt), (omega arith, tt))

abbrev form : RegisterSensor
form = record {
  device_id = "probe-8";
  label = "Ridge";
  place = record { longitude = pos 13500000; latitude = pos 52100000 };
  temperature_offset_c = none;
  soil_moisture_scale = none;
  soil_moisture_offset_pct = none;
}

abbrev uplink : SensorReading
uplink = record {
  device_id = "probe-8";
  observed_at = 2000;
  temperature_c = some (units 20);
  soil_moisture_pct = none;
  relative_humidity_pct = none;
  battery_pct = none;
}

abbrev uplink_7 : SensorReading
uplink_7 = record uplink { device_id = "probe-7" }

calls-IsRegistry_example :
    IsRegistry
      (calls (registration form ∷ edit 7 form ∷ retirement 7 ∷ registration form ∷ []) registry)
calls-IsRegistry_example =
    calls-IsRegistry (registration form ∷ edit 7 form ∷ retirement 7 ∷ registration form ∷ [])
      registry registry-IsRegistry

-- A batch whose second reading is none.
abbrev texts : Texts
texts = record { is_short = λ t. true; instant = λ t. some 2000; measured = λ n. n }

abbrev posted : Json
posted = object (
    field "readings"
      (array (
        cons
          (object (field "deviceId" (string "probe-7") (field "observedAt" (string "then") done)))
          (cons null nil)))
      done)
