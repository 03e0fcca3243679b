-- ===== src/Tests/Probes.antt =====
-- A probe that measures 55 °C in the soil.
use open_fire_watch.Base.{
  ℕ, ◌≡◌, ◌≢◌, refl, ap, Bool, true, false, none, some, [], ◌∷◌, length, arith,
}
use open_fire_watch.Base.Int.{pos, ◌+ℤ◌}
use open_fire_watch.Evaluation.Level.{units}
use open_fire_watch.Sensors.Current.{Sensor, Reading}
use open_fire_watch.Store.{Store, insert_anomaly, insert_event, publish}
use open_fire_watch.SensorAlert.{
  Environment, Stage, calibrated_reading, trigger_of, in_cooldown, evaluate,
}
use open_fire_watch.SensorAlert.Episodes.{Finding, evaluate-Finding}
use open_fire_watch.SensorAlert.Cooldown.{evaluate-evaluate_probe}

abbrev pub probe_7 : Sensor
probe_7 = record {
  id = 7;
  device_id = "probe-7";
  label = "Edge";
  geom = record { longitude = pos 13500000; latitude = pos 52100000 };
  temperature_offset_c = units 1;
  soil_moisture_scale = units 1;
  soil_moisture_offset_pct = units 0;
  is_active = true;
}

abbrev reading_at : ℕ → Reading
reading_at t = record {
  sensor_id = 7;
  observed_at = t;
  temperature_c_raw = some (units 55);
  soil_moisture_pct_raw = none;
  relative_humidity_pct = none;
  battery_pct = none;
}

abbrev pub at_clock : ℕ → Environment
at_clock now = record {
  alert_temperature_c = units 50;
  alert_rise_c = units 15;
  cooldown_hours = 6;
  sensors = probe_7 ∷ [];
  readings = reading_at 9000 ∷ reading_at 2000 ∷ [];
  zones_at = λ p. [];
  times = λ x y. x;
  median = λ ts. units 20;
  now = now;
}

abbrev pub all_stages_work : Stage → Bool
all_stages_work stage = false

abbrev pub no_rows : Store
no_rows = record { anomalies = []; events = []; published = []; next_id = 1 }

one_event : length (evaluate (at_clock 2500) all_stages_work 7 2000 no_rows).events ≡ 1
unfolding evaluate calibrated_reading trigger_of in_cooldown insert_anomaly insert_event publish
    ◌+ℤ◌
one_event = refl

changed_events : (evaluate (at_clock 2500) all_stages_work 7 2000 no_rows).events ≢ []
changed_events h = cc (one_event, ap length h)

changed_store : evaluate (at_clock 2500) all_stages_work 7 2000 no_rows ≢ no_rows
changed_store h = changed_events (ap (λ (s : Store). s.events) h)

evaluate-Finding_example : Finding (at_clock 2500) 7 2000
evaluate-Finding_example =
    evaluate-Finding (at_clock 2500) all_stages_work 7 2000 no_rows changed_store

evaluate-evaluate_probe_example :
    evaluate
      (at_clock 9500)
      all_stages_work
      7
      9000
      (evaluate (at_clock 2500) all_stages_work 7 2000 no_rows)
    ≡ evaluate (at_clock 2500) all_stages_work 7 2000 no_rows
evaluate-evaluate_probe_example =
    evaluate-evaluate_probe (at_clock 2500) (at_clock 9500) all_stages_work all_stages_work 7 2000
      9000 no_rows refl (omega arith) changed_events
