-- ===== src/Tests/Reports.antt =====
-- One report from the queue, end to end: a detection in an ammunition depot.
use open_fire_watch.Base.{
  ℕ, ◌≡◌, refl, inr, Bool, true, false, Option, none, some, is_some, [], ◌∷◌,
}
use open_fire_watch.Base.Int.{pos}
use open_fire_watch.Sensors.Current.{Point, LocalConditions}
use open_fire_watch.Store.{Detection, Anomaly, Store, RiskZone}
use open_fire_watch.Evaluation.Level.{units}
use open_fire_watch.Evaluation.Decision.{decide}
use open_fire_watch.Evaluation.Report.{report_is_valid, Ingestion, Weather, DetectionReport}
use open_fire_watch.Evaluation.Service.{
  Environment, Stage, event_stage, failed, duplicate, zone_of, verdict_in, evaluate,
}
use open_fire_watch.Evaluation.Service.Laws.{evaluate-evaluate, evaluate-lost}
use open_fire_watch.Evaluation.Service.Passes.{IsFaint, HasTwoPasses}
use open_fire_watch.Evaluation.Service.Bus.{verdict_in-smouldering}
use open_fire_watch.Tests.Rule.{no_number}

abbrev place : Point
place = record { longitude = pos 13500000; latitude = pos 52100000 }

abbrev depot_zone : RiskZone
depot_zone = record {
  id = 1;
  name_en = b'D' ∷ [];
  name_de = b'D' ∷ [];
  hazard_type = "ammunition_depot";
}

abbrev pub seen_by : ℕ → Detection
seen_by t = record {
  source = "VIIRS_SNPP_NRT";
  satellite = some "N";
  geom = place;
  acquired_at = t;
  brightness_k = some (units 330);
  frp_mw = some (units 2);
  confidence = none;
}

abbrev pub weather_then : Weather
weather_then = record {
  temperature_c = units 24;
  soil_moisture_pct = units 30;
  relative_humidity_pct = none;
  wind_speed_kmh = none;
  observed_at = 5000;
}

abbrev pub report_of : Option Ingestion → DetectionReport
report_of ingestion = record {
  detection = seen_by 5000;
  weather = weather_then;
  ingestion = ingestion;
}

abbrev pub here : Environment
here = record {
  to_number = no_number;
  zones_containing = λ p. depot_zone ∷ [];
  within_radius = λ p q. true;
  sensor_rows = [];
  now = 6000;
}

abbrev pub no_rows : Store
no_rows = record { anomalies = []; events = []; published = []; next_id = 1 }

-- The same place, twice before.
abbrev earlier : ℕ → ℕ → Anomaly
earlier id t = record {
  id = id;
  detection = seen_by t;
  weather = record { temperature_c = units 20; soil_moisture_pct = units 30 };
}

abbrev seen_before : Store
seen_before = record no_rows { anomalies = earlier 2 3000 ∷ earlier 1 1000 ∷ []; next_id = 3 }

abbrev pub none_fails : Stage → Bool
none_fails stage = false

abbrev event_fails : Stage → Bool
event_fails event_stage = true
event_fails _ = false

evaluate-evaluate_example :
    let s' = (evaluate here (report_of none) event_fails no_rows).1 in
    evaluate here (report_of none) none_fails s' ≡ (duplicate, s')
unfolding report_is_valid
evaluate-evaluate_example =
    evaluate-evaluate here here (report_of none) event_fails none_fails no_rows refl refl refl

evaluate-lost_example :
    let first = evaluate here (report_of none) event_fails no_rows in
    let retry = evaluate here (report_of none) none_fails first.1 in
    (first.0 ≡ failed) × (retry.0 ≡ duplicate) × (retry.1.events ≡ []) × (retry.1.published ≡ [])
unfolding report_is_valid
evaluate-lost_example =
    evaluate-lost here here (report_of none) event_fails none_fails no_rows refl refl refl refl
      (inr refl)

abbrev probe_row : LocalConditions
probe_row = record {
  zone_id = 1;
  observed_at = 5500;
  temperature_c = some (units 40);
  soil_moisture_pct = none;
  device_id = "probe-7";
}

verdict_in-smouldering_example :
    (is_some (zone_of here (report_of none)) ≡ true)
    × IsFaint (some (units 2))
    × HasTwoPasses here place (earlier 2 3000 ∷ earlier 1 1000 ∷ [])
unfolding verdict_in decide
verdict_in-smouldering_example = verdict_in-smouldering here (report_of none) seen_before refl
