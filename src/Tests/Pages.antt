-- ===== src/Tests/Pages.antt =====
-- A status page of a calm system, and one without Redis.
use open_fire_watch.Base.{◌≡◌, ◌↔◌, refl, true, none, some, [], ◌∷◌}
use open_fire_watch.Base.Tried.{ok, thrown}
use open_fire_watch.Sensors.Registry.{Registry}
use open_fire_watch.Status.{all_ok, blind}
use open_fire_watch.Status.Documents.{SystemStatus}
use open_fire_watch.Status.Service.{
  Environment, current, dead_letter_count, detection_counts, sensor_counts,
}
use open_fire_watch.Status.Service.Page.{is_well, current-is_well, current-blind}

abbrev no_sensors : Registry
no_sensors = record { sensors = []; next_id = 1; readings = []; last_seen = [] }

-- Every feed delivered five seconds ago, and one source was asked.
abbrev calm : Environment
calm = record {
  now = 10000;
  database_now = 10000;
  date_parse = λ at. some 5000;
  max_age_minutes = 90;
  get = λ key. ok (some "{}");
  parse_conditions = λ raw. ok (
      some (record {
        cycle_at = some "1970-01-01T00:00:05Z";
        observed_at = some "1970-01-01T00:00:05Z";
        station_id = some "11090";
        temperature_c = none;
        soil_moisture_pct = none;
      }));
  parse_zones =
      λ raw. ok (some (record { generated_at = some "1970-01-01T00:00:05Z"; zones = none }));
  parse_sources = λ raw. ok (
      some (record {
        lookback_days = some 2;
        sources = some (
            record {
              source = "VIIRS_SNPP_NRT";
              at = none;
              is_ok = true;
              detections = none;
              error = none;
            }
            ∷ []);
      }));
  anomalies = ok [];
  registry = ok no_sensors;
  job_counts = ok (record { waiting = none; completed = none; failed = none });
  backfill_runs = thrown "no table";
}

current-is_well_example :
    (page : SystemStatus) × (current calm ≡ ok page)
    × ((page.overall ≡ all_ok) ↔ (is_well calm ≡ true))
current-is_well_example = current-is_well calm [] no_sensors refl refl

calm-is_well : is_well calm ≡ true
unfolding dead_letter_count
calm-is_well = refl

abbrev cut_off : Environment
cut_off = record calm { get = λ key. thrown "ECONNREFUSED" }

current-blind_example :
    (page : SystemStatus) × (current cut_off ≡ ok page)
    × (page.overall ≡ blind)
    × (page.sources ≡ [])
    × (page.detections ≡ detection_counts 10000 [])
    × (page.sensors ≡ sensor_counts 10000 90 no_sensors)
current-blind_example =
    current-blind cut_off [] no_sensors refl refl (λ key. ("ECONNREFUSED", refl))
