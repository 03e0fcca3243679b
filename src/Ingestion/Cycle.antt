-- ===== src/Ingestion/Cycle.antt =====
-- workers/src/ingestion/ingest.task.ts: one ingestion cycle. The monitored area, the station, the soil
-- model and the answers of FIRMS are parameters, and the writes to Redis may fail.
pub mod Outage
pub mod Offered
pub mod Repeated
use open_fire_watch.Base.{
  ℕ, ◌+◌, ◌*◌, String, Bool, true, false, ◌&&◌, not, Option, none, some, List, [], ◌∷◌, ◌++◌, map,
  length, ◌==◌, if◌then◌else◌,
}
use open_fire_watch.Base.Text.{Text}
use open_fire_watch.Base.Tried.{Tried, ok, thrown}
use open_fire_watch.Base.Int.{ℤ}
use open_fire_watch.Sensors.Current.{Point}
use open_fire_watch.Store.{Detection}
use open_fire_watch.Evaluation.Report.{Weather, live, DetectionReport, report_is_valid}
use open_fire_watch.Ingestion.Firms.{FirmsError}
use open_fire_watch.Ingestion.Queue.{Job, job_for, add_bulk}

pub record MonitoringArea : Type 0 where
  pub bbox : Text
  pub centroid : Point

pub record StationWeather : Type 0 where
  pub temperature_c : ℤ
  pub relative_humidity_pct : Option ℤ
  pub wind_speed_kmh : Option ℤ
  pub observed_at : ℕ

pub record Snapshot : Type 0 where
  pub station : StationWeather
  pub soil_moisture_pct : ℤ
  pub area : MonitoringArea
  pub cycle_at : ℕ

pub record SourceOutcome : Type 0 where
  pub source : String
  pub at : ℕ
  pub is_ok : Bool
  pub detections : ℕ
  pub error : Option FirmsError

-- What the cycle throws.
pub data CycleError : Type 0 where
  upstream : Text → CycleError
  no_source_polled : List SourceOutcome → CycleError
  queue_failed : CycleError

-- Redis: the queue, and the two keys, with the second at which each expires.
pub record Bus : Type 0 where
  pub jobs : List Job
  pub conditions : Option (Snapshot × ℕ)
  pub sources : Option (List SourceOutcome × ℕ)

pub record Environment : Type 0 where
  pub area : Tried Text MonitoringArea
  pub station : Tried Text StationWeather
  pub soil_moisture : Point → Tried Text ℤ
  pub poll_sources : List String
  pub fetch : String → Text → Tried FirmsError (List Detection)
  pub conditions_fail : Bool
  pub sources_fail : Bool
  pub queue_fails : Bool
  pub poll_interval : ℕ
  pub now : ℕ

abbrev pub publish_conditions : Environment → Snapshot → Bus → Bus
publish_conditions env snapshot b =
    if env.conditions_fail
    then b
    else record b { conditions = some (snapshot, env.now + env.poll_interval * 4) }

abbrev pub publish_source_outcomes : Environment → List SourceOutcome → Bus → Bus
publish_source_outcomes env outcomes b =
    if env.sources_fail
    then b
    else record b { sources = some (outcomes, env.now + env.poll_interval * 4) }

-- The loop over the sources.
abbrev pub polled :
    Environment → String → Tried FirmsError (List Detection) → List Detection × SourceOutcome
polled env source (ok rows) = (
  rows,
  record { source = source; at = env.now; is_ok = true; detections = length rows; error = none },
)
polled env source (thrown e) =
    ([], record { source = source; at = env.now; is_ok = false; detections = 0; error = some e })

unfoldable pub poll : Environment → Text → List String → List Detection × List SourceOutcome
poll env bbox [] = ([], [])
poll env bbox (source ∷ rest) =
    let (rows, outcome) = polled env source (env.fetch source bbox) in
    let (others, outcomes) = poll env bbox rest in (rows ++ others, outcome ∷ outcomes)

unfoldable pub failures : List SourceOutcome → ℕ
failures [] = 0
failures (o ∷ os) = if o.is_ok then failures os else 1 + failures os

abbrev pub live_report : StationWeather → ℤ → Detection → DetectionReport
live_report station soil raw = record {
  detection = raw;
  weather = record {
    temperature_c = station.temperature_c;
    soil_moisture_pct = soil;
    relative_humidity_pct = station.relative_humidity_pct;
    wind_speed_kmh = station.wind_speed_kmh;
    observed_at = station.observed_at;
  };
  ingestion = some live;
}

-- The rows that pass validation; the others are logged and skipped.
abbrev on_valid : Bool → DetectionReport → List DetectionReport → List DetectionReport
on_valid true r rest = r ∷ rest
on_valid false r rest = rest

unfoldable pub valid_reports : (Detection → DetectionReport) → List Detection → List DetectionReport
valid_reports report [] = []
valid_reports report (raw ∷ rest) =
    on_valid (report_is_valid (report raw)) (report raw) (valid_reports report rest)

module _ (env : Environment) where
  abbrev pub offer : List DetectionReport → Bus → Tried CycleError ℕ × Bus
  offer reports b =
      if env.queue_fails
      then (thrown queue_failed, b)
      else (ok (length reports), record b { jobs = add_bulk (map (job_for 0) reports) b.jobs })

  abbrev pub correlate : StationWeather → ℤ → List Detection → Bus → Tried CycleError ℕ × Bus
  correlate station soil [] b = (ok 0, b)
  correlate station soil (raw ∷ rest) b =
      offer (valid_reports (live_report station soil) (raw ∷ rest)) b

  abbrev pub after_poll :
      StationWeather → ℤ → List Detection × List SourceOutcome → Bus → Tried CycleError ℕ × Bus
  after_poll station soil (detections, outcomes) b =
      let b' = publish_source_outcomes env outcomes b in
      if failures outcomes == length env.poll_sources
      then (thrown (no_source_polled outcomes), b')
      else correlate station soil detections b'

  abbrev pub with_soil :
      MonitoringArea → StationWeather → Tried Text ℤ → Bus → Tried CycleError ℕ × Bus
  with_soil area station (thrown e) b = (thrown (upstream e), b)
  with_soil area station (ok soil) b =
      let snapshot : Snapshot = record {
        station = station;
        soil_moisture_pct = soil;
        area = area;
        cycle_at = env.now;
      } in
      after_poll station soil (poll env area.bbox env.poll_sources)
        (publish_conditions env snapshot b)

  abbrev pub with_station :
      MonitoringArea → Tried Text StationWeather → Bus → Tried CycleError ℕ × Bus
  with_station area (thrown e) b = (thrown (upstream e), b)
  with_station area (ok station) b = with_soil area station (env.soil_moisture area.centroid) b

  abbrev pub with_area : Tried Text MonitoringArea → Bus → Tried CycleError ℕ × Bus
  with_area (thrown e) b = (thrown (upstream e), b)
  with_area (ok area) b = with_station area env.station b

  unfoldable pub ingest_detections : Bus → Tried CycleError ℕ × Bus
  unfolding poll failures valid_reports
  ingest_detections b = with_area env.area b
