-- ===== src/Tests/Polls.antt =====
-- Cycles over two instruments, and the replay of one day.
use open_fire_watch.Base.{
  ℕ, ◌+◌, ◌*◌, ◌≡◌, refl, String, true, false, inl, none, some, List, [], ◌∷◌, str_eq,
}
use open_fire_watch.Base.Int.{pos}
use open_fire_watch.Base.Text.{Text}
use open_fire_watch.Base.Tried.{Tried, ok, thrown}
use open_fire_watch.Store.{Detection}
use open_fire_watch.Evaluation.Level.{units}
use open_fire_watch.Evaluation.Report.{report_is_valid, detection_is_valid, weather_is_valid}
use open_fire_watch.Ingestion.Firms.{FirmsError, empty_body}
use open_fire_watch.Ingestion.Queue.{job_id, holds}
use open_fire_watch.Ingestion.Cycle.{
  Environment, Bus, MonitoringArea, StationWeather, SourceOutcome, no_source_polled, live_report,
  ingest_detections,
}
use open_fire_watch.Ingestion.Cycle.Outage.{AllFailed, ingest_detections-outage}
use open_fire_watch.Ingestion.Cycle.Offered.{ingest_detections-offers}
use open_fire_watch.Tests.Reports.{seen_by}

abbrev square : MonitoringArea
square = record {
  bbox = b'1' ∷ [];
  centroid = record { longitude = pos 13500000; latitude = pos 52100000 };
}

abbrev station : StationWeather
station = record {
  temperature_c = units 31;
  relative_humidity_pct = none;
  wind_speed_kmh = none;
  observed_at = 4000;
}

abbrev nobody : String → Text → Tried FirmsError (List Detection)
nobody source bbox = thrown empty_body

-- Only the instrument `A` answers, with one row.
abbrev only_a : String → Text → Tried FirmsError (List Detection)
only_a source bbox = elim (str_eq source "A") [
  | true ↦ ok (seen_by 5000 ∷ [])
  | false ↦ thrown empty_body
]

abbrev cycle_with : (String → Text → Tried FirmsError (List Detection)) → Environment
cycle_with fetch = record {
  area = ok square;
  station = ok station;
  soil_moisture = λ p. ok (units 12);
  poll_sources = "A" ∷ "B" ∷ [];
  fetch = fetch;
  conditions_fail = false;
  sources_fail = false;
  queue_fails = false;
  poll_interval = 900;
  now = 6;
}

abbrev quiet_bus : Bus
quiet_bus = record { jobs = []; conditions = none; sources = none }

ingest_detections-outage_example :
    (outcomes : List SourceOutcome) × ((ingest_detections (cycle_with nobody) quiet_bus).0
      ≡ thrown (no_source_polled outcomes))
    × ((ingest_detections (cycle_with nobody) quiet_bus).1.sources ≡ some (outcomes, 6 + 900 * 4))
    × ((ingest_detections (cycle_with nobody) quiet_bus).1.jobs ≡ [])
    × AllFailed ("A" ∷ "B" ∷ []) outcomes
ingest_detections-outage_example =
    ingest_detections-outage (cycle_with nobody) square station (units 12) quiet_bus refl refl refl
      refl ((empty_body, refl), ((empty_body, refl), tt))

row_is_valid : report_is_valid (live_report station (units 12) (seen_by 5000)) ≡ true
unfolding report_is_valid detection_is_valid weather_is_valid
row_is_valid = refl

ingest_detections-offers_example :
    (n : ℕ) × ((ingest_detections (cycle_with only_a) quiet_bus).0 ≡ ok n)
    × (holds (job_id (seen_by 5000)) (ingest_detections (cycle_with only_a) quiet_bus).1.jobs
        ≡ true)
ingest_detections-offers_example =
    ingest_detections-offers (cycle_with only_a) square station (units 12) refl refl refl
      (seen_by 5000) quiet_bus refl (inl (seen_by 5000 ∷ [], refl, inl refl)) row_is_valid
