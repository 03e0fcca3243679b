-- ===== src/Status/Service.antt =====
-- backend/src/status/status.service.ts: the status page, put together from what the workers publish
-- and what the database holds. Redis, the database and the dead letter queue are parameters: each
-- read answers or throws. Times are in milliseconds, and a calendar day is its number.
pub mod Page
use open_fire_watch.Base.{
  ℕ, ◌+◌, ◌-◌, ◌*◌, ◌≡◌, String, Bool, true, false, ◌&&◌, Option, none, some, List, [], ◌∷◌, map,
  keep, length, leb, ltb, max, if◌then◌else◌, or_else, str_eq,
}
use open_fire_watch.Base.Int.{ℤ}
use open_fire_watch.Base.Json.{Json}
use open_fire_watch.Base.Map.{find}
use open_fire_watch.Base.Tried.{Tried, ok, thrown, ◌>>=◌}
use open_fire_watch.Store.{Anomaly}
use open_fire_watch.Sensors.Current.{Sensor}
use open_fire_watch.Sensors.Registry.{Registry}
use open_fire_watch.Backfill.Runs.{BackfillRun, BackfillStatus, queued, running, done, failed}
use open_fire_watch.Status.Documents.{
  ConditionsDocument, ZonesDocument, SourceOutcome, SourcesDocument, SourceStatus, Detections,
  SensorCounts, Archive, ZonesFeed, WeatherFeed, SystemStatus, JobCounts,
}
use open_fire_watch.Status.{FeedState, Overall, Source, StatusInput, classify, overall_state}

-- One call of the page. `get` reads a key of Redis; the four parsers are `JSON.parse` at the
-- documents' types, where `ok none` is the document `null`.
pub record Environment : Type 0 where
  pub now : ℕ
  pub database_now : ℕ
  pub date_parse : String → Option ℕ
  pub max_age_minutes : ℕ
  pub get : String → Tried String (Option String)
  pub parse_conditions : String → Tried String (Option ConditionsDocument)
  pub parse_zones : String → Tried String (Option ZonesDocument)
  pub parse_sources : String → Tried String (Option SourcesDocument)
  pub anomalies : Tried String (List Anomaly)
  pub registry : Tried String Registry
  pub job_counts : Tried String JobCounts
  pub backfill_runs : Tried String (List BackfillRun)

abbrev pub conditions_key : String
conditions_key = "conditions:current"

abbrev pub forecast_key : String
forecast_key = "forecast:current"

abbrev pub fire_danger_key : String
fire_danger_key = "fire-danger:current"

abbrev pub ingest_sources_key : String
ingest_sources_key = "ingest:sources"

-- STALE_AFTER, in seconds: the cycle and the weather, the forecast and the fire danger.
abbrev pub stale_after_cycle : ℕ
stale_after_cycle = 20 * 60

abbrev pub stale_after_forecast : ℕ
stale_after_forecast = 3 * 60 * 60

module _ {A : Type 0} where
  abbrev parsed : Tried String (Option A) → Option A
  parsed (ok document) = document
  parsed (thrown e) = none

  -- `readJson`: a read that throws, an absent key and an empty value are all `null`.
  abbrev pub read_json :
      (String → Tried String (Option A)) → Tried String (Option String) → Option A
  read_json parse (ok (some raw)) = if str_eq raw "" then none else parsed (parse raw)
  read_json parse (ok none) = none
  read_json parse (thrown e) = none

-- `document?.field`
abbrev pub field_of : {A B : Type 0} → (A → Option B) → Option A → Option B
field_of f none = none
field_of f (some document) = f document

abbrev listed : Option SourcesDocument → List SourceOutcome
listed document = or_else (field_of (λ d. d.sources) document) []

abbrev pub source_status : SourceOutcome → SourceStatus
source_status s = record {
  source = s.source;
  is_ok = s.is_ok;
  at = s.at;
  detections = or_else s.detections 0;
  error = s.error;
}

-- `max` and `min` of a column.
abbrev extreme : (ℕ → ℕ → ℕ) → Option ℕ → ℕ → Option ℕ
extreme pick none t = some t
extreme pick (some best) t = some (pick best t)

extreme_of : (ℕ → ℕ → ℕ) → Option ℕ → List ℕ → Option ℕ
extreme_of pick best [] = best
extreme_of pick best (t ∷ ts) = extreme_of pick (extreme pick best t) ts

abbrev earlier : ℕ → ℕ → ℕ
earlier a b = if leb a b then a else b

-- `acquired_at >= now() - interval …`
abbrev acquired_within : ℕ → ℕ → Anomaly → Bool
acquired_within database_now span a = leb database_now (a.detection.acquired_at + span)

unfoldable pub detection_counts : ℕ → List Anomaly → Detections
unfolding extreme_of
detection_counts database_now rows =
    let times = map (λ a. a.detection.acquired_at) rows in
    record {
      last_24h = length (keep (acquired_within database_now (24 * 3600000)) rows);
      last_7d = length (keep (acquired_within database_now (7 * 24 * 3600000)) rows);
      total = length rows;
      newest_acquired_at = extreme_of max none times;
      oldest_acquired_at = extreme_of earlier none times;
    }

-- `last_seen_at >= now() - …`, which is not true of NULL.
abbrev is_reporting : ℕ → Option ℕ → Bool
is_reporting since none = false
is_reporting since (some t) = leb since t

unfoldable pub sensor_counts : ℕ → ℕ → Registry → SensorCounts
unfolding find
sensor_counts database_now max_age_minutes g =
    let active = keep (λ s. s.is_active) g.sensors in
    let since = database_now - max_age_minutes * 60000 in
    let reporting = length (keep (λ s. is_reporting since (find s.id g.last_seen)) active) in
    record { registered = length active; reporting = reporting; silent = length active - reporting }

unfoldable pub dead_letter_count : Tried String JobCounts → ℕ
dead_letter_count (ok c) = or_else c.waiting 0 + or_else c.completed 0 + or_else c.failed 0
dead_letter_count (thrown e) = 0

abbrev is_done : BackfillStatus → Bool
is_done done = true
is_done _ = false

-- The run that was created last: ORDER BY created_at DESC LIMIT 1.
abbrev later_run : Option BackfillRun → BackfillRun → Option BackfillRun
later_run none r = some r
later_run (some best) r = if ltb best.created_at r.created_at then some r else some best

last_run : Option BackfillRun → List BackfillRun → Option BackfillRun
last_run best [] = best
last_run best (r ∷ rs) = last_run (later_run best r) rs

abbrev status_of : Option BackfillRun → Option BackfillStatus
status_of none = none
status_of (some r) = some r.status

unfoldable pub archive_state : Tried String (List BackfillRun) → Archive
unfolding last_run extreme_of
archive_state (ok runs) = record {
  runs = length runs;
  replayed_to = extreme_of max none (map (λ r. r.to) (keep (λ r. is_done r.status) runs));
  last_run_status = status_of (last_run none runs);
}
archive_state (thrown e) = record { runs = 0; replayed_to = none; last_run_status = none }

-- The page, once the reads have answered.
module _ (env : Environment) where
  abbrev pub conditions : Option ConditionsDocument
  conditions = read_json env.parse_conditions (env.get conditions_key)

  abbrev pub forecast : Option ZonesDocument
  forecast = read_json env.parse_zones (env.get forecast_key)

  abbrev pub fire_danger : Option ZonesDocument
  fire_danger = read_json env.parse_zones (env.get fire_danger_key)

  abbrev pub source_outcomes : List SourceOutcome
  source_outcomes = listed (read_json env.parse_sources (env.get ingest_sources_key))

  abbrev pub feed : Option String → ℕ → FeedState
  feed at stale_after = classify env.date_parse at stale_after env.now

  abbrev zones_feed : Option ZonesDocument → ZonesFeed
  zones_feed document = record {
    feed = feed (field_of (λ d. d.generated_at) document) stale_after_forecast;
    zones = length (or_else (field_of (λ d. d.zones) document) []);
  }

  abbrev pub input_of : FeedState → FeedState → StatusInput
  input_of cycle weather = record {
    cycle = cycle.freshness;
    sources = map (λ s. record { is_ok = s.is_ok }) (map source_status source_outcomes);
    weather = weather.freshness;
    forecast = (zones_feed forecast).feed.freshness;
    fire_danger = (zones_feed fire_danger).feed.freshness;
    dead_letters = dead_letter_count env.job_counts;
  }

  abbrev pub page_of : Detections → SensorCounts → SystemStatus
  page_of detections sensors =
      let cycle = feed (field_of (λ d. d.cycle_at) conditions) stale_after_cycle in
      let weather = feed (field_of (λ d. d.observed_at) conditions) stale_after_cycle in
      record {
        generated_at = env.now;
        overall = overall_state (input_of cycle weather);
        cycle = cycle;
        lookback_days =
            field_of (λ d. d.lookback_days)
              (read_json env.parse_sources (env.get ingest_sources_key));
        sources = map source_status source_outcomes;
        weather = record {
          feed = weather;
          station_id = field_of (λ d. d.station_id) conditions;
          temperature_c = field_of (λ d. d.temperature_c) conditions;
          soil_moisture_pct = field_of (λ d. d.soil_moisture_pct) conditions;
        };
        forecast = zones_feed forecast;
        fire_danger = zones_feed fire_danger;
        detections = detections;
        sensors = sensors;
        dead_letters = dead_letter_count env.job_counts;
        archive = archive_state env.backfill_runs;
      }

  -- `Promise.all`: the two counts are the reads whose failure is not caught.
  unfoldable pub current : Tried String SystemStatus
  current = do
    anomalies ← env.anomalies
    registry ← env.registry
    ok (
        page_of (detection_counts env.database_now anomalies)
          (sensor_counts env.database_now env.max_age_minutes registry))
