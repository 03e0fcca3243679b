-- ===== src/Status/Documents.antt =====
-- backend/src/status/status.service.ts: the documents that the status page reads, and the page.
use open_fire_watch.Base.{ℕ, String, Bool, Option, List}
use open_fire_watch.Base.Int.{ℤ}
use open_fire_watch.Base.Json.{Json}
use open_fire_watch.Backfill.Runs.{BackfillStatus}
use open_fire_watch.Status.{FeedState, Overall}

-- What the workers publish under the four keys, as far as the page reads it.
pub record ConditionsDocument : Type 0 where
  pub cycle_at : Option String
  pub observed_at : Option String
  pub station_id : Option String
  pub temperature_c : Option ℤ
  pub soil_moisture_pct : Option ℤ

-- The forecast and the fire danger.
pub record ZonesDocument : Type 0 where
  pub generated_at : Option String
  pub zones : Option (List Json)

pub record SourceOutcome : Type 0 where
  pub source : String
  pub at : Option String
  pub is_ok : Bool
  pub detections : Option ℕ
  pub error : Option String

pub record SourcesDocument : Type 0 where
  pub lookback_days : Option ℕ
  pub sources : Option (List SourceOutcome)

pub record SourceStatus : Type 0 where
  pub source : String
  pub is_ok : Bool
  pub at : Option String
  pub detections : ℕ
  pub error : Option String

pub record Detections : Type 0 where
  pub last_24h : ℕ
  pub last_7d : ℕ
  pub total : ℕ
  pub newest_acquired_at : Option ℕ
  pub oldest_acquired_at : Option ℕ

pub record SensorCounts : Type 0 where
  pub registered : ℕ
  pub reporting : ℕ
  pub silent : ℕ

pub record Archive : Type 0 where
  pub runs : ℕ
  pub replayed_to : Option ℕ
  pub last_run_status : Option BackfillStatus

pub record ZonesFeed : Type 0 where
  pub feed : FeedState
  pub zones : ℕ

pub record WeatherFeed : Type 0 where
  pub feed : FeedState
  pub station_id : Option String
  pub temperature_c : Option ℤ
  pub soil_moisture_pct : Option ℤ

pub record SystemStatus : Type 0 where
  pub generated_at : ℕ
  pub overall : Overall
  pub cycle : FeedState
  pub lookback_days : Option ℕ
  pub sources : List SourceStatus
  pub weather : WeatherFeed
  pub forecast : ZonesFeed
  pub fire_danger : ZonesFeed
  pub detections : Detections
  pub sensors : SensorCounts
  pub dead_letters : ℕ
  pub archive : Archive

-- The counts of the dead letter queue by the state of its jobs.
pub record JobCounts : Type 0 where
  pub waiting : Option ℕ
  pub completed : Option ℕ
  pub failed : Option ℕ
