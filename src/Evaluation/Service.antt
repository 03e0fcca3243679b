-- ===== src/Evaluation/Service.antt =====
-- backend/src/evaluation/anomaly-evaluation.service.ts: one report from the queue, end to end.
-- The spatial tests of PostGIS, the clock, the rows that the sensor query returns and the language's
-- `Number` are parameters. Each later call that can throw is a stage that an argument lets fail.
pub mod Laws
pub mod Bus
pub mod Passes
use open_fire_watch.Base.{
  ℕ, ◌+◌, ◌*◌, ◌≡◌, String, Bool, true, false, ◌&&◌, ◌||◌, not, Option, none, some, List, [], ◌∷◌,
  map, length, leb, ltb, ◌==◌, if◌then◌else◌, or_else, is_some, first, keep, any,
}
use open_fire_watch.Base.Int.{ℤ, leb_ℤ, max_ℤ, round_tenth}
use open_fire_watch.Base.Map.{find}
use open_fire_watch.Sensors.Current.{Point, LocalConditions, current_by_zone}
use open_fire_watch.Store.{
  Detection, Anomaly, Event, RiskZone, AlertPayload, Store, insert_anomaly, insert_event, publish,
}
use open_fire_watch.Evaluation.Level.{
  AlertLevel, is_info, units, window_hours, min_passes, max_frp_mw,
}
use open_fire_watch.Base.Text.{Text}
use open_fire_watch.Evaluation.Decision.{
  Conditions, SmoulderingEvidence, LocalReading, DecisionInput, Decision, decide,
}
use open_fire_watch.Evaluation.Report.{
  Weather, Ingestion, live, backfill, DetectionReport, report_is_valid,
}

pub record Environment : Type 0 where
  pub to_number : Text → Option ℤ
  pub zones_containing : Point → List RiskZone
  pub within_radius : Point → Point → Bool
  pub sensor_rows : List LocalConditions
  pub now : ℕ

-- The calls that may throw, in their order.
pub data Stage : Type 0 where
  insert_stage zones_stage smouldering_stage sensors_stage event_stage publish_stage : Stage

pub data Outcome : Type 0 where
  invalid duplicate failed : Outcome
  evaluated : AlertLevel → Outcome

-- SMOULDERING_SQL: `COALESCE(frp_mw, 0) <= …`, near enough, and inside the look-back window.
abbrev hour_ms : ℕ
hour_ms = 3600000

abbrev pub is_weak : Option ℤ → Bool
is_weak frp = leb_ℤ (or_else frp (units 0)) max_frp_mw

abbrev pub counts : Environment → Point → Anomaly → Bool
counts env p a =
    env.within_radius p a.detection.geom
    && leb env.now (a.detection.acquired_at + window_hours * hour_ms)
    && is_weak a.detection.frp_mw

-- `count(DISTINCT acquired_at)`
abbrev pub distinct : List ℕ → List ℕ
distinct [] = []
distinct (t ∷ ts) = if any (λ u. u == t) ts then distinct ts else t ∷ distinct ts

-- `max(frp_mw)`, which skips the rows that have none.
abbrev larger : Option ℤ → Option ℤ → Option ℤ
larger none y = y
larger (some x) none = some x
larger (some x) (some y) = some (max_ℤ x y)

abbrev peak_from : Option ℤ → List Anomaly → Option ℤ
peak_from best [] = best
peak_from best (a ∷ rest) = peak_from (larger best a.detection.frp_mw) rest

unfoldable pub detect_smouldering : Environment → Point → List Anomaly → Option SmoulderingEvidence
detect_smouldering env p anomalies =
    let rows = keep (counts env p) anomalies in
    let passes = length (distinct (map (λ a. a.detection.acquired_at) rows)) in
    if ltb passes min_passes
    then none
    else some (record {
      passes = passes;
      window_hours = window_hours;
      peak_frp_mw = round_tenth (or_else (peak_from none rows) (units 0));
    })

-- The sensor's reading for the rule, field by field.
abbrev local_reading : Option LocalConditions → Option LocalReading
local_reading none = none
local_reading (some c) = some (record {
  temperature_c = c.temperature_c;
  soil_moisture_pct = c.soil_moisture_pct;
  device_id = some c.device_id;
})

abbrev is_backfill : Option Ingestion → Bool
is_backfill (some backfill) = true
is_backfill _ = false

abbrev zone_sensor : Environment → Bool → Option RiskZone → Option LocalConditions
zone_sensor env backfilled none = none
zone_sensor env backfilled (some z) =
    if backfilled then none else find z.id (current_by_zone env.sensor_rows)

abbrev zone_hazard : Option RiskZone → Option String
zone_hazard none = none
zone_hazard (some z) = some z.hazard_type

abbrev pub zone_id : Option RiskZone → Option ℕ
zone_id none = none
zone_id (some z) = some z.id

abbrev conditions_in : Weather → Conditions
conditions_in w = record {
  temperature_c = w.temperature_c;
  soil_moisture_pct = w.soil_moisture_pct;
}

-- The verdict on a stored detection, with the evidence that it rests on.
module _ (env : Environment) (report : DetectionReport) where
  abbrev pub zone_of : Option RiskZone
  zone_of = first (env.zones_containing report.detection.geom)

  abbrev pub backfilled : Bool
  backfilled = is_backfill report.ingestion

  abbrev looks_back : Bool
  looks_back = is_some zone_of && is_weak report.detection.frp_mw

  unfoldable pub evidence_in : Store → Option SmoulderingEvidence
  unfolding detect_smouldering
  evidence_in s =
      if looks_back then detect_smouldering env report.detection.geom s.anomalies else none

  unfoldable pub verdict_in : Store → Decision
  unfolding evidence_in
  verdict_in s = decide env.to_number (record {
    hazard_type = zone_hazard zone_of;
    confidence = report.detection.confidence;
    regional = conditions_in report.weather;
    local = local_reading (zone_sensor env backfilled zone_of);
    smouldering = evidence_in s;
  })

  abbrev pub event_for : ℕ → Decision → Event
  event_for id d = record {
    anomaly_id = id;
    zone_id = zone_id zone_of;
    alert_level = d.level;
    temperature_c = d.conditions.temperature_c;
    soil_moisture_pct = d.conditions.soil_moisture_pct;
    backfilled = backfilled;
    evaluated_at = env.now;
    acknowledged_at = none;
    outcome = none;
    outcome_at = none;
  }

  abbrev payload_for : ℕ → Decision → Option SmoulderingEvidence → AlertPayload
  payload_for id d evidence = record {
    id = id;
    geom = report.detection.geom;
    acquired_at = report.detection.acquired_at;
    level = d.level;
    zone = zone_of;
    weather = d.conditions;
    smouldering = evidence;
    sensor_device = none;
  }

  -- Steps 5 to 7: record the verdict, then broadcast it.
  conclude : (Stage → Bool) → ℕ → Decision → Option SmoulderingEvidence → Store → Outcome × Store
  conclude fails id d evidence s =
      if fails event_stage
      then (failed, s)
      else let s' = insert_event (event_for id d) s in
        if is_info d.level || backfilled
        then (evaluated d.level, s')
        else if fails publish_stage
        then (failed, s')
        else (evaluated d.level, publish (payload_for id d evidence) s')

  -- Steps 3 and 4, after the insertion.
  evaluate_new : (Stage → Bool) → ℕ → Store → Outcome × Store
  unfolding conclude
  evaluate_new fails id s =
      if fails zones_stage
      then (failed, s)
      else if looks_back && fails smouldering_stage
      then (failed, s)
      else if is_some zone_of && not backfilled && fails sensors_stage
      then (failed, s)
      else conclude fails id (verdict_in s) (evidence_in s) s

  abbrev evaluate_inserted : (Stage → Bool) → Store → Option (ℕ × Store) → Outcome × Store
  evaluate_inserted fails s none = (duplicate, s)
  evaluate_inserted fails s (some (id, s')) = evaluate_new fails id s'

  unfoldable pub evaluate : (Stage → Bool) → Store → Outcome × Store
  unfolding evaluate_new
  evaluate fails s =
      if not (report_is_valid report)
      then (invalid, s)
      else if fails insert_stage
      then (failed, s)
      else evaluate_inserted fails s
          (insert_anomaly report.detection (conditions_in report.weather) s)
