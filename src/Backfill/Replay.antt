-- ===== src/Backfill/Replay.antt =====
-- workers/src/ingestion/satellite-backfill.task.ts: `backfillSatellite`, the job that replays a range.
-- FIRMS, the weather archive, the spatial order of the zones, the calendar and the clock are parameters;
-- `fails` tells which of the reads and writes of the database and the queue throw.
pub mod Triples
pub mod Counts
pub mod Ends
pub mod Offered
use open_fire_watch.Base.{
  ℕ, ◌+◌, ◌-◌, ◌*◌, String, Bool, true, false, ◌&&◌, not, Option, none, some, List, [], ◌∷◌, ◌++◌,
  map, length, first, keep, any, leb, ltb, ◌==◌, if◌then◌else◌, str_eq,
}
use open_fire_watch.Base.Text.{Text}
use open_fire_watch.Base.Tried.{Tried, ok, thrown}
use open_fire_watch.Base.Int.{ℤ}
use open_fire_watch.Sensors.Current.{Point}
use open_fire_watch.Store.{Detection}
use open_fire_watch.Evaluation.Report.{Weather, backfill, DetectionReport}
use open_fire_watch.Ingestion.Firms.{FirmsError}
use open_fire_watch.Ingestion.Queue.{Job, job_for, add_bulk}
use open_fire_watch.Ingestion.Cycle.{valid_reports}
use open_fire_watch.Evaluation.Service.{distinct}
use open_fire_watch.Backfill.Plan.{
  SourceAvailability, BackfillRequest, plan_backfill, coverage_gaps,
}
use open_fire_watch.Backfill.Pacing.{Answer, Paced, fetch_with_pacing}
use open_fire_watch.Backfill.Weather.{WeatherHour, store_weather_hours}
use open_fire_watch.Backfill.Actions.{
  World, Action, pure, raise, gets, or_raise, ◌>>=◌, ◌>>◌, modify, edit_run, if_fails, as_firms,
}
use open_fire_watch.Backfill.Runs.{
  BackfillRun, BackfillStatus, running, done, failed, ReplayError, upstream, firms, inverted_range,
}

pub record ZonePoint : Type 0 where
  pub id : ℕ
  pub place : Point

pub data Stage : Type 0 where
  running_stage plan_stage zones_stage area_stage queue_stage done_stage failed_stage : Stage
  count_stage store_stage progress_stage : ℕ → Stage
  weather_stage : Detection → Stage

pub record Environment : Type 0 where
  pub families : List String
  pub availability : Tried FirmsError (List SourceAvailability)
  pub source_le : String → String → Bool
  pub zones : List ZonePoint
  pub bbox : Text
  pub archive : ZonePoint → Tried Text (List WeatherHour)
  pub fetch : BackfillRequest → Text → ℕ → Answer
  pub pace_ms : ℕ
  -- the hours from one day to the other, and the local day of an hour
  pub in_days : ℕ → ℕ → ℕ → Bool
  pub local_day : ℕ → ℕ
  -- whether the first zone comes before the second for a place: it contains it, or lies nearer
  pub comes_before : Point → ℕ → ℕ → Bool
  pub fails : Stage → Option Text
  pub now : ℕ

-- The days of the range with 20 hours or more.
abbrev hours_on : (ℕ → ℕ) → List WeatherHour → ℕ → ℕ
hours_on local_day hours d = length (keep (λ h. local_day h.observed_at == d) hours)

unfoldable pub count_weather_days : Environment → ℕ → ℕ → ℕ → List WeatherHour → ℕ
count_weather_days env zone from to history =
    let hours = keep (λ h. h.zone_id == zone && env.in_days from to h.observed_at) history in
    length (
      keep (λ d. leb 20 (hours_on env.local_day hours d))
        (distinct (map (λ h. env.local_day h.observed_at) hours)))

module _ (env : Environment) where
  -- A zone whose archive cannot be fetched or stored is passed over.
  abbrev pub store_archive : ZonePoint → Option Text → Tried Text (List WeatherHour) → World → World
  store_archive z none (ok hours) w = record w { history = (store_weather_hours hours w.history).1 }
  store_archive z _ _ w = w

  abbrev pub ensure_zone : ℕ → ℕ → ZonePoint → World → World
  ensure_zone from to z w =
      if leb (to - from + 1) (count_weather_days env z.id from to w.history)
      then w
      else store_archive z (env.fails (store_stage z.id)) (env.archive z) w

  unfoldable pub ensure_zones : ℕ → ℕ → List ZonePoint → Action Unit
  ensure_zones from to [] = pure tt
  ensure_zones from to (z ∷ zs) = do
    if_fails (env.fails (count_stage z.id))
    modify (ensure_zone from to z)
    ensure_zones from to zs

  -- `weatherAt`: the hour around the time, of the zone that comes first for the place.
  abbrev is_hour_of : ℕ → WeatherHour → Bool
  is_hour_of t h = leb h.observed_at t && ltb t (h.observed_at + 3600000)

  best : Point → WeatherHour → List WeatherHour → WeatherHour
  best p h [] = h
  best p h (k ∷ ks) = best p (if env.comes_before p k.zone_id h.zone_id then k else h) ks

  abbrev weather_of : Point → List WeatherHour → Option Weather
  weather_of p [] = none
  weather_of p (h ∷ hs) =
      let chosen = best p h hs in
      some (record {
        temperature_c = chosen.temperature_c;
        soil_moisture_pct = chosen.soil_moisture_pct;
        relative_humidity_pct = none;
        wind_speed_kmh = none;
        observed_at = chosen.observed_at;
      })

  unfoldable pub weather_at : Point → ℕ → List WeatherHour → Option Weather
  unfolding best
  weather_at p t history = weather_of p (keep (is_hour_of t) history)

  -- The rows that have weather, paired with it; `none` is a row that is skipped.
  abbrev pub paired : Detection → Option Weather → List DetectionReport
  paired raw none = []
  paired raw (some w) =
      valid_reports (λ d. record { detection = d; weather = w; ingestion = some backfill })
        (raw ∷ [])

  unfoldable pub pair_all : List Detection → Action (List DetectionReport)
  pair_all [] = pure []
  pair_all (raw ∷ rest) = do
    if_fails (env.fails (weather_stage raw))
    history ← gets (λ w. w.history)
    reports ← pair_all rest
    pure (paired raw (weather_at raw.geom raw.acquired_at history) ++ reports)

  abbrev pub backfill_priority : ℕ
  backfill_priority = 10

  -- `addBulk`, when there is a report.
  abbrev pub enqueue : List DetectionReport → Action ℕ
  enqueue [] = pure 0
  enqueue (r ∷ rs) = do
    if_fails (env.fails queue_stage)
    modify (λ w. record w { jobs = add_bulk (map (job_for backfill_priority) (r ∷ rs)) w.jobs })
    pure (length (r ∷ rs))

  unfoldable pub publish_backfilled : List Detection → Action ℕ
  publish_backfilled detections = do reports ← pair_all detections; enqueue reports

  -- A paced request always ends; rows that are none stand for one that would not.
  abbrev pub paced_answer : Option Paced → Tried ReplayError (List Detection)
  paced_answer none = ok []
  paced_answer (some (answer, slept)) = as_firms answer

  -- The loop over the requests.
  unfoldable pub replay : ℕ → ℕ → ℕ → List BackfillRequest → Action Unit
  replay finished found queued [] = pure tt
  replay finished found queued (r ∷ rs) = do
    detections ← or_raise (paced_answer (fetch_with_pacing env.pace_ms (env.fetch r env.bbox)))
    n ← publish_backfilled detections
    if_fails (env.fails (progress_stage (finished + 1)))
    edit_run (λ run. record run {
      requests_done = finished + 1;
      detections_found = found + length detections;
      reports_queued = queued + n;
    })
    replay (finished + 1) (found + length detections) (queued + n) rs

  abbrev planned : Option (List BackfillRequest) → Tried ReplayError (List BackfillRequest)
  planned none = thrown inverted_range
  planned (some requests) = ok requests

  -- The sources of the plan, each once.
  abbrev source_names : List BackfillRequest → List String
  source_names [] = []
  source_names (r ∷ rs) = r.source ∷ keep (λ s. not (str_eq s r.source)) (source_names rs)

  unfoldable pub plan : ℕ → ℕ → Action (List BackfillRequest)
  plan from to = do
    availability ← or_raise (as_firms env.availability)
    requests ← or_raise (planned (plan_backfill env.source_le from to env.families availability))
    if_fails (env.fails plan_stage)
    edit_run (λ run. record run {
      requests_total = some (length requests);
      coverage_gaps = coverage_gaps from to requests;
      sources = some (source_names requests);
    })
    pure requests

  unfoldable pub body : ℕ → ℕ → Action Unit
  body from to = do
    requests ← plan from to
    if_fails (env.fails zones_stage)
    ensure_zones from to env.zones
    if_fails (env.fails area_stage)
    replay 0 0 0 requests

  -- The `catch`: where its own write of the status fails, that error is thrown in place of the first.
  abbrev pub caught : Option Text → ReplayError → World → Tried ReplayError Unit × World
  caught none e w = (
    thrown e,
    record w { run = record w.run { status = failed; finished_at = some env.now; error = some e } },
  )
  caught (some message) e w = (thrown (upstream message), w)

  -- The last write of the `try`.
  abbrev pub finished : Option Text → World → Tried ReplayError Unit × World
  finished none w =
      (ok tt, record w { run = record w.run { status = done; finished_at = some env.now } })
  finished (some message) w = caught (env.fails failed_stage) (upstream message) w

  -- `try` and `catch`, after the calls that the `try` makes.
  abbrev pub conclude : Tried ReplayError Unit × World → Tried ReplayError Unit × World
  conclude (ok u, w) = finished (env.fails done_stage) w
  conclude (thrown e, w) = caught (env.fails failed_stage) e w

  -- The first write of a status stands before the `try`.
  abbrev pub begun : World → World
  begun w = record w { run = record w.run { status = running; started_at = some env.now } }

  abbrev pub attempted : Option Text → World → Tried ReplayError Unit × World
  attempted (some message) w = (thrown (upstream message), w)
  attempted none w = conclude (body w.run.from w.run.to (begun w))

  unfoldable pub backfill_satellite : Action Unit
  unfolding body
  backfill_satellite w = attempted (env.fails running_stage) w
