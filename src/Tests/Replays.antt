-- ===== src/Tests/Replays.antt =====
-- The start of a run, and the replay of one day.
use open_fire_watch.Base.{
  ℕ, ◌+◌, ◌*◌, ◌≤◌, ◌⊎◌, Bool, if◌then◌else◌, ltb, arith, ◌≡◌, refl, true, false, inl, Option, none,
  some, [], ◌∷◌, Any,
}
use open_fire_watch.Base.Text.{Text}
use open_fire_watch.Base.Tried.{ok, thrown}
use open_fire_watch.Evaluation.Level.{units}
use open_fire_watch.Evaluation.Service.{evaluate}
use open_fire_watch.Evaluation.Report.{backfill, report_is_valid}
use open_fire_watch.Ingestion.Queue.{Job, job_for, add_bulk, id_eq}
use open_fire_watch.Ingestion.Cycle.{valid_reports}
use open_fire_watch.Ingestion.Firms.{not_csv}
use open_fire_watch.Backfill.Pacing.{
  Answer, fetch_with_pacing, refused_from, is_refused, fetch_with_pacing-ends,
}
use open_fire_watch.Backfill.Runs.{
  BackfillRun, Register, new_run, Request, asked, answered, refused, queue_failed, play,
}
use open_fire_watch.Backfill.Runs.Starts.{actives, AllTurnedAway, play-actives, play-stuck}
use open_fire_watch.Backfill.Plan.{plan_backfill, windows, SourceAvailability}
use open_fire_watch.Backfill.Replay.{
  Environment, Stage, backfill_satellite, plan, ensure_zones, replay, publish_backfilled, pair_all,
  weather_at,
}
use open_fire_watch.Backfill.Actions.{World, ◌>>=◌, or_raise, pure, modify, gets}
use open_fire_watch.Backfill.Weather.{WeatherHour}
use open_fire_watch.Backfill.Replay.Ends.{IsDone, IsFailed, backfill_satellite-IsEnded}
use open_fire_watch.Backfill.Replay.Offered.{backfill_satellite-silent}
use open_fire_watch.Tests.Reports.{seen_by, here, none_fails, no_rows}

-- Two refusals by the quota, and then the rows.
abbrev asking : ℕ → Answer
asking attempt = if ltb attempt 3 then thrown (not_csv []) else ok []

fetch_with_pacing-ends_example :
    (k : ℕ) × (fetch_with_pacing 2000 asking ≡ some (asking (1 + k), (k + 1) * 2000 + k * 60000))
    × (1 + k ≤ 13)
    × (refused_from 2000 asking k 1 ≡ true)
    × ((1 + k ≡ 13) ⊎ (is_refused 2000 asking (asking (1 + k)) ≡ false))
fetch_with_pacing-ends_example = fetch_with_pacing-ends 2000 asking

abbrev no_runs : Register
no_runs = record { runs = []; next_id = 1; jobs = [] }

-- Days 100 to 110 of a calendar whose archive begins on day 50, on day 200.
abbrev first_run : BackfillRun
first_run = new_run 1 100 110 7

abbrev asked_for : ℕ → ℕ → Bool → Request
asked_for from to queue_fails = record {
  from = from;
  to = to;
  today = 200;
  now = 7;
  queue_fails = queue_fails;
}

-- Both calls check before either inserts.
play-actives_example :
    actives
      (play 50
        (0 ∷ 1 ∷ 1 ∷ 0 ∷ 0 ∷ [])
        ((asked_for 100 110 false, asked) ∷ (asked_for 120 130 false, asked) ∷ [])
        no_runs).1
    ≡ 2
play-actives_example =
    play-actives 50 false true false (0 ∷ []) (asked_for 100 110 false) (asked_for 120 130 false)
      no_runs (omega arith) (omega arith) refl

play-stuck_example :
    let left = play 50 (0 ∷ 0 ∷ 0 ∷ []) ((asked_for 100 110 true, asked) ∷ []) no_runs in
    (left.0 ≡ (asked_for 100 110 true, answered (refused queue_failed)) ∷ [])
    × (left.1.runs ≡ first_run ∷ [])
    × (left.1.jobs ≡ [])
    × ((play 50 (0 ∷ 0 ∷ []) ((asked_for 120 130 false, asked) ∷ []) left.1).1 ≡ left.1)
    × AllTurnedAway (play 50 (0 ∷ 0 ∷ []) ((asked_for 120 130 false, asked) ∷ []) left.1).0
play-stuck_example =
    play-stuck 50 (asked_for 100 110 true) no_runs (0 ∷ 0 ∷ [])
      ((asked_for 120 130 false, asked) ∷ []) (omega arith) refl refl (refl, tt)

abbrev viirs : SourceAvailability
viirs = record { source = "VIIRS_SP"; min_date = 0; max_date = 150 }

abbrev hour_at : ℕ → WeatherHour
hour_at t = record {
  zone_id = 1;
  observed_at = t;
  temperature_c = units 31;
  soil_moisture_pct = units 12;
}

abbrev nothing_fails : Stage → Option Text
nothing_fails stage = none

abbrev replaying : Environment
replaying = record {
  families = "VIIRS" ∷ [];
  availability = ok (viirs ∷ []);
  source_le = λ s t. true;
  zones = [];
  bbox = [];
  archive = λ z. thrown [];
  fetch = λ r bbox n. ok (seen_by 5000 ∷ []);
  pace_ms = 2000;
  in_days = λ from to t. true;
  local_day = λ t. 0;
  comes_before = λ p a b. false;
  fails = nothing_fails;
  now = 9;
}

abbrev before_replay : World
before_replay = record { run = first_run; history = hour_at 4000 ∷ []; jobs = [] }

backfill_satellite-IsEnded_example :
    IsDone replaying (backfill_satellite replaying before_replay)
    ⊎ IsFailed replaying (backfill_satellite replaying before_replay)
backfill_satellite-IsEnded_example =
    backfill_satellite-IsEnded replaying before_replay (refl, refl, refl, refl)

abbrev replayed_job : Job
replayed_job = job_for 10 (record {
  detection = seen_by 5000;
  weather = record {
    temperature_c = units 31;
    soil_moisture_pct = units 12;
    relative_humidity_pct = none;
    wind_speed_kmh = none;
    observed_at = 4000;
  };
  ingestion = some backfill;
})

replayed : Any (λ j. j ≡ replayed_job) (backfill_satellite replaying before_replay).1.jobs
unfolding backfill_satellite ◌>>=◌ plan or_raise plan_backfill pure modify ensure_zones replay
    windows fetch_with_pacing publish_backfilled pair_all gets weather_at valid_reports
    report_is_valid add_bulk id_eq
replayed = inl refl

backfill_satellite-silent_example :
    (evaluate here replayed_job.data_ none_fails no_rows).1.published ≡ []
backfill_satellite-silent_example =
    backfill_satellite-silent replaying before_replay tt replayed_job replayed refl here none_fails
      no_rows
