-- ===== src/Tests/Alarms.antt =====
-- Notifications, reminders, the watchdog and the probes' own alerts, on small inputs.
use open_fire_watch.Base.{
  ℕ, zero, suc, ◌+◌, ◌*◌, ◌≡◌, refl, String, Bool, true, false, Option, none, some, List, [], ◌∷◌,
  arith,
}
use open_fire_watch.Evaluation.Level.{units, critical_wildfire}
use open_fire_watch.Store.{Event}
use open_fire_watch.Notifications.Dispatch.{
  alert_critical, ingestion_stalled, ingestion_recovered, critical, alert_key, Notification,
  Channel, Outbox, Surroundings, meets_severity_floor, claim, notify, dedupe_ttl_ms,
}
use open_fire_watch.Notifications.Dispatch.Once.{notify-notify}
use open_fire_watch.Notifications.Escalation.{minute_ms}
use open_fire_watch.Notifications.Watchdog.{initial, watch, watch-changes}

abbrev telegram : Channel
telegram = record { name = "telegram"; is_configured = true }

-- The first try fails, the second gets through.
abbrev flaky : ℕ → Option String
flaky zero = some "timeout"
flaky (suc k) = none

abbrev news : Notification
news = record { kind = alert_critical; severity = critical; dedupe_key = alert_key 7 }

abbrev at_time : ℕ → Surroundings
at_time now = record {
  min_severity = "warning";
  channels = telegram ∷ [];
  redis_answers = true;
  database_answers = true;
  send = λ c k. flaky k;
  now = now;
}

abbrev nothing_sent : Outbox
nothing_sent = record { claims = []; deliveries = [] }

notify-notify_example :
    notify (at_time 61000) news (notify (at_time 1000) news nothing_sent)
    ≡ notify (at_time 1000) news nothing_sent
unfolding meets_severity_floor claim
notify-notify_example =
    notify-notify (at_time 1000) (at_time 61000) news news nothing_sent refl refl refl refl refl
      refl (omega arith) (omega arith)

abbrev open_event : Event
open_event = record {
  anomaly_id = 7;
  zone_id = some 1;
  alert_level = critical_wildfire;
  temperature_c = units 31;
  soil_moisture_pct = units 15;
  backfilled = false;
  evaluated_at = 1000;
  acknowledged_at = none;
  outcome = none;
  outcome_at = none;
}

-- After sixteen minutes, and six hours later.
abbrev first_sweep : ℕ
first_sweep = 1000 + 16 * minute_ms

abbrev second_sweep : ℕ
second_sweep = first_sweep + dedupe_ttl_ms

-- Alive, then twice gone with a check in between that got no answer, then alive again.
abbrev answers : List (Option Bool)
answers = some true ∷ some false ∷ none ∷ some false ∷ some true ∷ []

watch-changes_example : watch answers initial ≡ ingestion_stalled ∷ ingestion_recovered ∷ []
watch-changes_example = watch-changes answers
