-- ===== src/Notifications/Escalation.antt =====
-- backend/src/notifications/escalation.service.ts: the reminder of an alert that nobody took.
pub mod Reminders
use text.Mathlib.Text.{starts_with}
use open_fire_watch.Base.{
  ℕ, ◌+◌, ◌*◌, Bool, ◌&&◌, not, List, [], ◌∷◌, leb, ltb, ◌==◌, if◌then◌else◌, is_some, keep,
}
use open_fire_watch.Evaluation.Level.{level_name}
use open_fire_watch.Store.{Event}
use open_fire_watch.Notifications.Dispatch.{
  alert_unacknowledged, critical, escalate_key, Notification, Outbox, Surroundings, notify,
}

abbrev pub minute_ms : ℕ
minute_ms = 60 * 1000

-- MAX_AGE_HOURS, in milliseconds.
abbrev pub max_age_ms : ℕ
max_age_ms = 12 * 60 * minute_ms

-- The conditions of the query: critical, live, not taken, and neither too young nor too old.
unfoldable pub is_due : ℕ → ℕ → Event → Bool
is_due now delay_minutes e =
    starts_with (level_name e.alert_level) "CRITICAL"
    && not e.backfilled
    && not (is_some e.acknowledged_at)
    && ltb (e.evaluated_at + delay_minutes * minute_ms) now
    && leb now (e.evaluated_at + max_age_ms)

-- `ORDER BY evaluated_at`
insert_row : Event → List Event → List Event
insert_row e [] = e ∷ []
insert_row e (f ∷ fs) =
    if leb e.evaluated_at f.evaluated_at then e ∷ f ∷ fs else f ∷ insert_row e fs

sort_rows : List Event → List Event
unfolding insert_row
sort_rows [] = []
sort_rows (e ∷ es) = insert_row e (sort_rows es)

abbrev pub reminder : Event → Notification
reminder e = record {
  kind = alert_unacknowledged;
  severity = critical;
  dedupe_key = escalate_key e.anomaly_id;
}

remind : Surroundings → List Event → Outbox → Outbox
remind env [] box = box
remind env (e ∷ es) box = remind env es (notify env (reminder e) box)

unfoldable pub sweep : Surroundings → ℕ → List Event → Outbox → Outbox
unfolding sort_rows remind
sweep env delay_minutes events box =
    if delay_minutes == 0
    then box
    else remind env (sort_rows (keep (is_due env.now delay_minutes) events)) box
