-- ===== src/Alerts.antt =====
-- backend/src/alerts/alert-history.service.ts: taking an alert, and recording what the crew found. An
-- answer `none` is the error that there is no such alert.
pub mod Taken
use open_fire_watch.Base.{
  ℕ, Bool, true, false, ◌&&◌, not, Option, none, some, List, [], ◌∷◌, map, any, is_some, leb, ◌==◌,
  if◌then◌else◌,
}
use open_fire_watch.Store.{CrewOutcome, Event}

abbrev pub is_of : ℕ → Event → Bool
is_of id e = e.anomaly_id == id

-- `WHERE anomaly_id = $1 AND acknowledged_at IS NULL`
abbrev pub is_untaken : ℕ → Event → Bool
is_untaken id e = is_of id e && not (is_some e.acknowledged_at)

abbrev pub take_at : ℕ → ℕ → Event → Event
take_at now id e = if is_untaken id e then record e { acknowledged_at = some now } else e

abbrev pub sooner : Option ℕ → Option ℕ → Option ℕ
sooner none b = b
sooner (some a) none = some a
sooner (some a) (some b) = some (if leb a b then a else b)

-- `ORDER BY acknowledged_at LIMIT 1`, over the rows that have one.
abbrev pub first_taken : ℕ → List Event → Option ℕ
first_taken id [] = none
first_taken id (e ∷ es) =
    sooner (if is_of id e then e.acknowledged_at else none) (first_taken id es)

unfoldable pub acknowledge : ℕ → ℕ → List Event → Option ℕ × List Event
acknowledge now id events =
    if any (is_untaken id) events
    then (some now, map (take_at now id) events)
    else (first_taken id events, events)

abbrev with_outcome : ℕ → ℕ → CrewOutcome → Event → Event
with_outcome now id outcome e =
    if is_of id e then record e { outcome = some outcome; outcome_at = some now } else e

-- Whether a row was found, and the rows.
unfoldable pub set_outcome : ℕ → ℕ → CrewOutcome → List Event → Bool × List Event
set_outcome now id outcome events =
    (any (is_of id) events, map (with_outcome now id outcome) events)
