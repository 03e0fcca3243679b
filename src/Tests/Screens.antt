-- ===== src/Tests/Screens.antt =====
-- What the screens show: the forecast, the status, the readiness of a zone and the warnings.
use open_fire_watch.Base.{◌*◌, any, ℕ, ◌≡◌, refl, true, none, some, List, [], ◌∷◌, arith}
use open_fire_watch.Base.Int.{pos, round_tenth}
use open_fire_watch.Evaluation.Level.{units, is_critical, critical_wildfire}
use open_fire_watch.Evaluation.Credible.{is_credible_detection}
use open_fire_watch.Evaluation.Decision.{Conditions, decide}
use open_fire_watch.Forecast.{Hour, find_windows}
use open_fire_watch.Forecast.Windows.{windows_of, find_windows-stretches}
use open_fire_watch.Status.{ok, StatusInput}
use open_fire_watch.Readiness.{Zone, assess}
use open_fire_watch.Readiness.Gates.{assess-decide}
use open_fire_watch.ZoneDraw.{Position, Gesture, begin, double_click}
use open_fire_watch.Warnings.{
  Alert, empty_screen, Message, critical_alert, acknowledged, connect, has_id, receive_all,
}
use open_fire_watch.Warnings.Outstanding.{IsKept, receive_all-outstanding}
use open_fire_watch.Tests.Rule.{no_number, hot}

abbrev noon : Hour
noon = record { at = "2026-07-01T12:00Z"; temperature_c = units 31; soil_moisture_pct = units 15 }

abbrev night : Hour
night = record { at = "2026-07-02T00:00Z"; temperature_c = units 18; soil_moisture_pct = units 15 }

abbrev next_noon : Hour
next_noon = record {
  at = "2026-07-02T12:00Z";
  temperature_c = units 33;
  soil_moisture_pct = units 14;
}

abbrev hours : List Hour
hours = noon ∷ night ∷ next_noon ∷ []

find_windows-stretches_example :
    find_windows hours ≡ windows_of ((noon ∷ []) ∷ (next_noon ∷ []) ∷ [])
find_windows-stretches_example = find_windows-stretches hours

abbrev all_fresh : StatusInput
all_fresh = record {
  cycle = ok;
  sources = record { is_ok = true } ∷ [];
  weather = ok;
  forecast = ok;
  fire_danger = ok;
  dead_letters = 0;
}

abbrev heath : Zone
heath = record { id = 3; name_en = "Heath"; name_de = "Heide"; hazard_type = "white_phosphorus" }

assess-decide_example :
    (assess heath (some hot) none).armed
    ≡ is_critical
        (decide no_number (record {
          hazard_type = some "white_phosphorus";
          confidence = none;
          regional = hot;
          local = none;
          smouldering = none;
        })).level
unfolding is_credible_detection round_tenth
assess-decide_example = assess-decide no_number heath hot none none (refl, refl) refl

-- A temperature of 29.96 °C.
abbrev almost : Conditions
almost = record { temperature_c = pos 29960; soil_moisture_pct = units 15 }

abbrev alert_of : ℕ → Alert
alert_of id = record {
  payload = record {
    id = id;
    geom = record { longitude = pos 13500000; latitude = pos 52100000 };
    acquired_at = 5000;
    level = critical_wildfire;
    zone = none;
    weather = hot;
    smouldering = none;
    sensor_device = none;
  };
  acknowledged_at = none;
}

abbrev messages : List Message
messages =
    connect
    ∷ critical_alert (alert_of 7)
    ∷ critical_alert (alert_of 8)
    ∷ acknowledged 7 "2026-07-01T12:05Z"
    ∷ []

receive_all-outstanding_example :
    (any (has_id 8) (receive_all messages empty_screen).active_warnings ≡ true)
    × IsKept (receive_all messages empty_screen)
receive_all-outstanding_example =
    receive_all-outstanding 8 messages empty_screen (tt, omega arith) (omega arith)

abbrev corner : ℕ → ℕ → Position
corner x y = record { longitude = pos (x * 1000000000); latitude = pos (y * 1000000000) }

abbrev triangle : List Position
triangle = corner 13 52 ∷ corner 14 52 ∷ corner 14 53 ∷ []

abbrev drawn : List Gesture
drawn = begin (some triangle) ∷ double_click ∷ []
