-- ===== src/Notifications/Texts.antt =====
-- backend/src/notifications/notification-texts.ts: what a notification says, in both languages. How
-- a number, a coordinate, a time and a day are printed is a parameter.
pub mod Said
use open_fire_watch.Base.{
  ℕ, ◌-◌, String, Bool, true, false, Option, none, some, List, [], ◌∷◌, ◌++◌, if◌then◌else◌,
  or_else, str_eq,
}
use open_fire_watch.Base.Int.{ℤ}
use open_fire_watch.Base.Text.{Text, codes}
use open_fire_watch.Configuration.{Locale, de, en}
use open_fire_watch.FireDanger.Daily.{slice}

abbrev pub by_lang : {A : Type 0} → Locale → A → A → A
by_lang de german english = german
by_lang en german english = english

-- LEVEL_NAMES
abbrev level_names : Locale → List (String × String)
level_names de =
    ("CRITICAL_PHOSPHORUS_FIRE", "Phosphorbrand")
    ∷ ("CRITICAL_WILDFIRE", "Waldbrand")
    ∷ ("CRITICAL_ORDNANCE_HEAT", "Hitze an Munitionsstandort")
    ∷ ("CRITICAL_SMOULDERING", "Glutnest")
    ∷ ("CRITICAL_THERMAL_ANOMALY", "Ungewöhnliche Hitze")
    ∷ ("CRITICAL_SENSOR_HEAT", "Hitze an Bodensonde")
    ∷ []
level_names en =
    ("CRITICAL_PHOSPHORUS_FIRE", "Phosphorus fire")
    ∷ ("CRITICAL_WILDFIRE", "Wildfire")
    ∷ ("CRITICAL_ORDNANCE_HEAT", "Heat at ordnance site")
    ∷ ("CRITICAL_SMOULDERING", "Smouldering nest")
    ∷ ("CRITICAL_THERMAL_ANOMALY", "Unusual heat")
    ∷ ("CRITICAL_SENSOR_HEAT", "Ground-sensor heat")
    ∷ []

abbrev named : String → List (String × String) → Option String
named level [] = none
named level ((key, name) ∷ rest) = if str_eq key level then some name else named level rest

unfoldable pub level_text : Locale → String → String
level_text lang level = or_else (named level (level_names lang)) level

abbrev pub not_a_dispatch : Locale → Text
not_a_dispatch de = codes "Kein Ersatz für den Notruf 122."
not_a_dispatch en = codes "Not a substitute for the emergency number (112/122)."

-- The lines of a body are joined by line feeds.
pub record Message : Type 0 where
  pub title : Text
  pub body : List Text

pub record Printing : Type 0 where
  pub number : ℤ → Text
  pub count : ℕ → Text
  pub fixed4 : ℤ → Text
  pub time : Locale → String → Text
  pub day : Locale → Text → Text

pub record CriticalAlert : Type 0 where
  pub level : String
  pub zone_name : Option Text
  pub temperature_c : Option ℤ
  pub soil_moisture_pct : Option ℤ
  pub latitude : ℤ
  pub longitude : ℤ
  pub acquired_at : String
  pub sensor_label : Option Text

pub record Escalation : Type 0 where
  pub anomaly_id : ℕ
  pub level : String
  pub minutes : ℕ
  pub zone_name : Option Text
  pub latitude : ℤ
  pub longitude : ℤ

-- `hours` is the rounded lead time.
pub record WindowAhead : Type 0 where
  pub zone_name : Text
  pub from : Text
  pub to : Text
  pub peak_temperature_c : ℤ
  pub min_soil_moisture_pct : ℤ
  pub hours : ℕ

abbrev zone_text : Locale → Option Text → Text
zone_text lang name =
    or_else name (by_lang lang (codes "außerhalb aller Zonen") (codes "outside every zone"))

-- The lines that are not null.
abbrev pub present_lines : List (Option Text) → List Text
present_lines [] = []
present_lines (none ∷ ls) = present_lines ls
present_lines (some l ∷ ls) = l ∷ present_lines ls

-- An empty label counts as absent.
abbrev pub label_line : Text → Option Text → Option Text
label_line prefix none = none
label_line prefix (some []) = none
label_line prefix (some (c ∷ s)) = some (prefix ++ (c ∷ s))

abbrev pub measured_line : (ℤ → Text) → Text → Text → Option ℤ → Option Text
measured_line number prefix unit none = none
measured_line number prefix unit (some n) = some (prefix ++ (number n ++ unit))

abbrev if_labelled : Option Text → Text → Text → Text
if_labelled none there absent = absent
if_labelled (some []) there absent = absent
if_labelled (some (c ∷ s)) there absent = there

module _ (p : Printing) where
  abbrev place : ℤ → ℤ → Text
  place latitude longitude = p.fixed4 latitude ++ (codes ", " ++ p.fixed4 longitude)

  abbrev pub critical_lines : Locale → CriticalAlert → List (Option Text)
  critical_lines lang a =
      some (codes "Zone: " ++ zone_text lang a.zone_name)
      ∷ label_line
          (by_lang lang (codes "Gemessen von Bodensonde: ") (codes "Measured by ground sensor: "))
          a.sensor_label
      ∷ measured_line p.number (by_lang lang (codes "Temperatur: ") (codes "Temperature: "))
          (codes " °C") a.temperature_c
      ∷ measured_line p.number (by_lang lang (codes "Bodenfeuchte: ") (codes "Soil moisture: "))
          (codes " %") a.soil_moisture_pct
      ∷ some (
          by_lang lang (codes "Koordinaten: ") (codes "Coordinates: ")
          ++ place a.latitude a.longitude)
      ∷ some (
          if_labelled a.sensor_label
            (by_lang lang (codes "Messzeitpunkt: ") (codes "Measured at: "))
            (by_lang lang (codes "Satellitenaufnahme: ") (codes "Satellite acquisition: "))
          ++ p.time lang a.acquired_at)
      ∷ []

  unfoldable pub critical_alert_text : Locale → CriticalAlert → Message
  unfolding level_text
  critical_alert_text lang a = record {
    title = codes (level_text lang a.level) ++ (codes " — " ++ zone_text lang a.zone_name);
    body = present_lines (critical_lines lang a) ++ ([] ∷ not_a_dispatch lang ∷ []);
  }

  unfoldable pub escalation_text : Locale → Escalation → Message
  unfolding level_text
  escalation_text en a = record {
    title = codes "Unacknowledged alert — " ++ (p.count a.minutes ++ codes " minutes and counting");
    body =
        (codes "Alert #"
          ++ (p.count a.anomaly_id
              ++ (codes " (" ++ (codes (level_text en a.level) ++ codes ") was raised"))))
        ∷ (p.count a.minutes ++ codes " minutes ago and nobody has taken it yet.")
        ∷ []
        ∷ (codes "Zone: " ++ zone_text en a.zone_name)
        ∷ (codes "Coordinates: " ++ place a.latitude a.longitude)
        ∷ []
        ∷ codes "Taking it means pressing ACK on the map."
        ∷ not_a_dispatch en
        ∷ [];
  }
  escalation_text de a = record {
    title = codes "Unquittierter Alarm — seit " ++ (p.count a.minutes ++ codes " Minuten");
    body =
        (codes "Alarm #"
          ++ (p.count a.anomaly_id
              ++ (codes " (" ++ (codes (level_text de a.level) ++ codes ") wurde vor"))))
        ∷ (p.count a.minutes ++ codes " Minuten gemeldet und bisher von niemandem übernommen.")
        ∷ []
        ∷ (codes "Zone: " ++ zone_text de a.zone_name)
        ∷ (codes "Koordinaten: " ++ place a.latitude a.longitude)
        ∷ []
        ∷ codes "Übernehmen heißt: QUITT auf der Karte drücken."
        ∷ not_a_dispatch de
        ∷ [];
  }

  abbrev hours_of_day : WindowAhead → Text
  hours_of_day w = slice 11 16 w.from ++ (codes "–" ++ slice 11 16 w.to)

  unfoldable pub forecast_window_text : Locale → WindowAhead → Message
  forecast_window_text en w = record {
    title = codes "Ignition window expected — " ++ w.zone_name;
    body =
        (p.day en w.from
          ++ (codes ", " ++ (hours_of_day w ++ codes ": both self-ignition criteria are expected")))
        ∷ codes "to be met in this zone at the same time:"
        ∷ []
        ∷ (codes "  temperature up to " ++ (p.number w.peak_temperature_c ++ codes " °C"))
        ∷ (codes "  soil moisture down to " ++ (p.number w.min_soil_moisture_pct ++ codes " %"))
        ∷ []
        ∷ (codes "Lead time: about " ++ (p.count w.hours ++ codes " hours."))
        ∷ []
        ∷ codes "This is a forecast, not a fire. It buys time for a patrol,"
        ∷ codes "a word to visitors, or standby."
        ∷ []
        ∷ not_a_dispatch en
        ∷ [];
  }
  forecast_window_text de w = record {
    title = codes "Zündfenster erwartet — " ++ w.zone_name;
    body =
        (p.day de w.from
          ++ (codes ", "
              ++ (hours_of_day w ++ codes " Uhr werden in dieser Zone beide Bedingungen")))
        ∷ codes "für eine Selbstentzündung zugleich erfüllt:"
        ∷ []
        ∷ (codes "  Temperatur bis " ++ (p.number w.peak_temperature_c ++ codes " °C"))
        ∷ (codes "  Bodenfeuchte bis herunter auf "
            ++ (p.number w.min_soil_moisture_pct ++ codes " %"))
        ∷ []
        ∷ (codes "Vorlauf: rund " ++ (p.count w.hours ++ codes " Stunden."))
        ∷ []
        ∷ codes "Das ist eine Vorhersage, kein Brand. Sie schafft Zeit für Streife,"
        ∷ codes "Hinweise an Waldbesucher oder Bereitschaft."
        ∷ []
        ∷ not_a_dispatch de
        ∷ [];
  }

unfoldable pub stalled_text : Locale → Message
stalled_text en = record {
  title = codes "OpenFireWatch is no longer receiving data";
  body =
      codes "No ingestion cycle has succeeded for several polling intervals."
      ∷ codes "The map still shows the last known picture — but it is no longer"
      ∷ codes "current, and new heat sources are currently not being detected."
      ∷ []
      ∷ codes "Please check that the services are running."
      ∷ [];
}
stalled_text de = record {
  title = codes "OpenFireWatch empfängt keine Daten mehr";
  body =
      codes "Seit mehreren Abfragezyklen ist keine Datenaufnahme mehr gelungen."
      ∷ codes "Die Karte zeigt weiterhin den letzten bekannten Stand — sie ist"
      ∷ codes "aber nicht mehr aktuell, und neue Hitzequellen werden derzeit"
      ∷ codes "nicht erkannt."
      ∷ []
      ∷ codes "Bitte den Betrieb der Dienste prüfen."
      ∷ [];
}

unfoldable pub recovered_text : Locale → Message
recovered_text en = record {
  title = codes "Data ingestion has recovered";
  body = codes "OpenFireWatch is receiving satellite and weather data again." ∷ [];
}
recovered_text de = record {
  title = codes "Datenaufnahme läuft wieder";
  body = codes "OpenFireWatch empfängt wieder Satelliten- und Wetterdaten." ∷ [];
}

unfoldable pub test_text : Locale → Message
test_text en = record {
  title = codes "OpenFireWatch — test message";
  body =
      codes "This is a test message. There is no incident."
      ∷ []
      ∷ codes "If you can read this, notifications are working."
      ∷ [];
}
test_text de = record {
  title = codes "OpenFireWatch — Testmeldung";
  body =
      codes "Dies ist eine Testmeldung. Es liegt kein Ereignis vor."
      ∷ []
      ∷ codes "Wenn Sie das lesen, funktioniert die Benachrichtigung."
      ∷ [];
}
