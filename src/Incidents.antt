-- ===== src/Incidents.antt =====
-- backend/src/incidents/incidents.service.ts: the register of the fires and finds that people enter, and
-- what the system saw and said at the time. PostGIS is a parameter.
pub mod Listing
use open_fire_watch.Base.{
  ℕ, ◌+◌, ◌*◌, String, Bool, true, false, ◌&&◌, ◌||◌, not, Option, none, some, List, [], ◌∷◌, ◌++◌,
  map, length, leb, ltb, ◌==◌, if◌then◌else◌, or_else, keep, any, str_eq, is_some,
}
use open_fire_watch.Base.Int.{leb_ℤ, ltb_ℤ}
use open_fire_watch.Base.Text.{Text}
use open_fire_watch.Sensors.Current.{Point}
use open_fire_watch.Store.{Anomaly, Event, Store, CrewOutcome, confirmed, nothing_found}
use open_fire_watch.Evaluation.Level.{
  is_critical, ignition_temperature_c, critical_soil_moisture_pct,
}
use open_fire_watch.RiskZones.Table.{Database, ZoneRow, ZoneTable}
use open_fire_watch.Backfill.Weather.{WeatherHour}

pub data IncidentKind : Type 0 where
  fire drill observation : IncidentKind

pub record Incident : Type 0 where
  pub id : ℕ
  pub occurred_at : ℕ
  pub geom : Point
  pub kind : IncidentKind
  pub title : String
  pub notes : Option String

pub record RegisterIncident : Type 0 where
  pub occurred_at : ℕ
  pub place : Point
  pub kind : IncidentKind
  pub title : String
  pub notes : Option String

pub record ZoneLabel : Type 0 where
  pub id : ℕ
  pub name_de : Text
  pub name_en : Text

pub record IncidentEntry : Type 0 where
  pub incident : Incident
  pub zone : Option ZoneLabel
  pub in_ignition_window : Option Bool
  pub satellite_seen : Bool
  pub alert_raised : Bool

pub record IncidentSummary : Type 0 where
  pub fires : ℕ
  pub fires_in_window : ℕ
  pub fires_window_applicable : ℕ
  pub fires_seen : ℕ
  pub fires_alerted : ℕ
  pub alerts_confirmed : ℕ
  pub alerts_nothing_found : ℕ

-- The newest row stands first.
pub record IncidentTable : Type 0 where
  pub rows : List Incident
  pub next_id : ℕ

-- What the query joins: the zones, the weather history and the tables of the evaluation.
pub record Sources : Type 0 where
  pub database : Database
  pub zones : ZoneTable
  pub history : List WeatherHour
  pub store : Store
  pub within_2km : Point → Point → Bool

abbrev pub hour_ms : ℕ
hour_ms = 3600000

-- BETWEEN occurred_at - 48 hours AND occurred_at + 12 hours
abbrev pub is_around : ℕ → ℕ → Bool
is_around occurred acquired =
    leb occurred (acquired + 48 * hour_ms) && leb acquired (occurred + 12 * hour_ms)

module _ (src : Sources) (i : Incident) where
  abbrev is_seen : Anomaly → Bool
  is_seen a =
      is_around i.occurred_at a.detection.acquired_at && src.within_2km a.detection.geom i.geom

  unfoldable pub satellite_seen : Bool
  satellite_seen = any is_seen src.store.anomalies

  abbrev same_zone : Option ZoneRow → Option ℕ → Bool
  same_zone (some z) (some id) = id == z.id
  same_zone _ _ = false

  abbrev is_alarm_on : Option ZoneRow → Event → Anomaly → Bool
  is_alarm_on z e a =
      a.id == e.anomaly_id
      && is_critical e.alert_level
      && is_around i.occurred_at a.detection.acquired_at
      && (same_zone z e.zone_id || src.within_2km a.detection.geom i.geom)

  unfoldable pub alert_raised : Option ZoneRow → Bool
  alert_raised z = any (λ e. any (is_alarm_on z e) src.store.anomalies) src.store.events

  -- `bool_or` over the hour of the incident; of no row it is null.
  abbrev is_hour_of : ZoneRow → WeatherHour → Bool
  is_hour_of z h =
      h.zone_id == z.id
      && leb h.observed_at i.occurred_at
      && ltb i.occurred_at (h.observed_at + hour_ms)

  abbrev is_open : WeatherHour → Bool
  is_open h =
      leb_ℤ ignition_temperature_c h.temperature_c
      && ltb_ℤ h.soil_moisture_pct critical_soil_moisture_pct

  abbrev bool_or : List WeatherHour → Option Bool
  bool_or [] = none
  bool_or (h ∷ hs) = some (any is_open (h ∷ hs))

  unfoldable pub in_window : Option ZoneRow → Option Bool
  in_window none = none
  in_window (some z) =
      if str_eq z.hazard_type "white_phosphorus"
      then bool_or (keep (is_hour_of z) src.history)
      else none

  abbrev label_of : Option ZoneRow → Option ZoneLabel
  label_of none = none
  label_of (some z) =
      some (record {
        id = z.id;
        name_de = or_else z.name_de z.name;
        name_en = or_else z.name_en z.name;
      })

  abbrev pub entry : Option ZoneRow → IncidentEntry
  entry z = record {
    incident = i;
    zone = label_of z;
    in_ignition_window = in_window z;
    satellite_seen = satellite_seen;
    alert_raised = alert_raised z;
  }

  -- LEFT JOIN high_risk_zones
  abbrev pub zones_around : List ZoneRow
  zones_around = keep (λ z. z.is_active && src.database.covers z.geom i.geom) src.zones.rows

  abbrev pub joined : List ZoneRow → List IncidentEntry
  joined [] = entry none ∷ []
  joined (z ∷ zs) = map (λ q. entry (some q)) (z ∷ zs)

-- The rows of LIST_SQL, whose order by time is left out.
unfoldable pub entries : Sources → List Incident → List IncidentEntry
entries src [] = []
entries src (i ∷ rest) = joined src i (zones_around src i) ++ entries src rest

abbrev pub is_fire_kind : IncidentKind → Bool
is_fire_kind fire = true
is_fire_kind _ = false

abbrev pub is_fire : IncidentEntry → Bool
is_fire e = is_fire_kind e.incident.kind

abbrev pub is_applicable : IncidentEntry → Bool
is_applicable e = is_some e.in_ignition_window

abbrev has_outcome : CrewOutcome → Event → Bool
has_outcome outcome e = elim e.outcome [
  | none ↦ false
  | some confirmed ↦ elim outcome [ confirmed ↦ true | nothing_found ↦ false ]
  | some nothing_found ↦ elim outcome [ confirmed ↦ false | nothing_found ↦ true ]
]

unfoldable pub summarise : Store → List IncidentEntry → IncidentSummary
summarise s incidents =
    let fires = keep is_fire incidents in
    let applicable = keep is_applicable fires in
    record {
      fires = length fires;
      fires_in_window = length (keep (λ e. or_else e.in_ignition_window false) applicable);
      fires_window_applicable = length applicable;
      fires_seen = length (keep (λ e. e.satellite_seen) fires);
      fires_alerted = length (keep (λ e. e.alert_raised) fires);
      alerts_confirmed = length (keep (has_outcome confirmed) s.events);
      alerts_nothing_found = length (keep (has_outcome nothing_found) s.events);
    }

unfoldable pub list_incidents : Sources → IncidentTable → List IncidentEntry × IncidentSummary
list_incidents src t = let es = entries src t.rows in (es, summarise src.store es)

abbrev pub incident_row : ℕ → RegisterIncident → Incident
incident_row id dto = record {
  id = id;
  occurred_at = dto.occurred_at;
  geom = dto.place;
  kind = dto.kind;
  title = dto.title;
  notes = dto.notes;
}

unfoldable pub create : RegisterIncident → IncidentTable → ℕ × IncidentTable
create dto t =
    (t.next_id, record { rows = incident_row t.next_id dto ∷ t.rows; next_id = t.next_id + 1 })

abbrev pub has_id : ℕ → Incident → Bool
has_id id i = i.id == id

-- `false` is the answer that no row has the id.
unfoldable pub update : ℕ → RegisterIncident → IncidentTable → Bool × IncidentTable
update id dto t = (
  any (has_id id) t.rows,
  record t { rows = map (λ i. if has_id id i then incident_row id dto else i) t.rows },
)

unfoldable pub remove : ℕ → IncidentTable → Bool × IncidentTable
remove id t = (any (has_id id) t.rows, record t { rows = keep (λ i. not (has_id id i)) t.rows })
