-- ===== src/Store.antt =====
-- The tables and the bus that the services share: `thermal_anomalies` (deploy/db/init.sql) with its
-- unique constraint, `validated_events`, and the Redis channel of the alerts.
pub mod Rows
use open_fire_watch.Base.{
  ℕ, ◌+◌, String, Bool, true, false, ◌&&◌, Option, none, some, List, [], ◌∷◌, ◌==◌, if◌then◌else◌,
  any, str_eq,
}
use open_fire_watch.Base.Int.{ℤ, eqb_ℤ}
use open_fire_watch.Evaluation.Level.{AlertLevel}
use open_fire_watch.Base.Text.{Text}
use open_fire_watch.Evaluation.Decision.{Conditions, SmoulderingEvidence}
use open_fire_watch.Sensors.Current.{Point}

pub record Detection : Type 0 where
  pub source : String
  pub satellite : Option String
  pub geom : Point
  pub acquired_at : ℕ
  pub brightness_k : Option ℤ
  pub frp_mw : Option ℤ
  pub confidence : Option Text

-- A row of `thermal_anomalies`, with the two rule inputs of its weather column.
pub record Anomaly : Type 0 where
  pub id : ℕ
  pub detection : Detection
  pub weather : Conditions

pub data CrewOutcome : Type 0 where
  confirmed nothing_found : CrewOutcome

pub record Event : Type 0 where
  pub anomaly_id : ℕ
  pub zone_id : Option ℕ
  pub alert_level : AlertLevel
  pub temperature_c : ℤ
  pub soil_moisture_pct : ℤ
  pub backfilled : Bool
  pub evaluated_at : ℕ
  pub acknowledged_at : Option ℕ
  pub outcome : Option CrewOutcome
  pub outcome_at : Option ℕ

pub record RiskZone : Type 0 where
  pub id : ℕ
  pub name_en : Text
  pub name_de : Text
  pub hazard_type : String

pub record AlertPayload : Type 0 where
  pub id : ℕ
  pub geom : Point
  pub acquired_at : ℕ
  pub level : AlertLevel
  pub zone : Option RiskZone
  pub weather : Conditions
  pub smouldering : Option SmoulderingEvidence
  pub sensor_device : Option String

-- The newest row stands first; `next_id` is the next value of the identity column.
pub record Store : Type 0 where
  pub anomalies : List Anomaly
  pub events : List Event
  pub published : List AlertPayload
  pub next_id : ℕ

abbrev pub point_eq : Point → Point → Bool
point_eq p q = eqb_ℤ p.longitude q.longitude && eqb_ℤ p.latitude q.latitude

-- UNIQUE (source, geom, acquired_at)
unfoldable pub conflicts : Detection → Anomaly → Bool
conflicts d a =
    str_eq a.detection.source d.source
    && point_eq a.detection.geom d.geom
    && a.detection.acquired_at == d.acquired_at

-- INSERT … ON CONFLICT DO NOTHING RETURNING id
unfoldable pub insert_anomaly : Detection → Conditions → Store → Option (ℕ × Store)
insert_anomaly d weather s =
    if any (conflicts d) s.anomalies
    then none
    else some (
      s.next_id,
      record s {
        anomalies = record { id = s.next_id; detection = d; weather = weather } ∷ s.anomalies;
        next_id = s.next_id + 1;
      },
    )

unfoldable pub insert_event : Event → Store → Store
insert_event e s = record s { events = e ∷ s.events }

unfoldable pub publish : AlertPayload → Store → Store
publish p s = record s { published = p ∷ s.published }
