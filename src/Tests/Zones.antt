-- ===== src/Tests/Zones.antt =====
-- A table of one zone, its retirement, and an outline drawn on the map.
use open_fire_watch.Base.{
  ℕ, ◌*◌, ◌≡◌, ◌≢◌, refl, true, false, none, some, List, [], ◌∷◌, any, arith,
}
use open_fire_watch.Base.Int.{pos}
use open_fire_watch.Base.Text.{Text, text_eq}
use open_fire_watch.Base.Json.{null}
use open_fire_watch.Evaluation.Level.{info, units}
use open_fire_watch.Evaluation.Decision.{Decision}
use open_fire_watch.Evaluation.Service.{Environment, event_for}
use open_fire_watch.RiskZones.Table.{
  ZoneTable, Database, ZoneInput, created, new_row, create, deactivate, find_zones_containing,
}
use open_fire_watch.RiskZones.Table.Created.{create-adds}
use open_fire_watch.RiskZones.Table.Writes.{Write, insertion, edit, writes}
use open_fire_watch.RiskZones.Table.Retired.{
  IsWellFormed, writes-IsWellFormed, event_for-deactivate,
}
use open_fire_watch.Incidents.{Incident, fire, Sources}
use open_fire_watch.RiskZones.Geometry.{validate}
use open_fire_watch.RiskZones.Geometry.Outline.{polygon_json, completed-validate}
use open_fire_watch.Tests.Reports.{here, report_of}
use open_fire_watch.ZoneDraw.{
  Position, gestures, gesture, Gesture, begin, click, double_click, finish, on_click,
  on_double_click,
}

-- A number written with one digit of its own.
abbrev digit : ℕ → Text
digit n = n ∷ []

digit_injective : (m n : ℕ) → digit m ≡ digit n → m ≡ n
digit_injective m n h = cc

abbrev heath : Text
heath = b'h' ∷ b'e' ∷ []

abbrev heath_2 : Text
heath_2 = b'h' ∷ b'e' ∷ b'-' ∷ 2 ∷ []

abbrev database : Database
database = record {
  geometry_error = λ g. none;
  unique_violation = record { message = []; code = some "23505" };
  covers = λ g p. true;
}

abbrev heath_input : ZoneInput
heath_input = record { name_en = heath; name_de = heath; hazard_type = "wildfire"; geometry = null }

abbrev one_zone : ZoneTable
one_zone = record { rows = new_row database 1 heath heath_input ∷ []; next_id = 2 }

one_zone-IsWellFormed : IsWellFormed one_zone
one_zone-IsWellFormed = ((refl, tt), (omega arith, tt))

create-adds_example :
    (key : Text) × (any (text_eq key) (heath ∷ []) ≡ false)
    × (create database digit (λ s. s) (λ s. s) (heath ∷ []) heath_input one_zone ≡ (
      created 2,
      record {
        rows = new_row database 2 key heath_input ∷ new_row database 1 heath heath_input ∷ [];
        next_id = 3;
      },
    ))
create-adds_example =
    create-adds digit (λ s. s) (λ s. s) digit_injective database heath_input one_zone refl

abbrev two_writes : List Write
two_writes = insertion heath_2 heath_input ∷ insertion heath heath_input ∷ edit 1 heath_input ∷ []

writes-IsWellFormed_example : IsWellFormed (writes database two_writes one_zone)
writes-IsWellFormed_example = writes-IsWellFormed database two_writes one_zone one_zone-IsWellFormed

-- The service at work while zone 1 is retired and relabelled.
abbrev after_retirement : Environment
after_retirement = record here {
  zones_containing =
      find_zones_containing database
        (writes database two_writes (deactivate database 1 one_zone).1);
}

abbrev verdict : Decision
verdict = record {
  level = info;
  withheld_because = none;
  conditions = record { temperature_c = units 20; soil_moisture_pct = units 40 };
  ground_source = "";
}

event_for-deactivate_example :
    (event_for after_retirement (report_of none) 7 verdict).zone_id ≢ some 1
unfolding deactivate
event_for-deactivate_example =
    event_for-deactivate database 1 one_zone two_writes after_retirement (report_of none) 7 verdict
      one_zone-IsWellFormed refl refl

-- Three clicks and a double click.
abbrev place_at : ℕ → ℕ → Position
place_at lon lat = record { longitude = pos (lon * 1000000000); latitude = pos (lat * 1000000000) }

abbrev drawn : List Gesture
drawn =
    begin none
    ∷ click (place_at 13 52)
    ∷ click (place_at 14 52)
    ∷ click (place_at 14 53)
    ∷ double_click
    ∷ []

abbrev triangle : List Position
triangle = place_at 13 52 ∷ place_at 14 52 ∷ place_at 14 53 ∷ place_at 13 52 ∷ []

completed-validate_example : validate (polygon_json triangle) ≡ none
unfolding gestures gesture on_click on_double_click finish
completed-validate_example =
    completed-validate drawn triangle refl (refl, (refl, (refl, (refl, tt))))

-- A fire where the same two zones overlap.
abbrev grass_fire : Incident
grass_fire = record {
  id = 1;
  occurred_at = 5000;
  geom = record { longitude = pos 13500000; latitude = pos 52100000 };
  kind = fire;
  title = "Grass";
  notes = none;
}

abbrev two_zones : Sources
two_zones = record {
  database = database;
  zones = record {
    rows = new_row database 2 heath_2 heath_input ∷ new_row database 1 heath heath_input ∷ [];
    next_id = 3;
  };
  history = [];
  store = record { anomalies = []; events = []; published = []; next_id = 1 };
  within_2km = λ p q. false;
}
