-- ===== src/RiskZones/Table.antt =====
-- backend/src/risk-zones/risk-zone.service.ts: the table `high_risk_zones` and the operations of
-- `RiskZoneService` on it. What PostGIS says of a geometry, and the error of a broken uniqueness
-- constraint, are parameters; the table keeps a geometry as the GeoJSON that it was given.
pub mod Retired
pub mod Created
pub mod Writes
use open_fire_watch.Base.{
  ℕ, ◌+◌, String, Bool, true, false, ◌&&◌, ◌||◌, not, Option, none, some, List, [], ◌∷◌, ◌++◌, map,
  leb, ◌==◌, if◌then◌else◌, or_else, keep, any, str_eq,
}
use open_fire_watch.Base.Text.{Text, text_eq, mentions}
use open_fire_watch.Base.Json.{Json}
use open_fire_watch.Sensors.Current.{Point}
use open_fire_watch.Store.{RiskZone}
use open_fire_watch.RiskZones.Slug.{slugify}
use open_fire_watch.RiskZones.Keys.{reserve_key}

pub record ZoneRow : Type 0 where
  pub id : ℕ
  pub name : Text
  pub name_en : Option Text
  pub name_de : Option Text
  pub hazard_type : String
  pub geom : Json
  pub is_active : Bool

-- The newest row stands first; `next_id` is the next value of the identity column. A value that a
-- refused insertion uses up is left out.
pub record ZoneTable : Type 0 where
  pub rows : List ZoneRow
  pub next_id : ℕ

pub record DbError : Type 0 where
  pub message : Text
  pub code : Option String

pub record Database : Type 0 where
  pub geometry_error : Json → Option DbError
  pub unique_violation : DbError
  pub covers : Json → Point → Bool

pub record ZoneInput : Type 0 where
  pub name_en : Text
  pub name_de : Text
  pub hazard_type : String
  pub geometry : Json

pub data Failure : Type 0 where
  not_found rejected_geometry name_conflict unexpected : Failure

-- What a call answers; `endless` is a call that does not return.
pub data Answer : Type 0 where
  created : ℕ → Answer
  done endless : Answer
  failed : Failure → Answer

-- `/GeomFromGeoJSON|Geometry type|invalid|SRID/i`, in small letters
abbrev geometry_words : List Text
geometry_words =
    (b'g' ∷ b'e' ∷ b'o' ∷ b'm' ∷ b'f' ∷ b'r' ∷ b'o' ∷ b'm' ∷ b'g' ∷ b'e' ∷ b'o' ∷ b'j' ∷ b's' ∷ b'o'
      ∷ b'n' ∷ [])
    ∷ (b'g' ∷ b'e' ∷ b'o' ∷ b'm' ∷ b'e' ∷ b't' ∷ b'r' ∷ b'y' ∷ b' ' ∷ b't' ∷ b'y' ∷ b'p' ∷ b'e'
        ∷ [])
    ∷ (b'i' ∷ b'n' ∷ b'v' ∷ b'a' ∷ b'l' ∷ b'i' ∷ b'd' ∷ [])
    ∷ (b's' ∷ b'r' ∷ b'i' ∷ b'd' ∷ [])
    ∷ []

abbrev has_code : String → DbError → Bool
has_code code e = elim e.code [ none ↦ false | some c ↦ str_eq c code ]

unfoldable pub translate_db_error : DbError → Failure
unfolding mentions
translate_db_error e =
    if any (λ word. mentions word (e.message)) geometry_words || has_code "22023" e
    then rejected_geometry
    else if has_code "23505" e
    then name_conflict
    else unexpected

module _ (db : Database) where
  abbrev pub fail_with : DbError → ZoneTable → Answer × ZoneTable
  fail_with e t = (failed (translate_db_error e), t)

  abbrev pub new_row : ℕ → Text → ZoneInput → ZoneRow
  new_row id key input = record {
    id = id;
    name = key;
    name_en = some input.name_en;
    name_de = some input.name_de;
    hazard_type = input.hazard_type;
    geom = input.geometry;
    is_active = true;
  }

  -- The INSERT of `create`, with UNIQUE (name).
  abbrev pub insert_accepted : Text → ZoneInput → ZoneTable → Option DbError → Answer × ZoneTable
  insert_accepted key input t (some e) = fail_with e t
  insert_accepted key input t none =
      if any (λ r. text_eq key r.name) t.rows then fail_with db.unique_violation t else (
        created t.next_id,
        record { rows = new_row t.next_id key input ∷ t.rows; next_id = t.next_id + 1 },
      )

  unfoldable pub insert_zone : Text → ZoneInput → ZoneTable → Answer × ZoneTable
  insert_zone key input t = insert_accepted key input t (db.geometry_error input.geometry)

  -- `create`: the names that it reads for its key, and the table at its insertion.
  abbrev pub insert_reserved : Option Text → ZoneInput → ZoneTable → Answer × ZoneTable
  insert_reserved none input t = (endless, t)
  insert_reserved (some key) input t = insert_zone key input t

  unfoldable pub create :
      (ℕ → Text)
      → (Text → Text)
      → (Text → Text)
      → List Text
      → ZoneInput
      → ZoneTable
      → Answer × ZoneTable
  create show lower nfd names input t =
      insert_reserved (reserve_key show (slugify lower nfd input.name_en) names) input t

  abbrev pub edited : ZoneInput → ZoneRow → ZoneRow
  edited input r = record r {
    name_en = some input.name_en;
    name_de = some input.name_de;
    hazard_type = input.hazard_type;
    geom = input.geometry;
  }

  -- UPDATE … WHERE, on the rows that a test selects
  abbrev pub change : (ZoneRow → Bool) → (ZoneRow → ZoneRow) → ZoneTable → ZoneTable
  change test f t = record t { rows = map (λ r. if test r then f r else r) t.rows }

  abbrev pub is_row : ℕ → ZoneRow → Bool
  is_row id r = r.id == id

  abbrev pub update_accepted : ℕ → ZoneInput → ZoneTable → Option DbError → Answer × ZoneTable
  update_accepted id input t (some e) = fail_with e t
  update_accepted id input t none =
      if any (is_row id) t.rows
      then (done, change (is_row id) (edited input) t)
      else (failed not_found, t)

  -- The database evaluates the constant geometry when it plans the statement, before it looks for rows.
  unfoldable pub update : ℕ → ZoneInput → ZoneTable → Answer × ZoneTable
  update id input t = update_accepted id input t (db.geometry_error input.geometry)

  abbrev pub is_active_row : ℕ → ZoneRow → Bool
  is_active_row id r = r.id == id && r.is_active

  abbrev pub retired : ZoneRow → ZoneRow
  retired r = record r { is_active = false }

  unfoldable pub deactivate : ℕ → ZoneTable → Answer × ZoneTable
  deactivate id t =
      if any (is_active_row id) t.rows
      then (done, change (is_active_row id) retired t)
      else (failed not_found, t)

  -- INSERT … ON CONFLICT (name) DO UPDATE, of the labels alone; an error is logged.
  abbrev pub relabelled : ZoneInput → ZoneRow → ZoneRow
  relabelled input r = record r { name_en = some input.name_en; name_de = some input.name_de }

  abbrev pub seed_accepted : Text → ZoneInput → ZoneTable → Option DbError → ZoneTable
  seed_accepted key input t (some e) = t
  seed_accepted key input t none =
      if any (λ r. text_eq key r.name) t.rows
      then change (λ r. text_eq key r.name) (relabelled input) t
      else record { rows = new_row t.next_id key input ∷ t.rows; next_id = t.next_id + 1 }

  unfoldable pub seed_zone : Text → ZoneInput → ZoneTable → ZoneTable
  seed_zone key input t = seed_accepted key input t (db.geometry_error input.geometry)

  -- A row of the answer; a label that is missing falls back to the key.
  abbrev pub zone_of_row : ZoneRow → RiskZone
  zone_of_row r = record {
    id = r.id;
    name_en = or_else r.name_en r.name;
    name_de = or_else r.name_de r.name;
    hazard_type = r.hazard_type;
  }

  unfoldable pub find_zones_containing : ZoneTable → Point → List RiskZone
  find_zones_containing t p = map zone_of_row (keep (λ r. r.is_active && db.covers r.geom p) t.rows)
