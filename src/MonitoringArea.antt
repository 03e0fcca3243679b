-- ===== src/MonitoringArea.antt =====
-- workers/src/clients/monitoring-area.ts: which area the cycle polls. Degrees are in billionths,
-- exact. `trim`, `Number` and the printing of a number are parameters, as is PostGIS.
pub mod Cover
pub mod Resolve
use open_fire_watch.Base.{
  ℕ, ◌+◌, ◌*◌, ◌/◌, ◌≡◌, String, Bool, true, false, ◌&&◌, ◌||◌, not, Option, none, some, List, [],
  ◌∷◌, ◌++◌, map, reverse, keep, if◌then◌else◌, or_else, leb,
}
use open_fire_watch.Base.Int.{ℤ, pos, negsuc, ◌+ℤ◌, ◌-ℤ◌, ltb_ℤ, leb_ℤ, max_ℤ, min_ℤ, sub_ℕ}
use open_fire_watch.Base.Json.{Json}
use open_fire_watch.Base.Text.{Text}
use open_fire_watch.Base.Tried.{Tried, ok, thrown}
use open_fire_watch.Sensors.Current.{Point}
use open_fire_watch.Ingestion.Sources.{split}
use open_fire_watch.RiskZones.Geometry.{degrees, minus_degrees}
use open_fire_watch.RiskZones.Table.{ZoneRow}

pub record Box : Type 0 where
  pub west : ℤ
  pub south : ℤ
  pub east : ℤ
  pub north : ℤ

pub data Origin : Type 0 where
  by_override by_zones : Origin

pub record MonitoringArea : Type 0 where
  pub bbox : Text
  pub centroid : Point
  pub origin : Origin

pub data AreaError : Type 0 where
  no_active_zones not_a_box degenerate : AreaError

-- `box_of` is the box of a geometry, and `to_number` answers `none` for what is not finite.
pub record Environment : Type 0 where
  pub firms_area : Option Text
  pub padding : ℤ
  pub trim : Text → Text
  pub to_number : Text → Option ℤ
  pub print : ℤ → Text
  pub box_of : Json → Box

-- `(a + b) / 2`, in the same unit; half a billionth is dropped.
abbrev half : ℤ → ℤ
half (pos n) = pos (n / 2)
half (negsuc n) = sub_ℕ 0 ((n + 1) / 2)

abbrev pub centre : Box → Point
centre b = record { longitude = half (b.west +ℤ b.east); latitude = half (b.south +ℤ b.north) }

-- Four finite numbers.
abbrev pub box_in : List (Option ℤ) → Option Box
box_in (some west ∷ some south ∷ some east ∷ some north ∷ []) =
    some (record { west = west; south = south; east = east; north = north })
box_in _ = none

abbrev checked : Text → Origin → Option Box → Tried AreaError MonitoringArea
checked value origin none = thrown not_a_box
checked value origin (some b) =
    if leb_ℤ b.east b.west || leb_ℤ b.north b.south
    then thrown degenerate
    else ok (record { bbox = value; centroid = centre b; origin = origin })

-- `parseBbox`
unfoldable pub parse_bbox : (Text → Option ℤ) → Text → Origin → Tried AreaError MonitoringArea
unfolding split
parse_bbox to_number value origin = checked value origin (box_in (map to_number (split value)))

unfoldable pub clamp : ℤ → ℤ → ℤ → ℤ
clamp n lo hi = min_ℤ hi (max_ℤ lo n)

-- `Math.round(n * 10_000) / 10_000`: halves go up.
unfoldable pub round4 : ℤ → ℤ
round4 (pos n) = pos ((n + 50000) / 100000 * 100000)
round4 (negsuc n) = sub_ℕ 0 ((n + 50000) / 100000 * 100000)

-- `ST_Extent` of boxes.
unfoldable pub join : Box → Box → Box
join a b = record {
  west = min_ℤ a.west b.west;
  south = min_ℤ a.south b.south;
  east = max_ℤ a.east b.east;
  north = max_ℤ a.north b.north;
}

abbrev pub join_rest : Box → Option Box → Box
join_rest b none = b
join_rest b (some e) = join b e

unfoldable pub extent : List Box → Option Box
unfolding join
extent [] = none
extent (b ∷ bs) = some (join_rest b (extent bs))

abbrev pub active_boxes : (Json → Box) → List ZoneRow → List Box
active_boxes box_of rows = map (λ r. box_of r.geom) (keep (λ r. r.is_active) rows)

-- The text for FIRMS, "west,south,east,north".
abbrev pub joined : (ℤ → Text) → Box → Text
joined print b =
    print b.west ++ (b',' ∷ (print b.south ++ (b',' ∷ (print b.east ++ (b',' ∷ print b.north)))))

abbrev pub padded : ℤ → Box → Box
padded padding e = record {
  west = round4 (clamp (e.west -ℤ padding) (minus_degrees 180) (degrees 180));
  south = round4 (clamp (e.south -ℤ padding) (minus_degrees 90) (degrees 90));
  east = round4 (clamp (e.east +ℤ padding) (minus_degrees 180) (degrees 180));
  north = round4 (clamp (e.north +ℤ padding) (minus_degrees 90) (degrees 90));
}

module _ (env : Environment) where
  abbrev pub from_zones : Option Box → Tried AreaError MonitoringArea
  from_zones none = thrown no_active_zones
  from_zones (some e) = parse_bbox env.to_number (joined env.print (padded env.padding e)) by_zones

  -- `config.FIRMS_AREA?.trim()`, where an empty text counts as absent.
  abbrev pub choose : Text → List ZoneRow → Tried AreaError MonitoringArea
  choose [] rows = from_zones (extent (active_boxes env.box_of rows))
  choose (c ∷ s) rows = parse_bbox env.to_number (c ∷ s) by_override

  unfoldable pub resolve_monitoring_area : List ZoneRow → Tried AreaError MonitoringArea
  unfolding parse_bbox round4 clamp extent
  resolve_monitoring_area rows =
      choose (elim env.firms_area [ none ↦ [] | some area ↦ env.trim area ]) rows

-- A zone and the point that stands for it in a lookup by points.
pub record ZonePoint : Type 0 where
  pub id : ℕ
  pub name_de : Text
  pub name_en : Text
  pub hazard_type : String
  pub place : Point

-- `listZonePoints`, in the order of the ids: the table's newest row stands first.
unfoldable pub list_zone_points : (Json → Point) → List ZoneRow → List ZonePoint
list_zone_points point_on_surface rows = reverse (map zone_point (keep (λ r. r.is_active) rows))
  where
    zone_point : ZoneRow → ZonePoint
    zone_point row = record {
      id = row.id;
      name_de = or_else row.name_de row.name;
      name_en = or_else row.name_en row.name;
      hazard_type = row.hazard_type;
      place = point_on_surface row.geom;
    }
