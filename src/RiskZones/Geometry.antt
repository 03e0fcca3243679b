-- ===== src/RiskZones/Geometry.antt =====
-- backend/src/risk-zones/risk-zone.dto.ts: `IsGeoJsonPolygon`, what the API accepts as the outline of
-- a zone. Coordinates are in billionths of a degree.
pub mod Outline
use open_fire_watch.Base.{
  ℕ, suc, ◌*◌, String, Bool, true, false, ◌&&◌, ◌||◌, not, Option, none, some, ltb, if◌then◌else◌,
  str_eq,
}
use open_fire_watch.Base.Int.{ℤ, pos, negsuc, ltb_ℤ, eqb_ℤ, sub_ℕ}
use open_fire_watch.Base.Json.{Json, Items, Fields, get, number, string, array, nil, cons}

-- The sentence that the caller is told.
pub data Reason : Type 0 where
  not_a_polygon no_ring short_ring not_a_position out_of_bounds not_closed : Reason

abbrev pub degrees : ℕ → ℤ
degrees n = pos (n * 1000000000)

abbrev pub minus_degrees : ℕ → ℤ
minus_degrees n = sub_ℕ 0 (n * 1000000000)

abbrev pub in_bounds : ℤ → ℤ → Bool
in_bounds lon lat = not (
    ltb_ℤ lon (minus_degrees 180)
    || ltb_ℤ (degrees 180) lon
    || ltb_ℤ lat (minus_degrees 90)
    || ltb_ℤ (degrees 90) lat)

abbrev pub check_position : Json → Option Reason
check_position (array (cons (number lon) (cons (number lat) rest))) =
    if in_bounds lon lat then none else some out_of_bounds
check_position _ = some not_a_position

-- The first reason, if there is one.
abbrev pub or_reason : Option Reason → Option Reason → Option Reason
or_reason (some r) later = some r
or_reason none later = later

unfoldable pub check_positions : Items → Option Reason
check_positions nil = none
check_positions (cons p ps) = or_reason (check_position p) (check_positions ps)

abbrev pub size : Items → ℕ
size nil = 0
size (cons x xs) = suc (size xs)

abbrev pub last_of : Json → Items → Json
last_of x nil = x
last_of x (cons y ys) = last_of y ys

-- `first[0] !== last[0] || first[1] !== last[1]`, on checked positions
abbrev pub same_position : Json → Json → Bool
same_position (array (cons (number x) (cons (number y) r)))
      (array (cons (number u) (cons (number v) s))) =
    eqb_ℤ x u && eqb_ℤ y v
same_position _ _ = false

abbrev pub check_closed : Items → Option Reason
check_closed nil = some not_closed
check_closed (cons p ps) = if same_position p (last_of p ps) then none else some not_closed

abbrev pub check_ring : Json → Option Reason
check_ring (array ps) =
    if ltb (size ps) 4 then some short_ring else or_reason (check_positions ps) (check_closed ps)
check_ring _ = some short_ring

abbrev pub check_rings : Items → Option Reason
check_rings nil = none
check_rings (cons r rs) = or_reason (check_ring r) (check_rings rs)

abbrev pub check_coordinates : Option Json → Option Reason
check_coordinates (some (array (cons r rs))) = check_rings (cons r rs)
check_coordinates _ = some no_ring

abbrev pub is_polygon : Option Json → Bool
is_polygon (some (string t)) = str_eq t "Polygon"
is_polygon _ = false

-- `validate`: no reason, or the one that `defaultMessage` gives.
unfoldable pub validate : Json → Option Reason
unfolding check_positions
validate value =
    if is_polygon (get "type" value)
    then check_coordinates (get "coordinates" value)
    else some not_a_polygon
