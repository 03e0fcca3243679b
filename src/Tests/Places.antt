-- ===== src/Tests/Places.antt =====
-- The polled box around one zone, and the seasons of that zone.
use open_fire_watch.Base.{
  ℕ, ◌+◌, ◌/◌, ◌-◌, ◌==◌, if◌then◌else◌, ap, ◌≡◌, inl, refl, true, false, Option, none, some, List,
  [], ◌∷◌, ◌++◌, length, keep, arith,
}
use open_fire_watch.Base.Int.{ℤ, pos, negsuc, ◌-ℤ◌, min_ℤ, max_ℤ, ltb_ℤ}
use open_fire_watch.Base.Json.{null}
use open_fire_watch.Base.Text.{Text, codes}
use open_fire_watch.Base.Tried.{ok}
use open_fire_watch.Backfill.Weather.{WeatherHour}
use open_fire_watch.Evaluation.Level.{units, profile_for}
use open_fire_watch.RiskZones.Table.{ZoneRow}
use open_fire_watch.MonitoringArea.{
  Box, MonitoringArea, Environment, padded, round4, clamp, resolve_monitoring_area,
}
use open_fire_watch.MonitoringArea.Cover.{IsOnGlobe}
use open_fire_watch.MonitoringArea.Resolve.{has_comma, Polls, resolve_monitoring_area-Polls}
use open_fire_watch.History.{Calendar, qualifies, window_days, for_zone}
use open_fire_watch.History.Sorted.{Ascends}
use open_fire_watch.History.Years.{AddUp, for_zone-AddUp}
use open_fire_watch.History.Csv.{semicolon, csv_field}
use open_fire_watch.History.Csv.Fields.{read_field, read_field-csv_field}

-- A number written as its sign and one more unit, beyond the comma.
abbrev print : ℤ → Text
print (pos n) = b'+' ∷ (n + 100) ∷ []
print (negsuc n) = b'-' ∷ (n + 100) ∷ []

abbrev to_number : Text → Option ℤ
to_number (sign ∷ n ∷ []) = if sign == b'+' then some (pos (n - 100)) else some (negsuc (n - 100))
to_number _ = none

to_number-print : (z : ℤ) → to_number (print z) ≡ some z
to_number-print (pos n) = ap (λ k. some (pos k)) (omega arith)
to_number-print (negsuc n) = ap (λ k. some (negsuc k)) (omega arith)

has_comma-print : (z : ℤ) → has_comma (print z) ≡ false
has_comma-print (pos n) = ground arith
has_comma-print (negsuc n) = ground arith

abbrev heath_box : Box
heath_box = record {
  west = pos 16000000000;
  south = pos 47700000000;
  east = pos 16100000000;
  north = pos 47800000000;
}

abbrev watched : Environment
watched = record {
  firms_area = none;
  padding = pos 50000000;
  trim = λ t. t;
  to_number = to_number;
  print = print;
  box_of = λ geometry. heath_box;
}

abbrev heath : ZoneRow
heath = record {
  id = 1;
  name = codes "heath";
  name_en = none;
  name_de = some (codes "Heide");
  hazard_type = "white_phosphorus";
  geom = null;
  is_active = true;
}

abbrev zones : List ZoneRow
zones = heath ∷ []

heath_box-IsOnGlobe : IsOnGlobe heath_box
heath_box-IsOnGlobe = record {
  west = omega arith;
  width = omega arith;
  east = omega arith;
  south = omega arith;
  height = omega arith;
  north = omega arith;
}

resolve_monitoring_area-Polls_example :
    (a : MonitoringArea) × (resolve_monitoring_area watched zones ≡ ok a)
    × Polls to_number heath_box a
resolve_monitoring_area-Polls_example =
    resolve_monitoring_area-Polls watched zones heath refl to_number-print has_comma-print
      (omega arith) (heath_box-IsOnGlobe, tt) refl (inl refl)

-- Without padding the fourth decimal cuts a zone off.
abbrev narrow_box : Box
narrow_box = record heath_box { west = pos 16000060000 }

padded_cuts : ltb_ℤ narrow_box.west (padded (pos 0) narrow_box).west ≡ true
unfolding round4 clamp min_ℤ max_ℤ ◌-ℤ◌
padded_cuts = refl

abbrev hot_hour : ℕ → WeatherHour
hot_hour t = record {
  zone_id = 1;
  observed_at = t;
  temperature_c = units 33;
  soil_moisture_pct = units 12;
}

abbrev weather : List WeatherHour
weather = hot_hour 1 ∷ hot_hour 2 ∷ hot_hour 25 ∷ []

-- Days of 24 units, in months of 30 days.
abbrev calendar : Calendar
calendar = record {
  local_day = λ t. t / 24;
  year_of = λ d. 2024 + d / 360;
  month_of = λ d. d / 30 + 1;
}

for_zone-AddUp_example :
    AddUp
      (length (keep (qualifies 1) weather))
      (length (window_days calendar 1 weather))
      (for_zone calendar 2026 (λ z. "archive" ∷ []) weather heath).years
    × Ascends (λ r. r.day) (window_days calendar 1 weather)
unfolding profile_for
for_zone-AddUp_example = for_zone-AddUp calendar 2026 (λ z. "archive" ∷ []) weather heath refl

read_field-csv_field_example :
    read_field (csv_field (codes "Heide; \"Nord\"") ++ (semicolon ∷ codes "2024"))
    ≡ (codes "Heide; \"Nord\"", semicolon ∷ codes "2024")
read_field-csv_field_example =
    read_field-csv_field (codes "Heide; \"Nord\"") semicolon (codes "2024") refl
