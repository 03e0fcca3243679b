-- ===== src/History/Csv.antt =====
-- backend/src/history/history.service.ts, `ignitionDaysCsv`: the table for a spreadsheet. How a
-- number and a day are printed is a parameter.
pub mod Fields
use open_fire_watch.Base.{
  ℕ, ◌≡◌, refl, ◌∙◌, ap, Bool, true, false, ◌||◌, List, [], ◌∷◌, ◌++◌, map, reverse, keep, any,
  ◌==◌, or_else, if◌then◌else◌, arith, Bool-cases, inl, inr,
}
use open_fire_watch.Base.Text.{Text, codes}
use open_fire_watch.Backfill.Weather.{WeatherHour}
use open_fire_watch.Evaluation.Level.{profile_for}
use open_fire_watch.RiskZones.Table.{ZoneRow}
use open_fire_watch.History.{Calendar, DayRow, window_days}

abbrev pub quote : ℕ
quote = b'"'

abbrev pub semicolon : ℕ
semicolon = b';'

-- `/[";\r\n]/`
abbrev pub is_special : ℕ → Bool
is_special c = c == quote || c == semicolon || c == 13 || c == 10

-- `value.replace(/"/g, '""')`
unfoldable pub doubled : Text → Text
doubled [] = []
doubled (c ∷ s) = let rest = doubled s in if c == quote then quote ∷ quote ∷ rest else c ∷ rest

unfoldable pub csv_field : Text → Text
unfolding doubled
csv_field value = if any is_special value then quote ∷ (doubled value ++ (quote ∷ [])) else value

abbrev row_end : Text
row_end = 13 ∷ 10 ∷ []

abbrev join_by : Text → List Text → Text
join_by separator [] = []
join_by separator (t ∷ []) = t
join_by separator (t ∷ u ∷ us) = t ++ (separator ++ join_by separator (u ∷ us))

module _ (calendar : Calendar) (print day_text : ℕ → Text) (history : List WeatherHour) where
  abbrev line : ZoneRow → DayRow → Text
  line zone row = join_by (semicolon ∷ []) (
      print zone.id
      ∷ csv_field (or_else zone.name_de zone.name)
      ∷ day_text row.day
      ∷ print row.hours
      ∷ [])

  unfoldable pub zone_lines : List ZoneRow → List Text
  unfolding window_days csv_field
  zone_lines [] = []
  zone_lines (zone ∷ zones) =
      let rest = zone_lines zones in
      if (profile_for zone.hazard_type).tracks_ignition_window
      then map (line zone) (window_days calendar zone.id history) ++ rest
      else rest

  unfoldable pub ignition_days_csv : List ZoneRow → Text
  unfolding zone_lines
  ignition_days_csv rows =
      join_by row_end (
        codes "zone_id;zone;datum;stunden_im_fenster"
        ∷ zone_lines (reverse (keep (λ r. r.is_active) rows)))
      ++ row_end
