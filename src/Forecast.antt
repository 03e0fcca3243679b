-- ===== src/Forecast.antt =====
-- backend/src/forecast/forecast.service.ts: the ignition rule, run over the forecast. The clock and
-- the language's `Date.parse` are parameters; times are in milliseconds.
pub mod Windows
pub mod Refresh
use open_fire_watch.Base.{
  ℕ, ◌+◌, ◌-◌, ◌/◌, ◌≡◌, String, Bool, true, false, ◌&&◌, not, Option, none, some, List, [], ◌∷◌,
  if◌then◌else◌, first,
}
use open_fire_watch.Base.Int.{ℤ, ltb_ℤ, leb_ℤ, max_ℤ, min_ℤ}
use open_fire_watch.Evaluation.Level.{
  profile_for, ignition_temperature_c, critical_soil_moisture_pct,
}

pub record Hour : Type 0 where
  pub at : String
  pub temperature_c : ℤ
  pub soil_moisture_pct : ℤ

pub record IgnitionWindow : Type 0 where
  pub from : String
  pub to : String
  pub peak_temperature_c : ℤ
  pub min_soil_moisture_pct : ℤ

abbrev pub qualifies : Hour → Bool
qualifies h =
    leb_ℤ ignition_temperature_c h.temperature_c
    && ltb_ℤ h.soil_moisture_pct critical_soil_moisture_pct

-- A qualifying hour opens a window, or extends the one that is open.
extended : Option IgnitionWindow → Hour → IgnitionWindow
extended none h = record {
  from = h.at;
  to = h.at;
  peak_temperature_c = h.temperature_c;
  min_soil_moisture_pct = h.soil_moisture_pct;
}
extended (some w) h = record w {
  to = h.at;
  peak_temperature_c = max_ℤ w.peak_temperature_c h.temperature_c;
  min_soil_moisture_pct = min_ℤ w.min_soil_moisture_pct h.soil_moisture_pct;
}

abbrev closed : Option IgnitionWindow → List IgnitionWindow → List IgnitionWindow
closed none ws = ws
closed (some w) ws = w ∷ ws

-- The loop over the hours, with the window that is open.
windows_from : Option IgnitionWindow → List Hour → List IgnitionWindow
unfolding extended
windows_from is_open [] = closed is_open []
windows_from is_open (h ∷ hs) = elim (qualifies h) [
  | true ↦ windows_from (some (extended is_open h)) hs
  | false ↦ closed is_open (windows_from none hs)
]

unfoldable pub find_windows : List Hour → List IgnitionWindow
unfolding windows_from
find_windows hours = windows_from none hours

pub record RawZone : Type 0 where
  pub zone_id : ℕ
  pub name_de : String
  pub name_en : String
  pub hazard_type : String
  pub hours : List Hour

-- A zone's name and type as the database has them now.
pub record LiveZone : Type 0 where
  pub name_de : String
  pub name_en : String
  pub hazard_type : String

pub record ZoneForecast : Type 0 where
  pub zone_id : ℕ
  pub name_de : String
  pub name_en : String
  pub hazard_type : String
  pub weather_gated : Bool
  pub windows : List IgnitionWindow
  pub hours_until_next_window : Option ℕ
  pub soil_already_dry : Bool

abbrev refreshed : RawZone → Option LiveZone → RawZone
refreshed zone none = zone
refreshed zone (some live) = record zone {
  name_de = live.name_de;
  name_en = live.name_en;
  hazard_type = live.hazard_type;
}

abbrev is_dry : Option Hour → Bool
is_dry none = false
is_dry (some h) = ltb_ℤ h.soil_moisture_pct critical_soil_moisture_pct

-- `Math.max(0, Math.round(… / 3_600_000))`: what lies in the past counts as 0.
abbrev hours_until : (String → ℕ) → ℕ → Option IgnitionWindow → Option ℕ
hours_until date_parse now none = none
hours_until date_parse now (some w) = some ((date_parse w.from - now + 1800000) / 3600000)

unfoldable pub evaluate : (String → ℕ) → ℕ → RawZone → Option LiveZone → ZoneForecast
unfolding find_windows
evaluate date_parse now snapshot_zone live =
    let zone = refreshed snapshot_zone live in
    let gated = (profile_for zone.hazard_type).tracks_ignition_window in
    let windows : List IgnitionWindow = if gated then find_windows zone.hours else [] in
    record {
      zone_id = zone.zone_id;
      name_de = zone.name_de;
      name_en = zone.name_en;
      hazard_type = zone.hazard_type;
      weather_gated = gated;
      windows = windows;
      hours_until_next_window = if gated then hours_until date_parse now (first windows) else none;
      soil_already_dry = if gated then is_dry (first zone.hours) else false;
    }
