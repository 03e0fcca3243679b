-- ===== src/Readiness.antt =====
-- backend/src/conditions/conditions.service.ts: how near each zone is to escalation, and what
-- frontend/src/app/features/conditions/readiness.ts reads off it.
pub mod Gates
use open_fire_watch.Base.{
  ℕ, ◌≡◌, String, Bool, true, false, ◌&&◌, ◌||◌, not, Option, none, some, List, [], ◌∷◌,
  if◌then◌else◌, or_else, is_some,
}
use open_fire_watch.Base.Int.{ℤ, pos, ◌-ℤ◌, ltb_ℤ, leb_ℤ, round_tenth}
use open_fire_watch.Base.Map.{find}
use open_fire_watch.Evaluation.Level.{
  HazardProfile, profile_for, ignition_temperature_c, critical_soil_moisture_pct, units,
}
use open_fire_watch.Evaluation.Decision.{Conditions}

pub data Gate : Type 0 where
  on_weather on_detection : Gate

pub record FireDangerToday : Type 0 where
  pub fwi : ℤ
  pub danger_class : String

pub record Zone : Type 0 where
  pub id : ℕ
  pub name_en : String
  pub name_de : String
  pub hazard_type : String

pub record ZoneReadiness : Type 0 where
  pub zone : Zone
  pub gate : Gate
  pub armed : Bool
  pub temperature_gap_c : Option ℤ
  pub soil_moisture_gap_pct : Option ℤ
  pub fire_danger : Option FireDangerToday

abbrev pub gate_of : HazardProfile → Gate
gate_of profile = if profile.requires_ignition_weather then on_weather else on_detection

abbrev is_on_detection : Gate → Bool
is_on_detection on_weather = false
is_on_detection on_detection = true

-- A zone without a window to track, or without a reading.
abbrev without_gaps : Zone → Option FireDangerToday → Gate → ZoneReadiness
without_gaps zone danger gate = record {
  zone = zone;
  gate = gate;
  armed = is_on_detection gate;
  temperature_gap_c = none;
  soil_moisture_gap_pct = none;
  fire_danger = danger;
}

abbrev with_gaps : Zone → Option FireDangerToday → Gate → ℤ → ℤ → ZoneReadiness
with_gaps zone danger gate temperature_gap soil_gap = record {
  zone = zone;
  gate = gate;
  armed = is_on_detection gate || leb_ℤ temperature_gap (units 0) && ltb_ℤ soil_gap (units 0);
  temperature_gap_c = some temperature_gap;
  soil_moisture_gap_pct = some soil_gap;
  fire_danger = danger;
}

-- The gaps that the panel shows: rounded to a tenth.
abbrev pub temperature_gap : Conditions → ℤ
temperature_gap c = round_tenth (ignition_temperature_c -ℤ c.temperature_c)

abbrev pub soil_gap : Conditions → ℤ
soil_gap c = round_tenth (c.soil_moisture_pct -ℤ critical_soil_moisture_pct)

unfoldable pub assess : Zone → Option Conditions → Option FireDangerToday → ZoneReadiness
assess zone none danger = without_gaps zone danger (gate_of (profile_for zone.hazard_type))
assess zone (some snapshot) danger =
    let profile = profile_for zone.hazard_type in
    if not profile.tracks_ignition_window
    then without_gaps zone danger (gate_of profile)
    else with_gaps zone danger (gate_of profile) (temperature_gap snapshot) (soil_gap snapshot)

-- `isWindowOpen` and `isPartiallyMet` of the panel.
unfoldable pub is_window_open : ZoneReadiness → Bool
is_window_open z =
    if not (is_some z.temperature_gap_c) && not (is_some z.soil_moisture_gap_pct)
    then false
    else leb_ℤ (or_else z.temperature_gap_c (units 1)) (units 0)
      && ltb_ℤ (or_else z.soil_moisture_gap_pct (units 1)) (units 0)

unfoldable pub is_partially_met : ZoneReadiness → Bool
is_partially_met z =
    if not (is_some z.temperature_gap_c) && not (is_some z.soil_moisture_gap_pct)
    then false
    else leb_ℤ (or_else z.temperature_gap_c (units 1)) (units 0)
      || ltb_ℤ (or_else z.soil_moisture_gap_pct (units 1)) (units 0)

-- Which sentence the panel shows.
pub data Sentence : Type 0 where
  on_any_detection detection_window_open armed_now : Sentence
  detection_gap_temp_only detection_gap_soil_only detection_gap_both : Sentence
  gap_temp_only gap_soil_only gap_both : Sentence

abbrev by_gaps : Bool → Bool → Sentence → Sentence → Sentence → Sentence
by_gaps temp_met soil_met temp_only soil_only both =
    if soil_met && not temp_met
    then temp_only
    else if temp_met && not soil_met
    then soil_only
    else both

unfoldable pub readiness_text : ZoneReadiness → Sentence
readiness_text z =
    let temp_met = leb_ℤ (or_else z.temperature_gap_c (units 1)) (units 0) in
    let soil_met = ltb_ℤ (or_else z.soil_moisture_gap_pct (units 1)) (units 0) in
    if is_on_detection z.gate
    then if not (is_some z.temperature_gap_c) && not (is_some z.soil_moisture_gap_pct)
      then on_any_detection
      else if temp_met && soil_met
      then detection_window_open
      else by_gaps temp_met soil_met detection_gap_temp_only detection_gap_soil_only
          detection_gap_both
    else if z.armed
    then armed_now
    else by_gaps temp_met soil_met gap_temp_only gap_soil_only gap_both

-- The worst zone of today, in the order of the map; the first of several that are equally bad.
abbrev worse : Option (ℕ × FireDangerToday) → ℕ × FireDangerToday → ℕ × FireDangerToday
worse none next = next
worse (some best) next = if ltb_ℤ best.1.fwi next.1.fwi then next else best

worst_from :
    Option (ℕ × FireDangerToday) → List (ℕ × FireDangerToday) → Option (ℕ × FireDangerToday)
worst_from best [] = best
worst_from best (z ∷ zs) = worst_from (some (worse best z)) zs

pub record FireDangerSummary : Type 0 where
  pub fwi : ℤ
  pub danger_class : String
  pub zone_id : ℕ
  pub tomorrow : Option FireDangerToday
  pub generated_at : Option String

abbrev summary_of :
    List (ℕ × FireDangerToday)
    → Option String
    → Option (ℕ × FireDangerToday)
    → Option FireDangerSummary
summary_of tomorrow generated_at none = none
summary_of tomorrow generated_at (some (id, figure)) = some (record {
  fwi = figure.fwi;
  danger_class = figure.danger_class;
  zone_id = id;
  tomorrow = find id tomorrow;
  generated_at = generated_at;
})

-- `none` stands for the summary that is not available.
unfoldable pub summarise_danger :
    Bool
    → Option String
    → List (ℕ × FireDangerToday)
    → List (ℕ × FireDangerToday)
    → Option FireDangerSummary
unfolding worst_from
summarise_danger available generated_at today tomorrow =
    if not available then none else summary_of tomorrow generated_at (worst_from none today)
