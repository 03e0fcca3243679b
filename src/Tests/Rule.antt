-- ===== src/Tests/Rule.antt =====
-- The rule of alert-decision.ts, on a contaminated forest on a hot and dry day.
use open_fire_watch.Base.{◌≡◌, false, Option, none, some}
use open_fire_watch.Base.Int.{ℤ}
use open_fire_watch.Evaluation.Level.{units, is_critical}
use open_fire_watch.Base.Text.{Text}
use open_fire_watch.Evaluation.Credible.{is_credible_detection}
use open_fire_watch.Evaluation.Decision.{
  Conditions, LocalReading, DecisionInput, window_open, decide,
}
use open_fire_watch.Evaluation.Decision.Laws.{pages_for, decide-pages}

-- No text that is used here reads as a number.
abbrev pub no_number : Text → Option ℤ
no_number text = none

abbrev pub hot : Conditions
hot = record { temperature_c = units 31; soil_moisture_pct = units 15 }

abbrev hotter : Conditions
hotter = record { temperature_c = units 36; soil_moisture_pct = units 9 }

abbrev cool : Conditions
cool = record { temperature_c = units 18; soil_moisture_pct = units 40 }

abbrev forest_input : DecisionInput
forest_input = record {
  hazard_type = some "white_phosphorus_forest";
  confidence = none;
  regional = hot;
  local = none;
  smouldering = none;
}

abbrev probe : LocalReading
probe = record {
  temperature_c = some (units 33);
  soil_moisture_pct = some (units 12);
  device_id = some "probe-7";
}

abbrev probed_input : DecisionInput
probed_input = record forest_input { local = some probe }

abbrev cool_phosphorus : DecisionInput
cool_phosphorus = record forest_input { hazard_type = some "white_phosphorus"; regional = cool }

decide-pages_example :
    let d = decide no_number forest_input in
    is_critical d.level
    ≡ pages_for
        (some "white_phosphorus_forest")
        false
        (window_open d.conditions)
        (is_credible_detection no_number none)
decide-pages_example = decide-pages no_number forest_input
