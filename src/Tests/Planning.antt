-- ===== src/Tests/Planning.antt =====
-- Plans and their gaps, and the conditions of the zones, on small inputs.
use open_fire_watch.Base.{
  ℕ, ◌≡◌, ◌&&◌, not, String, Bool, true, none, some, List, [], ◌∷◌, All, any, leb, arith,
}
use open_fire_watch.Base.Map.{find}
use open_fire_watch.Evaluation.Level.{units}
use open_fire_watch.Sensors.Current.{LocalConditions, current_by_zone}
use open_fire_watch.Sensors.Current.Laws.{IsCovered, current_by_zone-covers}
use open_fire_watch.Backfill.Plan.{
  SourceAvailability, BackfillRequest, plan_backfill, coverage_gaps,
}
use open_fire_watch.Backfill.Plan.Windows.{asks_for, tally}
use open_fire_watch.Backfill.Plan.Requests.{IsChronological, demand, plan_backfill-demand}
use open_fire_watch.Backfill.Plan.Gaps.{in_gap, coverage_gaps-any}

abbrev warm_row : LocalConditions
warm_row = record {
  zone_id = 4;
  observed_at = 1000;
  temperature_c = some (units 30);
  soil_moisture_pct = none;
  device_id = "a";
}

abbrev dry_row : LocalConditions
dry_row = record {
  zone_id = 4;
  observed_at = 2000;
  temperature_c = some (units 25);
  soil_moisture_pct = some (units 11);
  device_id = "b";
}

abbrev sensor_rows : List LocalConditions
sensor_rows = warm_row ∷ dry_row ∷ []

abbrev merged_row : LocalConditions
merged_row = record {
  zone_id = 4;
  observed_at = 2000;
  temperature_c = some (units 30);
  soil_moisture_pct = some (units 11);
  device_id = "a";
}

current_by_zone-covers_example :
    All (λ row. row.zone_id ≡ 4 → IsCovered row (find 4 (current_by_zone sensor_rows))) sensor_rows
current_by_zone-covers_example = current_by_zone-covers 4 sensor_rows

-- An archive product that ends on day 112, and the near-real-time product from then on.
abbrev archive : SourceAvailability
archive = record { source = "VIIRS_SNPP_SP"; min_date = 10; max_date = 112 }

abbrev recent : SourceAvailability
recent = record { source = "VIIRS_SNPP_NRT"; min_date = 115; max_date = 130 }

abbrev products : List SourceAvailability
products = archive ∷ recent ∷ []

abbrev families : List String
families = "VIIRS_SNPP" ∷ []

-- The order of names does not matter here.
abbrev any_order : String → String → Bool
any_order a b = true

abbrev two_requests : List BackfillRequest
two_requests =
    record { source = "VIIRS_SNPP_SP"; start_date = 108; day_range = 5 }
    ∷ record { source = "VIIRS_SNPP_NRT"; start_date = 115; day_range = 2 }
    ∷ []

plan_backfill-demand_example :
    (plan : List BackfillRequest) × (plan_backfill any_order 108 116 families products ≡ some plan)
    × IsChronological plan
    × ((d : ℕ) → tally (asks_for d) plan ≡ demand 108 116 d families products)
plan_backfill-demand_example =
    plan_backfill-demand any_order 108 116 families products (omega arith)

coverage_gaps-any_example :
    any (in_gap 113) (coverage_gaps 108 116 two_requests)
    ≡ (leb 108 113 && leb 113 116 && not (any (asks_for 113) two_requests))
coverage_gaps-any_example = coverage_gaps-any 108 116 113 two_requests (omega arith)
