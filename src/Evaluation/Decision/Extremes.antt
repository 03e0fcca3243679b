-- ===== src/Evaluation/Decision/Extremes.antt =====
-- The verdicts at both ends of alert-decision.ts: outside every zone, and where persistence was seen.
use open_fire_watch.Base.{
  ◌≡◌, refl, String, Bool, true, false, ◌&&◌, not, Option, none, some, arith, is_some,
}
use open_fire_watch.Base.Int.{ℤ}
use open_fire_watch.Evaluation.Level.{
  AlertLevel, HazardProfile, is_info, critical_smouldering, profile_for,
}
use open_fire_watch.Evaluation.Level.Cases.{
  ProfileCase, profile_cases, phosphorus, forest, wildfire, depot, other,
}
use open_fire_watch.Base.Text.{Text}
use open_fire_watch.Evaluation.Decision.{
  Conditions, SmoulderingEvidence, DecisionInput, apply_profile, decide_for, decide,
}

abbrev pub is_smouldering : AlertLevel → Bool
is_smouldering critical_smouldering = true
is_smouldering _ = false

profile_for-smouldering :
    (hazard : String)
    → ProfileCase hazard
    → is_smouldering (profile_for hazard).critical_level ≡ false
profile_for-smouldering hazard (phosphorus e p) = rw p
profile_for-smouldering hazard (forest e p) = rw p
profile_for-smouldering hazard (depot e p) = rw p
profile_for-smouldering hazard (wildfire o p) = rw p
profile_for-smouldering hazard (other o p) = rw p

apply-smouldering :
    (profile : HazardProfile) (is_open credible : Bool) (confidence : Option Text) (c : Conditions)
    (source : String)
    → is_smouldering profile.critical_level ≡ false
    → is_smouldering (apply_profile profile is_open credible confidence c source).level ≡ false
unfolding apply_profile
apply-smouldering profile is_open credible confidence c source h = ground arith

decide_for-smouldering :
    (to_number : Text → Option ℤ) (hazard : Option String) (evidence : Option SmoulderingEvidence)
    (confidence : Option Text) (c : Conditions) (source : String)
    → is_smouldering (decide_for to_number hazard evidence confidence c source).level
      ≡ (is_some hazard && is_some evidence)
unfolding decide_for
decide_for-smouldering n none evidence confidence c source = refl
decide_for-smouldering n (some h) (some e) confidence c source = refl
decide_for-smouldering n (some h) none confidence c source =
    apply-smouldering (profile_for h) _ _ confidence c source
      (profile_for-smouldering h (profile_cases h))

-- Persistence inside a zone is reported as CRITICAL_SMOULDERING whatever else holds, and nothing
-- else is reported so.
pub decide-smouldering :
    (to_number : Text → Option ℤ) (input : DecisionInput)
    → is_smouldering (decide to_number input).level
      ≡ (is_some input.hazard_type && is_some input.smouldering)
unfolding decide
decide-smouldering to_number input = decide_for-smouldering to_number input.hazard_type _ _ _ _

profile_for-info :
    (hazard : String) → ProfileCase hazard → is_info (profile_for hazard).critical_level ≡ false
profile_for-info hazard (phosphorus e p) = rw p
profile_for-info hazard (forest e p) = rw p
profile_for-info hazard (depot e p) = rw p
profile_for-info hazard (wildfire o p) = rw p
profile_for-info hazard (other o p) = rw p

apply-info :
    (profile : HazardProfile) (is_open credible : Bool) (confidence : Option Text) (c : Conditions)
    (source : String)
    → is_info profile.critical_level ≡ false
    → is_info (apply_profile profile is_open credible confidence c source).level ≡ false
unfolding apply_profile
apply-info profile is_open credible confidence c source h = ground arith

decide_for-info :
    (to_number : Text → Option ℤ) (hazard : Option String) (evidence : Option SmoulderingEvidence)
    (confidence : Option Text) (c : Conditions) (source : String)
    → is_info (decide_for to_number hazard evidence confidence c source).level
      ≡ not (is_some hazard)
unfolding decide_for
decide_for-info n none evidence confidence c source = refl
decide_for-info n (some h) (some e) confidence c source = refl
decide_for-info n (some h) none confidence c source =
    apply-info (profile_for h) _ _ confidence c source (profile_for-info h (profile_cases h))

-- A verdict is INFO exactly when the detection lies outside every zone.
pub decide-info :
    (to_number : Text → Option ℤ) (input : DecisionInput)
    → is_info (decide to_number input).level ≡ not (is_some input.hazard_type)
unfolding decide
decide-info to_number input = decide_for-info to_number input.hazard_type _ _ _ _
