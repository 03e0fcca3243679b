-- ===== src/Evaluation/Decision/Order.antt =====
-- How verdicts of alert-decision.ts compare, and what explains the ones below critical.
use open_fire_watch.Base.{
  ◌≡◌, refl, sym, ◌∙◌, ap, String, Bool, true, false, Option, none, some, arith, is_some,
}
use open_fire_watch.Base.Int.{ℤ, ◌≤ℤ◌}
use open_fire_watch.Evaluation.Level.{AlertLevel, HazardProfile, elevated, is_critical, profile_for}
use open_fire_watch.Evaluation.Level.Cases.{
  ProfileCase, profile_cases, phosphorus, forest, wildfire, depot, other,
}
use open_fire_watch.Base.Text.{Text}
use open_fire_watch.Evaluation.Credible.{is_credible_detection}
use open_fire_watch.Evaluation.Decision.{
  Conditions, SmoulderingEvidence, DecisionInput, LocalReading, WithheldBecause, ignition_not_met,
  low_confidence, window_open, apply_profile, conditions_of, ground_source_of, decide_for, decide,
}
use open_fire_watch.Evaluation.Decision.Laws.{pages_for, decide-pages, decide-conditions}

abbrev pub is_elevated : AlertLevel → Bool
is_elevated elevated = true
is_elevated _ = false

-- At least as warm, and at least as dry.
abbrev pub IsHarsher : Conditions → Conditions → Type 0
IsHarsher d c = (c.temperature_c ≤ℤ d.temperature_c) × (d.soil_moisture_pct ≤ℤ c.soil_moisture_pct)

window_open-IsHarsher :
    (c d : Conditions) → IsHarsher d c → window_open c ≡ true → window_open d ≡ true
unfolding window_open
window_open-IsHarsher c d h o = ground arith

conditions_of-IsHarsher :
    (l : Option LocalReading) (c d : Conditions)
    → IsHarsher d c
    → IsHarsher (conditions_of l d) (conditions_of l c)
conditions_of-IsHarsher none c d h = h
conditions_of-IsHarsher (some l) c d h = ground arith

pages_for_mono :
    (hazard : Option String) (observed credible o o' : Bool)
    → (o ≡ true → o' ≡ true)
    → pages_for hazard observed o credible ≡ true
    → pages_for hazard observed o' credible ≡ true
pages_for_mono none observed credible o o' h p = p
pages_for_mono (some z) true credible o o' h p = refl
pages_for_mono (some z) false credible false true h p = ground arith
pages_for_mono (some z) false credible true false h p = cc (h refl)
pages_for_mono (some z) false credible true true h p = p
pages_for_mono (some z) false credible false false h p = p

-- A reason stands with ELEVATED alone, and what it says holds.
abbrev pub IsExplained :
    Bool → Bool → Option Text → Conditions → AlertLevel → Option WithheldBecause → Type 0
IsExplained is_open credible confidence c level none = is_elevated level ≡ false
IsExplained is_open credible confidence c level (some (ignition_not_met quoted source)) =
    (level ≡ elevated) × (is_open ≡ false) × (quoted ≡ c)
IsExplained is_open credible confidence c level (some (low_confidence quoted)) =
    (level ≡ elevated) × (credible ≡ false) × (quoted ≡ confidence)

apply-IsExplained :
    (profile : HazardProfile) (is_open credible : Bool) (confidence : Option Text) (c : Conditions)
    (source : String)
    → is_elevated profile.critical_level ≡ false
    → let d = apply_profile profile is_open credible confidence c source in
      IsExplained is_open credible confidence c d.level d.withheld_because
unfolding apply_profile
apply-IsExplained profile is_open credible confidence c source h = ground arith

profile_for-critical :
    (hazard : String) → ProfileCase hazard → is_elevated (profile_for hazard).critical_level ≡ false
profile_for-critical hazard (phosphorus e p) = rw p
profile_for-critical hazard (forest e p) = rw p
profile_for-critical hazard (depot e p) = rw p
profile_for-critical hazard (wildfire o p) = rw p
profile_for-critical hazard (other o p) = rw p

conditions_of-full :
    (local : Option LocalReading) (l : LocalReading) (t m : ℤ) (c d : Conditions)
    → local ≡ some l
    → l.temperature_c ≡ some t
    → l.soil_moisture_pct ≡ some m
    → conditions_of local c ≡ conditions_of local d
conditions_of-full local l t m c d p q r = ground arith

module _ (to_number : Text → Option ℤ) where
  paged :
      (input : DecisionInput)
      → is_critical (decide to_number input).level
        ≡ pages_for input.hazard_type
            (is_some input.smouldering)
            (window_open (conditions_of input.local input.regional))
            (is_credible_detection to_number input.confidence)
  paged input = rw (← decide-conditions to_number input) (decide-pages to_number input)

  -- Regional conditions that are at least as warm and as dry never take a critical verdict back.
  pub decide_mono :
      (input : DecisionInput) (harsher : Conditions)
      → IsHarsher harsher input.regional
      → is_critical (decide to_number input).level ≡ true
      → is_critical (decide to_number (record input { regional = harsher })).level ≡ true
  decide_mono input harsher h p =
      paged (record input { regional = harsher })
      ∙ pages_for_mono input.hazard_type (is_some input.smouldering)
          (is_credible_detection to_number input.confidence)
          (window_open (conditions_of input.local input.regional))
          (window_open (conditions_of input.local harsher))
          (window_open-IsHarsher _ _ (conditions_of-IsHarsher input.local input.regional harsher h))
          (sym (paged input) ∙ p)

  -- Whatever would be critical in a wildfire zone is critical in a contaminated forest.
  pub decide-forest_of_wildfire :
      (input : DecisionInput)
      → is_critical (decide to_number (record input { hazard_type = some "wildfire" })).level ≡ true
      → is_critical
          (decide to_number (record input { hazard_type = some "white_phosphorus_forest" })).level
        ≡ true
  decide-forest_of_wildfire input p =
      paged (record input { hazard_type = some "white_phosphorus_forest" })
      ∙ ground (arith, sym (paged (record input { hazard_type = some "wildfire" })) ∙ p)

  -- A sensor that measures both quantities decides alone: the regional estimate has no influence.
  pub decide-local :
      (input : DecisionInput) (l : LocalReading) (t m : ℤ) (regional : Conditions)
      → input.local ≡ some l
      → l.temperature_c ≡ some t
      → l.soil_moisture_pct ≡ some m
      → decide to_number input ≡ decide to_number (record input { regional = regional })
  unfolding decide
  decide-local input l t m regional p q r =
      ap
        (λ c.
          decide_for to_number input.hazard_type input.smouldering input.confidence c
            (ground_source_of input.local))
        (conditions_of-full input.local l t m input.regional regional p q r)

  decide_for-IsExplained :
      (hazard : Option String) (evidence : Option SmoulderingEvidence) (confidence : Option Text)
      (c : Conditions) (source : String)
      → let d = decide_for to_number hazard evidence confidence c source in
        IsExplained
          (window_open c)
          (is_credible_detection to_number confidence)
          confidence
          c
          d.level
          d.withheld_because
  unfolding decide_for
  decide_for-IsExplained none evidence confidence c source = refl
  decide_for-IsExplained (some h) (some e) confidence c source = refl
  decide_for-IsExplained (some h) none confidence c source =
      apply-IsExplained (profile_for h) (window_open c) (is_credible_detection to_number confidence)
        confidence c source (profile_for-critical h (profile_cases h))

  -- A verdict is ELEVATED exactly when a reason is given for it, and the reason is true: the window
  -- is closed under the decided conditions, which it quotes, or the detection, whose rating it
  -- quotes, is not credible.
  pub decide-IsExplained :
      (input : DecisionInput)
      → let d = decide to_number input in
        IsExplained
          (window_open d.conditions)
          (is_credible_detection to_number input.confidence)
          input.confidence
          d.conditions
          d.level
          d.withheld_because
  unfolding decide
  decide-IsExplained input =
      rw decide-conditions
        (decide_for-IsExplained input.hazard_type input.smouldering input.confidence _ _)
